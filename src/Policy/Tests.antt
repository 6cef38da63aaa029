-- ===== src/Policy/Tests.antt =====
-- The dummy policy server of dummy_policy_server.py over two rows.
use vla_mantis.Base.{
  ℕ, ◌≡◌, refl, ◌↔◌, Bool, true, false, none, some, List, [], ◌∷◌, String, map, range_from, arith,
}
use vla_mantis.Base.Num.{max_abs}
use vla_mantis.Base.Fixed.{fixed, Fixed}
use vla_mantis.Base.Int.{◌+ℤ◌, ◌-ℤ◌, scaled_mul, scaled_div}
use vla_mantis.Policy.Table.{Casts, Episode, episode, action_names, build_table, check_speed}
use vla_mantis.Policy.Steady.{IsSteady, check_speed-IsSteady}
use vla_mantis.Policy.Columns.{
  Order, as_is, reordered, Unpacked, resolve_column_order, order_of-Unpacked,
}
use vla_mantis.Policy.Server.{ServerConfig, Server, create, predict_action_chunk}
use vla_mantis.Policy.Serving.{trajectory, created-trajectory}

abbrev tenths : ℕ → Fixed
tenths n = fixed.lit n 1

-- The samples are whole tenths, which need no rounding.
abbrev casts : Casts fixed
casts = record { of_nat = λ n. fixed.lit n 0; round = λ x. 1; f32 = λ x. x }

abbrev row_of : ℕ → List Fixed
row_of a = tenths a ∷ tenths 0 ∷ tenths 0 ∷ tenths 0 ∷ tenths 0 ∷ tenths 0 ∷ tenths 1 ∷ []

abbrev recorded : Episode fixed
recorded = record { names = action_names; fps = 15; actions = row_of 0 ∷ row_of 1 ∷ [] }

abbrev config : ServerConfig fixed
config = record {
  source = episode;
  fps = 15;
  actions_per_chunk = 3;
  scale = fixed.lit 1 0;
  max_joint_vel = tenths 50;
  loop = false;
}

abbrev server : Server fixed
server = record {
  config = config;
  actions = row_of 0 ∷ row_of 1 ∷ [];
  predicted_timesteps = [];
  column_order = as_is;
  exhausted_logged = false;
  last_processed_obs = none;
}

created : create fixed casts config recorded [] ≡ some server
unfolding create build_table check_speed max_abs ◌+ℤ◌ ◌-ℤ◌ scaled_mul scaled_div
created = refl

-- The gripper first: the client's order.
abbrev client_names : List String
client_names =
    "gripper.pos" ∷ "left_shoulder_pan_joint.pos" ∷ "left_shoulder_lift_joint.pos"
    ∷ "left_elbow_joint.pos" ∷ "left_wrist_1_joint.pos" ∷ "left_wrist_2_joint.pos"
    ∷ "left_wrist_3_joint.pos" ∷ []

order_of-Unpacked_example : Unpacked client_names (resolve_column_order (some client_names))
order_of-Unpacked_example = order_of-Unpacked client_names

abbrev gripper_first : Order
gripper_first = reordered (6 ∷ 0 ∷ 1 ∷ 2 ∷ 3 ∷ 4 ∷ 5 ∷ [])

resolved : resolve_column_order (some client_names) ≡ gripper_first
unfolding resolve_column_order
resolved = refl

abbrev live : Server fixed
live = record server {
  column_order = gripper_first;
  exhausted_logged = false;
  last_processed_obs = some 0;
}

created-trajectory_example :
    ((f : Bool) × (predict_action_chunk fixed 1 live ≡ (
      some (map (trajectory fixed live) (range_from 1 3)),
      record live { exhausted_logged = f; last_processed_obs = some 1 },
    )))
    × IsSteady fixed casts 15 (tenths 50) server.actions
created-trajectory_example =
    created-trajectory fixed casts config recorded [] server gripper_first false (some 0) 1 created
      (omega arith)

check_speed-IsSteady_example :
    (check_speed fixed casts server.actions 15 (tenths 50) ≡ true)
    ↔ IsSteady fixed casts 15 (tenths 50) server.actions
check_speed-IsSteady_example = check_speed-IsSteady fixed casts server.actions 15 (tenths 50)

-- A tenth of a radian in a fifteenth of a second is faster than 1.4 rad/s.
too_fast : check_speed fixed casts server.actions 15 (tenths 14) ≡ false
unfolding check_speed max_abs ◌+ℤ◌ ◌-ℤ◌ scaled_mul scaled_div
too_fast = refl
