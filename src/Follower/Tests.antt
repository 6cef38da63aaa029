-- ===== src/Follower/Tests.antt =====
-- The follower of mantis_follower.py on an arm of two joints with an obstacle beside its way home.
use vla_mantis.Base.{
  ◌≡◌, refl, true, false, Option, none, some, String, List, [], ◌∷◌, ◌++◌, ◌+◌, max, map,
}
use vla_mantis.Base.Num.{max_abs}
use vla_mantis.Base.Fixed.{fixed, Fixed}
use vla_mantis.Base.Int.{◌+ℤ◌, ◌-ℤ◌, scaled_mul, scaled_div}
use vla_mantis.HomePlanner as Planner
use vla_mantis.HomePlanner.{World}
use vla_mantis.Teleop.Command.{IsVector, full_cmd_of}
use vla_mantis.Follower.State.{Segment, Follower, progress, set_target, target_value}
use vla_mantis.Follower.Edge.{as_planner, edge_margin}
use vla_mantis.Follower.Tiers.{hp, edge, plan_direct}
use vla_mantis.Follower.Waiting.{Status, done, wait_from, settle_from, Waited, wait_from-Waited}
use vla_mantis.Follower.Polyline.{legs_from, ends, run_path, run_path-done}
use vla_mantis.Follower.Action.{Sent, sent, key_error, collides, send_action}
use vla_mantis.Follower.Approach.{Led, send_action-Led, send_action-Clear}
use vla_mantis.Follower.Connecting.{
  Link, Connected, linked, no_sink, no_joints, bad_frame, no_frames, not_latched, Topic,
  command_sink, wait_for_frames, frames_from, connect,
}
use vla_mantis.Follower.Observing.{
  Pixels, Feature, float, image, joint_features, observation_features, observed, get_observation,
}
use vla_mantis.Follower.Latching.{connect-set_target}
use vla_mantis.Follower.Featured.{Shaped, connect-get_observation}
use vla_mantis.Recorder.Image.{Image, codes, channels, recolor, to_rgb}
use vla_mantis.Follower.Search.{plan_home}
use vla_mantis.Follower.Same.{plan_home_eq}
use vla_mantis.Follower.Homing.{Homed, returns, Tries, attempt, go_home}
use vla_mantis.Follower.Ending.{Ended, go_home-Ended}
use vla_mantis.Follower.Homeward.{Walks, go_home-Homeward}
use vla_mantis.Follower.Samples.{
  tenths, pair, model, dice, setup, follower, rounds, drive, attempt_at, reading, action,
}

abbrev homing : Homed × Tries fixed × Follower fixed
homing = go_home fixed setup (pair 5 0) true (tenths 0) attempt_at follower

go_home-Ended_example :
    Ended fixed setup attempt_at (pair 5 0) (tenths 0) follower homing.0 homing.1
go_home-Ended_example = go_home-Ended fixed setup attempt_at (pair 5 0) true (tenths 0) follower

-- The straight way is clear, and the arm settles at home.
homed : homing.0 ≡ returns true
unfolding go_home attempt max_abs ◌+ℤ◌ ◌-ℤ◌ scaled_mul scaled_div plan_home Planner.monotonic
    Planner.take_path plan_direct edge edge_margin Planner.sample_order settle_from
homed = refl

go_home-Homeward_example :
    (new : List (Segment fixed)) × (homing.2.segments ≡ new ++ [])
    × Walks fixed setup attempt_at model none (max 1 4 + 1) new
go_home-Homeward_example =
    go_home-Homeward fixed setup attempt_at (pair 5 0) true (tenths 0) follower refl refl refl
      (λ k. refl)

abbrev world : World fixed
world = record { readings = tenths 1 ∷ tenths 2 ∷ []; draws = 0 }

plan_home_eq_example :
    plan_home fixed setup model (dice 1) (pair 5 0) (pair 0 0) (tenths 80) 0 world
    ≡ Planner.plan fixed (hp fixed setup model) (dice 1) (pair 5 0) (pair 0 0) (tenths 80) 0 world
plan_home_eq_example =
    plan_home_eq fixed setup model (dice 1) refl (pair 5 0) (pair 0 0) refl (tenths 80) 0 world

wait_from-Waited_example :
    Waited fixed setup rounds none none
      (tenths 10)
      follower
      (wait_from fixed setup rounds none none (tenths 10) (tenths 0) follower)
wait_from-Waited_example =
    wait_from-Waited fixed setup rounds none none (tenths 10) (tenths 0) follower

abbrev walked : Status × Follower fixed
walked = run_path fixed setup (pair 5 3 ∷ pair 0 0 ∷ []) (tenths 3) none (tenths 10) drive follower

walked_done : walked ≡ (done, walked.1)
unfolding run_path wait_from max_abs ◌+ℤ◌ ◌-ℤ◌ scaled_mul scaled_div legs_from progress
walked_done = refl

run_path-done_example :
    ends fixed setup walked.1.segments ≡ (pair 5 3, pair 0 0) ∷ (pair 5 0, pair 5 3) ∷ []
run_path-done_example =
    run_path-done fixed setup (pair 5 3 ∷ pair 0 0 ∷ []) (tenths 3) none (tenths 10) drive follower
      walked.1 walked_done

send_action-Led_example :
    Led fixed setup
      (pair 0 0)
      (pair 10 0)
      []
      (send_action fixed setup (reading (pair 0 0)) (action 10 0) follower)
send_action-Led_example =
    send_action-Led fixed setup (reading (pair 0 0)) (action 10 0) (pair 10 0) follower refl

abbrev left_by : Sent fixed → Follower fixed
left_by (sent st) = st
left_by (key_error st) = st
left_by (collides st) = st

abbrev approached : Sent fixed
approached = send_action fixed setup (reading (pair 0 0)) (action 10 0) follower

approached_sent : approached ≡ sent (left_by approached)
unfolding send_action edge_margin max_abs ◌+ℤ◌ ◌-ℤ◌ scaled_mul scaled_div Planner.sample_order
approached_sent = refl

send_action-Clear_example :
    Planner.Clear fixed (as_planner fixed setup model) (tenths 10) (tenths 0) (pair 0 0) (pair 10 0)
unfolding max_abs ◌-ℤ◌
send_action-Clear_example =
    send_action-Clear fixed setup (reading (pair 0 0)) (action 10 0) (pair 10 0) follower
      (left_by approached) refl refl refl approached_sent

-- The straight way to (1.0, 1.0) is blocked.
abbrev blocked : Sent fixed
blocked = send_action fixed setup (reading (pair 0 0)) (action 10 10) follower

abbrev front_image : Image
front_image = record {
  sec = 1;
  nanosec = 0;
  height = 1;
  width = 1;
  step = 3;
  encoding = codes "rgb8";
  is_bigendian = false;
  bytes = 1 ∷ 2 ∷ 3 ∷ [];
}

abbrev link : Link fixed
link = record {
  t0 = tenths 0;
  joint_rounds = (tenths 1, λ j. some (tenths 2)) ∷ [];
  frames_t0 = tenths 1;
  frame_rounds = (tenths 2, []) ∷ (tenths 3, ("front", front_image) ∷ []) ∷ [];
  frames = [];
  late_frames = [];
  pos = λ j. some (tenths 2);
}

abbrev state_of : Connected fixed → Follower fixed
state_of (linked st) = st
state_of no_sink = follower
state_of (no_joints st) = st
state_of (no_frames ks st) = st
state_of bad_frame = follower
state_of not_latched = follower

abbrev connected : Follower fixed
connected = state_of (connect fixed setup link follower)

connected_linked : connect fixed setup link follower ≡ linked connected
unfolding connect wait_for_frames frames_from to_rgb channels recolor ◌-ℤ◌
connected_linked = refl

connect-set_target_example :
    ((t : Topic) × (command_sink fixed setup ≡ some (t, connected.cmd_joints)))
    × ((full : List Fixed) × (set_target fixed setup (pair 3 4) connected
          ≡ some (record connected { targets = full ∷ connected.targets }))
        × IsVector Fixed (target_value fixed setup (pair 3 4) connected) connected.cmd_joints full)
connect-set_target_example =
    connect-set_target fixed setup link follower connected (pair 3 4) connected_linked refl

-- The two driven joints, and the joint that was parked at 0.2.
vector :
    set_target fixed setup (pair 3 4) connected
    ≡ some (record connected { targets = (tenths 3 ∷ tenths 4 ∷ tenths 2 ∷ []) ∷ [] })
unfolding set_target connect wait_for_frames frames_from to_rgb channels recolor ◌-ℤ◌ full_cmd_of
vector = refl

abbrev at_rest : String → Option Fixed
at_rest j = some (tenths 2)

connect-get_observation_example :
    (fs : List (String × Feature)) × (vs : List (String × Fixed)) × (g : Fixed) × (imgs : List
      (String × Pixels))
    × (observation_features fixed setup connected ≡ some (joint_features fixed setup ++ fs))
    × (get_observation fixed setup (record connected { pos = at_rest }) ≡ observed vs g imgs)
    × (map (λ v. v.0) vs ≡ setup.arm)
    × (map (λ i. i.0) imgs ≡ setup.camera_topics)
    × Shaped fs imgs
connect-get_observation_example =
    connect-get_observation fixed setup link follower connected at_rest connected_linked
      (refl, (refl, tt))

features :
    observation_features fixed setup connected
    ≡ some (("pan", float) ∷ ("wrist", float) ∷ ("gripper", float) ∷ ("front", image 1 1 3) ∷ [])
unfolding observation_features connect wait_for_frames frames_from to_rgb channels recolor ◌-ℤ◌
features = refl

observation :
    get_observation fixed setup connected
    ≡ observed
        (("pan", tenths 0) ∷ ("wrist", tenths 0) ∷ [])
        (tenths 0)
        (("front", ((1 ∷ 2 ∷ 3 ∷ []) ∷ []) ∷ []) ∷ [])
unfolding get_observation connect wait_for_frames frames_from to_rgb channels recolor ◌-ℤ◌
observation = refl
