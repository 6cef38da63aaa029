-- ===== src/Follower/Samples.antt =====
-- A follower of mantis_follower.py over an arm of two driven joints and a parked one, with an obstacle.
use text.Mathlib.Text.{◌==◌ as str_eq}
use native.Mathlib.Nat.{le_refl}
use vla_mantis.Base.{
  refl, ℕ, Bool, true, false, ◌&&◌, Option, none, some, List, [], ◌∷◌, String, get_or,
  if◌then◌else◌,
}
use vla_mantis.Base.Fixed.{fixed, Fixed}
use vla_mantis.HomePlanner.{Rng}
use vla_mantis.Follower.State.{Ik, Setup, Follower}
use vla_mantis.Follower.Waiting.{Round}
use vla_mantis.Follower.Polyline.{Drive}
use vla_mantis.Follower.Action.{Action, Reading}
use vla_mantis.Follower.Homing.{Attempt}

-- Tenths of a radian, of a second or of a metre.
abbrev pub tenths : ℕ → Fixed
tenths n = fixed.lit n 1

abbrev pub pair : ℕ → ℕ → List Fixed
pair a b = tenths a ∷ tenths b ∷ []

abbrev near_half : Fixed → Bool
near_half x = fixed.lt (fixed.abs (fixed.sub x (tenths 5))) (tenths 2)

-- The obstacle stands around the middle of the square.
abbrev obstacle : List Fixed → Fixed → Fixed × String
obstacle q scale =
    if near_half (get_or q 0 none) && near_half (get_or q 1 none)
    then (fixed.neg (tenths 1), "wrist<->table")
    else (tenths 1, "")

abbrev pub model : Ik fixed
model = record {
  has_geom = true;
  neutral = pair 0 0;
  qindex = λ j. if str_eq j "pan" then 0 else 1;
  lower = fixed.neg (tenths 30) ∷ fixed.neg (tenths 30) ∷ [];
  upper = pair 30 30;
  margin_at = obstacle;
}

abbrev pub dice : ℕ → Rng fixed
dice seed = record {
  uniform = λ n lo hi. lo;
  uniform_length = λ n lo hi. refl;
  integers = λ n a b. a;
  integers_range = λ n a b h. (le_refl a, h);
}

abbrev pub setup : Setup fixed
setup = record {
  arm = "pan" ∷ "wrist" ∷ [];
  arm_cmd_joints = "pan" ∷ "wrist" ∷ "other" ∷ [];
  safety_filter_joints = "pan" ∷ "wrist" ∷ [];
  use_safety_filter = false;
  home_q = pair 0 0;
  home_vel = tenths 3;
  home_done_tol = tenths 1;
  home_settle_grace = tenths 20;
  home_check_step = tenths 1;
  meas_gate_frac = tenths 6;
  max_joint_lead = tenths 2;
  out_vel = tenths 15;
  out_kp = tenths 100;
  grip_open = tenths 1;
  grip_joint = "finger";
  camera_topics = "front" ∷ [];
  connect_timeout = tenths 100;
  camera_timeout = tenths 50;
  approach_tol = tenths 1;
  approach_vel = tenths 3;
  gripper_tol = tenths 0;
  home_planner = true;
  home_gate = true;
  home_allow_partial = true;
  home_floor_scales = tenths 10 ∷ tenths 5 ∷ tenths 0 ∷ [];
  home_rrt_step = tenths 3;
  home_smooth_time_s = tenths 20;
  home_total_time_s = tenths 1200;
  home_max_attempts = 4;
  home_plan_time_s = tenths 80;
  home_settle_tol = tenths 3;
  default_rng = dice;
  pink_ik = λ locked. model;
}

abbrev pub no_joints_yet : String → Option Fixed
no_joints_yet j = none

abbrev pub follower : Follower fixed
follower = record {
  pos = λ j. some (tenths 0);
  parked = no_joints_yet;
  locked = no_joints_yet;
  cmd_joints = [];
  first_action = true;
  connected = false;
  seg = none;
  gap_ema = tenths 1;
  last_send_t = none;
  grip_sent = none;
  ik = none;
  img_msg = λ k. none;
  img_shape = λ k. none;
  segments = [];
  targets = [];
  goals = [];
}

-- The segment is under way in the first round and complete in the second.
abbrev pub round : ℕ → List Fixed → Round fixed
round t q = record {
  alive = true;
  at = tenths t;
  now = tenths t;
  meas = q;
  stop_at = tenths t;
  stop_t0 = tenths t;
}

abbrev pub rounds : List (Round fixed)
rounds = round 20 (pair 5 0) ∷ round 2000 (pair 0 0) ∷ []

abbrev pub drive : Drive fixed
drive = record {
  gate_meas = pair 5 0;
  seg_at = tenths 10;
  here = pair 5 0;
  anchor = pair 5 0;
  legs = λ k. record { start = tenths 10; rounds = rounds };
}

-- Every attempt finds the arm half a radian from home, and plans the straight way.
abbrev pub attempt_at : ℕ → Attempt fixed
attempt_at k = record {
  alive = true;
  meas = pair 5 0;
  now = tenths 5;
  plan_now = tenths 5;
  search = record { readings = tenths 6 ∷ tenths 7 ∷ []; draws = 0 };
  drive = drive;
  settle_now = tenths 2000;
  looks = record { alive = true; now = tenths 2001; meas = pair 0 0 } ∷ [];
  after = pair 0 0;
  retry_now = tenths 100;
}

abbrev pub reading : List Fixed → Reading fixed
reading q = record {
  now = tenths 10;
  meas = q;
  seg_t0 = tenths 10;
  rounds = rounds;
  grip_ready = true;
}

abbrev pub action : ℕ → ℕ → Action fixed
action a b = record {
  joints = λ j. some (if str_eq j "pan" then tenths a else tenths b);
  gripper = some (tenths 1);
}
