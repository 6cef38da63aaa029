-- ===== src/Teleop/Tests.antt =====
-- The gripper and the move to home of teleop_mantis.py on a few ticks.
use vla_mantis.Base.{true, false, none, some, List, [], ◌∷◌, ◌≡◌, refl, ℕ, arith}
use vla_mantis.Base.Int.{pos, ◌+ℤ◌, ◌-ℤ◌, scaled_mul, scaled_div}
use vla_mantis.Base.Num.{minimum, max_abs}
use vla_mantis.Base.Fixed.{fixed, Fixed}
use vla_mantis.HomePlanner.{HomePlanner, World, Rng, margin}
use native.Mathlib.Nat.{le_refl}
use vla_mantis.Teleop.Home.{
  Setup, Home, route, home_path_clear, scan_home, start_home, home_tick, command,
}
use vla_mantis.Teleop.Ramp.{on_way, Ticked, home_tick-Ticked, home_tick-gate}
use vla_mantis.Teleop.Route.{Started, start_home-Started}
use vla_mantis.Recorder.Counting.{counting, two_cameras, arm_node, fresh}
use vla_mantis.Teleop.Recording.{episode_recorder}
use vla_mantis.Teleop.Buttons.{RecorderApi, Timing, Panel, press}
use vla_mantis.Teleop.Buttons
use vla_mantis.Teleop.Exclusive.{IsExclusive}
use vla_mantis.Teleop.Apart.{press-IsExclusive}
use vla_mantis.Teleop.Gripper.{
  Settings, Gripper, Reading, grip_update, grip_tick, Event, buttons, timer, step, run,
}
use vla_mantis.Teleop.Settled.{Settled, grip_update-Settled}
use vla_mantis.Teleop.Settling.{flip_times, IsDebounced, flip_times-IsDebounced}

-- Hundredths.
abbrev cents : ℕ → Fixed
cents n = fixed.lit n 2

abbrev wsg : Settings fixed
wsg = record {
  grip_open = cents 11;
  grip_close = cents 1;
  toggle_debounce = cents 25;
  retry_period = cents 100;
  retry_tol = cents 1;
  buttons_timeout = cents 50;
  grip_joint = some "left_gripper_joint";
}

abbrev opened : Gripper fixed
opened = record {
  want_closed = false;
  click_now = true;
  click_was = false;
  toggle_t = cents 0;
  sent = some (cents 11);
  send_t = cents 0;
  last_w = none;
  btn_t = cents 100;
  goals = [];
}

abbrev at_time : ℕ → Reading fixed
at_time n = record { now = cents n; joints = λ j. none; server_is_ready = true }

grip_update-Settled_example :
    Settled fixed wsg (at_time 101) opened (grip_update fixed wsg (at_time 101) opened)
grip_update-Settled_example = grip_update-Settled fixed wsg (at_time 101) opened refl

-- A click, its release, and a second click that comes too early.
abbrev clicks : List (Event fixed wsg)
clicks =
    timer (at_time 101)
    ∷ buttons false (cents 105)
    ∷ timer (at_time 106)
    ∷ buttons true (cents 110)
    ∷ timer (at_time 111)
    ∷ []

flip_times-IsDebounced_example :
    IsDebounced fixed wsg (cents 0) (flip_times fixed wsg clicks opened)
flip_times-IsDebounced_example = flip_times-IsDebounced fixed wsg clicks opened

-- Only the first click closes the gripper.
clicks_close : (run fixed wsg clicks opened).goals ≡ cents 1 ∷ []
unfolding run step grip_tick grip_update ◌+ℤ◌ ◌-ℤ◌
clicks_close = refl

-- An arm of two joints with 0.1 of clearance everywhere.
abbrev open_space : HomePlanner fixed
open_space = record {
  margin_at = λ q s. (cents 10, "");
  arm = "pan_joint" ∷ "wrist_joint" ∷ [];
  lo = fixed.neg (cents 300) ∷ fixed.neg (cents 300) ∷ [];
  hi = cents 300 ∷ cents 300 ∷ [];
  step = cents 10;
  scales = cents 100 ∷ [];
  rrt_step = cents 30;
  smooth_time_s = cents 30;
  allow_partial = true;
}

abbrev home_pose : List Fixed
home_pose = cents 20 ∷ cents 0 ∷ []

abbrev away : List Fixed
away = cents 0 ∷ cents 0 ∷ []

abbrev setup : Setup fixed
setup = record {
  home_q = home_pose;
  home_vel = cents 30;
  check_step = cents 10;
  use_planner = true;
  plan_time = cents 30;
  dwell = cents 20;
  done_tol = cents 5;
  settle_grace = cents 300;
  gate_frac = cents 60;
  max_joint_lead = cents 15;
  out_vel = cents 100;
  out_kp = cents 1000;
  lower = fixed.neg (cents 300) ∷ fixed.neg (cents 300) ∷ [];
  upper = cents 300 ∷ cents 300 ∷ [];
  has_geom = true;
  has_shaper = true;
  has_recorder = false;
  planner = open_space;
}

abbrev dice : Rng fixed
dice = record {
  uniform = λ n lo hi. lo;
  uniform_length = λ n lo hi. refl;
  integers = λ n a b. a;
  integers_range = λ n a b h. (le_refl a, h);
}

abbrev world : World fixed
world = record { readings = []; draws = 0 }

abbrev resting : Home fixed
resting = record {
  active = false;
  wps = [];
  i = 0;
  cur = none;
  scale = cents 100;
  floor = cents 0;
  v = cents 30;
  dwell_t = none;
  done_t = none;
  stop_rec = false;
  gate_t = cents 0;
  last_cmd = none;
  engaged = false;
  blend_n = 0;
  grip_want_closed = true;
  ending = none;
  commands = [];
  recorder_stops = 0;
}

start_home-Started_example :
    Started fixed setup dice away resting.last_cmd
      (start_home fixed setup dice true false away false world resting)
unfolding start_home route home_path_clear scan_home margin max_abs ◌+ℤ◌ ◌-ℤ◌ scaled_mul scaled_div
start_home-Started_example =
    start_home-Started fixed setup dice true false away false world resting refl refl refl

abbrev moving : Home fixed
moving = record resting {
  active = true;
  wps = home_pose ∷ [];
  cur = some away;
  grip_want_closed = false;
}

home_tick-Ticked_example :
    Ticked fixed setup moving (home_tick fixed setup (cents 10) (cents 500) away moving)
home_tick-Ticked_example =
    home_tick-Ticked fixed setup (cents 10) (cents 500) away moving
      (on_way away refl (omega arith) refl) refl

-- A tick of 0.1 s moves the first joint by 0.03.
abbrev moved : Home fixed
moved = command fixed setup (cents 3 ∷ cents 0 ∷ []) (record moving { gate_t = cents 500 })

moving_moves : home_tick fixed setup (cents 10) (cents 500) away moving ≡ some moved
unfolding home_tick margin max_abs ◌+ℤ◌ ◌-ℤ◌ scaled_mul scaled_div
moving_moves = refl

home_tick-gate_example :
    fixed.lt (margin fixed open_space away (minimum fixed (cents 60) (cents 100))).0 (cents 0)
    ≡ false
unfolding ◌+ℤ◌ ◌-ℤ◌
home_tick-gate_example =
    home_tick-gate fixed setup (cents 10) (cents 500) away moving moved moving_moves (λ e. cc) refl

abbrev recorder : RecorderApi
recorder = episode_recorder counting two_cameras arm_node (pos 0)

abbrev timing : Timing fixed recorder setup
timing = record {
  pad_bounce = cents 8;
  pad_debounce = cents 25;
  menu_debounce = cents 50;
  home_debounce = cents 50;
  axlock_debounce = cents 15;
  axis_lock = true;
  toggle_mode = false;
  home_on_stop = true;
  blend_ticks = 5;
}

abbrev panel : Panel fixed recorder setup
panel = record {
  home = moving;
  recorder = fresh;
  world = world;
  pad_was = false;
  menu_was = false;
  home_was = false;
  axlock_was = false;
  pad_t = cents 0;
  menu_t = cents 0;
  home_t = cents 0;
  axlock_t = cents 0;
  axlock_active = false;
  mark = false;
  captures = 0;
}

-- The clutch cancels the move to home, and the menu button engages it for an episode.
abbrev both_pressed : Buttons.Reading fixed recorder setup
both_pressed = record {
  now = cents 100;
  pad = true;
  menu = true;
  home_button = false;
  axlock = false;
  ready = true;
  fresh = true;
  teleop = true;
  joints_fresh = true;
  pose = away;
  lock_axis = true;
  rng = dice;
}

press-IsExclusive_example :
    IsExclusive fixed setup recorder timing (press fixed recorder setup timing both_pressed panel)
press-IsExclusive_example =
    press-IsExclusive fixed recorder setup timing both_pressed panel
      (record { apart = λ on. refl; locked = λ on. cc; stops = λ on r. cc })
