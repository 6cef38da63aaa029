-- ===== src/Teleop/TrackingTests.antt =====
-- The pose gate of teleop_mantis.py on a controller that jumps.
use vla_mantis.Base.{get_or, ℕ, ◌≡◌, refl, true, false, none, List, [], ◌∷◌, take}
use vla_mantis.Base.Num.{max_abs, zip_with}
use vla_mantis.Base.Fixed.{fixed, Fixed}
use vla_mantis.Base.Int.{◌+ℤ◌, ◌-ℤ◌, scaled_mul, scaled_div}
use vla_mantis.Teleop.Tracking.{Maths, Limits, Tracker, on_vive_pose, is_fresh, reject, accept}
use vla_mantis.Teleop.Target.{Space, Mapping, Motion, move_target}
use vla_mantis.Teleop.Following.{Moved, move_target-Moved}
use vla_mantis.Teleop.Tracked.{Followed, on_vive_pose-Followed}

abbrev tenths : ℕ → Fixed
tenths n = fixed.lit n 1

-- The largest entry stands for the norm, and the difference for the logarithm of the quotient.
abbrev maths : Maths fixed
maths = record {
  norm = max_abs fixed;
  orthonormal = λ m. m;
  log_between = λ a b. take 3 (zip_with fixed fixed.sub a b);
  exp_times = λ w r. r;
  median = λ ps. [];
  is_finite = λ v. true;
  of_nat = λ n. fixed.lit n 0;
  pi = fixed.lit 314 2;
}

-- A metre a second; one jump in a second holds the target.
abbrev limits : Limits fixed
limits = record {
  pose_timeout = tenths 2;
  jump_lin = tenths 10;
  jump_ang = tenths 0;
  degrade_max_rate = tenths 10;
  degrade_window = tenths 10;
  degrade_hold = tenths 3;
  median_n = 1;
  pivot_min_rot = tenths 1;
  ori_antialias = true;
  filter = record {
    min_cutoff = tenths 10;
    beta = tenths 0;
    d_cutoff = tenths 10;
    cutoff_max = tenths 0;
  };
}

abbrev unit : List Fixed
unit =
    tenths 10
    ∷ tenths 0
    ∷ tenths 0
    ∷ tenths 0
    ∷ tenths 10
    ∷ tenths 0
    ∷ tenths 0
    ∷ tenths 0
    ∷ tenths 10
    ∷ []

abbrev at : ℕ → List Fixed
at x = tenths x ∷ tenths 0 ∷ tenths 0 ∷ unit

abbrev idle : Tracker fixed
idle = record {
  cur = none;
  pose_t = tenths 0;
  pose_msg_t = tenths 0;
  raw = none;
  pos_filter = record { x_prev = []; t_prev = none; dx_prev = [] };
  med_buf = [];
  glitch_t = [];
  track_bad_until = tenths 0;
  glitches = 0;
  drops = 0;
  pivot = none;
  pivots = 0;
  mean = record { from = none; sum = []; count = 0 };
  rotation = none;
}

abbrev tracked : Tracker fixed
tracked = on_vive_pose fixed maths limits (tenths 10) (tenths 10) (at 0) idle

abbrev jumped : Tracker fixed
jumped = on_vive_pose fixed maths limits (tenths 11) (tenths 11) (at 5) tracked

on_vive_pose-Followed_example :
    Followed fixed maths limits
      (tenths 11)
      (at 5)
      (tenths 5 ∷ tenths 0 ∷ tenths 0 ∷ [])
      unit
      tracked
      jumped
on_vive_pose-Followed_example =
    on_vive_pose-Followed fixed maths limits (tenths 11) (tenths 11) (at 5) tracked

-- Half a metre in a tenth of a second is rejected, and the target is held.
held : (jumped.glitches ≡ 1) × (is_fresh fixed maths limits (tenths 11) jumped ≡ false)
unfolding on_vive_pose reject accept is_fresh max_abs ◌+ℤ◌ ◌-ℤ◌ scaled_mul scaled_div
held = (refl, refl)

-- The angles are not used here: the azimuth is not scaled near the shoulder's axis.
abbrev space : Space fixed
space = record {
  norm = max_abs fixed;
  dot = λ a b. fixed.mul (get_or a 0 none) (get_or b 0 none);
  arctan2 = λ y x. tenths 0;
  cos = λ x. tenths 10;
  sin = λ x. tenths 0;
  hypot = λ x y. tenths 0;
  modulo = λ x y. x;
  pi = fixed.lit 314 2;
}

abbrev mapping : Mapping fixed
mapping = record {
  scale = tenths 10;
  axis_map = 0 ∷ 1 ∷ 2 ∷ [];
  axis_sign = tenths 10 ∷ tenths 10 ∷ tenths 10 ∷ [];
  az_gain = tenths 10;
  max_target_speed = tenths 12;
  max_lead = tenths 1;
  antiwind_rate = tenths 0;
  antiwind_stuck_speed = tenths 0;
  yaw_fallback_sin = tenths 1;
  dt = tenths 1;
  vr_dt = tenths 1;
  shoulder = tenths 0 ∷ tenths 0 ∷ tenths 0 ∷ [];
  r_min = tenths 1;
  r_max = tenths 10;
}

abbrev origin : List Fixed
origin = tenths 5 ∷ tenths 0 ∷ tenths 0 ∷ []

abbrev engaged : Motion fixed
engaged = record {
  ready = true;
  engaged = true;
  target = origin;
  anchor = origin;
  ref = tenths 0 ∷ tenths 0 ∷ tenths 0 ∷ [];
  r_ref = unit;
  pose_lost = true;
  degrade_holds = 0;
  axlock_active = false;
  axlock_p0 = [];
  axlock_u = [];
  vr_t_last = none;
  ee_prev = none;
  ee_dt = tenths 0;
  antiwind_prog = tenths 0;
}

move_target-Moved_example :
    Moved fixed space mapping maths limits
      (tenths 11)
      origin
      unit
      tracked
      engaged
      (move_target fixed space mapping maths limits (tenths 11) origin tracked engaged)
unfolding on_vive_pose accept
move_target-Moved_example =
    move_target-Moved fixed space mapping maths limits (tenths 11) origin tracked engaged unit refl
