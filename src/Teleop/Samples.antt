-- ===== src/Teleop/Samples.antt =====
-- The shaper and the command of all joints of teleop_mantis.py, on two joints.
use vla_mantis.Base.{
  zero, suc, ◌+◌, ◌*◌, ◌/◌, ltb, if◌then◌else◌, ◌≡◌, refl, none, some, List, [], ◌∷◌, ℕ,
}
use vla_mantis.Base.Int.{pos, pos_part, ◌+ℤ◌, ◌-ℤ◌, scaled_mul}
use vla_mantis.Base.Fixed.{fixed, Fixed}
use vla_mantis.Teleop.Shaper.{Limits, Shaper, step_joints, interval, run_turn}
use vla_mantis.Teleop.Limited.{Limited, under_way, Done, run_turn-Done}

abbrev cents : ℕ → Fixed
cents n = fixed.lit n 2

-- The integer square root by Newton's method, in at most 80 steps.
abbrev newton : ℕ → ℕ → ℕ → ℕ
newton zero n x = x
newton (suc k) n x =
    let y = (x + n / x) / 2 in let rest = newton k n y in if ltb y x then rest else x

abbrev root : Fixed → Fixed
root none = none
root (some a) = some (pos (newton 80 (pos_part a * 1000000000) (pos_part a * 1000000000)))

abbrev limits : Limits fixed root
limits = record {
  period = cents 1;
  v_max = cents 100;
  a_max = cents 200;
  kp = cents 1000;
  ff_tau = cents 0;
  resync_snap = cents 15;
  out_stale = cents 5;
}

abbrev pose : List Fixed
pose = cents 0 ∷ cents 0 ∷ []

abbrev target : List Fixed
target = cents 10 ∷ cents 0 ∷ []

abbrev tracking : Shaper fixed root
tracking = record {
  target = some target;
  v_ff = none;
  t_target = cents 100;
  q = some pose;
  v = some pose;
  ff = some pose;
  t_last = cents 100;
  snaps = 0;
  published = [];
}

run_turn-Done_example :
    Done fixed root limits
      (cents 101)
      (interval fixed root limits (cents 101) tracking)
      tracking
      (run_turn fixed root limits (cents 101) tracking)
run_turn-Done_example =
    run_turn-Done fixed root limits (cents 101) tracking (under_way pose pose refl refl)

-- One step of 0.01 s at 2 rad/s² brings 0.02 rad/s and 0.0002 rad.
first_step :
    step_joints fixed root limits (cents 1) target pose pose pose
    ≡ (cents 2, fixed.lit 2 4) ∷ (cents 0, cents 0) ∷ []
unfolding scaled_mul ◌+ℤ◌ ◌-ℤ◌
first_step = refl
