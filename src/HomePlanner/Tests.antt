-- ===== src/HomePlanner/Tests.antt =====
-- The search of home_planner.py on an arm of two joints with an obstacle between it and home.
use vla_mantis.Base.{
  ℕ, ◌≡◌, refl, ◌⊎◌, Bool, true, false, ◌&&◌, none, some, List, [], ◌∷◌, String, get_or,
  if◌then◌else◌, drop, ◌↔◌, length, get_elem?, ◌≤◌,
}
use mathlib.Core.List.{Memᴰ}
use native.Mathlib.Nat.{le_refl}
use vla_mantis.Base.Fixed.{fixed, Fixed}
use vla_mantis.Base.Num.{max_abs}
use vla_mantis.Base.Int.{◌+ℤ◌, ◌-ℤ◌, scaled_mul, scaled_div}
use vla_mantis.HomePlanner.Edge.{
  order_of, HomePlanner, World, margin, edge_margin, Clear, edge_margin-Clear, monotonic,
}
use vla_mantis.HomePlanner.Tiers.{direct, staged, wrists_first, plan_direct, plan_staged}
use vla_mantis.HomePlanner.Rrt.{Rng}
use vla_mantis.HomePlanner.Search.{Plan, plan}
use vla_mantis.HomePlanner.Behaviour.{order_of-ends, plan_straight, plan_no_home}
use vla_mantis.HomePlanner.Safety.{IsCertified, plan-IsCertified}

-- Tenths of a radian.
abbrev tenths : ℕ → Fixed
tenths n = fixed.lit n 1

abbrev near_half : Fixed → Bool
near_half x = fixed.lt (fixed.abs (fixed.sub x (tenths 5))) (tenths 2)

-- The obstacle stands around the middle of the square.
abbrev obstacle : List Fixed → Fixed → Fixed × String
obstacle q scale =
    if near_half (get_or q 0 none) && near_half (get_or q 1 none)
    then (fixed.neg (tenths 1), "wrist<->table")
    else (tenths 1, "")

abbrev arm_planner : HomePlanner fixed
arm_planner = record {
  margin_at = obstacle;
  arm = "pan_joint" ∷ "wrist_joint" ∷ [];
  lo = fixed.neg (tenths 30) ∷ fixed.neg (tenths 30) ∷ [];
  hi = tenths 30 ∷ tenths 30 ∷ [];
  step = tenths 1;
  scales = tenths 10 ∷ tenths 5 ∷ tenths 0 ∷ [];
  rrt_step = tenths 3;
  smooth_time_s = tenths 20;
  allow_partial = true;
}

abbrev dice : Rng fixed
dice = record {
  uniform = λ n lo hi. lo;
  uniform_length = λ n lo hi. refl;
  integers = λ n a b. a;
  integers_range = λ n a b h. (le_refl a, h);
}

abbrev start : List Fixed
start = tenths 0 ∷ tenths 0 ∷ []

abbrev goal : List Fixed
goal = tenths 10 ∷ tenths 10 ∷ []

-- Eight readings of the clock, all before the deadline at 8 s.
abbrev world : World fixed
world = record {
  readings = tenths 1 ∷ tenths 2 ∷ tenths 3 ∷ tenths 4 ∷ tenths 5 ∷ tenths 6 ∷ [];
  draws = 0;
}

abbrev via_wrist : Plan fixed
via_wrist = record {
  waypoints = (tenths 0 ∷ tenths 10 ∷ []) ∷ goal ∷ [];
  floor_scale = tenths 10;
  how = staged wrists_first;
  complete = true;
}

plan_around : (plan fixed arm_planner dice start goal (tenths 80) 0 world).0 ≡ some via_wrist
unfolding plan edge_margin margin max_abs monotonic ◌+ℤ◌ ◌-ℤ◌ scaled_mul scaled_div plan_direct
    plan_staged
plan_around = refl

plan-IsCertified_example :
    IsCertified fixed arm_planner dice start goal via_wrist
    × Memᴰ via_wrist.floor_scale (drop 0 arm_planner.scales)
    × ((via_wrist.complete ≡ true) ⊎ (arm_planner.allow_partial ≡ true))
plan-IsCertified_example =
    plan-IsCertified fixed arm_planner dice start goal (tenths 80) 0 world via_wrist refl refl
      plan_around

edge_margin-Clear_example :
    (fixed.lt (edge_margin fixed arm_planner start goal (tenths 10) (some (tenths 0))).0 (tenths 0)
      ≡ false)
    ↔ Clear fixed arm_planner (tenths 10) (tenths 0) start goal
edge_margin-Clear_example = edge_margin-Clear fixed arm_planner start goal (tenths 10) (tenths 0)

-- The straight segment is refused.
direct_refused :
    (edge_margin fixed arm_planner start goal (tenths 10) (some (tenths 0))).0
    ≡ fixed.neg (tenths 1)
unfolding edge_margin margin max_abs ◌+ℤ◌ ◌-ℤ◌ scaled_mul scaled_div
direct_refused = refl

order_of-ends_example :
    (2 ≤ length (order_of fixed arm_planner start goal))
    × (length (order_of fixed arm_planner start goal) ≤ 400)
    × (get_elem? (order_of fixed arm_planner start goal) 0 ≡ some (tenths 10))
    × (get_elem? (order_of fixed arm_planner start goal) 1 ≡ some (tenths 0))
order_of-ends_example = order_of-ends fixed arm_planner start goal

-- Home is one joint away, and nothing is between.
abbrev shelf : List Fixed
shelf = tenths 0 ∷ tenths 2 ∷ []

plan_straight_example : plan fixed arm_planner dice start shelf (tenths 80) 0 world ≡ (
  some (record { waypoints = shelf ∷ []; floor_scale = tenths 10; how = direct; complete = true }),
  record { readings = drop 1 world.readings; draws = 0 },
)
unfolding order_of margin max_abs ◌+ℤ◌ ◌-ℤ◌ scaled_mul scaled_div
plan_straight_example =
    plan_straight fixed arm_planner dice start shelf (tenths 80) (tenths 1) 0 0
      (drop 1 world.readings) (drop 1 arm_planner.scales) (tenths 10) refl refl refl
      (refl, (refl, (refl, tt))) refl

-- Home itself stands in the obstacle.
abbrev middle : List Fixed
middle = tenths 5 ∷ tenths 5 ∷ []

plan_no_home_example : plan fixed arm_planner dice start middle (tenths 80) 0 world ≡ (none, world)
unfolding margin ◌+ℤ◌ ◌-ℤ◌
plan_no_home_example =
    plan_no_home fixed arm_planner dice start middle (tenths 80) 0 world (refl, (refl, (refl, tt)))
