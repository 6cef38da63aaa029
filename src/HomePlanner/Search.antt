-- ===== src/HomePlanner/Search.antt =====
-- `HomePlanner.plan` of home_planner.py: the tiers at each floor scale. What it logs is left out.
use vla_mantis.Base.{
  ℕ, Bool, true, false, ◌&&◌, Option, none, some, List, [], ◌∷◌, drop, last_or, if◌then◌else◌,
}
use vla_mantis.Base.Num.{Num, gap, le, minimum}
use vla_mantis.HomePlanner.Edge.{HomePlanner, World, monotonic, margin}
use vla_mantis.HomePlanner.Tiers.{Found, Method, plan_direct, plan_staged, plan_greedy, plan_detour}
use vla_mantis.HomePlanner.Rrt.{Rng, plan_rrt}

-- What `plan` returns when it does not return `None`.
pub record Plan (num : Num) : Type 0 where
  pub waypoints : List (List num.F)
  pub floor_scale : num.F
  pub how : Method num
  pub complete : Bool

-- `best_partial`: its gain, and the plan that it would be.
abbrev pub Best : Num → Type 0
Best num = Option (num.F × Plan num)

-- The loops over the tiers and the scales: a complete plan ends both, and otherwise the best
-- partial one so far is carried on.
pub data Outcome (num : Num) : Type 0 where
  found : Plan num → Outcome num
  carried : Best num → Outcome num

-- The tiers, in the order of the loop.
pub data Tier : Type 0 where
  direct_tier staged_tier greedy_tier detour_tier rrt_tier : Tier

abbrev pub tiers : List Tier
tiers =
    Tier.direct_tier ∷ Tier.staged_tier ∷ Tier.greedy_tier ∷ Tier.detour_tier ∷ Tier.rrt_tier ∷ []

module _ (num : Num) (hp : HomePlanner num) (rng : Rng num) where
  open num use {F, lt, lit, sub}

  unfoldable pub run_tier : Tier → List F → List F → F → F → F → World num → Found num × World num
  run_tier Tier.direct_tier q0 home scale floor_min deadline w =
      plan_direct num hp q0 home scale floor_min w
  run_tier Tier.staged_tier q0 home scale floor_min deadline w =
      plan_staged num hp q0 home scale floor_min deadline w
  run_tier Tier.greedy_tier q0 home scale floor_min deadline w =
      plan_greedy num hp q0 home scale floor_min deadline w
  run_tier Tier.detour_tier q0 home scale floor_min deadline w =
      plan_detour num hp q0 home scale floor_min deadline w
  run_tier Tier.rrt_tier q0 home scale floor_min deadline w =
      plan_rrt num hp rng q0 home scale floor_min deadline w

  module _ (q0 home : List F) where
    -- `gain > 0.1 and (best_partial is None or gain > best_partial[0])`
    abbrev pub beats : F → Best num → Bool
    beats gain none = lt (lit 1 1) gain
    beats gain (some b) = lt (lit 1 1) gain && lt b.0 gain

    -- How a found path is taken: a complete one at once, a partial one if it gains more.
    unfoldable pub take_path : F → Found num → Best num → Outcome num
    take_path scale none best = carried best
    take_path scale (some (path, how)) best =
        let end = last_or q0 path in
        let gain = sub (gap num home q0) (gap num home end) in
        let plan : Bool → Plan num =
          λ done. record { waypoints = path; floor_scale = scale; how = how; complete = done } in
        if le num (gap num end home) (lit 1 6)
        then found (plan true)
        else if beats gain best
        then carried (some (gain, plan false))
        else carried best

    unfoldable pub tiers_from :
        List Tier → F → F → F → Best num → World num → Outcome num × World num
    unfolding run_tier take_path
    tiers_from [] scale floor_min deadline best w = (carried best, w)
    tiers_from (tier ∷ rest) scale floor_min deadline best w =
        let (t, w') = monotonic num w in
        let (got, w'') = run_tier tier q0 home scale floor_min deadline w' in
        let out = take_path scale got best in
        let next = λ (b : Best num). tiers_from rest scale floor_min deadline b w'' in
        if le num deadline t
        then (carried best, w')
        else elim out [ found p ↦ (found p, w'') | carried b ↦ next b ]

    unfoldable pub scales_from : List F → F → Best num → World num → Outcome num × World num
    unfolding tiers_from
    scales_from [] deadline best w = (carried best, w)
    scales_from (scale ∷ rest) deadline best w =
        let floor_min = minimum num (lit 0 0) (margin num hp q0 scale).0 in
        let (out, w') = tiers_from tiers scale floor_min deadline best w in
        let next = λ (b : Best num) (v : World num). scales_from rest deadline b v in
        if lt (margin num hp home scale).0 floor_min
        then next best w
        else elim out [ found p ↦ (found p, w') | carried b ↦ next b w' ]

    abbrev pub settle : Outcome num → Option (Plan num)
    settle (found p) = some p
    settle (carried none) = none
    settle (carried (some b)) = if hp.allow_partial then some b.1 else none

    unfoldable pub plan : F → ℕ → World num → Option (Plan num) × World num
    unfolding scales_from
    plan deadline min_scale w =
        let (out, w') = scales_from (drop min_scale hp.scales) deadline none w in (settle out, w')
