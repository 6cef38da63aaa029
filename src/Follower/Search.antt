-- ===== src/Follower/Search.antt =====
-- `_plan_home` of mantis_follower.py: the tiers at each floor scale.
use vla_mantis.Base.{ℕ, true, not, Option, none, some, List, [], ◌∷◌, drop, if◌then◌else◌}
use vla_mantis.Base.Num.{Num, le, minimum}
use vla_mantis.HomePlanner.{
  World, monotonic, Found, Rng, Plan, Best, Outcome, found, carried, Tier, tiers, take_path, settle,
}
use vla_mantis.Follower.State.{Ik, Setup, margin_in}
use vla_mantis.Follower.Tiers.{hp, plan_direct, plan_staged, plan_greedy, plan_detour}
use vla_mantis.Follower.Rrt.{plan_rrt}

module _ (num : Num) (cfg : Setup num) (ik : Ik num) (rng : Rng num) where
  open num use {F, lt, lit}

  unfoldable pub run_tier : Tier → List F → List F → F → F → F → World num → Found num × World num
  run_tier Tier.direct_tier q0 home scale floor_min deadline w =
      plan_direct num cfg ik q0 home scale floor_min w
  run_tier Tier.staged_tier q0 home scale floor_min deadline w =
      plan_staged num cfg ik q0 home scale floor_min deadline w
  run_tier Tier.greedy_tier q0 home scale floor_min deadline w =
      plan_greedy num cfg ik q0 home scale floor_min deadline w
  run_tier Tier.detour_tier q0 home scale floor_min deadline w =
      plan_detour num cfg ik q0 home scale floor_min deadline w
  run_tier Tier.rrt_tier q0 home scale floor_min deadline w =
      plan_rrt num cfg ik rng q0 home scale floor_min deadline w

  module _ (q0 home : List F) where
    unfoldable pub tiers_from :
        List Tier → F → F → F → Best num → World num → Outcome num × World num
    unfolding run_tier
    tiers_from [] scale floor_min deadline best w = (carried best, w)
    tiers_from (tier ∷ rest) scale floor_min deadline best w =
        let (t, w') = monotonic num w in
        let (got, w'') = run_tier tier q0 home scale floor_min deadline w' in
        let out = take_path num (hp num cfg ik) rng q0 home scale got best in
        let next = λ (b : Best num). tiers_from rest scale floor_min deadline b w'' in
        if le num deadline t
        then (carried best, w')
        else elim out [ found p ↦ (found p, w'') | carried b ↦ next b ]

    unfoldable pub scales_from : List F → F → Best num → World num → Outcome num × World num
    unfolding tiers_from
    scales_from [] deadline best w = (carried best, w)
    scales_from (scale ∷ rest) deadline best w =
        let floor_min = minimum num (lit 0 0) (margin_in num cfg (some ik) q0 scale).0 in
        let (out, w') = tiers_from tiers scale floor_min deadline best w in
        let next = λ (b : Best num) (v : World num). scales_from rest deadline b v in
        if lt (margin_in num cfg (some ik) home scale).0 floor_min
        then next best w
        else elim out [ found p ↦ (found p, w') | carried b ↦ next b w' ]

    -- Without the planner there is the straight path or nothing.
    abbrev pub straight_only : World num → Option (Plan num) × World num
    straight_only w =
        let (got, w') = plan_direct num cfg ik q0 home (lit 1 0) (lit 0 0) w in
        elim got [
          | none ↦ (none, w')
          | some (path, how) ↦ (
            some (record { waypoints = path; floor_scale = lit 1 0; how = how; complete = true }),
            w',
          )
        ]

    -- `_plan_home`, once the collision model is built.
    unfoldable pub plan_home : F → ℕ → World num → Option (Plan num) × World num
    unfolding scales_from
    plan_home deadline min_scale w =
        let (out, w') = scales_from (drop min_scale cfg.home_floor_scales) deadline none w in
        if not cfg.home_planner
        then straight_only w
        else (settle num (hp num cfg ik) rng q0 home out, w')
