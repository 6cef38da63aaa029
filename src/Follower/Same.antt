-- ===== src/Follower/Same.antt =====
-- Both copies of the planner, of mantis_follower.py and home_planner.py, return the same plans.
use vla_mantis.Base.{
  ℕ, zero, suc, ◌≡◌, refl, sym, ap, ◌∙◌, Bool, true, false, Option, none, some, List, [], ◌∷◌, drop,
  length, length-map, get_or, inl, inr, ◌⊎◌, if◌then◌else◌,
}
use mathlib.Core.List.{Memᴰ}
use vla_mantis.Base.Num.{Num, minimum}
use vla_mantis.HomePlanner as Planner
use vla_mantis.HomePlanner.{
  HomePlanner, World, monotonic, Found, Rng, Tree, Plan, Best, Outcome, found, carried, Tier, tiers,
  take_path, settle, extend, nearest, floor_at, Method, IsCertified, plan-IsCertified,
}
use vla_mantis.Follower.State.{Ik, Setup, margin_in}
use vla_mantis.Follower.Edge.{as_planner}
use vla_mantis.Follower.Tiers.{hp}
use vla_mantis.Follower.Rrt.{grow, connect, cut, shortcut, smoothed, plan_rrt}
use vla_mantis.Follower.Search.{run_tier, tiers_from, scales_from, plan_home}
use vla_mantis.Follower.Agree.{edge_eq, plan_direct_eq, tiers_eq}

Outcome-cases :
    {num : Num} (o : Outcome num)
    → ((p : Plan num) × (o ≡ found p)) ⊎ ((b : Best num) × (o ≡ carried b))
Outcome-cases (found p) = inl (p, refl)
Outcome-cases (carried b) = inr (b, refl)

module _ (num : Num) (cfg : Setup num) (ik : Ik num) (rng : Rng num) where
  open num use {F, lt, lit, add}

  cut_eq :
      (pts : List (List F)) (scale floor_min : F) (n : ℕ)
      → cut num cfg ik rng pts scale floor_min n
        ≡ Planner.cut num (hp num cfg ik) rng pts scale floor_min n
  unfolding cut Planner.cut
  cut_eq pts scale floor_min n = simp (edge_eq)

  shortcut_eq :
      (iters : ℕ) (pts : List (List F)) (scale floor_min deadline : F) (w : World num)
      → shortcut num cfg ik rng iters pts scale floor_min deadline w
        ≡ Planner.shortcut num (hp num cfg ik) rng iters pts scale floor_min deadline w
  unfolding shortcut Planner.shortcut
  shortcut_eq zero pts scale floor_min deadline w = refl
  shortcut_eq (suc iters) pts scale floor_min deadline w = simp (cut_eq, shortcut_eq iters)

  module _ (home lo hi : List F) (scale floor_min deadline : F) where
    -- Both loops agree from a list of readings on.
    abbrev SameFrom : List F → Type 0
    SameFrom ts =
        ((A B : Tree num) (swapped : Bool) (n : ℕ)
          → grow num cfg ik rng home lo hi scale floor_min deadline ts A B swapped n
            ≡ Planner.grow num (hp num cfg ik) rng home lo hi scale floor_min deadline ts A B
                swapped n)
        × ((A B : Tree num) (swapped : Bool) (n : ℕ) (qn : List F) (k : ℕ)
            → connect num cfg ik rng home lo hi scale floor_min deadline ts A B swapped n qn k
              ≡ Planner.connect num (hp num cfg ik) rng home lo hi scale floor_min deadline ts A B
                  swapped n qn k)

    grow_eq : (ts : List F) → SameFrom ts
    unfolding grow connect Planner.grow Planner.connect as_planner
    grow_eq [] = ((λ A B s n. refl), (λ A B s n qn k. refl))
    grow_eq (t ∷ ts) =
        let (g, c) = grow_eq ts in
        ((λ A B s n. simp (edge_eq, g, c)), (λ A B s n qn k. simp (edge_eq, g, c)))

  -- The smoothing time is at least a second.
  abbrev pub SmoothsASecond : Type 0
  SmoothsASecond = lt cfg.home_smooth_time_s (lit 10 1) ≡ false

  smoothed_eq :
      SmoothsASecond
      → (o : Option (List (List F) × Bool)) (scale floor_min : F) (w : World num)
      → smoothed num cfg ik rng o scale floor_min w
        ≡ Planner.smoothed num (hp num cfg ik) rng o scale floor_min w
  unfolding smoothed Planner.smoothed monotonic as_planner
  smoothed_eq h none scale floor_min w = refl
  smoothed_eq h (some (pts, true)) scale floor_min w =
      let (t, w') = monotonic num w in
      let cut_at = λ (budget : F).
        Planner.shortcut num (hp num cfg ik) rng 200 pts scale floor_min (add t budget) w' in
      let smooth = cfg.home_smooth_time_s in
      ap (λ (o : List (List F) × World num). (some (drop 1 o.0, Method.rrt_partial), o.1))
        (shortcut_eq 200 pts scale floor_min (add t (lit 10 1)) w'
          ∙ ap (λ (b : Bool). cut_at (if b then smooth else lit 10 1)) (sym h))
  smoothed_eq h (some (pts, false)) scale floor_min w =
      let (t, w') = monotonic num w in
      let deadline = add t cfg.home_smooth_time_s in
      ap (λ (o : List (List F) × World num). (some (drop 1 o.0, Method.rrt), o.1))
        (shortcut_eq 200 pts scale floor_min deadline w')

  plan_rrt_eq :
      SmoothsASecond
      → (q0 home : List F) (scale floor_min deadline : F) (w : World num)
      → plan_rrt num cfg ik rng q0 home scale floor_min deadline w
        ≡ Planner.plan_rrt num (hp num cfg ik) rng q0 home scale floor_min deadline w
  unfolding plan_rrt Planner.plan_rrt as_planner
  plan_rrt_eq h q0 home scale floor_min deadline w = simp (
    smoothed_eq h,
    λ (lo hi : List F). (grow_eq home lo hi scale floor_min deadline w.readings).0,
  )

  run_tier_eq :
      SmoothsASecond
      → (tier : Tier) (q0 home : List F) (scale floor_min deadline : F) (w : World num)
      → run_tier num cfg ik rng tier q0 home scale floor_min deadline w
        ≡ Planner.run_tier num (hp num cfg ik) rng tier q0 home scale floor_min deadline w
  unfolding run_tier Planner.run_tier
  run_tier_eq h Tier.direct_tier q0 home scale f d w = plan_direct_eq num cfg ik q0 home scale f w
  run_tier_eq h Tier.staged_tier q0 home scale f d w = (tiers_eq num cfg ik q0 home scale f d w).0
  run_tier_eq h Tier.greedy_tier q0 home scale f d w = (tiers_eq num cfg ik q0 home scale f d w).1
  run_tier_eq h Tier.detour_tier q0 home scale f d w = (tiers_eq num cfg ik q0 home scale f d w).2
  run_tier_eq h Tier.rrt_tier q0 home scale f d w = plan_rrt_eq h q0 home scale f d w

  module _ (h : SmoothsASecond) (q0 home : List F) where
    tiers_from_eq :
        (ts : List Tier) (scale floor_min deadline : F) (best : Best num) (w : World num)
        → tiers_from num cfg ik rng q0 home ts scale floor_min deadline best w
          ≡ Planner.tiers_from num (hp num cfg ik) rng q0 home ts scale floor_min deadline best w
    unfolding tiers_from Planner.tiers_from
    tiers_from_eq [] scale floor_min deadline best w = refl
    tiers_from_eq (tier ∷ ts) scale floor_min deadline best w =
        let (t, w') = monotonic num w in
        let (got, w'') =
          Planner.run_tier num (hp num cfg ik) rng tier q0 home scale floor_min deadline w' in
        elim (Outcome-cases (take_path num (hp num cfg ik) rng q0 home scale got best)) [
          | inl (p, e) ↦ simp (run_tier_eq h, e)
          | inr (b, e) ↦ simp (run_tier_eq h, e, tiers_from_eq ts scale floor_min deadline b)
        ]

    scales_from_eq :
        (ss : List F) (deadline : F) (best : Best num) (w : World num)
        → scales_from num cfg ik rng q0 home ss deadline best w
          ≡ Planner.scales_from num (hp num cfg ik) rng q0 home ss deadline best w
    unfolding scales_from Planner.scales_from Planner.margin as_planner
    scales_from_eq [] deadline best w = refl
    scales_from_eq (s ∷ ss) deadline best w =
        let floor_min = minimum num (lit 0 0) (margin_in num cfg (some ik) q0 s).0 in
        let o =
          Planner.tiers_from num (hp num cfg ik) rng q0 home tiers s floor_min deadline best w in
        elim (Outcome-cases o.0) [
          | inl (p, e) ↦ simp (tiers_from_eq tiers, e, scales_from_eq ss deadline)
          | inr (b, e) ↦ simp (tiers_from_eq tiers, e, scales_from_eq ss deadline)
        ]

    -- Once the collision model is built, and where the planner is switched on and smooths for a second
    -- or more, the copy of the planner in the follower returns what `HomePlanner.plan` returns for the
    -- same arm, model and knobs, and leaves the same clock and draws.
    pub plan_home_eq :
        cfg.home_planner ≡ true
        → (deadline : F) (min_scale : ℕ) (w : World num)
        → plan_home num cfg ik rng q0 home deadline min_scale w
          ≡ Planner.plan num (hp num cfg ik) rng q0 home deadline min_scale w
    unfolding plan_home Planner.plan as_planner
    plan_home_eq on deadline min_scale w = simp (on, scales_from_eq)

    -- A plan that the follower's search returns, switched on and smoothing for a second or more, is
    -- certified, at one of the scales from the least one on, and complete unless partial plans are allowed.
    pub plan_home-IsCertified :
        cfg.home_planner ≡ true
        → length q0 ≡ length home
        → length cfg.arm ≡ length q0
        → (deadline : F) (min_scale : ℕ) (w : World num) (p : Plan num)
        → (plan_home num cfg ik rng q0 home deadline min_scale w).0 ≡ some p
        → IsCertified num (hp num cfg ik) rng q0 home p
          × Memᴰ p.floor_scale (drop min_scale cfg.home_floor_scales)
          × ((p.complete ≡ true) ⊎ (cfg.home_allow_partial ≡ true))
    unfolding as_planner
    plan_home-IsCertified on same armed deadline min_scale w p e =
        plan-IsCertified num (hp num cfg ik) rng q0 home deadline min_scale w p same
          (length-map (λ j. get_or ik.lower (ik.qindex j) (lit 0 0)) cfg.arm ∙ armed)
          (ap (λ (o : Option (Plan num) × World num). o.0)
              (sym (plan_home_eq on deadline min_scale w))
            ∙ e)
