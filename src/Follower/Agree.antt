-- ===== src/Follower/Agree.antt =====
-- The tiers of both copies of the planner agree: mantis_follower.py and home_planner.py.
use vla_mantis.Base.{ℕ, ◌≡◌, refl, Option, none, some, List, [], ◌∷◌, ◌++◌, Option-cases, inl, inr}
use vla_mantis.Base.Num.{Num}
use vla_mantis.HomePlanner as Planner
use vla_mantis.HomePlanner.{World, Group, Found, monotonic}
use vla_mantis.Follower.State.{Ik, Setup}
use vla_mantis.Follower.Edge.{edge_margin_eq}
use vla_mantis.Follower.Tiers.{
  hp, edge, plan_direct, staged_from, plan_staged, try_fracs, best_move, greedy_from, plan_greedy,
  from_via, detour_from, plan_detour,
}

module _ (num : Num) (cfg : Setup num) (ik : Ik num) where
  open num use {F}

  pub edge_eq :
      (a b : List F) (scale floor_min : F)
      → edge num cfg ik a b scale floor_min ≡ Planner.edge num (hp num cfg ik) a b scale floor_min
  unfolding edge Planner.edge
  edge_eq a b scale floor_min = edge_margin_eq num cfg ik a b scale (some floor_min)

  pub plan_direct_eq :
      (q0 home : List F) (scale floor_min : F) (w : World num)
      → plan_direct num cfg ik q0 home scale floor_min w
        ≡ Planner.plan_direct num (hp num cfg ik) q0 home scale floor_min w
  unfolding plan_direct Planner.plan_direct
  plan_direct_eq q0 home scale floor_min w = simp (edge_eq)

  staged_from_eq :
      (gs : List (Group × List ℕ)) (q0 home : List F) (scale floor_min deadline : F) (w : World num)
      → staged_from num cfg ik gs q0 home scale floor_min deadline w
        ≡ Planner.staged_from num (hp num cfg ik) gs q0 home scale floor_min deadline w
  unfolding staged_from Planner.staged_from
  staged_from_eq [] q0 home scale floor_min deadline w = refl
  staged_from_eq ((how, g) ∷ gs) q0 home scale floor_min deadline w =
      simp (edge_eq, staged_from_eq gs q0 home scale floor_min deadline)

  try_fracs_eq :
      (fracs home cur : List F) (scale floor_min : F) (i : ℕ)
      → try_fracs num cfg ik fracs home cur scale floor_min i
        ≡ Planner.try_fracs num (hp num cfg ik) fracs home cur scale floor_min i
  unfolding try_fracs Planner.try_fracs
  try_fracs_eq [] home cur scale floor_min i = refl
  try_fracs_eq (f ∷ fracs) home cur scale floor_min i =
      simp (edge_eq, try_fracs_eq fracs home cur scale floor_min i)

  best_move_eq :
      (left : List ℕ) (best : Option (F × List F)) (home cur : List F) (scale floor_min : F)
      → best_move num cfg ik left best home cur scale floor_min
        ≡ Planner.best_move num (hp num cfg ik) left best home cur scale floor_min
  unfolding best_move Planner.best_move
  best_move_eq [] best home cur scale floor_min = refl
  best_move_eq (i ∷ left) best home cur scale floor_min = simp (try_fracs_eq, best_move_eq left)

  greedy_from_eq :
      (ts home : List F) (scale floor_min deadline : F) (cur : List F) (path : List (List F))
      (n : ℕ)
      → greedy_from num cfg ik ts home scale floor_min deadline cur path n
        ≡ Planner.greedy_from num (hp num cfg ik) ts home scale floor_min deadline cur path n
  unfolding greedy_from Planner.greedy_from
  greedy_from_eq [] home scale floor_min deadline cur path n = refl
  greedy_from_eq (t ∷ ts) home scale floor_min deadline cur path n =
      let left = Planner.joints_left num (hp num cfg ik) home cur 0 in
      let best = Planner.best_move num (hp num cfg ik) left none home cur scale floor_min in
      elim (Option-cases best) [
        | inl e ↦ simp (best_move_eq, e)
        | inr (c, e) ↦ simp (
          best_move_eq,
          e,
          greedy_from_eq ts home scale floor_min deadline c.1 (path ++ c.1 ∷ []) n,
        )
      ]

  from_via_eq :
      (via home : List F) (scale floor_min deadline : F) (i : ℕ) (turn : F) (w : World num)
      (after after' : World num → Found num × World num)
      → ((v : World num) → after v ≡ after' v)
      → from_via num cfg ik via home scale floor_min deadline i turn w after
        ≡ Planner.from_via num (hp num cfg ik) via home scale floor_min deadline i turn w after'
  unfolding from_via plan_staged Planner.from_via Planner.plan_staged
  from_via_eq via home scale floor_min deadline i turn w after after' h =
      let stages = Planner.stages num (hp num cfg ik) in
      let sub_plan =
        Planner.staged_from num (hp num cfg ik) stages via home scale floor_min deadline w in
      elim (Option-cases sub_plan.0) [
        | inl e ↦ simp (edge_eq, staged_from_eq stages, e, h sub_plan.1)
        | inr (r, e) ↦ simp (edge_eq, staged_from_eq stages, e)
      ]

  detour_from_eq :
      (moves : List (ℕ × F)) (q0 home : List F) (scale floor_min deadline : F) (w : World num)
      → detour_from num cfg ik moves q0 home scale floor_min deadline w
        ≡ Planner.detour_from num (hp num cfg ik) moves q0 home scale floor_min deadline w
  unfolding detour_from Planner.detour_from
  detour_from_eq [] q0 home scale floor_min deadline w = refl
  detour_from_eq ((i, move) ∷ moves) q0 home scale floor_min deadline w =
      let next' = Planner.detour_from num (hp num cfg ik) moves q0 home scale floor_min deadline in
      let same = detour_from_eq moves q0 home scale floor_min deadline in
      simp
        (edge_eq, same, from_via_eq _ home scale floor_min deadline i _ _ next' next' (λ x. refl))

  pub tiers_eq :
      (q0 home : List F) (scale floor_min deadline : F) (w : World num)
      → (plan_staged num cfg ik q0 home scale floor_min deadline w
          ≡ Planner.plan_staged num (hp num cfg ik) q0 home scale floor_min deadline w)
        × (plan_greedy num cfg ik q0 home scale floor_min deadline w
            ≡ Planner.plan_greedy num (hp num cfg ik) q0 home scale floor_min deadline w)
        × (plan_detour num cfg ik q0 home scale floor_min deadline w
            ≡ Planner.plan_detour num (hp num cfg ik) q0 home scale floor_min deadline w)
  unfolding plan_staged Planner.plan_staged plan_greedy Planner.plan_greedy plan_detour
      Planner.plan_detour
  tiers_eq q0 home scale floor_min deadline w = (
    staged_from_eq _ q0 home scale floor_min deadline w,
    greedy_from_eq w.readings home scale floor_min deadline q0 [] w.draws,
    detour_from_eq _ q0 home scale floor_min deadline w,
  )
