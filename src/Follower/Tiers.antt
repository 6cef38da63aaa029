-- ===== src/Follower/Tiers.antt =====
-- The tiers that do not grow trees in the copy of the planner of mantis_follower.py: `_plan_direct`,
-- `_plan_staged`, `_plan_greedy` and `_plan_detour`. The edits of a pose are those of the other copy.
use vla_mantis.Base.{
  ℕ, ◌*◌, not, ◌||◌, Option, none, some, List, [], ◌∷◌, ◌++◌, String, ltb, leb, length, is_empty,
  get_or, if◌then◌else◌,
}
use vla_mantis.Base.Num.{Num, gap, le}
use vla_mantis.HomePlanner.{
  HomePlanner, World, monotonic, Group, direct, staged, one_at_a_time, backed_out, backed_out_then,
  Found, clears, bring_home, stages, moved, better, fractions, joints_left, back_out, back_outs,
}
use vla_mantis.Follower.State.{Ik, Setup}
use vla_mantis.Follower.Edge.{as_planner, edge_margin}

module _ (num : Num) (cfg : Setup num) (ik : Ik num) where
  open num use {F, lt, lit, sub}

  abbrev pub hp : HomePlanner num
  hp = as_planner num cfg ik

  unfoldable pub edge : List F → List F → F → F → F × String
  edge a b scale floor_min = edge_margin num cfg ik a b scale (some floor_min)

  unfoldable pub plan_direct : List F → List F → F → F → World num → Found num × World num
  plan_direct q0 home scale floor_min w = (
    if clears num hp (edge q0 home scale floor_min) floor_min
        then some (home ∷ [], direct)
        else none,
    w,
  )

  -- The loop of `_staged` over the groups.
  unfoldable pub staged_from :
      List (Group × List ℕ) → List F → List F → F → F → F → World num → Found num × World num
  staged_from [] q0 home scale floor_min deadline w = (none, w)
  staged_from ((how, g) ∷ rest) q0 home scale floor_min deadline w =
      let (t, w') = monotonic num w in
      let next = staged_from rest q0 home scale floor_min deadline w' in
      let via = bring_home num hp g home q0 in
      if le num deadline t
      then (none, w')
      else if is_empty g || leb (length q0) (length g)
      then next
      else if lt (gap num via q0) (lit 1 4)
      then next
      else if not (clears num hp (edge q0 via scale floor_min) floor_min)
      then next
      else if clears num hp (edge via home scale floor_min) floor_min
      then (some (via ∷ home ∷ [], staged how), w')
      else next

  unfoldable pub plan_staged : List F → List F → F → F → F → World num → Found num × World num
  plan_staged = staged_from (stages num hp)

  -- The loop over the (fractions num hp) of one joint: the first that clears num hp, with its margin.
  unfoldable pub try_fracs : List F → List F → List F → F → F → ℕ → Option (F × List F)
  try_fracs [] home cur scale floor_min i = none
  try_fracs (frac ∷ fracs) home cur scale floor_min i =
      let cand = moved num hp home cur i frac in
      let m = edge cur cand scale floor_min in
      let next = try_fracs fracs home cur scale floor_min i in
      if clears num hp m floor_min then some (m.0, cand) else next

  unfoldable pub best_move :
      List ℕ → Option (F × List F) → List F → List F → F → F → Option (F × List F)
  best_move [] best home cur scale floor_min = best
  best_move (i ∷ left) best home cur scale floor_min =
      best_move left (better num hp best (try_fracs (fractions num hp) home cur scale floor_min i))
        home cur scale floor_min

  -- `while True` of `_greedy`. Each round reads the clock once; with no reading left the clock is
  -- past the deadline.
  unfoldable pub greedy_from :
      List F → List F → F → F → F → List F → List (List F) → ℕ → Found num × World num
  greedy_from [] home scale floor_min deadline cur path n =
      (none, record { readings = []; draws = n })
  greedy_from (t ∷ ts) home scale floor_min deadline cur path n =
      let w : World num = record { readings = ts; draws = n } in
      let left = joints_left num hp home cur 0 in
      let best = best_move left none home cur scale floor_min in
      if le num deadline t || ltb (3 * length cur) (length path)
      then (none, w)
      else if is_empty left
      then (if is_empty path then none else some (path, one_at_a_time), w)
      else elim best [
        | none ↦ (none, w)
        | some c ↦ greedy_from ts home scale floor_min deadline c.1 (path ++ c.1 ∷ []) n
      ]

  unfoldable pub plan_greedy : List F → List F → F → F → F → World num → Found num × World num
  plan_greedy q0 home scale floor_min deadline w =
      greedy_from w.readings home scale floor_min deadline q0 [] w.draws

  -- `edge q0 via` is clear: the tests from `name` on, with what the loop goes on to. `after` takes
  -- the state of the clock.
  unfoldable pub from_via :
      List F
      → List F
      → F
      → F
      → F
      → ℕ
      → F
      → World num
      → (World num → Found num × World num)
      → Found num × World num
  from_via via home scale floor_min deadline i turn w after =
      let (sub_plan, w') = plan_staged via home scale floor_min deadline w in
      if clears num hp (edge via home scale floor_min) floor_min
      then (some (via ∷ home ∷ [], backed_out i turn), w)
      else elim sub_plan [
        | none ↦ after w'
        | some r ↦ (some (via ∷ r.0, backed_out_then i turn r.1), w')
      ]

  unfoldable pub detour_from :
      List (ℕ × F) → List F → List F → F → F → F → World num → Found num × World num
  detour_from [] q0 home scale floor_min deadline w = (none, w)
  detour_from ((i, move) ∷ moves) q0 home scale floor_min deadline w =
      let (t, w') = monotonic num w in
      let next = detour_from moves q0 home scale floor_min deadline in
      let via = back_out num hp q0 i move in
      let turn = sub (get_or via i (lit 0 0)) (get_or q0 i (lit 0 0)) in
      if le num deadline t
      then (none, w')
      else if lt (num.abs turn) (lit 1 3)
      then next w'
      else if not (clears num hp (edge q0 via scale floor_min) floor_min)
      then next w'
      else from_via via home scale floor_min deadline i turn w' next

  unfoldable pub plan_detour : List F → List F → F → F → F → World num → Found num × World num
  plan_detour q0 = detour_from (back_outs num hp (length q0)) q0
