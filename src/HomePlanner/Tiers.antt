-- ===== src/HomePlanner/Tiers.antt =====
-- The tiers of the search that do not grow trees: `_direct`, `_groups`, `_staged`, `_greedy` and
-- `_detour` of home_planner.py.
use vla_mantis.Base.{
  ℕ, suc, ◌*◌, Bool, true, false, not, ◌&&◌, ◌||◌, Option, none, some, List, [], ◌∷◌, ◌++◌, String,
  ltb, leb, length, is_empty, get_or, set, range_from, if◌then◌else◌,
}
use mathlib.Core.List.{flat_map}
use text.Mathlib.Text.{find?}
use vla_mantis.Base.Num.{Num, gap, le, minimum, maximum}
use vla_mantis.HomePlanner.Edge.{HomePlanner, World, monotonic, edge_margin}

-- The groups of joints that `_staged` brings home first, by the names that it reports.
pub data Group : Type 0 where
  wrists_first shoulder_elbow_first arm_before_wrists pan_last pan_first : Group

-- The method that a plan reports. A joint that backed out comes with its index and its move.
pub data Method (num : Num) : Type 0 where
  direct : Method num
  staged : Group → Method num
  one_at_a_time : Method num
  backed_out : ℕ → num.F → Method num
  backed_out_then : ℕ → num.F → Method num → Method num
  rrt : Method num
  rrt_partial : Method num

-- What a tier returns: `None`, or the waypoints after the start and the method.
abbrev pub Found : Num → Type 0
Found num = Option (List (List num.F) × Method num)

-- `"wrist" in j`
contains : String → String → Bool
contains j part = elim (find? j part) [ none ↦ false | some i ↦ true ]

-- `[i for i, j in enumerate(arm) if p(i, j)]`
indices : (ℕ → String → Bool) → ℕ → List String → List ℕ
indices p i [] = []
indices p i (j ∷ js) = let rest = indices p (suc i) js in if p i j then i ∷ rest else rest

-- `i in g`
elem : ℕ → List ℕ → Bool
elem i [] = false
elem i (j ∷ js) = (leb i j && leb j i) || elem i js

module _ (num : Num) (hp : HomePlanner num) where
  open num use {F, lt, lit, sub, add, mul}

  -- `w >= floor_min`
  abbrev pub clears : F × String → F → Bool
  clears w floor_min = le num floor_min w.0

  unfoldable pub edge : List F → List F → F → F → F × String
  edge a b scale floor_min = edge_margin num hp a b scale (some floor_min)

  unfoldable pub plan_direct : List F → List F → F → F → World num → Found num × World num
  unfolding edge
  plan_direct q0 home scale floor_min w = (
    if clears (edge q0 home scale floor_min) floor_min then some (home ∷ [], direct) else none,
    w,
  )

  unfoldable pub groups : List ℕ × List ℕ × List ℕ
  unfolding contains indices elem
  groups =
      let wrist = indices (λ i j. contains j "wrist") 0 hp.arm in
      let pan = indices (λ i j. contains j "pan") 0 hp.arm in
      let upper = indices (λ i j. not (elem i wrist) && not (elem i pan)) 0 hp.arm in
      (wrist, pan, upper)

  -- `for i in g: w[i] = home[i]`
  unfoldable pub bring_home : List ℕ → List F → List F → List F
  bring_home [] home w = w
  bring_home (i ∷ g) home w = bring_home g home (set w i (get_or home i (lit 0 0)))

  -- The loop of `_staged` over the groups.
  unfoldable pub staged_from :
      List (Group × List ℕ) → List F → List F → F → F → F → World num → Found num × World num
  unfolding edge bring_home
  staged_from [] q0 home scale floor_min deadline w = (none, w)
  staged_from ((how, g) ∷ rest) q0 home scale floor_min deadline w =
      let (t, w') = monotonic num w in
      let next = staged_from rest q0 home scale floor_min deadline w' in
      let via = bring_home g home q0 in
      if le num deadline t
      then (none, w')
      else if is_empty g || leb (length q0) (length g)
      then next
      else if lt (gap num via q0) (lit 1 4)
      then next
      else if not (clears (edge q0 via scale floor_min) floor_min)
      then next
      else if clears (edge via home scale floor_min) floor_min
      then (some (via ∷ home ∷ [], staged how), w')
      else next

  -- The tuple that `_staged` loops over.
  abbrev pub stages : List (Group × List ℕ)
  unfolding groups
  stages =
      let (wrist, pan, upper) = groups in
      (wrists_first, wrist)
      ∷ (shoulder_elbow_first, upper)
      ∷ (arm_before_wrists, pan ++ upper)
      ∷ (pan_last, upper ++ wrist)
      ∷ (pan_first, pan)
      ∷ []

  unfoldable pub plan_staged : List F → List F → F → F → F → World num → Found num × World num
  unfolding groups staged_from
  plan_staged = staged_from stages

  -- `cand = cur.copy(); cand[i] = cur[i] + frac * (home[i] - cur[i])`
  unfoldable pub moved : List F → List F → ℕ → F → List F
  moved home cur i frac =
      let c = get_or cur i (lit 0 0) in
      set cur i (add c (mul frac (sub (get_or home i (lit 0 0)) c)))

  -- The loop over the fractions of one joint: the first that clears, with its margin.
  unfoldable pub try_fracs : List F → List F → List F → F → F → ℕ → Option (F × List F)
  unfolding edge moved
  try_fracs [] home cur scale floor_min i = none
  try_fracs (frac ∷ fracs) home cur scale floor_min i =
      let cand = moved home cur i frac in
      let m = edge cur cand scale floor_min in
      let next = try_fracs fracs home cur scale floor_min i in
      if clears m floor_min then some (m.0, cand) else next

  abbrev pub better : Option (F × List F) → Option (F × List F) → Option (F × List F)
  better best none = best
  better none (some c) = some c
  better (some b) (some c) = if lt b.0 c.0 then some c else some b

  -- The loop over the joints left; of a candidate only the margin and the pose are read later.
  -- `(1.0, 0.6, 0.3)`
  abbrev pub fractions : List F
  fractions = lit 10 1 ∷ lit 6 1 ∷ lit 3 1 ∷ []

  unfoldable pub best_move :
      List ℕ → Option (F × List F) → List F → List F → F → F → Option (F × List F)
  unfolding try_fracs
  best_move [] best home cur scale floor_min = best
  best_move (i ∷ left) best home cur scale floor_min =
      best_move left (better best (try_fracs fractions home cur scale floor_min i)) home cur scale
        floor_min

  -- `[i for i in range(len(cur)) if abs(home[i] - cur[i]) > 1e-4]`
  unfoldable pub joints_left : List F → List F → ℕ → List ℕ
  joints_left home [] i = []
  joints_left home (c ∷ cur) i =
      let rest = joints_left home cur (suc i) in
      if lt (lit 1 4) (num.abs (sub (get_or home i (lit 0 0)) c)) then i ∷ rest else rest

  -- `while True` of `_greedy`. Each round reads the clock once; with no reading left the clock is
  -- past the deadline.
  unfoldable pub greedy_from :
      List F → List F → F → F → F → List F → List (List F) → ℕ → Found num × World num
  unfolding best_move joints_left
  greedy_from [] home scale floor_min deadline cur path n =
      (none, record { readings = []; draws = n })
  greedy_from (t ∷ ts) home scale floor_min deadline cur path n =
      let w : World num = record { readings = ts; draws = n } in
      let left = joints_left home cur 0 in
      let best = best_move left none home cur scale floor_min in
      if le num deadline t || ltb (3 * length cur) (length path)
      then (none, w)
      else if is_empty left
      then (if is_empty path then none else some (path, one_at_a_time), w)
      else elim best [
        | none ↦ (none, w)
        | some c ↦ greedy_from ts home scale floor_min deadline c.1 (path ++ c.1 ∷ []) n
      ]

  unfoldable pub plan_greedy : List F → List F → F → F → F → World num → Found num × World num
  unfolding greedy_from
  plan_greedy q0 home scale floor_min deadline w =
      greedy_from w.readings home scale floor_min deadline q0 [] w.draws

  -- `np.clip(x, lo, hi)`
  abbrev clip : F → F → F → F
  clip x lo hi = minimum num (maximum num x lo) hi

  -- One move backwards: `w[i] = np.clip(q0[i] + sgn * delta, lo[i], hi[i])`.
  unfoldable pub back_out : List F → ℕ → F → List F
  back_out q0 i move = set q0 i (
      clip (add (get_or q0 i (lit 0 0)) move) (get_or hp.lo i (lit 0 0)) (get_or hp.hi i (lit 0 0)))

  -- The nested loops over the deltas, the joints and the signs, as one list of moves of a joint.
  unfoldable pub back_outs : ℕ → List (ℕ × F)
  back_outs n = flat_map (λ delta. flat_map (both delta) (range_from 0 n)) deltas
    where
      deltas : List F
      deltas = num.radians (lit 45 0) ∷ num.radians (lit 90 0) ∷ num.radians (lit 135 0) ∷ []

      both : F → ℕ → List (ℕ × F)
      both delta i = (i, delta) ∷ (i, num.neg delta) ∷ []

  -- `edge q0 via` is clear: the tests from `name` on, with what the loop goes on to. `after` takes
  -- the state of the clock.
  unfoldable pub from_via :
      List F
      → List F
      → F
      → F
      → F
      → ℕ
      → F
      → World num
      → (World num → Found num × World num)
      → Found num × World num
  unfolding edge plan_staged
  from_via via home scale floor_min deadline i turn w after =
      let (sub_plan, w') = plan_staged via home scale floor_min deadline w in
      if clears (edge via home scale floor_min) floor_min
      then (some (via ∷ home ∷ [], backed_out i turn), w)
      else elim sub_plan [
        | none ↦ after w'
        | some r ↦ (some (via ∷ r.0, backed_out_then i turn r.1), w')
      ]

  unfoldable pub detour_from :
      List (ℕ × F) → List F → List F → F → F → F → World num → Found num × World num
  unfolding edge back_out from_via
  detour_from [] q0 home scale floor_min deadline w = (none, w)
  detour_from ((i, move) ∷ moves) q0 home scale floor_min deadline w =
      let (t, w') = monotonic num w in
      let next = detour_from moves q0 home scale floor_min deadline in
      let via = back_out q0 i move in
      let turn = sub (get_or via i (lit 0 0)) (get_or q0 i (lit 0 0)) in
      if le num deadline t
      then (none, w')
      else if lt (num.abs turn) (lit 1 3)
      then next w'
      else if not (clears (edge q0 via scale floor_min) floor_min)
      then next w'
      else from_via via home scale floor_min deadline i turn w' next

  unfoldable pub plan_detour : List F → List F → F → F → F → World num → Found num × World num
  unfolding detour_from back_outs
  plan_detour q0 = detour_from (back_outs (length q0)) q0
