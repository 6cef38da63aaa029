-- ===== src/HomePlanner/Rrt.antt =====
-- `_rrt` and `_shortcut` of home_planner.py: RRT-Connect over the arm joints, then smoothing.
use vla_mantis.Base.{
  ℕ, zero, suc, ◌+◌, ◌-◌, ◌≤◌, ◌<◌, ◌≡◌, Bool, true, false, not, Option, none, some, List, [], ◌∷◌,
  ◌++◌, map, reverse, leb, ◌==◌, length, get_or, take, drop, if◌then◌else◌,
}
use vla_mantis.Base.Num.{Num, zip_with, scaled, max_abs, gap, le, minimum, maximum}
use vla_mantis.HomePlanner.Edge.{HomePlanner, World, monotonic}
use vla_mantis.HomePlanner.Tiers.{Found, rrt, rrt_partial, edge, clears}

-- `np.random.default_rng(seed)`: what its n-th call returns.
pub record Rng (num : Num) : Type 0 where
  pub uniform : ℕ → List num.F → List num.F → List num.F
  -- `rng.uniform(lo, hi)` has the shape of its bounds.
  pub uniform_length : (n : ℕ) (lo hi : List num.F) → length (uniform n lo hi) ≡ length lo
  pub integers : ℕ → ℕ → ℕ → ℕ
  -- `rng.integers(a, b)` lies in [a, b).
  pub integers_range : (n a b : ℕ) → a < b → (a ≤ integers n a b) × (integers n a b < b)

-- A tree: its poses, and for each the index of its parent (-1 in the source is `none`).
pub record Tree (num : Num) : Type 0 where
  pub nodes : List (List num.F)
  pub parents : List (Option ℕ)

module _ (num : Num) where
  open num use {F, lt, lit, sub, add, div}

  unfoldable pub root_tree : List F → Tree num
  root_tree q = record { nodes = q ∷ []; parents = none ∷ [] }

  -- `A.append(qn); PA.append(ia)`
  unfoldable pub extend : Tree num → List F → ℕ → Tree num
  extend t q k = record { nodes = t.nodes ++ q ∷ []; parents = t.parents ++ some k ∷ [] }

  abbrev pub node : Tree num → ℕ → List F
  node t k = get_or t.nodes k []

  -- `np.argmin`: the index of the first smallest element.
  unfoldable pub argmin_from : F → ℕ → ℕ → List F → ℕ
  argmin_from best k i [] = k
  argmin_from best k i (x ∷ xs) =
      argmin_from (if lt x best then x else best) (if lt x best then i else k) (suc i) xs

  unfoldable pub argmin : List F → ℕ
  unfolding argmin_from
  argmin [] = 0
  argmin (x ∷ xs) = argmin_from x 0 1 xs

  -- The index of the pose nearest to `q`.
  unfoldable pub nearest : Tree num → List F → ℕ
  unfolding argmin
  nearest t q = argmin (map (λ p. gap num p q) t.nodes)

  unfoldable pub steer : F → List F → List F → List F
  steer step a b =
      let d = zip_with num sub b a in
      let n = max_abs num d in
      if le num n step then b else zip_with num add a (scaled num (div step n) d)

  -- The poses from the root to index `k`; a parent comes before its child, so the walk ends within
  -- as many steps as there are nodes.
  unfoldable pub chain_from : ℕ → Tree num → ℕ → List (List F) → List (List F)
  chain_from zero t k out = out
  chain_from (suc fuel) t k out = elim (get_or t.parents k none) [
    | none ↦ node t k ∷ out
    | some j ↦ chain_from fuel t j (node t k ∷ out)
  ]

  unfoldable pub chain : Tree num → ℕ → List (List F)
  unfolding chain_from
  chain t k = chain_from (length t.nodes) t k []

  -- The two branches, glued where the trees met: at the last nodes of both.
  unfoldable pub join : Tree num → Tree num → ℕ → Bool → List (List F)
  unfolding chain
  join A B k swapped =
      let ca = chain A (length A.nodes - 1) in
      let cb = drop 1 (reverse (chain B k)) in
      if swapped then reverse cb ++ reverse ca else ca ++ cb

  -- The end of the search at the deadline: the branch of the start tree that came closest to home.
  unfoldable pub closest : List F → Tree num → Option (List (List F) × Bool)
  unfolding nearest chain
  closest home start =
      let k = nearest start home in if k == 0 then none else some (chain start k, true)

  -- `ok(a, b)`
  abbrev pub ok : HomePlanner num → F → F → List F → List F → Bool
  ok hp scale floor_min a b = clears num hp (edge num hp a b scale floor_min) floor_min

module _ (num : Num) (hp : HomePlanner num) (rng : Rng num) where
  open num use {F, lt, lit, sub, add}

  -- One round of the loop of `_shortcut`, past its two tests.
  unfoldable pub cut : List (List F) → F → F → ℕ → List (List F)
  unfolding edge
  cut pts scale floor_min n =
      let i = rng.integers n 0 (length pts - 2) in
      let j = rng.integers (n + 1) (i + 2) (length pts) in
      if clears num hp (edge num hp (get_or pts i []) (get_or pts j []) scale floor_min) floor_min
      then take (i + 1) pts ++ drop j pts
      else pts

  unfoldable pub shortcut : ℕ → List (List F) → F → F → F → World num → List (List F) × World num
  unfolding cut
  shortcut zero pts scale floor_min deadline w = (pts, w)
  shortcut (suc iters) pts scale floor_min deadline w =
      let (t, w') = monotonic num w in
      let drawn : World num = record w' { draws = w'.draws + 2 } in
      let next = shortcut iters (cut pts scale floor_min w'.draws) scale floor_min deadline drawn in
      if leb (length pts) 2 then (pts, w) else if le num deadline t then (pts, w') else next

  module _ (home lo hi : List F) (scale floor_min deadline : F) where
    -- The two loops of the search. Each round of either reads the clock once; with no reading left
    -- both end. `connect` extends the second tree towards `qn`, from its node `k`. The result holds
    -- the raw path, and whether it is partial.
    unfoldable mutual
      unfolding closest nearest steer extend join edge

      pub grow : List F → Tree num → Tree num → Bool → ℕ → Option (List (List F) × Bool) × World num
      grow [] A B swapped n =
          (closest num home (if swapped then B else A), record { readings = []; draws = n })
      grow (t ∷ ts) A B swapped n =
          let qr = rng.uniform n lo hi in
          let ia = nearest num A qr in
          let qn = steer num hp.rrt_step (node num A ia) qr in
          let reach = connect ts (extend num A qn ia) B swapped (n + 1) qn (nearest num B qn) in
          let swap = grow ts B A (not swapped) (n + 1) in
          if le num deadline t
          then (closest num home (if swapped then B else A), record { readings = ts; draws = n })
          else if ok num hp scale floor_min (node num A ia) qn
          then reach
          else swap

      pub connect :
          List F
          → Tree num
          → Tree num
          → Bool
          → ℕ
          → List F
          → ℕ
          → Option (List (List F) × Bool) × World num
      connect [] A B swapped n qn k =
          (closest num home (if swapped then B else A), record { readings = []; draws = n })
      connect (t ∷ ts) A B swapped n qn k =
          let qs = steer num hp.rrt_step (node num B k) qn in
          let B' = extend num B qs k in
          let k' = length B.nodes in
          let swap = grow ts B A (not swapped) n in
          let further = connect ts A B' swapped n qn k' in
          if le num deadline t
          then swap
          else if not (ok num hp scale floor_min (node num B k) qs)
          then swap
          else if lt (gap num qs qn) (lit 1 9)
          then (some (join num A B' k' swapped, false), record { readings = ts; draws = n })
          else further

  -- What follows the search: smoothing on its own clock.
  unfoldable pub smoothed :
      Option (List (List F) × Bool) → F → F → World num → Found num × World num
  unfolding shortcut
  smoothed none scale floor_min w = (none, w)
  smoothed (some (pts, partial)) scale floor_min w =
      let (t, w') = monotonic num w in
      let budget = if partial then minimum num (lit 10 1) hp.smooth_time_s else hp.smooth_time_s in
      let (pts', w'') = shortcut 200 pts scale floor_min (add t budget) w' in
      (some (drop 1 pts', if partial then rrt_partial else rrt), w'')

  unfoldable pub plan_rrt : List F → List F → F → F → F → World num → Found num × World num
  unfolding grow smoothed root_tree
  plan_rrt q0 home scale floor_min deadline w =
      let lo = zip_with num (minimum num) hp.lo (zip_with num (minimum num) q0 home) in
      let hi = zip_with num (maximum num) hp.hi (zip_with num (maximum num) q0 home) in
      let (got, w') =
        grow home lo hi scale floor_min deadline w.readings (root_tree num q0) (root_tree num home)
          false w.draws in
      smoothed got scale floor_min w'
