-- ===== src/Follower/Rrt.antt =====
-- `_plan_rrt` and `_shortcut` in the copy of the planner of mantis_follower.py. Trees, steering and
-- the branches are those of the other copy.
use vla_mantis.Base.{
  ℕ, zero, suc, ◌+◌, ◌-◌, Bool, false, not, Option, none, some, List, [], ◌∷◌, ◌++◌, leb, length,
  get_or, take, drop, if◌then◌else◌,
}
use vla_mantis.Base.Num.{Num, zip_with, gap, le, minimum, maximum}
use vla_mantis.HomePlanner.{
  World, monotonic, Found, clears, Rng, Tree, rrt, rrt_partial, root_tree, extend, node, nearest,
  steer, join, closest,
}
use vla_mantis.Follower.State.{Ik, Setup}
use vla_mantis.Follower.Edge.{limits}
use vla_mantis.Follower.Tiers.{hp, edge}

module _ (num : Num) (cfg : Setup num) (ik : Ik num) (rng : Rng num) where
  open num use {F, lt, lit, add}

  -- One round of the loop of `_shortcut`, past its two tests.
  unfoldable pub cut : List (List F) → F → F → ℕ → List (List F)
  unfolding edge
  cut pts scale floor_min n =
      let i = rng.integers n 0 (length pts - 2) in
      let j = rng.integers (n + 1) (i + 2) (length pts) in
      if clears num (hp num cfg ik)
        (edge num cfg ik (get_or pts i []) (get_or pts j []) scale floor_min) floor_min
      then take (i + 1) pts ++ drop j pts
      else pts

  unfoldable pub shortcut : ℕ → List (List F) → F → F → F → World num → List (List F) × World num
  unfolding cut
  shortcut zero pts scale floor_min deadline w = (pts, w)
  shortcut (suc iters) pts scale floor_min deadline w =
      let (t, w') = monotonic num w in
      let drawn : World num = record w' { draws = w'.draws + 2 } in
      let next = shortcut iters (cut pts scale floor_min w'.draws) scale floor_min deadline drawn in
      if leb (length pts) 2 then (pts, w) else if le num deadline t then (pts, w') else next

  -- `ok(a, b)`
  abbrev pub ok : F → F → List F → List F → Bool
  ok scale floor_min a b =
      clears num (hp num cfg ik) (edge num cfg ik a b scale floor_min) floor_min

  module _ (home lo hi : List F) (scale floor_min deadline : F) where
    -- The two loops of the search. Each round of either reads the clock once; with no reading left
    -- both end. `connect` extends the second tree towards `qn`, from its node `k`. The result holds
    -- the raw path, and whether it is partial.
    unfoldable mutual
      unfolding edge

      pub grow : List F → Tree num → Tree num → Bool → ℕ → Option (List (List F) × Bool) × World num
      grow [] A B swapped n =
          (closest num home (if swapped then B else A), record { readings = []; draws = n })
      grow (t ∷ ts) A B swapped n =
          let qr = rng.uniform n lo hi in
          let ia = nearest num A qr in
          let qn = steer num cfg.home_rrt_step (node num A ia) qr in
          let reach = connect ts (extend num A qn ia) B swapped (n + 1) qn (nearest num B qn) in
          let swap = grow ts B A (not swapped) (n + 1) in
          if le num deadline t
          then (closest num home (if swapped then B else A), record { readings = ts; draws = n })
          else if ok scale floor_min (node num A ia) qn
          then reach
          else swap

      pub connect :
          List F
          → Tree num
          → Tree num
          → Bool
          → ℕ
          → List F
          → ℕ
          → Option (List (List F) × Bool) × World num
      connect [] A B swapped n qn k =
          (closest num home (if swapped then B else A), record { readings = []; draws = n })
      connect (t ∷ ts) A B swapped n qn k =
          let qs = steer num cfg.home_rrt_step (node num B k) qn in
          let B' = extend num B qs k in
          let k' = length B.nodes in
          let swap = grow ts B A (not swapped) n in
          let further = connect ts A B' swapped n qn k' in
          if le num deadline t
          then swap
          else if not (ok scale floor_min (node num B k) qs)
          then swap
          else if lt (gap num qs qn) (lit 1 9)
          then (some (join num A B' k' swapped, false), record { readings = ts; draws = n })
          else further

  -- What follows the search of `_plan_rrt`: smoothing on its own clock.
  unfoldable pub smoothed :
      Option (List (List F) × Bool) → F → F → World num → Found num × World num
  unfolding shortcut
  smoothed none scale floor_min w = (none, w)
  smoothed (some (pts, partial)) scale floor_min w =
      let (t, w') = monotonic num w in
      let budget = if partial then lit 10 1 else cfg.home_smooth_time_s in
      let (pts', w'') = shortcut 200 pts scale floor_min (add t budget) w' in
      (some (drop 1 pts', if partial then rrt_partial else rrt), w'')

  -- `_plan_rrt`
  unfoldable pub plan_rrt : List F → List F → F → F → F → World num → Found num × World num
  unfolding grow smoothed
  plan_rrt q0 home scale floor_min deadline w =
      let low = limits num cfg ik ik.lower in
      let high = limits num cfg ik ik.upper in
      let lo = zip_with num (minimum num) low (zip_with num (minimum num) q0 home) in
      let hi = zip_with num (maximum num) high (zip_with num (maximum num) q0 home) in
      let (got, w') =
        grow home lo hi scale floor_min deadline w.readings (root_tree num q0) (root_tree num home)
          false w.draws in
      smoothed got scale floor_min w'
