-- ===== src/Follower/Edge.antt =====
-- The planner of mantis_follower.py as an object of home_planner.py, its `_edge_margin`, and that
-- both copies of it agree.
use vla_mantis.Base.{
  ◌+◌, ◌≡◌, refl, true, false, not, Option, some, List, [], ◌∷◌, String, map, min, max,
  if◌then◌else◌, get_or, Bool-cases, inl, inr,
}
use vla_mantis.Base.Num.{Num, zip_with, max_abs}
use vla_mantis.HomePlanner as Planner
use vla_mantis.HomePlanner.{HomePlanner, create, below, sample, sample_order, order_of, samples}
use vla_mantis.Follower.State.{Ik, Setup, margin_in, check_step, q_full}

module _ (num : Num) (cfg : Setup num) (ik : Ik num) where
  open num use {F, lt, lit, inf, sub, ceil, div, linspace}

  -- `[limit[ik.qindex(j)] for j in T.ARM]`
  abbrev pub limits : List F → List F
  limits limit = map (λ j. get_or limit (ik.qindex j) (lit 0 0)) cfg.arm

  -- The object that the teleop's constructor makes of the same arm, model and knobs.
  unfoldable pub as_planner : HomePlanner num
  unfolding create
  as_planner =
      create num (margin_in num cfg (some ik)) cfg.arm (limits ik.lower) (limits ik.upper)
        cfg.home_check_step cfg.home_floor_scales cfg.home_rrt_step cfg.home_smooth_time_s
        cfg.home_allow_partial

  -- The loop of `_edge_margin` over `order`, with `break`.
  scan : List F → List F → F → Option F → List F → F → String → F × String
  scan a d scale stop_below [] worst wpair = (worst, wpair)
  scan a d scale stop_below (s ∷ ss) worst wpair =
      let (m, pair) = ik.margin_at (q_full num cfg ik (sample num as_planner a d s)) scale in
      let better = scan a d scale stop_below ss m pair in
      let kept = scan a d scale stop_below ss worst wpair in
      if lt m worst then (if below num as_planner m stop_below then (m, pair) else better) else kept

  -- `order`
  order : List F → List F → List F
  order a b =
      let dist = max_abs num (zip_with num sub b a) in
      sample_order num as_planner
        (linspace (min (max (ceil (div dist (check_step num cfg)) + 1) 2) 400))

  -- `_edge_margin`
  unfoldable pub edge_margin : List F → List F → F → Option F → F × String
  unfolding scan order
  edge_margin a b floor_scale stop_below =
      if not ik.has_geom
      then (inf, "")
      else scan a (zip_with num sub b a) floor_scale stop_below (order a b) inf ""

  scan_eq :
      ik.has_geom ≡ true
      → (a d : List F) (scale : F) (stop : Option F) (ss : List F) (worst : F) (p : String)
      → scan a d scale stop ss worst p ≡ Planner.scan num as_planner a d scale stop ss worst p
  unfolding scan Planner.scan Planner.margin as_planner
  scan_eq g a d scale stop [] worst p = refl
  scan_eq g a d scale stop (s ∷ ss) worst p =
      let (m, pair) = ik.margin_at (q_full num cfg ik (sample num as_planner a d s)) scale in
      simp (g, scan_eq g a d scale stop ss m pair, scan_eq g a d scale stop ss worst p)

  scan_no_geom :
      ik.has_geom ≡ false
      → (a d : List F) (scale : F) (stop : Option F) (ss : List F)
      → Planner.scan num as_planner a d scale stop ss inf "" ≡ (inf, "")
  unfolding Planner.scan Planner.margin as_planner
  scan_no_geom g a d scale stop [] = refl
  scan_no_geom g a d scale stop (s ∷ ss) =
      simp (g, num.lt_irrefl inf, scan_no_geom g a d scale stop ss)

  -- Both copies of the query of a segment agree, with collision geometry and without.
  pub edge_margin_eq :
      (a b : List F) (scale : F) (stop : Option F)
      → edge_margin a b scale stop ≡ Planner.edge_margin num as_planner a b scale stop
  unfolding edge_margin Planner.edge_margin order_of samples max_abs as_planner
  edge_margin_eq a b scale stop = elim (Bool-cases ik.has_geom) [
    | inl g ↦ simp (g, scan_eq g a _ scale stop (order a b) inf "")
    | inr g ↦ simp (g, scan_no_geom g a _ scale stop (order a b))
  ]
