-- ===== src/Teleop/Route.antt =====
-- The route that a move to home of teleop_mantis.py takes is one that was checked.
use vla_mantis.Base.{
  ◌<◌, ◌≡◌, ◌≢◌, refl, Bool, true, false, not, ◌&&◌, Option, none, some, List, [], ◌∷◌, String,
  if-cases, not-eq_true, and-eq_true, length, arith, subst, All, ◌==◌,
}
use mathlib.Core.Option.{some-injective}
use vla_mantis.Base.Num.{Num, gap, le}
use vla_mantis.HomePlanner.{
  World, monotonic, Rng, Plan, plan, floor_at, IsCertified, plan-IsCertified,
}
use vla_mantis.Teleop.Home.{
  Setup, Home, Route, route_of, straight, plan_home_path, route, margin_to_home, fractions_to_home,
  scan_home, home_path_clear, take_route, start_pose, frozen, inside, start_on, start_home,
}
use vla_mantis.Teleop.Ramp.{OnRoute, on_way}

length-positive {ℓ} : {A : Type ℓ} (xs : List A) → xs ≢ [] → 0 < length xs
length-positive [] ne = absurd (ne refl)
length-positive (x ∷ xs) ne = omega arith

module _ (num : Num) (cfg : Setup num) where
  open num use {F, lt, lit, add}

  -- Every sample of the straight way home has clearance at the full cushion.
  abbrev pub StraightClear : List F → List F → Type 0
  StraightClear q ss = All (λ s. lt (margin_to_home num cfg q s).0 (lit 0 0) ≡ false) ss

  scan_home-StraightClear :
      (q : List F) (ss : List F) (worst : F × String)
      → (scan_home num cfg q ss worst).0 ≡ true
      → StraightClear q ss
  unfolding scan_home
  scan_home-StraightClear q [] worst = λ h. tt
  scan_home-StraightClear q (s ∷ ss) worst =
      if-cases
        (λ (x : Bool × F × String).
          x.0 ≡ true → (lt (margin_to_home num cfg q s).0 (lit 0 0) ≡ false) × StraightClear q ss)
        (lt (margin_to_home num cfg q s).0 (lit 0 0)) (λ low e. absurd cc)
        (λ high e. (high, scan_home-StraightClear q ss _ e))

  -- How a route was found: it is the straight one and was clear, or a plan that was certified.
  pub data Routed (rng : Rng num) (q : List F) (r : Route num cfg) : Type 0 where
    no_geometry : cfg.has_geom ≡ false → r ≡ straight num cfg → Routed rng q r
    straight_clear :
        StraightClear q (fractions_to_home num cfg q) → r ≡ straight num cfg → Routed rng q r
    planned :
        (p : Plan num)
        → cfg.use_planner ≡ true
        → IsCertified num cfg.planner rng q cfg.home_q p
        → r.waypoints ≡ p.waypoints
        → r.at_scale ≡ p.floor_scale
        → r.at_floor ≡ floor_at num cfg.planner rng q cfg.home_q p.floor_scale
        → Routed rng q r

  clear-Routed :
      (rng : Rng num) (q : List F)
      → (home_path_clear num cfg q).0 ≡ true
      → Routed rng q (straight num cfg)
  unfolding home_path_clear
  clear-Routed rng q =
      if-cases (λ (x : Bool × F × String). x.0 ≡ true → Routed rng q (straight num cfg))
        (not cfg.has_geom) (λ none_there e. no_geometry (not-eq_true cfg.has_geom none_there) refl)
        (λ there e.
          straight_clear (scan_home-StraightClear q (fractions_to_home num cfg q) _ e) refl)

  route_of-Routed :
      (rng : Rng num) (q : List F) (deadline : F) (w : World num) (r : Route num cfg)
      (o : Option (Plan num))
      → length q ≡ length cfg.home_q
      → length cfg.planner.lo ≡ length q
      → cfg.use_planner ≡ true
      → (plan num cfg.planner rng q cfg.home_q deadline 0 w).0 ≡ o
      → route_of num cfg q o ≡ some r
      → Routed rng q r
  route_of-Routed rng q deadline w r none same bounded u e f = absurd cc
  route_of-Routed rng q deadline w r (some p) same bounded u e f =
      subst (Routed rng q) (some-injective _ _ f) (
        planned p u
          (plan-IsCertified num cfg.planner rng q cfg.home_q deadline 0 w p same bounded e).0 refl
          refl refl)

  plan_home_path-Routed :
      (rng : Rng num) (q : List F) (w : World num) (r : Route num cfg)
      → length q ≡ length cfg.home_q
      → length cfg.planner.lo ≡ length q
      → (plan_home_path num cfg rng q w).0 ≡ some r
      → Routed rng q r
  unfolding plan_home_path
  plan_home_path-Routed rng q w r same bounded =
      let m = monotonic num w in
      if-cases (λ (x : Option (Route num cfg) × World num). x.0 ≡ some r → Routed rng q r)
        cfg.use_planner
        (λ u e. route_of-Routed rng q (add m.0 cfg.plan_time) m.1 r _ same bounded u refl e)
        (λ u e. absurd cc)

  route-Routed :
      (rng : Rng num) (q : List F) (w : World num) (r : Route num cfg)
      → length q ≡ length cfg.home_q
      → length cfg.planner.lo ≡ length q
      → (route num cfg rng q w).0 ≡ some r
      → Routed rng q r
  unfolding route
  route-Routed rng q w r same bounded =
      if-cases (λ (x : Option (Route num cfg) × World num). x.0 ≡ some r → Routed rng q r)
        (home_path_clear num cfg q).0
        (λ c e. subst (Routed rng q) (some-injective _ _ e) (clear-Routed rng q c))
        (λ c e. plan_home_path-Routed rng q w r same bounded e)

  abbrev pub route_in : Home num → Route num cfg
  route_in h = record { waypoints = h.wps; at_scale = h.scale; at_floor = h.floor }

  Routed-nonempty :
      (rng : Rng num) (q : List F) (r : Route num cfg) → Routed rng q r → 0 < length r.waypoints
  Routed-nonempty rng q r (no_geometry g e) = rw e (omega arith)
  Routed-nonempty rng q r (straight_clear c e) = rw e (omega arith)
  Routed-nonempty rng q r (planned p u c w s f) = rw w (length-positive p.waypoints c.nonempty)

  -- The ramp leaves from the arm's pose, or from the last command where that is near it.
  pub data Departs (q : List F) (last cur : Option (List F)) : Type 0 where
    from_arm : cur ≡ some q → Departs q last cur
    from_command :
        (c : List F)
        → last ≡ some c
        → length c ≡ length q
        → le num (gap num c q) cfg.max_joint_lead ≡ true
        → cur ≡ some c
        → Departs q last cur

  start_pose-Departs :
      (q : List F) (last : Option (List F)) → Departs q last (some (start_pose num cfg q last))
  start_pose-Departs q none = from_arm refl
  start_pose-Departs q (some c) =
      if-cases (λ (x : List F). Departs q (some c) (some x))
        (length c == length q && le num (gap num c q) cfg.max_joint_lead)
        (λ near.
          let (same, close) = and-eq_true (length c == length q) _ near in
          from_command c refl (ground arith) close refl)
        (λ far. from_arm refl)

  -- What a start that answers `true` leaves: the first waypoint of a checked route is next.
  abbrev pub Started : Rng num → List F → Option (List F) → (Bool × Home num) × World num → Type 0
  Started rng q last x =
      Routed rng q (route_in x.0.1)
      × OnRoute num cfg x.0.1
      × (x.0.1.active ≡ true)
      × (x.0.1.i ≡ 0)
      × Departs q last x.0.1.cur

  take_route-Started :
      (rng : Rng num) (q : List F) (stop : Bool) (o : Option (Route num cfg)) (w : World num)
      (h : Home num)
      → ((r : Route num cfg) → o ≡ some r → Routed rng q r)
      → (take_route num cfg q stop o h).0 ≡ true
      → Started rng q h.last_cmd (take_route num cfg q stop o h, w)
  take_route-Started rng q stop none w h routed t = absurd cc
  take_route-Started rng q stop (some r) w h routed t =
      let checked = routed r refl in
      (
        checked,
        on_way _ refl (Routed-nonempty rng q r checked) refl,
        refl,
        refl,
        start_pose-Departs q h.last_cmd,
      )

  frozen_last_cmd : (h : Home num) → (frozen num cfg h).last_cmd ≡ h.last_cmd
  frozen_last_cmd h =
      if-cases (λ (x : Home num). x.last_cmd ≡ h.last_cmd) h.engaged (λ e. refl) (λ e. refl)

  start_on-Started :
      (rng : Rng num) (ready recording : Bool) (q : List F) (stop : Bool) (w : World num)
      (h : Home num) (x : Option (Route num cfg) × World num)
      → ((r : Route num cfg) → x.0 ≡ some r → Routed rng q r)
      → (start_on num cfg ready recording q stop w h x).0.0 ≡ true
      → Started rng q h.last_cmd (start_on num cfg ready recording q stop w h x)
  start_on-Started rng ready recording q stop w h x routed =
      let P = λ (y : (Bool × Home num) × World num). y.0.0 ≡ true → Started rng q h.last_cmd y in
      if-cases P h.active (λ a e. absurd cc)
        (λ a.
          if-cases P (not ready) (λ b e. absurd cc)
            (λ b.
              if-cases P (not stop && recording) (λ c e. absurd cc)
                (λ c.
                  if-cases P (not (inside num cfg cfg.lower cfg.upper cfg.home_q))
                    (λ d e. absurd cc)
                    (λ d e.
                      subst
                        (λ (last : Option (List F)).
                          Started rng q last
                            (take_route num cfg q stop x.0 (frozen num cfg h), x.1))
                        (frozen_last_cmd h)
                        (take_route-Started rng q stop x.0 x.1 (frozen num cfg h) routed e)))))

  -- For a pose, a home pose and limits of as many joints: where `_start_home` starts a move, the move is active and heads for the first waypoint of its route,
  -- from the arm's pose or from the last command where that is within the joint lead of the arm. The
  -- route was checked from the arm's pose: straight home with clearance at the full cushion at every sample (or
  -- there is no collision geometry), or a plan of the home planner that is certified at the scale and
  -- the floor that the gate will use.
  pub start_home-Started :
      (rng : Rng num) (ready recording : Bool) (q : List F) (stop : Bool) (w : World num)
      (h : Home num)
      → length q ≡ length cfg.home_q
      → length cfg.planner.lo ≡ length q
      → (start_home num cfg rng ready recording q stop w h).0.0 ≡ true
      → Started rng q h.last_cmd (start_home num cfg rng ready recording q stop w h)
  unfolding start_home
  start_home-Started rng ready recording q stop w h same bounded =
      start_on-Started rng ready recording q stop w h (route num cfg rng q w)
        (λ r. route-Routed rng q w r same bounded)
