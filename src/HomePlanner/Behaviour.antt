-- ===== src/HomePlanner/Behaviour.antt =====
-- How `plan` of home_planner.py chooses: the straight segment first, nothing without a clear home;
-- and how densely `edge_margin` samples.
use vla_mantis.Base.{
  ℕ, suc, ◌≤◌, ◌≡◌, refl, sym, true, false, none, some, List, [], ◌∷◌, arith, drop, init, length,
  get_elem?, All, ap, ◌∙◌,
}
use vla_mantis.Base.Num.{Num, gap, max_abs, zip_with}
use vla_mantis.HomePlanner.Edge.{
  HomePlanner, World, Clear, edge_margin-Clear, margin, monotonic, order_of, samples, sample_order,
}
use vla_mantis.HomePlanner.Tiers.{direct, plan_direct}
use vla_mantis.HomePlanner.Rrt.{Rng}
use vla_mantis.HomePlanner.Search.{plan, scales_from, carried}
use vla_mantis.HomePlanner.Safety.{floor_at}

length-init {ℓ} : {A : Type ℓ} (x : A) (xs : List A) → length (init (x ∷ xs)) ≡ length xs
length-init x [] = refl
length-init x (y ∷ ys) = ap suc (length-init y ys)

module _ (num : Num) (hp : HomePlanner num) where
  samples_bounds : (dist : num.F) → (2 ≤ samples num hp dist) × (samples num hp dist ≤ 400)
  unfolding samples
  samples_bounds dist = (omega arith, omega arith)

  -- Two samples or more: the two ends come first, and the order has as many entries as the grid.
  sample_order-ends :
      (n : ℕ) (ss : List num.F)
      → length ss ≡ n
      → 2 ≤ n
      → (n ≡ 2 → ss ≡ num.lit 0 0 ∷ num.lit 1 0 ∷ [])
      → (length (sample_order num hp ss) ≡ n)
        × (get_elem? (sample_order num hp ss) 0 ≡ some (num.lit 1 0))
        × (get_elem? (sample_order num hp ss) 1 ≡ some (num.lit 0 0))
  unfolding sample_order
  sample_order-ends n [] e h two = absurd (omega arith)
  sample_order-ends n (a ∷ []) e h two = absurd (omega arith)
  sample_order-ends n (a ∷ b ∷ []) e h two = ground (arith, two (sym e))
  sample_order-ends n (a ∷ b ∷ c ∷ ss) e h two = let l = length-init b (c ∷ ss) in ground (arith, l)

  -- However long a segment is, between 2 and 400 poses of it are sampled, and its two ends are the
  -- first two of them.
  pub order_of-ends :
      (a b : List num.F)
      → (2 ≤ length (order_of num hp a b))
        × (length (order_of num hp a b) ≤ 400)
        × (get_elem? (order_of num hp a b) 0 ≡ some (num.lit 1 0))
        × (get_elem? (order_of num hp a b) 1 ≡ some (num.lit 0 0))
  unfolding order_of
  order_of-ends a b =
      let n = samples num hp (max_abs num (zip_with num num.sub b a)) in
      let (lo, hi) = samples_bounds (max_abs num (zip_with num num.sub b a)) in
      let (l, e1, e0) =
        sample_order-ends n (num.linspace n) (num.linspace_length n) lo
          (λ e. ap num.linspace e ∙ num.linspace_two) in
      (omega arith, omega arith, e1, e0)

module _ (num : Num) (hp : HomePlanner num) (rng : Rng num) (q0 home : List num.F) where
  -- Where the clock has a reading before the deadline, home clears the first floor, and the straight
  -- segment is clear at it, the plan is the straight segment at the first scale, and no tier but
  -- the first is tried. (The distance of home from itself is no more than the tolerance.)
  pub plan_straight :
      (deadline t : num.F) (min_scale n : ℕ) (ts scales : List num.F) (scale : num.F)
      → drop min_scale hp.scales ≡ scale ∷ scales
      → num.lt t deadline ≡ true
      → num.lt (margin num hp home scale).0 (floor_at num hp rng q0 home scale) ≡ false
      → Clear num hp scale (floor_at num hp rng q0 home scale) q0 home
      → num.lt (num.lit 1 6) (gap num home home) ≡ false
      → plan num hp rng q0 home deadline min_scale (record { readings = t ∷ ts; draws = n }) ≡ (
        some (record { waypoints = home ∷ []; floor_scale = scale; how = direct; complete = true }),
        record { readings = ts; draws = n },
      )
  unfolding plan monotonic plan_direct
  plan_straight deadline t min_scale n ts scales scale es early hc clear near = rw es (
      ground (
        arith,
        (edge_margin-Clear num hp q0 home scale (floor_at num hp rng q0 home scale)).1 clear,
      ))

  no_clear_home :
      (ss : List num.F) (deadline : num.F) (w : World num)
      → All (λ s. num.lt (margin num hp home s).0 (floor_at num hp rng q0 home s) ≡ true) ss
      → scales_from num hp rng q0 home ss deadline none w ≡ (carried none, w)
  unfolding scales_from
  no_clear_home [] deadline w h = refl
  no_clear_home (s ∷ ss) deadline w h = rw h.0 (no_clear_home ss deadline w h.1)

  -- Where home clears the floor of none of the allowed scales, the search returns nothing, and spends
  -- no time on it: the clock is not read and nothing is drawn.
  pub plan_no_home :
      (deadline : num.F) (min_scale : ℕ) (w : World num)
      → All
          (λ s. num.lt (margin num hp home s).0 (floor_at num hp rng q0 home s) ≡ true)
          (drop min_scale hp.scales)
      → plan num hp rng q0 home deadline min_scale w ≡ (none, w)
  unfolding plan
  plan_no_home deadline min_scale w h =
      rw (no_clear_home (drop min_scale hp.scales) deadline w h) refl
