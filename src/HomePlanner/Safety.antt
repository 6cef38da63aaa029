-- ===== src/HomePlanner/Safety.antt =====
-- What `HomePlanner.plan` of home_planner.py promises of the plan that it returns.
use vla_mantis.Base.{
  ℕ, ◌≡◌, ◌≢◌, refl, true, false, none, some, List, [], ◌∷◌, arith, last_or, length, drop, if-cases,
  ◌⊎◌, inl, inr, subst, Bool-cases,
}
use mathlib.Core.List.{Memᴰ}
use mathlib.Core.Option.{some-injective}
use vla_mantis.Base.Num.{Num, gap, le, minimum}
use vla_mantis.HomePlanner.Edge.{HomePlanner, World, monotonic, margin}
use vla_mantis.HomePlanner.Tiers.{Found}
use vla_mantis.HomePlanner.Rrt.{Rng}
use vla_mantis.HomePlanner.Search.{
  Plan, Best, Outcome, found, carried, Tier, tiers, run_tier, take_path, tiers_from, scales_from,
  settle, plan, beats,
}
use vla_mantis.HomePlanner.Certified.{Certified, Sound, path}
use vla_mantis.HomePlanner.Tiered.{SoundFrom-Sound}
use vla_mantis.HomePlanner.Smoothing.{run_tier-Sound}

module _ (num : Num) (hp : HomePlanner num) (rng : Rng num) (q0 home : List num.F) where
  -- `floor_min`: the floor of a scale, or the clearance that the arm already has if that is less.
  abbrev pub floor_at : num.F → num.F
  floor_at scale = minimum num (num.lit 0 0) (margin num hp q0 scale).0

  -- A plan whose every segment was sampled at its floor, and that ends at home or at least 0.1 rad
  -- closer to it.
  pub record IsCertified (p : Plan num) : Type 0 where
    pub certified : Certified num hp p.floor_scale (floor_at p.floor_scale) q0 p.waypoints
    pub nonempty : p.waypoints ≢ []
    pub home_clear : num.lt (margin num hp home p.floor_scale).0 (floor_at p.floor_scale) ≡ false
    pub reaches :
        p.complete ≡ true → le num (gap num (last_or q0 p.waypoints) home) (num.lit 1 6) ≡ true
    pub gains :
        p.complete ≡ false
        → num.lt (num.lit 1 1) (num.sub (gap num home q0) (gap num home (last_or q0 p.waypoints)))
          ≡ true

  module _ (scales : List num.F) where
    -- What the loops hold: a complete plan, or a partial one for later, each at a scale of the list.
    pub data Held : Outcome num → Type 0 where
      held_found :
          {p : Plan num}
          → IsCertified p
          → Memᴰ p.floor_scale scales
          → p.complete ≡ true
          → Held (found p)
      held_none : Held (carried none)
      held_some :
          {g : num.F} {p : Plan num}
          → IsCertified p
          → Memᴰ p.floor_scale scales
          → Held (carried (some (g, p)))

    beats-gain :
        (gain : num.F) (best : Best num)
        → beats num hp rng q0 home gain best ≡ true
        → num.lt (num.lit 1 1) gain ≡ true
    beats-gain gain none h = h
    beats-gain gain (some b) h = ground arith

    take_path-Held :
        (scale : num.F) (got : Found num) (best : Best num)
        → num.lt (margin num hp home scale).0 (floor_at scale) ≡ false
        → Memᴰ scale scales
        → Sound num hp scale (floor_at scale) q0 got
        → Held (carried best)
        → Held (take_path num hp rng q0 home scale got best)
    unfolding take_path
    take_path-Held scale none best clear m s h = h
    take_path-Held scale (some (p, how)) best clear m (path c ne) h =
        let end = last_or q0 p in
        let gain = num.sub (gap num home q0) (gap num home end) in
        if-cases Held (le num (gap num end home) (num.lit 1 6))
          (λ near.
            held_found
              (record {
                certified = c;
                nonempty = ne;
                home_clear = clear;
                reaches = λ _. near;
                gains = λ f. cc;
              })
              m refl)
          (λ _.
            if-cases Held (beats num hp rng q0 home gain best)
              (λ more.
                held_some
                  (record {
                    certified = c;
                    nonempty = ne;
                    home_clear = clear;
                    reaches = λ f. cc;
                    gains = λ _. beats-gain gain best more;
                  })
                  m)
              (λ _. h))

    pub data HeldFrom (r : Outcome num × World num) : Type 0 where
      held_from : Held r.0 → HeldFrom r

    tiers_from-Held :
        (ts : List Tier) (scale deadline : num.F) (best : Best num) (w : World num)
        → num.lt (margin num hp home scale).0 (floor_at scale) ≡ false
        → Memᴰ scale scales
        → Held (carried best)
        → length q0 ≡ length home
        → length hp.lo ≡ length q0
        → HeldFrom (tiers_from num hp rng q0 home ts scale (floor_at scale) deadline best w)
    unfolding tiers_from
    tiers_from-Held [] scale deadline best w clear m h same bounded = held_from h
    tiers_from-Held (tier ∷ ts) scale deadline best w clear m h same bounded =
        let (t, w') = monotonic num w in
        let (got, w'') = run_tier num hp rng tier q0 home scale (floor_at scale) deadline w' in
        let s = SoundFrom-Sound num hp scale (floor_at scale) (
          run_tier-Sound num hp rng scale (floor_at scale) q0 tier home deadline w' same bounded) in
        if-cases HeldFrom (le num deadline t) (λ _. held_from h)
          (λ _.
            onward (take_path num hp rng q0 home scale got best) w''
              (take_path-Held scale got best clear m s h)
              (λ b hb. tiers_from-Held ts scale deadline b w'' clear m hb same bounded))
      where
        onward :
            (out : Outcome num) (v : World num)
            → Held out
            → ((b : Best num)
                → Held (carried b)
                → HeldFrom (tiers_from num hp rng q0 home ts scale (floor_at scale) deadline b v))
            → HeldFrom (elim out [
              | found p ↦ (found p, v)
              | carried b ↦ tiers_from num hp rng q0 home ts scale (floor_at scale) deadline b v
            ])
        onward (found p) v k ih = held_from k
        onward (carried b) v k ih = ih b k

    scales_from-Held :
        (ss : List num.F) (deadline : num.F) (best : Best num) (w : World num)
        → ((s : num.F) → Memᴰ s ss → Memᴰ s scales)
        → Held (carried best)
        → length q0 ≡ length home
        → length hp.lo ≡ length q0
        → HeldFrom (scales_from num hp rng q0 home ss deadline best w)
    unfolding scales_from
    scales_from-Held [] deadline best w sub h same bounded = held_from h
    scales_from-Held (scale ∷ ss) deadline best w sub h same bounded =
        let later = λ (s : num.F) (m : Memᴰ s ss). sub s (Memᴰ.tail m) in
        let m0 : Memᴰ scale (scale ∷ ss) = Memᴰ.head refl in
        let r = tiers_from num hp rng q0 home tiers scale (floor_at scale) deadline best w in
        if-cases HeldFrom (num.lt (margin num hp home scale).0 (floor_at scale))
          (λ _. scales_from-Held ss deadline best w later h same bounded)
          (λ clear.
            onward r
              (tiers_from-Held tiers scale deadline best w clear (sub scale m0) h same bounded)
              (λ b v hb. scales_from-Held ss deadline b v later hb same bounded))
      where
        onward :
            (r : Outcome num × World num)
            → HeldFrom r
            → ((b : Best num) (v : World num)
                → Held (carried b)
                → HeldFrom (scales_from num hp rng q0 home ss deadline b v))
            → HeldFrom (elim r.0 [
              | found p ↦ (found p, r.1)
              | carried b ↦ scales_from num hp rng q0 home ss deadline b r.1
            ])
        onward (found p, v) (held_from k) ih = held_from k
        onward (carried b, v) (held_from k) ih = ih b v k

  -- What a returned plan promises.
  abbrev Promise : List num.F → Plan num → Type 0
  Promise scales p =
      IsCertified p × Memᴰ p.floor_scale scales × ((p.complete ≡ true) ⊎ (hp.allow_partial ≡ true))

  settle-IsCertified :
      (scales : List num.F) (out : Outcome num) (p : Plan num)
      → Held scales out
      → settle num hp rng q0 home out ≡ some p
      → IsCertified p
        × Memᴰ p.floor_scale scales
        × ((p.complete ≡ true) ⊎ (hp.allow_partial ≡ true))
  settle-IsCertified scales (found p') p (held_found c m d) e =
      subst (Promise scales) (some-injective _ _ e) (c, m, inl d)
  settle-IsCertified scales (carried none) p held_none e = cc
  settle-IsCertified scales (carried (some (g, p'))) p (held_some c m) e =
      elim (Bool-cases hp.allow_partial) [
        | inl allowed ↦
            subst (Promise scales) (some-injective _ _ (rw allowed at e)) (c, m, inr allowed)
        | inr forbidden ↦ cc (rw forbidden at e)
      ]

  -- For a pose, a home pose and limits of as many joints: whatever the clock reads and the generator
  -- draws, a plan that `plan` returns has a waypoint, its polyline starts at the arm's pose and keeps to
  -- poses of as many joints, and every segment of it was sampled (where the two trees of the search
  -- meet, to a pose within 1e-9 rad of the segment's end in every joint) at a floor that is 0 or the
  -- arm's own clearance at the plan's scale, which is one of those allowed from `min_scale` on and at
  -- which home itself clears the floor. A complete plan ends within 1e-6 rad of home; any other one is
  -- returned only where partial plans are allowed, and ends more than 0.1 rad closer to home than the
  -- arm.
  pub plan-IsCertified :
      (deadline : num.F) (min_scale : ℕ) (w : World num) (p : Plan num)
      → length q0 ≡ length home
      → length hp.lo ≡ length q0
      → (plan num hp rng q0 home deadline min_scale w).0 ≡ some p
      → IsCertified p
        × Memᴰ p.floor_scale (drop min_scale hp.scales)
        × ((p.complete ≡ true) ⊎ (hp.allow_partial ≡ true))
  unfolding plan
  plan-IsCertified deadline min_scale w p same bounded e =
      let scales = drop min_scale hp.scales in
      go (scales_from num hp rng q0 home scales deadline none w)
        (scales_from-Held scales scales deadline none w (λ s m. m) held_none same bounded) e
    where
      go :
          (r : Outcome num × World num)
          → HeldFrom (drop min_scale hp.scales) r
          → settle num hp rng q0 home r.0 ≡ some p
          → IsCertified p
            × Memᴰ p.floor_scale (drop min_scale hp.scales)
            × ((p.complete ≡ true) ⊎ (hp.allow_partial ≡ true))
      go r (held_from k) e' = settle-IsCertified (drop min_scale hp.scales) r.0 p k e'
