-- ===== src/HomePlanner/Certified.antt =====
-- What a path of home_planner.py certifies: every segment of it was sampled at the floor of its plan.
use vla_mantis.Base.{
  ℕ, zero, suc, ◌<◌, ◌≡◌, ◌≢◌, refl, sym, ◌∙◌, true, none, some, List, [], ◌∷◌, ◌++◌, arith,
  last_or, get_or, length,
}
use vla_mantis.Base.Num.{Num, gap}
use vla_mantis.HomePlanner.Edge.{HomePlanner, Clear, edge_margin-Clear}
use vla_mantis.HomePlanner.Tiers.{Found, Method, edge, clears}

module _ (num : Num) (hp : HomePlanner num) where
  open num use {F, lt, lit}

  module _ (scale floor : F) where
    -- The straight way between two poses of as many joints was sampled at the floor.
    abbrev pub Sampled : List F → List F → Type 0
    Sampled a b = (length a ≡ length b) × Clear num hp scale floor a b

    -- A segment a -> b was sampled at the floor, in one of its two directions. Where the two trees
    -- of `_rrt` meet, the sampled segment ends at a pose of as many joints that is within 1e-9 of the
    -- end of the one that is executed.
    pub data Segment (a b : List F) : Type 0 where
      forward : Sampled a b → Segment a b
      backward : Sampled b a → Segment a b
      forward_to :
          (c : List F)
          → length c ≡ length b
          → lt (gap num c b) (lit 1 9) ≡ true
          → Sampled a c
          → Segment a b
      backward_from :
          (c : List F)
          → length c ≡ length a
          → lt (gap num c a) (lit 1 9) ≡ true
          → Sampled b c
          → Segment a b

    -- Every segment of the polyline that starts at `a` and goes on through `path`.
    abbrev pub Certified : List F → List (List F) → Type 0
    Certified a [] = Unit
    Certified a (b ∷ path) = Segment a b × Certified b path

    -- What a tier returns is no path, or a certified one with a waypoint.
    pub data Sound (a : List F) : Found num → Type 0 where
      no_path : Sound a none
      path :
          {p : List (List F)} {how : Method num} → Certified a p → p ≢ [] → Sound a (some (p, how))

    pub Certified-append :
        (a b : List F) (xs ys : List (List F))
        → Certified a (xs ++ b ∷ [])
        → Certified b ys
        → Certified a (xs ++ b ∷ ys)
    Certified-append a b [] ys h k = (h.0, k)
    Certified-append a b (x ∷ xs) ys h k = (h.0, Certified-append x b xs ys h.1 k)

    pub Certified-snoc :
        (a b : List F) (xs : List (List F))
        → Certified a xs
        → Segment (last_or a xs) b
        → Certified a (xs ++ b ∷ [])
    Certified-snoc a b [] h s = (s, tt)
    Certified-snoc a b (x ∷ xs) h s = (h.0, Certified-snoc x b xs h.1 s)

    pub Segment-length : (a b : List F) → Segment a b → length a ≡ length b
    Segment-length a b (forward h) = h.0
    Segment-length a b (backward h) = sym h.0
    Segment-length a b (forward_to c same near h) = h.0 ∙ same
    Segment-length a b (backward_from c same near h) = sym (h.0 ∙ same)

    -- All poses of a certified path have as many joints as its start.
    pub Certified-length :
        (a : List F) (way : List (List F)) → Certified a way → length (last_or a way) ≡ length a
    Certified-length a [] h = refl
    Certified-length a (b ∷ way) h = Certified-length b way h.1 ∙ sym (Segment-length a b h.0)

    pub Certified-lengths :
        (a : List F) (way : List (List F)) (i : ℕ)
        → Certified a way
        → i < suc (length way)
        → length (get_or (a ∷ way) i []) ≡ length a
    Certified-lengths a way zero h k = refl
    Certified-lengths a [] (suc i) h k = absurd (omega arith)
    Certified-lengths a (b ∷ way) (suc i) h k =
        Certified-lengths b way i h.1 (omega arith) ∙ sym (Segment-length a b h.0)

    -- An edge that a tier accepts is clear.
    pub clears-Segment :
        (a b : List F)
        → length a ≡ length b
        → clears num hp (edge num hp a b scale floor) floor ≡ true
        → Segment a b
    unfolding edge
    clears-Segment a b same h =
        forward (same, (edge_margin-Clear num hp a b scale floor).0 (ground arith))
