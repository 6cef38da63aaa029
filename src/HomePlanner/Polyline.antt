-- ===== src/HomePlanner/Polyline.antt =====
-- Joining, reversing and cutting certified paths, as `_rrt` and `_shortcut` of home_planner.py do.
use vla_mantis.Base.{
  ℕ, zero, suc, ◌≤◌, ◌<◌, ◌≡◌, refl, List, [], ◌∷◌, ◌++◌, reverse, arith, last_or, length, take,
  drop, get_or, last_or-append,
}
use mathlib.Core.List.{reverse-cons}
use vla_mantis.Base.Num.{Num}
use vla_mantis.HomePlanner.Edge.{HomePlanner}
use vla_mantis.HomePlanner.Certified.{
  Segment, forward, backward, forward_to, backward_from, Certified, Certified-snoc,
}

pub last_or-reverse {ℓ} : {A : Type ℓ} (d x : A) (xs : List A) → last_or d (reverse (x ∷ xs)) ≡ x
last_or-reverse d x xs = rw (reverse-cons x xs) (last_or-append d x (reverse xs) [])

pub last_or-concat {ℓ} :
    {A : Type ℓ} (d : A) (xs ys : List A) → last_or d (xs ++ ys) ≡ last_or (last_or d xs) ys
last_or-concat d [] ys = refl
last_or-concat d (x ∷ xs) ys = last_or-concat x xs ys

pub last_or-drop {ℓ} :
    {A : Type ℓ} (d e : A) (j : ℕ) (xs : List A)
    → j < length xs
    → last_or d (drop j xs) ≡ last_or e xs
last_or-drop d e zero [] h = elim h [ ]
last_or-drop d e zero (x ∷ xs) h = refl
last_or-drop d e (suc j) [] h = elim h [ ]
last_or-drop d e (suc j) (x ∷ xs) h = last_or-drop d x j xs (omega arith)

module _ (num : Num) (hp : HomePlanner num) (scale floor : num.F) where
  abbrev Seg : List num.F → List num.F → Type 0
  Seg = Segment num hp scale floor

  abbrev Walk : List num.F → List (List num.F) → Type 0
  Walk = Certified num hp scale floor

  Segment-sym : {a b : List num.F} → Seg a b → Seg b a
  Segment-sym (forward h) = backward h
  Segment-sym (backward h) = forward h
  Segment-sym (forward_to c l n h) = backward_from c l n h
  Segment-sym (backward_from c l n h) = forward_to c l n h

  pub Certified-concat :
      (a : List num.F) (xs ys : List (List num.F))
      → Walk a xs
      → Walk (last_or a xs) ys
      → Walk a (xs ++ ys)
  Certified-concat a [] ys h k = k
  Certified-concat a (x ∷ xs) ys h k = (h.0, Certified-concat x xs ys h.1 k)

  -- A path that is walked back, from a point `x` next to its end.
  pub Certified-reverse :
      (x b : List num.F) (ys : List (List num.F))
      → Seg x (last_or b ys)
      → Walk b ys
      → Walk x (reverse (b ∷ ys))
  Certified-reverse x b [] s h = (s, tt)
  Certified-reverse x b (y ∷ ys) s h = rw (reverse-cons b (y ∷ ys)) (
      Certified-snoc num hp scale floor x b (reverse (y ∷ ys)) (Certified-reverse x y ys s h.1)
        (rw (last_or-reverse x y ys) (Segment-sym h.0)))

  Certified-drop :
      (a b : List num.F) (r : List (List num.F)) (j : ℕ)
      → j < length r
      → Walk b r
      → Seg a (get_or r j [])
      → Walk a (drop j r)
  Certified-drop a b [] j h p s = elim h [ ]
  Certified-drop a b (x ∷ r) zero h p s = (s, p.1)
  Certified-drop a b (x ∷ r) (suc j) h p s = Certified-drop a x r j (omega arith) p.1 s

  -- `pts[:i + 1] + pts[j:]` with a checked segment from `pts[i]` to `pts[j]`.
  pub Certified-cut :
      (a : List num.F) (r : List (List num.F)) (i j : ℕ)
      → i ≤ j
      → j < length r
      → Walk a r
      → Seg (get_or (a ∷ r) i []) (get_or r j [])
      → Walk a (take i r ++ drop j r)
  Certified-cut a r zero j le lt p s = Certified-drop a a r j lt p s
  Certified-cut a r (suc i) zero le lt p s = elim le [ ]
  Certified-cut a [] (suc i) (suc j) le lt p s = elim lt [ ]
  Certified-cut a (x ∷ r) (suc i) (suc j) le lt p s =
      (p.0, Certified-cut x r i j (omega arith) (omega arith) p.1 s)
