-- ===== src/Recorder/Pixels.antt =====
-- Where `_to_rgb` of lerobot_recorder.py reads each pixel, and when it raises.
use vla_mantis.Base.{
  ℕ, zero, suc, ◌+◌, ◌*◌, ◌≤◌, ◌<◌, ◌≡◌, refl, ◌↔◌, true, Option, none, some, List, [], ◌∷◌, map,
  arith, get_elem?, length, take, drop, ap, ◌∙◌, sym, ◌≢◌, subst, ◌==◌, Bool-cases, inl, inr,
}
use mathlib.Core.Option.{some-injective}
use vla_mantis.Recorder.Image.{Image, lower, channels, recolor, chunk, fits, to_rgb}

module _ {ℓ} {A : Type ℓ} where
  drop-nil : (n : ℕ) → drop {A = A} n [] ≡ []
  drop-nil zero = refl
  drop-nil (suc n) = refl

  drop-drop : (a b : ℕ) (xs : List A) → drop a (drop b xs) ≡ drop (b + a) xs
  drop-drop a zero xs = ap (λ n. drop n xs) (omega arith)
  drop-drop a (suc b) [] = drop-nil a ∙ sym (drop-nil (suc b + a))
  drop-drop a (suc b) (x ∷ xs) =
      drop-drop a b xs ∙ ap (λ n. drop n (x ∷ xs)) {x = suc (b + a)} (omega arith)

  take-drop-take :
      (n k m : ℕ) (xs : List A) → k + n ≤ m → take n (drop k (take m xs)) ≡ take n (drop k xs)
  take-drop-take zero k m xs h = refl
  take-drop-take (suc n) zero zero xs h = absurd (omega arith)
  take-drop-take (suc n) zero (suc m) [] h = refl
  take-drop-take (suc n) zero (suc m) (x ∷ xs) h =
      ap (λ l. x ∷ l) (take-drop-take n zero m xs (omega arith))
  take-drop-take (suc n) (suc k) zero xs h = absurd (omega arith)
  take-drop-take (suc n) (suc k) (suc m) [] h = refl
  take-drop-take (suc n) (suc k) (suc m) (x ∷ xs) h = take-drop-take (suc n) k m xs (omega arith)

  get_elem?-chunk :
      (n s i : ℕ) (xs : List A)
      → i < n
      → get_elem? (chunk n s xs) i ≡ some (take s (drop (i * s) xs))
  get_elem?-chunk zero s i xs h = elim h [ ]
  get_elem?-chunk (suc n) s zero xs h = ap (λ k. some (take s (drop k xs))) {x = 0} (omega arith)
  get_elem?-chunk (suc n) s (suc i) xs h =
      get_elem?-chunk n s i (drop s xs) (omega arith)
      ∙ ap (λ l. some (take s l)) (drop-drop (i * s) s xs ∙ ap (λ k. drop k xs) (omega arith))

get_elem?-map {ℓ κ} :
    {A : Type ℓ} {B : Type κ} (f : A → B) (xs : List A) (i : ℕ) {a : A}
    → get_elem? xs i ≡ some a
    → get_elem? (map f xs) i ≡ some (f a)
get_elem?-map f [] i h = cc
get_elem?-map f (x ∷ xs) zero h = cc
get_elem?-map f (x ∷ xs) (suc i) h = get_elem?-map f xs i h

-- The pixel in row `i` and column `j`.
abbrev pub pixel : List (List (List ℕ)) → ℕ → ℕ → Option (List ℕ)
pixel rows i j = elim (get_elem? rows i) [ none ↦ none | some row ↦ get_elem? row j ]

-- What `to_rgb` checks.
pub record IsDecodable (m : Image) (ch : ℕ) : Type 0 where
  pub supported : channels (lower m.encoding) ≡ some ch
  pub sized : length m.bytes ≡ m.height * m.step
  pub wide : fits m.height m.step (m.width * ch) ≡ true

module _ (m : Image) (ch : ℕ) where
  abbrev decoded : List (List (List ℕ))
  decoded =
      map (λ row. map (recolor (lower m.encoding)) (chunk m.width ch (take (m.width * ch) row)))
        (chunk m.height m.step m.bytes)

  to_rgb-decoded : IsDecodable m ch → to_rgb m ≡ some decoded
  unfolding to_rgb
  to_rgb-decoded d = rw d.supported (ground (arith, d.sized, d.wide))

  -- An image is decoded exactly when its encoding is one of the five, it holds height * step bytes,
  -- and a row of pixels fits the stride; otherwise `_to_rgb` raises.
  pub to_rgb-some :
      channels (lower m.encoding) ≡ some ch
      → ((to_rgb m ≢ none)
          ↔ ((length m.bytes ≡ m.height * m.step) × (fits m.height m.step (m.width * ch) ≡ true)))
  unfolding to_rgb
  to_rgb-some e = (
    λ ne. elim (Bool-cases (length m.bytes == m.height * m.step)) [
      | inl s ↦ elim (Bool-cases (fits m.height m.step (m.width * ch))) [
        | inl f ↦ (ground arith, f)
        | inr narrow ↦ absurd (ne (rw e (rw s (rw narrow refl))))
      ]
      | inr missized ↦ absurd (ne (rw e (rw missized refl)))
    ],
    λ d z. cc (to_rgb-decoded (record { supported = e; sized = d.0; wide = d.1 })),
  )

  fits-le : (h i : ℕ) → i < h → fits h m.step (m.width * ch) ≡ true → m.width * ch ≤ m.step
  fits-le h i lt f = ground arith

  column : (j : ℕ) → j < m.width → j * ch + ch ≤ m.width * ch
  column j h = grind arith

  -- The pixel in row i and column j of a decoded image holds the `ch` bytes from i * step + j * ch
  -- on, with its channels put in order: the padding of the stride is skipped.
  pub pixel-to_rgb :
      (i j : ℕ) (rows : List (List (List ℕ)))
      → channels (lower m.encoding) ≡ some ch
      → to_rgb m ≡ some rows
      → i < m.height
      → j < m.width
      → pixel rows i j
        ≡ some (recolor (lower m.encoding) (take ch (drop (i * m.step + j * ch) m.bytes)))
  pixel-to_rgb i j rows e p hi hj =
      let (sized, wide) = (to_rgb-some e).0 (λ z. cc) in
      let d : IsDecodable m ch = record { supported = e; sized = sized; wide = wide } in
      let q = some-injective _ _ (sym (to_rgb-decoded d) ∙ p) in
      let row = take m.step (drop (i * m.step) m.bytes) in
      let fitting = fits-le m.height i hi wide in
      let inside = column j hj in
      let at_row =
        get_elem?-map
          (λ r. map (recolor (lower m.encoding)) (chunk m.width ch (take (m.width * ch) r)))
          (chunk m.height m.step m.bytes) i (get_elem?-chunk m.height m.step i m.bytes hi) in
      let at_column =
        get_elem?-map (recolor (lower m.encoding)) (chunk m.width ch (take (m.width * ch) row)) j
          (get_elem?-chunk m.width ch j (take (m.width * ch) row) hj) in
      let source =
        take-drop-take ch (j * ch) (m.width * ch) row inside
        ∙ take-drop-take ch (j * ch) m.step (drop (i * m.step) m.bytes) (omega arith)
        ∙ ap (take ch) (drop-drop (j * ch) (i * m.step) m.bytes) in
      subst
        (λ r.
          pixel r i j
          ≡ some (recolor (lower m.encoding) (take ch (drop (i * m.step + j * ch) m.bytes))))
        q (rw (at_row, pixel) (at_column ∙ ap (λ l. some (recolor (lower m.encoding) l)) source))
