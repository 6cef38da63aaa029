-- ===== src/Recorder/Sizes.antt =====
-- The height and the width of the images that `_to_rgb` of lerobot_recorder.py decodes.
use vla_mantis.Base.{
  ℕ, zero, suc, ◌*◌, ◌≡◌, refl, ap, ◌∙◌, subst, Option, none, some, List, [], ◌∷◌, length-map,
  length, take, drop, All, if-cases, ◌==◌,
}
use vla_mantis.Recorder.Image.{
  Image, lower, channels, recolor, chunk, fits, rgb_rows, rgb_of, rgb_in, to_rgb,
}

length-chunk {ℓ} : {A : Type ℓ} (n s : ℕ) (xs : List A) → length (chunk n s xs) ≡ n
length-chunk zero s xs = refl
length-chunk (suc n) s xs = ap suc (length-chunk n s (drop s xs))

-- The image has `h` rows of `w` pixels each.
abbrev pub IsSized : ℕ → ℕ → List (List (List ℕ)) → Type 0
IsSized h w rows = (length rows ≡ h) × All (λ row. length row ≡ w) rows

abbrev Sized : ℕ → ℕ → Option (List (List (List ℕ))) → Type 0
Sized h w none = Unit
Sized h w (some rows) = IsSized h w rows

widths :
    (w ch : ℕ) (enc : List ℕ) (rows : List (List ℕ))
    → All (λ (row : List (List ℕ)). length row ≡ w) (rgb_rows w ch enc rows)
widths w ch enc [] = tt
widths w ch enc (row ∷ rows) = (
  length-map (recolor enc) (chunk w ch (take (w * ch) row)) ∙ length-chunk w ch _,
  widths w ch enc rows,
)

rgb_rows-IsSized :
    (w ch : ℕ) (enc : List ℕ) (rows : List (List ℕ))
    → IsSized (length rows) w (rgb_rows w ch enc rows)
rgb_rows-IsSized w ch enc rows = (length-map _ rows, widths w ch enc rows)

rgb_of-Sized :
    (m : Image) (ch : ℕ) (rows : List (List ℕ))
    → length rows ≡ m.height
    → Sized m.height m.width (rgb_of m ch (some rows))
rgb_of-Sized m ch rows e =
    if-cases (λ o. Sized m.height m.width o) (fits m.height m.step (m.width * ch))
      (λ h.
        subst (λ n. IsSized n m.width (rgb_rows m.width ch (lower m.encoding) rows)) e
          (rgb_rows-IsSized m.width ch (lower m.encoding) rows))
      (λ h. tt)

rgb_in-Sized : (m : Image) (o : Option ℕ) → Sized m.height m.width (rgb_in m o)
rgb_in-Sized m none = tt
rgb_in-Sized m (some ch) =
    if-cases (λ o. Sized m.height m.width (rgb_of m ch o)) (length m.bytes == m.height * m.step)
      (λ h. rgb_of-Sized m ch _ (length-chunk m.height m.step m.bytes)) (λ h. tt)

-- What is decoded has the height and the width of the message.
pub to_rgb-IsSized :
    (m : Image) (rows : List (List (List ℕ))) → to_rgb m ≡ some rows → IsSized m.height m.width rows
unfolding to_rgb
to_rgb-IsSized m rows h =
    subst (λ o. Sized m.height m.width o) h (rgb_in-Sized m (channels (lower m.encoding)))
