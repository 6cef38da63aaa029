-- ===== src/Recorder/Image.antt =====
-- Camera images and their decoding: `_to_rgb`, `_to_depth` and `_stamp_s` of lerobot_recorder.py.
-- Text is the list of its code points, and numpy's reshape fails where the sizes do not fit.
use Prim.Native.Char.{code}
use vla_mantis.Base.{
  ℕ, zero, suc, ◌+◌, ◌*◌, ◌/◌, Bool, true, false, ◌&&◌, ◌||◌, Option, none, some, List, [], ◌∷◌,
  map, String, leb, ◌==◌, length, take, drop, if◌then◌else◌,
}
use vla_mantis.Base.Int.{ℤ, pos}

-- `sensor_msgs/Image`
pub record Image : Type 0 where
  pub sec : ℕ
  pub nanosec : ℕ
  pub height : ℕ
  pub width : ℕ
  pub step : ℕ
  pub encoding : List ℕ
  pub is_bigendian : Bool
  pub bytes : List ℕ

-- `_stamp_s`, in nanoseconds
abbrev pub stamp : Image → ℤ
stamp m = pos (m.sec * 1000000000 + m.nanosec)

abbrev pub codes : String → List ℕ
codes String.[] = []
codes (String.◌∷◌ c s) = code c ∷ codes s

eq_codes : List ℕ → List ℕ → Bool
eq_codes [] [] = true
eq_codes (x ∷ xs) (y ∷ ys) = x == y && eq_codes xs ys
eq_codes xs ys = false

starts_with : List ℕ → List ℕ → Bool
starts_with xs [] = true
starts_with [] (y ∷ ys) = false
starts_with (x ∷ xs) (y ∷ ys) = x == y && starts_with xs ys

-- `str.lower` on ASCII
abbrev pub lower : List ℕ → List ℕ
lower = map (λ c. if leb b'A' c && leb c b'Z' then c + 32 else c)

-- `{"rgb8": 3, …}.get(enc)`
unfoldable pub channels : List ℕ → Option ℕ
unfolding eq_codes
channels enc =
    if eq_codes enc (codes "rgb8")
    then some 3
    else if eq_codes enc (codes "bgr8")
    then some 3
    else if eq_codes enc (codes "rgba8")
    then some 4
    else if eq_codes enc (codes "bgra8")
    then some 4
    else if eq_codes enc (codes "mono8")
    then some 1
    else none

abbrev triple : ℕ → List ℕ
triple v = v ∷ v ∷ v ∷ []

abbrev reorder : List ℕ → List ℕ
reorder (b ∷ g ∷ r ∷ rest) = r ∷ g ∷ b ∷ []
reorder px = px

abbrev repeat : List ℕ → List ℕ
repeat [] = []
repeat (v ∷ px) = triple v

-- The channels of one pixel: grey is repeated, BGR is reversed, and alpha is dropped.
unfoldable pub recolor : List ℕ → List ℕ → List ℕ
unfolding eq_codes starts_with
recolor enc px =
    if eq_codes enc (codes "mono8")
    then repeat px
    else if starts_with enc (codes "bgr")
    then reorder px
    else take 3 px

module _ {ℓ} {A : Type ℓ} where
  -- `n` consecutive pieces of length `s`
  abbrev pub chunk : ℕ → ℕ → List A → List (List A)
  chunk zero s xs = []
  chunk (suc n) s xs = take s xs ∷ chunk n s (drop s xs)

  -- `buf.reshape(h, step)`
  abbrev pub reshape : ℕ → ℕ → List A → Option (List (List A))
  reshape h step buf = if length buf == h * step then some (chunk h step buf) else none

-- `reshape(h, w, ch)` fits after the rows were cut to `w * ch` bytes.
abbrev pub fits : ℕ → ℕ → ℕ → Bool
fits h step row = h == 0 || leb row step

abbrev pub rgb_rows : ℕ → ℕ → List ℕ → List (List ℕ) → List (List (List ℕ))
rgb_rows w ch enc = map (λ row. map (recolor enc) (chunk w ch (take (w * ch) row)))

abbrev pub rgb_of : Image → ℕ → Option (List (List ℕ)) → Option (List (List (List ℕ)))
rgb_of m ch none = none
rgb_of m ch (some rows) =
    if fits m.height m.step (m.width * ch)
    then some (rgb_rows m.width ch (lower m.encoding) rows)
    else none

abbrev pub rgb_in : Image → Option ℕ → Option (List (List (List ℕ)))
rgb_in m none = none
rgb_in m (some ch) = rgb_of m ch (reshape m.height m.step m.bytes)

-- `_to_rgb`: rows of pixels of channels; `none` is the exception.
unfoldable pub to_rgb : Image → Option (List (List (List ℕ)))
to_rgb m = rgb_in m (channels (lower m.encoding))

-- `np.frombuffer(…, "<u2" or ">u2")`; an odd number of bytes fails.
abbrev pub words : Bool → List ℕ → Option (List ℕ)
words big [] = some []
words big (a ∷ []) = none
words big (a ∷ b ∷ rest) = elim (words big rest) [
  | none ↦ none
  | some ws ↦ some ((if big then a * 256 + b else b * 256 + a) ∷ ws)
]

abbrev depth_of_words : Image → Option (List ℕ) → Option (List (List ℕ))
depth_of_words m none = none
depth_of_words m (some ws) = elim (reshape m.height (m.step / 2) ws) [
  | none ↦ none
  | some rows ↦ some (map (take m.width) rows)
]

-- `_to_depth`: rows of millimetres, as wide as the stride allows.
unfoldable pub to_depth : Image → Option (List (List ℕ))
unfolding eq_codes
to_depth m =
    let enc = lower m.encoding in
    if eq_codes enc (codes "16uc1") || eq_codes enc (codes "mono16")
    then depth_of_words m (words m.is_bigendian m.bytes)
    else none
