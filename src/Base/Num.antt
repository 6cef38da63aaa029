-- ===== src/Base/Num.antt =====
-- The floating-point numbers of Python and numpy, as an interface. The values that the program
-- compares are no NaNs, so the laws are those of IEEE comparison without NaN: a total order up to
-- equality. No law of addition or multiplication is assumed, since rounding breaks them.
use Prim.Native.Nat.{ℕ}
use mathlib.Core.Path.{◌≡◌, refl}
use mathlib.Core.Bool.{Bool, true, false, not}
use mathlib.Core.Logic.{inl, inr}
use mathlib.Core.List.{List, [], ◌∷◌}
use native.Mathlib.Omega.{arith}
use vla_mantis.Base.Lists.{length}
use vla_mantis.Base.Tests.{if◌then◌else◌, Bool-cases, ◌==◌}

pub record Num : Type 1 where
  pub F : Type 0
  pub add : F → F → F
  pub sub : F → F → F
  pub mul : F → F → F
  pub div : F → F → F
  pub abs : F → F
  pub neg : F → F
  -- `lit n k` is the decimal literal n / 10 ^ k.
  pub lit : ℕ → ℕ → F
  pub inf : F
  -- `int(np.ceil(x))` for x of at least 0
  pub ceil : F → ℕ
  -- `a < b`
  pub lt : F → F → Bool
  pub lt_irrefl : (a : F) → lt a a ≡ false
  pub lt_asymm : (a b : F) → lt a b ≡ true → lt b a ≡ false
  -- `a <= b` is the denial of `b < a`, and it is transitive.
  pub le_trans : (a b c : F) → lt b a ≡ false → lt c b ≡ false → lt c a ≡ false
  pub inf_top : (a : F) → lt inf a ≡ false
  -- `np.radians`
  pub radians : F → F
  -- `np.linspace(0.0, 1.0, n)`
  pub linspace : ℕ → List F
  pub linspace_length : (n : ℕ) → length (linspace n) ≡ n
  pub linspace_two : linspace 2 ≡ lit 0 0 ∷ lit 1 0 ∷ []

module _ (num : Num) where
  open num use {F, add, sub, mul, abs, lt, lt_irrefl, lt_asymm, le_trans}

  -- `a <= b`
  abbrev pub le : F → F → Bool
  le a b = not (lt b a)

  -- `min(a, b)` returns its first argument unless the second is smaller.
  abbrev pub minimum : F → F → F
  minimum a b = if lt b a then b else a

  -- `max(a, b)` returns its first argument unless the second is larger.
  abbrev pub maximum : F → F → F
  maximum a b = if lt a b then b else a

  -- Elementwise operators of one-dimensional arrays of equal length.
  abbrev pub zip_with : (F → F → F) → List F → List F → List F
  zip_with f [] ys = []
  zip_with f (x ∷ xs) [] = []
  zip_with f (x ∷ xs) (y ∷ ys) = f x y ∷ zip_with f xs ys

  abbrev pub scaled : F → List F → List F
  scaled s [] = []
  scaled s (x ∷ xs) = mul s x ∷ scaled s xs

  pub length-zip_with :
      (f : F → F → F) (a b : List F) → length a ≡ length b → length (zip_with f a b) ≡ length a
  length-zip_with f [] b e = refl
  length-zip_with f (x ∷ xs) [] e = absurd (omega arith)
  length-zip_with f (x ∷ xs) (y ∷ ys) e = omega (arith, length-zip_with f xs ys (omega arith))

  pub length-scaled : (s : F) (a : List F) → length (scaled s a) ≡ length a
  length-scaled s [] = refl
  length-scaled s (x ∷ xs) = omega (arith, length-scaled s xs)

  -- The largest element of a list that starts from `m`.
  max_from : F → List F → F
  max_from m [] = m
  max_from m (x ∷ xs) = max_from (maximum m x) xs

  -- `np.max(np.abs(v))`; an array of joints is never empty.
  unfoldable pub max_abs : List F → F
  unfolding max_from
  max_abs [] = num.lit 0 0
  max_abs (x ∷ xs) = max_from (abs x) (map_abs xs)
    where
      map_abs : List F → List F
      map_abs [] = []
      map_abs (y ∷ ys) = abs y ∷ map_abs ys

  -- The largest distance of two joint vectors in one joint. Vectors of different lengths have none, for
  -- which the infinity stands; numpy raises there.
  abbrev pub gap : List F → List F → F
  gap a b = if length a == length b then max_abs (zip_with sub a b) else num.inf

  -- Vectors at a distance below some number are of equal length.
  pub gap-length : (a b : List F) (x : F) → lt (gap a b) x ≡ true → length a ≡ length b
  gap-length a b x h = elim (Bool-cases (length a == length b)) [
    | inl same ↦ ground arith
    | inr other ↦ absurd (let top = num.inf_top x in cc (rw other at h, top))
  ]

  pub lt-of_lt_of_le : (a b c : F) → lt a b ≡ true → lt c b ≡ false → lt a c ≡ true
  lt-of_lt_of_le a b c p q = elim (Bool-cases (lt a c)) [
    | inl h ↦ h
    | inr h ↦ cc (le_trans b c a q h)
  ]

  pub minimum-le_left : (a b : F) → lt a (minimum a b) ≡ false
  minimum-le_left a b = elim (Bool-cases (lt b a)) [
    | inl h ↦ rw h (lt_asymm b a h)
    | inr h ↦ rw h (lt_irrefl a)
  ]

  pub maximum-le_left : (a b : F) → lt (maximum a b) a ≡ false
  maximum-le_left a b = elim (Bool-cases (lt a b)) [
    | inl h ↦ rw h (lt_asymm a b h)
    | inr h ↦ rw h (lt_irrefl a)
  ]
