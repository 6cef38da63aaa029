-- ===== src/Base/Names.antt =====
-- Names in lists: Python's `in` and `all` on lists of strings.
use Prim.Native.String.{String}
use text.Mathlib.Text.{◌==◌ as str_eq}
use text.Mathlib.TextPositions.{eq_refl}
use mathlib.Core.Path.{◌≡◌, refl, subst}
use mathlib.Core.Logic.{◌⊎◌, inl, inr}
use mathlib.Core.Bool.{Bool, true, false, ◌&&◌, ◌||◌}
use mathlib.Core.Option.{Option, none, some}
use mathlib.Core.List.{List, [], ◌∷◌, Memᴰ}

-- `name in names`
abbrev pub member : String → List String → Bool
member j [] = false
member j (k ∷ ks) = str_eq k j || member j ks

abbrev pub is_some {ℓ} : {A : Type ℓ} → Option A → Bool
is_some none = false
is_some (some a) = true

-- `all(p(j) for j in js)`
abbrev pub all : (String → Bool) → List String → Bool
all p [] = true
all p (j ∷ js) = p j && all p js

or-true : (a b : Bool) → b ≡ true → (a || b) ≡ true
or-true true b h = refl
or-true false b h = h

pub or-eq_true : (a b : Bool) → (a || b) ≡ true → (a ≡ true) ⊎ (b ≡ true)
or-eq_true true b h = inl refl
or-eq_true false b h = inr h

pub Mem-member : (j : String) (ks : List String) → Memᴰ j ks → member j ks ≡ true
Mem-member j [] m = elim m [ ]
Mem-member j (k ∷ ks) (Memᴰ.head e) =
    subst (λ x. (str_eq x j || member j ks) ≡ true) e (rw (eq_refl j) refl)
Mem-member j (k ∷ ks) (Memᴰ.tail m) = or-true (str_eq k j) _ (Mem-member j ks m)
