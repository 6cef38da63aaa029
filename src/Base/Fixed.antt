-- ===== src/Base/Fixed.antt =====
-- Fixed-point numbers in units of 1e-9, with an infinity: numbers on which the model runs.
use Prim.Native.Nat.{ℕ, zero, suc, ◌+◌, ◌-◌, ◌*◌, ◌/◌, ◌^◌}
use mathlib.Core.Path.{◌≡◌, refl, ap}
use mathlib.Core.Bool.{Bool, true, false}
use mathlib.Core.Option.{Option, none, some}
use mathlib.Core.List.{List, map}
use native.Mathlib.Omega.{arith}
use vla_mantis.Base.Lists.{length, range_from}
use vla_mantis.Base.Int.{
  ℤ, pos, pos_part, neg_part, sub_ℕ, ◌+ℤ◌, ◌-ℤ◌, ltb_ℤ, scaled_mul, scaled_div,
}
use vla_mantis.Base.Num.{Num}

-- `none` is the infinity.
abbrev pub Fixed : Type 0
Fixed = Option ℤ

abbrev lift : (ℤ → ℤ → ℤ) → Fixed → Fixed → Fixed
lift f (some a) (some b) = some (f a b)
lift f none b = none
lift f (some a) none = none

abbrev pub lt_fixed : Fixed → Fixed → Bool
lt_fixed none b = false
lt_fixed (some a) none = true
lt_fixed (some a) (some b) = ltb_ℤ a b

abbrev unit : ℕ
unit = 1000000000

abbrev abs_fixed : Fixed → Fixed
abs_fixed none = none
abs_fixed (some a) = some (pos (pos_part a + neg_part a))

abbrev neg_fixed : Fixed → Fixed
neg_fixed none = none
neg_fixed (some a) = some (sub_ℕ (neg_part a) (pos_part a))

abbrev ceil_fixed : Fixed → ℕ
ceil_fixed none = 0
ceil_fixed (some a) = (pos_part a + unit - 1) / unit

abbrev linspace_fixed : ℕ → List Fixed
linspace_fixed n = map (λ k. some (pos (k * unit / (n - 1)))) (range_from 0 n)

pub lt_fixed_irrefl : (a : Fixed) → lt_fixed a a ≡ false
lt_fixed_irrefl none = refl
lt_fixed_irrefl (some a) = ground arith

pub lt_fixed_asymm : (a b : Fixed) → lt_fixed a b ≡ true → lt_fixed b a ≡ false
lt_fixed_asymm none b h = cc
lt_fixed_asymm (some a) none h = refl
lt_fixed_asymm (some a) (some b) h = ground arith

pub le_fixed_trans :
    (a b c : Fixed) → lt_fixed b a ≡ false → lt_fixed c b ≡ false → lt_fixed c a ≡ false
le_fixed_trans a b none h k = refl
le_fixed_trans a none (some c) h k = cc
le_fixed_trans none (some b) (some c) h k = cc
le_fixed_trans (some a) (some b) (some c) h k = ground arith

pub length-map_range : (f : ℕ → Fixed) (k n : ℕ) → length (map f (range_from k n)) ≡ n
length-map_range f k zero = refl
length-map_range f k (suc n) = ap suc (length-map_range f (suc k) n)

abbrev pub fixed : Num
fixed = record {
  F = Fixed;
  add = lift ◌+ℤ◌;
  sub = lift ◌-ℤ◌;
  mul = lift (scaled_mul unit);
  div = lift (scaled_div unit);
  abs = abs_fixed;
  neg = neg_fixed;
  lit = λ n k. some (pos (n * 10 ^ (9 - k)));
  inf = none;
  ceil = ceil_fixed;
  lt = lt_fixed;
  lt_irrefl = lt_fixed_irrefl;
  lt_asymm = lt_fixed_asymm;
  le_trans = le_fixed_trans;
  inf_top = λ a. refl;
  radians = λ a. lift (scaled_mul unit) a (some (pos 17453293));
  linspace = linspace_fixed;
  linspace_length = λ n. length-map_range _ 0 n;
  linspace_two = refl;
}
