-- ===== src/Prelude/Number.antt =====
-- A JavaScript number: a whole count of millionths, or one of the values that are not finite.
-- The constants of the source have at most three decimals, so each has its exact count.
use Prim.Native.Nat.{ℕ, zero, suc, ◌+◌, ◌*◌, ◌/◌, ◌%◌, ◌^◌}
use Prim.Native.String.{String, ◌++◌}
use mathlib.Core.Path.{◌≡◌, refl}
use attest.Prelude.Text.{decimal}
use mathlib.Core.Bool.{Bool, true, false, not}
use native.Mathlib.Omega.{arith}
use attest.Prelude.Tests.{leb, ◌==◌, if◌then◌else◌}

-- `negsuc n` is -(n + 1).
pub data ℤ : Type 0 where
  pos : ℕ → ℤ
  negsuc : ℕ → ℤ

abbrev pub leb_ℤ : ℤ → ℤ → Bool
leb_ℤ (pos a) (pos b) = leb a b
leb_ℤ (pos a) (negsuc b) = false
leb_ℤ (negsuc a) (pos b) = true
leb_ℤ (negsuc a) (negsuc b) = leb b a

pub data Number : Type 0 where
  finite : ℤ → Number
  nan infinity neg_infinity : Number

-- `n / 1000` as a number.
abbrev pub thousandths : ℕ → Number
thousandths n = finite (pos (n * 1000))

-- `Number.isFinite`
abbrev pub is_finite : Number → Bool
is_finite (finite z) = true
is_finite _ = false

-- `a <= b`, false where one side is `NaN`.
abbrev pub le_number : Number → Number → Bool
le_number (finite a) (finite b) = leb_ℤ a b
le_number nan b = false
le_number a nan = false
le_number neg_infinity b = true
le_number a infinity = true
le_number infinity b = false
le_number (finite a) neg_infinity = false

-- `Math.max(a, b)`
unfoldable pub max_number : Number → Number → Number
max_number nan b = nan
max_number (finite a) nan = nan
max_number infinity nan = nan
max_number neg_infinity nan = nan
max_number a b = if le_number a b then b else a

is_zero : ℤ → Bool
is_zero (pos n) = n == 0
is_zero (negsuc n) = false

-- `Boolean(n)`: false at 0 and at `NaN`.
unfoldable pub truthy_number : Number → Bool
unfolding is_zero
truthy_number (finite z) = not (is_zero z)
truthy_number nan = false
truthy_number infinity = true
truthy_number neg_infinity = true

-- The larger of two finite numbers is finite and not below the second.
pub le-max_number :
    (a b : Number)
    → is_finite a ≡ true
    → is_finite b ≡ true
    → (is_finite (max_number a b) ≡ true)
      × (le_number a (max_number a b) ≡ true)
      × (le_number b (max_number a b) ≡ true)
unfolding max_number
le-max_number (finite (pos a)) (finite (pos b)) ha hb = ground arith
le-max_number (finite (pos a)) (finite (negsuc b)) ha hb = ground arith
le-max_number (finite (negsuc a)) (finite (pos b)) ha hb = ground arith
le-max_number (finite (negsuc a)) (finite (negsuc b)) ha hb = ground arith
le-max_number (finite a) nan ha hb = ground arith
le-max_number (finite a) infinity ha hb = ground arith
le-max_number (finite a) neg_infinity ha hb = ground arith
le-max_number nan b ha hb = ground arith
le-max_number infinity b ha hb = ground arith
le-max_number neg_infinity b ha hb = ground arith

-- `n` as `digits` decimal digits, with zeros in front.
abbrev padded : ℕ → ℕ → String
padded zero n = ""
padded (suc digits) n = padded digits (n / 10) ++ decimal (n % 10)

-- A count of millionths, rounded to so many decimals; a tie of the decimal count goes up, where
-- the source's binary fraction lies on one side of it.
abbrev fixed_count : ℕ → ℕ → String
fixed_count digits n =
    let scaled = (n * 10 ^ digits + 500000) / 1000000 in
    decimal (scaled / 10 ^ digits) ++ "." ++ padded digits (scaled % 10 ^ digits)

-- `n.toFixed(digits)`, for at least one digit.
unfoldable pub to_fixed : ℕ → Number → String
to_fixed digits (finite (pos n)) = fixed_count digits n
to_fixed digits (finite (negsuc n)) = "-" ++ fixed_count digits (n + 1)
to_fixed digits nan = "NaN"
to_fixed digits infinity = "Infinity"
to_fixed digits neg_infinity = "-Infinity"

to_fixed_test : to_fixed 3 (finite (pos 412600)) ≡ "0.413"
unfolding to_fixed decimal
to_fixed_test = refl
