-- ===== src/Prelude/ParseFloat.antt =====
-- `parseFloat` on code points: leading spaces, a sign, digits and a fraction, of which six digits are
-- kept; what follows is ignored, an exponent too.
use attest.Prelude.{
  ℕ, zero, suc, ◌+◌, ◌-◌, ◌*◌, ◌/◌, List, [], ◌∷◌, Bool, true, false, ◌&&◌, ◌||◌, leb, ◌==◌, Option,
  none, some, if◌then◌else◌, ◌≡◌, refl,
}
use attest.Prelude.Number.{Number, finite, nan, infinity, neg_infinity, pos, negsuc, truthy_number}
use attest.Prelude.Text.{codes, prefix_of, is_space}

is_digit : ℕ → Bool
is_digit c = leb b'0' c && leb c b'9'

read_fraction : ℕ → ℕ → List ℕ → ℕ
read_fraction weight acc [] = acc
read_fraction weight acc (c ∷ cs) =
    let more = read_fraction (weight / 10) (acc + (c - b'0') * weight) cs in
    if is_digit c then more else acc

starts_with_digit : List ℕ → Bool
starts_with_digit [] = false
starts_with_digit (c ∷ cs) = is_digit c

-- Millionths of the fraction that `cs` begins with, if it begins with one.
fraction : List ℕ → ℕ
fraction [] = 0
fraction (c ∷ cs) = if c == b'.' then read_fraction 100000 0 cs else 0

-- A number is there if a digit is, before the point or behind it.
read_number : Bool → ℕ → List ℕ → Option ℕ
read_number seen acc [] = if seen then some (acc * 1000000) else none
read_number seen acc (c ∷ cs) =
    let more = read_number true (acc * 10 + (c - b'0')) cs in
    if is_digit c
    then more
    else if seen || c == b'.' && starts_with_digit cs
    then some (acc * 1000000 + fraction (c ∷ cs))
    else none

positive : Option ℕ → Number
positive none = nan
positive (some n) = finite (pos n)

negative : Option ℕ → Number
negative none = nan
negative (some zero) = finite (pos 0)
negative (some (suc n)) = finite (negsuc n)

unsigned : List ℕ → Number
unsigned cs =
    if prefix_of (codes "Infinity") cs then infinity else positive (read_number false 0 cs)

signed : List ℕ → Number
signed [] = nan
signed (c ∷ cs) =
    if c == b'-'
    then (if prefix_of (codes "Infinity") cs
        then neg_infinity
        else negative (read_number false 0 cs))
    else if c == b'+'
    then unsigned cs
    else unsigned (c ∷ cs)

trim_start : List ℕ → List ℕ
trim_start [] = []
trim_start (c ∷ cs) = let rest = trim_start cs in if is_space c then rest else c ∷ cs

unfoldable pub parse_float : List ℕ → Number
unfolding is_digit read_fraction starts_with_digit fraction read_number positive negative unsigned
    signed trim_start
parse_float cs = signed (trim_start cs)

-- `parseFloat(s) || fallback`
unfoldable pub parse_or : List ℕ → Number → Number
unfolding truthy_number
parse_or cs fallback = if truthy_number (parse_float cs) then parse_float cs else fallback

parse_float_tests :
    (parse_float (codes "3002") ≡ finite (pos 3002000000))
    × (parse_float (codes " -0.25x") ≡ finite (negsuc 249999))
    × (parse_float (codes "Authentication") ≡ nan)
    × (parse_float (codes "00") ≡ finite (pos 0))
unfolding parse_float
parse_float_tests = (refl, refl, refl, refl)
