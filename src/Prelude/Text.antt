-- ===== src/Prelude/Text.antt =====
-- What the source does with texts: concatenation, tests on prefixes and parts, and lower case.
-- A text is read by its code points; `toLowerCase` is that of ASCII letters.
use Prim.Native.Nat.{ℕ, zero, suc, ◌+◌, ◌/◌, ◌%◌}
use Prim.Native.Char.{code}
use Prim.Native.String.{String, ◌++◌}
use mathlib.Core.Path.{◌≡◌, refl}
use mathlib.Core.Bool.{Bool, true, false, ◌&&◌, ◌||◌}
use mathlib.Core.List.{List, [], ◌∷◌, map}
use mathlib.Core.Option.{Option, none, some}
use attest.Prelude.Lists.{get_elem?}
use attest.Prelude.Tests.{leb, ltb, ◌==◌, if◌then◌else◌}

abbrev pub codes : String → List ℕ
codes String.[] = []
codes (String.◌∷◌ c s) = code c ∷ codes s

-- `s === ""` as a test; `!s` for a text.
abbrev pub is_empty : String → Bool
is_empty String.[] = true
is_empty (String.◌∷◌ c s) = false

abbrev pub codes_eq : List ℕ → List ℕ → Bool
codes_eq [] [] = true
codes_eq (a ∷ as') (b ∷ bs) = a == b && codes_eq as' bs
codes_eq _ _ = false

abbrev pub lower_code : ℕ → ℕ
lower_code c = if leb b'A' c && leb c b'Z' then c + 32 else c

-- The ASCII white space that `trim` and `parseFloat` skip.
abbrev pub is_space : ℕ → Bool
is_space c = c == 32 || leb 9 c && leb c 13

abbrev trim_start : String → String
trim_start String.[] = ""
trim_start (String.◌∷◌ c s) =
    let rest = trim_start s in if is_space (code c) then rest else String.◌∷◌ c s

abbrev trim_end : String → String
trim_end String.[] = ""
trim_end (String.◌∷◌ c s) =
    let rest = trim_end s in if is_space (code c) && is_empty rest then "" else String.◌∷◌ c rest

-- `s.trim()`
unfoldable pub trim : String → String
trim s = trim_end (trim_start s)

-- `s.split(",")[0]`
unfoldable pub before_comma : String → String
before_comma String.[] = ""
before_comma (String.◌∷◌ c s) =
    let rest = before_comma s in if code c == 44 then "" else String.◌∷◌ c rest

-- `s.toLowerCase()`, as code points.
unfoldable pub lower : String → List ℕ
lower s = map lower_code (codes s)

abbrev pub prefix_of : List ℕ → List ℕ → Bool
prefix_of [] s = true
prefix_of (p ∷ ps) [] = false
prefix_of (p ∷ ps) (c ∷ s) = p == c && prefix_of ps s

-- `s.includes(part)` on code points.
unfoldable pub includes : List ℕ → List ℕ → Bool
includes part [] = prefix_of part []
includes part (c ∷ s) = prefix_of part (c ∷ s) || includes part s

abbrev digits : List String
digits = "0" ∷ "1" ∷ "2" ∷ "3" ∷ "4" ∷ "5" ∷ "6" ∷ "7" ∷ "8" ∷ "9" ∷ []

abbrev or_blank : Option String → String
or_blank none = ""
or_blank (some s) = s

digit : ℕ → String
digit d = or_blank (get_elem? digits d)

-- The digits of `n` before `rest`; each round divides by ten, so `suc n` rounds are enough.
decimal_from : ℕ → ℕ → String → String
decimal_from zero n rest = rest
decimal_from (suc fuel) n rest =
    let more = decimal_from fuel (n / 10) (digit (n % 10) ++ rest) in
    if ltb n 10 then digit (n % 10) ++ rest else more

-- `${n}` for a whole number that is not negative.
unfoldable pub decimal : ℕ → String
unfolding digit decimal_from
decimal n = decimal_from (suc n) n ""

decimal_test : decimal 1040 ≡ "1040"
unfolding decimal
decimal_test = refl
