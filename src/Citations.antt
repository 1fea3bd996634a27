-- ===== src/Citations.antt =====
-- The citations in a reasoning step (`renderWithCitations` of
-- apps/workbench/src/components/workbench/reasoning-trace-viewer.tsx): the text is cut at every match of
-- the pattern `[evidence:id]`. A text is its code points.
pub mod RoundTrip
pub mod Chips
mod Tests
use attest.Prelude.{
  ℕ, zero, suc, String, Option, none, some, List, [], ◌∷◌, Bool, true, false, ◌&&◌, ◌||◌, leb, ◌==◌,
  length, if◌then◌else◌,
}
use attest.Prelude.Text.{codes, lower_code}

-- One match of the pattern: what stands before it, its group, and what stands behind it.
pub record Match : Type 0 where
  pub before : List ℕ
  pub id : List ℕ
  pub after : List ℕ

-- `[a-f0-9-]` without regard to case.
abbrev pub is_id_char : ℕ → Bool
is_id_char c =
    let l = lower_code c in leb b'a' l && leb l b'f' || leb b'0' c && leb c b'9' || c == b'-'

-- What is left behind a prefix, without regard to case.
unfoldable pub after_prefix : List ℕ → List ℕ → Option (List ℕ)
after_prefix [] s = some s
after_prefix (p ∷ ps) [] = none
after_prefix (p ∷ ps) (c ∷ s) =
    let rest = after_prefix ps s in if lower_code c == p then rest else none

abbrev pub cons_id : ℕ → Option (List ℕ × List ℕ) → Option (List ℕ × List ℕ)
cons_id c none = none
cons_id c (some (id, rest)) = some (c ∷ id, rest)

-- So many characters of an id, and what is left.
unfoldable pub take_id : ℕ → List ℕ → Option (List ℕ × List ℕ)
take_id zero s = some ([], s)
take_id (suc n) [] = none
take_id (suc n) (c ∷ s) = let rest = cons_id c (take_id n s) in if is_id_char c then rest else none

abbrev pub id_length : ℕ
id_length = 36

-- The closing bracket.
abbrev pub close : List ℕ → List ℕ → Option (List ℕ × List ℕ)
close id [] = none
close id (c ∷ after) = if c == b']' then some (id, after) else none

abbrev pub close_id : Option (List ℕ × List ℕ) → Option (List ℕ × List ℕ)
close_id none = none
close_id (some (id, rest)) = close id rest

abbrev pub id_after : Option (List ℕ) → Option (List ℕ × List ℕ)
id_after none = none
id_after (some rest) = close_id (take_id id_length rest)

abbrev pub opening : List ℕ
opening = codes "[evidence:"

-- A match that starts where the text does: the id and what is left.
unfoldable pub match_at : List ℕ → Option (List ℕ × List ℕ)
match_at s = id_after (after_prefix opening s)

abbrev pub push_front : ℕ → Option Match → Option Match
push_front c none = none
push_front c (some m) = some (record m { before = c ∷ m.before })

abbrev pub found_here : Option (List ℕ × List ℕ) → Option Match → Option Match
found_here none later = later
found_here (some (id, after)) later = some (record { before = []; id = id; after = after })

-- `re.exec(text)` from `lastIndex` on: the first match.
unfoldable pub exec : List ℕ → Option Match
exec [] = none
exec (c ∷ s) = found_here (match_at (c ∷ s)) (push_front c (exec s))

-- A span of text, or a chip.
pub data Part : Type 0 where
  span : List ℕ → Part
  citation : List ℕ → Part

-- `if (m.index > last)`, `if (last < text.length)`
abbrev pub span_before : List ℕ → List Part → List Part
span_before [] rest = rest
span_before (c ∷ s) rest = span (c ∷ s) ∷ rest

-- The loop, over what is left of the text; each round ends behind a match, so as many rounds as the text is long are enough.
unfoldable pub parts_of : ℕ → List ℕ → List Part
parts_of zero s = span_before s []
parts_of (suc fuel) s = elim (exec s) [
  | none ↦ span_before s []
  | some m ↦ span_before m.before (citation m.id ∷ parts_of fuel m.after)
]

-- A text that is empty has no parts, and is returned as it is.
unfoldable pub render_with_citations : List ℕ → List Part
render_with_citations text = parts_of (length text) text
