-- ===== src/Citations/RoundTrip.antt =====
-- The parts of a text make up the text.
use attest.Prelude.{
  ℕ, zero, suc, ◌≡◌, refl, ap, sym, none, some, List, [], ◌∷◌, ◌++◌, map, true, ◌==◌, length, All,
  Option-cases, Bool-cases, inl, inr, arith,
}
use attest.Prelude.Text.{lower_code}
use attest.Citations.{
  Match, Part, span, citation, is_id_char, after_prefix, take_id, id_length, opening, match_at,
  exec, span_before, parts_of, render_with_citations,
}

-- Lower case, which forgets how `evidence` was written.
abbrev pub lowered : List ℕ → List ℕ
lowered = map lower_code

lowered-append : (xs ys : List ℕ) → lowered (xs ++ ys) ≡ lowered xs ++ lowered ys
lowered-append [] ys = refl
lowered-append (x ∷ xs) ys = ap (λ zs. lower_code x ∷ zs) (lowered-append xs ys)

after_prefix-split :
    (p s rest : List ℕ) → after_prefix p s ≡ some rest → lowered s ≡ p ++ lowered rest
unfolding after_prefix
after_prefix-split [] s rest h = ground arith
after_prefix-split (c ∷ p) [] rest h = ground arith
after_prefix-split (c ∷ p) (d ∷ s) rest h = elim (Bool-cases (lower_code d == c)) [
  | inl same ↦ ground (arith, after_prefix-split p s rest)
  | inr other ↦ absurd (ground arith)
]

-- The group of a match: as many characters as the pattern says, each of them valid.
pub record IsId (id : List ℕ) : Type 0 where
  pub long : length id ≡ id_length
  pub valid : All (λ c. is_id_char c ≡ true) id

record Split (n : ℕ) (s id rest : List ℕ) : Type 0 where
  joined : s ≡ id ++ rest
  long : length id ≡ n
  valid : All (λ c. is_id_char c ≡ true) id

take_id-Split : (n : ℕ) (s id rest : List ℕ) → take_id n s ≡ some (id, rest) → Split n s id rest
unfolding take_id
take_id-Split zero s [] rest h = record { joined = ground arith; long = refl; valid = tt }
take_id-Split zero s (i ∷ id) rest h = absurd (ground arith)
take_id-Split (suc n) [] id rest h = absurd (ground arith)
take_id-Split (suc n) (c ∷ s) id rest h = elim (Bool-cases (is_id_char c)) [
  | inl valid ↦ elim (Option-cases (take_id n s)) [
    | inl short ↦ absurd (ground arith)
    | inr ((i, r), e) ↦
        let ih = take_id-Split n s i r e in
        let whole : c ∷ i ≡ id = ground arith in
        let left : r ≡ rest = ground arith in
        rw (← whole, ← left)
          (record {
            joined = ground (arith, ih.joined);
            long = ground (arith, ih.long);
            valid = (valid, ih.valid);
          })
  ]
  | inr other ↦ absurd (ground arith)
]

-- The chip's source text, in the case of the pattern.
abbrev pub printed : List ℕ → List ℕ
printed id = opening ++ (id ++ b']' ∷ [])

pub record Cut (s before id after : List ℕ) : Type 0 where
  pub joined : lowered s ≡ lowered before ++ (lowered (printed id) ++ lowered after)
  pub id_ok : IsId id

printed_tail : (id r : List ℕ) → lowered (id ++ b']' ∷ []) ++ lowered r ≡ lowered (id ++ b']' ∷ r)
printed_tail [] r = refl
printed_tail (i ∷ id) r = ap (λ l. lower_code i ∷ l) (printed_tail id r)

lowered-printed :
    (id r : List ℕ) → lowered (printed id) ++ lowered r ≡ opening ++ lowered (id ++ b']' ∷ r)
lowered-printed id r = ap (λ l. opening ++ l) (printed_tail id r)

match_at-Cut : (s id after : List ℕ) → match_at s ≡ some (id, after) → Cut s [] id after
unfolding match_at
match_at-Cut s id after h = elim (Option-cases (after_prefix opening s)) [
  | inl none_here ↦ absurd (ground arith)
  | inr (rest, e) ↦ elim (Option-cases (take_id id_length rest)) [
    | inl short ↦ absurd (ground arith)
    | inr ((i, []), t) ↦ absurd (ground arith)
    | inr ((i, c ∷ r), t) ↦ elim (Bool-cases (c == b']')) [
      | inl closed ↦
          let x = take_id-Split id_length rest i (c ∷ r) t in
          let y = after_prefix-split opening s rest e in
          let bracket : c ≡ b']' = ground arith in
          let whole : i ≡ id = ground arith in
          let left : r ≡ after = ground arith in
          record {
            joined = rw (lowered-printed id after, y, x.joined, bracket, whole, left) refl;
            id_ok = rw (← whole) (record { long = x.long; valid = x.valid });
          }
      | inr other ↦ absurd (ground arith)
    ]
  ]
]

pub exec-Cut : (s : List ℕ) (m : Match) → exec s ≡ some m → Cut s m.before m.id m.after
unfolding exec
exec-Cut [] m h = absurd (ground arith)
exec-Cut (c ∷ s) m h = elim (Option-cases (match_at (c ∷ s))) [
  | inl later ↦ elim (Option-cases (exec s)) [
    | inl never ↦ absurd (ground arith)
    | inr (k, e) ↦
        let ih = exec-Cut s k e in
        let b : c ∷ k.before ≡ m.before = ground arith in
        let i : k.id ≡ m.id = ground arith in
        let a : k.after ≡ m.after = ground arith in
        rw (← b, ← i, ← a)
          (record { joined = ap (λ l. lower_code c ∷ l) ih.joined; id_ok = ih.id_ok })
  ]
  | inr ((i, a), e) ↦
      let here : record { before = []; id = i; after = a } ≡ m = ground arith in
      rw (← here) (match_at-Cut (c ∷ s) i a e)
]

-- The text that the parts show, a chip by its source text.
abbrev pub text_of : List Part → List ℕ
text_of [] = []
text_of (span s ∷ rest) = s ++ text_of rest
text_of (citation id ∷ rest) = printed id ++ text_of rest

text_of-span_before :
    (s : List ℕ) (rest : List Part) → text_of (span_before s rest) ≡ s ++ text_of rest
text_of-span_before [] rest = refl
text_of-span_before (c ∷ s) rest = refl

append_nil : (xs : List ℕ) → xs ++ [] ≡ xs
append_nil [] = refl
append_nil (x ∷ xs) = ap (λ l. x ∷ l) (append_nil xs)

-- The two ways in which a round goes.
pub parts_of_last :
    (fuel : ℕ) (s : List ℕ) → exec s ≡ none → parts_of (suc fuel) s ≡ span_before s []
unfolding parts_of
parts_of_last fuel s never = ground arith

pub parts_of_next :
    (fuel : ℕ) (s : List ℕ) (m : Match)
    → exec s ≡ some m
    → parts_of (suc fuel) s ≡ span_before m.before (citation m.id ∷ parts_of fuel m.after)
unfolding parts_of
parts_of_next fuel s m e = ground arith

lowered-text_of : (fuel : ℕ) (s : List ℕ) → lowered (text_of (parts_of fuel s)) ≡ lowered s
unfolding parts_of
lowered-text_of zero s = rw (text_of-span_before s [], append_nil) refl
lowered-text_of (suc fuel) s = elim (Option-cases (exec s)) [
  | inl never ↦ rw (parts_of_last fuel s never, text_of-span_before s [], append_nil) refl
  | inr (m, e) ↦
      rw
        (
          parts_of_next fuel s m e,
          text_of-span_before m.before (citation m.id ∷ parts_of fuel m.after),
          lowered-append,
          lowered-append,
          lowered-text_of fuel m.after,
        )
        (sym (exec-Cut s m e).joined)
]

-- Every text is shown whole and in order: the spans and, for the chips, their source text make up the
-- text, up to the case of its letters.
pub render_with_citations-text :
    (text : List ℕ) → lowered (text_of (render_with_citations text)) ≡ lowered text
unfolding render_with_citations
render_with_citations-text text = lowered-text_of (length text) text
