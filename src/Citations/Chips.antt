-- ===== src/Citations/Chips.antt =====
-- What the chips and the spans of a text are, and how many rounds the loop takes.
use attest.Prelude.{
  ℕ, zero, suc, ◌+◌, ◌≤◌, ◌<◌, ◌≡◌, refl, ap, sym, none, some, List, [], ◌∷◌, ◌++◌, ◌==◌, length,
  All, Option-cases, Bool-cases, inl, inr, arith,
}
use attest.Citations.{
  Match, Part, span, citation, after_prefix, take_id, id_length, opening, match_at, exec,
  span_before, parts_of, render_with_citations,
}
use attest.Citations.RoundTrip.{lowered, printed, parts_of_last, parts_of_next, IsId, exec-Cut}

length-lowered : (s : List ℕ) → length (lowered s) ≡ length s
length-lowered [] = refl
length-lowered (c ∷ s) = ap (λ n. suc n) (length-lowered s)

length-append : (xs ys : List ℕ) → length (xs ++ ys) ≡ length xs + length ys
length-append [] ys = ground arith
length-append (x ∷ xs) ys = ground (arith, length-append xs ys)

length-printed : (id : List ℕ) → 1 ≤ length (lowered (printed id))
length-printed id = omega arith

-- A round takes something off the text.
after-Shorter : (s : List ℕ) (m : Match) → exec s ≡ some m → length m.after < length s
after-Shorter s m e =
    let cut : length (lowered s)
        ≡ length (lowered m.before) + length (lowered (printed m.id)) + length (lowered m.after) =
      rw (ap length (exec-Cut s m e).joined, length-append, length-append) (omega arith) in
    omega (arith, length-lowered s, length-lowered m.after, cut, length-printed m.id)

parts_of-eq : (n k : ℕ) (s : List ℕ) → length s ≤ n → length s ≤ k → parts_of n s ≡ parts_of k s
unfolding parts_of exec
parts_of-eq zero zero s p q = refl
parts_of-eq zero (suc k) [] p q = sym (parts_of_last k [] refl)
parts_of-eq zero (suc k) (c ∷ s) p q = absurd (omega arith)
parts_of-eq (suc n) zero [] p q = parts_of_last n [] refl
parts_of-eq (suc n) zero (c ∷ s) p q = absurd (omega arith)
parts_of-eq (suc n) (suc k) s p q = elim (Option-cases (exec s)) [
  | inl never ↦ rw (parts_of_last n s never, parts_of_last k s never) refl
  | inr (m, e) ↦
      let shorter = after-Shorter s m e in
      rw
        (
          parts_of_next n s m e,
          parts_of_next k s m e,
          parts_of-eq n k m.after (omega arith) (omega arith),
        )
        refl
]

-- The loop ends: more rounds than the text is long change nothing.
pub parts_of-enough :
    (text : List ℕ) (rounds : ℕ)
    → length text ≤ rounds
    → parts_of rounds text ≡ render_with_citations text
unfolding render_with_citations
parts_of-enough text rounds p = parts_of-eq rounds (length text) text p (omega arith)

append_assoc : (xs ys zs : List ℕ) → (xs ++ ys) ++ zs ≡ xs ++ (ys ++ zs)
append_assoc [] ys zs = refl
append_assoc (x ∷ xs) ys zs = ap (λ l. x ∷ l) (append_assoc xs ys zs)

-- More text behind a match leaves it a match.
after_prefix_more :
    (p s rest more : List ℕ)
    → after_prefix p s ≡ some rest
    → after_prefix p (s ++ more) ≡ some (rest ++ more)
unfolding after_prefix
after_prefix_more [] s rest more h = ground arith
after_prefix_more (c ∷ p) [] rest more h = absurd (ground arith)
after_prefix_more (c ∷ p) (d ∷ s) rest more h = ground (arith, after_prefix_more p s rest more)

take_id_more :
    (n : ℕ) (s id rest more : List ℕ)
    → take_id n s ≡ some (id, rest)
    → take_id n (s ++ more) ≡ some (id, rest ++ more)
unfolding take_id
take_id_more zero s id rest more h = ground arith
take_id_more (suc n) [] id rest more h = absurd (ground arith)
take_id_more (suc n) (c ∷ s) id rest more h = elim (Option-cases (take_id n s)) [
  | inl short ↦ absurd (ground arith)
  | inr ((i, r), e) ↦ ground (arith, take_id_more n s i r more e)
]

match_at_more :
    (s id rest more : List ℕ)
    → match_at s ≡ some (id, rest)
    → match_at (s ++ more) ≡ some (id, rest ++ more)
unfolding match_at
match_at_more s id rest more h = elim (Option-cases (after_prefix opening s)) [
  | inl none_here ↦ absurd (ground arith)
  | inr (tail, e) ↦ elim (Option-cases (take_id id_length tail)) [
    | inl short ↦ absurd (ground arith)
    | inr ((i, []), t) ↦ absurd (ground arith)
    | inr ((i, c ∷ r), t) ↦ elim (Bool-cases (c == b']')) [
      | inl closed ↦
          rw (after_prefix_more opening s tail more e)
            (rw (take_id_more id_length tail i (c ∷ r) more t) (ground arith))
      | inr other ↦ absurd (ground arith)
    ]
  ]
]

record Before (s before : List ℕ) : Type 0 where
  tail : List ℕ
  whole : s ≡ before ++ tail
  silent : exec before ≡ none

-- What stands before the first match holds none.
exec-Before : (s : List ℕ) (m : Match) → exec s ≡ some m → Before s m.before
unfolding exec
exec-Before [] m h = absurd (ground arith)
exec-Before (c ∷ s) m h = elim (Option-cases (match_at (c ∷ s))) [
  | inl later ↦ elim (Option-cases (exec s)) [
    | inl never ↦ absurd (ground arith)
    | inr (k, e) ↦
        let ih = exec-Before s k e in
        let b : c ∷ k.before ≡ m.before = ground arith in
        let not_here : match_at (c ∷ k.before) ≡ none =
          elim (Option-cases (match_at (c ∷ k.before))) [
            | inl silent ↦ silent
            | inr ((i, r), here) ↦
                let there = match_at_more (c ∷ k.before) i r ih.tail here in
                let same : c ∷ s ≡ c ∷ k.before ++ ih.tail = ap (λ l. c ∷ l) ih.whole in
                absurd (ground (arith, there, same, later))
          ] in
        rw (← b) (record {
          tail = ih.tail;
          whole = ap (λ l. c ∷ l) ih.whole;
          silent = rw (not_here, ih.silent) refl;
        })
  ]
  | inr ((i, a), e) ↦
      let here : record { before = []; id = i; after = a } ≡ m = ground arith in
      rw (← here) (record { tail = c ∷ s; whole = refl; silent = refl })
]

-- A span that is shown is not empty and holds no match; a chip has an id of the pattern.
abbrev pub IsShown : Part → Type 0
IsShown (span []) = ⊥
IsShown (span (c ∷ s)) = exec (c ∷ s) ≡ none
IsShown (citation id) = IsId id

span_before-IsShown :
    (s : List ℕ) (rest : List Part)
    → exec s ≡ none
    → All IsShown rest
    → All IsShown (span_before s rest)
span_before-IsShown [] rest h r = r
span_before-IsShown (c ∷ s) rest h r = (h, r)

parts_of-IsShown : (n : ℕ) (s : List ℕ) → length s ≤ n → All IsShown (parts_of n s)
unfolding parts_of
parts_of-IsShown zero [] p = tt
parts_of-IsShown zero (c ∷ s) p = absurd (omega arith)
parts_of-IsShown (suc n) s p = elim (Option-cases (exec s)) [
  | inl never ↦ rw (parts_of_last n s never) (span_before-IsShown s [] never tt)
  | inr (m, e) ↦
      let shorter = after-Shorter s m e in
      let rest : All IsShown (citation m.id ∷ parts_of n m.after) =
        ((exec-Cut s m e).id_ok, parts_of-IsShown n m.after (omega arith)) in
      rw (parts_of_next n s m e) (
        span_before-IsShown m.before (citation m.id ∷ parts_of n m.after) (exec-Before s m e).silent
          rest)
]

-- In every text a chip has an id of 36 hexadecimal digits or hyphens, no match of the pattern is left
-- in a span, and no span is empty.
pub render_with_citations-IsShown : (text : List ℕ) → All IsShown (render_with_citations text)
unfolding render_with_citations
render_with_citations-IsShown text = parts_of-IsShown (length text) text (omega arith)
