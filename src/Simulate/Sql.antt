-- ===== src/Simulate/Sql.antt =====
-- The statement that the warm tier gets.
use Prim.Native.String.{◌++◌ as text_append}
use attest.Prelude.{
  ℕ, ◌≤◌, String, ◌≡◌, refl, ap, Option, none, some, List, [], ◌∷◌, ◌++◌, true, false, leb→le, ◌==◌,
  All, length, Bool-cases, inl, inr, if◌then◌else◌, arith,
}
use Prim.Native.Char.{code}
use text.Mathlib.TextLemmas.{nil-append, cons-append}
use attest.Prelude.Text.{codes}
use attest.Simulate.Verify.{
  Query, Answers, Latencies, Request, warm_query, is_id_char, all_id_chars, is_event_id, sql_start,
  sql_end, warm_sql, verify_get,
}

abbrev quote : ℕ
quote = 39

abbrev cons_char : ℕ → Option (List ℕ × List ℕ) → Option (List ℕ × List ℕ)
cons_char c none = none
cons_char c (some (value, rest)) = some (c ∷ value, rest)

-- A text literal of SQL behind its opening quote: its value and what stands behind the closing quote.
-- Two quotes are one of the value.
abbrev pub literal : List ℕ → Option (List ℕ × List ℕ)
literal [] = none
literal (c ∷ []) = if c == quote then some ([], []) else none
literal (c ∷ d ∷ s) =
    let doubled = cons_char quote (literal s) in
    let more = cons_char c (literal (d ∷ s)) in
    if c == quote then (if d == quote then doubled else some ([], d ∷ s)) else more

abbrev pub behind : List ℕ → List ℕ → Option (List ℕ)
behind [] s = some s
behind (p ∷ ps) [] = none
behind (p ∷ ps) (c ∷ s) = let rest = behind ps s in if p == c then rest else none

abbrev then_literal : Option (List ℕ) → Option (List ℕ × List ℕ)
then_literal (some (c ∷ s)) = if c == quote then literal s else none
then_literal _ = none

-- The literal that a statement of the warm tier compares with, and what follows it.
abbrev pub compared : String → Option (List ℕ × List ℕ)
compared sql = then_literal (behind (codes sql_start) (codes sql))

codes-append : (a b : String) → codes (text_append a b) ≡ codes a ++ codes b
codes-append String.[] b = rw (nil-append b) refl
codes-append (String.◌∷◌ c a) b = rw (cons-append c a b) (ap (λ l. code c ∷ l) (codes-append a b))

not_quote : (c : ℕ) → is_id_char c ≡ true → (c == quote) ≡ false
not_quote c h = ground arith

literal_step :
    (c d : ℕ) (s : List ℕ)
    → (c == quote) ≡ false
    → literal (c ∷ d ∷ s) ≡ cons_char c (literal (d ∷ s))
literal_step c d s n = rw n refl

head_valid : (c : ℕ) (s : List ℕ) → all_id_chars (c ∷ s) ≡ true → is_id_char c ≡ true
head_valid c s h = ground arith

literal_of_id :
    (id : List ℕ) (c : ℕ) (rest : List ℕ)
    → all_id_chars id ≡ true
    → (c == quote) ≡ false
    → literal (id ++ quote ∷ c ∷ rest) ≡ some (id, c ∷ rest)
literal_of_id [] c rest h n = rw n refl
literal_of_id (i ∷ []) c rest h n =
    rw (literal_step i quote (c ∷ rest) (not_quote i (head_valid i [] h))) (rw n refl)
literal_of_id (i ∷ j ∷ id) c rest h n =
    rw (literal_step i j (id ++ quote ∷ c ∷ rest) (not_quote i (head_valid i (j ∷ id) h)))
      (rw (literal_of_id (j ∷ id) c rest (ground arith) n) refl)

-- What a request may say of the event: the statement compares with exactly the id that was asked for,
-- which has at most 64 characters, and ends as the source wrote it.
abbrev pub IsSafe : String → Request → Type 0
IsSafe id (warm_query sql) =
    (compared sql ≡ some (codes id, codes sql_end)) × (length (codes id) ≤ 64)
IsSafe id _ = Unit {0}

compared-warm_sql :
    (id : String)
    → all_id_chars (codes id) ≡ true
    → compared (warm_sql id) ≡ some (codes id, codes sql_end)
unfolding warm_sql
compared-warm_sql id h =
    rw (codes-append sql_start (text_append "'" (text_append id (text_append "'" sql_end)))) (
      rw (codes-append "'" (text_append id (text_append "'" sql_end)))
        (rw (codes-append id (text_append "'" sql_end)) (literal_of_id (codes id) 32 _ h refl)))

valid_chars : (id : String) → is_event_id id ≡ true → all_id_chars (codes id) ≡ true
unfolding is_event_id
valid_chars id h = ground arith

short : (id : String) → is_event_id id ≡ true → length (codes id) ≤ 64
unfolding is_event_id
short id h = leb→le (length (codes id)) 64 (ground arith)

-- Whatever is asked for, no request of the endpoint carries a statement in which the event id is read
-- as anything but the value of one text literal.
pub verify_get-IsSafe :
    (encode : String → String) (q : Query) (a : Answers) (t : Latencies)
    → All (IsSafe q.event_id) (verify_get encode q a t).1
unfolding verify_get
verify_get-IsSafe encode q a t = elim (Bool-cases (is_event_id q.event_id)) [
  | inl valid ↦ rw valid (
    tt,
    (
      tt,
      (
        (compared-warm_sql q.event_id (valid_chars q.event_id valid), short q.event_id valid),
        (tt, tt),
      ),
    ),
  )
  | inr invalid ↦ rw invalid tt
]
