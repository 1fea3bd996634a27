-- ===== src/CaseStore/Lifecycle.antt =====
-- What holds of every entry of the store after any writes, and what a write leaves alone.
use attest.Prelude.{
  ℕ, String, ◌≡◌, ◌≢◌, refl, inl, inr, Option, none, some, List, [], ◌∷◌, Bool, true, false, any,
  ◌||◌, ltb, length, Option-cases, Bool-cases, str_eq, eq_iff, arith,
}
use attest.Prelude.Dict.{has, lookup, insert, remove, lookup-insert, lookup-remove}
use attest.CaseStore.{
  Baseline, CaseEntry, Cases, KafkaTraceStep, OcsfEvent, Write, max_cases, idle, running, complete,
  failed, override, refreshed, init_case, evict_if_needed, evict_first, update_case, write, run,
  step_key, start_triage, set_verdict, fail_triage, append_trace_step, clear_trace_steps,
  set_approved, set_override, evict,
}

-- No two steps have one key.
abbrev pub HasDistinctKeys : List KafkaTraceStep → Type 0
HasDistinctKeys [] = Unit
HasDistinctKeys (step ∷ steps) =
    (any (λ t. str_eq (step_key t) (step_key step)) steps ≡ false) × HasDistinctKeys steps

-- The fields of an entry agree with its triage status and its disposition.
pub record IsConsistent (e : CaseEntry) : Type 0 where
  pub idle_clean :
      e.triage_status ≡ idle
      → (e.verdict ≡ none) × (e.triage_started_at ≡ none) × (e.triage_error ≡ none)
  pub running_started :
      e.triage_status ≡ running → (e.triage_started_at ≢ none) × (e.triage_error ≡ none)
  pub complete_verdict : e.triage_status ≡ complete → (e.verdict ≢ none) × (e.triage_error ≡ none)
  pub failed_error : e.triage_status ≡ failed → e.triage_error ≢ none
  pub override_labelled : e.disposition ≡ override → e.override_label ≢ none
  pub trace_distinct : HasDistinctKeys e.trace_steps

pub record AllConsistent (s : Cases) : Type 0 where
  pub at : (id : String) (e : CaseEntry) → lookup id s ≡ some e → IsConsistent e

some-ne-none {ℓ} : {A : Type ℓ} (a : A) → ◌≢◌ {A = Option A} (some a) none
some-ne-none a = λ p. cc

insert-AllConsistent :
    (id : String) (e : CaseEntry) (s : Cases)
    → IsConsistent e
    → AllConsistent s
    → AllConsistent (insert id e s)
insert-AllConsistent id e s c h = record {
  at = λ j f p. elim (Bool-cases (str_eq id j)) [
    | inl same ↦ let q : e ≡ f = ground (arith, lookup-insert id j e s) in rw (← q) c
    | inr other ↦ h.at j f (ground (arith, lookup-insert id j e s))
  ];
}

remove-AllConsistent : (id : String) (s : Cases) → AllConsistent s → AllConsistent (remove id s)
remove-AllConsistent id s h = record {
  at = λ j f p. h.at j f (ground (arith, lookup-remove id j s));
}

evict_first-AllConsistent :
    (s sorted : Cases) → AllConsistent s → AllConsistent (evict_first s sorted)
unfolding evict_first
evict_first-AllConsistent s [] h = h
evict_first-AllConsistent s ((k, e) ∷ sorted) h = remove-AllConsistent k s h

evict_if_needed-AllConsistent :
    (id : String) (s : Cases) → AllConsistent s → AllConsistent (evict_if_needed s id)
unfolding evict_if_needed
evict_if_needed-AllConsistent id s h = elim (Bool-cases (has id s || ltb (length s) max_cases)) [
  | inl kept ↦ rw kept h
  | inr full ↦ rw full (evict_first-AllConsistent s _ h)
]

update_case-AllConsistent :
    (id : String) (change : CaseEntry → CaseEntry) (s : Cases)
    → ((e : CaseEntry) → IsConsistent e → IsConsistent (change e))
    → AllConsistent s
    → AllConsistent (update_case id change s)
unfolding update_case
update_case-AllConsistent id change s keep h = elim (Option-cases (lookup id s)) [
  | inl absent ↦ rw absent h
  | inr (e, found) ↦ rw found (insert-AllConsistent id (change e) s (keep e (h.at id e found)) h)
]

refreshed-IsConsistent :
    (o : Option CaseEntry) (event : OcsfEvent) (b : Option Baseline) (now : ℕ)
    → ((e : CaseEntry) → o ≡ some e → IsConsistent e)
    → IsConsistent (refreshed o event b now)
unfolding refreshed
refreshed-IsConsistent none event b now h = record {
  idle_clean = λ p. (refl, refl, refl);
  running_started = λ p. cc;
  complete_verdict = λ p. cc;
  failed_error = λ p. cc;
  override_labelled = λ p. cc;
  trace_distinct = tt;
}
refreshed-IsConsistent (some e) event b now h =
    let c = h e refl in
    record {
      idle_clean = c.idle_clean;
      running_started = c.running_started;
      complete_verdict = c.complete_verdict;
      failed_error = c.failed_error;
      override_labelled = c.override_labelled;
      trace_distinct = c.trace_distinct;
    }

append_trace_step-AllConsistent :
    (id : String) (step : KafkaTraceStep) (now : ℕ) (s : Cases)
    → AllConsistent s
    → AllConsistent (append_trace_step id step now s)
unfolding append_trace_step
append_trace_step-AllConsistent id step now s h = elim (Option-cases (lookup id s)) [
  | inl absent ↦ rw absent h
  | inr (e, found) ↦
      rw found (elim (Bool-cases (any (λ t. str_eq (step_key t) (step_key step)) e.trace_steps)) [
        | inl seen ↦ rw seen h
        | inr new ↦ rw new (
            let c = h.at id e found in
            insert-AllConsistent id _ s
              (record {
                idle_clean = c.idle_clean;
                running_started = c.running_started;
                complete_verdict = c.complete_verdict;
                failed_error = c.failed_error;
                override_labelled = c.override_labelled;
                trace_distinct = (new, c.trace_distinct);
              })
              h)
      ])
]

write-AllConsistent :
    (w : Write) (now : ℕ) (s : Cases) → AllConsistent s → AllConsistent (write w now s)
unfolding write init_case start_triage set_verdict fail_triage clear_trace_steps set_approved
    set_override evict
write-AllConsistent (Write.init c event b) now s h =
    insert-AllConsistent c _ (evict_if_needed s c)
      (refreshed-IsConsistent (lookup c s) event b now (h.at c))
      (evict_if_needed-AllConsistent c s h)
write-AllConsistent (Write.start c) now s h =
    update_case-AllConsistent c _ s (λ e k. ground arith) h
write-AllConsistent (Write.verdict c v) now s h =
    update_case-AllConsistent c _ s (λ e k. ground arith) h
write-AllConsistent (Write.fail c error) now s h =
    update_case-AllConsistent c _ s (λ e k. ground arith) h
write-AllConsistent (Write.append c step) now s h = append_trace_step-AllConsistent c step now s h
write-AllConsistent (Write.clear c) now s h =
    update_case-AllConsistent c _ s (λ e k. ground arith) h
write-AllConsistent (Write.approve c) now s h =
    update_case-AllConsistent c _ s (λ e k. ground arith) h
write-AllConsistent (Write.overrule c label) now s h =
    update_case-AllConsistent c _ s (λ e k. ground arith) h
write-AllConsistent (Write.drop c) now s h = remove-AllConsistent c s h

-- In every state that writes lead to from the empty store, every entry's fields agree: an idle entry
-- has no verdict, start or error, a running one a start and no error, a complete one a verdict and
-- no error, a failed one an error, an overridden one a label, and no two trace steps share a key.
pub run-IsConsistent :
    (writes : List (Write × ℕ)) (id : String) {e : CaseEntry}
    → lookup id (run writes []) ≡ some e
    → IsConsistent e
unfolding run lookup
run-IsConsistent writes id {e} found = (run_from writes [] nothing).at id e found
  where
    nothing : AllConsistent []
    nothing = record { at = λ j f p. cc }

    run_from : (ws : List (Write × ℕ)) (s : Cases) → AllConsistent s → AllConsistent (run ws s)
    run_from [] s h = h
    run_from ((w, now) ∷ rest) s h = run_from rest (write w now s) (write-AllConsistent w now s h)

-- The case that a write is about.
abbrev pub target : Write → String
target (Write.init c event b) = c
target (Write.start c) = c
target (Write.verdict c v) = c
target (Write.fail c error) = c
target (Write.append c step) = c
target (Write.clear c) = c
target (Write.approve c) = c
target (Write.overrule c label) = c
target (Write.drop c) = c

abbrev pub is_init : Write → Bool
is_init (Write.init c event b) = true
is_init _ = false

update_case_other :
    (id j : String) (change : CaseEntry → CaseEntry) (s : Cases)
    → id ≢ j
    → lookup j (update_case id change s) ≡ lookup j s
unfolding update_case
update_case_other id j change s h = elim (Option-cases (lookup id s)) [
  | inl absent ↦ rw absent
  | inr (e, found) ↦ rw (found, lookup-insert) (ground (arith, eq_iff id j))
]

append_trace_step_other :
    (id j : String) (step : KafkaTraceStep) (now : ℕ) (s : Cases)
    → id ≢ j
    → lookup j (append_trace_step id step now s) ≡ lookup j s
unfolding append_trace_step
append_trace_step_other id j step now s h = elim (Option-cases (lookup id s)) [
  | inl absent ↦ rw absent
  | inr (e, found) ↦ rw found (
      ground (
        arith,
        eq_iff id j,
        lookup-insert id j (record e { trace_steps = step ∷ e.trace_steps; updated_at = now }) s,
      ))
]

-- A write other than `initCase` changes no case but the one that it names.
pub write_other :
    (w : Write) (now : ℕ) (s : Cases) (j : String)
    → is_init w ≡ false
    → target w ≢ j
    → lookup j (write w now s) ≡ lookup j s
unfolding write start_triage set_verdict fail_triage clear_trace_steps set_approved set_override
    evict
write_other (Write.init c event b) now s j i h = cc
write_other (Write.start c) now s j i h = update_case_other c j _ s h
write_other (Write.verdict c v) now s j i h = update_case_other c j _ s h
write_other (Write.fail c error) now s j i h = update_case_other c j _ s h
write_other (Write.append c step) now s j i h = append_trace_step_other c j step now s h
write_other (Write.clear c) now s j i h = update_case_other c j _ s h
write_other (Write.approve c) now s j i h = update_case_other c j _ s h
write_other (Write.overrule c label) now s j i h = update_case_other c j _ s h
write_other (Write.drop c) now s j i h = rw lookup-remove (ground (arith, eq_iff c j))
