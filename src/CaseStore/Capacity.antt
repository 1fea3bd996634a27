-- ===== src/CaseStore/Capacity.antt =====
-- The bound on the number of cases, and what one `initCase` does to the whole store.
use attest.Prelude.{
  ℕ, ◌≤◌, ◌<◌, String, ◌≡◌, ◌≢◌, inl, inr, Option, none, some, List, [], ◌∷◌, true, length,
  Option-cases, Bool-cases, str_eq, eq_iff, if◌then◌else◌, arith, leb, leb→le,
}
use attest.Prelude.Dict.{
  lookup, has, lookup-insert, lookup-remove, length-insert_old, length-insert-le, length-remove-le,
  length-remove-lt,
}
use attest.CaseStore.{
  Baseline, CaseEntry, Cases, KafkaTraceStep, OcsfEvent, Write, max_cases, refreshed, init_case,
  evict_if_needed, update_case, write, run, start_triage, set_verdict, fail_triage,
  append_trace_step, clear_trace_steps, set_approved, set_override, evict,
}
use attest.CaseStore.Evict.{
  Evicted, evict_if_needed_full, evict_if_needed_present, evict_if_needed_room, has_listed,
}

has-some : (k : String) (s : Cases) → has k s ≡ true → (e : CaseEntry) × (lookup k s ≡ some e)
has-some k s h = elim (Option-cases (lookup k s)) [
  | inl gone ↦ absurd (ground arith)
  | inr found ↦ found
]

-- A new case always finds room: at most 49 entries are left for it.
room_for_new :
    (id : String) (s : Cases)
    → lookup id s ≡ none
    → length s ≤ max_cases
    → length (evict_if_needed s id) < max_cases
room_for_new id s absent bound = elim (Bool-cases (leb max_cases (length s))) [
  | inl full ↦
      let v = evict_if_needed_full id s absent (leb→le _ _ full) in
      let (e, found) = has-some v.victim.0 s (has_listed v.victim.0 v.victim.1 s v.listed) in
      rw v.removed (omega (arith, length-remove-lt v.victim.0 s found))
  | inr room ↦
      let fits : length s < max_cases = ground arith in rw (evict_if_needed_room id s fits) fits
]

length-init_case :
    (id : String) (event : OcsfEvent) (b : Option Baseline) (now : ℕ) (s : Cases)
    → length s ≤ max_cases
    → length (init_case id event b now s) ≤ max_cases
unfolding init_case
length-init_case id event b now s bound = elim (Option-cases (lookup id s)) [
  | inl absent ↦ omega (
    arith,
    room_for_new id s absent bound,
    length-insert-le id (refreshed (lookup id s) event b now) (evict_if_needed s id),
  )
  | inr (e, found) ↦
      rw (evict_if_needed_present id s found)
        (omega (arith, length-insert_old id (refreshed (lookup id s) event b now) s found))
]

length-update_case :
    (id : String) (change : CaseEntry → CaseEntry) (s : Cases)
    → length (update_case id change s) ≡ length s
unfolding update_case
length-update_case id change s = elim (Option-cases (lookup id s)) [
  | inl absent ↦ rw absent
  | inr (e, found) ↦ rw found (length-insert_old id (change e) s found)
]

length-append_trace_step :
    (id : String) (step : KafkaTraceStep) (now : ℕ) (s : Cases)
    → length (append_trace_step id step now s) ≡ length s
unfolding append_trace_step
length-append_trace_step id step now s = elim (Option-cases (lookup id s)) [
  | inl absent ↦ rw absent
  | inr (e, found) ↦ rw found (
      ground (
        arith,
        length-insert_old id (record e { trace_steps = step ∷ e.trace_steps; updated_at = now }) s
            found,
      ))
]

pub length-write :
    (w : Write) (now : ℕ) (s : Cases) → length s ≤ max_cases → length (write w now s) ≤ max_cases
unfolding write start_triage set_verdict fail_triage clear_trace_steps set_approved set_override
    evict
length-write (Write.init c event b) now s h = length-init_case c event b now s h
length-write (Write.start c) now s h = omega (arith, length-update_case c)
length-write (Write.verdict c v) now s h = omega (arith, length-update_case c)
length-write (Write.fail c error) now s h = omega (arith, length-update_case c)
length-write (Write.append c step) now s h = omega (arith, length-append_trace_step c step now s)
length-write (Write.clear c) now s h = omega (arith, length-update_case c)
length-write (Write.approve c) now s h = omega (arith, length-update_case c)
length-write (Write.overrule c label) now s h = omega (arith, length-update_case c)
length-write (Write.drop c) now s h = omega (arith, length-remove-le c s)

-- Whatever writes follow one another, at whatever times, a store that starts with at most 50 cases
-- never holds more than 50.
pub run-capacity :
    (writes : List (Write × ℕ)) (s : Cases)
    → length s ≤ max_cases
    → length (run writes s) ≤ max_cases
unfolding run
run-capacity [] s h = h
run-capacity ((w, now) ∷ rest) s h = run-capacity rest (write w now s) (length-write w now s h)

-- What opening a new case does to a full store: one entry, written no later than any other, is
-- gone, the new case is there with its event, and every other case is what it was.
pub record Replaces (id : String) (event : OcsfEvent) (b : Option Baseline) (now : ℕ) (s t : Cases)
    : Type 0 where
  pub evicted : Evicted s (evict_if_needed s id)
  pub gone : lookup evicted.victim.0 t ≡ none
  pub stored : lookup id t ≡ some (refreshed none event b now)
  pub others : (j : String) → j ≢ id → j ≢ evicted.victim.0 → lookup j t ≡ lookup j s

-- Opening a case that is not in a store of 50 or more entries evicts an entry that was written no
-- later than any other, stores the new case as fresh, and changes no other case.
pub init_case-Replaces :
    (id : String) (event : OcsfEvent) (b : Option Baseline) (now : ℕ) (s : Cases)
    → lookup id s ≡ none
    → max_cases ≤ length s
    → Replaces id event b now s (init_case id event b now s)
unfolding init_case
init_case-Replaces id event b now s absent full =
    let v = evict_if_needed_full id s absent full in
    let victim = v.victim.0 in
    let (e, found) = has-some victim s (has_listed victim v.victim.1 s v.listed) in
    record {
      evicted = v;
      gone =
          rw (v.removed, lookup-insert, lookup-remove)
            (ground (arith, eq_iff id victim, eq_iff victim victim));
      stored = rw (absent, lookup-insert) (ground (arith, eq_iff id id));
      others = λ j p q.
          rw (v.removed, lookup-insert, lookup-remove)
            (ground (arith, eq_iff id j, eq_iff victim j));
    }

-- Opening a case that is in the store refreshes its event and its baseline and keeps its verdict,
-- its triage state, its trace and its disposition; no other case changes and none is evicted.
pub init_case_again :
    (id : String) (event : OcsfEvent) (b : Option Baseline) (now : ℕ) (s : Cases) {e : CaseEntry}
    → lookup id s ≡ some e
    → (j : String)
    → lookup j (init_case id event b now s) ≡ (
        if str_eq id j
        then some (record e { event = event; baseline = b; updated_at = now })
        else lookup j s)
unfolding init_case
init_case_again id event b now s found j =
    rw (evict_if_needed_present id s found, found) (lookup-insert id j _ s)
