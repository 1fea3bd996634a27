-- ===== src/CaseStore/Entries.antt =====
-- What holds of every entry of a store, by any predicate on cases and entries.
use attest.Prelude.{
  ℕ, String, ◌≡◌, inl, inr, some, [], ◌∷◌, any, ◌||◌, ltb, length, Option-cases, Bool-cases, str_eq,
  eq_iff, arith,
}
use attest.Prelude.Dict.{has, lookup, insert, remove, lookup-insert, lookup-remove}
use attest.CaseStore.{
  CaseEntry, Cases, KafkaTraceStep, max_cases, evict_if_needed, evict_first, update_case, step_key,
  append_trace_step,
}

module _ (P : String → CaseEntry → Type 0) where
  pub record Everywhere (s : Cases) : Type 0 where
    pub at : (id : String) (e : CaseEntry) → lookup id s ≡ some e → P id e

  pub insert-Everywhere :
      (id : String) (e : CaseEntry) (s : Cases) → P id e → Everywhere s → Everywhere (insert id e s)
  insert-Everywhere id e s c h = record {
    at = λ j f p. elim (Bool-cases (str_eq id j)) [
      | inl same ↦
          let q : e ≡ f = ground (arith, lookup-insert id j e s) in
          let r : id ≡ j = ground (arith, eq_iff id j) in rw (← q, ← r) c
      | inr other ↦ h.at j f (ground (arith, lookup-insert id j e s))
    ];
  }

  pub remove-Everywhere : (id : String) (s : Cases) → Everywhere s → Everywhere (remove id s)
  remove-Everywhere id s h = record {
    at = λ j f p. h.at j f (ground (arith, lookup-remove id j s));
  }

  evict_first-Everywhere : (s sorted : Cases) → Everywhere s → Everywhere (evict_first s sorted)
  unfolding evict_first
  evict_first-Everywhere s [] h = h
  evict_first-Everywhere s ((k, e) ∷ sorted) h = remove-Everywhere k s h

  pub evict_if_needed-Everywhere :
      (id : String) (s : Cases) → Everywhere s → Everywhere (evict_if_needed s id)
  unfolding evict_if_needed
  evict_if_needed-Everywhere id s h = elim (Bool-cases (has id s || ltb (length s) max_cases)) [
    | inl kept ↦ rw kept h
    | inr full ↦ rw full (evict_first-Everywhere s _ h)
  ]

  pub update_case-Everywhere :
      (id : String) (change : CaseEntry → CaseEntry) (s : Cases)
      → ((e : CaseEntry) → P id e → P id (change e))
      → Everywhere s
      → Everywhere (update_case id change s)
  unfolding update_case
  update_case-Everywhere id change s keep h = elim (Option-cases (lookup id s)) [
    | inl absent ↦ rw absent h
    | inr (e, found) ↦ rw found (insert-Everywhere id (change e) s (keep e (h.at id e found)) h)
  ]

  pub append_trace_step-Everywhere :
      (id : String) (step : KafkaTraceStep) (now : ℕ) (s : Cases)
      → ((e : CaseEntry)
          → P id e
          → P id (record e { trace_steps = step ∷ e.trace_steps; updated_at = now }))
      → Everywhere s
      → Everywhere (append_trace_step id step now s)
  unfolding append_trace_step
  append_trace_step-Everywhere id step now s keep h = elim (Option-cases (lookup id s)) [
    | inl absent ↦ rw absent h
    | inr (e, found) ↦
        rw found (elim (Bool-cases (any (λ t. str_eq (step_key t) (step_key step)) e.trace_steps)) [
          | inl seen ↦ rw seen h
          | inr new ↦ rw new (insert-Everywhere id _ s (keep e (h.at id e found)) h)
        ])
  ]
