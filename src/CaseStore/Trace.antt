-- ===== src/CaseStore/Trace.antt =====
-- The live trace of a case: deduplication by the key of a step.
use attest.Prelude.{
  ℕ, String, ◌≡◌, inl, inr, some, List, ◌∷◌, Bool, any, Option-cases, Bool-cases, str_eq, eq_iff,
  eq_refl, if◌then◌else◌, arith,
}
use attest.Prelude.Dict.{lookup, lookup-insert}
use attest.CaseStore.{
  CaseEntry, Cases, KafkaTraceStep, step_key, append_trace_step, select_trace_steps,
}

abbrev pub holds_key : KafkaTraceStep → List KafkaTraceStep → Bool
holds_key step steps = any (λ t. str_eq (step_key t) (step_key step)) steps

-- Appending a step to a case of the store puts it in front exactly when no step of the trace has
-- its key, and otherwise leaves the trace as it is.
pub select_trace_steps-append :
    (id : String) (step : KafkaTraceStep) (now : ℕ) (s : Cases) {e : CaseEntry}
    → lookup id s ≡ some e
    → select_trace_steps id (append_trace_step id step now s) ≡ (
        if holds_key step (select_trace_steps id s)
        then select_trace_steps id s
        else step ∷ select_trace_steps id s)
unfolding append_trace_step select_trace_steps
select_trace_steps-append id step now s {e} found =
    elim (Bool-cases (holds_key step e.trace_steps)) [
      | inl seen ↦ ground arith
      | inr new ↦ ground (
        arith,
        eq_iff id id,
        lookup-insert id id (record e { trace_steps = step ∷ e.trace_steps; updated_at = now }) s,
      )
    ]

-- A step with the key of one that was appended before changes nothing at all, whenever it comes.
pub append_trace_step_twice :
    (id : String) (step again : KafkaTraceStep) (now later : ℕ) (s : Cases)
    → step_key step ≡ step_key again
    → append_trace_step id again later (append_trace_step id step now s)
      ≡ append_trace_step id step now s
unfolding append_trace_step
append_trace_step_twice id step again now later s same = elim (Option-cases (lookup id s)) [
  | inl absent ↦ rw absent (rw absent)
  | inr (e, found) ↦ elim (Bool-cases (holds_key step e.trace_steps)) [
    | inl seen ↦ rw (found, seen) (rw (found, ← same, seen))
    | inr new ↦ rw (found, new) (rw (lookup-insert, eq_refl, ← same, eq_refl))
  ]
]
