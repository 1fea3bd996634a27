-- ===== src/TraceProgress.antt =====
-- How far a triage has come, read off its trace steps (apps/workbench/src/components/workbench/
-- investigator-trace-stepper.tsx): the three stages of an investigation, the four of the whole
-- pipeline, and the elapsed time.
pub mod Stages
pub mod Pipeline
mod Tests
use Prim.Native.String.{◌++◌ as text_append}
use attest.Prelude.{
  ℕ, ◌-◌, ◌/◌, ◌*◌, min, String, Option, none, some, List, [], ◌∷◌, Bool, true, false, ◌||◌, any,
  filter, leb, ltb, ◌==◌, str_eq, if◌then◌else◌,
}
use attest.Prelude.Text.{codes, codes_eq, lower, decimal}
use attest.Prelude.Number.{Number, finite, pos, to_fixed}
use attest.CaseStore.{KafkaTraceStep}

-- `phaseOf`
unfoldable pub phase_of : String → ℕ
phase_of kind =
    if str_eq kind "intermediate_belief"
    then 1
    else if str_eq kind "tool_call"
    then 2
    else if str_eq kind "final_verdict" || str_eq kind "envelope" || str_eq kind "triage_complete"
    then 3
    else 0

-- `sort((a, b) => a.ts - b.ts)`, which is stable.
insert_by_ts : KafkaTraceStep → List KafkaTraceStep → List KafkaTraceStep
insert_by_ts step [] = step ∷ []
insert_by_ts step (next ∷ rest) =
    let later = insert_by_ts step rest in
    if leb step.ts next.ts then step ∷ next ∷ rest else next ∷ later

unfoldable pub sort_by_ts : List KafkaTraceStep → List KafkaTraceStep
unfolding insert_by_ts
sort_by_ts [] = []
sort_by_ts (step ∷ rest) = insert_by_ts step (sort_by_ts rest)

-- `loading_step` is `none` where nothing loads.
pub record StepState : Type 0 where
  pub active_step : ℕ
  pub loading_step : Option ℕ
  pub step1_done : Bool
  pub step2_done : Bool
  pub step3_done : Bool

abbrev pub has_phase2 : List KafkaTraceStep → Bool
has_phase2 = any (λ s. leb 2 (phase_of s.step_kind))

abbrev pub has_verdict : List KafkaTraceStep → Bool
has_verdict = any λ s.
    str_eq s.step_kind "final_verdict"
    || str_eq s.step_kind "envelope"
    || str_eq s.step_kind "triage_complete"

abbrev pub has_envelope : List KafkaTraceStep → Bool
has_envelope = any λ s. str_eq s.step_kind "envelope" || str_eq s.step_kind "triage_complete"

abbrev last_kind : String → List KafkaTraceStep → String
last_kind kind [] = kind
last_kind kind (step ∷ rest) = last_kind step.step_kind rest

abbrev or_one : ℕ → ℕ
or_one n = if n == 0 then 1 else n

abbrev at_least_one : ℕ → ℕ
at_least_one n = if leb n 1 then 1 else n

-- The active and the loading step, by the kind of the last step.
abbrev position : Bool → String → ℕ × Option ℕ
position done kind =
    if done
    then (3, none)
    else if str_eq kind "final_verdict"
    then (3, some 3)
    else if str_eq kind "tool_call"
    then (2, some 2)
    else if str_eq kind "intermediate_belief"
    then (1, some 1)
    else let active = min 3 (at_least_one (or_one (phase_of kind))) in (active, some active)

abbrev of_sorted : List KafkaTraceStep → StepState
of_sorted sorted =
    let (active, loading) = position (has_envelope sorted) (last_kind "" sorted) in
    record {
      active_step = active;
      loading_step = loading;
      step1_done = has_phase2 sorted;
      step2_done = has_verdict sorted;
      step3_done = has_envelope sorted;
    }

unfoldable pub derive_step_state : List KafkaTraceStep → StepState
unfolding phase_of
derive_step_state [] = record {
  active_step = 1;
  loading_step = some 1;
  step1_done = false;
  step2_done = false;
  step3_done = false;
}
derive_step_state (step ∷ rest) = of_sorted (sort_by_ts (step ∷ rest))

-- The state of `TriagePipelineStepper`; its first step is always done.
pub record PipelineState : Type 0 where
  pub active_step : ℕ
  pub loading_step : Option ℕ
  pub step2_done : Bool
  pub step3_done : Bool
  pub step4_done : Bool

abbrev pub is_llm : KafkaTraceStep → Bool
is_llm s =
    codes_eq (lower s.execution_path) (codes "llm")
    || codes_eq (lower s.execution_path) (codes "hybrid")

abbrev pub has_final : List KafkaTraceStep → Bool
has_final = any λ s. str_eq s.step_kind "final_verdict" || str_eq s.step_kind "triage_complete"

abbrev pub has_classifier : List KafkaTraceStep → Bool
has_classifier = any λ s. str_eq s.step_kind "classifier_complete"

abbrev not_empty : List KafkaTraceStep → Bool
not_empty [] = false
not_empty (step ∷ rest) = true

abbrev active_of : Bool → Bool → Bool → ℕ
active_of done4 done3 done2 = if done4 then 4 else if done3 then 4 else if done2 then 3 else 2

abbrev loading_of : Bool → Bool → Bool → Option ℕ
loading_of done4 done3 done2 =
    if done4 then none else if done3 then some 4 else if done2 then some 3 else some 2

abbrev pipeline_of : Bool → Bool → Bool → PipelineState
pipeline_of done2 done3 done4 = record {
  active_step = active_of done4 done3 done2;
  loading_step = loading_of done4 done3 done2;
  step2_done = done2;
  step3_done = done3;
  step4_done = done4;
}

-- From the live steps and the milliseconds since the start.
unfoldable pub pipeline_state : List KafkaTraceStep → ℕ → PipelineState
pipeline_state live_steps elapsed =
    let llm_steps = filter is_llm live_steps in
    let envelope = has_envelope live_steps in
    pipeline_of (not_empty llm_steps || envelope || has_classifier live_steps || ltb 5000 elapsed)
      (envelope || has_final live_steps) envelope

-- `now` is null before the first tick.
unfoldable pub elapsed_since : Option ℕ → ℕ → ℕ
elapsed_since none started_at = 0
elapsed_since (some now) started_at = now - started_at

unfoldable pub format_elapsed : ℕ → String
format_elapsed ms =
    if ltb ms 1000
    then text_append (decimal ms) "ms"
    else text_append (to_fixed 1 (finite (pos (ms * 1000)))) "s"
