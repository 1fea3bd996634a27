-- ===== src/TraceProgress/Pipeline.antt =====
-- The four stages of the pipeline.
use attest.Prelude.{ℕ, ◌≤◌, ◌≡◌, none, some, List, ◌∷◌, Bool, true, filter, if◌then◌else◌, arith}
use attest.CaseStore.{KafkaTraceStep}
use attest.TraceProgress.{PipelineState, is_llm, not_empty, pipeline_of, pipeline_state}

pub record IsAhead (before after : PipelineState) : Type 0 where
  pub active : before.active_step ≤ after.active_step
  pub second : before.step2_done ≡ true → after.step2_done ≡ true
  pub third : before.step3_done ≡ true → after.step3_done ≡ true
  pub fourth : before.step4_done ≡ true → after.step4_done ≡ true

pipeline_of-IsAhead :
    (a b c a' b' c' : Bool)
    → (a ≡ true → a' ≡ true)
    → (b ≡ true → b' ≡ true)
    → (c ≡ true → c' ≡ true)
    → (c ≡ true → b ≡ true)
    → IsAhead (pipeline_of a b c) (pipeline_of a' b' c')
pipeline_of-IsAhead a b c a' b' c' f g h k = ground arith

not_empty-filter :
    (p : KafkaTraceStep → Bool) (step : KafkaTraceStep) (steps : List KafkaTraceStep)
    → not_empty (filter p steps) ≡ true
    → not_empty (filter p (step ∷ steps)) ≡ true
not_empty-filter p step steps h = ground arith

-- One more step, and any more time, never moves the pipeline back: the active stage does not go down
-- and no stage that was done is undone.
pub pipeline_state-IsAhead :
    (steps : List KafkaTraceStep) (step : KafkaTraceStep) (elapsed later : ℕ)
    → elapsed ≤ later
    → IsAhead (pipeline_state steps elapsed) (pipeline_state (step ∷ steps) later)
unfolding pipeline_state
pipeline_state-IsAhead steps step elapsed later h =
    pipeline_of-IsAhead _ _ _ _ _ _ (λ p. ground (arith, not_empty-filter is_llm step steps))
      (λ p. ground arith) (λ p. ground arith) (λ p. ground arith)

-- The pipeline shows that nothing loads exactly when the envelope has come, and otherwise the active
-- stage loads, which is one of the second to the fourth.
pub record IsShown (s : PipelineState) : Type 0 where
  pub low : 2 ≤ s.active_step
  pub high : s.active_step ≤ 4
  pub loading : s.loading_step ≡ (if s.step4_done then none else some s.active_step)

pub pipeline_state-IsShown :
    (steps : List KafkaTraceStep) (elapsed : ℕ) → IsShown (pipeline_state steps elapsed)
unfolding pipeline_state
pipeline_state-IsShown steps elapsed = ground arith
