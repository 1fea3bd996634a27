-- ===== src/TraceProgress/Stages.antt =====
-- The three stages of an investigation.
use attest.Prelude.{
  ℕ, ◌≤◌, String, ◌≡◌, ◌≢◌, refl, none, some, List, [], ◌∷◌, ◌++◌, Bool, true, false, ◌||◌, any,
  leb, str_eq, eq_iff, Bool-cases, inl, inr, arith,
}
use attest.CaseStore.{KafkaTraceStep}
use attest.TraceProgress.{
  StepState, phase_of, insert_by_ts, sort_by_ts, has_phase2, has_verdict, has_envelope, position,
  last_kind, of_sorted, derive_step_state,
}

any-insert_by_ts :
    (p : KafkaTraceStep → Bool) (step : KafkaTraceStep) (steps : List KafkaTraceStep)
    → any p (insert_by_ts step steps) ≡ any p (step ∷ steps)
unfolding insert_by_ts
any-insert_by_ts p step [] = refl
any-insert_by_ts p step (next ∷ rest) = ground (arith, any-insert_by_ts p step rest)

any-sort_by_ts :
    (p : KafkaTraceStep → Bool) (steps : List KafkaTraceStep)
    → any p (sort_by_ts steps) ≡ any p steps
unfolding sort_by_ts
any-sort_by_ts p [] = refl
any-sort_by_ts p (step ∷ rest) =
    ground (arith, any-insert_by_ts p step (sort_by_ts rest), any-sort_by_ts p rest)

-- A test that is stronger holds of fewer lists.
any-imp :
    (p q : KafkaTraceStep → Bool) (steps : List KafkaTraceStep)
    → ((s : KafkaTraceStep) → p s ≡ true → q s ≡ true)
    → any p steps ≡ true
    → any q steps ≡ true
any-imp p q [] h e = e
any-imp p q (s ∷ rest) h e = elim (Bool-cases (p s)) [
  | inl holds ↦ ground (arith, h s)
  | inr fails ↦ ground (arith, any-imp p q rest h)
]

any-insert :
    (p : KafkaTraceStep → Bool) (before after : List KafkaTraceStep) (step : KafkaTraceStep)
    → any p (before ++ after) ≡ true
    → any p (before ++ step ∷ after) ≡ true
any-insert p [] after step h = ground arith
any-insert p (s ∷ before) after step h = ground (arith, any-insert p before after step)

-- How the flags and the positions of a state hang together.
pub record IsStaged (s : StepState) : Type 0 where
  pub third_after_second : s.step3_done ≡ true → s.step2_done ≡ true
  pub second_after_first : s.step2_done ≡ true → s.step1_done ≡ true
  pub active_low : 1 ≤ s.active_step
  pub active_high : s.active_step ≤ 3
  pub loading_active :
      (n : ℕ) → s.loading_step ≡ some n → (n ≡ s.active_step) × (s.step3_done ≡ false)
  pub still_loading : s.step3_done ≡ false → s.loading_step ≢ none

phase_of_verdict :
    (kind : String)
    → str_eq kind "final_verdict" || str_eq kind "envelope" || str_eq kind "triage_complete" ≡ true
    → leb 2 (phase_of kind) ≡ true
unfolding phase_of
phase_of_verdict kind h = elim (Bool-cases (str_eq kind "final_verdict")) [
  | inl final ↦ rw ((eq_iff kind "final_verdict").0 final) refl
  | inr other ↦ elim (Bool-cases (str_eq kind "envelope")) [
    | inl envelope ↦ rw ((eq_iff kind "envelope").0 envelope) refl
    | inr third ↦ rw ((eq_iff kind "triage_complete").0 (ground arith)) refl
  ]
]

position_range :
    (done : Bool) (kind : String) → (1 ≤ (position done kind).0) × ((position done kind).0 ≤ 3)
unfolding phase_of
position_range done kind = ground arith

position_loading :
    (done : Bool) (kind : String) (n : ℕ)
    → (position done kind).1 ≡ some n
    → (n ≡ (position done kind).0) × (done ≡ false)
unfolding phase_of
position_loading done kind n h = ground arith

position_busy : (kind : String) → (position false kind).1 ≢ none
unfolding phase_of
position_busy kind = ground arith

of_sorted-IsStaged : (sorted : List KafkaTraceStep) → IsStaged (of_sorted sorted)
of_sorted-IsStaged sorted = record {
  third_after_second = any-imp _ _ sorted (λ s h. ground arith);
  second_after_first = any-imp _ _ sorted (λ s h. phase_of_verdict s.step_kind h);
  active_low = (position_range (has_envelope sorted) (last_kind "" sorted)).0;
  active_high = (position_range (has_envelope sorted) (last_kind "" sorted)).1;
  loading_active = position_loading (has_envelope sorted) (last_kind "" sorted);
  still_loading = λ h. rw h (position_busy (last_kind "" sorted));
}

-- Of every trace: a stage is done only if the one before it is, the active stage is one of the three,
-- and as long as the last is not done exactly the active one loads.
pub derive_step_state-IsStaged : (steps : List KafkaTraceStep) → IsStaged (derive_step_state steps)
unfolding derive_step_state
derive_step_state-IsStaged [] = ground arith
derive_step_state-IsStaged (step ∷ rest) = of_sorted-IsStaged (sort_by_ts (step ∷ rest))

-- The flags of a trace do not depend on its order.
record Flags (steps : List KafkaTraceStep) : Type 0 where
  first : (derive_step_state steps).step1_done ≡ has_phase2 steps
  second : (derive_step_state steps).step2_done ≡ has_verdict steps
  third : (derive_step_state steps).step3_done ≡ has_envelope steps

derive_step_state-Flags : (steps : List KafkaTraceStep) → Flags steps
unfolding derive_step_state
derive_step_state-Flags [] = record { first = refl; second = refl; third = refl }
derive_step_state-Flags (step ∷ rest) = record {
  first = any-sort_by_ts _ (step ∷ rest);
  second = any-sort_by_ts _ (step ∷ rest);
  third = any-sort_by_ts _ (step ∷ rest);
}

-- What is done before is done after.
pub record IsFurther (before after : StepState) : Type 0 where
  pub first : before.step1_done ≡ true → after.step1_done ≡ true
  pub second : before.step2_done ≡ true → after.step2_done ≡ true
  pub third : before.step3_done ≡ true → after.step3_done ≡ true

-- One more step, wherever it arrives in the trace and whatever time it carries, never takes a stage
-- back that was done.
pub derive_step_state-IsFurther :
    (before after : List KafkaTraceStep) (step : KafkaTraceStep)
    → IsFurther (derive_step_state (before ++ after)) (derive_step_state (before ++ step ∷ after))
derive_step_state-IsFurther before after step =
    let a = derive_step_state-Flags (before ++ after) in
    let b = derive_step_state-Flags (before ++ step ∷ after) in
    record {
      first = λ h. rw b.first (any-insert _ before after step (rw a.first at h));
      second = λ h. rw b.second (any-insert _ before after step (rw a.second at h));
      third = λ h. rw b.third (any-insert _ before after step (rw a.third at h));
    }
