-- ===== src/TraceProgress/Tests.antt =====
-- One trace.
use attest.Prelude.{ℕ, String, ◌≡◌, refl, some, List, [], ◌∷◌, true}
use attest.Prelude.Text.{decimal}
use attest.Prelude.Number.{to_fixed}
use attest.CaseStore.{KafkaTraceStep}
use attest.TraceProgress.{phase_of, sort_by_ts, derive_step_state, format_elapsed}

abbrev at : ℕ → String → KafkaTraceStep
at ts kind = record {
  case_id = "c1";
  tenant_id = "default";
  agent_action_id = "a1";
  agent_id = "triager";
  execution_path = "LLM";
  step_kind = kind;
  summary = "";
  ts = ts;
}

abbrev investigation : List KafkaTraceStep
investigation = at 3 "final_verdict" ∷ at 2 "tool_call" ∷ at 1 "intermediate_belief" ∷ []

second_is_over : (derive_step_state investigation).step2_done ≡ true
unfolding derive_step_state sort_by_ts phase_of
second_is_over = refl

verdict_loads : (derive_step_state investigation).loading_step ≡ some 3
unfolding derive_step_state sort_by_ts phase_of
verdict_loads = refl

long_run : format_elapsed 61540 ≡ "61.5s"
unfolding format_elapsed to_fixed decimal
long_run = refl
