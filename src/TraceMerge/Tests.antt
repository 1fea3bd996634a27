-- ===== src/TraceMerge/Tests.antt =====
-- The lists on sample steps.
use attest.Prelude.{ℕ, String, ◌≡◌, refl, List, [], ◌∷◌, true, length}
use attest.Prelude.Dedup.{dedup}
use attest.Prelude.Text.{decimal}
use attest.CaseStore.{KafkaTraceStep}
use attest.TraceRoute.{HttpTraceStep}
use attest.TraceMerge.{
  http_trace_to_kafka_step, merge_key, merge_trace_steps, timeline_rows, fingerprint, live_row,
  http_row, ticks, panel_key, panel_steps, kafka_to_display, posts,
}
use attest.TraceMerge.Persist.{IsPostedOnce, posts-IsPostedOnce}

abbrev live : String → ℕ → KafkaTraceStep
live kind ts = record {
  case_id = "c";
  tenant_id = "default";
  agent_action_id = "a";
  agent_id = "investigator";
  execution_path = "llm";
  step_kind = kind;
  summary = "s";
  ts = ts;
}

abbrev stored : String → HttpTraceStep
stored kind = record {
  kind = kind;
  agent_action_id = "a";
  agent_id = "investigator";
  execution_path = "llm";
  verdict = "s";
  tool_call_count = 1;
  belief_count = 0;
}

-- A live step and its persisted copy, which has no time, both stay in the workbench's list.
shown_twice : length (merge_trace_steps "c" (live "tool_call" 7 ∷ []) (stored "tool_call" ∷ [])) ≡ 2
unfolding merge_trace_steps dedup merge_key http_trace_to_kafka_step decimal
shown_twice = refl

-- The timeline shows them once.
shown_once : length (timeline_rows (stored "tool_call" ∷ []) (live "tool_call" 7 ∷ [])) ≡ 1
unfolding timeline_rows dedup fingerprint live_row http_row
shown_once = refl

-- Two tool calls of one action are one row of the panel.
one_row : length (panel_steps (live "tool_call" 7 ∷ live "tool_call" 8 ∷ []) []) ≡ 1
unfolding panel_steps dedup panel_key kafka_to_display
one_row = refl

last_tick :
    ticks (live_row (live "tool_call" 7) ∷ live_row (live "envelope" 8) ∷ []) ≡ true ∷ true ∷ []
unfolding ticks live_row
last_tick = refl

abbrev changes : List (List KafkaTraceStep)
changes = [] ∷ (live "tool_call" 7 ∷ []) ∷ (live "tool_call" 8 ∷ live "tool_call" 7 ∷ []) ∷ []

posts-IsPostedOnce_example : IsPostedOnce changes (posts [] changes)
posts-IsPostedOnce_example = posts-IsPostedOnce changes
