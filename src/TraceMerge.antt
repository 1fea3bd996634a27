-- ===== src/TraceMerge.antt =====
-- Where the steps of a trace from two sources are put together: the workbench's list and its timeline
-- (apps/workbench/src/components/workbench/case-workbench.tsx and reasoning-trace-viewer.tsx), the
-- attestation panel (attestation-trace-panel.tsx), and the effect that persists what arrives live
-- (case-investigation-client.tsx).
pub mod Once
pub mod Persist
mod Tests
use Prim.Native.Char.{code}
use Prim.Native.String.{◌++◌ as text_append}
use attest.Prelude.{
  ℕ, zero, suc, ◌+◌, String, Option, none, some, List, [], ◌∷◌, ◌++◌, map, Bool, true, false, not,
  ◌||◌, any, filter, length, str_eq, if◌then◌else◌,
}
use attest.Prelude.Dedup.{dedup, member}
use attest.Prelude.Text.{decimal}
use attest.CaseStore.{KafkaTraceStep, step_key}
use attest.TraceRoute.{HttpTraceStep}
use attest.Alerts.{spaced}

-- A step of the endpoint has no time.
unfoldable pub http_trace_to_kafka_step : String → HttpTraceStep → KafkaTraceStep
http_trace_to_kafka_step case_id s = record {
  case_id = case_id;
  tenant_id = "default";
  agent_action_id = s.agent_action_id;
  agent_id = s.agent_id;
  execution_path = s.execution_path;
  step_kind = s.kind;
  summary = s.verdict;
  ts = 0;
}

-- `${agent_action_id}:${step_kind}:${ts}:${summary}`
unfoldable pub merge_key : KafkaTraceStep → String
merge_key s = text_append s.agent_action_id (
    text_append ":" (
      text_append s.step_kind
        (text_append ":" (text_append (decimal s.ts) (text_append ":" s.summary)))))

unfoldable pub merge_trace_steps :
    String → List KafkaTraceStep → List HttpTraceStep → List KafkaTraceStep
merge_trace_steps case_id live_steps http_steps =
    dedup merge_key [] (live_steps ++ map (http_trace_to_kafka_step case_id) http_steps)

-- A row of the timeline.
pub record Row : Type 0 where
  pub key : String
  pub kind : String
  pub summary : String
  pub agent_id : String
  pub execution_path : String
  pub agent_action_id : String
  pub expandable : Bool

abbrev pub is_expandable : String → Bool
is_expandable kind = str_eq kind "tool_call" || str_eq kind "intermediate_belief"

unfoldable pub live_row : KafkaTraceStep → Row
live_row s = record {
  key = text_append "live-" (
      text_append s.agent_action_id
        (text_append "-" (text_append s.step_kind (text_append "-" (decimal s.ts)))));
  kind = s.step_kind;
  summary = s.summary;
  agent_id = s.agent_id;
  execution_path = s.execution_path;
  agent_action_id = s.agent_action_id;
  expandable = is_expandable s.step_kind;
}

unfoldable pub http_row : ℕ → HttpTraceStep → Row
http_row index s = record {
  key = text_append "http-" (
      text_append s.agent_action_id
        (text_append "-" (text_append s.kind (text_append "-" (decimal index)))));
  kind = s.kind;
  summary = s.verdict;
  agent_id = s.agent_id;
  execution_path = s.execution_path;
  agent_action_id = s.agent_action_id;
  expandable = is_expandable s.kind;
}

abbrev pub is_classifier : String → Bool
is_classifier kind = str_eq kind "classifier_complete"

abbrev pub http_rows_from : ℕ → List HttpTraceStep → List Row
http_rows_from index [] = []
http_rows_from index (s ∷ rest) = http_row index s ∷ http_rows_from (index + 1) rest

abbrev pub live_rows : List KafkaTraceStep → List Row
live_rows steps = map live_row (filter (λ s. not (is_classifier s.step_kind)) steps)

abbrev pub http_rows : List HttpTraceStep → List Row
http_rows steps = http_rows_from 0 (filter (λ s. not (is_classifier s.kind)) steps)

-- `${agent_action_id}:${kind}:${summary}`
unfoldable pub fingerprint : Row → String
fingerprint r =
    text_append r.agent_action_id (text_append ":" (text_append r.kind (text_append ":" r.summary)))

unfoldable pub timeline_rows : List HttpTraceStep → List KafkaTraceStep → List Row
timeline_rows http_steps live_steps =
    dedup fingerprint [] (http_rows http_steps ++ live_rows live_steps)

abbrev pub is_terminal : String → Bool
is_terminal kind =
    str_eq kind "final_verdict" || str_eq kind "envelope" || str_eq kind "triage_complete"

-- Whether each row has its tick: every one but the last, and the last if it ends the trace.
unfoldable pub ticks : List Row → List Bool
ticks [] = []
ticks (r ∷ []) = is_terminal r.kind ∷ []
ticks (r ∷ s ∷ rest) = true ∷ ticks (s ∷ rest)

unfoldable pub pretty_kind : String → String
pretty_kind kind =
    if str_eq kind "intermediate_belief"
    then "Reasoning"
    else (if str_eq kind "tool_call"
        then "Tool call"
        else (if str_eq kind "final_verdict"
            then "Final verdict"
            else (if str_eq kind "envelope"
                then "Signed envelope"
                else (if str_eq kind "triage_complete"
                    then "Triage complete"
                    else (if str_eq kind "classifier_complete"
                        then "Classifier complete"
                        else spaced kind)))))

-- A row of the attestation panel.
pub record PanelRow : Type 0 where
  pub id : String
  pub kind : String
  pub summary : String
  pub agent_id : String
  pub execution_path : String
  pub tool_call_count : ℕ
  pub belief_count : ℕ
  pub agent_action_id : String

unfoldable pub kafka_to_display : KafkaTraceStep → HttpTraceStep
kafka_to_display s = record {
  kind = s.step_kind;
  agent_action_id = s.agent_action_id;
  agent_id = s.agent_id;
  execution_path = s.execution_path;
  verdict = s.summary;
  tool_call_count = 0;
  belief_count = 0;
}

unfoldable pub to_trace_row : HttpTraceStep → ℕ → PanelRow
to_trace_row s index = record {
  id =
      text_append s.agent_action_id
        (text_append "-" (text_append s.kind (text_append "-" (decimal index))));
  kind = s.kind;
  summary = s.verdict;
  agent_id = s.agent_id;
  execution_path = s.execution_path;
  tool_call_count = s.tool_call_count;
  belief_count = s.belief_count;
  agent_action_id = s.agent_action_id;
}

-- `${agent_action_id}-${kind}`
unfoldable pub panel_key : HttpTraceStep → String
panel_key s = text_append s.agent_action_id (text_append "-" s.kind)

unfoldable pub panel_steps : List KafkaTraceStep → List HttpTraceStep → List HttpTraceStep
unfolding kafka_to_display
panel_steps live_steps http = dedup panel_key [] (map kafka_to_display live_steps ++ http)

abbrev pub trace_rows_from : ℕ → List HttpTraceStep → List PanelRow
trace_rows_from index [] = []
trace_rows_from index (s ∷ rest) = to_trace_row s index ∷ trace_rows_from (index + 1) rest

unfoldable pub panel_rows : List KafkaTraceStep → List HttpTraceStep → List PanelRow
unfolding panel_steps
panel_rows live_steps http = trace_rows_from 0 (panel_steps live_steps http)

-- The effect on a change of the live steps: the steps that are posted, and the keys that are known
-- afterwards, the latest first.
unfoldable pub fresh_steps : List String → List KafkaTraceStep → List KafkaTraceStep × List String
fresh_steps known [] = ([], known)
fresh_steps known (s ∷ rest) =
    let seen = member (step_key s) known in
    let later = fresh_steps (if seen then known else step_key s ∷ known) rest in
    (if seen then later.0 else s ∷ later.0, later.1)

-- `if (fresh.length === 0) return`
abbrev pub if_any : List KafkaTraceStep → List (List KafkaTraceStep) → List (List KafkaTraceStep)
if_any [] rest = rest
if_any (s ∷ more) rest = (s ∷ more) ∷ rest

-- The posts of a page whose live steps change so: a post for each change that brings something new.
unfoldable pub posts : List String → List (List KafkaTraceStep) → List (List KafkaTraceStep)
unfolding fresh_steps
posts known [] = []
posts known (live_steps ∷ changes) =
    let found = fresh_steps known live_steps in
    let later = posts found.1 changes in if_any found.0 later
