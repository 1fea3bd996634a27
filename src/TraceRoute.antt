-- ===== src/TraceRoute.antt =====
-- The trace endpoint of a case (apps/workbench/src/app/api/cases/[caseId]/trace/route.ts) over the
-- repository's two tables. `String(value)`, `Number(value)` and the engine's reading of dates are
-- parameters.
pub mod Rows
pub mod Persisted
mod Tests
use Prim.Native.String.{◌++◌ as text_append}
use attest.Prelude.{
  ℕ, String, Option, none, some, List, [], ◌∷◌, map, Bool, true, false, ◌&&◌, not, length, ◌==◌,
  str_eq, if◌then◌else◌,
}
use attest.Prelude.Dict.{lookup}
use attest.Prelude.Text.{is_empty}
use attest.Prelude.Number.{Number, thousandths, to_fixed}
use attest.Prelude.Json.{Json, null, bool, num, str, arr, obj, fields, truthy}
use attest.CaseRepository.{CaseRow, CaseTable, get_case}
use attest.CaseRepository.Traces.{
  Timestamp, number, text, date, CaseTraceStepInput, TraceRow, TraceTable, append_trace_steps,
  list_trace_steps,
}

-- A step of the body; a field that is missing or null is `none`.
pub record RawStep : Type 0 where
  pub agent_action_id : Option String
  pub agent_id : Option String
  pub execution_path : Option String
  pub step_kind : Option String
  pub summary : Option String
  pub ts : Option Timestamp

pub record HttpTraceStep : Type 0 where
  pub kind : String
  pub agent_action_id : String
  pub agent_id : String
  pub execution_path : String
  pub verdict : String
  pub tool_call_count : ℕ
  pub belief_count : ℕ

pub data GetReply : Type 0 where
  steps : List HttpTraceStep → GetReply
  failed : String → GetReply

-- `{ ok: true, inserted }`, or an exception that leaves the handler.
pub data PostReply : Type 0 where
  inserted : ℕ → PostReply
  crashed : PostReply

abbrev one_if : Bool → ℕ
one_if true = 1
one_if false = 0

abbrev pub http_step : TraceRow → HttpTraceStep
http_step row = record {
  kind = row.step_kind;
  agent_action_id = row.agent_action_id;
  agent_id = row.agent_id;
  execution_path = row.execution_path;
  verdict = row.summary;
  tool_call_count = one_if (str_eq row.step_kind "tool_call");
  belief_count = one_if (str_eq row.step_kind "intermediate_belief");
}

-- `value ?? default` for a field of a JSON value.
abbrev or_default : Option Json → Json → Json
or_default none default = default
or_default (some null) default = default
or_default (some v) default = v

abbrev field_of : Json → String → Option Json
field_of (obj members) key = lookup key (fields members)
field_of _ key = none

abbrev pub given {ℓ} : {A : Type ℓ} → A → Option A → A
given default none = default
given default (some a) = a

abbrev pub truthy_time : Timestamp → Bool
truthy_time (number n) = not (n == 0)
truthy_time (text s) = not (is_empty s)
truthy_time (date t) = true

abbrev pub full_step : String → RawStep → String → String → Timestamp → Option CaseTraceStepInput
full_step case_id s action kind ts =
    if not (is_empty action) && not (is_empty kind) && truthy_time ts
    then some (record {
      case_id = case_id;
      agent_action_id = action;
      agent_id = given "unknown" s.agent_id;
      execution_path = given "unknown" s.execution_path;
      step_kind = kind;
      summary = given "" s.summary;
      ts = ts;
    })
    else none

abbrev pub with_fields :
    String → RawStep → Option String → Option String → Option Timestamp → Option CaseTraceStepInput
with_fields case_id s (some action) (some kind) (some ts) = full_step case_id s action kind ts
with_fields case_id s none kind ts = none
with_fields case_id s (some action) none ts = none
with_fields case_id s (some action) (some kind) none = none

-- The filter and the defaults for one step.
unfoldable pub step_input : String → RawStep → Option CaseTraceStepInput
step_input case_id s = with_fields case_id s s.agent_action_id s.step_kind s.ts

abbrev pub cons_some : Option CaseTraceStepInput → List CaseTraceStepInput → List CaseTraceStepInput
cons_some none rest = rest
cons_some (some a) rest = a ∷ rest

unfoldable pub step_inputs : String → List RawStep → List CaseTraceStepInput
unfolding step_input
step_inputs case_id [] = []
step_inputs case_id (s ∷ rest) = cons_some (step_input case_id s) (step_inputs case_id rest)

module _ (cases : CaseTable) (traces : TraceTable) (text_of : Json → String)
    (number_of : Json → Number) where
  open traces use {Table}

  -- The one step that stands for a verdict whose trace is gone.
  unfoldable pub verdict_step : Json → HttpTraceStep
  verdict_step v =
      let field_text : String → String =
        λ key. text_of (or_default (field_of v key) (str "unknown")) in
      record {
        kind = "triage_complete";
        agent_action_id = field_text "action_id";
        agent_id = "triager-hybrid-v1";
        execution_path = field_text "execution_path";
        verdict = text_append (field_text "verdict") (
            text_append " · novelty " (
              text_append
                (to_fixed 3
                  (number_of (or_default (field_of v "novelty_score") (num (thousandths 0)))))
                (text_append " · latency " (text_append (field_text "latency_ms") "ms"))));
        tool_call_count = 0;
        belief_count = 0;
      }

  abbrev verdict_steps : Option CaseRow → List HttpTraceStep
  verdict_steps none = []
  verdict_steps (some row) = of_verdict row.verdict
    where
      of_verdict : Option Json → List HttpTraceStep
      of_verdict none = []
      of_verdict (some v) = if truthy v then verdict_step v ∷ [] else []

  abbrev or_verdict : List TraceRow → Option CaseRow → List HttpTraceStep
  or_verdict [] row = verdict_steps row
  or_verdict (r ∷ rows) row = map http_step (r ∷ rows)

  -- `GET`, where the database answers or fails with the text of an error.
  unfoldable pub trace_get : Option String → String → cases.Table → Table → GetReply
  unfolding verdict_step
  trace_get (some message) case_id case_rows t = failed message
  trace_get none case_id case_rows t =
      steps (or_verdict (list_trace_steps traces case_id t) (get_case cases case_id case_rows))

module _ (traces : TraceTable) (date_of_text : String → Option ℕ) where
  open traces use {Table}

  abbrev post_reply : ℕ → Table → Option Table → PostReply × Table
  post_reply n t none = (crashed, t)
  post_reply n t (some after) = (inserted n, after)

  -- `POST` with the steps of the body, which are none where it has none or cannot be read.
  unfoldable pub trace_post : String → Option (List RawStep) → ℕ → Table → PostReply × Table
  unfolding step_inputs
  trace_post case_id body now t =
      let inputs = step_inputs case_id (given [] body) in
      post_reply (length inputs) t (append_trace_steps date_of_text traces case_id inputs now t)
