-- ===== src/CaseTraceWs/Tests.antt =====
-- A connection that breaks and comes back.
use attest.Prelude.{◌≡◌, refl, none, some, List, [], ◌∷◌}
use attest.Prelude.Dict.{lookup, insert}
use attest.CaseStore.{
  Cases, KafkaTraceStep, step_key, append_trace_step, select_trace_steps, OcsfEvent, init_case,
  refreshed, evict_if_needed,
}
use attest.Prelude.Text.{decimal}
use attest.CaseTraceWs.{
  Event, token, opened, message, closed, timeout, unmount, step_of, body, receive, on, step, run,
  mounted,
}
use attest.CaseTraceWs.Kept.{IsKept, run-IsKept}

abbrev belief : KafkaTraceStep
belief = record {
  case_id = "c";
  tenant_id = "default";
  agent_action_id = "a";
  agent_id = "investigator";
  execution_path = "llm";
  step_kind = "intermediate_belief";
  summary = "s";
  ts = 7;
}

abbrev broken : List Event
broken =
    token (body (some "t"))
    ∷ opened
    ∷ message (step_of belief) 10
    ∷ closed
    ∷ timeout
    ∷ token (body (some "u"))
    ∷ opened
    ∷ message (step_of belief) 20
    ∷ []

abbrev login : OcsfEvent
login = record {
  event_id = "c";
  class_uid = none;
  time = none;
  tenant_id = none;
  actor_user_name = none;
  actor_user_uid = none;
  cloud_region = none;
  cloud_account_uid = none;
  severity = none;
  auth_status = none;
  api_operation = some "ConsoleLogin";
  api_service = none;
}

abbrev one_case : Cases
one_case = init_case "c" login none 1 []

run-IsKept_example : IsKept "c" one_case (run "c" broken (mounted one_case)).cases
run-IsKept_example = run-IsKept "c" broken (mounted one_case)

-- The step that came twice is in the trace once.
kept_once : select_trace_steps "c" (run "c" broken (mounted one_case)).cases ≡ belief ∷ []
unfolding run step on receive append_trace_step step_key select_trace_steps init_case refreshed
    evict_if_needed lookup insert decimal
kept_once = refl

-- The token arrives after the component is gone, and a socket is opened all the same.
late_socket : (run "c" (unmount ∷ token (body (some "t")) ∷ []) (mounted [])).sockets ≡ 1
unfolding run step on
late_socket = refl
