-- ===== src/CaseStore/Tests.antt =====
-- Runs of the case store, and its theorems at concrete inputs.
use attest.Prelude.{
  ℕ, zero, suc, ◌+◌, ◌≤◌, String, ◌≡◌, ◌≢◌, refl, none, some, List, [], ◌∷◌, false, length, eq_iff,
  arith,
}
use attest.Prelude.Dict.{lookup, insert, remove}
use attest.Prelude.Text.{decimal}
use attest.Prelude.Number.{thousandths}
use attest.CaseStore.{
  CaseEntry, Cases, KafkaTraceStep, OcsfEvent, TriageVerdict, Write, complete, override, max_cases,
  refreshed, set_override, set_verdict, start_triage, init_case, run, write, step_key,
  append_trace_step, evict_if_needed,
}
use attest.CaseStore.Capacity.{Replaces, run-capacity, init_case-Replaces}
use attest.CaseStore.Lifecycle.{IsConsistent, run-IsConsistent}

program : Unit {0}
unfolding write run lookup insert remove init_case refreshed evict_if_needed step_key
    append_trace_step decimal set_override set_verdict start_triage
program = tt

abbrev event : String → OcsfEvent
event id = record {
  event_id = id;
  class_uid = none;
  time = none;
  tenant_id = none;
  actor_user_name = none;
  actor_user_uid = none;
  cloud_region = none;
  cloud_account_uid = none;
  severity = some "high";
  auth_status = none;
  api_operation = none;
  api_service = none;
}

abbrev benign : TriageVerdict
benign = record {
  action_id = "a1";
  case_id = "c1";
  verdict = "benign";
  execution_path = "classifier";
  calibrated_confidence = thousandths 970;
  novelty_score = thousandths 100;
  escalated = false;
  escalation_reason = none;
  latency_ms = thousandths 3000;
  classifier_evidence = none;
}

abbrev trace_step : String → ℕ → KafkaTraceStep
trace_step kind ts = record {
  case_id = "c1";
  tenant_id = "t1";
  agent_action_id = "a1";
  agent_id = "triager";
  execution_path = "classifier";
  step_kind = kind;
  summary = kind;
  ts = ts;
}

abbrev session : List (Write × ℕ)
session =
    (Write.init "c1" (event "c1") none, 1)
    ∷ (Write.start "c1", 2)
    ∷ (Write.append "c1" (trace_step "envelope" 1), 3)
    ∷ (Write.append "c1" (trace_step "envelope" 1), 4)
    ∷ (Write.verdict "c1" benign, 5)
    ∷ (Write.overrule "c1" "false_positive", 6)
    ∷ []

abbrev after_session : CaseEntry
after_session = record {
  event = event "c1";
  baseline = none;
  verdict = some benign;
  triage_status = complete;
  triage_started_at = some 2;
  triage_error = none;
  trace_steps = trace_step "envelope" 1 ∷ [];
  disposition = override;
  override_label = some "false_positive";
  updated_at = 6;
}

session_runs : run session [] ≡ ("c1", after_session) ∷ []
unfolding program
session_runs = refl

found_session : lookup "c1" (run session []) ≡ some after_session
unfolding program
found_session = refl

run-capacity_example : length (run session []) ≤ max_cases
run-capacity_example = run-capacity session [] (omega arith)

run-IsConsistent_example : IsConsistent after_session
run-IsConsistent_example = run-IsConsistent session "c1" found_session

-- `n` entries, the last of them the oldest.
abbrev crowd : ℕ → Cases
crowd zero = []
crowd (suc n) = (decimal n, refreshed none (event "e") none (n + 1)) ∷ crowd n

abbrev full : Cases
full = crowd 50

full_absent : lookup "new" full ≡ none
unfolding program
full_absent = refl

oldest_gone :
    (lookup "0" (init_case "new" (event "new") none 99 full) ≡ none)
    × (lookup "1" (init_case "new" (event "new") none 99 full) ≡ lookup "1" full)
unfolding program
oldest_gone = (refl, refl)

init_case-Replaces_example :
    Replaces "new" (event "new") none 99 full (init_case "new" (event "new") none 99 full)
init_case-Replaces_example =
    init_case-Replaces "new" (event "new") none 99 full full_absent (omega arith)

abbrev one_case : Cases
one_case = ("c1", after_session) ∷ []

one_found : lookup "c1" one_case ≡ some after_session
unfolding lookup
one_found = refl

not_c2 : ◌≢◌ {A = String} "c1" "c2"
not_c2 = ground (arith, eq_iff "c1" "c2")

c2_absent : lookup "c2" one_case ≡ none
unfolding lookup
c2_absent = refl
