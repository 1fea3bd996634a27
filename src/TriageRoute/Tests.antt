-- ===== src/TriageRoute/Tests.antt =====
-- The triage route over a table in memory, at concrete inputs.
use attest.Prelude.{ℕ, String, ◌≡◌, refl, none, some, List, [], ◌∷◌, true, All}
use attest.Prelude.Dict.{lookup, insert, remove}
use attest.Prelude.Text.{includes, lower}
use attest.Prelude.Number.{max_number}
use attest.Prelude.Json.{Json, bool, str, obj, field, end, truthy, spread}
use attest.Prelude.ParseFloat.{parse_or}
use attest.CaseRepository.{get_case, upsert_case_snapshot, mark_triage_running, mark_triage_failed}
use attest.CaseRepository.Memory.{memory}
use attest.TriageFeatures.{
  unavailable, regions, set_features, baseline_query, defaults_for, operation_defaults,
  set_defaults, has_numeric_feature, apply_operation_feature_defaults,
}
use attest.TriageRoute.{
  World, Process, Event, arrive, answer, db_ok, upstream, broken, responded, error_body,
  open_request, upstream_result, after_run, advance, step, run,
}
use attest.TriageRoute.InFlight.{IsDone, Owner, run-AllOwned, in_flight_empty}
use attest.TriageRoute.Race.{alert_body, overlapping, overlapping-calls}

abbrev plain_text : Json → String
plain_text (str s) = s
plain_text _ = ""

abbrev idle_world : World memory plain_text
idle_world = record { table = []; cache = []; in_flight = []; settled = λ _. none; calls = [] }

abbrev idle_process : Process memory plain_text
idle_process = record { world = idle_world; requests = [] }

program : Unit {0}
unfolding lookup insert remove includes lower truthy spread max_number parse_or get_case
    upsert_case_snapshot mark_triage_running mark_triage_failed set_features baseline_query
    defaults_for operation_defaults set_defaults has_numeric_feature
    apply_operation_feature_defaults open_request upstream_result after_run advance step run
program = tt

abbrev alert : Json
alert = obj (field "api_operation" (str "ConsoleLogin") end)

no_row : get_case memory "c1" [] ≡ none
unfolding program
no_row = refl

no_result : lookup {V = Json} "c1" [] ≡ none
unfolding program
no_result = refl

no_run : lookup {V = ℕ} "c1" [] ≡ none
unfolding program
no_run = refl

no_runs : (j : String) → lookup {V = ℕ} j [] ≡ none
unfolding program
no_runs j = refl

an_alert : truthy alert ≡ true
unfolding program
an_alert = refl

-- An alert whose baseline is asked for.
abbrev located : Json
located = obj (field "actor_user_name" (str "alice") (field "cloud_region" (str "eu-west-1") end))

located_alert : truthy located ≡ true
unfolding truthy
located_alert = refl

overlapping-calls_example :
    (run memory plain_text
      (overlapping memory plain_text "c1" alert located unavailable (regions none) 5)
      idle_process).world.calls
    ≡ "c1" ∷ "c1" ∷ []
overlapping-calls_example =
    overlapping-calls memory plain_text "c1" alert located unavailable (regions none) 5 idle_world
      an_alert located_alert no_row no_result no_run

-- A run that the orchestrator breaks off.
abbrev broken_run : List (Event memory plain_text)
broken_run =
    arrive "c1" (alert_body alert)
    ∷ answer 0 db_ok 1
    ∷ answer 0 db_ok 2
    ∷ answer 0 db_ok 3
    ∷ answer 0 (upstream (broken "socket hang up")) 4
    ∷ answer 0 db_ok 5
    ∷ []

broken_run_ends : All IsDone (run memory plain_text broken_run idle_process).requests
unfolding program
broken_run_ends = ((responded 502 (error_body "socket hang up"), refl), tt)

in_flight_empty_example :
    lookup "c1" (run memory plain_text broken_run idle_process).world.in_flight ≡ none
in_flight_empty_example =
    in_flight_empty memory plain_text broken_run idle_process no_runs broken_run_ends "c1"

abbrev half_run : List (Event memory plain_text)
half_run = arrive "c1" (alert_body alert) ∷ answer 0 db_ok 1 ∷ answer 0 db_ok 2 ∷ []

registered : lookup "c1" (run memory plain_text half_run idle_process).world.in_flight ≡ some 0
unfolding program
registered = refl

run-AllOwned_example :
    Owner memory plain_text "c1" 0 (run memory plain_text half_run idle_process).requests
run-AllOwned_example =
    run-AllOwned memory plain_text half_run idle_process no_runs "c1" 0 registered

abbrev cached_process : Process memory plain_text
cached_process = record {
  world = record idle_world { cache = ("c1", bool true) ∷ []; calls = "c1" ∷ [] };
  requests = [];
}
