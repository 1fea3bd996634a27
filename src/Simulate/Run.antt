-- ===== src/Simulate/Run.antt =====
-- One run of a simulation (apps/workbench/src/app/api/simulate/route.ts). The orchestrator is asked
-- whatever the collector did. The payloads of a scenario are not modelled.
use Prim.Native.String.{◌++◌ as text_append}
use attest.Prelude.{
  ℕ, zero, suc, String, Option, none, some, List, [], ◌∷◌, Bool, false, not, ◌||◌, length,
  get_elem?, if◌then◌else◌,
}
use attest.Prelude.Number.{thousandths, to_fixed}
use attest.Prelude.Json.{Json, null, bool, num, str, arr, Items, nil, cons}
use attest.Alerts.Enrich.{field_of, present}
use attest.Prelude.Text.{decimal, is_empty}
use attest.Alerts.Ocsf.{slice}
use attest.DemoRun.{is_scenario}
use attest.Simulate.{
  StageResult, Answer, rejected, refused, answered, error_text, http_error, done, failed,
}

-- What the collector replies, with a status that is `ok` or not; the body is read first, so no answer of
-- the collector is `refused`.
pub record CollectorBody : Type 0 where
  pub is_ok : Bool
  pub status : ℕ
  pub event_ids : Option (List String)
  pub error : Option String

pub record Latencies : Type 0 where
  pub collector : ℕ
  pub orchestrator : ℕ
  pub total : ℕ

pub record SimulateResponse : Type 0 where
  pub event_ids : List String
  pub username : String
  pub action_id : Json
  pub collector : StageResult
  pub orchestrator : StageResult
  pub calibration : StageResult
  pub attestation : StageResult
  pub verdict : Json
  pub execution_path : Json
  pub calibrated_confidence : Json
  pub raw_prediction : Json
  pub novelty_score : Json
  pub escalated : Json
  pub classifier_evidence : Option Json
  pub total_latency_ms : ℕ

pub data Reply : Type 0 where
  unknown_scenario : String → Reply
  simulated : SimulateResponse → Reply

pub data Request : Type 0 where
  ingest triage : Request

abbrev pub given {ℓ} : {A : Type ℓ} → A → Option A → A
given default none = default
given default (some a) = a

abbrev join : List String → String
join [] = ""
join (s ∷ rest) = text_append s (join rest)

-- The ids of the collector, or the text of the exception that is caught.
pub data Collected : Type 0 where
  published : List String → Collected
  thrown : String → Collected

abbrev pub has_error : Option String → Bool
has_error none = false
has_error (some e) = not (is_empty e)

abbrev pub collected : Answer CollectorBody → Collected
collected (rejected message) = thrown message
collected (refused status) = thrown (http_error status)
collected (answered b) =
    if not b.is_ok || has_error b.error
    then thrown (error_text (given (text_append "HTTP " (decimal b.status)) b.error))
    else published (given [] b.event_ids)

unfoldable pub collector_stage : ℕ → Collected → StageResult
collector_stage latency (published ids) = done latency (
    join (
      "Published "
      ∷ decimal (length ids)
      ∷ " OCSF event(s) to Kafka topic 'cloudtrail' (id "
      ∷ first_id (get_elem? ids 0)
      ∷ "…)"
      ∷ []))
  where
    first_id : Option String → String
    first_id none = "?"
    first_id (some id) = slice 8 id
collector_stage latency (thrown message) = failed latency "Collector unreachable" (some message)

abbrev pub ids_of : Collected → List String
ids_of (published ids) = ids
ids_of (thrown message) = []

-- `triageData`: set before its fields are formatted, so it stays where that throws.
abbrev pub triage_data : Answer Json → Option Json
triage_data (answered body) = some body
triage_data _ = none

abbrev skipped : StageResult
skipped = failed 0 "Skipped (orchestrator failed)" none

abbrev first_items : ℕ → Items → Items
first_items zero items = nil
first_items (suc n) nil = nil
first_items (suc n) (cons v rest) = cons v (first_items n rest)

-- The texts of the orchestrator's and the calibration's step, or what is thrown on the way to them.
pub data Formatted : Type 0 where
  written : String → String → Formatted
  broken : String → Formatted

-- `value ?? default`
abbrev pub or_json : Json → Option Json → Json
or_json default v = given default (present v)

-- `(value ?? 0).toFixed(3)`, which only a number has.
abbrev pub fixed : Option Json → Option String
fixed v = fixed_value (or_json (num (thousandths 0)) v)
  where
    fixed_value : Json → Option String
    fixed_value (num n) = some (to_fixed 3 n)
    fixed_value _ = none

abbrev raw_of : Option Json → Option Json
raw_of data' = field_of (field_of data' "classifier_evidence") "raw_prediction"

abbrev calibrated_of : Option Json → Option Json
calibrated_of data' = field_of (field_of data' "classifier_evidence") "calibrated_confidence"

-- The body is a JSON value of any shape. `text_of` is `String(value)`, `type_error` the text of the
-- exception that a body without the fields' types raises.
module _ (text_of : Json → String) (type_error : Json → String) where
  -- A value in a template.
  abbrev template : Option Json → String
  template none = "undefined"
  template (some v) = text_of v

  -- `value?.slice(0, 8)` in a template; texts and arrays have it.
  abbrev pub sliced : Option Json → Option String
  sliced none = some "undefined"
  sliced (some null) = some "undefined"
  sliced (some (str s)) = some (slice 8 s)
  sliced (some (arr items)) = some (text_of (arr (first_items 8 items)))
  sliced (some _) = none

  abbrev pub joined : Json → Option String → Option String → Option String → Formatted
  joined body (some action) (some raw) (some calibrated) =
      written
        (join (
          template (field_of (some body) "execution_path")
          ∷ " path → verdict "
          ∷ template (field_of (some body) "verdict")
          ∷ " (action "
          ∷ action
          ∷ "…)"
          ∷ []))
        (join ("Isotonic regression: raw " ∷ raw ∷ " → calibrated " ∷ calibrated ∷ []))
  joined body _ _ _ = broken (type_error body)

  abbrev formatted_body : Json → Formatted
  formatted_body null = broken (type_error null)
  formatted_body body =
      joined body (sliced (field_of (some body) "action_id")) (fixed (raw_of (some body)))
        (fixed (calibrated_of (some body)))

  unfoldable pub formatted : Answer Json → Formatted
  formatted (rejected message) = broken message
  formatted (refused status) = broken (http_error status)
  formatted (answered body) = formatted_body body

  unfoldable pub orchestrator_stage : ℕ → Formatted → StageResult
  orchestrator_stage latency (written orchestrator calibration) = done latency orchestrator
  orchestrator_stage latency (broken message) =
      failed latency "Orchestrator unreachable" (some message)

  unfoldable pub calibration_stage : Formatted → StageResult
  calibration_stage (written orchestrator calibration) = done 0 calibration
  calibration_stage (broken message) = skipped

  unfoldable pub attestation_stage : Formatted → StageResult
  attestation_stage (written orchestrator calibration) =
      done 0 "Ed25519 envelope signed; appended to attestations.ndjson"
  attestation_stage (broken message) = skipped

  unfoldable pub response_of : String → Collected → Answer Json → Latencies → SimulateResponse
  unfolding collector_stage formatted orchestrator_stage calibration_stage attestation_stage
  response_of username c a t =
      let d = triage_data a in
      record {
        event_ids = ids_of c;
        username = username;
        action_id = or_json (str "") (field_of d "action_id");
        collector = collector_stage t.collector c;
        orchestrator = orchestrator_stage t.orchestrator (formatted a);
        calibration = calibration_stage (formatted a);
        attestation = attestation_stage (formatted a);
        verdict = or_json (str "unknown") (field_of d "verdict");
        execution_path = or_json (str "classifier") (field_of d "execution_path");
        calibrated_confidence = or_json (num (thousandths 0)) (field_of d "calibrated_confidence");
        raw_prediction = or_json (num (thousandths 0)) (raw_of d);
        novelty_score = or_json (num (thousandths 0)) (field_of d "novelty_score");
        escalated = or_json (bool false) (field_of d "escalated");
        classifier_evidence = field_of d "classifier_evidence";
        total_latency_ms = t.total;
      }

  -- `POST` with a scenario, a user and what the services answer; and the requests that went out.
  unfoldable pub simulate_post :
      String → String → Answer CollectorBody → Answer Json → Latencies → Reply × List Request
  unfolding response_of
  simulate_post scenario_id username c a t =
      if is_scenario scenario_id
      then (simulated (response_of username (collected c) a t), ingest ∷ triage ∷ [])
      else (unknown_scenario scenario_id, [])
