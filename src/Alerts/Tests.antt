-- ===== src/Alerts/Tests.antt =====
-- The mappers on the rows of the repository's own tests (apps/workbench/src/lib/alert-mappers.test.ts),
-- and a case that is merged.
use attest.Prelude.{String, ◌≡◌, refl, none, some, [], ◌∷◌, map, true, eq_iff, arith}
use attest.Prelude.Dict.{Dict, lookup}
use attest.Prelude.Number.{Number, thousandths, nan, to_fixed}
use attest.Prelude.Json.{Json, num, str, obj, end, field, truthy}
use attest.Prelude.Text.{lower, decimal}
use attest.AlertsWs.{FiredDetection}
use attest.CaseRepository.{CaseRow, RowStatus, get_case}
use attest.CaseRepository.Memory.{memory}
use attest.Alerts.{Alert, high, spaced, benign}
use attest.Alerts.Detection.{fired_detection_to_alert, to_title_case}
use attest.Alerts.Detection as Fired
use attest.Alerts.Enrich as Enrich
use attest.Alerts.Enrich.{
  enrich_one, merge_persisted_case, enrich_alerts_with_persisted, normalize_verdict,
}
use attest.Alerts.Enriched.{enrich_alerts-each}

abbrev fired : FiredDetection
fired = record {
  detection_id = "custom_rule_x";
  event_id = "e-123";
  actor_user_name = "";
  cloud_region = "ap-southeast-1";
  severity = "HIGH";
  fired_at = "2026-04-27 05:36:45.785834+00:00";
}

custom_title : (fired_detection_to_alert fired).title ≡ "Custom Rule X"
unfolding fired_detection_to_alert to_title_case spaced lookup
custom_title = refl

custom_severity : (fired_detection_to_alert fired).severity ≡ high
unfolding fired_detection_to_alert Fired.map_severity lower
custom_severity = refl

-- `String(value)` and `Number(value)` for the values of the sample row.
abbrev sample_text : Json → String
sample_text (str s) = s
sample_text _ = ""

abbrev sample_number : Json → Number
sample_number (num n) = n
sample_number _ = nan

abbrev sample_row : CaseRow
sample_row = record {
  case_id = "e-123";
  tenant_id = "default";
  event = obj (field "api_operation" (str "PutBucketPolicy") (field "api_service" (str "s3") end));
  baseline = none;
  detection = none;
  triage_status = RowStatus.running;
  triage_started_at = some 5;
  triage_completed_at = none;
  verdict = some (
      obj (
        field "verdict" (str "false_positive")
          (field "novelty_score" (num (thousandths 412)) end)));
  error = none;
  created_at = 1;
  updated_at = 5;
}

abbrev merged : Alert
merged = merge_persisted_case sample_text sample_number (fired_detection_to_alert fired) sample_row

merged_title : merged.title ≡ "Put Bucket Policy"
unfolding merge_persisted_case Enrich.format_queue_title lookup truthy
merged_title = refl

merged_summary : merged.summary ≡ "service s3 · novelty 0.412"
unfolding merge_persisted_case Enrich.build_queue_summary lookup truthy to_fixed decimal
merged_summary = refl

merged_verdict : merged.verdict ≡ benign
unfolding merge_persisted_case normalize_verdict lookup
merged_verdict = refl

abbrev stored : Dict CaseRow
stored = ("e-123", sample_row) ∷ []

stored_keyed : (id : String) (row : CaseRow) → lookup id stored ≡ some row → row.case_id ≡ id
unfolding lookup
stored_keyed id row h = ground (arith, eq_iff "e-123" id)

enrich_alerts-each_example :
    enrich_alerts_with_persisted sample_text sample_number memory true stored
      (fired_detection_to_alert fired ∷ [])
    ≡ map
        (λ a. enrich_one sample_text sample_number (get_case memory a.case_id stored) a)
        (fired_detection_to_alert fired ∷ [])
enrich_alerts-each_example =
    enrich_alerts-each sample_text sample_number memory stored (fired_detection_to_alert fired ∷ [])
      stored_keyed
