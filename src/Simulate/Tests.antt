-- ===== src/Simulate/Tests.antt =====
-- The endpoints on sample requests.
use attest.Prelude.{String, ◌≡◌, refl, none, some, List, [], ◌∷◌, true, false, All}
use attest.Prelude.Number.{thousandths}
use attest.Prelude.Json.{Json, num, str, obj, end, field}
use attest.Prelude.Text.{codes, decimal}
use attest.Simulate.{Answer, rejected, refused, answered}
use attest.Simulate.Verify.{
  Query, Answers, Latencies, Fired, is_event_id, warm_sql, verify_get, detection_stage,
}
use attest.Simulate.Run as Run
use attest.Simulate.Run.{CollectorBody, collected, collector_stage}
use attest.Simulate.Sql.{IsSafe, compared, verify_get-IsSafe}
use attest.Simulate.Checked.{Verdict, verify_get-Verdict}

abbrev query : Query
query = record { event_id = "e-1f"; username = "alice"; action_id = "a-12345678" }

abbrev two_fired : List Fired
two_fired =
    record { event_id = some "other"; detection_id = some "r"; fired_at = none }
    ∷ record { event_id = some "e-1f"; detection_id = some "aws_root_account_use"; fired_at = none }
    ∷ []

abbrev answers : Answers
answers = record {
  baseline = refused 503;
  detections = answered two_fired;
  rows = answered (some 0);
  tools = rejected "TimeoutError";
}

abbrev times : Latencies
times = record { risingwave = 3; detection = 4; iceberg = 5; mcp = 2000 }

abbrev same : String → String
same s = s

verify_get-IsSafe_example : All (IsSafe "e-1f") (verify_get same query answers times).1
verify_get-IsSafe_example = verify_get-IsSafe same query answers times

verify_get-Verdict_example : Verdict query answers times (verify_get same query answers times)
verify_get-Verdict_example = verify_get-Verdict same query answers times

quote_refused : is_event_id "x' OR '1'='1" ≡ false
unfolding is_event_id
quote_refused = refl

-- A quote that was let through would end the literal.
quote_read : compared (warm_sql "x' OR '1'='1") ≡ some (codes "x", codes " OR '1'='1' LIMIT 1")
unfolding warm_sql
quote_read = refl

detection_text :
    (detection_stage "e-1f" 4 (answered two_fired)).artifact
    ≡ "Detection 'aws_root_account_use' fired at undefined; stored in ClickHouse"
unfolding detection_stage
detection_text = refl

abbrev full : Answer CollectorBody
full =
    answered
      (record { is_ok = true; status = 200; event_ids = some ("0123456789" ∷ []); error = none })

abbrev run_times : Run.Latencies
run_times = record { collector = 1; orchestrator = 2; total = 3 }

-- A body whose action id is a number: formatting it throws.
abbrev numbered : Json
numbered = obj (field "verdict" (str "malicious") (field "action_id" (num (thousandths 7000)) end))

abbrev sample_text : Json → String
sample_text v = "value"

abbrev sample_error : Json → String
sample_error v = "TypeError: triageData.action_id?.slice is not a function"

collector_text :
    (collector_stage 1 (collected full)).artifact
    ≡ "Published 1 OCSF event(s) to Kafka topic 'cloudtrail' (id 01234567…)"
unfolding collector_stage decimal
collector_text = refl
