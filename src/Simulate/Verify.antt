-- ===== src/Simulate/Verify.antt =====
-- The checks behind a simulation (apps/workbench/src/app/api/simulate/verify/route.ts). The four
-- requests run side by side, and no answer depends on another; `encodeURIComponent` is a parameter.
use Prim.Native.String.{◌++◌ as text_append}
use attest.Prelude.{
  ℕ, String, Option, none, some, List, [], ◌∷◌, Bool, true, false, ◌&&◌, ◌||◌, leb, ltb, ◌==◌,
  str_eq, length, if◌then◌else◌,
}
use attest.Prelude.Text.{codes, decimal}
use attest.Alerts.Ocsf.{slice}
use attest.Simulate.{StageResult, Answer, answered, error_of, shown, done, failed}

pub record Query : Type 0 where
  pub event_id : String
  pub username : String
  pub action_id : String

-- `[A-Za-z0-9-]`
abbrev pub is_id_char : ℕ → Bool
is_id_char c =
    leb b'A' c && leb c b'Z' || leb b'a' c && leb c b'z' || leb b'0' c && leb c b'9' || c == b'-'

abbrev pub all_id_chars : List ℕ → Bool
all_id_chars [] = true
all_id_chars (c ∷ s) = is_id_char c && all_id_chars s

-- `/^[A-Za-z0-9-]{1,64}$/.test(eventId)`
unfoldable pub is_event_id : String → Bool
is_event_id s = let n = length (codes s) in leb 1 n && leb n 64 && all_id_chars (codes s)

pub record Baseline : Type 0 where
  pub regions_seen_30d : Option ℕ
  pub logins_24h : Option ℕ

pub record Fired : Type 0 where
  pub event_id : Option String
  pub detection_id : Option String
  pub fired_at : Option String

-- What the services answer; a baseline that is `null` is `none`, and of lists only the length counts.
pub record Answers : Type 0 where
  pub baseline : Answer (Option Baseline)
  pub detections : Answer (List Fired)
  pub rows : Answer (Option ℕ)
  pub tools : Answer (Option ℕ)

pub record Latencies : Type 0 where
  pub risingwave : ℕ
  pub detection : ℕ
  pub iceberg : ℕ
  pub mcp : ℕ

pub record VerifyResponse : Type 0 where
  pub risingwave : StageResult
  pub detection : StageResult
  pub iceberg : StageResult
  pub mcp : StageResult

-- A request that goes out: its path, and the statement for the warm tier.
pub data Request : Type 0 where
  baseline_of : String → Request
  fired_detections : Request
  warm_query : String → Request
  list_tools : Request

pub data Reply : Type 0 where
  invalid_event_id : Reply
  verified : VerifyResponse → Reply

abbrev or_zero : Option ℕ → ℕ
or_zero none = 0
or_zero (some n) = n

abbrev pub has_id : String → Fired → Bool
has_id id d = named d.event_id
  where
    named : Option String → Bool
    named none = false
    named (some e) = str_eq e id

-- `all.find((d) => d.event_id === eventId)`
abbrev pub first_of : String → List Fired → Option Fired
first_of id [] = none
first_of id (d ∷ rest) = let later = first_of id rest in if has_id id d then some d else later

abbrev join : List String → String
join [] = ""
join (s ∷ rest) = text_append s (join rest)

abbrev no_baseline : String → ℕ → Option String → StageResult
no_baseline username latency error =
    failed latency
      (join (
        "No baseline yet for " ∷ username ∷ " — RisingWave still building MV from Kafka stream"
        ∷ []))
      error

unfoldable pub risingwave_stage : String → ℕ → Answer (Option Baseline) → StageResult
risingwave_stage username latency (answered (some b)) = done latency (
    join (
      "Materialized view 'user_baselines' has entry for "
      ∷ username
      ∷ " ("
      ∷ decimal (or_zero b.regions_seen_30d)
      ∷ " region(s) seen, "
      ∷ decimal (or_zero b.logins_24h)
      ∷ " logins/24h)"
      ∷ []))
risingwave_stage username latency answer = no_baseline username latency (error_of answer)

abbrev total_of : Answer (List Fired) → ℕ
total_of (answered rows) = length rows
total_of _ = 0

abbrev match_of : String → Answer (List Fired) → Option Fired
match_of id (answered rows) = first_of id rows
match_of id _ = none

abbrev detection_of : ℕ → Answer (List Fired) → Option Fired → StageResult
detection_of latency answer (some d) = done latency (
    join (
      "Detection '"
      ∷ shown d.detection_id
      ∷ "' fired at "
      ∷ shown d.fired_at
      ∷ "; stored in ClickHouse"
      ∷ []))
detection_of latency answer none =
    failed latency
      (join (
        "Detection runtime hasn't fired for this event yet ("
        ∷ decimal (total_of answer)
        ∷ " other detections in queue)"
        ∷ []))
      (error_of answer)

unfoldable pub detection_stage : String → ℕ → Answer (List Fired) → StageResult
detection_stage id latency answer = detection_of latency answer (match_of id answer)

abbrev row_count : Answer (Option ℕ) → ℕ
row_count (answered n) = or_zero n
row_count _ = 0

unfoldable pub iceberg_stage : ℕ → Answer (Option ℕ) → StageResult
iceberg_stage latency answer =
    if ltb 0 (row_count answer)
    then done latency
        "Event found in warm parquet (s3://attest-warm/cloudtrail/) — Iceberg table queryable"
    else failed latency
        "Iceberg writer hasn't flushed yet (30 s batch interval); event still buffered"
        (error_of answer)

unfoldable pub mcp_stage : String → ℕ → Answer (Option ℕ) → StageResult
mcp_stage action_id latency (answered n) = done latency (
    join (
      "MCP gateway up — "
      ∷ decimal (or_zero n)
      ∷ " tool(s) registered with policy engine; attestation "
      ∷ slice 8 action_id
      ∷ "… queryable"
      ∷ []))
mcp_stage action_id latency answer = failed latency "MCP gateway unreachable" (error_of answer)

abbrev pub sql_start : String
sql_start = "SELECT event_id, time FROM cloudtrail WHERE event_id = "

abbrev pub sql_end : String
sql_end = " LIMIT 1"

-- The statement, with the id between two quotes.
unfoldable pub warm_sql : String → String
warm_sql id = text_append sql_start (text_append "'" (text_append id (text_append "'" sql_end)))

module _ (encode : String → String) where
  abbrev pub requests_of : Query → List Request
  requests_of q =
      baseline_of (text_append "/v1/baselines/user/" (encode q.username))
      ∷ fired_detections
      ∷ warm_query (warm_sql q.event_id)
      ∷ list_tools
      ∷ []

  -- `GET`: the answer and the requests that went out.
  unfoldable pub verify_get : Query → Answers → Latencies → Reply × List Request
  unfolding risingwave_stage detection_stage iceberg_stage mcp_stage warm_sql is_event_id
  verify_get q a t =
      if is_event_id q.event_id
      then (
        verified (record {
          risingwave = risingwave_stage q.username t.risingwave a.baseline;
          detection = detection_stage q.event_id t.detection a.detections;
          iceberg = iceberg_stage t.iceberg a.rows;
          mcp = mcp_stage q.action_id t.mcp a.tools;
        }),
        requests_of q,
      )
      else (invalid_event_id, [])
