-- ===== src/Alerts/Enrich.antt =====
-- The persisted case of an alert (apps/workbench/src/lib/server/enrich-alert.ts). `String(value)` and
-- `Number(value)` of a JSON value are parameters.
use Prim.Native.Char.{Char, code}
use Prim.Native.String.{◌++◌ as text_append}
use attest.Prelude.{
  ℕ, ◌+◌, String, Option, none, some, List, [], ◌∷◌, map, Bool, true, false, ◌&&◌, ◌||◌, leb,
  str_eq, if◌then◌else◌,
}
use attest.Prelude.Dict.{Dict, lookup}
use attest.Prelude.Number.{Number, is_finite, to_fixed}
use attest.Prelude.Json.{Json, null, num, str, arr, obj, Items, nil, cons, fields, truthy}
use attest.CaseRepository.{CaseRow, CaseTable, RowStatus, get_cases}
use attest.Alerts.{
  Alert, Agent, triager, investigator, AlertState, in_flight, Verdict, benign, suspicious,
  malicious, investigating, ExecutionPath, classifier, llm, hybrid, Progress, verdict_text, spaced,
}

-- `value?.key`; a value that is missing is `none`.
abbrev pub field_of : Option Json → String → Option Json
field_of (some (obj members)) key = lookup key (fields members)
field_of _ key = none

-- `value ?? null`
abbrev pub present : Option Json → Option Json
present (some null) = none
present v = v

unfoldable pub number_field : Option Json → Number → Number
number_field (some (num n)) fallback = if is_finite n then n else fallback
number_field _ fallback = fallback

abbrev path_of : String → ExecutionPath → ExecutionPath
path_of value fallback =
    if str_eq value "classifier"
    then classifier
    else (if str_eq value "llm" then llm else (if str_eq value "hybrid" then hybrid else fallback))

unfoldable pub normalize_execution_path : Option Json → ExecutionPath → ExecutionPath
normalize_execution_path (some (str value)) fallback = path_of value fallback
normalize_execution_path _ fallback = fallback

unfoldable pub normalize_verdict : String → Verdict
normalize_verdict value =
    if str_eq value "false_positive" || str_eq value "benign"
    then benign
    else (if str_eq value "true_positive" || str_eq value "malicious"
        then malicious
        else (if str_eq value "needs_investigation" || str_eq value "suspicious"
            then suspicious
            else investigating))

abbrev count : Items → ℕ
count nil = 0
count (cons v rest) = count rest + 1

abbrev array_length : Option Json → ℕ
array_length (some (arr items)) = count items
array_length _ = 0

abbrev is_lower : Char → Bool
is_lower c = leb b'a' (code c) && leb (code c) b'z'

abbrev is_upper : Char → Bool
is_upper c = leb b'A' (code c) && leb (code c) b'Z'

-- `replace(/([a-z])([A-Z])/g, "$1 $2")`, behind a small letter or not.
abbrev pub split_words : Bool → String → String
split_words small String.[] = ""
split_words small (String.◌∷◌ c s) =
    let rest = String.◌∷◌ c (split_words (is_lower c) s) in
    if small && is_upper c then text_append " " rest else rest

abbrev join_parts : List String → String
join_parts [] = ""
join_parts (p ∷ []) = p
join_parts (p ∷ q ∷ rest) = text_append p (text_append " · " (join_parts (q ∷ rest)))

abbrev or_text : List String → String → String
or_text [] fallback = fallback
or_text (p ∷ rest) fallback = join_parts (p ∷ rest)

abbrev add_part : Option String → List String → List String
add_part none rest = rest
add_part (some p) rest = p ∷ rest

abbrev status_text : RowStatus → String
status_text RowStatus.idle = "idle"
status_text RowStatus.running = "running"
status_text RowStatus.complete = "complete"
status_text RowStatus.failed = "failed"

unfoldable pub state_of : RowStatus → AlertState → AlertState
state_of RowStatus.running state = in_flight
state_of _ state = state

unfoldable pub progress_of : RowStatus → Progress
progress_of RowStatus.complete = Progress.complete
progress_of RowStatus.running = Progress.running
progress_of _ = Progress.idle

abbrev step_of : RowStatus → String → String
step_of RowStatus.complete raw = text_append (spaced raw) " verdict"
step_of RowStatus.running raw = "Running triage"
step_of _ raw = "Awaiting triage"

abbrev pub agent_of : ExecutionPath → Agent
agent_of llm = investigator
agent_of _ = triager

module _ (text_of : Json → String) (number_of : Json → Number) where
  -- `value ? String(value) : fallback`
  abbrev pub shown : Option Json → String → String
  shown none fallback = fallback
  shown (some v) fallback = if truthy v then text_of v else fallback

  abbrev pub text_or : Option Json → String → String
  text_or none fallback = fallback
  text_or (some v) fallback = text_of v

  abbrev labelled : String → Option Json → Option String
  labelled label none = none
  labelled label (some v) = if truthy v then some (text_append label (text_of v)) else none

  abbrev novelty_part : Option Json → Option String
  novelty_part none = none
  novelty_part (some v) = some (text_append "novelty " (to_fixed 3 (number_of v)))

  abbrev latency_part : Option Json → Option String
  latency_part none = none
  latency_part (some v) = some (text_append (text_of v) "ms triage")

  unfoldable pub format_queue_title : String → Option Json → String
  format_queue_title fallback event = titled (field_of event "api_operation")
    where
      titled : Option Json → String
      titled none = fallback
      titled (some v) = if truthy v then split_words false (text_of v) else fallback

  unfoldable pub build_queue_summary : Alert → Option Json → Option Json → String
  build_queue_summary alert event verdict =
      or_text
        (add_part (labelled "service " (field_of event "api_service")) (
          add_part (labelled "region " (field_of event "cloud_region")) (
            add_part (novelty_part (field_of verdict "novelty_score"))
              (add_part (latency_part (field_of verdict "latency_ms")) []))))
        alert.summary

  unfoldable pub merge_persisted_case : Alert → CaseRow → Alert
  unfolding number_field normalize_execution_path normalize_verdict state_of progress_of
      format_queue_title build_queue_summary
  merge_persisted_case alert row =
      let verdict = present row.verdict in
      let event = present (some row.event) in
      let raw_verdict =
        text_or (present (field_of verdict "verdict")) (verdict_text alert.verdict) in
      let path =
        normalize_execution_path (field_of verdict "execution_path") alert.execution_path in
      record alert {
        title = format_queue_title alert.title event;
        source = shown (field_of event "api_service") alert.source;
        entity = shown (field_of event "actor_user_name") alert.entity;
        region = shown (field_of event "cloud_region") alert.region;
        verdict = normalize_verdict raw_verdict;
        confidence = number_field (field_of verdict "calibrated_confidence") alert.confidence;
        execution_path = path;
        state = state_of row.triage_status alert.state;
        summary = build_queue_summary alert event verdict;
        agent_status = record {
          agent = agent_of path;
          status = progress_of row.triage_status;
          step = step_of row.triage_status raw_verdict;
          tools_used =
              array_length (field_of (field_of verdict "investigation") "evidence_citations");
        };
      }

  -- One alert with the answer of the batch.
  unfoldable pub enrich_one : Option CaseRow → Alert → Alert
  enrich_one none alert = alert
  enrich_one (some row) alert = if truthy row.event then merge_persisted_case alert row else alert

  abbrev pub enrich_all : Dict CaseRow → List Alert → List Alert
  enrich_all persisted alerts = map (λ a. enrich_one (lookup a.case_id persisted) a) alerts

  -- `reachable` is false where the database cannot be asked.
  unfoldable pub enrich_alerts_with_persisted :
      (db : CaseTable) → Bool → db.Table → List Alert → List Alert
  unfolding enrich_one
  enrich_alerts_with_persisted db reachable t [] = []
  enrich_alerts_with_persisted db true t (a ∷ rest) =
      enrich_all (get_cases db (map (λ b. b.case_id) (a ∷ rest)) t) (a ∷ rest)
  enrich_alerts_with_persisted db false t (a ∷ rest) = enrich_all [] (a ∷ rest)
