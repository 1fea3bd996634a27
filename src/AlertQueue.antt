-- ===== src/AlertQueue.antt =====
-- The queue of alerts (apps/workbench/src/components/workbench/alert-queue.tsx): the live wrapper, the
-- tabs, the texts of a row and the filters of the table. The table library that calls the filters, the
-- engine's `toLowerCase`, its reading of dates and its local time are parameters or not modelled.
pub mod Narrow
pub mod Shown
pub mod Ages
mod Tests
use Prim.Native.Char.{code}
use Prim.Native.String.{◌++◌ as text_append}
use attest.Prelude.{
  ℕ, zero, suc, ◌+◌, ◌-◌, ◌*◌, ◌/◌, String, Option, none, some, List, [], ◌∷◌, ◌++◌, map, Bool,
  true, false, not, ◌&&◌, ◌||◌, any, filter, length, ltb, ◌==◌, if◌then◌else◌,
}
use attest.Prelude.Dedup.{dedup}
use attest.Prelude.Number.{Number, finite, nan, infinity, neg_infinity, pos, negsuc}
use attest.Prelude.Text.{codes, includes, decimal, is_empty}
use attest.AlertsWs.{Feed}
use attest.Alerts.{
  Alert, AlertState, in_flight, awaiting_review, auto_closed, ExecutionPath, classifier, llm,
  hybrid, Severity, critical, high, medium, low, severity_text, path_text, verdict_text, agent_text,
  progress_text,
}
use attest.Alerts.Detection.{fired_detection_to_alert}

abbrev pub alert_id : Alert → String
alert_id a = a.id

-- `AlertQueueLive`: the new alerts and then the first ones, each id once.
unfoldable pub queue_alerts : List Alert → List Alert → List Alert
queue_alerts new_alerts initial_alerts = dedup alert_id [] (new_alerts ++ initial_alerts)

-- What the live wrapper shows of a feed.
abbrev pub live_alerts : Feed → List Alert → List Alert
live_alerts feed = queue_alerts (map fired_detection_to_alert feed.new_alerts)

abbrev pub state_eq : AlertState → AlertState → Bool
state_eq in_flight in_flight = true
state_eq awaiting_review awaiting_review = true
state_eq auto_closed auto_closed = true
state_eq _ _ = false

unfoldable pub auto_closed_alerts : List Alert → List Alert
auto_closed_alerts = filter (λ a. state_eq a.state auto_closed)

unfoldable pub tab_alerts : List Alert → List Alert
tab_alerts = filter (λ a. not (state_eq a.state auto_closed))

unfoldable pub filtered_alerts : AlertState → List Alert → List Alert
unfolding tab_alerts
filtered_alerts active alerts = filter (λ a. state_eq a.state active) (tab_alerts alerts)

-- The number in the badge of a tab.
unfoldable pub tab_count : AlertState → List Alert → ℕ
unfolding filtered_alerts
tab_count state alerts = length (filtered_alerts state alerts)

-- `iso.replace(" ", "T")`: the first space.
unfoldable pub with_t : String → String
with_t String.[] = ""
with_t (String.◌∷◌ c s) =
    let rest = String.◌∷◌ c (with_t s) in if code c == 32 then text_append "T" s else rest

-- The label of an age in seconds.
unfoldable pub age_label : ℕ → String
age_label s =
    if ltb s 60
    then text_append (decimal s) "s ago"
    else (if ltb (s / 60) 60
        then text_append (decimal (s / 60)) "m ago"
        else (if ltb (s / 60 / 60) 24
            then text_append (decimal (s / 60 / 60)) "h ago"
            else text_append (decimal (s / 60 / 60 / 24)) "d ago"))

abbrev severity_order : Severity → ℕ
severity_order critical = 0
severity_order high = 1
severity_order medium = 2
severity_order low = 3

-- The sign of `severityOrder[a] - severityOrder[b]`: whether `a` comes before `b`.
unfoldable pub comes_before : Alert → Alert → Bool
comes_before a b = ltb (severity_order a.severity) (severity_order b.severity)

abbrev format_path : ExecutionPath → String
format_path llm = "LLM"
format_path hybrid = "Hybrid"
format_path classifier = "Classifier"

-- `String(Math.round(confidence * 100))`: a half goes up.
unfoldable pub percent : Number → String
percent (finite (pos n)) = decimal ((n + 5000) / 10000)
percent (finite (negsuc n)) =
    let rounded = (n + 1 + 4999) / 10000 in
    if rounded == 0 then "0" else text_append "-" (decimal rounded)
percent nan = "NaN"
percent infinity = "Infinity"
percent neg_infinity = "-Infinity"

-- `date_of_text` reads a time from 1970 on; `none` is an invalid date.
module _ (date_of_text : String → Option ℕ) where
  abbrev age_of : Option ℕ → ℕ → String
  age_of none now = "NaNd ago"
  age_of (some time) now = age_label ((now - time) / 1000)

  -- No test holds of an invalid date's age, and nothing is thrown.
  unfoldable pub relative_time : String → ℕ → String
  unfolding age_label with_t
  relative_time iso now = age_of (date_of_text (with_t iso)) now

  abbrev absolute_of : String → (ℕ → String) → Option ℕ → String
  absolute_of iso local_time none = iso
  absolute_of iso local_time (some time) = local_time time

  unfoldable pub format_absolute_time : (ℕ → String) → String → String
  unfolding with_t
  format_absolute_time local_time iso = absolute_of iso local_time (date_of_text (with_t iso))

-- The columns that have a filter.
pub data Column : Type 0 where
  event_id severity title source entity triage confidence updated_at : Column

module _ (to_lower : String → List ℕ) (absolute_time : String → String) where
  abbrev has_any : List String → List ℕ → Bool
  has_any texts q = any (λ v. includes q (to_lower v)) texts

  abbrev searched : Alert → List String
  searched a =
      a.id
      ∷ a.case_id
      ∷ a.title
      ∷ a.summary
      ∷ a.source
      ∷ a.entity
      ∷ a.region
      ∷ severity_text a.severity
      ∷ a.technique
      ∷ verdict_text a.verdict
      ∷ path_text a.execution_path
      ∷ a.agent_status.step
      ∷ progress_text a.agent_status.status
      ∷ agent_text a.agent_status.agent
      ∷ percent a.confidence
      ∷ []

  abbrev or_found : List ℕ → Bool → Bool
  or_found [] found = true
  or_found (c ∷ q) found = found

  unfoldable pub alert_global_filter : String → Alert → Bool
  unfolding percent
  alert_global_filter value a = or_found (to_lower value) (has_any (searched a) (to_lower value))

  -- The texts that the filter of a column reads.
  abbrev read_by : Column → Alert → List String
  read_by event_id a = a.id ∷ []
  read_by severity a = severity_text a.severity ∷ []
  read_by title a = a.title ∷ a.summary ∷ a.technique ∷ []
  read_by source a = a.source ∷ a.region ∷ []
  read_by entity a = a.entity ∷ []
  read_by triage a =
      progress_text a.agent_status.status ∷ a.agent_status.step ∷ verdict_text a.verdict ∷ []
  read_by confidence a = percent a.confidence ∷ []
  read_by updated_at a = a.updated_at ∷ absolute_time a.updated_at ∷ []

  -- Confidence is compared as it is, all else in lower case.
  unfoldable pub column_filter : Column → String → Alert → Bool
  unfolding percent
  column_filter confidence value a = includes (codes value) (codes (percent a.confidence))
  column_filter column value a = has_any (read_by column a) (to_lower value)
