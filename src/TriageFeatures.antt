-- ===== src/TriageFeatures.antt =====
-- The features that the triage route adds to an alert before it calls the orchestrator
-- (apps/workbench/src/app/api/cases/[caseId]/triage/route.ts). An alert is an object with text keys.
pub mod Laws
pub mod Baseline
mod Tests
use attest.Prelude.{
  ℕ, String, Option, none, some, List, [], ◌∷◌, Bool, true, false, ◌&&◌, ◌||◌, not, take, drop, any,
  str_eq, if◌then◌else◌, ◌+◌,
}
use attest.Prelude.Dict.{Dict, lookup, insert}
use attest.Prelude.Text.{codes, codes_eq, lower, includes}
use attest.Prelude.Number.{Number, thousandths, is_finite, max_number}
use attest.Prelude.Json.{Json, null, bool, num, str, arr, obj, truthy}
use attest.Prelude.ParseFloat.{parse_or}

abbrev pub Alert : Type 0
Alert = Dict Json

abbrev is_text : List ℕ → String → Bool
is_text cs s = codes_eq cs (codes s)

-- Severity as a score between 0 and 1.
unfoldable pub severity_score : String → Number
unfolding lower
severity_score s =
    let l = lower s in
    if is_text l "informational"
    then thousandths 100
    else if is_text l "low"
    then thousandths 300
    else if is_text l "medium"
    then thousandths 500
    else if is_text l "high"
    then thousandths 800
    else if is_text l "critical" || is_text l "fatal"
    then thousandths 1000
    else thousandths 500

abbrev finite_number : Option Json → Bool
finite_number none = false
finite_number (some (num n)) = is_finite n
finite_number (some null) = false
finite_number (some (bool _)) = false
finite_number (some (str _)) = false
finite_number (some (arr _)) = false
finite_number (some (obj _)) = false

unfoldable pub has_numeric_feature : Alert → String → Bool
has_numeric_feature alert key = finite_number (lookup key alert)

unfoldable pub set_feature_default : String × Number → Alert → Alert
set_feature_default (key, value) alert =
    if has_numeric_feature alert key then alert else insert key (num value) alert

abbrev pub Defaults : Type 0
Defaults = List (String × Number)

-- The branches on operation, service and actor, each in the order in which it sets the fields.
unfoldable pub operation_defaults : List ℕ → List ℕ → List ℕ → Defaults
operation_defaults operation service actor =
    if includes (codes "putbucketacl") operation || includes (codes "putbucketpolicy") operation
    then ("severity_score", thousandths 850)
      ∷ ("baseline_deviation", thousandths 700)
      ∷ ("threat_intel_hit_count", thousandths 1000)
      ∷ ("asset_criticality", thousandths 900)
      ∷ ("prior_disposition_ratio", thousandths 800)
      ∷ []
    else if includes (codes "createaccesskey") operation || is_text actor "root"
    then ("severity_score", thousandths 1000)
      ∷ ("baseline_deviation", thousandths 900)
      ∷ ("asset_criticality", thousandths 1000)
      ∷ ("prior_disposition_ratio", thousandths 900)
      ∷ []
    else if includes (codes "consolelogin") operation
    then ("asset_criticality", thousandths 500) ∷ ("prior_disposition_ratio", thousandths 350) ∷ []
    else if includes (codes "okta") service || includes (codes "session.start") operation
    then ("severity_score", thousandths 750)
      ∷ ("entity_reputation_score", thousandths 600)
      ∷ ("baseline_deviation", thousandths 600)
      ∷ ("threat_intel_hit_count", thousandths 1000)
      ∷ ("asset_criticality", thousandths 500)
      ∷ ("prior_disposition_ratio", thousandths 700)
      ∷ []
    else []

unfoldable pub set_defaults : Defaults → Alert → Alert
unfolding set_feature_default
set_defaults [] alert = alert
set_defaults (d ∷ rest) alert = set_defaults rest (set_feature_default d alert)

-- `a ?? b` where a missing field and `null` give way.
abbrev nullish : Option Json → Option Json → Option Json
nullish none other = other
nullish (some null) other = other
nullish (some (bool b)) other = some (bool b)
nullish (some (num n)) other = some (num n)
nullish (some (str s)) other = some (str s)
nullish (some (arr items)) other = some (arr items)
nullish (some (obj members)) other = some (obj members)

abbrev text_or_empty : (Json → String) → Option Json → String
text_or_empty text_of none = ""
text_or_empty text_of (some v) = text_of v

abbrev text_field : Option Json → Option String
text_field none = none
text_field (some (str s)) = some s
text_field (some null) = none
text_field (some (bool _)) = none
text_field (some (num _)) = none
text_field (some (arr _)) = none
text_field (some (obj _)) = none

abbrev number_or_zero : Option Json → Number
number_or_zero none = thousandths 0
number_or_zero (some (num n)) = if is_finite n then n else thousandths 0
number_or_zero (some (str _)) = thousandths 0
number_or_zero (some null) = thousandths 0
number_or_zero (some (bool _)) = thousandths 0
number_or_zero (some (arr _)) = thousandths 0
number_or_zero (some (obj _)) = thousandths 0

-- `severity_score`, from a severity that is a text.
with_severity : Option String → Alert → Alert
with_severity none alert = alert
with_severity (some severity) alert =
    insert "severity_score"
      (num (max_number (number_or_zero (lookup "severity_score" alert)) (severity_score severity)))
      alert

unfoldable pub severity_step : Alert → Alert
unfolding with_severity
severity_step alert = with_severity (text_field (lookup "severity" alert)) alert

-- `source_class_id`, from a class that is a text.
with_class : Option String → Alert → Alert
with_class none alert = alert
with_class (some class_uid) alert =
    if has_numeric_feature alert "source_class_id"
    then alert
    else insert "source_class_id" (num (parse_or (codes class_uid) (thousandths 6003000))) alert

unfoldable pub class_step : Alert → Alert
unfolding with_class
class_step alert = with_class (text_field (lookup "class_uid" alert)) alert

-- `time.slice(11, 13)`, the hour of an ISO time.
abbrev pub hour_digits : String → List ℕ
hour_digits time = take 2 (drop 11 (codes time))

-- `hour_of_day`, from a time that is a text.
with_hour : Option String → Alert → Alert
with_hour none alert = alert
with_hour (some time) alert =
    if has_numeric_feature alert "hour_of_day"
    then alert
    else insert "hour_of_day" (num (parse_or (hour_digits time) (thousandths 12000))) alert

unfoldable pub hour_step : Alert → Alert
unfolding with_hour
hour_step alert = with_hour (text_field (lookup "time" alert)) alert

abbrev pub truthy_field : Option Json → Bool
truthy_field none = false
truthy_field (some v) = truthy v

-- The user and the region whose baseline is to be fetched, if one is.
baseline_query_of : Option String → Option String → Option (String × String)
baseline_query_of none region = none
baseline_query_of (some actor) none = none
baseline_query_of (some actor) (some region) =
    if str_eq region "unknown" then none else some (actor, region)

unfoldable pub baseline_query : Alert → Option (String × String)
unfolding baseline_query_of
baseline_query alert =
    if truthy_field (lookup "baseline_deviation" alert)
    then none
    else baseline_query_of (text_field (lookup "actor_user_name" alert))
        (text_field (lookup "cloud_region" alert))

-- The answer to the baseline request: it failed, or the regions of the last 30 days.
pub data BaselineAnswer : Type 0 where
  unavailable : BaselineAnswer
  regions : Option (List String) → BaselineAnswer

deviation_from : List String → String → Number
deviation_from [] region = thousandths 500
deviation_from (r ∷ rs) region =
    if any (λ s. str_eq s region) (r ∷ rs) then thousandths 0 else thousandths 1000

-- `baselineDeviation`, on the answer that its request gets.
unfoldable pub baseline_deviation : BaselineAnswer → String → Number
unfolding deviation_from
baseline_deviation unavailable region = thousandths 0
baseline_deviation (regions none) region = deviation_from [] region
baseline_deviation (regions (some seen)) region = deviation_from seen region

unfoldable pub set_baseline : Number → Alert → Alert
set_baseline deviation alert = insert "baseline_deviation" (num deviation) alert

-- The last field, under the test for a request.
abbrev pub asked_baseline : BaselineAnswer → Alert → Option (String × String) → Alert
asked_baseline answer alert none = alert
asked_baseline answer alert (some (actor, region)) =
    set_baseline (baseline_deviation answer region) alert

unfoldable pub baseline_step : BaselineAnswer → Alert → Alert
unfolding baseline_query
baseline_step answer alert = asked_baseline answer alert (baseline_query alert)

-- `String(v)` of a value that is neither missing nor `null`; of a text it is the text.
module _ (text_of : Json → String) where
  -- The defaults that the operation, the service and the actor of the alert call for.
  unfoldable pub defaults_for : Alert → Defaults
  defaults_for alert =
      operation_defaults
        (lower (
          text_or_empty text_of
            (nullish (lookup "api_operation" alert) (nullish (lookup "eventName" alert) none))))
        (lower (
          text_or_empty text_of
            (nullish (lookup "api_service" alert) (nullish (lookup "eventSource" alert) none))))
        (lower (text_or_empty text_of (nullish (lookup "actor_user_name" alert) none)))

  unfoldable pub apply_operation_feature_defaults : Alert → Alert
  apply_operation_feature_defaults alert = set_defaults (defaults_for alert) alert

  -- What the route does to the alert before it waits for the baseline.
  unfoldable pub set_features : Alert → Alert
  unfolding severity_step class_step hour_step
  set_features alert =
      hour_step (class_step (severity_step (apply_operation_feature_defaults alert)))

  -- The alert that is saved, with the answer that the baseline request gets where one is made.
  unfoldable pub enrich : BaselineAnswer → Alert → Alert
  unfolding baseline_step
  enrich answer alert = baseline_step answer (set_features alert)
