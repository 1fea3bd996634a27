-- ===== src/Alerts/Ocsf.antt =====
-- An OCSF event as an alert (apps/workbench/src/lib/ocsf-to-alert.ts). The local form of a time is a
-- parameter.
use Prim.Native.String.{◌++◌ as text_append}
use attest.Prelude.{
  ℕ, zero, suc, ◌+◌, String, Option, none, some, List, [], ◌∷◌, Bool, false, ◌||◌, str_eq,
  if◌then◌else◌,
}
use attest.Prelude.Number.{thousandths}
use attest.Prelude.Text.{codes, codes_eq, lower, is_empty, decimal}
use attest.CaseStore.{OcsfEvent}
use attest.Alerts.{
  Alert, AgentStatus, Severity, critical, high, medium, low, triager, Progress, awaiting_review,
  investigating, classifier,
}

abbrev idle_agent : AgentStatus
idle_agent = record {
  agent = triager;
  status = Progress.idle;
  step = "Awaiting triage (Phase 4)";
  tools_used = 0;
}

unfoldable pub map_severity : Option String → Severity
map_severity none = low
map_severity (some raw) =
    let s = lower raw in
    if codes_eq s (codes "critical")
    then critical
    else (if codes_eq s (codes "high")
        then high
        else (if codes_eq s (codes "medium") then medium else low))

-- A field that is present and not empty.
abbrev pub filled : Option String → Option String
filled none = none
filled (some s) = if is_empty s then none else some s

-- `s.slice(0, n)` on code points.
abbrev pub slice : ℕ → String → String
slice zero s = ""
slice (suc n) String.[] = ""
slice (suc n) (String.◌∷◌ c s) = String.◌∷◌ c (slice n s)

abbrev is_text : Option String → String → Bool
is_text none t = false
is_text (some s) t = str_eq s t

abbrev login_title : Option String → Option String → String
login_title status none =
    text_append (if is_text status "Success" then "successful" else "failed") " console login"
login_title status (some region) =
    text_append (if is_text status "Success" then "successful" else "failed")
      (text_append " console login (" (text_append region ")"))

abbrev activity_title : Option String → Option String → String → String
activity_title none service event_id = text_append "OCSF event " (slice 8 event_id)
activity_title (some operation) none event_id = operation
activity_title (some operation) (some service) event_id =
    text_append operation (text_append " via " service)

unfoldable pub title_from_event : OcsfEvent → String
title_from_event ev =
    if is_text ev.class_uid "3002" || is_text ev.class_uid "Authentication"
    then login_title ev.auth_status (filled ev.cloud_region)
    else activity_title (filled ev.api_operation) (filled ev.api_service) ev.event_id

-- `a ?? b`
abbrev or_else : Option String → String → String
or_else none b = b
or_else (some a) b = a

-- The answer of the control plane: an array, one event, or something else.
pub data EventsBody : Type 0 where
  many : List OcsfEvent → EventsBody
  single : OcsfEvent → EventsBody
  other : EventsBody

module _ (local_time : String → String) where
  abbrev event_time : ℕ → Option String → String
  event_time index none = text_append "event " (decimal (index + 1))
  event_time index (some time) = local_time time

  unfoldable pub ocsf_event_to_alert : OcsfEvent → ℕ → Alert
  ocsf_event_to_alert ev index = record {
    id = ev.event_id;
    case_id = text_append "case-" (slice 8 ev.event_id);
    title = title_from_event ev;
    source = "AWS CloudTrail";
    entity = or_else ev.actor_user_name (or_else ev.actor_user_uid "unknown");
    region = or_else ev.cloud_region "—";
    severity = map_severity ev.severity;
    state = awaiting_review;
    verdict = investigating;
    confidence = thousandths 0;
    execution_path = classifier;
    updated_at = event_time index (filled ev.time);
    technique = if is_text ev.class_uid "3002" then "T1078.004" else "T1530";
    summary = "Live OCSF event from attest-collector. Triage agents available in Phase 4.";
    agent_status = idle_agent;
  }

  abbrev alerts_from : ℕ → List OcsfEvent → List Alert
  alerts_from index [] = []
  alerts_from index (ev ∷ rest) = ocsf_event_to_alert ev index ∷ alerts_from (index + 1) rest

  unfoldable pub parse_events_response : EventsBody → List Alert
  parse_events_response (many evs) = alerts_from 0 evs
  parse_events_response (single ev) = ocsf_event_to_alert ev 0 ∷ []
  parse_events_response other = []
