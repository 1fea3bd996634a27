-- ===== src/Alerts/Detection.antt =====
-- A fired detection as an alert (apps/workbench/src/lib/detection-to-alert.ts). A detection's id is
-- none of the names that every JavaScript object has.
use Prim.Native.Char.{Char, code}
use Prim.Native.String.{◌++◌ as text_append}
use attest.Prelude.{
  String, Option, none, some, List, [], ◌∷◌, map, Bool, false, ◌&&◌, ◌||◌, leb, ◌==◌, if◌then◌else◌,
}
use attest.Prelude.Dict.{Dict, lookup}
use attest.Prelude.Number.{thousandths}
use attest.Prelude.Text.{codes, codes_eq, lower, is_empty}
use attest.AlertsWs.{FiredDetection}
use attest.Alerts.{
  Alert, AgentStatus, Severity, critical, high, medium, low, triager, Progress, awaiting_review,
  investigating, classifier, spaced,
}

abbrev idle_agent : AgentStatus
idle_agent = record {
  agent = triager;
  status = Progress.idle;
  step = "Awaiting triage";
  tools_used = 0;
}

abbrev pub detection_titles : Dict String
detection_titles =
    ("aws_console_login_from_anomalous_geolocation", "Console Login from Anomalous Region")
    ∷ ("aws_cloudtrail_logging_disabled", "CloudTrail Logging Disabled")
    ∷ ("aws_root_account_use", "AWS Root Account Used")
    ∷ ("aws_iam_user_excessive_privilege", "Excessive IAM Privilege Granted")
    ∷ ("aws_new_iam_user_then_access_keys_sequence", "New IAM User Created with Access Keys")
    ∷ ("aws_s3_bucket_policy_made_public", "S3 Bucket Made Public")
    ∷ ("okta_brute_force_authentication", "Okta Brute-Force Authentication")
    ∷ ("okta_mfa_bypass_attempt", "Okta MFA Bypass Attempt")
    ∷ ("m365_mass_external_sharing", "M365 Mass External Sharing")
    ∷ ("m365_inbox_rule_auto_forward_external", "M365 Inbox Auto-Forward Rule")
    ∷ []

abbrev pub detection_mitre : Dict String
detection_mitre =
    ("aws_console_login_from_anomalous_geolocation", "T1078.004")
    ∷ ("aws_cloudtrail_logging_disabled", "T1562.001")
    ∷ ("aws_root_account_use", "T1078")
    ∷ ("aws_iam_user_excessive_privilege", "T1098")
    ∷ ("aws_new_iam_user_then_access_keys_sequence", "T1136.003")
    ∷ ("aws_s3_bucket_policy_made_public", "T1530")
    ∷ ("okta_brute_force_authentication", "T1110")
    ∷ ("okta_mfa_bypass_attempt", "T1556")
    ∷ ("m365_mass_external_sharing", "T1567")
    ∷ ("m365_inbox_rule_auto_forward_external", "T1114.003")
    ∷ []

-- The capital of an ASCII letter, which stands at its place in the second alphabet.
abbrev capital : String → String → Char → Char
capital (String.◌∷◌ a as') (String.◌∷◌ b bs) c =
    let later = capital as' bs c in if code c == code a then b else later
capital _ _ c = c

abbrev upper_char : Char → Char
upper_char = capital "abcdefghijklmnopqrstuvwxyz" "ABCDEFGHIJKLMNOPQRSTUVWXYZ"

-- `\w`
abbrev is_word : Char → Bool
is_word c =
    let n = code c in
    leb b'a' n && leb n b'z' || leb b'A' n && leb n b'Z' || leb b'0' n && leb n b'9' || n == b'_'

-- `s.replace(/\b\w/g, (c) => c.toUpperCase())`, behind a character that is part of a word or not.
abbrev word_starts : Bool → String → String
word_starts inside String.[] = ""
word_starts inside (String.◌∷◌ c s) =
    let rest = word_starts (is_word c) s in
    if inside then String.◌∷◌ c rest else String.◌∷◌ (upper_char c) rest

unfoldable pub to_title_case : String → String
to_title_case id = word_starts false (spaced id)

unfoldable pub map_severity : String → Severity
map_severity raw =
    let s = lower raw in
    if codes_eq s (codes "critical")
    then critical
    else (if codes_eq s (codes "high")
        then high
        else (if codes_eq s (codes "medium")
            then medium
            else (if codes_eq s (codes "low") then low else medium)))

abbrev pub given : String → Option String → String
given default none = default
given default (some s) = s

abbrev or_unknown : String → String
or_unknown s = if is_empty s then "unknown" else s

unfoldable pub fired_detection_to_alert : FiredDetection → Alert
fired_detection_to_alert d = record {
  id = d.event_id;
  case_id = d.event_id;
  title = given (to_title_case d.detection_id) (lookup d.detection_id detection_titles);
  source = "HELIQL Detection";
  entity = or_unknown d.actor_user_name;
  region = or_unknown d.cloud_region;
  severity = map_severity d.severity;
  state = awaiting_review;
  verdict = investigating;
  confidence = thousandths 0;
  execution_path = classifier;
  updated_at = d.fired_at;
  technique = given "" (lookup d.detection_id detection_mitre);
  summary = text_append "Detection rule \"" (
      text_append d.detection_id (
        text_append "\" fired — entity: " (
          text_append d.actor_user_name
            (text_append ", region: " (text_append d.cloud_region ".")))));
  agent_status = idle_agent;
}

-- The body: `none` where it is no array.
unfoldable pub parse_fired_detections : Option (List FiredDetection) → List Alert
parse_fired_detections none = []
parse_fired_detections (some rows) = map fired_detection_to_alert rows
