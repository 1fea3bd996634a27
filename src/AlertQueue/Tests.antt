-- ===== src/AlertQueue/Tests.antt =====
-- The queue on sample alerts.
use attest.Prelude.{ℕ, ◌-◌, ◌/◌, String, ◌≡◌, refl, Option, some, List, [], ◌∷◌, ◌++◌, map, true}
use attest.Prelude.Text.{decimal}
use attest.AlertsWs.{
  FiredDetection, Event, message, socket, key_of, receive, on, step, run, mounted,
}
use attest.Alerts.{Alert}
use attest.Alerts.Detection.{fired_detection_to_alert}
use attest.AlertQueue.{live_alerts, age_label, with_t, relative_time}
use attest.AlertsWs.Shown.{holds}
use attest.AlertQueue.Shown.{IsUpdated, live_alerts-IsUpdated}
use attest.AlertQueue.Ages.{IsAge, relative_time-IsAge}

abbrev fired : String → String → FiredDetection
fired rule event = record {
  detection_id = rule;
  event_id = event;
  actor_user_name = "Alice";
  cloud_region = "us-east-1";
  severity = "low";
  fired_at = "2026-04-27 05:36:45";
}

abbrev two : List Alert
two =
    map fired_detection_to_alert
      (fired "aws_root_account_use" "e-1" ∷ fired "okta_mfa_bypass_attempt" "e-2" ∷ [])

abbrev earlier : List Event
earlier = message (some (fired "r" "e-1")) ∷ []

live : (run earlier mounted).link ≡ socket
unfolding run step on receive key_of
live = refl

there : (run earlier mounted).is_mounted ≡ true
unfolding run step on receive key_of
there = refl

live_alerts-IsUpdated_example :
    IsUpdated
      (fired "q" "e-1")
      (holds (key_of (fired "q" "e-1")) (run earlier mounted).new_alerts)
      (live_alerts (run earlier mounted) two)
      (live_alerts (run (earlier ++ message (some (fired "q" "e-1")) ∷ []) mounted) two)
live_alerts-IsUpdated_example = live_alerts-IsUpdated earlier (fired "q" "e-1") two live there

abbrev same : String → String
same s = s

abbrev at_five : String → Option ℕ
at_five s = some 5000

relative_time-IsAge_example :
    IsAge ((7500000 - 5000) / 1000) (relative_time at_five "2026-04-27 05:36:45" 7500000)
relative_time-IsAge_example = relative_time-IsAge at_five "2026-04-27 05:36:45" 5000 7500000 refl

two_hours : relative_time at_five "2026-04-27 05:36:45" 7500000 ≡ "2h ago"
unfolding relative_time age_label decimal
two_hours = refl

with_t_test : with_t "2026-04-27 05:36:45 +0" ≡ "2026-04-27T05:36:45 +0"
unfolding with_t
with_t_test = refl
