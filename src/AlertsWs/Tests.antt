-- ===== src/AlertsWs/Tests.antt =====
-- The alert feed at concrete events.
use attest.Prelude.{◌≡◌, refl, some, List, [], ◌∷◌, ◌++◌, true}
use attest.AlertsWs.{
  FiredDetection, Event, opened, message, closed, timeout, unmount, socket, key_of, receive, on,
  step, run, mounted,
}
use attest.AlertsWs.Shown.{holds, run-shows}
use attest.AlertsWs.Backoff.{IsRetrying, reconnect_after_unmount}

abbrev fired : FiredDetection
fired = record {
  detection_id = "aws_root_account_use";
  event_id = "e1";
  actor_user_name = "root";
  cloud_region = "us-east-1";
  severity = "high";
  fired_at = "2026-01-01T00:00:00Z";
}

abbrev replayed : List Event
replayed = opened ∷ message (some fired) ∷ closed ∷ timeout ∷ opened ∷ []

live : (run replayed mounted).link ≡ socket
unfolding run step on receive key_of
live = refl

there : (run replayed mounted).is_mounted ≡ true
unfolding run step on receive key_of
there = refl

run-shows_example :
    holds (key_of fired) (run (replayed ++ message (some fired) ∷ closed ∷ []) mounted).new_alerts
    ≡ true
run-shows_example = run-shows replayed (closed ∷ []) fired live there

reconnect_after_unmount_example : IsRetrying 2000 2 (run (unmount ∷ closed ∷ timeout ∷ []) mounted)
reconnect_after_unmount_example = reconnect_after_unmount mounted refl
