-- ===== src/AlertQueue/Shown.antt =====
-- What the queue shows of the alerts it has.
use attest.Prelude.{
  ◌+◌, String, ◌≡◌, refl, ap, ◌∙◌, true, false, str_eq, eq_refl, Bool-cases, inl, inr, Option, none,
  some, List, [], ◌∷◌, ◌++◌, map, Bool, filter, length, arith,
}
use attest.Prelude.Dedup.{find_key, HasDistinctKeys, find_key-dedup, dedup-HasDistinctKeys}
use attest.AlertsWs.Shown.{holds, run-IsAdded}
use attest.AlertsWs.{FiredDetection, Event, message, socket, key_of, run, mounted}
use attest.Alerts.{Alert, in_flight, awaiting_review}
use attest.Alerts.Detection.{fired_detection_to_alert}
use attest.AlertQueue.{
  alert_id, queue_alerts, live_alerts, auto_closed_alerts, tab_alerts, filtered_alerts,
}

abbrev first_of_two : Option Alert → Option Alert → Option Alert
first_of_two none b = b
first_of_two (some a) b = some a

find_key-append :
    (id : String) (xs ys : List Alert)
    → find_key alert_id id (xs ++ ys)
      ≡ first_of_two (find_key alert_id id xs) (find_key alert_id id ys)
find_key-append id [] ys = refl
find_key-append id (x ∷ xs) ys = ground (arith, find_key-append id xs ys)

fired-id : (fired : FiredDetection) → (fired_detection_to_alert fired).id ≡ fired.event_id
unfolding fired_detection_to_alert
fired-id fired = refl

-- What a detection makes of the rows of the queue.
pub record IsUpdated (fired : FiredDetection) (is_repeated : Bool) (before after : List Alert)
    : Type 0 where
  pub distinct : HasDistinctKeys alert_id after
  pub newest :
      is_repeated ≡ false
      → find_key alert_id fired.event_id after ≡ some (fired_detection_to_alert fired)
  pub repeated : is_repeated ≡ true → after ≡ before
  pub others :
      (id : String)
      → str_eq fired.event_id id ≡ false
      → find_key alert_id id after ≡ find_key alert_id id before

queue_alerts-find_key :
    (id : String) (new_alerts initial_alerts : List Alert)
    → find_key alert_id id (queue_alerts new_alerts initial_alerts)
      ≡ first_of_two (find_key alert_id id new_alerts) (find_key alert_id id initial_alerts)
unfolding queue_alerts
queue_alerts-find_key id new_alerts initial_alerts =
    find_key-dedup alert_id id (new_alerts ++ initial_alerts)
    ∙ find_key-append id new_alerts initial_alerts

added-IsUpdated :
    (fired : FiredDetection) (old new initial : List Alert)
    → new ≡ fired_detection_to_alert fired ∷ old
    → IsUpdated fired false (queue_alerts old initial) (queue_alerts new initial)
unfolding queue_alerts
added-IsUpdated fired old new initial e = record {
  distinct = dedup-HasDistinctKeys alert_id [] (new ++ initial);
  newest = λ n.
      rw
        (
          queue_alerts-find_key fired.event_id new initial,
          e,
          fired-id fired,
          eq_refl fired.event_id,
        )
        refl;
  repeated = λ o. absurd (ground arith);
  others = λ id n.
      rw
        (
          queue_alerts-find_key id new initial,
          queue_alerts-find_key id old initial,
          e,
          fired-id fired,
          n,
        )
        refl;
}

-- A detection that arrives over a live socket while the component is there: no id has two rows; if
-- its key is new, its alert is the row of its event, in place of any older one of the feed or the page;
-- if its key came before, the queue stays as it is; and no other id's row changes.
pub live_alerts-IsUpdated :
    (before : List Event) (fired : FiredDetection) (initial_alerts : List Alert)
    → (run before mounted).link ≡ socket
    → (run before mounted).is_mounted ≡ true
    → IsUpdated fired
        (holds (key_of fired) (run before mounted).new_alerts)
        (live_alerts (run before mounted) initial_alerts)
        (live_alerts (run (before ++ message (some fired) ∷ []) mounted) initial_alerts)
unfolding queue_alerts
live_alerts-IsUpdated before fired initial_alerts l m =
    let added = run-IsAdded before fired l m in
    let old = map fired_detection_to_alert (run before mounted).new_alerts in
    elim (Bool-cases (holds (key_of fired) (run before mounted).new_alerts)) [
      | inl again ↦
          rw (added.repeated again, again)
            (record {
              distinct = dedup-HasDistinctKeys alert_id [] (old ++ initial_alerts);
              newest = λ n. absurd (ground arith);
              repeated = λ o. refl;
              others = λ id n. refl;
            })
      | inr fresh ↦ rw fresh (
          added-IsUpdated fired old _ initial_alerts
            (ap (map fired_detection_to_alert) (added.first fresh)))
    ]

-- Whatever one counts, the closed group and the two tabs have together what the list has: no alert
-- is in two of them, and none is left out.
pub tabs-Partition :
    (p : Alert → Bool) (alerts : List Alert)
    → length (filter p alerts)
      ≡ length (filter p (auto_closed_alerts alerts))
        + length (filter p (filtered_alerts in_flight alerts))
        + length (filter p (filtered_alerts awaiting_review alerts))
unfolding auto_closed_alerts filtered_alerts tab_alerts
tabs-Partition p [] = refl
tabs-Partition p (a ∷ rest) = ground (arith, tabs-Partition p rest)
