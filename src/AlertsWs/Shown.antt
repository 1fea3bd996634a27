-- ===== src/AlertsWs/Shown.antt =====
-- What the feed shows against everything that was received.
use attest.Prelude.{
  String, ◌≡◌, refl, ap, sym, ◌∙◌, Option, none, some, List, [], ◌∷◌, ◌++◌, map, Bool, true, false,
  any, str_eq, eq_refl, Bool-cases, inl, inr, arith,
}
use attest.AlertsWs.{
  FiredDetection, Feed, Event, Link, message, socket, key_of, receive, on, step, run, mounted,
}

abbrev pub holds : String → List FiredDetection → Bool
holds key alerts = any (λ a. str_eq (key_of a) key) alerts

-- No two alerts have one key.
abbrev pub HasDistinctKeys : List FiredDetection → Type 0
HasDistinctKeys [] = Unit {0}
HasDistinctKeys (a ∷ alerts) = (holds (key_of a) alerts ≡ false) × HasDistinctKeys alerts

-- No two alerts have one key, and while the component is there, the keys that were seen are those of
-- the alerts shown.
pub record IsFaithful (feed : Feed) : Type 0 where
  pub seen : feed.is_mounted ≡ true → feed.seen_ids ≡ map key_of feed.new_alerts
  pub distinct : HasDistinctKeys feed.new_alerts

any-map :
    (key : String) (alerts : List FiredDetection)
    → any (λ s. str_eq s key) (map key_of alerts) ≡ holds key alerts
any-map key [] = refl
any-map key (a ∷ alerts) = ground (arith, any-map key alerts)

receive-IsFaithful :
    (m : Option FiredDetection) (feed : Feed) → IsFaithful feed → IsFaithful (receive m feed)
unfolding receive
receive-IsFaithful none feed h = h
receive-IsFaithful (some fired) feed h =
    elim (Bool-cases (any (λ s. str_eq s (key_of fired)) feed.seen_ids)) [
      | inl old ↦ rw old h
      | inr new ↦ elim (Bool-cases feed.is_mounted) [
        | inl there ↦
            rw (new, there)
              (let unseen : any (λ s. str_eq s (key_of fired)) (map key_of feed.new_alerts)
                    ≡ false =
                  rw (← h.seen there) new in
                record {
                  seen = λ m. ap (λ keys. key_of fired ∷ keys) (h.seen there);
                  distinct = ((sym (any-map (key_of fired) feed.new_alerts)) ∙ unseen, h.distinct);
                })
        | inr away ↦
            rw (new, away) (record { seen = λ m. absurd (ground arith); distinct = h.distinct })
      ]
    ]

on-IsFaithful :
    (event : Event) (link : Link) (feed : Feed) → IsFaithful feed → IsFaithful (on event link feed)
unfolding on
on-IsFaithful (message m) socket feed h = receive-IsFaithful m feed h
on-IsFaithful event link feed h = ground arith

run-IsFaithful_from :
    (events : List Event) (feed : Feed) → IsFaithful feed → IsFaithful (run events feed)
unfolding run step
run-IsFaithful_from [] feed h = h
run-IsFaithful_from (e ∷ rest) feed h =
    run-IsFaithful_from rest (step e feed) (on-IsFaithful e feed.link feed h)

-- Whatever the server sends and however often the connection breaks and is made again, no two alerts
-- of the feed are of one detection and event, and while the component is there the keys remembered are
-- those of the alerts.
pub run-IsFaithful : (events : List Event) → IsFaithful (run events mounted)
run-IsFaithful events =
    run-IsFaithful_from events mounted (record { seen = λ m. refl; distinct = tt })

receive-holds :
    (key : String) (m : Option FiredDetection) (feed : Feed)
    → holds key feed.new_alerts ≡ true
    → holds key (receive m feed).new_alerts ≡ true
unfolding receive
receive-holds key none feed h = h
receive-holds key (some fired) feed h = ground arith

on-holds :
    (key : String) (event : Event) (link : Link) (feed : Feed)
    → holds key feed.new_alerts ≡ true
    → holds key (on event link feed).new_alerts ≡ true
unfolding on
on-holds key (message m) socket feed h = receive-holds key m feed h
on-holds key event link feed h = ground arith

run-holds :
    (key : String) (events : List Event) (feed : Feed)
    → holds key feed.new_alerts ≡ true
    → holds key (run events feed).new_alerts ≡ true
unfolding run step
run-holds key [] feed h = h
run-holds key (e ∷ rest) feed h = run-holds key rest (step e feed) (on-holds key e feed.link feed h)

receive-holds_key :
    (fired : FiredDetection) (feed : Feed)
    → IsFaithful feed
    → feed.is_mounted ≡ true
    → holds (key_of fired) (receive (some fired) feed).new_alerts ≡ true
unfolding receive
receive-holds_key fired feed h m =
    elim (Bool-cases (any (λ s. str_eq s (key_of fired)) feed.seen_ids)) [
      | inl old ↦ rw old (sym (any-map (key_of fired) feed.new_alerts) ∙ rw (← h.seen m) old)
      | inr new ↦ rw (new, m) (ground (arith, eq_refl (key_of fired)))
    ]

run-append :
    (before after : List Event) (feed : Feed)
    → run (before ++ after) feed ≡ run after (run before feed)
unfolding run
run-append [] after feed = refl
run-append (e ∷ before) after feed = run-append before after (step e feed)

-- A detection that arrives over a live socket while the component is there is shown, then and after
-- any further events: unless an alert of its key was there already, it is added, and no alert ever
-- leaves the feed.
pub run-shows :
    (before after : List Event) (fired : FiredDetection)
    → (run before mounted).link ≡ socket
    → (run before mounted).is_mounted ≡ true
    → holds (key_of fired) (run (before ++ message (some fired) ∷ after) mounted).new_alerts ≡ true
unfolding run step on
run-shows before after fired h m = rw (run-append before (message (some fired) ∷ after) mounted) (
    run-holds (key_of fired) after _
      (rw h (receive-holds_key fired (run before mounted) (run-IsFaithful before) m)))

-- What a message over a live socket makes of the alerts of a component that is there: one whose key is
-- new goes first, any other changes nothing.
pub record IsAdded (fired : FiredDetection) (before after : List FiredDetection) : Type 0 where
  pub first : holds (key_of fired) before ≡ false → after ≡ fired ∷ before
  pub repeated : holds (key_of fired) before ≡ true → after ≡ before

receive-IsAdded :
    (fired : FiredDetection) (feed : Feed)
    → IsFaithful feed
    → feed.is_mounted ≡ true
    → IsAdded fired feed.new_alerts (receive (some fired) feed).new_alerts
unfolding receive
receive-IsAdded fired feed h m =
    rw (h.seen m, any-map (key_of fired) feed.new_alerts, m)
      (record { first = λ n. rw n refl; repeated = λ o. rw o refl })

pub run-IsAdded :
    (before : List Event) (fired : FiredDetection)
    → (run before mounted).link ≡ socket
    → (run before mounted).is_mounted ≡ true
    → IsAdded fired
        (run before mounted).new_alerts
        (run (before ++ message (some fired) ∷ []) mounted).new_alerts
unfolding run step on
run-IsAdded before fired h m =
    rw (run-append before (message (some fired) ∷ []) mounted, h)
      (receive-IsAdded fired (run before mounted) (run-IsFaithful before) m)
