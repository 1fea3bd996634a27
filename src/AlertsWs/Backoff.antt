-- ===== src/AlertsWs/Backoff.antt =====
-- How the feed retries.
use attest.Prelude.{
  ℕ, zero, suc, ◌*◌, ◌+◌, ◌^◌, ◌≤◌, min, ◌≡◌, refl, ap, ◌∙◌, Option, none, some, leb, inl, inr,
  if◌then◌else◌, Bool-cases, List, [], ◌∷◌, arith,
}
use native.Mathlib.Nat.{mul-le-mul_right, mul_assoc, mul_comm, one-le-pow}
use native.Mathlib.Numerals.{unary_clauses}
use attest.AlertsWs.{
  Feed, FiredDetection, Event, Link, message, closed, timeout, unmount, socket, retrying,
  disconnected, receive, on, step, run, mounted, first_retry, max_retry,
}

-- The delay in force, and the one of a retry that is pending.
pub record IsPaced (feed : Feed) : Type 0 where
  pub least : first_retry ≤ feed.retry_ms
  pub most : feed.retry_ms ≤ max_retry
  pub pending : (delay : ℕ) → feed.link ≡ retrying delay → delay ≡ feed.retry_ms

receive-IsPaced :
    (m : Option FiredDetection) (feed : Feed) → IsPaced feed → IsPaced (receive m feed)
unfolding receive
receive-IsPaced none feed h = h
receive-IsPaced (some fired) feed h = ground arith

on-IsPaced :
    (event : Event) (feed : Feed) (link : Link)
    → feed.link ≡ link
    → IsPaced feed
    → IsPaced (on event link feed)
unfolding on
on-IsPaced (message m) feed socket e h = receive-IsPaced m feed h
on-IsPaced event feed link e h = ground arith

run-IsPaced_from : (events : List Event) (feed : Feed) → IsPaced feed → IsPaced (run events feed)
unfolding run step
run-IsPaced_from [] feed h = h
run-IsPaced_from (e ∷ rest) feed h =
    run-IsPaced_from rest (step e feed) (on-IsPaced e feed feed.link refl h)

-- After any events the delay before a retry is between one second and 32 seconds, and a retry that is
-- pending waits for the delay in force.
pub run-IsPaced : (events : List Event) → IsPaced (run events mounted)
run-IsPaced events = run-IsPaced_from events mounted (ground arith)

-- So many attempts that fail one after the other, each followed by its retry.
abbrev pub failures : ℕ → List Event
failures zero = []
failures (suc k) = closed ∷ timeout ∷ failures k

retries : ℕ → ℕ → ℕ
retries zero r = r
retries (suc k) r = retries k (min (r * 2) max_retry)

pub record IsRetrying (delay attempts : ℕ) (feed : Feed) : Type 0 where
  pub live : feed.link ≡ socket
  pub delay_next : feed.retry_ms ≡ delay
  pub tried : feed.sockets ≡ attempts

abbrev pub tried_again : Feed → Feed
tried_again feed = record feed {
  ws_status = if feed.is_mounted then disconnected else feed.ws_status;
  retry_ms = min (feed.retry_ms * 2) max_retry;
  link = socket;
  sockets = feed.sockets + 1;
}

failed_once :
    (feed : Feed) (rest : List Event)
    → feed.link ≡ socket
    → run (closed ∷ timeout ∷ rest) feed ≡ run rest (tried_again feed)
unfolding run step on
failed_once feed rest l = rw l refl

add_suc : (n k : ℕ) → n + suc k ≡ n + 1 + k
add_suc n k = ground arith

run-failures :
    (k : ℕ) (feed : Feed) (r : ℕ)
    → feed.link ≡ socket
    → feed.retry_ms ≡ r
    → IsRetrying (retries k r) (feed.sockets + k) (run (failures k) feed)
unfolding run retries
run-failures zero feed r l e = record { live = l; delay_next = e; tried = ground arith }
run-failures (suc k) feed r l e = rw (failed_once feed (failures k) l) (
    rw (add_suc feed.sockets k)
      (run-failures k (tried_again feed) (min (r * 2) max_retry) refl (rw e refl)))

doubled : (r p : ℕ) → r * 2 * p ≡ r * (p * 2)
doubled r p = rw (mul_assoc r 2 p) (ap (λ x. r * x) (mul_comm 2 p))

one_more :
    (p r : ℕ) → 1 ≤ p → min (min (r * 2) max_retry * p) max_retry ≡ min (r * (p * 2)) max_retry
one_more p r h = elim (Bool-cases (leb (r * 2) max_retry)) [
  | inl small ↦
      let m : min (r * 2) max_retry ≡ r * 2 = ground arith in
      rw m (ap (λ x. min x max_retry) (doubled r p))
  | inr large ↦
      let m : min (r * 2) max_retry ≡ max_retry = ground arith in
      let b : max_retry * p ≤ r * 2 * p = mul-le-mul_right p (ground arith) in
      rw (m, ← doubled r p) (ground (arith, b))
]

retries_closed : (k : ℕ) (r : ℕ) → r ≤ max_retry → retries k r ≡ min (r * 2 ^ k) max_retry
unfolding retries
retries_closed zero r h = ground arith
retries_closed (suc k) r h = simp unary_clauses (
    retries_closed k (min (r * 2) max_retry) (ground arith)
    ∙ one_more (2 ^ k) r (one-le-pow k 2 (ground arith)))

-- When every one of the first k attempts fails, the feed has opened k + 1 sockets, and would wait
-- 2 ^ k seconds, but never more than 32, before the next retry.
pub run-failures_closed :
    (k : ℕ) → IsRetrying (min (first_retry * 2 ^ k) max_retry) (1 + k) (run (failures k) mounted)
run-failures_closed k =
    rw (← retries_closed k first_retry (ground arith))
      (run-failures k mounted first_retry refl refl)

-- Unmounting the component closes its socket, but not the feed: when the socket reports that it is
-- closed, a retry is scheduled, and when that is due a new socket is opened.
pub reconnect_after_unmount :
    (feed : Feed)
    → feed.link ≡ socket
    → IsRetrying
        (min (feed.retry_ms * 2) max_retry)
        (feed.sockets + 1)
        (run (unmount ∷ closed ∷ timeout ∷ []) feed)
unfolding run step on
reconnect_after_unmount feed h = rw h (record { live = refl; delay_next = refl; tried = refl })
