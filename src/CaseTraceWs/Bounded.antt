-- ===== src/CaseTraceWs/Bounded.antt =====
-- How a connection retries, and which sockets it opens.
use attest.Prelude.{
  ℕ, ◌+◌, ◌≤◌, String, ◌≡◌, refl, some, List, [], ◌∷◌, Bool-cases, inl, inr, arith, if◌then◌else◌,
}
use attest.Prelude.Text.{is_empty}
use attest.CaseStore.{Cases}
use attest.CaseTraceWs.{
  Trace, Event, Link, Message, token, message, fetching, socket, retrying, ignored, step_of, body,
  unusable, receive, on, step, run, mounted, first_retry, max_retry,
}

-- One token that was granted.
abbrev granted : Event → ℕ
granted (token (body (some s))) = if is_empty s then 0 else 1
granted _ = 0

abbrev pub all_granted : List Event → ℕ
all_granted [] = 0
all_granted (e ∷ rest) = granted e + all_granted rest

-- The delay in force and that of a retry that is pending; and no socket without a token.
pub record IsBounded (grants : ℕ) (t : Trace) : Type 0 where
  pub least : first_retry ≤ t.retry_ms
  pub most : t.retry_ms ≤ max_retry
  pub pending : (delay : ℕ) → t.link ≡ retrying delay → (first_retry ≤ delay) × (delay ≤ max_retry)
  pub with_token : t.sockets ≤ grants
  pub asked : (t.link ≡ fetching → t.sockets + 1 ≤ t.tokens) × (t.sockets ≤ t.tokens)

module _ (case_id : String) where
  receive-IsBounded :
      (m : Message) (now g : ℕ) (t : Trace) → IsBounded g t → IsBounded g (receive case_id m now t)
  unfolding receive
  receive-IsBounded ignored now g t h = h
  receive-IsBounded (step_of s) now g t h = elim (Bool-cases (unusable s)) [
    | inl bad ↦ rw bad h
    | inr good ↦ rw good (record {
      least = h.least;
      most = h.most;
      pending = h.pending;
      with_token = h.with_token;
      asked = h.asked;
    })
  ]

  on-IsBounded :
      (event : Event) (link : Link) (g : ℕ) (t : Trace)
      → t.link ≡ link
      → IsBounded g t
      → IsBounded (granted event + g) (on case_id event link t)
  unfolding on
  on-IsBounded (message m now) socket g t e h =
      let same : 0 + g ≡ g = omega arith in rw same (receive-IsBounded m now g t h)
  on-IsBounded event link g t e h = ground arith

  run-IsBounded_from :
      (events : List Event) (g : ℕ) (t : Trace)
      → IsBounded g t
      → IsBounded (all_granted events + g) (run case_id events t)
  unfolding run step
  run-IsBounded_from [] g t h = let same : 0 + g ≡ g = omega arith in rw same h
  run-IsBounded_from (e ∷ rest) g t h =
      let same : granted e + all_granted rest + g ≡ all_granted rest + (granted e + g) =
        omega arith in
      rw same (
        run-IsBounded_from rest (granted e + g) (step case_id e t)
          (on-IsBounded e t.link g t refl h))

  -- From the mounting on, whatever happens: the delay in force and that of a pending retry are between
  -- half a second and 32 seconds, there is never a socket for which no token was granted, and every
  -- socket has had a request for a token of its own.
  pub run-IsBounded :
      (events : List Event) (cases : Cases)
      → IsBounded (all_granted events) (run case_id events (mounted cases))
  run-IsBounded events cases =
      let same : all_granted events + 0 ≡ all_granted events = omega arith in
      rw (← same) (run-IsBounded_from events 0 (mounted cases) (ground arith))
