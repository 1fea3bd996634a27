-- ===== src/Waitlist/Delivery.antt =====
-- When a request to join the waitlist is delivered.
use attest.Prelude.{
  ℕ, String, ◌≡◌, ◌≢◌, refl, Option, none, some, List, [], ◌∷◌, Bool, true, false, str_eq,
  Bool-cases, inl, inr, arith,
}
use attest.Prelude.Text.{is_empty}
use attest.RateLimit.{Hits, waitlist_limits, rate_limited}
use attest.Waitlist.{
  Form, WaitlistInput, Mail, Environment, MailAnswer, unreachable, answered, Reply, refused,
  accepted, crashed, Body, invalid, form, fallback_sender, is_ok, deliver, mail_of, is_bot, or_else,
  submit, safe_parse, submit_parsed, read_body, first_address, waitlist_post,
}

abbrev pub is_delivered : Reply → Bool
is_delivered (accepted (some b)) = b
is_delivered (accepted none) = false
is_delivered (refused status message) = false
is_delivered crashed = false

-- Whether the mail service took the last of the mails that were sent.
abbrev took : MailAnswer → Bool
took unreachable = false
took (answered status detail) = is_ok status

abbrev pub was_taken : List Mail → MailAnswer → MailAnswer → Bool
was_taken [] first second = false
was_taken (m ∷ []) first second = took first
was_taken (m ∷ n ∷ rest) first second = took second

-- At most two mails, the second being the first from the fallback sender.
abbrev pub IsRetried : List Mail → Type 0
IsRetried [] = Unit {0}
IsRetried (m ∷ []) = Unit {0}
IsRetried (m ∷ n ∷ []) =
    (n ≡ record m { sender = fallback_sender }) × (str_eq m.sender fallback_sender ≡ false)
IsRetried (m ∷ n ∷ o ∷ rest) = ⊥

-- The two facts of one result.
record Honest (first second : MailAnswer) (reply : Reply) (sent : List Mail) : Type 0 where
  delivered : is_delivered reply ≡ was_taken sent first second
  retried : IsRetried sent

deliver-Honest :
    (mail : Mail) (first second : MailAnswer)
    → Honest first second (deliver mail first second).0 (deliver mail first second).1
unfolding deliver
deliver-Honest mail unreachable second = ground arith
deliver-Honest mail (answered status detail) unreachable = ground arith
deliver-Honest mail (answered status detail) (answered status' detail') = ground arith

submit-Honest :
    (env : Environment) (first second : MailAnswer) (ip : String) (input : WaitlistInput)
    → Honest first second (submit env first second ip input).0 (submit env first second ip input).1
unfolding submit
submit-Honest env first second ip input = elim (Bool-cases (is_bot input)) [
  | inl bot ↦ rw bot (record { delivered = refl; retried = tt })
  | inr human ↦ rw human (elim (Bool-cases (is_empty (or_else env.api_key ""))) [
    | inl no_key ↦ rw no_key (elim (Bool-cases env.is_production) [
      | inl live ↦ rw live (record { delivered = refl; retried = tt })
      | inr local ↦ rw local (record { delivered = refl; retried = tt })
    ])
    | inr key ↦ rw key (deliver-Honest (mail_of env input ip) first second)
  ])
]

submit_parsed-Honest :
    (env : Environment) (first second : MailAnswer) (ip : String) (parsed : Option WaitlistInput)
    → Honest first second
        (submit_parsed env first second ip parsed).0
        (submit_parsed env first second ip parsed).1
unfolding submit_parsed
submit_parsed-Honest env first second ip none = record { delivered = refl; retried = tt }
submit_parsed-Honest env first second ip (some input) = submit-Honest env first second ip input

read_body-Honest :
    (is_email : String → Bool) (env : Environment) (first second : MailAnswer) (ip : String)
    (body : Body)
    → Honest first second
        (read_body is_email env first second ip body).0
        (read_body is_email env first second ip body).1
unfolding read_body
read_body-Honest is_email env first second ip invalid = record { delivered = refl; retried = tt }
read_body-Honest is_email env first second ip (form f) =
    submit_parsed-Honest env first second ip (safe_parse is_email f)

waitlist_post-Honest :
    (is_email : String → Bool) (env : Environment) (first second : MailAnswer) (now : ℕ)
    (forwarded : Option String) (body : Body) (hits : Hits)
    → Honest first second
        (waitlist_post is_email env first second now forwarded body hits).reply
        (waitlist_post is_email env first second now forwarded body hits).sent
unfolding waitlist_post
waitlist_post-Honest is_email env first second now forwarded body hits =
    elim (Bool-cases (rate_limited waitlist_limits now (first_address forwarded) hits).0) [
      | inl limited ↦ rw limited (record { delivered = refl; retried = tt })
      | inr passed ↦
          rw passed (read_body-Honest is_email env first second (first_address forwarded) body)
    ]

-- Whatever the body, the configuration and the mail service's answers: the response says that the
-- request was delivered exactly when a mail was sent and the service took the last one that was sent.
pub waitlist_post-delivered :
    (is_email : String → Bool) (env : Environment) (first second : MailAnswer) (now : ℕ)
    (forwarded : Option String) (body : Body) (hits : Hits)
    → is_delivered (waitlist_post is_email env first second now forwarded body hits).reply
      ≡ was_taken
          (waitlist_post is_email env first second now forwarded body hits).sent
          first
          second
waitlist_post-delivered is_email env first second now forwarded body hits =
    (waitlist_post-Honest is_email env first second now forwarded body hits).delivered

-- A request sends at most two mails, and the second is the first one again from the fallback sender,
-- which the first one did not have.
pub waitlist_post-IsRetried :
    (is_email : String → Bool) (env : Environment) (first second : MailAnswer) (now : ℕ)
    (forwarded : Option String) (body : Body) (hits : Hits)
    → IsRetried (waitlist_post is_email env first second now forwarded body hits).sent
waitlist_post-IsRetried is_email env first second now forwarded body hits =
    (waitlist_post-Honest is_email env first second now forwarded body hits).retried

-- An acceptance that stands for a mail.
abbrev pub IsMailed : Option Bool → List Mail → Type 0
IsMailed local sent = (local ≡ some true) × (sent ≢ [])

deliver-IsMailed :
    (mail : Mail) (first second : MailAnswer) (local : Option Bool)
    → (deliver mail first second).0 ≡ accepted local
    → IsMailed local (deliver mail first second).1
unfolding deliver
deliver-IsMailed mail unreachable second local r = ground arith
deliver-IsMailed mail (answered status detail) unreachable local r = ground arith
deliver-IsMailed mail (answered status detail) (answered status' detail') local r = ground arith

submit-IsMailed :
    (env : Environment) (first second : MailAnswer) (ip : String) (input : WaitlistInput)
    (local : Option Bool)
    → env.is_production ≡ true
    → is_bot input ≡ false
    → (submit env first second ip input).0 ≡ accepted local
    → IsMailed local (submit env first second ip input).1
unfolding submit
submit-IsMailed env first second ip input local live human r =
    elim (Bool-cases (is_empty (or_else env.api_key ""))) [
      | inl no_key ↦ absurd (ground arith)
      | inr key ↦
          rw (human, key)
            (deliver-IsMailed (mail_of env input ip) first second local (rw (human, key) at r))
    ]

-- In production a request that fills the form correctly, passes the limiter and is no bot's is never
-- accepted without a mail: it is delivered, refused, or ends in an error.
pub waitlist_post-in_production :
    (is_email : String → Bool) (env : Environment) (first second : MailAnswer) (now : ℕ)
    (forwarded : Option String) (f : Form) (input : WaitlistInput) (hits : Hits)
    (local : Option Bool)
    → env.is_production ≡ true
    → safe_parse is_email f ≡ some input
    → is_bot input ≡ false
    → (waitlist_post is_email env first second now forwarded (form f) hits).reply ≡ accepted local
    → IsMailed local (waitlist_post is_email env first second now forwarded (form f) hits).sent
unfolding waitlist_post read_body submit_parsed
waitlist_post-in_production is_email env first second now forwarded f input hits local live good
      human r =
    elim (Bool-cases (rate_limited waitlist_limits now (first_address forwarded) hits).0) [
      | inl limited ↦ absurd (ground arith)
      | inr passed ↦
          rw (passed, good)
            (submit-IsMailed env first second (first_address forwarded) input local live human
              (rw (passed, good) at r))
    ]
