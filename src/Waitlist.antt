-- ===== src/Waitlist.antt =====
-- The waitlist: the form's schema and the mail (apps/workbench/src/lib/waitlist.ts) and the endpoint
-- (apps/workbench/src/app/api/waitlist/route.ts). Whether a text is an e-mail address is decided by
-- the validation library, and is a parameter; what the mail service answers is an input. The length
-- of a text is counted in code points.
pub mod Delivery
mod Tests
use Prim.Native.String.{◌++◌ as text_append}
use attest.Prelude.{
  ℕ, String, Option, none, some, List, [], ◌∷◌, Bool, true, false, ◌&&◌, ◌||◌, not, leb, length,
  str_eq, if◌then◌else◌,
}
use attest.Prelude.Text.{codes, includes, is_empty, trim, before_comma}
use attest.RateLimit.{Hits, waitlist_limits, rate_limited}

pub data Role : Type 0 where
  security_engineer ciso founder investor researcher other : Role

-- `z.enum(WAITLIST_ROLES)`
unfoldable pub role_of : String → Option Role
role_of s =
    if str_eq s "security_engineer"
    then some security_engineer
    else if str_eq s "ciso"
    then some ciso
    else if str_eq s "founder"
    then some founder
    else if str_eq s "investor"
    then some investor
    else if str_eq s "researcher"
    then some researcher
    else if str_eq s "other"
    then some other
    else none

unfoldable pub role_label : Role → String
role_label security_engineer = "Security engineer"
role_label ciso = "CISO / security leader"
role_label founder = "Founder / operator"
role_label investor = "Investor"
role_label researcher = "Researcher"
role_label other = "Other"

-- The body's fields; one that is missing is `none`. A field that is no text does not pass the schema
-- and is outside this model.
pub record Form : Type 0 where
  pub name : Option String
  pub email : Option String
  pub company : Option String
  pub role : Option String
  pub message : Option String
  pub website : Option String

pub record WaitlistInput : Type 0 where
  pub name : String
  pub email : String
  pub company : Option String
  pub role : Role
  pub message : String
  pub website : Option String

abbrev text_length : String → ℕ
text_length s = length (codes s)

-- `z.string().trim().min(least).max(most)`
unfoldable pub trimmed : ℕ → ℕ → Option String → Option String
trimmed least most none = none
trimmed least most (some s) =
    let t = trim s in if leb least (text_length t) && leb (text_length t) most then some t else none

-- A field that may be missing: what the text becomes, if there is one and it passes.
abbrev optional_field : (Option String → Option String) → Option String → Option (Option String)
optional_field check none = some none
optional_field check (some s) = elim (check (some s)) [ none ↦ none | some t ↦ some (some t) ]

-- `z.string().max(most)`
abbrev at_most : ℕ → Option String → Option String
at_most most none = none
at_most most (some s) = if leb (text_length s) most then some s else none

abbrev role_field : Option String → Option Role
role_field none = none
role_field (some s) = role_of s

abbrev email_field : (String → Bool) → Option String → Option String
email_field is_email none = none
email_field is_email (some s) = if is_email s && leb (text_length s) 160 then some s else none

infixl 55 ◌>>=◌
abbrev ◌>>=◌ {ℓ κ} : {A : Type ℓ} {B : Type κ} → Option A → (A → Option B) → Option B
none >>= f = none
some a >>= f = f a

-- `waitlistSchema.safeParse`
unfoldable pub safe_parse : (String → Bool) → Form → Option WaitlistInput
safe_parse is_email form = do
  name ← trimmed 2 80 form.name
  email ← email_field is_email form.email
  company ← optional_field (trimmed 0 120) form.company
  role ← role_field form.role
  message ← trimmed 10 2000 form.message
  website ← optional_field (at_most 200) form.website
  some (record {
    name = name;
    email = email;
    company = company;
    role = role;
    message = message;
    website = website;
  })

-- `input.company?.trim() || "—"`
abbrev company_of : Option String → String
company_of none = "—"
company_of (some s) = let t = trim s in if is_empty t then "—" else t

abbrev join_lines : List String → String
join_lines [] = ""
join_lines (line ∷ []) = line
join_lines (line ∷ next ∷ rest) = text_append line (text_append "\n" (join_lines (next ∷ rest)))

abbrev pub mail_subject : WaitlistInput → String
mail_subject input =
    text_append "Attest waitlist: "
      (text_append input.name (text_append " (" (text_append (company_of input.company) ")")))

abbrev pub mail_text : WaitlistInput → String → String
mail_text input ip = join_lines (
    "Someone requested access to Attest."
    ∷ ""
    ∷ text_append "Name:     " input.name
    ∷ text_append "Email:    " input.email
    ∷ text_append "Company:  " (company_of input.company)
    ∷ text_append "Role:     " (role_label input.role)
    ∷ text_append "IP:       " ip
    ∷ ""
    ∷ "Why they want to try it:"
    ∷ input.message
    ∷ ""
    ∷ "Reply to this email to reach them."
    ∷ [])

pub record Mail : Type 0 where
  pub sender : String
  pub to : String
  pub reply_to : String
  pub subject : String
  pub text : String

-- `process.env`
pub record Environment : Type 0 where
  pub api_key : Option String
  pub sender : Option String
  pub notify_to : Option String
  pub is_production : Bool

-- What the mail service does with a request: it cannot be reached, or it answers with a status and a
-- text, which is taken to be readable.
pub data MailAnswer : Type 0 where
  unreachable : MailAnswer
  answered : ℕ → String → MailAnswer

-- `delivered` where the response has the field.
pub data Reply : Type 0 where
  refused : ℕ → String → Reply
  accepted : Option Bool → Reply
  crashed : Reply

pub record Outcome : Type 0 where
  pub reply : Reply
  pub hits : Hits
  pub sent : List Mail

abbrev pub fallback_sender : String
fallback_sender = "Attest Waitlist <onboarding@resend.dev>"

-- `value?.trim() || fallback`
abbrev pub or_else : Option String → String → String
or_else none fallback = fallback
or_else (some s) fallback = let t = trim s in if is_empty t then fallback else t

-- `res.ok`
abbrev pub is_ok : ℕ → Bool
is_ok status = leb 200 status && leb status 299

abbrev pub is_unverified : String → Bool
is_unverified detail =
    includes (codes "domain is not verified") (codes detail)
    || includes (codes "not verified") (codes detail)

abbrev pub send_failed : Reply
send_failed = refused 502 "Could not send the request. Try again shortly."

-- The reply to the last request to the mail service.
abbrev pub last_answer : MailAnswer → Reply
last_answer unreachable = crashed
last_answer (answered status detail) = if is_ok status then accepted (some true) else send_failed

-- One request, or a second one from the fallback sender.
unfoldable pub deliver : Mail → MailAnswer → MailAnswer → Reply × List Mail
deliver mail unreachable second = (crashed, mail ∷ [])
deliver mail (answered status detail) second =
    if is_ok status || str_eq mail.sender fallback_sender
    then (last_answer (answered status detail), mail ∷ [])
    else if is_unverified detail
    then (last_answer second, mail ∷ record mail { sender = fallback_sender } ∷ [])
    else (send_failed, mail ∷ [])

abbrev pub mail_of : Environment → WaitlistInput → String → Mail
mail_of env input ip = record {
  sender = or_else env.sender "Attest Waitlist <admin@homaid.dev>";
  to = or_else env.notify_to "mohamed@homaid.dev";
  reply_to = input.email;
  subject = mail_subject input;
  text = mail_text input ip;
}

-- The honeypot.
abbrev pub is_bot : WaitlistInput → Bool
is_bot input = not (is_empty (or_blank input.website))
  where
    or_blank : Option String → String
    or_blank none = ""
    or_blank (some s) = s

unfoldable pub submit :
    Environment → MailAnswer → MailAnswer → String → WaitlistInput → Reply × List Mail
submit env first second ip input =
    if is_bot input
    then (accepted none, [])
    else if is_empty (or_else env.api_key "")
    then (
      (if env.is_production
          then refused 503 "Waitlist email is not configured yet."
          else accepted (some false)),
      [],
    )
    else deliver (mail_of env input ip) first second

-- A body that is not JSON, or one with the form's fields.
pub data Body : Type 0 where
  invalid : Body
  form : Form → Body

unfoldable pub submit_parsed :
    Environment → MailAnswer → MailAnswer → String → Option WaitlistInput → Reply × List Mail
submit_parsed env first second ip none = (refused 400 "Check the form and try again.", [])
submit_parsed env first second ip (some input) = submit env first second ip input

unfoldable pub read_body :
    (String → Bool) → Environment → MailAnswer → MailAnswer → String → Body → Reply × List Mail
read_body is_email env first second ip invalid = (refused 400 "Invalid JSON", [])
read_body is_email env first second ip (form f) =
    submit_parsed env first second ip (safe_parse is_email f)

abbrev pub first_address : Option String → String
first_address none = "unknown"
first_address (some forwarded) = or_else (some (before_comma forwarded)) "unknown"

unfoldable pub waitlist_post :
    (String → Bool)
    → Environment
    → MailAnswer
    → MailAnswer
    → ℕ
    → Option String
    → Body
    → Hits
    → Outcome
waitlist_post is_email env first second now forwarded body hits =
    let ip = first_address forwarded in
    let (limited, after) = rate_limited waitlist_limits now ip hits in
    if limited
    then record {
      reply = refused 429 "Too many requests. Try again in an hour.";
      hits = after;
      sent = [];
    }
    else let (reply, sent) = read_body is_email env first second ip body in
      record { reply = reply; hits = after; sent = sent }
