-- ===== src/DemoRun.antt =====
-- The public demo endpoint (apps/workbench/src/app/api/demo/run/route.ts): POST, from the client's
-- address to the response. What the collector, the orchestrator and the two attestation endpoints
-- answer is an input; so is the clock. The payloads of a scenario are not modelled, only its id
-- (apps/workbench/src/lib/scenarios.ts).
pub mod Honest
pub mod Proved
pub mod Effects
mod Tests
use Prim.Native.String.{◌++◌ as text_append}
use attest.Prelude.{
  ℕ, String, Option, none, some, List, [], ◌∷◌, Bool, true, false, ◌&&◌, ◌||◌, not, any, leb,
  length, drop, take_last, str_eq, if◌then◌else◌,
}
use attest.Prelude.Text.{codes, includes, decimal, is_empty, trim, before_comma}
use attest.RateLimit.{Hits, demo_limits, rate_limited}

pub record Envelope : Type 0 where
  pub agent_action_id : String
  pub case_id : String
  pub tenant_id : String
  pub verdict : String
  pub execution_path : String
  pub prev_hash : String
  pub signature : String
  pub signed_at : String

pub record CheckResult : Type 0 where
  pub action_id : String
  pub ok : Bool
  pub detail : String

pub record Report : Type 0 where
  pub ok : Bool
  pub passed : ℕ
  pub total : ℕ
  pub verifying_key : String
  pub durable : Bool
  pub results : List CheckResult

-- `{ ok, error? }`
pub record Service : Type 0 where
  pub ok : Bool
  pub error : Option String

pub record DemoRunResponse : Type 0 where
  pub ok : Bool
  pub error : Option String
  pub event_ids : List String
  pub action_id : String
  pub verdict : String
  pub execution_path : String
  pub tenant_id : String
  pub envelope : Option Envelope
  pub verify : Option Report
  pub collector : Service
  pub orchestrator : Service

-- What `r.json()` comes to: it throws, with the text of the error, or it has a value.
pub data Read (A : Type 0) : Type 0 where
  unreadable : String → Read A
  read : A → Read A

-- What a `fetch` comes to: it throws, or there is a status and a body.
pub data Fetched (A : Type 0) : Type 0 where
  threw : String → Fetched A
  answered : ℕ → Read A → Fetched A

-- The bodies; a field that is missing or null is `none`. A report without `results` counts as one
-- that cannot be read, since `results.slice` throws.
pub record CollectorBody : Type 0 where
  pub event_ids : Option (List String)
  pub error : Option String

pub record TriageBody : Type 0 where
  pub action_id : Option String
  pub verdict : Option String
  pub execution_path : Option String

pub record EnvelopeBody : Type 0 where
  pub agent_action_id : Option String
  pub case_id : Option String
  pub tenant_id : Option String
  pub verdict : Option String
  pub execution_path : Option String
  pub prev_hash : Option String
  pub signature : Option String
  pub signed_at : Option String

-- `Promise.all` of the two attestation requests.
pub data Signed : Type 0 where
  rejected : String → Signed
  answers : ℕ → Read EnvelopeBody → ℕ → Read Report → Signed

pub record Upstreams : Type 0 where
  pub collector : Fetched CollectorBody
  pub triage : Fetched TriageBody
  pub signed : Signed

-- The requests that are sent on, in order.
pub data Sent : Type 0 where
  ingest : String → Sent
  triage : String → Sent
  attestation : String → Sent

pub record Outcome : Type 0 where
  pub status : ℕ
  pub response : DemoRunResponse
  pub hits : Hits
  pub sent : List Sent

abbrev pub demo_tenant : String
demo_tenant = "demo"

abbrev pub demo_scenario : String
demo_scenario = "geo_anomaly"

abbrev pub scenario_ids : List String
scenario_ids = "geo_anomaly" ∷ "brute_force" ∷ "root_account" ∷ "s3_exfil" ∷ "mfa_bypass" ∷ []

-- `getScenario(id)` is defined.
unfoldable pub is_scenario : String → Bool
is_scenario id = any (λ s. str_eq s id) scenario_ids

abbrev pub given {ℓ} : {A : Type ℓ} → A → Option A → A
given default none = default
given default (some value) = value

-- `!text`
abbrev pub falsy : Option String → Bool
falsy none = true
falsy (some text) = is_empty text

-- `r.ok`
abbrev pub is_ok : ℕ → Bool
is_ok status = leb 200 status && leb status 299

abbrev or_unknown : String → String
or_unknown ip = if is_empty ip then "unknown" else ip

-- The first address of `x-forwarded-for`.
unfoldable pub client_ip : Option String → String
client_ip none = "unknown"
client_ip (some forwarded) = or_unknown (trim (before_comma forwarded))

-- The scenario that the body names, which is taken to be a text; a body that cannot be read names none.
abbrev pub chosen : Option String → String
chosen none = demo_scenario
chosen (some id) = if is_empty id then demo_scenario else id

unfoldable pub friendly_fetch_error : String → String → String
friendly_fetch_error raw service =
    if includes (codes "fetch failed") (codes raw)
      || includes (codes "ECONNREFUSED") (codes raw)
      || includes (codes "AbortError") (codes raw)
    then text_append service " unreachable"
    else raw

-- A response before any service has answered.
abbrev pub blank : Option String → Service → Service → DemoRunResponse
blank error collector orchestrator = record {
  ok = false;
  error = error;
  event_ids = [];
  action_id = "";
  verdict = "unknown";
  execution_path = "classifier";
  tenant_id = demo_tenant;
  envelope = none;
  verify = none;
  collector = collector;
  orchestrator = orchestrator;
}

abbrev pub up : Service
up = record { ok = true; error = none }

abbrev pub down : Option String → Service
down error = record { ok = false; error = error }

-- `String(new Error(message))`
abbrev error_named : String → String
error_named message = if is_empty message then "Error" else text_append "Error: " message

-- The text of `new Error(error ?? `HTTP ${status}`)`.
abbrev error_text : Option String → ℕ → String
error_text error status = error_named (given (text_append "HTTP " (decimal status)) error)

abbrev collector_down : String → DemoRunResponse → DemoRunResponse
collector_down raw out = record out {
  collector = down (some (friendly_fetch_error raw "Collector"));
}

unfoldable pub collect : Fetched CollectorBody → DemoRunResponse → DemoRunResponse
unfolding friendly_fetch_error
collect (threw raw) out = collector_down raw out
collect (answered status (unreadable raw)) out = collector_down raw out
collect (answered status (read data')) out =
    if not (is_ok status) || not (falsy data'.error)
    then collector_down (error_text data'.error status) out
    else record out { event_ids = given [] data'.event_ids; collector = up }

-- The answer of the orchestrator, or the text of the error.
unfoldable pub triage_answer : Fetched TriageBody → Read TriageBody
triage_answer (threw raw) = unreadable raw
triage_answer (answered status body) =
    if is_ok status then body else unreadable (error_text none status)

abbrev pub triage_down : String → DemoRunResponse → DemoRunResponse
triage_down raw out = record out {
  orchestrator = down (some (friendly_fetch_error raw "Orchestrator"));
  error = some "Orchestrator is not reachable. The hosted demo needs the triage service up.";
}

abbrev pub triaged : TriageBody → DemoRunResponse → DemoRunResponse
triaged body out = record out {
  action_id = given "" body.action_id;
  verdict = given "unknown" body.verdict;
  execution_path = given "classifier" body.execution_path;
  orchestrator = up;
}

abbrev envelope_of : EnvelopeBody → DemoRunResponse → Envelope
envelope_of env out = record {
  agent_action_id = given out.action_id env.agent_action_id;
  case_id = given "" env.case_id;
  tenant_id = given demo_tenant env.tenant_id;
  verdict = given out.verdict env.verdict;
  execution_path = given out.execution_path env.execution_path;
  prev_hash = given "" env.prev_hash;
  signature = given "" env.signature;
  signed_at = given "" env.signed_at;
}

abbrev pub check_failed : String → DemoRunResponse → DemoRunResponse
check_failed raw out = record out {
  error = some (text_append "Signed, but verify API failed: " raw);
}

abbrev with_report : Bool → Read Report → DemoRunResponse → DemoRunResponse
with_report false body out = out
with_report true (unreadable raw) out = check_failed raw out
with_report true (read report) out = record out {
  verify = some (record report { results = take_last 5 report.results });
}

abbrev with_envelope :
    Bool → Read EnvelopeBody → ℕ → Read Report → DemoRunResponse → DemoRunResponse
with_envelope false env status report out = with_report (is_ok status) report out
with_envelope true (unreadable raw) status report out = check_failed raw out
with_envelope true (read env) status report out =
    with_report (is_ok status) report (record out { envelope = some (envelope_of env out) })

-- The envelope and the verification, for a triage that has an action.
unfoldable pub check : Signed → DemoRunResponse → DemoRunResponse
check (rejected raw) out = check_failed raw out
check (answers env_status env verify_status report) out =
    with_envelope (is_ok env_status) env verify_status report out

abbrev pub is_some {ℓ} : {A : Type ℓ} → Option A → Bool
is_some none = false
is_some (some value) = true

abbrev pub verified : Option Report → Bool
verified none = false
verified (some report) = report.ok

abbrev explained : DemoRunResponse → DemoRunResponse
explained out =
    if not out.ok && falsy out.error
    then record out {
      error = some (
          if is_some out.verify
          then "Envelope signed, but the log did not verify."
          else "Envelope signed, but the verify API is not available on this orchestrator.");
    }
    else out

-- The last lines: `ok`, and an error where there is none yet.
unfoldable pub finish : DemoRunResponse → DemoRunResponse
finish out =
    explained
      (record out { ok = out.orchestrator.ok && is_some out.envelope && verified out.verify })

abbrev pub checked : Signed → DemoRunResponse → DemoRunResponse
checked signed out = if is_empty out.action_id then out else check signed out

abbrev asked : String → DemoRunResponse → List Sent
asked id out =
    ingest id ∷ triage id ∷ (if is_empty out.action_id then [] else attestation out.action_id ∷ [])

-- The rest of the handler, once the orchestrator has answered.
after_triage : String → Read TriageBody → Signed → DemoRunResponse → Hits → Outcome
after_triage id (unreadable raw) signed out hits = record {
  status = 503;
  response = triage_down raw out;
  hits = hits;
  sent = ingest id ∷ triage id ∷ [];
}
after_triage id (read body) signed out hits = record {
  status = 200;
  response = finish (checked signed (triaged body out));
  hits = hits;
  sent = asked id (triaged body out);
}

unfoldable pub run_scenario : String → Upstreams → Hits → Outcome
unfolding after_triage is_scenario
run_scenario id upstreams hits =
    if is_scenario id
    then after_triage id (triage_answer upstreams.triage) upstreams.signed
        (collect upstreams.collector (blank none (down none) (down none))) hits
    else record {
      status = 400;
      response = blank (some (text_append "Unknown scenario: " id)) (down none) (down none);
      hits = hits;
      sent = [];
    }

-- `POST` with the header `x-forwarded-for` and the scenario of the body.
unfoldable pub demo_run : ℕ → Option String → Option String → Upstreams → Hits → Outcome
demo_run now forwarded scenario_id upstreams hits =
    let (limited, after) = rate_limited demo_limits now (client_ip forwarded) hits in
    if limited
    then record {
      status = 429;
      response =
          blank (some "Demo is rate limited. Try again in a minute.") up
            (down (some "rate limited"));
      hits = after;
      sent = [];
    }
    else run_scenario (chosen scenario_id) upstreams after
