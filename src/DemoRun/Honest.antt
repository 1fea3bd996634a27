-- ===== src/DemoRun/Honest.antt =====
-- What a response of the demo endpoint says against what happened.
use Prim.Native.String.{◌++◌ as text_append}
use text.Mathlib.TextLemmas.{cons-append}
use attest.Prelude.{
  ℕ, String, ◌≡◌, ◌≢◌, ap, Option, none, false, not, Bool-cases, inl, inr, if◌then◌else◌, arith,
}
use attest.Prelude.Text.{is_empty}
use attest.RateLimit.{Hits, demo_limits, rate_limited}
use attest.DemoRun.{
  DemoRunResponse, Service, Read, Fetched, Signed, Upstreams, CollectorBody, TriageBody, Outcome,
  unreadable, read, threw, answered, rejected, answers, falsy, down, blank, collect, triaged,
  triage_answer, check, finish, is_some, verified, is_scenario, after_triage, run_scenario,
  client_ip, demo_run,
}

-- No error and no verification yet, or neither an accepted verification nor a missing reason.
record IsFair (out : DemoRunResponse) : Type 0 where
  reason : out.error ≢ none → verified out.verify ≡ false
  nonempty : out.error ≢ none → falsy out.error ≡ false

-- What stays of the two requests to the services.
pub record IsFresh (out : DemoRunResponse) : Type 0 where
  pub no_error : out.error ≡ none
  pub no_envelope : out.envelope ≡ none
  pub no_report : out.verify ≡ none
  pub not_ok : out.ok ≡ false

pub collect-IsFresh :
    (answer : Fetched CollectorBody) (out : DemoRunResponse)
    → IsFresh out
    → IsFresh (collect answer out)
unfolding collect
collect-IsFresh (threw raw) out h = ground arith
collect-IsFresh (answered status (unreadable raw)) out h = ground arith
collect-IsFresh (answered status (read data')) out h = ground arith

reason_given : (raw : String) → is_empty (text_append "Signed, but verify API failed: " raw) ≡ false
reason_given raw = ap is_empty (cons-append "S" "igned, but verify API failed: " raw)

check-IsFair : (signed : Signed) (out : DemoRunResponse) → IsFresh out → IsFair (check signed out)
unfolding check
check-IsFair (rejected raw) out h = ground (arith, reason_given raw)
check-IsFair (answers s (unreadable raw) t (unreadable raw')) out h =
    ground (arith, reason_given raw, reason_given raw')
check-IsFair (answers s (read env) t (unreadable raw)) out h = ground (arith, reason_given raw)
check-IsFair (answers s (unreadable raw) t (read report)) out h = ground (arith, reason_given raw)
check-IsFair (answers s (read env) t (read report)) out h = ground arith

finish-error :
    (out : DemoRunResponse) → IsFair out → (finish out).ok ≡ not (is_some (finish out).error)
unfolding finish
finish-error out h = ground arith

IsFresh-IsFair : (out : DemoRunResponse) → IsFresh out → IsFair out
IsFresh-IsFair out h = ground arith

pub blank-IsFresh : (s t : Service) → IsFresh (blank none s t)
blank-IsFresh s t = ground arith

pub triaged-IsFresh :
    (body : TriageBody) (out : DemoRunResponse) → IsFresh out → IsFresh (triaged body out)
triaged-IsFresh body out h = ground arith

checked-IsFair :
    (signed : Signed) (out : DemoRunResponse)
    → IsFresh out
    → IsFair (if is_empty out.action_id then out else check signed out)
checked-IsFair signed out h = elim (Bool-cases (is_empty out.action_id)) [
  | inl no_action ↦ rw no_action (IsFresh-IsFair out h)
  | inr action ↦ rw action (check-IsFair signed out h)
]

-- The facts of the last stage.
record Ended (o : Outcome) : Type 0 where
  explained : o.response.ok ≡ not (is_some o.response.error)

after_triage-Ended :
    (id : String) (answer : Read TriageBody) (signed : Signed) (out : DemoRunResponse) (hits : Hits)
    → IsFresh out
    → Ended (after_triage id answer signed out hits)
unfolding after_triage
after_triage-Ended id (unreadable raw) signed out hits h = ground arith
after_triage-Ended id (read body) signed out hits h =
    let fair = checked-IsFair signed (triaged body out) (triaged-IsFresh body out h) in
    record { explained = finish-error _ fair }

run_scenario-Ended :
    (id : String) (upstreams : Upstreams) (hits : Hits) → Ended (run_scenario id upstreams hits)
unfolding run_scenario
run_scenario-Ended id upstreams hits = elim (Bool-cases (is_scenario id)) [
  | inl known ↦ rw known (
      after_triage-Ended id (triage_answer upstreams.triage) upstreams.signed _ hits
        (collect-IsFresh upstreams.collector _ (blank-IsFresh (down none) (down none))))
  | inr unknown ↦ rw unknown (ground arith)
]

demo_run-Ended :
    (now : ℕ) (forwarded scenario_id : Option String) (upstreams : Upstreams) (hits : Hits)
    → Ended (demo_run now forwarded scenario_id upstreams hits)
unfolding demo_run
demo_run-Ended now forwarded scenario_id upstreams hits =
    elim (Bool-cases (rate_limited demo_limits now (client_ip forwarded) hits).0) [
      | inl limited ↦ rw limited (ground arith)
      | inr passed ↦ rw passed (run_scenario-Ended _ upstreams _)
    ]

-- Whatever the services answer, and whether they answer or not, a response of the demo endpoint says
-- `ok` exactly when it gives no error: a run that is refused, unknown, not triaged, not signed or not
-- verified never goes without a reason.
pub demo_run-error :
    (now : ℕ) (forwarded scenario_id : Option String) (upstreams : Upstreams) (hits : Hits)
    → (demo_run now forwarded scenario_id upstreams hits).response.ok
      ≡ not (is_some (demo_run now forwarded scenario_id upstreams hits).response.error)
demo_run-error now forwarded scenario_id upstreams hits =
    (demo_run-Ended now forwarded scenario_id upstreams hits).explained
