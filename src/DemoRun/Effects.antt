-- ===== src/DemoRun/Effects.antt =====
-- Which services a run of the demo reaches.
use attest.Prelude.{
  ℕ, String, ◌≡◌, refl, Option, none, List, [], ◌∷◌, true, ◌||◌, ◌==◌, Bool-cases, inl, inr,
  if◌then◌else◌, arith,
}
use attest.Prelude.Text.{is_empty}
use attest.RateLimit.{Hits, demo_limits, rate_limited}
use attest.DemoRun.{
  DemoRunResponse, Read, Fetched, Signed, Upstreams, CollectorBody, TriageBody, Outcome, Sent,
  ingest, triage, attestation, unreadable, read, threw, answered, rejected, answers, down, blank,
  chosen, collect, triaged, triage_answer, check, finish, is_scenario, after_triage, run_scenario,
  client_ip, demo_run,
}

action_id-collect :
    (answer : Fetched CollectorBody) (out : DemoRunResponse)
    → (collect answer out).action_id ≡ out.action_id
unfolding collect
action_id-collect (threw raw) out = ground arith
action_id-collect (answered status (unreadable raw)) out = ground arith
action_id-collect (answered status (read data')) out = ground arith

action_id-check :
    (signed : Signed) (out : DemoRunResponse) → (check signed out).action_id ≡ out.action_id
unfolding check
action_id-check (rejected raw) out = ground arith
action_id-check (answers s (unreadable raw) t (unreadable raw')) out = ground arith
action_id-check (answers s (read env) t (unreadable raw)) out = ground arith
action_id-check (answers s (unreadable raw) t (read report)) out = ground arith
action_id-check (answers s (read env) t (read report)) out = ground arith

action_id-finish : (out : DemoRunResponse) → (finish out).action_id ≡ out.action_id
unfolding finish
action_id-finish out = ground arith

-- The requests that the response of a run stands for.
unfoldable pub reached : String → Outcome → List Sent
reached id o =
    if o.status == 200 || o.status == 503
    then ingest id
      ∷ triage id
      ∷ (if is_empty o.response.action_id then [] else attestation o.response.action_id ∷ [])
    else []

reached-after_triage :
    (id : String) (answer : Read TriageBody) (signed : Signed) (out : DemoRunResponse) (hits : Hits)
    → is_empty out.action_id ≡ true
    → (after_triage id answer signed out hits).sent
      ≡ reached id (after_triage id answer signed out hits)
unfolding after_triage reached
reached-after_triage id (unreadable raw) signed out hits h = rw h refl
reached-after_triage id (read body) signed out hits h =
    elim (Bool-cases (is_empty (triaged body out).action_id)) [
      | inl no_action ↦ ground (arith, action_id-finish (triaged body out))
      | inr action ↦ ground (
        arith,
        action_id-finish (check signed (triaged body out)),
        action_id-check signed (triaged body out),
      )
    ]

hits-after_triage :
    (id : String) (answer : Read TriageBody) (signed : Signed) (out : DemoRunResponse) (hits : Hits)
    → (after_triage id answer signed out hits).hits ≡ hits
unfolding after_triage
hits-after_triage id (unreadable raw) signed out hits = refl
hits-after_triage id (read body) signed out hits = refl

run_scenario-reached :
    (id : String) (upstreams : Upstreams) (hits : Hits)
    → ((run_scenario id upstreams hits).sent ≡ reached id (run_scenario id upstreams hits))
      × ((run_scenario id upstreams hits).hits ≡ hits)
unfolding run_scenario reached
run_scenario-reached id upstreams hits = elim (Bool-cases (is_scenario id)) [
  | inl known ↦ rw known (
    reached-after_triage id (triage_answer upstreams.triage) upstreams.signed _ hits
        (rw (action_id-collect upstreams.collector (blank none (down none) (down none))) refl),
    hits-after_triage id (triage_answer upstreams.triage) upstreams.signed _ hits,
  )
  | inr unknown ↦ rw unknown (refl, refl)
]

-- A request of the demo that is refused or names no scenario reaches no service. Any other reaches
-- the collector and then the orchestrator with its scenario, be the collector up or not, and asks for
-- the attestation of exactly the action that its response names, if it names one. The table of the
-- limiter is in each case as the limiter leaves it.
pub demo_run-sent :
    (now : ℕ) (forwarded scenario_id : Option String) (upstreams : Upstreams) (hits : Hits)
    → ((demo_run now forwarded scenario_id upstreams hits).sent
        ≡ reached (chosen scenario_id) (demo_run now forwarded scenario_id upstreams hits))
      × ((demo_run now forwarded scenario_id upstreams hits).hits
          ≡ (rate_limited demo_limits now (client_ip forwarded) hits).1)
unfolding demo_run reached
demo_run-sent now forwarded scenario_id upstreams hits =
    elim (Bool-cases (rate_limited demo_limits now (client_ip forwarded) hits).0) [
      | inl limited ↦ rw limited (refl, refl)
      | inr passed ↦ rw passed (run_scenario-reached (chosen scenario_id) upstreams _)
    ]
