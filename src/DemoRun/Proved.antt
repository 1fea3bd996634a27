-- ===== src/DemoRun/Proved.antt =====
-- What stands behind a response of the demo endpoint that says `ok`
-- (apps/workbench/src/app/api/demo/run/route.ts).
use attest.Prelude.{
  ℕ, String, ◌≡◌, refl, ◌∙◌, Option, none, some, true, false, take_last, Bool-cases, inl, inr,
  arith,
}
use attest.Prelude.Text.{is_empty}
use attest.RateLimit.{Hits, demo_limits, rate_limited}
use attest.DemoRun.{
  DemoRunResponse, Report, Envelope, EnvelopeBody, TriageBody, Fetched, Signed, Upstreams, Outcome,
  unreadable, read, threw, answered, rejected, answers, is_ok, given, demo_tenant, down, chosen,
  triaged, triage_answer, check, checked, finish, is_some, verified, is_scenario, after_triage,
  run_scenario, client_ip, demo_run,
}
use attest.DemoRun.Honest.{IsFresh, collect-IsFresh, blank-IsFresh, triaged-IsFresh}

-- The answers of the two attestation endpoints, and what the response shows of them.
pub record IsSigned (signed : Signed) (out : DemoRunResponse) : Type 0 where
  pub env_status : ℕ
  pub env : EnvelopeBody
  pub verify_status : ℕ
  pub report : Report
  pub answered_lem : signed ≡ answers env_status (read env) verify_status (read report)
  pub env_ok : is_ok env_status ≡ true
  pub verify_ok : is_ok verify_status ≡ true
  pub accepted : report.ok ≡ true
  pub envelope : Envelope
  pub enveloped : out.envelope ≡ some envelope
  pub signature : envelope.signature ≡ given "" env.signature
  pub prev_hash : envelope.prev_hash ≡ given "" env.prev_hash
  pub signed_at : envelope.signed_at ≡ given "" env.signed_at
  pub same_action : envelope.agent_action_id ≡ given out.action_id env.agent_action_id
  pub same_case : envelope.case_id ≡ given "" env.case_id
  pub same_tenant : envelope.tenant_id ≡ given demo_tenant env.tenant_id
  pub same_verdict : envelope.verdict ≡ given out.verdict env.verdict
  pub same_path : envelope.execution_path ≡ given out.execution_path env.execution_path
  pub reported : out.verify ≡ some (record report { results = take_last 5 report.results })

-- The orchestrator's answer, and what the response shows of it.
pub record IsTriaged (answer : Fetched TriageBody) (out : DemoRunResponse) : Type 0 where
  pub status : ℕ
  pub body : TriageBody
  pub came : answer ≡ answered status (read body)
  pub status_ok : is_ok status ≡ true
  pub action : body.action_id ≡ some out.action_id
  pub action_given : is_empty out.action_id ≡ false
  pub same_verdict : out.verdict ≡ given "unknown" body.verdict
  pub same_path : out.execution_path ≡ given "classifier" body.execution_path
  pub orchestrator_up : out.orchestrator.ok ≡ true

pub record IsProved (upstreams : Upstreams) (out : DemoRunResponse) : Type 0 where
  pub triaged_lem : IsTriaged upstreams.triage out
  pub signed_lem : IsSigned upstreams.signed out

-- `finish` changes nothing that is shown of the services.
record IsFinished (out after : DemoRunResponse) : Type 0 where
  same_action : after.action_id ≡ out.action_id
  same_verdict : after.verdict ≡ out.verdict
  same_path : after.execution_path ≡ out.execution_path
  same_envelope : after.envelope ≡ out.envelope
  same_verify : after.verify ≡ out.verify
  same_orchestrator : after.orchestrator ≡ out.orchestrator

finish-IsFinished : (out : DemoRunResponse) → IsFinished out (finish out)
unfolding finish
finish-IsFinished out = ground arith

finish-ok :
    (out : DemoRunResponse)
    → (finish out).ok ≡ true
    → (out.orchestrator.ok ≡ true) × (is_some out.envelope ≡ true) × (verified out.verify ≡ true)
unfolding finish
finish-ok out ok = ground arith

-- A response that came out of the two attestation answers with an envelope and an accepted report.
check-IsSigned :
    (signed : Signed) (out : DemoRunResponse)
    → IsFresh out
    → is_some (check signed out).envelope ≡ true
    → verified (check signed out).verify ≡ true
    → IsSigned signed (check signed out)
unfolding check
check-IsSigned (rejected raw) out h e v = absurd (ground arith)
check-IsSigned (answers s (unreadable raw) t (unreadable raw')) out h e v = absurd (ground arith)
check-IsSigned (answers s (unreadable raw) t (read report)) out h e v = absurd (ground arith)
check-IsSigned (answers s (read env) t (unreadable raw)) out h e v = absurd (ground arith)
check-IsSigned (answers s (read env) t (read report)) out h e v = elim (Bool-cases (is_ok s)) [
  | inl env_ok ↦ elim (Bool-cases (is_ok t)) [
    | inl verify_ok ↦
        let accepted : report.ok ≡ true = ground arith in
        rw (env_ok, verify_ok)
          (record {
            env_status = s;
            env = env;
            verify_status = t;
            report = report;
            answered_lem = refl;
            env_ok = env_ok;
            verify_ok = verify_ok;
            accepted = accepted;
            envelope = _;
            enveloped = refl;
            signature = refl;
            prev_hash = refl;
            signed_at = refl;
            same_action = refl;
            same_case = refl;
            same_tenant = refl;
            same_verdict = refl;
            same_path = refl;
            reported = refl;
          })
    | inr verify_bad ↦ absurd (ground arith)
  ]
  | inr env_bad ↦ absurd (ground arith)
]

finish-IsSigned :
    (signed : Signed) (out after : DemoRunResponse)
    → IsFinished out after
    → IsSigned signed out
    → IsSigned signed after
finish-IsSigned signed out after f h = record {
  env_status = h.env_status;
  env = h.env;
  verify_status = h.verify_status;
  report = h.report;
  answered_lem = h.answered_lem;
  env_ok = h.env_ok;
  verify_ok = h.verify_ok;
  accepted = h.accepted;
  envelope = h.envelope;
  enveloped = f.same_envelope ∙ h.enveloped;
  signature = h.signature;
  prev_hash = h.prev_hash;
  signed_at = h.signed_at;
  same_action = rw f.same_action h.same_action;
  same_case = h.same_case;
  same_tenant = h.same_tenant;
  same_verdict = rw f.same_verdict h.same_verdict;
  same_path = rw f.same_path h.same_path;
  reported = f.same_verify ∙ h.reported;
}

-- The two requests for the attestation leave what the triage said.
record IsKept (out after : DemoRunResponse) : Type 0 where
  same_action : after.action_id ≡ out.action_id
  same_verdict : after.verdict ≡ out.verdict
  same_path : after.execution_path ≡ out.execution_path
  same_orchestrator : after.orchestrator ≡ out.orchestrator

checked-IsKept : (signed : Signed) (out : DemoRunResponse) → IsKept out (checked signed out)
unfolding check
checked-IsKept (rejected raw) out = ground arith
checked-IsKept (answers s (unreadable raw) t (unreadable raw')) out = ground arith
checked-IsKept (answers s (unreadable raw) t (read report)) out = ground arith
checked-IsKept (answers s (read env) t (unreadable raw)) out = ground arith
checked-IsKept (answers s (read env) t (read report)) out = ground arith

record IsChecked (signed : Signed) (out : DemoRunResponse) : Type 0 where
  action : is_empty out.action_id ≡ false
  signed_lem : IsSigned signed (finish (checked signed out))

checked-IsChecked :
    (signed : Signed) (out : DemoRunResponse)
    → IsFresh out
    → (finish (checked signed out)).ok ≡ true
    → IsChecked signed out
checked-IsChecked signed out h ok =
    let facts = finish-ok (checked signed out) ok in
    elim (Bool-cases (is_empty out.action_id)) [
      | inl no_action ↦ absurd (ground (arith, facts, h.no_envelope))
      | inr action ↦ record {
        action = action;
        signed_lem =
            finish-IsSigned signed (checked signed out) (finish (checked signed out))
              (finish-IsFinished (checked signed out))
              (rw action
                (check-IsSigned signed out h (rw action at facts.1) (rw action at facts.2)));
      }
    ]

given-eq-some : (o : Option String) → is_empty (given "" o) ≡ false → o ≡ some (given "" o)
given-eq-some none h = absurd (ground arith)
given-eq-some (some s) h = refl

triaged-IsProved :
    (status : ℕ) (body : TriageBody) (signed : Signed) (out : DemoRunResponse)
    → IsFresh out
    → is_ok status ≡ true
    → (finish (checked signed (triaged body out))).ok ≡ true
    → IsTriaged (answered status (read body)) (finish (checked signed (triaged body out)))
      × IsSigned signed (finish (checked signed (triaged body out)))
triaged-IsProved status body signed out h status_ok ok =
    let last = checked signed (triaged body out) in
    let c = checked-IsChecked signed (triaged body out) (triaged-IsFresh body out h) ok in
    let k = checked-IsKept signed (triaged body out) in
    let f = finish-IsFinished last in
    let same : (finish last).action_id ≡ given "" body.action_id = f.same_action ∙ k.same_action in
    (
      record {
        status = status;
        body = body;
        came = refl;
        status_ok = status_ok;
        action = rw same (given-eq-some body.action_id c.action);
        action_given = rw same c.action;
        same_verdict = f.same_verdict ∙ k.same_verdict;
        same_path = f.same_path ∙ k.same_path;
        orchestrator_up = rw (f.same_orchestrator, k.same_orchestrator) refl;
      },
      c.signed_lem,
    )

-- The facts of an answer to a request: those of `ok`, for what the services answered.
IsBacked : Upstreams → Outcome → Type 0
IsBacked upstreams o = (o.status ≡ 200) × IsProved upstreams o.response

after_triage-IsBacked :
    (id : String) (fetched : Fetched TriageBody) (upstreams : Upstreams) (out : DemoRunResponse)
    (hits : Hits)
    → upstreams.triage ≡ fetched
    → IsFresh out
    → (after_triage id (triage_answer fetched) upstreams.signed out hits).response.ok ≡ true
    → IsBacked upstreams (after_triage id (triage_answer fetched) upstreams.signed out hits)
unfolding after_triage triage_answer IsBacked
after_triage-IsBacked id (threw raw) upstreams out hits e h ok = absurd (ground (arith, h.not_ok))
after_triage-IsBacked id (answered status (unreadable raw)) upstreams out hits e h ok =
    absurd (ground (arith, h.not_ok))
after_triage-IsBacked id (answered status (read body)) upstreams out hits e h ok =
    elim (Bool-cases (is_ok status)) [
      | inl fine ↦
          let p = triaged-IsProved status body upstreams.signed out h fine (rw fine at ok) in
          rw fine (refl, record { triaged_lem = rw e p.0; signed_lem = p.1 })
      | inr bad ↦ absurd (ground (arith, h.not_ok))
    ]

run_scenario-IsBacked :
    (id : String) (upstreams : Upstreams) (hits : Hits)
    → (run_scenario id upstreams hits).response.ok ≡ true
    → (is_scenario id ≡ true) × IsBacked upstreams (run_scenario id upstreams hits)
unfolding run_scenario
run_scenario-IsBacked id upstreams hits ok = elim (Bool-cases (is_scenario id)) [
  | inl known ↦ rw known (
    refl,
    after_triage-IsBacked id upstreams.triage upstreams _ hits refl
        (collect-IsFresh upstreams.collector _ (blank-IsFresh (down none) (down none)))
        (rw known at ok),
  )
  | inr unknown ↦ absurd (ground arith)
]

-- A response that says `ok` is one with status 200 to a caller whom the limit let through and who
-- asked for a known scenario. The orchestrator answered with a status that is ok and an action id that
-- is not empty, and both attestation endpoints answered with such a status and a body that can be
-- read, with a report that accepts. The response shows the orchestrator's action, verdict and path; an
-- envelope with the fields that were answered, signature and previous hash included, which are empty
-- where the answer has none; and the report with the last five of its results.
pub demo_run-IsProved :
    (now : ℕ) (forwarded scenario_id : Option String) (upstreams : Upstreams) (hits : Hits)
    → (demo_run now forwarded scenario_id upstreams hits).response.ok ≡ true
    → ((rate_limited demo_limits now (client_ip forwarded) hits).0 ≡ false)
      × (is_scenario (chosen scenario_id) ≡ true)
      × ((demo_run now forwarded scenario_id upstreams hits).status ≡ 200)
      × IsProved upstreams (demo_run now forwarded scenario_id upstreams hits).response
unfolding demo_run IsBacked
demo_run-IsProved now forwarded scenario_id upstreams hits ok =
    elim (Bool-cases (rate_limited demo_limits now (client_ip forwarded) hits).0) [
      | inl limited ↦ absurd (ground arith)
      | inr passed ↦
          let b = run_scenario-IsBacked (chosen scenario_id) upstreams _ (rw passed at ok) in
          rw passed (refl, b.0, b.1.0, b.1.1)
    ]
