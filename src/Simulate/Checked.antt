-- ===== src/Simulate/Checked.antt =====
-- When the stages of a check pass.
use attest.Prelude.{
  ℕ, ◌<◌, String, ◌≡◌, refl, Option, none, some, List, [], ◌∷◌, true, false, ltb, ltb→lt, lt→ltb,
  any, Bool-cases, Option-cases, inl, inr, arith,
}
use attest.Simulate.{StageResult, Answer, rejected, refused, answered, error_of, done, failed}
use attest.Simulate.Verify.{
  Query, Answers, Latencies, Baseline, Fired, VerifyResponse, Reply, Request, invalid_event_id,
  verified, is_event_id, has_id, first_of, requests_of, risingwave_stage, detection_stage,
  iceberg_stage, mcp_stage, verify_get,
}

-- What an answer must be for its stage to pass.
pub data HasBaseline : Answer (Option Baseline) → Type 0 where
  has_baseline : (b : Baseline) → HasBaseline (answered (some b))

pub data HasFired (id : String) : Answer (List Fired) → Type 0 where
  has_fired : (rows : List Fired) → any (has_id id) rows ≡ true → HasFired id (answered rows)

pub data HasRows : Answer (Option ℕ) → Type 0 where
  has_rows : (n : ℕ) → 0 < n → HasRows (answered (some n))

pub data HasAnswer : Answer (Option ℕ) → Type 0 where
  has_answer : (n : Option ℕ) → HasAnswer (answered n)

-- A stage passes exactly when its own service answered as it should; it has the error of its service,
-- and its latency.
pub record Tells {ℓ} {A : Type ℓ} (Good : Answer A → Type 0) (latency : ℕ) (answer : Answer A)
    (stage : StageResult) : Type ℓ where
  pub passes : stage.ok ≡ true → Good answer
  pub passed : Good answer → stage.ok ≡ true
  pub latency_lem : stage.latency_ms ≡ latency
  pub explained : stage.error ≡ error_of answer

module _ {ℓ} {A : Type ℓ} {Good : Answer A → Type 0} where
  done-Tells :
      (latency : ℕ) (answer : Answer A) (artifact : String)
      → Good answer
      → error_of answer ≡ none
      → Tells Good latency answer (done latency artifact)
  done-Tells latency answer artifact good quiet = record {
    passes = λ h. good;
    passed = λ h. refl;
    latency_lem = refl;
    explained = rw quiet refl;
  }

  failed-Tells :
      (latency : ℕ) (answer : Answer A) (artifact : String)
      → (Good answer → ⊥)
      → Tells Good latency answer (failed latency artifact (error_of answer))
  failed-Tells latency answer artifact bad = record {
    passes = λ h. absurd (ground arith);
    passed = λ h. absurd (bad h);
    latency_lem = refl;
    explained = refl;
  }

risingwave_stage-Tells :
    (username : String) (latency : ℕ) (answer : Answer (Option Baseline))
    → Tells HasBaseline latency answer (risingwave_stage username latency answer)
unfolding risingwave_stage
risingwave_stage-Tells username latency (answered (some b)) =
    done-Tells latency (answered (some b)) _ (has_baseline b) refl
risingwave_stage-Tells username latency (answered none) =
    failed-Tells latency (answered none) _ (λ h. elim h [ ])
risingwave_stage-Tells username latency (rejected m) =
    failed-Tells latency (rejected m) _ (λ h. elim h [ ])
risingwave_stage-Tells username latency (refused s) =
    failed-Tells latency (refused s) _ (λ h. elim h [ ])

mcp_stage-Tells :
    (action : String) (latency : ℕ) (answer : Answer (Option ℕ))
    → Tells HasAnswer latency answer (mcp_stage action latency answer)
unfolding mcp_stage
mcp_stage-Tells action latency (answered n) = done-Tells latency (answered n) _ (has_answer n) refl
mcp_stage-Tells action latency (rejected m) = failed-Tells latency (rejected m) _ (λ h. elim h [ ])
mcp_stage-Tells action latency (refused s) = failed-Tells latency (refused s) _ (λ h. elim h [ ])

iceberg_stage-Tells :
    (latency : ℕ) (answer : Answer (Option ℕ))
    → Tells HasRows latency answer (iceberg_stage latency answer)
unfolding iceberg_stage
iceberg_stage-Tells latency (answered none) =
    failed-Tells latency (answered none) _ (λ h. elim h [ ])
iceberg_stage-Tells latency (answered (some n)) = elim (Bool-cases (ltb 0 n)) [
  | inl found ↦
      rw found (done-Tells latency (answered (some n)) _ (has_rows n (ltb→lt 0 n found)) refl)
  | inr empty ↦ rw empty (
      failed-Tells latency (answered (some n)) _
        (λ h. elim h [ has_rows k p ↦ ground (arith, lt→ltb 0 n p) ]))
]
iceberg_stage-Tells latency (rejected m) = failed-Tells latency (rejected m) _ (λ h. elim h [ ])
iceberg_stage-Tells latency (refused s) = failed-Tells latency (refused s) _ (λ h. elim h [ ])

first_of-any :
    (id : String) (rows : List Fired) → first_of id rows ≡ none → any (has_id id) rows ≡ false
first_of-any id [] h = refl
first_of-any id (d ∷ rest) h = ground (arith, first_of-any id rest)

any-first_of :
    (id : String) (rows : List Fired) (d : Fired)
    → first_of id rows ≡ some d
    → any (has_id id) rows ≡ true
any-first_of id [] d h = absurd (ground arith)
any-first_of id (e ∷ rest) d h = ground (arith, any-first_of id rest d)

detection_stage-Tells :
    (id : String) (latency : ℕ) (answer : Answer (List Fired))
    → Tells (HasFired id) latency answer (detection_stage id latency answer)
unfolding detection_stage
detection_stage-Tells id latency (answered rows) = elim (Option-cases (first_of id rows)) [
  | inl never ↦ rw never (
      failed-Tells latency (answered rows) _
        (λ h. elim h [ has_fired r p ↦ ground (arith, first_of-any id rows never) ]))
  | inr (d, found) ↦
      rw found
        (done-Tells latency (answered rows) _ (has_fired rows (any-first_of id rows d found)) refl)
]
detection_stage-Tells id latency (rejected m) =
    failed-Tells latency (rejected m) _ (λ h. elim h [ ])
detection_stage-Tells id latency (refused s) = failed-Tells latency (refused s) _ (λ h. elim h [ ])

pub record IsChecked (q : Query) (a : Answers) (t : Latencies) (r : VerifyResponse) : Type 0 where
  pub risingwave : Tells HasBaseline t.risingwave a.baseline r.risingwave
  pub detection : Tells (HasFired q.event_id) t.detection a.detections r.detection
  pub iceberg : Tells HasRows t.iceberg a.rows r.iceberg
  pub mcp : Tells HasAnswer t.mcp a.tools r.mcp

-- A valid id is turned into an answer of four stages, whatever the services do; an invalid one sends no
-- request.
pub data Verdict (q : Query) (a : Answers) (t : Latencies) : Reply × List Request → Type 0 where
  turned_away : is_event_id q.event_id ≡ false → Verdict q a t (invalid_event_id, [])
  checked :
      (r : VerifyResponse) (sent : List Request)
      → is_event_id q.event_id ≡ true
      → IsChecked q a t r
      → Verdict q a t (verified r, sent)

-- Every query is answered: one with an invalid id before any request goes out, any other with four
-- stages, of which each passes exactly when its own service answered as it should (a baseline, a
-- detection of the event, at least one row, any list of tools), has the latency of its own request,
-- and has an error exactly when and as its own request failed.
pub verify_get-Verdict :
    (encode : String → String) (q : Query) (a : Answers) (t : Latencies)
    → Verdict q a t (verify_get encode q a t)
unfolding verify_get
verify_get-Verdict encode q a t = elim (Bool-cases (is_event_id q.event_id)) [
  | inl valid ↦ rw valid (
      checked _ (requests_of encode q) valid (record {
        risingwave = risingwave_stage-Tells q.username t.risingwave a.baseline;
        detection = detection_stage-Tells q.event_id t.detection a.detections;
        iceberg = iceberg_stage-Tells t.iceberg a.rows;
        mcp = mcp_stage-Tells q.action_id t.mcp a.tools;
      }))
  | inr invalid ↦ rw invalid (turned_away invalid)
]
