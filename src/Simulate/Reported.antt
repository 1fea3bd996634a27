-- ===== src/Simulate/Reported.antt =====
-- What a run reports of the services.
use attest.Prelude.{String, ◌≡◌, ◌≢◌, Option, none, some, List, [], ◌∷◌, Bool, true, false, ◌&&◌}
use attest.Prelude.Number.{thousandths}
use attest.Prelude.Json.{Json, null, bool, num, str, arr}
use attest.Alerts.Enrich.{field_of}
use attest.DemoRun.{is_scenario}
use attest.Simulate.{Answer, rejected, refused, answered, http_error}
use attest.Simulate.Run.{
  CollectorBody, Latencies, SimulateResponse, Reply, Request, ingest, triage, unknown_scenario,
  simulated, Collected, published, thrown, collected, Formatted, written, broken, or_json,
  orchestrator_stage, calibration_stage, attestation_stage,
}

-- What the collector did, as the response tells it.
pub record TellsCollector (c : Collected) (r : SimulateResponse) : Type 0 where
  pub said : r.collector.ok ≡ true → c ≡ published r.event_ids
  pub silent : r.collector.ok ≡ false → r.event_ids ≡ []
  pub why : (message : String) → c ≡ thrown message → r.collector.error ≡ some message

-- Whether a value is missing or has `toFixed`; whether it is missing or has `slice`.
abbrev has_fixed : Option Json → Bool
has_fixed none = true
has_fixed (some null) = true
has_fixed (some (num n)) = true
has_fixed (some _) = false

abbrev has_slice : Option Json → Bool
has_slice none = true
has_slice (some null) = true
has_slice (some (str s)) = true
has_slice (some (arr items)) = true
has_slice (some _) = false

-- An answer whose fields have the types that the texts need.
abbrev pub is_readable : Answer Json → Bool
is_readable (answered null) = false
is_readable (answered body) =
    let evidence = field_of (some body) "classifier_evidence" in
    has_slice (field_of (some body) "action_id")
    && has_fixed (field_of evidence "raw_prediction")
    && has_fixed (field_of evidence "calibrated_confidence")
is_readable _ = false

-- What was thrown where the answer cannot be read.
abbrev pub reason : (Json → String) → Answer Json → String
reason type_error (rejected message) = message
reason type_error (refused status) = http_error status
reason type_error (answered body) = type_error body

-- What was written or thrown, by whether the answer can be read.
data IsFormatted (why : String) : Bool → Formatted → Type 0 where
  wrote : (o c : String) → IsFormatted why true (written o c)
  broke : IsFormatted why false (broken why)

abbrev is_some : Option String → Bool
is_some none = false
is_some (some s) = true

-- The same of the orchestrator: the two steps within it pass and fail with it, and it passes with an
-- answer that can be read. The data are those of a body that came, also where the steps failed.
pub record TellsTriage (type_error : Json → String) (a : Answer Json) (r : SimulateResponse)
    : Type 0 where
  pub passed : r.orchestrator.ok ≡ is_readable a
  pub calibration : r.calibration.ok ≡ r.orchestrator.ok
  pub attestation : r.attestation.ok ≡ r.orchestrator.ok
  pub why : is_readable a ≡ false → r.orchestrator.error ≡ some (reason type_error a)
  pub told :
      (body : Json)
      → a ≡ answered body
      → (r.verdict ≡ or_json (str "unknown") (field_of (some body) "verdict"))
        × (r.action_id ≡ or_json (str "") (field_of (some body) "action_id"))
        × (r.escalated ≡ or_json (bool false) (field_of (some body) "escalated"))
  pub nothing :
      ((body : Json) → a ≢ answered body)
      → (r.verdict ≡ str "unknown")
        × (r.action_id ≡ str "")
        × (r.escalated ≡ bool false)
        × (r.calibrated_confidence ≡ num (thousandths 0))
        × (r.raw_prediction ≡ num (thousandths 0))
        × (r.novelty_score ≡ num (thousandths 0))

module _ (text_of : Json → String) (type_error : Json → String) where
  -- The three stages agree with what was written or thrown.
  record AreStages (why : String) (is_ok : Bool) (t : Latencies) (f : Formatted) : Type 0 where
    passed : (orchestrator_stage text_of type_error t.orchestrator f).ok ≡ is_ok
    calibration : (calibration_stage text_of type_error f).ok ≡ is_ok
    attestation : (attestation_stage text_of type_error f).ok ≡ is_ok
    why_not :
        is_ok ≡ false → (orchestrator_stage text_of type_error t.orchestrator f).error ≡ some why

  pub data Outcome (scenario_id : String) (c : Answer CollectorBody) (a : Answer Json)
      : Reply × List Request → Type 0 where
    turned_away :
        is_scenario scenario_id ≡ false → Outcome scenario_id c a (unknown_scenario scenario_id, [])
    reported :
        (r : SimulateResponse)
        → is_scenario scenario_id ≡ true
        → TellsCollector (collected c) r
        → TellsTriage type_error a r
        → Outcome scenario_id c a (simulated r, ingest ∷ triage ∷ [])
