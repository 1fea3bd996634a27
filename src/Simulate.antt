-- ===== src/Simulate.antt =====
-- The simulation endpoints (apps/workbench/src/app/api/simulate/): a stage of their answers, and how a
-- service answers. What the services do is not part of them: an answer is an input. A stage's latency
-- is the time that the clock measured for it, an input too.
pub mod Verify
pub mod Run
pub mod Sql
pub mod Checked
pub mod Reported
mod Tests
use Prim.Native.String.{◌++◌ as text_append}
use attest.Prelude.{ℕ, String, Option, none, some, Bool, true, false, if◌then◌else◌}
use attest.Prelude.Text.{decimal, is_empty}

pub record StageResult : Type 0 where
  pub ok : Bool
  pub latency_ms : ℕ
  pub artifact : String
  pub error : Option String

-- An exception's text (a refused connection, a timeout, a body that is no JSON or not of the shape
-- that is read), a status that is not `ok`, or the body.
pub data Answer {ℓ} (A : Type ℓ) : Type ℓ where
  rejected : String → Answer A
  refused : ℕ → Answer A
  answered : A → Answer A

-- `String(new Error(message))`
abbrev pub error_text : String → String
error_text message = if is_empty message then "Error" else text_append "Error: " message

-- `new Error(`HTTP ${r.status}`)`
abbrev pub http_error : ℕ → String
http_error status = error_text (text_append "HTTP " (decimal status))

-- The value and the error that `timed` returns.
abbrev pub value_of {ℓ} : {A : Type ℓ} → Answer A → Option A
value_of (answered a) = some a
value_of _ = none

abbrev pub error_of {ℓ} : {A : Type ℓ} → Answer A → Option String
error_of (rejected message) = some message
error_of (refused status) = some (http_error status)
error_of (answered a) = none

-- A text in a template.
abbrev pub shown : Option String → String
shown none = "undefined"
shown (some s) = s

abbrev pub done : ℕ → String → StageResult
done latency artifact = record {
  ok = true;
  latency_ms = latency;
  artifact = artifact;
  error = none;
}

abbrev pub failed : ℕ → String → Option String → StageResult
failed latency artifact error = record {
  ok = false;
  latency_ms = latency;
  artifact = artifact;
  error = error;
}
