-- ===== src/Alerts.antt =====
-- The alerts of the queue (apps/workbench/src/lib/mock-data.ts), the two mappers that make them
-- (lib/detection-to-alert.ts, lib/ocsf-to-alert.ts) and their enrichment by the persisted cases
-- (lib/server/enrich-alert.ts).
pub mod Detection
pub mod Ocsf
pub mod Enrich
pub mod Mapped
pub mod Enriched
mod Tests
use Prim.Native.Char.{Char, code}
use Prim.Native.String.{◌++◌ as text_append}
use attest.Prelude.{ℕ, String, Bool, true, false, ◌==◌, if◌then◌else◌}
use attest.Prelude.Number.{Number, thousandths}

pub data Severity : Type 0 where
  critical high medium low : Severity

pub data AlertState : Type 0 where
  in_flight awaiting_review auto_closed : AlertState

pub data ExecutionPath : Type 0 where
  classifier llm hybrid : ExecutionPath

pub data Verdict : Type 0 where
  benign suspicious malicious investigating : Verdict

pub data Agent : Type 0 where
  triager investigator hunter : Agent

pub data Progress : Type 0 where
  idle running complete degraded : Progress

pub record AgentStatus : Type 0 where
  pub agent : Agent
  pub status : Progress
  pub step : String
  pub tools_used : ℕ

pub record Alert : Type 0 where
  pub id : String
  pub case_id : String
  pub title : String
  pub source : String
  pub entity : String
  pub region : String
  pub severity : Severity
  pub state : AlertState
  pub verdict : Verdict
  pub confidence : Number
  pub execution_path : ExecutionPath
  pub updated_at : String
  pub technique : String
  pub summary : String
  pub agent_status : AgentStatus

abbrev pub severity_text : Severity → String
severity_text critical = "critical"
severity_text high = "high"
severity_text medium = "medium"
severity_text low = "low"

abbrev pub path_text : ExecutionPath → String
path_text classifier = "classifier"
path_text llm = "llm"
path_text hybrid = "hybrid"

abbrev pub verdict_text : Verdict → String
verdict_text benign = "benign"
verdict_text suspicious = "suspicious"
verdict_text malicious = "malicious"
verdict_text investigating = "investigating"

abbrev pub agent_text : Agent → String
agent_text triager = "Triager"
agent_text investigator = "Investigator"
agent_text hunter = "Hunter"

abbrev pub progress_text : Progress → String
progress_text idle = "idle"
progress_text running = "running"
progress_text complete = "complete"
progress_text degraded = "degraded"

-- `s.replace(/_/g, " ")`
unfoldable pub spaced : String → String
spaced String.[] = ""
spaced (String.◌∷◌ c s) =
    let rest = spaced s in if code c == b'_' then text_append " " rest else String.◌∷◌ c rest
