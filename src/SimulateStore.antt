-- ===== src/SimulateStore.antt =====
-- The history of the simulate page (apps/workbench/src/lib/stores/simulate-store.ts).
pub mod Recent
mod Tests
use attest.Prelude.{ℕ, String, Option, List, [], ◌∷◌, take}
use attest.Prelude.Number.{Number}

pub record SimRun : Type 0 where
  pub ts : ℕ
  pub scenario_id : String
  pub verdict : String
  pub latency_ms : Number
  pub confidence : Option Number

unfoldable pub push_run : SimRun → List SimRun → List SimRun
push_run entry history = take 10 (entry ∷ history)

unfoldable pub clear_history : List SimRun → List SimRun
clear_history history = []

pub data Call : Type 0 where
  push : SimRun → Call
  clear : Call

unfoldable pub call : Call → List SimRun → List SimRun
call (push entry) history = push_run entry history
call clear history = clear_history history

-- The history after the calls, the earliest first.
unfoldable pub run : List Call → List SimRun → List SimRun
run [] history = history
run (c ∷ rest) history = run rest (call c history)
