-- ===== src/CaseRepository/Traces.antt =====
-- The trace steps of the repository (apps/workbench/src/lib/server/case-repository.ts, from
-- `appendTraceSteps` on, and the row type of apps/workbench/src/types/db.ts). The table is a parameter,
-- like that of the cases; so is the engine's reading of a text as a date.
use Prim.Native.String.{◌++◌ as text_append}
use attest.Prelude.{
  ℕ, ◌*◌, ◌≤◌, ◌≡◌, String, Option, none, some, List, [], ◌∷◌, leb, ltb, str_eq, if◌then◌else◌,
}
use attest.Prelude.Time.{max_time, iso_string}
use attest.Prelude.Dedup.{find_key}

-- `number | string | Date`, where the number is whole and not negative.
pub data Timestamp : Type 0 where
  number : ℕ → Timestamp
  text : String → Timestamp
  date : ℕ → Timestamp

pub record CaseTraceStepInput : Type 0 where
  pub case_id : String
  pub agent_action_id : String
  pub agent_id : String
  pub execution_path : String
  pub step_kind : String
  pub summary : String
  pub ts : Timestamp

pub record TraceRow : Type 0 where
  pub id : String
  pub case_id : String
  pub agent_action_id : String
  pub agent_id : String
  pub execution_path : String
  pub step_kind : String
  pub summary : String
  pub ts : ℕ
  pub created_at : ℕ

abbrev pub row_id : TraceRow → String
row_id row = row.id

abbrev pub or_else {ℓ} : {A : Type ℓ} → Option A → Option A → Option A
or_else none other = other
or_else (some a) other = some a

-- The row where it is of the case.
abbrev pub of_case : String → Option TraceRow → Option TraceRow
of_case id none = none
of_case id (some row) = if str_eq row.case_id id then some row else none

abbrev pub IsAscending : List TraceRow → Type 0
IsAscending [] = Unit {0}
IsAscending (row ∷ []) = Unit {0}
IsAscending (row ∷ next ∷ rest) = (row.ts ≤ next.ts) × IsAscending (next ∷ rest)

-- The table `workbench_case_trace_steps` by the two statements that the repository makes of it. An
-- insertion that a constraint refuses is `none`; a row whose key is in the table, or came before in
-- the same statement, is skipped.
pub record TraceTable : Type 1 where
  pub Table : Type 0
  pub find : String → Table → Option TraceRow
  pub insert_new : List TraceRow → Table → Option Table
  pub select_case : String → Table → List TraceRow
  pub find-insert_new :
      (rows : List TraceRow) (t after : Table) (id : String)
      → insert_new rows t ≡ some after
      → find id after ≡ or_else (find id t) (find_key row_id id rows)
  pub find_key-select_case :
      (case_id : String) (t : Table) (id : String)
      → find_key row_id id (select_case case_id t) ≡ of_case case_id (find id t)
  pub select_case-IsAscending : (case_id : String) (t : Table) → IsAscending (select_case case_id t)

-- A time that a `Date` cannot hold is `none`.
abbrev pub valid_time : ℕ → Option ℕ
valid_time t = if leb t max_time then some t else none

module _ (date_of_text : String → Option ℕ) where
  unfoldable pub normalize_trace_timestamp : Timestamp → Option ℕ
  normalize_trace_timestamp (date t) = some t
  normalize_trace_timestamp (number n) = valid_time (if ltb 10000000000 n then n else n * 1000)
  normalize_trace_timestamp (text s) = date_of_text s

  abbrev pub trace_id : String → CaseTraceStepInput → ℕ → String
  trace_id case_id step ts = text_append case_id (
      text_append ":" (
        text_append step.agent_action_id
          (text_append ":" (text_append step.step_kind (text_append ":" (iso_string ts))))))

  abbrev pub row_at : String → ℕ → CaseTraceStepInput → ℕ → TraceRow
  row_at case_id now step ts = record {
    id = trace_id case_id step ts;
    case_id = case_id;
    agent_action_id = step.agent_action_id;
    agent_id = step.agent_id;
    execution_path = step.execution_path;
    step_kind = step.step_kind;
    summary = step.summary;
    ts = ts;
    created_at = now;
  }

  abbrev cons_row :
      String → ℕ → CaseTraceStepInput → Option ℕ → Option (List TraceRow) → Option (List TraceRow)
  cons_row case_id now step (some ts) (some rows) = some (row_at case_id now step ts ∷ rows)
  cons_row case_id now step none rows = none
  cons_row case_id now step ts none = none

  -- `steps.map(…)`: `none` where `toISOString` throws.
  unfoldable pub rows_of : String → ℕ → List CaseTraceStepInput → Option (List TraceRow)
  unfolding normalize_trace_timestamp
  rows_of case_id now [] = some []
  rows_of case_id now (step ∷ steps) =
      cons_row case_id now step (normalize_trace_timestamp step.ts) (rows_of case_id now steps)

  module _ (db : TraceTable) where
    open db use {Table, insert_new}

    abbrev insert_rows : Option (List TraceRow) → Table → Option Table
    insert_rows none t = none
    insert_rows (some rows) t = insert_new rows t

    -- `none` where the function throws; the table is then as before.
    unfoldable pub append_trace_steps : String → List CaseTraceStepInput → ℕ → Table → Option Table
    unfolding rows_of
    append_trace_steps case_id [] now t = some t
    append_trace_steps case_id (step ∷ steps) now t =
        insert_rows (rows_of case_id now (step ∷ steps)) t

module _ (db : TraceTable) where
  open db use {Table, select_case}

  unfoldable pub list_trace_steps : String → Table → List TraceRow
  list_trace_steps case_id t = select_case case_id t
