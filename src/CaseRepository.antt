-- ===== src/CaseRepository.antt =====
-- The durable cases and their trace steps (apps/workbench/src/lib/server/case-repository.ts and the row
-- types of apps/workbench/src/types/db.ts). The database is not part of the repository: a table of
-- cases is a parameter, given by the statements that the source builds and by what they do.
pub mod Memory
pub mod Marks
pub mod Batch
pub mod Traces
pub mod TraceMemory
mod Tests
use Prim.Native.String.{◌++◌ as text_append}
use attest.Prelude.{
  ℕ, ◌*◌, ◌≡◌, String, Option, none, some, List, [], ◌∷◌, Bool, true, false, map, ltb, str_eq, leb,
  any, filter, if◌then◌else◌,
}
use attest.Prelude.Dict.{Dict, insert}
use attest.Prelude.Json.{Json, null}

-- The text column `triage_status`, with the values that its type lists.
pub data RowStatus : Type 0 where
  idle running complete failed : RowStatus

-- A row of `workbench_cases`. Times are milliseconds; a null column is `none`.
pub record CaseRow : Type 0 where
  pub case_id : String
  pub tenant_id : String
  pub event : Json
  pub baseline : Option Json
  pub detection : Option Json
  pub triage_status : RowStatus
  pub triage_started_at : Option ℕ
  pub triage_completed_at : Option ℕ
  pub verdict : Option Json
  pub error : Option String
  pub created_at : ℕ
  pub updated_at : ℕ

abbrev pub map_row : (CaseRow → CaseRow) → Option CaseRow → Option CaseRow
map_row change none = none
map_row change (some row) = some (change row)

-- The row that `INSERT … ON CONFLICT (case_id) DO UPDATE` leaves under its key.
abbrev pub inserted : CaseRow → (CaseRow → CaseRow) → Option CaseRow → CaseRow
inserted row change none = row
inserted row change (some old) = change old

-- The table `workbench_cases` with its primary key, by the three kinds of statement that the
-- repository makes and by their documented effect on the row of each key.
pub record CaseTable : Type 1 where
  pub Table : Type 0
  pub find : String → Table → Option CaseRow
  pub upsert : CaseRow → (CaseRow → CaseRow) → Table → Table
  pub update_where : String → (CaseRow → CaseRow) → Table → Table
  pub find-upsert :
      (row : CaseRow) (change : CaseRow → CaseRow) (j : String) (t : Table)
      → find j (upsert row change t)
        ≡ (if str_eq row.case_id j then some (inserted row change (find j t)) else find j t)
  pub find-update_where :
      (id : String) (change : CaseRow → CaseRow) (j : String) (t : Table)
      → find j (update_where id change t)
        ≡ (if str_eq id j then map_row change (find j t) else find j t)

pub record Snapshot : Type 0 where
  pub case_id : String
  pub tenant_id : Option String
  pub event : Json
  pub baseline : Option Json
  pub detection : Option Json

abbrev pub tenant_or_default : Option String → String
tenant_or_default none = "default"
tenant_or_default (some tenant) = tenant

-- The values of a new row.
unfoldable pub new_row : Snapshot → ℕ → CaseRow
new_row args now = record {
  case_id = args.case_id;
  tenant_id = tenant_or_default args.tenant_id;
  event = args.event;
  baseline = args.baseline;
  detection = args.detection;
  triage_status = idle;
  triage_started_at = none;
  triage_completed_at = none;
  verdict = none;
  error = none;
  created_at = now;
  updated_at = now;
}

-- `doUpdateSet`: the triage columns of an old row stay.
unfoldable pub refresh_row : Snapshot → ℕ → CaseRow → CaseRow
refresh_row args now row = record row {
  event = args.event;
  baseline = args.baseline;
  detection = args.detection;
  updated_at = now;
}

unfoldable pub running_row : ℕ → CaseRow → CaseRow
running_row now row = record row {
  triage_status = running;
  triage_started_at = some now;
  error = none;
  updated_at = now;
}

-- What a JSON column holds of a value: `null` is SQL's.
abbrev pub column : Json → Option Json
column null = none
column v = some v

unfoldable pub complete_row : Json → ℕ → CaseRow → CaseRow
complete_row verdict now row = record row {
  triage_status = complete;
  triage_completed_at = some now;
  verdict = column verdict;
  error = none;
  updated_at = now;
}

unfoldable pub failed_row : String → ℕ → CaseRow → CaseRow
failed_row error now row = record row {
  triage_status = failed;
  error = some error;
  updated_at = now;
}

add_row : Option CaseRow → Dict CaseRow → Dict CaseRow
add_row none rest = rest
add_row (some row) rest = insert row.case_id row rest

module _ (db : CaseTable) where
  open db use {Table, find, upsert, update_where}

  unfoldable pub upsert_case_snapshot : Snapshot → ℕ → Table → Table
  unfolding new_row refresh_row
  upsert_case_snapshot args now = upsert (new_row args now) (refresh_row args now)

  unfoldable pub get_case : String → Table → Option CaseRow
  get_case case_id t = find case_id t

  unfoldable pub mark_triage_running : String → ℕ → Table → Table
  mark_triage_running case_id now = update_where case_id (running_row now)

  unfoldable pub mark_triage_complete : String → Json → ℕ → Table → Table
  mark_triage_complete case_id verdict now = update_where case_id (complete_row verdict now)

  unfoldable pub mark_triage_failed : String → String → ℕ → Table → Table
  mark_triage_failed case_id error now = update_where case_id (failed_row error now)

  -- `WHERE case_id IN (…)`: the rows that exist, then `map.set` under the key of each. Only look-ups
  -- are made in the result, so the order of the rows does not show.
  unfoldable pub get_cases : List String → Table → Dict CaseRow
  unfolding add_row
  get_cases [] t = []
  get_cases (id ∷ ids) t = add_row (find id t) (get_cases ids t)
