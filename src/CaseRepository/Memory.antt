-- ===== src/CaseRepository/Memory.antt =====
-- A table of cases in memory, which meets what the repository asks of the database.
use attest.Prelude.{
  String, ◌≡◌, Option, none, some, str_eq, eq_iff, Option-cases, inl, inr, if◌then◌else◌, arith,
}
use attest.Prelude.Dict.{Dict, lookup, insert, lookup-insert}
use attest.CaseRepository.{CaseRow, CaseTable, map_row, inserted}

abbrev rows_upsert : CaseRow → (CaseRow → CaseRow) → Dict CaseRow → Dict CaseRow
rows_upsert row change t = insert row.case_id (inserted row change (lookup row.case_id t)) t

abbrev write_row : String → Option CaseRow → Dict CaseRow → Dict CaseRow
write_row id none t = t
write_row id (some row) t = insert id row t

abbrev rows_update : String → (CaseRow → CaseRow) → Dict CaseRow → Dict CaseRow
rows_update id change t = write_row id (map_row change (lookup id t)) t

pub rows_find-upsert :
    (row : CaseRow) (change : CaseRow → CaseRow) (j : String) (t : Dict CaseRow)
    → lookup j (rows_upsert row change t)
      ≡ (if str_eq row.case_id j then some (inserted row change (lookup j t)) else lookup j t)
rows_find-upsert row change j t = ground (
  arith,
  eq_iff row.case_id j,
  lookup-insert row.case_id j (inserted row change (lookup row.case_id t)) t,
)

pub rows_find-update :
    (id : String) (change : CaseRow → CaseRow) (j : String) (t : Dict CaseRow)
    → lookup j (rows_update id change t)
      ≡ (if str_eq id j then map_row change (lookup j t) else lookup j t)
rows_find-update id change j t = elim (Option-cases (lookup id t)) [
  | inl absent ↦ rw absent (ground (arith, eq_iff id j))
  | inr (row, found) ↦ rw found (ground (arith, eq_iff id j, lookup-insert id j (change row) t))
]

abbrev pub memory : CaseTable
memory = record {
  Table = Dict CaseRow;
  find = lookup;
  upsert = rows_upsert;
  update_where = rows_update;
  find-upsert = rows_find-upsert;
  find-update_where = rows_find-update;
}
