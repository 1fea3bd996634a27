-- ===== src/CaseRepository/Tests.antt =====
-- The repository over a table in memory, at concrete inputs.
use attest.Prelude.{String, ◌≡◌, refl, none, some, List, [], ◌∷◌, eq_iff, arith}
use attest.Prelude.Dict.{lookup, insert}
use attest.Prelude.Json.{null, bool}
use attest.Prelude.{true, false}
use attest.CaseRepository.{
  CaseRow, Snapshot, complete, complete_row, upsert_case_snapshot, mark_triage_complete,
}
use attest.CaseRepository.Memory.{memory}
use attest.CaseRepository.Marks.{
  Call, IsConsistentRow, save, mark_complete, call, run, run-IsConsistentRow, run-ContinuesAt,
  ContinuesAt,
}

abbrev snapshot : Snapshot
snapshot = record {
  case_id = "c1";
  tenant_id = none;
  event = null;
  baseline = none;
  detection = none;
}

abbrev calls : List Call
calls = save snapshot 1 ∷ mark_complete "c1" (bool true) 2 ∷ []

abbrev row : CaseRow
row = record {
  case_id = "c1";
  tenant_id = "default";
  event = null;
  baseline = none;
  detection = none;
  triage_status = complete;
  triage_started_at = none;
  triage_completed_at = some 2;
  verdict = some (bool true);
  error = none;
  created_at = 1;
  updated_at = 2;
}

row_found : lookup "c1" (run memory calls []) ≡ some row
unfolding run call lookup insert upsert_case_snapshot mark_triage_complete complete_row
row_found = refl

nothing_there : (j : String) → lookup {V = CaseRow} j [] ≡ none
unfolding lookup
nothing_there j = refl

run-IsConsistentRow_example : IsConsistentRow false row
run-IsConsistentRow_example = run-IsConsistentRow memory [] nothing_there calls "c1" row_found

one_row : (id : String) (r : CaseRow) → lookup id (("c1", row) ∷ []) ≡ some r → r.case_id ≡ id
unfolding lookup
one_row id r h = ground (arith, eq_iff "c1" id)

first_found : lookup "c1" (("c1", row) ∷ []) ≡ some row
unfolding lookup
first_found = refl

run-ContinuesAt_example : ContinuesAt memory false "c1" row (run memory calls (("c1", row) ∷ []))
run-ContinuesAt_example = run-ContinuesAt memory calls "c1" row (("c1", row) ∷ []) first_found
