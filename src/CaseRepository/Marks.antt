-- ===== src/CaseRepository/Marks.antt =====
-- What the repository's writes make of a row, in any order and for any table.
use attest.Prelude.{
  ℕ, String, ◌≡◌, ◌≢◌, refl, ◌∙◌, Option, none, some, List, [], ◌∷◌, Bool, true, false, str_eq,
  ◌&&◌, any, eq_iff, eq_refl, Option-cases, Bool-cases, inl, inr, arith,
}
use attest.Prelude.Json.{Json, null}
use attest.CaseRepository.{
  CaseRow, CaseTable, Snapshot, idle, running, complete, failed, inserted, new_row, refresh_row,
  running_row, complete_row, failed_row, upsert_case_snapshot, mark_triage_running,
  mark_triage_complete, mark_triage_failed,
}

-- A call of the repository that writes, with the time of the call.
pub data Call : Type 0 where
  save : Snapshot → ℕ → Call
  mark_running : String → ℕ → Call
  mark_complete : String → Json → ℕ → Call
  mark_failed : String → String → ℕ → Call

-- A completion of the case with the JSON value `null`, which is stored as no verdict.
abbrev pub is_null : Json → Bool
is_null null = true
is_null _ = false

abbrev pub completes_with_null : String → Call → Bool
completes_with_null id (mark_complete j v now) = str_eq j id && is_null v
completes_with_null id _ = false

-- Status and columns agree; `nulls` says that the case may have been completed with `null`.
pub record IsConsistentRow (nulls : Bool) (row : CaseRow) : Type 0 where
  pub idle_clean :
      row.triage_status ≡ idle
      → (row.verdict ≡ none) × (row.triage_started_at ≡ none) × (row.error ≡ none)
  pub running_started :
      row.triage_status ≡ running → (row.triage_started_at ≢ none) × (row.error ≡ none)
  pub complete_verdict :
      row.triage_status ≡ complete
      → (nulls ≡ false → row.verdict ≢ none) × (row.triage_completed_at ≢ none) × (row.error ≡ none)
  pub failed_error : row.triage_status ≡ failed → row.error ≢ none

module _ (db : CaseTable) where
  open db use {Table, find, upsert, update_where, find-upsert, find-update_where}

  unfoldable pub call : Call → Table → Table
  call (save args now) t = upsert_case_snapshot db args now t
  call (mark_running id now) t = mark_triage_running db id now t
  call (mark_complete id verdict now) t = mark_triage_complete db id verdict now t
  call (mark_failed id error now) t = mark_triage_failed db id error now t

  -- The table after the calls, the earliest first.
  unfoldable pub run : List Call → Table → Table
  run [] t = t
  run (c ∷ rest) t = run rest (call c t)

  AllRows : (String → Bool) → Table → Type 0
  AllRows nulls t =
      (id : String) (row : CaseRow) → find id t ≡ some row → IsConsistentRow (nulls id) row

  update_where-AllRows :
      (nulls : String → Bool) (id : String) (change : CaseRow → CaseRow) (t : Table)
      → ((row : CaseRow) → IsConsistentRow (nulls id) row → IsConsistentRow (nulls id) (change row))
      → AllRows nulls t
      → AllRows nulls (update_where id change t)
  unfolding AllRows
  update_where-AllRows nulls id change t keep h j row p = elim (Bool-cases (str_eq id j)) [
    | inl same ↦ elim (Option-cases (find j t)) [
      | inl absent ↦ absurd (ground (arith, find-update_where id change j t))
      | inr (old, found) ↦
          let e : change old ≡ row = ground (arith, find-update_where id change j t) in
          let i : id ≡ j = (eq_iff id j).0 same in
          let h' : IsConsistentRow (nulls id) old = rw i (h j old found) in
          rw (← e, ← i) (keep old h')
    ]
    | inr other ↦ h j row (ground (arith, find-update_where id change j t))
  ]

  inserted-IsConsistentRow :
      (nulls : Bool) (args : Snapshot) (now : ℕ) (o : Option CaseRow)
      → ((row : CaseRow) → o ≡ some row → IsConsistentRow nulls row)
      → IsConsistentRow nulls (inserted (new_row args now) (refresh_row args now) o)
  unfolding new_row refresh_row
  inserted-IsConsistentRow nulls args now none h = ground arith
  inserted-IsConsistentRow nulls args now (some old) h =
      let c = h old refl in
      record {
        idle_clean = c.idle_clean;
        running_started = c.running_started;
        complete_verdict = c.complete_verdict;
        failed_error = c.failed_error;
      }

  save-AllRows :
      (nulls : String → Bool) (args : Snapshot) (now : ℕ) (t : Table)
      → AllRows nulls t
      → AllRows nulls (upsert_case_snapshot db args now t)
  unfolding AllRows upsert_case_snapshot
  save-AllRows nulls args now t h j row p = elim (Bool-cases (str_eq args.case_id j)) [
    | inl same ↦
        let e : inserted (new_row args now) (refresh_row args now) (find j t) ≡ row =
          ground (arith, find-upsert (new_row args now) (refresh_row args now) j t) in
        rw (← e) (inserted-IsConsistentRow (nulls j) args now (find j t) (h j))
    | inr other ↦
        h j row (ground (arith, find-upsert (new_row args now) (refresh_row args now) j t))
  ]

  complete_row-IsConsistentRow :
      (nulls : Bool) (v : Json) (now : ℕ) (row : CaseRow)
      → (nulls ≡ false → is_null v ≡ false)
      → IsConsistentRow nulls (complete_row v now row)
  unfolding complete_row
  complete_row-IsConsistentRow nulls null now row h = ground arith
  complete_row-IsConsistentRow nulls v now row h = ground arith

  -- The completions with `null` among the calls are of cases that `nulls` names.
  Allows : (String → Bool) → List Call → Type 0
  Allows nulls calls = (id : String) → nulls id ≡ false → any (completes_with_null id) calls ≡ false

  call-AllRows :
      (nulls : String → Bool) (c : Call) (rest : List Call) (t : Table)
      → Allows nulls (c ∷ rest)
      → AllRows nulls t
      → AllRows nulls (call c t)
  unfolding call mark_triage_running mark_triage_complete mark_triage_failed running_row failed_row
      Allows
  call-AllRows nulls (save args now) rest t a h = save-AllRows nulls args now t h
  call-AllRows nulls (mark_running id now) rest t a h =
      update_where-AllRows nulls id _ t (λ r k. ground arith) h
  call-AllRows nulls (mark_complete id v now) rest t a h =
      update_where-AllRows nulls id (complete_row v now) t
        (λ r k.
          complete_row-IsConsistentRow (nulls id) v now r (λ n. ground (arith, a id n, eq_refl id)))
        h
  call-AllRows nulls (mark_failed id e now) rest t a h =
      update_where-AllRows nulls id _ t (λ r k. ground arith) h

  run-AllRows :
      (nulls : String → Bool) (calls : List Call) (t : Table)
      → Allows nulls calls
      → AllRows nulls t
      → AllRows nulls (run calls t)
  unfolding run Allows
  run-AllRows nulls [] t a h = h
  run-AllRows nulls (c ∷ rest) t a h =
      run-AllRows nulls rest (call c t) (λ id n. ground (arith, a id n))
        (call-AllRows nulls c rest t a h)

  -- From a table with no row, whatever the repository writes and in whatever order, every row that
  -- is found agrees with its status: idle has no verdict, start or error, running has a start and no
  -- error, complete has a completion time and no error, failed has an error; and complete has a
  -- verdict too, unless one of the calls completed the case with the JSON value null.
  pub run-IsConsistentRow :
      (t : Table)
      → ((j : String) → find j t ≡ none)
      → (calls : List Call) (id : String) {row : CaseRow} → find id (run calls t) ≡ some row
      → IsConsistentRow (any (completes_with_null id) calls) row
  unfolding AllRows Allows
  run-IsConsistentRow t empty calls id {row} found =
      run-AllRows (λ j. any (completes_with_null j) calls) calls t (λ j n. n)
        (λ j r p. absurd (ground (arith, empty j))) id row found

  -- What later writes do not undo; `nulls` says that one may have completed the case with `null`.
  pub record Continues (nulls : Bool) (before after : CaseRow) : Type 0 where
    pub same_tenant : after.tenant_id ≡ before.tenant_id
    pub same_creation : after.created_at ≡ before.created_at
    pub keeps_start : before.triage_started_at ≢ none → after.triage_started_at ≢ none
    pub keeps_verdict : nulls ≡ false → before.verdict ≢ none → after.verdict ≢ none

  Continues-refl : (nulls : Bool) (row : CaseRow) → Continues nulls row row
  Continues-refl nulls row = record {
    same_tenant = refl;
    same_creation = refl;
    keeps_start = λ k. k;
    keeps_verdict = λ n k. k;
  }

  pub record ContinuesAt (nulls : Bool) (id : String) (row : CaseRow) (t : Table) : Type 0 where
    pub row_after : CaseRow
    pub found : find id t ≡ some row_after
    pub continues : Continues nulls row row_after

  update_where-ContinuesAt :
      (nulls : Bool) (j : String) (change : CaseRow → CaseRow) (id : String) (row : CaseRow)
      (t : Table)
      → (str_eq j id ≡ true → Continues nulls row (change row))
      → find id t ≡ some row
      → ContinuesAt nulls id row (update_where j change t)
  update_where-ContinuesAt nulls j change id row t keep h = elim (Bool-cases (str_eq j id)) [
    | inl same ↦ record {
      row_after = change row;
      found = ground (arith, find-update_where j change id t);
      continues = keep same;
    }
    | inr other ↦ record {
      row_after = row;
      found = ground (arith, find-update_where j change id t);
      continues = Continues-refl nulls row;
    }
  ]

  complete_row-Continues :
      (nulls : Bool) (v : Json) (now : ℕ) (row : CaseRow)
      → (nulls ≡ false → is_null v ≡ false)
      → Continues nulls row (complete_row v now row)
  unfolding complete_row
  complete_row-Continues nulls null now row h = ground arith
  complete_row-Continues nulls v now row h = ground arith

  call-ContinuesAt :
      (c : Call) (id : String) (row : CaseRow) (t : Table)
      → find id t ≡ some row
      → ContinuesAt (completes_with_null id c) id row (call c t)
  unfolding call upsert_case_snapshot mark_triage_running mark_triage_complete mark_triage_failed
      running_row failed_row
  call-ContinuesAt (save args now) id row t h = elim (Bool-cases (str_eq args.case_id id)) [
    | inl same ↦ record {
      row_after = refresh_row args now row;
      found = ground (arith, find-upsert (new_row args now) (refresh_row args now) id t);
      continues = record {
        same_tenant = refl;
        same_creation = refl;
        keeps_start = λ k. k;
        keeps_verdict = λ n k. k;
      };
    }
    | inr other ↦ record {
      row_after = row;
      found = ground (arith, find-upsert (new_row args now) (refresh_row args now) id t);
      continues = Continues-refl false row;
    }
  ]
  call-ContinuesAt (mark_running j now) id row t h =
      update_where-ContinuesAt false j _ id row t (λ same. ground arith) h
  call-ContinuesAt (mark_complete j v now) id row t h =
      update_where-ContinuesAt (str_eq j id && is_null v) j (complete_row v now) id row t
        (λ same. complete_row-Continues (str_eq j id && is_null v) v now row (λ n. ground arith)) h
  call-ContinuesAt (mark_failed j e now) id row t h =
      update_where-ContinuesAt false j _ id row t (λ same. ground arith) h

  none_later :
      (c : Call) (rest : List Call) (id : String)
      → any (completes_with_null id) (c ∷ rest) ≡ false
      → (completes_with_null id c ≡ false) × (any (completes_with_null id) rest ≡ false)
  none_later c rest id h = elim (Bool-cases (completes_with_null id c)) [
    | inl fault ↦ absurd (ground arith)
    | inr fine ↦ (fine, ground arith)
  ]

  -- A row that the table has is there after any further calls, with its tenant and its time of
  -- creation, and with a time of start if it had one; and a stored verdict is not lost to any save,
  -- failure, new start or completion, except a completion of this case with the JSON value null.
  pub run-ContinuesAt :
      (calls : List Call) (id : String) (row : CaseRow) (t : Table)
      → find id t ≡ some row
      → ContinuesAt (any (completes_with_null id) calls) id row (run calls t)
  unfolding run
  run-ContinuesAt [] id row t h = record {
    row_after = row;
    found = h;
    continues = Continues-refl false row;
  }
  run-ContinuesAt (c ∷ rest) id row t h =
      let first = call-ContinuesAt c id row t h in
      let last = run-ContinuesAt rest id first.row_after (call c t) first.found in
      record {
        row_after = last.row_after;
        found = last.found;
        continues = record {
          same_tenant = last.continues.same_tenant ∙ first.continues.same_tenant;
          same_creation = last.continues.same_creation ∙ first.continues.same_creation;
          keeps_start = λ k. last.continues.keeps_start (first.continues.keeps_start k);
          keeps_verdict = λ n k.
              let both = none_later c rest id n in
              last.continues.keeps_verdict both.1 (first.continues.keeps_verdict both.0 k);
        };
      }
