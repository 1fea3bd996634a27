-- ===== src/CaseRepository/Batch.antt =====
-- The batched look-up of cases against the single one.
use attest.Prelude.{
  String, ◌≡◌, refl, none, some, List, [], ◌∷◌, Bool, true, false, str_eq, eq_iff, Option-cases,
  inl, inr, if◌then◌else◌, arith,
}
use attest.Prelude.Dict.{Dict, lookup, lookup-insert}
use attest.CaseRepository.{CaseRow, CaseTable, get_case, get_cases, add_row}

module _ (db : CaseTable) where
  open db use {Table, find}

  -- A row is kept under its own key.
  abbrev pub IsKeyed : Table → Type 0
  IsKeyed t = (id : String) (row : CaseRow) → find id t ≡ some row → row.case_id ≡ id

  unfoldable pub listed : String → List String → Bool
  listed id [] = false
  listed id (j ∷ ids) = let rest = listed id ids in if str_eq j id then true else rest

  lookup-add_row :
      (id : String) (j : String) (t : Table) (rest : Dict CaseRow)
      → IsKeyed t
      → lookup id (add_row (find j t) rest) ≡ (
          if str_eq j id
          then (elim (find j t) [ none ↦ lookup id rest | some row ↦ some row ])
          else lookup id rest)
  unfolding add_row
  lookup-add_row id j t rest k = elim (Option-cases (find j t)) [
    | inl absent ↦ rw absent (ground arith)
    | inr (row, found) ↦
        rw found (ground (arith, k j row found, lookup-insert row.case_id id row rest))
  ]

  -- Where rows are kept under their own keys, the batch look-up answers each listed case as the
  -- single look-up does, and no other.
  pub lookup-get_cases :
      (ids : List String) (t : Table) (id : String)
      → IsKeyed t
      → lookup id (get_cases db ids t) ≡ (if listed id ids then get_case db id t else none)
  unfolding get_cases get_case listed lookup
  lookup-get_cases [] t id k = refl
  lookup-get_cases (j ∷ ids) t id k =
      rw (lookup-add_row id j t (get_cases db ids t) k)
        (listed_cons ids t id j (lookup-get_cases ids t id k))
    where
      listed_cons :
          (ids' : List String) (t' : Table) (id' j' : String)
          → lookup id' (get_cases db ids' t') ≡ (if listed id' ids' then find id' t' else none)
          → (if str_eq j' id'
              then (elim (find j' t') [
                | none ↦ lookup id' (get_cases db ids' t')
                | some row ↦ some row
              ])
              else lookup id' (get_cases db ids' t'))
            ≡ (if (if str_eq j' id' then true else listed id' ids') then find id' t' else none)
      listed_cons ids' t' id' j' ih = ground (arith, eq_iff j' id')
