-- ===== src/CaseRepository/TraceMemory.antt =====
-- A table of trace steps in memory, which meets what the repository asks of the database.
use attest.Prelude.{
  String, ◌≡◌, refl, ap, ◌∙◌, none, some, List, [], ◌∷◌, ◌++◌, false, leb, str_eq, eq_iff,
  Bool-cases, inl, inr, if◌then◌else◌, arith,
}
use attest.Prelude.Dedup.{
  find_key, holds_key, dedup, HasDistinctKeys, dedup-HasDistinctKeys, find_key-dedup,
}
use attest.CaseRepository.Traces.{TraceRow, TraceTable, IsAscending, row_id, or_else, of_case}

abbrev of_case_rows : String → List TraceRow → List TraceRow
of_case_rows id [] = []
of_case_rows id (row ∷ rows) =
    let rest = of_case_rows id rows in if str_eq row.case_id id then row ∷ rest else rest

-- Behind the rows that are no later.
unfoldable pub insert_by_time : TraceRow → List TraceRow → List TraceRow
insert_by_time row [] = row ∷ []
insert_by_time row (next ∷ rest) =
    let later = insert_by_time row rest in
    if leb row.ts next.ts then row ∷ next ∷ rest else next ∷ later

unfoldable pub sort_by_time : List TraceRow → List TraceRow
unfolding insert_by_time
sort_by_time [] = []
sort_by_time (row ∷ rows) = insert_by_time row (sort_by_time rows)

abbrev listed : String → List TraceRow → List TraceRow
listed id rows = sort_by_time (of_case_rows id (dedup row_id [] rows))

find_key-absent :
    (id : String) (rows : List TraceRow)
    → holds_key row_id id rows ≡ false
    → find_key row_id id rows ≡ none
find_key-absent id [] h = refl
find_key-absent id (row ∷ rows) h = ground (arith, find_key-absent id rows)

pub find_key-of_case_rows :
    (case_id id : String) (rows : List TraceRow)
    → HasDistinctKeys row_id rows
    → find_key row_id id (of_case_rows case_id rows) ≡ of_case case_id (find_key row_id id rows)
find_key-of_case_rows case_id id [] d = refl
find_key-of_case_rows case_id id (row ∷ rows) d = ground (
  arith,
  find_key-of_case_rows case_id id rows d.1,
  find_key-absent id rows,
  eq_iff row.id id,
  d.0,
)

holds_key-of_case_rows :
    (case_id id : String) (rows : List TraceRow)
    → holds_key row_id id rows ≡ false
    → holds_key row_id id (of_case_rows case_id rows) ≡ false
holds_key-of_case_rows case_id id [] h = refl
holds_key-of_case_rows case_id id (row ∷ rows) h =
    ground (arith, holds_key-of_case_rows case_id id rows)

pub of_case_rows-HasDistinctKeys :
    (case_id : String) (rows : List TraceRow)
    → HasDistinctKeys row_id rows
    → HasDistinctKeys row_id (of_case_rows case_id rows)
of_case_rows-HasDistinctKeys case_id [] d = tt
of_case_rows-HasDistinctKeys case_id (row ∷ rows) d =
    elim (Bool-cases (str_eq row.case_id case_id)) [
      | inl same ↦ rw same (
        holds_key-of_case_rows case_id row.id rows d.0,
        of_case_rows-HasDistinctKeys case_id rows d.1,
      )
      | inr other ↦ rw other (of_case_rows-HasDistinctKeys case_id rows d.1)
    ]

holds_key-insert_by_time :
    (id : String) (row : TraceRow) (rows : List TraceRow)
    → holds_key row_id id (insert_by_time row rows) ≡ holds_key row_id id (row ∷ rows)
unfolding insert_by_time
holds_key-insert_by_time id row [] = refl
holds_key-insert_by_time id row (next ∷ rest) = ground (arith, holds_key-insert_by_time id row rest)

find_key-insert_by_time :
    (id : String) (row : TraceRow) (rows : List TraceRow)
    → holds_key row_id row.id rows ≡ false
    → find_key row_id id (insert_by_time row rows) ≡ find_key row_id id (row ∷ rows)
unfolding insert_by_time
find_key-insert_by_time id row [] d = refl
find_key-insert_by_time id row (next ∷ rest) d = ground (
  arith,
  find_key-insert_by_time id row rest,
  eq_iff row.id id,
  eq_iff next.id id,
  eq_iff next.id row.id,
)

holds_key-sort_by_time :
    (id : String) (rows : List TraceRow)
    → holds_key row_id id (sort_by_time rows) ≡ holds_key row_id id rows
unfolding sort_by_time
holds_key-sort_by_time id [] = refl
holds_key-sort_by_time id (row ∷ rows) =
    ground
      (arith, holds_key-insert_by_time id row (sort_by_time rows), holds_key-sort_by_time id rows)

pub find_key-sort_by_time :
    (id : String) (rows : List TraceRow)
    → HasDistinctKeys row_id rows
    → find_key row_id id (sort_by_time rows) ≡ find_key row_id id rows
unfolding sort_by_time
find_key-sort_by_time id [] d = refl
find_key-sort_by_time id (row ∷ rows) d = ground (
  arith,
  find_key-insert_by_time id row (sort_by_time rows),
  holds_key-sort_by_time row.id rows,
  find_key-sort_by_time id rows d.1,
  d.0,
)

insert_by_time-IsAscending :
    (row : TraceRow) (rows : List TraceRow)
    → IsAscending rows
    → IsAscending (insert_by_time row rows)
unfolding insert_by_time
insert_by_time-IsAscending row [] h = tt
insert_by_time-IsAscending row (a ∷ []) h = ground arith
insert_by_time-IsAscending row (a ∷ b ∷ rest) h =
    ground (arith, insert_by_time-IsAscending row (b ∷ rest))

pub sort_by_time-IsAscending : (rows : List TraceRow) → IsAscending (sort_by_time rows)
unfolding sort_by_time
sort_by_time-IsAscending [] = tt
sort_by_time-IsAscending (row ∷ rows) =
    insert_by_time-IsAscending row (sort_by_time rows) (sort_by_time-IsAscending rows)

pub find_key-append :
    (id : String) (t rows : List TraceRow)
    → find_key row_id id (t ++ rows) ≡ or_else (find_key row_id id t) (find_key row_id id rows)
find_key-append id [] rows = refl
find_key-append id (row ∷ t) rows = ground (arith, find_key-append id t rows)

pub find_key-inserted :
    (rows t after : List TraceRow) (id : String)
    → some (t ++ rows) ≡ some after
    → find_key row_id id after ≡ or_else (find_key row_id id t) (find_key row_id id rows)
find_key-inserted rows t after id p =
    let e : t ++ rows ≡ after = ground arith in rw (← e) (find_key-append id t rows)

abbrev pub trace_memory : TraceTable
trace_memory = record {
  Table = List TraceRow;
  find = find_key row_id;
  insert_new = λ rows t. some (t ++ rows);
  select_case = listed;
  find-insert_new = find_key-inserted;
  find_key-select_case = λ case_id t id.
      let d = dedup-HasDistinctKeys row_id [] t in
      find_key-sort_by_time id _ (of_case_rows-HasDistinctKeys case_id _ d)
      ∙ (find_key-of_case_rows case_id id _ d ∙ ap (of_case case_id) (find_key-dedup row_id id t));
  select_case-IsAscending = λ case_id t. sort_by_time-IsAscending _;
}
