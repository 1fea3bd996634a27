-- ===== src/TraceRoute/Persisted.antt =====
-- What a posted trace leaves in the table.
use attest.Prelude.{
  ℕ, String, ◌≡◌, refl, ◌∙◌, Option, none, some, List, [], ◌∷◌, Bool, true, false, length,
  Option-cases, inl, inr, arith,
}
use attest.Prelude.Dedup.{find_key}
use attest.CaseRepository.Traces.{
  CaseTraceStepInput, TraceRow, TraceTable, IsAscending, row_id, or_else, of_case, rows_of,
  append_trace_steps, list_trace_steps,
}
use attest.TraceRoute.Rows.{AreRowsOf, rows_of-Taken, rows_of-AreRowsOf}
use attest.TraceRoute.{RawStep, inserted, step_inputs, given, trace_post}

abbrev is_some {ℓ} : {A : Type ℓ} → Option A → Bool
is_some none = false
is_some (some a) = true

module _ (date_of_text : String → Option ℕ) where
  -- The keys of the rows do not depend on the time of the call.
  rows_of-keys :
      (case_id : String) (now later : ℕ) (inputs : List CaseTraceStepInput) (a b : List TraceRow)
      → rows_of date_of_text case_id now inputs ≡ some a
      → rows_of date_of_text case_id later inputs ≡ some b
      → (id : String) → is_some (find_key row_id id a) ≡ is_some (find_key row_id id b)
  unfolding rows_of
  rows_of-keys case_id now later [] a b p q id = ground arith
  rows_of-keys case_id now later (s ∷ rest) a b p q id =
      let x = rows_of-Taken date_of_text case_id now s rest a p in
      let y = rows_of-Taken date_of_text case_id later s rest b q in
      let e : x.ts ≡ y.ts = ground (arith, x.valid, y.valid) in
      let ih = rows_of-keys case_id now later rest x.others y.others x.rest_taken y.rest_taken id in
      rw (← x.whole, ← y.whole, e) (ground (arith, ih))

  length-rows_of :
      (case_id : String) (now : ℕ) (inputs : List CaseTraceStepInput) (rows : List TraceRow)
      → rows_of date_of_text case_id now inputs ≡ some rows
      → length rows ≡ length inputs
  unfolding rows_of
  length-rows_of case_id now [] rows p = ground arith
  length-rows_of case_id now (s ∷ rest) rows p =
      let x = rows_of-Taken date_of_text case_id now s rest rows p in
      rw (← x.whole) (ground (arith, length-rows_of case_id now rest x.others x.rest_taken))

  module _ (db : TraceTable) where
    open db use {
      Table, find, insert_new, select_case, find-insert_new, find_key-select_case,
      select_case-IsAscending,
    }

    -- What an append leaves under every key.
    record Appended (case_id : String) (inputs : List CaseTraceStepInput) (now : ℕ)
        (t after : Table) : Type 0 where
      rows : List TraceRow
      taken : rows_of date_of_text case_id now inputs ≡ some rows
      found : (id : String) → find id after ≡ or_else (find id t) (find_key row_id id rows)

    append-Appended :
        (case_id : String) (inputs : List CaseTraceStepInput) (now : ℕ) (t after : Table)
        → append_trace_steps date_of_text db case_id inputs now t ≡ some after
        → Appended case_id inputs now t after
    unfolding append_trace_steps rows_of
    append-Appended case_id [] now t after p = record {
      rows = [];
      taken = refl;
      found = λ id. let e : t ≡ after = ground arith in rw (← e) (ground arith);
    }
    append-Appended case_id (s ∷ rest) now t after p =
        elim (Option-cases (rows_of date_of_text case_id now (s ∷ rest))) [
          | inl invalid ↦ absurd (ground arith)
          | inr (rows, taken) ↦ record {
            rows = rows;
            taken = taken;
            found = λ id. find-insert_new rows t after id (rw taken at p);
          }
        ]

    append_again :
        (case_id : String) (inputs : List CaseTraceStepInput) (now later : ℕ) (t once twice : Table)
        → append_trace_steps date_of_text db case_id inputs now t ≡ some once
        → append_trace_steps date_of_text db case_id inputs later once ≡ some twice
        → (id : String) → find id twice ≡ find id once
    append_again case_id inputs now later t once twice p q id =
        let x = append-Appended case_id inputs now t once p in
        let y = append-Appended case_id inputs later once twice q in
        let k = rows_of-keys case_id now later inputs x.rows y.rows x.taken y.taken id in
        ground (arith, x.found id, y.found id, k)

    append_keeps :
        (case_id : String) (inputs : List CaseTraceStepInput) (now : ℕ) (t after : Table)
        → append_trace_steps date_of_text db case_id inputs now t ≡ some after
        → (id : String) (row : TraceRow) → find id t ≡ some row
        → find id after ≡ some row
    append_keeps case_id inputs now t after p id row h =
        let x = append-Appended case_id inputs now t after p in ground (arith, x.found id)

module _ (traces : TraceTable) (date_of_text : String → Option ℕ) where
  open traces use {Table, find, find_key-select_case, select_case-IsAscending}

  -- A post that is accepted, taken apart.
  record Accepted (case_id : String) (body : Option (List RawStep)) (now n : ℕ) (t after : Table)
      : Type 0 where
    appended :
        append_trace_steps date_of_text traces case_id (step_inputs case_id (given [] body)) now t
        ≡ some after
    counted : length (step_inputs case_id (given [] body)) ≡ n

  trace_post-Accepted :
      (case_id : String) (body : Option (List RawStep)) (now n : ℕ) (t after : Table)
      → trace_post traces date_of_text case_id body now t ≡ (inserted n, after)
      → Accepted case_id body now n t after
  unfolding trace_post
  trace_post-Accepted case_id body now n t after p =
      let inputs = step_inputs case_id (given [] body) in
      elim (Option-cases (append_trace_steps date_of_text traces case_id inputs now t)) [
        | inl thrown ↦ absurd (ground arith)
        | inr (end, appended) ↦ record { appended = ground (arith); counted = ground (arith) }
      ]

  -- A trace that is posted again, at any later time, and accepted again, is counted as before and
  -- changes no row.
  pub trace_post_again :
      (case_id : String) (body : Option (List RawStep)) (now later n m : ℕ) (t once twice : Table)
      → trace_post traces date_of_text case_id body now t ≡ (inserted n, once)
      → trace_post traces date_of_text case_id body later once ≡ (inserted m, twice)
      → (n ≡ m) × ((id : String) → find id twice ≡ find id once)
  trace_post_again case_id body now later n m t once twice p q =
      let x = trace_post-Accepted case_id body now n t once p in
      let y = trace_post-Accepted case_id body later m once twice q in
      (
        ground (arith, x.counted, y.counted),
        append_again date_of_text traces case_id (step_inputs case_id (given [] body)) now later t
            once twice x.appended y.appended,
      )

  -- The posts of a process: the case, the body and the time of each, the earliest first.
  unfoldable pub run : List (String × Option (List RawStep) × ℕ) → Table → Table
  run [] t = t
  run ((case_id, body, now) ∷ rest) t =
      run rest (trace_post traces date_of_text case_id body now t).1

  trace_post_keeps :
      (case_id : String) (body : Option (List RawStep)) (now : ℕ) (t : Table) (id : String)
      (row : TraceRow)
      → find id t ≡ some row
      → find id (trace_post traces date_of_text case_id body now t).1 ≡ some row
  unfolding trace_post
  trace_post_keeps case_id body now t id row h =
      let inputs = step_inputs case_id (given [] body) in
      elim (Option-cases (append_trace_steps date_of_text traces case_id inputs now t)) [
        | inl thrown ↦ rw thrown h
        | inr (after, appended) ↦
            rw appended
              (append_keeps date_of_text traces case_id inputs now t after appended id row h)
      ]

  -- A step that is in the table stays there as it is, whatever is posted, for this case or another,
  -- and whether the posts succeed or throw.
  pub run_keeps :
      (posts : List (String × Option (List RawStep) × ℕ)) (t : Table) (id : String) (row : TraceRow)
      → find id t ≡ some row
      → find id (run posts t) ≡ some row
  unfolding run
  run_keeps [] t id row h = h
  run_keeps ((case_id, body, now) ∷ rest) t id row h =
      run_keeps rest _ id row (trace_post_keeps case_id body now t id row h)

  -- What is read of a case after a post for it.
  pub record IsListed (case_id : String) (body : Option (List RawStep)) (now n : ℕ)
      (t after : Table) : Type 0 where
    pub rows : List TraceRow
    pub matched : AreRowsOf date_of_text case_id now (given [] body) rows
    pub counted : length rows ≡ n
    pub listed :
        (id : String)
        → find_key row_id id (list_trace_steps traces case_id after)
          ≡ of_case case_id (or_else (find id t) (find_key row_id id rows))
    pub ascending : IsAscending (list_trace_steps traces case_id after)

  -- After a post that is accepted the trace of the case lists, in ascending time, under each key the
  -- row that the case had there before, or else the first posted row of that key. The posted rows are
  -- one for each step of the body that has an action, a kind and a time, in order and field by field,
  -- and none for any other step; the count in the reply is theirs.
  pub trace_post-IsListed :
      (case_id : String) (body : Option (List RawStep)) (now n : ℕ) (t after : Table)
      → trace_post traces date_of_text case_id body now t ≡ (inserted n, after)
      → IsListed case_id body now n t after
  unfolding list_trace_steps
  trace_post-IsListed case_id body now n t after p =
      let x = trace_post-Accepted case_id body now n t after p in
      let y = append-Appended date_of_text traces case_id _ now t after x.appended in
      record {
        rows = y.rows;
        matched = rows_of-AreRowsOf date_of_text case_id now (given [] body) y.rows y.taken;
        counted = length-rows_of date_of_text case_id now _ y.rows y.taken ∙ x.counted;
        listed = λ id. rw (find_key-select_case case_id after id, y.found id) refl;
        ascending = select_case-IsAscending case_id after;
      }
