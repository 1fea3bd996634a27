-- ===== src/TraceRoute/Rows.antt =====
-- Which rows come of the steps of a posted body, told step by step and apart from the code: an account
-- of `POST` in apps/workbench/src/app/api/cases/[caseId]/trace/route.ts.
use Prim.Native.String.{◌++◌ as text_append}
use attest.Prelude.{
  ℕ, zero, suc, String, ◌≡◌, refl, Option, none, some, List, [], ◌∷◌, true, false, Option-cases,
  Bool-cases, inl, inr, arith,
}
use attest.Prelude.Text.{is_empty}
use attest.Prelude.Time.{iso_string}
use attest.CaseRepository.Traces.{
  Timestamp, number, text, date, CaseTraceStepInput, TraceRow, normalize_trace_timestamp, rows_of,
  row_at,
}
use attest.TraceRoute.{
  RawStep, given, truthy_time, full_step, with_fields, cons_some, step_input, step_inputs,
}

-- A text that is missing or empty, and a time that is missing, zero or an empty text.
pub data IsMissing : Option String → Type 0 where
  absent : IsMissing none
  empty : IsMissing (some "")

pub data HasNoTime : Option Timestamp → Type 0 where
  absent_time : HasNoTime none
  zero_time : HasNoTime (some (number 0))
  empty_time : HasNoTime (some (text ""))

pub data IsUnusable (s : RawStep) : Type 0 where
  no_action : IsMissing s.agent_action_id → IsUnusable s
  no_kind : IsMissing s.step_kind → IsUnusable s
  no_time : HasNoTime s.ts → IsUnusable s

module _ (date_of_text : String → Option ℕ) where
  -- An accepted step in front, taken apart.
  pub record Taken (case_id : String) (now : ℕ) (s : CaseTraceStepInput)
      (rest : List CaseTraceStepInput) (rows : List TraceRow) : Type 0 where
    pub ts : ℕ
    pub valid : normalize_trace_timestamp date_of_text s.ts ≡ some ts
    pub others : List TraceRow
    pub rest_taken : rows_of date_of_text case_id now rest ≡ some others
    pub whole : row_at date_of_text case_id now s ts ∷ others ≡ rows

  pub rows_of-Taken :
      (case_id : String) (now : ℕ) (s : CaseTraceStepInput) (rest : List CaseTraceStepInput)
      (rows : List TraceRow)
      → rows_of date_of_text case_id now (s ∷ rest) ≡ some rows
      → Taken case_id now s rest rows
  unfolding rows_of
  rows_of-Taken case_id now s rest rows p =
      elim (Option-cases (normalize_trace_timestamp date_of_text s.ts)) [
        | inl invalid ↦ absurd (ground arith)
        | inr (t, valid) ↦ elim (Option-cases (rows_of date_of_text case_id now rest)) [
          | inl none_of_them ↦ absurd (ground arith)
          | inr (r, taken) ↦ record {
            ts = t;
            valid = valid;
            others = r;
            rest_taken = taken;
            whole = ground arith;
          }
        ]
      ]

module _ (date_of_text : String → Option ℕ) (case_id : String) (now : ℕ) where
  -- The row of a step, field by field.
  pub record IsRowOf (s : RawStep) (row : TraceRow) : Type 0 where
    pub action : s.agent_action_id ≡ some row.agent_action_id
    pub action_given : is_empty row.agent_action_id ≡ false
    pub kind : s.step_kind ≡ some row.step_kind
    pub kind_given : is_empty row.step_kind ≡ false
    pub raw_time : Timestamp
    pub time_given : s.ts ≡ some raw_time
    pub time : normalize_trace_timestamp date_of_text raw_time ≡ some row.ts
    pub agent : row.agent_id ≡ given "unknown" s.agent_id
    pub path : row.execution_path ≡ given "unknown" s.execution_path
    pub summary : row.summary ≡ given "" s.summary
    pub same_case : row.case_id ≡ case_id
    pub created : row.created_at ≡ now
    pub key :
        row.id
        ≡ text_append case_id (
            text_append ":" (
              text_append row.agent_action_id (
                text_append ":" (text_append row.step_kind (text_append ":" (iso_string row.ts))))))

  -- The rows of a body: one for each step that is usable, in order, and none for another.
  pub data AreRowsOf : List RawStep → List TraceRow → Type 0 where
    no_steps : AreRowsOf [] []
    dropped :
        (s : RawStep) (rest : List RawStep) (rows : List TraceRow)
        → IsUnusable s
        → AreRowsOf rest rows
        → AreRowsOf (s ∷ rest) rows
    kept :
        (s : RawStep) (rest : List RawStep) (row : TraceRow) (rows : List TraceRow)
        → IsRowOf s row
        → AreRowsOf rest rows
        → AreRowsOf (s ∷ rest) (row ∷ rows)

  is_empty-IsMissing : (s : String) → is_empty s ≡ true → IsMissing (some s)
  is_empty-IsMissing String.[] h = empty
  is_empty-IsMissing (String.◌∷◌ c s) h = absurd (ground arith)

  -- What the filter makes of a step.
  data Chosen (s : RawStep) : Option CaseTraceStepInput → Type 0 where
    rejected : IsUnusable s → Chosen s none
    taken :
        (i : CaseTraceStepInput)
        → s.agent_action_id ≡ some i.agent_action_id
        → is_empty i.agent_action_id ≡ false
        → s.step_kind ≡ some i.step_kind
        → is_empty i.step_kind ≡ false
        → s.ts ≡ some i.ts
        → i.agent_id ≡ given "unknown" s.agent_id
        → i.execution_path ≡ given "unknown" s.execution_path
        → i.summary ≡ given "" s.summary
        → Chosen s (some i)

  truthy_time-HasNoTime : (t : Timestamp) → truthy_time t ≡ false → HasNoTime (some t)
  truthy_time-HasNoTime (number zero) h = zero_time
  truthy_time-HasNoTime (number (suc n)) h = absurd (ground arith)
  truthy_time-HasNoTime (text String.[]) h = empty_time
  truthy_time-HasNoTime (text (String.◌∷◌ c s)) h = absurd (ground arith)
  truthy_time-HasNoTime (date t) h = absurd (ground arith)

  full_step-Chosen :
      (s : RawStep) (a k : String) (t : Timestamp)
      → s.agent_action_id ≡ some a
      → s.step_kind ≡ some k
      → s.ts ≡ some t
      → Chosen s (full_step case_id s a k t)
  full_step-Chosen s a k t ea ek et = elim (Bool-cases (is_empty a)) [
    | inl none_a ↦ rw none_a (rejected (no_action (rw ea (is_empty-IsMissing a none_a))))
    | inr full_a ↦ elim (Bool-cases (is_empty k)) [
      | inl none_k ↦ rw (full_a, none_k) (rejected (no_kind (rw ek (is_empty-IsMissing k none_k))))
      | inr full_k ↦ elim (Bool-cases (truthy_time t)) [
        | inl full_t ↦ rw (full_a, full_k, full_t) (taken _ ea full_a ek full_k et refl refl refl)
        | inr none_t ↦
            rw (full_a, full_k, none_t)
              (rejected (no_time (rw et (truthy_time-HasNoTime t none_t))))
      ]
    ]
  ]

  with_fields-Chosen :
      (s : RawStep) (a k : Option String) (t : Option Timestamp)
      → s.agent_action_id ≡ a
      → s.step_kind ≡ k
      → s.ts ≡ t
      → Chosen s (with_fields case_id s a k t)
  with_fields-Chosen s none k t ea ek et = rejected (no_action (rw ea absent))
  with_fields-Chosen s (some a) none t ea ek et = rejected (no_kind (rw ek absent))
  with_fields-Chosen s (some a) (some k) none ea ek et = rejected (no_time (rw et absent_time))
  with_fields-Chosen s (some a) (some k) (some t) ea ek et = full_step-Chosen s a k t ea ek et

  step_input-Chosen : (s : RawStep) → Chosen s (step_input case_id s)
  unfolding step_input
  step_input-Chosen s = with_fields-Chosen s s.agent_action_id s.step_kind s.ts refl refl refl

  cons-AreRowsOf :
      (s : RawStep) (rest : List RawStep) (o : Option CaseTraceStepInput) (rows : List TraceRow)
      → Chosen s o
      → ((others : List TraceRow)
          → rows_of date_of_text case_id now (step_inputs case_id rest) ≡ some others
          → AreRowsOf rest others)
      → rows_of date_of_text case_id now (cons_some o (step_inputs case_id rest)) ≡ some rows
      → AreRowsOf (s ∷ rest) rows
  cons-AreRowsOf s rest none rows (rejected why) ih p = dropped s rest rows why (ih rows p)
  cons-AreRowsOf s rest (some i) rows (taken i' ea fa ek fk et eg ep es) ih p =
      let x = rows_of-Taken date_of_text case_id now i (step_inputs case_id rest) rows p in
      rw (← x.whole) (
        kept s rest _ x.others
          (record {
            action = ea;
            action_given = fa;
            kind = ek;
            kind_given = fk;
            raw_time = i.ts;
            time_given = et;
            time = x.valid;
            agent = eg;
            path = ep;
            summary = es;
            same_case = refl;
            created = refl;
            key = refl;
          })
          (ih x.others x.rest_taken))

  pub rows_of-AreRowsOf :
      (body : List RawStep) (rows : List TraceRow)
      → rows_of date_of_text case_id now (step_inputs case_id body) ≡ some rows
      → AreRowsOf body rows
  unfolding step_inputs rows_of
  rows_of-AreRowsOf [] rows p = let e : [] ≡ rows = ground (arith) in rw (← e) no_steps
  rows_of-AreRowsOf (s ∷ rest) rows p =
      cons-AreRowsOf s rest (step_input case_id s) rows (step_input-Chosen s)
        (λ others q. rows_of-AreRowsOf rest others q) p
