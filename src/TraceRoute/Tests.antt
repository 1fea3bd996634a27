-- ===== src/TraceRoute/Tests.antt =====
-- The trace of one case, posted and read in memory.
use attest.Prelude.{ℕ, String, ◌≡◌, refl, Option, none, some, List, [], ◌∷◌, length}
use attest.Prelude.Dedup.{find_key}
use attest.Prelude.Time.{iso_string, civil_date}
use attest.Prelude.Text.{decimal}
use attest.CaseRepository.Traces.{
  TraceRow, number, row_id, normalize_trace_timestamp, rows_of, append_trace_steps,
}
use attest.CaseRepository.TraceMemory.{trace_memory}
use attest.TraceRoute.{RawStep, inserted, step_input, step_inputs, trace_post}
use attest.TraceRoute.Persisted.{IsListed, trace_post_again, trace_post-IsListed}

abbrev no_dates : String → Option ℕ
no_dates s = none

abbrev verdict_step : RawStep
verdict_step = record {
  agent_action_id = some "a1";
  agent_id = none;
  execution_path = some "llm";
  step_kind = some "final_verdict";
  summary = some "benign";
  ts = some (number 1767225601);
}

-- The first is dropped, since it has no kind.
abbrev body : List RawStep
body = record verdict_step { step_kind = none } ∷ verdict_step ∷ []

abbrev stored : ℕ → TraceRow
stored now = record {
  id = "c1:a1:final_verdict:2026-01-01T00:00:01.000Z";
  case_id = "c1";
  agent_action_id = "a1";
  agent_id = "unknown";
  execution_path = "llm";
  step_kind = "final_verdict";
  summary = "benign";
  ts = 1767225601000;
  created_at = now;
}

posted : trace_post trace_memory no_dates "c1" (some body) 5 [] ≡ (inserted 1, stored 5 ∷ [])
unfolding trace_post step_input step_inputs append_trace_steps rows_of normalize_trace_timestamp
    iso_string civil_date decimal
posted = refl

posted_again :
    trace_post trace_memory no_dates "c1" (some body) 9 (stored 5 ∷ [])
    ≡ (inserted 1, stored 5 ∷ stored 9 ∷ [])
unfolding trace_post step_input step_inputs append_trace_steps rows_of normalize_trace_timestamp
    iso_string civil_date decimal
posted_again = refl

trace_post_again_example :
    (length (verdict_step ∷ []) ≡ 1)
    × ((id : String)
        → find_key row_id id (stored 5 ∷ stored 9 ∷ []) ≡ find_key row_id id (stored 5 ∷ []))
trace_post_again_example =
    trace_post_again trace_memory no_dates "c1" (some body) 5 9 1 1 [] (stored 5 ∷ [])
      (stored 5 ∷ stored 9 ∷ []) posted posted_again

there :
    find_key row_id "c1:a1:final_verdict:2026-01-01T00:00:01.000Z" (stored 5 ∷ []) ≡ some (stored 5)
there = refl

trace_post-IsListed_example : IsListed trace_memory no_dates "c1" (some body) 5 1 [] (stored 5 ∷ [])
trace_post-IsListed_example =
    trace_post-IsListed trace_memory no_dates "c1" (some body) 5 1 [] (stored 5 ∷ []) posted
