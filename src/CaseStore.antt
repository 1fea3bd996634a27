-- ===== src/CaseStore.antt =====
-- The unified case store of the workbench (apps/workbench/src/lib/stores/case-store.ts): its entries,
-- its writes, its selectors and the eviction of the oldest entry. A write is a function from the
-- state to the state that `set` installs; `now` is what `Date.now()` returns in it.
pub mod Entries
pub mod Evict
pub mod Capacity
pub mod Lifecycle
pub mod Trace
mod Tests
use Prim.Native.String.{◌++◌ as text_append}
use attest.Prelude.{
  ℕ, String, Option, none, some, List, [], ◌∷◌, Bool, true, false, ◌||◌, ltb, leb, length, any,
  filter, not, str_eq, if◌then◌else◌,
}
use attest.Prelude.Dict.{Dict, lookup, insert, remove, has}
use attest.Prelude.Text.{decimal}
use attest.Prelude.Number.{Number}

-- An optional field is `none` where it is `undefined`.
pub record OcsfEvent : Type 0 where
  pub event_id : String
  pub class_uid : Option String
  pub time : Option String
  pub tenant_id : Option String
  pub actor_user_name : Option String
  pub actor_user_uid : Option String
  pub cloud_region : Option String
  pub cloud_account_uid : Option String
  pub severity : Option String
  pub auth_status : Option String
  pub api_operation : Option String
  pub api_service : Option String

-- `ts` is a whole number of milliseconds.
pub record KafkaTraceStep : Type 0 where
  pub case_id : String
  pub tenant_id : String
  pub agent_action_id : String
  pub agent_id : String
  pub execution_path : String
  pub step_kind : String
  pub summary : String
  pub ts : ℕ

pub data Disposition : Type 0 where
  undecided approved override : Disposition

pub data TriageStatus : Type 0 where
  idle running complete failed : TriageStatus

pub record ClassifierEvidence : Type 0 where
  pub input_features : Dict Number
  pub shap_values : Dict Number
  pub raw_prediction : Number
  pub calibrated_confidence : Number
  pub novelty_score : Number

pub record TriageVerdict : Type 0 where
  pub action_id : String
  pub case_id : String
  pub verdict : String
  pub execution_path : String
  pub calibrated_confidence : Number
  pub novelty_score : Number
  pub escalated : Bool
  pub escalation_reason : Option String
  pub latency_ms : Number
  pub classifier_evidence : Option ClassifierEvidence

pub record Baseline : Type 0 where
  pub regions_seen_30d : Option (List String)

pub record CaseEntry : Type 0 where
  pub event : OcsfEvent
  pub baseline : Option Baseline
  pub verdict : Option TriageVerdict
  pub triage_status : TriageStatus
  pub triage_started_at : Option ℕ
  pub triage_error : Option String
  pub trace_steps : List KafkaTraceStep
  pub disposition : Disposition
  pub override_label : Option String
  pub updated_at : ℕ

-- `s.cases`.
abbrev pub Cases : Type 0
Cases = Dict CaseEntry

abbrev pub max_cases : ℕ
max_cases = 50

-- `.sort(([, a], [, b]) => a.updatedAt - b.updatedAt)`. The language's sort is stable, so an entry
-- goes behind those that were written no later.
insert_sorted : String × CaseEntry → Cases → Cases
insert_sorted (j, e) [] = (j, e) ∷ []
insert_sorted (j, e) ((k, f) ∷ rest) =
    let later = insert_sorted (j, e) rest in
    if leb e.updated_at f.updated_at then (j, e) ∷ (k, f) ∷ rest else (k, f) ∷ later

unfoldable pub sort_by_updated_at : Cases → Cases
unfolding insert_sorted
sort_by_updated_at [] = []
sort_by_updated_at (entry ∷ rest) = insert_sorted entry (sort_by_updated_at rest)

-- `sorted[0]` decides: with no entry the cases are returned.
evict_first : Cases → Cases → Cases
evict_first cases [] = cases
evict_first cases ((oldest, _) ∷ _) = remove oldest cases

unfoldable pub evict_if_needed : Cases → String → Cases
unfolding evict_first sort_by_updated_at
evict_if_needed cases incoming_id =
    if has incoming_id cases || ltb (length cases) max_cases
    then cases
    else evict_first cases
        (sort_by_updated_at (filter (λ entry. not (str_eq entry.0 incoming_id)) cases))

-- What `existing?.field ?? default` keeps of an old entry.
unfoldable pub refreshed : Option CaseEntry → OcsfEvent → Option Baseline → ℕ → CaseEntry
refreshed none event baseline now = record {
  event = event;
  baseline = baseline;
  verdict = none;
  triage_status = idle;
  triage_started_at = none;
  triage_error = none;
  trace_steps = [];
  disposition = undecided;
  override_label = none;
  updated_at = now;
}
refreshed (some existing) event baseline now = record existing {
  event = event;
  baseline = baseline;
  updated_at = now;
}

unfoldable pub init_case : String → OcsfEvent → Option Baseline → ℕ → Cases → Cases
unfolding refreshed
init_case case_id event baseline now cases =
    insert case_id (refreshed (lookup case_id cases) event baseline now)
      (evict_if_needed cases case_id)

-- The shape of the other writes: nothing happens to a case that is not in the store.
write_entry : String → (CaseEntry → CaseEntry) → Option CaseEntry → Cases → Cases
write_entry case_id change none cases = cases
write_entry case_id change (some entry) cases = insert case_id (change entry) cases

unfoldable pub update_case : String → (CaseEntry → CaseEntry) → Cases → Cases
unfolding write_entry
update_case case_id change cases = write_entry case_id change (lookup case_id cases) cases

unfoldable pub start_triage : String → ℕ → Cases → Cases
unfolding update_case
start_triage case_id now = update_case case_id λ entry. record entry {
  triage_status = running;
  triage_started_at = some now;
  triage_error = none;
  updated_at = now;
}

unfoldable pub set_verdict : String → TriageVerdict → ℕ → Cases → Cases
unfolding update_case
set_verdict case_id verdict now = update_case case_id λ entry. record entry {
  verdict = some verdict;
  triage_status = complete;
  triage_error = none;
  updated_at = now;
}

unfoldable pub fail_triage : String → String → ℕ → Cases → Cases
unfolding update_case
fail_triage case_id error now =
    update_case case_id
      λ entry. record entry { triage_status = failed; triage_error = some error; updated_at = now }

-- `${step.agent_action_id}:${step.step_kind}:${step.ts}`
unfoldable pub step_key : KafkaTraceStep → String
step_key step =
    text_append step.agent_action_id
      (text_append ":" (text_append step.step_kind (text_append ":" (decimal step.ts))))

append_step : String → KafkaTraceStep → ℕ → Option CaseEntry → Cases → Cases
append_step case_id step now none cases = cases
append_step case_id step now (some entry) cases =
    if any (λ t. str_eq (step_key t) (step_key step)) entry.trace_steps
    then cases
    else insert case_id (record entry { trace_steps = step ∷ entry.trace_steps; updated_at = now })
        cases

unfoldable pub append_trace_step : String → KafkaTraceStep → ℕ → Cases → Cases
unfolding append_step
append_trace_step case_id step now cases = append_step case_id step now (lookup case_id cases) cases

unfoldable pub clear_trace_steps : String → ℕ → Cases → Cases
unfolding update_case
clear_trace_steps case_id now =
    update_case case_id λ entry. record entry { trace_steps = []; updated_at = now }

unfoldable pub set_approved : String → ℕ → Cases → Cases
unfolding update_case
set_approved case_id now =
    update_case case_id λ entry. record entry { disposition = approved; updated_at = now }

unfoldable pub set_override : String → String → ℕ → Cases → Cases
unfolding update_case
set_override case_id label now =
    update_case case_id λ entry. record entry {
      disposition = override;
      override_label = some label;
      updated_at = now;
    }

unfoldable pub evict : String → Cases → Cases
evict case_id cases = remove case_id cases

-- The selectors; `null` is `none`.
abbrev pub select_case : String → Cases → Option CaseEntry
select_case = lookup

unfoldable pub select_verdict : String → Cases → Option TriageVerdict
select_verdict case_id cases = elim (lookup case_id cases) [ none ↦ none | some e ↦ e.verdict ]

unfoldable pub select_trace_steps : String → Cases → List KafkaTraceStep
select_trace_steps case_id cases = elim (lookup case_id cases) [
  | none ↦ []
  | some e ↦ e.trace_steps
]

unfoldable pub select_disposition : String → Cases → Disposition
select_disposition case_id cases = elim (lookup case_id cases) [
  | none ↦ undecided
  | some e ↦ e.disposition
]

-- One call of a write, with the time at which it is made.
pub data Write : Type 0 where
  init : String → OcsfEvent → Option Baseline → Write
  start : String → Write
  verdict : String → TriageVerdict → Write
  fail : String → String → Write
  append : String → KafkaTraceStep → Write
  clear : String → Write
  approve : String → Write
  overrule : String → String → Write
  drop : String → Write

unfoldable pub write : Write → ℕ → Cases → Cases
write (init c event baseline) now s = init_case c event baseline now s
write (start c) now s = start_triage c now s
write (verdict c v) now s = set_verdict c v now s
write (fail c error) now s = fail_triage c error now s
write (append c step) now s = append_trace_step c step now s
write (clear c) now s = clear_trace_steps c now s
write (approve c) now s = set_approved c now s
write (overrule c label) now s = set_override c label now s
write (drop c) now s = evict c s

-- The state after a session's writes, the earliest first.
unfoldable pub run : List (Write × ℕ) → Cases → Cases
unfolding write
run [] s = s
run ((w, now) ∷ rest) s = run rest (write w now s)
