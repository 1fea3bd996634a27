-- ===== src/CaseWorkbench.antt =====
-- The decisions of an analyst on a case (apps/workbench/src/components/workbench/case-workbench.tsx):
-- approving a verdict and overriding it. The answer of the override endpoint is an event; the reading of
-- the trace is a count of its requests.
pub mod Decided
mod Tests
use Prim.Native.Char.{code}
use Prim.Native.String.{◌++◌ as text_append}
use attest.Prelude.{
  ℕ, ◌+◌, String, Option, none, some, List, [], ◌∷◌, Bool, true, false, not, ◌&&◌, ◌||◌,
  if◌then◌else◌,
}
use attest.Prelude.Dict.{lookup}
use attest.Prelude.Text.{is_empty, trim}
use attest.CaseStore.{
  CaseEntry, Cases, Disposition, undecided, approved, override, set_approved, set_override,
}
use attest.Alerts.{spaced}

pub data OverrideLabel : Type 0 where
  true_positive false_positive benign needs_investigation : OverrideLabel

abbrev pub label_text : OverrideLabel → String
label_text true_positive = "true_positive"
label_text false_positive = "false_positive"
label_text benign = "benign"
label_text needs_investigation = "needs_investigation"

pub data Toast : Type 0 where
  verdict_approved : Toast
  override_submitted : Toast
  failure : String → Toast

pub record Workbench : Type 0 where
  pub cases : Cases
  pub override_open : Bool
  pub approved_here : Bool
  pub local_label : Option String
  pub posted : List (OverrideLabel × String)
  pub toasts : List Toast
  pub trace_loads : ℕ

abbrev pub opened : Cases → Workbench
opened cases = record {
  cases = cases;
  override_open = false;
  approved_here = false;
  local_label = none;
  posted = [];
  toasts = [];
  trace_loads = 0;
}

-- The answer to the override: none at all, a status that is `ok`, or one that is not, with the `error`
-- text of its body where it has one.
pub data Answer : Type 0 where
  lost : Answer
  accepted : Answer
  rejected : Option String → Answer

pub data Event : Type 0 where
  approve : Event
  open_override : Event
  close_override : Event
  submit : OverrideLabel → String → Event
  answer : Answer → Event

abbrev pub or_failed : Option String → String
or_failed none = "Override failed"
or_failed (some message) = message

module _ (oid : String) where
  unfoldable pub load_trace : Workbench → Workbench
  load_trace w = if is_empty oid then w else record w { trace_loads = w.trace_loads + 1 }

  unfoldable pub handle_approve : ℕ → Workbench → Workbench
  handle_approve now w = record w {
    approved_here = true;
    cases = if is_empty oid then w.cases else set_approved oid now w.cases;
    toasts = verdict_approved ∷ w.toasts;
  }

  abbrev overridden : OverrideLabel → String → ℕ → Workbench → Workbench
  overridden label reason now w = record w {
    override_open = false;
    local_label = some (label_text label);
    cases = set_override oid (label_text label) now w.cases;
    toasts = override_submitted ∷ w.toasts;
    posted = (label, reason) ∷ w.posted;
  }

  unfoldable pub handle_override_submit : OverrideLabel → String → ℕ → Workbench → Workbench
  handle_override_submit label reason now w =
      if is_empty oid then w else overridden label reason now w

  -- The button of the dialog.
  unfoldable pub handle_submit : OverrideLabel → String → ℕ → Workbench → Workbench
  unfolding handle_override_submit
  handle_submit label reason now w =
      if is_empty (trim reason) then w else handle_override_submit label reason now w

  unfoldable pub take_answer : Answer → Workbench → Workbench
  unfolding load_trace
  take_answer lost w = record w { toasts = failure "Override failed" ∷ w.toasts }
  take_answer accepted w = load_trace w
  take_answer (rejected error) w = record w { toasts = failure (or_failed error) ∷ w.toasts }

  unfoldable pub step : Event → ℕ → Workbench → Workbench
  unfolding handle_approve handle_submit take_answer
  step approve now w = handle_approve now w
  step open_override now w = record w { override_open = true }
  step close_override now w = record w { override_open = false }
  step (submit label reason) now w = handle_submit label reason now w
  step (answer a) now w = take_answer a w

  -- The workbench after the events, each with its time, the earliest first.
  unfoldable pub run : List (Event × ℕ) → Workbench → Workbench
  run [] w = w
  run ((event, now) ∷ rest) w = run rest (step event now w)

  abbrev disposition_of : Option CaseEntry → Disposition
  disposition_of none = undecided
  disposition_of (some e) = e.disposition

  abbrev is_override : Disposition → Bool
  is_override override = true
  is_override _ = false

  abbrev is_approved : Disposition → Bool
  is_approved approved = true
  is_approved _ = false

  abbrev is_some : Option String → Bool
  is_some none = false
  is_some (some s) = true

  unfoldable pub override_applied : Workbench → Bool
  override_applied w = is_some w.local_label || is_override (disposition_of (lookup oid w.cases))

  unfoldable pub approved_ui : Workbench → Bool
  approved_ui w = w.approved_here || is_approved (disposition_of (lookup oid w.cases))

  abbrev stored_label : Option CaseEntry → String
  stored_label none = ""
  stored_label (some e) = or_blank e.override_label
    where
      or_blank : Option String → String
      or_blank none = ""
      or_blank (some s) = s

  abbrev label_of : Option String → Option CaseEntry → String
  label_of none e = stored_label e
  label_of (some label) e = label

  -- What stands on the badge; `state` is `caseRecord.state.replace("-", " ")`.
  unfoldable pub status_label : String → Workbench → String
  unfolding override_applied approved_ui
  status_label state w =
      if override_applied w
      then text_append "Override: " (spaced (label_of w.local_label (lookup oid w.cases)))
      else (if approved_ui w then "Approved" else state)

  -- Whether the two buttons are there.
  unfoldable pub undecided_ui : Workbench → Bool
  unfolding override_applied approved_ui
  undecided_ui w = not (is_empty oid) && not (override_applied w) && not (approved_ui w)
