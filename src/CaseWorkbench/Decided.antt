-- ===== src/CaseWorkbench/Decided.antt =====
-- What the decisions of an analyst leave.
use attest.Prelude.{
  ℕ, String, ◌≡◌, ◌≢◌, refl, ◌∙◌, none, List, [], ◌∷◌, true, false, All, Bool-cases, inl, inr,
  arith,
}
use attest.Prelude.Dict.{lookup}
use attest.Prelude.Text.{is_empty, trim}
use attest.CaseStore.{Write, write}
use attest.CaseStore.Lifecycle.{write_other}
use attest.CaseWorkbench.{
  OverrideLabel, label_text, Workbench, Event, Answer, lost, accepted, rejected, open_override,
  close_override, submit, answer, load_trace, handle_approve, handle_override_submit, handle_submit,
  take_answer, step, run, override_applied, undecided_ui,
}

-- Every override that was posted has a reason.
abbrev pub Reasoned : Workbench → Type 0
Reasoned w = All (λ (p : OverrideLabel × String). is_empty (trim p.1) ≡ false) w.posted

module _ (oid : String) where
  -- Only this case may have changed, only with an id at all, and only with reasons.
  pub record IsDecided (before after : Workbench) : Type 0 where
    pub others : (j : String) → oid ≢ j → lookup j after.cases ≡ lookup j before.cases
    pub nameless : is_empty oid ≡ true → after.cases ≡ before.cases
    pub reasoned : Reasoned before → Reasoned after

  same_cases : (a b : Workbench) → b.cases ≡ a.cases → b.posted ≡ a.posted → IsDecided a b
  same_cases a b c p = record {
    others = λ j n. rw c refl;
    nameless = λ e. c;
    reasoned = λ h. rw p h;
  }

  IsDecided-trans : (a b c : Workbench) → IsDecided a b → IsDecided b c → IsDecided a c
  IsDecided-trans a b c x y = record {
    others = λ j n. y.others j n ∙ x.others j n;
    nameless = λ e. y.nameless e ∙ x.nameless e;
    reasoned = λ h. y.reasoned (x.reasoned h);
  }

  approve-IsDecided : (now : ℕ) (w : Workbench) → IsDecided w (handle_approve oid now w)
  unfolding handle_approve write
  approve-IsDecided now w = elim (Bool-cases (is_empty oid)) [
    | inl blank ↦ rw blank (same_cases w _ refl refl)
    | inr named ↦ rw named (record {
      others = λ j n. write_other (Write.approve oid) now w.cases j refl n;
      nameless = λ e. absurd (ground arith);
      reasoned = λ h. h;
    })
  ]

  submit-IsDecided :
      (label : OverrideLabel) (reason : String) (now : ℕ) (w : Workbench)
      → IsDecided w (handle_submit oid label reason now w)
  unfolding handle_submit handle_override_submit write
  submit-IsDecided label reason now w = elim (Bool-cases (is_empty (trim reason))) [
    | inl blank ↦ rw blank (same_cases w w refl refl)
    | inr given ↦ elim (Bool-cases (is_empty oid)) [
      | inl nameless ↦ rw (given, nameless) (same_cases w w refl refl)
      | inr named ↦
          rw (given, named)
            (record {
              others =
                  λ j n. write_other (Write.overrule oid (label_text label)) now w.cases j refl n;
              nameless = λ e. absurd (ground arith);
              reasoned = λ h. (given, h);
            })
    ]
  ]

  answer-IsDecided : (a : Answer) (w : Workbench) → IsDecided w (take_answer oid a w)
  unfolding take_answer load_trace
  answer-IsDecided lost w = same_cases w _ refl refl
  answer-IsDecided accepted w = same_cases w _ (ground arith) (ground arith)
  answer-IsDecided (rejected error) w = same_cases w _ refl refl

  step-IsDecided : (e : Event) (now : ℕ) (w : Workbench) → IsDecided w (step oid e now w)
  unfolding step
  step-IsDecided Event.approve now w = approve-IsDecided now w
  step-IsDecided open_override now w = same_cases w _ refl refl
  step-IsDecided close_override now w = same_cases w _ refl refl
  step-IsDecided (submit label reason) now w = submit-IsDecided label reason now w
  step-IsDecided (answer a) now w = answer-IsDecided a w

  -- Whatever an analyst does and the endpoint answers: no other case of the store changes, none at all
  -- where the case has no id, and no override is posted without a reason.
  pub run-IsDecided : (events : List (Event × ℕ)) (w : Workbench) → IsDecided w (run oid events w)
  unfolding run
  run-IsDecided [] w = same_cases w w refl refl
  run-IsDecided ((e, now) ∷ rest) w =
      IsDecided-trans w (step oid e now w) (run oid ((e, now) ∷ rest) w) (step-IsDecided e now w)
        (run-IsDecided rest (step oid e now w))

  -- A label that was set here.
  abbrev Labelled : Workbench → Type 0
  Labelled w = w.local_label ≢ none

  step-Labelled : (e : Event) (now : ℕ) (w : Workbench) → Labelled w → Labelled (step oid e now w)
  unfolding step handle_approve handle_submit handle_override_submit take_answer load_trace
  step-Labelled Event.approve now w h = h
  step-Labelled open_override now w h = h
  step-Labelled close_override now w h = h
  step-Labelled (submit label reason) now w h = elim (Bool-cases (is_empty (trim reason))) [
    | inl blank ↦ rw blank h
    | inr given ↦ elim (Bool-cases (is_empty oid)) [
      | inl nameless ↦ rw (given, nameless) h
      | inr named ↦ rw (given, named) (λ e. ground arith)
    ]
  ]
  step-Labelled (answer lost) now w h = h
  step-Labelled (answer accepted) now w h = elim (Bool-cases (is_empty oid)) [
    | inl blank ↦ rw blank h
    | inr named ↦ rw named h
  ]
  step-Labelled (answer (rejected error)) now w h = h

  run-Labelled :
      (events : List (Event × ℕ)) (w : Workbench) → Labelled w → Labelled (run oid events w)
  unfolding run
  run-Labelled [] w h = h
  run-Labelled ((e, now) ∷ rest) w h =
      run-Labelled rest (step oid e now w) (step-Labelled e now w h)

  Labelled-shown :
      (w : Workbench) → Labelled w → (override_applied oid w ≡ true) × (undecided_ui oid w ≡ false)
  unfolding override_applied undecided_ui
  Labelled-shown w h = (ground (arith, h), ground (arith, h))

  -- Once an override with a reason was submitted, the workbench shows it as recorded, and takes the
  -- buttons away, after whatever follows: also where the endpoint refuses it or never answers.
  pub override_stays :
      (label : OverrideLabel) (reason : String) (now : ℕ) (events : List (Event × ℕ))
      (w : Workbench)
      → is_empty oid ≡ false
      → is_empty (trim reason) ≡ false
      → (override_applied oid (run oid ((submit label reason, now) ∷ events) w) ≡ true)
        × (undecided_ui oid (run oid ((submit label reason, now) ∷ events) w) ≡ false)
  unfolding run step handle_submit handle_override_submit
  override_stays label reason now events w named given =
      let first : Labelled (step oid (submit label reason) now w) =
        rw (given, named) (λ e. ground arith) in
      Labelled-shown (run oid ((submit label reason, now) ∷ events) w)
        (run-Labelled events (step oid (submit label reason) now w) first)
