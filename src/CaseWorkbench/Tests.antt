-- ===== src/CaseWorkbench/Tests.antt =====
-- An override that the endpoint refuses.
use attest.Prelude.{ℕ, ◌≡◌, refl, some, List, [], ◌∷◌, true, false}
use attest.Prelude.Text.{trim}
use attest.Alerts.{spaced}
use attest.CaseWorkbench.{
  benign, Event, submit, answer, rejected, opened, run, step, handle_override_submit, handle_submit,
  take_answer, override_applied, undecided_ui, status_label,
}
use attest.CaseWorkbench.Decided.{IsDecided, run-IsDecided, override_stays}

abbrev refused : List (Event × ℕ)
refused = (answer (rejected (some "orchestrator unreachable")), 9) ∷ []

override_stays_example :
    (override_applied "c" (run "c" ((submit benign "travel", 5) ∷ refused) (opened [])) ≡ true)
    × (undecided_ui "c" (run "c" ((submit benign "travel", 5) ∷ refused) (opened [])) ≡ false)
unfolding trim
override_stays_example = override_stays "c" benign "travel" 5 refused (opened []) refl refl

refused_label :
    status_label "c" "awaiting review" (run "c" ((submit benign "travel", 5) ∷ refused) (opened []))
    ≡ "Override: benign"
unfolding status_label run step handle_submit handle_override_submit take_answer trim spaced
refused_label = refl

run-IsDecided_example :
    IsDecided "c" (opened []) (run "c" ((submit benign "travel", 5) ∷ refused) (opened []))
run-IsDecided_example = run-IsDecided "c" ((submit benign "travel", 5) ∷ refused) (opened [])
