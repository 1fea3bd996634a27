-- ===== src/SimulateStore/Recent.antt =====
-- The bounded history against one that forgets nothing.
use attest.Prelude.{ℕ, zero, suc, ◌≡◌, refl, ap, List, [], ◌∷◌, take, ◌∙◌}
use attest.SimulateStore.{SimRun, Call, push, clear, call, run, push_run, clear_history}

-- Every run that was pushed since the last `clearHistory`, the latest first.
unfoldable pub pushed : List Call → List SimRun → List SimRun
pushed [] log = log
pushed (push entry ∷ rest) log = pushed rest (entry ∷ log)
pushed (clear ∷ rest) log = pushed rest []

take-take {ℓ} : {A : Type ℓ} (n : ℕ) (xs : List A) → take n (take (suc n) xs) ≡ take n xs
take-take zero xs = refl
take-take (suc n) [] = refl
take-take (suc n) (x ∷ xs) = ap (◌∷◌ x) (take-take n xs)

-- After any calls the history holds the ten latest of the runs that were pushed since it was last
-- cleared, the latest first.
pub run-eq-take :
    (calls : List Call) (log : List SimRun) → run calls (take 10 log) ≡ take 10 (pushed calls log)
unfolding run call push_run clear_history pushed
run-eq-take [] log = refl
run-eq-take (push entry ∷ rest) log =
    ap (run rest) (ap (◌∷◌ entry) (take_nine log)) ∙ run-eq-take rest (entry ∷ log)
  where
    take_nine : (xs : List SimRun) → take 9 (take 10 xs) ≡ take 9 xs
    take_nine xs = take-take 9 xs
run-eq-take (clear ∷ rest) log = run-eq-take rest []
