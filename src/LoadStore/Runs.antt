-- ===== src/LoadStore/Runs.antt =====
-- How a load run ends.
use attest.Prelude.{
  ℕ, suc, ◌≡◌, refl, List, [], ◌∷◌, Bool, true, not, any, drop, length, map, inl, inr, ltb, arith,
  if◌then◌else◌, ◌≤◌, ◌<◌, ◌+◌, ap, ◌∙◌, String, length-drop, drop-nil, leb→le, ltb→lt, Bool-cases,
  length-append, Option, leb, take_last, ◌-◌,
}
use attest.LoadStore.{
  MetricsSnapshot, LoadState, LoadStatus, begin_stop, end_stop, stop_begin, stop_end, response,
  ingest, running, completed, step, run, push_history, ingest_snapshot, start_begin, start_end,
  begin_start, end_start,
}

length-push_history :
    (prev : List MetricsSnapshot) (x : MetricsSnapshot)
    → length (push_history prev x) ≡ (if leb 300 (length prev) then 300 else length prev + 1)
unfolding push_history
length-push_history prev x = elim (Bool-cases (leb 300 (length prev))) [
  | inl full ↦ rw full (
      omega (
        arith,
        length-append (take_last 299 prev) (x ∷ []),
        length-drop (length prev - 299) prev,
        leb→le _ _ full,
      ))
  | inr room ↦ rw room (length-append prev (x ∷ []))
]

-- A completed run stays completed under more snapshots.
completed_stays :
    (xs : List MetricsSnapshot) (s : LoadState)
    → s.status ≡ completed
    → (run (map ingest xs) s).status ≡ completed
unfolding run step ingest_snapshot
completed_stays [] s h = h
completed_stays (x ∷ xs) s h = completed_stays xs (ingest_snapshot x s) (ground arith)

abbrev pub any_inactive : List MetricsSnapshot → Bool
any_inactive = any (λ x. not x.active_load_gen)

abbrev after_ticks : ℕ → List MetricsSnapshot → LoadStatus
after_ticks seen xs = if any_inactive (drop (6 - seen) xs) then completed else running

ingest_early :
    (x : MetricsSnapshot) (s : LoadState)
    → s.status ≡ running
    → length s.history < 6
    → ((ingest_snapshot x s).status ≡ running)
      × (length (ingest_snapshot x s).history ≡ length s.history + 1)
unfolding ingest_snapshot
ingest_early x s r few = ground (arith, length-push_history s.history x)

ingest_late :
    (x : MetricsSnapshot) (s : LoadState)
    → s.status ≡ running
    → 6 ≤ length s.history
    → ((ingest_snapshot x s).status ≡ (if x.active_load_gen then running else completed))
      × (6 ≤ length (ingest_snapshot x s).history)
unfolding ingest_snapshot
ingest_late x s r many = ground (arith, length-push_history s.history x)

drop-early :
    (n : ℕ) (x : MetricsSnapshot) (xs : List MetricsSnapshot)
    → n < 6
    → drop (6 - n) (x ∷ xs) ≡ drop (6 - (n + 1)) xs
drop-early n x xs h = ap (λ k. drop k (x ∷ xs)) (step_down n h)
  where
    step_down : (k : ℕ) → k < 6 → 6 - k ≡ suc (6 - (k + 1))
    step_down k p = omega arith

drop-late : (n : ℕ) (xs : List MetricsSnapshot) → 6 ≤ n → drop (6 - n) xs ≡ xs
drop-late n xs h = ap (λ k. drop k xs) (nothing n h)
  where
    nothing : (k : ℕ) → 6 ≤ k → 6 - k ≡ 0
    nothing k p = omega arith

running_run :
    (xs : List MetricsSnapshot) (s : LoadState)
    → s.status ≡ running
    → (run (map ingest xs) s).status ≡ after_ticks (length s.history) xs
unfolding run step
running_run [] s h = elim (Bool-cases (ltb (length s.history) 6)) [
  | inl few ↦ rw (drop-nil (6 - length s.history)) h
  | inr many ↦ rw (drop-nil (6 - length s.history)) h
]
running_run (x ∷ xs) s h = elim (Bool-cases (ltb (length s.history) 6)) [
  | inl few ↦
      let early = ingest_early x s h (ltb→lt _ _ few) in
      running_run xs (ingest_snapshot x s) early.0
      ∙ rw (early.1, drop-early (length s.history) x xs (ltb→lt _ _ few))
  | inr many ↦
      let enough : 6 ≤ length s.history = ground arith in
      let late = ingest_late x s h enough in
      elim (Bool-cases x.active_load_gen) [
        | inl active ↦
            running_run xs (ingest_snapshot x s) (ground arith)
            ∙ rw
                (
                  drop-late (length s.history) (x ∷ xs) enough,
                  drop-late (length (ingest_snapshot x s).history) xs late.1,
                )
                (ground arith)
        | inr stopped ↦
            completed_stays xs (ingest_snapshot x s) (ground arith)
            ∙ rw (drop-late (length s.history) (x ∷ xs) enough) (ground arith)
      ]
]

-- A run that has just started, fed the snapshots `xs`, is completed once one of them but the first
-- six finds the load generator inactive, and is running until then.
pub run-completes :
    (now status : ℕ) (message : Option String) (xs : List MetricsSnapshot) (s : LoadState)
    → (run (begin_start now ∷ end_start (response true status message) ∷ map ingest xs) s).status
      ≡ (if any_inactive (drop 6 xs) then completed else running)
unfolding run step start_begin start_end
run-completes now status message xs s = running_run xs _ refl

-- A stop that succeeds while the start request is pending does not hold: when the start request
-- succeeds the store says that the run goes on.
pub stop_while_starting :
    (now status : ℕ) (message other : Option String) (s : LoadState)
    → (run
        (begin_start now
          ∷ begin_stop
          ∷ end_stop (response true status other)
          ∷ end_start (response true status message)
          ∷ [])
        s).status
      ≡ running
unfolding run step start_begin start_end stop_begin stop_end
stop_while_starting now status message other s = refl
