-- ===== src/LoadStore/History.antt =====
-- The ring buffer of snapshots against an unbounded log.
use attest.Prelude.{
  ℕ, ◌+◌, ◌-◌, ◌≤◌, ◌<◌, ◌≡◌, refl, ap, ◌∙◌, sym, inl, inr, List, [], ◌∷◌, ◌++◌, length, drop, leb,
  take_last, length-append, length-drop, drop-append, drop-drop, Bool-cases, le→leb, leb→le, arith,
}
use attest.LoadStore.{
  MetricsSnapshot, LoadState, Step, configure, begin_start, end_start, begin_stop, end_stop, ingest,
  clear, response, threw, history_max, initial, push_history, step, run, set_config, start_begin,
  start_end, stop_begin, stop_end, ingest_snapshot, reset,
}

-- What the steps have ingested since the last start or reset, on top of `log`.
unfoldable pub ingested : List Step → List MetricsSnapshot → List MetricsSnapshot
ingested [] log = log
ingested (begin_start now ∷ rest) log = ingested rest []
ingested (clear ∷ rest) log = ingested rest []
ingested (ingest snapshot ∷ rest) log = ingested rest (log ++ snapshot ∷ [])
ingested (_ ∷ rest) log = ingested rest log

push_history_full :
    (prev : List MetricsSnapshot) (x : MetricsSnapshot)
    → history_max ≤ length prev
    → push_history prev x ≡ drop (length prev - 299) prev ++ x ∷ []
unfolding push_history
push_history_full prev x h = rw (le→leb _ _ h)

push_history_room :
    (prev : List MetricsSnapshot) (x : MetricsSnapshot)
    → length prev < history_max
    → push_history prev x ≡ prev ++ x ∷ []
unfolding push_history
push_history_room prev x h = ground arith

length-take_last :
    (log : List MetricsSnapshot)
    → length (take_last history_max log) ≡ length log - (length log - history_max)
length-take_last log = length-drop (length log - history_max) log

-- The window of a longer log, where the log already fills it.
take_last-append_full :
    (log : List MetricsSnapshot) (x : MetricsSnapshot)
    → history_max ≤ length log
    → take_last history_max (log ++ x ∷ []) ≡ drop (length log - history_max + 1) log ++ x ∷ []
take_last-append_full log x h =
    ap (λ k. drop (k - history_max) (log ++ x ∷ [])) (length-append log (x ∷ []))
    ∙ ap (λ k. drop k (log ++ x ∷ [])) (shift (length log) h)
    ∙ drop-append (length log - history_max + 1) log (x ∷ []) (omega arith)
  where
    shift : (n : ℕ) → history_max ≤ n → n + 1 - history_max ≡ n - history_max + 1
    shift n k = omega arith

take_last_room :
    (log : List MetricsSnapshot) → length log ≤ history_max → take_last history_max log ≡ log
take_last_room log h = ap (λ k. drop k log) (none_over (length log) h)
  where
    none_over : (n : ℕ) → n ≤ history_max → n - history_max ≡ 0
    none_over n k = omega arith

push_history-take_last :
    (log : List MetricsSnapshot) (x : MetricsSnapshot)
    → push_history (take_last history_max log) x ≡ take_last history_max (log ++ x ∷ [])
push_history-take_last log x = elim (Bool-cases (leb history_max (length log))) [
  | inl full ↦
      let fits = leb→le _ _ full in
      let l = length-take_last log in
      push_history_full (take_last history_max log) x (omega arith)
      ∙ ap (λ k. drop k (take_last history_max log) ++ x ∷ []) (one_more fits l)
      ∙ ap (λ (t : List MetricsSnapshot). t ++ x ∷ []) (drop-drop 1 (length log - history_max) log)
      ∙ sym (take_last-append_full log x fits)
  | inr room ↦
      let few : length log < history_max = ground arith in
      ap (λ t. push_history t x) (take_last_room log (omega arith))
      ∙ push_history_room log x few
      ∙ sym (take_last_room (log ++ x ∷ []) (omega (arith, length-append log (x ∷ []))))
]
  where
    one_more :
        history_max ≤ length log
        → length (take_last history_max log) ≡ length log - (length log - history_max)
        → length (take_last history_max log) - 299 ≡ 1
    one_more f l = omega arith

history-step :
    (e : Step) (s : LoadState) (log : List MetricsSnapshot)
    → s.history ≡ take_last history_max log
    → (step e s).history ≡ take_last history_max (ingested (e ∷ []) log)
unfolding step ingested set_config start_begin start_end stop_begin stop_end ingest_snapshot reset
history-step (configure c) s log h = h
history-step (begin_start now) s log h = refl
history-step (end_start (response ok status m)) s log h = ground arith
history-step (end_start (threw m)) s log h = h
history-step begin_stop s log h = h
history-step (end_stop (response ok status m)) s log h = ground arith
history-step (end_stop (threw m)) s log h = h
history-step (ingest x) s log h = rw h (push_history-take_last log x)
history-step clear s log h = refl

ingested-cons :
    (e : Step) (rest : List Step) (log : List MetricsSnapshot)
    → ingested (e ∷ rest) log ≡ ingested rest (ingested (e ∷ []) log)
unfolding ingested
ingested-cons (begin_start now) rest log = refl
ingested-cons (configure c) rest log = refl
ingested-cons (end_start x) rest log = refl
ingested-cons begin_stop rest log = refl
ingested-cons (end_stop x) rest log = refl
ingested-cons (ingest x) rest log = refl
ingested-cons clear rest log = refl

run-history :
    (steps : List Step) (s : LoadState) (log : List MetricsSnapshot)
    → s.history ≡ take_last history_max log
    → (run steps s).history ≡ take_last history_max (ingested steps log)
unfolding run
run-history [] s log h = unfold ingested in h
run-history (e ∷ rest) s log h =
    rw (ingested-cons e rest log)
      (run-history rest (step e s) (ingested (e ∷ []) log) (history-step e s log h))

-- After any steps the history is the last 300 of the snapshots that came since the last start or
-- reset, in the order in which they came.
pub history-eq-take_last :
    (steps : List Step) → (run steps initial).history ≡ take_last history_max (ingested steps [])
history-eq-take_last steps = run-history steps initial [] refl
