-- ===== src/LoadStore/Tests.antt =====
-- Runs of the load store, and its theorems at concrete inputs.
use attest.Prelude.{
  ℕ, zero, suc, ◌≡◌, refl, none, some, List, [], ◌∷◌, Bool, true, false, map, take_last,
}
use attest.Prelude.Text.{decimal}
use attest.Prelude.Number.{thousandths}
use attest.LoadStore.{
  MetricsSnapshot, begin_start, end_start, ingest, response, running, completed, initial,
  history_max, run, step, start_begin, start_end, response_error,
}
use attest.LoadStore.History.{ingested, history-eq-take_last}
use attest.LoadStore.Runs.{run-completes}

abbrev snapshot : Bool → MetricsSnapshot
snapshot active = record {
  ts = "t";
  events_per_sec = thousandths 0;
  consumer_lag = thousandths 0;
  detections_per_sec = thousandths 0;
  clickhouse_rows_per_sec = thousandths 0;
  triage_p95_ms = thousandths 0;
  total_events = thousandths 0;
  total_detections = thousandths 0;
  active_load_gen = active;
  current_load_gen_rate = thousandths 0;
}

abbrev ticks : ℕ → List MetricsSnapshot
ticks zero = []
ticks (suc n) = snapshot false ∷ ticks n

failed_start :
    (run (begin_start 1 ∷ end_start (response false 503 none) ∷ []) initial).error_msg
    ≡ some "HTTP 503"
unfolding run step start_begin start_end response_error decimal
failed_start = refl

history-eq-take_last_example :
    (run (begin_start 1 ∷ ingest (snapshot true) ∷ []) initial).history
    ≡ take_last history_max (ingested (begin_start 1 ∷ ingest (snapshot true) ∷ []) [])
history-eq-take_last_example = history-eq-take_last (begin_start 1 ∷ ingest (snapshot true) ∷ [])

run-completes_example :
    (run (begin_start 1 ∷ end_start (response true 200 none) ∷ map ingest (ticks 7)) initial).status
    ≡ completed
run-completes_example = run-completes 1 200 none (ticks 7) initial

still_running :
    (run (begin_start 1 ∷ end_start (response true 200 none) ∷ map ingest (ticks 6)) initial).status
    ≡ running
still_running = run-completes 1 200 none (ticks 6) initial
