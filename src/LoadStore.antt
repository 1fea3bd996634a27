-- ===== src/LoadStore.antt =====
-- The store of the load page (apps/workbench/src/lib/stores/load-store.ts). `startRun` and `stopRun`
-- wait for a request, so each is two steps, `begin` up to the `fetch` and `end` when it settles; other
-- steps may come between the two.
pub mod History
pub mod Runs
mod Tests
use Prim.Native.String.{◌++◌ as text_append}
use attest.Prelude.{
  ℕ, ◌-◌, String, Option, none, some, List, [], ◌∷◌, ◌++◌, Bool, true, false, not, ◌&&◌, ◌||◌, ltb,
  leb, ◌==◌, length, take_last, if◌then◌else◌,
}
use attest.Prelude.Text.{decimal}
use attest.Prelude.Number.{Number}

pub record MetricsSnapshot : Type 0 where
  pub ts : String
  pub events_per_sec : Number
  pub consumer_lag : Number
  pub detections_per_sec : Number
  pub clickhouse_rows_per_sec : Number
  pub triage_p95_ms : Number
  pub total_events : Number
  pub total_detections : Number
  pub active_load_gen : Bool
  pub current_load_gen_rate : Number

pub data Scenario : Type 0 where
  mixed attack benign : Scenario

pub record LoadConfig : Type 0 where
  pub rate : ℕ
  pub duration_secs : ℕ
  pub scenario : Scenario
  pub tenants : ℕ
  pub seed_baselines : Bool
  pub sampled_triage_pct : ℕ

-- `Partial<LoadConfig>`: a field that is not given is `none`.
pub record ConfigPatch : Type 0 where
  pub rate : Option ℕ
  pub duration_secs : Option ℕ
  pub scenario : Option Scenario
  pub tenants : Option ℕ
  pub seed_baselines : Option Bool
  pub sampled_triage_pct : Option ℕ

pub data LoadStatus : Type 0 where
  idle starting running stopping completed error : LoadStatus

pub record LoadState : Type 0 where
  pub status : LoadStatus
  pub config : LoadConfig
  pub started_at : Option ℕ
  pub history : List MetricsSnapshot
  pub current : Option MetricsSnapshot
  pub error_msg : Option String

abbrev pub default_config : LoadConfig
default_config = record {
  rate = 10000;
  duration_secs = 30;
  scenario = mixed;
  tenants = 3;
  seed_baselines = true;
  sampled_triage_pct = 0;
}

abbrev pub history_max : ℕ
history_max = 300

-- The state that the store is created with; `reset` sets the same fields.
abbrev pub initial : LoadState
initial = record {
  status = idle;
  config = default_config;
  started_at = none;
  history = [];
  current = none;
  error_msg = none;
}

abbrev given {ℓ} : {A : Type ℓ} → Option A → A → A
given none old = old
given (some new) old = new

unfoldable pub set_config : ConfigPatch → LoadState → LoadState
set_config c s = record s {
  config = record {
    rate = given c.rate s.config.rate;
    duration_secs = given c.duration_secs s.config.duration_secs;
    scenario = given c.scenario s.config.scenario;
    tenants = given c.tenants s.config.tenants;
    seed_baselines = given c.seed_baselines s.config.seed_baselines;
    sampled_triage_pct = given c.sampled_triage_pct s.config.sampled_triage_pct;
  };
}

-- How a request settles: with a response, whose body may hold an `error`, or by throwing.
pub data Settled : Type 0 where
  response : Bool → ℕ → Option String → Settled
  threw : String → Settled

-- `body.error ?? `HTTP ${res.status}``
unfoldable pub response_error : Option String → ℕ → String
response_error none status = text_append "HTTP " (decimal status)
response_error (some message) status = message

unfoldable pub start_begin : ℕ → LoadState → LoadState
start_begin now s = record s {
  status = starting;
  error_msg = none;
  started_at = some now;
  history = [];
  current = none;
}

abbrev fail_with : String → LoadState → LoadState
fail_with message s = record s { status = error; error_msg = some message }

unfoldable pub start_end : Settled → LoadState → LoadState
start_end (response ok status message) s =
    if ok then record s { status = running } else fail_with (response_error message status) s
start_end (threw message) s = fail_with message s

unfoldable pub stop_begin : LoadState → LoadState
stop_begin s = record s { status = stopping }

-- A 404 counts as stopped.
unfoldable pub stop_end : Settled → LoadState → LoadState
stop_end (response ok status message) s =
    if not ok && not (status == 404)
    then fail_with (response_error message status) s
    else record s { status = completed }
stop_end (threw message) s = fail_with message s

abbrev is_running : LoadStatus → Bool
is_running running = true
is_running _ = false

unfoldable pub push_history : List MetricsSnapshot → MetricsSnapshot → List MetricsSnapshot
push_history prev snapshot =
    if leb history_max (length prev)
    then take_last (history_max - 1) prev ++ snapshot ∷ []
    else prev ++ snapshot ∷ []

unfoldable pub ingest_snapshot : MetricsSnapshot → LoadState → LoadState
ingest_snapshot snapshot s = record s {
  current = some snapshot;
  history = push_history s.history snapshot;
  status =
      if is_running s.status && not snapshot.active_load_gen && ltb 5 (length s.history)
      then completed
      else s.status;
}

unfoldable pub reset : LoadState → LoadState
reset s = initial

-- One step of the page.
pub data Step : Type 0 where
  configure : ConfigPatch → Step
  begin_start : ℕ → Step
  end_start : Settled → Step
  begin_stop : Step
  end_stop : Settled → Step
  ingest : MetricsSnapshot → Step
  clear : Step

unfoldable pub step : Step → LoadState → LoadState
step (configure c) s = set_config c s
step (begin_start now) s = start_begin now s
step (end_start settled) s = start_end settled s
step begin_stop s = stop_begin s
step (end_stop settled) s = stop_end settled s
step (ingest snapshot) s = ingest_snapshot snapshot s
step clear s = reset s

-- The state after the steps, the earliest first.
unfoldable pub run : List Step → LoadState → LoadState
run [] s = s
run (e ∷ rest) s = run rest (step e s)
