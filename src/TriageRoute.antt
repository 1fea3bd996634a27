-- ===== src/TriageRoute.antt =====
-- The triage proxy of a case (apps/workbench/src/app/api/cases/[caseId]/triage/route.ts). A POST runs
-- from one `await` to the next without interruption, so it is a machine whose stages are the awaits;
-- several requests share the process: the result cache, the map of runs in flight and the database.
pub mod Enriched
pub mod Cached
pub mod InFlight
pub mod Race
mod Tests
use Prim.Native.String.{◌++◌ as text_append}
use attest.Prelude.{
  ℕ, ◌==◌, String, Option, none, some, List, [], ◌∷◌, ◌++◌, Bool, true, false, ◌&&◌, length,
  get_elem?, set, if◌then◌else◌,
}
use attest.Prelude.Dict.{Dict, lookup, insert, remove}
use attest.Prelude.Text.{decimal}
use attest.Prelude.Json.{
  Json, null, bool, num, str, arr, obj, Fields, end, field, fields, to_fields, truthy, spread,
}
use attest.TriageFeatures.{
  Alert, BaselineAnswer, set_features, baseline_query, baseline_deviation, set_baseline,
}
use attest.CaseRepository.{
  CaseRow, CaseTable, RowStatus, complete, upsert_case_snapshot, get_case, mark_triage_running,
  mark_triage_complete, mark_triage_failed,
}

-- How the promise of a run settles.
pub data Settled : Type 0 where
  resolved : Json → Settled
  rejected : String → Settled

-- A response, or an exception that leaves the handler.
pub data Reply : Type 0 where
  responded : ℕ → Json → Reply
  crashed : Reply

-- What a request waits for.
pub data Stage : Type 0 where
  reading : Json → Stage
  waiting : ℕ → Stage
  asking : Alert → String → Stage
  saving : Alert → Stage
  marking : Alert → Stage
  calling : Stage
  completing : Json → Stage
  failing : String → Stage
  done : Reply → Stage

-- What comes of the orchestrator call: a status that is not ok, a body, or an error.
pub data Upstream : Type 0 where
  refused : ℕ → Upstream
  body : Json → Upstream
  broken : String → Upstream

-- What ends a wait.
pub data Answer : Type 0 where
  db_ok : Answer
  db_fails : String → Answer
  run_settles : Answer
  baseline : BaselineAnswer → Answer
  upstream : Upstream → Answer

-- The body of a POST: not JSON, or a value.
pub data Body : Type 0 where
  invalid : Body
  parsed : Json → Body

pub record Request : Type 0 where
  pub case_id : String
  pub stage : Stage

-- `{ error: message }`
abbrev pub error_body : String → Json
error_body message = obj (field "error" (str message) end)

abbrev alert_field : Option Json → Stage
alert_field none = done (responded 400 (error_body "Missing alert field"))
alert_field (some v) =
    if truthy v then reading v else done (responded 400 (error_body "Missing alert field"))

-- Up to the first `await` on the database. `null` is JSON, and reading a field of it throws.
unfoldable pub open_request : Body → Stage
open_request invalid = done (responded 400 (error_body "Invalid JSON body"))
open_request (parsed null) = done crashed
open_request (parsed (obj members)) = alert_field (lookup "alert" (fields members))
open_request (parsed (bool b)) = alert_field none
open_request (parsed (num n)) = alert_field none
open_request (parsed (str s)) = alert_field none
open_request (parsed (arr items)) = alert_field none

-- `persisted?.triage_status === "complete" && persisted.verdict`
abbrev complete_verdict : RowStatus → Option Json → Option Json
complete_verdict complete (some verdict) = if truthy verdict then some verdict else none
complete_verdict complete none = none
complete_verdict _ verdict = none

abbrev pub persisted_verdict : Option CaseRow → Option Json
persisted_verdict none = none
persisted_verdict (some row) = complete_verdict row.triage_status row.verdict

-- `if (cached)`
abbrev pub cached_result : Option Json → Option Json
cached_result none = none
cached_result (some d) = if truthy d then some d else none

abbrev pub after_enrich : Alert → Option (String × String) → Stage
after_enrich alert none = saving alert
after_enrich alert (some (user, region)) = asking alert region

-- What a request does once it knows the row: the row's verdict, the cached result and the run in
-- flight are looked at in this order.
abbrev pub decide : (Json → String) → Json → Option Json → Option Json → Option ℕ → Stage
decide text_of alert (some verdict) cached in_flight = done (responded 200 verdict)
decide text_of alert none (some cached) in_flight = done (responded 200 cached)
decide text_of alert none none (some r) = waiting r
decide text_of alert none none none =
    let enriched = set_features text_of (spread alert) in
    after_enrich enriched (baseline_query enriched)

unfoldable pub upstream_result : Upstream → Settled
upstream_result (refused status) = rejected (text_append "Orchestrator returned " (decimal status))
upstream_result (body data') = resolved data'
upstream_result (broken message) = rejected message

-- The stage after the run's promise has settled.
unfoldable pub after_run : Settled → Stage
after_run (resolved data') = completing data'
after_run (rejected message) = failing message

abbrev pub settled_reply : Settled → Reply
settled_reply (resolved data') = responded 200 data'
settled_reply (rejected message) = responded 502 (error_body message)

abbrev wait_for : ℕ → Option Settled → Stage
wait_for r none = waiting r
wait_for r (some s) = done (settled_reply s)

module _ (db : CaseTable) (text_of : Json → String) where
  open db use {Table}

  -- `settled` is what is known of the promise of each run; a run has the number of its request.
  -- `calls` are the cases for which the orchestrator was called, the latest first.
  pub record World : Type 0 where
    pub table : Table
    pub cache : Dict Json
    pub in_flight : Dict ℕ
    pub settled : ℕ → Option Settled
    pub calls : List String

  settle : ℕ → Settled → World → World
  settle r s w = record w { settled = λ k. if k == r then some s else w.settled k }

  -- One wait of request `r` ends at time `now`. An answer that the stage does not wait for changes
  -- nothing.
  unfoldable pub advance : ℕ → String → Stage → Answer → ℕ → World → World × Stage
  unfolding settle
  advance r id (reading alert) db_ok now w = (
    w,
    decide text_of alert (persisted_verdict (get_case db id w.table))
        (cached_result (lookup id w.cache)) (lookup id w.in_flight),
  )
  advance r id (reading alert) (db_fails message) now w = (w, done crashed)
  advance r id (waiting run) run_settles now w = (w, wait_for run (w.settled run))
  advance r id (asking alert region) (baseline answer) now w =
      (w, saving (set_baseline (baseline_deviation answer region) alert))
  advance r id (saving alert) db_ok now w = (
    record w {
      table =
          upsert_case_snapshot db
            (record {
              case_id = id;
              tenant_id = none;
              event = obj (to_fields alert);
              baseline = none;
              detection = none;
            })
            now w.table;
      in_flight = insert id r w.in_flight;
    },
    marking alert,
  )
  advance r id (saving alert) (db_fails message) now w = (w, done crashed)
  advance r id (marking alert) db_ok now w =
      (record w { table = mark_triage_running db id now w.table; calls = id ∷ w.calls }, calling)
  advance r id (marking alert) (db_fails message) now w =
      (settle r (rejected message) w, failing message)
  advance r id calling (upstream u) now w =
      (settle r (upstream_result u) w, after_run (upstream_result u))
  advance r id (completing data') db_ok now w = (
    record w {
      table = mark_triage_complete db id data' now w.table;
      cache = insert id data' w.cache;
      in_flight = remove id w.in_flight;
    },
    done (responded 200 data'),
  )
  advance r id (completing data') (db_fails message) now w = (w, failing message)
  advance r id (failing message) db_ok now w = (
    record w {
      table = mark_triage_failed db id message now w.table;
      in_flight = remove id w.in_flight;
    },
    done (responded 502 (error_body message)),
  )
  advance r id (failing message) (db_fails other) now w =
      (record w { in_flight = remove id w.in_flight }, done crashed)
  advance r id stage answer now w = (w, stage)

  -- The process: what the requests share, and the requests by number.
  pub record Process : Type 0 where
    pub world : World
    pub requests : List Request

  pub data Event : Type 0 where
    arrive : String → Body → Event
    answer : ℕ → Answer → ℕ → Event

  answer_to : ℕ → Answer → ℕ → Option Request → Process → Process
  answer_to r a now none p = p
  answer_to r a now (some q) p =
      let (w, stage) = advance r q.case_id q.stage a now p.world in
      record { world = w; requests = set p.requests r (record q { stage = stage }) }

  unfoldable pub step : Event → Process → Process
  unfolding answer_to
  step (arrive id body') p = record p {
    requests = p.requests ++ record { case_id = id; stage = open_request body' } ∷ [];
  }
  step (answer r a now) p = answer_to r a now (get_elem? p.requests r) p

  -- The process after the events, the earliest first.
  unfoldable pub run : List Event → Process → Process
  run [] p = p
  run (e ∷ rest) p = run rest (step e p)

-- `GET`: the durable status.
abbrev status_text : RowStatus → String
status_text RowStatus.idle = "idle"
status_text RowStatus.running = "running"
status_text complete = "complete"
status_text RowStatus.failed = "failed"

pub record StatusResponse : Type 0 where
  pub status : String
  pub verdict : Option Json
  pub error : Option String
  pub triage_started_at : Option ℕ
  pub triage_completed_at : Option ℕ

-- Times are milliseconds.
unfoldable pub triage_status_response : Option CaseRow → StatusResponse
triage_status_response none = record {
  status = "missing";
  verdict = none;
  error = none;
  triage_started_at = none;
  triage_completed_at = none;
}
triage_status_response (some row) = record {
  status = status_text row.triage_status;
  verdict = row.verdict;
  error = row.error;
  triage_started_at = row.triage_started_at;
  triage_completed_at = row.triage_completed_at;
}
