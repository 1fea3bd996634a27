-- ===== src/CaseTraceWs.antt =====
-- The live trace of a case (apps/workbench/src/hooks/use-case-trace-ws.ts): a token is fetched, a socket
-- is opened with it, and the steps that arrive go to the case store. Each answer, each callback of the
-- socket, the timer and the unmounting of the component is an event; the hook is of one case.
pub mod Kept
pub mod Bounded
mod Tests
use attest.Prelude.{
  ℕ, ◌*◌, ◌+◌, String, Option, none, some, List, [], ◌∷◌, Bool, true, false, not, ◌||◌, min,
  if◌then◌else◌,
}
use attest.Prelude.Text.{is_empty}
use attest.CaseStore.{Cases, KafkaTraceStep, append_trace_step}
use attest.AlertsWs.{WsStatus, connecting, connected, disconnected}

-- The request for a token is out, a socket is there, a socket that the unmounting has closed and whose
-- `onclose` is still to come, a retry after so many milliseconds, or nothing.
pub data Link : Type 0 where
  fetching : Link
  socket : Link
  closing : Link
  retrying : ℕ → Link
  gone : Link

-- `sockets` counts the calls of `new WebSocket`, `tokens` the requests for one. `ws_status` is what was
-- set last; once the component is gone it is shown nowhere.
pub record Trace : Type 0 where
  pub cases : Cases
  pub ws_status : WsStatus
  pub retry_ms : ℕ
  pub link : Link
  pub sockets : ℕ
  pub tokens : ℕ

abbrev pub first_retry : ℕ
first_retry = 500

abbrev pub max_retry : ℕ
max_retry = 32000

-- After the first `connect`.
abbrev pub mounted : Cases → Trace
mounted cases = record {
  cases = cases;
  ws_status = connecting;
  retry_ms = first_retry;
  link = fetching;
  sockets = 0;
  tokens = 1;
}

-- The answer to the request for a token: none at all, a status that is not `ok`, or a body.
pub data TokenAnswer : Type 0 where
  thrown : TokenAnswer
  refused : TokenAnswer
  body : Option String → TokenAnswer

-- `ignored` is a message that is not JSON, `null`, or of kind `backpressure_dropped`; a field of a step
-- that is missing is empty.
pub data Message : Type 0 where
  ignored : Message
  step_of : KafkaTraceStep → Message

-- `onerror` closes the socket, so `closed` follows it.
pub data Event : Type 0 where
  token : TokenAnswer → Event
  opened : Event
  message : Message → ℕ → Event
  closed : Event
  timeout : Event
  unmount : Event

abbrev pub retry : Trace → Trace
retry t = record t { ws_status = disconnected; link = retrying t.retry_ms }

abbrev stop : Trace → Trace
stop t = record t { ws_status = disconnected; link = gone }

abbrev open_socket : Trace → Trace
open_socket t = record t { link = socket; sockets = t.sockets + 1 }

abbrev take_token : TokenAnswer → Trace → Trace
take_token thrown t = retry t
take_token refused t = retry t
take_token (body none) t = stop t
take_token (body (some s)) t = if is_empty s then stop t else open_socket t

-- `!step.step_kind || !step.agent_action_id`
abbrev pub unusable : KafkaTraceStep → Bool
unusable step = is_empty step.step_kind || is_empty step.agent_action_id

module _ (case_id : String) where
  unfoldable pub receive : Message → ℕ → Trace → Trace
  receive ignored now t = t
  receive (step_of step) now t =
      if unusable step then t else record t { cases = append_trace_step case_id step now t.cases }

  -- An event that the connection cannot have where it stands changes nothing. Unmounting does not
  -- stop a request that is out.
  unfoldable pub on : Event → Link → Trace → Trace
  unfolding receive
  on (token answer) fetching t = take_token answer t
  on opened socket t = record t { ws_status = connected; retry_ms = first_retry }
  on (message m now) socket t = receive m now t
  on closed socket t = retry t
  on closed closing t = retry t
  on timeout (retrying delay) t = record t {
    retry_ms = min (t.retry_ms * 2) max_retry;
    link = fetching;
    tokens = t.tokens + 1;
  }
  on unmount fetching t = record t { retry_ms = first_retry }
  on unmount socket t = record t { retry_ms = first_retry; link = closing }
  on unmount (retrying delay) t = record t { retry_ms = first_retry; link = gone }
  on event link t = t

  unfoldable pub step : Event → Trace → Trace
  step event t = on event t.link t

  -- The hook after the events, the earliest first.
  unfoldable pub run : List Event → Trace → Trace
  run [] t = t
  run (event ∷ rest) t = run rest (step event t)
