-- ===== src/AlertsWs.antt =====
-- The live alert feed (apps/workbench/src/hooks/use-alerts-ws.ts): its connection, its back-off and
-- the deduplication of what arrives. Each callback of the socket, the timer and the unmounting of the
-- component is an event. The alerts are kept as the detections that came; AlertQueue shows them.
pub mod Backoff
pub mod Shown
mod Tests
use Prim.Native.String.{◌++◌ as text_append}
use attest.Prelude.{
  ℕ, ◌*◌, ◌+◌, String, Option, none, some, List, [], ◌∷◌, Bool, true, false, any, min, str_eq,
  if◌then◌else◌,
}

pub record FiredDetection : Type 0 where
  pub detection_id : String
  pub event_id : String
  pub actor_user_name : String
  pub cloud_region : String
  pub severity : String
  pub fired_at : String

pub data WsStatus : Type 0 where
  connecting connected disconnected : WsStatus

-- Where the connection stands: a socket that is there, a socket that the unmounting has closed and
-- whose `onclose` is still to come, a retry after so many milliseconds, or nothing.
pub data Link : Type 0 where
  socket : Link
  closing : Link
  retrying : ℕ → Link
  gone : Link

-- `sockets` counts the calls of `new WebSocket`; the messages shown are kept as they came. Once the
-- component is gone, `is_mounted` is false and setting its state has no effect; the references stay.
pub record Feed : Type 0 where
  pub new_alerts : List FiredDetection
  pub ws_status : WsStatus
  pub retry_ms : ℕ
  pub seen_ids : List String
  pub link : Link
  pub is_mounted : Bool
  pub sockets : ℕ

abbrev pub first_retry : ℕ
first_retry = 1000

abbrev pub max_retry : ℕ
max_retry = 32000

-- After the first `connect`.
abbrev pub mounted : Feed
mounted = record {
  new_alerts = [];
  ws_status = connecting;
  retry_ms = first_retry;
  seen_ids = [];
  link = socket;
  is_mounted = true;
  sockets = 1;
}

-- `message none` is one that is not JSON. `onerror` closes the socket, so `closed` follows it.
pub data Event : Type 0 where
  opened : Event
  message : Option FiredDetection → Event
  closed : Event
  timeout : Event
  unmount : Event

-- `${fired.detection_id}:${fired.event_id}`
unfoldable pub key_of : FiredDetection → String
key_of fired = text_append fired.detection_id (text_append ":" fired.event_id)

unfoldable pub receive : Option FiredDetection → Feed → Feed
receive none feed = feed
receive (some fired) feed =
    if any (λ seen. str_eq seen (key_of fired)) feed.seen_ids then feed else record feed {
      seen_ids = key_of fired ∷ feed.seen_ids;
      new_alerts = if feed.is_mounted then fired ∷ feed.new_alerts else feed.new_alerts;
    }

-- `setWsStatus`
abbrev set_ws_status : WsStatus → Feed → Feed
set_ws_status status feed = record feed {
  ws_status = if feed.is_mounted then status else feed.ws_status;
}

-- `onclose`: a retry after `retryMs`, also when the component is gone.
abbrev on_close : Feed → Feed
on_close feed = record (set_ws_status disconnected feed) { link = retrying feed.retry_ms }

-- An event that the connection cannot have where it stands changes nothing.
unfoldable pub on : Event → Link → Feed → Feed
unfolding receive
on opened socket feed = record (set_ws_status connected feed) { retry_ms = first_retry }
on (message m) socket feed = receive m feed
on closed socket feed = on_close feed
on closed closing feed = on_close feed
on timeout (retrying delay) feed = record feed {
  retry_ms = min (feed.retry_ms * 2) max_retry;
  link = socket;
  sockets = feed.sockets + 1;
}
on unmount socket feed = record feed { link = closing; is_mounted = false }
on unmount (retrying delay) feed = record feed { link = gone; is_mounted = false }
on event link feed = feed

unfoldable pub step : Event → Feed → Feed
step event feed = on event feed.link feed

-- The feed after the events, the earliest first.
unfoldable pub run : List Event → Feed → Feed
run [] feed = feed
run (event ∷ rest) feed = run rest (step event feed)
