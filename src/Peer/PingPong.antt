-- ===== src/Peer/PingPong.antt =====
-- packages/lightning/lib/PingPongState.ts. The clock's value is an argument; a timer is the time at
-- which it fires. What is called on the peer is returned, in order.
pub mod Flood
use node_lightning.Common.{
  ℕ, ◌+◌, ◌-◌, Bool, true, false, ltb, ◌==◌, not, if◌then◌else◌, List, [], ◌∷◌, ◌++◌, Option, some,
  none,
}

abbrev pub ping_interval_ms : ℕ
ping_interval_ms = 60000

abbrev pub pong_timeout_ms : ℕ
pong_timeout_ms = 15000

abbrev pub ping_flood_threshold : ℕ
ping_flood_threshold = 10

abbrev pub pong_required_threshold : ℕ
pong_required_threshold = 65532

-- A message that has arrived: a ping with the bytes it asks for, a pong with the bytes it carries.
pub data Message : Type 0 where
  ping : ℕ → Message
  pong : ℕ → Message
  other : Message

pub data Call : Type 0 where
  send_ping send_pong : ℕ → Call
  disconnect reconnect : Call

pub record PingPongState : Type 0 where
  pub pings_received : ℕ
  pub last_message_received : Option ℕ
  pub send_ping_interval : Option ℕ
  pub pong_timeout : Option ℕ
  -- The bytes that the last ping asked for.
  pub sent_ping : Option ℕ

-- The bytes that a new PingMessage asks for.
abbrev pub num_pong_bytes : ℕ
num_pong_bytes = 1

unfoldable pub new_state : PingPongState
new_state = record {
  pings_received = 0;
  last_message_received = none;
  send_ping_interval = none;
  pong_timeout = none;
  sent_ping = none;
}

unfoldable pub start : ℕ → PingPongState → PingPongState
start now s = record s { send_ping_interval = some (now + ping_interval_ms) }

-- `_checkForPingFlood`
unfoldable pub check_for_ping_flood : PingPongState → List Call
check_for_ping_flood s = if ltb ping_flood_threshold s.pings_received then disconnect ∷ [] else []

-- The check of `_validatePong`, after the timeout is cleared.
unfoldable pub validate_pong : Option ℕ → ℕ → List Call
validate_pong none ignored = []
validate_pong (some asked) ignored = if not (asked == ignored) then disconnect ∷ [] else []

unfoldable pub on_message : ℕ → Message → PingPongState → PingPongState × List Call
unfolding check_for_ping_flood validate_pong
on_message now (ping asked) s =
    let s1 = record s { last_message_received = some now; pings_received = s.pings_received + 1 } in
    (
      s1,
      check_for_ping_flood s1
          ++ (if ltb asked pong_required_threshold then send_pong asked ∷ [] else []),
    )
on_message now (pong ignored) s = (
  record s { last_message_received = some now; pong_timeout = none },
  validate_pong s.sent_ping ignored,
)
on_message now other s = (record s { last_message_received = some now }, [])

unfoldable pub on_disconnecting : PingPongState → PingPongState
on_disconnecting s = record s { pong_timeout = none; send_ping_interval = none }

-- `_sendPing`
unfoldable pub send : ℕ → PingPongState → PingPongState × List Call
send now s = (
  record s { pong_timeout = some (now + pong_timeout_ms); sent_ping = some num_pong_bytes },
  send_ping num_pong_bytes ∷ [],
)

-- Whether no message has been received, or none within the interval. A time of zero is no time.
unfoldable pub is_silent : ℕ → Option ℕ → Bool
is_silent now none = true
is_silent now (some last) = if last == 0 then true else ltb ping_interval_ms (now - last)

-- `_onSendPingInterval`
unfoldable pub on_send_ping_interval : ℕ → PingPongState → PingPongState × List Call
unfolding send is_silent
on_send_ping_interval now s =
    let s1 = record s { pings_received = 0; send_ping_interval = some (now + ping_interval_ms) } in
    if is_silent now s1.last_message_received then send now s1 else (s1, [])

-- `_pongTimedOut`, when the timer fires.
unfoldable pub pong_timed_out : PingPongState → PingPongState × List Call
pong_timed_out s = (record s { pong_timeout = none }, reconnect ∷ [])
