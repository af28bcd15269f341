-- ===== src/Examples/Peer.antt =====
-- Runs of packages/lightning/lib/PingPongState.ts and BitField.ts.
use node_lightning.Common.{ℕ, some, ◌+◌, ◌^◌, ◌≡◌, refl, ltb, ◌&&◌, List, [], ◌∷◌}
use node_lightning.Peer.PingPong.{PingPongState, Message, ping, pong, other, validate_pong}
use node_lightning.Peer.PingPong.Flood.{
  disconnects, on_messages, count_pings, wrong_pong, disconnects-on_messages,
}
use node_lightning.Peer.BitField.{is_set, flags}
use node_lightning.Peer.BitField.Flags.{contains, flags-contains}

-- A state late in an interval, with a ping sent.
abbrev busy : PingPongState
busy = record {
  pings_received = 9;
  last_message_received = some 1000;
  send_ping_interval = some 60000;
  pong_timeout = some 16000;
  sent_ping = some 1;
}

abbrev arrivals : List (ℕ × Message)
arrivals = (2000, ping 8) ∷ (2001, pong 1) ∷ (2002, other) ∷ (2003, ping 65533) ∷ []

disconnects-on_messages_example :
    disconnects (on_messages arrivals busy)
    ≡ (ltb 0 (count_pings arrivals) && ltb 10 (9 + count_pings arrivals))
unfolding wrong_pong validate_pong
disconnects-on_messages_example = disconnects-on_messages arrivals busy refl

flags-contains_example :
    contains 4 (flags (record { value = 16 }))
    ≡ (is_set 4 (record { value = 16 }) && ltb (2 ^ 4) 16)
flags-contains_example = flags-contains (record { value = 16 }) 4
