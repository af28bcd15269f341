-- ===== src/Peer/PingPong/Flood.antt =====
-- When the messages of one interval make the peer be disconnected.
use node_lightning.Common.{
  ℕ, ◌+◌, ◌≡◌, refl, ap₂, ◌∙◌, arith, Bool, true, false, ltb, ◌||◌, ◌&&◌, if◌then◌else◌, List, [],
  ◌∷◌, ◌++◌, Option,
}
use node_lightning.Peer.PingPong.{
  PingPongState, Message, ping, pong, other, Call, disconnect, reconnect, send_ping, send_pong,
  on_message, validate_pong,
}

-- Whether a disconnection is among the calls.
abbrev pub disconnects : List Call → Bool
disconnects [] = false
disconnects (disconnect ∷ calls) = true
disconnects (reconnect ∷ calls) = disconnects calls
disconnects (send_ping n ∷ calls) = disconnects calls
disconnects (send_pong n ∷ calls) = disconnects calls

-- The calls for messages that arrive at these times.
unfoldable pub on_messages : List (ℕ × Message) → PingPongState → List Call
on_messages [] s = []
on_messages ((now, m) ∷ ms) s = (on_message now m s).1 ++ on_messages ms (on_message now m s).0

abbrev pub count_pings : List (ℕ × Message) → ℕ
count_pings [] = 0
count_pings ((now, ping asked) ∷ ms) = 1 + count_pings ms
count_pings ((now, pong ignored) ∷ ms) = count_pings ms
count_pings ((now, other) ∷ ms) = count_pings ms

-- Whether a pong among the messages is refused.
unfoldable pub wrong_pong : Option ℕ → List (ℕ × Message) → Bool
wrong_pong sent [] = false
wrong_pong sent ((now, pong ignored) ∷ ms) =
    disconnects (validate_pong sent ignored) || wrong_pong sent ms
wrong_pong sent ((now, ping n) ∷ ms) = wrong_pong sent ms
wrong_pong sent ((now, other) ∷ ms) = wrong_pong sent ms

disconnects-append :
    (xs ys : List Call) → disconnects (xs ++ ys) ≡ (disconnects xs || disconnects ys)
disconnects-append [] ys = refl
disconnects-append (disconnect ∷ xs) ys = refl
disconnects-append (reconnect ∷ xs) ys = disconnects-append xs ys
disconnects-append (send_ping n ∷ xs) ys = disconnects-append xs ys
disconnects-append (send_pong n ∷ xs) ys = disconnects-append xs ys

ping_calls :
    (flood answer : Bool) (n : ℕ)
    → disconnects
        ((if flood then disconnect ∷ [] else []) ++ (if answer then send_pong n ∷ [] else []))
      ≡ flood
ping_calls true answer n = refl
ping_calls false true n = refl
ping_calls false false n = refl

flood_step :
    (p c : ℕ)
    → (ltb 10 (p + 1) || (ltb 0 c && ltb 10 (p + 1 + c))) ≡ (ltb 0 (1 + c) && ltb 10 (p + (1 + c)))
flood_step p c = ground arith

left_false : (a b : Bool) → (a || b) ≡ false → (a ≡ false) × (b ≡ false)
left_false true b e = cc
left_false false b e = (refl, e)

-- Of messages that arrive within one interval, with no pong among them that is refused: they make the
-- peer be disconnected exactly when there is a ping among them and the pings of the interval, with
-- those received before, exceed ten. An interval is the 60 seconds between two resets of the count.
pub disconnects-on_messages :
    (ms : List (ℕ × Message)) (s : PingPongState)
    → wrong_pong s.sent_ping ms ≡ false
    → disconnects (on_messages ms s)
      ≡ (ltb 0 (count_pings ms) && ltb 10 (s.pings_received + count_pings ms))
unfolding on_messages on_message wrong_pong
disconnects-on_messages [] s h = refl
disconnects-on_messages ((now, ping asked) ∷ ms) s h =
    let calls = on_message now (ping asked) s in
    disconnects-append calls.1 (on_messages ms calls.0)
    ∙ ap₂ ◌||◌ (ping_calls (ltb 10 (s.pings_received + 1)) (ltb asked 65532) asked)
        (disconnects-on_messages ms calls.0 h)
    ∙ flood_step s.pings_received (count_pings ms)
disconnects-on_messages ((now, pong ignored) ∷ ms) s h =
    let calls = on_message now (pong ignored) s in
    let (fine, rest) = left_false _ _ h in
    disconnects-append calls.1 (on_messages ms calls.0)
    ∙ ap₂ ◌||◌ fine (disconnects-on_messages ms calls.0 rest)
disconnects-on_messages ((now, other) ∷ ms) s h =
    disconnects-on_messages ms (on_message now other s).0 h
