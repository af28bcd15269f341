-- ===== src/Gossip/SyncWatcher/Debounce.antt =====
-- Each message puts the completion off.
use node_lightning.Common.{
  ℕ, ◌+◌, ◌<◌, ◌≤◌, ◌≡◌, ◌⊎◌, refl, ap, ap₂, ◌∙◌, arith, false, true, leb, ◌==◌, Bool-cases, inl,
  inr, List, [], ◌∷◌, length, some, All,
}
use node_lightning.Gossip.SyncWatcher.{
  GossipSyncWatcher, watching, complete, canceled, message_in, on_gossip_message, watch, cancel,
  cancel_in, without, cleared, clear_timeout, fire, still_set, advance,
}

-- Messages that arrive at these times; timers that are due fire before.
unfoldable pub receive : List ℕ → GossipSyncWatcher → GossipSyncWatcher
receive [] w = w
receive (now ∷ times) w = receive times (on_gossip_message now (advance now w))

-- Each time is less than 5000 ms after the one before.
abbrev pub Close : ℕ → List ℕ → Type 0
Close last [] = Unit {0}
Close last (now ∷ times) = (now < last + 5000) × Close now times

abbrev pub last_time : ℕ → List ℕ → ℕ
last_time last [] = last
last_time last (now ∷ times) = last_time now times

-- A watcher that watches, and completes by the timer `h` 5000 ms after `last` if not by an older timer.
abbrev pub waiting : (count last h : ℕ) → List (ℕ × ℕ) → GossipSyncWatcher
waiting count last h old = record {
  state = watching;
  message_counter = count;
  timeout_handle = some h;
  resolved = false;
  timers = (h, last + 5000) ∷ old;
  next_handle = h + 1;
}

abbrev LaterThan : ℕ → List (ℕ × ℕ) → Type 0
LaterThan now old = All (λ (t : ℕ × ℕ). now < t.1) old

abbrev OlderThan : ℕ → List (ℕ × ℕ) → Type 0
OlderThan h old = All (λ (t : ℕ × ℕ). t.0 < h) old

not_due : (due now : ℕ) → now < due → leb due now ≡ false
not_due due now h = ground arith

still_set-later : (now : ℕ) (old : List (ℕ × ℕ)) → LaterThan now old → still_set now old ≡ old
unfolding still_set
still_set-later now [] h = refl
still_set-later now ((g, due) ∷ old) (h, hs) =
    rw (not_due due now h) (ap (λ l. (g, due) ∷ l) (still_set-later now old hs))

fire-later :
    (now : ℕ) (old : List (ℕ × ℕ)) (w : GossipSyncWatcher) → LaterThan now old → fire now old w ≡ w
unfolding fire
fire-later now [] w h = refl
fire-later now ((g, due) ∷ old) w (h, hs) = rw (not_due due now h) (fire-later now old w hs)

without-older : (h : ℕ) (old : List (ℕ × ℕ)) → OlderThan h old → without h old ≡ old
unfolding without
without-older h [] o = refl
without-older h ((g, due) ∷ old) (o, os) =
    let other : (g == h) ≡ false = ground arith in
    rw other (ap (λ l. (g, due) ∷ l) (without-older h old os))

module _ (count last h : ℕ) (old : List (ℕ × ℕ)) where
  advance-waiting :
      (now : ℕ)
      → now < last + 5000
      → LaterThan now old
      → advance now (waiting count last h old) ≡ waiting count last h old
  unfolding advance fire still_set
  advance-waiting now close later =
      rw (not_due (last + 5000) now close, still_set-later now old later)
        (fire-later now old (waiting count last h old) later)

  message-waiting :
      (now : ℕ)
      → OlderThan h old
      → on_gossip_message now (waiting count last h old) ≡ waiting (count + 1) now (h + 1) old
  unfolding on_gossip_message message_in clear_timeout cleared without
  message-waiting now older =
      let same : (h == h) ≡ true = ground arith in rw (same, without-older h old older) refl

older-suc : (h : ℕ) (old : List (ℕ × ℕ)) → OlderThan h old → OlderThan (h + 1) old
older-suc h [] o = tt
older-suc h ((g, due) ∷ old) (o, os) = (omega arith, older-suc h old os)

-- The timers that were set before are not due at any of the messages.
abbrev Quiet : List ℕ → List (ℕ × ℕ) → Type 0
Quiet times old = All (λ now. LaterThan now old) times

received :
    (times : List ℕ) (count last h : ℕ) (old : List (ℕ × ℕ))
    → Close last times
    → OlderThan h old
    → Quiet times old
    → receive times (waiting count last h old)
      ≡ waiting (count + length times) (last_time last times) (h + length times) old
unfolding receive
received [] count last h old close older quiet =
    ap₂ (λ (c g : ℕ). waiting c last g old) (omega arith) (omega arith)
received (now ∷ times) count last h old (near, close) older (later, quiet) =
    ap (λ w. receive times (on_gossip_message now w))
      (advance-waiting count last h old now near later)
    ∙ ap (receive times) (message-waiting count last h old now older)
    ∙ received times (count + 1) now (h + 1) old close (older-suc h old older) quiet
    ∙ ap₂ (λ (c g : ℕ). waiting c (last_time now times) g old) (omega arith) (omega arith)

no_timer-Quiet : (times : List ℕ) → Quiet times []
no_timer-Quiet [] = tt
no_timer-Quiet (now ∷ times) = (tt, no_timer-Quiet times)

-- The watcher when its last timer has fired, and when it was canceled.
abbrev pub done : (count h : ℕ) → GossipSyncWatcher
done count h = record {
  state = complete;
  message_counter = count;
  timeout_handle = some h;
  resolved = true;
  timers = [];
  next_handle = h + 1;
}

completes :
    (count last h now later : ℕ)
    → ((now < last + 5000) × (advance now (waiting count last h []) ≡ waiting count last h []))
      ⊎ ((last + 5000 ≤ now)
          × (advance now (waiting count last h []) ≡ done count h)
          × (on_gossip_message later (advance later (done count h)) ≡ done count h))
unfolding advance on_gossip_message message_in fire still_set
completes count last h now later = elim (Bool-cases (leb (last + 5000) now)) [
  | inl due ↦ inr (ground arith, rw due refl, refl)
  | inr early ↦ inl (ground arith, rw early refl)
]

cancels :
    (count last h later : ℕ)
    → (cancel (waiting count last h []) ≡ record (done count h) { state = canceled })
      × (advance later (cancel (waiting count last h [])) ≡ cancel (waiting count last h []))
unfolding cancel cancel_in clear_timeout cleared without advance fire still_set
cancels count last h later =
    let same : (h == h) ≡ true = ground arith in (rw same refl, rw same refl)

-- A watcher without a timer that starts to watch, and gets messages each less than 5000 ms after the one
-- before, counts them all and is still watching. It stays so until 5000 ms after the last of them; then
-- it is complete, the promise is resolved, and later messages change nothing. Canceled before, it is
-- resolved too and its timer never fires.
pub watch-receive :
    (times : List ℕ) (start now later : ℕ) (w : GossipSyncWatcher)
    → w.timers ≡ []
    → Close start times
    → (receive times (watch start w)
        ≡ waiting
            (w.message_counter + length times)
            (last_time start times)
            (w.next_handle + length times)
            [])
      × (((now < last_time start times + 5000)
            × (advance now (receive times (watch start w)) ≡ receive times (watch start w)))
          ⊎ ((last_time start times + 5000 ≤ now)
              × (advance now (receive times (watch start w))
                  ≡ done (w.message_counter + length times) (w.next_handle + length times))
              × (on_gossip_message later (
                    advance later
                      (done (w.message_counter + length times) (w.next_handle + length times)))
                  ≡ done (w.message_counter + length times) (w.next_handle + length times))))
      × (cancel (receive times (watch start w))
          ≡ record (done (w.message_counter + length times) (w.next_handle + length times)) {
            state = canceled;
          })
      × (advance later (cancel (receive times (watch start w)))
          ≡ cancel (receive times (watch start w)))
unfolding watch
watch-receive times start now later w none_set close =
    let count : ℕ = w.message_counter + length times in
    let h : ℕ = w.next_handle + length times in
    let last : ℕ = last_time start times in
    let begun : watch start w ≡ waiting w.message_counter start w.next_handle [] =
      ap (waiting w.message_counter start w.next_handle) none_set in
    let e : receive times (watch start w) ≡ waiting count last h [] =
      ap (receive times) begun
      ∙ received times w.message_counter start w.next_handle [] close tt (no_timer-Quiet times) in
    (
      e,
      rw e (completes count last h now later),
      rw e (cancels count last h later).0,
      rw e (cancels count last h later).1,
    )

first_timer-Quiet :
    (times : List ℕ) (g due : ℕ) → All (λ (t : ℕ). t < due) times → Quiet times ((g, due) ∷ [])
first_timer-Quiet [] g due h = tt
first_timer-Quiet (now ∷ times) g due (h, hs) = ((h, tt), first_timer-Quiet times g due hs)

fires_first :
    (count last h g due : ℕ)
    → ((advance due (waiting count last h ((g, due) ∷ []))).state ≡ complete)
      × ((advance due (waiting count last h ((g, due) ∷ []))).resolved ≡ true)
unfolding advance fire still_set
fires_first count last h g due =
    let reached : leb due due ≡ true = ground arith in
    elim (Bool-cases (leb (last + 5000) due)) [
      | inl both ↦ (rw (reached, both) refl, rw (reached, both) refl)
      | inr one ↦ (rw (reached, one) refl, rw (reached, one) refl)
    ]

-- A watcher without a timer that starts to watch again while it watches keeps its first timer: it is
-- complete, and the promise resolved, 5000 ms after the first start, though messages each less than
-- 5000 ms after the one before come until then.
pub watch-watch :
    (times : List ℕ) (start again : ℕ) (w : GossipSyncWatcher)
    → w.timers ≡ []
    → again < start + 5000
    → Close again times
    → All (λ (t : ℕ). t < start + 5000) times
    → ((advance (start + 5000) (receive times (watch again (advance again (watch start w))))).state
        ≡ complete)
      × ((advance
            (start + 5000)
            (receive times (watch again (advance again (watch start w))))).resolved
          ≡ true)
unfolding watch
watch-watch times start again w none_set soon close early =
    let c : ℕ = w.message_counter in
    let g : ℕ = w.next_handle in
    let old : List (ℕ × ℕ) = (g, start + 5000) ∷ [] in
    let begun : advance again (watch start w) ≡ waiting c start g [] =
      ap (λ l. advance again (waiting c start g l)) none_set
      ∙ advance-waiting c start g [] again soon tt in
    let e : receive times (watch again (advance again (watch start w)))
        ≡ waiting (c + length times) (last_time again times) (g + 1 + length times) old =
      ap (λ v. receive times (watch again v)) begun
      ∙ received times c again (g + 1) old close (omega arith, tt)
          (first_timer-Quiet times g (start + 5000) early) in
    rw e (
      fires_first (c + length times) (last_time again times) (g + 1 + length times) g
        (start + 5000))
