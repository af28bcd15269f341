-- ===== src/Gossip/SyncWatcher.antt =====
-- packages/lightning/lib/gossip/GossipSyncWatcher.ts. The clock's value is an argument; the timers that
-- are set are a list of handles with the times at which they fire, as setTimeout and clearTimeout of
-- Node keep them, and `resolved` tells whether the last promise has been resolved.
pub mod Debounce
use node_lightning.Common.{
  ℕ, ◌+◌, Bool, true, false, leb, ◌==◌, not, if◌then◌else◌, List, [], ◌∷◌, Option, some, none,
}

pub data WatcherState : Type 0 where
  idle watching complete canceled : WatcherState

abbrev pub complete_after_ms : ℕ
complete_after_ms = 5000

-- `timers` are those of Node that have not fired yet, and `next_handle` is what setTimeout returns next.
pub record GossipSyncWatcher : Type 0 where
  pub state : WatcherState
  pub message_counter : ℕ
  pub timeout_handle : Option ℕ
  pub resolved : Bool
  pub timers : List (ℕ × ℕ)
  pub next_handle : ℕ

unfoldable pub new_watcher : GossipSyncWatcher
new_watcher = record {
  state = idle;
  message_counter = 0;
  timeout_handle = none;
  resolved = false;
  timers = [];
  next_handle = 1;
}

-- `_setTimeout`
unfoldable pub set_timeout : ℕ → GossipSyncWatcher → GossipSyncWatcher
set_timeout now w = record w {
  timeout_handle = some w.next_handle;
  timers = (w.next_handle, now + complete_after_ms) ∷ w.timers;
  next_handle = w.next_handle + 1;
}

-- The timers without that of a handle.
unfoldable pub without : ℕ → List (ℕ × ℕ) → List (ℕ × ℕ)
without handle [] = []
without handle ((h, due) ∷ timers) =
    let rest = without handle timers in if h == handle then rest else (h, due) ∷ rest

unfoldable pub cleared : Option ℕ → List (ℕ × ℕ) → List (ℕ × ℕ)
unfolding without
cleared none timers = timers
cleared (some handle) timers = without handle timers

-- `_clearTimeout`
unfoldable pub clear_timeout : GossipSyncWatcher → GossipSyncWatcher
unfolding cleared
clear_timeout w = record w { timers = cleared w.timeout_handle w.timers }

unfoldable pub watch : ℕ → GossipSyncWatcher → GossipSyncWatcher
unfolding set_timeout
watch now w = record (set_timeout now (record w { state = watching })) { resolved = false }

-- `onGossipMessage` in a state.
unfoldable pub message_in : WatcherState → ℕ → GossipSyncWatcher → GossipSyncWatcher
unfolding set_timeout clear_timeout
message_in idle now w = w
message_in watching now w =
    set_timeout now (clear_timeout (record w { message_counter = w.message_counter + 1 }))
message_in complete now w = w
message_in canceled now w = w

unfoldable pub on_gossip_message : ℕ → GossipSyncWatcher → GossipSyncWatcher
unfolding message_in
on_gossip_message now w = message_in w.state now w

-- `cancel` in a state.
unfoldable pub cancel_in : WatcherState → GossipSyncWatcher → GossipSyncWatcher
unfolding clear_timeout
cancel_in idle w = record w { state = canceled }
cancel_in watching w = record (clear_timeout w) { state = canceled; resolved = true }
cancel_in complete w = record w { state = canceled }
cancel_in canceled w = record w { state = canceled }

unfoldable pub cancel : GossipSyncWatcher → GossipSyncWatcher
unfolding cancel_in
cancel w = cancel_in w.state w

-- `_onTimeout`
unfoldable pub on_timeout : GossipSyncWatcher → GossipSyncWatcher
on_timeout w = record w { state = complete; resolved = true }

-- The timers that are due fire, each once.
unfoldable pub fire : ℕ → List (ℕ × ℕ) → GossipSyncWatcher → GossipSyncWatcher
unfolding on_timeout
fire now [] w = w
fire now ((h, due) ∷ timers) w =
    let rest = fire now timers w in if leb due now then on_timeout rest else rest

unfoldable pub still_set : ℕ → List (ℕ × ℕ) → List (ℕ × ℕ)
still_set now [] = []
still_set now ((h, due) ∷ timers) =
    let rest = still_set now timers in if leb due now then rest else (h, due) ∷ rest

-- What the watcher is when it is `now`.
unfoldable pub advance : ℕ → GossipSyncWatcher → GossipSyncWatcher
unfolding fire still_set
advance now w = fire now w.timers (record w { timers = still_set now w.timers })
