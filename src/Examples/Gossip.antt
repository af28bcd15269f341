-- ===== src/Examples/Gossip.antt =====
-- Runs of packages/lightning/lib/gossip/GossipSyncWatcher.ts.
use node_lightning.Common.{ℕ, ◌+◌, ◌<◌, ◌≤◌, ◌≡◌, ◌⊎◌, refl, arith, true, List, [], ◌∷◌}
use node_lightning.Gossip.SyncWatcher.{
  new_watcher, watch, cancel, complete, canceled, on_gossip_message, advance,
}
use node_lightning.Gossip.SyncWatcher.Debounce.{receive, waiting, done, watch-receive, watch-watch}

abbrev times : List ℕ
times = 100 ∷ 400 ∷ 900 ∷ []

no_timer : new_watcher.timers ≡ []
unfolding new_watcher
no_timer = refl

watch-receive_example :
    (receive times (watch 50 new_watcher)
      ≡ waiting (new_watcher.message_counter + 3) 900 (new_watcher.next_handle + 3) [])
    × (((6000 < 900 + 5000)
          × (advance 6000 (receive times (watch 50 new_watcher))
              ≡ receive times (watch 50 new_watcher)))
        ⊎ ((900 + 5000 ≤ 6000)
            × (advance 6000 (receive times (watch 50 new_watcher))
                ≡ done (new_watcher.message_counter + 3) (new_watcher.next_handle + 3))
            × (on_gossip_message 7000 (
                  advance 7000
                    (done (new_watcher.message_counter + 3) (new_watcher.next_handle + 3)))
                ≡ done (new_watcher.message_counter + 3) (new_watcher.next_handle + 3))))
    × (cancel (receive times (watch 50 new_watcher))
        ≡ record (done (new_watcher.message_counter + 3) (new_watcher.next_handle + 3)) {
          state = canceled;
        })
    × (advance 7000 (cancel (receive times (watch 50 new_watcher)))
        ≡ cancel (receive times (watch 50 new_watcher)))
watch-receive_example =
    watch-receive times 50 6000 7000 new_watcher no_timer
      (omega arith, (omega arith, (omega arith, tt)))

watch-watch_example :
    ((advance (50 + 5000) (receive times (watch 60 (advance 60 (watch 50 new_watcher))))).state
      ≡ complete)
    × ((advance (50 + 5000) (receive times (watch 60 (advance 60 (watch 50 new_watcher))))).resolved
        ≡ true)
watch-watch_example =
    watch-watch times 50 60 new_watcher no_timer (omega arith)
      (omega arith, (omega arith, (omega arith, tt)))
      (omega arith, (omega arith, (omega arith, tt)))
