-- ===== src/Channels/Machine/Opened.antt =====
-- How a channel becomes normal.
use node_lightning.Common.{
  ℕ, ◌≡◌, refl, ap, ap₂, ◌∙◌, ◌<◌, ◌⊎◌, arith, ltb→lt, true, false, ltb, if◌then◌else◌, Bool-cases,
  inl, inr, List, [], ◌∷◌, ◌++◌, some, ok, ◌>>=◌,
}
use node_lightning.Bitcoin.Script.{Primitives}
use node_lightning.Channels.Channel.{
  Channel, need, ready_height, has_channel_ready, create_channel_ready_message,
}
use node_lightning.Channels.Channel.Rotation.{attached, attach-attached}
use node_lightning.Channels.Machine.{
  push_transition, type_number, handles_event, get_transitions, find_handlers, state_id, same_id,
  name_number,
}
use node_lightning.Channels.Machine.Transitions.{
  ChannelStateId, funding_awaiting_funding_depth, funding_awaiting_channel_ready, channel_normal,
  id_names, Block, ChannelEvent, block, channel_ready, event_type, sent_channel_ready, saved, World,
  Logic, TransitionFn, on_channel_ready, reached, block_connected_funding_depth_reached,
}
use node_lightning.Channels.Machine.Manager.{
  run_transitions, on_handlers, on_event, Managed, enter, old_state, transition_state,
  of_transition, dispatch_in, dispatch,
}
use node_lightning.Channels.Machine.Found.{state_at, find_state_total}

run_one :
    (fn : TransitionFn) (event : ChannelEvent) (w w' : World) (id : ChannelStateId)
    → fn event w ≡ ok (some id, w')
    → run_transitions (fn ∷ []) event w ≡ ok (some id, w')
unfolding run_transitions
run_one fn event w w' id e = rw e refl

message_made :
    (c : Channel) (id point : List ℕ)
    → c.channel_id ≡ some id
    → c.our_side.next_commitment_point ≡ some point
    → create_channel_ready_message c ≡ ok (id, point)
unfolding create_channel_ready_message
message_made c id point e f = ap₂ (λ i q. need i >>= λ x. need q >>= λ y. ok (x, y)) e f

ready_known :
    (c : Channel) (n : ℕ)
    → c.their_side.next_commitment_number ≡ some n
    → has_channel_ready c ≡ ok (ltb 0 n)
unfolding has_channel_ready
ready_known c n e = ap (λ number. need number >>= λ m. ok (ltb 0 m)) e

-- What the channel is after the message was sent, and after the state was entered.
abbrev pub sent_world : World → List ℕ → List ℕ → World
sent_world w id point = record w { effects = w.effects ++ sent_channel_ready id point ∷ [] }

abbrev pub saved_world : World → World
saved_world w = record w { effects = w.effects ++ saved ∷ [] }

depth_reached :
    (b : Block) (w : World) (id point : List ℕ) (n : ℕ)
    → reached b.bip34_height (ready_height w.chan) ≡ true
    → create_channel_ready_message w.chan ≡ ok (id, point)
    → has_channel_ready w.chan ≡ ok (ltb 0 n)
    → block_connected_funding_depth_reached (block b) w
      ≡ ok (
        some (if ltb 0 n then channel_normal else funding_awaiting_channel_ready),
        sent_world w id point,
      )
unfolding block_connected_funding_depth_reached
depth_reached b w id point n deep made known = rw deep (rw made (rw known refl))

module _ (p : Primitives) (logic : Logic) where
  enter_new :
      (new_id old_id : ChannelStateId) (w : World)
      → same_id (id_names new_id) (state_id (state_at p logic old_id)) ≡ false
      → transition_state p logic (some new_id) w (some (state_at p logic old_id))
        ≡ ok (record { world = saved_world w; state = some (state_at p logic new_id) })
  unfolding transition_state enter old_state
  enter_new new_id old_id w other = rw other (rw (find_state_total p logic new_id).0 refl)

  -- An event that one transition handles moves the channel to another state.
  dispatch_one :
      (old_id new_id : ChannelStateId) (event : ChannelEvent) (w w' : World)
      → same_id (id_names new_id) (state_id (state_at p logic old_id)) ≡ false
      → on_event (state_at p logic old_id) event w ≡ ok (some new_id, w')
      → dispatch p logic event (record { world = w; state = some (state_at p logic old_id) })
        ≡ ok (record { world = saved_world w'; state = some (state_at p logic new_id) })
  unfolding dispatch dispatch_in
  dispatch_one old_id new_id event w w' other handled =
      ap
        (λ outcome. of_transition outcome >>= λ (result, w₁).
          transition_state p logic result w₁ (some (state_at p logic old_id)))
        handled
      ∙ enter_new new_id old_id w' other

  on_depth :
      (b : Block) (w : World)
      → on_event (state_at p logic funding_awaiting_funding_depth) (block b) w
        ≡ run_transitions (block_connected_funding_depth_reached ∷ []) (block b) w
  unfolding on_event on_handlers state_at push_transition find_handlers event_type type_number
      handles_event get_transitions
  on_depth b w = refl

  on_ready :
      (point : List ℕ) (w : World)
      → on_event (state_at p logic funding_awaiting_channel_ready) (channel_ready point) w
        ≡ run_transitions (on_channel_ready p logic channel_normal ∷ []) (channel_ready point) w
  unfolding on_event on_handlers state_at push_transition find_handlers event_type type_number
      handles_event get_transitions
  on_ready point w = refl

  ready_accepted :
      (point : List ℕ) (w : World) (n : ℕ)
      → logic.validate_channel_ready w.chan point ≡ true
      → w.chan.their_side.next_commitment_number ≡ some n
      → p.valid_public_key point ≡ true
      → on_channel_ready p logic channel_normal (channel_ready point) w
        ≡ ok (some channel_normal, record w { chan = attached w.chan n point })
  unfolding on_channel_ready
  ready_accepted point w n accepted number valid =
      rw accepted (rw (attach-attached p w.chan n point number valid) refl)

  to_normal :
      same_id (id_names channel_normal) (state_id (state_at p logic funding_awaiting_funding_depth))
      ≡ false
  unfolding same_id id_names state_id state_at name_number
  to_normal = refl

  to_ready :
      same_id
        (id_names funding_awaiting_channel_ready)
        (state_id (state_at p logic funding_awaiting_funding_depth))
      ≡ false
  unfolding same_id id_names state_id state_at name_number
  to_ready = refl

  ready_to_normal :
      same_id (id_names channel_normal) (state_id (state_at p logic funding_awaiting_channel_ready))
      ≡ false
  unfolding same_id id_names state_id state_at name_number
  ready_to_normal = refl

  -- A channel in a state, after what was done for it.
  abbrev pub in_state : ChannelStateId → World → Managed
  in_state id w = record { world = w; state = some (state_at p logic id) }

  pub dispatch_normal :
      (w : World) (b : Block) (id point their_point : List ℕ) (n : ℕ)
      → reached b.bip34_height (ready_height w.chan) ≡ true
      → w.chan.channel_id ≡ some id
      → w.chan.our_side.next_commitment_point ≡ some point
      → w.chan.their_side.next_commitment_number ≡ some n
      → logic.validate_channel_ready w.chan their_point ≡ true
      → p.valid_public_key their_point ≡ true
      → ((0 < n)
          × (dispatch p logic (block b) (in_state funding_awaiting_funding_depth w)
              ≡ ok (in_state channel_normal (saved_world (sent_world w id point)))))
        ⊎ ((n ≡ 0)
            × (dispatch p logic (block b) (in_state funding_awaiting_funding_depth w)
                ≡ ok
                    (in_state funding_awaiting_channel_ready (saved_world (sent_world w id point))))
            × (dispatch p logic
                  (channel_ready their_point)
                  (in_state funding_awaiting_channel_ready (saved_world (sent_world w id point)))
                ≡ ok (
                    in_state channel_normal (
                      saved_world (record (saved_world (sent_world w id point)) {
                        chan = attached w.chan n their_point;
                      })))))
  dispatch_normal w b id point their_point n deep has_id has_point has_number accepted valid =
      let event = block b in
      let w₁ = sent_world w id point in
      let w₂ = saved_world w₁ in
      let reached_lem =
        depth_reached b w id point n deep (message_made w.chan id point has_id has_point)
          (ready_known w.chan n has_number) in
      elim (Bool-cases (ltb 0 n)) [
        | inl early ↦ inl (
          ltb→lt 0 n early,
          dispatch_one funding_awaiting_funding_depth channel_normal event w w₁ to_normal
              (on_depth b w ∙ run_one _ event w w₁ channel_normal (rw early at reached_lem)),
        )
        | inr late ↦ inr (
          ground arith,
          dispatch_one funding_awaiting_funding_depth funding_awaiting_channel_ready event w w₁
              to_ready
              (on_depth b w
                ∙ run_one _ event w w₁ funding_awaiting_channel_ready (rw late at reached_lem)),
          dispatch_one funding_awaiting_channel_ready channel_normal (channel_ready their_point) w₂
              (record w₂ { chan = attached w.chan n their_point }) ready_to_normal
              (on_ready their_point w₂
                ∙ run_one _ (channel_ready their_point) w₂ _ channel_normal
                    (ready_accepted their_point w₂ n accepted has_number valid)),
        )
      ]
