-- ===== src/Channels/Machine/Found.antt =====
-- The states that the transitions name are found.
use node_lightning.Common.{◌≡◌, refl, [], some}
use node_lightning.Bitcoin.Script.{Primitives}
use node_lightning.Channels.Machine.{
  channel, initializing, awaiting_accept_channel, awaiting_funding_signed, funding,
  awaiting_funding_conf, no_channel_ready, awaiting_funding_depth, awaiting_channel_ready,
  abandoned, failing, normal, root, child, state_id,
}
use node_lightning.Channels.Machine.Transitions.{
  ChannelStateId, initializing_awaiting_accept_channel, initializing_awaiting_funding_signed,
  funding_awaiting_funding_conf_no_channel_ready, funding_awaiting_funding_depth,
  funding_awaiting_channel_ready, channel_failing, channel_normal, channel_abandoned, id_names,
  Logic, accept_handlers, signed_handlers, initializing_handlers, conf_handlers, depth_handlers,
  ready_handlers,
}
use node_lightning.Channels.Machine.Manager.{ChannelState, find_state}

module _ (p : Primitives) (logic : Logic) where
  -- The state of each id.
  unfoldable pub state_at : ChannelStateId → ChannelState
  state_at initializing_awaiting_accept_channel =
      child (child (root channel []) initializing (initializing_handlers p logic))
        awaiting_accept_channel (accept_handlers p logic)
  state_at initializing_awaiting_funding_signed =
      child (child (root channel []) initializing (initializing_handlers p logic))
        awaiting_funding_signed (signed_handlers p logic)
  state_at funding_awaiting_funding_conf_no_channel_ready =
      child (child (child (root channel []) funding []) awaiting_funding_conf []) no_channel_ready
        (conf_handlers p logic)
  state_at funding_awaiting_funding_depth =
      child (child (root channel []) funding []) awaiting_funding_depth (depth_handlers p logic)
  state_at funding_awaiting_channel_ready =
      child (child (root channel []) funding []) awaiting_channel_ready (ready_handlers p logic)
  state_at channel_failing = child (root channel []) failing []
  state_at channel_normal = child (root channel []) normal []
  state_at channel_abandoned = child (root channel []) abandoned []

  -- The search of a state from the root finds one with that id for every id of ChannelStateId, within the
  -- rounds that it is given.
  pub find_state_total :
      (id : ChannelStateId)
      → (find_state p logic (id_names id) ≡ some (state_at id))
        × (state_id (state_at id) ≡ id_names id)
  unfolding find_state id_names state_at state_id
  find_state_total initializing_awaiting_accept_channel = (refl, refl)
  find_state_total initializing_awaiting_funding_signed = (refl, refl)
  find_state_total funding_awaiting_funding_conf_no_channel_ready = (refl, refl)
  find_state_total funding_awaiting_funding_depth = (refl, refl)
  find_state_total funding_awaiting_channel_ready = (refl, refl)
  find_state_total channel_failing = (refl, refl)
  find_state_total channel_normal = (refl, refl)
  find_state_total channel_abandoned = (refl, refl)
