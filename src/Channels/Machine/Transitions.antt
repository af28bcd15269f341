-- ===== src/Channels/Machine/Transitions.antt =====
-- packages/lightning/lib/channels/TransitionFactory.ts, and the tree of states of StateMachineFactory.ts.
-- What IChannelLogic.ts offers is a record; its calls of the outside are effects, in their order. A
-- transition that throws ends the run.
use node_lightning.Common.{
  ℕ, Bool, true, false, ltb, leb, ◌&&◌, if◌then◌else◌, List, [], ◌∷◌, ◌++◌, Option, none, some,
  Result, ok, err, ◌>>=◌,
}
use node_lightning.Bitcoin.Script.{Primitives, bytes_equal}
use node_lightning.Bitcoin.Transaction.{OutPoint, TxBuilder}
use node_lightning.Channels.Channel.{
  Channel, ChannelError, type_error, AcceptChannelMessage, ready_height, has_channel_ready,
  mark_confirmed, attach_funding_signed, attach_funding_tx, attach_accept_channel,
  attach_channel_ready, create_channel_ready_message,
}
use node_lightning.Channels.Machine.{
  Name, channel, initializing, awaiting_accept_channel, awaiting_funding_signed, funding,
  awaiting_funding_conf, no_channel_ready, awaiting_funding_depth, awaiting_channel_ready,
  abandoned, failing, normal, ChannelEventType, block_connected, peer_disconnected,
  accept_channel_message, funding_signed_message, channel_ready_message, Handlers, Trees, node,
  no_trees, add_tree, push_transition,
}

-- `ChannelStateId`
pub data ChannelStateId : Type 0 where
  initializing_awaiting_accept_channel initializing_awaiting_funding_signed : ChannelStateId
  funding_awaiting_funding_conf_no_channel_ready funding_awaiting_funding_depth : ChannelStateId
  funding_awaiting_channel_ready channel_failing channel_normal channel_abandoned : ChannelStateId

unfoldable pub id_names : ChannelStateId → List Name
id_names initializing_awaiting_accept_channel =
    channel ∷ initializing ∷ awaiting_accept_channel ∷ []
id_names initializing_awaiting_funding_signed =
    channel ∷ initializing ∷ awaiting_funding_signed ∷ []
id_names funding_awaiting_funding_conf_no_channel_ready =
    channel ∷ funding ∷ awaiting_funding_conf ∷ no_channel_ready ∷ []
id_names funding_awaiting_funding_depth = channel ∷ funding ∷ awaiting_funding_depth ∷ []
id_names funding_awaiting_channel_ready = channel ∷ funding ∷ awaiting_channel_ready ∷ []
id_names channel_failing = channel ∷ failing ∷ []
id_names channel_normal = channel ∷ normal ∷ []
id_names channel_abandoned = channel ∷ abandoned ∷ []

-- A block: its height, and of each transaction the id and the number of outputs.
pub record Block : Type 0 where
  pub bip34_height : ℕ
  pub txs : List (List ℕ × ℕ)

-- An event with what it carries.
pub data ChannelEvent : Type 0 where
  accept_channel : AcceptChannelMessage → ChannelEvent
  funding_signed : List ℕ → ChannelEvent
  channel_ready : List ℕ → ChannelEvent
  block : Block → ChannelEvent
  disconnected : ChannelEvent

unfoldable pub event_type : ChannelEvent → ChannelEventType
event_type (accept_channel msg) = accept_channel_message
event_type (funding_signed signature) = funding_signed_message
event_type (channel_ready point) = channel_ready_message
event_type (block b) = block_connected
event_type disconnected = peer_disconnected

pub data Effect : Type 0 where
  sent_funding_created : List ℕ → Effect
  broadcast : Option OutPoint → Effect
  sent_channel_ready : List ℕ → List ℕ → Effect
  removed saved : Effect

-- A channel, and what was done for it.
pub record World : Type 0 where
  pub chan : Channel
  pub effects : List Effect

pub record Logic : Type 0 where
  pub validate_accept_channel : Channel → AcceptChannelMessage → Bool
  pub create_funding_tx : Channel → List ℕ
  pub create_remote_commitment_tx : Channel → Result ChannelError TxBuilder
  pub sign_commitment_tx : Channel → TxBuilder → List ℕ
  pub validate_funding_signed : Channel → List ℕ → Bool
  pub validate_channel_ready : Channel → List ℕ → Bool

abbrev pub Outcome : Type 0
Outcome = Result ChannelError (Option ChannelStateId × World)

abbrev pub TransitionFn : Type 0
TransitionFn = ChannelEvent → World → Outcome

-- `target.eq(outpoint)` for the outputs of one transaction; a missing target throws at the first.
unfoldable pub tx_contains : List ℕ × ℕ → Option OutPoint → Result ChannelError Bool
unfolding bytes_equal
tx_contains (txid, outputs) none = if ltb 0 outputs then err type_error else ok false
tx_contains (txid, outputs) (some target) =
    ok (bytes_equal target.txid txid && ltb target.output_index outputs)

unfoldable pub contains_out_point : List (List ℕ × ℕ) → Option OutPoint → Result ChannelError Bool
unfolding tx_contains
contains_out_point [] target = ok false
contains_out_point (tx ∷ txs) target =
    let rest = contains_out_point txs target in
    tx_contains tx target >>= λ found. if found then ok true else rest

module _ (p : Primitives) (logic : Logic) where
  unfoldable pub on_accept_channel_message : TransitionFn
  unfolding attach_accept_channel attach_funding_tx
  on_accept_channel_message (accept_channel msg) w =
      if logic.validate_accept_channel w.chan msg
      then (attach_accept_channel p msg w.chan >>= λ c.
          attach_funding_tx (logic.create_funding_tx c) c >>= λ c'.
          logic.create_remote_commitment_tx c' >>= λ ctx. ok (
            some initializing_awaiting_funding_signed,
            record {
              chan = c';
              effects = w.effects ++ sent_funding_created (logic.sign_commitment_tx c' ctx) ∷ [];
            },
          ))
      else ok (some channel_failing, w)
  on_accept_channel_message event w = err type_error

  unfoldable pub on_funding_signed_message : TransitionFn
  unfolding attach_funding_signed
  on_funding_signed_message (funding_signed signature) w =
      if logic.validate_funding_signed w.chan signature
      then ok (
        some funding_awaiting_funding_conf_no_channel_ready,
        record {
          chan = attach_funding_signed signature w.chan;
          effects = w.effects ++ broadcast w.chan.funding_out_point ∷ [];
        },
      )
      else ok (some channel_failing, w)
  on_funding_signed_message event w = err type_error

  unfoldable pub on_channel_ready : ChannelStateId → TransitionFn
  unfolding attach_channel_ready
  on_channel_ready success (channel_ready point) w =
      if logic.validate_channel_ready w.chan point
      then (attach_channel_ready p point w.chan >>= λ c. ok (some success, record w { chan = c }))
      else ok (some channel_failing, w)
  on_channel_ready success event w = err type_error

unfoldable pub block_connected_funding_confirmed : TransitionFn
unfolding contains_out_point mark_confirmed
block_connected_funding_confirmed (block b) w =
    contains_out_point b.txs w.chan.funding_out_point >>= λ found.
    if found
    then ok (
      some funding_awaiting_funding_depth,
      record w { chan = mark_confirmed b.bip34_height w.chan },
    )
    else ok (none, w)
block_connected_funding_confirmed event w = err type_error

-- A comparison with an unknown height is false.
unfoldable pub reached : ℕ → Option ℕ → Bool
reached height none = false
reached height (some ready) = leb ready height

unfoldable pub block_connected_funding_depth_reached : TransitionFn
unfolding reached ready_height create_channel_ready_message has_channel_ready
block_connected_funding_depth_reached (block b) w =
    if reached b.bip34_height (ready_height w.chan)
    then (create_channel_ready_message w.chan >>= λ (id, point).
        has_channel_ready w.chan >>= λ known. ok (
          some (if known then channel_normal else funding_awaiting_channel_ready),
          record w { effects = w.effects ++ sent_channel_ready id point ∷ [] },
        ))
    else ok (none, w)
block_connected_funding_depth_reached event w = err type_error

unfoldable pub disconnected_abandon : TransitionFn
disconnected_abandon event w =
    ok (some channel_abandoned, record w { effects = w.effects ++ removed ∷ [] })

-- `construct`: the name of the root, and the states below it.
module _ (p : Primitives) (logic : Logic) where
  abbrev pub accept_handlers : Handlers TransitionFn
  accept_handlers = push_transition accept_channel_message (on_accept_channel_message p logic) []

  abbrev pub signed_handlers : Handlers TransitionFn
  signed_handlers = push_transition funding_signed_message (on_funding_signed_message p logic) []

  abbrev pub initializing_handlers : Handlers TransitionFn
  initializing_handlers = push_transition peer_disconnected disconnected_abandon []

  abbrev pub conf_handlers : Handlers TransitionFn
  conf_handlers = push_transition block_connected block_connected_funding_confirmed []

  abbrev pub depth_handlers : Handlers TransitionFn
  depth_handlers =
      push_transition channel_ready_message
        (on_channel_ready p logic funding_awaiting_funding_depth)
        (push_transition block_connected block_connected_funding_depth_reached [])

  abbrev pub ready_handlers : Handlers TransitionFn
  ready_handlers =
      push_transition channel_ready_message (on_channel_ready p logic channel_normal) []

  unfoldable pub construct : Trees TransitionFn
  construct =
      add_tree
        (node initializing initializing_handlers (
          add_tree (node awaiting_accept_channel accept_handlers no_trees)
            (add_tree (node awaiting_funding_signed signed_handlers no_trees) no_trees)))
        (add_tree
          (node funding [] (
            add_tree
              (node awaiting_funding_conf []
                (add_tree (node no_channel_ready conf_handlers no_trees) no_trees))
              (add_tree (node awaiting_funding_depth depth_handlers no_trees)
                (add_tree (node awaiting_channel_ready ready_handlers no_trees) no_trees))))
          (add_tree (node abandoned [] no_trees)
            (add_tree (node failing [] no_trees) (add_tree (node normal [] no_trees) no_trees))))
