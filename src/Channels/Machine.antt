-- ===== src/Channels/Machine.antt =====
-- packages/lightning/lib/channels/StateMachine.ts, of which a state refers to its parent, and the search
-- of a state in ChannelManager.ts. An id is the names from the root on.
pub mod Transitions
pub mod Manager
pub mod Found
pub mod Points
pub mod Sent
pub mod Opened
use node_lightning.Common.{
  ℕ, zero, suc, Bool, true, false, ◌==◌, ◌&&◌, if◌then◌else◌, List, [], ◌∷◌, ◌++◌, Option, none,
  some, Result, ok, err, ◌>>=◌,
}

pub data Name : Type 0 where
  channel initializing awaiting_accept_channel awaiting_funding_signed funding : Name
  awaiting_funding_conf no_channel_ready awaiting_funding_depth awaiting_channel_ready : Name
  abandoned failing normal : Name

-- Two names are equal if they have the same number.
unfoldable pub name_number : Name → ℕ
name_number channel = 0
name_number initializing = 1
name_number awaiting_accept_channel = 2
name_number awaiting_funding_signed = 3
name_number funding = 4
name_number awaiting_funding_conf = 5
name_number no_channel_ready = 6
name_number awaiting_funding_depth = 7
name_number awaiting_channel_ready = 8
name_number abandoned = 9
name_number failing = 10
name_number normal = 11

unfoldable pub same_id : List Name → List Name → Bool
unfolding name_number
same_id [] [] = true
same_id (a ∷ l) (b ∷ r) = name_number a == name_number b && same_id l r
same_id l r = false

-- `channels/ChannelEventType.ts`
pub data ChannelEventType : Type 0 where
  block_connected peer_disconnected peer_connected open_channel_message : ChannelEventType
  accept_channel_message funding_created_message funding_signed_message : ChannelEventType
  channel_ready_message shutdown_message : ChannelEventType

unfoldable pub type_number : ChannelEventType → ℕ
type_number block_connected = 0
type_number peer_disconnected = 1
type_number peer_connected = 2
type_number open_channel_message = 3
type_number accept_channel_message = 4
type_number funding_created_message = 5
type_number funding_signed_message = 6
type_number channel_ready_message = 7
type_number shutdown_message = 8

-- The map from an event's type to the transitions for it.
abbrev pub Handlers : Type 0 → Type 0
Handlers F = List (ChannelEventType × List F)

pub data State (F : Type 0) : Type 0 where
  root : Name → Handlers F → State F
  child : State F → Name → Handlers F → State F

-- The states below a state, in the order in which they were added.
mutual
  pub data Tree (F : Type 0) : Type 0 where
    node : Name → Handlers F → Trees F → Tree F

  pub data Trees (F : Type 0) : Type 0 where
    no_trees : Trees F
    add_tree : Tree F → Trees F → Trees F

module _ {F : Type 0} where
  unfoldable pub state_id : State F → List Name
  state_id (root name handlers) = name ∷ []
  state_id (child parent name handlers) = state_id parent ++ name ∷ []

  unfoldable pub handles_event : ChannelEventType → Handlers F → Bool
  unfolding type_number
  handles_event type [] = false
  handles_event type ((t, fns) ∷ handlers) =
      let rest = handles_event type handlers in
      if type_number t == type_number type then true else rest

  unfoldable pub get_transitions : ChannelEventType → Handlers F → List F
  unfolding type_number
  get_transitions type [] = []
  get_transitions type ((t, fns) ∷ handlers) =
      let rest = get_transitions type handlers in
      if type_number t == type_number type then fns else rest

  unfoldable pub push_transition : ChannelEventType → F → Handlers F → Handlers F
  unfolding type_number
  push_transition type fn [] = (type, fn ∷ []) ∷ []
  push_transition type fn ((t, fns) ∷ handlers) =
      let rest = push_transition type fn handlers in
      if type_number t == type_number type then (t, fns ++ fn ∷ []) ∷ handlers else (t, fns) ∷ rest

  -- The handlers of the nearest state, from this one up, that handles the event.
  unfoldable pub find_handlers : ChannelEventType → State F → Option (List F)
  unfolding handles_event get_transitions
  find_handlers type (root name handlers) =
      if handles_event type handlers then some (get_transitions type handlers) else none
  find_handlers type (child parent name handlers) =
      let above = find_handlers type parent in
      if handles_event type handlers then some (get_transitions type handlers) else above

  unfoldable pub children : State F → Trees F → List (State F × Trees F)
  children parent no_trees = []
  children parent (add_tree (node name handlers below) trees) =
      (child parent name handlers, below) ∷ children parent trees

  -- `findState`: the loop over the queue, on the rounds left.
  unfoldable pub find_loop : ℕ → List Name → List (State F × Trees F) → Option (State F)
  unfolding state_id same_id children
  find_loop zero id queue = none
  find_loop (suc left) id [] = none
  find_loop (suc left) id ((current, below) ∷ queue) =
      let rest = find_loop left id (queue ++ children current below) in
      if same_id (state_id current) id then some current else rest
