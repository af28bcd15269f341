-- ===== src/Channels/Machine/Manager.antt =====
-- `onEvent` of packages/lightning/lib/channels/StateMachine.ts, and how ChannelManager.ts runs it for one
-- channel. No state that the factory makes has a function for its entry or exit.
use node_lightning.Common.{
  if◌then◌else◌, List, [], ◌∷◌, ◌++◌, Option, none, some, Result, ok, err, ◌>>=◌, ◌≡◌,
}
use node_lightning.Bitcoin.Script.{Primitives}
use node_lightning.Channels.Channel.{ChannelError, type_error}
use node_lightning.Channels.Machine.{
  Name, channel, State, root, find_handlers, find_loop, state_id, same_id,
}
use node_lightning.Channels.Machine.Transitions.{
  ChannelStateId, id_names, ChannelEvent, event_type, World, saved, Logic, Outcome, TransitionFn,
  construct,
}

abbrev pub ChannelState : Type 0
ChannelState = State TransitionFn

-- The transitions are run until one of them gives a state.
unfoldable pub run_transitions : List TransitionFn → ChannelEvent → World → Outcome
run_transitions [] event w = ok (none, w)
run_transitions (fn ∷ fns) event w = fn event w >>= λ (result, w'). elim result [
  | some id ↦ ok (some id, w')
  | none ↦ run_transitions fns event w'
]

unfoldable pub on_handlers : Option (List TransitionFn) → ChannelEvent → World → Outcome
unfolding run_transitions
on_handlers none event w = ok (none, w)
on_handlers (some fns) event w = run_transitions fns event w

unfoldable pub on_event : ChannelState → ChannelEvent → World → Outcome
unfolding on_handlers find_handlers event_type
on_event state event w = on_handlers (find_handlers (event_type event) state) event w

-- A channel with its state.
pub record Managed : Type 0 where
  pub world : World
  pub state : Option ChannelState

-- `no_state` is what `transitionState` throws on an id that is not found.
pub data ManagerError : Type 0 where
  transition_error : ChannelError → ManagerError
  no_state : ManagerError

abbrev pub of_transition : Outcome → Result ManagerError (Option ChannelStateId × World)
of_transition (ok outcome) = ok outcome
of_transition (err e) = err (transition_error e)

module _ (p : Primitives) (logic : Logic) where
  unfoldable pub root_state : ChannelState
  root_state = root channel []

  -- `findState`. There are 12 states.
  unfoldable pub find_state : List Name → Option ChannelState
  unfolding find_loop construct root_state
  find_state id = find_loop 12 id ((root_state, construct p logic) ∷ [])

  -- The new state is entered and the channel is saved.
  unfoldable pub enter : Option ChannelState → World → Result ManagerError Managed
  enter none w = err no_state
  enter (some new_state) w =
      ok (record { world = record w { effects = w.effects ++ saved ∷ [] }; state = some new_state })

  unfoldable pub old_state : Option ChannelState → ChannelState
  unfolding root_state
  old_state none = root_state
  old_state (some state) = state

  -- `transitionState`
  unfoldable pub transition_state :
      Option ChannelStateId → World → Option ChannelState → Result ManagerError Managed
  unfolding find_state enter old_state state_id same_id id_names
  transition_state none w state = ok (record { world = w; state = state })
  transition_state (some new_id) w state =
      if same_id (id_names new_id) (state_id (old_state state))
      then ok (record { world = w; state = state })
      else enter (find_state (id_names new_id)) w

  -- An event is handled in the channel's state; the state has to be there.
  unfoldable pub dispatch_in :
      Option ChannelState → ChannelEvent → World → Result ManagerError Managed
  unfolding on_event transition_state
  dispatch_in none event w = err (transition_error type_error)
  dispatch_in (some state) event w = of_transition (on_event state event w) >>= λ (result, w').
      transition_state result w' (some state)

  unfoldable pub dispatch : ChannelEvent → Managed → Result ManagerError Managed
  unfolding dispatch_in
  dispatch event m = dispatch_in m.state event m.world

  -- What a channel comes to by events, one after the other.
  pub data Reach (m : Managed) : Managed → Type 0 where
    start : Reach m m
    step :
        {m' m'' : Managed} (event : ChannelEvent)
        → Reach m m'
        → dispatch event m' ≡ ok m''
        → Reach m m''
