-- ===== src/Channels/Machine/Sent.antt =====
-- What a channel has sent, whatever events it was given.
use node_lightning.Common.{
  ℕ, ◌≡◌, refl, subst, ◌==◌, Bool-cases, inl, inr, List, [], ◌∷◌, Option, none, some, Result, ok,
  err, >>=-eq-ok, All,
}
use node_lightning.Bitcoin.Script.{Primitives}
use node_lightning.Channels.Machine.{
  ChannelEventType, Handlers, root, child, type_number, handles_event, get_transitions,
  push_transition, find_handlers, state_id, same_id,
}
use node_lightning.Channels.Machine.Transitions.{
  ChannelStateId, initializing_awaiting_accept_channel, initializing_awaiting_funding_signed,
  funding_awaiting_funding_conf_no_channel_ready, funding_awaiting_funding_depth,
  funding_awaiting_channel_ready, channel_failing, channel_normal, channel_abandoned, id_names,
  ChannelEvent, event_type, saved, World, Logic, Outcome, TransitionFn,
}
use node_lightning.Channels.Machine.Manager.{
  ChannelState, run_transitions, on_handlers, on_event, Managed, ManagerError, of_transition, enter,
  old_state, transition_state, dispatch_in, dispatch, Reach, start, step,
}
use node_lightning.Channels.Machine.Found.{state_at, find_state_total}
use node_lightning.Channels.Machine.Points.{
  HasPoint, Preserves, snoc-CarriesPoint, on_accept-Preserves, on_signed-Preserves,
  on_ready-Preserves, confirmed-Preserves, depth-Preserves, abandon-Preserves,
}

abbrev AllPreserve : Handlers TransitionFn → Type 0
AllPreserve [] = Unit
AllPreserve ((type, fns) ∷ handlers) = All Preserves fns × AllPreserve handlers

-- The state's transitions, and those of the states above it, keep the point.
abbrev Safe : ChannelState → Type 0
Safe (root name handlers) = AllPreserve handlers
Safe (child parent name handlers) = Safe parent × AllPreserve handlers

get-Preserves :
    (type : ChannelEventType) (handlers : Handlers TransitionFn)
    → AllPreserve handlers
    → All Preserves (get_transitions type handlers)
unfolding get_transitions
get-Preserves type [] h = tt
get-Preserves type ((t, fns) ∷ handlers) (h, hs) =
    elim (Bool-cases (type_number t == type_number type)) [
      | inl same ↦ rw same h
      | inr other ↦ rw other (get-Preserves type handlers hs)
    ]

abbrev OptionPreserve : Option (List TransitionFn) → Type 0
OptionPreserve none = Unit
OptionPreserve (some fns) = All Preserves fns

find_handlers-Preserve :
    (type : ChannelEventType) (state : ChannelState)
    → Safe state
    → OptionPreserve (find_handlers type state)
unfolding find_handlers
find_handlers-Preserve type (root name handlers) h =
    elim (Bool-cases (handles_event type handlers)) [
      | inl handled ↦ rw handled (get-Preserves type handlers h)
      | inr other ↦ rw other tt
    ]
find_handlers-Preserve type (child parent name handlers) (above, h) =
    elim (Bool-cases (handles_event type handlers)) [
      | inl handled ↦ rw handled (get-Preserves type handlers h)
      | inr other ↦ rw other (find_handlers-Preserve type parent above)
    ]

module _ (o : Option (List ℕ)) (event : ChannelEvent) where
  run-HasPoint :
      (fns : List TransitionFn) (w w' : World) (r : Option ChannelStateId)
      → All Preserves fns
      → HasPoint o w
      → run_transitions fns event w ≡ ok (r, w')
      → HasPoint o w'
  unfolding run_transitions
  run-HasPoint [] w w' r h inv e = let same : w ≡ w' = cc e in subst (HasPoint o) same inv
  run-HasPoint (fn ∷ fns) w w' r (h, hs) inv e =
      let ((result, w₁), f, g) = >>=-eq-ok (fn event w) _ e in
      let inv₁ = h o event w w₁ result inv f in
      rest result w₁ inv₁ g (run-HasPoint fns w₁ w' r hs inv₁)
    where
      rest :
          (result : Option ChannelStateId) (w₁ : World)
          → HasPoint o w₁
          → (elim result [ some id ↦ ok (some id, w₁) | none ↦ run_transitions fns event w₁ ])
            ≡ ok (r, w')
          → (run_transitions fns event w₁ ≡ ok (r, w') → HasPoint o w')
          → HasPoint o w'
      rest none w₁ inv₁ g later = later g
      rest (some id) w₁ inv₁ g later = let same : w₁ ≡ w' = cc g in subst (HasPoint o) same inv₁

  on_handlers-HasPoint :
      (handlers : Option (List TransitionFn)) (w w' : World) (r : Option ChannelStateId)
      → OptionPreserve handlers
      → HasPoint o w
      → on_handlers handlers event w ≡ ok (r, w')
      → HasPoint o w'
  unfolding on_handlers
  on_handlers-HasPoint none w w' r h inv e = let same : w ≡ w' = cc e in subst (HasPoint o) same inv
  on_handlers-HasPoint (some fns) w w' r h inv e = run-HasPoint fns w w' r h inv e

of_transition-eq-ok :
    (r : Outcome) {a : Option ChannelStateId × World} → of_transition r ≡ ok a → r ≡ ok a
of_transition-eq-ok (ok a) h = cc h
of_transition-eq-ok (err e) h = cc h

module _ (p : Primitives) (logic : Logic) where
  state_at-Safe : (id : ChannelStateId) → Safe (state_at p logic id)
  unfolding state_at push_transition type_number
  state_at-Safe initializing_awaiting_accept_channel =
      ((tt, ((abandon-Preserves, tt), tt)), ((on_accept-Preserves p logic, tt), tt))
  state_at-Safe initializing_awaiting_funding_signed =
      ((tt, ((abandon-Preserves, tt), tt)), ((on_signed-Preserves p logic, tt), tt))
  state_at-Safe funding_awaiting_funding_conf_no_channel_ready =
      (((tt, tt), tt), ((confirmed-Preserves, tt), tt))
  state_at-Safe funding_awaiting_funding_depth = (
    (tt, tt),
    ((depth-Preserves, tt), ((on_ready-Preserves p logic funding_awaiting_funding_depth, tt), tt)),
  )
  state_at-Safe funding_awaiting_channel_ready =
      ((tt, tt), ((on_ready-Preserves p logic channel_normal, tt), tt))
  state_at-Safe channel_failing = (tt, tt)
  state_at-Safe channel_normal = (tt, tt)
  state_at-Safe channel_abandoned = (tt, tt)

  -- The channel is in one of the states, and has sent that point only.
  abbrev pub KeepsPoint : Option (List ℕ) → Managed → Type 0
  KeepsPoint o m =
      HasPoint o m.world × ((id : ChannelStateId) × (m.state ≡ some (state_at p logic id)))

  managed-KeepsPoint :
      (o : Option (List ℕ)) (made m : Managed)
      → KeepsPoint o made
      → ◌≡◌ {A = Result ManagerError Managed} (ok made) (ok m)
      → KeepsPoint o m
  managed-KeepsPoint o made m h e = let same : made ≡ m = cc e in subst (KeepsPoint o) same h

  transition-KeepsPoint :
      (o : Option (List ℕ)) (result : Option ChannelStateId) (w : World) (id : ChannelStateId)
      (m : Managed)
      → HasPoint o w
      → transition_state p logic result w (some (state_at p logic id)) ≡ ok m
      → KeepsPoint o m
  unfolding transition_state enter old_state
  transition-KeepsPoint o none w id m h e = managed-KeepsPoint o _ m (h, (id, refl)) e
  transition-KeepsPoint o (some new_id) w id m (point, sent) e =
      elim (Bool-cases (same_id (id_names new_id) (state_id (state_at p logic id)))) [
        | inl same ↦ managed-KeepsPoint o _ m ((point, sent), (id, refl)) (rw same at e)
        | inr other ↦
            managed-KeepsPoint o _ m
              ((point, snoc-CarriesPoint o w.effects saved sent tt), (new_id, refl))
              (rw (find_state_total p logic new_id).0 at (rw other at e))
      ]

  dispatch-KeepsPoint :
      (o : Option (List ℕ)) (event : ChannelEvent) (state : Option ChannelState) (w : World)
      (id : ChannelStateId) (m : Managed)
      → HasPoint o w
      → state ≡ some (state_at p logic id)
      → dispatch_in p logic state event w ≡ ok m
      → KeepsPoint o m
  unfolding dispatch_in on_event
  dispatch-KeepsPoint o event state w id m h there e =
      let here : dispatch_in p logic (some (state_at p logic id)) event w ≡ ok m =
        subst (λ s. dispatch_in p logic s event w ≡ ok m) there e in
      let ((result, w'), f, g) =
        >>=-eq-ok (of_transition (on_event (state_at p logic id) event w)) _ here in
      let handlers = find_handlers (event_type event) (state_at p logic id) in
      let kept =
        on_handlers-HasPoint o event handlers w w' result
          (find_handlers-Preserve (event_type event) (state_at p logic id) (state_at-Safe id)) h
          (of_transition-eq-ok _ f) in
      transition-KeepsPoint o result w' id m kept g

  -- From a channel in any of its states that has sent no other point, whatever events come: our next
  -- commitment point stays the one that it is, and every `channel_ready` that is sent carries it.
  pub Reach-KeepsPoint :
      (o : Option (List ℕ)) (m m' : Managed) → KeepsPoint o m → Reach p logic m m' → KeepsPoint o m'
  unfolding dispatch
  Reach-KeepsPoint o m m' h start = h
  Reach-KeepsPoint o m m' h (step {m' = before} event r e) =
      let (point, (id, there)) = Reach-KeepsPoint o m before h r in
      dispatch-KeepsPoint o event before.state before.world id m' point there e
