-- ===== src/Channels/Machine/Points.antt =====
-- The commitment point that a channel sends when its funding is deep enough.
use node_lightning.Common.{
  ℕ, ◌≡◌, sym, ap, ◌∙◌, subst, Bool-cases, inl, inr, List, [], ◌∷◌, ◌++◌, Option, none, some,
  Result, ok, ◌>>=◌, >>=-eq-ok, All,
}
use node_lightning.Bitcoin.Script.{Primitives}
use node_lightning.Bitcoin.Transaction.{TxBuilder}
use node_lightning.Channels.Channel.{
  Channel, ChannelError, AcceptChannelMessage, need, ready_height, has_channel_ready,
  mark_confirmed, attach_funding_signed, new_public_key, make_funding_script, from_out_point,
  attach_funding_tx, attach_accept_channel, attach_channel_ready, create_channel_ready_message,
}
use node_lightning.Channels.Channel.Rotation.{message-point}
use node_lightning.Channels.Commitment.Number.{next}
use node_lightning.Channels.Machine.Transitions.{
  ChannelStateId, initializing_awaiting_funding_signed, ChannelEvent, accept_channel,
  funding_signed, channel_ready, block, disconnected, Effect, sent_funding_created, broadcast,
  sent_channel_ready, removed, saved, World, Logic, Outcome, TransitionFn, contains_out_point,
  on_accept_channel_message, on_funding_signed_message, on_channel_ready,
  block_connected_funding_confirmed, reached, block_connected_funding_depth_reached,
  disconnected_abandon,
}

-- A `channel_ready` that was sent carries that point.
abbrev pub CarriesPoint : Option (List ℕ) → Effect → Type 0
CarriesPoint o (sent_channel_ready id point) = o ≡ some point
CarriesPoint o (sent_funding_created signature) = Unit {0}
CarriesPoint o (broadcast tx) = Unit {0}
CarriesPoint o removed = Unit {0}
CarriesPoint o saved = Unit {0}

-- Our next point is that one, and so is that of every `channel_ready` that was sent.
abbrev pub HasPoint : Option (List ℕ) → World → Type 0
HasPoint o w = (w.chan.our_side.next_commitment_point ≡ o) × All (CarriesPoint o) w.effects

pub snoc-CarriesPoint :
    (o : Option (List ℕ)) (effects : List Effect) (e : Effect)
    → All (CarriesPoint o) effects
    → CarriesPoint o e
    → All (CarriesPoint o) (effects ++ e ∷ [])
snoc-CarriesPoint o [] e h k = (k, tt)
snoc-CarriesPoint o (x ∷ effects) e (h, hs) k = (h, snoc-CarriesPoint o effects e hs k)

abbrev pub Preserves : TransitionFn → Type 0
Preserves fn =
    (o : Option (List ℕ)) (event : ChannelEvent) (w w' : World) (r : Option ChannelStateId)
    → HasPoint o w
    → fn event w ≡ ok (r, w')
    → HasPoint o w'

-- What a transition returns.
world-of :
    (made w' : World) (s r : Option ChannelStateId) (o : Option (List ℕ))
    → HasPoint o made
    → ◌≡◌ {A = Outcome} (ok (s, made)) (ok (r, w'))
    → HasPoint o w'
world-of made w' s r o h e = let same : made ≡ w' = cc e in subst (HasPoint o) same h

abbrev our_point : Channel → Option (List ℕ)
our_point c = c.our_side.next_commitment_point

point-of :
    {made : Channel} (c' : Channel)
    → ◌≡◌ {A = Result ChannelError Channel} (ok made) (ok c')
    → our_point c' ≡ our_point made
point-of {made} c' e = let same : made ≡ c' = cc e in sym (ap our_point same)

attach_accept-point :
    (p : Primitives) (msg : AcceptChannelMessage) (c c' : Channel)
    → attach_accept_channel p msg c ≡ ok c'
    → our_point c' ≡ our_point c
unfolding attach_accept_channel
attach_accept-point p msg c c' h =
    let (k₁, _, h₁) = >>=-eq-ok (new_public_key p msg.funding_pub_key) _ h in
    let (k₂, _, h₂) = >>=-eq-ok (new_public_key p msg.payment_base_point) _ h₁ in
    let (k₃, _, h₃) = >>=-eq-ok (new_public_key p msg.delayed_payment_base_point) _ h₂ in
    let (k₄, _, h₄) = >>=-eq-ok (new_public_key p msg.htlc_base_point) _ h₃ in
    let (k₅, _, h₅) = >>=-eq-ok (new_public_key p msg.revocation_base_point) _ h₄ in
    let (k₆, _, h₆) = >>=-eq-ok (new_public_key p msg.first_per_commitment_point) _ h₅ in
    let (ours, _, h₇) = >>=-eq-ok (need c.our_side.funding_pub_key) _ h₆ in
    let (script, _, h₈) = >>=-eq-ok (make_funding_script p ours k₁) _ h₇ in point-of c' h₈

attach_funding-point :
    (id : List ℕ) (c c' : Channel) → attach_funding_tx id c ≡ ok c' → our_point c' ≡ our_point c
unfolding attach_funding_tx from_out_point
attach_funding-point id c c' h = point-of c' h

abbrev returned : Option ChannelStateId → World → Outcome
returned s w = ok (s, w)

-- What three calls and the result behind them come to.
accept_chain :
    (first : Result ChannelError Channel) (second : Channel → Result ChannelError Channel)
    (third : Channel → Result ChannelError TxBuilder) (made : Channel → TxBuilder → World)
    (s r : Option ChannelStateId) (w' : World)
    → (first >>= λ c. second c >>= λ c'. third c' >>= λ ctx. returned s (made c' ctx)) ≡ ok (r, w')
    → (c c' : Channel) × (ctx : TxBuilder) × (first ≡ ok c)
      × (second c ≡ ok c')
      × ◌≡◌ {A = Outcome} (ok (s, made c' ctx)) (ok (r, w'))
accept_chain first second third made s r w' h =
    let (c, e, h₁) = >>=-eq-ok first _ h in
    let (c', e', h₂) = >>=-eq-ok (second c) _ h₁ in
    let (ctx, _, h₃) = >>=-eq-ok (third c') _ h₂ in (c, c', ctx, e, e', h₃)

attach_ready-point :
    (p : Primitives) (point : List ℕ) (c c' : Channel)
    → attach_channel_ready p point c ≡ ok c'
    → our_point c' ≡ our_point c
unfolding attach_channel_ready
attach_ready-point p point c c' h =
    let (n, _, h₁) = >>=-eq-ok (need c.their_side.next_commitment_number) _ h in
    let (q, _, e) = >>=-eq-ok (new_public_key p point) _ h₁ in
    let same : record c {
      their_side = record c.their_side {
        commitment_number = some n;
        commitment_point = c.their_side.next_commitment_point;
        commitment_sig = c.their_side.next_commitment_sig;
        next_commitment_number = some (next n);
        next_commitment_point = some q;
        next_commitment_sig = none;
      };
    }
        ≡ c' =
      cc e in
    sym (ap our_point same)

module _ (p : Primitives) (logic : Logic) where
  pub on_accept-Preserves : Preserves (on_accept_channel_message p logic)
  unfolding on_accept_channel_message
  on_accept-Preserves o (accept_channel msg) w w' r (point, sent) h =
      elim (Bool-cases (logic.validate_accept_channel w.chan msg)) [
        | inl valid ↦
            let made : Channel → TxBuilder → World = λ c ctx. record {
              chan = c;
              effects = w.effects ++ sent_funding_created (logic.sign_commitment_tx c ctx) ∷ [];
            } in
            let (c, c', ctx, e, e', h₃) =
              accept_chain (attach_accept_channel p msg w.chan)
                (λ c. attach_funding_tx (logic.create_funding_tx c) c)
                logic.create_remote_commitment_tx made (some initializing_awaiting_funding_signed) r
                w' (rw valid at h) in
            world-of (made c' ctx) w' (some initializing_awaiting_funding_signed) r o
              (
                attach_funding-point (logic.create_funding_tx c) c c' e'
                    ∙ attach_accept-point p msg w.chan c e
                    ∙ point,
                snoc-CarriesPoint o w.effects
                    (sent_funding_created (logic.sign_commitment_tx c' ctx)) sent tt,
              )
              h₃
        | inr refused ↦ world-of w w' _ r o (point, sent) (rw refused at h)
      ]
  on_accept-Preserves o (funding_signed s) w w' r inv h = cc h
  on_accept-Preserves o (channel_ready q) w w' r inv h = cc h
  on_accept-Preserves o (block b) w w' r inv h = cc h
  on_accept-Preserves o disconnected w w' r inv h = cc h

  pub on_signed-Preserves : Preserves (on_funding_signed_message p logic)
  unfolding on_funding_signed_message attach_funding_signed
  on_signed-Preserves o (funding_signed s) w w' r (point, sent) h =
      elim (Bool-cases (logic.validate_funding_signed w.chan s)) [
        | inl valid ↦
            world-of _ w' _ r o
              (point, snoc-CarriesPoint o w.effects (broadcast w.chan.funding_out_point) sent tt)
              (rw valid at h)
        | inr refused ↦ world-of w w' _ r o (point, sent) (rw refused at h)
      ]
  on_signed-Preserves o (accept_channel m) w w' r inv h = cc h
  on_signed-Preserves o (channel_ready q) w w' r inv h = cc h
  on_signed-Preserves o (block b) w w' r inv h = cc h
  on_signed-Preserves o disconnected w w' r inv h = cc h

  pub on_ready-Preserves : (success : ChannelStateId) → Preserves (on_channel_ready p logic success)
  unfolding on_channel_ready
  on_ready-Preserves success o (channel_ready q) w w' r (point, sent) h =
      elim (Bool-cases (logic.validate_channel_ready w.chan q)) [
        | inl valid ↦
            let (c, e, h₁) = >>=-eq-ok (attach_channel_ready p q w.chan) _ (rw valid at h) in
            world-of _ w' _ r o (attach_ready-point p q w.chan c e ∙ point, sent) h₁
        | inr refused ↦ world-of w w' _ r o (point, sent) (rw refused at h)
      ]
  on_ready-Preserves success o (accept_channel m) w w' r inv h = cc h
  on_ready-Preserves success o (funding_signed s) w w' r inv h = cc h
  on_ready-Preserves success o (block b) w w' r inv h = cc h
  on_ready-Preserves success o disconnected w w' r inv h = cc h

pub confirmed-Preserves : Preserves block_connected_funding_confirmed
unfolding block_connected_funding_confirmed mark_confirmed
confirmed-Preserves o (block b) w w' r (point, sent) h =
    let (found, _, h₁) = >>=-eq-ok (contains_out_point b.txs w.chan.funding_out_point) _ h in
    elim (Bool-cases found) [
      | inl inside ↦ world-of _ w' _ r o (point, sent) (rw inside at h₁)
      | inr outside ↦ world-of w w' _ r o (point, sent) (rw outside at h₁)
    ]
confirmed-Preserves o (accept_channel m) w w' r inv h = cc h
confirmed-Preserves o (funding_signed s) w w' r inv h = cc h
confirmed-Preserves o (channel_ready q) w w' r inv h = cc h
confirmed-Preserves o disconnected w w' r inv h = cc h

pub depth-Preserves : Preserves block_connected_funding_depth_reached
unfolding block_connected_funding_depth_reached
depth-Preserves o (block b) w w' r (point, sent) h =
    elim (Bool-cases (reached b.bip34_height (ready_height w.chan))) [
      | inl deep ↦
          let ((id, q), e, h₁) = >>=-eq-ok (create_channel_ready_message w.chan) _ (rw deep at h) in
          let (known, _, h₂) = >>=-eq-ok (has_channel_ready w.chan) _ h₁ in
          world-of _ w' _ r o
            (
              point,
              snoc-CarriesPoint o w.effects (sent_channel_ready id q) sent
                  (sym point ∙ message-point w.chan id q e),
            )
            h₂
      | inr shallow ↦ world-of w w' _ r o (point, sent) (rw shallow at h)
    ]
depth-Preserves o (accept_channel m) w w' r inv h = cc h
depth-Preserves o (funding_signed s) w w' r inv h = cc h
depth-Preserves o (channel_ready q) w w' r inv h = cc h
depth-Preserves o disconnected w w' r inv h = cc h

pub abandon-Preserves : Preserves disconnected_abandon
unfolding disconnected_abandon
abandon-Preserves o event w w' r (point, sent) h =
    world-of _ w' _ r o (point, snoc-CarriesPoint o w.effects removed sent tt) h
