-- ===== src/Channels/Channel/Rotation.antt =====
-- The exchange of `channel_ready`: one side goes on to its next commitment, and the other side follows.
use node_lightning.Common.{
  ℕ, ◌+◌, ◌≡◌, arith, sym, ap, ◌∙◌, Bool, true, if◌then◌else◌, List, Option, some, none, ok, err,
  ◌>>=◌, >>=-eq-ok,
}
use node_lightning.Bitcoin.Script.{Primitives}
use node_lightning.Channels.Commitment.Number.{next}
use node_lightning.Channels.Side.{ChannelSide}
use node_lightning.Channels.Channel.{
  Channel, invalid_key, Keys, need, new_public_key, commitment_point, revoke_local_commitment,
  attach_channel_ready, create_channel_ready_message,
}

-- What one side keeps of the other one's commitments is what the other one keeps of its own.
pub record Agrees (ours theirs : ChannelSide) : Type 0 where
  pub number : theirs.commitment_number ≡ ours.commitment_number
  pub point : theirs.commitment_point ≡ ours.commitment_point
  pub next_number : theirs.next_commitment_number ≡ ours.next_commitment_number
  pub next_point : theirs.next_commitment_point ≡ ours.next_commitment_point

need-eq-ok {ℓ} : {A : Type ℓ} (o : Option A) {a : A} → need o ≡ ok a → o ≡ some a
need-eq-ok none h = cc h
need-eq-ok (some b) h = cc h

-- Our side after a revocation of a channel with this seed: one number further, with the point that was
-- the next one, and a next point derived for the next number.
abbrev pub Rotated :
    (p : Primitives) (k : Keys) → Option (List ℕ) → ChannelSide → ChannelSide → Type 0
Rotated p k secret ours ours' =
    (n : ℕ) × (seed made : List ℕ) × (ours.next_commitment_number ≡ some n)
    × (ours'.commitment_number ≡ some n)
    × (ours'.commitment_point ≡ ours.next_commitment_point)
    × (ours'.next_commitment_number ≡ some (next n))
    × (secret ≡ some seed)
    × (commitment_point p k seed (next n) ≡ ok made)
    × (ours'.next_commitment_point ≡ some made)

revoke-Rotated :
    (p : Primitives) (k : Keys) (c c' : Channel)
    → revoke_local_commitment p k c ≡ ok c'
    → Rotated p k c.per_commitment_seed c.our_side c'.our_side
unfolding revoke_local_commitment
revoke-Rotated p k c c' revoked =
    let (n, e, h₁) = >>=-eq-ok (need c.our_side.next_commitment_number) _ revoked in
    let (seed, f, h₂) = >>=-eq-ok (need c.per_commitment_seed) _ h₁ in
    let (made, g, h₃) = >>=-eq-ok (commitment_point p k seed (next n)) _ h₂ in
    let same : record c {
      our_side = record c.our_side {
        commitment_number = some n;
        commitment_point = c.our_side.next_commitment_point;
        commitment_sig = c.our_side.next_commitment_sig;
        next_commitment_number = some (next n);
        next_commitment_point = some made;
        next_commitment_sig = none;
      };
    }
        ≡ c' =
      cc h₃ in
    (
      n,
      seed,
      made,
      need-eq-ok c.our_side.next_commitment_number e,
      sym (ap (λ x. x.our_side.commitment_number) same),
      sym (ap (λ x. x.our_side.commitment_point) same),
      sym (ap (λ x. x.our_side.next_commitment_number) same),
      need-eq-ok c.per_commitment_seed f,
      g,
      sym (ap (λ x. x.our_side.next_commitment_point) same),
    )

pub message-point :
    (c : Channel) (id point : List ℕ)
    → create_channel_ready_message c ≡ ok (id, point)
    → c.our_side.next_commitment_point ≡ some point
unfolding create_channel_ready_message
message-point c id point h =
    let (i, _, h₁) = >>=-eq-ok (need c.channel_id) _ h in
    let (made, e, h₂) = >>=-eq-ok (need c.our_side.next_commitment_point) _ h₁ in
    need-eq-ok c.our_side.next_commitment_point e ∙ cc h₂

-- The channel after the message was attached.
pub attached : Channel → ℕ → List ℕ → Channel
attached d n point = record d {
  their_side = record d.their_side {
    commitment_number = some n;
    commitment_point = d.their_side.next_commitment_point;
    commitment_sig = d.their_side.next_commitment_sig;
    next_commitment_number = some (next n);
    next_commitment_point = some point;
    next_commitment_sig = none;
  };
}

pub attach-attached :
    (p : Primitives) (d : Channel) (n : ℕ) (point : List ℕ)
    → d.their_side.next_commitment_number ≡ some n
    → p.valid_public_key point ≡ true
    → attach_channel_ready p point d ≡ ok (attached d n point)
unfolding attach_channel_ready attached new_public_key
attach-attached p d n point e valid =
    ap (λ number. need number >>= λ m. new_public_key p point >>= λ q. ok (attached d m q)) e
    ∙ ap (λ (b : Bool). (if b then ok point else err invalid_key) >>= λ q. ok (attached d n q))
        valid

number_ahead : (n : ℕ) → ¬ ◌≡◌ {A = Option ℕ} (some (next n)) (some n)
unfolding next
number_ahead n e = let same : n + 1 ≡ n = cc e in omega (arith, same)

module _ (p : Primitives) (k : Keys) (c c' d : Channel) where
  -- Where the other side has the same view of ours and accepts a point: after a revocation we are one
  -- number further and our next point is the one derived for the next number, and a `channel_ready` made
  -- then gives the other side the same view again. A `channel_ready` made without the revocation, as the
  -- state machine makes it, leaves the other side's view one number ahead of ours.
  pub attach_channel_ready-Agrees :
      (id point early_id early_point : List ℕ)
      → Agrees c.our_side d.their_side
      → revoke_local_commitment p k c ≡ ok c'
      → create_channel_ready_message c' ≡ ok (id, point)
      → p.valid_public_key point ≡ true
      → create_channel_ready_message c ≡ ok (early_id, early_point)
      → p.valid_public_key early_point ≡ true
      → Rotated p k c.per_commitment_seed c.our_side c'.our_side
        × ((d' : Channel) × (attach_channel_ready p point d ≡ ok d')
            × Agrees c'.our_side d'.their_side)
        × ((d' : Channel) × (attach_channel_ready p early_point d ≡ ok d')
            × (d'.their_side.next_commitment_point ≡ c.our_side.next_commitment_point)
            × (¬ Agrees c.our_side d'.their_side))
  unfolding attached next
  attach_channel_ready-Agrees id point early_id early_point view revoked message valid early
        early_valid =
      let rotated = revoke-Rotated p k c c' revoked in
      let (n, _, _, before, number, kept, further, _, _, _) = rotated in
      (
        rotated,
        (
          attached d n point,
          attach-attached p d n point (view.next_number ∙ before) valid,
          record {
            number = sym number;
            point = view.next_point ∙ sym kept;
            next_number = sym further;
            next_point = sym (message-point c' id point message);
          },
        ),
        (
          attached d n early_point,
          attach-attached p d n early_point (view.next_number ∙ before) early_valid,
          sym (message-point c early_id early_point early),
          λ agrees. number_ahead n (agrees.next_number ∙ before),
        ),
      )
