-- ===== src/Examples/Machine.antt =====
-- Runs of the state machine of a channel, packages/lightning/lib/channels.
use node_lightning.Common.{ℕ, inl, inr, arith, ◌≡◌, refl, true, List, [], ◌∷◌, replicate, some, ok}
use node_lightning.Bitcoin.Transaction.{new_tx}
use node_lightning.Channels.Side.{new_side}
use node_lightning.Channels.Channel.{Channel, new_channel, ready_height}
use node_lightning.Channels.Channel.Rotation.{attached}
use node_lightning.Channels.Machine.{state_id}
use node_lightning.Channels.Machine.Transitions.{
  funding_awaiting_funding_depth, channel_normal, id_names, Block, block, channel_ready,
  funding_awaiting_channel_ready, World, Logic, reached,
}
use node_lightning.Channels.Machine.Manager.{Managed, find_state, dispatch, Reach, start, step}
use node_lightning.Channels.Machine.Found.{state_at, find_state_total}
use node_lightning.Channels.Machine.Sent.{KeepsPoint, Reach-KeepsPoint}
use node_lightning.Channels.Machine.Opened.{sent_world, saved_world, in_state, dispatch_normal}
use node_lightning.Examples.Primitives.{toy}

abbrev key : List ℕ
key = replicate 33 2

-- Logic that accepts every message.
abbrev trusting : Logic
trusting = record {
  validate_accept_channel = λ c msg. true;
  create_funding_tx = λ c. replicate 32 1;
  create_remote_commitment_tx = λ c. ok new_tx;
  sign_commitment_tx = λ c tx. 5 ∷ [];
  validate_funding_signed = λ c s. true;
  validate_channel_ready = λ c point. true;
}

abbrev waiting : Channel
unfolding new_channel new_side
waiting = record (new_channel true) {
  channel_id = some (9 ∷ []);
  minimum_depth = some 3;
  funding_confirmed_height = some 100;
  our_side = record new_side { next_commitment_point = some key };
  their_side = record new_side {
    next_commitment_number = some 0;
    next_commitment_point = some key;
  };
}

abbrev world : World
world = record { chan = waiting; effects = [] }

abbrev managed : Managed
managed = record {
  world = world;
  state = some (state_at toy trusting funding_awaiting_funding_depth);
}

abbrev third_block : Block
third_block = record { bip34_height = 102; txs = [] }

deep : reached 102 (ready_height waiting) ≡ true
unfolding reached ready_height waiting new_channel
deep = refl

has_id : waiting.channel_id ≡ some (9 ∷ [])
unfolding waiting
has_id = refl

has_point : waiting.our_side.next_commitment_point ≡ some key
unfolding waiting
has_point = refl

has_number : waiting.their_side.next_commitment_number ≡ some 0
unfolding waiting
has_number = refl

find_state_total_example :
    (find_state toy trusting (id_names channel_normal)
      ≡ some (state_at toy trusting channel_normal))
    × (state_id (state_at toy trusting channel_normal) ≡ id_names channel_normal)
find_state_total_example = find_state_total toy trusting channel_normal

abbrev sent : World
sent = saved_world (sent_world world (9 ∷ []) key)

abbrev after_depth : Managed
after_depth = in_state toy trusting funding_awaiting_channel_ready sent

abbrev after_ready : Managed
after_ready =
    in_state toy trusting channel_normal
      (saved_world (record sent { chan = attached waiting 0 key }))

normal_at_last :
    (dispatch toy trusting (block third_block) managed ≡ ok after_depth)
    × (dispatch toy trusting (channel_ready key) after_depth ≡ ok after_ready)
normal_at_last =
    elim (dispatch_normal toy trusting world third_block (9 ∷ []) key key 0 deep has_id has_point
      has_number refl refl) [
        | inl (more, _) ↦ absurd (omega arith)
        | inr (_, both, after) ↦ (both, after)
      ]

becomes_normal : Reach toy trusting managed after_ready
becomes_normal =
    step (channel_ready key) (step (block third_block) start normal_at_last.0) normal_at_last.1

Reach-KeepsPoint_example : KeepsPoint toy trusting (some key) after_ready
Reach-KeepsPoint_example =
    Reach-KeepsPoint toy trusting (some key) managed after_ready
      ((has_point, tt), (funding_awaiting_funding_depth, refl)) becomes_normal
