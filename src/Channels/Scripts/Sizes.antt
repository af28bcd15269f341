-- ===== src/Channels/Scripts/Sizes.antt =====
-- The funding script names both sides alike, and the sizes of the HTLC scripts are those of BOLT 3.
use node_lightning.Common.{
  ℕ, ◌⊎◌, subst, ltb→lt, ◌+◌, ◌^◌, ◌<◌, ◌≡◌, refl, ap, ◌∙◌, true, false, ltb, Bool-cases, inl, inr,
  List, [], ◌∷◌, length, arith,
}
use node_lightning.Bitcoin.Stack.{pos, num_bytes, sign_bytes, encode_num}
use node_lightning.Bitcoin.Script.{push, Primitives}
use node_lightning.Bitcoin.Script.Locks.{number}
use node_lightning.Bitcoin.Script.RoundTrip.{IsPlain}
use node_lightning.Bitcoin.Script.Numbers.{number-IsPlain}
use node_lightning.Bitcoin.Script.Size.{cmd_size}
use node_lightning.Bitcoin.Script.Standard.{Serializes, plain-size}
use node_lightning.Channels.Scripts.{
  comes_after, sort_keys, funding_script, to_local_script, offered_htlc_script,
  received_htlc_script,
}

comes_after_head_lt : (x y : ℕ) (a b : List ℕ) → x < y → comes_after (x ∷ a) (y ∷ b) ≡ false
unfolding comes_after
comes_after_head_lt x y a b h = ground arith

pub comes_after_head_gt : (x y : ℕ) (a b : List ℕ) → y < x → comes_after (x ∷ a) (y ∷ b) ≡ true
unfolding comes_after
comes_after_head_gt x y a b h = ground arith

pub trichotomy : (x y : ℕ) → (x < y) ⊎ (y < x) ⊎ (x ≡ y)
trichotomy x y = elim (Bool-cases (ltb x y)) [
  | inl less ↦ inl (ltb→lt x y less)
  | inr h ↦ elim (Bool-cases (ltb y x)) [
    | inl more ↦ inr (inl (ltb→lt y x more))
    | inr k ↦ inr (inr (ground arith))
  ]
]

-- Either of two keys comes after the other one, or they are equal.
abbrev pub Order : List ℕ → List ℕ → Type 0
Order a b =
    ((comes_after a b ≡ true) × (comes_after b a ≡ false))
    ⊎ ((comes_after a b ≡ false) × (comes_after b a ≡ true))
    ⊎ ((a ≡ b) × (comes_after a b ≡ false))

pub comes_after_head : (x : ℕ) (a b : List ℕ) → comes_after (x ∷ a) (x ∷ b) ≡ comes_after a b
unfolding comes_after
comes_after_head x a b = ground arith

Order-cons : (x : ℕ) (a b : List ℕ) → Order a b → Order (x ∷ a) (x ∷ b)
Order-cons x a b (inl (e, f)) = inl (comes_after_head x a b ∙ e, comes_after_head x b a ∙ f)
Order-cons x a b (inr (inl (e, f))) =
    inr (inl (comes_after_head x a b ∙ e, comes_after_head x b a ∙ f))
Order-cons x a b (inr (inr (e, f))) = inr (inr (ap (λ l. x ∷ l) e, comes_after_head x a b ∙ f))

pub order : (a b : List ℕ) → Order a b
order [] [] = inr (inr (refl, unfold comes_after in refl))
order [] (y ∷ b) = inr (inl (unfold comes_after in refl, unfold comes_after in refl))
order (x ∷ a) [] = inl (unfold comes_after in refl, unfold comes_after in refl)
order (x ∷ a) (y ∷ b) = elim (trichotomy x y) [
  | inl less ↦ inr (inl (comes_after_head_lt x y a b less, comes_after_head_gt y x b a less))
  | inr (inl more) ↦ inl (comes_after_head_gt x y a b more, comes_after_head_lt y x b a more)
  | inr (inr same) ↦ subst (λ z. Order (x ∷ a) (z ∷ b)) same (Order-cons x a b (order a b))
]

-- Sorting two keys does not depend on their order.
sort_keys_comm : (a b : List ℕ) → sort_keys a b ≡ sort_keys b a
unfolding sort_keys
sort_keys_comm a b = elim (order a b) [
  | inl (e, f) ↦ rw (e, f) refl
  | inr (inl (e, f)) ↦ rw (e, f) refl
  | inr (inr (e, f)) ↦ rw e refl
]

module _ (p : Primitives) where
  -- Both sides make the same funding script, whichever of them opened the channel.
  pub funding_script_comm :
      (open_pub_key accept_pub_key : List ℕ)
      → funding_script p open_pub_key accept_pub_key ≡ funding_script p accept_pub_key open_pub_key
  unfolding funding_script
  funding_script_comm a b = rw (sort_keys_comm a b) refl

  number_32 : number (pos 32) ≡ push (32 ∷ [])
  unfolding number encode_num num_bytes sign_bytes
  number_32 = refl

  -- With keys in their 33 bytes, the script of an offered HTLC is serialized in 133 bytes, from which it
  -- is read.
  pub offered_htlc_script-size :
      (payment_hash revocation_pub_key local_htlc_pub_key remote_htlc_pub_key : List ℕ)
      → length local_htlc_pub_key ≡ 33
      → length remote_htlc_pub_key ≡ 33
      → Serializes
          (offered_htlc_script p payment_hash revocation_pub_key local_htlc_pub_key
            remote_htlc_pub_key)
          133
  unfolding offered_htlc_script
  offered_htlc_script-size h r l m el em =
      plain-size _ 133 (ground (arith, p.length-hash160 r, p.length-ripemd160 h, number_32))
        (ground (arith, p.length-hash160 r, p.length-ripemd160 h, number_32))

  -- With keys in their 33 bytes and an expiry below 2 ^ 32, the script of a received HTLC is serialized
  -- in 135 bytes and those of the number of its expiry, from which it is read.
  pub received_htlc_script-size :
      (payment_hash : List ℕ) (cltv_expiry : ℕ)
      (revocation_pub_key local_htlc_pub_key remote_htlc_pub_key : List ℕ)
      → cltv_expiry < 2 ^ 32
      → length local_htlc_pub_key ≡ 33
      → length remote_htlc_pub_key ≡ 33
      → Serializes
          (received_htlc_script p payment_hash cltv_expiry revocation_pub_key local_htlc_pub_key
            remote_htlc_pub_key)
          (135 + cmd_size (number (pos cltv_expiry)))
  unfolding received_htlc_script
  received_htlc_script-size h c r l m small el em =
      let expiry : IsPlain (number (pos c)) = number-IsPlain c small in
      plain-size _ (135 + cmd_size (number (pos c)))
        (ground (arith, p.length-hash160 r, p.length-ripemd160 h, number_32))
        (ground (arith, p.length-hash160 r, p.length-ripemd160 h, number_32))

-- The script of a delayed output, with keys in their 33 bytes, takes 74 bytes and those of the delay.
pub to_local_script-size :
    (revocation_pub_key delayed_pub_key : List ℕ) (to_self_delay : ℕ)
    → to_self_delay < 2 ^ 32
    → length revocation_pub_key ≡ 33
    → length delayed_pub_key ≡ 33
    → Serializes
        (to_local_script revocation_pub_key delayed_pub_key to_self_delay)
        (74 + cmd_size (number (pos to_self_delay)))
unfolding to_local_script
to_local_script-size r d delay small er ed =
    let plain : IsPlain (number (pos delay)) = number-IsPlain delay small in
    plain-size _ (74 + cmd_size (number (pos delay))) (ground arith) (ground arith)
