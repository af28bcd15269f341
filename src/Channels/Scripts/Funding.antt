-- ===== src/Channels/Scripts/Funding.antt =====
-- The funding script of packages/lightning/lib/channels/ScriptFactory.ts is that of BOLT 3.
use node_lightning.Common.{
  ℕ, ◌<◌, ◌≡◌, ◌⊎◌, refl, sym, subst, ◌∙◌, true, false, inl, inr, List, [], ◌∷◌, ◌++◌, length, ok,
  arith,
}
use node_lightning.Bitcoin.Script.{Script, Primitives, serialize_cmds, read_cmds}
use node_lightning.Bitcoin.Script.Locks.{p2ms_lock}
use node_lightning.Bitcoin.Script.MultiSig.{p2ms_bytes, p2ms_made}
use node_lightning.Channels.Scripts.{comes_after, sort_keys, funding_script}
use node_lightning.Channels.Scripts.Sizes.{comes_after_head, comes_after_head_gt, trichotomy, order}

-- The lexicographical order of bytes.
pub data InOrder : List ℕ → List ℕ → Type 0 where
  shorter : (b : List ℕ) → InOrder [] b
  less : (x y : ℕ) (a b : List ℕ) → x < y → InOrder (x ∷ a) (y ∷ b)
  same : (x : ℕ) (a b : List ℕ) → InOrder a b → InOrder (x ∷ a) (x ∷ b)

comes_after-InOrder : (a b : List ℕ) → comes_after a b ≡ false → InOrder a b
comes_after-InOrder [] b h = shorter b
comes_after-InOrder (x ∷ a) [] h = absurd (unfold comes_after in cc h)
comes_after-InOrder (x ∷ a) (y ∷ b) h = elim (trichotomy x y) [
  | inl below ↦ less x y a b below
  | inr (inl above) ↦ cc (h, comes_after_head_gt x y a b above)
  | inr (inr e) ↦
      let h' : comes_after (x ∷ a) (x ∷ b) ≡ false =
        subst (λ z. comes_after (x ∷ a) (z ∷ b) ≡ false) (sym e) h in
      subst (λ z. InOrder (x ∷ a) (z ∷ b)) e
        (same x a b (comes_after-InOrder a b (sym (comes_after_head x a b) ∙ h')))
]

-- Two keys, in their order.
abbrev pub Sorted : (a b low high : List ℕ) → Type 0
Sorted a b low high = (((low ≡ a) × (high ≡ b)) ⊎ ((low ≡ b) × (high ≡ a))) × InOrder low high

sort_keys-InOrder :
    (a b : List ℕ)
    → ((sort_keys a b ≡ a ∷ b ∷ []) × InOrder a b) ⊎ ((sort_keys a b ≡ b ∷ a ∷ []) × InOrder b a)
unfolding sort_keys
sort_keys-InOrder a b = elim (order a b) [
  | inl (e, f) ↦ inr (rw e refl, comes_after-InOrder b a f)
  | inr (inl (e, f)) ↦ inl (rw e refl, comes_after-InOrder a b e)
  | inr (inr (e, f)) ↦ inl (rw f refl, comes_after-InOrder a b f)
]

abbrev pub funding_bytes : (low high : List ℕ) → List ℕ
funding_bytes low high = 82 ∷ 33 ∷ (low ++ 33 ∷ (high ++ 82 ∷ 174 ∷ []))

module _ (p : Primitives) where
  two_of_two :
      (low high : List ℕ)
      → p.valid_public_key low ≡ true
      → p.valid_public_key high ≡ true
      → length low ≡ 33
      → length high ≡ 33
      → (script : Script) × (p2ms_lock p 2 (low ∷ high ∷ []) ≡ ok script)
        × (serialize_cmds script ≡ ok (funding_bytes low high))
        × (read_cmds (funding_bytes low high) ≡ ok script)
  two_of_two low high valid_low valid_high size_low size_high =
      let keys : List (List ℕ) = low ∷ high ∷ [] in
      let (script, e, bytes, back) =
        p2ms_made p 2 keys (valid_low, (valid_high, tt)) (omega arith) (omega arith)
          (omega arith) in
      let same_bytes : p2ms_bytes 2 keys ≡ funding_bytes low high = rw (size_low, size_high) refl in
      (
        script,
        e,
        subst (λ bs. serialize_cmds script ≡ ok bs) same_bytes bytes,
        subst (λ bs. read_cmds bs ≡ ok script) same_bytes back,
      )

  -- Of two public keys of 33 bytes, the funding script asks for the signatures of both, with the keys in
  -- their lexicographical order: it is serialized to the opcode 82, each key behind its length 33, and
  -- the opcodes 82 and 174, and is read back.
  pub funding_script-bytes :
      (open_pub_key accept_pub_key : List ℕ)
      → p.valid_public_key open_pub_key ≡ true
      → p.valid_public_key accept_pub_key ≡ true
      → length open_pub_key ≡ 33
      → length accept_pub_key ≡ 33
      → (low high : List ℕ) × Sorted open_pub_key accept_pub_key low high
        × (script : Script) × (funding_script p open_pub_key accept_pub_key ≡ ok script)
        × (serialize_cmds script ≡ ok (funding_bytes low high))
        × (read_cmds (funding_bytes low high) ≡ ok script)
  unfolding funding_script
  funding_script-bytes a b valid_a valid_b size_a size_b = elim (sort_keys-InOrder a b) [
    | inl (e, in_order) ↦
        let (script, made, bytes, back) = two_of_two a b valid_a valid_b size_a size_b in
        (a, b, (inl (refl, refl), in_order), script, rw e made, bytes, back)
    | inr (e, in_order) ↦
        let (script, made, bytes, back) = two_of_two b a valid_b valid_a size_b size_a in
        (b, a, (inr (refl, refl), in_order), script, rw e made, bytes, back)
  ]
