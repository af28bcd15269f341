-- ===== src/Bitcoin/Script/MultiSig.antt =====
-- What the scripts of several keys are when they are serialized, and what is refused.
use node_lightning.Common.{
  subst, ℕ, ◌≤◌, ◌<◌, ◌≡◌, ◌⊎◌, refl, sym, ◌+◌, true, leb, ◌&&◌, if◌then◌else◌, Bool-cases, inl,
  inr, List, [], ◌∷◌, ◌++◌, map, length, ok, err, All, arith,
}
use node_lightning.Bitcoin.OpCodes.{op_checkmultisig}
use node_lightning.Bitcoin.Stack.{pos, encode_num, num_bytes, sign_bytes}
use node_lightning.Bitcoin.Script.{
  opcode, push, Script, pub_key_invalid, multi_sig_setup_invalid, Primitives, serialize_cmd,
  serialize_cmds, read_cmds,
}
use node_lightning.Bitcoin.Script.RoundTrip.{IsPlain}
use node_lightning.Bitcoin.Script.Numbers.{number-IsPlain}
use node_lightning.Bitcoin.Script.Standard.{reads-back}
use node_lightning.Bitcoin.Script.Locks.{number, assert_valid_pub_key, assert_pub_keys, p2ms_lock}

-- The bytes of a small number: those of its opcode, or a push of it.
abbrev pub number_code : ℕ → List ℕ
number_code n = if leb n 16 then (80 + n) ∷ [] else 1 ∷ n ∷ []

abbrev pub key_pushes : List (List ℕ) → List ℕ → List ℕ
key_pushes [] bytes = bytes
key_pushes (key ∷ keys) bytes = length key ∷ key ++ key_pushes keys bytes

abbrev pub p2ms_bytes : ℕ → List (List ℕ) → List ℕ
p2ms_bytes m keys = number_code m ++ key_pushes keys (number_code (length keys) ++ 174 ∷ [])

push_short :
    (bs : List ℕ) → 1 ≤ length bs → length bs ≤ 75 → serialize_cmd (push bs) ≡ ok (length bs ∷ bs)
unfolding serialize_cmd
push_short bs low high = ground arith

abbrev Coded : ℕ → Type 0
Coded n = serialize_cmd (number (pos n)) ≡ ok (number_code n)

small-Coded : (n : ℕ) → 1 ≤ n → n ≤ 16 → Coded n
unfolding number serialize_cmd
small-Coded n low high = ground arith

pushed-Coded : (n : ℕ) → 17 ≤ n → n ≤ 20 → Coded n
unfolding number serialize_cmd encode_num num_bytes sign_bytes
pushed-Coded n low high =
    let which : (n ≡ 17) ⊎ (n ≡ 18) ⊎ (n ≡ 19) ⊎ (n ≡ 20) = ground arith in
    elim which [
      | inl e ↦ subst Coded (sym e) refl
      | inr (inl e) ↦ subst Coded (sym e) refl
      | inr (inr (inl e)) ↦ subst Coded (sym e) refl
      | inr (inr (inr e)) ↦ subst Coded (sym e) refl
    ]

number-Coded : (n : ℕ) → 1 ≤ n → n ≤ 20 → Coded n
number-Coded n low high = elim (Bool-cases (leb n 16)) [
  | inl small ↦ small-Coded n low (ground arith)
  | inr large ↦ pushed-Coded n (ground arith) high
]

module _ (p : Primitives) where
  -- Every key is a public key.
  abbrev pub AllValid : List (List ℕ) → Type 0
  AllValid keys = All (λ key. p.valid_public_key key ≡ true) keys

  assert_pub_keys_valid : (keys : List (List ℕ)) → AllValid keys → assert_pub_keys p keys ≡ ok tt
  unfolding assert_pub_keys assert_valid_pub_key
  assert_pub_keys_valid [] h = refl
  assert_pub_keys_valid (key ∷ keys) (h, hs) = rw h (assert_pub_keys_valid keys hs)

  assert_pub_keys_invalid :
      (keys : List (List ℕ)) → ¬ AllValid keys → assert_pub_keys p keys ≡ err pub_key_invalid
  unfolding assert_pub_keys assert_valid_pub_key
  assert_pub_keys_invalid [] h = absurd (h tt)
  assert_pub_keys_invalid (key ∷ keys) h = elim (Bool-cases (p.valid_public_key key)) [
    | inl valid ↦ rw valid (assert_pub_keys_invalid keys (λ hs. h (valid, hs)))
    | inr invalid ↦ rw invalid refl
  ]

  keys-IsPlain :
      (keys : List (List ℕ)) (rest : Script)
      → AllValid keys
      → All IsPlain rest
      → All IsPlain (map push keys ++ rest)
  keys-IsPlain [] rest h hr = hr
  keys-IsPlain (key ∷ keys) rest (h, hs) hr =
      let size : (length key ≡ 33) ⊎ (length key ≡ 65) = p.length-valid key h in
      ((ground arith, ground arith), keys-IsPlain keys rest hs hr)

  -- Another number of keys, or another number of them to sign, is refused.
  p2ms_lock_wrong_numbers :
      (m : ℕ) (keys : List (List ℕ))
      → AllValid keys
      → (m ≡ 0) ⊎ (length keys < m) ⊎ (20 < length keys)
      → p2ms_lock p m keys ≡ err multi_sig_setup_invalid
  unfolding p2ms_lock
  p2ms_lock_wrong_numbers m keys valid wrong = rw (assert_pub_keys_valid keys valid) (ground arith)

  p2ms_lock_invalid_key :
      (m : ℕ) (keys : List (List ℕ)) → ¬ AllValid keys → p2ms_lock p m keys ≡ err pub_key_invalid
  unfolding p2ms_lock
  p2ms_lock_invalid_key m keys invalid = rw (assert_pub_keys_invalid keys invalid) refl

  AllValid-cases : (keys : List (List ℕ)) → AllValid keys ⊎ (¬ AllValid keys)
  AllValid-cases [] = inl tt
  AllValid-cases (key ∷ keys) = elim (Bool-cases (p.valid_public_key key)) [
    | inl valid ↦ elim (AllValid-cases keys) [
      | inl all ↦ inl (valid, all)
      | inr not_all ↦ inr (λ h. not_all h.1)
    ]
    | inr invalid ↦ inr (λ h. cc (invalid, h.0))
  ]

  key_pushes-bytes :
      (keys : List (List ℕ)) (rest : Script) (bytes : List ℕ)
      → AllValid keys
      → serialize_cmds rest ≡ ok bytes
      → serialize_cmds (map push keys ++ rest) ≡ ok (key_pushes keys bytes)
  unfolding serialize_cmds
  key_pushes-bytes [] rest bytes h e = e
  key_pushes-bytes (key ∷ keys) rest bytes (h, hs) e =
      let size : (length key ≡ 33) ⊎ (length key ≡ 65) = p.length-valid key h in
      let first : serialize_cmd (push key) ≡ ok (length key ∷ key) =
        push_short key (ground arith) (ground arith) in
      rw (first, key_pushes-bytes keys rest bytes hs e) refl

  pub p2ms_made :
      (m : ℕ) (keys : List (List ℕ))
      → AllValid keys
      → 1 ≤ m
      → m ≤ length keys
      → length keys ≤ 20
      → (script : Script) × (p2ms_lock p m keys ≡ ok script)
        × (serialize_cmds script ≡ ok (p2ms_bytes m keys))
        × (read_cmds (p2ms_bytes m keys) ≡ ok script)
  unfolding p2ms_lock serialize_cmds
  p2ms_made m keys valid low high few =
      let script : Script =
        number (pos m)
        ∷ (map push keys ++ number (pos (length keys)) ∷ opcode op_checkmultisig ∷ []) in
      let plain : All IsPlain script = (
        number-IsPlain m (omega arith),
        keys-IsPlain keys _ valid
            (number-IsPlain (length keys) (omega arith), ((inr (omega arith), omega arith), tt)),
      ) in
      let last : serialize_cmds (number (pos (length keys)) ∷ opcode op_checkmultisig ∷ [])
          ≡ ok (number_code (length keys) ++ 174 ∷ []) =
        rw (number-Coded (length keys) (omega arith) few) refl in
      let made : serialize_cmds script ≡ ok (p2ms_bytes m keys) =
        rw (number-Coded m low (omega arith), key_pushes-bytes keys _ _ valid last) refl in
      (
        script,
        rw (assert_pub_keys_valid keys valid) (ground arith),
        made,
        reads-back script (p2ms_bytes m keys) plain made,
      )

  -- A script that asks for `m` signatures of some keys is made exactly of at most 20 public keys, with `m`
  -- at least one and at most their number. It is serialized to the number `m`, each key behind its
  -- length, their number and the opcode 174, and is read back. Other numbers and other keys are refused.
  pub p2ms_lock-bytes :
      (m : ℕ) (keys : List (List ℕ))
      → (AllValid keys
          × (1 ≤ m)
          × (m ≤ length keys)
          × (length keys ≤ 20)
          × ((script : Script) × (p2ms_lock p m keys ≡ ok script)
              × (serialize_cmds script ≡ ok (p2ms_bytes m keys))
              × (read_cmds (p2ms_bytes m keys) ≡ ok script)))
        ⊎ (AllValid keys
            × ((m ≡ 0) ⊎ (length keys < m) ⊎ (20 < length keys))
            × (p2ms_lock p m keys ≡ err multi_sig_setup_invalid))
        ⊎ ((¬ AllValid keys) × (p2ms_lock p m keys ≡ err pub_key_invalid))
  p2ms_lock-bytes m keys = elim (AllValid-cases keys) [
    | inl valid ↦ elim (Bool-cases (leb 1 m && leb m (length keys) && leb (length keys) 20)) [
      | inl right ↦
          let low : 1 ≤ m = ground arith in
          let high : m ≤ length keys = ground arith in
          let few : length keys ≤ 20 = ground arith in
          inl (valid, low, high, few, p2ms_made m keys valid low high few)
      | inr e ↦
          let wrong : (m ≡ 0) ⊎ (length keys < m) ⊎ (20 < length keys) = ground arith in
          inr (inl (valid, wrong, p2ms_lock_wrong_numbers m keys valid wrong))
    ]
    | inr invalid ↦ inr (inr (invalid, p2ms_lock_invalid_key m keys invalid))
  ]
