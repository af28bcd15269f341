-- ===== src/Bitcoin/Script/Standard.antt =====
-- What the standard scripts are when they are serialized, and what is refused.
use node_lightning.Common.{
  subst, ℕ, ◌≡◌, ◌⊎◌, refl, sym, ap, ◌∙◌, true, ◌==◌, if◌then◌else◌, Bool-cases, ==_iff, inl, inr,
  List, [], ◌∷◌, ◌++◌, length, append-nil, length-append, Result, ok, err, All, arith,
}
use node_lightning.Bitcoin.Script.{
  opcode, push, Script, ScriptError, pub_key_invalid, hash160_invalid, hash256_invalid, Primitives,
  serialize_cmds, read_cmds,
}
use node_lightning.Bitcoin.Script.RoundTrip.{IsPlain, read_cmds-serialize_cmds}
use node_lightning.Bitcoin.Script.Size.{script_size, serialize_cmds-size}
use node_lightning.Bitcoin.Script.Locks.{
  assert_valid_pub_key, key_hash, p2pkh_lock, p2sh_lock, p2wpkh_lock, p2wsh_lock,
}

-- The script has a serialized form of that many bytes, from which it is read.
abbrev pub Serializes : Script → ℕ → Type 0
Serializes script n =
    (bytes : List ℕ) × (serialize_cmds script ≡ ok bytes)
    × (length bytes ≡ n)
    × (read_cmds bytes ≡ ok script)

pub plain-Serializes :
    (script : Script) → All IsPlain script → Serializes script (script_size script)
plain-Serializes script h =
    let (bytes, e, back) = read_cmds-serialize_cmds script h in
    let (counted, e', size) = serialize_cmds-size script h in
    let same : counted ≡ bytes = cc (e, e') in (bytes, e, ap length (sym same) ∙ size, back)

pub plain-size :
    (script : Script) (n : ℕ) → All IsPlain script → script_size script ≡ n → Serializes script n
plain-size script n h e = rw e at (plain-Serializes script h)

-- A script of plain commands is read back from what it is serialized to.
pub reads-back :
    (script : Script) (bytes : List ℕ)
    → All IsPlain script
    → serialize_cmds script ≡ ok bytes
    → read_cmds bytes ≡ ok script
reads-back script bytes h e =
    let (made, e', back) = read_cmds-serialize_cmds script h in
    let same : made ≡ bytes = cc (e, e') in subst (λ b. read_cmds b ≡ ok script) same back

-- The locks of a hash or a key.
pub data Lock : Type 0 where
  pay_to_pubkey_hash pay_to_witness_pubkey_hash pay_to_script_hash pay_to_witness_script_hash : Lock

abbrev pub lock_size : Lock → ℕ
lock_size pay_to_pubkey_hash = 25
lock_size pay_to_witness_pubkey_hash = 22
lock_size pay_to_script_hash = 23
lock_size pay_to_witness_script_hash = 34

abbrev pub hash_size : Lock → ℕ
hash_size pay_to_pubkey_hash = 20
hash_size pay_to_witness_pubkey_hash = 20
hash_size pay_to_script_hash = 20
hash_size pay_to_witness_script_hash = 32

-- The standard scripts of Bitcoin as commands, and as bytes.
abbrev pub lock_script : Lock → List ℕ → Script
lock_script pay_to_pubkey_hash hash =
    opcode 118 ∷ opcode 169 ∷ push hash ∷ opcode 136 ∷ opcode 172 ∷ []
lock_script pay_to_witness_pubkey_hash hash = opcode 0 ∷ push hash ∷ []
lock_script pay_to_script_hash hash = opcode 169 ∷ push hash ∷ opcode 135 ∷ []
lock_script pay_to_witness_script_hash hash = opcode 0 ∷ push hash ∷ []

abbrev pub lock_bytes : Lock → List ℕ → List ℕ
lock_bytes pay_to_pubkey_hash hash = 118 ∷ 169 ∷ 20 ∷ hash ++ 136 ∷ 172 ∷ []
lock_bytes pay_to_witness_pubkey_hash hash = 0 ∷ 20 ∷ hash
lock_bytes pay_to_script_hash hash = 169 ∷ 20 ∷ hash ++ 135 ∷ []
lock_bytes pay_to_witness_script_hash hash = 0 ∷ 32 ∷ hash

lock-IsPlain :
    (lock : Lock) (hash : List ℕ)
    → length hash ≡ hash_size lock
    → All IsPlain (lock_script lock hash)
lock-IsPlain pay_to_pubkey_hash hash size = ground arith
lock-IsPlain pay_to_witness_pubkey_hash hash size = ground arith
lock-IsPlain pay_to_script_hash hash size = ground arith
lock-IsPlain pay_to_witness_script_hash hash size = ground arith

lock_script-bytes :
    (lock : Lock) (hash : List ℕ)
    → length hash ≡ hash_size lock
    → serialize_cmds (lock_script lock hash) ≡ ok (lock_bytes lock hash)
unfolding serialize_cmds
lock_script-bytes pay_to_pubkey_hash hash size = rw size refl
lock_script-bytes pay_to_witness_pubkey_hash hash size = rw (size, append-nil hash) refl
lock_script-bytes pay_to_script_hash hash size = rw size refl
lock_script-bytes pay_to_witness_script_hash hash size = rw (size, append-nil hash) refl

length-lock_bytes :
    (lock : Lock) (hash : List ℕ)
    → length hash ≡ hash_size lock
    → length (lock_bytes lock hash) ≡ lock_size lock
length-lock_bytes pay_to_pubkey_hash hash size =
    omega (arith, length-append hash (136 ∷ 172 ∷ []), size)
length-lock_bytes pay_to_witness_pubkey_hash hash size = omega arith
length-lock_bytes pay_to_script_hash hash size = omega (arith, length-append hash (135 ∷ []), size)
length-lock_bytes pay_to_witness_script_hash hash size = omega arith

abbrev pub lock_error : Lock → ScriptError
lock_error pay_to_pubkey_hash = pub_key_invalid
lock_error pay_to_witness_pubkey_hash = pub_key_invalid
lock_error pay_to_script_hash = hash160_invalid
lock_error pay_to_witness_script_hash = hash256_invalid

-- The lock is made, and is the standard script.
abbrev pub Locked : Lock → List ℕ → Result ScriptError Script → Type 0
Locked lock hash made =
    (script : Script) × (made ≡ ok script)
    × (serialize_cmds script ≡ ok (lock_bytes lock hash))
    × (length (lock_bytes lock hash) ≡ lock_size lock)
    × (read_cmds (lock_bytes lock hash) ≡ ok script)

locked :
    (lock : Lock) (hash : List ℕ)
    → length hash ≡ hash_size lock
    → Locked lock hash (ok (lock_script lock hash))
locked lock hash size =
    let plain : All IsPlain (lock_script lock hash) = lock-IsPlain lock hash size in
    let made = lock_script-bytes lock hash size in
    (
      lock_script lock hash,
      refl,
      made,
      length-lock_bytes lock hash size,
      reads-back (lock_script lock hash) (lock_bytes lock hash) plain made,
    )

module _ (p : Primitives) where
  -- What the locks are made of.
  abbrev pub Takes : Lock → List ℕ → Type 0
  Takes pay_to_pubkey_hash value = (length value ≡ 20) ⊎ (p.valid_public_key value ≡ true)
  Takes pay_to_witness_pubkey_hash value = (length value ≡ 20) ⊎ (p.valid_public_key value ≡ true)
  Takes pay_to_script_hash value = length value ≡ 20
  Takes pay_to_witness_script_hash value = length value ≡ 32

  unfoldable pub lock_with : Lock → List ℕ → Result ScriptError Script
  lock_with pay_to_pubkey_hash = p2pkh_lock p
  lock_with pay_to_witness_pubkey_hash = p2wpkh_lock p
  lock_with pay_to_script_hash = p2sh_lock p
  lock_with pay_to_witness_script_hash = p2wsh_lock p

  -- What is locked to: the hash itself, or that of the key.
  abbrev pub locked_hash : Lock → List ℕ → List ℕ
  locked_hash pay_to_pubkey_hash value = if length value == 20 then value else p.hash160 value
  locked_hash pay_to_witness_pubkey_hash value =
      if length value == 20 then value else p.hash160 value
  locked_hash pay_to_script_hash value = value
  locked_hash pay_to_witness_script_hash value = value

  length-locked_hash : (value : List ℕ) → length (locked_hash pay_to_pubkey_hash value) ≡ 20
  length-locked_hash value = ground (arith, p.length-hash160 value)

  -- A key is hashed, and a hash is taken as it is.
  key_hash_cases :
      (value : List ℕ)
      → (Takes pay_to_pubkey_hash value
          × (key_hash p value ≡ ok (locked_hash pay_to_pubkey_hash value)))
        ⊎ ((¬ Takes pay_to_pubkey_hash value) × (key_hash p value ≡ err pub_key_invalid))
  unfolding key_hash assert_valid_pub_key
  key_hash_cases value = elim (Bool-cases (length value == 20)) [
    | inl hash ↦ inl (inl ((==_iff (length value) 20).0 hash), rw hash refl)
    | inr long ↦ elim (Bool-cases (p.valid_public_key value)) [
      | inl valid ↦ inl (inr valid, rw (long, valid) refl)
      | inr invalid ↦ inr (
        λ takes. elim takes [
          | inl size ↦ cc (long, (==_iff (length value) 20).1 size)
          | inr valid ↦ cc (valid, invalid)
        ],
        rw (long, invalid) refl,
      )
    ]
  ]

  -- A script that locks to a hash or to a key is made exactly of a hash of its size, or, where it locks to
  -- a key's hash, of a public key. It is the standard script: it is serialized to the standard 25, 22,
  -- 23 or 34 bytes, from which it is read back. What is not such a hash or key is refused.
  pub lock_with-bytes :
      (lock : Lock) (value : List ℕ)
      → (Takes lock value × Locked lock (locked_hash lock value) (lock_with lock value))
        ⊎ ((¬ Takes lock value) × (lock_with lock value ≡ err (lock_error lock)))
  unfolding lock_with p2pkh_lock p2wpkh_lock p2sh_lock p2wsh_lock
  lock_with-bytes pay_to_pubkey_hash value = elim (key_hash_cases value) [
    | inl (takes, e) ↦ inl (takes, rw e (locked pay_to_pubkey_hash _ (length-locked_hash value)))
    | inr (refused, e) ↦ inr (refused, rw e refl)
  ]
  lock_with-bytes pay_to_witness_pubkey_hash value = elim (key_hash_cases value) [
    | inl (takes, e) ↦
        inl (takes, rw e (locked pay_to_witness_pubkey_hash _ (length-locked_hash value)))
    | inr (refused, e) ↦ inr (refused, rw e refl)
  ]
  lock_with-bytes pay_to_script_hash value = elim (Bool-cases (length value == 20)) [
    | inl e ↦
        let size = (==_iff (length value) 20).0 e in
        inl (size, rw e (locked pay_to_script_hash value size))
    | inr e ↦ inr (λ size. cc (e, (==_iff (length value) 20).1 size), rw e refl)
  ]
  lock_with-bytes pay_to_witness_script_hash value = elim (Bool-cases (length value == 32)) [
    | inl e ↦
        let size = (==_iff (length value) 32).0 e in
        inl (size, rw e (locked pay_to_witness_script_hash value size))
    | inr e ↦ inr (λ size. cc (e, (==_iff (length value) 32).1 size), rw e refl)
  ]
