-- ===== src/Bitcoin/OpCodes.antt =====
-- packages/bitcoin/lib/OpCodes.ts: the codes that the scripts modelled use.
use node_lightning.Common.{ℕ}

abbrev pub op_0 : ℕ
op_0 = 0x00

abbrev pub op_pushdata1 : ℕ
op_pushdata1 = 0x4c

abbrev pub op_pushdata2 : ℕ
op_pushdata2 = 0x4d

abbrev pub op_2 : ℕ
op_2 = 0x52

abbrev pub op_if : ℕ
op_if = 0x63

abbrev pub op_notif : ℕ
op_notif = 0x64

abbrev pub op_else : ℕ
op_else = 0x67

abbrev pub op_endif : ℕ
op_endif = 0x68

abbrev pub op_drop : ℕ
op_drop = 0x75

abbrev pub op_dup : ℕ
op_dup = 0x76

abbrev pub op_swap : ℕ
op_swap = 0x7c

abbrev pub op_size : ℕ
op_size = 0x82

abbrev pub op_equal : ℕ
op_equal = 0x87

abbrev pub op_equalverify : ℕ
op_equalverify = 0x88

abbrev pub op_hash160 : ℕ
op_hash160 = 0xa9

abbrev pub op_checksig : ℕ
op_checksig = 0xac

abbrev pub op_checkmultisig : ℕ
op_checkmultisig = 0xae

abbrev pub op_checklocktimeverify : ℕ
op_checklocktimeverify = 0xb1

abbrev pub op_checksequenceverify : ℕ
op_checksequenceverify = 0xb2
