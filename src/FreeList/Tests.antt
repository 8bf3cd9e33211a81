-- ===== src/FreeList/Tests.antt =====
-- src/free_list.rs, runs of the codec, and the theorems at them.
use mimalloc_rs.Prelude.{ℕ, ◌-◌, ◌^◌, ◌≡◌, refl, ◌≢◌, ◌↔◌, ◌⊎◌, arith}
use mimalloc_rs.FreeList.{Keys, mi_rotl, encode, decode}
use mimalloc_rs.FreeList.Codec.{AreKeys, decode-encode_iff}

abbrev keys : Keys
keys = record { key0 = 3; key1 = 5 }

keys-AreKeys : AreKeys keys
keys-AreKeys = record { word0 = omega arith; word1 = omega arith }

-- Keys for which the pointer 16 is encoded as 0.
abbrev bad_keys : Keys
bad_keys = record { key0 = 2 ^ 64 - 64; key1 = 80 }

abbrev pointer : ℕ
pointer = 16

encode_run : encode 16 keys ≡ 171
unfolding encode mi_rotl
encode_run = refl

encode_zero : encode 16 bad_keys ≡ 0
unfolding encode mi_rotl
encode_zero = refl

decode-encode_iff_example :
    ((decode (encode 16 bad_keys) bad_keys ≡ 16) ↔ ((pointer ≡ 0) ⊎ (encode 16 bad_keys ≢ 0)))
    × (encode 16 bad_keys ≡ 0 → decode (encode 16 bad_keys) bad_keys ≡ 0)
decode-encode_iff_example =
    decode-encode_iff 16 bad_keys (record { word0 = omega arith; word1 = omega arith })
      (omega arith)
