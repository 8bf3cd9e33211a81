-- ===== src/FreeList/Codec.antt =====
-- src/free_list.rs, what is written as a link is read back.
use mimalloc_rs.Prelude.{
  ℕ, ◌-◌, ◌%◌, ◌^◌, ◌<◌, bit_and, bit_xor, ◌≡◌, refl, ◌≢◌, ◌⊎◌, ◌↔◌, inl, inr, Bool, true, false,
  arith, ◌==◌, Bool-cases,
}
use mimalloc_rs.Word.{wrapping_add, wrapping_sub}
use mimalloc_rs.Word.Rotate.{
  bit_and-ones, bit_xor_undo, bit_xor-lt, rotate_right-rotate_left, rotate_left-lt,
}
use mimalloc_rs.FreeList.{Keys, mi_rotl, mi_rotr, encode, decode, Memory, next, set_next}

pub record AreKeys (k : Keys) : Type 0 where
  pub word0 : k.key0 < 2 ^ 64
  pub word1 : k.key1 < 2 ^ 64

pub mi_rotr-mi_rotl : (x r : ℕ) → x < 2 ^ 64 → mi_rotr (mi_rotl x r) r ≡ x
unfolding mi_rotl mi_rotr
mi_rotr-mi_rotl x r h =
    let e : bit_and r (64 - 1) ≡ r % 64 = bit_and-ones 6 r in
    rw e (rotate_right-rotate_left x (r % 64) h (omega arith))

mi_rotl-lt : (x r : ℕ) → x < 2 ^ 64 → mi_rotl x r < 2 ^ 64
unfolding mi_rotl
mi_rotl-lt x r h =
    let e : bit_and r (64 - 1) ≡ r % 64 = bit_and-ones 6 r in
    rw e (rotate_left-lt x (r % 64) h (omega arith))

decode-encode_zero : (p : ℕ) (k : Keys) → encode p k ≡ 0 → decode (encode p k) k ≡ 0
unfolding decode
decode-encode_zero p k e = rw e refl

decode-encode :
    (p : ℕ) (k : Keys)
    → AreKeys k
    → p < 2 ^ 64
    → (p ≡ 0) ⊎ (encode p k ≢ 0)
    → decode (encode p k) k ≡ p
unfolding decode encode
decode-encode p k are h ok = elim (Bool-cases (p == 0)) [
  | inl e ↦ let z : p ≡ 0 = ground arith in rw z
  | inr e ↦
      let x = bit_xor p k.key1 in
      let y = mi_rotl (bit_xor p k.key1) k.key0 in
      let small : y < 2 ^ 64 = mi_rotl-lt x k.key0 (bit_xor-lt p k.key1 h are.word1) in
      let some_ : (wrapping_add (mi_rotl (bit_xor p k.key1) k.key0) k.key0 == 0) ≡ false =
        ground arith in
      let back : wrapping_sub (wrapping_add (mi_rotl (bit_xor p k.key1) k.key0) k.key0) k.key0 ≡ y =
        omega (arith, are.word0) in
      rw (e, some_, back, mi_rotr-mi_rotl x k.key0 (bit_xor-lt p k.key1 h are.word1))
        (bit_xor_undo p k.key1)
]

-- Decoding undoes encoding for the null pointer and for the 64-bit pointers that are not encoded as
-- the word 0, for every pair of 64-bit keys, and for no other: a pointer encoded as 0 is read as
-- null.
pub decode-encode_iff :
    (p : ℕ) (k : Keys)
    → AreKeys k
    → p < 2 ^ 64
    → ((decode (encode p k) k ≡ p) ↔ ((p ≡ 0) ⊎ (encode p k ≢ 0)))
      × (encode p k ≡ 0 → decode (encode p k) k ≡ 0)
decode-encode_iff p k are h = (
  (
    λ e. elim (Bool-cases (p == 0)) [
      | inl z ↦ inl (ground arith)
      | inr nz ↦ inr (λ z. ground (arith, decode-encode_zero p k z))
    ],
    decode-encode p k are h,
  ),
  decode-encode_zero p k,
)

-- In every build a link is read back as it was written, unless a hardened build encodes a
-- non-null pointer as 0, and no other block is touched.
pub next-set_next :
    (hardened : Bool) (k : Keys) (mem : Memory) (block p : ℕ)
    → (hardened ≡ false) ⊎ (AreKeys k × (p < 2 ^ 64) × ((p ≡ 0) ⊎ (encode p k ≢ 0)))
    → (next hardened k (set_next hardened k mem block p) block ≡ p)
      × ((q : ℕ)
          → q ≢ block
          → next hardened k (set_next hardened k mem block p) q ≡ next hardened k mem q)
unfolding next set_next
next-set_next false k mem block p ok = (ground arith, λ q ne. ground arith)
next-set_next true k mem block p (inl e) = cc
next-set_next true k mem block p (inr (are, h, ok)) =
    (ground (arith, decode-encode p k are h ok), λ q ne. ground arith)
