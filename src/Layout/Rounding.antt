-- ===== src/Layout/Rounding.antt =====
-- src/layout.rs, what rounding gives.
use native.Mathlib.Nat.{div-mul-le_self, lt-div-mul-add}
use mimalloc_rs.Prelude.{
  ℕ, zero, suc, ◌+◌, ◌-◌, ◌*◌, ◌/◌, ◌^◌, ◌≤◌, ◌<◌, max, bit_and, ◌≡◌, refl, sym, inl, inr, true,
  arith, ltb, ◌==◌, Bool-cases, if◌then◌else◌, subst,
}
use mimalloc_rs.Word.{complement, wrapping_add}
use mimalloc_rs.Layout.{is_power_of_two, align_up, align_down, good_size, intptr_size}
use mimalloc_rs.Layout.Powers.{is_power_of_two-power, bit_and-complement_mask}

-- Rounding down keeps a word within one alignment, at a multiple.
record RoundsDown (sz alignment r : ℕ) : Type 0 where
  pub low : r ≤ sz
  pub near : sz < r + alignment
  pub aligned : (q : ℕ) × (r ≡ q * alignment)

div-RoundsDown : (sz a : ℕ) → 1 ≤ a → RoundsDown sz a (sz / a * a)
div-RoundsDown sz a pos = record {
  low = div-mul-le_self sz a;
  near = lt-div-mul-add pos;
  aligned = (sz / a, refl);
}

mask-eq :
    (x a : ℕ)
    → x < 2 ^ 64
    → 1 ≤ a
    → a < 2 ^ 64
    → is_power_of_two a ≡ true
    → bit_and x (complement (a - 1)) ≡ x / a * a
mask-eq x a hx pos small h =
    let (k, e) = is_power_of_two-power a pos small h in
    subst (λ z. bit_and x (complement (z - 1)) ≡ x / z * z) (sym e)
      (bit_and-complement_mask k x hx (omega (arith, e)))

pub align_down-eq : (sz a : ℕ) → sz < 2 ^ 64 → 1 ≤ a → a < 2 ^ 64 → align_down sz a ≡ sz / a * a
unfolding align_down
align_down-eq sz a hs pos small = elim (Bool-cases (is_power_of_two a)) [
  | inl h ↦ rw h (mask-eq sz a hs pos small h)
  | inr h ↦ rw h refl
]

pub align_up-eq :
    (sz a : ℕ) → 1 ≤ a → sz + a ≤ 2 ^ 64 → a < 2 ^ 64 → align_up sz a ≡ (sz + (a - 1)) / a * a
unfolding align_up
align_up-eq sz a pos fits small =
    let e : wrapping_add sz (a - 1) ≡ sz + (a - 1) = omega arith in
    elim (Bool-cases (is_power_of_two a)) [
      | inl h ↦ rw (h, e) (mask-eq (sz + (a - 1)) a (omega arith) pos small h)
      | inr h ↦ rw (h, e) refl
    ]

-- For every alignment, a power of two or not, and every size that does not pass the end of the
-- address space when it is rounded: `align_up` is the least multiple of the alignment from the size
-- on, and `align_down` the greatest one up to it.
pub align_lem :
    (sz a : ℕ)
    → 1 ≤ a
    → a < 2 ^ 64
    → sz + a ≤ 2 ^ 64
    → (sz ≤ align_up sz a)
      × (align_up sz a < sz + a)
      × ((q : ℕ) × (align_up sz a ≡ q * a))
      × (align_down sz a ≤ sz)
      × (sz < align_down sz a + a)
      × ((q : ℕ) × (align_down sz a ≡ q * a))
align_lem sz a pos small fits =
    let up = align_up-eq sz a pos fits small in
    let down = align_down-eq sz a (omega arith) pos small in
    let u = div-RoundsDown (sz + (a - 1)) a pos in
    let d = div-RoundsDown sz a pos in
    (
      omega (arith, up, u.near),
      omega (arith, up, u.low, pos),
      ((sz + (a - 1)) / a, up),
      omega (arith, down, d.low),
      omega (arith, down, d.near),
      (sz / a, down),
    )

-- `good_size` gives at least the size asked for, at least a word, and a multiple of the alignment,
-- if rounding does not pass the end of the address space.
pub good_size_lem :
    (size align : ℕ)
    → max size 8 + max align 8 ≤ 2 ^ 64
    → (size ≤ good_size size align)
      × (8 ≤ good_size size align)
      × ((q : ℕ) × (good_size size align ≡ q * max align 8))
unfolding good_size
good_size_lem size align fits =
    let e : (if ltb align intptr_size then intptr_size else align) ≡ max align 8 = ground arith in
    let s = if size == 0 then intptr_size else size in
    let big : s ≤ max size 8 = ground arith in
    let pos : 1 ≤ s = ground arith in
    let covers : size ≤ s = ground arith in
    let r = align_lem s (max align 8) (omega arith) (omega arith) (omega (arith, fits, big)) in
    let (q, eq) = r.2 in
    let whole : 8 ≤ align_up s (max align 8) =
      at_least q (align_up s (max align 8)) (max align 8) eq (omega (arith, r, pos))
        (omega arith) in
    rw e (omega (arith, r, covers), whole, (q, eq))
  where
    at_least : (q r a : ℕ) → r ≡ q * a → 1 ≤ r → 8 ≤ a → 8 ≤ r
    at_least zero r a h pos le = absurd (omega arith)
    at_least (suc q) r a h pos le = ground arith
