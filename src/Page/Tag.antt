-- ===== src/Page/Tag.antt =====
-- src/page.rs, the ownership tag in a head word.
use mimalloc_rs.Prelude.{
  ℕ, ◌+◌, ◌*◌, ◌/◌, ◌%◌, ◌^◌, bit_and, bit_or, ◌<◌, ◌≡◌, ap, true, false, arith, ◌==◌,
}
use mimalloc_rs.Word.{complement}
use mimalloc_rs.Word.Step.{bit_and_step, bit_or_step}
use mimalloc_rs.Word.Rotate.{bit_and-ones, bit_or-zero}
use mimalloc_rs.Page.{tf_block, tf_is_owned, tf_create}

pub tf_block-even : (tf : ℕ) → tf < 2 ^ 64 → tf_block tf ≡ tf / 2 * 2
unfolding tf_block
tf_block-even tf h = omega (arith, bit_and_step tf (complement 1), bit_and-ones 63 (tf / 2))

pub tf_is_owned-odd : (tf : ℕ) → tf_is_owned tf ≡ (tf % 2 == 1)
unfolding tf_is_owned
tf_is_owned-odd tf = let e : bit_and tf 1 ≡ tf % 2 = bit_and-ones 1 tf in rw e (ground arith)

pub tf_create-owned : (b : ℕ) → b < 2 ^ 64 → tf_create b true ≡ b / 2 * 2 + 1
unfolding tf_create
tf_create-owned b h =
    let e : bit_and b (complement 1) ≡ b / 2 * 2 =
      omega (arith, bit_and_step b (complement 1), bit_and-ones 63 (b / 2)) in
    rw e (
      omega (
        arith,
        bit_or_step (b / 2 * 2) 1,
        ap (λ z. bit_or z 0) (let q : b / 2 * 2 / 2 ≡ b / 2 = omega arith in q),
        bit_or-zero (b / 2),
      ))

pub tf_create-unowned : (b : ℕ) → b < 2 ^ 64 → tf_create b false ≡ b / 2 * 2
unfolding tf_create
tf_create-unowned b h = omega (
  arith,
  bit_and_step b (complement 1),
  bit_and-ones 63 (b / 2),
  bit_or-zero (bit_and b (complement 1)),
)
