-- ===== src/Heap/Free/Dispatch.antt =====
-- src/heap.rs, the two ways of `free`.
use mimalloc_rs.Prelude.{
  ℕ, ◌+◌, ◌*◌, ◌/◌, ◌%◌, ◌^◌, ◌<◌, bit_and, bit_xor, ◌≡◌, sym, ap, ◌∙◌, ◌≢◌, inl, inr, Bool, true,
  false, arith, ◌==◌, if◌then◌else◌, Bool-cases,
}
use mimalloc_rs.Word.{complement}
use mimalloc_rs.Word.Step.{bit_xor_step}
use mimalloc_rs.Word.Bit.{bit, bit_ext, bit-bit_xor, bit-zero}
use mimalloc_rs.Word.Rotate.{bit_xor-lt}
use mimalloc_rs.Os.{System}
use mimalloc_rs.PageMap.{lookup}
use mimalloc_rs.Page.Flags.{IsWord, flag_mask, low_digits, high_digits}
use mimalloc_rs.Heap.Blocks.{recover_block_start, recover_block_start_lem}
use mimalloc_rs.Heap.Theap.{World}
use mimalloc_rs.Heap.Free.{free, free_cold, free_owned, free_shared}

-- The threads' part and the flags' part of the combined word.
xor_parts :
    (t x : ℕ) → t % 4 ≡ 0 → (bit_xor t x % 4 ≡ x % 4) × (bit_xor t x / 4 ≡ bit_xor (t / 4) (x / 4))
xor_parts t x low =
    let a : t / 2 / 2 ≡ t / 4 = omega arith in
    let b : x / 2 / 2 ≡ x / 4 = omega arith in
    let e : bit_xor (t / 2 / 2) (x / 2 / 2) ≡ bit_xor (t / 4) (x / 4) =
      ap (λ z. bit_xor z (x / 2 / 2)) a ∙ ap (λ z. bit_xor (t / 4) z) b in
    (
      omega (arith, bit_xor_step t x, bit_xor_step (t / 2) (x / 2)),
      omega (arith, bit_xor_step t x, bit_xor_step (t / 2) (x / 2), e),
    )

xor-eq : (a b : ℕ) → bit_xor a b ≡ 0 → a ≡ b
xor-eq a b e = bit_ext a b (λ i. ground (arith, bit-bit_xor a b i, ap (λ z. bit z i) e, bit-zero i))

xor_self : (a : ℕ) → bit_xor a a ≡ 0
xor_self a = bit_ext _ _ (λ i. ground (arith, bit-bit_xor a a i, bit-zero i))

-- The block of the pointer, however it is found.
module _ (w : World) (tid ptr index d owner : ℕ) (i f : Bool) (mapped : lookup w.map ptr ≢ 0)
    (is : IsWord (w.pages (lookup w.map ptr)).xthread_id owner i f)
    (inside : d < (w.pages (lookup w.map ptr)).block_size)
    (small : (w.pages (lookup w.map ptr)).page_start
        + index * (w.pages (lookup w.map ptr)).block_size
      < 2 ^ 64)
    (place : ptr
      ≡ (w.pages (lookup w.map ptr)).page_start
        + index * (w.pages (lookup w.map ptr)).block_size
        + d)
    (flagged : d ≢ 0 → i ≡ true) where
  block : ℕ
  block = (w.pages (lookup w.map ptr)).page_start + index * (w.pages (lookup w.map ptr)).block_size

  recovered :
      recover_block_start (w.pages (lookup w.map ptr)) ptr (w.pages (lookup w.map ptr)).block_size
      ≡ block
  unfolding block
  recovered =
      let pg = w.pages (lookup w.map ptr) in
      ap (λ z. recover_block_start pg z pg.block_size) place
      ∙ recover_block_start_lem pg index d inside small

  start : (w.pages (lookup w.map ptr)).xthread_id % 4 ≡ 0 → ptr ≡ block
  unfolding block
  start z =
      let flags = is.flags in
      let none_ : i ≡ false = elim (Bool-cases i) [
        | inl e ↦ absurd (ground (arith, z, flags, e))
        | inr e ↦ e
      ] in
      elim (Bool-cases (d == 0)) [
        | inl e ↦ ground (arith, place)
        | inr e ↦ absurd (ground (arith, none_, flagged (λ q. ground arith)))
      ]

  -- A free of a pointer into a block of a mapped page, by the thread `tid`. If the page's word has
  -- that thread, whatever its flags, the block that the pointer points into is freed as the owner's;
  -- otherwise it is pushed for the owner. Pages that hand out pointers inside blocks are flagged.
  pub free_lem :
      (hardened : Bool) (sys : System) (granted : Bool)
      → tid % 4 ≡ 0
      → tid < 2 ^ 64
      → free hardened sys granted w tid ptr ≡ (
          if owner == tid
          then free_owned hardened sys granted w (lookup w.map ptr) (
              (w.pages (lookup w.map ptr)).page_start
              + index * (w.pages (lookup w.map ptr)).block_size)
          else free_shared hardened sys granted w (lookup w.map ptr) (
              (w.pages (lookup w.map ptr)).page_start
              + index * (w.pages (lookup w.map ptr)).block_size))
  unfolding free free_cold block
  free_lem hardened sys granted low below =
      let p = lookup w.map ptr in
      let x = (w.pages p).xthread_id in
      let xtid = bit_xor tid x in
      let some_page : (p == 0) ≡ false = ground arith in
      let (digits, thread) = xor_parts tid x low in
      let high = high_digits xtid (bit_xor-lt tid x below is.small) in
      let flags = low_digits xtid in
      elim (Bool-cases (owner == tid)) [
        | inl mine_ ↦
            let mine : owner ≡ tid = ground arith in
            rw mine_ (
              let e : tid / 4 ≡ x / 4 = omega (arith, is.thread, mine) in
              let zero_ : bit_xor (tid / 4) (x / 4) ≡ 0 =
                ap (bit_xor (tid / 4)) (sym e) ∙ xor_self (tid / 4) in
              let above : (bit_and xtid (complement flag_mask) == 0) ≡ true =
                ground (arith, high, thread, zero_) in
              elim (Bool-cases (xtid == 0)) [
                | inl plain ↦
                    rw (some_page, plain)
                      (ap (free_owned hardened sys granted w p) (start (ground (arith, digits))))
                | inr flagged_ ↦
                    rw (some_page, flagged_, free_cold, above)
                      (ap (free_owned hardened sys granted w p) recovered)
              ])
        | inr other_ ↦
            let other : owner ≢ tid = λ z. ground arith in
            rw other_ (
              let nz : xtid / 4 ≢ 0 = λ z.
                let q = xor-eq (tid / 4) (x / 4) (sym thread ∙ z) in
                other (omega (arith, is.thread, q)) in
              let above : (bit_and xtid (complement flag_mask) == 0) ≡ false =
                ground (arith, high, nz) in
              let not_mine : (xtid == 0) ≡ false = ground (arith, nz) in
              elim (Bool-cases (bit_and xtid flag_mask == 0)) [
                | inl plain ↦
                    rw (some_page, not_mine, free_cold, above, plain)
                      (ap (free_shared hardened sys granted w p)
                        (start (ground (arith, digits, flags))))
                | inr flagged_ ↦
                    rw (some_page, not_mine, free_cold, above, flagged_)
                      (ap (free_shared hardened sys granted w p) recovered)
              ])
      ]
