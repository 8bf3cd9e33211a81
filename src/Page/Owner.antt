-- ===== src/Page/Owner.antt =====
-- src/page.rs, the cross-thread stack and its ownership tag.
use mimalloc_rs.Prelude.{
  ℕ, ◌%◌, ◌^◌, ◌<◌, ◌≡◌, refl, sym, ◌↔◌, inl, inr, Bool, true, false, not, arith, ◌==◌, Bool-cases,
  List, [], ◌∷◌, subst,
}
use mimalloc_rs.FreeList.{Memory, set_next}
use mimalloc_rs.Page.{
  Page, tf_block, tf_is_owned, tf_create, thread_free_push, is_owned, claim_ownership, try_unown,
  set_unowned,
}
use mimalloc_rs.Page.Tag.{tf_block-even, tf_is_owned-odd, tf_create-owned, tf_create-unowned}
use mimalloc_rs.Page.Lists.{Chain-set_next, Chain-cons, Chain-null}
use mimalloc_rs.Page.State.{IsSplit, IsPage, once, thread_Readable, block_nonzero, count_head}

-- Another head word of the same stack.
retag :
    (hardened : Bool) (pg : Page) (tf : ℕ) (mem : Memory) (fs ls ts live : List ℕ)
    → tf_block tf ≡ tf_block pg.xthread_free
    → IsPage hardened pg mem fs ls ts live
    → IsPage hardened (record pg { xthread_free = tf }) mem fs ls ts live
retag hardened pg tf mem fs ls ts live e is =
    subst (λ z. IsSplit hardened pg z mem fs ls ts live) (sym e) is

-- A cross-thread free of a live block at an even 64-bit address, without contention, moves the
-- block to the top of the stack and leaves the page well formed and owned. Its answer is whether
-- the page was unowned, and `used` still counts the block.
pub thread_free_push_lem :
    (hardened : Bool) (pg : Page) (mem : Memory) (fs ls ts live : List ℕ) (b : ℕ)
    → IsPage hardened pg mem fs ls ts (b ∷ live)
    → b < 2 ^ 64
    → b % 2 ≡ 0
    → let (pg', mem', claimed) = thread_free_push hardened pg mem b in
      IsPage hardened pg' mem' fs ls (b ∷ ts) live
      × (is_owned pg' ≡ true)
      × (claimed ≡ not (is_owned pg))
      × (pg'.used ≡ pg.used)
unfolding thread_free_push is_owned
thread_free_push_lem hardened pg mem fs ls ts live b is small even =
    let cur = tf_block pg.xthread_free in
    let single = once hardened pg cur mem fs ls ts (b ∷ live) is b in
    let r = thread_Readable hardened pg cur mem fs ls ts (b ∷ live) is in
    let frame = Chain-set_next hardened pg.keys mem b cur in
    let head : b ≡ tf_block (tf_create b true) = omega (
      arith,
      tf_create-owned b small,
      tf_block-even (tf_create b true) (omega (arith, tf_create-owned b small)),
    ) in
    let owned : tf_is_owned (tf_create b true) ≡ true =
      ground (arith, tf_is_owned-odd (tf_create b true), tf_create-owned b small) in
    let pushed : IsSplit hardened pg b (set_next hardened pg.keys mem b cur) fs ls (b ∷ ts) live =
      record {
        free = frame fs pg.free r (omega (arith, single, count_head b live)) is.free;
        local = frame ls pg.local_free r (omega (arith, single, count_head b live)) is.local;
        thread =
            Chain-cons hardened pg.keys mem b cur ts r
              (block_nonzero hardened pg cur mem fs ls ts (b ∷ live) is b
                (omega (arith, count_head b live)))
              (omega (arith, single, count_head b live)) is.thread;
        blocks = λ a. omega (arith, is.blocks a);
        used = omega (arith, is.used);
        total = omega (arith, is.total);
        capacity = is.capacity;
        reserved = is.reserved;
        size = is.size;
        start = is.start;
        null = is.null;
        linkable = is.linkable;
      } in
    (
      subst (λ z. IsSplit hardened pg z (set_next hardened pg.keys mem b cur) fs ls (b ∷ ts) live)
          head pushed,
      owned,
      refl,
      refl,
    )

-- On a well-formed page with a 64-bit head word, `claim_ownership` leaves the page owned and its
-- blocks where they are, and its answer is whether the page was unowned.
pub claim_ownership_lem :
    (hardened : Bool) (pg : Page) (mem : Memory) (fs ls ts live : List ℕ)
    → IsPage hardened pg mem fs ls ts live
    → pg.xthread_free < 2 ^ 64
    → let (pg', claimed) = claim_ownership pg in
      IsPage hardened pg' mem fs ls ts live × (is_owned pg' ≡ true) × (claimed ≡ not (is_owned pg))
unfolding claim_ownership is_owned
claim_ownership_lem hardened pg mem fs ls ts live is small =
    let tf = pg.xthread_free in
    let block = tf_block-even tf small in
    let made = tf_create-owned (tf_block tf) (omega (arith, block)) in
    let same : tf_block (tf_create (tf_block tf) true) ≡ tf_block tf = omega (
      arith,
      block,
      made,
      tf_block-even (tf_create (tf_block tf) true) (omega (arith, block, made)),
    ) in
    let owned : tf_is_owned (tf_create (tf_block tf) true) ≡ true =
      ground (arith, tf_is_owned-odd (tf_create (tf_block tf) true), made) in
    elim (Bool-cases (tf_is_owned tf)) [
      | inl h ↦ rw h (is, h, refl)
      | inr h ↦ rw h (retag hardened pg _ mem fs ls ts live same is, owned, refl)
    ]

-- On a well-formed page with a 64-bit head word, `set_unowned` leaves the page unowned and its
-- blocks where they are.
pub set_unowned_lem :
    (hardened : Bool) (pg : Page) (mem : Memory) (fs ls ts live : List ℕ)
    → IsPage hardened pg mem fs ls ts live
    → pg.xthread_free < 2 ^ 64
    → IsPage hardened (set_unowned pg) mem fs ls ts live × (is_owned (set_unowned pg) ≡ false)
unfolding set_unowned is_owned
set_unowned_lem hardened pg mem fs ls ts live is small =
    let tf = pg.xthread_free in
    let block = tf_block-even tf small in
    let made = tf_create-unowned (tf_block tf) (omega (arith, block)) in
    (
      retag hardened pg _ mem fs ls ts live
          (omega (
            arith,
            block,
            made,
            tf_block-even (tf_create (tf_block tf) false) (omega (arith, block, made)),
          ))
          is,
      ground (arith, tf_is_owned-odd (tf_create (tf_block tf) false), block, made),
    )

-- On a well-formed page with a 64-bit head word, `try_unown` succeeds exactly when the page is
-- owned and no block waits on its cross-thread stack; then the page is unowned. In every case its
-- blocks stay where they are.
pub try_unown_lem :
    (hardened : Bool) (pg : Page) (mem : Memory) (fs ls ts live : List ℕ)
    → IsPage hardened pg mem fs ls ts live
    → pg.xthread_free < 2 ^ 64
    → let (pg', done) = try_unown pg in
      IsPage hardened pg' mem fs ls ts live
      × ((done ≡ true) ↔ ((is_owned pg ≡ true) × (ts ≡ [])))
      × (done ≡ true → is_owned pg' ≡ false)
unfolding try_unown is_owned
try_unown_lem hardened pg mem fs ls ts live is small =
    let tf = pg.xthread_free in
    let block = tf_block-even tf small in
    let odd = tf_is_owned-odd tf in
    elim (Bool-cases (tf == tf_create 0 true)) [
      | inl h ↦
          let e : tf ≡ 1 = ground (arith, tf_create-owned 0 (omega arith)) in
          rw h (
            retag hardened pg _ mem fs ls ts live
                (omega (
                  arith,
                  block,
                  e,
                  tf_create-unowned 0 (omega arith),
                  tf_block-even (tf_create 0 false)
                      (omega (arith, tf_create-unowned 0 (omega arith))),
                ))
                is,
            (
              λ t. (
                ground (arith, odd, e),
                Chain-null hardened pg.keys mem (tf_block tf) ts is.thread
                    (omega (arith, block, e)),
              ),
              λ t. refl,
            ),
            λ t.
                ground
                  (arith, tf_is_owned-odd (tf_create 0 false), tf_create-unowned 0 (omega arith)),
          )
      | inr h ↦ rw h (
        is,
        (
          λ t. ground arith,
          λ (own, none_left).
              let z : tf_block tf ≡ 0 =
                (subst (λ w. IsSplit hardened pg (tf_block tf) mem fs ls w live) none_left
                  is).thread in
              ground (arith, own, odd, block, z, tf_create-owned 0 (omega arith)),
        ),
        λ t. ground arith,
      )
    ]
