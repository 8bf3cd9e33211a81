-- ===== src/Page/Flags.antt =====
-- src/page.rs, the owner and the flags of a page in its word `xthread_id`, and the small tests on a
-- page. Each operation is that of one thread while no other writes the word.
use Prim.Native.Nat.{bit_or-bitwise}
use mimalloc_rs.Prelude.{
  ℕ, ◌+◌, ◌*◌, ◌/◌, ◌%◌, ◌^◌, ◌<◌, bit_and, bit_or, ◌≡◌, refl, ap, ◌∙◌, Bool, true, false, not,
  arith, ◌==◌, leb, if◌then◌else◌,
}
use mimalloc_rs.Word.{complement}
use mimalloc_rs.Word.Step.{bit_or_step}
use mimalloc_rs.Word.Rotate.{bit_and-ones, bit_or-zero}
use mimalloc_rs.Layout.Powers.{bit_and-complement_mask}
use mimalloc_rs.Page.{Page}

abbrev pub in_full_queue : ℕ
in_full_queue = 1

abbrev pub has_interior_pointers : ℕ
has_interior_pointers = 2

abbrev pub flag_mask : ℕ
flag_mask = 3

abbrev pub abandoned : ℕ
abandoned = 0

abbrev pub abandoned_mapped : ℕ
abandoned_mapped = 4

unfoldable pub set_owner_fresh : Page → ℕ → Page
set_owner_fresh pg tid = record pg { xthread_id = tid }

unfoldable pub set_owner : Page → ℕ → Page
set_owner pg tid = record pg { xthread_id = bit_or tid (bit_and pg.xthread_id flag_mask) }

unfoldable pub owner_tid : Page → ℕ
owner_tid pg = bit_and pg.xthread_id (complement flag_mask)

unfoldable pub set_in_full : Page → Bool → Page
set_in_full pg in_full = record pg {
  xthread_id =
      if in_full
      then bit_or pg.xthread_id in_full_queue
      else bit_and pg.xthread_id (complement in_full_queue);
}

unfoldable pub is_in_full : Page → Bool
is_in_full pg = not (bit_and pg.xthread_id in_full_queue == 0)

unfoldable pub set_has_interior : Page → Page
set_has_interior pg = record pg { xthread_id = bit_or pg.xthread_id has_interior_pointers }

unfoldable pub is_abandoned_mapped : Page → Bool
is_abandoned_mapped pg = bit_and pg.xthread_id (complement flag_mask) == abandoned_mapped

unfoldable pub mark_reused : Page → Page
mark_reused pg = record pg { free_is_zero = false }

unfoldable pub set_provenance : Page → ℕ → ℕ → ℕ → Page
set_provenance pg theap arena bin = record pg { theap = theap; arena = arena; bin = bin }

unfoldable pub is_all_free : Page → Bool
is_all_free pg = pg.used == 0

-- A flag's part of a word.
abbrev flag : Bool → ℕ → ℕ
flag f v = if f then v else 0

pub low_digits : (x : ℕ) → bit_and x 3 ≡ x % 4
low_digits x = bit_and-ones 2 x

pub high_digits : (x : ℕ) → x < 2 ^ 64 → bit_and x (complement 3) ≡ x / 4 * 4
high_digits x h = bit_and-complement_mask 2 x h (omega arith)

join : (x f : ℕ) → f < 4 → bit_or x f ≡ x / 4 * 4 + bit_or (x % 4) f
join x f small =
    let a : f / 2 / 2 ≡ 0 = omega arith in
    let b : x % 4 / 2 / 2 ≡ 0 = omega arith in
    omega (
      arith,
      bit_or_step x f,
      bit_or_step (x / 2) (f / 2),
      bit_or-zero (x / 2 / 2),
      ap (λ z. bit_or (x / 2 / 2) z) a,
      bit_or_step (x % 4) f,
      bit_or_step (x % 4 / 2) (f / 2),
      ap (λ z. bit_or z (f / 2 / 2)) b,
      ap (λ z. bit_or 0 z) a,
      bit_or-zero 0,
    )

-- The word of the thread `tid` with the flags `i` and `f`.
pub record IsWord (x tid : ℕ) (i f : Bool) : Type 0 where
  pub thread : x / 4 * 4 ≡ tid
  pub flags : x % 4 ≡ flag i 2 + flag f 1
  pub small : x < 2 ^ 64

-- Every word has one thread, a multiple of 4, and two flags.
pub IsWord-of : (x : ℕ) → x < 2 ^ 64 → IsWord x (x / 4 * 4) (leb 2 (x % 4)) (x % 2 == 1)
IsWord-of x h = record { thread = refl; flags = ground arith; small = h }

-- Setting a flag.
or_flag :
    (x tid : ℕ) (i f i' f' : Bool) (v : ℕ)
    → v < 4
    → bit_or (flag i 2 + flag f 1) v ≡ flag i' 2 + flag f' 1
    → IsWord x tid i f
    → IsWord (bit_or x v) tid i' f'
or_flag x tid i f i' f' v small e is =
    let split = join x v small in
    let low = ap (λ z. bit_or z v) is.flags in
    let few : flag i' 2 + flag f' 1 < 4 = ground arith in
    record {
      thread = omega (arith, split, low, e, few, is.thread);
      flags = omega (arith, split, low, e, few, is.thread);
      small = omega (arith, split, low, e, few, is.small);
    }

in_full_true : (i f : Bool) → bit_or (flag i 2 + flag f 1) 1 ≡ flag i 2 + flag true 1
in_full_true true true = refl
in_full_true true false = refl
in_full_true false true = refl
in_full_true false false = refl

interior_true : (i f : Bool) → bit_or (flag i 2 + flag f 1) 2 ≡ flag true 2 + flag f 1
interior_true true true = refl
interior_true true false = refl
interior_true false true = refl
interior_true false false = refl

in_full_false :
    (x tid : ℕ) (i f : Bool) → IsWord x tid i f → IsWord (bit_and x (complement 1)) tid i false
in_full_false x tid i f is =
    let e = bit_and-complement_mask 1 x is.small (omega arith) in
    let h = is.flags in
    record {
      thread = ground (arith, e, is.thread);
      flags = ground (arith, e, h);
      small = omega (arith, e, is.small);
    }

new_owner :
    (x tid t : ℕ) (i f : Bool)
    → t % 4 ≡ 0
    → t < 2 ^ 64
    → IsWord x tid i f
    → IsWord (bit_or t (bit_and x 3)) t i f
new_owner x tid t i f low small is =
    let e = low_digits x in
    let split = join t (bit_and x 3) (omega (arith, e)) in
    let zero_left : bit_or (t % 4) (bit_and x 3) ≡ bit_and x 3 =
      omega (arith, ap (λ z. bit_or z (bit_and x 3)) low, bit_or-bitwise 0 (bit_and x 3)) in
    record {
      thread = omega (arith, split, zero_left, e);
      flags = omega (arith, split, zero_left, e, is.flags);
      small = omega (arith, split, zero_left, e);
    }

-- The owner and the two flags of a page are three fields of one word: for a word with the thread
-- `tid`, the interior flag `i` and the full flag `f`, `set_owner` changes the thread alone,
-- `set_in_full` the full flag alone and `set_has_interior` the interior flag alone, and
-- `owner_tid`, `is_in_full` and `is_abandoned_mapped` read them back.
pub flags_lem :
    (pg : Page) (tid t : ℕ) (i f b : Bool)
    → IsWord pg.xthread_id tid i f
    → t % 4 ≡ 0
    → t < 2 ^ 64
    → IsWord (set_owner pg t).xthread_id t i f
      × IsWord (set_in_full pg b).xthread_id tid i b
      × IsWord (set_has_interior pg).xthread_id tid true f
      × (owner_tid pg ≡ tid)
      × (is_in_full pg ≡ f)
      × (is_abandoned_mapped pg ≡ (tid == abandoned_mapped))
unfolding set_owner set_in_full set_has_interior owner_tid is_in_full is_abandoned_mapped
flags_lem pg tid t i f b is low small =
    let x = pg.xthread_id in
    let high = high_digits x is.small ∙ is.thread in
    (
      new_owner x tid t i f low small is,
      full b,
      or_flag x tid i f true f 2 (omega arith) (interior_true i f) is,
      high,
      read f is.flags,
      ap (λ z. z == abandoned_mapped) high,
    )
  where
    full :
        (b : Bool)
        → IsWord
            (if b then bit_or pg.xthread_id 1 else bit_and pg.xthread_id (complement 1))
            tid
            i
            b
    full true = or_flag pg.xthread_id tid i f i true 1 (omega arith) (in_full_true i f) is
    full false = in_full_false pg.xthread_id tid i f is

    read :
        (f : Bool)
        → pg.xthread_id % 4 ≡ flag i 2 + flag f 1
        → not (bit_and pg.xthread_id 1 == 0) ≡ f
    read true h = let e = bit_and-ones 1 pg.xthread_id in ground (arith, e)
    read false h = let e = bit_and-ones 1 pg.xthread_id in ground (arith, e)
