-- ===== src/Bitmap/Field.antt =====
-- src/bitmap.rs, the operations on one field: a 64-bit word that several threads update by
-- compare-exchange loops. What the other threads do is a list of attempts, one for each time that
-- the loop reaches its compare-exchange. After the last one the field is left alone.
pub mod Laws
pub mod Runs
use mimalloc_rs.Prelude.{
  ℕ, zero, suc, ◌+◌, ◌-◌, ◌*◌, ◌^◌, ◌%◌, bit_and, bit_or, Bool, true, false, ◌||◌, Option, none,
  some, List, [], ◌∷◌, ltb, leb, ◌==◌, if◌then◌else◌,
}
use mimalloc_rs.Word.{word_bits, max_word, ◌<<<◌, complement, count_ones}

-- The value that memory holds when a weak compare-exchange runs, and whether it fails anyway.
pub record Attempt : Type 0 where
  pub seen : ℕ
  pub spurious : Bool

pub data Exchange : Type 0 where
  exchanged : Exchange
  failed : ℕ → Exchange

unfoldable pub cas_weak_acq_rel : Attempt → ℕ → Exchange
cas_weak_acq_rel t expected =
    if t.spurious then failed t.seen else if t.seen == expected then exchanged else failed t.seen

-- The field at the step that decides an operation, the field after it, and what is returned.
pub record Update (A : Type 0) : Type 0 where
  pub before : ℕ
  pub after : ℕ
  pub result : A

abbrev pub update : {A : Type 0} → ℕ → ℕ → A → Update A
update w w' r = record { before = w; after = w'; result = r }

unfoldable pub mask_n : ℕ → ℕ
mask_n n = if n == word_bits then max_word else (1 <<< n) - 1

unfoldable pub bf_all_set : ℕ → ℕ → Bool
bf_all_set w mask = bit_and w mask == mask

unfoldable pub bf_all_clear : ℕ → ℕ → Bool
bf_all_clear w mask = bit_and w mask == 0

unfoldable pub bf_set_mask : List Attempt → ℕ → ℕ → Update Bool
bf_set_mask [] old mask =
    let new = bit_or old mask in if new == old then update old old false else update old new true
bf_set_mask (t ∷ ts) old mask =
    let new = bit_or old mask in
    let swap : Update Bool = elim (cas_weak_acq_rel t old) [
      | exchanged ↦ update old new true
      | failed seen ↦ bf_set_mask ts seen mask
    ] in
    if new == old then update old old false else swap

unfoldable pub bf_try_clear_mask : List Attempt → ℕ → ℕ → Update Bool
bf_try_clear_mask [] old mask =
    if bit_and old mask == mask
    then update old (bit_and old (complement mask)) true
    else update old old false
bf_try_clear_mask (t ∷ ts) old mask =
    let swap : Update Bool = elim (cas_weak_acq_rel t old) [
      | exchanged ↦ update old (bit_and old (complement mask)) true
      | failed seen ↦ bf_try_clear_mask ts seen mask
    ] in
    if bit_and old mask == mask then swap else update old old false

-- `while shift + n <= FIELD_BITS`, with the rounds that are left.
unfoldable pub find_shift : ℕ → ℕ → ℕ → ℕ → Option ℕ
find_shift zero n old shift = none
find_shift (suc rounds) n old shift =
    let probe = mask_n n <<< shift in
    let rest = find_shift rounds n old (shift + 1) in
    if leb (shift + n) word_bits
    then (if bit_and old probe == probe then some shift else rest)
    else none

-- One look at the field: the cheap reject and the scan.
unfoldable pub find_run : ℕ → ℕ → Option ℕ
find_run n old =
    if ltb (count_ones word_bits old) n then none else find_shift (word_bits + 1) n old 0

unfoldable pub run_loop : List Attempt → ℕ → ℕ → Update (Option ℕ)
run_loop [] n old = elim (find_run n old) [
  | none ↦ update old old none
  | some shift ↦ update old (bit_and old (complement (mask_n n <<< shift))) (some shift)
]
run_loop (t ∷ ts) n old = elim (find_run n old) [
  | none ↦ update old old none
  | some shift ↦ elim (cas_weak_acq_rel t old) [
    | exchanged ↦ update old (bit_and old (complement (mask_n n <<< shift))) (some shift)
    | failed seen ↦ run_loop ts n seen
  ]
]

unfoldable pub bf_find_and_clear_run : List Attempt → ℕ → ℕ → Update (Option ℕ)
bf_find_and_clear_run ts n old =
    if n == 0 || ltb word_bits n then update old old none else run_loop ts n old
