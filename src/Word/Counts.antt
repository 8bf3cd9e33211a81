-- ===== src/Word/Counts.antt =====
-- Counts of digits: a run of set bits is no longer than the number of set bits, and the number of
-- digits is the position of the highest set bit.
use mimalloc_rs.Prelude.{ℕ, zero, suc, ◌+◌, ◌/◌, ◌^◌, ◌≤◌, ◌<◌, ◌≡◌, refl, true, false, arith, ◌==◌}
use mimalloc_rs.Word.{digit_count, count_ones}
use mimalloc_rs.Word.Bit.{bit, pow-two-suc, pow-two-pos}

-- The bits from `s` on, `n` of them, are set.
abbrev pub RunSet : ℕ → ℕ → ℕ → Type 0
RunSet w s n = (i : ℕ) → s ≤ i → i < s + n → bit w i ≡ true

pub run-le-count_ones : (k w s n : ℕ) → s + n ≤ k → RunSet w s n → n ≤ count_ones k w
unfolding count_ones bit
run-le-count_ones zero w s n h run = omega arith
run-le-count_ones (suc k) w zero zero h run = omega arith
run-le-count_ones (suc k) w zero (suc n) h run =
    let low = run 0 (omega arith) (omega arith) in
    let rest =
      run-le-count_ones k (w / 2) 0 n (omega arith)
        (λ i le lt. run (suc i) (omega arith) (omega arith)) in
    ground arith
run-le-count_ones (suc k) w (suc s) n h run = omega (
  arith,
  run-le-count_ones k (w / 2) s n (omega arith)
      (λ i le lt. run (suc i) (omega arith) (omega arith)),
)

digit_count-zero : (k : ℕ) → digit_count k 0 ≡ 0
unfolding digit_count
digit_count-zero zero = refl
digit_count-zero (suc k) = refl

-- A number from 2^b up to 2^(b+1) has b+1 digits.
pub digit_count-eq : (k b x : ℕ) → b < k → 2 ^ b ≤ x → x < 2 ^ suc b → digit_count k x ≡ suc b
unfolding digit_count
digit_count-eq zero b x hk lo hi = absurd (omega arith)
digit_count-eq (suc k) zero x hk lo hi =
    let e : (x == 0) ≡ false = ground arith in
    let d : x / 2 ≡ 0 = omega arith in rw (e, d, digit_count-zero k)
digit_count-eq (suc k) (suc b) x hk lo hi =
    let e : (x == 0) ≡ false = ground (arith, pow-two-pos (suc b)) in
    let rest =
      digit_count-eq k b (x / 2) (omega arith) (omega (arith, pow-two-suc b))
        (omega (arith, pow-two-suc b, pow-two-suc (suc b))) in
    rw (e, rest)
