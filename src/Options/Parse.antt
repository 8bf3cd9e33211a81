-- ===== src/Options/Parse.antt =====
-- src/options.rs, `parse_i64` against exact arithmetic.
use mimalloc_rs.Prelude.{
  ℕ, ◌+◌, ◌-◌, ◌*◌, ◌≤◌, ◌≡◌, refl, inl, inr, Bool, true, false, Option, some, none, List, [], ◌∷◌,
  leb, ◌==◌, if◌then◌else◌, arith, Bool-cases,
}
use mimalloc_rs.Options.Integers.{ℤ, pos, neg, max_i64}
use mimalloc_rs.Options.{is_ascii_digit, checked_step, parse_loop, parse_digits, parse_i64}

-- The number that the leading digits write, after the number `v`, however large.
unfoldable pub leading_number : ℕ → List ℕ → ℕ
leading_number v [] = v
leading_number v (c ∷ digits) =
    let rest = leading_number (v * 10 + (c - b'0')) digits in if is_ascii_digit c then rest else v

leading_number-ge : (v : ℕ) (b : List ℕ) → v ≤ leading_number v b
unfolding leading_number
leading_number-ge v [] = omega arith
leading_number-ge v (c ∷ b) = ground (arith, leading_number-ge (v * 10 + (c - b'0')) b)

-- An exact number as a 64-bit integer with that sign, if its size allows.
abbrev pub signed : Bool → ℕ → Option ℤ
signed negative n = if leb n max_i64 then some (if negative then neg n else pos n) else none

-- What `parse_i64` means: a digit must follow the sign, and the number is that of the leading
-- digits.
abbrev pub read_digits : Bool → List ℕ → Option ℤ
read_digits negative [] = none
read_digits negative (c ∷ b) =
    if is_ascii_digit c then signed negative (leading_number 0 (c ∷ b)) else none

unfoldable pub read_i64 : List ℕ → Option ℤ
read_i64 [] = none
read_i64 (c ∷ b) = if c == b'-' then read_digits true b else read_digits false (c ∷ b)

checked_step_lem :
    (v d : ℕ) → checked_step v d ≡ (if leb (v * 10 + d) max_i64 then some (v * 10 + d) else none)
unfolding checked_step
checked_step_lem v d = ground arith

parse_loop_lem :
    (v : ℕ) (b : List ℕ)
    → v ≤ max_i64
    → parse_loop v b
      ≡ (if leb (leading_number v b) max_i64 then some (leading_number v b) else none)
unfolding parse_loop leading_number
parse_loop_lem v [] small = ground arith
parse_loop_lem v (c ∷ b) small = elim (Bool-cases (is_ascii_digit c)) [
  | inr stop ↦ rw stop (ground arith)
  | inl digit ↦
      let next = v * 10 + (c - b'0') in
      elim (Bool-cases (leb next max_i64)) [
        | inl fits ↦
            rw (digit, checked_step_lem v (c - b'0'), fits) (parse_loop_lem next b (ground arith))
        | inr large ↦
            let past : leb (leading_number next b) max_i64 ≡ false =
              ground (arith, leading_number-ge next b) in
            rw (digit, checked_step_lem v (c - b'0'), large, past) refl
      ]
]

parse_digits_lem : (negative : Bool) (b : List ℕ) → parse_digits negative b ≡ read_digits negative b
unfolding parse_digits
parse_digits_lem negative [] = refl
parse_digits_lem negative (c ∷ b) = rw (parse_loop_lem 0 (c ∷ b) (omega arith)) (ground arith)

-- On every sequence of bytes, `parse_i64` gives what exact arithmetic gives: the number of the
-- leading digits under its sign if its size is at most 2^63 - 1, and nothing if it is larger or if
-- no digit comes first.
pub parse_i64_lem : (b : List ℕ) → parse_i64 b ≡ read_i64 b
unfolding parse_i64 read_i64
parse_i64_lem [] = parse_digits_lem false []
parse_i64_lem (c ∷ b) = rw (parse_digits_lem true b, parse_digits_lem false (c ∷ b)) refl
