-- ===== src/Options/Tests.antt =====
-- src/options.rs, runs of the parser and of the options, and the theorems at them.
use Prim.Native.String.{String}
use mimalloc_rs.Prelude.{ℕ, ◌≡◌, refl, Option, none, some, List, [], ◌∷◌}
use mimalloc_rs.Options.Integers.{◌*ℤ◌, saturating_mul, maxℤ, pos, negsuc}
use mimalloc_rs.Options.{
  purge_delay, checked_step, parse_loop, parse_digits, parse_i64, value_of, env_value, seed,
  unseeded, ensure_init, get, get_purge_delay, arena_purge_delay, from_index,
}
use mimalloc_rs.Options.Parse.{read_i64, parse_i64_lem}
use mimalloc_rs.Options.Laws.{get-unseeded}

-- Every variable is `25`.
abbrev all_25 : String → Option (List ℕ)
all_25 name = some (b'2' ∷ b'5' ∷ [])

parse_minus_7 : parse_i64 (b'-' ∷ b'7' ∷ []) ≡ some (negsuc 6)
unfolding parse_i64 parse_digits parse_loop checked_step
parse_minus_7 = refl

-- The least 64-bit integer itself is refused.
parse_min :
    parse_i64 (
      b'-' ∷ b'9' ∷ b'2' ∷ b'2' ∷ b'3' ∷ b'3' ∷ b'7' ∷ b'2' ∷ b'0' ∷ b'3' ∷ b'6' ∷ b'8' ∷ b'5'
      ∷ b'4' ∷ b'7' ∷ b'7' ∷ b'5' ∷ b'8' ∷ b'0' ∷ b'8' ∷ [])
    ≡ none
unfolding parse_i64 parse_digits parse_loop checked_step
parse_min = refl

parse_i64_example : parse_i64 (b'4' ∷ b'2' ∷ b'x' ∷ []) ≡ read_i64 (b'4' ∷ b'2' ∷ b'x' ∷ [])
parse_i64_example = parse_i64_lem (b'4' ∷ b'2' ∷ b'x' ∷ [])

delay_625 : (arena_purge_delay all_25 unseeded).1 ≡ pos 625
unfolding arena_purge_delay get_purge_delay get ensure_init seed from_index env_value value_of
    parse_i64 parse_digits parse_loop checked_step saturating_mul ◌*ℤ◌ maxℤ
delay_625 = refl

get-unseeded_example : (get all_25 unseeded purge_delay).1 ≡ env_value all_25 purge_delay
get-unseeded_example = get-unseeded all_25 purge_delay
