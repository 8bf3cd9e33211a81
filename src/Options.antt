-- ===== src/Options.antt =====
-- src/options.rs: the runtime options, seeded once from the environment. `getenv` is the operating
-- system layer's, which copies the value of a variable into a buffer of 64 bytes and returns those
-- bytes.
pub mod Integers
pub mod Parse
pub mod Laws
pub mod Tests
use Prim.Native.String.{String}
use mimalloc_rs.Prelude.{
  ℕ, zero, suc, ◌+◌, ◌-◌, ◌*◌, Bool, true, false, ◌&&◌, ◌||◌, not, Option, some, none, List, [],
  ◌∷◌, ltb, leb, ◌==◌, if◌then◌else◌, get_or, set, length,
}
use mimalloc_rs.Options.Integers.{
  ℤ, pos, negsuc, neg, maxℤ, is_zero, is_negative, saturating_mul, max_i64,
}

pub data Opt : Type 0 where
  verbose : Opt
  show_stats : Opt
  eager_commit : Opt
  purge_decommits : Opt
  purge_delay : Opt
  arena_reserve : Opt
  arena_purge_mult : Opt

-- `opt as usize`.
abbrev pub index : Opt → ℕ
index verbose = 0
index show_stats = 1
index eager_commit = 2
index purge_decommits = 3
index purge_delay = 4
index arena_reserve = 5
index arena_purge_mult = 6

abbrev pub opt_count : ℕ
opt_count = 7

unfoldable pub from_index : ℤ → Option Opt
from_index (pos i) =
    if i == 0
    then some verbose
    else (if i == 1
        then some show_stats
        else (if i == 2
            then some eager_commit
            else (if i == 3
                then some purge_decommits
                else (if i == 4
                    then some purge_delay
                    else (if i == 5
                        then some arena_reserve
                        else (if i == 6 then some arena_purge_mult else none))))))
from_index (negsuc i) = none

unfoldable pub env_name : Opt → String
env_name verbose = "MIMALLOC_VERBOSE"
env_name show_stats = "MIMALLOC_SHOW_STATS"
env_name eager_commit = "MIMALLOC_EAGER_COMMIT"
env_name purge_decommits = "MIMALLOC_PURGE_DECOMMITS"
env_name purge_delay = "MIMALLOC_PURGE_DELAY"
env_name arena_reserve = "MIMALLOC_ARENA_RESERVE"
env_name arena_purge_mult = "MIMALLOC_ARENA_PURGE_MULT"

unfoldable pub default_value : Opt → ℤ
default_value verbose = pos 0
default_value show_stats = pos 0
default_value eager_commit = pos 1
default_value purge_decommits = pos 1
default_value purge_delay = pos 1000
default_value arena_reserve = pos 0
default_value arena_purge_mult = pos 1

-- `u8::is_ascii_digit`.
abbrev pub is_ascii_digit : ℕ → Bool
is_ascii_digit c = leb b'0' c && leb c b'9'

-- `v.checked_mul(10)?.checked_add(d)?`, on a `v` that is not negative.
unfoldable pub checked_step : ℕ → ℕ → Option ℕ
checked_step v d =
    if leb (v * 10) max_i64
    then (if leb (v * 10 + d) max_i64 then some (v * 10 + d) else none)
    else none

-- The loop over the digits, up to the first byte that is none.
unfoldable pub parse_loop : ℕ → List ℕ → Option ℕ
parse_loop v [] = some v
parse_loop v (c ∷ digits) =
    let next : Option ℕ = elim (checked_step v (c - b'0')) [
      | none ↦ none
      | some v' ↦ parse_loop v' digits
    ] in
    if is_ascii_digit c then next else some v

-- The digits after the sign.
unfoldable pub parse_digits : Bool → List ℕ → Option ℤ
parse_digits negative [] = none
parse_digits negative (c ∷ digits) =
    let number : Option ℤ = elim (parse_loop 0 (c ∷ digits)) [
      | none ↦ none
      | some v ↦ some (if negative then neg v else pos v)
    ] in
    if is_ascii_digit c then number else none

unfoldable pub parse_i64 : List ℕ → Option ℤ
parse_i64 [] = parse_digits false []
parse_i64 (c ∷ b) = if c == b'-' then parse_digits true b else parse_digits false (c ∷ b)

-- The values, and whether they have been seeded.
pub record Settings : Type 0 where
  pub values : List ℤ
  pub ready : Bool

-- `VALUES` and `INIT` at the start.
abbrev pub unseeded : Settings
unseeded = record {
  values = pos 0 ∷ pos 0 ∷ pos 0 ∷ pos 0 ∷ pos 0 ∷ pos 0 ∷ pos 0 ∷ [];
  ready = false;
}

module _ (getenv : String → Option (List ℕ)) where
  -- The value of an option whose variable has the bytes `b`.
  unfoldable pub value_of : Opt → List ℕ → ℤ
  value_of opt [] = default_value opt
  value_of opt (c ∷ b) =
      if is_ascii_digit c || (c == b'-')
      then elim (parse_i64 (c ∷ b)) [ none ↦ default_value opt | some v ↦ v ]
      else (if (c == b'y') || (c == b'Y') || (c == b't') || (c == b'T') then pos 1 else pos 0)

  unfoldable pub env_value : Opt → ℤ
  env_value opt = elim (getenv (env_name opt)) [
    | none ↦ default_value opt
    | some b ↦ value_of opt b
  ]

  -- The loop that seeds the slots from `i` on.
  unfoldable pub seed : ℕ → List ℤ → List ℤ
  seed i [] = []
  seed i (slot ∷ slots) =
      elim (from_index (pos i)) [ none ↦ slot | some opt ↦ env_value opt ] ∷ seed (i + 1) slots

  unfoldable pub ensure_init : Settings → Settings
  ensure_init s = if s.ready then s else record { values = seed 0 s.values; ready = true }

  unfoldable pub get : Settings → Opt → Settings × ℤ
  get s opt = let s' = ensure_init s in (s', get_or s'.values (index opt) (pos 0))

  unfoldable pub set_option : Settings → Opt → ℤ → Settings
  set_option s opt value =
      let s' = ensure_init s in record s' { values = set s'.values (index opt) value }

  unfoldable pub is_enabled : Settings → Opt → Settings × Bool
  is_enabled s opt = let (s', v) = get s opt in (s', not (is_zero v))

  unfoldable pub enable : Settings → Opt → Settings
  enable s opt = set_option s opt (pos 1)

  unfoldable pub disable : Settings → Opt → Settings
  disable s opt = set_option s opt (pos 0)

  -- `purge_delay()`.
  unfoldable pub get_purge_delay : Settings → Settings × ℤ
  get_purge_delay s = get s purge_delay

  -- `purge_decommits()`.
  unfoldable pub get_purge_decommits : Settings → Settings × Bool
  get_purge_decommits s = is_enabled s purge_decommits

  -- `eager_commit()`.
  unfoldable pub get_eager_commit : Settings → Settings × Bool
  get_eager_commit s = is_enabled s eager_commit

  unfoldable pub arena_purge_delay : Settings → Settings × ℤ
  arena_purge_delay s =
      let (s1, delay) = get_purge_delay s in
      let (s2, mult) = get s1 arena_purge_mult in (s2, saturating_mul delay (maxℤ mult (pos 1)))
