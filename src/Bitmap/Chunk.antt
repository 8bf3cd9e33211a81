-- ===== src/Bitmap/Chunk.antt =====
-- src/bitmap.rs, `BChunk`: 512 bits over eight fields. The runs modelled here are those of one
-- thread while no other thread writes the chunk, so each compare-exchange is decided at once (the
-- empty list of attempts). `none` is the panic of an index out of bounds; a loop is given one more
-- round than it has bits to go through, and `none` would also stand for a loop that used them up.
pub mod View
pub mod Loops
pub mod RollBack
pub mod Clear
pub mod Find
use mimalloc_rs.Prelude.{
  ℕ, zero, suc, ◌+◌, ◌-◌, ◌*◌, ◌/◌, ◌%◌, ◌≤◌, min, Bool, true, false, ◌&&◌, ◌||◌, Option, none,
  some, List, [], ◌∷◌, ◌++◌, ltb, leb, ◌==◌, if◌then◌else◌, get_elem?, set,
}
use mimalloc_rs.Word.{word_bits, ◌<<<◌, count_ones}
use mimalloc_rs.Bitmap.Field.{
  Update, mask_n, bf_all_set, bf_all_clear, bf_set_mask, bf_try_clear_mask, bf_find_and_clear_run,
}

-- The fields.
abbrev pub Chunk : Type 0
Chunk = List ℕ

abbrev pub chunk_bits : ℕ
chunk_bits = 512

abbrev pub chunk_fields : ℕ
chunk_fields = 8

abbrev pub zeroed : Chunk
zeroed = 0 ∷ 0 ∷ 0 ∷ 0 ∷ 0 ∷ 0 ∷ 0 ∷ 0 ∷ []

abbrev pub field_of : ℕ → ℕ
field_of cbit = cbit / 64

abbrev pub offset_of : ℕ → ℕ
offset_of cbit = cbit % 64

abbrev pub field : Chunk → ℕ → Option ℕ
field c f = get_elem? c f

-- How many of `remaining` bits from `bit` on lie in the field of `bit`, and their mask.
abbrev pub here : ℕ → ℕ → ℕ
here bit remaining = min remaining (64 - bit % 64)

abbrev pub mask_here : ℕ → ℕ → ℕ
mask_here bit remaining = mask_n (here bit remaining) <<< (bit % 64)

unfoldable pub is_set : Chunk → ℕ → Option Bool
is_set c cbit = elim (field c (field_of cbit)) [
  | none ↦ none
  | some w ↦ some (bf_all_set w (1 <<< offset_of cbit))
]

unfoldable pub for_each_field_mask : (ℕ → ℕ → Bool) → ℕ → Chunk → ℕ → ℕ → Option Bool
for_each_field_mask pred zero c bit remaining = none
for_each_field_mask pred (suc rounds) c bit remaining =
    let k = here bit remaining in
    let next : Option Bool = elim (field c (field_of bit)) [
      | none ↦ none
      | some w ↦ elim (pred w (mask_here bit remaining)) [
        | false ↦ some false
        | true ↦ for_each_field_mask pred rounds c (bit + k) (remaining - k)
      ]
    ] in
    if remaining == 0 then some true else next

unfoldable pub is_set_n : Chunk → ℕ → ℕ → Option Bool
is_set_n c cbit n = for_each_field_mask bf_all_set (n + 1) c cbit n

unfoldable pub is_clear_n : Chunk → ℕ → ℕ → Option Bool
is_clear_n c cbit n = for_each_field_mask bf_all_clear (n + 1) c cbit n

unfoldable pub set_loop : ℕ → Chunk → ℕ → ℕ → Option Chunk
set_loop zero c bit remaining = none
set_loop (suc rounds) c bit remaining =
    let k = here bit remaining in
    let next : Option Chunk = elim (field c (field_of bit)) [
      | none ↦ none
      | some w ↦
          set_loop rounds (set c (field_of bit) (bf_set_mask [] w (mask_here bit remaining)).after)
            (bit + k) (remaining - k)
    ] in
    if remaining == 0 then some c else next

unfoldable pub set_n : Chunk → ℕ → ℕ → Option Chunk
set_n c cbit n = set_loop (n + 1) c cbit n

-- The fields that were cleared, with the masks.
abbrev pub Cleared : Type 0
Cleared = List (ℕ × ℕ)

unfoldable pub clear_loop : ℕ → Chunk → Cleared → ℕ → ℕ → Option (Chunk × Cleared × Bool)
clear_loop zero c cleared bit remaining = none
clear_loop (suc rounds) c cleared bit remaining =
    let k = here bit remaining in
    let mask = mask_here bit remaining in
    let f = field_of bit in
    let next : Option (Chunk × Cleared × Bool) = elim (field c f) [
      | none ↦ none
      | some w ↦ elim (bf_try_clear_mask [] w mask).result [
        | true ↦
            clear_loop rounds (set c f (bf_try_clear_mask [] w mask).after)
              (cleared ++ (f, mask) ∷ []) (bit + k) (remaining - k)
        | false ↦ some (c, cleared, false)
      ]
    ] in
    if remaining == 0 then some (c, cleared, true) else next

unfoldable pub roll_back : Chunk → Cleared → Option Chunk
roll_back c [] = some c
roll_back c ((f, mask) ∷ rest) = elim (field c f) [
  | none ↦ none
  | some w ↦ roll_back (set c f (bf_set_mask [] w mask).after) rest
]

-- The fast path on one field.
unfoldable pub clear_in_field : Chunk → ℕ → ℕ → Option (Chunk × Bool)
clear_in_field c cbit n = elim (field c (field_of cbit)) [
  | none ↦ none
  | some w ↦
      let u = bf_try_clear_mask [] w (mask_n n <<< offset_of cbit) in
      some (set c (field_of cbit) u.after, u.result)
]

unfoldable pub clear_across : Chunk → ℕ → ℕ → Option (Chunk × Bool)
clear_across c cbit n = elim (clear_loop (n + 1) c [] cbit n) [
  | none ↦ none
  | some (c', cleared, ok) ↦ elim ok [
    | true ↦ some (c', true)
    | false ↦ elim (roll_back c' cleared) [ none ↦ none | some c'' ↦ some (c'', false) ]
  ]
]

unfoldable pub try_clear_n : Chunk → ℕ → ℕ → Option (Chunk × Bool)
try_clear_n c cbit n =
    if leb (offset_of cbit + n) word_bits then clear_in_field c cbit n else clear_across c cbit n

unfoldable pub find_in_fields : ℕ → Chunk → ℕ → ℕ → Option (Chunk × Option ℕ)
find_in_fields zero c f n = some (c, none)
find_in_fields (suc rounds) c f n = elim (field c f) [
  | none ↦ none
  | some w ↦ elim (bf_find_and_clear_run [] n w).result [
    | some b ↦ some (set c f (bf_find_and_clear_run [] n w).after, some (f * word_bits + b))
    | none ↦ find_in_fields rounds c (f + 1) n
  ]
]

unfoldable pub find_spanning : ℕ → Chunk → ℕ → ℕ → Option (Chunk × Option ℕ)
find_spanning zero c start n = none
find_spanning (suc rounds) c start n =
    let next : Option (Chunk × Option ℕ) = elim (is_set_n c start n) [
      | none ↦ none
      | some false ↦ find_spanning rounds c (start + 1) n
      | some true ↦ elim (try_clear_n c start n) [
        | none ↦ none
        | some (c', true) ↦ some (c', some start)
        | some (c', false) ↦ find_spanning rounds c' start n
      ]
    ] in
    if leb (start + n) chunk_bits then next else some (c, none)

unfoldable pub find_and_clear_n_spanning : Chunk → ℕ → Option (Chunk × Option ℕ)
find_and_clear_n_spanning c n = find_spanning (chunk_bits + 1) c 0 n

unfoldable pub popcount : Chunk → ℕ
popcount [] = 0
popcount (w ∷ c) = count_ones word_bits w + popcount c

-- The popcount reject, and the search over all positions.
unfoldable pub find_rest : Chunk → ℕ → Option (Chunk × Option ℕ)
find_rest c n = if ltb (popcount c) n then some (c, none) else find_and_clear_n_spanning c n

unfoldable pub find_and_clear_n : Chunk → ℕ → Option (Chunk × Option ℕ)
find_and_clear_n c n =
    let first : Option (Chunk × Option ℕ) = elim (find_in_fields chunk_fields c 0 n) [
      | none ↦ none
      | some (c', some idx) ↦ some (c', some idx)
      | some (c', none) ↦ find_rest c' n
    ] in
    if n == 0 || ltb chunk_bits n
    then some (c, none)
    else if leb n word_bits
    then first
    else find_rest c n

unfoldable pub is_all_clear : Chunk → Bool
is_all_clear [] = true
is_all_clear (w ∷ c) = w == 0 && is_all_clear c
