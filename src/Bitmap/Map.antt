-- ===== src/Bitmap/Map.antt =====
-- src/bitmap.rs, `Bitmap`: up to 512 chunks and a chunkmap, in which the bit of every chunk that
-- may be non-empty is set. As for a chunk, the runs are those of one thread at a time, `none` is
-- the panic of an index out of bounds, and a loop has as many rounds as it can need.
pub mod View
pub mod Update
pub mod Find
pub mod Counts
pub mod Query
use mimalloc_rs.Prelude.{
  ℕ, zero, suc, ◌+◌, ◌-◌, ◌*◌, ◌/◌, ◌%◌, ◌≤◌, min, Bool, true, false, ◌&&◌, ◌||◌, not, Option, none,
  some, List, [], ◌∷◌, ◌++◌, ltb, leb, ◌==◌, if◌then◌else◌, get_elem?, set, length,
}
use mimalloc_rs.Word.{◌<<<◌}
use mimalloc_rs.Bitmap.Field.{bf_set_mask, bf_try_clear_mask}
use mimalloc_rs.Bitmap.Chunk
use mimalloc_rs.Bitmap.Chunk.{Chunk, chunk_bits, field, field_of, offset_of}

pub record Bitmap : Type 0 where
  pub chunkmap : Chunk
  pub chunks : List Chunk

abbrev pub chunk_count : Bitmap → ℕ
chunk_count m = length m.chunks

abbrev pub max_bits : Bitmap → ℕ
max_bits m = length m.chunks * chunk_bits

abbrev pub chunk_of : ℕ → ℕ
chunk_of idx = idx / 512

abbrev pub within_chunk : ℕ → ℕ
within_chunk idx = idx % 512

-- Write chunk `c`.
abbrev pub put : Bitmap → ℕ → Chunk → Bitmap
put m c d = record m { chunks = set m.chunks c d }

-- Set the bit of chunk `cidx` in the chunkmap.
unfoldable pub chunkmap_set : Bitmap → ℕ → Option Bitmap
chunkmap_set m cidx = elim (field m.chunkmap (field_of cidx)) [
  | none ↦ none
  | some w ↦ some (record m {
    chunkmap = set m.chunkmap (field_of cidx) (bf_set_mask [] w (1 <<< offset_of cidx)).after;
  })
]

unfoldable pub chunkmap_clear : Bitmap → ℕ → Chunk → Option Bitmap
chunkmap_clear m cidx chunk = elim (field m.chunkmap (field_of cidx)) [
  | none ↦ none
  | some w ↦
      let u = bf_try_clear_mask [] w (1 <<< offset_of cidx) in
      let m' = record m { chunkmap = set m.chunkmap (field_of cidx) u.after } in
      if u.result && not (Chunk.is_all_clear chunk) then chunkmap_set m' cidx else some m'
]

unfoldable pub chunkmap_clear_if_empty : Bitmap → ℕ → Option Bitmap
chunkmap_clear_if_empty m cidx = elim (get_elem? m.chunks cidx) [
  | none ↦ none
  | some chunk ↦ if Chunk.is_all_clear chunk then chunkmap_clear m cidx chunk else some m
]

unfoldable pub is_set : Bitmap → ℕ → Option Bool
is_set m idx = elim (get_elem? m.chunks (chunk_of idx)) [
  | none ↦ none
  | some c ↦ Chunk.is_set c (within_chunk idx)
]

unfoldable pub set_n : Bitmap → ℕ → ℕ → Option (Bitmap × Bool)
set_n m idx n = elim (get_elem? m.chunks (chunk_of idx)) [
  | none ↦ none
  | some c ↦ elim (Chunk.is_clear_n c (within_chunk idx) n) [
    | none ↦ none
    | some before_clear ↦ elim (Chunk.set_n c (within_chunk idx) n) [
      | none ↦ none
      | some d ↦ elim (chunkmap_set (put m (chunk_of idx) d) (chunk_of idx)) [
        | none ↦ none
        | some m' ↦ some (m', before_clear)
      ]
    ]
  ]
]

unfoldable pub clear_n : Bitmap → ℕ → ℕ → Option (Bitmap × Bool)
clear_n m idx n = elim (get_elem? m.chunks (chunk_of idx)) [
  | none ↦ none
  | some c ↦ elim (Chunk.try_clear_n c (within_chunk idx) n) [
    | none ↦ none
    | some (d, false) ↦ some (put m (chunk_of idx) d, false)
    | some (d, true) ↦ elim (chunkmap_clear_if_empty (put m (chunk_of idx) d) (chunk_of idx)) [
      | none ↦ none
      | some m' ↦ some (m', true)
    ]
  ]
]

unfoldable pub is_set_n : Bitmap → ℕ → ℕ → Option Bool
is_set_n m idx n =
    if ltb chunk_bits (within_chunk idx + n)
    then some false
    else elim (get_elem? m.chunks (chunk_of idx)) [
      | none ↦ none
      | some c ↦ Chunk.is_set_n c (within_chunk idx) n
    ]

unfoldable pub is_clear_n : Bitmap → ℕ → ℕ → Option Bool
is_clear_n m idx n =
    if ltb chunk_bits (within_chunk idx + n)
    then some false
    else elim (get_elem? m.chunks (chunk_of idx)) [
      | none ↦ none
      | some c ↦ Chunk.is_clear_n c (within_chunk idx) n
    ]

-- The search of chunk `c` once its chunkmap bit is known to be set.
unfoldable pub find_in_chunk : Bitmap → ℕ → ℕ → Option (Bitmap × Option ℕ)
find_in_chunk m c n = elim (get_elem? m.chunks c) [
  | none ↦ none
  | some chunk ↦ elim (Chunk.find_and_clear_n chunk n) [
    | none ↦ none
    | some (d, none) ↦ some (put m c d, none)
    | some (d, some b) ↦ elim (chunkmap_clear_if_empty (put m c d) c) [
      | none ↦ none
      | some m' ↦ some (m', some (c * chunk_bits + b))
    ]
  ]
]

-- `for k in 0..cc`, from `k` on with the rounds that are left.
unfoldable pub find_chunks : ℕ → Bitmap → ℕ → ℕ → ℕ → Option (Bitmap × Option ℕ)
find_chunks zero m start k n = some (m, none)
find_chunks (suc rounds) m start k n =
    let c = (start + k) % chunk_count m in
    elim (Chunk.is_set m.chunkmap c) [
      | none ↦ none
      | some false ↦ find_chunks rounds m start (k + 1) n
      | some true ↦ elim (find_in_chunk m c n) [
        | none ↦ none
        | some (m', some idx) ↦ some (m', some idx)
        | some (m', none) ↦ find_chunks rounds m' start (k + 1) n
      ]
    ]

-- The search for at most one chunk's worth of bits.
unfoldable pub find_small : Bitmap → ℕ → ℕ → Option (Bitmap × Option ℕ)
find_small m n tseq =
    find_chunks (chunk_count m) m (if chunk_count m == 0 then 0 else tseq % chunk_count m) 0 n
