-- ===== src/Meta.antt =====
-- src/arena_meta.rs: the metadata allocator, which hands out runs of 64-byte blocks from regions of
-- 32 KiB. Each call runs under its lock. A region is known by the address that its header and its
-- blocks start at, and by the bitmap of its free blocks; the newest one comes first.
pub mod Regions
pub mod Free
pub mod Alloc
mod Tests
use mimalloc_rs.Prelude.{
  ℕ, ◌+◌, ◌-◌, ◌*◌, ◌/◌, ◌&&◌, ◌||◌, Bool, true, false, Option, none, some, List, [], ◌∷◌, ltb, leb,
  ◌==◌, if◌then◌else◌, within,
}
use mimalloc_rs.Bitmap.Map.{Bitmap, set_n}
use mimalloc_rs.Bitmap.Wide.{try_find_and_clear_n, unsafe_set_n}
use mimalloc_rs.Arena.{zeroed_bitmap}

abbrev pub block_size : ℕ
block_size = 64

abbrev pub blocks : ℕ
blocks = 512

abbrev pub region_size : ℕ
region_size = 32768

pub record MetaChunk : Type 0 where
  pub base : ℕ
  pub bitmap : Bitmap
  pub first_data_block : ℕ

-- The regions and the bytes of the memory.
pub record Meta : Type 0 where
  pub chunks : List MetaChunk
  pub bytes : ℕ → ℕ

unfoldable pub block_ptr : MetaChunk → ℕ → ℕ
block_ptr c idx = c.base + idx * block_size

unfoldable pub owns : MetaChunk → ℕ → Bool
owns c a = leb c.base a && ltb a (c.base + region_size)

unfoldable pub div_ceil : ℕ → ℕ → ℕ
div_ceil size b = (size + (b - 1)) / b

-- `write_bytes(p, 0, n)`.
abbrev pub zero_bytes : (ℕ → ℕ) → ℕ → ℕ → ℕ → ℕ
zero_bytes bytes p n a = if within p (p + n) a then 0 else bytes a

-- The first region with a free run of `n` blocks: the regions after, and the run, in which region.
unfoldable pub serve : List MetaChunk → ℕ → Option (List MetaChunk × Option ℕ)
serve [] n = some ([], none)
serve (c ∷ cs) n = elim (try_find_and_clear_n c.bitmap n 0) [
  | none ↦ none
  | some (m, some idx) ↦ some (record c { bitmap = m } ∷ cs, some (block_ptr c idx))
  | some (m, none) ↦ elim (serve cs n) [
    | none ↦ none
    | some (cs', got) ↦ some (record c { bitmap = m } ∷ cs', got)
  ]
]

unfoldable pub free_in : List MetaChunk → ℕ → ℕ → Option (List MetaChunk)
free_in [] p n = some []
free_in (c ∷ cs) p n =
    let here : Option (List MetaChunk) = elim (set_n c.bitmap ((p - c.base) / block_size) n) [
      | none ↦ none
      | some (m, was_clear) ↦ some (record c { bitmap = m } ∷ cs)
    ] in
    let later : Option (List MetaChunk) = elim (free_in cs p n) [
      | none ↦ none
      | some cs' ↦ some (c ∷ cs')
    ] in
    if owns c p then here else later

unfoldable pub meta_free : Meta → ℕ → ℕ → Option Meta
meta_free s p size = elim (free_in s.chunks p (div_ceil size block_size)) [
  | none ↦ none
  | some cs ↦ some (record s { chunks = cs })
]

-- A region at `base`, with a header of `header_size` bytes, which the compiler lays out.
unfoldable pub new_chunk : ℕ → ℕ → Option MetaChunk
new_chunk header_size base =
    let header_blocks = div_ceil header_size block_size in
    elim (unsafe_set_n (zeroed_bitmap 1) header_blocks (blocks - header_blocks)) [
      | none ↦ none
      | some m ↦ some (record { base = base; bitmap = m; first_data_block = header_blocks })
    ]

-- The memory that the operating system gives for a new region, if it does; it is zeroed.
module _ (header_size : ℕ) (os_memory : Option ℕ) where
  unfoldable pub push_new_chunk : Meta → Option (Meta × Option MetaChunk)
  push_new_chunk s = elim os_memory [
    | none ↦ some (s, none)
    | some base ↦ elim (new_chunk header_size base) [
      | none ↦ none
      | some c ↦
          some
            (record { chunks = c ∷ s.chunks; bytes = zero_bytes s.bytes base region_size }, some c)
    ]
  ]

  -- From the region that has just been pushed.
  unfoldable pub serve_new : Meta → MetaChunk → ℕ → Option (Meta × Option ℕ)
  serve_new s c n = elim s.chunks [
    | [] ↦ none
    | _ ∷ cs ↦ elim (try_find_and_clear_n c.bitmap n 0) [
      | none ↦ none
      | some (m, none) ↦ some (record s { chunks = record c { bitmap = m } ∷ cs }, none)
      | some (m, some idx) ↦
          some (record s { chunks = record c { bitmap = m } ∷ cs }, some (block_ptr c idx))
    ]
  ]

  unfoldable pub grow : Meta → ℕ → Option (Meta × Option ℕ)
  grow s n = elim (push_new_chunk s) [
    | none ↦ none
    | some (s', none) ↦ some (s', none)
    | some (s', some c) ↦ serve_new s' c n
  ]

  unfoldable pub meta_zalloc : Meta → ℕ → Option (Meta × Option ℕ)
  meta_zalloc s size =
      let n = div_ceil size block_size in
      let served : Option (Meta × Option ℕ) = elim (serve s.chunks n) [
        | none ↦ none
        | some (cs, some p) ↦
            some (record { chunks = cs; bytes = zero_bytes s.bytes p (n * block_size) }, some p)
        | some (cs, none) ↦ grow (record s { chunks = cs }) n
      ] in
      if n == 0 || ltb blocks n then some (s, none) else served
