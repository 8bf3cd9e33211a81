-- ===== src/Bitmap/Wide.antt =====
-- src/bitmap.rs, the operations of a bitmap on ranges that may cross chunks, the search for runs of
-- any length, and the search with a claim. A loop over a range has one round for each bit and one
-- more, the search for a long run one for each start and one more.
pub mod Ranges
pub mod Sets
pub mod Clears
pub mod Search
pub mod Claim
use mimalloc_rs.Prelude.{
  ℕ, zero, suc, ◌+◌, ◌-◌, ◌*◌, ◌/◌, ◌%◌, min, Bool, true, false, Option, none, some, List, [], ◌∷◌,
  get_elem?, ltb, leb, ◌==◌, if◌then◌else◌,
}
use mimalloc_rs.Bitmap.Chunk
use mimalloc_rs.Bitmap.Chunk.{Chunk, chunk_bits}
use mimalloc_rs.Bitmap.Map.{
  Bitmap, chunk_count, max_bits, chunk_of, within_chunk, put, chunkmap_set, chunkmap_clear_if_empty,
  clear_n, find_small,
}

-- The part of the range that lies in the chunk of `bit`.
abbrev pub part : ℕ → ℕ → ℕ
part bit remaining = min remaining (chunk_bits - within_chunk bit)

-- Set `n` bits from `bit` on, before the bitmap is shared.
unfoldable pub unsafe_set_loop : ℕ → Bitmap → ℕ → ℕ → Option Bitmap
unsafe_set_loop zero m bit remaining = none
unsafe_set_loop (suc rounds) m bit remaining =
    let k = part bit remaining in
    let next : Option Bitmap = elim (get_elem? m.chunks (chunk_of bit)) [
      | none ↦ none
      | some c ↦ elim (Chunk.set_n c (within_chunk bit) k) [
        | none ↦ none
        | some d ↦ elim (chunkmap_set (put m (chunk_of bit) d) (chunk_of bit)) [
          | none ↦ none
          | some m' ↦ unsafe_set_loop rounds m' (bit + k) (remaining - k)
        ]
      ]
    ] in
    if remaining == 0 then some m else next

unfoldable pub unsafe_set_n : Bitmap → ℕ → ℕ → Option Bitmap
unsafe_set_n m idx n = unsafe_set_loop (n + 1) m idx n

unfoldable pub range_set_loop : ℕ → Bitmap → ℕ → ℕ → Option Bool
range_set_loop zero m bit remaining = none
range_set_loop (suc rounds) m bit remaining =
    let k = part bit remaining in
    let next : Option Bool = elim (get_elem? m.chunks (chunk_of bit)) [
      | none ↦ none
      | some c ↦ elim (Chunk.is_set_n c (within_chunk bit) k) [
        | none ↦ none
        | some false ↦ some false
        | some true ↦ range_set_loop rounds m (bit + k) (remaining - k)
      ]
    ] in
    if remaining == 0 then some true else next

unfoldable pub range_is_set : Bitmap → ℕ → ℕ → Option Bool
range_is_set m idx n = range_set_loop (n + 1) m idx n

-- The clearing loop: the bitmap, how many bits were cleared, and whether all were.
unfoldable pub range_clear_loop : ℕ → Bitmap → ℕ → ℕ → ℕ → Option (Bitmap × ℕ × Bool)
range_clear_loop zero m done bit remaining = none
range_clear_loop (suc rounds) m done bit remaining =
    let k = part bit remaining in
    let next : Option (Bitmap × ℕ × Bool) = elim (get_elem? m.chunks (chunk_of bit)) [
      | none ↦ none
      | some c ↦ elim (Chunk.try_clear_n c (within_chunk bit) k) [
        | none ↦ none
        | some (d, false) ↦ some (put m (chunk_of bit) d, done, false)
        | some (d, true) ↦
            range_clear_loop rounds (put m (chunk_of bit) d) (done + k) (bit + k) (remaining - k)
      ]
    ] in
    if remaining == 0 then some (m, done, true) else next

unfoldable pub range_roll_back : ℕ → Bitmap → ℕ → ℕ → Option Bitmap
range_roll_back zero m rbit rb = none
range_roll_back (suc rounds) m rbit rb =
    let k = part rbit rb in
    let next : Option Bitmap = elim (get_elem? m.chunks (chunk_of rbit)) [
      | none ↦ none
      | some c ↦ elim (Chunk.set_n c (within_chunk rbit) k) [
        | none ↦ none
        | some d ↦ range_roll_back rounds (put m (chunk_of rbit) d) (rbit + k) (rb - k)
      ]
    ] in
    if rb == 0 then some m else next

-- `chunkmap_clear_if_empty` of the chunks from `c` on, as far as there are chunks.
unfoldable pub range_chunkmap : ℕ → Bitmap → ℕ → Option Bitmap
range_chunkmap zero m c = some m
range_chunkmap (suc rounds) m c =
    let next : Option Bitmap = elim (chunkmap_clear_if_empty m c) [
      | none ↦ none
      | some m' ↦ range_chunkmap rounds m' (c + 1)
    ] in
    if ltb c (chunk_count m) then next else range_chunkmap rounds m (c + 1)

unfoldable pub range_try_clear : Bitmap → ℕ → ℕ → Option (Bitmap × Bool)
range_try_clear m idx n = elim (range_clear_loop (n + 1) m 0 idx n) [
  | none ↦ none
  | some (m', done, false) ↦ elim (range_roll_back (done + 1) m' idx done) [
    | none ↦ none
    | some m'' ↦ some (m'', false)
  ]
  | some (m', done, true) ↦
      elim (range_chunkmap ((n + (chunk_bits - 1)) / chunk_bits + 1) m' (chunk_of idx)) [
        | none ↦ none
        | some m'' ↦ some (m'', true)
      ]
]

unfoldable pub huge_loop : ℕ → Bitmap → ℕ → ℕ → Option (Bitmap × Option ℕ)
huge_loop zero m n start = none
huge_loop (suc rounds) m n start =
    let next : Option (Bitmap × Option ℕ) = elim (range_is_set m start n) [
      | none ↦ none
      | some false ↦ huge_loop rounds m n (start + 1)
      | some true ↦ elim (range_try_clear m start n) [
        | none ↦ none
        | some (m', true) ↦ some (m', some start)
        | some (m', false) ↦ huge_loop rounds m' n start
      ]
    ] in
    if leb (start + n) (max_bits m) then next else some (m, none)

unfoldable pub try_find_and_clear_n_huge : Bitmap → ℕ → Option (Bitmap × Option ℕ)
try_find_and_clear_n_huge m n = huge_loop (max_bits m + 1) m n 0

unfoldable pub try_find_and_clear_n : Bitmap → ℕ → ℕ → Option (Bitmap × Option ℕ)
try_find_and_clear_n m n tseq =
    if n == 0
    then some (m, none)
    else (if leb n chunk_bits then find_small m n tseq else try_find_and_clear_n_huge m n)

-- The search with a claim; `claim` also changes the state that the caller shares with it.
module _ {S : Type 0} (claim : ℕ → S → S × Bool) where
  abbrev pub Claimed : Type 0
  Claimed = Option (Bitmap × S × Option ℕ)

  -- `for b in 0..CHUNK_BITS`, with the rounds that are left.
  unfoldable pub claim_bits : ℕ → Bitmap → S → ℕ → ℕ → Claimed
  claim_bits zero m s c b = some (m, s, none)
  claim_bits (suc rounds) m s c b =
      let idx = c * chunk_bits + b in
      let attempt : Claimed =
        let (s', won) = claim idx s in
        elim won [
          | false ↦ claim_bits rounds m s' c (b + 1)
          | true ↦ elim (clear_n m idx 1) [ none ↦ none | some (m', _) ↦ some (m', s', some idx) ]
        ] in
      elim (get_elem? m.chunks c) [
        | none ↦ none
        | some chunk ↦ elim (Chunk.is_set chunk b) [
          | none ↦ none
          | some true ↦ attempt
          | some false ↦ claim_bits rounds m s c (b + 1)
        ]
      ]

  -- `for k in 0..cc`, with the rounds that are left.
  unfoldable pub claim_chunks : ℕ → Bitmap → S → ℕ → ℕ → Claimed
  claim_chunks zero m s start k = some (m, s, none)
  claim_chunks (suc rounds) m s start k =
      let c = (start + k) % chunk_count m in
      elim (Chunk.is_set m.chunkmap c) [
        | none ↦ none
        | some false ↦ claim_chunks rounds m s start (k + 1)
        | some true ↦ elim (claim_bits chunk_bits m s c 0) [
          | none ↦ none
          | some (m', s', some idx) ↦ some (m', s', some idx)
          | some (m', s', none) ↦ claim_chunks rounds m' s' start (k + 1)
        ]
      ]

  unfoldable pub try_find_and_claim : Bitmap → S → ℕ → Claimed
  try_find_and_claim m s tseq =
      if chunk_count m == 0
      then some (m, s, none)
      else claim_chunks (chunk_count m) m s (tseq % chunk_count m) 0
