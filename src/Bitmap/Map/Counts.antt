-- ===== src/Bitmap/Map/Counts.antt =====
-- src/bitmap.rs, no operation on a bitmap changes the number of its chunks.
use mimalloc_rs.Prelude.{
  ℕ, zero, suc, ◌+◌, ◌%◌, ◌≡◌, refl, ◌∙◌, Bool, true, false, Option, some, none, arith, length-set,
}
use mimalloc_rs.Bitmap.Chunk
use mimalloc_rs.Bitmap.Chunk.{Chunk}
use mimalloc_rs.Bitmap.Map.{
  Bitmap, chunk_count, set_n, clear_n, chunkmap_set, chunkmap_clear, chunkmap_clear_if_empty,
  find_in_chunk, find_chunks, find_small,
}

chunkmap_set-chunks : (m m' : Bitmap) (c : ℕ) → chunkmap_set m c ≡ some m' → m'.chunks ≡ m.chunks
unfolding chunkmap_set
chunkmap_set-chunks m m' c e = ground (arith, e)

pub set_n-count :
    (m m' : Bitmap) (idx n : ℕ) (r : Bool)
    → set_n m idx n ≡ some (m', r)
    → chunk_count m' ≡ chunk_count m
unfolding set_n chunkmap_set
set_n-count m m' idx n r e = grind (arith, length-set, e)

chunkmap_clear_if_empty-count :
    (m m' : Bitmap) (c : ℕ) → chunkmap_clear_if_empty m c ≡ some m' → chunk_count m' ≡ chunk_count m
unfolding chunkmap_clear_if_empty chunkmap_clear chunkmap_set
chunkmap_clear_if_empty-count m m' c e = grind (arith, e)

pub clear_n-count :
    (m m' : Bitmap) (idx n : ℕ) (r : Bool)
    → clear_n m idx n ≡ some (m', r)
    → chunk_count m' ≡ chunk_count m
unfolding clear_n
clear_n-count m m' idx n r e = grind (arith, length-set, e, chunkmap_clear_if_empty-count)

find_in_chunk-count :
    (m m' : Bitmap) (c n : ℕ) (o : Option ℕ)
    → find_in_chunk m c n ≡ some (m', o)
    → chunk_count m' ≡ chunk_count m
unfolding find_in_chunk
find_in_chunk-count m m' c n o e = grind (arith, length-set, e, chunkmap_clear_if_empty-count)

find_chunks-count :
    (rounds : ℕ) (m m' : Bitmap) (start k n : ℕ) (o : Option ℕ)
    → find_chunks rounds m start k n ≡ some (m', o)
    → chunk_count m' ≡ chunk_count m
unfolding find_chunks
find_chunks-count zero m m' start k n o e = grind (arith, e)
find_chunks-count (suc rounds) m m' start k n o e =
    elim (Chunk.is_set m.chunkmap ((start + k) % chunk_count m))
        as (λ z.
          (elim z as (λ z. Option (Bitmap × Option ℕ)) [
            | none ↦ none
            | some false ↦ find_chunks rounds m start (k + 1) n
            | some true ↦
                elim (find_in_chunk m ((start + k) % chunk_count m) n)
                  as (λ z. Option (Bitmap × Option ℕ)) [
                    | none ↦ none
                    | some (m', some idx) ↦ some (m', some idx)
                    | some (m', none) ↦ find_chunks rounds m' start (k + 1) n
                  ]
          ])
            ≡ some (m', o)
          → chunk_count m' ≡ chunk_count m) [
            | none ↦ λ e. grind (arith, e)
            | some false ↦ λ e. find_chunks-count rounds m m' start (k + 1) n o e
            | some true ↦ λ e.
                found (λ y q. find_chunks-count rounds y m' start (k + 1) n o q)
                  (find_in_chunk m ((start + k) % chunk_count m) n) refl e
          ]
      e
  where
    found :
        ((y : Bitmap)
          → find_chunks rounds y start (k + 1) n ≡ some (m', o)
          → chunk_count m' ≡ chunk_count y)
        → (z : Option (Bitmap × Option ℕ)) → find_in_chunk m ((start + k) % chunk_count m) n ≡ z
        → elim z as (λ z. Option (Bitmap × Option ℕ)) [
          | none ↦ none
          | some (m', some idx) ↦ some (m', some idx)
          | some (m', none) ↦ find_chunks rounds m' start (k + 1) n
        ]
          ≡ some (m', o)
        → chunk_count m' ≡ chunk_count m
    found rec none got e = grind (arith, e)
    found rec (some (y, some idx)) got e =
        grind (arith, e, find_in_chunk-count m y ((start + k) % chunk_count m) n (some idx) got)
    found rec (some (y, none)) got e =
        rec y e ∙ find_in_chunk-count m y ((start + k) % chunk_count m) n none got

pub find_small-count :
    (m m' : Bitmap) (n tseq : ℕ) (o : Option ℕ)
    → find_small m n tseq ≡ some (m', o)
    → chunk_count m' ≡ chunk_count m
unfolding find_small
find_small-count m m' n tseq o e = find_chunks-count _ m m' _ 0 n o e
