-- ===== src/Arena/View.antt =====
-- src/arena.rs, the invariant of an arena, and what a purge may change.
use mimalloc_rs.Prelude.{
  ℕ, ◌+◌, ◌*◌, ◌/◌, ◌%◌, ◌<◌, ◌≤◌, ◌≡◌, refl, sym, ◌∙◌, ◌⊎◌, inl, inr, true, false, arith,
}
use mimalloc_rs.Bitmap.Map.{Bitmap, chunk_count}
use mimalloc_rs.Bitmap.Map.View.{IsBitmap, bit_of}
use mimalloc_rs.Arena.{Arena}

-- Four bitmaps of as many chunks, which cover the slices; no slice outside the arena is free.
pub record IsArena (a : Arena) : Type 0 where
  pub free : IsBitmap a.free
  pub committed : IsBitmap a.committed
  pub purge : IsBitmap a.purge
  pub dirty : IsBitmap a.dirty
  pub same_committed : chunk_count a.committed ≡ chunk_count a.free
  pub same_purge : chunk_count a.purge ≡ chunk_count a.free
  pub same_dirty : chunk_count a.dirty ≡ chunk_count a.free
  pub covers : a.slice_count ≤ chunk_count a.free * 512
  pub inside : (i : ℕ) → bit_of a.free i ≡ true → i < a.slice_count

-- A range of slices inside the arena and inside one chunk.
pub record IsRange (a : Arena) (idx n : ℕ) : Type 0 where
  pub some_slice : 1 ≤ n
  pub inside : idx + n ≤ a.slice_count
  pub one_chunk : idx % 512 + n ≤ 512

-- The chunk of a slice of the arena.
pub chunk-lt :
    (a : Arena) (idx : ℕ) → IsArena a → idx < a.slice_count → idx / 512 < chunk_count a.free
chunk-lt a idx is lt = omega (arith, is.covers)

-- `m'` is `m`, but for bits that are clear in `m'` and satisfy `P`.
abbrev pub ClearedWhere : (ℕ → Type 0) → Bitmap → Bitmap → Type 0
ClearedWhere P m m' = (i : ℕ) → (bit_of m' i ≡ bit_of m i) ⊎ ((bit_of m' i ≡ false) × P i)

-- The arena is where it was, and of as many slices.
pub record IsSamePlace (a b : Arena) : Type 0 where
  pub start : b.start ≡ a.start
  pub slice_count : b.slice_count ≡ a.slice_count
  pub memid : b.memid ≡ a.memid

-- The slice is free, and scheduled to be purged.
abbrev pub IsDue : Arena → ℕ → Type 0
IsDue a i = (bit_of a.free i ≡ true) × (bit_of a.purge i ≡ true)

-- What a purge of scheduled slices may do. The free slices stay what they are; slices stop being
-- committed, or become clean, only where they are free and scheduled. The deadline stays.
pub record IsPurged (a b : Arena) : Type 0 where
  pub is : IsArena b
  pub place : IsSamePlace a b
  pub free : (i : ℕ) → bit_of b.free i ≡ bit_of a.free i
  pub committed : ClearedWhere (IsDue a) a.committed b.committed
  pub dirty : ClearedWhere (IsDue a) a.dirty b.dirty
  pub purge : (i : ℕ) → bit_of b.purge i ≡ true → bit_of a.purge i ≡ true
  pub expire : b.purge_expire ≡ a.purge_expire

pub IsPurged-refl : (a : Arena) → IsArena a → IsPurged a a
IsPurged-refl a is = record {
  is = is;
  place = record { start = refl; slice_count = refl; memid = refl };
  free = λ i. refl;
  committed = λ i. inl refl;
  dirty = λ i. inl refl;
  purge = λ i e. e;
  expire = refl;
}

pub IsPurged-trans : (a b c : Arena) → IsPurged a b → IsPurged b c → IsPurged a c
IsPurged-trans a b c p q = record {
  is = q.is;
  place = record {
    start = q.place.start ∙ p.place.start;
    slice_count = q.place.slice_count ∙ p.place.slice_count;
    memid = q.place.memid ∙ p.place.memid;
  };
  free = λ i. q.free i ∙ p.free i;
  committed =
      λ i. ClearedWhere_trans a.committed b.committed c.committed i (p.committed i) (q.committed i);
  dirty = λ i. ClearedWhere_trans a.dirty b.dirty c.dirty i (p.dirty i) (q.dirty i);
  purge = λ i e. p.purge i (q.purge i e);
  expire = q.expire ∙ p.expire;
}
  where
    ClearedWhere_trans :
        (x y z : Bitmap) (i : ℕ)
        → (bit_of y i ≡ bit_of x i) ⊎ ((bit_of y i ≡ false) × IsDue a i)
        → (bit_of z i ≡ bit_of y i) ⊎ ((bit_of z i ≡ false) × IsDue b i)
        → (bit_of z i ≡ bit_of x i) ⊎ ((bit_of z i ≡ false) × IsDue a i)
    ClearedWhere_trans x y z i (inl before) (inl same) = inl (same ∙ before)
    ClearedWhere_trans x y z i (inr (off, due)) (inl same) = inr (same ∙ off, due)
    ClearedWhere_trans x y z i before (inr (off, due)) =
        inr (off, (sym (p.free i) ∙ due.0, p.purge i due.1))

-- An arena with another free bitmap of as many chunks.
pub with_free-IsArena :
    (a : Arena) (f : Bitmap)
    → IsArena a
    → IsBitmap f
    → chunk_count f ≡ chunk_count a.free
    → ((i : ℕ) → bit_of f i ≡ true → i < a.slice_count)
    → IsArena (record a { free = f })
with_free-IsArena a f is ok count inside = record {
  free = ok;
  committed = is.committed;
  purge = is.purge;
  dirty = is.dirty;
  same_committed = omega (arith, count, is.same_committed);
  same_purge = omega (arith, count, is.same_purge);
  same_dirty = omega (arith, count, is.same_dirty);
  covers = omega (arith, count, is.covers);
  inside = inside;
}

pub with_purge-IsArena :
    (a : Arena) (p : Bitmap)
    → IsArena a
    → IsBitmap p
    → chunk_count p ≡ chunk_count a.free
    → IsArena (record a { purge = p })
with_purge-IsArena a p is ok count = record {
  free = is.free;
  committed = is.committed;
  purge = ok;
  dirty = is.dirty;
  same_committed = is.same_committed;
  same_purge = count;
  same_dirty = is.same_dirty;
  covers = is.covers;
  inside = is.inside;
}

pub with_expire-IsArena : (a : Arena) (t : ℕ) → IsArena a → IsArena (record a { purge_expire = t })
with_expire-IsArena a t is = record {
  free = is.free;
  committed = is.committed;
  purge = is.purge;
  dirty = is.dirty;
  same_committed = is.same_committed;
  same_purge = is.same_purge;
  same_dirty = is.same_dirty;
  covers = is.covers;
  inside = is.inside;
}

pub with_committed-IsArena :
    (a : Arena) (c : Bitmap)
    → IsArena a
    → IsBitmap c
    → chunk_count c ≡ chunk_count a.free
    → IsArena (record a { committed = c })
with_committed-IsArena a c is ok count = record {
  free = is.free;
  committed = ok;
  purge = is.purge;
  dirty = is.dirty;
  same_committed = count;
  same_purge = is.same_purge;
  same_dirty = is.same_dirty;
  covers = is.covers;
  inside = is.inside;
}

pub with_dirty-IsArena :
    (a : Arena) (d : Bitmap)
    → IsArena a
    → IsBitmap d
    → chunk_count d ≡ chunk_count a.free
    → IsArena (record a { dirty = d })
with_dirty-IsArena a d is ok count = record {
  free = is.free;
  committed = is.committed;
  purge = is.purge;
  dirty = ok;
  same_committed = is.same_committed;
  same_purge = is.same_purge;
  same_dirty = count;
  covers = is.covers;
  inside = is.inside;
}
