-- ===== src/Arena/Slices.antt =====
-- src/arena.rs, `free_slices`, `schedule_purge` and `ensure_committed` inside one chunk.
use mimalloc_rs.Prelude.{
  ℕ, ◌+◌, ◌*◌, ◌/◌, ◌<◌, ◌≡◌, refl, ◌∙◌, ◌⊎◌, inl, inr, Bool, true, false, Option, some, none,
  arith, ◌==◌, min, Bool-cases, Option-cases, within,
}
use mimalloc_rs.Bitmap.Map.{Bitmap, chunk_count, set_n}
use mimalloc_rs.Bitmap.Map.View.{IsBitmap, bit_of}
use mimalloc_rs.Bitmap.Map.Update.{RangeIs, SetOn}
use mimalloc_rs.Bitmap.Map.Query.{bitmap_is_set_n_lem, set_n_kept}
use mimalloc_rs.Options.Integers.{ℤ, pos, negsuc, max_i64}
use mimalloc_rs.Os.{System, commit}
use mimalloc_rs.Arena.{Arena, ensure_committed, run_purge, schedule_purge, free_slices, slice_ptr}
use mimalloc_rs.Arena.View.{
  IsArena, IsRange, chunk-lt, ClearedWhere, IsSamePlace, IsPurged, with_free-IsArena,
  with_purge-IsArena, with_expire-IsArena,
}
use mimalloc_rs.Arena.Purge.{run_purge_lem}

-- The free slices are the same, and only slices that are free stop being committed or become clean.
pub record IsQuiet (a b : Arena) : Type 0 where
  pub is : IsArena b
  pub place : IsSamePlace a b
  pub free : (i : ℕ) → bit_of b.free i ≡ bit_of a.free i
  pub committed : ClearedWhere (λ i. bit_of a.free i ≡ true) a.committed b.committed
  pub dirty : ClearedWhere (λ i. bit_of a.free i ≡ true) a.dirty b.dirty

IsQuiet-refl : (a : Arena) → IsArena a → IsQuiet a a
IsQuiet-refl a is = record {
  is = is;
  place = record { start = refl; slice_count = refl; memid = refl };
  free = λ i. refl;
  committed = λ i. inl refl;
  dirty = λ i. inl refl;
}

module _ (sys : System) where
  schedule_purge_lem :
      (a : Arena) (idx n : ℕ)
      → IsArena a
      → IsRange a idx n
      → (b : Arena) × (schedule_purge sys a idx n ≡ some b) × IsQuiet a b
  unfolding schedule_purge
  schedule_purge_lem a idx n is range = go sys.arena_purge_delay refl
    where
      lt : idx / 512 < chunk_count a.free
      lt = chunk-lt a idx is (omega (arith, range.inside, range.some_slice))

      weaken : {E F G H : Type 0} → E ⊎ (F × (G × H)) → E ⊎ (F × G)
      weaken (inl e) = inl e
      weaken (inr (f, (g, h))) = inr (f, g)

      unmoved : (p : Bitmap) → IsArena (record a { purge = p }) → IsQuiet a (record a { purge = p })
      unmoved p ok = record {
        is = ok;
        place = record { start = refl; slice_count = refl; memid = refl };
        free = λ i. refl;
        committed = λ i. inl refl;
        dirty = λ i. inl refl;
      }

      at_once :
          (delay : ℕ) (p : Bitmap) (was : Bool)
          → sys.arena_purge_delay ≡ pos delay
          → a.memid.is_pinned ≡ false
          → set_n a.purge idx n ≡ some (p, was)
          → (delay == 0) ≡ true
          → (r : Arena × Bool) → run_purge sys (record a { purge = p }) ≡ some r
          → IsPurged (record a { purge = p }) r.0
          → (b : Arena) × (schedule_purge sys a idx n ≡ some b) × IsQuiet a b
      at_once delay p was e movable got now (b, purged) ran did = (
        b,
        simp (e, schedule_purge, movable, got, now, ran),
        record {
          is = did.is;
          place = record {
            start = did.place.start;
            slice_count = did.place.slice_count;
            memid = did.place.memid;
          };
          free = did.free;
          committed = λ i. weaken (did.committed i);
          dirty = λ i. weaken (did.dirty i);
        },
      )

      timed :
          (p : Bitmap) (t : ℕ)
          → IsArena (record a { purge = p; purge_expire = t })
          → IsQuiet a (record a { purge = p; purge_expire = t })
      timed p t ok = record {
        is = ok;
        place = record { start = refl; slice_count = refl; memid = refl };
        free = λ i. refl;
        committed = λ i. inl refl;
        dirty = λ i. inl refl;
      }

      go :
          (delay : ℤ)
          → sys.arena_purge_delay ≡ delay
          → (b : Arena) × (schedule_purge sys a idx n ≡ some b) × IsQuiet a b
      go (negsuc k) e = (a, rw (e, schedule_purge) refl, IsQuiet-refl a is)
      go (pos delay) e = elim (Bool-cases a.memid.is_pinned) [
        | inl pinned ↦ (a, rw (e, schedule_purge, pinned) refl, IsQuiet-refl a is)
        | inr movable ↦
            let (p, was, got, ok, over, count) =
              set_n_kept a.purge idx n is.purge (omega (arith, lt, is.same_purge))
                range.one_chunk in
            let is_p = with_purge-IsArena a p is ok (omega (arith, count, is.same_purge)) in
            elim (Bool-cases (delay == 0)) [
              | inl now ↦
                  let (r, ran, did, clear) = run_purge_lem sys (record a { purge = p }) is_p in
                  at_once delay p was e movable got now r ran did
              | inr later ↦ elim (Bool-cases (a.purge_expire == 0)) [
                | inl first ↦
                    let t = min (sys.clock_now_msecs + delay) max_i64 in
                    (
                      record a { purge = p; purge_expire = t },
                      simp (e, schedule_purge, movable, got, later, first),
                      timed p t (with_expire-IsArena (record a { purge = p }) t is_p),
                    )
                | inr armed ↦ (
                  record a { purge = p },
                  simp (e, schedule_purge, movable, got, later, armed),
                  unmoved p is_p,
                )
              ]
            ]
      ]

  -- `free_slices` of slices that no chunk boundary divides does not fault and keeps the invariant.
  -- It makes those slices free and no others; slices stop being committed only if they are free
  -- afterwards, even where a purge follows at once.
  pub free_slices_lem :
      (a : Arena) (idx n : ℕ)
      → IsArena a
      → IsRange a idx n
      → (b : Arena) × (free_slices sys a idx n ≡ some b)
        × IsArena b
        × IsSamePlace a b
        × SetOn a.free idx n b.free
        × ClearedWhere (λ i. bit_of b.free i ≡ true) a.committed b.committed
  unfolding free_slices
  free_slices_lem a idx n is range =
      let lt = chunk-lt a idx is (omega (arith, range.inside, range.some_slice)) in
      let (f, was, got, ok, over, count) = set_n_kept a.free idx n is.free lt range.one_chunk in
      let inside : (i : ℕ) → bit_of f i ≡ true → i < a.slice_count = λ i set.
        elim (Bool-cases (within idx (idx + n) i)) [
          | inl e ↦ ground (arith, range.inside)
          | inr e ↦ is.inside i (ground (arith, over i))
        ] in
      let (b, done, quiet) =
        schedule_purge_lem (record a { free = f }) idx n (with_free-IsArena a f is ok count inside)
          (record {
            some_slice = range.some_slice;
            inside = range.inside;
            one_chunk = range.one_chunk;
          }) in
      (
        b,
        rw (got, free_slices) done,
        quiet.is,
        record {
          start = quiet.place.start;
          slice_count = quiet.place.slice_count;
          memid = quiet.place.memid;
        },
        λ i. quiet.free i ∙ over i,
        λ i. elim (quiet.committed i) [
          | inl same ↦ inl same
          | inr (off, free) ↦ inr (off, quiet.free i ∙ free)
        ],
      )

  -- Committing succeeds, or the platform refused and nothing changed.
  abbrev pub Commits : Arena → ℕ → ℕ → Option (Arena × Bool) → Type 0
  Commits a idx n o =
      ((c : Bitmap) × (o ≡ some (record a { committed = c }, true))
        × IsBitmap c
        × (chunk_count c ≡ chunk_count a.free)
        × RangeIs true c idx n)
      ⊎ ((o ≡ some (a, false)) × (commit sys (slice_ptr a idx) (n * 65536) ≡ none))

  pub ensure_committed_lem :
      (a : Arena) (idx n : ℕ)
      → IsArena a
      → IsRange a idx n
      → Commits a idx n (ensure_committed sys a idx n)
  unfolding ensure_committed
  ensure_committed_lem a idx n is range =
      let lt = chunk-lt a idx is (omega (arith, range.inside, range.some_slice)) in
      let (all, query, iff) =
        bitmap_is_set_n_lem a.committed idx n is.committed (omega (arith, lt, is.same_committed))
          range.one_chunk in
      let (c, was, got, ok, over, count) =
        set_n_kept a.committed idx n is.committed (omega (arith, lt, is.same_committed))
          range.one_chunk in
      elim (Bool-cases all) [
        | inl yes_ ↦ inl (
          a.committed,
          rw (query, ensure_committed, yes_) refl,
          is.committed,
          is.same_committed,
          iff.0 yes_,
        )
        | inr no_ ↦ elim (Option-cases (commit sys (slice_ptr a idx) (n * 65536))) [
          | inl refused ↦ inr (rw (query, ensure_committed, no_, refused) refl, refused)
          | inr (zero_, granted) ↦ inl (
            c,
            rw (query, ensure_committed, no_, granted, got) refl,
            ok,
            omega (arith, count, is.same_committed),
            λ i lo hi. ground (arith, over i),
          )
        ]
      ]
