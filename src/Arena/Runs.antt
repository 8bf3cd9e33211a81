-- ===== src/Arena/Runs.antt =====
-- src/arena.rs, one run of scheduled slices in `run_purge`: how far it goes, and what its purge
-- changes.
use mimalloc_rs.Prelude.{
  ℕ, zero, suc, ◌+◌, ◌-◌, ◌/◌, ◌<◌, ◌≤◌, ◌≡◌, refl, sym, ◌∙◌, ap, subst, ◌⊎◌, inl, inr, Bool, true,
  false, Option, some, arith, ltb, ◌==◌, ◌&&◌, Bool-cases, within,
}
use mimalloc_rs.Bitmap.Map.{Bitmap, chunk_count, clear_n}
use mimalloc_rs.Bitmap.Map.View.{IsBitmap, bit_of}
use mimalloc_rs.Bitmap.Map.Update.{RangeIs, SetOn, ClearedOn, ClearsRange}
use mimalloc_rs.Bitmap.Map.Query.{bitmap_is_set_lem, bitmap_is_set_n_lem, set_n_kept, clear_n_kept}
use mimalloc_rs.Os.{System, purge_ex}
use mimalloc_rs.Arena.{Arena, run_end, purge_claimed, purge_range}
use mimalloc_rs.Arena.View.{
  IsArena, IsRange, chunk-lt, ClearedWhere, IsDue, IsSamePlace, IsPurged, with_free-IsArena,
  with_purge-IsArena,
}

-- What clearing a range does to a bitmap, whether or not all of it was set.
clears :
    (m : Bitmap) (idx n : ℕ) (r : Bitmap × Bool)
    → ClearsRange m idx n r
    → (i : ℕ)
    → (bit_of r.0 i ≡ bit_of m i) ⊎ ((bit_of r.0 i ≡ false) × (within idx (idx + n) i ≡ true))
clears m idx n (m', true) (set, now) i = elim (Bool-cases (within idx (idx + n) i)) [
  | inl e ↦ inr (ground (arith, now i), e)
  | inr e ↦ inl (ground (arith, now i))
]
clears m idx n (m', false) (not_set, same) i = inl (same i)

module _ (sys : System) where
  -- The extended run stays in its field and in the arena, and all of it is scheduled.
  pub run_end_lem :
      (rounds : ℕ) (a : Arena) (field_end end : ℕ)
      → IsArena a
      → end ≤ a.slice_count
      → end ≤ field_end
      → field_end < end + rounds
      → (e : ℕ) × (run_end sys rounds a field_end end ≡ some e)
        × (end ≤ e)
        × (e ≤ a.slice_count)
        × (e ≤ field_end)
        × RangeIs true a.purge end (e - end)
  unfolding run_end
  run_end_lem zero a field_end end is le to few = absurd (omega arith)
  run_end_lem (suc rounds) a field_end end is le to few =
      elim (Bool-cases (ltb end a.slice_count && ltb end field_end)) [
        | inr stop ↦
            (end, rw (stop, run_end) refl, omega arith, le, to, λ i lo hi. absurd (omega arith))
        | inl go ↦
            let lt : end < a.slice_count = ground arith in
            let got =
              bitmap_is_set_lem a.purge end is.purge
                (omega (arith, chunk-lt a end is lt, is.same_purge)) in
            elim (Bool-cases (bit_of a.purge end)) [
              | inr off ↦ (
                end,
                rw (go, run_end, got, off) refl,
                omega arith,
                le,
                to,
                λ i lo hi. absurd (omega arith),
              )
              | inl on ↦
                  let (e, rest, ge, inside, field, all) =
                    run_end_lem rounds a field_end (end + 1) is (omega arith) (ground arith)
                      (omega arith) in
                  (
                    e,
                    rw (go, run_end, got, on) rest,
                    omega arith,
                    inside,
                    field,
                    λ i lo hi. elim (Bool-cases (i == end)) [
                      | inl q ↦ let w : i ≡ end = ground arith in rw w on
                      | inr q ↦ all i (ground arith) (omega arith)
                    ],
                  )
            ]
      ]

  -- The claimed slices become free, and their memory may be given back.
  record IsHandedBack (a b : Arena) (idx n : ℕ) : Type 0 where
    is : IsArena b
    place : IsSamePlace a b
    free : SetOn a.free idx n b.free
    purge : b.purge ≡ a.purge
    expire : b.purge_expire ≡ a.purge_expire
    committed : ClearedWhere (λ i. within idx (idx + n) i ≡ true) a.committed b.committed
    dirty : ClearedWhere (λ i. within idx (idx + n) i ≡ true) a.dirty b.dirty

  purge_claimed_lem :
      (a : Arena) (idx n : ℕ)
      → IsArena a
      → IsRange a idx n
      → (b : Arena) × (purge_claimed sys a idx n ≡ some b) × IsHandedBack a b idx n
  unfolding purge_claimed
  purge_claimed_lem a idx n is range =
      let lt = chunk-lt a idx is (omega (arith, range.inside, range.some_slice)) in
      let (all, query, iff) =
        bitmap_is_set_n_lem a.committed idx n is.committed (omega (arith, lt, is.same_committed))
          range.one_chunk in
      let ((c, c_all), got_c, ok_c, clears_c, count_c) =
        clear_n_kept a.committed idx n is.committed (omega (arith, lt, is.same_committed))
          range.one_chunk in
      let ((d, d_all), got_d, ok_d, clears_d, count_d) =
        clear_n_kept a.dirty idx n is.dirty (omega (arith, lt, is.same_dirty)) range.one_chunk in
      let (f, f_clear, got_f, ok_f, over, count_f) =
        set_n_kept a.free idx n is.free lt range.one_chunk in
      let within_arena : (i : ℕ) → bit_of f i ≡ true → i < a.slice_count = λ i set.
        elim (Bool-cases (within idx (idx + n) i)) [
          | inl e ↦ ground (arith, range.inside)
          | inr e ↦ is.inside i (ground (arith, over i))
        ] in
      elim (Bool-cases (purge_ex sys all)) [
        | inl decommit ↦ (
          record a { committed = c; dirty = d; free = f },
          rw (query, purge_claimed, decommit, got_c, got_d, got_f) refl,
          record {
            is = record {
              free = ok_f;
              committed = ok_c;
              purge = is.purge;
              dirty = ok_d;
              same_committed = omega (arith, count_c, count_f, is.same_committed);
              same_purge = omega (arith, count_f, is.same_purge);
              same_dirty = omega (arith, count_d, count_f, is.same_dirty);
              covers = omega (arith, count_f, is.covers);
              inside = within_arena;
            };
            place = record { start = refl; slice_count = refl; memid = refl };
            free = over;
            purge = refl;
            expire = refl;
            committed = clears a.committed idx n (c, c_all) clears_c;
            dirty = clears a.dirty idx n (d, d_all) clears_d;
          },
        )
        | inr keep ↦ (
          record a { free = f },
          rw (query, purge_claimed, keep, got_f) refl,
          record {
            is = record {
              free = ok_f;
              committed = is.committed;
              purge = is.purge;
              dirty = is.dirty;
              same_committed = omega (arith, count_f, is.same_committed);
              same_purge = omega (arith, count_f, is.same_purge);
              same_dirty = omega (arith, count_f, is.same_dirty);
              covers = omega (arith, count_f, is.covers);
              inside = within_arena;
            };
            place = record { start = refl; slice_count = refl; memid = refl };
            free = over;
            purge = refl;
            expire = refl;
            committed = λ i. inl refl;
            dirty = λ i. inl refl;
          },
        )
      ]

  -- A scheduled run is purged if all of it is free, and then it is scheduled no more.
  abbrev pub RangePurged : Arena → ℕ → ℕ → Option (Arena × Bool) → Type 0
  RangePurged a idx n o =
      (r : Arena × Bool) × (o ≡ some r) × IsPurged a r.0 × ClearedOn a.purge idx n r.0.purge

  pub purge_range_lem :
      (a : Arena) (idx n : ℕ)
      → IsArena a
      → IsRange a idx n
      → RangeIs true a.purge idx n
      → RangePurged a idx n (purge_range sys a idx n)
  unfolding purge_range
  purge_range_lem a idx n is range scheduled =
      let (r, got, ok, clears_f, count) = clear_n_kept a.free idx n is.free lt range.one_chunk in
      let (q, got_p, ok_p, clears_p, count_p) =
        clear_n_kept a.purge idx n is.purge (omega (arith, lt, is.same_purge)) range.one_chunk in
      claim r got ok clears_f count q got_p ok_p (gone q clears_p) count_p
    where
      lt : idx / 512 < chunk_count a.free
      lt = chunk-lt a idx is (omega (arith, range.inside, range.some_slice))

      gone : (q : Bitmap × Bool) → ClearsRange a.purge idx n q → ClearedOn a.purge idx n q.0
      gone (p, true) (set, now) = now
      gone (p, false) (not_set, same) = absurd (not_set scheduled)

      claim :
          (r : Bitmap × Bool)
          → clear_n a.free idx n ≡ some r
          → IsBitmap r.0
          → ClearsRange a.free idx n r
          → chunk_count r.0 ≡ chunk_count a.free
          → (q : Bitmap × Bool) → clear_n a.purge idx n ≡ some q
          → IsBitmap q.0
          → ClearedOn a.purge idx n q.0
          → chunk_count q.0 ≡ chunk_count a.purge
          → RangePurged a idx n (purge_range sys a idx n)
      claim (f, false) got ok (not_set, same) count (p, all_set) got_p ok_p gone count_p =
          let is_f =
            with_free-IsArena a f is ok count (λ i set. is.inside i (sym (same i) ∙ set)) in
          (
            (record a { free = f; purge = p }, false),
            rw (got, purge_range, got_p) refl,
            record {
              is =
                  with_purge-IsArena (record a { free = f }) p is_f ok_p
                    (omega (arith, count, count_p, is.same_purge));
              place = record { start = refl; slice_count = refl; memid = refl };
              free = same;
              committed = λ i. inl refl;
              dirty = λ i. inl refl;
              purge = λ i e. ground (arith, gone i, e);
              expire = refl;
            },
            gone,
          )
      claim (f, true) got ok (set, now) count (p, all_set) got_p ok_p gone count_p =
          let is_f =
            with_free-IsArena a f is ok count (λ i on. is.inside i (ground (arith, now i, on))) in
          let (b, done, back) =
            purge_claimed_lem (record a { free = f }) idx n is_f
              (record {
                some_slice = range.some_slice;
                inside = range.inside;
                one_chunk = range.one_chunk;
              }) in
          let got_b : clear_n b.purge idx n ≡ some (p, all_set) =
            subst (λ z. clear_n z idx n ≡ some (p, all_set)) (sym back.purge) got_p in
          let same_b : chunk_count b.purge ≡ chunk_count a.purge = ap chunk_count back.purge in
          (
            (record b { purge = p }, true),
            rw (got, purge_range, done, got_b) refl,
            record {
              is =
                  with_purge-IsArena b p back.is ok_p
                    (omega (arith, count_p, same_b, back.is.same_purge));
              place = record {
                start = back.place.start;
                slice_count = back.place.slice_count;
                memid = back.place.memid;
              };
              free = λ i. elim (Bool-cases (within idx (idx + n) i)) [
                | inl e ↦ ground (arith, back.free i, set i (ground arith) (ground arith), e)
                | inr e ↦ ground (arith, back.free i, now i, e)
              ];
              committed = λ i. due i (back.committed i);
              dirty = λ i. due i (back.dirty i);
              purge = λ i e. ground (arith, gone i, e);
              expire = back.expire;
            },
            gone,
          )
        where
          due :
              {E F : Type 0} (i : ℕ)
              → E ⊎ (F × (within idx (idx + n) i ≡ true))
              → E ⊎ (F × IsDue a i)
          due i (inl e) = inl e
          due i (inr (off, at)) = inr (
            off,
            (set i (ground arith) (ground arith), scheduled i (ground arith) (ground arith)),
          )
