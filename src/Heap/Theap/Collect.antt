-- ===== src/Heap/Theap/Collect.antt =====
-- src/heap.rs, `collect_retired`: the countdowns of all the pages that are kept.
use mimalloc_rs.Prelude.{
  ℕ, ◌+◌, ◌-◌, ◌≤◌, ◌≡◌, refl, sym, ap, ◌∙◌, ◌≢◌, inl, inr, Bool, true, false, arith, ◌==◌,
  Bool-cases, some, some-injective, List, [], ◌∷◌, subst, within, get_elem?-inside,
}
use mimalloc_rs.Os.{System}
use mimalloc_rs.Arena.{Arena}
use mimalloc_rs.Subproc.{Subproc}
use mimalloc_rs.Subproc.Arenas.{get_elem?-some}
use mimalloc_rs.Subproc.Purge.{IsSubprocPurged, Purges-slice_count, try_purge_lem}
use mimalloc_rs.PageQueue.{PageQueue}
use mimalloc_rs.PageQueue.Laws.{IsQueue}
use mimalloc_rs.Page.{Page}
use mimalloc_rs.Heap.Theap.{World, ThreadHeap, bin_full, set_theap, collect_retired}
use mimalloc_rs.Heap.Theap.Cells.{put_self}
use mimalloc_rs.Heap.Theap.Release.{IsHome}
use mimalloc_rs.Heap.Theap.Owned.{IsOwned, count_head}
use mimalloc_rs.Heap.Theap.Sweep.{head_expire, Swept}
use mimalloc_rs.Heap.Theap.Rounds.{SameOn, Swept-later, head_expire-same, sweep_lem}

-- The range of retired bins covers every bin whose front page counts down.
abbrev pub IsTracked : World → ℕ → (ℕ → List ℕ) → Type 0
IsTracked w t lists =
    (c : ℕ)
    → head_expire w (lists c) ≢ 0
    → ((w.theaps t).page_retired_min ≤ c) × (c ≤ (w.theaps t).page_retired_max)

Home-purged :
    (sys : System) (s s' : Subproc) (pg : Page) (a : Arena)
    → IsSubprocPurged sys false s s'
    → IsHome s pg a
    → (b : Arena) × IsHome s' pg b
Home-purged sys s s' pg a did home =
    let i = pg.arena - 1 in
    let inside = get_elem?-inside s.arenas i a home.arena in
    let (b, got) = get_elem?-some s'.arenas i (omega (arith, inside, did.count)) in
    let (c, was, purged) = did.arenas i b got in
    let e : c ≡ a = some-injective c a (sym was ∙ home.arena) in
    (
      b,
      record {
        some_arena = home.some_arena;
        arena = got;
        range = record {
          some_slice = home.range.some_slice;
          inside = omega (
            arith,
            Purges-slice_count sys false c b purged,
            ap (λ (x : Arena). x.slice_count) e,
            home.range.inside,
          );
          one_chunk = home.range.one_chunk;
        };
      },
    )

-- Another range and another process, with the same queues.
IsOwned-after :
    (sys : System) (w : World) (t : ℕ) (th : ThreadHeap) (s' : Subproc) (lists : ℕ → List ℕ)
    → IsOwned w t lists
    → IsSubprocPurged sys false w.subproc s'
    → th.pages ≡ (w.theaps t).pages
    → IsOwned (record (set_theap w t th) { subproc = s' }) t lists
IsOwned-after sys w t th s' lists is did same = record {
  subproc = did.is;
  queues = λ b.
      let e : ((set_theap w t th).theaps t).pages b ≡ (w.theaps t).pages b =
        ap (λ (x : ThreadHeap). x.pages b) (put_self w.theaps t th)
        ∙ ap (λ (f : ℕ → PageQueue). f b) same in
      subst (λ q. IsQueue q w.links (lists b)) (sym e) (is.queues b);
  apart = is.apart;
  home = λ b p m. let (a, h) = is.home b p m in Home-purged sys w.subproc s' (w.pages p) a did h;
  sole = is.sole;
}

untouched :
    (force : Bool) (w w' : World) (xs after : List ℕ)
    → head_expire w xs ≡ 0
    → after ≡ xs
    → SameOn w w' xs
    → Swept force w w' xs after
untouched force w w' [] after idle e same = e
untouched force w w' (p ∷ ys) after idle e same = inr (
  ground (arith, idle),
  (e, ap (λ (pg : Page). pg.retire_expire) (same p (count_head p ys)) ∙ ground (arith, idle)),
)

none_left : (w w' : World) (xs after : List ℕ) → Swept true w w' xs after → head_expire w' after ≡ 0
none_left w w' [] after e = ap (head_expire w') e
none_left w w' (p ∷ ys) after (inl (due, e)) = ap (head_expire w') e
none_left w w' (p ∷ ys) after (inr (not_due, (e, expire))) =
    ap (head_expire w') e ∙ expire ∙ ground (arith, not_due)

-- For a heap whose pages stand in its queues and have slices in arenas, where a page at the front
-- of a queue counts down only if it is alone there, and where the range covers the bins of those:
-- `collect_retired` does not fault and keeps all that. A front page that is idle and whose countdown
-- ends in this round, or that is idle and counts down if the round is forced, leaves its queue; any
-- other front page stays, with its countdown one less, or none if it is in use. Nothing leaves a
-- queue but that. After a forced round no front page counts down.
pub collect_retired_lem :
    (sys : System) (w : World) (t : ℕ) (force : Bool) (lists : ℕ → List ℕ)
    → IsOwned w t lists
    → IsTracked w t lists
    → (w' : World) × (lists' : ℕ → List ℕ) × (collect_retired sys w t force ≡ some w')
      × IsOwned w' t lists'
      × IsTracked w' t lists'
      × ((b : ℕ) → Swept force w w' (lists b) (lists' b))
      × (force ≡ true → (b : ℕ) → head_expire w' (lists' b) ≡ 0)
unfolding collect_retired
collect_retired_lem sys w t force lists is track =
    let lo = (w.theaps t).page_retired_min in
    let hi = (w.theaps t).page_retired_max in
    let (w1, range, lists', got, swept) =
      sweep_lem force sys (hi + 1 - lo) w t lo lists (bin_full, 0) is
        (λ c run. let (a, b) = track c run in inr (ground arith)) in
    let th : ThreadHeap = record (w1.theaps t) {
      page_retired_min = range.0;
      page_retired_max = range.1;
    } in
    let (s, purged, did) = try_purge_lem sys w1.subproc false swept.owned.subproc in
    let w' : World = record (set_theap w1 t th) { subproc = s } in
    let all : (b : ℕ) → Swept force w w' (lists b) (lists' b) = λ b.
      elim (Bool-cases (within lo (lo + (hi + 1 - lo)) b)) [
        | inl in_ ↦
            Swept-later force w w1 w' (lists b) (lists' b) (lists' b) refl (λ q m. refl)
              (swept.inside b in_)
        | inr out ↦
            let idle : head_expire w (lists b) ≡ 0 =
              elim (Bool-cases (head_expire w (lists b) == 0)) [
                | inl e ↦ ground arith
                | inr e ↦ let (a, c) = track b (λ z. ground arith) in absurd (ground arith)
              ] in
            let (l, p) = swept.outside b out in untouched force w w' (lists b) (lists' b) idle l p
      ] in
    (
      w',
      lists',
      rw (got, collect_retired, purged) refl,
      IsOwned-after sys w1 t th s lists' swept.owned did refl,
      λ c run.
          let at : w'.theaps t ≡ th = put_self w1.theaps t th in
          let e = head_expire-same w1 w' (lists' c) (λ q m. refl) in
          subst (λ (h : ThreadHeap). (h.page_retired_min ≤ c) × (c ≤ h.page_retired_max)) (sym at)
            (swept.tracked c (λ z. run (e ∙ z))),
      all,
      λ f b.
          none_left w w' (lists b) (lists' b)
            (subst (λ g. Swept g w w' (lists b) (lists' b)) f (all b)),
    )
