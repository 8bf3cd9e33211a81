-- ===== src/Heap/Theap/Owned.antt =====
-- src/heap.rs, the pages of a thread's heap: which page stands in which queue.
use mathlib.Core.Path.{subst₂}
use mimalloc_rs.Prelude.{
  ℕ, ◌-◌, ◌≤◌, ◌≡◌, refl, sym, ap, ◌∙◌, ◌≢◌, inl, inr, true, arith, ◌==◌, Bool-cases, some,
  some-injective, List, [], ◌∷◌, count, length, subst, get_elem?,
}
use mimalloc_rs.Os.{System}
use mimalloc_rs.Arena.{Arena}
use mimalloc_rs.Subproc.Arenas.{IsSubproc}
use mimalloc_rs.PageQueue.{PageQueue, Links, remove}
use mimalloc_rs.PageQueue.Segment.{Segment-frame}
use mimalloc_rs.PageQueue.Laws.{IsQueue, remove_lem}
use mimalloc_rs.Page.{Page}
use mimalloc_rs.Heap.Theap.{World, ThreadHeap, put, set_page, unlink, release_page_slices}
use mimalloc_rs.Heap.Theap.Cells.{put_ne, unlink_theap, unlink_queue}
use mimalloc_rs.Heap.Theap.Release.{IsHome, IsReleased, release_page_slices_lem}

-- The queues of heap `t` hold the pages `lists`, each in one queue and with slices in an arena; a
-- page at the front whose countdown runs is alone.
pub record IsOwned (w : World) (t : ℕ) (lists : ℕ → List ℕ) : Type 0 where
  pub subproc : IsSubproc w.subproc
  pub queues : (b : ℕ) → IsQueue ((w.theaps t).pages b) w.links (lists b)
  pub apart : (b c a : ℕ) → b ≢ c → 1 ≤ count a (lists b) → count a (lists c) ≡ 0
  pub home : (b p : ℕ) → 1 ≤ count p (lists b) → (a : Arena) × IsHome w.subproc (w.pages p) a
  pub sole : (b p : ℕ) (ys : List ℕ) → lists b ≡ p ∷ ys → (w.pages p).retire_expire ≢ 0 → ys ≡ []

pub count_head : (p : ℕ) (ys : List ℕ) → 1 ≤ count p (p ∷ ys)
count_head p ys = ground arith

abbrev tail : List ℕ → List ℕ
tail [] = []
tail (x ∷ xs) = xs

-- Another countdown of the page at the front of bin `b`.
pub set_expire-IsOwned :
    (w : World) (t : ℕ) (lists : ℕ → List ℕ) (b p : ℕ) (ys : List ℕ) (e : ℕ)
    → IsOwned w t lists
    → lists b ≡ p ∷ ys
    → (e ≢ 0 → ys ≡ [])
    → IsOwned (set_page w p (record (w.pages p) { retire_expire = e })) t lists
set_expire-IsOwned w t lists b p ys e is front alone = record {
  subproc = is.subproc;
  queues = is.queues;
  apart = is.apart;
  home = λ c q m. elim (Bool-cases (q == p)) [
    | inl same ↦ let (a, h) = is.home c q m in (a, home_at q same a h)
    | inr off ↦ let (a, h) = is.home c q m in (a, rw off h)
  ];
  sole = λ c q zs eq run. elim (Bool-cases (q == p)) [
    | inl same ↦ only c q zs same eq run
    | inr off ↦ is.sole c q zs eq (λ z. run (rw off z))
  ];
}
  where
    home_at :
        (q : ℕ)
        → (q == p) ≡ true
        → (a : Arena) → IsHome w.subproc (w.pages q) a
        → IsHome w.subproc (put w.pages p (record (w.pages p) { retire_expire = e }) q) a
    home_at q same a h =
        let z : q ≡ p = ground arith in
        let h' : IsHome w.subproc (w.pages p) a = subst (λ r. IsHome w.subproc (w.pages r) a) z h in
        rw same (record { some_arena = h'.some_arena; arena = h'.arena; range = h'.range })

    only :
        (c q : ℕ) (zs : List ℕ)
        → (q == p) ≡ true
        → lists c ≡ q ∷ zs
        → (put w.pages p (record (w.pages p) { retire_expire = e }) q).retire_expire ≢ 0
        → zs ≡ []
    only c q zs same eq run = elim (Bool-cases (b == c)) [
      | inr apart ↦
          let none_ = is.apart b c p (λ z. ground arith) (ground (arith, ap (count p) front)) in
          absurd (ground (arith, ap (count p) eq))
      | inl here ↦
          let z : b ≡ c = ground arith in
          ap tail (sym eq ∙ sym (ap lists z) ∙ front) ∙ alone (λ zero_. run (rw same zero_))
    ]

-- A page that is alone in its queue leaves the cells of all others as they are.
remove_sole :
    (q : PageQueue) (s : Links) (p a : ℕ)
    → s.prev p ≡ 0
    → s.next p ≡ 0
    → a ≢ p
    → ((remove q s p).1.next a ≡ s.next a) × ((remove q s p).1.prev a ≡ s.prev a)
unfolding remove
remove_sole q s p a hp hn off = rw (hp, hn) (ground arith, ground arith)

Home-released :
    (w w' : World) (p q : ℕ) (a : Arena)
    → IsHome w.subproc (w.pages p) a
    → IsReleased w p a w'
    → (c : Arena) → IsHome w.subproc (w.pages q) c
    → (d : Arena) × IsHome w'.subproc (w.pages q) d
Home-released w w' p q a home r c h =
    elim (Bool-cases ((w.pages q).arena - 1 == (w.pages p).arena - 1)) [
      | inr off ↦ (
        c,
        record {
          some_arena = h.some_arena;
          arena = r.others _ (λ z. ground arith) ∙ h.arena;
          range = h.range;
        },
      )
      | inl same ↦
          let (b, got, place, over) = r.freed in
          let z : (w.pages q).arena - 1 ≡ (w.pages p).arena - 1 = ground arith in
          let e : c ≡ a =
            some-injective c a (sym h.arena ∙ ap (get_elem? w.subproc.arenas) z ∙ home.arena) in
          (
            b,
            record {
              some_arena = h.some_arena;
              arena = ap (get_elem? w'.subproc.arenas) z ∙ got;
              range = record {
                some_slice = h.range.some_slice;
                inside =
                    omega (
                      arith,
                      place.slice_count,
                      ap (λ (x : Arena). x.slice_count) e,
                      h.range.inside,
                    );
                one_chunk = h.range.one_chunk;
              };
            },
          )
    ]

frame :
    (q : PageQueue) (s : Links) (p : ℕ) (r : PageQueue) (xs : List ℕ)
    → s.prev p ≡ 0
    → s.next p ≡ 0
    → ((x : ℕ) → 1 ≤ count x xs → x ≢ p)
    → IsQueue r s xs
    → IsQueue r (remove q s p).1 xs
frame q s p r xs hp hn off is = record {
  chain =
      Segment-frame s (remove q s p).1 0 r.first xs r.last 0
        (λ x m. remove_sole q s p x hp hn (off x m)) is.chain;
  distinct = is.distinct;
  counted = is.counted;
  small = is.small;
}

-- The only page of bin `b` is released: its queue is empty then.
pub release-IsOwned :
    (sys : System) (w : World) (t : ℕ) (lists : ℕ → List ℕ) (b p : ℕ)
    → IsOwned w t lists
    → lists b ≡ p ∷ []
    → (w' : World) × (release_page_slices sys (unlink w t b p) p ≡ some w')
      × IsOwned w' t (put lists b [])
      × (w'.pages ≡ w.pages)
unfolding unlink
release-IsOwned sys w t lists b p is only =
    let u = unlink w t b p in
    let (a, home) = is.home b p (ground (arith, ap (count p) only)) in
    let (w', got, released, links, theaps) = release_page_slices_lem sys u p a is.subproc home in
    let q : IsQueue ((w.theaps t).pages b) w.links (p ∷ []) =
      subst (IsQueue _ w.links) only (is.queues b) in
    let (first, nz, prev, (next, last)) = q.chain in
    let off : (c x : ℕ) → c ≢ b → 1 ≤ count x (lists c) → x ≢ p =
      λ c x ne m e. let none_ = is.apart c b x ne m in ground (arith, ap (count x) only) in
    let (rest, next', prev') = remove_lem _ w.links [] p [] q in
    let gone : IsQueue ((w'.theaps t).pages b) w'.links [] =
      subst₂ (λ q l. IsQueue q l [])
        (sym (ap (λ (f : ℕ → ThreadHeap). (f t).pages b) theaps ∙ unlink_queue w t b p)) (sym links)
        rest in
    let released' : IsReleased w p a w' = record {
      subproc = released.subproc;
      freed = released.freed;
      others = released.others;
      map = released.map;
      pages = released.pages;
    } in
    let still : (c : ℕ) → c ≢ b → (w'.theaps t).pages c ≡ (w.theaps t).pages c = λ c ne.
      ap (λ (f : ℕ → ThreadHeap). (f t).pages c) theaps
      ∙ ap (λ (th : ThreadHeap). th.pages c) (unlink_theap w t b p)
      ∙ put_ne (w.theaps t).pages b _ c ne in
    (
      w',
      got,
      record {
        subproc = released.subproc;
        queues = λ c. elim (Bool-cases (c == b)) [
          | inl here ↦
              let z : c ≡ b = ground arith in
              rw here (subst (λ d. IsQueue ((w'.theaps t).pages d) w'.links []) (sym z) gone)
          | inr there ↦
              let ne : c ≢ b = λ z. ground arith in
              rw there (
                subst₂ (λ q l. IsQueue q l (lists c)) (sym (still c ne)) (sym links)
                  (frame ((w.theaps t).pages b) w.links p _ (lists c) prev next
                    (λ x m. off c x ne m) (is.queues c)))
        ];
        apart = λ c d x ne m. elim (Bool-cases (c == b)) [
          | inl here ↦ absurd (ground (arith, rw here at m))
          | inr there ↦ elim (Bool-cases (d == b)) [
            | inl here ↦ rw here refl
            | inr other ↦ rw other (is.apart c d x ne (rw there at m))
          ]
        ];
        home = λ c x m. elim (Bool-cases (c == b)) [
          | inl here ↦ absurd (ground (arith, rw here at m))
          | inr there ↦
              let (d, h) = is.home c x (rw there at m) in
              let (d', h') = Home-released w w' p x a home released' d h in
              (d', subst (λ (f : ℕ → Page). IsHome w'.subproc (f x) d') (sym released.pages) h')
        ];
        sole = λ c x ys eq run. elim (Bool-cases (c == b)) [
          | inl here ↦ absurd (ground (arith, ap length (rw here at eq)))
          | inr there ↦
              is.sole c x ys (rw there at eq)
                (λ z. run (ap (λ (f : ℕ → Page). (f x).retire_expire) released.pages ∙ z))
        ];
      },
      released.pages,
    )
