-- ===== src/PageQueue/Laws.antt =====
-- src/page_queue.rs, a queue as the list of its pages.
use mathlib.Core.Path.{subst₂}
use mimalloc_rs.Prelude.{
  ℕ, ◌+◌, ◌^◌, ◌≤◌, ◌<◌, ◌≡◌, refl, sym, ap, ◌∙◌, ◌≢◌, ◌⊎◌, true, false, List, [], ◌∷◌, ◌++◌, arith,
  ◌==◌, if◌then◌else◌, count, count-append, length, length-append, Bool-cases, inl, inr, subst,
}
use mimalloc_rs.Word.{wrapping_add, wrapping_sub}
use mimalloc_rs.PageQueue.{Links, PageQueue, set_next, set_prev, push_front, remove}
use mimalloc_rs.PageQueue.Segment.{
  Segment, Distinct, Distinct-tail, count_self, Segment-append, Segment-split, Segment-last,
  Segment-relink, Segment-rehead,
}

-- The queue holds the pages `xs`, front first.
pub record IsQueue (q : PageQueue) (s : Links) (xs : List ℕ) : Type 0 where
  pub chain : Segment s 0 q.first xs q.last 0
  pub distinct : Distinct xs
  pub counted : q.count ≡ length xs
  pub small : length xs < 2 ^ 64

-- The cells of the pages outside `xs` and of pages other than `page` are the same.
abbrev pub SameOutside : Links → Links → List ℕ → ℕ → Type 0
SameOutside s t xs page =
    (a : ℕ) → count a xs ≡ 0 → a ≢ page → (t.next a ≡ s.next a) × (t.prev a ≡ s.prev a)

ne_of_mem : (a x : ℕ) (xs : List ℕ) → Distinct (x ∷ xs) → 1 ≤ count a xs → a ≢ x
ne_of_mem a x xs d m e = ground (arith, d a)

-- The writes of `push_front` in front of a first page.
push-Segment :
    (s t : Links) (page p x : ℕ) (xs : List ℕ) (last : ℕ)
    → Segment s 0 p (x ∷ xs) last 0
    → Distinct (page ∷ x ∷ xs)
    → page ≢ 0
    → t.prev page ≡ 0
    → t.next page ≡ p
    → t.prev x ≡ page
    → ((a : ℕ) → a ≢ page → t.next a ≡ s.next a)
    → ((a : ℕ) → a ≢ page → a ≢ x → t.prev a ≡ s.prev a)
    → Segment t 0 page (page ∷ x ∷ xs) last 0
push-Segment s t page p x xs last seg d ne hp hn hx same_next same_prev =
    let off : (a : ℕ) → 1 ≤ count a (x ∷ xs) → a ≢ page = λ a m. ne_of_mem a page (x ∷ xs) d m in
    let apart : (a : ℕ) → 1 ≤ count a xs → a ≢ x =
      λ a m. ne_of_mem a x xs (Distinct-tail page (x ∷ xs) d) m in
    (
      refl,
      ne,
      hp,
      rw hn (
          Segment-rehead s t 0 page p x xs last 0 (λ a. omega (arith, d a)) hx
            (λ a m. same_next a (off a m)) (λ a m. same_prev a (off a (omega arith)) (apart a m))
            seg),
    )

push_front-empty :
    (q : PageQueue) (s : Links) (page : ℕ)
    → q.first ≡ 0
    → push_front q s page ≡ (
      record { first = page; last = page; count = wrapping_add q.count 1 },
      set_next (set_prev s page 0) page q.first,
    )
unfolding push_front
push_front-empty q s page e = let t : (q.first == 0) ≡ true = ground arith in rw t

push_front-some :
    (q : PageQueue) (s : Links) (page : ℕ)
    → q.first ≢ 0
    → push_front q s page ≡ (
      record { first = page; last = q.last; count = wrapping_add q.count 1 },
      set_prev (set_next (set_prev s page 0) page q.first) q.first page,
    )
unfolding push_front
push_front-some q s page ne = let t : (q.first == 0) ≡ false = ground arith in rw t

-- What a push leaves: the chain with the page in front, and the other cells.
abbrev Pushed : PageQueue → Links → List ℕ → ℕ → PageQueue × Links → Type 0
Pushed q s xs page (q', t) =
    Segment t 0 q'.first (page ∷ xs) q'.last 0
    × (q'.count ≡ wrapping_add q.count 1)
    × SameOutside s t xs page

push_chain :
    (q : PageQueue) (s : Links) (xs : List ℕ) (page : ℕ)
    → Segment s 0 q.first xs q.last 0
    → Distinct (page ∷ xs)
    → page ≢ 0
    → Pushed q s xs page (push_front q s page)
push_chain q s [] page (e, f) d ne =
    subst (Pushed q s [] page) (sym (push_front-empty q s page e))
      (ground arith, refl, λ a out off. ground arith)
push_chain q s (x ∷ xs) page seg d ne =
    let (e, nx, f, rest) = seg in
    let off : page ≢ x = λ z. ground (arith, d page, count_self page (x ∷ xs)) in
    subst (Pushed q s (x ∷ xs) page) (sym (push_front-some q s page (λ z. nx (sym e ∙ z)))) (
      push-Segment s (set_prev (set_next (set_prev s page 0) page q.first) q.first page) page
          q.first x xs q.last seg d ne (ground arith) (ground arith) (ground arith)
          (λ a h. ground arith) (λ a h k. ground arith),
      refl,
      λ a out h. ground arith,
    )

-- Pushing a page that is in no queue puts it in front, counts it, and touches the cells of no page
-- outside the queue but its own.
pub push_front_lem :
    (q : PageQueue) (s : Links) (xs : List ℕ) (page : ℕ)
    → IsQueue q s xs
    → page ≢ 0
    → count page xs ≡ 0
    → length xs + 1 < 2 ^ 64
    → let r = push_front q s page in IsQueue r.0 r.1 (page ∷ xs) × SameOutside s r.1 xs page
push_front_lem q s xs page is ne out fits =
    let d : Distinct (page ∷ xs) = λ a. elim (Bool-cases (a == page)) [
      | inl e ↦ ground (arith, ap (λ z. count z xs) (let p : a ≡ page = ground arith in p))
      | inr e ↦ ground (arith, is.distinct a)
    ] in
    let (chain, counted, same) = push_chain q s xs page is.chain d ne in
    (
      record {
        chain = chain;
        distinct = d;
        counted = counted ∙ omega (arith, is.counted);
        small = omega arith;
      },
      same,
    )

-- The writes of `remove`, by what stands around the page.
abbrev Removed : PageQueue → Links → List ℕ → ℕ → PageQueue × Links → Type 0
Removed q s xs page (q', t) =
    Segment t 0 q'.first xs q'.last 0
    × (q'.count ≡ wrapping_sub q.count 1)
    × (t.next page ≡ 0)
    × (t.prev page ≡ 0)

-- What the final links are, given the neighbours `p` and `n` of the page.
record Unlinks (s t : Links) (page p n : ℕ) : Type 0 where
  next_page : t.next page ≡ 0
  prev_page : t.prev page ≡ 0
  next_p : p ≢ 0 → p ≢ page → t.next p ≡ n
  prev_n : n ≢ 0 → n ≢ page → t.prev n ≡ p
  next_else : (a : ℕ) → a ≢ page → (p ≡ 0) ⊎ (a ≢ p) → t.next a ≡ s.next a
  prev_else : (a : ℕ) → a ≢ page → (n ≡ 0) ⊎ (a ≢ n) → t.prev a ≡ s.prev a

remove-Unlinks :
    (q : PageQueue) (s : Links) (page : ℕ)
    → Unlinks s (remove q s page).1 page (s.prev page) (s.next page)
unfolding remove
remove-Unlinks q s page = record {
  next_page = ground arith;
  prev_page = ground arith;
  next_p = λ h k. ground arith;
  prev_n = λ h k. ground arith;
  next_else = λ a h k. ground arith;
  prev_else = λ a h k. ground arith;
}

remove-first :
    (q : PageQueue) (s : Links) (page : ℕ)
    → (remove q s page).0.first ≡ (if s.prev page == 0 then s.next page else q.first)
unfolding remove
remove-first q s page = refl

removed_count :
    (q : PageQueue) (s : Links) (page : ℕ) (xs ys : List ℕ)
    → IsQueue q s (xs ++ page ∷ ys)
    → (remove q s page).0.count ≡ length (xs ++ ys)
unfolding remove
removed_count q s page xs ys is =
    omega (arith, is.counted, is.small, length-append {0} xs (page ∷ ys), length-append {0} xs ys)

remove-last :
    (q : PageQueue) (s : Links) (page : ℕ)
    → (remove q s page).0.last ≡ (if s.next page == 0 then s.prev page else q.last)
unfolding remove
remove-last q s page = refl

count_middle :
    (a page : ℕ) (xs ys : List ℕ)
    → count a (xs ++ page ∷ ys) ≡ count a xs + ((if a == page then 1 else 0) + count a ys)
count_middle a page xs ys = count-append a xs (page ∷ ys)

module _ (s t : Links) (page : ℕ) where
  -- The pages in front of the removed one now end at its successor.
  front_part :
      (x p first n mid : ℕ) (xs : List ℕ)
      → Unlinks s t page mid n
      → Distinct (x ∷ xs)
      → count page (x ∷ xs) ≡ 0
      → ((a : ℕ) → 1 ≤ count a (x ∷ xs) → (n ≡ 0) ⊎ (a ≢ n))
      → Segment s 0 first (x ∷ xs) mid page
      → Segment t 0 first (x ∷ xs) mid n
  front_part x p first n mid xs u d out apart seg =
      let (m, nz) = Segment-last s 0 first x xs mid page seg in
      let off : (a : ℕ) → 1 ≤ count a (x ∷ xs) → a ≢ page =
        λ a h e. ground (arith, ap (λ z. count z (x ∷ xs)) e) in
      Segment-relink s t 0 first x xs mid page n d (λ a h. u.prev_else a (off a h) (apart a h))
        (λ a h k. u.next_else a (off a h) (inr k)) (u.next_p nz (off mid m)) seg

  -- The pages behind it now follow its predecessor.
  back_part :
      (y first mid last : ℕ) (ys : List ℕ)
      → Unlinks s t page mid first
      → Distinct (y ∷ ys)
      → count page (y ∷ ys) ≡ 0
      → ((a : ℕ) → 1 ≤ count a (y ∷ ys) → (mid ≡ 0) ⊎ (a ≢ mid))
      → Segment s page first (y ∷ ys) last 0
      → Segment t mid first (y ∷ ys) last 0
  back_part y first mid last ys u d out apart seg =
      let e : first ≡ y = seg.0 in
      let nz : y ≢ 0 = seg.1 in
      let off : (a : ℕ) → 1 ≤ count a (y ∷ ys) → a ≢ page =
        λ a h e. ground (arith, ap (λ z. count z (y ∷ ys)) e) in
      let head : y ≢ page = off y (omega (arith, count_self y ys)) in
      let linked : t.prev first ≡ mid = u.prev_n (λ z. nz (sym e ∙ z)) (λ z. head (sym e ∙ z)) in
      Segment-rehead s t page mid first y ys last 0 d (ap t.prev (sym e) ∙ linked)
        (λ a h. u.next_else a (off a h) (apart a h))
        (λ a h. u.prev_else a (off a (omega arith)) (inr (λ z. ne_of_mem a y ys d h (z ∙ e)))) seg

-- Two pages on the two sides of the removed one are different.
sides_differ :
    (a b page : ℕ) (xs ys : List ℕ)
    → Distinct (xs ++ page ∷ ys)
    → 1 ≤ count a xs
    → 1 ≤ count b ys
    → a ≢ b
sides_differ a b page xs ys d ha hb e =
    omega (arith, d a, count_middle a page xs ys, ap (λ z. count z ys) e)

module _ (s t : Links) (page mid n first last : ℕ) (u : Unlinks s t page mid n) where
  front_whole :
      (xs ys : List ℕ) (end : ℕ)
      → Distinct (xs ++ page ∷ ys)
      → Segment s 0 first xs mid page
      → Segment s page n ys end 0
      → Segment t 0 (if mid == 0 then n else first) xs mid n
  front_whole [] ys end d (e, z) back = ground arith
  front_whole (x ∷ xs) ys end d front back =
      let (m, nz) = Segment-last s 0 first x xs mid page front in
      let some_ : (mid == 0) ≡ false = ground arith in
      let apart : (a : ℕ) → 1 ≤ count a (x ∷ xs) → (n ≡ 0) ⊎ (a ≢ n) =
        λ a h. next_apart a h ys back d in
      subst (λ z. Segment t 0 z (x ∷ xs) mid n) (rw some_)
        (front_part s t page x first first n mid xs u
          (λ a. omega (arith, d a, count_middle a page (x ∷ xs) ys))
          (ground (arith, d page, count_middle page page (x ∷ xs) ys)) apart front)
    where
      next_apart :
          (a : ℕ)
          → 1 ≤ count a (x ∷ xs)
          → (ys : List ℕ) → Segment s page n ys end 0
          → Distinct ((x ∷ xs) ++ page ∷ ys)
          → (n ≡ 0) ⊎ (a ≢ n)
      next_apart a h [] back d = inl back.0
      next_apart a h (y ∷ ys) back d = inr (λ e.
          sides_differ a y page (x ∷ xs) (y ∷ ys) d h (omega (arith, count_self y ys)) (e ∙ back.0))

  back_whole :
      (xs ys : List ℕ)
      → Distinct (xs ++ page ∷ ys)
      → Segment s 0 first xs mid page
      → Segment s page n ys last 0
      → Segment t mid n ys (if n == 0 then mid else last) 0
  back_whole xs [] d front (e, z) = ground arith
  back_whole xs (y ∷ ys) d front back =
      let e : n ≡ y = back.0 in
      let nz : y ≢ 0 = back.1 in
      let some_ : (n == 0) ≡ false = ground arith in
      subst (λ z. Segment t mid n (y ∷ ys) z 0) (rw some_)
        (back_part s t page y n mid last ys u
          (λ a. omega (arith, d a, count_middle a page xs (y ∷ ys)))
          (ground (arith, d page, count_middle page page xs (y ∷ ys)))
          (λ a h. mid_apart a h xs front d) back)
    where
      mid_apart :
          (a : ℕ)
          → 1 ≤ count a (y ∷ ys)
          → (xs : List ℕ) → Segment s 0 first xs mid page
          → Distinct (xs ++ page ∷ y ∷ ys)
          → (mid ≡ 0) ⊎ (a ≢ mid)
      mid_apart a h [] front d = inl front.1
      mid_apart a h (x ∷ xs) front d = inr (λ e.
          sides_differ mid a page (x ∷ xs) (y ∷ ys) d (Segment-last s 0 first x xs mid page front).0
            h (sym e))

-- Removing a linked page takes it out of the list, keeps the order of the others, and clears its
-- own cells.
pub remove_lem :
    (q : PageQueue) (s : Links) (xs : List ℕ) (page : ℕ) (ys : List ℕ)
    → IsQueue q s (xs ++ page ∷ ys)
    → let r = remove q s page in
      IsQueue r.0 r.1 (xs ++ ys) × (r.1.next page ≡ 0) × (r.1.prev page ≡ 0)
remove_lem q s xs page ys is =
    let u = remove-Unlinks q s page in
    let (mid, p, front, (e, nz, f, back)) =
      Segment-split s 0 q.first xs (page ∷ ys) q.last 0 is.chain in
    let n = s.next page in
    let t = (remove q s page).1 in
    let front' = subst₂ (λ a b. Segment s 0 q.first xs a b) (sym f) e front in
    (
      record {
        chain =
            rw (remove-first q s page, remove-last q s page)
              (Segment-append t 0 _ xs ys (s.prev page) n _ 0
                (front_whole s t page (s.prev page) n q.first q.last u xs ys q.last is.distinct
                  front' back)
                (back_whole s t page (s.prev page) n q.first q.last u xs ys is.distinct front'
                  back));
        distinct =
            λ a. ground (arith, is.distinct a, count_middle a page xs ys, count-append a xs ys);
        counted = removed_count q s page xs ys is;
        small = omega (arith, is.small, length-append {0} xs (page ∷ ys), length-append {0} xs ys);
      },
      u.next_page,
      u.prev_page,
    )
