-- ===== src/PageQueue.antt =====
-- src/page_queue.rs: the doubly linked list of the pages of one bin. A page is its address, 0 is
-- the null pointer, and the `next` and `prev` cells of all pages are two functions on addresses.
pub mod Segment
pub mod Laws
mod Tests
use mimalloc_rs.Prelude.{ℕ, Bool, ◌==◌, if◌then◌else◌}
use mimalloc_rs.Word.{wrapping_add, wrapping_sub}

pub record Links : Type 0 where
  pub next : ℕ → ℕ
  pub prev : ℕ → ℕ

pub record PageQueue : Type 0 where
  pub first : ℕ
  pub last : ℕ
  pub count : ℕ

abbrev pub new : PageQueue
new = record { first = 0; last = 0; count = 0 }

-- Write one cell.
abbrev pub store : (ℕ → ℕ) → ℕ → ℕ → ℕ → ℕ
store f p v q = if q == p then v else f q

abbrev pub set_next : Links → ℕ → ℕ → Links
set_next s p v = record s { next = store s.next p v }

abbrev pub set_prev : Links → ℕ → ℕ → Links
set_prev s p v = record s { prev = store s.prev p v }

unfoldable pub is_empty : PageQueue → Bool
is_empty q = q.count == 0

unfoldable pub push_front : PageQueue → Links → ℕ → PageQueue × Links
push_front q s page =
    let old_first = q.first in
    let s1 = set_next (set_prev s page 0) page old_first in
    (
      record {
        first = page;
        last = if old_first == 0 then page else q.last;
        count = wrapping_add q.count 1;
      },
      if old_first == 0 then s1 else set_prev s1 old_first page,
    )

unfoldable pub remove : PageQueue → Links → ℕ → PageQueue × Links
remove q s page =
    let p = s.prev page in
    let n = s.next page in
    let s1 = if p == 0 then s else set_next s p n in
    let s2 = if n == 0 then s1 else set_prev s1 n p in
    (
      record {
        first = if p == 0 then n else q.first;
        last = if n == 0 then p else q.last;
        count = wrapping_sub q.count 1;
      },
      set_prev (set_next s2 page 0) page 0,
    )
