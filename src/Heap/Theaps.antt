-- ===== src/Heap/Theaps.antt =====
-- src/heap.rs: the list of the thread heaps of one heap, doubly linked by `hnext` and `hprev`. Each
-- operation runs under the lock of the list. A thread heap is its address, 0 is null.
use mathlib.Core.Path.{subst₂}
use mimalloc_rs.Prelude.{
  ℕ, ◌+◌, ◌<◌, ◌^◌, ◌≡◌, refl, sym, ◌≢◌, Bool, true, false, arith, List, ◌∷◌, ◌++◌, ◌==◌,
  if◌then◌else◌, count, count-append, length,
}
use mimalloc_rs.PageQueue
use mimalloc_rs.PageQueue.{Links, PageQueue, set_next, set_prev}
use mimalloc_rs.PageQueue.Segment.{Segment, count_self}
use mimalloc_rs.PageQueue.Laws.{IsQueue, push_front_lem, remove_lem}

-- The head of the list, the links of all thread heaps, and which of them are linked.
pub record Theaps : Type 0 where
  pub theaps : ℕ
  pub links : Links
  pub linked : ℕ → Bool

abbrev pub set_linked : (ℕ → Bool) → ℕ → Bool → ℕ → Bool
set_linked f th v q = if q == th then v else f q

unfoldable pub register_theap : Theaps → ℕ → Theaps
register_theap s th =
    let head = s.theaps in
    let l1 = set_prev (set_next s.links th head) th 0 in
    record {
      theaps = th;
      links = if head == 0 then l1 else set_prev l1 head th;
      linked = set_linked s.linked th true;
    }

unfoldable pub unregister_theap : Theaps → ℕ → Theaps
unregister_theap s th =
    let prev = s.links.prev th in
    let next = s.links.next th in
    let l1 = if prev == 0 then s.links else set_next s.links prev next in
    let l2 = if next == 0 then l1 else set_prev l1 next prev in
    let unlinked : Theaps = record {
      theaps = if prev == 0 then next else s.theaps;
      links = set_prev (set_next l2 th 0) th 0;
      linked = set_linked s.linked th false;
    } in
    if s.linked th then unlinked else s

-- The list holds the thread heaps `xs`, the newest first, and exactly these are linked.
pub record IsTheaps (s : Theaps) (xs : List ℕ) : Type 0 where
  pub last : ℕ
  pub queue : IsQueue (record { first = s.theaps; last = last; count = length xs }) s.links xs
  pub linked : (th : ℕ) → s.linked th ≡ (if count th xs == 0 then false else true)

-- The list does what a page queue does that counts the same pages.
register-push_front :
    (s : Theaps) (last n th : ℕ)
    → let r =
        PageQueue.push_front (record { first = s.theaps; last = last; count = n }) s.links th in
      ((register_theap s th).theaps ≡ r.0.first) × ((register_theap s th).links ≡ r.1)
unfolding register_theap PageQueue.push_front
register-push_front s last n th = (refl, refl)

unregister-remove :
    (s : Theaps) (last n th : ℕ)
    → s.linked th ≡ true
    → let r = PageQueue.remove (record { first = s.theaps; last = last; count = n }) s.links th in
      ((unregister_theap s th).theaps ≡ r.0.first) × ((unregister_theap s th).links ≡ r.1)
unfolding unregister_theap PageQueue.remove
unregister-remove s last n th h = rw h (refl, refl)

-- A queue, seen as a list from its first page.
from_IsQueue :
    (q : PageQueue) (l l' : Links) (head : ℕ) (xs : List ℕ)
    → head ≡ q.first
    → l' ≡ l
    → IsQueue q l xs
    → IsQueue (record { first = head; last = q.last; count = length xs }) l' xs
from_IsQueue q l l' head xs f e is = record {
  chain = subst₂ (λ p k. Segment k 0 p xs q.last 0) (sym f) (sym e) is.chain;
  distinct = is.distinct;
  counted = refl;
  small = is.small;
}

-- Registering a thread heap that is in no list puts it at the head of the list and marks it; the
-- others stay in order, with their marks.
pub register_theap_lem :
    (s : Theaps) (xs : List ℕ) (th : ℕ)
    → IsTheaps s xs
    → th ≢ 0
    → count th xs ≡ 0
    → length xs + 1 < 2 ^ 64
    → IsTheaps (register_theap s th) (th ∷ xs)
unfolding register_theap
register_theap_lem s xs th is nz out fits =
    let q : PageQueue = record { first = s.theaps; last = is.last; count = length xs } in
    let (queue, same) = push_front_lem q s.links xs th is.queue nz out fits in
    let (head, links) = register-push_front s is.last (length xs) th in
    record {
      last = (PageQueue.push_front q s.links th).0.last;
      queue = from_IsQueue _ _ _ _ (th ∷ xs) head links queue;
      linked = λ a. let h = is.linked a in ground (arith, h);
    }

-- A thread heap that is not in the list changes nothing.
unregister-out :
    (s : Theaps) (xs : List ℕ) (th : ℕ)
    → IsTheaps s xs
    → count th xs ≡ 0
    → unregister_theap s th ≡ s
unfolding unregister_theap
unregister-out s xs th is out =
    let no_mark : s.linked th ≡ false = let h = is.linked th in ground (arith, h) in rw no_mark refl

removed :
    (s : Theaps) (th : ℕ) (front rear : List ℕ)
    → IsTheaps s (front ++ th ∷ rear)
    → IsTheaps (unregister_theap s th) (front ++ rear)
unfolding unregister_theap
removed s th front rear is =
    let xs = front ++ th ∷ rear in
    let h = is.linked th in
    let here = count-append th front (th ∷ rear) in
    let mark : s.linked th ≡ true = ground (arith, h, here, count_self th rear) in
    let q : PageQueue = record { first = s.theaps; last = is.last; count = length xs } in
    let (queue, next, prev) = remove_lem q s.links front th rear is.queue in
    let (head, links) = unregister-remove s is.last (length xs) th mark in
    record {
      last = (PageQueue.remove q s.links th).0.last;
      queue = from_IsQueue _ _ _ _ (front ++ rear) head links queue;
      linked = λ a.
          let before = is.linked a in
          let all = count-append a front (th ∷ rear) in
          let rest = count-append a front rear in
          let once = is.queue.distinct a in rw mark (ground (arith, before, all, rest, once));
    }

-- Unregistering a thread heap takes exactly it out of the list, wherever it stands, and clears its
-- mark; the others stay in order, with their marks. Doing it once more changes nothing.
pub unregister_theap_lem :
    (s : Theaps) (th : ℕ) (front rear : List ℕ)
    → IsTheaps s (front ++ th ∷ rear)
    → IsTheaps (unregister_theap s th) (front ++ rear)
      × (unregister_theap (unregister_theap s th) th ≡ unregister_theap s th)
unregister_theap_lem s th front rear is =
    let out = removed s th front rear is in
    let once = is.queue.distinct th in
    let gone : count th (front ++ rear) ≡ 0 = ground (
      arith,
      once,
      count-append th front (th ∷ rear),
      count-append th front rear,
      count_self th rear,
    ) in
    (out, unregister-out (unregister_theap s th) (front ++ rear) th out gone)
