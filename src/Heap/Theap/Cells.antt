-- ===== src/Heap/Theap/Cells.antt =====
-- src/heap.rs, the addresses of pages, heaps and queues: what a write leaves.
use mimalloc_rs.Prelude.{ℕ, ◌≡◌, refl, ap, ◌∙◌, ◌≢◌, ◌==◌, true, false, arith, List, [], ◌∷◌, count}
use mimalloc_rs.PageQueue
use mimalloc_rs.PageQueue.{PageQueue}
use mimalloc_rs.Heap.Theap.{World, ThreadHeap, put, clear_direct, unlink}

module _ {ℓ} {A : Type ℓ} where
  pub put_self : (f : ℕ → A) (p : ℕ) (v : A) → put f p v p ≡ v
  put_self f p v = let e : (p == p) ≡ true = ground arith in rw e refl

  pub put_ne : (f : ℕ → A) (p : ℕ) (v : A) (q : ℕ) → q ≢ p → put f p v q ≡ f q
  put_ne f p v q ne = let e : (q == p) ≡ false = ground arith in rw e refl

pub clear_direct-count : (slots : List ℕ) (p : ℕ) → p ≢ 0 → count p (clear_direct slots p) ≡ 0
unfolding clear_direct
clear_direct-count [] p ne = refl
clear_direct-count (x ∷ slots) p ne = ground (arith, clear_direct-count slots p ne)

-- The heap that a page has been unlinked from.
pub unlink_theap :
    (w : World) (t b p : ℕ)
    → (unlink w t b p).theaps t ≡ record (w.theaps t) {
      pages = put (w.theaps t).pages b (PageQueue.remove ((w.theaps t).pages b) w.links p).0;
      direct = clear_direct (w.theaps t).direct p;
    }
unfolding unlink
unlink_theap w t b p = put_self w.theaps t _

pub unlink_queue :
    (w : World) (t b p : ℕ)
    → ((unlink w t b p).theaps t).pages b ≡ (PageQueue.remove ((w.theaps t).pages b) w.links p).0
unlink_queue w t b p =
    ap (λ (th : ThreadHeap). th.pages b) (unlink_theap w t b p) ∙ put_self (w.theaps t).pages b _
