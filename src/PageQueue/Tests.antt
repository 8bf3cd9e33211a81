-- ===== src/PageQueue/Tests.antt =====
-- src/page_queue.rs, runs on a queue of three pages, and the theorems at it.
use mimalloc_rs.Prelude.{ℕ, ◌≡◌, refl, List, [], ◌∷◌, arith, ◌==◌, if◌then◌else◌}
use mimalloc_rs.PageQueue.{Links, PageQueue, push_front, remove}
use mimalloc_rs.PageQueue.Segment.{Distinct}
use mimalloc_rs.PageQueue.Laws.{IsQueue, SameOutside, push_front_lem, remove_lem}

abbrev three : PageQueue
three = record { first = 10; last = 30; count = 3 }

abbrev links : Links
links = record {
  next = λ a. if a == 10 then 20 else if a == 20 then 30 else 0;
  prev = λ a. if a == 20 then 10 else if a == 30 then 20 else 0;
}

abbrev pages : List ℕ
pages = 10 ∷ 20 ∷ 30 ∷ []

pages-Distinct : Distinct pages
pages-Distinct a = ground arith

three-IsQueue : IsQueue three links pages
three-IsQueue = record {
  chain = ground arith;
  distinct = pages-Distinct;
  counted = refl;
  small = omega arith;
}

remove_middle : (remove three links 20).0.count ≡ 2
unfolding remove
remove_middle = refl

remove_end : (remove three links 30).0.last ≡ 20
unfolding remove
remove_end = refl

push_front_lem_example :
    let r = push_front three links 40 in
    IsQueue r.0 r.1 (40 ∷ pages) × SameOutside links r.1 pages 40
push_front_lem_example =
    push_front_lem three links pages 40 three-IsQueue (omega arith) refl (omega arith)

remove_lem_example :
    let r = remove three links 30 in
    IsQueue r.0 r.1 (10 ∷ 20 ∷ []) × (r.1.next 30 ≡ 0) × (r.1.prev 30 ≡ 0)
remove_lem_example = remove_lem three links (10 ∷ 20 ∷ []) 30 [] three-IsQueue
