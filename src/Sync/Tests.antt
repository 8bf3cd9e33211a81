-- ===== src/Sync/Tests.antt =====
-- src/sync.rs, the theorems at a race of two threads.
use mimalloc_rs.Prelude.{ℕ, ◌+◌, ◌≡◌, ◌≤◌, true, refl, some, arith}
use mimalloc_rs.Sync.{
  initializing, racing, filling, waiting, reading, returned, Cell, move, empty, load_unready, win,
  lose, Steps, here, next,
}
use mimalloc_rs.Sync.Once.{once_lem}
use mimalloc_rs.Sync.Spin
use mimalloc_rs.Sync.Spin.{
  Lock, unlocked, go_to, trying, watching, holding, LockStep, ask, acquire, fail, LockSteps,
  exclusion,
}

-- Threads 3 and 5 both see the cell unready.
abbrev both_racing : Cell ℕ
both_racing = record empty { place = move (move empty.place 3 racing) 5 racing }

-- Thread 3 wins, and 5 waits.
abbrev lost : Cell ℕ
lost = record both_racing {
  state = initializing;
  place = move (move both_racing.place 3 filling) 5 waiting;
  winner = 3;
}

lost_steps : Steps (λ t. t + 40) empty lost
lost_steps =
    next
      (next
        (next (next here (load_unready 3 refl (λ e. absurd (ground (arith, e)))))
          (load_unready 5 refl (λ e. absurd (ground (arith, e)))))
        (win 3 refl refl))
      (lose 5 refl (λ e. absurd (ground (arith, e))))

once_example :
    (lost.runs ≤ 1)
    × ((t : ℕ) → lost.place t ≡ reading → lost.value ≡ some (lost.winner + 40))
    × ((t : ℕ) (v : ℕ) → lost.place t ≡ returned v → v ≡ lost.winner + 40)
once_example = once_lem (λ t. t + 40) lost lost_steps

-- Thread 1 holds the lock, and thread 2 watches it.
abbrev contended : Lock
contended = record {
  locked = true;
  spot = go_to (go_to (go_to (go_to unlocked.spot 1 trying) 2 trying) 1 holding) 2 watching;
  owner = 1;
}

contended_steps : LockSteps unlocked contended
contended_steps =
    Spin.next
      (Spin.next (Spin.next (Spin.next Spin.here (ask 1 refl)) (ask 2 refl)) (acquire 1 refl refl))
      (fail 2 refl)

exclusion_example :
    ((t u : ℕ) → contended.spot t ≡ holding → contended.spot u ≡ holding → t ≡ u)
    × (contended.locked ≡ true → (t : ℕ) × (contended.spot t ≡ holding))
exclusion_example = exclusion contended contended_steps
