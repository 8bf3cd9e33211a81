-- ===== src/Sync/Spin.antt =====
-- src/sync.rs, the spin lock, as steps of any number of threads.
use mimalloc_rs.Prelude.{
  ℕ, ◌≡◌, refl, sym, subst, ◌∙◌, ap, inl, inr, Bool, true, false, ◌==◌, if◌then◌else◌, arith,
  Bool-cases,
}

-- Where a thread is in `lock`, or with the guard it returned.
pub data Spot : Type 0 where
  outside : Spot
  -- Before the weak compare-exchange.
  trying : Spot
  -- In the inner loop, after a failure.
  watching : Spot
  holding : Spot

-- The lock and its threads. `owner`, the thread that last acquired it, is kept for the theorems
-- only.
pub record Lock : Type 0 where
  pub locked : Bool
  pub spot : ℕ → Spot
  pub owner : ℕ

abbrev pub go_to : (ℕ → Spot) → ℕ → Spot → ℕ → Spot
go_to spot t p u = if u == t then p else spot u

-- `SpinLock::new`.
abbrev pub unlocked : Lock
unlocked = record { locked = false; spot = λ t. outside; owner = 0 }

-- A weak compare-exchange may fail on an open lock.
pub data LockStep (s : Lock) : Lock → Type 0 where
  ask : (t : ℕ) → s.spot t ≡ outside → LockStep s (record s { spot = go_to s.spot t trying })
  acquire :
      (t : ℕ)
      → s.spot t ≡ trying
      → s.locked ≡ false
      → LockStep s (record { locked = true; spot = go_to s.spot t holding; owner = t })
  fail : (t : ℕ) → s.spot t ≡ trying → LockStep s (record s { spot = go_to s.spot t watching })
  watch : (t : ℕ) → s.spot t ≡ watching → s.locked ≡ true → LockStep s s
  retry :
      (t : ℕ)
      → s.spot t ≡ watching
      → s.locked ≡ false
      → LockStep s (record s { spot = go_to s.spot t trying })
  unlock :
      (t : ℕ)
      → s.spot t ≡ holding
      → LockStep s (record s { locked = false; spot = go_to s.spot t outside })

pub data LockSteps (s : Lock) : Lock → Type 0 where
  here : LockSteps s s
  next : {a b : Lock} → LockSteps s a → LockStep a b → LockSteps s b

abbrev holds : Spot → Bool
holds outside = false
holds trying = false
holds watching = false
holds holding = true

-- Who holds the lock is its owner, and the lock is locked exactly while its owner holds it.
record IsGuarded (s : Lock) : Type 0 where
  holder : (t : ℕ) → holds (s.spot t) ≡ true → (s.locked ≡ true) × (t ≡ s.owner)
  held : s.locked ≡ true → holds (s.spot s.owner) ≡ true

-- A thread that does not hold the lock moves to a place where it does not hold it either.
idle_move :
    (s : Lock) (t : ℕ) (p : Spot)
    → IsGuarded s
    → holds (s.spot t) ≡ false
    → holds p ≡ false
    → IsGuarded (record s { spot = go_to s.spot t p })
idle_move s t p is idle off = record {
  holder = λ u on. elim (Bool-cases (u == t)) [
    | inl e ↦ absurd (ground (arith, on, e, off))
    | inr e ↦ is.holder u (ground (arith, on, e))
  ];
  held = λ on. elim (Bool-cases (s.owner == t)) [
    | inl e ↦
        let q : s.owner ≡ t = ground arith in
        let busy : holds (s.spot t) ≡ true = subst (λ w. holds (s.spot w) ≡ true) q (is.held on) in
        absurd (ground (arith, busy, idle))
    | inr e ↦ rw e (is.held on)
  ];
}

LockStep-IsGuarded : {s s' : Lock} → LockStep s s' → IsGuarded s → IsGuarded s'
LockStep-IsGuarded {s} (ask t at) is = idle_move s t trying is (ap holds at) refl
LockStep-IsGuarded {s} (acquire t at e) is = record {
  holder = λ u on. elim (Bool-cases (u == t)) [
    | inl same ↦ (refl, ground arith)
    | inr other ↦
        let before : holds (s.spot u) ≡ true = ground (arith, on, other) in
        absurd (ground (arith, (is.holder u before).0, e))
  ];
  held = λ on. ground arith;
}
LockStep-IsGuarded {s} (fail t at) is = idle_move s t watching is (ap holds at) refl
LockStep-IsGuarded {s} (watch t at e) is = is
LockStep-IsGuarded {s} (retry t at e) is = idle_move s t trying is (ap holds at) refl
LockStep-IsGuarded {s} (unlock t at) is = record {
  holder = λ u on. elim (Bool-cases (u == t)) [
    | inl same ↦ absurd (ground (arith, on, same))
    | inr other ↦
        let before : holds (s.spot u) ≡ true = ground (arith, on, other) in
        let q : u ≡ t = (is.holder u before).1 ∙ sym (is.holder t (ap holds at)).1 in
        absurd (ground (arith, q, other))
  ];
  held = λ on. absurd (ground (arith, on));
}

LockSteps-IsGuarded : {s : Lock} → LockSteps unlocked s → IsGuarded s
LockSteps-IsGuarded here = record {
  holder = λ t on. absurd (ground (arith, on));
  held = λ on. absurd (ground (arith, on));
}
LockSteps-IsGuarded (next before step) = LockStep-IsGuarded step (LockSteps-IsGuarded before)

-- However the steps of any number of threads interleave, and however often a weak exchange fails:
-- two threads never hold the lock at once, and if the lock is locked then some thread holds it.
pub exclusion :
    (s : Lock)
    → LockSteps unlocked s
    → ((t u : ℕ) → s.spot t ≡ holding → s.spot u ≡ holding → t ≡ u)
      × (s.locked ≡ true → (t : ℕ) × (s.spot t ≡ holding))
exclusion s steps =
    let is = LockSteps-IsGuarded steps in
    (
      λ t u at at'. (is.holder t (ap holds at)).1 ∙ sym (is.holder u (ap holds at')).1,
      λ on. (s.owner, holding_of (s.spot s.owner) (is.held on)),
    )
  where
    holding_of : (p : Spot) → holds p ≡ true → p ≡ holding
    holding_of outside e = absurd (ground (arith, e))
    holding_of trying e = absurd (ground (arith, e))
    holding_of watching e = absurd (ground (arith, e))
    holding_of holding e = refl
