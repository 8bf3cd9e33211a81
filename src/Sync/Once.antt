-- ===== src/Sync/Once.antt =====
-- src/sync.rs, the write-once cell: its initializer runs once, and everyone gets its value.
use mimalloc_rs.Prelude.{
  ℕ, suc, ◌≡◌, ◌≢◌, refl, sym, subst, ◌∙◌, ap, inl, inr, ◌≤◌, Bool, true, false, Option, none, some,
  ◌==◌, arith, Bool-cases,
}
use mimalloc_rs.Sync.{
  Phase, uninit, initializing, ready, Place, entering, racing, filling, publishing, waiting,
  reading, returned, Cell, move, empty, Step, load_ready, load_unready, win, lose, fill, publish,
  spin, wake, read, Steps, here, next,
}

module _ {V : Type 0} (make : ℕ → V) where
  -- The thread has won, and not yet published.
  abbrev busy : Place V → Bool
  busy entering = false
  busy racing = false
  busy filling = true
  busy publishing = true
  busy waiting = false
  busy reading = false
  busy (returned v) = false

  -- What the place of a thread tells about the cell.
  abbrev At : Phase → Option V → ℕ → ℕ → ℕ → Place V → Type 0
  At state value winner runs t entering = Unit {0}
  At state value winner runs t racing = Unit {0}
  At state value winner runs t filling = (state ≡ initializing) × (winner ≡ t) × (runs ≡ 0)
  At state value winner runs t publishing =
      (state ≡ initializing) × (winner ≡ t) × (runs ≡ 1) × (value ≡ some (make t))
  At state value winner runs t waiting = state ≢ uninit
  At state value winner runs t reading = state ≡ ready
  At state value winner runs t (returned v) = (state ≡ ready) × (value ≡ some v)

  -- What the state tells: nobody has filled the cell, or who fills it, or what is in it.
  abbrev Holds : Option V → (ℕ → Place V) → ℕ → ℕ → Phase → Type 0
  Holds value place winner runs uninit = runs ≡ 0
  Holds value place winner runs initializing = busy (place winner) ≡ true
  Holds value place winner runs ready = (runs ≡ 1) × (value ≡ some (make winner))

  record IsSound (s : Cell V) : Type 0 where
    threads : (t : ℕ) → At s.state s.value s.winner s.runs t (s.place t)
    cell : Holds s.value s.place s.winner s.runs s.state

  moved :
      (P : ℕ → Place V → Type 0) (place : ℕ → Place V) (t : ℕ) (p : Place V)
      → P t p
      → ((u : ℕ) → u ≢ t → P u (place u))
      → (u : ℕ) → P u (move place t p u)
  moved P place t p here_ others u = elim (Bool-cases (u == t)) [
    | inl e ↦ let q : u ≡ t = ground arith in rw e (subst (λ w. P w p) (sym q) here_)
    | inr e ↦ rw e (others u (λ q. ground arith))
  ]

  -- A thread that is not busy moves on, and the cell holds what it held.
  Holds-move :
      (value : Option V) (place : ℕ → Place V) (winner runs t : ℕ) (p : Place V) (state : Phase)
      → busy (place t) ≡ false
      → Holds value place winner runs state
      → Holds value (move place t p) winner runs state
  Holds-move value place winner runs t p uninit idle h = h
  Holds-move value place winner runs t p ready idle h = h
  Holds-move value place winner runs t p initializing idle h = elim (Bool-cases (winner == t)) [
    | inl e ↦
        let q : winner ≡ t = ground arith in
        let on : busy (place t) ≡ true = subst (λ w. busy (place w) ≡ true) q h in
        absurd (ground (arith, on, idle))
    | inr e ↦ rw e h
  ]

  after_win :
      (value : Option V) (winner runs t u : ℕ) (q : Place V)
      → At uninit value winner runs u q
      → At initializing value t runs u q
  after_win value winner runs t u entering h = tt
  after_win value winner runs t u racing h = tt
  after_win value winner runs t u filling h = absurd (ground (arith, h.0))
  after_win value winner runs t u publishing h = absurd (ground (arith, h.0))
  after_win value winner runs t u waiting h = absurd (h refl)
  after_win value winner runs t u reading h = absurd (ground (arith, h))
  after_win value winner runs t u (returned v) h = absurd (ground (arith, h.0))

  after_fill :
      (value value' : Option V) (winner runs u : ℕ) (q : Place V)
      → u ≢ winner
      → At initializing value winner runs u q
      → At initializing value' winner (suc runs) u q
  after_fill value value' winner runs u entering ne h = tt
  after_fill value value' winner runs u racing ne h = tt
  after_fill value value' winner runs u filling ne h = absurd (ne (sym h.1))
  after_fill value value' winner runs u publishing ne h = absurd (ne (sym h.1))
  after_fill value value' winner runs u waiting ne h = h
  after_fill value value' winner runs u reading ne h = absurd (ground (arith, h))
  after_fill value value' winner runs u (returned v) ne h = absurd (ground (arith, h.0))

  after_publish :
      (value : Option V) (winner runs u : ℕ) (q : Place V)
      → u ≢ winner
      → At initializing value winner runs u q
      → At ready value winner runs u q
  after_publish value winner runs u entering ne h = tt
  after_publish value winner runs u racing ne h = tt
  after_publish value winner runs u filling ne h = absurd (ne (sym h.1))
  after_publish value winner runs u publishing ne h = absurd (ne (sym h.1))
  after_publish value winner runs u waiting ne h = λ e. absurd (ground (arith, e))
  after_publish value winner runs u reading ne h = refl
  after_publish value winner runs u (returned v) ne h = absurd (ground (arith, h.0))

  -- The state at which a place was seen.
  placed :
      (s : Cell V) (t : ℕ) (p : Place V)
      → IsSound s
      → s.place t ≡ p
      → At s.state s.value s.winner s.runs t p
  placed s t p is e = subst (At s.state s.value s.winner s.runs t) e (is.threads t)

  -- A thread that is not busy moves on, and the cell stays the same.
  idle_step :
      (s : Cell V) (t : ℕ) (p : Place V)
      → IsSound s
      → busy (s.place t) ≡ false
      → At s.state s.value s.winner s.runs t p
      → IsSound (record s { place = move s.place t p })
  idle_step s t p is idle at = record {
    threads =
        moved (λ u q. At s.state s.value s.winner s.runs u q) s.place t p at (λ u ne. is.threads u);
    cell = Holds-move s.value s.place s.winner s.runs t p s.state idle is.cell;
  }

  Step-IsSound : {s s' : Cell V} → Step make s s' → IsSound s → IsSound s'
  Step-IsSound {s} (load_ready t at e) is = idle_step s t reading is (ap busy at) e
  Step-IsSound {s} (load_unready t at e) is = idle_step s t racing is (ap busy at) tt
  Step-IsSound {s} (win t at e) is = record {
    threads =
        moved (λ u q. At initializing s.value t s.runs u q) s.place t filling
          (refl, refl, subst (Holds s.value s.place s.winner s.runs) e is.cell)
          (λ u ne.
            after_win s.value s.winner s.runs t u (s.place u)
              (subst (λ z. At z s.value s.winner s.runs u (s.place u)) e (is.threads u)));
    cell = ground arith;
  }
  Step-IsSound {s} (lose t at e) is = idle_step s t waiting is (ap busy at) e
  Step-IsSound {s} (fill t at) is =
      let (init, won, none_) = placed s t filling is at in
      record {
        threads =
            moved (λ u q. At s.state (some (make t)) s.winner (suc s.runs) u q) s.place t publishing
              (init, won, ap suc none_, refl)
              (λ u ne.
                subst (λ z. At z (some (make t)) s.winner (suc s.runs) u (s.place u)) (sym init)
                  (after_fill s.value (some (make t)) s.winner s.runs u (s.place u)
                    (λ q. ne (q ∙ won))
                    (subst (λ z. At z s.value s.winner s.runs u (s.place u)) init (is.threads u))));
        cell =
            subst (Holds (some (make t)) (move s.place t publishing) s.winner (suc s.runs))
              (sym init)
              (subst (λ w. busy (move s.place t publishing w) ≡ true) (sym won) (ground arith));
      }
  Step-IsSound {s} (publish t at) is =
      let (init, won, one, full) = placed s t publishing is at in
      record {
        threads =
            moved (λ u q. At ready s.value s.winner s.runs u q) s.place t reading refl
              (λ u ne.
                after_publish s.value s.winner s.runs u (s.place u) (λ q. ne (q ∙ won))
                  (subst (λ z. At z s.value s.winner s.runs u (s.place u)) init (is.threads u)));
        cell = (one, full ∙ ap (λ w. some (make w)) (sym won));
      }
  Step-IsSound {s} (spin t at e) is = is
  Step-IsSound {s} (wake t at e) is = idle_step s t reading is (ap busy at) e
  Step-IsSound {s} (read t v at e) is =
      idle_step s t (returned v) is (ap busy at) (placed s t reading is at, e)

  Steps-IsSound : {s : Cell V} → Steps make empty s → IsSound s
  Steps-IsSound here = record { threads = λ t. tt; cell = refl }
  Steps-IsSound (next before step) = Step-IsSound step (Steps-IsSound before)

  -- However many threads call `get_or_init`, and however their steps interleave: at most one
  -- initializer ever runs, a thread that is about to read finds a value, and all the threads that
  -- have returned have the value of one and the same initializer.
  pub once_lem :
      (s : Cell V)
      → Steps make empty s
      → (s.runs ≤ 1)
        × ((t : ℕ) → s.place t ≡ reading → s.value ≡ some (make s.winner))
        × ((t : ℕ) (v : V) → s.place t ≡ returned v → v ≡ make s.winner)
  once_lem s steps =
      let is = Steps-IsSound steps in
      (
        few s.state refl is.cell,
        λ t at. filled is (placed s t reading is at),
        λ t v at.
            let (done, has) = placed s t (returned v) is at in same v (sym has ∙ filled is done),
      )
    where
      filled : IsSound s → s.state ≡ ready → s.value ≡ some (make s.winner)
      filled is e = (subst (Holds s.value s.place s.winner s.runs) e is.cell).1

      same : (v : V) → some v ≡ some (make s.winner) → v ≡ make s.winner
      same v e = ap (λ (o : Option V). elim o [ none ↦ v | some w ↦ w ]) e

      busy_runs :
          (p : Place V) → At s.state s.value s.winner s.runs s.winner p → busy p ≡ true → s.runs ≤ 1
      busy_runs entering h on = absurd (ground (arith, on))
      busy_runs racing h on = absurd (ground (arith, on))
      busy_runs filling (a, b, none_) on = omega (arith, none_)
      busy_runs publishing (a, b, one, c) on = omega (arith, one)
      busy_runs waiting h on = absurd (ground (arith, on))
      busy_runs reading h on = absurd (ground (arith, on))
      busy_runs (returned v) h on = absurd (ground (arith, on))

      few : (p : Phase) → s.state ≡ p → Holds s.value s.place s.winner s.runs p → s.runs ≤ 1
      few uninit e h = omega (arith, h)
      few initializing e h = busy_runs (s.place s.winner) ((Steps-IsSound steps).threads s.winner) h
      few ready e h = omega (arith, h)
