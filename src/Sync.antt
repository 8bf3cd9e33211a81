-- ===== src/Sync.antt =====
-- src/sync.rs: the write-once cell and the spin lock, as steps of any number of threads, each
-- step one access to shared memory.
pub mod Once
pub mod Spin
pub mod Tests
use mimalloc_rs.Prelude.{
  ℕ, suc, Bool, true, false, Option, none, some, ◌==◌, if◌then◌else◌, ◌≡◌, ◌≢◌,
}

-- The byte that tells the state of a cell.
pub data Phase : Type 0 where
  uninit : Phase
  initializing : Phase
  ready : Phase

-- Where a thread is in `get_or_init`.
pub data Place {ℓ} (V : Type ℓ) : Type ℓ where
  -- Before the first load of the state.
  entering : Place V
  -- In `init_slow`, before the compare-exchange.
  racing : Place V
  -- It won, and runs the initializer.
  filling : Place V
  -- It has written the value, and not yet the state.
  publishing : Place V
  -- It lost, and spins.
  waiting : Place V
  -- It has seen the state ready, and not yet read the value.
  reading : Place V
  -- It has returned this value.
  returned : V → Place V

-- The cell and its threads. `winner` and `runs`, the thread that last won the exchange and how
-- often an initializer has run, are kept for the theorems only.
pub record Cell {ℓ} (V : Type ℓ) : Type ℓ where
  pub state : Phase
  pub value : Option V
  pub place : ℕ → Place V
  pub winner : ℕ
  pub runs : ℕ

abbrev pub move {ℓ} : {V : Type ℓ} → (ℕ → Place V) → ℕ → Place V → ℕ → Place V
move place t p u = if u == t then p else place u

-- `OnceBox::new`, and no thread has loaded yet.
abbrev pub empty {ℓ} : {V : Type ℓ} → Cell V
empty = record { state = uninit; value = none; place = λ t. entering; winner = 0; runs = 0 }

-- The value an initializer gives depends on the thread that runs it.
module _ {ℓ} {V : Type ℓ} (make : ℕ → V) where
  pub data Step (s : Cell V) : Cell V → Type ℓ where
    load_ready :
        (t : ℕ)
        → s.place t ≡ entering
        → s.state ≡ ready
        → Step s (record s { place = move s.place t reading })
    load_unready :
        (t : ℕ)
        → s.place t ≡ entering
        → s.state ≢ ready
        → Step s (record s { place = move s.place t racing })
    win :
        (t : ℕ)
        → s.place t ≡ racing
        → s.state ≡ uninit
        → Step s (record s { state = initializing; place = move s.place t filling; winner = t })
    lose :
        (t : ℕ)
        → s.place t ≡ racing
        → s.state ≢ uninit
        → Step s (record s { place = move s.place t waiting })
    fill :
        (t : ℕ)
        → s.place t ≡ filling
        → Step s (record s {
          value = some (make t);
          place = move s.place t publishing;
          runs = suc s.runs;
        })
    publish :
        (t : ℕ)
        → s.place t ≡ publishing
        → Step s (record s { state = ready; place = move s.place t reading })
    spin : (t : ℕ) → s.place t ≡ waiting → s.state ≢ ready → Step s s
    wake :
        (t : ℕ)
        → s.place t ≡ waiting
        → s.state ≡ ready
        → Step s (record s { place = move s.place t reading })
    read :
        (t : ℕ) (v : V)
        → s.place t ≡ reading
        → s.value ≡ some v
        → Step s (record s { place = move s.place t (returned v) })

  -- Any number of steps.
  pub data Steps (s : Cell V) : Cell V → Type ℓ where
    here : Steps s s
    next : {a b : Cell V} → Steps s a → Step a b → Steps s b
