-- ===== src/Sync/Tests.antt =====
-- Runs of src/sync.c, and its theorem at two processors of which one holds the lock.
use a_lightweight_os.Base.{ℕ, ◌≡◌, refl, none, some, update}
use a_lightweight_os.Sync.{
  Spinlock, System, outside, spinning, inside, spinlock_init, spin_lock, spin_unlock, test_and_set,
  attempt, call, try, Reachable, initial, later,
}
use a_lightweight_os.Sync.Exclusion.{Reachable-exclusive, Empty}

abbrev dirty : Spinlock
dirty = record { locked = 7 }

abbrev fresh : System
fresh = record { lock = spinlock_init (some dirty); place = λ _. outside }

abbrev called : System
called = record fresh { place = update fresh.place 0 spinning }

abbrev waiting : System
waiting = let s = attempt 0 called in record s { place = update s.place 1 spinning }

waiting-Reachable : Reachable waiting
unfolding attempt spinlock_init test_and_set
waiting-Reachable =
    later (attempt 0 called) waiting
      (later called (attempt 0 called) (later fresh called (initial dirty) (call 0 fresh refl))
        (try 0 called refl))
      (call 1 (attempt 0 called) refl)

Reachable-exclusive_example :
    (waiting.place 0 ≡ inside → waiting.place 1 ≡ inside → ◌≡◌ {A = ℕ} 0 1)
    × (Empty waiting.place → waiting.place 0 ≡ spinning → (attempt 0 waiting).place 0 ≡ inside)
Reachable-exclusive_example = Reachable-exclusive waiting 0 1 waiting-Reachable

excluded_run : (attempt 1 waiting).place 1 ≡ spinning
unfolding attempt spinlock_init test_and_set
excluded_run = refl

lock_run : spin_lock 1 (spin_unlock (some dirty)) ≡ some (some (record { locked = 1 }))
unfolding spin_lock spin_unlock test_and_set
lock_run = refl

-- Without another processor that releases it, a lock that is held is never obtained.
spin_run : spin_lock 50 (some dirty) ≡ none
unfolding spin_lock test_and_set
spin_run = refl
