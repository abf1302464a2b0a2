-- ===== src/Sync.antt =====
-- src/sync.c: the spinlock, and processors that take and release one. A pointer to a lock is `none` for
-- NULL.
pub mod Exclusion
mod Tests
use a_lightweight_os.Base.{
  ℕ, zero, suc, Bool, true, false, Option, none, some, ◌==◌, if◌then◌else◌, not, update, ◌≡◌,
}

pub record Spinlock : Type 0 where
  pub locked : ℕ

pub spinlock_init : Option Spinlock → Option Spinlock
spinlock_init none = none
spinlock_init (some l) = some (record { locked = 0 })

-- __atomic_test_and_set: whether the lock was set, and the lock that is set now.
pub test_and_set : Spinlock → Bool × Spinlock
test_and_set l = (not (l.locked == 0), record { locked = 1 })

-- The loop of spin_lock, while no other processor touches the lock; `none` where it is still spinning.
pub spin_lock : ℕ → Option Spinlock → Option (Option Spinlock)
unfolding test_and_set
spin_lock fuel none = some none
spin_lock zero (some l) = none
spin_lock (suc fuel) (some l) =
    let (busy, l') = test_and_set l in
    let rest = spin_lock fuel (some l') in if busy then rest else some (some l')

pub spin_unlock : Option Spinlock → Option Spinlock
spin_unlock none = none
spin_unlock (some l) = some (record { locked = 0 })

-- Where a processor is.
pub data Place : Type 0 where
  outside spinning inside : Place

-- The lock that some processors share. The lock is not NULL.
pub record System : Type 0 where
  pub lock : Option Spinlock
  pub place : ℕ → Place

-- One round of the loop of spin_lock on processor `i`.
pub attempt : ℕ → System → System
unfolding test_and_set
attempt i s = elim s.lock [
  | none ↦ record s { place = update s.place i inside }
  | some l ↦
      let (busy, l') = test_and_set l in
      record { lock = some l'; place = if busy then s.place else update s.place i inside }
]

-- A step of one processor, in any order: it calls spin_lock, goes once through its loop, or calls
-- spin_unlock while it holds the lock.
pub data Step : System → System → Type 0 where
  call :
      (i : ℕ) (s : System)
      → s.place i ≡ outside
      → Step s (record s { place = update s.place i spinning })
  try : (i : ℕ) (s : System) → s.place i ≡ spinning → Step s (attempt i s)
  release :
      (i : ℕ) (s : System)
      → s.place i ≡ inside
      → Step s (record { lock = spin_unlock s.lock; place = update s.place i outside })

-- The states from an initialised lock that no processor uses.
pub data Reachable : System → Type 0 where
  initial :
      (l : Spinlock) → Reachable (record { lock = spinlock_init (some l); place = λ _. outside })
  later : (s t : System) → Reachable s → Step s t → Reachable t
