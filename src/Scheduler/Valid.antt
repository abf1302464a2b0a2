-- ===== src/Scheduler/Valid.antt =====
-- The invariant of src/scheduler.c: the ready queue holds some tasks in the order of their creation,
-- the pids count up from 1, and in the queue exactly the current task is running.
use a_lightweight_os.Base.{
  ℕ, ◌+◌, ◌≤◌, ◌≡◌, true, Option, some, List, ◌==◌, if◌then◌else◌, arith, update, ap, Bool-cases,
  inl, inr,
}
use mathlib.Core.Path.{fun_ext}
use a_lightweight_os.Scheduler.{Scheduler, Tcb, ready, running, nexts, same_slot, max_tasks}
use a_lightweight_os.Scheduler.Chains.{Chain, Rising, elem}

-- `queue` lists the slots from `ready_queue_head` on.
pub record IsValid (s : Scheduler) (queue : List ℕ) : Type 0 where
  pub linked : Chain (nexts s.tasks) s.head queue
  pub rising : Rising 0 s.task_count queue
  pub capacity : s.task_count ≤ max_tasks
  pub counted : s.next_pid ≡ s.task_count + 1
  pub numbered : (i : ℕ) → elem i queue ≡ true → (s.tasks i).pid ≡ i + 1
  pub states :
      (i : ℕ)
      → elem i queue ≡ true
      → (s.tasks i).state ≡ (if same_slot s.current i then running else ready)
  pub present : (i : ℕ) → s.current ≡ some i → elem i queue ≡ true

-- A write through `next` changes the pointers alone.
abbrev pub set_next : (ℕ → Tcb) → ℕ → Option ℕ → ℕ → Tcb
set_next ts k n = update ts k (record (ts k) { next = n })

pub nexts-set_next :
    (ts : ℕ → Tcb) (k : ℕ) (n : Option ℕ) → nexts (set_next ts k n) ≡ update (nexts ts) k n
nexts-set_next ts k n = fun_ext (λ i. ground arith)

at_key : (ts : ℕ → Tcb) (k i : ℕ) → (k == i) ≡ true → ts k ≡ ts i
at_key ts k i e = ap ts (let q : k ≡ i = ground arith in q)

pub pid-set_next :
    (ts : ℕ → Tcb) (k : ℕ) (n : Option ℕ) (i : ℕ) → (set_next ts k n i).pid ≡ (ts i).pid
pid-set_next ts k n i = elim (Bool-cases (k == i)) [
  | inl e ↦ rw e (ap (λ (t : Tcb). t.pid) (at_key ts k i e))
  | inr e ↦ rw e
]

pub state-set_next :
    (ts : ℕ → Tcb) (k : ℕ) (n : Option ℕ) (i : ℕ) → (set_next ts k n i).state ≡ (ts i).state
state-set_next ts k n i = elim (Bool-cases (k == i)) [
  | inl e ↦ rw e (ap (λ (t : Tcb). t.state) (at_key ts k i e))
  | inr e ↦ rw e
]
