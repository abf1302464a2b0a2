-- ===== src/Syscalls/Effects.antt =====
-- What the system calls of src/syscalls.c do to the scheduler.
use a_lightweight_os.Base.{ℕ, ◌+◌, ◌-◌, ◌^◌, ◌≡◌, ◌≢◌, true, false, none, List}
use a_lightweight_os.Scheduler.{Scheduler}
use a_lightweight_os.Scheduler.Chains.{without}
use a_lightweight_os.Scheduler.Valid.{IsValid}
use a_lightweight_os.Scheduler.Stall.{yields}
use a_lightweight_os.Syscalls.{dispatch, in_kernel, exit_id, get_pid_id}

-- No task is current, and no yield makes one current.
abbrev pub Idle : Scheduler → List ℕ → Type 0
Idle t queue = (t.current ≡ none) × IsValid t queue × ((n : ℕ) → yields n t ≡ t)

pub record Dispatches (s : Scheduler) (queue : List ℕ) (i arg1 arg2 arg3 : ℕ) : Type 0 where
  pub refuses :
      (id : ℕ) → in_kernel arg1 arg2 arg3 ≡ true → dispatch id arg1 arg2 arg3 s ≡ (s, 2 ^ 64 - 1)
  pub leaves : (id : ℕ) → id ≢ exit_id → (dispatch id arg1 arg2 arg3 s).0 ≡ s
  pub tells : in_kernel arg1 arg2 arg3 ≡ false → (dispatch get_pid_id arg1 arg2 arg3 s).1 ≡ i + 1
  pub exits :
      in_kernel arg1 arg2 arg3 ≡ false
      → let r = dispatch exit_id arg1 arg2 arg3 s in (r.1 ≡ 0) × Idle r.0 (without i queue)
