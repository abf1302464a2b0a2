-- ===== src/Syscalls.antt =====
-- src/syscalls.c: the system calls. The arguments and the result are 64-bit words; what is logged and
-- printed is left out. The set-up of the machine registers is not modelled.
pub mod Effects
mod Tests
use a_lightweight_os.Base.{ℕ, ◌-◌, ◌^◌, Bool, ◌||◌, Option, none, some, leb, ◌==◌, if◌then◌else◌}
use a_lightweight_os.Scheduler.{Scheduler, Tcb, kill_task, get_current_task}

abbrev pub kernel_space_start : ℕ
kernel_space_start = 0xFFFFFFFF80000000

abbrev pub get_pid_id : ℕ
get_pid_id = 5

abbrev pub beep_id : ℕ
beep_id = 3

abbrev pub kprintf_id : ℕ
kprintf_id = 1

abbrev pub open_file_id : ℕ
open_file_id = 2

abbrev pub exit_id : ℕ
exit_id = 60

pub in_kernel : ℕ → ℕ → ℕ → Bool
in_kernel arg1 arg2 arg3 =
    leb kernel_space_start arg1 || leb kernel_space_start arg2 || leb kernel_space_start arg3

pub pid_of : Option ℕ → Scheduler → ℕ
pid_of none s = 0
pid_of (some i) s = (s.tasks i).pid

pub exit_task : Option ℕ → Scheduler → Scheduler
exit_task none s = s
exit_task (some i) s = (kill_task (s.tasks i).pid s).0

pub dispatch : ℕ → ℕ → ℕ → ℕ → Scheduler → Scheduler × ℕ
unfolding in_kernel pid_of exit_task get_current_task
dispatch id arg1 arg2 arg3 s =
    if in_kernel arg1 arg2 arg3
    then (s, 2 ^ 64 - 1)
    else if id == get_pid_id
    then (s, pid_of (get_current_task s) s)
    else if id == exit_id
    then (exit_task (get_current_task s) s, 0)
    else if (id == beep_id) || (id == kprintf_id) || (id == open_file_id)
    then (s, 0)
    else (s, 2 ^ 64 - 2)

pub get_pid : Scheduler → ℕ
unfolding pid_of get_current_task
get_pid s = pid_of (get_current_task s) s

pub get_ppid : ℕ
get_ppid = 0
