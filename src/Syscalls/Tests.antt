-- ===== src/Syscalls/Tests.antt =====
-- Runs of src/syscalls.c, and its theorem at a concrete scheduler.
use a_lightweight_os.Base.{◌+◌, ◌≡◌, refl, false, none, some, []}
use a_lightweight_os.Scheduler
use a_lightweight_os.Syscalls

-- One task, which is running.
abbrev single : Scheduler.Scheduler
single = record {
  tasks = λ i. record {
    pid = i + 1;
    name = none;
    state = Scheduler.running;
    priority = 1;
    timeslice = 20;
    stack_pointer = 0;
    frame = [];
    entry = 0;
    memory_kb = 0;
    next = none;
  };
  task_count = 1;
  next_pid = 2;
  current = some 0;
  head = some 0;
  requested = false;
}

get_pid_run : Syscalls.get_pid single ≡ 1
unfolding Syscalls.get_pid
get_pid_run = refl

get_ppid_run : Syscalls.get_ppid ≡ 0
unfolding Syscalls.get_ppid
get_ppid_run = refl

exit_code_run : (Syscalls.dispatch 60 3 0 0 single).1 ≡ 0
unfolding Syscalls.dispatch
exit_code_run = refl

unknown_run : (Syscalls.dispatch 99 0 0 0 single).1 ≡ 0xFFFFFFFFFFFFFFFE
unfolding Syscalls.dispatch
unknown_run = refl
