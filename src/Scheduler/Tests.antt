-- ===== src/Scheduler/Tests.antt =====
-- Runs of the scheduler of src/scheduler.c, and its theorems at concrete schedulers.
use a_lightweight_os.Base.{ℕ, ◌<◌, ◌≤◌, ◌≡◌, refl, true, false, none, some, [], ◌∷◌, arith}
use a_lightweight_os.Scheduler
use a_lightweight_os.Scheduler.Chains.{without}
use a_lightweight_os.Scheduler.Stall.{kill_task-stalls, yields}
use a_lightweight_os.Scheduler.Rounds.{yields-reach}
use a_lightweight_os.Scheduler.Valid.{IsValid}
use a_lightweight_os.Scheduler.Create.{create_task-Creates, Creates}
use a_lightweight_os.Scheduler.Kill.{kill_task-Kills, Kills}
use a_lightweight_os.Scheduler.Yield.{task_yield-Yields, Yields}

abbrev blank : Scheduler.Tcb
blank = record {
  pid = 0;
  name = none;
  state = Scheduler.zombie;
  priority = 0;
  timeslice = 0;
  stack_pointer = 0;
  frame = [];
  entry = 0;
  memory_kb = 0;
  next = none;
}

abbrev boot : Scheduler.Scheduler
boot = record {
  tasks = λ _. blank;
  task_count = 0;
  next_pid = 1;
  current = none;
  head = none;
  requested = false;
}

boot-IsValid : IsValid boot []
boot-IsValid = record {
  linked = refl;
  rising = ground arith;
  capacity = omega arith;
  counted = refl;
  numbered = λ i e. ground arith;
  states = λ i e. ground arith;
  present = λ i e. ground arith;
}

abbrev one_task : Scheduler.Scheduler
one_task = (Scheduler.create_task 0x100000 0x5000 (some (73 ∷ [])) 0x2000 0 boot).0

abbrev two_tasks : Scheduler.Scheduler
two_tasks = (Scheduler.create_task 0x100000 0x5000 (some (84 ∷ [])) 0x3000 5 one_task).0

one_task-IsValid : IsValid one_task (0 ∷ [])
one_task-IsValid =
    (create_task-Creates 0x100000 0x5000 (some (73 ∷ [])) 0x2000 0 boot [] boot-IsValid).1

create_task-Creates_example :
    Creates 0x100000 0x5000
      (some (84 ∷ []))
      0x3000
      5
      one_task
      (0 ∷ [])
      (Scheduler.create_task 0x100000 0x5000 (some (84 ∷ [])) 0x3000 5 one_task)
create_task-Creates_example =
    create_task-Creates 0x100000 0x5000 (some (84 ∷ [])) 0x3000 5 one_task (0 ∷ []) one_task-IsValid

two_tasks-IsValid : IsValid two_tasks (0 ∷ 1 ∷ [])
unfolding Scheduler.create_task
two_tasks-IsValid =
    (create_task-Creates 0x100000 0x5000 (some (84 ∷ [])) 0x3000 5 one_task (0 ∷ [])
      one_task-IsValid).1

two_tasks-current : two_tasks.current ≡ some 0
unfolding Scheduler.create_task
two_tasks-current = refl

kill_task-Kills_example : Kills 2 two_tasks (0 ∷ 1 ∷ []) (Scheduler.kill_task 2 two_tasks)
kill_task-Kills_example = kill_task-Kills 2 two_tasks (0 ∷ 1 ∷ []) two_tasks-IsValid

task_yield-Yields_example : Yields two_tasks (0 ∷ 1 ∷ []) 0 (Scheduler.task_yield two_tasks)
task_yield-Yields_example =
    task_yield-Yields two_tasks (0 ∷ 1 ∷ []) 0 two_tasks-IsValid two_tasks-current

switch_run : (Scheduler.task_yield two_tasks).1 ≡ some (0, 1)
unfolding Scheduler.create_task Scheduler.task_yield
switch_run = refl

-- A task that ends while another is ready leaves no current task, and the yield does not switch.
exit_run : (Scheduler.task_exit two_tasks).1 ≡ none
unfolding Scheduler.create_task Scheduler.task_exit
exit_run = refl

exit_current_run : Scheduler.get_current_task (Scheduler.task_exit two_tasks).0 ≡ none
unfolding Scheduler.create_task Scheduler.task_exit Scheduler.get_current_task
exit_current_run = refl

request_run : Scheduler.pending (Scheduler.request_schedule boot) ≡ true
unfolding Scheduler.pending Scheduler.request_schedule
request_run = refl

initialize_run : (Scheduler.initialize one_task).task_count ≡ 0
unfolding Scheduler.initialize
initialize_run = refl

clear_run : (Scheduler.clear_tasks 3 one_task.tasks 2).pid ≡ 0
unfolding Scheduler.clear_tasks Scheduler.clear_task
clear_run = refl

kill_task-stalls_example :
    let k = (Scheduler.kill_task 1 two_tasks).0 in
    (k.current ≡ none) × IsValid k (without 0 (0 ∷ 1 ∷ [])) × (yields 5 k ≡ k)
kill_task-stalls_example =
    kill_task-stalls two_tasks (0 ∷ 1 ∷ []) 0 5 two_tasks-IsValid two_tasks-current

yields-reach_example : (n : ℕ) × (0 < n) × (n ≤ 2) × ((yields n two_tasks).current ≡ some 1)
yields-reach_example =
    yields-reach two_tasks (0 ∷ 1 ∷ []) 0 1 two_tasks-IsValid two_tasks-current refl
