-- ===== src/Scheduler.antt =====
-- src/scheduler.c: the task table, the ready queue through the tasks' `next` pointers, and the switch
-- of the current task. A pointer to a task is its slot of `task_table`, or `none` for NULL. Code
-- addresses are numbers. The context switch itself is assembly: a yield says between which two slots
-- it switches.
pub mod Chains
pub mod Valid
pub mod Create
pub mod Kill
pub mod Yield
pub mod Stall
pub mod Rounds
mod Tests
use a_lightweight_os.Base.{
  ℕ, zero, suc, ◌+◌, ◌-◌, ◌*◌, ◌%◌, ◌^◌, Bool, true, false, not, ◌&&◌, Option, none, some, List, [],
  ◌∷◌, leb, ◌==◌, if◌then◌else◌, update, u32,
}

pub data TaskState : Type 0 where
  running ready sleeping zombie : TaskState

-- `frame` is what lies on the task's stack from `stack_pointer` up.
pub record Tcb : Type 0 where
  pub pid : ℕ
  pub name : Option (List ℕ)
  pub state : TaskState
  pub priority : ℕ
  pub timeslice : ℕ
  pub stack_pointer : ℕ
  pub frame : List ℕ
  pub entry : ℕ
  pub memory_kb : ℕ
  pub next : Option ℕ

pub record Scheduler : Type 0 where
  pub tasks : ℕ → Tcb
  pub task_count : ℕ
  pub next_pid : ℕ
  pub current : Option ℕ
  pub head : Option ℕ
  pub requested : Bool

abbrev pub max_tasks : ℕ
max_tasks = 256

abbrev pub stack_size : ℕ
stack_size = 0x4000

abbrev pub is_ready : TaskState → Bool
is_ready ready = true
is_ready _ = false

abbrev pub is_running : TaskState → Bool
is_running running = true
is_running _ = false

abbrev pub same_slot : Option ℕ → ℕ → Bool
same_slot none i = false
same_slot (some j) i = j == i

-- The `next` pointers of a table.
abbrev pub nexts : (ℕ → Tcb) → ℕ → Option ℕ
nexts ts i = (ts i).next

pub request_schedule : Scheduler → Scheduler
request_schedule s = record s { requested = true }

pub pending : Scheduler → Bool
pending s = s.requested

pub clear_task : ℕ → (ℕ → Tcb) → ℕ → Tcb
clear_task i ts = update ts i (record (ts i) { pid = 0; name = none; state = zombie; next = none })

pub clear_tasks : ℕ → (ℕ → Tcb) → ℕ → Tcb
clear_tasks zero ts = ts
clear_tasks (suc n) ts = clear_task n (clear_tasks n ts)

-- The loop of scheduler_initialize runs up over all the slots.
pub initialize : Scheduler → Scheduler
initialize s = record s { tasks = clear_tasks max_tasks s.tasks; task_count = 0 }

-- `while (iter->next != NULL) iter = iter->next;`, over at most `fuel` tasks.
pub last_task : (ℕ → Option ℕ) → ℕ → ℕ → ℕ
last_task next zero i = i
last_task next (suc fuel) i = elim (next i) [ none ↦ i | some j ↦ last_task next fuel j ]

-- `stacks` is the address of `task_stacks`, `wrapper` that of task_entry_wrapper.
module _ (stacks wrapper : ℕ) where
  unfoldable pub new_task : ℕ → ℕ → Option (List ℕ) → ℕ → ℕ → Tcb
  new_task slot pid name entry priority = record {
    pid = pid;
    name = name;
    state = ready;
    priority = priority;
    timeslice = 20;
    stack_pointer = stacks + (slot + 1) * stack_size - 7 * 8;
    frame = 0 ∷ 0 ∷ 0 ∷ 0 ∷ 0 ∷ 0 ∷ wrapper ∷ [];
    entry = entry;
    memory_kb = 0;
    next = none;
  }

  -- The new task's slot, or `none` where the table is full.
  unfoldable pub create_task : Option (List ℕ) → ℕ → ℕ → Scheduler → Scheduler × Option ℕ
  unfolding last_task new_task
  create_task name entry priority s =
      let slot = s.task_count in
      let tcb = new_task slot s.next_pid name entry priority in
      let ts = update s.tasks slot tcb in
      if leb max_tasks slot then (s, none) else elim s.head [
        | none ↦ (
          record s {
            tasks = update ts slot (record tcb { state = running });
            task_count = slot + 1;
            next_pid = u32 (s.next_pid + 1);
            current = some slot;
            head = some slot;
          },
          some slot,
        )
        | some h ↦ (
          let l = last_task (nexts ts) max_tasks h in
              record s {
                tasks = update ts l (record (ts l) { next = some slot });
                task_count = slot + 1;
                next_pid = u32 (s.next_pid + 1);
              },
          some slot,
        )
      ]

-- The walk of kill_task: the task with the pid, and the one before it.
pub find_task : (ℕ → Tcb) → ℕ → ℕ → Option ℕ → Option ℕ → Option (Option ℕ × ℕ)
find_task ts pid zero prev p = none
find_task ts pid (suc fuel) prev none = none
find_task ts pid (suc fuel) prev (some i) =
    let rest = find_task ts pid fuel (some i) (ts i).next in
    if (ts i).pid == pid then some (prev, i) else rest

-- The flag says whether the pid was found.
pub kill_task : ℕ → Scheduler → Scheduler × Bool
unfolding find_task
kill_task pid s = elim (find_task s.tasks pid max_tasks none s.head) [
  | none ↦ (s, false)
  | some (prev, i) ↦ (
    let ts = update s.tasks i (record (s.tasks i) { state = zombie }) in
        record s {
          tasks = elim prev [
            | none ↦ ts
            | some j ↦ update ts j (record (ts j) { next = (ts i).next })
          ];
          head = elim prev [ none ↦ (ts i).next | some j ↦ s.head ];
          current = if same_slot s.current i then none else s.current;
        },
    true,
  )
]

-- `while (t != NULL && t->state != TASK_READY) t = t->next;`
pub first_ready : (ℕ → Tcb) → ℕ → Option ℕ → Option ℕ
first_ready ts zero p = none
first_ready ts (suc fuel) none = none
first_ready ts (suc fuel) (some i) =
    let rest = first_ready ts fuel (ts i).next in if is_ready (ts i).state then some i else rest

-- The task to run next: after the old one, or from the head on.
pub pick : (ℕ → Tcb) → ℕ → Option ℕ → Option ℕ
unfolding first_ready
pick ts old head = elim (first_ready ts max_tasks (ts old).next) [
  | some n ↦ some n
  | none ↦ first_ready ts max_tasks head
]

-- `if (old_task->state == TASK_RUNNING) old_task->state = TASK_READY;`
pub park : ℕ → (ℕ → Tcb) → ℕ → Tcb
park old ts =
    if is_running (ts old).state then update ts old (record (ts old) { state = ready }) else ts

-- The end of task_yield, with the task that was picked: the old one goes on, or the context is switched
-- between the two slots that are returned.
pub dispatch : ℕ → Scheduler → (ℕ → Tcb) → Option ℕ → Scheduler × Option (ℕ × ℕ)
dispatch old s ts picked =
    let stay : Scheduler × Option (ℕ × ℕ) = (
      record s { tasks = update ts old (record (ts old) { state = running }); requested = false },
      none,
    ) in
    elim picked [
      | none ↦ stay
      | some n ↦ if n == old then stay else (
        record s {
          tasks = update ts n (record (ts n) { state = running; timeslice = 20 });
          current = some n;
          requested = false;
        },
        some (old, n),
      )
    ]

pub yield_from : ℕ → Scheduler → Scheduler × Option (ℕ × ℕ)
unfolding pick park dispatch
yield_from old s = let parked = park old s.tasks in dispatch old s parked (pick parked old s.head)

-- The early return of task_yield: without a current task or a queue nothing happens.
pub yield_with : Option ℕ → Option ℕ → Scheduler → Scheduler × Option (ℕ × ℕ)
unfolding yield_from
yield_with none h s = (s, none)
yield_with (some old) none s = (s, none)
yield_with (some old) (some _) s = yield_from old s

pub task_yield : Scheduler → Scheduler × Option (ℕ × ℕ)
unfolding yield_with
task_yield s = yield_with s.current s.head s

unfoldable pub get_current_task : Scheduler → Option ℕ
get_current_task s = s.current

-- What task_entry_wrapper does when the task's entry function has returned.
pub task_exit : Scheduler → Scheduler × Option (ℕ × ℕ)
unfolding kill_task task_yield
task_exit s = elim s.current [
  | none ↦ (s, none)
  | some i ↦
      let marked = record s { tasks = update s.tasks i (record (s.tasks i) { state = zombie }) } in
      task_yield (kill_task (s.tasks i).pid marked).0
]
