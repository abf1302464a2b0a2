-- ===== src/Apps/Tests.antt =====
-- Runs of src/app_launcher.c.
use a_lightweight_os.Base.{◌≡◌, refl, true, false, none, some, [], arith}
use a_lightweight_os.Files.{strings_equal}
use a_lightweight_os.Scheduler
use a_lightweight_os.Apps
use a_lightweight_os.Apps.Launch.{IsFirst}

abbrev idle : Scheduler.Scheduler
idle = record {
  tasks = λ i. record {
    pid = 0;
    name = none;
    state = Scheduler.zombie;
    priority = 0;
    timeslice = 0;
    stack_pointer = 0;
    frame = [];
    entry = 0;
    memory_kb = 0;
    next = none;
  };
  task_count = 0;
  next_pid = 1;
  current = none;
  head = none;
  requested = false;
}

abbrev registry : Apps.Launcher
registry = Apps.initialize 0x1000 0x2000 0x3000 (record {
  apps = λ _. record { name = []; entry = 0; running_now = true; pid = 9 };
  app_count = 5;
})

abbrev after_start : Scheduler.Scheduler
after_start = (Scheduler.create_task 0x100000 0x5000 (some Apps.files_name) 0x1000 1 idle).0

registry-IsFirst : IsFirst Apps.files_name registry 0
unfolding Apps.initialize strings_equal
registry-IsFirst = record {
  registered = omega arith;
  hit = refl;
  before = λ k b. absurd (omega arith);
}

not_running : (registry.apps 0).running_now ≡ false
unfolding Apps.initialize
not_running = refl

created :
    Scheduler.create_task 0x100000 0x5000 (some Apps.files_name) (registry.apps 0).entry 1 idle
    ≡ (after_start, some 0)
unfolding Apps.initialize Scheduler.create_task
created = refl
