-- ===== src/Apps.antt =====
-- src/app_launcher.c: the registry of applications and their launch through the scheduler. The entry
-- functions are numbers, given as `entries`. A name is a C string, or `none` for NULL; -1 is `none`.
-- Drawing is left out. The comparison of names is that of Files.
pub mod Launch
mod Tests
use a_lightweight_os.Base.{
  ℕ, zero, suc, ◌+◌, Bool, true, false, Option, none, some, List, [], ◌∷◌, if◌then◌else◌, update,
}
use a_lightweight_os.Files.{strings_equal}
use a_lightweight_os.Scheduler.{Scheduler, Tcb, create_task}

pub record App : Type 0 where
  pub name : List ℕ
  pub entry : ℕ
  pub running_now : Bool
  pub pid : ℕ

pub record Launcher : Type 0 where
  pub apps : ℕ → App
  pub app_count : ℕ

-- "Files", "Terminal" and "Settings".
abbrev pub files_name : List ℕ
files_name = 70 ∷ 105 ∷ 108 ∷ 101 ∷ 115 ∷ []

abbrev pub terminal_name : List ℕ
terminal_name = 84 ∷ 101 ∷ 114 ∷ 109 ∷ 105 ∷ 110 ∷ 97 ∷ 108 ∷ []

abbrev pub settings_name : List ℕ
settings_name = 83 ∷ 101 ∷ 116 ∷ 116 ∷ 105 ∷ 110 ∷ 103 ∷ 115 ∷ []

-- `app_registry[app_count] = ...; app_count++;`
pub register : List ℕ → ℕ → Launcher → Launcher
register name entry l = record {
  apps =
      update l.apps l.app_count
        (record { name = name; entry = entry; running_now = false; pid = 0 });
  app_count = l.app_count + 1;
}

pub initialize : ℕ → ℕ → ℕ → Launcher → Launcher
unfolding register
initialize files terminal settings l =
    register settings_name settings
      (register terminal_name terminal (register files_name files (record l { app_count = 0 })))

-- `app_registry[i].running = true; app_registry[i].pid = task->pid;`
pub mark_running : ℕ → ℕ → Launcher → Launcher
mark_running i pid l = record l {
  apps = update l.apps i (record (l.apps i) { running_now = true; pid = pid });
}

-- The body of the loop of app_launch for application `i`, with the result of the further search.
module _ (stacks wrapper : ℕ) where
  pub start :
      ℕ
      → Launcher
      → Scheduler × Option ℕ
      → (Scheduler → Launcher × Scheduler × Option ℕ)
      → Launcher × Scheduler × Option ℕ
  unfolding mark_running
  start i l (s, none) further = further s
  start i l (s, some t) further = (mark_running i (s.tasks t).pid l, s, some (s.tasks t).pid)

  -- The loop from application `i` on, with `n` of them left.
  pub launch_from : List ℕ → ℕ → ℕ → Launcher → Scheduler → Launcher × Scheduler × Option ℕ
  unfolding start
  launch_from name zero i l s = (l, s, none)
  launch_from name (suc n) i l s =
      let rest = launch_from name n (i + 1) l in
      if strings_equal (some (l.apps i).name) (some name)
      then if (l.apps i).running_now
        then (l, s, some (l.apps i).pid)
        else start i l (create_task stacks wrapper (some name) (l.apps i).entry 1 s) rest
      else rest s

  pub launch : Option (List ℕ) → Launcher → Scheduler → Launcher × Scheduler × Option ℕ
  unfolding launch_from
  launch none l s = (l, s, none)
  launch (some name) l s = launch_from name l.app_count 0 l s
