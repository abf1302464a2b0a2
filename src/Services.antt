-- ===== src/Services.antt =====
-- src/services.c: the background services. Their entry functions are numbers, `entries i` for the i-th
-- of the table and `entries 4` for the generic one. A string is the list of its bytes.
pub mod Queues
pub mod Start
pub mod Daemons
mod Tests
use a_lightweight_os.Base.{
  ℕ, zero, suc, ◌+◌, ◌-◌, ◌/◌, ◌%◌, Option, none, some, List, [], ◌∷◌, ◌++◌, ltb, ◌==◌,
  if◌then◌else◌, update, take, codes,
}
use a_lightweight_os.Scheduler.{Scheduler, Tcb, create_task}
use a_lightweight_os.Services.Queues.{Spooler, spool_print, spool_audio_tone}

pub record Services : Type 0 where
  pub names : ℕ → List ℕ
  pub service_id_map : ℕ → ℕ

-- BACKGROUND_SERVICE_COUNT.
abbrev pub service_count : ℕ
service_count = 200

-- The entries of `service_table`, and the name of the other services.
abbrev table_name : ℕ → List ℕ
table_name zero = codes "Disk/File Indexer"
table_name (suc zero) = codes "Input Monitor / Polling"
table_name (suc (suc zero)) = codes "Clipboard Daemon"
table_name _ = codes "Print / Audio Spooler"

-- `'0' + (value / 100) % 10` and the two digits behind it.
abbrev digits : ℕ → List ℕ
digits value = (48 + value / 100 % 10) ∷ (48 + value / 10 % 10) ∷ (48 + value % 10) ∷ []

-- No name is as long as the buffer, whose 32 bytes cut none of them.
pub service_name : ℕ → List ℕ
service_name i = if ltb i 4 then table_name i else codes "BackgroundService" ++ digits (i + 1)

-- `task->memory_kb = i;`
pub set_memory : ℕ → ℕ → (ℕ → Tcb) → ℕ → Tcb
set_memory slot i ts = update ts slot (record (ts slot) { memory_kb = i })

-- The end of the body of the loop for service `i`, with what create_task gave.
pub note_service : ℕ → Services → Scheduler × Option ℕ → Services × Scheduler
unfolding set_memory
note_service i v (s, none) = (v, s)
note_service i v (s, some slot) = (
  record v { service_id_map = update v.service_id_map i i },
  record s { tasks = set_memory slot i s.tasks },
)

module _ (stacks wrapper : ℕ) (entries : ℕ → ℕ) where
  pub start_service : ℕ → Services → Scheduler → Services × Scheduler
  unfolding service_name note_service
  start_service i v s =
      let entry = if ltb i 4 then entries i else entries 4 in
      note_service i (record v { names = update v.names i (service_name i) })
        (create_task stacks wrapper (some (service_name i)) entry 1 s)

  -- The loop, with `n` services left from `i` on.
  pub start_from : ℕ → ℕ → Services → Scheduler → Services × Scheduler
  unfolding start_service
  start_from zero i v s = (v, s)
  start_from (suc n) i v s = let (v', s') = start_service i v s in start_from n (i + 1) v' s'

  pub initialize : Services → Scheduler → Spooler → Services × Scheduler × Spooler
  unfolding start_from
  initialize v s p =
      let (v', s') = start_from service_count 0 v s in
      (
        v',
        s',
        spool_audio_tone 440 40
            (spool_print (some (codes "[Spooler] System print queue initialized" ++ 10 ∷ [])) p),
      )
