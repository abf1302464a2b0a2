-- ===== src/Services/Tests.antt =====
-- Runs of src/services.c, and its theorems at concrete queues and schedulers.
use a_lightweight_os.Base.{ℕ, ◌+◌, ◌≡◌, refl, true, false, none, some, [], ◌∷◌, arith, codes}
use a_lightweight_os.Scheduler
use a_lightweight_os.Scheduler.Valid.{IsValid}
use a_lightweight_os.Services
use a_lightweight_os.Services.Queues
use a_lightweight_os.Services.Queues.Printing.{Holds}
use a_lightweight_os.Services.Queues.Rounds.{output, output-spool_print}

abbrev silent : Queues.Tone
silent = record { frequency = 0; duration_ms = 0; is_set = false }

abbrev idle : Queues.Spooler
idle = record {
  print_queue = λ _ _. 0;
  print_head = 0;
  print_tail = 0;
  print_offset = 0;
  print_queue_full = false;
  audio_queue = λ _. silent;
  audio_head = 0;
  audio_tail = 0;
  audio_queue_full = false;
}

idle-Holds : Holds idle []
idle-Holds = record {
  texts = tt;
  few = omega arith;
  head_bound = omega arith;
  tail_place = refl;
  full = refl;
  idle = λ _. refl;
}

output-spool_print_example :
    output 4 (Queues.spool_print (some (72 ∷ 105 ∷ [])) idle) ≡ 72 ∷ 105 ∷ []
output-spool_print_example =
    output-spool_print 4 idle [] (72 ∷ 105 ∷ []) idle-Holds (omega arith)
      (λ e. omega (arith, e), (λ e. omega (arith, e), tt)) (omega arith)

abbrev print_byte : ℕ → Queues.Spooler → Queues.Spooler
print_byte c s = Queues.spool_print (some (c ∷ [])) s

abbrev eight : Queues.Spooler
eight = print_byte 8 (
    print_byte 7 (
      print_byte 6 (print_byte 5 (print_byte 4 (print_byte 3 (print_byte 2 (print_byte 1 idle)))))))

-- The ring is full with eight texts, but the ninth is not refused: it takes the slot of the first.
ninth_run :
    (eight.print_queue_full ≡ true)
    × (output 1 eight ≡ 1 ∷ [])
    × (output 1 (print_byte 9 eight) ≡ 9 ∷ [])
unfolding Queues.spool_print Queues.write_text Queues.print_round
ninth_run = (refl, refl, refl)

tone_run :
    let r = Queues.spooler_round (Queues.spool_audio_tone 440 40 (print_byte 33 idle)) in
    (r.1 ≡ some (440, 40)) × (r.2 ≡ some 33)
unfolding Queues.spooler_round Queues.audio_round Queues.print_round Queues.spool_audio_tone
    Queues.spool_print Queues.write_text
tone_run = (refl, refl)

abbrev empty_task : Scheduler.Tcb
empty_task = record {
  pid = 0;
  name = none;
  state = Scheduler.zombie;
  priority = 0;
  timeslice = 0;
  stack_pointer = 0;
  frame = [];
  entry = 0;
  memory_kb = 0;
  next = none;
}

abbrev fresh : Scheduler.Scheduler
fresh = record {
  tasks = λ _. empty_task;
  task_count = 0;
  next_pid = 1;
  current = none;
  head = none;
  requested = false;
}

fresh-IsValid : IsValid fresh []
fresh-IsValid = record {
  linked = refl;
  rising = tt;
  capacity = omega arith;
  counted = refl;
  numbered = λ i e. absurd (ground arith);
  states = λ i e. absurd (ground arith);
  present = λ i e. absurd (cc);
}

abbrev nothing : Services.Services
nothing = record { names = λ _. []; service_id_map = λ _. 0 }

name_run : Services.service_name 9 ≡ codes "BackgroundService010"
unfolding Services.service_name
name_run = refl

start_run :
    let r = Services.start_from 0x100000 0x5000 (λ i. i + 7) 5 0 nothing fresh in
    ((r.1.tasks 3).entry ≡ 10)
    × ((r.1.tasks 4).entry ≡ 11)
    × ((r.1.tasks 4).memory_kb ≡ 4)
    × (r.0.service_id_map 4 ≡ 4)
unfolding Services.start_from Services.start_service Services.note_service Services.set_memory
    Services.service_name Scheduler.create_task Scheduler.new_task
start_run = (refl, refl, refl, refl)
