-- ===== src/Services/Queues.antt =====
-- The print and tone queues of src/services.c, and the body of the loop of its spooler. Each queue is a
-- ring of eight slots with a flag for a full one. A text is the list of its bytes before the
-- terminating 0, or `none` for NULL; a slot of the print queue is the function of its bytes.
pub mod Printing
pub mod Rounds
use a_lightweight_os.Base.{
  ℕ, zero, suc, ◌+◌, ◌-◌, ◌%◌, Bool, true, false, not, ◌&&◌, ◌||◌, Option, none, some, List, [],
  ◌∷◌, ltb, ◌==◌, if◌then◌else◌, update, u8,
}

pub record Tone : Type 0 where
  pub frequency : ℕ
  pub duration_ms : ℕ
  pub is_set : Bool

pub record Spooler : Type 0 where
  pub print_queue : ℕ → ℕ → ℕ
  pub print_head : ℕ
  pub print_tail : ℕ
  pub print_offset : ℕ
  pub print_queue_full : Bool
  pub audio_queue : ℕ → Tone
  pub audio_head : ℕ
  pub audio_tail : ℕ
  pub audio_queue_full : Bool

-- PRINT_QUEUE_SLOTS and AUDIO_QUEUE_SLOTS.
abbrev pub queue_slots : ℕ
queue_slots = 8

abbrev pub print_message_size : ℕ
print_message_size = 128

-- The loop of spool_print over the text, from an index on, and the 0 behind it.
unfoldable pub write_text : List ℕ → ℕ → (ℕ → ℕ) → ℕ → ℕ
write_text [] index row = update row index 0
write_text (c ∷ cs) index row =
    let rest = write_text cs (index + 1) (update row index c) in
    if ltb index (print_message_size - 1) then rest else update row index 0

unfoldable pub spool_print : Option (List ℕ) → Spooler → Spooler
unfolding write_text
spool_print none s = s
spool_print (some text) s =
    let next = (s.print_tail + 1) % queue_slots in
    if (next == s.print_head) && s.print_queue_full then s else record s {
      print_queue =
          update s.print_queue s.print_tail (write_text text 0 (s.print_queue s.print_tail));
      print_tail = next;
      print_queue_full = if next == s.print_head then true else s.print_queue_full;
    }

unfoldable pub spool_audio_tone : ℕ → ℕ → Spooler → Spooler
spool_audio_tone frequency duration_ms s =
    let next = (s.audio_tail + 1) % queue_slots in
    if (next == s.audio_head) && s.audio_queue_full then s else record s {
      audio_queue =
          update s.audio_queue s.audio_tail
            (record { frequency = frequency; duration_ms = duration_ms; is_set = true });
      audio_tail = next;
      audio_queue_full = if next == s.audio_head then true else s.audio_queue_full;
    }

-- The first half of a round of the spooler, with the tone that it plays.
unfoldable pub audio_round : Spooler → Spooler × Option (ℕ × ℕ)
audio_round s =
    let tone = s.audio_queue s.audio_head in
    let taken = record s {
      audio_queue = update s.audio_queue s.audio_head (record tone { is_set = false });
      audio_head = (s.audio_head + 1) % queue_slots;
      audio_queue_full = false;
    } in
    if tone.is_set then (taken, some (tone.frequency, tone.duration_ms)) else (s, none)

-- The second half, with the byte that it puts out.
unfoldable pub print_round : Spooler → Spooler × Option ℕ
print_round s =
    let c = s.print_queue s.print_head s.print_offset in
    let done = record s {
      print_queue = update s.print_queue s.print_head (update (s.print_queue s.print_head) 0 0);
      print_head = (s.print_head + 1) % queue_slots;
      print_offset = 0;
      print_queue_full = false;
    } in
    if not (s.print_head == s.print_tail) || not (s.print_offset == 0) || s.print_queue_full
    then if c == 0
      then (done, none)
      else (record s { print_offset = u8 (s.print_offset + 1) }, some c)
    else (s, none)

-- A round before its yield.
unfoldable pub spooler_round : Spooler → Spooler × Option (ℕ × ℕ) × Option ℕ
unfolding audio_round print_round
spooler_round s = let (s', tone) = audio_round s in let (s'', c) = print_round s' in (s'', tone, c)
