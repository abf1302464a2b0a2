-- ===== src/Keyboard.antt =====
-- src/keyboard.c. What the PS/2 ports read is an argument of each poll: the status byte, and the
-- scancode that the data port gives if it is read. The USB device is src/usb.c's state.
mod Keymap
pub mod Queue
pub mod Typing
mod Tests
use a_lightweight_os.Base.{
  ℕ, ◌+◌, ◌%◌, Bool, true, false, not, ◌&&◌, ◌||◌, Option, none, some, ◌==◌, if◌then◌else◌, get_or,
  test_bit,
}
use a_lightweight_os.Ring.{Ring}
use a_lightweight_os.Ring
use a_lightweight_os.Usb.{Usb, has_keyboard, get_keyboard_char}
use Keymap.{keymap, shift_keymap}

pub record Keyboard : Type 0 where
  pub queue : Ring ℕ
  pub shift_down : Bool

abbrev pub queue_size : ℕ
queue_size = 256

pub initialize : Keyboard → Keyboard
initialize k = record {
  queue = record { buf = k.queue.buf; head = 0; tail = 0 };
  shift_down = false;
}

pub queue_char : ℕ → Keyboard → Keyboard
queue_char c k = record k { queue = (Ring.push queue_size c k.queue).0 }

pub usb_poll : Keyboard → Usb → Keyboard × Usb
unfolding queue_char
usb_poll k u =
    if has_keyboard u
    then elim (get_keyboard_char true u) [
      | some (c, u') ↦ (if c == 0 then k else queue_char c k, u')
      | none ↦ (k, u)
    ]
    else (k, u)

pub translate : Bool → ℕ → ℕ
translate shift code = if shift then get_or shift_keymap code 0 else get_or keymap code 0

pub poll : ℕ → ℕ → Keyboard → Keyboard
unfolding queue_char translate
poll status scancode k =
    if not (test_bit status 0) || test_bit status 5
    then k
    else let released = test_bit scancode 7 in
      let code = scancode % 128 in
      if code == 0x2A || code == 0x36
      then record k { shift_down = not released }
      else if released
      then k
      else let chr = translate k.shift_down code in if chr == 0 then k else queue_char chr k

pub has_data : ℕ → ℕ → Keyboard → Usb → Keyboard × Usb × Bool
unfolding poll usb_poll
has_data status scancode k u =
    let (k', u') = usb_poll (poll status scancode k) u in
    (k', u', not (k'.queue.head == k'.queue.tail))

-- The character is 0 where the queue is empty.
pub read_char : ℕ → ℕ → Keyboard → Usb → Keyboard × Usb × ℕ
unfolding poll usb_poll
read_char status scancode k u =
    let (k', u') = usb_poll (poll status scancode k) u in
    elim (Ring.pop queue_size k'.queue) [
      | some (c, q) ↦ (record k' { queue = q }, u', c)
      | none ↦ (k', u', 0)
    ]
