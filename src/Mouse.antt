-- ===== src/Mouse.antt =====
-- src/mouse.c. What the PS/2 ports read is an argument of each poll: the status byte, and the byte
-- that the data port gives if it is read. The USB device is src/usb.c's state.
pub mod Events
mod Tests
use a_lightweight_os.Base.{
  ℕ, ◌+◌, Bool, true, false, not, ◌&&◌, ◌||◌, Option, none, some, ◌==◌, leb, if◌then◌else◌, update,
  test_bit, ℤ, pos, ◌+ℤ◌, ◌-ℤ◌, i8, clamp_to,
}
use a_lightweight_os.Ring.{Ring}
use a_lightweight_os.Ring
use a_lightweight_os.Usb.{Usb, has_mouse, get_mouse_report, MouseMove}
use a_lightweight_os.Usb

pub record MouseEvent : Type 0 where
  pub dx : ℤ
  pub dy : ℤ
  pub left : Bool
  pub right : Bool
  pub middle : Bool

pub record Mouse : Type 0 where
  pub queue : Ring MouseEvent
  pub packet : ℕ → ℕ
  pub packet_offset : ℕ
  pub x : ℤ
  pub y : ℤ
  pub initialized : Bool

abbrev pub queue_size : ℕ
queue_size = 32

pub enqueue_event : MouseEvent → Mouse → Mouse
enqueue_event e m = record m { queue = (Ring.push queue_size e m.queue).0 }

pub process_ps2_packet : Mouse → Mouse
unfolding enqueue_event
process_ps2_packet m =
    enqueue_event
      (record {
        dx = i8 (m.packet 1);
        dy = i8 (m.packet 2);
        left = test_bit (m.packet 0) 0;
        right = test_bit (m.packet 0) 1;
        middle = test_bit (m.packet 0) 2;
      })
      m

pub poll_ps2 : ℕ → ℕ → Mouse → Mouse
unfolding process_ps2_packet
poll_ps2 status byte m =
    if not (test_bit status 0) || not (test_bit status 5)
    then m
    else if m.packet_offset == 0 && not (test_bit byte 3)
    then m
    else let m' = record m {
      packet = update m.packet m.packet_offset byte;
      packet_offset = m.packet_offset + 1;
    } in
      if leb 3 m'.packet_offset then record (process_ps2_packet m') { packet_offset = 0 } else m'

-- The state part of mouse_initialize; the commands that it sends to the device are not modelled.
pub initialize : Mouse → Mouse
initialize m = record {
  queue = record { buf = m.queue.buf; head = 0; tail = 0 };
  packet = m.packet;
  packet_offset = 0;
  x = pos 40;
  y = pos 12;
  initialized = true;
}

pub poll_usb : (ℕ → ℕ) → Mouse → Usb → Mouse × Usb
unfolding enqueue_event
poll_usb portsc m u =
    let u' = Usb.poll portsc u in
    if has_mouse u'
    then elim (get_mouse_report u') [
      | some (r, u'') ↦ (
        enqueue_event
            (record { dx = r.dx; dy = r.dy; left = r.left; right = r.right; middle = r.middle }) m,
        u'',
      )
      | none ↦ (m, u')
    ]
    else (m, u')

pub has_event : ℕ → ℕ → (ℕ → ℕ) → Mouse → Usb → Mouse × Usb × Bool
unfolding poll_ps2 poll_usb
has_event status byte portsc m u =
    let (m', u') = poll_usb portsc (poll_ps2 status byte m) u in
    if m.initialized then (m', u', not (m'.queue.head == m'.queue.tail)) else (m, u, false)

abbrev pub no_event : MouseEvent
no_event = record { dx = pos 0; dy = pos 0; left = false; right = false; middle = false }

-- The flag says that none of the caller's pointers is null.
pub get_event : Bool → Mouse → Mouse × MouseEvent
get_event present m =
    if present
    then elim (Ring.pop queue_size m.queue) [
      | some (e, q) ↦
          (record m { queue = q; x = clamp_to 79 (m.x +ℤ e.dx); y = clamp_to 23 (m.y -ℤ e.dy) }, e)
      | none ↦ (m, no_event)
    ]
    else (m, no_event)
