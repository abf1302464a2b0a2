-- ===== src/Keyboard/Tests.antt =====
-- The theorem on src/keyboard.c at a keyboard that was just initialised.
use a_lightweight_os.Base.{◌≡◌, refl, true, false, arith, test_bit, pos}
use a_lightweight_os.Ring
use a_lightweight_os.Ring.Contents.{IsValid}
use a_lightweight_os.Usb.{Usb, has_keyboard, none_type}
use a_lightweight_os.Keyboard.{
  Keyboard, queue_size, initialize, poll, usb_poll, read_char, has_data,
}
use a_lightweight_os.Keyboard.Typing.{Holds, with_char, typed_by, shift_after, held}
use a_lightweight_os.Keyboard.Queue.{Reads, usb_key, usb_left, waiting, read_char-poll}

abbrev fresh : Keyboard
fresh = record { queue = record { buf = λ _. 0; head = 0; tail = 0 }; shift_down = false }

abbrev unplugged : Usb
unplugged = record {
  hid_devices = λ _. record {
    attached = false;
    slot_id = 0;
    address = 0;
    type = none_type;
    endpoint_address = 0;
    max_packet_size = 0;
    interface_number = 0;
  };
  keyboard_buffer = record { buf = λ _. 0; head = 0; tail = 0 };
  mouse_events = record {
    buf = λ _. record { buttons = 0; dx = 0; dy = 0; wheel = 0 };
    head = 0;
    tail = 0;
  };
  mouse_x = pos 40;
  mouse_y = pos 12;
  max_ports = 0;
  xhci_ready = false;
}

-- Shift pressed, then A; then a read with nothing new to poll.
reads_capital : (read_char 0 0 (poll 1 0x1e (poll 1 0x2a (initialize fresh))) unplugged).2 ≡ 65
unfolding read_char poll initialize usb_poll Ring.push Ring.pop test_bit has_keyboard
reads_capital = refl

reports_data : (has_data 1 0x1e fresh unplugged).2 ≡ true
unfolding has_data poll usb_poll Ring.push Ring.pop test_bit has_keyboard
reports_data = refl

read_char-poll_example :
    let typed = with_char (held fresh) (typed_by 1 0x1e false) in
    let (k', u', c) = read_char 1 0x1e fresh unplugged in
    Holds (poll 1 0x1e fresh) typed (shift_after 1 0x1e false)
    × IsValid queue_size k'.queue
    × Reads (with_char typed (usb_key unplugged)) c (held k')
    × (waiting u' ≡ usb_left unplugged)
read_char-poll_example = read_char-poll 1 0x1e fresh unplugged (omega arith) (omega arith)
