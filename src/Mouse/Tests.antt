-- ===== src/Mouse/Tests.antt =====
-- The theorem on src/mouse.c at a mouse that was just initialised.
use a_lightweight_os.Base.{◌≡◌, refl, true, false, test_bit, pos}
use a_lightweight_os.Ring
use a_lightweight_os.Usb.{Usb, none_type}
use a_lightweight_os.Mouse.{Mouse, initialize, poll_ps2, get_event, no_event}

abbrev blank : Mouse
blank = record {
  queue = record { buf = λ _. no_event; head = 0; tail = 0 };
  packet = λ _. 0;
  packet_offset = 0;
  x = pos 0;
  y = pos 0;
  initialized = false;
}

abbrev fresh : Mouse
unfolding initialize
fresh = initialize blank

abbrev idle_usb : Usb
idle_usb = record {
  hid_devices = λ _. record {
    attached = false;
    slot_id = 0;
    address = 0;
    type = none_type;
    endpoint_address = 0;
    max_packet_size = 0;
    interface_number = 0;
  };
  keyboard_buffer = record { buf = λ _. 0; head = 0; tail = 0 };
  mouse_events = record {
    buf = λ _. record { buttons = 0; dx = 0; dy = 0; wheel = 0 };
    head = 0;
    tail = 0;
  };
  mouse_x = pos 40;
  mouse_y = pos 12;
  max_ports = 2;
  xhci_ready = true;
}

-- Left button held, 50 to the right and one down: the pointer stops at the edge.
abbrev moved : Mouse
moved = poll_ps2 0x21 255 (poll_ps2 0x21 50 (poll_ps2 0x21 9 fresh))

stops_at_edge : (get_event true moved).0.x ≡ pos 79
unfolding fresh initialize get_event poll_ps2 Ring.push Ring.pop test_bit
stops_at_edge = refl
