-- ===== src/Usb/Tests.antt =====
-- The theorem on src/usb.c at concrete devices, and runs.
use a_lightweight_os.Base.{ℕ, ◌≡◌, refl, true, false, ◌&&◌, [], ◌∷◌, test_bit, arith, pos}
use a_lightweight_os.Ring.{Ring}
use a_lightweight_os.Ring
use a_lightweight_os.Ring.Contents.{contents}
use a_lightweight_os.Usb.{
  Usb, HidDevice, none_type, MouseReport, poll, poll_ports, poll_port, process_keyboard_report,
  has_keyboard, has_mouse, keyboard_queue_size,
}
use a_lightweight_os.Usb.Devices.{IsTable, poll-IsTable}

abbrev nothing : HidDevice
nothing = record {
  attached = false;
  slot_id = 0;
  address = 0;
  type = none_type;
  endpoint_address = 0;
  max_packet_size = 0;
  interface_number = 0;
}

abbrev report : ℕ → MouseReport
report b = record { buttons = b; dx = 5; dy = 255; wheel = 0 }

-- A controller of two ports, set up and not yet polled.
abbrev fresh : Usb
fresh = record {
  hid_devices = λ _. nothing;
  keyboard_buffer = record { buf = λ _. 0; head = 0; tail = 0 };
  mouse_events = record { buf = λ _. report 0; head = 0; tail = 0 };
  mouse_x = pos 40;
  mouse_y = pos 12;
  max_ports = 2;
  xhci_ready = true;
}

-- Both ports connected and enabled: the keyboard first, then a mouse.
attaches : has_keyboard (poll (λ _. 3) fresh) && has_mouse (poll (λ _. 3) fresh) ≡ true
unfolding has_keyboard has_mouse poll poll_ports poll_port test_bit
attaches = refl

-- Shift and A, then B: two capitals.
types :
    contents keyboard_queue_size (process_keyboard_report 2 (4 ∷ 0 ∷ 5 ∷ []) fresh).keyboard_buffer
    ≡ 65 ∷ 66 ∷ []
unfolding process_keyboard_report Ring.push test_bit
types = refl

poll-IsTable_example : IsTable (poll (λ _. 3) fresh).hid_devices
poll-IsTable_example = poll-IsTable (λ _. 3) fresh (omega arith) empty
  where
    empty : IsTable fresh.hid_devices
    empty = ground arith
