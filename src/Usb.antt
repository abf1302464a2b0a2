-- ===== src/Usb.antt =====
-- src/usb.c: the HID device table and the report queues. What the controller's port registers read is
-- the parameter `portsc`, a function of the port.
mod Keymap
pub mod Devices
pub mod Reports
mod Tests
use a_lightweight_os.Base.{
  ℕ, zero, suc, ◌+◌, ◌%◌, Bool, true, false, not, ◌&&◌, ◌||◌, Option, none, some, List, [], ◌∷◌,
  ltb, ◌==◌, if◌then◌else◌, update, get_or, u8, test_bit, ℤ, ◌+ℤ◌, ◌-ℤ◌, i8, clamp_to, ltb_ℤ, pos,
  negsuc,
}
use a_lightweight_os.Ring.{Ring}
use a_lightweight_os.Ring
use Keymap.{usb_hid_keyboard_map, usb_hid_shift_map}

pub data HidType : Type 0 where
  none_type keyboard mouse : HidType

pub record HidDevice : Type 0 where
  pub attached : Bool
  pub slot_id : ℕ
  pub address : ℕ
  pub type : HidType
  pub endpoint_address : ℕ
  pub max_packet_size : ℕ
  pub interface_number : ℕ

-- The four bytes of a mouse report.
pub record MouseReport : Type 0 where
  pub buttons : ℕ
  pub dx : ℕ
  pub dy : ℕ
  pub wheel : ℕ

pub record Usb : Type 0 where
  pub hid_devices : ℕ → HidDevice
  pub keyboard_buffer : Ring ℕ
  pub mouse_events : Ring MouseReport
  pub mouse_x : ℤ
  pub mouse_y : ℤ
  pub max_ports : ℕ
  pub xhci_ready : Bool

abbrev pub max_hid_devices : ℕ
max_hid_devices = 4

abbrev pub keyboard_queue_size : ℕ
keyboard_queue_size = 64

abbrev pub mouse_queue_size : ℕ
mouse_queue_size = 32

pub queue_keyboard_char : ℕ → Usb → Usb × Bool
queue_keyboard_char c u =
    let (q, done) = Ring.push keyboard_queue_size (u8 c) u.keyboard_buffer in
    (record u { keyboard_buffer = q }, done)

unfoldable pub dequeue_keyboard_char : Usb → Option (ℕ × Usb)
dequeue_keyboard_char u = elim (Ring.pop keyboard_queue_size u.keyboard_buffer) [
  | some (c, q) ↦ some (c, record u { keyboard_buffer = q })
  | none ↦ none
]

pub queue_mouse_event : MouseReport → Usb → Usb × Bool
queue_mouse_event r u =
    let (q, done) = Ring.push mouse_queue_size r u.mouse_events in
    (record u { mouse_events = q }, done)

unfoldable pub dequeue_mouse_event : Usb → Option (MouseReport × Usb)
dequeue_mouse_event u = elim (Ring.pop mouse_queue_size u.mouse_events) [
  | some (r, q) ↦ some (r, record u { mouse_events = q })
  | none ↦ none
]

-- One byte of a keyboard report; 0 for no character.
pub key_char : Bool → ℕ → ℕ
key_char shift code =
    if code == 0
    then 0
    else if code == 0x2A || code == 0x2C
    then 0
    else if shift
    then get_or usb_hid_shift_map code 0
    else get_or usb_hid_keyboard_map code 0

queue_key : ℕ → Usb → Usb
unfolding queue_keyboard_char
queue_key c u = if c == 0 then u else (queue_keyboard_char c u).0

queue_keys : Bool → List ℕ → Usb → Usb
unfolding key_char queue_key
queue_keys shift [] u = u
queue_keys shift (code ∷ codes) u = queue_keys shift codes (queue_key (key_char shift code) u)

-- The modifier byte `report[0]`, and the key codes `report[2]` to `report[7]`.
pub process_keyboard_report : ℕ → List ℕ → Usb → Usb
unfolding queue_keys
process_keyboard_report modifiers codes u =
    queue_keys (test_bit modifiers 1 || test_bit modifiers 5) codes u

pub process_mouse_report : MouseReport → Usb → Usb
unfolding queue_mouse_event
process_mouse_report r u =
    let (u', done) = queue_mouse_event r u in
    if done
    then record u' {
      mouse_x = clamp_to 79 (u'.mouse_x +ℤ i8 r.dx);
      mouse_y = clamp_to 23 (u'.mouse_y -ℤ i8 r.dy);
    }
    else u'

-- The slot of an attached device with this address, or 0xFF.
pub find_device : (ℕ → HidDevice) → ℕ → ℕ → ℕ → ℕ
find_device ds zero i address = 0xFF
find_device ds (suc left) i address =
    let rest = find_device ds left (i + 1) address in
    if (ds i).attached && ((ds i).address == address) then i else rest

-- The first slot with nothing attached gets the port's device.
pub attach : (ℕ → HidDevice) → ℕ → ℕ → ℕ → ℕ → HidDevice
attach ds zero i port = ds
attach ds (suc left) i port =
    let rest = attach ds left (i + 1) port in
    if (ds i).attached
    then rest
    else update ds i (record {
      attached = true;
      slot_id = u8 (i + 1);
      address = u8 (port + 1);
      type = if i == 0 then keyboard else mouse;
      endpoint_address = if i == 0 then 0x81 else 0x82;
      max_packet_size = 8;
      interface_number = 0;
    })

pub poll_port : ℕ → ℕ → Usb → Usb
unfolding find_device attach
poll_port portsc port u =
    if not (test_bit portsc 0) || not (test_bit portsc 1)
    then u
    else if find_device u.hid_devices max_hid_devices 0 (port + 1) == 0xFF
    then record u { hid_devices = attach u.hid_devices max_hid_devices 0 port }
    else u

poll_ports : (ℕ → ℕ) → ℕ → ℕ → Usb → Usb
poll_ports portsc zero port u = u
poll_ports portsc (suc left) port u =
    let rest = poll_ports portsc left (port + 1) (poll_port (portsc port) port u) in
    if ltb port u.max_ports && ltb port 256 then rest else u

-- The loop ends at the latest at port 256.
pub poll : (ℕ → ℕ) → Usb → Usb
poll portsc u = if u.xhci_ready then poll_ports portsc 257 0 u else u

unfoldable pub has_type : (HidType → Bool) → (ℕ → HidDevice) → ℕ → ℕ → Bool
has_type is ds zero i = false
has_type is ds (suc left) i = (ds i).attached && is (ds i).type || has_type is ds left (i + 1)

abbrev pub is_keyboard : HidType → Bool
is_keyboard keyboard = true
is_keyboard _ = false

abbrev pub is_mouse : HidType → Bool
is_mouse mouse = true
is_mouse _ = false

unfoldable pub has_keyboard : Usb → Bool
unfolding has_type
has_keyboard u = has_type is_keyboard u.hid_devices max_hid_devices 0

unfoldable pub has_mouse : Usb → Bool
unfolding has_type
has_mouse u = has_type is_mouse u.hid_devices max_hid_devices 0

-- The caller's pointer is the flag: a null pointer gets nothing.
unfoldable pub get_keyboard_char : Bool → Usb → Option (ℕ × Usb)
unfolding dequeue_keyboard_char
get_keyboard_char present u = if present then dequeue_keyboard_char u else none

pub record MouseMove : Type 0 where
  pub dx : ℤ
  pub dy : ℤ
  pub left : Bool
  pub right : Bool
  pub middle : Bool

unfoldable pub get_mouse_report : Usb → Option (MouseMove × Usb)
unfolding dequeue_mouse_event
get_mouse_report u = elim (dequeue_mouse_event u) [
  | none ↦ none
  | some (r, u') ↦ some (
    record {
      dx = i8 r.dx;
      dy = i8 r.dy;
      left = test_bit r.buttons 0;
      right = test_bit r.buttons 1;
      middle = test_bit r.buttons 2;
    },
    u',
  )
]
