-- ===== src/Usb/Keymap.antt =====
-- The HID usage tables of src/usb.c, as ASCII codes. The entries past the end are 0.
use a_lightweight_os.Base.{ℕ, List, [], ◌∷◌}

-- usb_hid_keyboard_map
abbrev pub usb_hid_keyboard_map : List ℕ
usb_hid_keyboard_map =
    0 ∷ 0 ∷ 0 ∷ 0 ∷ 97 ∷ 98 ∷ 99 ∷ 100 ∷ 101 ∷ 102 ∷ 103 ∷ 104 ∷ 105 ∷ 106 ∷ 107 ∷ 108 ∷ 109 ∷ 110
    ∷ 111 ∷ 112 ∷ 113 ∷ 114 ∷ 115 ∷ 116 ∷ 117 ∷ 118 ∷ 119 ∷ 120 ∷ 121 ∷ 122 ∷ 49 ∷ 50 ∷ 51 ∷ 52 ∷ 53
    ∷ 54 ∷ 55 ∷ 56 ∷ 57 ∷ 48 ∷ 10 ∷ 27 ∷ 8 ∷ 9 ∷ 32 ∷ 45 ∷ 61 ∷ 91 ∷ 93 ∷ 92 ∷ 0 ∷ 59 ∷ 39 ∷ 96 ∷ 44
    ∷ 46 ∷ 47 ∷ []

-- usb_hid_shift_map
abbrev pub usb_hid_shift_map : List ℕ
usb_hid_shift_map =
    0 ∷ 0 ∷ 0 ∷ 0 ∷ 65 ∷ 66 ∷ 67 ∷ 68 ∷ 69 ∷ 70 ∷ 71 ∷ 72 ∷ 73 ∷ 74 ∷ 75 ∷ 76 ∷ 77 ∷ 78 ∷ 79 ∷ 80
    ∷ 81 ∷ 82 ∷ 83 ∷ 84 ∷ 85 ∷ 86 ∷ 87 ∷ 88 ∷ 89 ∷ 90 ∷ 33 ∷ 64 ∷ 35 ∷ 36 ∷ 37 ∷ 94 ∷ 38 ∷ 42 ∷ 40
    ∷ 41 ∷ 10 ∷ 27 ∷ 8 ∷ 9 ∷ 32 ∷ 95 ∷ 43 ∷ 123 ∷ 125 ∷ 124 ∷ 0 ∷ 58 ∷ 34 ∷ 126 ∷ 60 ∷ 62 ∷ 63 ∷ []
