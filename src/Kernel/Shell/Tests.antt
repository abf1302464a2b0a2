-- ===== src/Kernel/Shell/Tests.antt =====
-- Runs of the shell of src/kernel.c, and its theorem at a line of one byte.
use a_lightweight_os.Base.{◌+◌, ◌*◌, ◌≡◌, refl, true, false, [], ◌∷◌, arith, ◌==◌, if◌then◌else◌}
use a_lightweight_os.Vga.{Vga, write_char}
use a_lightweight_os.Kernel.Shell.{Shell, start, enter, key, write_text, draw_mouse_status}
use a_lightweight_os.Kernel.Shell.Editing.{Holds, Commands, edited, key-Holds}

abbrev dark : Vga
dark = record { vram = λ _. 0; current_color = 7; cursor_x = 0; cursor_y = 0 }

abbrev one : Shell
one = record { x = 10; y = 22; pos = 1; line = λ i. if i == 0 then 108 else 0 }

one-Holds : Holds one (108 ∷ [])
one-Holds = record {
  bytes = (refl, tt);
  place = refl;
  bound = omega arith;
  column = refl;
  row = omega arith;
}

key-Holds_example :
    Holds (key 115 one dark).0 (edited 115 (108 ∷ []))
    × Commands 115 (108 ∷ []) (key 115 one dark).2
key-Holds_example = key-Holds 115 one dark (108 ∷ []) one-Holds

enter_run : ((key 13 one dark).0.y ≡ 23) × ((key 13 one dark).0.x ≡ 9)
unfolding key enter
enter_run = (refl, refl)

prompt_run : ((start dark).1.vram (22 * 80) ≡ 0x0F00 + 91) × ((start dark).0.x ≡ 9)
unfolding start write_text write_char
prompt_run = (refl, refl)

status_run : (draw_mouse_status 0 23 40 12 true false false dark).vram (23 * 80 + 12) ≡ 0x0F00 + 76
unfolding draw_mouse_status write_text write_char
status_run = refl
