-- ===== src/Kernel/Shell.antt =====
-- The shell task of src/kernel.c: what one key does to its line and to the screen, and the line that
-- shows the mouse. A number of the mouse is between 0 and 79, or 24.
pub mod Editing
mod Tests
use a_lightweight_os.Base.{
  ℕ, zero, suc, ◌+◌, ◌-◌, ◌/◌, ◌%◌, Bool, true, false, ◌||◌, Option, none, some, List, [], ◌∷◌, ltb,
  leb, ◌==◌, if◌then◌else◌, update, codes,
}
use a_lightweight_os.Vga.{Vga, write_char}

pub record Shell : Type 0 where
  pub x : ℕ
  pub y : ℕ
  pub pos : ℕ
  pub line : ℕ → ℕ

abbrev pub white : ℕ
white = 0x0F

-- Bytes one behind the other.
pub write_text : List ℕ → ℕ → ℕ → Vga → Vga
write_text [] x y v = v
write_text (c ∷ cs) x y v = write_text cs (x + 1) y (write_char x y c white v)

pub draw_mouse_status : ℕ → ℕ → ℕ → ℕ → Bool → Bool → Bool → Vga → Vga
unfolding write_text
draw_mouse_status x y mx my left right middle v =
    if leb 78 x || leb 24 y
    then v
    else write_text
        (77
          ∷ 88
          ∷ 58
          ∷ (48 + mx / 10)
          ∷ (48 + mx % 10)
          ∷ 32
          ∷ 77
          ∷ 89
          ∷ 58
          ∷ (48 + my / 10)
          ∷ (48 + my % 10)
          ∷ 32
          ∷ (if left then 76 else 45)
          ∷ (if right then 82 else 45)
          ∷ (if middle then 77 else 45)
          ∷ [])
        x y v

abbrev prompt : List ℕ
prompt = codes "[.C OS]> "

-- The start of the task.
pub start : Vga → Shell × Vga
unfolding write_text
start v = (record { x = 9; y = 22; pos = 0; line = λ _. 0 }, write_text prompt 0 22 v)

-- A line ends: the command is the line up to its 0.
pub enter : Shell → Vga → Shell × Vga × Option (ℕ → ℕ)
unfolding write_text
enter s v =
    let line = update s.line s.pos 0 in
    let y = if leb 24 (s.y + 1) then 23 else s.y + 1 in
    (record { x = 9; y = y; pos = 0; line = line }, write_text prompt 0 y v, some line)

-- One key, with the command that it ends.
pub key : ℕ → Shell → Vga → Shell × Vga × Option (ℕ → ℕ)
unfolding enter
key c s v =
    if (c == 13) || (c == 10)
    then enter s v
    else if c == 8
    then if ltb 0 s.pos
      then (record s { x = s.x - 1; pos = s.pos - 1 }, write_char (s.x - 1) s.y 32 white v, none)
      else (s, v, none)
    else if ltb s.pos 79
    then (
      record s { x = s.x + 1; pos = s.pos + 1; line = update s.line s.pos c },
      write_char s.x s.y c white v,
      none,
    )
    else (s, v, none)
