-- ===== src/Vga.antt =====
-- src/vga.c: the text screen of 80 by 25 cells and the buffer of the graphics. Coordinates are natural
-- numbers; the code refuses a negative one as it does one that is too large. A byte of a text is its
-- bits; a `char` from 128 on is negative.
pub mod Screen
mod Tests
use a_lightweight_os.Base.{
  ℕ, zero, suc, ◌+◌, ◌-◌, ◌*◌, ◌^◌, ◌%◌, Bool, true, false, ◌||◌, leb, ltb, if◌then◌else◌, update,
  for_up, u8, u32,
}

pub record Vga : Type 0 where
  pub vram : ℕ → ℕ
  pub current_color : ℕ
  pub cursor_x : ℕ
  pub cursor_y : ℕ

abbrev pub vga_width : ℕ
vga_width = 80

abbrev pub vga_height : ℕ
vga_height = 25

-- `(VGA_BLACK << 4) | VGA_LIGHT_GREY`
pub initialize : Vga → Vga
initialize v = record v { current_color = 7; cursor_x = 0; cursor_y = 0 }

-- `' ' | (vga_current_color << 8)`
abbrev pub blank : Vga → ℕ
blank v = 32 + v.current_color * 2 ^ 8

-- `c | (color << 8)`, where a negative `c` has all the higher bits set.
pub cell : ℕ → ℕ → ℕ
cell c color = if ltb c 128 then c + color * 2 ^ 8 else 0xFF00 + c

pub clear_screen : Vga → Vga
clear_screen v = record v {
  vram =
      for_up vga_height (λ y m. for_up vga_width (λ x m. update m (y * vga_width + x) (blank v)) m)
        v.vram;
  cursor_x = 0;
  cursor_y = 0;
}

unfoldable pub write_char : ℕ → ℕ → ℕ → ℕ → Vga → Vga
unfolding cell
write_char x y c color v =
    if leb vga_width x || leb vga_height y
    then v
    else record v { vram = update v.vram (y * vga_width + x) (cell c color) }

-- One row takes the cells of the next one.
pub copy_row : ℕ → (ℕ → ℕ) → ℕ → ℕ
copy_row y = for_up vga_width (λ x m. update m (y * vga_width + x) (m ((y + 1) * vga_width + x)))

pub scroll_down : Vga → Vga
unfolding copy_row
scroll_down v = record v {
  vram =
      for_up vga_width (λ x m. update m ((vga_height - 1) * vga_width + x) (blank v))
        (for_up (vga_height - 1) copy_row v.vram);
}

-- framebuffer_t without its `vram`, and the buffer behind the screen.
pub record Framebuffer : Type 0 where
  pub width : ℕ
  pub height : ℕ
  pub pitch : ℕ
  pub bpp : ℕ
  pub backbuffer : ℕ → ℕ

pub initialize_framebuffer : ℕ → ℕ → ℕ → ℕ → Framebuffer → Framebuffer
initialize_framebuffer width height pitch bpp f = record f {
  width = width;
  height = height;
  pitch = pitch;
  bpp = bpp;
}

pub draw_pixel : ℕ → ℕ → ℕ → Framebuffer → Framebuffer
draw_pixel x y rgb f =
    if leb f.width x || leb f.height y
    then f
    else record f { backbuffer = update f.backbuffer (u32 (y * f.width + x)) rgb }

pub clear : ℕ → Framebuffer → Framebuffer
clear rgb f = record f {
  backbuffer = for_up (u32 (f.width * f.height)) (λ i b. update b i rgb) f.backbuffer;
}

-- A rectangle whose corner has no negative coordinate.
pub draw_rectangle : ℕ → ℕ → ℕ → ℕ → ℕ → Framebuffer → Framebuffer
unfolding draw_pixel
draw_rectangle x y w h rgb = for_up h (λ j. for_up w (λ i. draw_pixel (x + i) (y + j) rgb))
