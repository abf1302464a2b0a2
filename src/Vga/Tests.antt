-- ===== src/Vga/Tests.antt =====
-- Runs of src/vga.c.
use a_lightweight_os.Base.{◌≡◌, refl}
use a_lightweight_os.Vga.{
  Vga, initialize, cell, Framebuffer, initialize_framebuffer, draw_pixel, clear, draw_rectangle,
}

abbrev numbered : Vga
numbered = record { vram = λ k. k; current_color = 7; cursor_x = 3; cursor_y = 4 }

-- A byte from 128 on loses its color.
color_run : (cell 65 15 ≡ 0x0F41) × (cell 200 15 ≡ 0xFFC8)
unfolding cell
color_run = (refl, refl)

initialize_run : (initialize numbered).cursor_x ≡ 0
unfolding initialize
initialize_run = refl

abbrev small : Framebuffer
small =
    initialize_framebuffer 8 4 32 32
      (record { width = 0; height = 0; pitch = 0; bpp = 0; backbuffer = λ _. 0 })

-- The part of a rectangle that is on the screen.
rectangle_run :
    let f = draw_rectangle 6 1 5 2 9 small in
    (f.backbuffer 14 ≡ 9) × (f.backbuffer 15 ≡ 9) × (f.backbuffer 16 ≡ 0) × (f.backbuffer 23 ≡ 9)
unfolding draw_rectangle draw_pixel initialize_framebuffer
rectangle_run = (refl, refl, refl, refl)

clear_run : ((clear 3 small).backbuffer 31 ≡ 3) × ((clear 3 small).backbuffer 32 ≡ 0)
unfolding clear initialize_framebuffer
clear_run = (refl, refl)
