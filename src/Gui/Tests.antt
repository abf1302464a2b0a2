-- ===== src/Gui/Tests.antt =====
-- Runs of src/gui.c.
use a_lightweight_os.Base.{◌≡◌, refl, true, false, some, []}
use a_lightweight_os.Gui.{
  Gui, Desktop, initialize, open_window, set_resolution, left_click, right_click, perform,
  toggle_control, handle_mouse_click,
}

abbrev blank : Gui
blank = record {
  windows = λ _. record {
    x = 0;
    y = 0;
    width = 0;
    height = 0;
    title = [];
    active = false;
    minimized = false;
  };
  window_count = 3;
  taskbar_items = λ _. record { label = []; active = false; window_id = 0 };
  taskbar_count = 3;
  active_window = some 2;
  screen_width = 80;
  screen_height = 24;
}

open_run :
    let g = open_window [] 10 3 40 12 (initialize blank) in
    (g.window_count ≡ 1) × (g.taskbar_count ≡ 1) × (g.active_window ≡ some 0)
unfolding open_window initialize
open_run = (refl, refl, refl)

resolution_run : (set_resolution 40 0 blank).screen_width ≡ 80
unfolding set_resolution
resolution_run = refl

middle_run :
    (d : Desktop) → handle_mouse_click 0 0 1 1 false false true d ≡ perform 0 0 toggle_control d
unfolding handle_mouse_click
middle_run d = refl

-- The control panel is toggled by a left click at the right end of the status bar.
status_run : (left_click 71 0 blank ≡ toggle_control) × (right_click 71 0 blank ≡ toggle_control)
unfolding left_click right_click
status_run = (refl, refl)
