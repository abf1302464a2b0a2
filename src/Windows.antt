-- ===== src/Windows.antt =====
-- src/window_manager.c: the table of windows, their order from back to front (`z_order`, 0 is the back)
-- and the focus. `focused_window` is `none` for -1. Drawing is left out except for the order in which
-- the windows are drawn.
pub mod Order
pub mod Stack
mod Tests
use a_lightweight_os.Base.{
  ℕ, zero, suc, ◌+◌, ◌-◌, Bool, true, false, not, Option, none, some, List, leb, ltb, ◌==◌,
  if◌then◌else◌, update, find_first, for_up, ℤ,
}

pub record Window : Type 0 where
  pub id : ℕ
  pub x : ℤ
  pub y : ℤ
  pub width : ℤ
  pub height : ℤ
  pub title : Option (List ℕ)
  pub z_order : ℕ
  pub active : Bool
  pub minimized : Bool
  pub focused : Bool

pub record Manager : Type 0 where
  pub windows : ℕ → Window
  pub window_count : ℕ
  pub next_window_id : ℕ
  pub focused_window : Option ℕ

abbrev pub max_windows : ℕ
max_windows = 8

abbrev pub is_none : Option ℕ → Bool
is_none none = true
is_none (some i) = false

pub initialize : Manager → Manager
initialize m = record m { window_count = 0; next_window_id = 1; focused_window = none }

pub create_window : ℤ → ℤ → ℤ → ℤ → Option (List ℕ) → Manager → Manager
create_window x y width height title m = if leb max_windows m.window_count then m else record {
  windows = update m.windows m.window_count (record {
    id = m.next_window_id;
    x = x;
    y = y;
    width = width;
    height = height;
    title = title;
    z_order = m.window_count;
    active = true;
    minimized = false;
    focused = is_none m.focused_window;
  });
  window_count = m.window_count + 1;
  next_window_id = m.next_window_id + 1;
  focused_window = elim m.focused_window [ none ↦ some m.window_count | some f ↦ some f ];
}

-- `if (windows[i].id == window_id)`
pub has_id : (ℕ → Window) → ℕ → ℕ → Bool
has_id ws id i = (ws i).id == id

pub find_window : ℕ → Manager → Option ℕ
unfolding has_id
find_window id m = find_first (has_id m.windows id) m.window_count 0

pub focus_at : Option ℕ → Manager → Manager
focus_at none m = m
focus_at (some i) m = record m {
  windows =
      update m.windows i (record (m.windows i) { focused = true; z_order = m.window_count - 1 });
  focused_window = some i;
}

pub set_focus : ℕ → Manager → Manager
unfolding find_window focus_at
set_focus id m = focus_at (find_window id m) m

-- A window above the level `z` goes one level down.
pub sink : ℕ → Window → Window
sink z w = if ltb z w.z_order then record w { z_order = w.z_order - 1 } else w

-- A window below the level `z` goes one level up.
pub lift : ℕ → Window → Window
lift z w = if ltb w.z_order z then record w { z_order = w.z_order + 1 } else w

-- The inner loops of raise and lower, which read the level of window `i` at each step.
pub sink_all : ℕ → ℕ → (ℕ → Window) → ℕ → Window
unfolding sink
sink_all i n = for_up n (λ j ws. update ws j (sink (ws i).z_order (ws j)))

pub lift_all : ℕ → ℕ → (ℕ → Window) → ℕ → Window
unfolding lift
lift_all i n = for_up n (λ j ws. update ws j (lift (ws i).z_order (ws j)))

pub raise_at : Option ℕ → Manager → Manager
unfolding sink_all
raise_at none m = m
raise_at (some i) m =
    let ws = sink_all i m.window_count m.windows in
    record m {
      windows = update ws i (record (ws i) { z_order = m.window_count - 1 });
      focused_window = some i;
    }

pub raise_window : ℕ → Manager → Manager
unfolding find_window raise_at
raise_window id m = raise_at (find_window id m) m

pub lower_at : Option ℕ → Manager → Manager
unfolding lift_all
lower_at none m = m
lower_at (some i) m =
    let ws = lift_all i m.window_count m.windows in
    record m { windows = update ws i (record (ws i) { z_order = 0 }) }

pub lower_window : ℕ → Manager → Manager
unfolding find_window lower_at
lower_window id m = lower_at (find_window id m) m
