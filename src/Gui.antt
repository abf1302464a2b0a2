-- ===== src/Gui.antt =====
-- src/gui.c: the windows that the start-up opens, and what a click of the mouse does. The mouse gives
-- natural numbers, and the screen is at least 18 wide and 6 high. Drawing is left out; the menu that a
-- click opens is an action.
pub mod Clicks
mod Tests
use a_lightweight_os.Base.{
  ℕ, zero, suc, ◌+◌, ◌-◌, Bool, true, false, not, ◌&&◌, ◌||◌, Option, none, some, List, [], ◌∷◌,
  ltb, leb, ◌==◌, if◌then◌else◌, update, codes,
}
use a_lightweight_os.Apps.{Launcher, launch}
use a_lightweight_os.Notifications.{Center, toggle, control_center_toggle}
use a_lightweight_os.Scheduler.{Scheduler}

pub record Window : Type 0 where
  pub x : ℕ
  pub y : ℕ
  pub width : ℕ
  pub height : ℕ
  pub title : List ℕ
  pub active : Bool
  pub minimized : Bool

pub record TaskbarItem : Type 0 where
  pub label : List ℕ
  pub active : Bool
  pub window_id : ℕ

-- `active_window` is `none` for -1.
pub record Gui : Type 0 where
  pub windows : ℕ → Window
  pub window_count : ℕ
  pub taskbar_items : ℕ → TaskbarItem
  pub taskbar_count : ℕ
  pub active_window : Option ℕ
  pub screen_width : ℕ
  pub screen_height : ℕ

pub initialize : Gui → Gui
initialize g = record g {
  window_count = 0;
  taskbar_count = 0;
  active_window = none;
  screen_width = 80;
  screen_height = 24;
}

pub open_window : List ℕ → ℕ → ℕ → ℕ → ℕ → Gui → Gui
open_window title x y width height g =
    let n = g.window_count in
    let shown = ltb g.taskbar_count 8 in
    if leb 6 n then g else record g {
      windows = update g.windows n (record {
        x = x;
        y = y;
        width = width;
        height = height;
        title = title;
        active = true;
        minimized = false;
      });
      window_count = n + 1;
      taskbar_items =
          if shown
          then update g.taskbar_items g.taskbar_count
              (record { label = title; active = true; window_id = n })
          else g.taskbar_items;
      taskbar_count = if shown then g.taskbar_count + 1 else g.taskbar_count;
      active_window = elim g.active_window [ none ↦ some n | some i ↦ some i ];
    }

-- A size of 0 changes nothing.
pub set_resolution : ℕ → ℕ → Gui → Gui
set_resolution width height g =
    if ltb 0 width && ltb 0 height
    then record g { screen_width = width; screen_height = height }
    else g

pub data Action : Type 0 where
  nothing toggle_notifications toggle_control : Action
  launch_app : List ℕ → Action
  context_menu : ℕ → ℕ → Action

unfoldable pub point_in_rect : ℕ → ℕ → ℕ → ℕ → ℕ → ℕ → Bool
point_in_rect x y rx ry rw rh = leb rx x && ltb x (rx + rw) && leb ry y && ltb y (ry + rh)

pub left_click : ℕ → ℕ → Gui → Action
unfolding point_in_rect
left_click x y g =
    let w = g.screen_width in
    let row = g.screen_height - 6 + 1 in
    if point_in_rect x y (w - 18) 0 3 1
    then toggle_notifications
    else if point_in_rect x y (w - 10) 0 3 1
    then toggle_control
    else if point_in_rect x y (w - 18) row 7 1
    then toggle_notifications
    else if point_in_rect x y (w - 10) row 6 1
    then toggle_control
    else if point_in_rect x y 6 row 7 1
    then launch_app (codes "Files")
    else if point_in_rect x y 14 row 6 1
    then launch_app (codes "Terminal")
    else if point_in_rect x y 21 row 6 1
    then launch_app (codes "Settings")
    else if point_in_rect x y 28 row 5 1
    then launch_app (codes "Web")
    else if point_in_rect x y 34 row 6 1
    then launch_app (codes "Edit")
    else if point_in_rect x y 2 2 7 1
    then launch_app (codes "Files")
    else if point_in_rect x y 2 4 7 1
    then launch_app (codes "Terminal")
    else if point_in_rect x y 2 6 7 1
    then launch_app (codes "Settings")
    else nothing

pub right_click : ℕ → ℕ → Gui → Action
right_click x y g =
    let w = g.screen_width in
    let row = g.screen_height - 6 + 1 in
    if (y == 0) && leb (w - 10) x && ltb x (w - 10 + 3)
    then toggle_control
    else if (y == 0) && leb (w - 18) x && ltb x (w - 18 + 3)
    then toggle_notifications
    else if leb 2 x && leb x 8 && (y == 2)
    then launch_app (codes "Files")
    else if leb 2 x && leb x 8 && (y == 4)
    then launch_app (codes "Terminal")
    else if leb 2 x && leb x 8 && (y == 6)
    then launch_app (codes "Settings")
    else if leb (w - 18) x && ltb x (w - 11) && (y == row)
    then toggle_notifications
    else if leb (w - 10) x && ltb x (w - 4) && (y == row)
    then toggle_control
    else context_menu x y

-- What the clicks act on.
pub record Desktop : Type 0 where
  pub gui : Gui
  pub center : Center
  pub control_visible : Bool
  pub launcher : Launcher
  pub scheduler : Scheduler

module _ (stacks wrapper : ℕ) where
  pub perform : Action → Desktop → Desktop
  perform nothing d = d
  perform toggle_notifications d = record d { center = toggle d.center }
  perform toggle_control d = record d { control_visible = control_center_toggle d.control_visible }
  perform (launch_app name) d =
      let (l, s, pid) = launch stacks wrapper (some name) d.launcher d.scheduler in
      record d { launcher = l; scheduler = s }
  perform (context_menu x y) d = d

  pub handle_mouse_click : ℕ → ℕ → Bool → Bool → Bool → Desktop → Desktop
  unfolding perform left_click right_click
  handle_mouse_click x y left right middle d =
      let d' = if left then perform (left_click x y d.gui) d else d in
      let d'' = if right then perform (right_click x y d'.gui) d' else d' in
      if middle then perform toggle_control d'' else d''
