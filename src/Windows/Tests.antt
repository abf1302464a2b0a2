-- ===== src/Windows/Tests.antt =====
-- Runs of the window manager of src/window_manager.c, and its theorems at concrete windows.
use a_lightweight_os.Base.{◌-◌, ◌≡◌, refl, false, none, some, arith, find_first, pos}
use a_lightweight_os.Windows
use a_lightweight_os.Windows.Order.{IsStack, level}
use a_lightweight_os.Windows.Stack.{raise_window-Moved, create_window-IsStack, Moved}

abbrev empty : Windows.Manager
empty = Windows.initialize (record {
  windows = λ _. record {
    id = 0;
    x = pos 0;
    y = pos 0;
    width = pos 0;
    height = pos 0;
    title = none;
    z_order = 0;
    active = false;
    minimized = false;
    focused = false;
  };
  window_count = 4;
  next_window_id = 7;
  focused_window = some 3;
})

empty-IsStack : IsStack empty
unfolding Windows.initialize
empty-IsStack = record {
  capacity = omega arith;
  bounded = λ i l. absurd (omega arith);
  distinct = λ i j a b e. absurd (omega arith);
}

abbrev two : Windows.Manager
two =
    Windows.create_window (pos 5) (pos 5) (pos 20) (pos 8) none
      (Windows.create_window (pos 1) (pos 1) (pos 20) (pos 8) none empty)

two-IsStack : IsStack two
two-IsStack =
    create_window-IsStack (pos 5) (pos 5) (pos 20) (pos 8) none
      (Windows.create_window (pos 1) (pos 1) (pos 20) (pos 8) none empty)
      (create_window-IsStack (pos 1) (pos 1) (pos 20) (pos 8) none empty empty-IsStack)

raise_window-Moved_example :
    Moved (Windows.find_window 1 two) two (Windows.raise_window 1 two) (two.window_count - 1)
raise_window-Moved_example = raise_window-Moved 1 two two-IsStack

found_first : Windows.find_window 1 two ≡ some 0
unfolding Windows.find_window Windows.create_window Windows.initialize find_first
found_first = refl

second_on_top : level two 1 ≡ two.window_count - 1
unfolding Windows.create_window Windows.initialize
second_on_top = refl
