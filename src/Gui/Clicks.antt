-- ===== src/Gui/Clicks.antt =====
-- The two clicks of src/gui.c on the screen that the kernel sets up.
use a_lightweight_os.Base.{ℕ, ◌≡◌, ◌⊎◌, arith}
use a_lightweight_os.Gui.{Gui, nothing, context_menu, left_click, right_click}

-- On the screen of 80 by 24 that the kernel sets up, a right click does what a left one does at the same
-- place, or it opens the menu, and this only where a left one does nothing or in the row of the taskbar.
right_click-left_click :
    (x y : ℕ) (g : Gui)
    → g.screen_width ≡ 80
    → g.screen_height ≡ 24
    → ((right_click x y g ≡ context_menu x y) × ((left_click x y g ≡ nothing) ⊎ (y ≡ 19)))
      ⊎ (right_click x y g ≡ left_click x y g)
unfolding left_click right_click
right_click-left_click x y g w h = ground (arith, w, h) steps 60000000
