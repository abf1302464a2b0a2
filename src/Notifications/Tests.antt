-- ===== src/Notifications/Tests.antt =====
-- Runs of src/notifications.c and src/control_center.c.
use a_lightweight_os.Base.{◌≡◌, refl, true, [], pos}
use a_lightweight_os.Notifications

abbrev empty : Notifications.Center
empty = Notifications.initialize (record {
  notifications =
      λ _. record { title = []; message = []; priority = pos 0; timestamp = 0; active = true };
  notification_count = 3;
  visible = true;
})

toggle_run : (Notifications.toggle empty).visible ≡ true
unfolding Notifications.toggle Notifications.initialize
toggle_run = refl

control_center_run :
    Notifications.control_center_toggle (Notifications.control_center_initialize true) ≡ true
unfolding Notifications.control_center_toggle Notifications.control_center_initialize
control_center_run = refl
