-- ===== src/Notifications.antt =====
-- src/notifications.c and src/control_center.c: the list of notifications, and whether the two panels
-- are shown. Drawing is left out. A string is the list of its bytes.
pub mod Posting
mod Tests
use a_lightweight_os.Base.{
  ℕ, ◌+◌, Bool, true, false, not, List, leb, if◌then◌else◌, update, for_up, ℤ,
}

pub record Notification : Type 0 where
  pub title : List ℕ
  pub message : List ℕ
  pub priority : ℤ
  pub timestamp : ℕ
  pub active : Bool

pub record Center : Type 0 where
  pub notifications : ℕ → Notification
  pub notification_count : ℕ
  pub visible : Bool

abbrev pub max_notifications : ℕ
max_notifications = 16

pub initialize : Center → Center
initialize c = record {
  notifications =
      for_up max_notifications (λ i ns. update ns i (record (ns i) { active = false }))
        c.notifications;
  notification_count = 0;
  visible = false;
}

pub toggle : Center → Center
toggle c = record c { visible = not c.visible }

pub post : List ℕ → List ℕ → ℤ → Center → Center
post title message priority c = if leb max_notifications c.notification_count then c else record c {
  notifications = update c.notifications c.notification_count (record {
    title = title;
    message = message;
    priority = priority;
    timestamp = 0;
    active = true;
  });
  notification_count = c.notification_count + 1;
}

-- The only state of control_center.c.
pub control_center_initialize : Bool → Bool
control_center_initialize visible = false

pub control_center_toggle : Bool → Bool
control_center_toggle visible = not visible
