-- ===== src/Notifications/Posting.antt =====
-- The notifications that src/notifications.c holds, as a list in the order of their posting.
use a_lightweight_os.Base.{
  ℕ, zero, suc, ◌+◌, ◌≤◌, ◌≡◌, refl, ◌∙◌, true, false, List, [], ◌∷◌, ◌++◌, leb, ◌==◌,
  if◌then◌else◌, update, arith, ap, if_cases, ℤ, ==_refl,
}
use a_lightweight_os.Notifications.{Notification, Center, max_notifications, post}

abbrev pub first_entries : ℕ → (ℕ → Notification) → List Notification
first_entries zero ns = []
first_entries (suc n) ns = first_entries n ns ++ ns n ∷ []

-- What is held.
abbrev pub entries : Center → List Notification
entries c = first_entries c.notification_count c.notifications

entries-update :
    (n k : ℕ) (ns : ℕ → Notification) (x : Notification)
    → n ≤ k
    → first_entries n (update ns k x) ≡ first_entries n ns
entries-update zero k ns x l = refl
entries-update (suc n) k ns x l =
    let e : (k == n) ≡ false = ground arith in rw (entries-update n k ns x (omega arith), e) refl

-- A notification is added behind the others while fewer than 16 are held, and is lost otherwise.
entries-post :
    (title message : List ℕ) (priority : ℤ) (c : Center)
    → entries (post title message priority c) ≡ (
        if leb max_notifications c.notification_count
        then entries c
        else entries c
          ++ (record {
            title = title;
            message = message;
            priority = priority;
            timestamp = 0;
            active = true;
          })
            ∷ [])
unfolding post
entries-post title message priority c =
    if_cases
      (λ r.
        entries r
        ≡ (if leb max_notifications c.notification_count then entries c else entries c ++ new ∷ []))
      (leb max_notifications c.notification_count) c
      (record c { notifications = after; notification_count = c.notification_count + 1 })
      (λ e. rw e refl)
      (λ e. rw e (
        ap (λ k. first_entries k after)
          (let z : c.notification_count + 1 ≡ suc c.notification_count = omega arith in z)
        ∙ ap (λ xs. xs ++ after c.notification_count ∷ [])
            (entries-update c.notification_count c.notification_count c.notifications new
              (omega arith))
        ∙ ap (λ x. entries c ++ x ∷ []) last))
  where
    new : Notification
    new = record {
      title = title;
      message = message;
      priority = priority;
      timestamp = 0;
      active = true;
    }

    after : ℕ → Notification
    after = update c.notifications c.notification_count new

    last : after c.notification_count ≡ new
    last = rw (==_refl c.notification_count) refl
