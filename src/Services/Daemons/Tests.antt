-- ===== src/Services/Daemons/Tests.antt =====
-- Runs of the services of src/services.c.
use a_lightweight_os.Base.{◌≡◌, refl, true, false, some, [], ◌∷◌, if◌then◌else◌, ◌==◌, pos, codes}
use a_lightweight_os.Clipboard.{paste}
use a_lightweight_os.Fat32.{Disk, Volume}
use a_lightweight_os.Notifications.{Center, Notification, post}
use a_lightweight_os.Usb.{Usb, poll}
use a_lightweight_os.Services.Daemons.{
  Index, Monitor, index_round, finish_index, input_round, follow, clipboard_round,
}

abbrev note : Notification
note = record { title = []; message = []; priority = pos 0; timestamp = 0; active = false }

indexed_run :
    (disk : Disk) (v : Volume) (c : Center)
    → let d : Index = record { is_ready = true; files = 3 } in
      index_round disk 5 (λ _. 0) v d c ≡ some (d, c)
unfolding index_round
indexed_run disk v c = refl

finished_run :
    (d : Index) (c : Center)
    → finish_index (some ((codes "A.TXT", 5) ∷ [], true)) d c
      ≡ some (
        record { is_ready = true; files = 1 },
        post (codes "Disk/File Indexer") (codes "FAT32 root directory indexed") (pos 0) c,
      )
unfolding finish_index
finished_run d c = refl

polled_run : (u : Usb) (m : Monitor) (c : Center) → (input_round (λ _. 0) u m c).0 ≡ poll (λ _. 0) u
unfolding input_round
polled_run u m c = refl

empty_run :
    (c : Center)
    → clipboard_round (record { buffer = λ _. 0; used_bytes = 0 }) (λ _. 5) c ≡ ((λ _. 5), c)
unfolding clipboard_round paste
empty_run c = refl

follow_run : (follow (λ i. if i == 0 then 65 else 0) 63 0 (λ _. 0)).1 ≡ true
unfolding follow
follow_run = refl
