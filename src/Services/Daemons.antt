-- ===== src/Services/Daemons.antt =====
-- The bodies of the loops of the other services of src/services.c, each up to its yield.
pub mod Snapshot
mod Tests
use a_lightweight_os.Base.{
  ℕ, zero, suc, ◌+◌, Bool, true, false, not, ◌&&◌, ◌||◌, Option, none, some, List, length, ◌==◌,
  if◌then◌else◌, update, codes, ℤ, pos, u32,
}
use a_lightweight_os.Clipboard.{Clipboard, paste}
use a_lightweight_os.Fat32.{Disk, Volume}
use a_lightweight_os.Fat32.Directory.{Item, enumerate_root}
use a_lightweight_os.Notifications.{Center, post}
use a_lightweight_os.Usb.{Usb, poll, has_keyboard, has_mouse}

-- `disk_index_ready` and `disk_indexed_files`.
pub record Index : Type 0 where
  pub is_ready : Bool
  pub files : ℕ

abbrev indexer : List ℕ
indexer = codes "Disk/File Indexer"

-- What the listing gives; the callback counts the entries.
pub finish_index : Option (List Item × Bool) → Index → Center → Option (Index × Center)
finish_index none d c = none
finish_index (some (items, done)) d c =
    if done
    then some (
      record { is_ready = true; files = u32 (length items) },
      post indexer (codes "FAT32 root directory indexed") (pos 0) c,
    )
    else some (d, post indexer (codes "Indexing failed") (pos 1) c)

-- `none` where the walk along the root directory runs out of fuel.
pub index_round : Disk → ℕ → (ℕ → ℕ) → Volume → Index → Center → Option (Index × Center)
unfolding finish_index
index_round disk fuel b v d c =
    if d.is_ready then some (d, c) else finish_index (enumerate_root disk fuel b v) d c

-- `had_keyboard` and `had_mouse`.
pub record Monitor : Type 0 where
  pub had_keyboard : Bool
  pub had_mouse : Bool

abbrev monitor_name : List ℕ
monitor_name = codes "Input Monitor"

pub input_round : (ℕ → ℕ) → Usb → Monitor → Center → Usb × Monitor × Center
input_round portsc u m c =
    let u' = poll portsc u in
    let keyboard = has_keyboard u' in
    let mouse = has_mouse u' in
    let c' =
      if keyboard && not m.had_keyboard
      then post monitor_name (codes "USB keyboard detected") (pos 0) c
      else c in
    let c'' =
      if mouse && not m.had_mouse
      then post monitor_name (codes "USB mouse detected") (pos 0) c'
      else c' in
    (u', record { had_keyboard = keyboard; had_mouse = mouse }, c'')

-- The loop over the clipboard, with `n` bytes left from `i` on: the snapshot, and whether it changed.
pub follow : (ℕ → ℕ) → ℕ → ℕ → (ℕ → ℕ) → (ℕ → ℕ) × Bool
follow bytes zero i snapshot = (snapshot, false)
follow bytes (suc n) i snapshot =
    let changed = not (snapshot i == bytes i) in
    let next = update snapshot i (bytes i) in
    let rest = follow bytes n (i + 1) next in
    if bytes i == 0 then (next, changed) else (rest.0, changed || rest.1)

-- What is done with the bytes that the clipboard gives.
pub compare_clipboard : Option (ℕ → ℕ) → (ℕ → ℕ) → Center → (ℕ → ℕ) × Center
unfolding follow
compare_clipboard none snapshot c = (snapshot, c)
compare_clipboard (some bytes) snapshot c =
    let r = follow bytes 63 0 snapshot in
    (
      r.0,
      if r.1
          then post (codes "Clipboard Daemon") (codes "Clipboard contents updated") (pos 0) c
          else c,
    )

pub clipboard_round : Clipboard → (ℕ → ℕ) → Center → (ℕ → ℕ) × Center
unfolding compare_clipboard
clipboard_round k snapshot c = compare_clipboard (paste k) snapshot c
