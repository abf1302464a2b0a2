-- ===== src/Clipboard/Tests.antt =====
-- Runs of src/clipboard.c.
use a_lightweight_os.Base.{◌≡◌, refl, none}
use a_lightweight_os.Clipboard

abbrev empty : Clipboard.Clipboard
empty = Clipboard.initialize (record { buffer = λ _. 0; used_bytes = 3 })

clear_run : Clipboard.paste (Clipboard.clear empty) ≡ none
unfolding Clipboard.paste Clipboard.clear Clipboard.initialize
clear_run = refl
