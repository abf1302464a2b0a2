-- ===== src/Clipboard.antt =====
-- src/clipboard.c: the clipboard, a buffer of 512 bytes and the number of those in use. NULL is `none`.
pub mod Roundtrip
mod Tests
use a_lightweight_os.Base.{
  ℕ, Bool, ◌||◌, Option, none, some, ltb, ◌==◌, if◌then◌else◌, update, for_up,
}

pub record Clipboard : Type 0 where
  pub buffer : ℕ → ℕ
  pub used_bytes : ℕ

abbrev pub clipboard_size : ℕ
clipboard_size = 512

pub initialize : Clipboard → Clipboard
initialize c = record c { used_bytes = 0 }

pub copy : Option (ℕ → ℕ) → ℕ → Clipboard → Clipboard
copy none size c = c
copy (some bytes) size c =
    if (size == 0) || ltb clipboard_size size
    then c
    else record { buffer = for_up size (λ i b. update b i (bytes i)) c.buffer; used_bytes = size }

unfoldable pub paste : Clipboard → Option (ℕ → ℕ)
paste c = if c.used_bytes == 0 then none else some c.buffer

pub clear : Clipboard → Clipboard
clear c = record c { used_bytes = 0 }
