-- ===== src/Clipboard/Roundtrip.antt =====
-- What src/clipboard.c gives back.
use a_lightweight_os.Base.{
  ℕ, ◌<◌, ◌≤◌, ◌≡◌, ◌⊎◌, refl, ◌∙◌, true, false, ◌||◌, none, some, ltb, ◌==◌, update, for_up,
  for_up-fill, arith,
}
use a_lightweight_os.Clipboard.{Clipboard, clipboard_size, copy, paste}

-- What copying does, by the size and the pointer that it is given.
pub record Copies (bytes : ℕ → ℕ) (size : ℕ) (c : Clipboard) : Type 0 where
  pub pastes :
      0 < size
      → size ≤ clipboard_size
      → (b : ℕ → ℕ) × (paste (copy (some bytes) size c) ≡ some b)
        × ((i : ℕ) → i < size → b i ≡ bytes i)
  pub refuses : (size ≡ 0) ⊎ (clipboard_size < size) → copy (some bytes) size c ≡ c
  pub ignores : copy none size c ≡ c

-- Between 1 and 512 bytes that are copied are pasted as they were; a copy of any other size, or of NULL,
-- leaves the clipboard as it was.
copy-Copies : (bytes : ℕ → ℕ) (size : ℕ) (c : Clipboard) → Copies bytes size c
unfolding copy paste
copy-Copies bytes size c = record {
  pastes = λ p l.
      let e : ((size == 0) || ltb clipboard_size size) ≡ false = ground arith in
      let z : (size == 0) ≡ false = ground arith in
      (
        for_up size (λ i b. update b i (bytes i)) c.buffer,
        rw e (rw z refl),
        λ i m.
            for_up-fill (λ i _. bytes i) size c.buffer i
            ∙ (let t : ltb i size ≡ true = ground arith in rw t refl),
      );
  refuses =
      λ o. let e : ((size == 0) || ltb clipboard_size size) ≡ true = ground arith in rw e refl;
  ignores = refl;
}
