-- ===== src/Pmm/Frames.antt =====
-- Which frames of src/pmm.c's bitmap are free, and what one step does to them.
use a_lightweight_os.Base.{
  ℕ, ◌*◌, ◌/◌, ◌%◌, ◌≤◌, ◌≡◌, Bool, true, false, ◌==◌, if◌then◌else◌, update, test_bit, set_bit,
  clear_bit, test_bit-set_bit, test_bit-clear_bit, arith, count, Bool-cases, inl, inr,
}
use a_lightweight_os.Pmm.{Pmm, mark_free, mark_used, words, max_words}

-- The bit of a frame.
abbrev pub is_free : Pmm → ℕ → Bool
is_free s f = test_bit (s.bitmap (f / 64)) (f % 64)

-- The counter says how many bits of the bitmap are set, and the bitmap is inside its storage.
pub record IsValid (s : Pmm) : Type 0 where
  pub counted : s.free_frames ≡ count (is_free s) (words s * 64)
  pub stored : s.total_frames ≤ max_words * 64

pub is_free-set_bit :
    (bm : ℕ → ℕ) (k f : ℕ)
    → test_bit (update bm (k / 64) (set_bit (bm (k / 64)) (k % 64)) (f / 64)) (f % 64)
      ≡ (if k == f then true else test_bit (bm (f / 64)) (f % 64))
is_free-set_bit bm k f = elim (Bool-cases (k / 64 == f / 64)) [
  | inl e ↦
      let e' : k / 64 ≡ f / 64 = ground arith in
      rw e (rw e' (ground (arith, test_bit-set_bit (bm (f / 64)) (k % 64) (f % 64))))
  | inr e ↦ ground arith
]

pub is_free-clear_bit :
    (bm : ℕ → ℕ) (k f : ℕ)
    → test_bit (update bm (k / 64) (clear_bit (bm (k / 64)) (k % 64)) (f / 64)) (f % 64)
      ≡ (if k == f then false else test_bit (bm (f / 64)) (f % 64))
is_free-clear_bit bm k f = elim (Bool-cases (k / 64 == f / 64)) [
  | inl e ↦
      let e' : k / 64 ≡ f / 64 = ground arith in
      rw e (rw e' (ground (arith, test_bit-clear_bit (bm (f / 64)) (k % 64) (f % 64))))
  | inr e ↦ ground arith
]

pub is_free-mark_free :
    (k : ℕ) (s : Pmm) (f : ℕ) → is_free (mark_free k s) f ≡ (if k == f then true else is_free s f)
unfolding mark_free
is_free-mark_free k s f = ground (arith, is_free-set_bit s.bitmap k f)

pub is_free-mark_used :
    (k : ℕ) (s : Pmm) (f : ℕ) → is_free (mark_used k s) f ≡ (if k == f then false else is_free s f)
unfolding mark_used
is_free-mark_used k s f = ground (arith, is_free-clear_bit s.bitmap k f)
