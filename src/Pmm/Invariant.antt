-- ===== src/Pmm/Invariant.antt =====
-- The counter of src/pmm.c agrees with its bitmap: initialisation and the two range operations.
use a_lightweight_os.Base.{
  ℕ, min, zero, suc, ◌+◌, ◌-◌, ◌*◌, ◌/◌, ◌%◌, ◌^◌, ◌<◌, ◌≤◌, ◌≡◌, refl, Bool, true, false, ◌&&◌,
  ltb, ◌==◌, if◌then◌else◌, update, for_up, u64, arith, count-ext, count-turn_on, count-le,
  count-none, test_bit-zero, Bool-cases, inl, inr, ap,
}
use a_lightweight_os.Pmm.{
  Pmm, initialize, mark_free, mark_used, each_frame, add_available_range, reserve_range, words,
  max_words, start_frame, end_frame,
}
use a_lightweight_os.Pmm.Frames.{is_free, IsValid, is_free-mark_free, is_free-mark_used}

total-mark_free : (k : ℕ) (s : Pmm) → (mark_free k s).total_frames ≡ s.total_frames
unfolding mark_free
total-mark_free k s = ground arith

total-mark_used : (k : ℕ) (s : Pmm) → (mark_used k s).total_frames ≡ s.total_frames
unfolding mark_used
total-mark_used k s = ground arith

free_frames-mark_free :
    (k : ℕ) (s : Pmm)
    → (mark_free k s).free_frames ≡ (if is_free s k then s.free_frames else u64 (s.free_frames + 1))
unfolding mark_free
free_frames-mark_free k s = ground arith

free_frames-mark_used :
    (k : ℕ) (s : Pmm)
    → (mark_used k s).free_frames
      ≡ (if is_free s k then u64 (s.free_frames + 2 ^ 64 - 1) else s.free_frames)
unfolding mark_used
free_frames-mark_used k s = ground arith

count-free_le : (s : Pmm) → IsValid s → s.free_frames ≤ max_words * 64
count-free_le s v = omega (arith, count-le (is_free s) (words s * 64))

abbrev pub words_of : ℕ → ℕ
words_of t = u64 (t + 63) / 64 * 64

pub free_at : (s : Pmm) (k f : ℕ) {b : Bool} → is_free s k ≡ b → k ≡ f → is_free s f ≡ b
free_at s k f e q = rw q at e

-- The counter after one bit has been set, or cleared, whatever state holds the new bitmap.
module _ (s s' : Pmm) (k : ℕ) (same : s'.total_frames ≡ s.total_frames) (v : IsValid s) where
  pub turned_on :
      k < words s * 64
      → ((f : ℕ) → is_free s' f ≡ (if k == f then true else is_free s f))
      → s'.free_frames ≡ (if is_free s k then s.free_frames else u64 (s.free_frames + 1))
      → IsValid s'
  turned_on l bits n = elim (Bool-cases (is_free s k)) [
    | inl e ↦ record {
      counted = ground (
        arith,
        ap words_of same,
        count-ext (is_free s) (is_free s') (words s * 64)
            (λ f _. ground (arith, bits f, free_at s k f e)),
      );
      stored = omega arith;
    }
    | inr e ↦ record {
      counted = ground (
        arith,
        ap words_of same,
        count-le (is_free s) (words s * 64),
        count-turn_on (is_free s) (is_free s') (words s * 64) k l e (ground (arith, bits k))
            (λ f ne. ground (arith, bits f)),
      );
      stored = omega arith;
    }
  ]

  pub turned_off :
      k < words s * 64
      → ((f : ℕ) → is_free s' f ≡ (if k == f then false else is_free s f))
      → s'.free_frames ≡ (if is_free s k then u64 (s.free_frames + 2 ^ 64 - 1) else s.free_frames)
      → IsValid s'
  turned_off l bits n = elim (Bool-cases (is_free s k)) [
    | inl e ↦ record {
      counted = ground (
        arith,
        ap words_of same,
        count-le (is_free s) (words s * 64),
        count-turn_on (is_free s') (is_free s) (words s * 64) k l (ground (arith, bits k)) e
            (λ f ne. ground (arith, bits f)),
      );
      stored = omega arith;
    }
    | inr e ↦ record {
      counted = ground (
        arith,
        ap words_of same,
        count-ext (is_free s) (is_free s') (words s * 64)
            (λ f _. ground (arith, bits f, free_at s k f e)),
      );
      stored = omega arith;
    }
  ]

pub mark_free-IsValid : (k : ℕ) (s : Pmm) → k < words s * 64 → IsValid s → IsValid (mark_free k s)
mark_free-IsValid k s l v =
    turned_on s (mark_free k s) k (total-mark_free k s) v l (is_free-mark_free k s)
      (free_frames-mark_free k s)

pub mark_used-IsValid : (k : ℕ) (s : Pmm) → k < words s * 64 → IsValid s → IsValid (mark_used k s)
mark_used-IsValid k s l v =
    turned_off s (mark_used k s) k (total-mark_used k s) v l (is_free-mark_used k s)
      (free_frames-mark_used k s)

-- The loop keeps what its body keeps at the frames inside the bitmap.
each_frame-IsValid :
    (body : ℕ → Pmm → Pmm)
    → ((k : ℕ) (s : Pmm) → k < words s * 64 → IsValid s → IsValid (body k s))
    → (fuel frame end : ℕ) (s : Pmm) → IsValid s
    → IsValid (each_frame body fuel frame end s)
unfolding each_frame
each_frame-IsValid body keep zero frame end s v = v
each_frame-IsValid body keep (suc fuel) frame end s v =
    go (ltb frame end && ltb frame s.total_frames && ltb (frame / 64) (words s)) refl
      (λ l. each_frame-IsValid body keep fuel (frame + 1) end (body frame s) (keep frame s l v))
  where
    go :
        (b : Bool)
        → (ltb frame end && ltb frame s.total_frames && ltb (frame / 64) (words s)) ≡ b
        → (frame < words s * 64 → IsValid (each_frame body fuel (frame + 1) end (body frame s)))
        → IsValid
            (elim b [ true ↦ each_frame body fuel (frame + 1) end (body frame s) | false ↦ s ])
    go true e rest = rest (ground arith)
    go false e rest = v

-- Each range operation keeps the counter equal to the number of set bits.
pub range-IsValid :
    (address len : ℕ) (s : Pmm)
    → IsValid s
    → IsValid (add_available_range address len s) × IsValid (reserve_range address len s)
unfolding add_available_range reserve_range
range-IsValid address len s v = elim (Bool-cases (len == 0)) [
  | inl e ↦ rw e (v, v)
  | inr e ↦ rw e (
    each_frame-IsValid mark_free mark_free-IsValid s.total_frames (start_frame address)
        (end_frame address len) s v,
    each_frame-IsValid mark_used mark_used-IsValid s.total_frames (start_frame address)
        (end_frame address len) s v,
  )
]

-- Clearing the words below `n` leaves no bit set in them.
cleared : (n : ℕ) (bm : ℕ → ℕ) (i : ℕ) → i < n → for_up n (λ i bm. update bm i 0) bm i ≡ 0
cleared zero bm i l = absurd (omega arith)
cleared (suc n) bm i l = ground (arith, cleared n bm i)

bitmap-initialize : (s : Pmm) (m i : ℕ) → i < words (initialize s m) → (initialize s m).bitmap i ≡ 0
unfolding initialize
bitmap-initialize s m i l = cleared _ s.bitmap i (ground arith)

stored-initialize : (s : Pmm) (m : ℕ) → (initialize s m).total_frames ≤ max_words * 64
unfolding initialize
stored-initialize s m = ground arith

free_frames-initialize : (s : Pmm) (m : ℕ) → (initialize s m).free_frames ≡ 0
unfolding initialize
free_frames-initialize s m = refl

-- Initialisation gives a valid manager, whatever the bitmap held, in which no frame is free.
pub initialize-IsValid :
    (s : Pmm) (total_memory : ℕ)
    → IsValid (initialize s total_memory)
      × ((f : ℕ)
          → f < words (initialize s total_memory) * 64
          → is_free (initialize s total_memory) f ≡ false)
initialize-IsValid s m = (
  record {
    counted =
        ground (arith, free_frames-initialize s m, count-none (is_free t) (words t * 64) none_free);
    stored = stored-initialize s m;
  },
  none_free,
)
  where
    t : Pmm
    t = initialize s m

    none_free : (f : ℕ) → f < words t * 64 → is_free t f ≡ false
    none_free f l = rw (bitmap-initialize s m (f / 64) (omega arith)) (test_bit-zero (f % 64))

-- The frames of 4096 bytes of a memory, the last one perhaps in part; the bitmap has room for 2^23.
pub total-initialize :
    (s : Pmm) (m : ℕ) → (initialize s m).total_frames ≡ min (u64 (m + 4095) / 4096) (131072 * 64)
unfolding initialize
total-initialize s m = ground arith
