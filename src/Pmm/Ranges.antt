-- ===== src/Pmm/Ranges.antt =====
-- Exactly which frames the range operations of src/pmm.c touch.
use a_lightweight_os.Base.{
  refl, inl, inr, Bool-cases, ℕ, zero, suc, ◌+◌, ◌*◌, ◌≤◌, ◌≡◌, Bool, true, false, ◌&&◌, not, ltb,
  leb, ◌==◌, if◌then◌else◌, arith,
}
use a_lightweight_os.Pmm.{
  Pmm, mark_free, mark_used, each_frame, add_available_range, reserve_range, max_words, start_frame,
  end_frame,
}
use a_lightweight_os.Pmm.Frames.{is_free, IsValid, is_free-mark_free, is_free-mark_used}

-- The frames that a range covers: rounded outwards, and cut at the end of memory.
abbrev pub covers : ℕ → ℕ → ℕ → ℕ → Bool
covers total address len f =
    not (len == 0) && leb (start_frame address) f && ltb f (end_frame address len) && ltb f total

module _ (body : ℕ → Pmm → Pmm) (v : Bool)
    (writes : (k : ℕ) (s : Pmm) (f : ℕ)
      → is_free (body k s) f ≡ (if k == f then v else is_free s f))
    (keeps : (k : ℕ) (s : Pmm) → (body k s).total_frames ≡ s.total_frames) where
  -- With fuel for the frames that are left, the loop sets each frame from `frame` to its end.
  is_free-each_frame :
      (fuel frame end : ℕ) (s : Pmm) (f : ℕ)
      → s.total_frames ≤ fuel + frame
      → s.total_frames ≤ max_words * 64
      → is_free (each_frame body fuel frame end s) f
        ≡ (if leb frame f && ltb f end && ltb f s.total_frames then v else is_free s f)
  unfolding each_frame
  is_free-each_frame zero frame end s f enough small = ground arith
  is_free-each_frame (suc fuel) frame end s f enough small = ground (
    arith,
    keeps frame s,
    writes frame s f,
    is_free-each_frame fuel (frame + 1) end (body frame s) f,
  )

module _ (body : ℕ → Pmm → Pmm)
    (keeps : (k : ℕ) (s : Pmm) → (body k s).total_frames ≡ s.total_frames) where
  total-each_frame :
      (fuel frame end : ℕ) (s : Pmm)
      → (each_frame body fuel frame end s).total_frames ≡ s.total_frames
  unfolding each_frame
  total-each_frame zero frame end s = refl
  total-each_frame (suc fuel) frame end s =
      ground (arith, keeps frame s, total-each_frame fuel (frame + 1) end (body frame s))

total-mark_free : (k : ℕ) (s : Pmm) → (mark_free k s).total_frames ≡ s.total_frames
unfolding mark_free
total-mark_free k s = ground arith

total-mark_used : (k : ℕ) (s : Pmm) → (mark_used k s).total_frames ≡ s.total_frames
unfolding mark_used
total-mark_used k s = ground arith

-- Adding a range makes exactly its frames free, and leaves the others as they were.
is_free-add_available_range :
    (address len : ℕ) (s : Pmm) (f : ℕ)
    → IsValid s
    → is_free (add_available_range address len s) f
      ≡ (if covers s.total_frames address len f then true else is_free s f)
unfolding add_available_range
is_free-add_available_range address len s f v = ground (
  arith,
  is_free-each_frame mark_free true is_free-mark_free total-mark_free s.total_frames
      (start_frame address) (end_frame address len) s f (omega arith) v.stored,
)

-- Reserving a range takes exactly its frames, and leaves the others as they were.
is_free-reserve_range :
    (address len : ℕ) (s : Pmm) (f : ℕ)
    → IsValid s
    → is_free (reserve_range address len s) f
      ≡ (if covers s.total_frames address len f then false else is_free s f)
unfolding reserve_range
is_free-reserve_range address len s f v = ground (
  arith,
  is_free-each_frame mark_used false is_free-mark_used total-mark_used s.total_frames
      (start_frame address) (end_frame address len) s f (omega arith) v.stored,
)

-- Adding a range makes exactly the frames free that it covers (rounded outwards, cut at the end of
-- memory), reserving it takes exactly those, and either leaves the other frames as they were.
pub is_free-range :
    (address len : ℕ) (s : Pmm) (f : ℕ)
    → IsValid s
    → (is_free (add_available_range address len s) f
        ≡ (if covers s.total_frames address len f then true else is_free s f))
      × (is_free (reserve_range address len s) f
          ≡ (if covers s.total_frames address len f then false else is_free s f))
is_free-range address len s f v =
    (is_free-add_available_range address len s f v, is_free-reserve_range address len s f v)

pub total-range :
    (address len : ℕ) (s : Pmm)
    → ((add_available_range address len s).total_frames ≡ s.total_frames)
      × ((reserve_range address len s).total_frames ≡ s.total_frames)
unfolding add_available_range reserve_range
total-range address len s = elim (Bool-cases (len == 0)) [
  | inl e ↦ rw e (refl, refl)
  | inr e ↦ rw e (
    total-each_frame mark_free total-mark_free s.total_frames (start_frame address)
        (end_frame address len) s,
    total-each_frame mark_used total-mark_used s.total_frames (start_frame address)
        (end_frame address len) s,
  )
]
