-- ===== src/Pmm/Allocate.antt =====
-- pmm_allocate_frame and pmm_free_frame of src/pmm.c.
use a_lightweight_os.Base.{
  ℕ, zero, suc, ◌+◌, ◌*◌, ◌/◌, ◌%◌, ◌<◌, ◌≤◌, ◌≡◌, refl, ◌⊎◌, inl, inr, Bool, true, false, ltb,
  ◌==◌, if◌then◌else◌, u64, arith, Bool-cases, Option, none, some, test_bit, test_bit-zero,
  count-pos, count-le, count-ext, count-none, ap, subst, sym,
}
use a_lightweight_os.Pmm.{
  Pmm, first_bit, take_frame, allocate_from, allocate_frame, free_frame, words,
}
use a_lightweight_os.Pmm.Frames.{is_free, IsValid, is_free-clear_bit, is_free-set_bit}
use a_lightweight_os.Pmm.Invariant.{turned_on, turned_off, words_of, free_at}

-- What the scan of a word finds.
abbrev Found : ℕ → ℕ → ℕ → Option ℕ → Type 0
Found left bit w none = (c : ℕ) → bit ≤ c → c < bit + left → test_bit w c ≡ false
Found left bit w (some b) =
    (bit ≤ b)
    × (b < bit + left)
    × (test_bit w b ≡ true)
    × ((c : ℕ) → bit ≤ c → c < b → test_bit w c ≡ false)

first_bit-Found : (left bit w : ℕ) → Found left bit w (first_bit left bit w)
unfolding first_bit
first_bit-Found zero bit w = λ c h l. absurd (omega arith)
first_bit-Found (suc left) bit w =
    go (test_bit w bit) (first_bit left (bit + 1) w) refl (first_bit-Found left (bit + 1) w)
  where
    at : (c : ℕ) → test_bit w bit ≡ false → bit ≡ c → test_bit w c ≡ false
    at c e q = rw q at e

    go :
        (b : Bool) (o : Option ℕ)
        → test_bit w bit ≡ b
        → Found left (bit + 1) w o
        → Found (suc left) bit w (if b then some bit else o)
    go true o e r = (omega arith, omega arith, e, λ c h l. absurd (omega arith))
    go false none e r = λ c h l. ground (arith, at c e, r c)
    go false (some b) e r = (omega arith, omega arith, r.2, λ c h l. ground (arith, at c e, r.3 c))

-- Frame `f`, the lowest free one, has been handed out.
pub record Takes (s : Pmm) (f : ℕ) (r : Pmm × ℕ) : Type 0 where
  pub inside : f < words s * 64
  pub was_free : is_free s f ≡ true
  pub lowest : (g : ℕ) → g < f → is_free s g ≡ false
  pub address : r.1 ≡ f * 4096
  pub taken : (g : ℕ) → is_free r.0 g ≡ (if f == g then false else is_free s g)
  pub one_less : r.0.free_frames + 1 ≡ s.free_frames
  pub same_total : r.0.total_frames ≡ s.total_frames

-- No frame is free; the answer is address 0.
pub record Exhausted (s : Pmm) (r : Pmm × ℕ) : Type 0 where
  pub none_free : (g : ℕ) → g < words s * 64 → is_free s g ≡ false
  pub unchanged : r ≡ (s, 0)

abbrev pub Allocates : Pmm → Pmm × ℕ → Type 0
Allocates s r = ((f : ℕ) × Takes s f r) ⊎ Exhausted s r

take_frame-Takes :
    (s : Pmm) (f : ℕ)
    → IsValid s
    → f < words s * 64
    → is_free s f ≡ true
    → ((g : ℕ) → g < f → is_free s g ≡ false)
    → Takes s f (take_frame (f / 64) (f % 64) s)
unfolding take_frame
take_frame-Takes s f v l e low = record {
  inside = l;
  was_free = e;
  lowest = low;
  address = omega (arith, v.stored);
  taken = λ g. is_free-clear_bit s.bitmap f g;
  one_less = omega (
    arith,
    count-pos (is_free s) (words s * 64) f l e,
    count-le (is_free s) (words s * 64),
    v.counted,
    v.stored,
  );
  same_total = refl;
}

-- The scan of the words from `idx` on, where every frame below is taken.
allocate_from-Allocates :
    (left idx : ℕ) (s : Pmm)
    → IsValid s
    → idx + left ≡ words s
    → ((g : ℕ) → g < idx * 64 → is_free s g ≡ false)
    → Allocates s (allocate_from left idx s)
unfolding allocate_from
allocate_from-Allocates zero idx s v e below =
    inr (record { none_free = λ g l. below g (omega arith); unchanged = refl })
allocate_from-Allocates (suc left) idx s v e below =
    go (s.bitmap idx == 0) refl (first_bit 64 0 (s.bitmap idx))
      (first_bit-Found 64 0 (s.bitmap idx)) (allocate_from left (idx + 1) s)
      (allocate_from-Allocates left (idx + 1) s v (omega arith))
  where
    -- No frame below the next word, if this one holds none.
    next :
        ((c : ℕ) → c < 64 → test_bit (s.bitmap idx) c ≡ false)
        → (g : ℕ) → g < (idx + 1) * 64
        → is_free s g ≡ false
    next clear g l = elim (Bool-cases (ltb g (idx * 64))) [
      | inl e' ↦ below g (ground arith)
      | inr e' ↦ let q : g / 64 ≡ idx = ground arith in rw q (clear (g % 64) (omega arith))
    ]

    go :
        (b : Bool)
        → (s.bitmap idx == 0) ≡ b
        → (o : Option ℕ) → Found 64 0 (s.bitmap idx) o
        → (rest : Pmm × ℕ)
        → (((g : ℕ) → g < (idx + 1) * 64 → is_free s g ≡ false) → Allocates s rest)
        → Allocates s (if b then rest else elim o [ some bit ↦ take_frame idx bit s | none ↦ rest ])
    go true z o found rest r =
        r (next λ c l. let z' : s.bitmap idx ≡ 0 = ground arith in rw z' (test_bit-zero c))
    go false z none found rest r = r (next λ c l. found c (omega arith) (omega arith))
    go false z (some bit) found rest r = inl (idx * 64 + bit, taken)
      where
        q : (idx * 64 + bit) / 64 ≡ idx
        q = omega arith

        m : (idx * 64 + bit) % 64 ≡ bit
        m = omega arith

        lower : (g : ℕ) → g < idx * 64 + bit → is_free s g ≡ false
        lower g l = elim (Bool-cases (ltb g (idx * 64))) [
          | inl e' ↦ below g (ground arith)
          | inr e' ↦
              let p : g / 64 ≡ idx = ground arith in
              rw p (found.3 (g % 64) (omega arith) (omega arith))
        ]

        taken : Takes s (idx * 64 + bit) (take_frame idx bit s)
        taken =
            subst (λ i. Takes s (idx * 64 + bit) (take_frame i bit s)) q
              (subst (λ j. Takes s (idx * 64 + bit) (take_frame ((idx * 64 + bit) / 64) j s)) m
                (take_frame-Takes s (idx * 64 + bit) v (omega arith) (rw (q, m) found.2) lower))

-- Allocation hands out the lowest free frame, marks that one alone as taken and lowers the counter by
-- one; or no frame is free, and it returns 0 and changes nothing.
pub allocate_frame-Allocates : (s : Pmm) → IsValid s → Allocates s (allocate_frame s)
unfolding allocate_frame
allocate_frame-Allocates s v =
    allocate_from-Allocates (words s) 0 s v (omega arith) (λ g l. absurd (omega arith))

Allocates-IsValid : (s : Pmm) (r : Pmm × ℕ) → IsValid s → Allocates s r → IsValid r.0
Allocates-IsValid s r v (inl (f, t)) = turned_off s r.0 f t.same_total v t.inside t.taken (
    ground
      (arith, t.was_free, t.one_less, v.counted, v.stored, count-le (is_free s) (words s * 64)))
Allocates-IsValid s r v (inr x) = subst (λ q. IsValid q.0) (sym x.unchanged) v

pub allocate_frame-IsValid : (s : Pmm) → IsValid s → IsValid (allocate_frame s).0
allocate_frame-IsValid s v = Allocates-IsValid s (allocate_frame s) v (allocate_frame-Allocates s v)

module _ (s : Pmm) (paddr : ℕ) (inside : paddr / 4096 < words s * 64) where
  abbrev freed : Pmm
  freed = free_frame paddr s

  is_free-free_frame : (g : ℕ) → is_free freed g ≡ (if paddr / 4096 == g then true else is_free s g)
  unfolding free_frame
  is_free-free_frame g = ground (arith, is_free-set_bit s.bitmap (paddr / 4096) g)

  total-free_frame : freed.total_frames ≡ s.total_frames
  unfolding free_frame
  total-free_frame = ground arith

  count-free_frame : freed.free_frames ≡ u64 (s.free_frames + 1)
  unfolding free_frame
  count-free_frame = ground arith

  -- Freeing a frame that is taken makes that frame alone free, and the counter stays right.
  pub free_frame-taken :
      IsValid s
      → is_free s (paddr / 4096) ≡ false
      → IsValid freed
        × ((g : ℕ) → is_free freed g ≡ (if paddr / 4096 == g then true else is_free s g))
  free_frame-taken v e = (
    turned_on s freed (paddr / 4096) total-free_frame v inside is_free-free_frame
        (rw e count-free_frame),
    is_free-free_frame,
  )

  -- Freeing a frame that is free already changes no bit but raises the counter, so that the counter
  -- no longer says how many frames are free.
  free_frame-double :
      IsValid s
      → is_free s (paddr / 4096) ≡ true
      → ((g : ℕ) → is_free freed g ≡ is_free s g) × (¬ IsValid freed)
  free_frame-double v e = (
    same,
    λ w. ground (
      arith,
      w.counted,
      v.counted,
      v.stored,
      total-free_frame,
      count-free_frame,
      ap words_of total-free_frame,
      count-ext (is_free freed) (is_free s) (words s * 64) (λ g _. same g),
      count-le (is_free s) (words s * 64),
    ),
  )
    where
      same : (g : ℕ) → is_free freed g ≡ is_free s g
      same g = ground (arith, is_free-free_frame g, e, free_at s (paddr / 4096) g e)

Allocates-some :
    (s : Pmm) (r : Pmm × ℕ) → IsValid s → 0 < s.free_frames → Allocates s r → (f : ℕ) × Takes s f r
Allocates-some s r v l (inl t) = t
Allocates-some s r v l (inr x) =
    absurd (omega (arith, v.counted, count-none (is_free s) (words s * 64) x.none_free))

-- While the counter is positive, freeing the frame that was just handed out restores every bit and
-- the counter.
free_frame-allocate_frame :
    (s : Pmm)
    → IsValid s
    → 0 < s.free_frames
    → let (t, paddr) = allocate_frame s in
      ((g : ℕ) → is_free (free_frame paddr t) g ≡ is_free s g)
      × ((free_frame paddr t).free_frames ≡ s.free_frames)
free_frame-allocate_frame s v l =
    restored (Allocates-some s (allocate_frame s) v l (allocate_frame-Allocates s v))
  where
    r : Pmm × ℕ
    r = allocate_frame s

    restored :
        (f : ℕ) × Takes s f r
        → ((g : ℕ) → is_free (free_frame r.1 r.0) g ≡ is_free s g)
          × ((free_frame r.1 r.0).free_frames ≡ s.free_frames)
    restored (f, t) =
        let at : r.1 / 4096 ≡ f = omega (arith, t.address) in
        let inside : r.1 / 4096 < words r.0 * 64 = rw at (omega (arith, t.inside, t.same_total)) in
        (
          λ g. ground (
            arith,
            is_free-free_frame r.0 r.1 inside g,
            t.taken g,
            t.was_free,
            at,
            free_at s f g t.was_free,
          ),
          omega (
            arith,
            count-free_frame r.0 r.1 inside,
            t.one_less,
            v.counted,
            v.stored,
            count-le (is_free s) (words s * 64),
          ),
        )
