-- ===== src/Ring/Contents.antt =====
-- A ring of `n` slots is a first-in first-out queue of at most n - 1 elements.
use a_lightweight_os.Base.{
  ℕ, zero, suc, ◌+◌, ◌-◌, ◌%◌, ◌<◌, ◌≡◌, refl, ◌≢◌, ◌⊎◌, inl, inr, true, false, not, Option, none,
  some, List, [], ◌∷◌, ◌++◌, ltb, leb, ◌==◌, if◌then◌else◌, update, length, arith, ap, Bool-cases,
  ==_refl,
}
use a_lightweight_os.Ring.{Ring, push, pop}

module _ (n : ℕ) where
  -- Slot `t` lies `k` steps after slot `h`.
  abbrev After : ℕ → ℕ → ℕ → Type 0
  After h k t = (t ≡ h + k) ⊎ (t + n ≡ h + k)

  next_in : (h : ℕ) → h < n → ((h + 1) % n < n) × After h 1 ((h + 1) % n)
  next_in h l = elim (Bool-cases (ltb (h + 1) n)) [
    | inl e ↦ (grind arith, inl (grind arith))
    | inr e ↦ (grind arith, inr (grind arith))
  ]

  After-next : (h k t : ℕ) → h < n → t < n → suc k < n → After h (suc k) t → After ((h + 1) % n) k t
  After-next h k t l lt lk a = go (next_in h l).1 a
    where
      go : After h 1 ((h + 1) % n) → After h (suc k) t → After ((h + 1) % n) k t
      go (inl e) (inl f) = inl (omega arith)
      go (inl e) (inr f) = inr (omega arith)
      go (inr e) (inl f) = absurd (omega arith)
      go (inr e) (inr f) = inl (omega arith)

  -- How many steps lead from slot `h` to slot `t`.
  abbrev pub gap : ℕ → ℕ → ℕ
  gap h t = if leb h t then t - h else t + n - h

  gap-next : (h t : ℕ) → h < n → t < n → (t + 1) % n ≢ h → gap h ((t + 1) % n) ≡ suc (gap h t)
  gap-next h t lh lt ne = elim (next_in t lt).1 [
    | inl e ↦ ground (arith, (next_in t lt).0)
    | inr e ↦ ground (arith, (next_in t lt).0)
  ]

  full_iff : (h t : ℕ) → h < n → t < n → ((t + 1) % n == h) ≡ not (ltb (gap h t + 1) n)
  full_iff h t lh lt = elim (next_in t lt).1 [
    | inl e ↦ ground (arith, (next_in t lt).0)
    | inr e ↦ ground (arith, (next_in t lt).0)
  ]

  gap-step : (h t : ℕ) → h < n → t < n → h ≢ t → gap h t ≡ suc (gap ((h + 1) % n) t)
  gap-step h t lh lt ne = elim (next_in h lh).1 [
    | inl e ↦ ground (arith, (next_in h lh).0)
    | inr e ↦ ground (arith, (next_in h lh).0)
  ]

module _ {ℓ} {A : Type ℓ} (n : ℕ) where
  -- `k` elements from slot `h` on, going round at `n`.
  abbrev pub window : (ℕ → A) → ℕ → ℕ → List A
  window buf h zero = []
  window buf h (suc k) = buf h ∷ window buf ((h + 1) % n) k

  -- How many elements lie between the two indices.
  abbrev pub size : Ring A → ℕ
  size r = gap n r.head r.tail

  -- Oldest first.
  abbrev pub contents : Ring A → List A
  contents r = window r.buf r.head (size r)

  pub record IsValid (r : Ring A) : Type 0 where
    pub head_in : r.head < n
    pub tail_in : r.tail < n

  -- What a pop returns on a ring that holds the list.
  abbrev pub Popped : Ring A → List A → Option (A × Ring A) → Type ℓ
  Popped r [] o = o ≡ none
  Popped r (x ∷ xs) o = (r' : Ring A) × (o ≡ some (x, r')) × IsValid r' × (contents r' ≡ xs)

  pub length-window : (buf : ℕ → A) (h k : ℕ) → length (window buf h k) ≡ k
  length-window buf h zero = refl
  length-window buf h (suc k) = ap suc (length-window buf ((h + 1) % n) k)

  window-update :
      (buf : ℕ → A) (x : A) (h k t : ℕ)
      → h < n
      → t < n
      → k < n
      → After n h k t
      → window (update buf t x) h (suc k) ≡ window buf h k ++ (x ∷ [])
  window-update buf x h zero t lh lt lk a = let e : t ≡ h = start a in ground (arith, ==_refl t)
    where
      start : After n h 0 t → t ≡ h
      start (inl e) = omega arith
      start (inr e) = absurd (omega arith)
  window-update buf x h (suc k) t lh lt lk a = ground (
    arith,
    window-update buf x ((h + 1) % n) k t (next_in n h lh).0 lt (omega arith)
        (After-next n h k t lh lt lk a),
  )

  -- The most that the ring holds is n - 1 elements.
  pub size-lt : (r : Ring A) → IsValid r → size r < n
  size-lt r v = ground arith

  After-size : (r : Ring A) → IsValid r → After n r.head (size r) r.tail
  After-size r v = ground arith

  -- A push appends its element if there is room, and says so; a full ring refuses it and is unchanged.
  pub push_refines :
      (x : A) (r : Ring A)
      → IsValid r
      → let (r', done) = push n x r in
        IsValid r'
        × (done ≡ ltb (length (contents r) + 1) n)
        × (contents r'
            ≡ (if ltb (length (contents r) + 1) n then contents r ++ (x ∷ []) else contents r))
  unfolding push
  push_refines x r v = elim (Bool-cases ((r.tail + 1) % n == r.head)) [
    | inl e ↦ rw (e, length-window r.buf r.head (size r), full e) (v, refl, refl)
    | inr e ↦
        rw (e, length-window r.buf r.head (size r), room e)
          (
            record { head_in = v.head_in; tail_in = (next_in n r.tail v.tail_in).0 },
            refl,
            rw (gap-next n r.head r.tail v.head_in v.tail_in (ground arith)) (
                window-update r.buf x r.head (size r) r.tail v.head_in v.tail_in (size-lt r v)
                  (After-size r v)),
          )
  ]
    where
      full : ((r.tail + 1) % n == r.head) ≡ true → ltb (size r + 1) n ≡ false
      full e = ground (arith, full_iff n r.head r.tail v.head_in v.tail_in)

      room : ((r.tail + 1) % n == r.head) ≡ false → ltb (size r + 1) n ≡ true
      room e = ground (arith, full_iff n r.head r.tail v.head_in v.tail_in)

  -- A pop takes the oldest element, and fails exactly on the empty ring.
  pub pop_refines : (r : Ring A) → IsValid r → Popped r (contents r) (pop n r)
  unfolding pop
  pop_refines r v = elim (Bool-cases (r.head == r.tail)) [
    | inl e ↦ let z : size r ≡ 0 = ground arith in rw (z, e) refl
    | inr e ↦
        let z : size r ≡ suc (gap n ((r.head + 1) % n) r.tail) =
          gap-step n r.head r.tail v.head_in v.tail_in (ground arith) in
        rw (z, e)
          (
            record r { head = (r.head + 1) % n },
            refl,
            record { head_in = (next_in n r.head v.head_in).0; tail_in = v.tail_in },
            refl,
          )
  ]
