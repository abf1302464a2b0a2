-- ===== src/Scheduler/Rounds.antt =====
-- The order in which task_yield of src/scheduler.c serves the ready queue.
use a_lightweight_os.Base.{
  ℕ, zero, suc, ◌+◌, ◌<◌, ◌≤◌, ◌≡◌, refl, ◌∙◌, inl, inr, true, false, ◌||◌, some, List, [], ◌∷◌,
  ◌==◌, if◌then◌else◌, arith, ap, subst, length, Bool-cases, ==_refl,
}
use a_lightweight_os.Scheduler.{Scheduler, task_yield}
use a_lightweight_os.Scheduler.Chains.{elem, Rising, elem_bounds}
use a_lightweight_os.Scheduler.Valid.{IsValid}
use a_lightweight_os.Scheduler.Yield.{after, first_of, successor, elem-after, task_yield-Yields}
use a_lightweight_os.Scheduler.Stall.{yields}

-- Whose turn it is `n` turns after task `i`.
abbrev turns : List ℕ → ℕ → ℕ → ℕ
turns queue zero i = i
turns queue (suc n) i = turns queue n (successor queue i)

turns-add : (queue : List ℕ) (n m i : ℕ) → turns queue (n + m) i ≡ turns queue m (turns queue n i)
turns-add queue zero m i = let e : 0 + m ≡ m = omega arith in ap (λ t. turns queue t i) e
turns-add queue (suc n) m i =
    let e : suc n + m ≡ suc (n + m) = omega arith in
    ap (λ t. turns queue t i) e ∙ turns-add queue n m (successor queue i)

-- What stands behind the first task behind `i` is the rest.
after-after :
    (lo hi : ℕ) (xs : List ℕ) (i y : ℕ) (ys : List ℕ)
    → Rising lo hi xs
    → after i xs ≡ y ∷ ys
    → after y xs ≡ ys
after-after lo hi [] i y ys r e = absurd (let h = ap length e in omega (arith, h))
after-after lo hi (x ∷ xs) i y ys r e = elim (Bool-cases (x == i)) [
  | inl q ↦
      let d : xs ≡ y ∷ ys = subst (λ b. (if b then xs else after i xs) ≡ y ∷ ys) q e in
      let m : elem y xs ≡ true = ap (elem y) d ∙ member y ys in
      let n : (x == y) ≡ false = let b = elem_bounds (x + 1) hi xs y r.2 m in ground (arith, b) in
      rw n (ap (after y) d ∙ (let z = ==_refl y in rw z refl))
  | inr q ↦
      let d : after i xs ≡ y ∷ ys = subst (λ b. (if b then xs else after i xs) ≡ y ∷ ys) q e in
      let m : elem y xs ≡ true = elem-after xs i y (ap (elem y) d ∙ member y ys) in
      let n : (x == y) ≡ false = let b = elem_bounds (x + 1) hi xs y r.2 m in ground (arith, b) in
      rw n (after-after (x + 1) hi xs i y ys r.2 d)
]
  where
    member : (y : ℕ) (ys : List ℕ) → elem y (y ∷ ys) ≡ true
    member y ys = let z = ==_refl y in rw z refl

length-after : (i : ℕ) (xs : List ℕ) → length (after i xs) ≤ length xs
length-after i [] = omega arith
length-after i (x ∷ xs) = ground (arith, length-after i xs)

-- A task that does not stand behind `i` has at least as many tasks behind it.
length-after_mono :
    (xs : List ℕ) (i k : ℕ)
    → elem i xs ≡ true
    → elem k xs ≡ true
    → elem k (after i xs) ≡ false
    → length (after i xs) ≤ length (after k xs)
length-after_mono [] i k a b c = omega arith
length-after_mono (x ∷ xs) i k a b c =
    ground (arith, a, b, c, length-after_mono xs i k, length-after i xs)

-- A task behind `i` gets its turn after as many turns as it stands behind it.
turns-behind :
    (lo hi : ℕ) (queue : List ℕ) (k : ℕ)
    → Rising lo hi queue
    → (ys : List ℕ) (i : ℕ) → after i queue ≡ ys
    → elem k ys ≡ true
    → (n : ℕ) × (0 < n) × (n + length (after k queue) ≡ length ys) × (turns queue n i ≡ k)
turns-behind lo hi queue k r [] i e m = absurd (ground arith)
turns-behind lo hi queue k r (y ∷ ys) i e m =
    let next : successor queue i ≡ y = ap (first_of (first_of i queue)) e in
    elim (Bool-cases (y == k)) [
      | inl q ↦
          let s : y ≡ k = ground arith in
          let z = ap length (after-after lo hi queue i y ys r e) in
          let w = ap (λ t. length (after t queue)) s in
          (1, omega arith, omega (arith, z, w), next ∙ s)
      | inr q ↦
          let (n, p, l, t) =
            turns-behind lo hi queue k r ys y (after-after lo hi queue i y ys r e)
              (subst (λ b. (b || elem k ys) ≡ true) q m) in
          let u : turns queue (suc n) i ≡ k = ap (turns queue n) next ∙ t in
          (suc n, omega arith, omega (arith, l), u)
    ]

-- And the first task of the queue gets it after all those behind `i`.
turns-first :
    (lo hi x : ℕ) (xs : List ℕ)
    → Rising lo hi (x ∷ xs)
    → (ys : List ℕ) (i : ℕ) → after i (x ∷ xs) ≡ ys
    → turns (x ∷ xs) (suc (length ys)) i ≡ x
turns-first lo hi x xs r [] i e = ap (first_of x) e
turns-first lo hi x xs r (y ∷ ys) i e =
    ap (turns (x ∷ xs) (suc (length ys))) (ap (first_of x) e)
    ∙ turns-first lo hi x xs r ys y (after-after lo hi (x ∷ xs) i y ys r e)

-- Every task of the queue gets its turn within one round.
turns-reach :
    (lo hi : ℕ) (queue : List ℕ) (i k : ℕ)
    → Rising lo hi queue
    → elem i queue ≡ true
    → elem k queue ≡ true
    → (n : ℕ) × (0 < n) × (n ≤ length queue) × (turns queue n i ≡ k)
turns-reach lo hi [] i k r a b = absurd (ground arith)
turns-reach lo hi (x ∷ xs) i k r a b = elim (Bool-cases (elem k (after i (x ∷ xs)))) [
  | inl m ↦
      let (n, p, l, t) = turns-behind lo hi (x ∷ xs) k r (after i (x ∷ xs)) i refl m in
      (n, p, (let z = length-after i (x ∷ xs) in omega (arith, l, z)), t)
  | inr m ↦
      let f = turns-first lo hi x xs r (after i (x ∷ xs)) i refl in
      let z = length-after_mono (x ∷ xs) i k a b m in
      let y = ==_refl x in
      let h : after x (x ∷ xs) ≡ xs = rw y refl in
      let w = ap length h in
      elim (Bool-cases (x == k)) [
        | inl q ↦
            let s : x ≡ k = ground arith in
            let v = ap (λ t. length (after t (x ∷ xs))) s in
            (suc (length (after i (x ∷ xs))), omega arith, omega (arith, z, w, v), f ∙ s)
        | inr q ↦
            let (n, p, l, t) =
              turns-behind lo hi (x ∷ xs) k r (after x (x ∷ xs)) x refl
                (ap (elem k) h ∙ subst (λ b. (b || elem k xs) ≡ true) q b) in
            (
              suc (length (after i (x ∷ xs))) + n,
              omega arith,
              omega (arith, z, l, w),
              turns-add (x ∷ xs) (suc (length (after i (x ∷ xs)))) n i
                  ∙ ap (turns (x ∷ xs) n) f
                  ∙ t,
            )
      ]
]

-- The turns are what the yields give.
yields-turns :
    (n : ℕ) (s : Scheduler) (queue : List ℕ) (i : ℕ)
    → IsValid s queue
    → s.current ≡ some i
    → (yields n s).current ≡ some (turns queue n i)
yields-turns zero s queue i v c = c
yields-turns (suc n) s queue i v c =
    let y = task_yield-Yields s queue i v c in
    yields-turns n (task_yield s).0 queue (successor queue i) y.keeps y.turn

-- No task starves: from a valid state with a current task on, every task of the queue, the current one
-- included, becomes current again within as many yields as the queue has tasks.
pub yields-reach :
    (s : Scheduler) (queue : List ℕ) (i k : ℕ)
    → IsValid s queue
    → s.current ≡ some i
    → elem k queue ≡ true
    → (n : ℕ) × (0 < n) × (n ≤ length queue) × ((yields n s).current ≡ some k)
yields-reach s queue i k v c m =
    let (n, p, l, t) = turns-reach 0 s.task_count queue i k v.rising (v.present i c) m in
    (n, p, l, yields-turns n s queue i v c ∙ ap some t)
