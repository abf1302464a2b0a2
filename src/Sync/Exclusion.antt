-- ===== src/Sync/Exclusion.antt =====
-- Mutual exclusion for the spinlock of src/sync.c.
use a_lightweight_os.Base.{
  ℕ, ◌≡◌, refl, sym, ◌∙◌, inl, inr, ◌⊎◌, Bool, true, false, Option, some, ◌==◌, if◌then◌else◌,
  arith, ap, subst, Bool-cases, update, ==_refl,
}
use mathlib.Core.Bool.{true≢false}
use a_lightweight_os.Sync.{
  Spinlock, Place, outside, spinning, inside, System, spinlock_init, spin_unlock, test_and_set,
  attempt, Step, call, try, release, Reachable, initial, later,
}

abbrev is_inside : Place → Bool
is_inside inside = true
is_inside _ = false

abbrev unlocked : Option Spinlock
unlocked = some (record { locked = 0 })

abbrev held : Option Spinlock
held = some (record { locked = 1 })

-- No processor is inside.
abbrev pub Empty : (ℕ → Place) → Type 0
Empty p = (j : ℕ) → is_inside (p j) ≡ false

-- Processor `h` alone is inside.
abbrev Alone : (ℕ → Place) → ℕ → Type 0
Alone p h = (p h ≡ inside) × ((j : ℕ) → is_inside (p j) ≡ true → h ≡ j)

-- The lock is clear and none is inside, or it is set and one is.
abbrev Guarded : System → Type 0
Guarded s = ((s.lock ≡ unlocked) × Empty s.place) ⊎ ((h : ℕ) × (s.lock ≡ held) × Alone s.place h)

-- A processor that is not inside goes to another place that is not.
Empty-update :
    (p : ℕ → Place) (i : ℕ) (q : Place) → Empty p → is_inside q ≡ false → Empty (update p i q)
Empty-update p i q e n j = elim (Bool-cases (i == j)) [ inl x ↦ rw x n | inr x ↦ rw x (e j) ]

Alone-update :
    (p : ℕ → Place) (h i : ℕ) (q : Place)
    → Alone p h
    → is_inside (p i) ≡ false
    → is_inside q ≡ false
    → Alone (update p i q) h
Alone-update p h i q a m n =
    let d : (i == h) ≡ false = elim (Bool-cases (i == h)) [
      | inr x ↦ x
      | inl x ↦
          let e : i ≡ h = ground arith in
          absurd (true≢false (sym (ap (λ k. is_inside (p k)) e ∙ ap is_inside a.0) ∙ m))
    ] in
    (
      rw d a.0,
      λ j l. elim (Bool-cases (i == j)) [
        | inl x ↦ absurd (true≢false (sym l ∙ rw x n))
        | inr x ↦ a.1 j (subst (λ b. is_inside (if b then q else p j) ≡ true) x l)
      ],
    )

attempt-free :
    (i : ℕ) (s : System)
    → s.lock ≡ unlocked
    → attempt i s ≡ record { lock = held; place = update s.place i inside }
unfolding attempt test_and_set
attempt-free i s l = rw l refl

attempt-held :
    (i : ℕ) (s : System) → s.lock ≡ held → attempt i s ≡ record { lock = held; place = s.place }
unfolding attempt test_and_set
attempt-held i s l = rw l refl

attempt-Guarded : (i : ℕ) (s : System) → s.place i ≡ spinning → Guarded s → Guarded (attempt i s)
attempt-Guarded i s e (inl (l, n)) = subst Guarded (sym (attempt-free i s l)) (
    inr (
      i,
      refl,
      (
        (let d = ==_refl i in rw d refl),
        λ j m. elim (Bool-cases (i == j)) [
          | inl x ↦ ground arith
          | inr x ↦ absurd (
              true≢false
                (sym (subst (λ b. is_inside (if b then inside else s.place j) ≡ true) x m) ∙ n j))
        ],
      ),
    ))
attempt-Guarded i s e (inr (h, l, a)) = subst Guarded (sym (attempt-held i s l)) (inr (h, refl, a))

unlock_lem : spin_unlock held ≡ unlocked
unfolding spin_unlock
unlock_lem = refl

release-Guarded :
    (i : ℕ) (s : System)
    → s.place i ≡ inside
    → Guarded s
    → Guarded (record { lock = spin_unlock s.lock; place = update s.place i outside })
release-Guarded i s e (inl (l, n)) = absurd (true≢false (sym (ap is_inside e) ∙ n i))
release-Guarded i s e (inr (h, l, a)) = inl (
  ap spin_unlock l ∙ unlock_lem,
  λ j. elim (Bool-cases (i == j)) [
    | inl x ↦ rw x refl
    | inr x ↦ rw x (elim (Bool-cases (is_inside (s.place j))) [
      | inr y ↦ y
      | inl y ↦
          let p = a.1 j y in let q = a.1 i (ap is_inside e) in absurd (ground (arith, x, p, q))
    ])
  ],
)

Step-Guarded : (s t : System) → Step s t → Guarded s → Guarded t
Step-Guarded _ _ (call i s e) (inl (l, n)) = inl (l, Empty-update s.place i spinning n refl)
Step-Guarded _ _ (call i s e) (inr (h, l, a)) =
    inr (h, l, Alone-update s.place h i spinning a (ap is_inside e) refl)
Step-Guarded _ _ (try i s e) g = attempt-Guarded i s e g
Step-Guarded _ _ (release i s e) g = release-Guarded i s e g

init_lem : (l : Spinlock) → spinlock_init (some l) ≡ unlocked
unfolding spinlock_init
init_lem l = refl

Reachable-Guarded : (s : System) → Reachable s → Guarded s
Reachable-Guarded _ (initial l) = inl (init_lem l, λ j. refl)
Reachable-Guarded t (later s _ r st) = Step-Guarded s t st (Reachable-Guarded s r)

-- In every state that any number of processors reaches, in any order of their steps, at most one holds
-- the lock; and while none holds it, the next processor that goes through the loop of spin_lock gets it.
pub Reachable-exclusive :
    (s : System) (i j : ℕ)
    → Reachable s
    → (s.place i ≡ inside → s.place j ≡ inside → i ≡ j)
      × (Empty s.place → s.place i ≡ spinning → (attempt i s).place i ≡ inside)
Reachable-exclusive s i j r = go (Reachable-Guarded s r)
  where
    go :
        Guarded s
        → (s.place i ≡ inside → s.place j ≡ inside → i ≡ j)
          × (Empty s.place → s.place i ≡ spinning → (attempt i s).place i ≡ inside)
    go (inl (l, n)) = (
      λ a b. absurd (true≢false (sym (ap is_inside a) ∙ n i)),
      λ m e. ap (λ (t : System). t.place i) (attempt-free i s l) ∙ (let d = ==_refl i in rw d refl),
    )
    go (inr (h, l, a)) = (
      λ p q. sym (a.1 i (ap is_inside p)) ∙ a.1 j (ap is_inside q),
      λ m e. absurd (true≢false (sym (ap is_inside a.0) ∙ m h)),
    )
