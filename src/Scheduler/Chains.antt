-- ===== src/Scheduler/Chains.antt =====
-- The ready queue of src/scheduler.c as a list of slots: chains of `next` pointers.
use a_lightweight_os.Base.{
  ℕ, zero, suc, ◌+◌, ◌<◌, ◌≤◌, ◌≡◌, refl, sym, inl, inr, Bool, true, false, ◌||◌, Option, none,
  some, List, [], ◌∷◌, ◌++◌, ◌==◌, if◌then◌else◌, update, length, arith, Bool-cases, subst,
}
use a_lightweight_os.Scheduler.{last_task}

-- The pointers lead from `p` through the list to NULL.
abbrev pub Chain : (ℕ → Option ℕ) → Option ℕ → List ℕ → Type 0
Chain next p [] = p ≡ none
Chain next p (x ∷ xs) = (p ≡ some x) × Chain next (next x) xs

-- The slots rise along the list, from `lo` on and below `hi`.
abbrev pub Rising : ℕ → ℕ → List ℕ → Type 0
Rising lo hi [] = Unit {0}
Rising lo hi (x ∷ xs) = (lo ≤ x) × (x < hi) × Rising (x + 1) hi xs

abbrev pub elem : ℕ → List ℕ → Bool
elem i [] = false
elem i (x ∷ xs) = x == i || elem i xs

abbrev pub without : ℕ → List ℕ → List ℕ
without i [] = []
without i (x ∷ xs) = if x == i then xs else x ∷ without i xs

pub elem_bounds :
    (lo hi : ℕ) (xs : List ℕ) (i : ℕ) → Rising lo hi xs → elem i xs ≡ true → (lo ≤ i) × (i < hi)
elem_bounds lo hi [] i r e = absurd (ground arith)
elem_bounds lo hi (x ∷ xs) i r e = elim (Bool-cases (x == i)) [
  | inl q ↦ ground arith
  | inr q ↦ ground (arith, elem_bounds (x + 1) hi xs i r.2)
]

pub Rising-weaken :
    (lo lo' hi hi' : ℕ) (xs : List ℕ) → lo' ≤ lo → hi ≤ hi' → Rising lo hi xs → Rising lo' hi' xs
Rising-weaken lo lo' hi hi' [] l h r = tt
Rising-weaken lo lo' hi hi' (x ∷ xs) l h r =
    (omega arith, omega arith, Rising-weaken (x + 1) (x + 1) hi hi' xs (omega arith) h r.2)

pub length-Rising : (lo hi : ℕ) (xs : List ℕ) → lo ≤ hi → Rising lo hi xs → length xs + lo ≤ hi
length-Rising lo hi [] l r = omega arith
length-Rising lo hi (x ∷ xs) l r = omega (arith, length-Rising (x + 1) hi xs (omega arith) r.2)

pub Rising-append :
    (lo hi : ℕ) (xs : List ℕ) → lo ≤ hi → Rising lo hi xs → Rising lo (hi + 1) (xs ++ hi ∷ [])
Rising-append lo hi [] l r = (l, omega arith, tt)
Rising-append lo hi (x ∷ xs) l r = (r.0, omega arith, Rising-append (x + 1) hi xs (omega arith) r.2)

pub Rising-without :
    (lo hi : ℕ) (xs : List ℕ) (i : ℕ) → Rising lo hi xs → Rising lo hi (without i xs)
Rising-without lo hi [] i r = tt
Rising-without lo hi (x ∷ xs) i r = elim (Bool-cases (x == i)) [
  | inl q ↦ rw q (Rising-weaken (x + 1) lo hi hi xs (omega arith) (omega arith) r.2)
  | inr q ↦ rw q (r.0, r.1, Rising-without (x + 1) hi xs i r.2)
]

pub elem-append : (i y : ℕ) (xs : List ℕ) → elem i (xs ++ y ∷ []) ≡ (elem i xs || y == i)
elem-append i y [] = ground arith
elem-append i y (x ∷ xs) = ground (arith, elem-append i y xs)

pub elem-without :
    (lo hi : ℕ) (xs : List ℕ) (i j : ℕ)
    → Rising lo hi xs
    → elem j (without i xs) ≡ (if i == j then false else elem j xs)
elem-without lo hi [] i j r = ground arith
elem-without lo hi (x ∷ xs) i j r = elim (Bool-cases (x == i)) [
  | inl q ↦ ground (arith, elem_bounds (x + 1) hi xs j r.2, Bool-cases (elem j xs))
  | inr q ↦ ground (arith, elem-without (x + 1) hi xs i j r.2)
]

-- A pointer outside the list does not matter.
pub Chain-agree :
    (f g : ℕ → Option ℕ) (p : Option ℕ) (xs : List ℕ)
    → ((i : ℕ) → elem i xs ≡ true → f i ≡ g i)
    → Chain f p xs
    → Chain g p xs
Chain-agree f g p [] same c = c
Chain-agree f g p (x ∷ xs) same c = (
  c.0,
  subst (λ q. Chain g q xs) (same x (ground arith))
      (Chain-agree f g (f x) xs (λ i e. same i (ground arith)) c.1),
)

tail_of :
    (next : ℕ → Option ℕ) (h x : ℕ) (xs : List ℕ)
    → Chain next (next h) (x ∷ xs)
    → Chain next (next x) xs
tail_of next h x xs c = c.1

last-end : (next : ℕ → Option ℕ) (fuel h : ℕ) → next h ≡ none → last_task next fuel h ≡ h
unfolding last_task
last-end next zero h e = refl
last-end next (suc fuel) h e = rw (e, last_task)

last-step :
    (next : ℕ → Option ℕ) (fuel h x : ℕ)
    → next h ≡ some x
    → last_task next (suc fuel) h ≡ last_task next fuel x
unfolding last_task
last-step next fuel h x e = rw (e, last_task)

-- The walk to the last task ends inside the list.
pub last-bounds :
    (next : ℕ → Option ℕ) (hi fuel h : ℕ) (xs : List ℕ)
    → Chain next (next h) xs
    → Rising (h + 1) hi xs
    → length xs ≤ fuel
    → h ≤ last_task next fuel h
unfolding last_task
last-bounds next hi zero h xs c r l = omega arith
last-bounds next hi (suc fuel) h [] c r l = rw (last-end next (suc fuel) h c) (omega arith)
last-bounds next hi (suc fuel) h (x ∷ xs) c r l =
    rw (last-step next fuel h x c.0)
      (omega (arith, last-bounds next hi fuel x xs (tail_of next h x xs c) r.2 (omega arith)))

-- Pointing the last task at a fresh slot appends that slot.
pub Chain-append :
    (next : ℕ → Option ℕ) (slot fuel h : ℕ) (xs : List ℕ)
    → Chain next (next h) xs
    → Rising (h + 1) slot xs
    → h < slot
    → length xs ≤ fuel
    → next slot ≡ none
    → Chain (update next (last_task next fuel h) (some slot)) (some h) (h ∷ xs ++ slot ∷ [])
Chain-append next slot fuel h [] c r b l z =
    rw (last-end next fuel h c) (refl, (ground arith, ground arith))
Chain-append next slot zero h (x ∷ xs) c r b l z = absurd (omega arith)
Chain-append next slot (suc fuel) h (x ∷ xs) c r b l z =
    subst (λ k. Chain (update next k (some slot)) (some h) (h ∷ x ∷ xs ++ slot ∷ []))
      (sym (last-step next fuel h x c.0))
      (
        refl,
        subst (λ q. Chain (update next (last_task next fuel x) (some slot)) q (x ∷ xs ++ slot ∷ []))
            (sym (
              unchanged
                (last-bounds next slot fuel x xs (tail_of next h x xs c) r.2 (omega arith))))
            (Chain-append next slot fuel x xs (tail_of next h x xs c) r.2 (omega arith)
              (omega arith) z),
      )
  where
    unchanged :
        x ≤ last_task next fuel x → update next (last_task next fuel x) (some slot) h ≡ some x
    unchanged l' = ground (arith, c.0)
