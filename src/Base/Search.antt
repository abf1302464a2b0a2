-- ===== src/Base/Search.antt =====
-- The search loops of the sources: `for (i = 0; i < n; i++) if (test(i)) ...` with an exit at the first
-- hit.
use Prim.Native.Nat.{ℕ, zero, suc, ◌+◌, ◌<◌, ◌≤◌}
use mathlib.Core.Path.{◌≡◌, refl, ap, ◌∙◌, subst}
use mathlib.Core.Logic.{inl, inr}
use mathlib.Core.Bool.{Bool, true, false}
use mathlib.Core.Option.{Option, none, some}
use native.Mathlib.Omega.{arith}
use a_lightweight_os.Base.Tests.{◌==◌, ltb, if◌then◌else◌, Bool-cases}

-- The first index from `i` on, among `n` of them, that passes the test.
unfoldable pub find_first : (ℕ → Bool) → ℕ → ℕ → Option ℕ
find_first test zero i = none
find_first test (suc n) i = let rest = find_first test n (i + 1) in if test i then some i else rest

abbrev pub First : (ℕ → Bool) → ℕ → ℕ → Option ℕ → Type 0
First test n i none = (k : ℕ) → i ≤ k → k < i + n → test k ≡ false
First test n i (some j) =
    (i ≤ j) × (j < i + n) × (test j ≡ true) × ((k : ℕ) → i ≤ k → k < j → test k ≡ false)

First-skip :
    (test : ℕ → Bool) (n i : ℕ) (o : Option ℕ)
    → test i ≡ false
    → First test n (i + 1) o
    → First test (suc n) i o
First-skip test n i none e f = λ k a b. elim (Bool-cases (i == k)) [
  | inl q ↦ subst (λ t. test t ≡ false) (let w : i ≡ k = ground arith in w) e
  | inr q ↦ f k (ground arith) (omega arith)
]
First-skip test n i (some j) e f = (
  omega (arith, f.0),
  omega (arith, f.1),
  f.2,
  λ k a b. elim (Bool-cases (i == k)) [
    | inl q ↦ subst (λ t. test t ≡ false) (let w : i ≡ k = ground arith in w) e
    | inr q ↦ f.3 k (ground arith) b
  ],
)

pub find_first-First : (test : ℕ → Bool) (n i : ℕ) → First test n i (find_first test n i)
unfolding find_first
find_first-First test zero i = λ k a b. absurd (omega arith)
find_first-First test (suc n) i = elim (Bool-cases (test i)) [
  | inl e ↦ rw e (ground arith, omega arith, e, λ k a b. absurd (omega arith))
  | inr e ↦
      rw e (First-skip test n i (find_first test n (i + 1)) e (find_first-First test n (i + 1)))
]

-- The search depends on the answers alone.
pub find_first-ext :
    (t u : ℕ → Bool) (n i : ℕ)
    → ((k : ℕ) → k < i + n → t k ≡ u k)
    → find_first t n i ≡ find_first u n i
unfolding find_first
find_first-ext t u zero i h = refl
find_first-ext t u (suc n) i h =
    rw (h i (omega arith)) (
      ap (λ r. if u i then some i else r) (find_first-ext t u n (i + 1) (λ k l. h k (omega arith))))

-- A further index at the end is looked at last.
abbrev pub or_else : Option ℕ → Option ℕ → Option ℕ
or_else none o = o
or_else (some j) o = some j

pub find_first-suc :
    (t : ℕ → Bool) (n i : ℕ)
    → find_first t (suc n) i ≡ or_else (find_first t n i) (if t (i + n) then some (i + n) else none)
unfolding find_first
find_first-suc t zero i = let z : i + 0 ≡ i = omega arith in rw z refl
find_first-suc t (suc n) i =
    let z : i + suc n ≡ i + 1 + n = omega arith in
    elim (Bool-cases (t i)) [ inl e ↦ rw e refl | inr e ↦ rw (e, z) (find_first-suc t n (i + 1)) ]

-- What the search finds is the only index of which `First` holds.
pub First-unique : (t : ℕ → Bool) (n i : ℕ) (o p : Option ℕ) → First t n i o → First t n i p → o ≡ p
First-unique t n i none none f g = refl
First-unique t n i none (some k) f g = absurd (let e = f k g.0 g.1 in let h = g.2 in cc)
First-unique t n i (some j) none f g = absurd (let e = g j f.0 f.1 in let h = f.2 in cc)
First-unique t n i (some j) (some k) f g = elim (Bool-cases (ltb j k)) [
  | inl l ↦ absurd (let e = g.3 j f.0 (ground arith) in let h = f.2 in cc)
  | inr l ↦ elim (Bool-cases (ltb k j)) [
    | inl m ↦ absurd (let e = f.3 k g.0 (ground arith) in let h = g.2 in cc)
    | inr m ↦ ap some (let w : j ≡ k = ground arith in w)
  ]
]

-- A search in two parts.
pub find_first-add :
    (t : ℕ → Bool) (m n i : ℕ)
    → find_first t (m + n) i ≡ or_else (find_first t m i) (find_first t n (i + m))
unfolding find_first
find_first-add t zero n i =
    let z : zero + n ≡ n = omega arith in let w : i + zero ≡ i = omega arith in rw (z, w) refl
find_first-add t (suc m) n i =
    let z : suc m + n ≡ suc (m + n) = omega arith in
    let w : i + suc m ≡ i + 1 + m = omega arith in
    ap (λ k. find_first t k i) z ∙ elim (Bool-cases (t i)) [
      | inl e ↦ rw e refl
      | inr e ↦ rw (e, w) (find_first-add t m n (i + 1))
    ]
