-- ===== src/Base/Arrays.antt =====
-- C arrays as functions of the index, lists measured by native numbers, and counting.
use Prim.Native.Nat.{ℕ, zero, suc, ◌+◌, ◌-◌, ◌<◌, ◌≤◌}
use mathlib.Core.Path.{◌≡◌, refl, ap, ◌∙◌}
use mathlib.Core.Logic.{◌≢◌, inl, inr}
use mathlib.Core.Bool.{Bool, true, false, ◌&&◌}
use mathlib.Core.List.{List, [], ◌∷◌, ◌++◌}
use native.Mathlib.Omega.{arith}
use a_lightweight_os.Base.Tests.{◌==◌, leb, ltb, if◌then◌else◌, Bool-cases}

-- `a[i] = v`. What an index out of range means is said where an array is used.
abbrev pub update {ℓ} : {A : Type ℓ} → (ℕ → A) → ℕ → A → ℕ → A
update a i v j = if i == j then v else a j

module _ {ℓ} {A : Type ℓ} where
  abbrev pub length : List A → ℕ
  length [] = 0
  length (x ∷ xs) = suc (length xs)

  abbrev pub get_or : List A → ℕ → A → A
  get_or [] i d = d
  get_or (x ∷ xs) zero d = x
  get_or (x ∷ xs) (suc i) d = get_or xs i d

  abbrev pub take : ℕ → List A → List A
  take zero xs = []
  take (suc n) [] = []
  take (suc n) (x ∷ xs) = x ∷ take n xs

  -- `for (i = 0; i < n; i++) s = body i s`
  abbrev pub for_up : ℕ → (ℕ → A → A) → A → A
  for_up zero body s = s
  for_up (suc n) body s = body n (for_up n body s)

  pub length-append : (xs ys : List A) → length (xs ++ ys) ≡ length xs + length ys
  length-append [] ys = omega arith
  length-append (x ∷ xs) ys = omega (arith, length-append xs ys)

-- How many indices below `n` pass the test.
unfoldable pub count : (ℕ → Bool) → ℕ → ℕ
count p zero = 0
count p (suc n) = count p n + (if p n then 1 else 0)

pub count-ext : (p q : ℕ → Bool) (n : ℕ) → ((i : ℕ) → i < n → p i ≡ q i) → count p n ≡ count q n
unfolding count
count-ext p q zero h = refl
count-ext p q (suc n) h =
    ground (arith, count-ext p q n (λ i l. h i (omega arith)), h n (omega arith))

-- Turning one index on adds one.
pub count-turn_on :
    (p q : ℕ → Bool) (n k : ℕ)
    → k < n
    → p k ≡ false
    → q k ≡ true
    → ((i : ℕ) → i ≢ k → p i ≡ q i)
    → count q n ≡ count p n + 1
unfolding count
count-turn_on p q zero k l off on same = absurd (omega arith)
count-turn_on p q (suc n) k l off on same = elim (Bool-cases (n == k)) [
  | inl e ↦
      let e' : n ≡ k = ground arith in
      ground (arith, ap p e', ap q e', count-ext p q n (λ i l'. same i (omega arith)))
  | inr e ↦ ground (arith, count-turn_on p q n k (ground arith) off on same, same n (ground arith))
]

pub count-le : (p : ℕ → Bool) (n : ℕ) → count p n ≤ n
unfolding count
count-le p zero = omega arith
count-le p (suc n) = ground (arith, count-le p n)

pub count-pos : (p : ℕ → Bool) (n k : ℕ) → k < n → p k ≡ true → 0 < count p n
unfolding count
count-pos p zero k l on = absurd (omega arith)
count-pos p (suc n) k l on = elim (Bool-cases (n == k)) [
  | inl e ↦ ground (arith, ap p (let e' : n ≡ k = ground arith in e'))
  | inr e ↦ ground (arith, count-pos p n k (ground arith) on)
]

pub count-none : (p : ℕ → Bool) (n : ℕ) → ((i : ℕ) → i < n → p i ≡ false) → count p n ≡ 0
unfolding count
count-none p zero h = refl
count-none p (suc n) h =
    ground (arith, count-none p n (λ i l. h i (omega arith)), h n (omega arith))

-- A loop that writes each place of an array once.
pub for_up-fill :
    {A : Type 0} (f : ℕ → A → A) (n : ℕ) (a : ℕ → A) (j : ℕ)
    → for_up n (λ i s. update s i (f i (s i))) a j ≡ (if ltb j n then f j (a j) else a j)
for_up-fill f zero a j = let e : ltb j 0 ≡ false = ground arith in rw e refl
for_up-fill f (suc n) a j = elim (Bool-cases (n == j)) [
  | inl e ↦
      let t : ltb j (suc n) ≡ true = ground arith in
      let u : ltb n n ≡ false = ground arith in
      let z : n ≡ j = ground arith in
      rw (e, t) (ap (f n) (for_up-fill f n a n ∙ rw u refl) ∙ ap (λ k. f k (a k)) z)
  | inr e ↦ let t : ltb j (suc n) ≡ ltb j n = ground arith in rw (e, t) (for_up-fill f n a j)
]

-- A loop that copies `n` values to the places from `o` on.
pub for_up-copy :
    {A : Type 0} (p : ℕ → A) (o n : ℕ) (b : ℕ → A) (j : ℕ)
    → for_up n (λ i f. update f (o + i) (p i)) b j
      ≡ (if leb o j && ltb j (o + n) then p (j - o) else b j)
for_up-copy p o zero b j = let e : (leb o j && ltb j (o + 0)) ≡ false = ground arith in rw e refl
for_up-copy p o (suc n) b j = elim (Bool-cases (o + n == j)) [
  | inl e ↦
      let t : (leb o j && ltb j (o + suc n)) ≡ true = ground arith in
      let z : n ≡ j - o = ground arith in rw (e, t) (ap p z)
  | inr e ↦
      let t : (leb o j && ltb j (o + suc n)) ≡ (leb o j && ltb j (o + n)) = ground arith in
      rw (e, t) (for_up-copy p o n b j)
]
