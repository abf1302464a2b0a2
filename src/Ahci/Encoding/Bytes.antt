-- ===== src/Ahci/Encoding/Bytes.antt =====
-- Reading back the bytes that src/ahci.c writes.
use a_lightweight_os.Base.{
  ℕ, zero, suc, ◌+◌, ◌*◌, ◌/◌, ◌%◌, ◌≤◌, ◌<◌, ◌≡◌, refl, ◌∙◌, true, false, List, [], ◌∷◌, ◌==◌,
  arith, update, get_or, length,
}
use a_lightweight_os.Ahci.{put_le}
use a_lightweight_os.Ahci.Command.{put_fis}

-- A value in `n` bytes, the low one first.
abbrev pub get_le : ℕ → ℕ → (ℕ → ℕ) → ℕ
get_le zero a m = 0
get_le (suc n) a m = m a + 256 * get_le n (a + 1) m

-- How many values there are.
abbrev pub values : ℕ → ℕ
values zero = 1
values (suc n) = 256 * values n

pub get_le_ext :
    (n a : ℕ) (m m' : ℕ → ℕ)
    → ((k : ℕ) → a ≤ k → k < a + n → m k ≡ m' k)
    → get_le n a m ≡ get_le n a m'
get_le_ext zero a m m' h = refl
get_le_ext (suc n) a m m' h =
    let e = h a (omega arith) (omega arith) in
    let r = get_le_ext n (a + 1) m m' (λ k l u. h k (omega arith) (omega arith)) in omega arith

pub put_le_below : (n a v : ℕ) (m : ℕ → ℕ) (j : ℕ) → j < a → put_le n a v m j ≡ m j
unfolding put_le
put_le_below zero a v m j l = refl
put_le_below (suc n) a v m j l =
    let e : (a == j) ≡ false = ground arith in
    put_le_below n (a + 1) (v / 256) (update m a (v % 256)) j (omega arith) ∙ rw e refl

pub put_le_above : (n a v : ℕ) (m : ℕ → ℕ) (j : ℕ) → a + n ≤ j → put_le n a v m j ≡ m j
unfolding put_le
put_le_above zero a v m j l = refl
put_le_above (suc n) a v m j l =
    let e : (a == j) ≡ false = ground arith in
    put_le_above n (a + 1) (v / 256) (update m a (v % 256)) j (omega arith) ∙ rw e refl

-- A value that fits is read back.
pub get_le-put_le : (n a v : ℕ) (m : ℕ → ℕ) → v < values n → get_le n a (put_le n a v m) ≡ v
unfolding put_le
get_le-put_le zero a v m l = omega arith
get_le-put_le (suc n) a v m l =
    let t : (a == a) ≡ true = ground arith in
    let b : put_le n (a + 1) (v / 256) (update m a (v % 256)) a ≡ v % 256 =
      put_le_below n (a + 1) (v / 256) (update m a (v % 256)) a (omega arith) ∙ rw t refl in
    let r = get_le-put_le n (a + 1) (v / 256) (update m a (v % 256)) (omega arith) in omega arith

pub put_fis_below : (xs : List ℕ) (a : ℕ) (m : ℕ → ℕ) (j : ℕ) → j < a → put_fis a xs m j ≡ m j
unfolding put_fis
put_fis_below [] a m j l = refl
put_fis_below (x ∷ xs) a m j l =
    let e : (a == j) ≡ false = ground arith in
    put_fis_below xs (a + 1) (update m a x) j (omega arith) ∙ rw e refl

pub put_fis_above :
    (xs : List ℕ) (a : ℕ) (m : ℕ → ℕ) (j : ℕ) → a + length xs ≤ j → put_fis a xs m j ≡ m j
unfolding put_fis
put_fis_above [] a m j l = refl
put_fis_above (x ∷ xs) a m j l =
    let e : (a == j) ≡ false = ground arith in
    put_fis_above xs (a + 1) (update m a x) j (omega arith) ∙ rw e refl

pub put_fis_at :
    (xs : List ℕ) (a : ℕ) (m : ℕ → ℕ) (k j : ℕ)
    → k < length xs
    → j ≡ a + k
    → put_fis a xs m j ≡ get_or xs k 0
unfolding put_fis
put_fis_at [] a m k j l e = absurd (omega arith)
put_fis_at (x ∷ xs) a m zero j l e =
    let t : (a == j) ≡ true = ground arith in
    put_fis_below xs (a + 1) (update m a x) j (omega arith) ∙ rw t refl
put_fis_at (x ∷ xs) a m (suc k) j l e =
    put_fis_at xs (a + 1) (update m a x) k j (omega arith) (omega arith)
