-- ===== src/Base/Words.antt =====
-- Machine words as native numbers, and the bits of a word.
use Prim.Native.Nat.{ℕ, zero, suc, ◌+◌, ◌*◌, ◌/◌, ◌%◌, ◌^◌}
use mathlib.Core.Path.{◌≡◌, refl}
use mathlib.Core.Bool.{Bool, true, false}
use native.Mathlib.Omega.{arith}
use a_lightweight_os.Base.Tests.{◌==◌, if◌then◌else◌}

-- A value stored in an unsigned integer of the width.
abbrev pub u8 : ℕ → ℕ
u8 n = n % 256

abbrev pub u16 : ℕ → ℕ
u16 n = n % 65536

abbrev pub u32 : ℕ → ℕ
u32 n = n % 2 ^ 32

abbrev pub u64 : ℕ → ℕ
u64 n = n % 2 ^ 64

-- `(w & (1 << b)) != 0`
unfoldable pub test_bit : ℕ → ℕ → Bool
test_bit w zero = w % 2 == 1
test_bit w (suc b) = test_bit (w / 2) b

-- `w | (1 << b)`
unfoldable pub set_bit : ℕ → ℕ → ℕ
set_bit w zero = w / 2 * 2 + 1
set_bit w (suc b) = set_bit (w / 2) b * 2 + w % 2

-- `w & ~(1 << b)`
unfoldable pub clear_bit : ℕ → ℕ → ℕ
clear_bit w zero = w / 2 * 2
clear_bit w (suc b) = clear_bit (w / 2) b * 2 + w % 2

pub test_bit-set_bit :
    (w b c : ℕ) → test_bit (set_bit w b) c ≡ (if b == c then true else test_bit w c)
unfolding test_bit set_bit
test_bit-set_bit w zero zero = ground arith
test_bit-set_bit w zero (suc c) = ground arith
test_bit-set_bit w (suc b) zero = ground arith
test_bit-set_bit w (suc b) (suc c) =
    let half : (set_bit (w / 2) b * 2 + w % 2) / 2 ≡ set_bit (w / 2) b = omega arith in
    rw half (ground (arith, test_bit-set_bit (w / 2) b c))

pub test_bit-clear_bit :
    (w b c : ℕ) → test_bit (clear_bit w b) c ≡ (if b == c then false else test_bit w c)
unfolding test_bit clear_bit
test_bit-clear_bit w zero zero = ground arith
test_bit-clear_bit w zero (suc c) = ground arith
test_bit-clear_bit w (suc b) zero = ground arith
test_bit-clear_bit w (suc b) (suc c) =
    let half : (clear_bit (w / 2) b * 2 + w % 2) / 2 ≡ clear_bit (w / 2) b = omega arith in
    rw half (ground (arith, test_bit-clear_bit (w / 2) b c))

pub test_bit-zero : (b : ℕ) → test_bit 0 b ≡ false
unfolding test_bit
test_bit-zero zero = refl
test_bit-zero (suc b) = test_bit-zero b
