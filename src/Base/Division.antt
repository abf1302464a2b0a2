-- ===== src/Base/Division.antt =====
-- Quotient and remainder by a variable.
use Prim.Native.Nat.{ℕ, ◌+◌, ◌*◌, ◌/◌, ◌%◌, ◌<◌}
use mathlib.Core.Path.{◌≡◌, ap, ◌∙◌, sym}
use native.Mathlib.Omega.{arith}
use native.Mathlib.Nat.{mul-add-div_right, div-eq_of_lt, div-add-mod', mod-lt}

pub div_of : (c q r : ℕ) → r < c → (q * c + r) / c ≡ q
div_of c q r l =
    mul-add-div_right (let p : 0 < c = omega arith in p) q r ∙ omega (arith, div-eq_of_lt l)

pub mod_of : (c q r : ℕ) → r < c → (q * c + r) % c ≡ r
mod_of c q r l =
    let e = div-add-mod' (q * c + r) c in
    let d = ap (λ t. t * c) (div_of c q r l) in omega (arith, e, d)

-- A number by its quotient and its remainder.
pub split_by : (c n : ℕ) → 0 < c → (n ≡ n / c * c + n % c) × (n % c < c)
split_by c n p = (sym (div-add-mod' n c), mod-lt n p)
