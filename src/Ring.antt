-- ===== src/Ring.antt =====
-- The ring buffers of src/keyboard.c, src/mouse.c and src/usb.c: `n` slots, one of them always empty,
-- with the indices that each file keeps. A mask by n - 1 is written as a remainder.
pub mod Contents
use a_lightweight_os.Base.{
  ℕ, ◌+◌, ◌%◌, Bool, true, false, Option, none, some, ◌==◌, if◌then◌else◌, update,
}

pub record Ring {ℓ} (A : Type ℓ) : Type ℓ where
  pub buf : ℕ → A
  pub head : ℕ
  pub tail : ℕ

module _ {ℓ} {A : Type ℓ} (n : ℕ) where
  -- A push into a full ring changes nothing.
  unfoldable pub push : A → Ring A → Ring A × Bool
  push x r =
      let next = (r.tail + 1) % n in
      if next == r.head
      then (r, false)
      else (record r { buf = update r.buf r.tail x; tail = next }, true)

  unfoldable pub pop : Ring A → Option (A × Ring A)
  pop r =
      if r.head == r.tail then none else some (r.buf r.head, record r { head = (r.head + 1) % n })
