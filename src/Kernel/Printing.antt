-- ===== src/Kernel/Printing.antt =====
-- kprintf of src/kernel.c. The format is the list of its bytes before the 0, and `args i` the bytes of
-- the i-th argument where it is a string; the values of the others are not used. The result is what
-- goes to the serial port and the number that is returned, or `none` where the format is read behind
-- its end.
use a_lightweight_os.Base.{
  ℕ, ◌+◌, Bool, ◌||◌, Option, none, some, List, [], ◌∷◌, ◌==◌, if◌then◌else◌, length,
}

-- What a conversion adds to the count, for the next argument.
pub width : ℕ → List ℕ → ℕ
width c arg =
    if c == 100
    then 10
    else if (c == 120) || (c == 88)
    then 16
    else if c == 115
    then length arg
    else if c == 112
    then 18
    else if c == 117
    then 20
    else if c == 37
    then 1
    else 0

-- Whether a conversion takes an argument.
pub takes : ℕ → Bool
takes c = (c == 100) || (c == 120) || (c == 88) || (c == 115) || (c == 112) || (c == 117)

-- Some bytes and a number before the rest.
pub before : List ℕ → ℕ → Option (List ℕ × ℕ) → Option (List ℕ × ℕ)
before cs n none = none
before [] n (some (out, written)) = some (out, n + written)
before (c ∷ cs) n (some (out, written)) = some (c ∷ out, n + written)

pub print_from : List ℕ → (ℕ → List ℕ) → ℕ → Option (List ℕ × ℕ)
unfolding width takes before
print_from [] args i = some ([], 0)
print_from (c ∷ []) args i = if c == 37 then none else some (c ∷ [], 1)
print_from (c ∷ d ∷ ds) args i =
    let converted = print_from ds args (if takes d then i + 1 else i) in
    let rest = print_from (d ∷ ds) args i in
    if c == 37 then before [] (width d (args i)) converted else before (c ∷ []) 1 rest

unfoldable pub kprintf : List ℕ → (ℕ → List ℕ) → Option (List ℕ × ℕ)
unfolding print_from
kprintf fmt args = print_from fmt args 0
