-- ===== src/Keyboard/Typing.antt =====
-- What one poll of the PS/2 port in src/keyboard.c puts into the key queue.
use a_lightweight_os.Base.{
  ℕ, zero, suc, ◌+◌, ◌%◌, ◌≡◌, refl, Bool, true, false, not, ◌&&◌, ◌||◌, List, [], ◌∷◌, ◌++◌, ltb,
  ◌==◌, if◌then◌else◌, length, test_bit, get_or, subst, codes,
}
use a_lightweight_os.Ring.Contents.{IsValid, contents, push_refines}
use a_lightweight_os.Keyboard.{Keyboard, queue_size, queue_char, translate, poll}

abbrev pub held : Keyboard → List ℕ
held k = contents queue_size k.queue

-- What is held after a character: it goes to the end, or is lost if 255 are held.
abbrev pub with_char : List ℕ → ℕ → List ℕ
with_char xs c =
    if c == 0 then xs else if ltb (length xs + 1) queue_size then xs ++ (c ∷ []) else xs

-- The characters of the keys by their scancodes, plain and with shift; 0 for a key that types nothing.
-- 8, 9 and 10 are backspace, tab and enter, and the lone star is that of the number pad.
abbrev pub layout : Bool → List ℕ
layout false =
    0 ∷ 0 ∷ codes "1234567890-="
    ++ 8 ∷ 9 ∷ codes "qwertyuiop[]"
    ++ 10 ∷ 0 ∷ codes "asdfghjkl;'`"
    ++ 0 ∷ codes "\\zxcvbnm,./"
    ++ 0 ∷ codes "*"
    ++ 0 ∷ codes " "
layout true =
    0 ∷ 0 ∷ codes "!@#$%^&*()_+"
    ++ 8 ∷ 9 ∷ codes "QWERTYUIOP{}"
    ++ 10 ∷ 0 ∷ codes "ASDFGHJKL:\"~"
    ++ 0 ∷ codes "|ZXCVBNM<>?"
    ++ 0 ∷ codes "*"
    ++ 0 ∷ codes " "

get_or-end : (xs : List ℕ) (i : ℕ) → get_or (xs ++ (0 ∷ [])) i 0 ≡ get_or xs i 0
get_or-end [] zero = refl
get_or-end [] (suc i) = refl
get_or-end (x ∷ xs) zero = refl
get_or-end (x ∷ xs) (suc i) = get_or-end xs i

translate-layout : (shift : Bool) (code : ℕ) → translate shift code ≡ get_or (layout shift) code 0
unfolding translate
translate-layout true code = get_or-end (layout true) code
translate-layout false code = get_or-end (layout false) code

-- The character that one poll types, by the shift state before it; 0 for none.
abbrev pub typed_by : ℕ → ℕ → Bool → ℕ
typed_by status scancode shift =
    if test_bit status 0
      && not (test_bit status 5)
      && not (test_bit scancode 7)
      && not (scancode % 128 == 0x2A)
      && not (scancode % 128 == 0x36)
    then get_or (layout shift) (scancode % 128) 0
    else 0

-- The shift state after one poll: pressing or releasing either shift key sets it.
abbrev pub shift_after : ℕ → ℕ → Bool → Bool
shift_after status scancode shift =
    if test_bit status 0
      && not (test_bit status 5)
      && (scancode % 128 == 0x2A || scancode % 128 == 0x36)
    then not (test_bit scancode 7)
    else shift

-- The keyboard holds the list, with the shift state.
pub record Holds (k : Keyboard) (xs : List ℕ) (shift : Bool) : Type 0 where
  pub valid : IsValid queue_size k.queue
  pub keys : held k ≡ xs
  pub shifted : k.shift_down ≡ shift

pub queue_char-Holds :
    (c : ℕ) (k : Keyboard)
    → IsValid queue_size k.queue
    → Holds (if c == 0 then k else queue_char c k) (with_char (held k) c) k.shift_down
unfolding queue_char
queue_char-Holds c k v = go (c == 0)
  where
    go :
        (b : Bool)
        → Holds
            (if b then k else queue_char c k)
            (if b
              then held k
              else if ltb (length (held k) + 1) queue_size
              then held k ++ (c ∷ [])
              else held k)
            k.shift_down
    go true = record { valid = v; keys = refl; shifted = refl }
    go false =
        let done = push_refines queue_size c k.queue v in
        record { valid = done.0; keys = done.2; shifted = refl }

poll-typed :
    (status scancode : ℕ) (k : Keyboard)
    → IsValid queue_size k.queue
    → Holds
        (poll status scancode k)
        (with_char (held k) (
          if test_bit status 0
            && not (test_bit status 5)
            && not (test_bit scancode 7)
            && not (scancode % 128 == 0x2A)
            && not (scancode % 128 == 0x36)
          then translate k.shift_down (scancode % 128)
          else 0))
        (shift_after status scancode k.shift_down)
unfolding poll
poll-typed status scancode k v =
    go (test_bit status 0) (test_bit status 5) (test_bit scancode 7) (scancode % 128 == 0x2A)
      (scancode % 128 == 0x36)
  where
    chr : ℕ
    chr = translate k.shift_down (scancode % 128)

    same : Holds k (held k) k.shift_down
    same = record { valid = v; keys = refl; shifted = refl }

    shift_to : (b : Bool) → Holds (record k { shift_down = b }) (held k) b
    shift_to b = record { valid = v; keys = refl; shifted = refl }

    go :
        (ready aux released left right : Bool)
        → Holds
            (if not ready || aux
              then k
              else if left || right
              then record k { shift_down = not released }
              else if released
              then k
              else if chr == 0
              then k
              else queue_char chr k)
            (with_char
              (held k)
              (if ready && not aux && not released && not left && not right then chr else 0))
            (if ready && not aux && (left || right) then not released else k.shift_down)
    go false aux released left right = same
    go true true released left right = same
    go true false true true right = shift_to false
    go true false false true right = shift_to true
    go true false true false true = shift_to false
    go true false false false true = shift_to true
    go true false true false false = same
    go true false false false false = queue_char-Holds chr k v

-- A poll of the PS/2 port appends the character that it types, and follows the shift keys.
pub poll-Holds :
    (status scancode : ℕ) (k : Keyboard)
    → IsValid queue_size k.queue
    → Holds
        (poll status scancode k)
        (with_char (held k) (typed_by status scancode k.shift_down))
        (shift_after status scancode k.shift_down)
poll-Holds status scancode k v =
    subst
      (λ c.
        Holds (poll status scancode k)
          (with_char (held k) (
            if test_bit status 0
              && not (test_bit status 5)
              && not (test_bit scancode 7)
              && not (scancode % 128 == 0x2A)
              && not (scancode % 128 == 0x36)
            then c
            else 0))
          (shift_after status scancode k.shift_down))
      (translate-layout k.shift_down (scancode % 128)) (poll-typed status scancode k v)
