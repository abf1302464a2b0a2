-- ===== src/Keyboard/Queue.antt =====
-- Reading from the key queue of src/keyboard.c, which polls both keyboards.
use a_lightweight_os.Base.{
  ℕ, ◌≡◌, refl, ◌∙◌, Bool, true, false, ◌&&◌, ◌||◌, Option, none, some, List, [], ◌∷◌, ◌==◌,
  if◌then◌else◌, ap, subst,
}
use a_lightweight_os.Ring.{Ring, pop}
use a_lightweight_os.Ring.Contents.{IsValid, contents, Popped, pop_refines}
use a_lightweight_os.Usb.{
  Usb, has_type, is_keyboard, has_keyboard, get_keyboard_char, dequeue_keyboard_char,
  keyboard_queue_size,
}
use a_lightweight_os.Keyboard.{Keyboard, queue_size, queue_char, usb_poll, poll, read_char}
use a_lightweight_os.Keyboard.Typing.{
  held, with_char, typed_by, shift_after, Holds, queue_char-Holds, poll-Holds,
}

-- Whether one of the four slots has an attached keyboard.
abbrev pub keyboard_attached : Usb → Bool
keyboard_attached u =
    let at : ℕ → Bool = λ i. (u.hid_devices i).attached && is_keyboard (u.hid_devices i).type in
    at 0 || (at 1 || (at 2 || at 3))

-- The characters that wait in the queue of the USB keyboard.
abbrev pub waiting : Usb → List ℕ
waiting u = contents keyboard_queue_size u.keyboard_buffer

abbrev pub first : List ℕ → ℕ
first [] = 0
first (x ∷ xs) = x

abbrev pub others : List ℕ → List ℕ
others [] = []
others (x ∷ xs) = xs

-- What one poll takes from the USB keyboard: its oldest character, or 0; and what it leaves.
abbrev pub usb_key : Usb → ℕ
usb_key u = if keyboard_attached u then first (waiting u) else 0

abbrev pub usb_left : Usb → List ℕ
usb_left u = if keyboard_attached u then others (waiting u) else waiting u

or_false : (a : Bool) → (a || false) ≡ a
or_false true = refl
or_false false = refl

has_keyboard-attached : (u : Usb) → has_keyboard u ≡ keyboard_attached u
unfolding has_keyboard has_type
has_keyboard-attached u =
    let at : ℕ → Bool = λ i. (u.hid_devices i).attached && is_keyboard (u.hid_devices i).type in
    ap (λ b. at 0 || (at 1 || (at 2 || b))) (or_false (at 3))

-- A poll of the USB keyboard appends the oldest character that waits there, if there is room.
usb_poll-held :
    (k : Keyboard) (u : Usb)
    → IsValid queue_size k.queue
    → IsValid keyboard_queue_size u.keyboard_buffer
    → let r = usb_poll k u in
      IsValid queue_size r.0.queue
      × (held r.0 ≡ with_char (held k) (usb_key u))
      × (waiting r.1 ≡ usb_left u)
unfolding usb_poll get_keyboard_char dequeue_keyboard_char
usb_poll-held k u v w = rw (has_keyboard-attached u) (
    go (keyboard_attached u) (waiting u) refl (pop keyboard_queue_size u.keyboard_buffer)
      (pop_refines keyboard_queue_size u.keyboard_buffer w))
  where
    go :
        (b : Bool) (xs : List ℕ)
        → waiting u ≡ xs
        → (o : Option (ℕ × Ring ℕ)) → Popped keyboard_queue_size u.keyboard_buffer xs o
        → let r =
            if◌then◌else◌ {A = Keyboard × Usb} b
              (elim (elim o as (λ _. Option (ℕ × Usb)) [
                | some (c, q) ↦ some (c, record u { keyboard_buffer = q })
                | none ↦ none
              ])
                as (λ _. Keyboard × Usb) [
                  | some (c, u') ↦ (if c == 0 then k else queue_char c k, u')
                  | none ↦ (k, u)
                ])
              (k, u) in
          IsValid queue_size r.0.queue
          × (held r.0 ≡ with_char (held k) (if b then first xs else 0))
          × (waiting r.1 ≡ (if b then others xs else xs))
    go false xs h o p = (v, refl, h)
    go true [] h o p = rw p (v, refl, h)
    go true (x ∷ xs) h o (q, e, i, c) = let d = queue_char-Holds x k v in rw e (d.valid, d.keys, c)

-- What reading takes from the keys held: the oldest, or 0 if there is none.
abbrev pub Reads : List ℕ → ℕ → List ℕ → Type 0
Reads [] c rest = (c ≡ 0) × (rest ≡ [])
Reads (x ∷ xs) c rest = (c ≡ x) × (rest ≡ xs)

read_from :
    (k : Keyboard) (u : Usb)
    → IsValid queue_size k.queue
    → (xs : List ℕ) → held k ≡ xs
    → (o : Option (ℕ × Ring ℕ)) → Popped queue_size k.queue xs o
    → let (k', u', c) = elim o as (λ _. Keyboard × Usb × ℕ) [
      | some (c, q) ↦ (record k { queue = q }, u, c)
      | none ↦ (k, u, 0)
    ] in
      IsValid queue_size k'.queue × Reads xs c (held k') × (waiting u' ≡ waiting u)
read_from k u v [] h o p = rw p (v, (refl, h), refl)
read_from k u v (x ∷ xs) h o (r, e, w, c) = rw e (w, (refl, c), refl)

-- In a valid queue, with a valid USB queue: a poll of the PS/2 port appends the character that the layout
-- gives the key, if there is one and room, and follows the shift keys. Reading polls the PS/2 port, and
-- then takes the oldest character that waits in the USB queue, if a USB keyboard is attached, and
-- appends it, if there is one and room; then it gives the oldest key held and keeps the others, or
-- gives 0 if none is held.
pub read_char-poll :
    (status scancode : ℕ) (k : Keyboard) (u : Usb)
    → IsValid queue_size k.queue
    → IsValid keyboard_queue_size u.keyboard_buffer
    → let typed = with_char (held k) (typed_by status scancode k.shift_down) in
      let (k', u', c) = read_char status scancode k u in
      Holds (poll status scancode k) typed (shift_after status scancode k.shift_down)
      × IsValid queue_size k'.queue
      × Reads (with_char typed (usb_key u)) c (held k')
      × (waiting u' ≡ usb_left u)
unfolding read_char
read_char-poll status scancode k u v w =
    let p = poll-Holds status scancode k v in
    let polled = usb_poll (poll status scancode k) u in
    let d = usb_poll-held (poll status scancode k) u p.valid w in
    let r = read_from polled.0 polled.1 d.0 _ (d.1 ∙ ap (λ xs. with_char xs (usb_key u)) p.keys) _ (
      subst (λ xs. Popped queue_size polled.0.queue xs (pop queue_size polled.0.queue))
        (d.1 ∙ ap (λ xs. with_char xs (usb_key u)) p.keys)
        (pop_refines queue_size polled.0.queue d.0)) in
    (p, r.0, r.1, r.2 ∙ d.2)
