-- ===== src/Usb/Reports.antt =====
-- What the reports of src/usb.c put into the queues, and what comes out.
use a_lightweight_os.Base.{
  ℕ, ◌+◌, ◌≡◌, refl, ap, sym, inl, inr, Bool, true, false, ◌||◌, List, [], ◌∷◌, ◌++◌, ltb, ◌==◌,
  if◌then◌else◌, length, u8, test_bit, arith, Bool-cases, pos, ◌≤ℤ◌, clamp_to_bounds, ◌+ℤ◌, ◌-ℤ◌,
  i8, le→ltb, ◌∙◌,
}
use a_lightweight_os.Ring.{Ring}
use a_lightweight_os.Ring
use a_lightweight_os.Ring.Contents.{IsValid, contents, push_refines}
use a_lightweight_os.Usb.{
  Usb, MouseReport, key_char, queue_key, queue_keys, process_keyboard_report, process_mouse_report,
  queue_keyboard_char, keyboard_queue_size, mouse_queue_size,
}

-- The pointer of src/usb.c is on the screen.
abbrev pub OnScreen : Usb → Type 0
OnScreen u =
    (pos 0 ≤ℤ u.mouse_x) × (u.mouse_x ≤ℤ pos 79) × (pos 0 ≤ℤ u.mouse_y) × (u.mouse_y ≤ℤ pos 23)

-- A mouse report keeps the pointer on the screen, and appends itself to the queue; if the queue is
-- full, the report is dropped and the pointer stays.
process_mouse_report_lem :
    (r : MouseReport) (u : Usb)
    → IsValid mouse_queue_size u.mouse_events
    → OnScreen u
    → let u' = process_mouse_report r u in
      OnScreen u'
      × IsValid mouse_queue_size u'.mouse_events
      × (contents mouse_queue_size u'.mouse_events ≡ (
          if ltb (length (contents mouse_queue_size u.mouse_events) + 1) mouse_queue_size
          then contents mouse_queue_size u.mouse_events ++ (r ∷ [])
          else contents mouse_queue_size u.mouse_events))
      × (length (contents mouse_queue_size u.mouse_events) + 1 ≡ mouse_queue_size
          → (u'.mouse_x ≡ u.mouse_x) × (u'.mouse_y ≡ u.mouse_y))
unfolding process_mouse_report
process_mouse_report_lem r u v on =
    elim (Bool-cases (Ring.push mouse_queue_size r u.mouse_events).1) [
      | inl e ↦ rw e (
        (
          (clamp_to_bounds 79 (u.mouse_x +ℤ i8 r.dx)).0,
          (clamp_to_bounds 79 (u.mouse_x +ℤ i8 r.dx)).1,
          (clamp_to_bounds 23 (u.mouse_y -ℤ i8 r.dy)).0,
          (clamp_to_bounds 23 (u.mouse_y -ℤ i8 r.dy)).1,
        ),
        done.0,
        done.2,
        λ full. absurd (true_ne e (done.1 ∙ le→ltb _ _ (omega (arith, full)))),
      )
      | inr e ↦ rw e (on, done.0, done.2, λ full. (refl, refl))
    ]
  where
    done :
        IsValid mouse_queue_size (Ring.push mouse_queue_size r u.mouse_events).0
        × ((Ring.push mouse_queue_size r u.mouse_events).1
            ≡ ltb (length (contents mouse_queue_size u.mouse_events) + 1) mouse_queue_size)
        × (contents mouse_queue_size (Ring.push mouse_queue_size r u.mouse_events).0 ≡ (
            if ltb (length (contents mouse_queue_size u.mouse_events) + 1) mouse_queue_size
            then contents mouse_queue_size u.mouse_events ++ (r ∷ [])
            else contents mouse_queue_size u.mouse_events))
    done = push_refines mouse_queue_size r u.mouse_events v

    true_ne : {b : Bool} → b ≡ true → b ≡ false → ⊥
    true_ne p q = cc

-- The characters of a report, in order.
abbrev pub chars : ℕ → List ℕ
chars c = if c == 0 then [] else u8 c ∷ []

abbrev pub typed : Bool → List ℕ → List ℕ
typed shift [] = []
typed shift (code ∷ codes) = chars (key_char shift code) ++ typed shift codes

-- What a report appends to a queue that holds `xs`: as many of its characters as fit.
abbrev pub append_fitting : ℕ → List ℕ → List ℕ → List ℕ
append_fitting n xs [] = xs
append_fitting n xs (c ∷ cs) =
    append_fitting n (if ltb (length xs + 1) n then xs ++ (c ∷ []) else xs) cs

append_fitting-append :
    (n : ℕ) (xs cs ds : List ℕ)
    → append_fitting n xs (cs ++ ds) ≡ append_fitting n (append_fitting n xs cs) ds
append_fitting-append n xs [] ds = refl
append_fitting-append n xs (c ∷ cs) ds =
    append_fitting-append n (if ltb (length xs + 1) n then xs ++ (c ∷ []) else xs) cs ds

-- The queue after some characters.
abbrev pub Queued : List ℕ → Usb → Usb → Type 0
Queued cs u u' =
    IsValid keyboard_queue_size u'.keyboard_buffer
    × (contents keyboard_queue_size u'.keyboard_buffer
        ≡ append_fitting keyboard_queue_size (contents keyboard_queue_size u.keyboard_buffer) cs)

queue_key-Queued :
    (c : ℕ) (u : Usb)
    → IsValid keyboard_queue_size u.keyboard_buffer
    → Queued (chars c) u (queue_key c u)
unfolding queue_key
queue_key-Queued c u v = go (c == 0)
  where
    done :
        IsValid keyboard_queue_size (Ring.push keyboard_queue_size (u8 c) u.keyboard_buffer).0
        × ((Ring.push keyboard_queue_size (u8 c) u.keyboard_buffer).1
            ≡ ltb (length (contents keyboard_queue_size u.keyboard_buffer) + 1) keyboard_queue_size)
        × (contents keyboard_queue_size (Ring.push keyboard_queue_size (u8 c) u.keyboard_buffer).0
            ≡ (if ltb
                  (length (contents keyboard_queue_size u.keyboard_buffer) + 1)
                  keyboard_queue_size
                then contents keyboard_queue_size u.keyboard_buffer ++ (u8 c ∷ [])
                else contents keyboard_queue_size u.keyboard_buffer))
    done = push_refines keyboard_queue_size (u8 c) u.keyboard_buffer v

    go :
        (b : Bool)
        → Queued (if b then [] else u8 c ∷ []) u (if b then u else (queue_keyboard_char c u).0)
    go true = (v, refl)
    go false = (done.0, done.2)

queue_keys-Queued :
    (shift : Bool) (codes : List ℕ) (u : Usb)
    → IsValid keyboard_queue_size u.keyboard_buffer
    → Queued (typed shift codes) u (queue_keys shift codes u)
unfolding queue_keys
queue_keys-Queued shift [] u v = (v, refl)
queue_keys-Queued shift (code ∷ codes) u v =
    let first = queue_key-Queued (key_char shift code) u v in
    let rest = queue_keys-Queued shift codes (queue_key (key_char shift code) u) first.0 in
    (
      rest.0,
      rest.1
          ∙ ap (λ xs. append_fitting keyboard_queue_size xs (typed shift codes)) first.1
          ∙ sym (
              append_fitting-append keyboard_queue_size _ (chars (key_char shift code))
                (typed shift codes)),
    )

-- A keyboard report appends its characters to the queue in order, as many as fit: the characters that
-- the modifier byte and the six key codes stand for.
process_keyboard_report_lem :
    (modifiers : ℕ) (codes : List ℕ) (u : Usb)
    → IsValid keyboard_queue_size u.keyboard_buffer
    → Queued
        (typed (test_bit modifiers 1 || test_bit modifiers 5) codes)
        u
        (process_keyboard_report modifiers codes u)
unfolding process_keyboard_report
process_keyboard_report_lem modifiers codes u v =
    queue_keys-Queued (test_bit modifiers 1 || test_bit modifiers 5) codes u v
