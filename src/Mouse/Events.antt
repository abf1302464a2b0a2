-- ===== src/Mouse/Events.antt =====
-- The event queue and the pointer of src/mouse.c.
use a_lightweight_os.Base.{
  ℕ, ◌+◌, ◌<◌, ◌≡◌, refl, Bool, true, false, not, ◌&&◌, ◌||◌, Option, none, some, List, [], ◌∷◌,
  ◌++◌, ltb, leb, ◌==◌, if◌then◌else◌, length, update, test_bit, arith, pos, ◌+ℤ◌, ◌-ℤ◌, ◌≤ℤ◌,
  clamp_to, clamp_to_bounds, if_cases,
}
use a_lightweight_os.Ring.{Ring}
use a_lightweight_os.Ring.Contents.{IsValid, contents, Popped, push_refines, pop_refines}
use a_lightweight_os.Usb.{Usb, MouseMove, has_mouse, get_mouse_report}
use a_lightweight_os.Usb
use a_lightweight_os.Mouse.{
  Mouse, MouseEvent, queue_size, enqueue_event, process_ps2_packet, poll_ps2, poll_usb, has_event,
  get_event, no_event,
}

abbrev pub waiting : Mouse → List MouseEvent
waiting m = contents queue_size m.queue

-- Between two calls: the queue is valid, the packet is not complete, the pointer is on the screen.
pub record IsReady (m : Mouse) : Type 0 where
  pub ring : IsValid queue_size m.queue
  pub partial : m.packet_offset < 3
  pub x_low : pos 0 ≤ℤ m.x
  pub x_high : m.x ≤ℤ pos 79
  pub y_low : pos 0 ≤ℤ m.y
  pub y_high : m.y ≤ℤ pos 23

-- An event goes to the end of the queue, or is lost if 31 wait.
abbrev pub with_event : List MouseEvent → MouseEvent → List MouseEvent
with_event es e = if ltb (length es + 1) queue_size then es ++ (e ∷ []) else es

enqueue-IsReady :
    (e : MouseEvent) (m : Mouse)
    → IsReady m
    → IsReady (enqueue_event e m) × (waiting (enqueue_event e m) ≡ with_event (waiting m) e)
unfolding enqueue_event
enqueue-IsReady e m r =
    let done = push_refines queue_size e m.queue r.ring in
    (
      record {
        ring = done.0;
        partial = r.partial;
        x_low = r.x_low;
        x_high = r.x_high;
        y_low = r.y_low;
        y_high = r.y_high;
      },
      done.2,
    )

put_byte : Mouse → ℕ → Mouse
put_byte m byte = record m {
  packet = update m.packet m.packet_offset byte;
  packet_offset = m.packet_offset + 1;
}

put_byte-IsReady :
    (m : Mouse) (byte : ℕ)
    → IsReady m
    → leb 3 (m.packet_offset + 1) ≡ false
    → IsReady (put_byte m byte)
unfolding put_byte
put_byte-IsReady m byte r l = record {
  ring = r.ring;
  partial = ground arith;
  x_low = r.x_low;
  x_high = r.x_high;
  y_low = r.y_low;
  y_high = r.y_high;
}

process-IsReady :
    (m : Mouse) (byte : ℕ)
    → IsReady m
    → IsReady (record (process_ps2_packet (put_byte m byte)) { packet_offset = 0 })
unfolding process_ps2_packet put_byte enqueue_event
process-IsReady m byte r = record {
  ring = (push_refines queue_size _ m.queue r.ring).0;
  partial = omega arith;
  x_low = r.x_low;
  x_high = r.x_high;
  y_low = r.y_low;
  y_high = r.y_high;
}

poll_ps2-IsReady : (status byte : ℕ) (m : Mouse) → IsReady m → IsReady (poll_ps2 status byte m)
unfolding poll_ps2 put_byte
poll_ps2-IsReady status byte m r =
    go (not (test_bit status 0) || not (test_bit status 5))
      (m.packet_offset == 0 && not (test_bit byte 3)) (leb 3 (m.packet_offset + 1)) refl
  where
    go :
        (idle stray complete : Bool)
        → leb 3 (m.packet_offset + 1) ≡ complete
        → IsReady (
            if idle
            then m
            else if stray
            then m
            else if complete
            then record (process_ps2_packet (put_byte m byte)) { packet_offset = 0 }
            else put_byte m byte)
    go true stray complete e = r
    go false true complete e = r
    go false false true e = process-IsReady m byte r
    go false false false e = put_byte-IsReady m byte r e

poll_usb-IsReady :
    (portsc : ℕ → ℕ) (m : Mouse) (u : Usb) → IsReady m → IsReady (poll_usb portsc m u).0
unfolding poll_usb
poll_usb-IsReady portsc m u r =
    go (has_mouse (Usb.poll portsc u)) (get_mouse_report (Usb.poll portsc u))
  where
    go :
        (b : Bool) (o : Option (MouseMove × Usb))
        → IsReady
            (if◌then◌else◌ {A = Mouse × Usb} b
              (elim o [
                | some (e, u'') ↦ (
                  enqueue_event
                      (record {
                        dx = e.dx;
                        dy = e.dy;
                        left = e.left;
                        right = e.right;
                        middle = e.middle;
                      })
                      m,
                  u'',
                )
                | none ↦ (m, Usb.poll portsc u)
              ])
              (m, Usb.poll portsc u)).0
    go false o = r
    go true none = r
    go true (some (e, u'')) = (enqueue-IsReady _ m r).0

-- Polling keeps the state between calls, whatever the devices answer.
has_event-IsReady :
    (status byte : ℕ) (portsc : ℕ → ℕ) (m : Mouse) (u : Usb)
    → IsReady m
    → IsReady (has_event status byte portsc m u).0
unfolding has_event
has_event-IsReady status byte portsc m u r =
    if_cases (λ (t : Mouse × Usb × Bool). IsReady t.0) m.initialized _ (m, u, false)
      (λ _. poll_usb-IsReady portsc _ u (poll_ps2-IsReady status byte m r)) (λ _. r)

-- What taking an event from the queue does.
abbrev pub Moves : Mouse → List MouseEvent → Mouse × MouseEvent → Type 0
Moves m [] r = r ≡ (m, no_event)
Moves m (e ∷ es) r =
    (r.1 ≡ e)
    × (waiting r.0 ≡ es)
    × (r.0.x ≡ clamp_to 79 (m.x +ℤ e.dx))
    × (r.0.y ≡ clamp_to 23 (m.y -ℤ e.dy))

take-Moves :
    (m : Mouse)
    → IsReady m
    → (es : List MouseEvent) → waiting m ≡ es
    → (o : Option (MouseEvent × Ring MouseEvent)) → Popped queue_size m.queue es o
    → let r = elim o as (λ _. Mouse × MouseEvent) [
      | some (e, q) ↦
          (record m { queue = q; x = clamp_to 79 (m.x +ℤ e.dx); y = clamp_to 23 (m.y -ℤ e.dy) }, e)
      | none ↦ (m, no_event)
    ] in
      IsReady r.0 × Moves m es r
take-Moves m r [] h o p = rw p (r, refl)
take-Moves m r (e ∷ es) h o (q, f, w, c) = rw f (
  record {
    ring = w;
    partial = r.partial;
    x_low = (clamp_to_bounds 79 (m.x +ℤ e.dx)).0;
    x_high = (clamp_to_bounds 79 (m.x +ℤ e.dx)).1;
    y_low = (clamp_to_bounds 23 (m.y -ℤ e.dy)).0;
    y_high = (clamp_to_bounds 23 (m.y -ℤ e.dy)).1;
  },
  (refl, c, refl, refl),
)

-- Taking an event gives the oldest one, moves the pointer by it and keeps it on the screen; with no
-- event waiting nothing changes.
get_event-Moves :
    (m : Mouse) → IsReady m → IsReady (get_event true m).0 × Moves m (waiting m) (get_event true m)
unfolding get_event
get_event-Moves m r = take-Moves m r (waiting m) refl _ (pop_refines queue_size m.queue r.ring)
