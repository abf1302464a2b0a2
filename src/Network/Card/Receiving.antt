-- ===== src/Network/Card/Receiving.antt =====
-- Where the driver of src/network.c looks for packets in the receive buffer, and what it reads and writes
-- there.
use mathlib.Core.Path.{fun_ext}
use a_lightweight_os.Base.{
  ℕ, ◌+◌, ◌-◌, ◌*◌, ◌/◌, ◌%◌, ◌≤◌, ◌<◌, ◌≡◌, refl, sym, ap, ◌∙◌, Bool, true, false, ◌&&◌, ◌||◌, leb,
  ltb, ◌==◌, if◌then◌else◌, arith, Bool-cases, inl, inr, ◌⊎◌, u16, for_up, for_up-fill, update,
  if_cases,
}
use a_lightweight_os.Network.Card.{
  next_offset, capr_of, behind, Found, nothing, malformed, packet, packet_at,
}

next_offset_bound : (capr : ℕ) → next_offset capr + 4 ≤ 9708
unfolding next_offset
next_offset_bound capr = ground arith

behind_lem :
    (offset length : ℕ)
    → length ≤ 1500
    → offset + 4 + length ≤ 9708
    → behind offset length
      ≡ (if leb 9705 (offset + 4 + length) then 0 else (offset + 4 + length + 3) / 4 * 4)
unfolding behind
behind_lem offset length l m =
    let z : u16 ((u16 (offset + length + 4) + 3) / 4 * 4) ≡ (offset + 4 + length + 3) / 4 * 4 =
      omega arith in
    rw z (ground arith)

-- From the place behind a packet to the place of the next look.
resume :
    (next : ℕ)
    → next < 9708
    → next_offset (capr_of next) ≡ (if leb 16 next && ltb next 24 then 1032 else next / 8 * 8)
unfolding next_offset capr_of
resume next l = elim (Bool-cases (ltb next 16)) [
  | inl e ↦
      let z : u16 (next + 65520) / 8 * 8 ≡ 65520 + next / 8 * 8 = ground arith in
      rw z (ground arith)
  | inr e ↦
      let z : u16 (next + 65520) / 8 * 8 ≡ next / 8 * 8 - 16 = ground arith in rw z (ground arith)
]

-- After a packet of at most 1500 bytes that ends in the buffer, the driver looks for the next one at the end
-- of the packet rounded up to a multiple of four and then down to a multiple of eight, or at 0 when
-- that is behind the buffer. For an end from 13 to 20 it looks at 1032, since CapR is 0 then.
pub next_offset-behind :
    (offset length : ℕ)
    → length ≤ 1500
    → offset + 4 + length ≤ 9708
    → next_offset (capr_of (behind offset length)) ≡ (
        let end = offset + 4 + length in
        if leb 9705 end then 0 else if leb 13 end && leb end 20 then 1032 else (end + 3) / 8 * 8)
unfolding next_offset capr_of behind
next_offset-behind offset length l m =
    let b = behind_lem offset length l m in
    ap (λ k. next_offset (capr_of k)) b ∙ elim (Bool-cases (leb 9705 (offset + 4 + length))) [
      | inl e ↦ rw e (resume 0 (omega arith))
      | inr e ↦ rw e (resume ((offset + 4 + length + 3) / 4 * 4) (ground arith) ∙ ground arith)
    ]

-- What is found at an offset says of the receive buffer, and what it leaves in the caller's buffer.
abbrev pub Within : (ℕ → ℕ) → (ℕ → ℕ) → ℕ → Found → Type 0
Within rx buffer offset nothing = rx offset % 2 ≡ 0
Within rx buffer offset malformed =
    (rx offset % 2 ≡ 1)
    × ((1500 < rx (offset + 2) + rx (offset + 3) * 256)
        ⊎ (9708 < offset + 4 + (rx (offset + 2) + rx (offset + 3) * 256)))
Within rx buffer offset (packet b length) =
    (rx offset % 2 ≡ 1)
    × (length ≡ rx (offset + 2) + rx (offset + 3) * 256)
    × (length ≤ 1500)
    × (offset + 4 + length ≤ 9708)
    × ((j : ℕ) → b j ≡ (if ltb j length then rx (offset + 4 + j) else buffer j))

abbrev copied : (ℕ → ℕ) → ℕ → (ℕ → ℕ) → ℕ → ℕ → ℕ
copied rx offset buffer length = for_up length (λ i b. update b i (rx (offset + 4 + i))) buffer

copied_lem :
    (rx : ℕ → ℕ) (offset : ℕ) (buffer : ℕ → ℕ) (length j : ℕ)
    → copied rx offset buffer length j ≡ (if ltb j length then rx (offset + 4 + j) else buffer j)
copied_lem rx offset buffer length j = for_up-fill (λ i _. rx (offset + 4 + i)) length buffer j

packet_at_agree :
    (rx rx' : ℕ → ℕ) (offset : ℕ) (buffer : ℕ → ℕ)
    → offset + 4 ≤ 9708
    → ((k : ℕ) → k < 9708 → rx k ≡ rx' k)
    → packet_at rx offset buffer ≡ packet_at rx' offset buffer
unfolding packet_at
packet_at_agree rx rx' offset buffer l h =
    let e0 = h offset (omega arith) in
    let e1 = h (offset + 1) (omega arith) in
    let e2 = h (offset + 2) (omega arith) in
    let e3 = h (offset + 3) (omega arith) in
    rw (e0, e1, e2, e3)
      (go (rx' (offset + 2) + rx' (offset + 3) * 256)
        ((rx' offset + rx' (offset + 1) * 256) % 2 == 0))
  where
    go :
        (length : ℕ) (c : Bool)
        → (if c
            then nothing
            else if ltb 1500 length || ltb 9708 (offset + 4 + length)
            then malformed
            else packet (copied rx offset buffer length) length)
          ≡ (if c
              then nothing
              else if ltb 1500 length || ltb 9708 (offset + 4 + length)
              then malformed
              else packet (copied rx' offset buffer length) length)
    go length true = refl
    go length false = elim (Bool-cases (ltb 1500 length || ltb 9708 (offset + 4 + length))) [
      | inl e ↦ rw e refl
      | inr e ↦ rw e (
          ap (λ b. packet b length)
            (fun_ext λ j.
              copied_lem rx offset buffer length j
              ∙ elim (Bool-cases (ltb j length)) [
                | inl f ↦ rw f (h (offset + 4 + j) (ground arith))
                | inr f ↦ rw f refl
              ]
              ∙ sym (copied_lem rx' offset buffer length j)))
    ]

packet_at_lem :
    (rx : ℕ → ℕ) (offset : ℕ) (buffer : ℕ → ℕ)
    → Within rx buffer offset (packet_at rx offset buffer)
unfolding packet_at
packet_at_lem rx offset buffer =
    let length = rx (offset + 2) + rx (offset + 3) * 256 in
    let status = rx offset + rx (offset + 1) * 256 in
    if_cases (Within rx buffer offset) (status % 2 == 0) _ _ (λ e. ground arith)
      (λ e.
        if_cases (Within rx buffer offset) (ltb 1500 length || ltb 9708 (offset + 4 + length)) _ _
          (λ f. (ground arith, too_long length f))
          (λ f.
            (ground arith, refl, ground arith, ground arith, copied_lem rx offset buffer length)))
  where
    too_long :
        (length : ℕ)
        → (ltb 1500 length || ltb 9708 (offset + 4 + length)) ≡ true
        → (1500 < length) ⊎ (9708 < offset + 4 + length)
    too_long length f = elim (Bool-cases (ltb 1500 length)) [
      | inl g ↦ inl (ground arith)
      | inr g ↦ inr (ground arith)
    ]

-- Whatever the register holds, the driver reads the receive buffer inside its 9708 bytes alone: two contents that agree
-- there give the same. A packet that it finds has the length that stands before it, at most 1500, and
-- is copied to the start of the caller's buffer, behind which nothing is written; a packet with a
-- greater length, or with an end behind the buffer, is malformed.
pub packet_at-Within :
    (rx rx' : ℕ → ℕ) (capr : ℕ) (buffer : ℕ → ℕ)
    → ((k : ℕ) → k < 9708 → rx k ≡ rx' k)
    → let offset = next_offset capr in
      (packet_at rx offset buffer ≡ packet_at rx' offset buffer)
      × Within rx buffer offset (packet_at rx offset buffer)
packet_at-Within rx rx' capr buffer h = (
  packet_at_agree rx rx' (next_offset capr) buffer (next_offset_bound capr) h,
  packet_at_lem rx (next_offset capr) buffer,
)
