-- ===== src/Network/Card/Frames.antt =====
-- What rtl8139_send_frame of src/network.c puts into the transmit buffers.
use a_lightweight_os.Base.{
  ℕ, zero, suc, ◌+◌, ◌-◌, ◌*◌, ◌/◌, ◌%◌, ◌^◌, ◌≤◌, ◌<◌, ◌≡◌, ◌≢◌, refl, ap, ◌∙◌, true, false, ◌&&◌,
  leb, ltb, ◌==◌, if◌then◌else◌, arith, Bool-cases, if_cases, ==_refl, inl, inr, u8, u16, u32, u64,
  test_bit, for_up-copy, update,
}
use a_lightweight_os.Network.{Net, write_eth_header, put_mac, put_bytes}
use a_lightweight_os.Network.Card.{
  Rtl, Layout, Driver, io_read32, io_write32, wait_sent, frame_of, start_frame, send_frame,
  virt_to_phys,
}

-- The bytes of a frame by their place: the two addresses, the type, the payload, and behind it what the buffer held.
abbrev pub frame_byte : Net → (ℕ → ℕ) → ℕ → (ℕ → ℕ) → ℕ → (ℕ → ℕ) → ℕ → ℕ
frame_byte n dest_mac ethertype payload payload_len b j =
    if ltb j 6
    then dest_mac j
    else if ltb j 12
    then n.local_mac (j - 6)
    else if j == 12
    then u8 (ethertype / 256)
    else if j == 13
    then u8 ethertype
    else if ltb j (14 + payload_len)
    then payload (j - 14)
    else b j

put_mac_lem :
    (o : ℕ) (mac b : ℕ → ℕ) (j : ℕ)
    → put_mac o mac b j ≡ (if leb o j && ltb j (o + 6) then mac (j - o) else b j)
unfolding put_mac
put_mac_lem o mac b j = for_up-copy mac o 6 b j

frame_of_lem :
    (n : Net) (dest_mac : ℕ → ℕ) (ethertype : ℕ) (payload : ℕ → ℕ) (payload_len : ℕ) (b : ℕ → ℕ)
    (j : ℕ)
    → frame_of n dest_mac ethertype payload payload_len b j
      ≡ frame_byte n dest_mac ethertype payload payload_len b j
unfolding frame_of write_eth_header put_bytes
frame_of_lem n dest_mac ethertype payload payload_len b j =
    for_up-copy payload 14 payload_len (write_eth_header n dest_mac ethertype b) j
    ∙ rw (put_mac_lem 6 n.local_mac (put_mac 0 dest_mac b) j, put_mac_lem 0 dest_mac b j)
        (ground arith)

-- Two states of the driver that differ in the card alone.
abbrev pub Same : {D : Rtl} → Driver D → Driver D → Type 0
Same d d' =
    (d'.net ≡ d.net)
    × (d'.network_ready ≡ d.network_ready)
    × (d'.io_base ≡ d.io_base)
    × (d'.tx_buffers ≡ d.tx_buffers)
    × (d'.tx_phys ≡ d.tx_phys)
    × (d'.tx_index ≡ d.tx_index)

pub wait_sent-Same : {D : Rtl} (n i : ℕ) (d : Driver D) → Same d (wait_sent n i d)
unfolding wait_sent io_read32
wait_sent-Same zero i d = (refl, refl, refl, refl, refl, refl)
wait_sent-Same (suc n) i d =
    let r = io_read32 (0x10 + i * 4) d in
    if_cases (Same d) (r.0 / 0x2000 % 2 == 0) (wait_sent n i r.1) r.1 (λ _. wait_sent-Same n i r.1)
      (λ _. (refl, refl, refl, refl, refl, refl))

start_frame-writes :
    {D : Rtl} (a : Layout) (dest_mac : ℕ → ℕ) (ethertype : ℕ) (payload : ℕ → ℕ) (payload_len : ℕ)
    (d : Driver D)
    → let r = start_frame a dest_mac ethertype payload payload_len d in
      (r.tx_buffers
        ≡ update d.tx_buffers d.tx_index
            (frame_of d.net dest_mac ethertype payload payload_len (d.tx_buffers d.tx_index)))
      × (r.net ≡ d.net)
      × (r.tx_index ≡ (d.tx_index + 1) % 4)
      × (r.network_ready ≡ d.network_ready)
unfolding start_frame io_write32
start_frame-writes a dest_mac ethertype payload payload_len d = (refl, refl, refl, refl)

-- The card after it was told of a frame in buffer `i`: first where the buffer is, and then, which starts
-- the transmission, the length. Both registers have one port of four bytes for each buffer.
abbrev pub told : (D : Rtl) → Layout → ℕ → ℕ → ℕ → D.State → D.State
told D a base i len s =
    D.outl (u16 (base + (0x10 + i * 4))) (u32 len)
      (D.outl (u16 (base + (0x20 + i * 4))) (u32 (virt_to_phys (a.tx_address + i * 2048))) s)

-- The card after at most `n` looks at the status of buffer `i`, up to the first that has the bit
-- for the end of the transmission set.
unfoldable pub waited : (D : Rtl) → ℕ → ℕ → ℕ → D.State → D.State
waited D zero base i s = s
waited D (suc n) base i s =
    let r = D.inl (u16 (base + (0x10 + i * 4))) s in
    if test_bit r.0 13 then r.1 else waited D n base i r.1

wait_sent-waited :
    {D : Rtl} (n i : ℕ) (d : Driver D) → (wait_sent n i d).card ≡ waited D n d.io_base i d.card
unfolding wait_sent waited io_read32 test_bit
wait_sent-waited zero i d = refl
wait_sent-waited {D} (suc n) i d =
    let r = D.inl (u16 (d.io_base + (0x10 + i * 4))) d.card in
    let f = wait_sent-waited n i (io_read32 (0x10 + i * 4) d).1 in
    elim (Bool-cases (r.0 / 0x2000 % 2 == 0)) [
      | inl e ↦ let t : test_bit r.0 13 ≡ false = ground arith in rw (e, t) f
      | inr e ↦ let t : test_bit r.0 13 ≡ true = ground arith in rw (e, t) refl
    ]

-- The card behind the wait of a frame.
start_frame-told :
    {D : Rtl} (a : Layout) (dest_mac : ℕ → ℕ) (ethertype : ℕ) (payload : ℕ → ℕ) (payload_len : ℕ)
    (d : Driver D)
    → let r = start_frame a dest_mac ethertype payload payload_len d in
      waited D 100000 r.io_base d.tx_index r.card
      ≡ waited D 100000 d.io_base d.tx_index (told D a d.io_base d.tx_index payload_len d.card)
unfolding start_frame io_write32
start_frame-told {D} a dest_mac ethertype payload payload_len d = refl

-- A frame that fits goes into the buffer whose turn it is, moves the turn on and leaves the other variables as they were.
pub send_frame-next :
    {D : Rtl} (a : Layout) (dest_mac : ℕ → ℕ) (ethertype : ℕ) (payload : ℕ → ℕ) (payload_len : ℕ)
    (d : Driver D)
    → payload_len ≤ 2034
    → let r = (send_frame a dest_mac ethertype payload payload_len d).0 in
      (r.net ≡ d.net)
      × (r.network_ready ≡ d.network_ready)
      × (r.tx_index ≡ (d.tx_index + 1) % 4)
      × (r.tx_buffers
          ≡ update d.tx_buffers d.tx_index
              (frame_of d.net dest_mac ethertype payload payload_len (d.tx_buffers d.tx_index)))
unfolding send_frame
send_frame-next a dest_mac ethertype payload payload_len d l =
    let e : ltb 2048 (u64 (payload_len + 14)) ≡ false = ground arith in
    let w =
      wait_sent-Same 100000 d.tx_index (start_frame a dest_mac ethertype payload payload_len d) in
    let f = start_frame-writes a dest_mac ethertype payload payload_len d in
    rw e (w.0 ∙ f.1, w.1 ∙ f.3, w.5 ∙ f.2, w.3 ∙ f.0)

-- A payload that fits with the header into a buffer of 2048 bytes is given to the card: the buffer whose
-- turn it is holds the frame; the card is told the address of this buffer and, to start it, the
-- length of the payload without the header, and its status is read up to 100000 times until it is done.
-- The other buffers and the variables of the network are as they were, and the turn goes to the next of
-- the four buffers. A longer payload is refused and nothing changes, also for the card.
pub send_frame-Sends :
    {D : Rtl} (a : Layout) (dest_mac : ℕ → ℕ) (ethertype : ℕ) (payload : ℕ → ℕ) (payload_len : ℕ)
    (d : Driver D) (i j : ℕ)
    → d.tx_index < 4
    → i ≢ d.tx_index
    → payload_len + 14 < 2 ^ 64
    → let r = send_frame a dest_mac ethertype payload payload_len d in
      (r.1 ≡ leb (payload_len + 14) 2048)
      × (r.0.tx_buffers d.tx_index j ≡ (
          if r.1
          then frame_byte d.net dest_mac ethertype payload payload_len (d.tx_buffers d.tx_index) j
          else d.tx_buffers d.tx_index j))
      × (r.0.tx_buffers i ≡ d.tx_buffers i)
      × (r.0.net ≡ d.net)
      × (r.0.tx_index ≡ (if r.1 then if d.tx_index == 3 then 0 else d.tx_index + 1 else d.tx_index))
      × (r.0.card ≡ (
          if r.1
          then waited D 100000 d.io_base d.tx_index
              (told D a d.io_base d.tx_index payload_len d.card)
          else d.card))
      × (r.0 ≡ (if r.1 then r.0 else d))
unfolding send_frame
send_frame-Sends {D} a dest_mac ethertype payload payload_len d i j l m w =
    let z : (payload_len + 14) % 2 ^ 64 ≡ payload_len + 14 = omega arith in
    elim (Bool-cases (ltb 2048 (payload_len + 14))) [
      | inl e ↦
          let t : leb (payload_len + 14) 2048 ≡ false = ground arith in
          rw (z, e, t) (refl, refl, refl, refl, refl, refl, refl)
      | inr e ↦
          let t : leb (payload_len + 14) 2048 ≡ true = ground arith in
          let g =
            wait_sent-Same 100000 d.tx_index
              (start_frame a dest_mac ethertype payload payload_len d) in
          let u : (d.tx_index == d.tx_index) ≡ true = ==_refl d.tx_index in
          let v : (d.tx_index == i) ≡ false = ground arith in
          let x : (d.tx_index + 1) % 4 ≡ (if d.tx_index == 3 then 0 else d.tx_index + 1) =
            ground arith in
          let f = start_frame-writes a dest_mac ethertype payload payload_len d in
          let b = g.3 ∙ f.0 in
          rw (z, e, t)
            (
              refl,
              ap (λ k. k d.tx_index j) b
                  ∙ rw u (
                      frame_of_lem d.net dest_mac ethertype payload payload_len
                        (d.tx_buffers d.tx_index) j),
              ap (λ k. k i) b ∙ rw v refl,
              g.0 ∙ f.1,
              g.5 ∙ f.2 ∙ x,
              wait_sent-waited 100000 d.tx_index
                    (start_frame a dest_mac ethertype payload payload_len d)
                  ∙ start_frame-told a dest_mac ethertype payload payload_len d,
              refl,
            )
    ]
