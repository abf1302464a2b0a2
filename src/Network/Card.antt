-- ===== src/Network/Card.antt =====
-- src/network.c: the driver of the RTL8139 card, with its registers and its rings. The card itself is a
-- parameter: it answers the reads of its ports, may change with every access, and fills the receive
-- buffer by itself. The addresses of the buffers are a parameter too.
pub mod Frames
pub mod Receiving
mod Tests
use a_lightweight_os.Base.{
  ℕ, zero, suc, ◌+◌, ◌-◌, ◌*◌, ◌/◌, ◌%◌, ◌^◌, Bool, true, false, ◌||◌, Option, none, some, leb, ltb,
  ◌==◌, if◌then◌else◌, update, for_up, u16, u32, u64,
}
use a_lightweight_os.Network.{Net, write_eth_header}

pub record Rtl : Type 1 where
  pub State : Type 0
  pub inb : ℕ → State → ℕ × State
  pub inw : ℕ → State → ℕ × State
  pub inl : ℕ → State → ℕ × State
  pub outb : ℕ → ℕ → State → State
  pub outw : ℕ → ℕ → State → State
  pub outl : ℕ → ℕ → State → State
  pub rx_buffer : State → ℕ → ℕ

-- Where the linker puts the two buffers.
pub record Layout : Type 0 where
  pub rx_address : ℕ
  pub tx_address : ℕ

-- The variables of the driver, and the state of the card.
pub record Driver (D : Rtl) : Type 0 where
  pub net : Net
  pub network_ready : Bool
  pub io_base : ℕ
  pub tx_buffers : ℕ → ℕ → ℕ
  pub tx_phys : ℕ → ℕ
  pub tx_index : ℕ
  pub card : D.State

unfoldable pub virt_to_phys : ℕ → ℕ
virt_to_phys ptr = if leb 0xFFFFFFFF80000000 ptr then ptr - 0xFFFFFFFF80000000 else ptr

abbrev pub tx_buffer_address : Layout → ℕ → ℕ
tx_buffer_address a i = a.tx_address + i * 2048

-- The bytes of a frame over what the buffer held.
unfoldable pub frame_of : Net → (ℕ → ℕ) → ℕ → (ℕ → ℕ) → ℕ → (ℕ → ℕ) → ℕ → ℕ
frame_of n dest_mac ethertype payload payload_len b =
    for_up payload_len (λ i f. update f (14 + i) (payload i))
      (write_eth_header n dest_mac ethertype b)

module _ {D : Rtl} where
  unfoldable pub io_write8 : ℕ → ℕ → Driver D → Driver D
  io_write8 reg value d = record d { card = D.outb (u16 (d.io_base + reg)) value d.card }

  unfoldable pub io_write16 : ℕ → ℕ → Driver D → Driver D
  io_write16 reg value d = record d { card = D.outw (u16 (d.io_base + reg)) value d.card }

  unfoldable pub io_write32 : ℕ → ℕ → Driver D → Driver D
  io_write32 reg value d = record d { card = D.outl (u16 (d.io_base + reg)) value d.card }

  unfoldable pub io_read8 : ℕ → Driver D → ℕ × Driver D
  io_read8 reg d = let r = D.inb (u16 (d.io_base + reg)) d.card in (r.0, record d { card = r.1 })

  unfoldable pub io_read16 : ℕ → Driver D → ℕ × Driver D
  io_read16 reg d = let r = D.inw (u16 (d.io_base + reg)) d.card in (r.0, record d { card = r.1 })

  unfoldable pub io_read32 : ℕ → Driver D → ℕ × Driver D
  io_read32 reg d = let r = D.inl (u16 (d.io_base + reg)) d.card in (r.0, record d { card = r.1 })

  -- The loop that waits for the end of a transmission, with `n` looks left.
  unfoldable pub wait_sent : ℕ → ℕ → Driver D → Driver D
  unfolding io_read32
  wait_sent zero current_index d = d
  wait_sent (suc n) current_index d =
      let r = io_read32 (0x10 + current_index * 4) d in
      let rest = wait_sent n current_index r.1 in if r.0 / 0x2000 % 2 == 0 then rest else r.1

  -- The driver with the frame in its buffer and the two registers written.
  unfoldable pub start_frame : Layout → (ℕ → ℕ) → ℕ → (ℕ → ℕ) → ℕ → Driver D → Driver D
  unfolding frame_of io_write32 virt_to_phys
  start_frame a dest_mac ethertype payload payload_len d =
      let frame = frame_of d.net dest_mac ethertype payload payload_len (d.tx_buffers d.tx_index) in
      let filled : Driver D = record d { tx_buffers = update d.tx_buffers d.tx_index frame } in
      let addressed =
        io_write32 (0x20 + d.tx_index * 4) (u32 (virt_to_phys (tx_buffer_address a d.tx_index)))
          filled in
      let started = io_write32 (0x10 + d.tx_index * 4) (u32 payload_len) addressed in
      record started { tx_index = (d.tx_index + 1) % 4 }

  -- rtl8139_send_frame.
  unfoldable pub send_frame : Layout → (ℕ → ℕ) → ℕ → (ℕ → ℕ) → ℕ → Driver D → Driver D × Bool
  unfolding start_frame
  send_frame a dest_mac ethertype payload payload_len d =
      let sent =
        wait_sent 100000 d.tx_index (start_frame a dest_mac ethertype payload payload_len d) in
      if ltb 2048 (u64 (payload_len + 14)) then (d, false) else (sent, true)

  -- The loop that waits for the end of a reset.
  unfoldable pub wait_reset : ℕ → Driver D → Driver D
  unfolding io_read8
  wait_reset zero d = d
  wait_reset (suc n) d =
      let r = io_read8 0x37 d in
      let rest = wait_reset n r.1 in if r.0 / 0x10 % 2 == 0 then r.1 else rest

  -- rtl8139_setup, which always returns true. The value of the receive register is the flags 0xF, 0x80
  -- and 0x300.
  unfoldable pub setup : Layout → Driver D → Driver D
  unfolding io_write8 io_write16 io_write32 virt_to_phys
  setup a d =
      let reset = wait_reset 100000 (io_write8 0x37 0x10 d) in
      let placed = io_write32 0x30 (u32 (virt_to_phys a.rx_address)) reset in
      let configured = io_write32 0x44 0x38F (io_write32 0x40 0x03000000 placed) in
      let started = io_write8 0x37 0x0C (io_write16 0x3C 5 (io_write8 0x52 0 configured)) in
      record started {
        tx_phys =
            for_up 4 (λ i t. update t i (u32 (virt_to_phys (tx_buffer_address a i))))
              started.tx_phys;
      }

  -- rtl8139_read_mac.
  unfoldable pub read_mac : Driver D → Driver D
  unfolding io_read8
  read_mac d =
      for_up 6
        (λ i s.
          let r = io_read8 i s in
          let t = r.1 in
          record t { net = record (t.net) { local_mac = update t.net.local_mac i r.0 } })
        d

-- Where the driver looks for the next packet, from the register CapR.
unfoldable pub next_offset : ℕ → ℕ
next_offset capr =
    let boundary = if capr == 0 then 0x3F8 else capr in
    let offset = u16 (boundary + 16) / 8 * 8 in if leb 9708 offset then 0 else offset

-- `(x - 16) & 0xFFF8`, the value that goes to CapR.
unfoldable pub capr_of : ℕ → ℕ
capr_of x = u16 (x + 65520) / 8 * 8

-- Where the packet behind one at `offset` is taken to be.
unfoldable pub behind : ℕ → ℕ → ℕ
behind offset length =
    let next = u16 ((u16 (offset + length + 4) + 3) / 4 * 4) in if leb 9708 next then 0 else next

-- What the driver finds at an offset of the receive buffer: no packet, one with a length that cannot be,
-- or a packet, as its bytes over what the caller's buffer held and its length.
pub data Found : Type 0 where
  nothing : Found
  malformed : Found
  packet : (ℕ → ℕ) → ℕ → Found

unfoldable pub packet_at : (ℕ → ℕ) → ℕ → (ℕ → ℕ) → Found
packet_at rx offset buffer =
    let status = rx offset + rx (offset + 1) * 256 in
    let length = rx (offset + 2) + rx (offset + 3) * 256 in
    let copied = for_up length (λ i b. update b i (rx (offset + 4 + i))) buffer in
    if status % 2 == 0
    then nothing
    else if ltb 1500 length || ltb 9708 (offset + 4 + length)
    then malformed
    else packet copied length

module _ {D : Rtl} where
  unfoldable pub take_packet : ℕ → Found → Driver D → Driver D × Option ((ℕ → ℕ) × ℕ)
  unfolding io_write16 capr_of behind
  take_packet offset nothing d = (d, none)
  take_packet offset malformed d = (io_write16 0x38 (capr_of offset) d, none)
  take_packet offset (packet buffer length) d =
      (io_write16 0x38 (capr_of (behind offset length)) d, some (buffer, length))

  -- rtl8139_receive_packet: the buffer and the length for true, `none` for false.
  unfoldable pub receive_packet : (ℕ → ℕ) → Driver D → Driver D × Option ((ℕ → ℕ) × ℕ)
  unfolding io_read16 next_offset packet_at take_packet
  receive_packet buffer d =
      let cur = io_read16 0x3A d in
      let boundary = io_read16 0x38 cur.1 in
      let offset = next_offset boundary.0 in
      take_packet offset (packet_at (D.rx_buffer boundary.1.card) offset buffer) boundary.1
