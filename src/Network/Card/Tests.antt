-- ===== src/Network/Card/Tests.antt =====
-- Runs of the card driver of src/network.c, and its theorems at a small card.
use a_lightweight_os.Base.{
  ℕ, ◌+◌, ◌*◌, ◌/◌, ◌≡◌, refl, true, false, ◌&&◌, Option, none, some, leb, ltb, ◌==◌, if◌then◌else◌,
  arith,
}
use a_lightweight_os.Network.{Net}
use a_lightweight_os.Network.Card
use a_lightweight_os.Network.Card.Frames.{send_frame-Sends, frame_byte, told, waited}
use a_lightweight_os.Network.Card.Receiving.{next_offset-behind, packet_at-Within, Within}

-- A card whose state is the register CapR and the last value written to a port of 32 bits. A packet of
-- 60 bytes stands at 0 of its receive buffer.
abbrev card : Card.Rtl
card = record {
  State = ℕ × ℕ;
  inb = λ port s. (0, s);
  inw = λ port s. (s.0, s);
  inl = λ port s. (0x2000, s);
  outb = λ port value s. s;
  outw = λ port value s. (value, s.1);
  outl = λ port value s. (s.0, value);
  rx_buffer = λ s k. if k == 0 then 1 else if k == 2 then 60 else if k == 4 then 7 else 0;
}

abbrev net : Net
net = record {
  local_mac = λ i. i + 1;
  local_ip = 0;
  local_netmask = 0;
  local_gateway = 0;
  dhcp_server_ip = 0;
  dhcp_transaction_id = 0x393047;
  dhcp_acquired = false;
  arp_peer_mac = λ _. 0;
  arp_peer_ip = 0;
}

abbrev driver : Card.Driver card
driver = record {
  net = net;
  network_ready = false;
  io_base = 0xC000;
  tx_buffers = λ _ _. 9;
  tx_phys = λ _. 0;
  tx_index = 3;
  card = (0xFFF0, 0);
}

abbrev layout : Card.Layout
layout = record { rx_address = 0xFFFFFFFF80200000; tx_address = 0xFFFFFFFF80203000 }

address_run : Card.virt_to_phys 0xFFFFFFFF80200000 ≡ 0x200000
unfolding Card.virt_to_phys
address_run = refl

-- The length that the card is told leaves out the fourteen bytes of the header.
length_run : (Card.send_frame layout (λ _. 0xFF) 0x0800 (λ i. i) 46 driver).0.card.1 ≡ 46
unfolding Card.send_frame Card.wait_sent
length_run = refl

abbrev first_and_length : Option ((ℕ → ℕ) × ℕ) → ℕ
first_and_length none = 0
first_and_length (some (packet, len)) = packet 0 + len

receive_run :
    let r = Card.receive_packet (λ _. 0) driver in (r.0.card.0 ≡ 48) × (first_and_length r.1 ≡ 67)
unfolding Card.receive_packet
receive_run = (refl, refl)

setup_run : (Card.setup layout driver).tx_phys 1 ≡ 0x203800
unfolding Card.setup Card.wait_reset
setup_run = refl

mac_run : (Card.read_mac driver).net.local_mac 5 ≡ 0
unfolding Card.read_mac
mac_run = refl

-- After a packet of 60 bytes at 0 comes the next one, at 64; after one of 64 bytes the next one is at 68, and is
-- looked for at 64.
next_run :
    (Card.next_offset (Card.capr_of (Card.behind 0 60)) ≡ 64)
    × (Card.behind 0 64 ≡ 68)
    × (Card.next_offset (Card.capr_of (Card.behind 0 64)) ≡ 64)
unfolding Card.next_offset Card.capr_of Card.behind
next_run = (refl, refl, refl)

next_offset-behind_example : Card.next_offset (Card.capr_of (Card.behind 0 64)) ≡ (
    let end = 0 + 4 + 64 in
    if leb 9705 end then 0 else if leb 13 end && leb end 20 then 1032 else (end + 3) / 8 * 8)
next_offset-behind_example = next_offset-behind 0 64 (omega arith) (omega arith)

abbrev rx : ℕ → ℕ
rx k = if k == 0 then 1 else if k == 2 then 60 else if k == 4 then 7 else 0

packet_at-Within_example :
    let offset = Card.next_offset 0xFFF0 in
    (Card.packet_at rx offset (λ _. 0)
      ≡ Card.packet_at (λ k. if ltb k 9708 then rx k else 5) offset (λ _. 0))
    × Within rx (λ _. 0) offset (Card.packet_at rx offset (λ _. 0))
packet_at-Within_example =
    packet_at-Within rx (λ k. if ltb k 9708 then rx k else 5) 0xFFF0 (λ _. 0)
      (λ k l. let e : ltb k 9708 ≡ true = ground arith in rw e refl)

send_frame-Sends_example :
    let r = Card.send_frame layout (λ _. 0xFF) 0x0800 (λ i. i) 46 driver in
    (r.1 ≡ leb (46 + 14) 2048)
    × (r.0.tx_buffers 3 20 ≡ (
        if r.1
        then frame_byte net (λ _. 0xFF) 0x0800 (λ i. i) 46 (driver.tx_buffers 3) 20
        else driver.tx_buffers 3 20))
    × (r.0.tx_buffers 1 ≡ driver.tx_buffers 1)
    × (r.0.net ≡ net)
    × (r.0.tx_index ≡ (if r.1 then if 3 == 3 then 0 else 3 + 1 else 3))
    × (r.0.card ≡ (
        if r.1
        then waited card 100000 0xC000 3 (told card layout 0xC000 3 46 driver.card)
        else driver.card))
    × (r.0 ≡ (if r.1 then r.0 else driver))
send_frame-Sends_example =
    send_frame-Sends layout (λ _. 0xFF) 0x0800 (λ i. i) 46 driver 1 20 (omega arith) (omega arith)
      (omega arith)
