-- ===== src/Network/Stack/Tests.antt =====
-- Runs of the network stack of src/network.c, and its theorems at small cards.
use a_lightweight_os.Base.{
  ℕ, ◌+◌, ◌^◌, ◌≡◌, ◌↔◌, refl, false, Option, none, some, ◌==◌, if◌then◌else◌, arith, get_or, [],
  ◌∷◌,
}
use a_lightweight_os.Pci.{PciDevice}
use a_lightweight_os.Network
use a_lightweight_os.Network.{Net}
use a_lightweight_os.Network.Card
use a_lightweight_os.Network.Card.{Rtl, Layout, Driver, receive_packet}
use a_lightweight_os.Network.Checksum.{write_ip_header-checksum, swapped}
use a_lightweight_os.Network.Offer.{handle_ip-ignores}
use a_lightweight_os.Network.Stack

-- A card that holds `ring`, where it never writes. Its state is CapR.
abbrev card : (ℕ → ℕ) → Rtl
card ring = record {
  State = ℕ;
  inb = λ port s. (0, s);
  inw = λ port s. (s, s);
  inl = λ port s. (0x2000, s);
  outb = λ port value s. s;
  outw = λ port value s. if port == 0xC038 then value else s;
  outl = λ port value s. s;
  rx_buffer = λ s. ring;
}

-- An ARP request for 10.0.0.1 as the handler reads it, in the first packet of the ring.
abbrev request : ℕ → ℕ
request k =
    if k == 0
    then 1
    else if k == 2
    then 60
    else if k == 16
    then 8
    else if k == 17
    then 6
    else if k == 25
    then 1
    else if k == 42
    then 10
    else if k == 45
    then 1
    else 0

abbrev net : Net
net = record {
  local_mac = λ i. i + 1;
  local_ip = 0x0A000001;
  local_netmask = 0;
  local_gateway = 0;
  dhcp_server_ip = 0;
  dhcp_transaction_id = 0x393047;
  dhcp_acquired = false;
  arp_peer_mac = λ _. 0;
  arp_peer_ip = 0;
}

abbrev driver : (ring : ℕ → ℕ) → Driver (card ring)
driver ring = record {
  net = net;
  network_ready = false;
  io_base = 0xC000;
  tx_buffers = λ _ _. 9;
  tx_phys = λ _. 0;
  tx_index = 0;
  card = 0xFFF0;
}

abbrev layout : Layout
layout = record { rx_address = 0xFFFFFFFF80200000; tx_address = 0xFFFFFFFF80203000 }

abbrev index_of : {ring : ℕ → ℕ} → Option (Driver (card ring)) → ℕ
index_of none = 99
index_of (some d) = d.tx_index

abbrev byte_of : {ring : ℕ → ℕ} → Option (Driver (card ring)) → ℕ → ℕ
byte_of none i = 999
byte_of (some d) i = d.tx_buffers 0 i

-- One packet is received and answered, and then the card has none.
answer_run : index_of (Stack.process_rx layout (λ _. 0) 2 (driver request)) ≡ 1
unfolding Stack.process_rx Card.wait_sent
answer_run = refl

reply_run : byte_of (Stack.process_rx layout (λ _. 0) 2 (driver request)) 21 ≡ 2
unfolding Stack.process_rx Card.wait_sent
reply_run = refl

-- With too little fuel there is no result.
fuel_run : index_of (Stack.process_rx layout (λ _. 0) 1 (driver request)) ≡ 99
unfolding Stack.process_rx
fuel_run = refl

poll_run : index_of (Stack.network_poll layout (λ _. 0) 0 (driver request)) ≡ 0
unfolding Stack.network_poll
poll_run = refl

-- A payload for the local buffer has at most 1480 bytes.
ipv4_run : Stack.send_ipv4 layout (λ _. 0) 0x0A000002 17 (λ i. i) 1481 (driver request) ≡ none
unfolding Stack.send_ipv4
ipv4_run = refl

request_run :
    (Stack.send_arp_request layout (λ _. 0) 0x0A000002 (driver request)).tx_buffers 0 5 ≡ 0xFF
unfolding Stack.send_arp_request Card.wait_sent Network.write_eth_header
request_run = refl

-- The header of the discover messages does not verify as it is sent.
discover_run : Network.checksum16 (Stack.dhcp_packet (λ _. 0) 244 (λ _. 0)) 20 ≡ 42075
unfolding Stack.dhcp_packet
discover_run = refl

write_ip_header-checksum_example :
    let h = Network.write_ip_header 272 17 0 0xFFFFFFFF (λ _. 0) in
    (Network.checksum16 (swapped h) 20 ≡ 0) × ((Network.checksum16 h 20 ≡ 0) ↔ (h 10 ≡ h 11))
write_ip_header-checksum_example =
    write_ip_header-checksum 272 17 0 0xFFFFFFFF (λ _. 0) (omega arith)

-- An offer of 300 bytes behind the IP header, from port 67 to port 68, to everyone.
abbrev offer : ℕ → ℕ
offer k =
    get_or
      (0x45 ∷ 0 ∷ 1 ∷ 64 ∷ 0 ∷ 0 ∷ 0 ∷ 0 ∷ 64 ∷ 17 ∷ 0 ∷ 0 ∷ 10 ∷ 0 ∷ 0 ∷ 254 ∷ 255 ∷ 255 ∷ 255
        ∷ 255 ∷ 0 ∷ 67 ∷ 0 ∷ 68 ∷ 1 ∷ 44 ∷ [])
      k 2

handle_ip-ignores_example : Network.handle_ip offer 320 net ≡ net
handle_ip-ignores_example = handle_ip-ignores offer 320 net refl (omega arith)

-- The network card alone, in the first slot.
abbrev machine : ℕ → ℕ
machine a =
    if a == 2 ^ 31
    then 0x813910EC
    else if a == 2 ^ 31 + 8
    then 0x02000000
    else if a == 2 ^ 31 + 0x10
    then 0xC001
    else 0xFFFFFFFF

abbrev nic : PciDevice
nic = record {
  bus = 0;
  device = 0;
  function = 0;
  vendor_id = 0x10EC;
  device_id = 0x8139;
  base_class = 2;
  subclass = 0;
  prog_if = 0;
  bar0 = 0xC000;
}
