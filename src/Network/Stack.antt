-- ===== src/Network/Stack.antt =====
-- src/network.c: what is sent and received over the card, and the initialisation with its DHCP exchange.
-- A local buffer starts with what the stack holds, which is a parameter. A loop over the received packets
-- has fuel, because the card may bring packets for ever: `none` means that the fuel ran out.
mod Messages
mod Silence
mod Tests
use mathlib.Core.Option
use a_lightweight_os.Base.{
  ℕ, zero, suc, ◌+◌, ◌-◌, ◌*◌, ◌/◌, ◌%◌, ◌^◌, Bool, true, false, not, Option, none, some, List, [],
  ◌∷◌, set_bit, ltb, ◌==◌, if◌then◌else◌, update, for_up, u8, u16,
}
use a_lightweight_os.Pci.{PciDevice, pci_find_device, pci_read_config_dword, pci_write_config_dword}
use a_lightweight_os.Network.{
  Net, from_offset, put_bytes, write_eth_header, write_ip_header, write_arp_request,
  write_arp_reply, build_dhcp_discover, build_dhcp_request, handle_arp, handle_ip,
}
use a_lightweight_os.Network.Card.{Rtl, Layout, Driver, send_frame, setup, read_mac, receive_packet}

-- The part of the packet behind the Ethernet header that network_send_ipv4 writes.
pub ipv4_packet : Net → ℕ → ℕ → (ℕ → ℕ) → ℕ → (ℕ → ℕ) → ℕ → ℕ
unfolding write_ip_header
ipv4_packet n dest_ip protocol payload payload_len stack =
    for_up payload_len (λ i b. update b (20 + i) (payload i))
      (write_ip_header (u16 (20 + payload_len)) protocol n.local_ip dest_ip stack)

-- The part of the packet behind the Ethernet header that network_send_dhcp_packet writes.
pub dhcp_packet : (ℕ → ℕ) → ℕ → (ℕ → ℕ) → ℕ → ℕ
unfolding write_ip_header put_bytes
dhcp_packet data_bytes data_len stack =
    let udp_len = 8 + data_len in
    let header = write_ip_header (u16 (20 + udp_len)) 17 0 0xFFFFFFFF stack in
    let ports =
      put_bytes 20 (0 ∷ 68 ∷ 0 ∷ 67 ∷ udp_len / 256 % 256 ∷ udp_len % 256 ∷ 0 ∷ 0 ∷ []) header in
    for_up data_len (λ i b. update b (28 + i) (data_bytes i)) ports

-- The card that is found: its command register with the bits for I/O space and bus mastering.
pub enable : (ℕ → ℕ) → PciDevice → ℕ → ℕ
unfolding pci_read_config_dword pci_write_config_dword set_bit
enable config nic =
    pci_write_config_dword config nic.bus nic.device nic.function 4
      (set_bit (set_bit (pci_read_config_dword config nic.bus nic.device nic.function 4) 0) 2)

infixl 5 ◌>>=◌
abbrev ◌>>=◌ : {A B : Type 0} → Option A → (A → Option B) → Option B
none >>= f = none
some a >>= f = f a

module _ {D : Rtl} (layout : Layout) (stack : ℕ → ℕ) where
  pub send_arp_request : ℕ → Driver D → Driver D
  unfolding write_arp_request send_frame
  send_arp_request target_ip d =
      let p = write_arp_request d.net target_ip stack in
      (send_frame layout p 0x0806 (from_offset 14 p) 46 d).0

  pub send_arp_reply : (ℕ → ℕ) → ℕ → Driver D → Driver D
  unfolding write_arp_reply send_frame
  send_arp_reply target_mac target_ip d =
      let p = write_arp_reply d.net target_mac target_ip stack in
      (send_frame layout target_mac 0x0806 (from_offset 14 p) 46 d).0

  answer : Option ((ℕ → ℕ) × ℕ) → Driver D → Driver D
  unfolding send_arp_reply
  answer none d = d
  answer (some (sender_mac, src_ip)) d = send_arp_reply sender_mac src_ip d

  -- network_handle_arp with the reply that it sends. Only a request is answered, and only a reply changes
  -- the variables, so that the order of the two does not matter.
  pub network_handle_arp : (ℕ → ℕ) → ℕ → Driver D → Driver D
  unfolding handle_arp answer
  network_handle_arp frame len d =
      let r = handle_arp frame len d.net in answer r.1 (record d { net = r.0 })

  -- The body of the loop of rtl8139_process_rx.
  pub handle_packet : (ℕ → ℕ) → ℕ → Driver D → Driver D
  unfolding network_handle_arp handle_ip
  handle_packet packet packet_len d =
      let ethertype = packet 12 * 256 + packet 13 in
      if ltb packet_len 14
      then d
      else if ethertype == 0x0806
      then network_handle_arp packet packet_len d
      else if ethertype == 0x0800
      then record d { net = handle_ip (from_offset 14 packet) (packet_len - 14) d.net }
      else d

  -- With the rest of the loop: what is done with the result of rtl8139_receive_packet.
  process_with :
      ((ℕ → ℕ) → Driver D → Option (Driver D)) → Driver D × Option ((ℕ → ℕ) × ℕ) → Option (Driver D)
  unfolding handle_packet
  process_with rest (d, none) = some d
  process_with rest (d, some (packet, len)) = rest packet (handle_packet packet len d)

  -- The loop of rtl8139_process_rx; the caller's buffer keeps what the last packet left in it.
  pub process_from : ℕ → (ℕ → ℕ) → Driver D → Option (Driver D)
  unfolding process_with receive_packet
  process_from zero packet d = none
  process_from (suc fuel) packet d = process_with (process_from fuel) (receive_packet packet d)

  pub process_rx : ℕ → Driver D → Option (Driver D)
  unfolding process_from
  process_rx fuel d = process_from fuel stack d

  -- `none` if the payload does not fit into the local buffer of 1514 bytes: the loop writes behind it.
  pub send_ipv4 : ℕ → ℕ → (ℕ → ℕ) → ℕ → Driver D → Option (Driver D × Bool)
  unfolding write_eth_header ipv4_packet send_frame
  send_ipv4 dest_ip protocol payload payload_len d =
      let header = write_eth_header d.net d.net.arp_peer_mac 0x0800 stack in
      let p = ipv4_packet d.net dest_ip protocol payload payload_len (from_offset 14 header) in
      if ltb 1514 (34 + payload_len)
      then none
      else some (send_frame layout header 0x0800 p (20 + payload_len) d)

  -- For at most 1472 bytes, as both callers have.
  pub send_dhcp_packet : (ℕ → ℕ) → ℕ → Driver D → Driver D × Bool
  unfolding write_eth_header dhcp_packet send_frame
  send_dhcp_packet data_bytes data_len d =
      let header = write_eth_header d.net (λ _. 0xFF) 0x0800 stack in
      let p = dhcp_packet data_bytes data_len (from_offset 14 header) in
      send_frame layout header 0x0800 p (20 + (8 + data_len)) d

  pub dhcp_discover : Driver D → Driver D × Bool
  unfolding build_dhcp_discover send_dhcp_packet
  dhcp_discover d = let r = build_dhcp_discover d.net stack in send_dhcp_packet r.0 r.1 d

  pub dhcp_request : Driver D → Driver D × Bool
  unfolding build_dhcp_request send_dhcp_packet
  dhcp_request d = let r = build_dhcp_request d.net stack in send_dhcp_packet r.0 r.1 d

  module _ (fuel : ℕ) where
    -- The loop that waits for an offer, with `n` looks left.
    pub wait_offer : ℕ → Driver D → Option (Driver D)
    unfolding process_rx
    wait_offer zero d = some d
    wait_offer (suc n) d = do
      d' ← process_rx fuel d
      if d'.net.dhcp_acquired then some d' else wait_offer n d'

    -- The loop over the discover messages, with `n` attempts of `looks` looks left.
    pub discover : ℕ → ℕ → Driver D → Option (Driver D)
    unfolding dhcp_discover wait_offer
    discover looks zero d = some d
    discover looks (suc n) d = do
      d' ← wait_offer looks (dhcp_discover d).0
      if d'.net.dhcp_acquired then some d' else discover looks n d'

    -- The loop behind the request, which looks every time.
    pub poll_times : ℕ → Driver D → Option (Driver D)
    unfolding process_rx
    poll_times zero d = some d
    poll_times (suc n) d = do d' ← process_rx fuel d; poll_times n d'

    -- From the request on.
    pub confirm : ℕ → Driver D → Option (Driver D × Bool)
    unfolding dhcp_request poll_times
    confirm looks d = do
      d' ← poll_times looks (dhcp_request d).0
      if d'.net.dhcp_acquired
          then some (record d' { network_ready = true }, true)
          else some (d', false)

    -- From the discover messages on.
    pub acquire : ℕ → Driver D → Option (Driver D × Bool)
    unfolding discover confirm
    acquire looks d = do
      d' ← discover looks 3 d
      if d'.net.dhcp_acquired then confirm looks d' else some (d', false)

    pub start : ℕ → (ℕ → ℕ) → Option PciDevice → Driver D → Option ((ℕ → ℕ) × Driver D × Bool)
    unfolding enable acquire setup read_mac
    start looks config none d = some (config, d, false)
    start looks config (some nic) d =
        let based : Driver D = record d { io_base = u16 (nic.bar0 / 4 * 4) } in
        if based.io_base == 0
        then some (enable config nic, based, false)
        else Option.map (λ r. (enable config nic, r.0, r.1))
            (acquire looks (setup layout (read_mac based)))

    -- network_initialize, with `looks` for the 50000 looks of its loops.
    pub initialize : ℕ → (ℕ → ℕ) → Driver D → Option ((ℕ → ℕ) × Driver D × Bool)
    unfolding pci_find_device start
    initialize looks config d = start looks config (pci_find_device config 0x10EC 0x8139) d

    pub network_poll : Driver D → Option (Driver D)
    unfolding process_rx
    network_poll d = if d.network_ready then process_rx fuel d else some d
