-- ===== src/Network/Tests.antt =====
-- Runs of the messages of src/network.c, and its theorems at concrete messages.
use a_lightweight_os.Base.{
  ℕ, ◌+◌, ◌≡◌, refl, true, false, none, [], ◌∷◌, get_or, arith, ◌==◌, if◌then◌else◌,
}
use a_lightweight_os.Network
use a_lightweight_os.Network.Address.{handle_arp-write_arp}
use a_lightweight_os.Network.Options.{parse_dhcp_options_agree}

abbrev net : Network.Net
net = record {
  local_mac = λ i. i + 1;
  local_ip = 0x0A000001;
  local_netmask = 0;
  local_gateway = 0;
  dhcp_server_ip = 0x0A0000FE;
  dhcp_transaction_id = 0x393047;
  dhcp_acquired = false;
  arp_peer_mac = λ _. 0;
  arp_peer_ip = 0;
}

-- The options "message type: offer" and "subnet mask: 255.255.255.0", and the end.
abbrev options : ℕ → ℕ
options i = get_or (53 ∷ 1 ∷ 2 ∷ 1 ∷ 4 ∷ 255 ∷ 255 ∷ 255 ∷ 0 ∷ 255 ∷ []) i 0

parse_dhcp_options_agree_example :
    Network.parse_dhcp_options options 11 net
    ≡ Network.parse_dhcp_options (λ i. if i == 30 then 255 else options i) 11 net
parse_dhcp_options_agree_example =
    parse_dhcp_options_agree options (λ i. if i == 30 then 255 else options i) 11 net
      (λ k l. let e : (k == 30) ≡ false = ground arith in rw e refl)

mask_run : (Network.parse_dhcp_options options 11 net).local_netmask ≡ 0xFFFFFF00
unfolding Network.parse_dhcp_options
mask_run = refl

checksum_run :
    Network.checksum16 (λ i. get_or (0x45 ∷ 0 ∷ 0 ∷ 0x73 ∷ 0 ∷ 0 ∷ 0x40 ∷ 0 ∷ 64 ∷ 17 ∷ []) i 0) 10
    ≡ 0x7B3A
unfolding Network.checksum16
checksum_run = refl

header_run : (Network.write_ip_header 28 17 0 0xFFFFFFFF (λ _. 0)) 9 ≡ 17
unfolding Network.write_ip_header
header_run = refl

-- The request overwrites the message type of the discover message and its end.
request_run : (Network.build_dhcp_request net (λ _. 0)).0 242 ≡ 50
unfolding Network.build_dhcp_request
request_run = refl

offer_run : (Network.handle_dhcp_offer (λ _. 0) 300 net).local_ip ≡ 0x0A000001
unfolding Network.handle_dhcp_offer
offer_run = refl

ip_run : (Network.handle_ip (λ _. 0) 300 net).local_ip ≡ 0x0A000001
unfolding Network.handle_ip
ip_run = refl

handle_arp-write_arp_example :
    let r =
      (Network.handle_arp (Network.write_arp_reply net (λ i. 7) 0x0A000002 (λ _. 0)) 60 net).0 in
    (Network.ip_pack (Network.from_offset 38 (Network.write_arp_request net 0x0A000002 (λ _. 0)))
      ≡ 0)
    × ((Network.handle_arp (Network.write_arp_request net 0x0A000002 (λ _. 0)) 60 net).1 ≡ none)
    × (r.arp_peer_ip ≡ Network.ip_pack (λ i. 7))
    × (r.arp_peer_mac 0 ≡ net.local_mac 0)
    × (r.arp_peer_mac 1 ≡ net.local_mac 1)
    × (r.arp_peer_mac 2 ≡ net.local_mac 2)
    × (r.arp_peer_mac 3 ≡ net.local_mac 3)
    × (r.arp_peer_mac 4 ≡ net.local_mac 4)
    × (r.arp_peer_mac 5 ≡ net.local_mac 5)
handle_arp-write_arp_example =
    handle_arp-write_arp net net (λ i. 7) 0x0A000002 60 (λ _. 0) (omega arith)

-- Two addresses that differ in their last byte.
equal_run :
    (Network.mac_equal (λ i. i) (λ i. i) ≡ true)
    × (Network.mac_equal (λ i. i) (λ i. if i == 5 then 9 else i) ≡ false)
unfolding Network.mac_equal
equal_run = (refl, refl)

copy_run : (Network.ip_copy (λ _. 9) (λ i. i) 3 ≡ 3) × (Network.ip_copy (λ _. 9) (λ i. i) 4 ≡ 9)
unfolding Network.ip_copy
copy_run = (refl, refl)

get_run :
    (Network.get_ip net ≡ 0x0A000001) × (Network.get_gateway net ≡ 0) × (Network.get_mac net 5 ≡ 6)
unfolding Network.get_ip Network.get_gateway Network.get_mac
get_run = (refl, refl, refl)
