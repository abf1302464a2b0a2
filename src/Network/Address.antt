-- ===== src/Network/Address.antt =====
-- Addresses in the messages of src/network.c.
use a_lightweight_os.Base.{
  ℕ, ◌^◌, ◌<◌, ◌≡◌, ◌≢◌, refl, Bool, true, false, Option, none, ltb, ◌==◌, if◌then◌else◌, arith,
}
use a_lightweight_os.Network.{
  Net, ip_pack, ip_unpack, from_offset, put_ip, put_bytes, put_mac, mac_copy, write_arp_request,
  write_arp_reply, write_eth_header, handle_arp,
}

-- Unpacking and packing are inverse to each other, for a 32-bit address and for bytes.
ip_pack-ip_unpack :
    (value : ℕ) (out b : ℕ → ℕ)
    → value < 2 ^ 32
    → ((i : ℕ) → b i < 256)
    → (ip_pack (ip_unpack value out) ≡ value)
      × (ip_unpack (ip_pack b) out 0 ≡ b 0)
      × (ip_unpack (ip_pack b) out 1 ≡ b 1)
      × (ip_unpack (ip_pack b) out 2 ≡ b 2)
      × (ip_unpack (ip_pack b) out 3 ≡ b 3)
unfolding ip_pack ip_unpack put_ip
ip_pack-ip_unpack value out b l h =
    let b0 = h 0 in
    let b1 = h 1 in
    let b2 = h 2 in
    let b3 = h 3 in (omega arith, omega arith, omega arith, omega arith, omega arith)

unanswered :
    {A : Type 0} (c d : Bool) (x : Net × Option A) (y : Net) (z : Option A)
    → d ≡ false
    → x.1 ≡ none
    → (let r : Net × Option A = if c then x else (y, if d then z else none) in r.1) ≡ none
unanswered true d x y z e f = f
unanswered false d x y z e f = rw e refl

-- An ARP request of the driver asks for the address 0.0.0.0, whatever it is given: a machine with any
-- other address that runs the same handler does not answer it.
handle_arp-write_arp_request :
    (n n' : Net) (target_ip len : ℕ) (b : ℕ → ℕ)
    → n'.local_ip ≢ 0
    → (ip_pack (from_offset 38 (write_arp_request n target_ip b)) ≡ 0)
      × ((handle_arp (write_arp_request n target_ip b) len n').1 ≡ none)
unfolding handle_arp write_arp_request put_ip put_bytes put_mac ip_pack
handle_arp-write_arp_request n n' target_ip len b d =
    let e : (0 == n'.local_ip) ≡ false = ground (arith, d) in
    (refl, unanswered (ltb len 42) (0 == n'.local_ip) _ _ _ e refl)

-- From an ARP reply of the driver the same handler takes the hardware address of the sender, but as
-- its IP address the first four bytes of the hardware address of the receiver.
handle_arp-write_arp_reply :
    (n n' : Net) (target_mac : ℕ → ℕ) (target_ip : ℕ) (b : ℕ → ℕ)
    → let r = (handle_arp (write_arp_reply n target_mac target_ip b) 60 n').0 in
      (r.arp_peer_ip ≡ ip_pack target_mac)
      × (r.arp_peer_mac 0 ≡ n.local_mac 0)
      × (r.arp_peer_mac 1 ≡ n.local_mac 1)
      × (r.arp_peer_mac 2 ≡ n.local_mac 2)
      × (r.arp_peer_mac 3 ≡ n.local_mac 3)
      × (r.arp_peer_mac 4 ≡ n.local_mac 4)
      × (r.arp_peer_mac 5 ≡ n.local_mac 5)
unfolding handle_arp write_arp_reply write_eth_header put_ip put_bytes put_mac ip_pack mac_copy
handle_arp-write_arp_reply n n' target_mac target_ip b = (refl, refl, refl, refl, refl, refl, refl)

-- The ARP messages of the driver are not the ones that its handler expects. In a request the four bytes
-- from 38 on, which the handler reads as the address that is asked for, are 0.0.0.0, whatever it is
-- given: a machine with any other address does not answer it. From a reply the handler takes all six
-- bytes of the hardware address of the sender, but as its IP address the first four bytes of the
-- hardware address of the receiver.
pub handle_arp-write_arp :
    (n n' : Net) (target_mac : ℕ → ℕ) (target_ip len : ℕ) (b : ℕ → ℕ)
    → n'.local_ip ≢ 0
    → let r = (handle_arp (write_arp_reply n target_mac target_ip b) 60 n').0 in
      (ip_pack (from_offset 38 (write_arp_request n target_ip b)) ≡ 0)
      × ((handle_arp (write_arp_request n target_ip b) len n').1 ≡ none)
      × (r.arp_peer_ip ≡ ip_pack target_mac)
      × (r.arp_peer_mac 0 ≡ n.local_mac 0)
      × (r.arp_peer_mac 1 ≡ n.local_mac 1)
      × (r.arp_peer_mac 2 ≡ n.local_mac 2)
      × (r.arp_peer_mac 3 ≡ n.local_mac 3)
      × (r.arp_peer_mac 4 ≡ n.local_mac 4)
      × (r.arp_peer_mac 5 ≡ n.local_mac 5)
handle_arp-write_arp n n' target_mac target_ip len b d =
    let r = handle_arp-write_arp_reply n n' target_mac target_ip b in
    let q = handle_arp-write_arp_request n n' target_ip len b d in
    (q.0, q.1, r.0, r.1, r.2, r.3, r.4, r.5, r.6)
