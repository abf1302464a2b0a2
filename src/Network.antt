-- ===== src/Network.antt =====
-- src/network.c: the bytes of the Ethernet, ARP, IP and DHCP messages, and what the handlers of
-- received messages do. A buffer is a function from the offset to the byte. An answer that a handler
-- sends is a result of it; the child modules Card and Stack have the card and the sending.
pub mod Address
pub mod Options
pub mod Card
pub mod Checksum
pub mod Offer
pub mod Stack
mod Tests
use a_lightweight_os.Base.{
  ℕ, zero, suc, ◌+◌, ◌-◌, ◌*◌, ◌/◌, ◌%◌, ◌^◌, Bool, true, false, not, ◌&&◌, ◌||◌, Option, none,
  some, List, [], ◌∷◌, leb, ltb, ◌==◌, if◌then◌else◌, update, for_up, find_first, is_none, u8, u16,
}

-- The variables of the driver that the messages carry.
pub record Net : Type 0 where
  pub local_mac : ℕ → ℕ
  pub local_ip : ℕ
  pub local_netmask : ℕ
  pub local_gateway : ℕ
  pub dhcp_server_ip : ℕ
  pub dhcp_transaction_id : ℕ
  pub dhcp_acquired : Bool
  pub arp_peer_mac : ℕ → ℕ
  pub arp_peer_ip : ℕ

-- `sum` over the pairs of bytes, the first one low, and the last byte if the length is odd; with `n`
-- bytes left from `i` on.
pub sum_pairs : (ℕ → ℕ) → ℕ → ℕ → ℕ
sum_pairs b i zero = 0
sum_pairs b i (suc zero) = b i
sum_pairs b i (suc (suc n)) = b i + b (i + 1) * 256 + sum_pairs b (i + 2) n

-- `while (sum >> 16) sum = (sum & 0xFFFF) + (sum >> 16);`, at most `fuel` times.
pub fold_carry : ℕ → ℕ → ℕ
fold_carry zero sum = sum
fold_carry (suc fuel) sum =
    let rest = fold_carry fuel (sum % 65536 + sum / 65536) in if sum / 65536 == 0 then sum else rest

-- A 32-bit sum is folded after two steps.
pub checksum16 : (ℕ → ℕ) → ℕ → ℕ
unfolding sum_pairs fold_carry
checksum16 b len = 65535 - u16 (fold_carry 2 (sum_pairs b 0 len % 2 ^ 32))

pub mac_copy : (ℕ → ℕ) → (ℕ → ℕ) → ℕ → ℕ
mac_copy dest src = for_up 6 (λ i d. update d i (src i)) dest

pub mac_equal : (ℕ → ℕ) → (ℕ → ℕ) → Bool
unfolding find_first
mac_equal a b = is_none (find_first (λ i. not (a i == b i)) 6 0)

pub ip_copy : (ℕ → ℕ) → (ℕ → ℕ) → ℕ → ℕ
ip_copy dest src = for_up 4 (λ i d. update d i (src i)) dest

-- Also `parse_ipv4_address`, which has the same body.
pub ip_pack : (ℕ → ℕ) → ℕ
ip_pack b = b 0 * 2 ^ 24 + b 1 * 2 ^ 16 + b 2 * 2 ^ 8 + b 3

-- Four bytes from offset `o` on, the high one first.
pub put_ip : ℕ → ℕ → (ℕ → ℕ) → ℕ → ℕ
put_ip o value b =
    update
      (update (update (update b o (value / 2 ^ 24 % 256)) (o + 1) (value / 2 ^ 16 % 256)) (o + 2)
        (value / 2 ^ 8 % 256))
      (o + 3) (value % 256)

pub ip_unpack : ℕ → (ℕ → ℕ) → ℕ → ℕ
unfolding put_ip
ip_unpack value out = put_ip 0 value out

-- `buffer + o` as a buffer of its own.
abbrev pub from_offset : ℕ → (ℕ → ℕ) → ℕ → ℕ
from_offset o b i = b (o + i)

-- A list of bytes from offset `o` on.
pub put_bytes : ℕ → List ℕ → (ℕ → ℕ) → ℕ → ℕ
put_bytes o [] b = b
put_bytes o (x ∷ xs) b = put_bytes (o + 1) xs (update b o x)

-- Six bytes of a hardware address from offset `o` on.
pub put_mac : ℕ → (ℕ → ℕ) → (ℕ → ℕ) → ℕ → ℕ
put_mac o mac b = for_up 6 (λ i d. update d (o + i) (mac i)) b

pub write_eth_header : Net → (ℕ → ℕ) → ℕ → (ℕ → ℕ) → ℕ → ℕ
unfolding put_mac put_bytes
write_eth_header n dest_mac ethertype b =
    put_bytes 12 (u8 (ethertype / 256) ∷ ethertype % 256 ∷ [])
      (put_mac 6 n.local_mac (put_mac 0 dest_mac b))

-- An IP header with 0 for its checksum.
pub ip_fields : ℕ → ℕ → ℕ → ℕ → (ℕ → ℕ) → ℕ → ℕ
unfolding put_ip put_bytes
ip_fields total_length protocol src_ip dest_ip b =
    let fixed =
      put_bytes 0
        (0x45
          ∷ 0
          ∷ u8 (total_length / 256)
          ∷ u8 total_length
          ∷ 0
          ∷ 0
          ∷ 0x40
          ∷ 0
          ∷ 64
          ∷ protocol
          ∷ 0
          ∷ 0
          ∷ [])
        b in
    put_ip 16 dest_ip (put_ip 12 src_ip fixed)

pub write_ip_header : ℕ → ℕ → ℕ → ℕ → (ℕ → ℕ) → ℕ → ℕ
unfolding put_bytes checksum16 ip_fields
write_ip_header total_length protocol src_ip dest_ip b =
    let whole = ip_fields total_length protocol src_ip dest_ip b in
    let checksum = checksum16 whole 20 in
    put_bytes 10 (u8 (checksum / 256) ∷ u8 checksum ∷ []) whole

pub write_arp_request : Net → ℕ → (ℕ → ℕ) → ℕ → ℕ
unfolding put_ip put_bytes put_mac
write_arp_request n target_ip b =
    let header = put_mac 6 n.local_mac (put_mac 0 (λ _. 0xFF) b) in
    let fixed = put_bytes 12 (8 ∷ 6 ∷ 0 ∷ 1 ∷ 8 ∷ 0 ∷ 6 ∷ 4 ∷ 0 ∷ 1 ∷ []) header in
    let sender = put_bytes 28 (0 ∷ 0 ∷ 0 ∷ 0 ∷ []) (put_mac 22 n.local_mac fixed) in
    let target = put_mac 36 (λ _. 0) (put_ip 32 target_ip sender) in
    put_bytes 42 (0 ∷ 0 ∷ 0 ∷ 0 ∷ 0 ∷ 0 ∷ []) target

-- The packet that send_arp_reply builds on a buffer.
pub write_arp_reply : Net → (ℕ → ℕ) → ℕ → (ℕ → ℕ) → ℕ → ℕ
unfolding put_ip put_bytes put_mac write_eth_header
write_arp_reply n target_mac target_ip b =
    let fixed =
      put_bytes 14 (0 ∷ 2 ∷ 8 ∷ 0 ∷ 6 ∷ 4 ∷ 0 ∷ 2 ∷ []) (write_eth_header n target_mac 0x0806 b) in
    let macs = put_mac 28 target_mac (put_mac 22 n.local_mac fixed) in
    let ips = put_ip 38 target_ip (put_ip 34 n.local_ip macs) in
    for_up 18 (λ i d. update d (42 + i) 0) ips

-- The message and its length.
pub build_dhcp_discover : Net → (ℕ → ℕ) → (ℕ → ℕ) × ℕ
unfolding put_ip put_bytes put_mac
build_dhcp_discover n b =
    let cleared = for_up 240 (λ i d. update d i 0) b in
    let header = put_ip 4 n.dhcp_transaction_id (put_bytes 0 (1 ∷ 1 ∷ 6 ∷ 0 ∷ []) cleared) in
    let addressed =
      put_mac 28 n.local_mac (put_bytes 8 (0 ∷ 0 ∷ 0 ∷ 0 ∷ 0 ∷ 0 ∷ 0 ∷ 0 ∷ []) header) in
    (put_bytes 236 (0x63 ∷ 0x82 ∷ 0x53 ∷ 0x63 ∷ 53 ∷ 1 ∷ 1 ∷ 255 ∷ []) addressed, 244)

pub build_dhcp_request : Net → (ℕ → ℕ) → (ℕ → ℕ) × ℕ
unfolding build_dhcp_discover
build_dhcp_request n b =
    let requested =
      put_ip 244 n.local_ip (put_bytes 242 (50 ∷ 4 ∷ []) (build_dhcp_discover n b).0) in
    let served = put_ip 250 n.dhcp_server_ip (put_bytes 248 (54 ∷ 4 ∷ []) requested) in
    (put_bytes 254 (255 ∷ []) served, 255)

-- The switch over one DHCP option, with its length and its value.
pub apply_option : ℕ → ℕ → (ℕ → ℕ) → Net → Net
unfolding ip_pack
apply_option opt opt_len value n =
    if opt == 53
    then if leb 1 opt_len && (value 0 == 2) then record n { dhcp_acquired = true } else n
    else if opt == 1
    then if opt_len == 4 then record n { local_netmask = ip_pack value } else n
    else if opt == 3
    then if leb 4 opt_len then record n { local_gateway = ip_pack value } else n
    else if opt == 54
    then if opt_len == 4 then record n { dhcp_server_ip = ip_pack value } else n
    else n

-- The loop of parse_dhcp_options from an offset on. Each step moves the offset, so `len` steps of fuel
-- are enough.
pub parse_from : ℕ → (ℕ → ℕ) → ℕ → ℕ → Net → Net
unfolding apply_option
parse_from zero o len offset n = n
parse_from (suc fuel) o len offset n =
    let opt = o offset in
    let opt_len = o (offset + 1) in
    let padded = parse_from fuel o len (offset + 1) n in
    let next = offset + 2 + opt_len in
    let rest =
      parse_from fuel o len next (apply_option opt opt_len (from_offset (offset + 2) o) n) in
    if ltb len (offset + 2)
    then n
    else if opt == 255
    then n
    else if opt == 0
    then padded
    else if ltb len next
    then n
    else rest

pub parse_dhcp_options : (ℕ → ℕ) → ℕ → Net → Net
unfolding parse_from
parse_dhcp_options o len n = parse_from len o len 0 n

pub handle_dhcp_offer : (ℕ → ℕ) → ℕ → Net → Net
unfolding ip_pack parse_dhcp_options
handle_dhcp_offer packet len n =
    if ltb len 248
    then n
    else if not (ip_pack (from_offset 4 packet) == n.dhcp_transaction_id)
    then n
    else parse_dhcp_options (from_offset 248 packet) (len - 248)
        (record n { local_ip = ip_pack (from_offset 24 packet) })

-- The new state, and the answer if one is sent: the destination and the address it is for.
pub handle_arp : (ℕ → ℕ) → ℕ → Net → Net × Option ((ℕ → ℕ) × ℕ)
unfolding ip_pack mac_copy
handle_arp frame len n =
    let arp = from_offset 14 frame in
    let oper = arp 6 * 256 + arp 7 in
    let src_ip = ip_pack (from_offset 14 arp) in
    let target_ip = ip_pack (from_offset 24 arp) in
    let learnt : Net = record n {
      arp_peer_mac = mac_copy n.arp_peer_mac (from_offset 8 arp);
      arp_peer_ip = src_ip;
    } in
    if ltb len 42 then (n, none) else (
      if oper == 2 then learnt else n,
      if (oper == 1) && (target_ip == n.local_ip) then some (from_offset 8 arp, src_ip) else none,
    )

pub handle_ip : (ℕ → ℕ) → ℕ → Net → Net
unfolding ip_pack handle_dhcp_offer
handle_ip frame len n =
    let dest_ip = ip_pack (from_offset 16 frame) in
    let src_port = frame 20 * 256 + frame 21 in
    let dest_port = frame 22 * 256 + frame 23 in
    if ltb len 20
    then n
    else if not (dest_ip == n.local_ip) && not (dest_ip == 0xFFFFFFFF)
    then n
    else if (frame 9 == 17) && leb 28 len && (dest_port == 68) && (src_port == 67)
    then handle_dhcp_offer (from_offset 20 frame) (len - 20) n
    else n

pub get_ip : Net → ℕ
get_ip n = n.local_ip

pub get_gateway : Net → ℕ
get_gateway n = n.local_gateway

pub get_mac : Net → ℕ → ℕ
get_mac n = n.local_mac
