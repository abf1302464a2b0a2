-- ===== src/Network/Offer.antt =====
-- What becomes of a DHCP offer in src/network.c.
use a_lightweight_os.Base.{
  ℕ, ◌+◌, ◌-◌, ◌*◌, ◌^◌, ◌≤◌, ◌≡◌, refl, Bool, true, false, not, ◌&&◌, ltb, leb, ◌==◌,
  if◌then◌else◌, arith, Bool-cases, inl, inr,
}
use a_lightweight_os.Network.{Net, ip_pack, from_offset, handle_dhcp_offer, handle_ip}

-- The handler of offers gets a UDP header: the length stands where the transaction id is looked for.
handle_dhcp_offer-ignores :
    (p : ℕ → ℕ) (len : ℕ) (n : Net)
    → n.dhcp_transaction_id ≡ 0x393047
    → 248 ≤ p 4 * 256 + p 5
    → handle_dhcp_offer p len n ≡ n
unfolding handle_dhcp_offer ip_pack
handle_dhcp_offer-ignores p len n e f = elim (Bool-cases (ltb len 248)) [
  | inl s ↦ rw s refl
  | inr s ↦
      let t : (p 4 * 2 ^ 24 + p 5 * 2 ^ 16 + p 6 * 2 ^ 8 + p 7 == n.dhcp_transaction_id) ≡ false =
        ground (arith, e, f) in
      rw (s, t) refl
]

-- A packet with at least 248 in the bytes 24 and 25, which hold the UDP length behind an IP header of 20
-- bytes, changes nothing, whatever its other bytes and whatever the driver passes for its length, while
-- the transaction id is the one that the driver starts with. A UDP header, the fixed part of a DHCP
-- message and its cookie take 248 bytes.
pub handle_ip-ignores :
    (frame : ℕ → ℕ) (len : ℕ) (n : Net)
    → n.dhcp_transaction_id ≡ 0x393047
    → 248 ≤ frame 24 * 256 + frame 25
    → handle_ip frame len n ≡ n
unfolding handle_ip
handle_ip-ignores frame len n e f =
    go (ltb len 20)
      (not (ip_pack (from_offset 16 frame) == n.local_ip)
        && not (ip_pack (from_offset 16 frame) == 0xFFFFFFFF))
      ((frame 9 == 17)
        && leb 28 len
        && (frame 22 * 256 + frame 23 == 68)
        && (frame 20 * 256 + frame 21 == 67))
      (handle_dhcp_offer-ignores (from_offset 20 frame) (len - 20) n e f)
  where
    go :
        {m : Net} (a b c : Bool)
        → m ≡ n
        → (if a then n else if b then n else if c then m else n) ≡ n
    go true b c e = refl
    go false true c e = refl
    go false false true e = e
    go false false false e = refl
