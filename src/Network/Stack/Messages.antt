-- ===== src/Network/Stack/Messages.antt =====
-- The frames of the discover messages of src/network.c.
use a_lightweight_os.Base.{
  ℕ, zero, suc, ◌+◌, ◌%◌, ◌^◌, ◌<◌, ◌≡◌, refl, List, [], ◌∷◌, arith, update,
}
use a_lightweight_os.Network.{
  Net, from_offset, ip_pack, put_ip, put_bytes, put_mac, write_eth_header, build_dhcp_discover,
}
use a_lightweight_os.Network.Card.{frame_of}
use a_lightweight_os.Network.Stack.{dhcp_packet}

-- The frame with a discover message, over what the transmit buffer held.
unfoldable pub message : (ℕ → ℕ) → Net → (ℕ → ℕ) → ℕ → ℕ
message stack n b =
    let header = write_eth_header n (λ _. 0xFF) 0x0800 stack in
    let m = build_dhcp_discover n stack in
    frame_of n header 0x0800 (dhcp_packet m.0 m.1 (from_offset 14 header)) (20 + (8 + m.1)) b

-- The transmit buffers after some messages, from a turn on.
abbrev pub messages : (ℕ → ℕ) → Net → ℕ → ℕ → (ℕ → ℕ → ℕ) → ℕ → ℕ → ℕ
messages stack n zero t buffers = buffers
messages stack n (suc k) t buffers =
    messages stack n k ((t + 1) % 4) (update buffers t (message stack n (buffers t)))

-- The bytes from a place on.
abbrev pub bytes : (ℕ → ℕ) → ℕ → ℕ → List ℕ
bytes b o zero = []
bytes b o (suc k) = b o ∷ bytes b (o + 1) k

-- A broadcast frame with a UDP packet of IP version 4 from port 68 to port 67, and in it a DHCP message of a client
-- on Ethernet, with the driver's transaction id and hardware address, the cookie, and as its
-- only option the type 1, discover.
pub record IsDiscover (n : Net) (b : ℕ → ℕ) : Type 0 where
  pub broadcast : bytes b 0 6 ≡ 0xFF ∷ 0xFF ∷ 0xFF ∷ 0xFF ∷ 0xFF ∷ 0xFF ∷ []
  pub ethertype : bytes b 12 2 ≡ 8 ∷ 0 ∷ []
  pub protocol : b 23 ≡ 17
  pub ports : bytes b 34 4 ≡ 0 ∷ 68 ∷ 0 ∷ 67 ∷ []
  pub client : bytes b 42 3 ≡ 1 ∷ 1 ∷ 6 ∷ []
  pub transaction : ip_pack (from_offset 46 b) ≡ n.dhcp_transaction_id % 2 ^ 32
  pub hardware : bytes b 70 6 ≡ bytes n.local_mac 0 6
  pub options : bytes b 278 8 ≡ 0x63 ∷ 0x82 ∷ 0x53 ∷ 0x63 ∷ 53 ∷ 1 ∷ 1 ∷ 255 ∷ []

message-IsDiscover : (stack : ℕ → ℕ) (n : Net) (b : ℕ → ℕ) → IsDiscover n (message stack n b)
unfolding message frame_of dhcp_packet build_dhcp_discover write_eth_header put_ip put_bytes put_mac
    ip_pack
message-IsDiscover stack n b = record {
  broadcast = refl;
  ethertype = refl;
  protocol = refl;
  ports = refl;
  client = refl;
  transaction = omega arith;
  hardware = refl;
  options = refl;
}

-- Three messages fill three of the four buffers.
pub messages-IsDiscover :
    (stack : ℕ → ℕ) (n : Net) (t : ℕ) (buffers : ℕ → ℕ → ℕ)
    → t < 4
    → let r = messages stack n 3 t buffers in
      IsDiscover n (r t)
      × IsDiscover n (r ((t + 1) % 4))
      × IsDiscover n (r ((t + 2) % 4))
      × (r ((t + 3) % 4) ≡ buffers ((t + 3) % 4))
messages-IsDiscover stack n zero buffers l =
    (message-IsDiscover stack n _, message-IsDiscover stack n _, message-IsDiscover stack n _, refl)
messages-IsDiscover stack n (suc zero) buffers l =
    (message-IsDiscover stack n _, message-IsDiscover stack n _, message-IsDiscover stack n _, refl)
messages-IsDiscover stack n (suc (suc zero)) buffers l =
    (message-IsDiscover stack n _, message-IsDiscover stack n _, message-IsDiscover stack n _, refl)
messages-IsDiscover stack n (suc (suc (suc zero))) buffers l =
    (message-IsDiscover stack n _, message-IsDiscover stack n _, message-IsDiscover stack n _, refl)
messages-IsDiscover stack n (suc (suc (suc (suc t)))) buffers l = absurd (omega arith)
