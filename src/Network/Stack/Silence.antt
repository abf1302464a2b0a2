-- ===== src/Network/Stack/Silence.antt =====
-- The initialisation of src/network.c when no packet ever comes.
use a_lightweight_os.Base.{ℕ, ◌%◌, ◌≡◌}
use a_lightweight_os.Network.Card.{Rtl}

-- No place of the receive buffer ever shows a packet.
abbrev pub Silent : Rtl → Type 0
Silent D = (s : D.State) (k : ℕ) → D.rx_buffer s k % 2 ≡ 0
