-- ===== src/Packets/UdpHdrView.antt =====
-- lib/pimc/packets/UDPHdrView.hpp, as it is built on Linux: the fields of the system's `udphdr`.
use pimc_toolkit.Common.{ℕ, ◌+◌, List, Run}
use pimc_toolkit.Packets.Views.{read16}

abbrev pub udp_proto : ℕ
udp_proto = 17

abbrev pub hdr_size : ℕ
hdr_size = 8

abbrev pub sport : ℕ → List ℕ → Run ℕ
sport p memory = read16 p memory

abbrev pub dport : ℕ → List ℕ → Run ℕ
dport p memory = read16 (p + 2) memory

abbrev pub datagram_len : ℕ → List ℕ → Run ℕ
datagram_len p memory = read16 (p + 4) memory

abbrev pub sum : ℕ → List ℕ → Run ℕ
sum p memory = read16 (p + 6) memory
