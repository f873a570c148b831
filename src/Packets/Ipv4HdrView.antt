-- ===== src/Packets/Ipv4HdrView.antt =====
-- lib/pimc/packets/IPv4HdrView.hpp, as it is built on Linux: the fields of the system's `iphdr`, whose
-- layout is that of the IPv4 header, at an offset of the region.
use pimc_toolkit.Common.{ℕ, ◌+◌, ◌*◌, ◌/◌, ◌%◌, ◌^◌, List, Run, done, ◌>>=◌}
use pimc_toolkit.Packets.Views.{read8, read16, read32}

abbrev pub hdr_size : ℕ
hdr_size = 20

abbrev pub ihl : ℕ → List ℕ → Run ℕ
ihl p memory = do b ← read8 p memory; done (b % 2 ^ 4)

abbrev pub header_size_bytes : ℕ → List ℕ → Run ℕ
header_size_bytes p memory = do words ← ihl p memory; done (words * 2 ^ 2 % 2 ^ 16)

abbrev pub version : ℕ → List ℕ → Run ℕ
version p memory = do b ← read8 p memory; done (b / 2 ^ 4 % 2 ^ 4)

abbrev pub tos : ℕ → List ℕ → Run ℕ
tos p memory = read8 (p + 1) memory

abbrev pub total_len : ℕ → List ℕ → Run ℕ
total_len p memory = read16 (p + 2) memory

abbrev pub id : ℕ → List ℕ → Run ℕ
id p memory = read16 (p + 4) memory

abbrev pub flags_and_frag_off : ℕ → List ℕ → Run ℕ
flags_and_frag_off p memory = read16 (p + 6) memory

abbrev pub ttl : ℕ → List ℕ → Run ℕ
ttl p memory = read8 (p + 8) memory

abbrev pub protocol : ℕ → List ℕ → Run ℕ
protocol p memory = read8 (p + 9) memory

abbrev pub hdr_checksum : ℕ → List ℕ → Run ℕ
hdr_checksum p memory = read16 (p + 10) memory

abbrev pub saddr : ℕ → List ℕ → Run ℕ
saddr p memory = read32 (p + 12) memory

abbrev pub daddr : ℕ → List ℕ → Run ℕ
daddr p memory = read32 (p + 16) memory
