-- ===== src/Packets/Ipv4HdrWriter.antt =====
-- lib/pimc/packets/IPv4HdrWriter.hpp, as it is built on Linux: the setters store the fields of the
-- system's `iphdr`, whose layout is that of the IPv4 header, at an offset of the region.
use pimc_toolkit.Common.{ℕ, ◌+◌, ◌*◌, ◌%◌, ◌/◌, ◌^◌, [], ◌∷◌, Run, ◌>>=◌, deref, get_elem?}
use pimc_toolkit.Packets.Writer.{PacketWriter, put, bytes16, bytes32}

abbrev pub hdr_size : ℕ
hdr_size = 20

-- The constructor: version 4, and five words of header.
abbrev pub construct : ℕ → PacketWriter → Run PacketWriter
construct p pw = put pw p ((4 * 2 ^ 4 + 5) ∷ [])

-- `ihl` shares its byte with the version, which it keeps.
abbrev pub ihl : ℕ → ℕ → PacketWriter → Run PacketWriter
ihl v p pw = deref (get_elem? pw.memory p) >>= λ b. put pw p ((b / 2 ^ 4 * 2 ^ 4 + v % 2 ^ 4) ∷ [])

abbrev pub tos : ℕ → ℕ → PacketWriter → Run PacketWriter
tos v p pw = put pw (p + 1) (v ∷ [])

abbrev pub total_len : ℕ → ℕ → PacketWriter → Run PacketWriter
total_len v p pw = put pw (p + 2) (bytes16 v)

abbrev pub id : ℕ → ℕ → PacketWriter → Run PacketWriter
id v p pw = put pw (p + 4) (bytes16 v)

abbrev pub flags_and_frag_off : ℕ → ℕ → PacketWriter → Run PacketWriter
flags_and_frag_off v p pw = put pw (p + 6) (bytes16 v)

abbrev pub ttl : ℕ → ℕ → PacketWriter → Run PacketWriter
ttl v p pw = put pw (p + 8) (v ∷ [])

abbrev pub protocol : ℕ → ℕ → PacketWriter → Run PacketWriter
protocol v p pw = put pw (p + 9) (v ∷ [])

abbrev pub hdr_checksum : ℕ → ℕ → PacketWriter → Run PacketWriter
hdr_checksum v p pw = put pw (p + 10) (bytes16 v)

abbrev pub saddr : ℕ → ℕ → PacketWriter → Run PacketWriter
saddr v p pw = put pw (p + 12) (bytes32 v)

abbrev pub daddr : ℕ → ℕ → PacketWriter → Run PacketWriter
daddr v p pw = put pw (p + 16) (bytes32 v)
