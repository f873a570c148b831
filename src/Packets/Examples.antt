-- ===== src/Packets/Examples.antt =====
-- The packet of a small update.
use pimc_toolkit.Common.{
  drop, ℕ, some, All, ◌%◌, ◌<◌, ◌^◌, ◌≡◌, refl, List, [], ◌∷◌, ◌++◌, true, done, arith,
}
use pimc_toolkit.Net.Address.{of_octets}
use pimc_toolkit.Pimsm.Update.{Update}
use pimc_toolkit.Packets.Writer.{bytes16}
use pimc_toolkit.Packets.Checksum.{ip_checksum_ns}
use pimc_toolkit.Packets.Checksum.Sum.{weigh}
use pimc_toolkit.Packets.Checksum.Correct.{ip_checksum_verifies}
use pimc_toolkit.Pimsm.Config.{JpConfig}
use pimc_toolkit.Pimsm.Pack.{pack}
use pimc_toolkit.Packets.Sealed.{ip_header}
use pimc_toolkit.Packets.HelloPacket.{hello_packet, hello_message, hello_packet_exact}
use pimc_toolkit.Packets.UpdatePacket.{update_packet}
use pimc_toolkit.Packets.Decode.{decode_message, update_packet_roundtrip}
use pimc_toolkit.Packets.Packed.{pack_packets}
use pimc_toolkit.Packets.Packet.{IsRightPacket, update_packet_exact}

-- The words 0x4500 and 0x0073 at an odd address.
sum_of_two_words : ip_checksum_ns 1001 (0x45 ∷ 0 ∷ 0 ∷ 0x73 ∷ []) ≡ done 0x8cba
unfolding ip_checksum_ns
sum_of_two_words = refl

ip_checksum_verifies_example :
    (c : ℕ) × (ip_checksum_ns 1001 (0x45 ∷ 0 ∷ 0 ∷ 0x73 ∷ []) ≡ done c)
    × (c < 2 ^ 16)
    × (weigh true (bytes16 c ++ (0x45 ∷ 0 ∷ 0 ∷ 0x73 ∷ [])) % 65535 ≡ 0)
ip_checksum_verifies_example =
    ip_checksum_verifies 1001 (0x45 ∷ 0 ∷ 0 ∷ 0x73 ∷ []) (omega arith) (omega arith)

abbrev one_join : Update
one_join = record {
  groups =
      record {
        group = of_octets 239 1 2 3;
        joins = record { addr = of_octets 10 1 1 1; wildcard = true; rpt = true } ∷ [];
        prunes = [];
      }
      ∷ [];
}

update_packet_exact_example :
    IsRightPacket 4096 one_join (of_octets 10 0 0 1) (of_octets 10 0 0 2) 210
update_packet_exact_example =
    update_packet_exact 4096 one_join (of_octets 10 0 0 1) (of_octets 10 0 0 2) 210 (omega arith)

hello_packet_exact_example :
    (sum : ℕ) × (hello_packet 4096 (of_octets 10 0 0 1) 105 1 7
      ≡ done (ip_header 46 (of_octets 10 0 0 1) ++ hello_message sum 105 1 7))
    × (weigh true (hello_message sum 105 1 7) % 65535 ≡ 0)
hello_packet_exact_example = hello_packet_exact 4096 (of_octets 10 0 0 1) 105 1 7

abbrev one_group : JpConfig
one_group = record {
  groups =
      record {
        group = of_octets 239 1 2 3;
        rpt = some (record { rp = of_octets 10 1 1 1; prunes = of_octets 10 2 2 2 ∷ [] });
        spt = of_octets 10 3 3 3 ∷ [];
      }
      ∷ [];
}

pack_packets_example :
    (us : List Update) × (pack one_group ≡ done us)
    × All (λ u. IsRightPacket 4096 u (of_octets 10 0 0 1) (of_octets 10 0 0 2) 210) us
pack_packets_example =
    pack_packets 4096 (of_octets 10 0 0 1) (of_octets 10 0 0 2) 210 one_group (omega arith)

update_packet_roundtrip_example :
    (bytes : List ℕ) × (update_packet 4096 one_join (of_octets 10 0 0 1) (of_octets 10 0 0 2) 210
      ≡ done bytes)
    × (decode_message (drop 20 bytes) ≡ some (of_octets 10 0 0 2, 210, one_join))
update_packet_roundtrip_example =
    update_packet_roundtrip 4096 one_join (of_octets 10 0 0 1) (of_octets 10 0 0 2) 210
      (omega arith)
      (record { group_bits = omega arith; join_bits = (omega arith, tt); prune_bits = tt }, tt)
      (omega arith) (omega arith)
