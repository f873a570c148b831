-- ===== src/Packets/Packet.antt =====
-- The whole Join/Prune packet that the constructor of apps/pimc/packets/IPv4PIMUpdatePacket.cpp makes.
use pimc_toolkit.Common.{
  ℕ, ◌+◌, ◌%◌, ◌^◌, ◌≤◌, ◌≡◌, refl, ◌∙◌, ap, List, [], ◌∷◌, ◌++◌, append_assoc, All, All-append,
  true, length, length-append, sum_of, done, arith,
}
use pimc_toolkit.Net.Address.{IPv4Address}
use pimc_toolkit.Pimsm.Params.{jp_capacity}
use pimc_toolkit.Pimsm.Update.{GroupEntry, Update, byte_size, update_summary, update_summary_exact}
use pimc_toolkit.Packets.Writer.{bytes16, written}
use pimc_toolkit.Packets.Checksum.{ip_checksum_ns}
use pimc_toolkit.Packets.Checksum.Sum.{weigh, IsByte}
use pimc_toolkit.Packets.Checksum.Correct.{ip_checksum_verifies}
use pimc_toolkit.Packets.Encoding.{
  octets, number16, encoded_group, encoded_groups, encoded_jp_header, length-encoded_group,
  write_hdr_lem,
}
use pimc_toolkit.Packets.UpdatePacket.{update_packet, write_message}
use pimc_toolkit.Packets.Bytes.{octets-IsByte, number16-IsByte, encoded_groups-IsByte}
use pimc_toolkit.Packets.Sealed.{ip_header, write_ip_hdr_lem, sum_in_place, check_and_sum_lem}
use pimc_toolkit.Packets.Written.{write_group_entries_lem, write_ipv4_jp_hdr_lem}

abbrev pub jp_body : Update → IPv4Address → ℕ → List ℕ
jp_body u neighbor holdtime =
    encoded_jp_header neighbor (length u.groups) holdtime ++ encoded_groups u.groups

-- A Join/Prune message with the checksum as `sum` stores it.
abbrev pub jp_message : ℕ → Update → IPv4Address → ℕ → List ℕ
jp_message sum u neighbor holdtime = 0x23 ∷ 0 ∷ (bytes16 sum ++ jp_body u neighbor holdtime)

abbrev pub packet_size : Update → ℕ
packet_size u = 34 + sum_of byte_size u.groups

length-encoded_groups : (gs : List GroupEntry) → length (encoded_groups gs) ≡ sum_of byte_size gs
unfolding encoded_groups
length-encoded_groups [] = refl
length-encoded_groups (ge ∷ gs) = omega (
  arith,
  length-append (encoded_group ge) (encoded_groups gs),
  length-encoded_group ge,
  length-encoded_groups gs,
)

jp_body-IsByte :
    (u : Update) (neighbor : IPv4Address) (holdtime : ℕ) → All IsByte (jp_body u neighbor holdtime)
jp_body-IsByte u neighbor holdtime = (
  omega arith,
  (
    omega arith,
    All-append IsByte (octets neighbor)
        (0 ∷ length u.groups % 2 ^ 8 ∷ (number16 holdtime ++ encoded_groups u.groups))
        (octets-IsByte neighbor)
        (
          omega arith,
          (
            omega arith,
            All-append IsByte (number16 holdtime) (encoded_groups u.groups)
                (number16-IsByte holdtime) (encoded_groups-IsByte u.groups),
          ),
        ),
  ),
)

write_message_lem :
    (pre : List ℕ) (u : Update) (neighbor : IPv4Address) (holdtime r : ℕ)
    → sum_of byte_size u.groups ≤ jp_capacity
    → r ≡ 14 + sum_of byte_size u.groups
    → write_message u neighbor holdtime (written 0 pre r)
      ≡ done (written 0 (pre ++ (0x23 ∷ 0 ∷ 0 ∷ 0 ∷ jp_body u neighbor holdtime)) 0)
unfolding write_message
write_message_lem pre u neighbor holdtime r h k =
    let n = sum_of byte_size u.groups in
    let hdr = 0x23 ∷ 0 ∷ 0 ∷ 0 ∷ [] in
    let jp = encoded_jp_header neighbor (length u.groups) holdtime in
    let joined : (((pre ++ hdr) ++ jp) ++ encoded_groups u.groups)
        ≡ pre ++ (hdr ++ (jp ++ encoded_groups u.groups)) =
      append_assoc (pre ++ hdr) jp (encoded_groups u.groups)
      ∙ append_assoc pre hdr (jp ++ encoded_groups u.groups) in
    rw
      (
        write_hdr_lem 0 pre 3 (10 + n) r (omega arith),
        write_ipv4_jp_hdr_lem 0 (pre ++ hdr) neighbor (length u.groups) holdtime n (10 + n) refl,
      )
      (write_group_entries_lem 0 ((pre ++ hdr) ++ jp) u.groups 0 n h (omega arith)
        ∙ ap (λ z. done (written 0 z 0)) joined)

packet_bytes :
    (base : ℕ) (u : Update) (source neighbor : IPv4Address) (holdtime c : ℕ)
    → sum_of byte_size u.groups ≤ jp_capacity
    → ip_checksum_ns (base + 20) (0x23 ∷ 0 ∷ 0 ∷ 0 ∷ jp_body u neighbor holdtime) ≡ done c
    → update_packet base u source neighbor holdtime
      ≡ done (ip_header (packet_size u) source ++ jp_message c u neighbor holdtime)
unfolding update_packet
packet_bytes base u source neighbor holdtime c h e =
    let n = sum_of byte_size u.groups in
    let size_is : (update_summary 0 u).size ≡ n = (update_summary_exact 0 u h).0 in
    let pim_is : (14 + n) % 2 ^ 64 ≡ 14 + n = omega arith in
    let whole_is : (20 + (14 + n)) % 2 ^ 64 ≡ packet_size u = omega arith in
    let len : length (jp_body u neighbor holdtime) ≡ 10 + n =
      omega (arith, length-encoded_groups u.groups) in
    rw
      (
        size_is,
        pim_is,
        whole_is,
        write_ip_hdr_lem (packet_size u) (14 + n) source (omega arith),
        write_message_lem (ip_header (packet_size u) source) u neighbor holdtime (14 + n) h refl,
      )
      (check_and_sum_lem base (14 + n) (packet_size u) c 0x23 source (jp_body u neighbor holdtime)
        (omega (arith, len)) (omega arith) e)

-- What the packet is: its bytes, where the checksum is the only part that depends on the address of
-- the region.
pub record IsRightPacket (base : ℕ) (u : Update) (source neighbor : IPv4Address) (holdtime : ℕ)
    : Type 0 where
  pub sum : ℕ
  pub bytes :
      update_packet base u source neighbor holdtime
      ≡ done (ip_header (packet_size u) source ++ jp_message sum u neighbor holdtime)
  pub verifies : weigh true (jp_message sum u neighbor holdtime) % 65535 ≡ 0
  pub length_is :
      length (ip_header (packet_size u) source ++ jp_message sum u neighbor holdtime)
      ≡ packet_size u
  pub within : packet_size u ≤ 1500

-- The packet of an update that fits is made without an exception and without a store outside its
-- region, whatever the address of the region: it is the IPv4 header and the encoded message, the
-- checksum of the message verifies, and the size computed beforehand, at most 1500, is the number of
-- bytes.
pub update_packet_exact :
    (base : ℕ) (u : Update) (source neighbor : IPv4Address) (holdtime : ℕ)
    → sum_of byte_size u.groups ≤ jp_capacity
    → IsRightPacket base u source neighbor holdtime
update_packet_exact base u source neighbor holdtime h =
    let body = jp_body u neighbor holdtime in
    let len : length body ≡ 10 + sum_of byte_size u.groups =
      omega (arith, length-encoded_groups u.groups) in
    let (c, e, _, z) =
      ip_checksum_verifies (base + 20) (0x23 ∷ 0 ∷ 0 ∷ 0 ∷ body)
        (
          omega arith,
          (omega arith, (omega arith, (omega arith, jp_body-IsByte u neighbor holdtime))),
        )
        (omega arith) in
    record {
      sum = c;
      bytes = packet_bytes base u source neighbor holdtime c h e;
      verifies = ap (λ w. w % 65535) (sum_in_place c 0x23 body) ∙ z;
      length_is = omega arith;
      within = omega arith;
    }
