-- ===== src/Packets/HelloPacket.antt =====
-- apps/pimc/packets/IPv4PIMHelloPacket.cpp: the Hello packet, and the bytes that it has. The text that
-- describes the packet is left out.
use pimc_toolkit.Common.{
  ℕ, ◌+◌, ◌%◌, ◌≡◌, refl, ◌∙◌, ap, List, [], ◌∷◌, ◌++◌, append_assoc, All, All-append, true, Run,
  done, ◌>>=◌, arith,
}
use pimc_toolkit.Net.Address.{IPv4Address, to_nl}
use pimc_toolkit.Packets.Writer.{PacketWriter, writer_at, bytes16, bytes32, htons, written, zeros}
use pimc_toolkit.Packets.Checksum.Sum.{weigh, IsByte}
use pimc_toolkit.Packets.Checksum.Correct.{ip_checksum_verifies}
use pimc_toolkit.Packets.Encoding.{octets, number16, bytes32-to_nl, bytes16-htons, write_hdr_lem}
use pimc_toolkit.Packets.UpdatePacket.{write_ip_hdr, check_and_sum}
use pimc_toolkit.Pimsm.Params.{pim_hdr_size, hello_option_hdr_size}
use pimc_toolkit.Packets.Pim.{
  message_hello, write_hdr, write_opt_holdtime, write_opt_dr_priority, write_opt_generation_id,
}
use pimc_toolkit.Packets.Ipv4HdrWriter
use pimc_toolkit.Packets.Writer.{mark}
use pimc_toolkit.Packets.Encoding.{emit_two}
use pimc_toolkit.Packets.Bytes.{octets-IsByte, number16-IsByte}
use pimc_toolkit.Packets.Sealed.{ip_header, write_ip_hdr_lem, sum_in_place, check_and_sum_lem}

abbrev pub hello_pim_size : ℕ
hello_pim_size =
    pim_hdr_size
    + (hello_option_hdr_size + 2)
    + (hello_option_hdr_size + 4)
    + (hello_option_hdr_size + 4)

unfoldable pub write_hello : ℕ → ℕ → ℕ → PacketWriter → Run PacketWriter
write_hello holdtime dr_priority generation_id pw = do
  pw1 ← write_hdr pw message_hello
  pw2 ← write_opt_holdtime pw1 holdtime
  pw3 ← write_opt_dr_priority pw2 dr_priority
  write_opt_generation_id pw3 generation_id

-- The IPv4 header, the sanity check and the checksum are those of the Join/Prune packet.
unfoldable pub hello_packet : ℕ → IPv4Address → ℕ → ℕ → ℕ → Run (List ℕ)
hello_packet base source holdtime dr_priority generation_id = do
  let sz = Ipv4HdrWriter.hdr_size + hello_pim_size
  pw0 ← write_ip_hdr sz source (writer_at (zeros sz) 0)
  pw ← write_hello holdtime dr_priority generation_id pw0
  check_and_sum base sz hello_pim_size (mark pw0) pw

-- The options of a Hello message (RFC 7761, section 4.9.2): type, length and value of each.
abbrev pub hello_options : ℕ → ℕ → ℕ → List ℕ
hello_options holdtime dr_priority generation_id =
    0
    ∷ 1
    ∷ 0
    ∷ 2
    ∷ (number16 holdtime
        ++ (0 ∷ 19 ∷ 0 ∷ 4 ∷ (octets dr_priority ++ (0 ∷ 20 ∷ 0 ∷ 4 ∷ octets generation_id))))

abbrev pub hello_message : ℕ → ℕ → ℕ → ℕ → List ℕ
hello_message sum holdtime dr_priority generation_id =
    0x20 ∷ 0 ∷ (bytes16 sum ++ hello_options holdtime dr_priority generation_id)

abbrev holdtime_option : ℕ → List ℕ
holdtime_option v = 0 ∷ 1 ∷ 0 ∷ 2 ∷ number16 v

-- An option whose value has 32 bits.
abbrev long_option : ℕ → ℕ → List ℕ
long_option type v = 0 ∷ type ∷ 0 ∷ 4 ∷ octets v

module _ (pre : List ℕ) (v k r : ℕ) where
  write_opt_holdtime_lem :
      r ≡ 6 + k
      → write_opt_holdtime (written 0 pre r) v ≡ done (written 0 (pre ++ holdtime_option v) k)
  unfolding write_opt_holdtime
  write_opt_holdtime_lem h =
      emit_two 0 pre (0 ∷ 1 ∷ 0 ∷ 2 ∷ []) (bytes16 (htons v)) 4 2 k r refl refl (omega arith)
      ∙ ap (λ o. done (written 0 (pre ++ (0 ∷ 1 ∷ 0 ∷ 2 ∷ o)) k)) (bytes16-htons v)

  write_opt_dr_priority_lem :
      r ≡ 8 + k
      → write_opt_dr_priority (written 0 pre r) v ≡ done (written 0 (pre ++ long_option 19 v) k)
  unfolding write_opt_dr_priority
  write_opt_dr_priority_lem h =
      emit_two 0 pre (0 ∷ 19 ∷ 0 ∷ 4 ∷ []) (bytes32 (to_nl v)) 4 4 k r refl refl (omega arith)
      ∙ ap (λ o. done (written 0 (pre ++ (0 ∷ 19 ∷ 0 ∷ 4 ∷ o)) k)) (bytes32-to_nl v)

  write_opt_generation_id_lem :
      r ≡ 8 + k
      → write_opt_generation_id (written 0 pre r) v ≡ done (written 0 (pre ++ long_option 20 v) k)
  unfolding write_opt_generation_id
  write_opt_generation_id_lem h =
      emit_two 0 pre (0 ∷ 20 ∷ 0 ∷ 4 ∷ []) (bytes32 (to_nl v)) 4 4 k r refl refl (omega arith)
      ∙ ap (λ o. done (written 0 (pre ++ (0 ∷ 20 ∷ 0 ∷ 4 ∷ o)) k)) (bytes32-to_nl v)

write_hello_lem :
    (pre : List ℕ) (holdtime dr_priority generation_id : ℕ)
    → write_hello holdtime dr_priority generation_id (written 0 pre 26)
      ≡ done (
          written 0
            (pre ++ (0x20 ∷ 0 ∷ 0 ∷ 0 ∷ hello_options holdtime dr_priority generation_id))
            0)
unfolding write_hello
write_hello_lem pre holdtime dr_priority generation_id =
    let h = 0x20 ∷ 0 ∷ 0 ∷ 0 ∷ [] in
    let o1 = holdtime_option holdtime in
    let o2 = long_option 19 dr_priority in
    let o3 = long_option 20 generation_id in
    let joined : ((((pre ++ h) ++ o1) ++ o2) ++ o3) ≡ pre ++ (h ++ (o1 ++ (o2 ++ o3))) =
      simp (append_assoc) in
    rw
      (
        write_hdr_lem 0 pre 0 22 26 refl,
        write_opt_holdtime_lem (pre ++ h) holdtime 16 22 refl,
        write_opt_dr_priority_lem ((pre ++ h) ++ o1) dr_priority 8 16 refl,
        write_opt_generation_id_lem (((pre ++ h) ++ o1) ++ o2) generation_id 0 8 refl,
      )
      (ap (λ z. done (written 0 z 0)) joined)

hello_options-IsByte :
    (holdtime dr_priority generation_id : ℕ)
    → All IsByte (hello_options holdtime dr_priority generation_id)
hello_options-IsByte holdtime dr_priority generation_id =
    All-append IsByte (holdtime_option holdtime)
      (long_option 19 dr_priority ++ long_option 20 generation_id)
      (omega arith, (omega arith, (omega arith, (omega arith, number16-IsByte holdtime))))
      (All-append IsByte (long_option 19 dr_priority) (long_option 20 generation_id)
        (omega arith, (omega arith, (omega arith, (omega arith, octets-IsByte dr_priority))))
        (omega arith, (omega arith, (omega arith, (omega arith, octets-IsByte generation_id)))))

-- The Hello packet is made without an exception and without a store outside its region: it is the
-- IPv4 header of 46 bytes in all, and the message with its three options and a checksum that verifies.
pub hello_packet_exact :
    (base : ℕ) (source : IPv4Address) (holdtime dr_priority generation_id : ℕ)
    → (sum : ℕ) × (hello_packet base source holdtime dr_priority generation_id
        ≡ done (ip_header 46 source ++ hello_message sum holdtime dr_priority generation_id))
      × (weigh true (hello_message sum holdtime dr_priority generation_id) % 65535 ≡ 0)
unfolding hello_packet
hello_packet_exact base source holdtime dr_priority generation_id =
    let body = hello_options holdtime dr_priority generation_id in
    let (c, e, _, z) =
      ip_checksum_verifies (base + 20) (0x20 ∷ 0 ∷ 0 ∷ 0 ∷ body)
        (
          omega arith,
          (
            omega arith,
            (omega arith, (omega arith, hello_options-IsByte holdtime dr_priority generation_id)),
          ),
        )
        (omega arith) in
    (
      c,
      rw
          (
            write_ip_hdr_lem 46 26 source refl,
            write_hello_lem (ip_header 46 source) holdtime dr_priority generation_id,
          )
          (check_and_sum_lem base 26 46 c 0x20 source body refl refl e),
      ap (λ w. w % 65535) (sum_in_place c 0x20 body) ∙ z,
    )
