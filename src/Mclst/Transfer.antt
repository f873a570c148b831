-- ===== src/Mclst/Transfer.antt =====
-- From the sender of apps/mclst to its raw receiver: the beacon in a UDP datagram.
use pimc_toolkit.Common.{
  ℕ, ◌+◌, ◌<◌, ◌^◌, ◌≡◌, refl, sym, ap, ◌∙◌, inl, inr, Bool-cases, List, ◌++◌, append_assoc,
  append-nil, length, length-append, take, drop, take-append, drop-append, done, arith,
}
use pimc_toolkit.Common.Int.{eqℤ}
use pimc_toolkit.Mclst.PacketInfo.{PacketInfo, accepted_show}
use pimc_toolkit.Mclst.Sender.{beacon_packet}
use pimc_toolkit.Mclst.Beacon.Received.{with_beacon, dissect-beacon_packet}
use pimc_toolkit.Mclst.Receiver.{Processed, accept, override_ttl, process_raw}
use pimc_toolkit.Mclst.Receiver.Datagram.{
  Datagram, IsDatagram, ip_hdr, udp_hdr, datagram, datagram_size, addressed, with_payload,
  process_raw-datagram,
}

-- What the raw receiver knows of a beacon that a datagram has carried.
abbrev pub received_beacon : Datagram → List ℕ → ℕ → ℕ → PacketInfo → Processed
received_beacon d host_name seq time_ns info = record {
  status = accepted_show;
  info = record (with_beacon host_name seq time_ns (with_payload d info)) {
    remote_msg = 28 + length d.options + 26;
  };
  warnings = (override_ttl d.ttl (addressed d info)).1;
}

-- The headers stand in front of the payload.
payload_behind :
    (d : Datagram) (payload rest : List ℕ)
    → d.payload ≡ payload
    → datagram d rest ≡ ((ip_hdr d ++ d.options) ++ udp_hdr d) ++ (payload ++ rest)
payload_behind d payload rest h =
    ap (λ p. (ip_hdr d ++ d.options) ++ (udp_hdr d ++ (p ++ rest))) h
    ∙ sym (append_assoc (ip_hdr d ++ d.options) (udp_hdr d) (payload ++ rest))

length-headers :
    (d : Datagram) → length ((ip_hdr d ++ d.options) ++ udp_hdr d) ≡ 28 + length d.options
length-headers d = omega (arith, length-append (ip_hdr d ++ d.options) (udp_hdr d))

override_ttl-received_data :
    (ttl : ℕ) (info : PacketInfo) → (override_ttl ttl info).0.received_data ≡ info.received_data
override_ttl-received_data ttl info = elim (Bool-cases (eqℤ info.ttl ttl)) [
  | inl same ↦ rw same refl
  | inr other ↦ rw other refl
]

-- The message stands behind the header of the beacon.
message_behind :
    (pre host_name rest m : List ℕ) (seq time_ns n : ℕ)
    → m ≡ pre ++ (beacon_packet host_name seq time_ns ++ rest)
    → n ≡ length pre
    → take (length host_name) (drop (n + 26) m) ≡ host_name
message_behind pre host_name rest m seq time_ns n h l =
    let hdr = beacon_packet host_name seq time_ns in
    let front : List ℕ = take 26 hdr in
    let split : m ≡ (pre ++ front) ++ (host_name ++ rest) =
      h ∙ sym (append_assoc pre front (host_name ++ rest)) in
    let dropped : drop (n + 26) m ≡ host_name ++ rest =
      ap (drop (n + 26)) split
      ∙ drop-append (pre ++ front) (host_name ++ rest) (n + 26)
          (omega (arith, length-append pre front)) in
    ap (take (length host_name)) dropped ∙ take-append host_name rest (length host_name) refl

-- A beacon of the sender that reaches the raw receiver in a UDP datagram of its group is shown with
-- the sender's address, the ports, the sequence number and the time that were sent; the message that
-- is pointed at is the sender's host name.
pub beacon_transfer :
    (d : Datagram) (rest host_name : List ℕ) (seq time_ns : ℕ) (info : PacketInfo)
    → IsDatagram d
    → d.payload ≡ beacon_packet host_name seq time_ns
    → info.received_data ≡ datagram d rest
    → info.received_size ≡ datagram_size d
    → seq < 2 ^ 64
    → time_ns < 2 ^ 64
    → (process_raw d.group info ≡ done (received_beacon d host_name seq time_ns info))
      × (take (length host_name) (drop (28 + length d.options + 26) info.received_data) ≡ host_name)
unfolding accept
beacon_transfer d rest host_name seq time_ns info ok payload_is received size s t =
    let headers = (ip_hdr d ++ d.options) ++ udp_hdr d in
    let packet = beacon_packet host_name seq time_ns in
    let size_is : length d.payload ≡ 26 + length host_name = omega (arith, ap length payload_is) in
    let behind = received ∙ payload_behind d packet rest payload_is in
    let dissected =
      dissect-beacon_packet headers host_name rest seq time_ns (with_payload d info)
        (override_ttl-received_data d.ttl (addressed d info) ∙ behind) (sym (length-headers d))
        size_is (omega (arith, ok.payload_limit)) s t in
    (
      process_raw-datagram d rest info ok received size
          ∙ rw (accept, dissected)
              (ap
                (λ w. done (record (received_beacon d host_name seq time_ns info) { warnings = w }))
                (append-nil (override_ttl d.ttl (addressed d info)).1)),
      message_behind headers host_name rest info.received_data seq time_ns (28 + length d.options)
          behind (sym (length-headers d)),
    )
