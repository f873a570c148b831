-- ===== src/Mclst/Receiver/Within.antt =====
-- The receivers of apps/mclst stay within the data that was received.
use pimc_toolkit.Common.{
  ℕ, ◌+◌, ◌-◌, ◌*◌, ◌≤◌, ◌<◌, ◌^◌, ◌%◌, ◌≡◌, refl, sym, Bool, true, false, Bool-cases, ltb, ◌==◌,
  inl, inr, List, [], ◌∷◌, length, sub64, Returns, arith,
}
use pimc_toolkit.Common.Int.{eqℤ}
use pimc_toolkit.Net.Address.{IPv4Address, to_nl}
use pimc_toolkit.Packets.Writer.{htons}
use pimc_toolkit.Packets.Views.{PacketView, view_of}
use pimc_toolkit.Packets.Views.Reads.{
  read8_within, read16_within, read32_within, read_be_within, take_bytes-cases, skip-cases,
}
use pimc_toolkit.Mclst.PacketInfo.{
  PacketInfo, PacketStatus, filtered, accepted_no_show, accepted_show, Warning, other_ttl,
}
use pimc_toolkit.Mclst.Beacon.{
  mclst_magic, hdr_size, view_header, take_message, dissect_mclst_beacon_payload,
}
use pimc_toolkit.Mclst.Receiver.{
  Processed, accept, process_udp, process_payload, process_headers, process_udp_datagram,
  process_raw,
}

-- The message of a beacon is part of the payload.
abbrev pub IsMessageWithin : PacketInfo → Bool → Type 0
IsMessageWithin info true =
    (info.payload ≤ info.remote_msg)
    × (info.remote_msg + info.remote_msg_len ≤ info.payload + info.payload_size)
IsMessageWithin info false = Unit

-- What is shown is part of the first `size` bytes that were received.
abbrev pub IsShownWithin : ℕ → PacketInfo → PacketStatus → Type 0
IsShownWithin size info filtered = Unit
IsShownWithin size info accepted_no_show = Unit
IsShownWithin size info accepted_show =
    (info.payload + info.payload_size ≤ size) × IsMessageWithin info info.mclst_beacon

abbrev pub IsWithin : ℕ → Processed → Type 0
IsWithin size r = IsShownWithin size r.info r.status

abbrev HasLength : PacketInfo → Bool → Type 0
HasLength info true = info.remote_msg_len < 2 ^ 16
HasLength info false = Unit

-- The header of a beacon changes what is said of the beacon alone.
abbrev IsViewed : PacketInfo → PacketInfo → Type 0
IsViewed info viewed =
    (viewed.payload ≡ info.payload)
    × (viewed.payload_size ≡ info.payload_size)
    × HasLength viewed viewed.mclst_beacon

view_header_within :
    (p : ℕ) (info : PacketInfo)
    → info.mclst_beacon ≡ false
    → p + hdr_size ≤ length info.received_data
    → Returns (IsViewed info) (view_header p info)
unfolding view_header
view_header_within p info new h =
    let m = info.received_data in
    let (magic, e0, _) = read_be_within 8 0 p m (omega arith) in
    let (seq, e1, _) = read_be_within 8 0 (p + 8) m (omega arith) in
    let (time, e2, _) = read_be_within 8 0 (p + 16) m (omega arith) in
    let (len, e3, _) = read16_within (p + 24) m (omega arith) in
    elim (Bool-cases (magic == mclst_magic)) [
      | inl same ↦ rw (e0, same, e1, e2, e3) (_, refl, (refl, refl, omega arith))
      | inr other ↦ rw (e0, other) (info, refl, (refl, refl, rw new tt))
    ]

-- The message behind the header of a beacon.
take_message_within :
    (size : ℕ) (pv : PacketView) (info : PacketInfo)
    → pv.start ≡ info.payload
    → pv.len ≡ info.payload_size
    → pv.taken ≡ hdr_size
    → info.payload + info.payload_size ≤ size
    → size < 2 ^ 32
    → info.remote_msg_len < 2 ^ 16
    → info.mclst_beacon ≡ true
    → IsShownWithin size (take_message pv info).0 accepted_show
unfolding take_message
take_message_within size pv info start len at h s l beacon =
    elim (take_bytes-cases info.remote_msg_len pv (omega arith)) [
      | inl short ↦ rw (take_message, short) (h, tt)
      | inr (fits, taken) ↦ rw (take_message, taken, beacon) (h, (omega arith, omega arith))
    ]

dissect_within :
    (size : ℕ) (info : PacketInfo)
    → info.mclst_beacon ≡ false
    → info.payload + info.payload_size ≤ size
    → size ≤ length info.received_data
    → size < 2 ^ 32
    → Returns (λ r. IsShownWithin size r.0 accepted_show) (dissect_mclst_beacon_payload info)
unfolding dissect_mclst_beacon_payload
dissect_within size info new h d s =
    elim (take_bytes-cases hdr_size (view_of info.payload info.payload_size) (omega arith)) [
      | inl short ↦ rw (dissect_mclst_beacon_payload, short) (_, refl, (h, rw new tt))
      | inr (fits, taken) ↦
          let (viewed, e, (p, n, l)) =
            view_header_within (info.payload + 0) info new (omega arith) in
          elim (Bool-cases viewed.mclst_beacon) [
            | inl beacon ↦
                rw (dissect_mclst_beacon_payload, taken, e, beacon)
                  (
                    _,
                    refl,
                    take_message_within size _ viewed (sym p) (sym n) refl (omega arith) s
                        (rw beacon at l) beacon,
                  )
            | inr other ↦
                rw (dissect_mclst_beacon_payload, taken, e, other)
                  (_, refl, (omega arith, rw other tt))
          ]
    ]

abbrev IsGood : PacketInfo → ℕ → Type 0
IsGood info size =
    (info.mclst_beacon ≡ false) × (size ≤ length info.received_data) × (size < 2 ^ 32)

accept-IsWithin :
    (size : ℕ) (info : PacketInfo) (warnings : List Warning)
    → IsGood info size
    → info.payload + info.payload_size ≤ size
    → Returns (λ r. (r.status ≡ accepted_show) × IsWithin size r) (accept info warnings)
unfolding accept
accept-IsWithin size info warnings (new, d, s) h =
    let (r, e, within) = dissect_within size info new h d s in
    rw (accept, e) (_, refl, (refl, within))

-- The receiver on a UDP socket shows each received packet; what it shows lies within the bytes
-- received, and so does the message of a beacon within the payload. No read leaves the data.
pub process_udp-IsWithin :
    (dport s_addr sin_port : ℕ) (info : PacketInfo)
    → info.mclst_beacon ≡ false
    → info.received_size ≤ length info.received_data
    → info.received_size < 2 ^ 32
    → Returns
        (λ r. (r.status ≡ accepted_show) × IsWithin info.received_size r)
        (process_udp dport s_addr sin_port info)
unfolding process_udp
process_udp-IsWithin dport s_addr sin_port info new d s =
    let all : 0 + info.received_size ≤ info.received_size = omega arith in
    accept-IsWithin info.received_size _ [] (new, d, s) all

process_payload-IsWithin :
    (pv : PacketView) (udp_size : ℕ) (info : PacketInfo) (warnings : List Warning)
    → IsGood info pv.len
    → pv.taken ≤ pv.len
    → Returns (IsWithin pv.len) (process_payload pv udp_size info warnings)
unfolding process_payload
process_payload-IsWithin pv udp_size info warnings good h =
    let rem_is : sub64 pv.len pv.taken ≡ pv.len - pv.taken = omega (arith, good.2) in
    elim (Bool-cases (ltb udp_size 8)) [
      | inl small ↦ rw (process_payload, small) (_, refl, tt)
      | inr enough ↦ elim (Bool-cases (ltb (sub64 pv.len pv.taken) (udp_size - 8))) [
        | inl large ↦ rw (process_payload, enough, large) (_, refl, tt)
        | inr fits ↦
            let room : pv.taken + (udp_size - 8) ≤ pv.len = ground arith in
            let (r, e, (_, within)) = accept-IsWithin pv.len _ _ good room in
            rw (process_payload, enough, fits) (r, e, within)
      ]
    ]

process_headers-IsWithin :
    (ip udp : ℕ) (pv : PacketView) (info : PacketInfo)
    → IsGood info pv.len
    → pv.taken ≤ pv.len
    → ip + 20 ≤ pv.len
    → udp + 8 ≤ pv.len
    → Returns (IsWithin pv.len) (process_headers ip udp pv info)
unfolding process_headers
process_headers-IsWithin ip udp pv info good h hip hudp =
    let m = info.received_data in
    let (saddr, e0, _) = read32_within (ip + 12) m (omega (arith, good.1)) in
    let (sport, e1, _) = read16_within udp m (omega (arith, good.1)) in
    let (dport, e2, _) = read16_within (udp + 2) m (omega (arith, good.1)) in
    let (ttl, e3, _) = read8_within (ip + 8) m (omega (arith, good.1)) in
    let (len, e4, _) = read16_within (udp + 4) m (omega (arith, good.1)) in
    elim (Bool-cases (eqℤ info.ttl ttl)) [
      | inl same ↦
          rw (process_headers, e0, e1, e2, e3, e4, same)
            (process_payload-IsWithin pv (htons len) _ [] good h)
      | inr other ↦
          rw (process_headers, e0, e1, e2, e3, e4, other)
            (process_payload-IsWithin pv (htons len) _ (other_ttl info.ttl ttl ∷ []) good h)
    ]

process_udp_datagram-IsWithin :
    (ip : ℕ) (pv : PacketView) (info : PacketInfo)
    → IsGood info pv.len
    → pv.start ≡ 0
    → pv.taken ≡ 20
    → ip + 20 ≤ pv.len
    → Returns (IsWithin pv.len) (process_udp_datagram ip pv info)
unfolding process_udp_datagram
process_udp_datagram-IsWithin ip pv info good start at hip =
    let m = info.received_data in
    let (b, e, _) = read8_within ip m (omega (arith, good.1)) in
    let size = b % 2 ^ 4 * 2 ^ 2 % 2 ^ 16 in
    elim (Bool-cases (ltb size 20)) [
      | inl corrupted ↦ rw (process_udp_datagram, e, corrupted) (_, refl, tt)
      | inr right ↦
          let options : sub64 size 20 ≡ size - 20 = ground arith in
          elim (skip-cases (sub64 size 20) pv (omega arith)) [
            | inl short ↦ rw (process_udp_datagram, e, right, short) (_, refl, tt)
            | inr (fits, skipped) ↦
                let behind = record pv { taken = pv.taken + sub64 size 20 } in
                elim (take_bytes-cases 8 behind (omega arith)) [
                  | inl short ↦ rw (process_udp_datagram, e, right, skipped, short) (_, refl, tt)
                  | inr (there, taken) ↦
                      rw (process_udp_datagram, e, right, skipped, taken)
                        (process_headers-IsWithin ip (behind.start + behind.taken)
                          (record pv { taken = behind.taken + 8 }) info good there hip
                          (omega arith))
                ]
          ]
    ]

-- What the raw receiver shows of a received packet, whatever its bytes are, lies within the bytes
-- received, and so does the message of a beacon within the payload. No read leaves the data.
pub process_raw-IsWithin :
    (group : IPv4Address) (info : PacketInfo)
    → info.mclst_beacon ≡ false
    → info.received_size ≤ length info.received_data
    → info.received_size < 2 ^ 32
    → Returns (IsWithin info.received_size) (process_raw group info)
unfolding process_raw
process_raw-IsWithin group info new d s =
    let m = info.received_data in
    elim (take_bytes-cases 20 (view_of 0 info.received_size) (omega arith)) [
      | inl short ↦ rw (process_raw, short) (_, refl, tt)
      | inr (there, taken) ↦
          let (dst, e0, _) = read32_within 16 m (omega arith) in
          let (protocol, e1, _) = read8_within 9 m (omega arith) in
          elim (Bool-cases (dst == to_nl group)) [
            | inr other ↦ rw (process_raw, taken, e0, e1, other) (_, refl, tt)
            | inl same ↦ elim (Bool-cases (protocol == 17)) [
              | inr other ↦ rw (process_raw, taken, e0, e1, same, other) (_, refl, tt)
              | inl is_udp ↦
                  rw (process_raw, taken, e0, e1, same, is_udp)
                    (process_udp_datagram-IsWithin 0
                      (record { start = 0; len = info.received_size; taken = 20 }) info (new, d, s)
                      refl refl there)
            ]
          ]
    ]
