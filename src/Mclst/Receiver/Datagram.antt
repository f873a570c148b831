-- ===== src/Mclst/Receiver/Datagram.antt =====
-- What the raw receiver of apps/mclst makes of a UDP datagram for its group.
use pimc_toolkit.Common.{
  ℕ, ◌+◌, ◌-◌, ◌*◌, ◌/◌, ◌≤◌, ◌<◌, ◌^◌, ◌%◌, ◌≡◌, refl, ap, ◌∙◌, List, ◌∷◌, ◌++◌, append-nil, false,
  true, ltb, leb, ◌==◌, length, sub64, done, arith,
}
use pimc_toolkit.Net.Address.{IPv4Address, to_nl, from_nl-to_nl}
use pimc_toolkit.Packets.Writer.{htons}
use pimc_toolkit.Packets.Encoding.{octets, number16}
use pimc_toolkit.Packets.Views.{PacketView, take_bytes, skip, read16, read32}
use pimc_toolkit.Packets.Views.Reads.{read16_behind}
use pimc_toolkit.Packets.Ipv4HdrView
use pimc_toolkit.Packets.UdpHdrView
use pimc_toolkit.Mclst.PacketInfo.{PacketInfo, Warning}
use pimc_toolkit.Mclst.Receiver.{
  accept, process_payload, override_ttl, process_headers, process_udp_datagram, process_raw,
}

-- An IPv4 header of RFC 791 with its options, and a UDP header of RFC 768.
pub record Datagram : Type 0 where
  pub tos : ℕ
  pub total_len : ℕ
  pub id : ℕ
  pub flags : ℕ
  pub ttl : ℕ
  pub hdr_checksum : ℕ
  pub source : IPv4Address
  pub group : IPv4Address
  pub options : List ℕ
  pub sport : ℕ
  pub dport : ℕ
  pub sum : ℕ
  pub payload : List ℕ

abbrev pub ip_hdr : Datagram → List ℕ
ip_hdr d =
    (4 * 2 ^ 4 + (5 + length d.options / 4))
    ∷ d.tos
    ∷ (number16 d.total_len
        ++ (number16 d.id
            ++ (number16 d.flags
                ++ (d.ttl
                    ∷ 17
                    ∷ (number16 d.hdr_checksum ++ (octets d.source ++ octets d.group))))))

abbrev pub udp_hdr : Datagram → List ℕ
udp_hdr d =
    number16 d.sport ++ (number16 d.dport ++ (number16 (8 + length d.payload) ++ number16 d.sum))

-- The datagram, and what the buffer holds behind it.
abbrev pub datagram : Datagram → List ℕ → List ℕ
datagram d rest = (ip_hdr d ++ d.options) ++ (udp_hdr d ++ (d.payload ++ rest))

abbrev pub datagram_size : Datagram → ℕ
datagram_size d = 28 + length d.options + length d.payload

-- The fields have the widths of the headers, and the options are up to ten words.
pub record IsDatagram (d : Datagram) : Type 0 where
  pub source_bits : d.source < 2 ^ 32
  pub group_bits : d.group < 2 ^ 32
  pub option_words : length d.options ≡ length d.options / 4 * 4
  pub option_limit : length d.options ≤ 40
  pub sport_bits : d.sport < 2 ^ 16
  pub dport_bits : d.dport < 2 ^ 16
  pub payload_limit : 8 + length d.payload < 2 ^ 16

-- The information on the packet where its headers are read.
abbrev pub addressed : Datagram → PacketInfo → PacketInfo
addressed d info = record info { source = d.source; sport = d.sport; dport = d.dport }

-- The information on the packet that is dissected.
abbrev pub with_payload : Datagram → PacketInfo → PacketInfo
with_payload d info = record (override_ttl d.ttl (addressed d info)).0 {
  payload = 28 + length d.options;
  payload_size = length d.payload;
}

-- What a field in network byte order is read as.
abbrev net16 : ℕ → ℕ
net16 n = n / 2 ^ 8 % 2 ^ 8 + n % 2 ^ 8 * 2 ^ 8

htons-net16 : (n : ℕ) → n < 2 ^ 16 → htons (net16 n) ≡ n
htons-net16 n h = omega arith

module _ (d : Datagram) (rest : List ℕ) where
  abbrev m : List ℕ
  m = datagram d rest

  read_saddr : Ipv4HdrView.saddr 0 m ≡ done (to_nl d.source)
  unfolding read16 read32
  read_saddr = ap done (omega arith)

  read_daddr : Ipv4HdrView.daddr 0 m ≡ done (to_nl d.group)
  unfolding read16 read32
  read_daddr = ap done (omega arith)

  -- The fields of the UDP header, which stands behind the IPv4 header.
  read_udp :
      (i p : ℕ)
      → p ≡ 20 + length d.options + i
      → read16 p m ≡ read16 i (udp_hdr d ++ (d.payload ++ rest))
  read_udp i p h =
      read16_behind (ip_hdr d ++ d.options) (udp_hdr d ++ (d.payload ++ rest)) i p (omega arith)

  read_sport : (p : ℕ) → p ≡ 20 + length d.options → UdpHdrView.sport p m ≡ done (net16 d.sport)
  unfolding read16
  read_sport p h = read_udp 0 p (omega arith)

  read_dport : (p : ℕ) → p ≡ 20 + length d.options → UdpHdrView.dport p m ≡ done (net16 d.dport)
  unfolding read16
  read_dport p h = read_udp 2 (p + 2) (omega arith)

  read_len :
      (p : ℕ)
      → p ≡ 20 + length d.options
      → UdpHdrView.datagram_len p m ≡ done (net16 (8 + length d.payload))
  unfolding read16
  read_len p h = read_udp 4 (p + 4) (omega arith)

process_payload_lem :
    (pv : PacketView) (n : ℕ) (info : PacketInfo) (warnings : List Warning)
    → pv.len ≡ pv.taken + n
    → pv.len < 2 ^ 32
    → process_payload pv (8 + n) info warnings
      ≡ accept (record info { payload = pv.taken; payload_size = n }) warnings
unfolding process_payload
process_payload_lem pv n info warnings h l =
    let rem_is : sub64 pv.len pv.taken ≡ n = omega arith in
    let size_is : 8 + n - 8 ≡ n = omega arith in
    let enough : ltb (8 + n) 8 ≡ false = ground arith in
    let all : ltb n n ≡ false = ground arith in
    rw (process_payload, rem_is, size_is, enough, all)
      (ap (accept (record info { payload = pv.taken; payload_size = n })) (append-nil warnings))

module _ (d : Datagram) (rest : List ℕ) (info : PacketInfo) where
  process_headers_lem :
      (pv : PacketView) (udp : ℕ)
      → IsDatagram d
      → info.received_data ≡ datagram d rest
      → pv.len ≡ datagram_size d
      → pv.taken ≡ 28 + length d.options
      → udp ≡ 20 + length d.options
      → process_headers 0 udp pv info
        ≡ accept (with_payload d info) (override_ttl d.ttl (addressed d info)).1
  unfolding process_headers
  process_headers_lem pv udp ok received len taken at =
      let saddr = ap (Ipv4HdrView.saddr 0) received ∙ read_saddr d rest in
      let sport = ap (UdpHdrView.sport udp) received ∙ read_sport d rest udp at in
      let dport = ap (UdpHdrView.dport udp) received ∙ read_dport d rest udp at in
      let ttl : Ipv4HdrView.ttl 0 info.received_data ≡ done d.ttl = rw received refl in
      let size = ap (UdpHdrView.datagram_len udp) received ∙ read_len d rest udp at in
      rw
        (
          process_headers,
          saddr,
          sport,
          dport,
          ttl,
          size,
          from_nl-to_nl d.source ok.source_bits,
          htons-net16 d.sport ok.sport_bits,
          htons-net16 d.dport ok.dport_bits,
          htons-net16 (8 + length d.payload) ok.payload_limit,
        )
        (process_payload_lem pv (length d.payload) (override_ttl d.ttl (addressed d info)).0
            (override_ttl d.ttl (addressed d info)).1 (omega arith)
            (omega (arith, ok.option_limit, ok.payload_limit))
          ∙ ap
              (λ k.
                accept
                  (record (override_ttl d.ttl (addressed d info)).0 {
                    payload = k;
                    payload_size = length d.payload;
                  })
                  (override_ttl d.ttl (addressed d info)).1)
              taken)

  process_udp_datagram_lem :
      (pv : PacketView)
      → IsDatagram d
      → info.received_data ≡ datagram d rest
      → pv.start ≡ 0
      → pv.len ≡ datagram_size d
      → pv.taken ≡ 20
      → process_udp_datagram 0 pv info
        ≡ accept (with_payload d info) (override_ttl d.ttl (addressed d info)).1
  unfolding process_udp_datagram take_bytes skip
  process_udp_datagram_lem pv ok received start len taken =
      let lo = length d.options in
      let ihl : Ipv4HdrView.ihl 0 info.received_data ≡ done ((4 * 2 ^ 4 + (5 + lo / 4)) % 2 ^ 4) =
        rw received refl in
      let size_is : (4 * 2 ^ 4 + (5 + lo / 4)) % 2 ^ 4 * 2 ^ 2 % 2 ^ 16 ≡ 20 + lo =
        omega (arith, ok.option_limit, ok.option_words) in
      let right : ltb (20 + lo) 20 ≡ false = ground arith in
      let options_are : sub64 (20 + lo) 20 ≡ lo = omega (arith, ok.option_limit) in
      let wrap1 : (pv.taken + lo) % 2 ^ 64 ≡ 20 + lo = omega (arith, ok.option_limit) in
      let wrap2 : (20 + lo + 8) % 2 ^ 64 ≡ 28 + lo = omega (arith, ok.option_limit) in
      let fits1 : leb (20 + lo) pv.len ≡ true = ground arith in
      let fits2 : leb (28 + lo) pv.len ≡ true = ground arith in
      rw
        (
          process_udp_datagram, ihl, size_is, right, options_are, skip, wrap1, fits1, take_bytes,
          wrap2, fits2,
        )
        (process_headers_lem (record pv { taken = 28 + lo }) (pv.start + (20 + lo)) ok received len
          refl (omega arith))

  -- A UDP datagram of the group, whatever options its IPv4 header has, is taken apart the way RFC 791
  -- and RFC 768 lay it out: it goes on to the dissection of its payload with its source, its ports
  -- and, where the control message says otherwise, the TTL of its header.
  pub process_raw-datagram :
      IsDatagram d
      → info.received_data ≡ datagram d rest
      → info.received_size ≡ datagram_size d
      → process_raw d.group info
        ≡ accept (with_payload d info) (override_ttl d.ttl (addressed d info)).1
  unfolding process_raw take_bytes
  process_raw-datagram ok received size =
      let daddr = ap (Ipv4HdrView.daddr 0) received ∙ read_daddr d rest in
      let protocol : Ipv4HdrView.protocol 0 info.received_data ≡ done 17 = rw received refl in
      let fits : leb 20 info.received_size ≡ true = ground arith in
      let same : (to_nl d.group == to_nl d.group) ≡ true = ground arith in
      rw (process_raw, take_bytes, fits, daddr, protocol, same)
        (process_udp_datagram_lem (record { start = 0; len = info.received_size; taken = 20 }) ok
          received refl size refl)
