-- ===== src/Packets/Sealed.antt =====
-- The IPv4 header that the packets begin with, and the checksum that they end with.
use pimc_toolkit.Common.{
  ℕ, ◌+◌, ◌-◌, ◌%◌, ◌/◌, ◌^◌, ◌≡◌, refl, ◌∙◌, ap, List, [], ◌∷◌, ◌++◌, append-nil, true, ◌==◌,
  length, take, take-length, drop, done, arith,
}
use pimc_toolkit.Net.Address.{IPv4Address, oct1, oct2, oct3, oct4, to_nl}
use pimc_toolkit.Packets.Writer.{
  PacketWriter, writer_at, bytes16, htons, written, zeros, zeros_split, store, put,
}
use pimc_toolkit.Packets.Pim.{write_chk_sum}
use pimc_toolkit.Packets.Checksum.{ip_checksum_ns}
use pimc_toolkit.Packets.Checksum.Sum.{weigh}
use pimc_toolkit.Packets.Encoding.{octets, number16}
use pimc_toolkit.Packets.UpdatePacket.{write_ip_hdr, check_and_sum}

-- The IPv4 header of a packet of `sz` bytes to all PIM routers; its checksum is left to the system.
abbrev pub ip_header : ℕ → IPv4Address → List ℕ
ip_header sz source =
    0x45
    ∷ 192
    ∷ (number16 (sz % 2 ^ 16)
        ++ (0 ∷ 0 ∷ 0x40 ∷ 0 ∷ 1 ∷ 103 ∷ 0 ∷ 0 ∷ (octets source ++ (224 ∷ 0 ∷ 0 ∷ 13 ∷ []))))

pub write_ip_hdr_lem :
    (sz k : ℕ) (source : IPv4Address)
    → sz ≡ 20 + k
    → write_ip_hdr sz source (writer_at (zeros sz) 0) ≡ done (written 0 (ip_header sz source) k)
unfolding write_ip_hdr store zeros
write_ip_hdr_lem sz k source h =
    let x = sz % 2 ^ 16 in
    let s1 : htons x % 2 ^ 8 ≡ x / 2 ^ 8 % 2 ^ 8 = omega arith in
    let s2 : htons x / 2 ^ 8 % 2 ^ 8 ≡ x % 2 ^ 8 = omega arith in
    let b1 : to_nl source % 2 ^ 8 ≡ oct1 source = omega arith in
    let b2 : to_nl source / 2 ^ 8 % 2 ^ 8 ≡ oct2 source = omega arith in
    let b3 : to_nl source / 2 ^ 16 % 2 ^ 8 ≡ oct3 source = omega arith in
    let b4 : to_nl source / 2 ^ 24 % 2 ^ 8 ≡ oct4 source = omega arith in
    rw (zeros_split 20 k sz h, s1, s2, b1, b2, b3, b4) refl

sum_stored :
    (base sz c : ℕ) (pw : PacketWriter) (m : List ℕ)
    → take sz (drop pw.start pw.memory) ≡ m
    → ip_checksum_ns (base + pw.start) m ≡ done c
    → write_chk_sum base pw sz ≡ put (record pw { stop = pw.stop + 4 }) (pw.stop + 2) (bytes16 c)
unfolding write_chk_sum
sum_stored base sz c pw m t e = rw (t, e) refl

-- The checksum goes into the third and fourth byte of the message.
write_chk_sum_lem :
    (base sz source_size c t : ℕ) (source : IPv4Address) (body : List ℕ)
    → sz ≡ 4 + length body
    → ip_checksum_ns (base + 20) (t ∷ 0 ∷ 0 ∷ 0 ∷ body) ≡ done c
    → write_chk_sum base
        (record {
          memory = ip_header source_size source ++ (t ∷ 0 ∷ 0 ∷ 0 ∷ body);
          start = 20;
          stop = 20;
        })
        sz
      ≡ done (record {
        memory = ip_header source_size source ++ (t ∷ 0 ∷ (bytes16 c ++ body));
        start = 20;
        stop = 24;
      })
unfolding store
write_chk_sum_lem base sz source_size c t source body h e =
    let m = t ∷ 0 ∷ 0 ∷ 0 ∷ body in
    let size_is : sz ≡ length m = omega arith in
    let all : take sz m ≡ m = ap (λ n. take n m) size_is ∙ take-length m in
    sum_stored base sz c
      (record { memory = ip_header source_size source ++ m; start = 20; stop = 20 }) m all e
    ∙ refl

pub sum_in_place :
    (c t : ℕ) (body : List ℕ)
    → weigh true (t ∷ 0 ∷ (bytes16 c ++ body)) ≡ weigh true (bytes16 c ++ (t ∷ 0 ∷ 0 ∷ 0 ∷ body))
unfolding weigh
sum_in_place c t body = omega arith

-- The rest of a constructor, where the message with a checksum of 0 has been written: the size is
-- right, and the checksum goes into the message.
pub check_and_sum_lem :
    (base pim sz c t : ℕ) (source : IPv4Address) (body : List ℕ)
    → pim ≡ 4 + length body
    → sz ≡ 20 + pim
    → ip_checksum_ns (base + 20) (t ∷ 0 ∷ 0 ∷ 0 ∷ body) ≡ done c
    → check_and_sum base sz pim
        (record { memory = ip_header sz source ++ zeros pim; start = 20; stop = 20 })
        (written 0 (ip_header sz source ++ (t ∷ 0 ∷ 0 ∷ 0 ∷ body)) 0)
      ≡ done (ip_header sz source ++ (t ∷ 0 ∷ (bytes16 c ++ body)))
unfolding check_and_sum zeros
check_and_sum_lem base pim sz c t source body l z e =
    let m = ip_header sz source ++ (t ∷ 0 ∷ 0 ∷ 0 ∷ body) in
    let right_size : (length m - 0 == sz) ≡ true = ground arith in
    rw (right_size, append-nil m, write_chk_sum_lem base pim sz c t source body l e) refl
