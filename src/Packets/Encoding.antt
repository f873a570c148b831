-- ===== src/Packets/Encoding.antt =====
-- The bytes of a Join/Prune message as RFC 7761 lays them out (section 4.9), and the writers of
-- lib/pimc/packets/PIMSMv2Utils.hpp.
use pimc_toolkit.Common.{
  ℕ, ◌+◌, ◌*◌, ◌%◌, ◌/◌, ◌^◌, ◌≡◌, refl, ◌∙◌, ap, List, [], ◌∷◌, ◌++◌, append_assoc, Bool,
  if◌then◌else◌, length, length-append, done, ◌>>=◌, arith,
}
use pimc_toolkit.Net.Address.{IPv4Address, oct1, oct2, oct3, oct4, to_nl}
use pimc_toolkit.Pimsm.Update.{Source, GroupEntry, byte_size}
use pimc_toolkit.Packets.Writer.{emit, bytes16, bytes32, htons, written, emit_all, emit_lem, zeros}
use pimc_toolkit.Packets.Pim.{write_hdr, write_ipv4_addr, write_ipv4_grp, write_ipv4_src}

abbrev pub octets : IPv4Address → List ℕ
octets a = oct1 a ∷ oct2 a ∷ oct3 a ∷ oct4 a ∷ []

-- A number of 16 bits, the most significant byte first.
abbrev pub number16 : ℕ → List ℕ
number16 n = n / 2 ^ 8 % 2 ^ 8 ∷ n % 2 ^ 8 ∷ []

abbrev pub flags : Bool → Bool → ℕ
flags rpt wildcard = 4 + (if wildcard then 1 else 0) * 2 + (if rpt then 1 else 0)

abbrev pub encoded_source : Source → List ℕ
encoded_source s = 1 ∷ 0 ∷ flags s.rpt s.wildcard ∷ 32 ∷ octets s.addr

unfoldable pub encoded_sources : List Source → List ℕ
encoded_sources [] = []
encoded_sources (s ∷ rest) = encoded_source s ++ encoded_sources rest

abbrev pub encoded_group_header : GroupEntry → List ℕ
encoded_group_header ge =
    1
    ∷ 0
    ∷ 0
    ∷ 32
    ∷ (octets ge.group ++ (number16 (length ge.joins) ++ number16 (length ge.prunes)))

unfoldable pub encoded_group : GroupEntry → List ℕ
unfolding encoded_sources
encoded_group ge =
    encoded_group_header ge ++ (encoded_sources ge.joins ++ encoded_sources ge.prunes)

unfoldable pub encoded_groups : List GroupEntry → List ℕ
unfolding encoded_group
encoded_groups [] = []
encoded_groups (ge ∷ rest) = encoded_group ge ++ encoded_groups rest

abbrev pub encoded_jp_header : IPv4Address → ℕ → ℕ → List ℕ
encoded_jp_header neighbor groups holdtime =
    1 ∷ 0 ∷ (octets neighbor ++ (0 ∷ groups % 2 ^ 8 ∷ number16 holdtime))

-- The bytes of a number in network order are those of the number from the most significant one down.
pub bytes32-to_nl : (a : IPv4Address) → bytes32 (to_nl a) ≡ octets a
bytes32-to_nl a =
    let b1 : to_nl a % 2 ^ 8 ≡ oct1 a = omega arith in
    let b2 : to_nl a / 2 ^ 8 % 2 ^ 8 ≡ oct2 a = omega arith in
    let b3 : to_nl a / 2 ^ 16 % 2 ^ 8 ≡ oct3 a = omega arith in
    let b4 : to_nl a / 2 ^ 24 % 2 ^ 8 ≡ oct4 a = omega arith in rw (b1, b2, b3, b4) refl

pub bytes16-htons : (n : ℕ) → bytes16 (htons n) ≡ number16 n
bytes16-htons n =
    let b1 : htons n % 2 ^ 8 ≡ n / 2 ^ 8 % 2 ^ 8 = omega arith in
    let b2 : htons n / 2 ^ 8 % 2 ^ 8 ≡ n % 2 ^ 8 = omega arith in rw (b1, b2) refl

pub length-encoded_sources : (ss : List Source) → length (encoded_sources ss) ≡ 8 * length ss
unfolding encoded_sources
length-encoded_sources [] = refl
length-encoded_sources (s ∷ ss) = omega (arith, length-encoded_sources ss)

pub length-encoded_group : (ge : GroupEntry) → length (encoded_group ge) ≡ byte_size ge
unfolding encoded_group
length-encoded_group ge = omega (
  arith,
  length-append (encoded_sources ge.joins) (encoded_sources ge.prunes),
  length-encoded_sources ge.joins,
  length-encoded_sources ge.prunes,
)

module _ (start : ℕ) (pre : List ℕ) where
  -- Two objects, one behind the other.
  pub emit_two :
      (bs cs : List ℕ) (n m k r : ℕ)
      → length bs ≡ n
      → length cs ≡ m
      → r ≡ n + (m + k)
      → (emit (written start pre r) n bs >>= λ pw. emit pw m cs)
        ≡ done (written start (pre ++ (bs ++ cs)) k)
  emit_two bs cs n m k r hb hc hr = rw (emit_all start pre bs n (m + k) r hb hr) (
      emit_all start (pre ++ bs) cs m k (m + k) hc refl
      ∙ ap (λ z. done (written start z k)) (append_assoc pre bs cs))

  pub write_ipv4_addr_lem :
      (a : IPv4Address) (k r : ℕ)
      → r ≡ 6 + k
      → write_ipv4_addr (written start pre r) a ≡ done (written start (pre ++ (1 ∷ 0 ∷ octets a)) k)
  unfolding write_ipv4_addr
  write_ipv4_addr_lem a k r h =
      emit_two (1 ∷ 0 ∷ []) (bytes32 (to_nl a)) 2 4 k r refl refl (omega arith)
      ∙ ap (λ o. done (written start (pre ++ (1 ∷ 0 ∷ o)) k)) (bytes32-to_nl a)

  pub write_ipv4_grp_lem :
      (a : IPv4Address) (k r : ℕ)
      → r ≡ 8 + k
      → write_ipv4_grp (written start pre r) a
        ≡ done (written start (pre ++ (1 ∷ 0 ∷ 0 ∷ 32 ∷ octets a)) k)
  unfolding write_ipv4_grp
  write_ipv4_grp_lem a k r h =
      emit_two (1 ∷ 0 ∷ 0 ∷ 32 ∷ []) (bytes32 (to_nl a)) 4 4 k r refl refl (omega arith)
      ∙ ap (λ o. done (written start (pre ++ (1 ∷ 0 ∷ 0 ∷ 32 ∷ o)) k)) (bytes32-to_nl a)

  pub write_ipv4_src_lem :
      (s : Source) (k r : ℕ)
      → r ≡ 8 + k
      → write_ipv4_src (written start pre r) s.addr s.rpt s.wildcard
        ≡ done (written start (pre ++ encoded_source s) k)
  unfolding write_ipv4_src
  write_ipv4_src_lem s k r h =
      emit_two (1 ∷ 0 ∷ flags s.rpt s.wildcard ∷ 32 ∷ []) (bytes32 (to_nl s.addr)) 4 4 k r refl refl
        (omega arith)
      ∙ ap (λ o. done (written start (pre ++ (1 ∷ 0 ∷ flags s.rpt s.wildcard ∷ 32 ∷ o)) k))
          (bytes32-to_nl s.addr)

  pub write_hdr_lem :
      (type k r : ℕ)
      → r ≡ 4 + k
      → write_hdr (written start pre r) type
        ≡ done (written start (pre ++ ((32 + type % 2 ^ 4) ∷ 0 ∷ 0 ∷ 0 ∷ [])) k)
  unfolding write_hdr zeros
  write_hdr_lem type k r h =
      emit_lem start pre ((32 + type % 2 ^ 4) ∷ 0 ∷ []) 4 2 k r refl (omega arith)
