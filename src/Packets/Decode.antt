-- ===== src/Packets/Decode.antt =====
-- A receiver of Join/Prune messages (RFC 7761, section 4.9), and what it makes of the message that
-- apps/pimc/packets/IPv4PIMUpdatePacket.cpp writes.
use pimc_toolkit.Common.{
  ℕ, drop, done, zero, suc, ◌+◌, ◌*◌, ◌%◌, ◌/◌, ◌^◌, ◌≤◌, ◌<◌, ◌≡◌, refl, sym, ◌∙◌, ap, List, [],
  ◌∷◌, ◌++◌, append_assoc, append-nil, All, ◌&&◌, ◌==◌, if◌then◌else◌, Option, none, some, length,
  sum_of, arith,
}
use pimc_toolkit.Common.Maybe.{◌>>=◌}
use pimc_toolkit.Net.Address.{IPv4Address, of_octets, of_octets-octets}
use pimc_toolkit.Pimsm.Params.{jp_capacity}
use pimc_toolkit.Pimsm.Update.{Source, GroupEntry, Update, byte_size}
use pimc_toolkit.Packets.Encoding.{
  flags, encoded_source, encoded_sources, encoded_group, encoded_groups,
}
use pimc_toolkit.Packets.Packet.{jp_message, packet_size, update_packet_exact}
use pimc_toolkit.Packets.Sealed.{ip_header}
use pimc_toolkit.Packets.UpdatePacket.{update_packet}

-- A single source of the native encoding with a mask of 32 bits.
unfoldable pub decode_source : List ℕ → Option (Source × List ℕ)
decode_source (family ∷ encoding ∷ f ∷ mask ∷ o1 ∷ o2 ∷ o3 ∷ o4 ∷ rest) =
    if (family == 1) && (encoding == 0) && (mask == 32)
    then some
        (record { addr = of_octets o1 o2 o3 o4; wildcard = f / 2 % 2 == 1; rpt = f % 2 == 1 }, rest)
    else none
decode_source _ = none

unfoldable pub decode_sources : ℕ → List ℕ → Option (List Source × List ℕ)
decode_sources zero bytes = some ([], bytes)
decode_sources (suc n) bytes = do
  (s, rest) ← decode_source bytes
  (ss, rest') ← decode_sources n rest
  some (s ∷ ss, rest')

unfoldable pub decode_group : List ℕ → Option (GroupEntry × List ℕ)
decode_group (family ∷ encoding ∷ _ ∷ mask ∷ o1 ∷ o2 ∷ o3 ∷ o4 ∷ j1 ∷ j0 ∷ p1 ∷ p0 ∷ rest) = do
  (joins, rest1) ← decode_sources (j1 * 256 + j0) rest
  (prunes, rest2) ← decode_sources (p1 * 256 + p0) rest1
  if (family == 1) && (encoding == 0) && (mask == 32)
      then some (record { group = of_octets o1 o2 o3 o4; joins = joins; prunes = prunes }, rest2)
      else none
decode_group _ = none

unfoldable pub decode_groups : ℕ → List ℕ → Option (List GroupEntry × List ℕ)
decode_groups zero bytes = some ([], bytes)
decode_groups (suc n) bytes = do
  (ge, rest) ← decode_group bytes
  (gs, rest') ← decode_groups n rest
  some (ge ∷ gs, rest')

-- The upstream neighbor, the hold time and the groups of a message, and no bytes behind them.
unfoldable pub decode_message : List ℕ → Option (IPv4Address × ℕ × Update)
decode_message (vt ∷ _ ∷ _ ∷ _ ∷ family ∷ encoding ∷ o1 ∷ o2 ∷ o3 ∷ o4 ∷ _ ∷ n ∷ h1 ∷ h0 ∷ rest) =
    do
      (gs, rest') ← decode_groups n rest
      if (vt == 0x23) && (family == 1) && (encoding == 0) && (length rest' == 0)
          then some (of_octets o1 o2 o3 o4, h1 * 256 + h0, record { groups = gs })
          else none
decode_message _ = none

-- All addresses are of 32 bits.
abbrev pub SourceOf32Bits : Source → Type 0
SourceOf32Bits s = s.addr < 2 ^ 32

pub record GroupOf32Bits (ge : GroupEntry) : Type 0 where
  pub group_bits : ge.group < 2 ^ 32
  pub join_bits : All SourceOf32Bits ge.joins
  pub prune_bits : All SourceOf32Bits ge.prunes

read_source :
    (s : Source) (rest : List ℕ)
    → SourceOf32Bits s
    → decode_source (encoded_source s ++ rest) ≡ some (s, rest)
unfolding decode_source
read_source s rest h =
    let w : (flags s.rpt s.wildcard / 2 % 2 == 1) ≡ s.wildcard = ground arith in
    let r : (flags s.rpt s.wildcard % 2 == 1) ≡ s.rpt = ground arith in
    rw (w, r, of_octets-octets s.addr h) refl

read_sources :
    (ss : List Source) (n : ℕ) (rest : List ℕ)
    → n ≡ length ss
    → All SourceOf32Bits ss
    → decode_sources n (encoded_sources ss ++ rest) ≡ some (ss, rest)
unfolding decode_sources encoded_sources
read_sources [] zero rest k h = refl
read_sources [] (suc n) rest k h = ground arith
read_sources (s ∷ ss) zero rest k h = ground arith
read_sources (s ∷ ss) (suc n) rest k h =
    rw (read_source s (encoded_sources ss ++ rest) h.0, read_sources ss n rest (omega arith) h.1)
      refl

read_group :
    (ge : GroupEntry) (rest : List ℕ)
    → byte_size ge ≤ jp_capacity
    → GroupOf32Bits ge
    → decode_group (encoded_group ge ++ rest) ≡ some (ge, rest)
unfolding decode_group encoded_group
read_group ge rest small h =
    let nj = length ge.joins in
    let np = length ge.prunes in
    let js = encoded_sources ge.joins in
    let ps = encoded_sources ge.prunes in
    let behind : (js ++ ps) ++ rest ≡ js ++ (ps ++ rest) = append_assoc js ps rest in
    rw
      (
        behind,
        read_sources ge.joins (nj / 2 ^ 8 % 2 ^ 8 * 256 + nj % 2 ^ 8) (ps ++ rest) (omega arith)
            h.join_bits,
        read_sources ge.prunes (np / 2 ^ 8 % 2 ^ 8 * 256 + np % 2 ^ 8) rest (omega arith)
            h.prune_bits,
        of_octets-octets ge.group h.group_bits,
      )
      refl

read_groups :
    (gs : List GroupEntry) (n : ℕ) (rest : List ℕ)
    → n ≡ length gs
    → sum_of byte_size gs ≤ jp_capacity
    → All GroupOf32Bits gs
    → decode_groups n (encoded_groups gs ++ rest) ≡ some (gs, rest)
unfolding decode_groups encoded_groups
read_groups [] zero rest k small h = refl
read_groups [] (suc n) rest k small h = ground arith
read_groups (ge ∷ gs) zero rest k small h = ground arith
read_groups (ge ∷ gs) (suc n) rest k small h =
    let behind : (encoded_group ge ++ encoded_groups gs) ++ rest
        ≡ encoded_group ge ++ (encoded_groups gs ++ rest) =
      append_assoc (encoded_group ge) (encoded_groups gs) rest in
    rw
      (
        behind,
        read_group ge (encoded_groups gs ++ rest) (omega arith) h.0,
        read_groups gs n rest (omega arith) (omega arith) h.1,
      )
      refl

length-le-sum : (gs : List GroupEntry) → 12 * length gs ≤ sum_of byte_size gs
length-le-sum [] = omega arith
length-le-sum (ge ∷ gs) = omega (arith, length-le-sum gs)

-- A receiver reads the message of an update that fits back whole, with whatever checksum: the
-- neighbor, the hold time and the update, where the addresses have 32 bits and the hold time 16.
pub decode-jp_message :
    (sum : ℕ) (u : Update) (neighbor : IPv4Address) (holdtime : ℕ)
    → sum_of byte_size u.groups ≤ jp_capacity
    → All GroupOf32Bits u.groups
    → neighbor < 2 ^ 32
    → holdtime < 2 ^ 16
    → decode_message (jp_message sum u neighbor holdtime) ≡ some (neighbor, holdtime, u)
unfolding decode_message
decode-jp_message sum u neighbor holdtime small h hn ht =
    let n = length u.groups in
    let count : n % 2 ^ 8 ≡ n = omega (arith, length-le-sum u.groups) in
    let time : holdtime / 2 ^ 8 % 2 ^ 8 * 256 + holdtime % 2 ^ 8 ≡ holdtime = omega arith in
    let read : decode_groups n (encoded_groups u.groups) ≡ some (u.groups, []) =
      ap (decode_groups n) (sym (append-nil (encoded_groups u.groups)))
      ∙ read_groups u.groups n [] refl small h in
    rw (count, read, time, of_octets-octets neighbor hn) refl

-- From the packet that the constructor makes of an update that fits, a receiver recovers the neighbor,
-- the hold time and the update, where the addresses have 32 bits and the hold time 16: the bytes
-- behind the IPv4 header are the message, and nothing of the update is lost in it.
pub update_packet_roundtrip :
    (base : ℕ) (u : Update) (source neighbor : IPv4Address) (holdtime : ℕ)
    → sum_of byte_size u.groups ≤ jp_capacity
    → All GroupOf32Bits u.groups
    → neighbor < 2 ^ 32
    → holdtime < 2 ^ 16
    → (bytes : List ℕ) × (update_packet base u source neighbor holdtime ≡ done bytes)
      × (decode_message (drop 20 bytes) ≡ some (neighbor, holdtime, u))
update_packet_roundtrip base u source neighbor holdtime small h hn ht =
    let p = update_packet_exact base u source neighbor holdtime small in
    (
      ip_header (packet_size u) source ++ jp_message p.sum u neighbor holdtime,
      p.bytes,
      decode-jp_message p.sum u neighbor holdtime small h hn ht,
    )
