-- ===== src/Packets/Bytes.antt =====
-- The encodings consist of bytes.
use pimc_toolkit.Common.{ℕ, List, [], ◌∷◌, ◌++◌, All, All-append, length, arith}
use pimc_toolkit.Net.Address.{IPv4Address}
use pimc_toolkit.Pimsm.Update.{Source, GroupEntry}
use pimc_toolkit.Packets.Checksum.Sum.{IsByte}
use pimc_toolkit.Packets.Encoding.{octets, number16, encoded_sources, encoded_group, encoded_groups}

pub octets-IsByte : (a : IPv4Address) → All IsByte (octets a)
octets-IsByte a = (omega arith, (omega arith, (omega arith, (omega arith, tt))))

pub number16-IsByte : (n : ℕ) → All IsByte (number16 n)
number16-IsByte n = (omega arith, (omega arith, tt))

encoded_sources-IsByte : (ss : List Source) → All IsByte (encoded_sources ss)
unfolding encoded_sources
encoded_sources-IsByte [] = tt
encoded_sources-IsByte (s ∷ ss) = (
  omega arith,
  (
    omega arith,
    (
      ground arith,
      (
        omega arith,
        All-append IsByte (octets s.addr) (encoded_sources ss) (octets-IsByte s.addr)
            (encoded_sources-IsByte ss),
      ),
    ),
  ),
)

encoded_group-IsByte : (ge : GroupEntry) → All IsByte (encoded_group ge)
unfolding encoded_group
encoded_group-IsByte ge =
    let sources = encoded_sources ge.joins ++ encoded_sources ge.prunes in
    let source_bytes : All IsByte sources =
      All-append IsByte (encoded_sources ge.joins) (encoded_sources ge.prunes)
        (encoded_sources-IsByte ge.joins) (encoded_sources-IsByte ge.prunes) in
    let counts : All IsByte
        (number16 (length ge.joins) ++ (number16 (length ge.prunes) ++ sources)) =
      All-append IsByte (number16 (length ge.joins)) (number16 (length ge.prunes) ++ sources)
        (number16-IsByte (length ge.joins))
        (All-append IsByte (number16 (length ge.prunes)) sources
          (number16-IsByte (length ge.prunes)) source_bytes) in
    (
      omega arith,
      (
        omega arith,
        (
          omega arith,
          (
            omega arith,
            All-append IsByte (octets ge.group)
                (number16 (length ge.joins) ++ (number16 (length ge.prunes) ++ sources))
                (octets-IsByte ge.group) counts,
          ),
        ),
      ),
    )

pub encoded_groups-IsByte : (gs : List GroupEntry) → All IsByte (encoded_groups gs)
unfolding encoded_groups
encoded_groups-IsByte [] = tt
encoded_groups-IsByte (ge ∷ gs) =
    All-append IsByte (encoded_group ge) (encoded_groups gs) (encoded_group-IsByte ge)
      (encoded_groups-IsByte gs)
