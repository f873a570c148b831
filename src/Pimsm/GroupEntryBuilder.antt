-- ===== src/Pimsm/GroupEntryBuilder.antt =====
-- `GroupEntryBuilderImpl` of apps/pimc/pimsm/Pack.hpp; `InverseGroupEntryBuilderImpl` of
-- apps/pimc/pimsm/InversePack.hpp is the same without joins.
use pimc_toolkit.Common.{
  ℕ, ◌+◌, ◌*◌, ◌%◌, ◌^◌, ◌<◌, ◌≡◌, List, [], ◌∷◌, ◌++◌, map, Bool, true, false, length, arith,
  append_assoc, append-nil,
}
use pimc_toolkit.Net.Address.{IPv4Address}
use pimc_toolkit.Pimsm.Params.{grp_hdr_size, src_a_size}
use pimc_toolkit.Pimsm.Update.{Source, GroupEntry, byte_size}

pub record GroupEntryBuilder : Type 0 where
  pub group : IPv4Address
  pub joins : List Source
  pub prunes : List Source

-- The constructor reserves room for the counts that it is given, and both lists are empty.
abbrev pub make : IPv4Address → GroupEntryBuilder
make group = record { group = group; joins = []; prunes = [] }

abbrev pub join : GroupEntryBuilder → IPv4Address → Bool → Bool → GroupEntryBuilder
join geb src wildcard rpt = record geb {
  joins = geb.joins ++ (record { addr = src; wildcard = wildcard; rpt = rpt } ∷ []);
}

abbrev pub prune : GroupEntryBuilder → IPv4Address → Bool → Bool → GroupEntryBuilder
prune geb src wildcard rpt = record geb {
  prunes = geb.prunes ++ (record { addr = src; wildcard = wildcard; rpt = rpt } ∷ []);
}

unfoldable pub size : GroupEntryBuilder → ℕ
size geb = (grp_hdr_size + (length geb.joins + length geb.prunes) * src_a_size) % 2 ^ 64

abbrev pub build : GroupEntryBuilder → GroupEntry
build geb = record { group = geb.group; joins = geb.joins; prunes = geb.prunes }

pub size_lem :
    (geb : GroupEntryBuilder) → byte_size (build geb) < 2 ^ 64 → size geb ≡ byte_size (build geb)
unfolding size
size_lem geb h = omega arith

-- The loops that join or prune one source after the other.
unfoldable pub join_all : GroupEntryBuilder → List IPv4Address → GroupEntryBuilder
join_all geb [] = geb
join_all geb (a ∷ rest) = join_all (join geb a false false) rest

-- `prune` with the wildcard bit clear and the rpt bit as given.
unfoldable pub prune_all : Bool → GroupEntryBuilder → List IPv4Address → GroupEntryBuilder
prune_all rpt geb [] = geb
prune_all rpt geb (a ∷ rest) = prune_all rpt (prune geb a false rpt) rest

abbrev pub spt_source : IPv4Address → Source
spt_source a = record { addr = a; wildcard = false; rpt = false }

abbrev pub rp_source : IPv4Address → Source
rp_source a = record { addr = a; wildcard = true; rpt = true }

abbrev pub sgrpt_source : Bool → IPv4Address → Source
sgrpt_source rpt a = record { addr = a; wildcard = false; rpt = rpt }

pub join_all_lem :
    (geb : GroupEntryBuilder) (srcs : List IPv4Address)
    → join_all geb srcs ≡ record geb { joins = geb.joins ++ map spt_source srcs }
unfolding join_all
join_all_lem geb [] = rw append-nil
join_all_lem geb (a ∷ rest) = rw (join_all_lem (join geb a false false) rest) (rw append_assoc)

pub prune_all_lem :
    (rpt : Bool) (geb : GroupEntryBuilder) (srcs : List IPv4Address)
    → prune_all rpt geb srcs ≡ record geb { prunes = geb.prunes ++ map (sgrpt_source rpt) srcs }
unfolding prune_all
prune_all_lem rpt geb [] = rw append-nil
prune_all_lem rpt geb (a ∷ rest) =
    rw (prune_all_lem rpt (prune geb a false rpt) rest) (rw append_assoc)
