-- ===== src/Pimsm/Pack/Weight.antt =====
-- What a packer, an update or a configuration holds, measured by weights of the joined and of the
-- pruned sources: two collections agree as multisets if they agree under all weights.
use pimc_toolkit.Common.{
  ℕ, ◌+◌, ◌*◌, ◌≡◌, List, [], ◌∷◌, ◌++◌, map, Option, none, some, true, length, sum_of,
  sum_of-append, sum_of-set, set, get_elem?, length-append, ap, arith,
}
use pimc_toolkit.Net.Address.{IPv4Address}
use pimc_toolkit.Pimsm.Config.{Rpt, GroupConfig}
use pimc_toolkit.Pimsm.Update.{Source, GroupEntry, Update, byte_size}
use pimc_toolkit.Pimsm.GroupEntryBuilder.{
  spt_source, rp_source, sgrpt_source, join, join_all, join_all_lem, prune_all_lem,
}
use pimc_toolkit.Pimsm.GroupEntryBuilder
use pimc_toolkit.Pimsm.UpdateBuilder.{UpdateBuilder, grown}
use pimc_toolkit.Pimsm.UpdateBuilder
use pimc_toolkit.Pimsm.Pack.{spt_entry, rpt_entry}

pub length-map_source :
    (f : IPv4Address → Source) (srcs : List IPv4Address) → length (map f srcs) ≡ length srcs
length-map_source f [] = omega arith
length-map_source f (a ∷ rest) = omega (arith, length-map_source f rest)

-- The entries that the packer builds.
pub spt_entry_lem :
    (g : IPv4Address) (srcs : List IPv4Address)
    → GroupEntryBuilder.build (spt_entry g srcs)
      ≡ record { group = g; joins = map spt_source srcs; prunes = [] }
spt_entry_lem g srcs = rw (join_all_lem (GroupEntryBuilder.make g) srcs)

pub rpt_entry_lem :
    (g : IPv4Address) (srcs : List IPv4Address) (rpt : Rpt)
    → GroupEntryBuilder.build (rpt_entry g srcs rpt) ≡ record {
      group = g;
      joins = map spt_source srcs ++ (rp_source rpt.rp ∷ []);
      prunes = map (sgrpt_source true) rpt.prunes;
    }
rpt_entry_lem g srcs rpt = rw (
  join_all_lem (GroupEntryBuilder.make g) srcs,
  prune_all_lem true
      (join (record (GroupEntryBuilder.make g) { joins = map spt_source srcs }) rpt.rp true true)
      rpt.prunes,
)

pub byte_size-spt_entry :
    (g : IPv4Address) (srcs : List IPv4Address)
    → byte_size (GroupEntryBuilder.build (spt_entry g srcs)) ≡ 12 + 8 * length srcs
byte_size-spt_entry g srcs =
    omega (arith, ap byte_size (spt_entry_lem g srcs), length-map_source spt_source srcs)

pub byte_size-rpt_entry :
    (g : IPv4Address) (srcs : List IPv4Address) (rpt : Rpt)
    → byte_size (GroupEntryBuilder.build (rpt_entry g srcs rpt))
      ≡ 12 + 8 * (length srcs + 1 + length rpt.prunes)
byte_size-rpt_entry g srcs rpt = omega (
  arith,
  ap byte_size (rpt_entry_lem g srcs rpt),
  length-map_source spt_source srcs,
  length-map_source (sgrpt_source true) rpt.prunes,
  length-append (map spt_source srcs) (rp_source rpt.rp ∷ []),
)

module _ (w v : IPv4Address → Source → ℕ) where
  abbrev pub entry_weight : GroupEntry → ℕ
  entry_weight ge = sum_of (w ge.group) ge.joins + sum_of (v ge.group) ge.prunes

  abbrev pub groups_weight : List GroupEntry → ℕ
  groups_weight gs = sum_of entry_weight gs

  abbrev pub queue_weight : List UpdateBuilder → ℕ
  queue_weight ubq = sum_of (λ ub. groups_weight ub.groups) ubq

  abbrev pub updates_weight : List Update → ℕ
  updates_weight us = sum_of (λ u. groups_weight u.groups) us

  abbrev pub spt_weight : IPv4Address → List IPv4Address → ℕ
  spt_weight g srcs = sum_of (λ a. w g (spt_source a)) srcs

  abbrev pub rpt_weight : IPv4Address → Rpt → ℕ
  rpt_weight g rpt = w g (rp_source rpt.rp) + sum_of (λ a. v g (sgrpt_source true a)) rpt.prunes

  abbrev pub rpt_part : IPv4Address → Option Rpt → ℕ
  rpt_part g none = 0
  rpt_part g (some rpt) = rpt_weight g rpt

  -- The RPT part of a group counts as owed while its builder is set.
  abbrev pub owed : GroupConfig → Option ℕ → ℕ
  owed ge none = 0
  owed ge (some k) = rpt_part ge.group ge.rpt

  abbrev pub config_weight : List GroupConfig → ℕ
  config_weight gs = sum_of (λ ge. spt_weight ge.group ge.spt + rpt_part ge.group ge.rpt) gs

  pub sum_of-map :
      (f : Source → ℕ) (h : IPv4Address → Source) (srcs : List IPv4Address)
      → sum_of f (map h srcs) ≡ sum_of (λ a. f (h a)) srcs
  sum_of-map f h [] = omega arith
  sum_of-map f h (a ∷ rest) = omega (arith, sum_of-map f h rest)

  pub weight-spt_entry :
      (g : IPv4Address) (srcs : List IPv4Address)
      → entry_weight (GroupEntryBuilder.build (spt_entry g srcs)) ≡ spt_weight g srcs
  weight-spt_entry g srcs =
      omega (arith, ap entry_weight (spt_entry_lem g srcs), sum_of-map (w g) spt_source srcs)

  pub weight-rpt_entry :
      (g : IPv4Address) (srcs : List IPv4Address) (rpt : Rpt)
      → entry_weight (GroupEntryBuilder.build (rpt_entry g srcs rpt))
        ≡ spt_weight g srcs + rpt_weight g rpt
  weight-rpt_entry g srcs rpt = omega (
    arith,
    ap entry_weight (rpt_entry_lem g srcs rpt),
    sum_of-append (w g) (map spt_source srcs) (rp_source rpt.rp ∷ []),
    sum_of-map (w g) spt_source srcs,
    sum_of-map (v g) (sgrpt_source true) rpt.prunes,
  )

  -- An entry that is added to one builder of the queue adds its weight.
  pub weight-set-grown :
      (ubq : List UpdateBuilder) (i : ℕ) (ub : UpdateBuilder) (ge : GroupEntry)
      → get_elem? ubq i ≡ some ub
      → queue_weight (set ubq i (grown ub ge)) ≡ queue_weight ubq + entry_weight ge
  weight-set-grown ubq i ub ge e = omega (
    arith,
    sum_of-set (λ (b : UpdateBuilder). groups_weight b.groups) ubq i (grown ub ge) ub e,
    sum_of-append entry_weight ub.groups (ge ∷ []),
  )

  pub weight-append_make :
      (ubq : List UpdateBuilder)
      → queue_weight (ubq ++ (UpdateBuilder.make ∷ [])) ≡ queue_weight ubq
  weight-append_make ubq = omega (
    arith,
    sum_of-append (λ (b : UpdateBuilder). groups_weight b.groups) ubq (UpdateBuilder.make ∷ []),
  )
