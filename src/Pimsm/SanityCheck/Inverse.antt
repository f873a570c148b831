-- ===== src/Pimsm/SanityCheck/Inverse.antt =====
-- apps/pimc/pimsm/InversePackSanityCheck.hpp: the verifier of the updates that undo a configuration.
pub mod Sound
mod Examples
use pimc_toolkit.Common.{
  ℕ, ◌+◌, ◌≡◌, List, [], ◌∷◌, ◌++◌, Bool, true, false, not, Option, none, some, ◌==◌, if◌then◌else◌,
  length,
}
use pimc_toolkit.Core.Result.{Result, ok, err}
use pimc_toolkit.Net.Address.{IPv4Address, default_address_value}
use pimc_toolkit.Pimsm.Config.{Rpt, GroupConfig, JpConfig}
use pimc_toolkit.Pimsm.Update.{Source, GroupEntry, Update}
use pimc_toolkit.Pimsm.SanityCheck.Sets.{emplace, vec_set, compare_addr_sets, not_in_loop}
use pimc_toolkit.Pimsm.SanityCheck.Maps.{Map, find, keys, try_emplace, modify}
use pimc_toolkit.Pimsm.SanityCheck.Errors.{
  Message, GroupBase, make_base, error, error_if, ErrorTracker, no_errors, append, rpt_bit_not_set,
  duplicate_rp, another_rp, rpt_bit_set, duplicate_prune, ignored_joins, missing_joins,
  extraneous_joins, missing_groups, extraneous_groups, inverse_rpt_missing, inverse_rpt_extraneous,
  other_rp,
}
use pimc_toolkit.Pimsm.SanityCheck.Compare.{
  is_empty, report_sets, track_if, all_messages, orig_loop,
}

-- As in PackSanityCheck.hpp, the class has a member `group_` of its own, which no constructor sets.
pub record InverseGroupEntryConverter : Type 0 where
  pub base : GroupBase
  pub group : IPv4Address
  pub joins : List IPv4Address
  pub rp : Option IPv4Address

abbrev pub make_inverse_converter : IPv4Address → InverseGroupEntryConverter
make_inverse_converter group = record {
  base = make_base group;
  group = default_address_value;
  joins = [];
  rp = none;
}

-- A pruned source with the wildcard bit: the RP.
unfoldable pub add_inverse_rp : ℕ → Source → InverseGroupEntryConverter → InverseGroupEntryConverter
add_inverse_rp n se c =
    let checked = error_if (not se.rpt) (rpt_bit_not_set n se.addr) c.base in
    elim c.rp [
      | none ↦ record c { base = checked; rp = some se.addr }
      | some r ↦ record c {
        base =
            error (if r == se.addr then duplicate_rp n se.addr else another_rp n r se.addr) checked;
      }
    ]

unfoldable pub add_inverse_source :
    ℕ → Source → InverseGroupEntryConverter → InverseGroupEntryConverter
unfolding emplace
add_inverse_source n se c =
    let b1 = error_if se.rpt (rpt_bit_set n se.addr) c.base in
    let insop = emplace se.addr c.joins in
    record c { base = error_if (not insop.1) (duplicate_prune n se.addr) b1; joins = insop.0 }

unfoldable pub add_inverse_prunes :
    ℕ → List Source → InverseGroupEntryConverter → InverseGroupEntryConverter
unfolding add_inverse_rp add_inverse_source
add_inverse_prunes n [] c = c
add_inverse_prunes n (se ∷ rest) c =
    add_inverse_prunes n rest
      (if se.wildcard then add_inverse_rp n se c else add_inverse_source n se c)

-- `InverseGroupEntryConverter::add`
unfoldable pub add_inverse :
    ℕ → GroupEntry → InverseGroupEntryConverter → InverseGroupEntryConverter
unfolding add_inverse_prunes
add_inverse n ge c =
    let ignored =
      error_if (not (length ge.joins == 0)) (ignored_joins n (length ge.joins)) c.base in
    add_inverse_prunes n ge.prunes (record c { base = ignored })

-- `InverseGroupEntryConverter::convert`
unfoldable pub convert_inverse : InverseGroupEntryConverter → Result GroupConfig (List Message)
convert_inverse c =
    let rpt = elim c.rp as (λ _. Option Rpt) [
      | none ↦ none
      | some r ↦ some (record { rp = r; prunes = [] })
    ] in
    if c.base.failed
    then err c.base.buf
    else ok (record { group = c.group; rpt = rpt; spt = c.joins })

abbrev pub add_inverse_entry :
    ℕ → GroupEntry → Map InverseGroupEntryConverter → Map InverseGroupEntryConverter
add_inverse_entry i ge cvmap =
    modify ge.group (add_inverse i ge)
      (try_emplace ge.group (make_inverse_converter ge.group) cvmap)

-- The loops of `convertInverseUpdatesToJPConfig`, with the number `i`.
unfoldable pub add_inverse_entries :
    ℕ → List GroupEntry → Map InverseGroupEntryConverter → ℕ × Map InverseGroupEntryConverter
unfolding add_inverse
add_inverse_entries i [] cvmap = (i, cvmap)
add_inverse_entries i (ge ∷ rest) cvmap =
    add_inverse_entries (i + 1) rest (add_inverse_entry i ge cvmap)

unfoldable pub add_inverse_updates :
    ℕ → List Update → Map InverseGroupEntryConverter → Map InverseGroupEntryConverter
unfolding add_inverse_entries
add_inverse_updates i [] cvmap = cvmap
add_inverse_updates i (u ∷ rest) cvmap =
    let r = add_inverse_entries i u.groups cvmap in add_inverse_updates r.0 rest r.1

unfoldable pub convert_inverse_loop :
    Map InverseGroupEntryConverter
    → List (List Message)
    → Map GroupConfig
    → List (List Message) × Map GroupConfig
unfolding convert_inverse
convert_inverse_loop [] errors jp_cfg = (errors, jp_cfg)
convert_inverse_loop ((g, c) ∷ rest) errors jp_cfg = elim (convert_inverse c) [
  | ok gc ↦ convert_inverse_loop rest errors (try_emplace g gc jp_cfg)
  | err e ↦ convert_inverse_loop rest (errors ++ (e ∷ [])) jp_cfg
]

unfoldable pub convert_inverse_updates :
    List Update → Result (Map GroupConfig) (List (List Message))
unfolding add_inverse_updates convert_inverse_loop
convert_inverse_updates updates =
    let r = convert_inverse_loop (add_inverse_updates 1 updates []) [] [] in
    if length r.0 == 0 then ok r.1 else err r.0

-- The RPTs of a group, of which only the RP counts.
unfoldable pub compare_inverse_rpt : Option Rpt → Option Rpt → GroupBase → GroupBase
compare_inverse_rpt none none b = b
compare_inverse_rpt (some o) none b = error (inverse_rpt_missing o.rp) b
compare_inverse_rpt none (some r) b = error (inverse_rpt_extraneous r.rp) b
compare_inverse_rpt (some o) (some r) b = error_if (not (o.rp == r.rp)) (other_rp o.rp r.rp) b

-- `InverseGroupConfigComparator::compare`
unfoldable pub compare_inverse_groups :
    IPv4Address → GroupConfig → GroupConfig → Result (Unit {0}) (List Message)
unfolding compare_inverse_rpt not_in_loop
compare_inverse_groups group orig rslt =
    let spt =
      report_sets missing_joins extraneous_joins
        (compare_addr_sets (vec_set orig.spt) (vec_set rslt.spt)) (make_base group) in
    let b = compare_inverse_rpt orig.rpt rslt.rpt spt in if b.failed then err b.buf else ok tt

unfoldable pub compare_inverse_loop :
    Map GroupConfig → Map GroupConfig → ErrorTracker → ErrorTracker
unfolding compare_inverse_groups
compare_inverse_loop [] rslt et = et
compare_inverse_loop ((g, orig) ∷ rest) rslt et = elim (find g rslt) [
  | none ↦ compare_inverse_loop rest rslt et
  | some r ↦ elim (compare_inverse_groups g orig r) [
    | ok _ ↦ compare_inverse_loop rest rslt et
    | err e ↦ compare_inverse_loop rest rslt (append e et)
  ]
]

-- `compareInverseJPConfigs`
unfoldable pub compare_inverse_configs :
    Map GroupConfig → Map GroupConfig → Result (Unit {0}) (List Message)
unfolding compare_inverse_loop not_in_loop
compare_inverse_configs orig rslt =
    let d = compare_addr_sets (vec_set (keys orig)) (vec_set (keys rslt)) in
    let et1 = track_if (not (is_empty d.0)) (missing_groups d.0) no_errors in
    let et2 = track_if (not (is_empty d.1)) (extraneous_groups d.1) et1 in
    let et = compare_inverse_loop orig rslt et2 in if et.failed then err et.buf else ok tt

unfoldable pub verify_inverse_updates : JpConfig → List Update → Result (Unit {0}) (List Message)
unfolding convert_inverse_updates compare_inverse_configs orig_loop
verify_inverse_updates jp_cfg updates = elim (convert_inverse_updates updates) [
  | err errors ↦ err (all_messages errors)
  | ok rslt ↦ compare_inverse_configs (orig_loop jp_cfg.groups []) rslt
]
