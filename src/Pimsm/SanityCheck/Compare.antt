-- ===== src/Pimsm/SanityCheck/Compare.antt =====
-- The second half of apps/pimc/pimsm/PackSanityCheck.hpp: the converted configuration is compared with
-- the original one, group by group.
use pimc_toolkit.Common.{
  List, [], ◌∷◌, ◌++◌, Bool, true, false, not, Option, none, some, ◌==◌, if◌then◌else◌, length,
}
use pimc_toolkit.Core.Result.{Result, ok, err}
use pimc_toolkit.Net.Address.{IPv4Address}
use pimc_toolkit.Pimsm.Config.{Rpt, GroupConfig, JpConfig}
use pimc_toolkit.Pimsm.Update.{Update}
use pimc_toolkit.Pimsm.SanityCheck.Sets.{vec_set, compare_addr_sets, not_in_loop}
use pimc_toolkit.Pimsm.SanityCheck.Maps.{Map, find, try_emplace, keys}
use pimc_toolkit.Pimsm.SanityCheck.Convert.{convert_updates}
use pimc_toolkit.Pimsm.SanityCheck.Errors.{
  Message, GroupBase, make_base, error, error_if, ErrorTracker, no_errors, track, append,
  missing_joins, extraneous_joins, missing_prunes, extraneous_prunes, missing_groups,
  extraneous_groups, rpt_missing, rpt_extraneous, other_rp,
}

abbrev pub is_empty : List IPv4Address → Bool
is_empty [] = true
is_empty (a ∷ s) = false

-- The two tests after a comparison of sets.
abbrev pub report_sets :
    (List IPv4Address → Message)
    → (List IPv4Address → Message)
    → List IPv4Address × List IPv4Address
    → GroupBase
    → GroupBase
report_sets missing extraneous d b =
    error_if (not (is_empty d.1)) (extraneous d.1) (error_if (not (is_empty d.0)) (missing d.0) b)

-- The RPTs of a group.
unfoldable pub compare_rpt : Option Rpt → Option Rpt → GroupBase → GroupBase
unfolding not_in_loop
compare_rpt none none b = b
compare_rpt (some o) none b = error (rpt_missing o.rp (length o.prunes)) b
compare_rpt none (some r) b = error (rpt_extraneous r.rp (length r.prunes)) b
compare_rpt (some o) (some r) b =
    report_sets missing_prunes extraneous_prunes
      (compare_addr_sets (vec_set o.prunes) (vec_set r.prunes))
      (error_if (not (o.rp == r.rp)) (other_rp o.rp r.rp) b)

-- `GroupConfigComparator::compare`
unfoldable pub compare_groups :
    IPv4Address → GroupConfig → GroupConfig → Result (Unit {0}) (List Message)
unfolding compare_rpt
compare_groups group orig rslt =
    let spt =
      report_sets missing_joins extraneous_joins
        (compare_addr_sets (vec_set orig.spt) (vec_set rslt.spt)) (make_base group) in
    let b = compare_rpt orig.rpt rslt.rpt spt in if b.failed then err b.buf else ok tt

-- `for (auto ii: orig)`
unfoldable pub compare_loop : Map GroupConfig → Map GroupConfig → ErrorTracker → ErrorTracker
unfolding compare_groups
compare_loop [] rslt et = et
compare_loop ((g, orig) ∷ rest) rslt et = elim (find g rslt) [
  | none ↦ compare_loop rest rslt et
  | some r ↦ elim (compare_groups g orig r) [
    | ok _ ↦ compare_loop rest rslt et
    | err e ↦ compare_loop rest rslt (append e et)
  ]
]

abbrev pub track_if : Bool → Message → ErrorTracker → ErrorTracker
track_if c m et = if c then track m et else et

-- `compareJPConfigs`
unfoldable pub compare_configs :
    Map GroupConfig → Map GroupConfig → Result (Unit {0}) (List Message)
unfolding compare_loop not_in_loop
compare_configs orig rslt =
    let d = compare_addr_sets (vec_set (keys orig)) (vec_set (keys rslt)) in
    let et1 = track_if (not (is_empty d.0)) (missing_groups d.0) no_errors in
    let et2 = track_if (not (is_empty d.1)) (extraneous_groups d.1) et1 in
    let et = compare_loop orig rslt et2 in if et.failed then err et.buf else ok tt

-- The messages of all groups that could not be converted, one after the other.
abbrev pub all_messages : List (List Message) → List Message
all_messages [] = []
all_messages (e ∷ errors) = e ++ all_messages errors

-- `for (auto const& ge: jpCfg.groups()) origCfg.try_emplace(ge.group(), &ge);`
unfoldable pub orig_loop : List GroupConfig → Map GroupConfig → Map GroupConfig
orig_loop [] m = m
orig_loop (ge ∷ rest) m = orig_loop rest (try_emplace ge.group ge m)

unfoldable pub verify_updates : JpConfig → List Update → Result (Unit {0}) (List Message)
unfolding convert_updates compare_configs orig_loop
verify_updates jp_cfg updates = elim (convert_updates updates) [
  | err errors ↦ err (all_messages errors)
  | ok rslt ↦ compare_configs (orig_loop jp_cfg.groups []) rslt
]
