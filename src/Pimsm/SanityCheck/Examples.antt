-- ===== src/Pimsm/SanityCheck/Examples.antt =====
-- The verifier at two small configurations: one that it passes, and one with a group that joins
-- nothing, which it does not.
use pimc_toolkit.Common.{◌≡◌, ◌↔◌, refl, List, [], ◌∷◌, All, some, none, done, arith, true}
use pimc_toolkit.Core.Result.{ok, err}
use pimc_toolkit.Net.Address.{IPv4Address}
use pimc_toolkit.Pimsm.Config.{JpConfig, GroupConfig}
use pimc_toolkit.Pimsm.Update.{Update}
use pimc_toolkit.Pimsm.GroupEntryBuilder
use pimc_toolkit.Pimsm.GroupEntryBuilder.{spt_source, rp_source, sgrpt_source}
use pimc_toolkit.Pimsm.UpdateBuilder
use pimc_toolkit.Pimsm.Cursor
use pimc_toolkit.Pimsm.Pack.{pack, max_sources}
use pimc_toolkit.Pimsm.Pack.Built.{UpdateBuilt, pack-IsBuilt}
use pimc_toolkit.Pimsm.SanityCheck.Maps.{Map, keys, find}
use pimc_toolkit.Pimsm.SanityCheck.Errors.{missing_groups}
use pimc_toolkit.Pimsm.SanityCheck.Convert.{
  add_rp, add_spt, add_joins, add_prune, add_prunes, add_all_prunes, add, convert, add_entries,
  add_updates, convert_loop, convert_updates,
}
use pimc_toolkit.Pimsm.SanityCheck.Sets.{emplace, vec_set_loop, not_in_loop}
use pimc_toolkit.Pimsm.SanityCheck.Compare.{
  compare_rpt, compare_groups, compare_loop, compare_configs, orig_loop, verify_updates,
}
use pimc_toolkit.Pimsm.SanityCheck.Verify.{IsProper, Joins, verify_updates-pack}
use pimc_toolkit.Pimsm.SanityCheck.Sound.{SameSet, SameGroup, verify_updates_sound}

abbrev one_group : JpConfig
one_group = record {
  groups =
      record { group = 1; rpt = some (record { rp = 10; prunes = 11 ∷ [] }); spt = 20 ∷ [] } ∷ [];
}

abbrev one_packed : List Update
one_packed =
    record {
      groups =
          record {
            group = 1;
            joins = spt_source 20 ∷ rp_source 10 ∷ [];
            prunes = sgrpt_source true 11 ∷ [];
          }
          ∷ [];
    }
    ∷ []

pack-one_group : pack one_group ≡ done one_packed
unfolding pack max_sources GroupEntryBuilder.size GroupEntryBuilder.join_all
    GroupEntryBuilder.prune_all UpdateBuilder.add UpdateBuilder.remaining UpdateBuilder.full
    UpdateBuilder.empty Cursor.add Cursor.next
pack-one_group = refl

pack-IsBuilt_example : All UpdateBuilt one_packed
pack-IsBuilt_example = pack-IsBuilt one_group one_packed pack-one_group

one_group-IsProper : IsProper one_group
one_group-IsProper = record { distinct = (refl, tt); apart = ((λ a. ground arith), tt) }

verify_updates-pack_example :
    (us : List Update) × (pack one_group ≡ done us)
    × ((verify_updates one_group us ≡ ok tt) ↔ All Joins one_group.groups)
verify_updates-pack_example = verify_updates-pack one_group (omega arith) one_group-IsProper

verify_one_packed : verify_updates one_group one_packed ≡ ok tt
unfolding verify_updates convert_updates compare_configs orig_loop compare_loop compare_groups
    compare_rpt emplace vec_set_loop not_in_loop add_rp add_spt add_joins add_prune add_prunes
    add_all_prunes add convert add_entries add_updates convert_loop
verify_one_packed = refl

verify_updates_sound_example :
    (rslt : Map GroupConfig) × (convert_updates one_packed ≡ ok rslt)
    × SameSet (keys (orig_loop one_group.groups [])) (keys rslt)
    × ((g : IPv4Address) (o q : GroupConfig)
        → find g (orig_loop one_group.groups []) ≡ some o
        → find g rslt ≡ some q
        → SameGroup o q)
verify_updates_sound_example = verify_updates_sound one_group one_packed verify_one_packed

-- A group whose list of joined sources is empty is not in any update, and reported as missing.
abbrev empty_join : JpConfig
empty_join = record { groups = record { group = 1; rpt = none; spt = [] } ∷ [] }

empty_join-missing : pack empty_join ≡ done []
unfolding pack max_sources UpdateBuilder.empty
empty_join-missing = refl

empty_join-reported : verify_updates empty_join [] ≡ err (missing_groups (1 ∷ []) ∷ [])
unfolding verify_updates convert_updates compare_configs orig_loop compare_loop emplace vec_set_loop
    not_in_loop add_updates convert_loop
empty_join-reported = refl
