-- ===== src/Pimsm/SanityCheck/Inverse/Examples.antt =====
-- The verifier of inverse updates where the RP of a group is lost, and where it is not.
use pimc_toolkit.Common.{◌≡◌, refl, List, [], ◌∷◌, some, false}
use pimc_toolkit.Core.Result.{ok}
use pimc_toolkit.Net.Address.{IPv4Address}
use pimc_toolkit.Pimsm.Config.{JpConfig, GroupConfig}
use pimc_toolkit.Pimsm.Update.{Update}
use pimc_toolkit.Pimsm.GroupEntryBuilder.{rp_source, sgrpt_source}
use pimc_toolkit.Pimsm.SanityCheck.Maps.{Map, keys, find}
use pimc_toolkit.Pimsm.SanityCheck.Sets.{emplace, vec_set_loop, not_in_loop}
use pimc_toolkit.Pimsm.SanityCheck.Compare.{orig_loop}
use pimc_toolkit.Pimsm.SanityCheck.Sound.{SameSet}
use pimc_toolkit.Pimsm.SanityCheck.Inverse.{
  add_inverse_rp, add_inverse_source, add_inverse_prunes, add_inverse, convert_inverse,
  add_inverse_entries, add_inverse_updates, convert_inverse_loop, convert_inverse_updates,
  compare_inverse_rpt, compare_inverse_groups, compare_inverse_loop, compare_inverse_configs,
  verify_inverse_updates,
}
use pimc_toolkit.Pimsm.SanityCheck.Inverse.Sound.{SameInverse, verify_inverse_updates_sound}

abbrev joined_group : JpConfig
joined_group = record {
  groups = record { group = 1; rpt = some (record { rp = 10; prunes = [] }); spt = 20 ∷ [] } ∷ [];
}

abbrev pruned_group : List Update
pruned_group =
    record {
      groups =
          record { group = 1; joins = []; prunes = rp_source 10 ∷ sgrpt_source false 20 ∷ [] } ∷ [];
    }
    ∷ []

verify_pruned_group : verify_inverse_updates joined_group pruned_group ≡ ok tt
unfolding verify_inverse_updates convert_inverse_updates compare_inverse_configs
    compare_inverse_loop compare_inverse_groups compare_inverse_rpt convert_inverse_loop
    add_inverse_updates add_inverse_entries add_inverse add_inverse_prunes add_inverse_rp
    add_inverse_source convert_inverse emplace vec_set_loop not_in_loop orig_loop
verify_pruned_group = refl

verify_inverse_updates_sound_example :
    (rslt : Map GroupConfig) × (convert_inverse_updates pruned_group ≡ ok rslt)
    × SameSet (keys (orig_loop joined_group.groups [])) (keys rslt)
    × ((g : IPv4Address) (o q : GroupConfig)
        → find g (orig_loop joined_group.groups []) ≡ some o
        → find g rslt ≡ some q
        → SameInverse o q)
verify_inverse_updates_sound_example =
    verify_inverse_updates_sound joined_group pruned_group verify_pruned_group
