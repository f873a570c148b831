-- ===== src/Loader/Pimc/Examples.antt =====
-- A small document, loaded.
use pimc_toolkit.Common.{
  ◌≡◌, ◌⊎◌, refl, List, [], ◌∷◌, All, false, some, none, done, raised, logic_error, Text,
}
use pimc_toolkit.Core.Result.{ok}
use pimc_toolkit.Net.IntfTable.{IntfTable, by_name}
use pimc_toolkit.Pimsm.GroupEntryBuilder.{spt_source, rp_source, sgrpt_source}
use pimc_toolkit.Pimsm.Config.{JpConfig}
use pimc_toolkit.Pimsm.Update.{Update}
use pimc_toolkit.Pimsm.Pack.{pack, max_sources}
use pimc_toolkit.Pimsm.SanityCheck.Verify.{Joins}
use pimc_toolkit.Loader.Document.{Doc, empty_seq, empty_map, leaf, item, entry, doc_lib}
use pimc_toolkit.Loader.Yaml.{
  root, get_mapping, get_scalar, get_sequence, items, list, optional, required, extraneous,
}
use pimc_toolkit.Loader.Addresses.{grp_addr, uc_addr}
use pimc_toolkit.Net.Address.{is_mcast, is_default, is_local_broadcast, is_loopback}
use pimc_toolkit.Pimsm.SanityCheck.Sets.{emplace, vec_set_loop, not_in_loop}
use pimc_toolkit.Pimsm.GroupEntryBuilder
use pimc_toolkit.Pimsm.UpdateBuilder
use pimc_toolkit.Pimsm.Cursor
use pimc_toolkit.Pimsm.InversePack.{inverse_pack}
use pimc_toolkit.Pimsm.SanityCheck.Convert.{
  add_rp, add_spt, add_joins, add_prune, add_prunes, add_all_prunes, add, convert, add_entries,
  add_updates, convert_loop, convert_updates,
}
use pimc_toolkit.Pimsm.SanityCheck.Compare.{
  compare_rpt, compare_groups, compare_loop, compare_configs, orig_loop, verify_updates,
}
use pimc_toolkit.Pimsm.SanityCheck.Inverse.{
  add_inverse_rp, add_inverse_source, add_inverse_prunes, add_inverse, convert_inverse,
  add_inverse_entries, add_inverse_updates, convert_inverse_loop, convert_inverse_updates,
  compare_inverse_rpt, compare_inverse_groups, compare_inverse_loop, compare_inverse_configs,
  verify_inverse_updates,
}
use pimc_toolkit.Loader.Multicast.{load_jp_config}
use pimc_toolkit.Loader.Multicast.Proper.{IsLoaded, load_jp_config-IsLoaded}
use pimc_toolkit.Loader.Logging.{Files, info}
use pimc_toolkit.Loader.Pimc.{PimcConfig, packed_updates, load_pimc_config}
use pimc_toolkit.Loader.Pimc.Checked.{IsChecked, packed_updates_cases, load_pimc_config-IsChecked}

abbrev group_text : Text
group_text = b'2' ∷ b'2' ∷ b'4' ∷ b'.' ∷ b'0' ∷ b'.' ∷ b'0' ∷ b'.' ∷ b'1' ∷ []

abbrev rp_text : Text
rp_text = b'2' ∷ b'.' ∷ b'0' ∷ b'.' ∷ b'0' ∷ b'.' ∷ b'2' ∷ []

abbrev source_text : Text
source_text = b'1' ∷ b'.' ∷ b'0' ∷ b'.' ∷ b'0' ∷ b'.' ∷ b'1' ∷ []

abbrev join_text : Text
join_text = b'J' ∷ b'o' ∷ b'i' ∷ b'n' ∷ []

abbrev join_star_text : Text
join_star_text = b'J' ∷ b'o' ∷ b'i' ∷ b'n' ∷ b'*' ∷ []

abbrev small_group : Doc
small_group =
    entry join_star_text (entry (b'R' ∷ b'P' ∷ []) (leaf rp_text) empty_map)
      (entry join_text (item (leaf source_text) empty_seq) empty_map)

abbrev small_multicast : Doc
small_multicast = entry group_text small_group empty_map

-- A group with an empty list of joined sources.
abbrev empty_multicast : Doc
empty_multicast = entry group_text (entry join_text empty_seq empty_map) empty_map

abbrev small_jp : JpConfig
small_jp = record {
  groups =
      record {
        group = 3758096385;
        rpt = some (record { rp = 33554434; prunes = [] });
        spt = 16777217 ∷ [];
      }
      ∷ [];
}

abbrev empty_jp : JpConfig
empty_jp = record { groups = record { group = 3758096385; rpt = none; spt = [] } ∷ [] }

small_loaded : load_jp_config doc_lib (root small_multicast) ≡ done (ok small_jp)
unfolding load_jp_config get_mapping items get_scalar grp_addr is_mcast optional required
    get_sequence list uc_addr is_default is_local_broadcast is_loopback extraneous emplace
small_loaded = refl

empty_loaded : load_jp_config doc_lib (root empty_multicast) ≡ done (ok empty_jp)
unfolding load_jp_config get_mapping items get_scalar grp_addr is_mcast optional get_sequence list
    extraneous
empty_loaded = refl

load_jp_config-IsLoaded_example : IsLoaded small_jp
load_jp_config-IsLoaded_example =
    load_jp_config-IsLoaded doc_lib (root small_multicast) small_jp small_loaded

packed_updates_cases_example :
    ((us : List Update) × (packed_updates empty_jp ≡ done us)
      × (pack empty_jp ≡ done us)
      × All Joins empty_jp.groups)
    ⊎ ((packed_updates empty_jp ≡ raised logic_error) × (All Joins empty_jp.groups → ⊥))
packed_updates_cases_example =
    packed_updates_cases empty_jp
      (load_jp_config-IsLoaded doc_lib (root empty_multicast) empty_jp empty_loaded)

abbrev small_doc : Doc
small_doc =
    entry (b'p' ∷ b'i' ∷ b'm' ∷ [])
      (entry (b'n' ∷ b'e' ∷ b'i' ∷ b'g' ∷ b'h' ∷ b'b' ∷ b'o' ∷ b'r' ∷ []) (leaf rp_text) (
        entry (b'i' ∷ b'n' ∷ b't' ∷ b'e' ∷ b'r' ∷ b'f' ∷ b'a' ∷ b'c' ∷ b'e' ∷ []) (leaf (b'e' ∷ []))
          empty_map))
      (entry (b'm' ∷ b'u' ∷ b'l' ∷ b't' ∷ b'i' ∷ b'c' ∷ b'a' ∷ b's' ∷ b't' ∷ []) small_multicast
        empty_map)

abbrev no_files : Files
no_files = record { exists = λ t. false; is_directory = λ t. false; log_file = λ t. t }

abbrev one_interface : IntfTable
one_interface = record {
  index_map = (7, record { name = b'e' ∷ []; ifindex = 7; ipv4addr = some 167772161 }) ∷ [];
  name_map = (b'e' ∷ [], 7) ∷ [];
}

abbrev small_pimc : PimcConfig
small_pimc = record {
  logging_config = record { level = info; log_file_name = none };
  pimsm_config = record {
    neighbor = 33554434;
    intf_index = 7;
    intf_addr = 167772161;
    intf_name = b'e' ∷ [];
    hello_period = 30;
    hello_holdtime = 105;
    jp_period = 60;
    jp_holdtime = 210;
    dr_priority = 0;
    generation_id = 5;
  };
  jp_config = small_jp;
  updates =
      record {
        groups =
            record {
              group = 3758096385;
              joins = spt_source 16777217 ∷ rp_source 33554434 ∷ [];
              prunes = [];
            }
            ∷ [];
      }
      ∷ [];
  inverse_updates =
      record {
        groups =
            record {
              group = 3758096385;
              joins = [];
              prunes = rp_source 33554434 ∷ sgrpt_source false 16777217 ∷ [];
            }
            ∷ [];
      }
      ∷ [];
}

small_pimc_loaded :
    load_pimc_config doc_lib no_files one_interface 5 (root small_doc) ≡ done (ok small_pimc)
unfolding load_pimc_config get_mapping items get_scalar grp_addr is_mcast optional required
    get_sequence list uc_addr is_default is_local_broadcast is_loopback extraneous emplace by_name
    pack max_sources GroupEntryBuilder.size GroupEntryBuilder.join_all GroupEntryBuilder.prune_all
    UpdateBuilder.add UpdateBuilder.remaining UpdateBuilder.full UpdateBuilder.empty Cursor.add
    Cursor.next verify_updates convert_updates compare_configs orig_loop compare_loop compare_groups
    compare_rpt vec_set_loop not_in_loop add_rp add_spt add_joins add_prune add_prunes
    add_all_prunes add convert add_entries add_updates convert_loop inverse_pack
    verify_inverse_updates convert_inverse_updates compare_inverse_configs compare_inverse_loop
    compare_inverse_groups compare_inverse_rpt convert_inverse_loop add_inverse_updates
    add_inverse_entries add_inverse add_inverse_prunes add_inverse_rp add_inverse_source
    convert_inverse
small_pimc_loaded = refl

load_pimc_config-IsChecked_example : IsChecked small_pimc
load_pimc_config-IsChecked_example =
    load_pimc_config-IsChecked doc_lib no_files one_interface 5 (root small_doc) small_pimc
      small_pimc_loaded
