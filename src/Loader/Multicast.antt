-- ===== src/Loader/Multicast.antt =====
-- `MulticastConfigBuilder` of apps/pimc/config/MulticastConfigLoader.hpp, and `loadJPConfig` of
-- JPConfigLoader.hpp.
pub mod Proper
use pimc_toolkit.Common.{
  ℕ, List, [], ◌∷◌, ◌++◌, Bool, true, false, Option, none, some, ltb, if◌then◌else◌, Run, done,
  raised, logic_error, ◌>>=◌,
}
use pimc_toolkit.Core.Result.{Result, ok, err}
use pimc_toolkit.Net.Address.{IPv4Address}
use pimc_toolkit.Pimsm.Config.{GroupConfig, JpConfig}
use pimc_toolkit.Pimsm.SanityCheck.Maps.{Map, find, try_emplace, modify}
use pimc_toolkit.Loader.Errors.{
  Message, ErrorContext, untitled, multicast_config, duplicate_group, no_groups,
}
use pimc_toolkit.Loader.Yaml.{
  YamlLib, ValueContext, ScalarContext, MappingContext, get_scalar, get_mapping, items, error,
  node_line,
}
use pimc_toolkit.Loader.Addresses.{grp_addr}
use pimc_toolkit.Loader.GroupConfig.{GroupBuilder, Loading, load_group_config}
use pimc_toolkit.Loader.GroupConfig

pub record MulticastBuilder : Type 0 where
  pub errors : List ErrorContext
  pub groups : List IPv4Address
  pub builders : Map GroupBuilder

abbrev pub no_builders : MulticastBuilder
no_builders = record { errors = []; groups = []; builders = [] }

abbrev pub report : ErrorContext → MulticastBuilder → MulticastBuilder
report e b = record b { errors = b.errors ++ (e ∷ []) }

module _ {Node : Type 0} (y : YamlLib Node) where
  -- A group that the map does not have yet: its builder is made in the map and loaded there.
  unfoldable pub load_new_group :
      IPv4Address → Option ℕ → ValueContext Node → MulticastBuilder → Run MulticastBuilder
  unfolding load_group_config
  load_new_group ga line v b = do
    l ← load_group_config y v (record { errors = b.errors; builder = GroupConfig.make ga line })
    done (record {
      errors = l.errors;
      groups = b.groups ++ (ga ∷ []);
      builders = try_emplace ga l.builder b.builders;
    })

  -- An item with a group address.
  unfoldable pub load_group :
      ScalarContext Node → IPv4Address → ValueContext Node → MulticastBuilder → Run MulticastBuilder
  unfolding load_new_group
  load_group s ga v b = elim (find ga b.builders) [
    | none ↦ load_new_group ga (node_line y s.node) v b
    | some e ↦ done (report (error y s.node s.names (duplicate_group ga e.line)) b)
  ]

  -- An item whose key is a scalar.
  unfoldable pub load_item :
      ScalarContext Node → ValueContext Node → MulticastBuilder → Run MulticastBuilder
  unfolding load_group
  load_item s v b = elim (grp_addr (y.text s.node)) [
    | ok ga ↦ load_group s ga v b
    | err m ↦ done (report (error y s.node s.names m) b)
  ]

  -- `for (auto const &ii: rJPCfg->items())`
  unfoldable pub load_items :
      List (ValueContext Node × ValueContext Node) → MulticastBuilder → Run MulticastBuilder
  unfolding load_item
  load_items [] b = done b
  load_items (i ∷ is) b = do
    r ← get_scalar y untitled i.0
    b' ← elim r [ ok s ↦ load_item s i.1 b | err e ↦ done (report e b) ]
    load_items is b'

  unfoldable pub load_multicast_config : ValueContext Node → MulticastBuilder → Run MulticastBuilder
  unfolding load_items
  load_multicast_config v b = do
    r ← get_mapping y multicast_config v
    elim r [
      | err e ↦ done (report e b)
      | ok m ↦
          if ltb 0 (y.size m.node)
          then load_items (items y m) b
          else done (report (error y v.node v.names no_groups) b)
    ]

-- The loop of `build` over the addresses of the groups.
unfoldable pub build_groups : List IPv4Address → Map GroupBuilder → Run (List GroupConfig)
build_groups [] m = done []
build_groups (ga ∷ rest) m = elim (find ga m) [
  | none ↦ raised logic_error
  | some b ↦ build_groups rest m >>= λ gs. done (GroupConfig.build b ∷ gs)
]

unfoldable pub build : MulticastBuilder → Run JpConfig
unfolding build_groups
build b = do groups ← build_groups b.groups b.builders; done (record { groups = groups })

abbrev pub no_errors : List ErrorContext → Bool
no_errors [] = true
no_errors (e ∷ es) = false

unfoldable pub load_jp_config :
    {Node : Type 0} → YamlLib Node → ValueContext Node → Run (Result JpConfig (List ErrorContext))
unfolding load_multicast_config build
load_jp_config y v = do
  b ← load_multicast_config y v no_builders
  let built = build b >>= λ cfg. done (ok cfg)
  if no_errors b.errors then built else done (err b.errors)
