-- ===== src/Loader/Pimsm.antt =====
-- apps/pimc/config/PIMSMConfig.hpp and PIMSMConfigLoader.hpp. The generation id is random, and a
-- parameter; of the text of a message only the name of the interface is kept, without the table below it.
use pimc_toolkit.Common.{ℕ, List, [], ◌∷◌, ◌++◌, Option, none, some, Run, done, ◌>>=◌, Text}
use pimc_toolkit.Core.Result.{Result, ok, err}
use pimc_toolkit.Net.Address.{IPv4Address, default_address_value}
use pimc_toolkit.Net.IntfTable.{IntfInfo, IntfTable, by_name}
use pimc_toolkit.Loader.Errors.{
  ErrorContext, Message, UcAddrType, pimsm_config, neighbor_address, interface_name,
  unknown_interface, no_interface_address,
}
use pimc_toolkit.Loader.Yaml.{
  YamlLib, ValueContext, ScalarContext, MappingContext, get_scalar, get_mapping, required,
  extraneous, error, flat_map,
}
use pimc_toolkit.Loader.Addresses.{uc_addr}

pub record PimsmConfig : Type 0 where
  pub neighbor : IPv4Address
  pub intf_index : ℕ
  pub intf_addr : IPv4Address
  pub intf_name : Text
  pub hello_period : ℕ
  pub hello_holdtime : ℕ
  pub jp_period : ℕ
  pub jp_holdtime : ℕ
  pub dr_priority : ℕ
  pub generation_id : ℕ

-- The index of the interface, which no constructor sets, is none until it is known.
pub record PimsmLoader : Type 0 where
  pub errors : List ErrorContext
  pub neighbor : IPv4Address
  pub intf : Option ℕ
  pub intf_addr : IPv4Address
  pub intf_name : Text

abbrev pub make_pimsm : PimsmLoader
make_pimsm = record {
  errors = [];
  neighbor = default_address_value;
  intf = none;
  intf_addr = default_address_value;
  intf_name = [];
}

abbrev pub report : ErrorContext → PimsmLoader → PimsmLoader
report e l = record l { errors = l.errors ++ (e ∷ []) }

module _ {Node : Type 0} (y : YamlLib Node) (table : IntfTable) where
  abbrev pub f_neighbor : Text
  f_neighbor = b'n' ∷ b'e' ∷ b'i' ∷ b'g' ∷ b'h' ∷ b'b' ∷ b'o' ∷ b'r' ∷ []

  abbrev pub f_interface : Text
  f_interface = b'i' ∷ b'n' ∷ b't' ∷ b'e' ∷ b'r' ∷ b'f' ∷ b'a' ∷ b'c' ∷ b'e' ∷ []

  abbrev pub set_neighbor :
      ScalarContext Node → Result IPv4Address Message → PimsmLoader → PimsmLoader
  set_neighbor s (ok a) l = record l { neighbor = a }
  set_neighbor s (err m) l = report (error y s.node s.names m) l

  unfoldable pub load_neighbor :
      Result (ScalarContext Node) ErrorContext → PimsmLoader → PimsmLoader
  load_neighbor (err e) l = report e l
  load_neighbor (ok s) l = set_neighbor s (uc_addr (y.text s.node) UcAddrType.neighbor) l

  -- The interface with a name, if it has an address.
  abbrev pub set_interface : ScalarContext Node → IntfInfo → PimsmLoader → PimsmLoader
  set_interface s info l = elim info.ipv4addr [
    | none ↦ report (error y s.node s.names (no_interface_address (y.text s.node))) l
    | some a ↦ record l { intf = some info.ifindex; intf_addr = a; intf_name = info.name }
  ]

  unfoldable pub load_interface :
      Result (ScalarContext Node) ErrorContext → PimsmLoader → PimsmLoader
  unfolding by_name
  load_interface (err e) l = report e l
  load_interface (ok s) l = elim (by_name (y.text s.node) table) [
    | none ↦ report (error y s.node s.names (unknown_interface (y.text s.node))) l
    | some info ↦ set_interface s info l
  ]

  unfoldable pub load_pimsm_mapping : MappingContext Node → PimsmLoader → Run PimsmLoader
  unfolding load_neighbor load_interface
  load_pimsm_mapping m l = do
    let nei = required y f_neighbor m
    r ← flat_map nei.1 (get_scalar y neighbor_address)
    let l1 = load_neighbor r l
    let intf = required y f_interface nei.0
    q ← flat_map intf.1 (get_scalar y interface_name)
    let l2 = load_interface q l1
    done (record l2 { errors = l2.errors ++ extraneous y intf.0 })

  unfoldable pub load_pimsm : ValueContext Node → PimsmLoader → Run PimsmLoader
  unfolding load_pimsm_mapping
  load_pimsm v l = do
    r ← get_mapping y pimsm_config v
    elim r [ err e ↦ done (report e l) | ok m ↦ load_pimsm_mapping m l ]

  abbrev pub or_zero : Option ℕ → ℕ
  or_zero none = 0
  or_zero (some i) = i

  abbrev pub build_pimsm : ℕ → PimsmLoader → PimsmConfig
  build_pimsm gid l = record {
    neighbor = l.neighbor;
    intf_index = or_zero l.intf;
    intf_addr = l.intf_addr;
    intf_name = l.intf_name;
    hello_period = 30;
    hello_holdtime = 105;
    jp_period = 60;
    jp_holdtime = 210;
    dr_priority = 0;
    generation_id = gid;
  }

  abbrev pub pimsm_result : ℕ → PimsmLoader → Result PimsmConfig (List ErrorContext)
  pimsm_result gid l = elim l.errors [ [] ↦ ok (build_pimsm gid l) | _ ∷ _ ↦ err l.errors ]

  unfoldable pub load_pimsm_config :
      ℕ → ValueContext Node → Run (Result PimsmConfig (List ErrorContext))
  unfolding load_pimsm
  load_pimsm_config gid v = do l ← load_pimsm v make_pimsm; done (pimsm_result gid l)
