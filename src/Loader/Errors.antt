-- ===== src/Loader/Errors.antt =====
-- `ErrorContext` of lib/pimc/yaml/Structured.hpp with its messages: a message is the format with its
-- arguments.
use pimc_toolkit.Common.{ℕ, List, Option, Text}
use pimc_toolkit.Net.Address.{IPv4Address}

-- The descriptions that the loaders give of the nodes they ask for; `untitled` is the empty one.
pub data Title : Type 0 where
  untitled multicast_config rpt_config spt_config rp_address pruned_sources source_address : Title
  group_config : IPv4Address → Title
  pimsm_config neighbor_address interface_name : Title
  logging_config level_name logging_directory : Title

-- `describe` of a mapping and of a sequence.
pub data Name : Type 0 where
  field_name : Text → Title → Name
  element_name : ℕ → Title → Name

-- `YAML::NodeType::value`; `other` is a number that is none of the enumerators.
pub data NodeType : Type 0 where
  undefined null scalar sequence map : NodeType
  other : ℕ → NodeType

-- `JPSourceType` and `UCAddrType` of ConfigUtils.hpp.
pub data JpSourceType : Type 0 where
  rp rpt_pruned spt_joined : JpSourceType

pub data UcAddrType : Type 0 where
  rp source neighbor : UcAddrType

pub data Message : Type 0 where
  not_a_scalar not_a_mapping not_a_sequence : Title → NodeType → Message
  required_field : Text → Title → Message
  no_element : ℕ → Title → ℕ → Message
  key_undefined key_null key_sequence key_mapping key_unrecognized : Message
  unrecognized_field : Text → Title → Message
  duplicate_field : Text → Title → Option ℕ → Message
  invalid_address : UcAddrType → Text → Message
  invalid_unicast address_loopback address_multicast : UcAddrType → IPv4Address → Message
  duplicate_source : IPv4Address → JpSourceType → JpSourceType → Option ℕ → Message
  too_many_prunes : IPv4Address → IPv4Address → ℕ → Message
  empty_group : IPv4Address → Message
  invalid_group : Text → Message
  not_multicast : IPv4Address → Message
  duplicate_group : IPv4Address → Option ℕ → Message
  no_groups : Message
  unknown_interface no_interface_address : Text → Message
  invalid_level no_directory not_a_directory : Text → Message

-- The line is `none` where it is -1.
pub record ErrorContext : Type 0 where
  pub line : Option ℕ
  pub context : List Name
  pub message : Message
