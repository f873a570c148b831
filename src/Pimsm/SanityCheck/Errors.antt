-- ===== src/Pimsm/SanityCheck/Errors.antt =====
-- `GroupBase` and `ErrorTracker` of apps/pimc/pimsm/SanityCheckUtils.hpp. A message is the format with
-- its arguments; the buffer holds the messages, which are formatted in their order. The messages of
-- the verifier of inverse updates, which begin with the word inverse, share the constructors.
use pimc_toolkit.Common.{ℕ, List, [], ◌∷◌, ◌++◌, Bool, true, false, if◌then◌else◌}
use pimc_toolkit.Net.Address.{IPv4Address}

pub data Message : Type 0 where
  rpt_bit_not_set duplicate_rp rpt_bit_set duplicate_join join_among_prunes :
      ℕ → IPv4Address → Message
  another_rp : ℕ → IPv4Address → IPv4Address → Message
  prunes_without_rp : ℕ → ℕ → Message
  prune_wildcard_set prune_rpt_not_set duplicate_prune prune_among_joins : ℕ → IPv4Address → Message
  ignored_joins : ℕ → ℕ → Message
  missing_joins extraneous_joins missing_prunes extraneous_prunes : List IPv4Address → Message
  missing_groups extraneous_groups : List IPv4Address → Message
  rpt_missing rpt_extraneous : IPv4Address → ℕ → Message
  other_rp : IPv4Address → IPv4Address → Message
  inverse_rpt_missing inverse_rpt_extraneous : IPv4Address → Message
  in_group : IPv4Address → Message

-- `GroupBase`: the first error is preceded by the name of the group.
pub record GroupBase : Type 0 where
  pub group : IPv4Address
  pub failed : Bool
  pub buf : List Message

abbrev pub make_base : IPv4Address → GroupBase
make_base group = record { group = group; failed = false; buf = [] }

abbrev pub error : Message → GroupBase → GroupBase
error m b = record b {
  failed = true;
  buf = (if b.failed then b.buf else b.buf ++ (in_group b.group ∷ [])) ++ (m ∷ []);
}

-- `if (c) error(m);`
abbrev pub error_if : Bool → Message → GroupBase → GroupBase
error_if c m b = if c then error m b else b

pub record ErrorTracker : Type 0 where
  pub failed : Bool
  pub buf : List Message

abbrev pub no_errors : ErrorTracker
no_errors = record { failed = false; buf = [] }

abbrev pub track : Message → ErrorTracker → ErrorTracker
track m et = record { failed = true; buf = et.buf ++ (m ∷ []) }

abbrev pub append : List Message → ErrorTracker → ErrorTracker
append ms et = record { failed = true; buf = et.buf ++ ms }
