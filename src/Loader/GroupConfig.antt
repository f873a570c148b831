-- ===== src/Loader/GroupConfig.antt =====
-- `GroupConfigBuilderBase` of apps/pimc/config/MulticastConfigLoader.hpp with `JPGroupConfigBuilder` of
-- JPConfigLoader.hpp: one group of the configuration.
pub mod Invariant
use pimc_toolkit.Common.{
  ℕ, suc, ◌+◌, ◌%◌, ◌^◌, List, [], ◌∷◌, ◌++◌, Bool, true, false, not, ◌&&◌, Option, none, some, leb,
  ◌==◌, if◌then◌else◌, Run, done, ◌>>=◌, Text,
}
use pimc_toolkit.Core.Result.{Result, ok, err}
use pimc_toolkit.Net.Address.{IPv4Address}
use pimc_toolkit.Pimsm.Params.{max_prune_sgrpt_len}
use pimc_toolkit.Pimsm.Config.{Rpt, GroupConfig}
use pimc_toolkit.Pimsm.SanityCheck.Sets.{emplace}
use pimc_toolkit.Pimsm.SanityCheck.Maps.{Map, find, try_emplace}
use pimc_toolkit.Loader.Errors.{
  Message, ErrorContext, JpSourceType, UcAddrType, rpt_config, spt_config, rp_address,
  pruned_sources, source_address, group_config, duplicate_source, too_many_prunes, empty_group,
}
use pimc_toolkit.Loader.Yaml.{
  YamlLib, ValueContext, ScalarContext, MappingContext, SequenceContext, get_scalar, get_mapping,
  get_sequence, required, optional, extraneous, list, error, node_line, flat_map,
}
use pimc_toolkit.Loader.Addresses.{uc_addr}

pub record JpSourceInfo : Type 0 where
  pub type : JpSourceType
  pub line : Option ℕ

-- The members of both classes; the sets are in increasing order.
pub record GroupBuilder : Type 0 where
  pub group : IPv4Address
  pub line : Option ℕ
  pub pruned_count : ℕ
  pub sources : Map JpSourceInfo
  pub rp : Option IPv4Address
  pub rpt_pruned : List IPv4Address
  pub sg_joined : List IPv4Address

abbrev pub make : IPv4Address → Option ℕ → GroupBuilder
make group line = record {
  group = group;
  line = line;
  pruned_count = 0;
  sources = [];
  rp = none;
  rpt_pruned = [];
  sg_joined = [];
}

abbrev pub accept_rp : IPv4Address → GroupBuilder → GroupBuilder
accept_rp rp b = record b { rp = some rp }

abbrev pub accept_prune_sgrpt : IPv4Address → GroupBuilder → GroupBuilder
accept_prune_sgrpt sa b = record b { rpt_pruned = (emplace sa b.rpt_pruned).0 }

abbrev pub accept_join_sg : IPv4Address → GroupBuilder → GroupBuilder
accept_join_sg sa b = record b { sg_joined = (emplace sa b.sg_joined).0 }

-- `build`: without an RP, what was pruned is dropped.
abbrev pub build : GroupBuilder → GroupConfig
build b = record {
  group = b.group;
  rpt = (elim b.rp as (λ _. Option Rpt) [
    | none ↦ none
    | some rp ↦ some (record { rp = rp; prunes = b.rpt_pruned })
  ]);
  spt = b.sg_joined;
}

-- The errors, to which the builders share a reference, and the builder.
pub record Loading : Type 0 where
  pub errors : List ErrorContext
  pub builder : GroupBuilder

abbrev pub report : ErrorContext → Loading → Loading
report e l = record l { errors = l.errors ++ (e ∷ []) }

abbrev pub store_rp : IPv4Address → Loading → Loading
store_rp rp l = record l { builder = accept_rp rp l.builder }

abbrev pub store_join : IPv4Address → Loading → Loading
store_join sa l = record l { builder = accept_join_sg sa l.builder }

-- `if (r)` behind a `chk`.
abbrev pub if_ok {ℓ} :
    {A : Type ℓ} → Result A ErrorContext → (A → Loading → Run Loading) → Loading → Run Loading
if_ok (ok a) f l = f a l
if_ok (err e) f l = done (report e l)

abbrev pub if_given {ℓ} :
    {A : Type ℓ} → Option A → (A → Loading → Run Loading) → Loading → Run Loading
if_given none f l = done l
if_given (some a) f l = f a l

module _ {Node : Type 0} (y : YamlLib Node) where
  unfoldable pub chk_src :
      ScalarContext Node → IPv4Address → JpSourceType → Loading → Loading × Bool
  chk_src s src jpst l = elim (find src l.builder.sources) [
    | some e ↦ (report (error y s.node s.names (duplicate_source src jpst e.type e.line)) l, false)
    | none ↦ (
      record l {
        builder = record l.builder {
          sources =
              try_emplace src (record { type = jpst; line = node_line y s.node }) l.builder.sources;
        };
      },
      true,
    )
  ]

  -- `chk(ucAddr(…).mapError(…))`, and what is done with the address if there is one.
  abbrev pub with_addr :
      Result IPv4Address Message
      → ScalarContext Node
      → (IPv4Address → Loading → Loading)
      → Loading
      → Loading
  with_addr (ok a) s f l = f a l
  with_addr (err m) s f l = report (error y s.node s.names m) l

  -- What is done with an address for the list of sources, if it is not there yet.
  abbrev pub if_new : Loading × Bool → (Loading → Loading) → Loading
  if_new c f = if c.1 then f c.0 else c.0

  -- What is done with the RP, once it is a scalar.
  unfoldable pub load_rp : ScalarContext Node → Loading → Loading
  unfolding chk_src
  load_rp s l =
      with_addr (uc_addr (y.text s.node) UcAddrType.rp) s
        (λ rp k. if_new (chk_src s rp JpSourceType.rp k) (store_rp rp)) l

  -- An RPT-pruned source that is not a duplicate.
  unfoldable pub prune_source : ScalarContext Node → IPv4Address → Loading → Loading
  prune_source s src l =
      let b = l.builder in
      let counted = record b { pruned_count = (b.pruned_count + 1) % 2 ^ 64 } in
      if leb max_prune_sgrpt_len b.pruned_count
      then report (error y s.node s.names (too_many_prunes src b.group b.pruned_count)) l
      else record l { builder = accept_prune_sgrpt src counted }

  -- One round of the loop over the RPT-pruned sources, once it is a scalar.
  unfoldable pub load_pruned : ScalarContext Node → Loading → Loading
  unfolding chk_src prune_source
  load_pruned s l =
      with_addr (uc_addr (y.text s.node) UcAddrType.source) s
        (λ src k. if_new (chk_src s src JpSourceType.rpt_pruned k) (prune_source s src)) l

  unfoldable pub load_joined : ScalarContext Node → Loading → Loading
  unfolding chk_src
  load_joined s l =
      with_addr (uc_addr (y.text s.node) UcAddrType.source) s
        (λ src k. if_new (chk_src s src JpSourceType.spt_joined k) (store_join src)) l

  -- The loops over the elements of a sequence, each of which is to be a scalar.
  unfoldable pub load_each :
      (ScalarContext Node → Loading → Loading) → List (ValueContext Node) → Loading → Run Loading
  load_each f [] l = done l
  load_each f (v ∷ vs) l = do
    r ← get_scalar y source_address v
    l' ← if_ok r (λ s k. done (f s k)) l
    load_each f vs l'

  unfoldable pub load_prunes : ValueContext Node → Loading → Run Loading
  unfolding load_each load_pruned
  load_prunes v l = do
    r ← get_sequence y pruned_sources v
    if_ok r (λ s. load_each load_pruned (list y s)) l

  abbrev pub f_rp : Text
  f_rp = b'R' ∷ b'P' ∷ []

  abbrev pub f_prune : Text
  f_prune = b'P' ∷ b'r' ∷ b'u' ∷ b'n' ∷ b'e' ∷ []

  abbrev pub f_join : Text
  f_join = b'J' ∷ b'o' ∷ b'i' ∷ b'n' ∷ []

  abbrev pub f_join_star : Text
  f_join_star = b'J' ∷ b'o' ∷ b'i' ∷ b'n' ∷ b'*' ∷ []

  -- `chkExtraneous`
  abbrev pub chk_extraneous : MappingContext Node → Loading → Loading
  chk_extraneous m l = record l { errors = l.errors ++ extraneous y m }

  -- The mapping of the "Join*" entry.
  unfoldable pub load_rpt_mapping : MappingContext Node → Loading → Run Loading
  unfolding load_rp load_prunes
  load_rpt_mapping m l = do
    let rp_field = required y f_rp m
    r ← flat_map rp_field.1 (get_scalar y rp_address)
    l1 ← if_ok r (λ s k. done (load_rp s k)) l
    let prune_field = optional y f_prune rp_field.0
    l2 ← if_given prune_field.1 load_prunes l1
    done (chk_extraneous prune_field.0 l2)

  unfoldable pub load_rpt_config : ValueContext Node → Loading → Run Loading
  unfolding load_rpt_mapping
  load_rpt_config v l = do r ← get_mapping y rpt_config v; if_ok r load_rpt_mapping l

  unfoldable pub load_spt_config : ValueContext Node → Loading → Run Loading
  unfolding load_each load_joined
  load_spt_config v l = do
    r ← get_sequence y spt_config v
    if_ok r (λ s. load_each load_joined (list y s)) l

  abbrev pub given {ℓ} : {A : Type ℓ} → Option A → Bool
  given none = false
  given (some a) = true

  -- The mapping of a group.
  unfoldable pub load_group_mapping :
      ValueContext Node → MappingContext Node → Loading → Run Loading
  unfolding load_rpt_config load_spt_config
  load_group_mapping v m l = do
    let rpt = optional y f_join_star m
    l1 ← if_given rpt.1 load_rpt_config l
    let spt = optional y f_join rpt.0
    l2 ← if_given spt.1 load_spt_config l1
    let l3 = chk_extraneous spt.0 l2
    done (
        if not (given rpt.1) && not (given spt.1)
        then report (error y v.node v.names (empty_group l.builder.group)) l3
        else l3)

  unfoldable pub load_group_config : ValueContext Node → Loading → Run Loading
  unfolding load_group_mapping
  load_group_config v l = do
    r ← get_mapping y (group_config l.builder.group) v
    if_ok r (load_group_mapping v) l
