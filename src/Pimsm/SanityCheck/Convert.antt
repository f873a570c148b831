-- ===== src/Pimsm/SanityCheck/Convert.antt =====
-- The first half of apps/pimc/pimsm/PackSanityCheck.hpp: updates are converted back to a configuration.
use pimc_toolkit.Common.{
  ℕ, ◌+◌, List, [], ◌∷◌, ◌++◌, Bool, true, false, not, ◌&&◌, Option, none, some, ◌==◌,
  if◌then◌else◌, length,
}
use pimc_toolkit.Core.Result.{Result, ok, err}
use pimc_toolkit.Net.Address.{IPv4Address, default_address_value}
use pimc_toolkit.Pimsm.Config.{Rpt, GroupConfig}
use pimc_toolkit.Pimsm.Update.{Source, GroupEntry, Update}
use pimc_toolkit.Pimsm.SanityCheck.Sets.{contains, emplace}
use pimc_toolkit.Pimsm.SanityCheck.Maps.{Map, try_emplace, modify}
use pimc_toolkit.Pimsm.SanityCheck.Errors.{
  Message, GroupBase, make_base, error, error_if, rpt_bit_not_set, duplicate_rp, rpt_bit_set,
  duplicate_join, join_among_prunes, another_rp, prunes_without_rp, prune_wildcard_set,
  prune_rpt_not_set, duplicate_prune, prune_among_joins,
}

-- The class has a member `group_` of its own beside that of its base, which no constructor sets.
pub record GroupEntryConverter : Type 0 where
  pub base : GroupBase
  pub group : IPv4Address
  pub joins : List IPv4Address
  pub rp : Option IPv4Address
  pub prunes : List IPv4Address

abbrev pub make_converter : IPv4Address → GroupEntryConverter
make_converter group = record {
  base = make_base group;
  group = default_address_value;
  joins = [];
  rp = none;
  prunes = [];
}

abbrev pub has_rp : Option IPv4Address → Bool
has_rp none = false
has_rp (some a) = true

-- A join with the wildcard bit: the RP.
unfoldable pub add_rp : ℕ → Source → GroupEntryConverter → GroupEntryConverter
add_rp n se c =
    let checked = error_if (not se.rpt) (rpt_bit_not_set n se.addr) c.base in
    elim c.rp [
      | none ↦ record c { base = checked; rp = some se.addr }
      | some r ↦ record c {
        base =
            error (if r == se.addr then duplicate_rp n se.addr else another_rp n r se.addr) checked;
      }
    ]

-- A join of an SPT source.
unfoldable pub add_spt : ℕ → Source → GroupEntryConverter → GroupEntryConverter
unfolding emplace
add_spt n se c =
    let b1 = error_if se.rpt (rpt_bit_set n se.addr) c.base in
    let insop = emplace se.addr c.joins in
    let b2 = error_if (not insop.1) (duplicate_join n se.addr) b1 in
    record c {
      base = error_if (contains se.addr c.prunes) (join_among_prunes n se.addr) b2;
      joins = insop.0;
    }

unfoldable pub add_joins : ℕ → List Source → GroupEntryConverter → GroupEntryConverter
unfolding add_rp add_spt
add_joins n [] c = c
add_joins n (se ∷ rest) c = add_joins n rest (if se.wildcard then add_rp n se c else add_spt n se c)

unfoldable pub add_prune : ℕ → Source → GroupEntryConverter → GroupEntryConverter
unfolding emplace
add_prune n se c =
    let b1 = error_if se.wildcard (prune_wildcard_set n se.addr) c.base in
    let b2 = error_if (not se.rpt) (prune_rpt_not_set n se.addr) b1 in
    let insop = emplace se.addr c.prunes in
    let b3 = error_if (not insop.1) (duplicate_prune n se.addr) b2 in
    record c {
      base = error_if (contains se.addr c.joins) (prune_among_joins n se.addr) b3;
      prunes = insop.0;
    }

unfoldable pub add_prunes : ℕ → List Source → GroupEntryConverter → GroupEntryConverter
unfolding add_prune
add_prunes n [] c = c
add_prunes n (se ∷ rest) c = add_prunes n rest (add_prune n se c)

-- Pruned sources are ignored where no RP is known.
unfoldable pub add_all_prunes : ℕ → List Source → GroupEntryConverter → GroupEntryConverter
unfolding add_prunes
add_all_prunes n prunes c =
    if not (has_rp c.rp) && not (length prunes == 0)
    then record c { base = error (prunes_without_rp n (length prunes)) c.base }
    else add_prunes n prunes c

-- `GroupEntryConverter::add`
unfoldable pub add : ℕ → GroupEntry → GroupEntryConverter → GroupEntryConverter
unfolding add_joins add_all_prunes
add n ge c = add_all_prunes n ge.prunes (add_joins n ge.joins c)

-- `GroupEntryConverter::convert`
unfoldable pub convert : GroupEntryConverter → Result GroupConfig (List Message)
convert c =
    let rpt = elim c.rp as (λ _. Option Rpt) [
      | none ↦ none
      | some r ↦ some (record { rp = r; prunes = c.prunes })
    ] in
    if c.base.failed
    then err c.base.buf
    else ok (record { group = c.group; rpt = rpt; spt = c.joins })

-- The loops of `convertUpdatesToJPConfig` over the updates and their entries, with the number `i`.
abbrev pub add_entry : ℕ → GroupEntry → Map GroupEntryConverter → Map GroupEntryConverter
add_entry i ge cvmap =
    modify ge.group (add i ge) (try_emplace ge.group (make_converter ge.group) cvmap)

unfoldable pub add_entries :
    ℕ → List GroupEntry → Map GroupEntryConverter → ℕ × Map GroupEntryConverter
unfolding add
add_entries i [] cvmap = (i, cvmap)
add_entries i (ge ∷ rest) cvmap = add_entries (i + 1) rest (add_entry i ge cvmap)

unfoldable pub add_updates : ℕ → List Update → Map GroupEntryConverter → Map GroupEntryConverter
unfolding add_entries
add_updates i [] cvmap = cvmap
add_updates i (u ∷ rest) cvmap = let r = add_entries i u.groups cvmap in add_updates r.0 rest r.1

-- The loop over the converters, with the errors and the groups converted so far.
unfoldable pub convert_loop :
    Map GroupEntryConverter
    → List (List Message)
    → Map GroupConfig
    → List (List Message) × Map GroupConfig
unfolding convert
convert_loop [] errors jp_cfg = (errors, jp_cfg)
convert_loop ((g, c) ∷ rest) errors jp_cfg = elim (convert c) [
  | ok gc ↦ convert_loop rest errors (try_emplace g gc jp_cfg)
  | err e ↦ convert_loop rest (errors ++ (e ∷ [])) jp_cfg
]

unfoldable pub convert_updates : List Update → Result (Map GroupConfig) (List (List Message))
unfolding add_updates convert_loop
convert_updates updates =
    let r = convert_loop (add_updates 1 updates []) [] [] in
    if length r.0 == 0 then ok r.1 else err r.0
