-- ===== src/Pimsm/SanityCheck/Verify.antt =====
-- The packer passes its own sanity check: `verifyUpdates` finds no error in what `pack` makes.
use pimc_toolkit.Common.{
  ℕ, ◌+◌, ◌≤◌, ◌<◌, ◌≡◌, ◌↔◌, refl, sym, ◌∙◌, List, [], ◌∷◌, true, false, Option, none, some, ◌||◌,
  ltb, All, All-append, All-map, All-intro, length, done, ap, arith,
}
use pimc_toolkit.Net.Address.{IPv4Address}
use pimc_toolkit.Core.Result.{ok}
use pimc_toolkit.Pimsm.Config.{Rpt, GroupConfig, JpConfig}
use pimc_toolkit.Pimsm.Update.{Source, GroupEntry, Update}
use pimc_toolkit.Pimsm.Pack.{pack}
use pimc_toolkit.Pimsm.Pack.Search.{PrunesFit}
use pimc_toolkit.Pimsm.Pack.Correct.{pack_total}
use pimc_toolkit.Pimsm.Pack.Built.{is_wild, IsBuilt, UpdateBuilt, pack-IsBuilt}
use pimc_toolkit.Pimsm.SanityCheck.Sets.{count, contains}
use pimc_toolkit.Pimsm.SanityCheck.Maps.{
  Map, find, keys, AllEntries, find-AllEntries, try_emplace, contains-try_emplace,
}
use pimc_toolkit.Pimsm.SanityCheck.Convert.{GroupEntryConverter, add_updates, convert_updates}
use pimc_toolkit.Pimsm.SanityCheck.Compare.{compare_groups, orig_loop, verify_updates}
use pimc_toolkit.Pimsm.SanityCheck.Totals.{
  total, keys_of, Distinct, contains_get, total_own, total-le, joins_of, cfg_joins, cfg_prunes,
  entries, packed_joins, packed_prunes,
}
use pimc_toolkit.Pimsm.SanityCheck.Adding.{spt_at, rp_at, pruned_at, rp_num}
use pimc_toolkit.Pimsm.SanityCheck.Invariant.{
  joined, pruned, groups_of, IsOnce, IsGood, updates-IsOpen,
}
use pimc_toolkit.Pimsm.SanityCheck.Verdict.{
  rp_of, prunes_in, IsHeld, compare_groups_same, compare_configs_same, orig_loop-AllEntries,
  converted, convert_loop_lem,
}
use pimc_toolkit.Pimsm.SanityCheck.Sound.{verify_updates_sound}
use pimc_toolkit.Pimsm.SanityCheck.Measures.{
  one, sum_of-one, cfg_joins-spt_at, cfg_joins-rp_at, cfg_prunes-pruned_at, cfg_joins-is_wild,
  cfg_joins-one, total_add, contains-total,
}

-- No source stands twice in a group, be it joined or pruned.
abbrev pub IsApart : GroupConfig → Type 0
IsApart ge = (a : IPv4Address) → count a ge.spt + count a (prunes_in ge.rpt) ≤ 1

-- A configuration with such groups, of which no two have the same address.
pub record IsProper (cfg : JpConfig) : Type 0 where
  pub distinct : Distinct (λ ge. ge.group) cfg.groups
  pub apart : All IsApart cfg.groups

-- A group joins something: a source or the RP.
abbrev pub Joins : GroupConfig → Type 0
Joins ge = 0 < length ge.spt + rp_num (rp_of ge.rpt)

entries-IsBuilt : (us : List Update) → All UpdateBuilt us → All IsBuilt (entries us)
entries-IsBuilt [] h = tt
entries-IsBuilt (u ∷ us) h = All-append IsBuilt u.groups (entries us) h.0 (entries-IsBuilt us h.1)

abbrev group_of : GroupConfig → IPv4Address
group_of ge = ge.group

module _ (cfg : JpConfig) (us : List Update) (fit : All (λ ge. PrunesFit ge.rpt) cfg.groups)
    (proper : IsProper cfg) (packed : pack cfg ≡ done us) where
  abbrev all : List GroupEntry
  all = entries us

  built : All IsBuilt all
  built = entries-IsBuilt us (pack-IsBuilt cfg us packed)

  all-IsOnce : IsOnce all
  all-IsOnce = record {
    once = λ g a. omega (
      arith,
      packed_joins cfg us fit packed (spt_at a) g,
      packed_prunes cfg us fit packed (pruned_at a) g,
      total_add group_of (cfg_joins (spt_at a)) (cfg_prunes (pruned_at a)) g cfg.groups,
      total-le group_of (λ ge. cfg_joins (spt_at a) ge + cfg_prunes (pruned_at a) ge) 1 g cfg.groups
          proper.distinct
          (All-map IsApart (λ ge. cfg_joins (spt_at a) ge + cfg_prunes (pruned_at a) ge ≤ 1)
            cfg.groups
            (λ ge h. omega (arith, cfg_joins-spt_at a ge, cfg_prunes-pruned_at a ge, h a))
            proper.apart),
    );
    one_rp = λ g. omega (
      arith,
      packed_joins cfg us fit packed is_wild g,
      total-le group_of (cfg_joins is_wild) 1 g cfg.groups proper.distinct (
          All-map IsApart (λ ge. cfg_joins is_wild ge ≤ 1) cfg.groups
            (λ ge h. omega (arith, cfg_joins-is_wild ge, rp_num-le ge.rpt)) proper.apart),
    );
  }
    where
      rp_num-le : (o : Option Rpt) → rp_num (rp_of o) ≤ 1
      rp_num-le none = omega arith
      rp_num-le (some r) = omega arith

  -- What the entries hold for a group.
  abbrev Held : IPv4Address → GroupConfig → Type 0
  Held g =
      IsHeld (λ a. joined (spt_at a) g all) (λ a. pruned (pruned_at a) g all)
        (λ a. joined (rp_at a) g all) (joined is_wild g all)

  orig-IsHeld : All (λ ge. Held ge.group ge) cfg.groups
  orig-IsHeld =
      All-intro (λ ge. Held ge.group ge) cfg.groups
        (λ i ge e.
          let own = λ (f : Source → ℕ).
            packed_joins cfg us fit packed f ge.group
            ∙ total_own group_of (cfg_joins f) cfg.groups i ge proper.distinct e in
          record {
            joins = λ a. sym (cfg_joins-spt_at a ge) ∙ sym (own (spt_at a));
            prunes = λ _ a.
                sym (cfg_prunes-pruned_at a ge)
                ∙ sym (
                    packed_prunes cfg us fit packed (pruned_at a) ge.group
                    ∙ total_own group_of (cfg_prunes (pruned_at a)) cfg.groups i ge proper.distinct
                        e);
            rp = λ a. sym (cfg_joins-rp_at a ge) ∙ sym (own (rp_at a));
            rps = sym (cfg_joins-is_wild ge) ∙ sym (own is_wild);
          })

  good-Held :
      (g : IPv4Address) (c : GroupEntryConverter)
      → IsGood all [] g c
      → (c.base.failed ≡ false) × Held g (converted c)
  good-Held g c h = (h.clean, held c.rp refl)
    where
      held : (o : Option IPv4Address) → c.rp ≡ o → Held g (converted c)
      held none e = record {
        joins = λ a. omega (arith, h.joins a);
        prunes = λ k a. absurd (ground (arith, h.rps, k));
        rp = λ a. rw e (ground (arith, h.rp a));
        rps = rw e (ground (arith, h.rps));
      }
      held (some r) e = record {
        joins = λ a. omega (arith, h.joins a);
        prunes = λ k a. rw e (omega (arith, h.prunes a));
        rp = λ a. rw e (ground (arith, h.rp a));
        rps = rw e (ground (arith, h.rps));
      }

  -- The groups of the updates are those with something joined.
  groups-total :
      (g : IPv4Address)
      → contains g (groups_of all) ≡ ltb 0 (total group_of (cfg_joins one) g cfg.groups)
  groups-total g =
      contains-total (λ e. e.group) (joins_of one) g all
        (All-map IsBuilt (λ e. 0 < joins_of one e) all
          (λ e h. omega (arith, sum_of-one e.joins, h.some_join)) built)
      ∙ ap (ltb 0) (packed_joins cfg us fit packed one g)

  groups-same :
      All Joins cfg.groups
      → (g : IPv4Address) → contains g (keys_of group_of cfg.groups) ≡ contains g (groups_of all)
  groups-same joins g =
      contains-total group_of (cfg_joins one) g cfg.groups (
        All-map Joins (λ ge. 0 < cfg_joins one ge) cfg.groups
          (λ ge h. omega (arith, cfg_joins-one ge, h)) joins)
      ∙ sym (groups-total g)

  orig-keys :
      (g : IPv4Address) (gs : List GroupConfig) (m : Map GroupConfig)
      → contains g (keys (orig_loop gs m))
        ≡ (contains g (keys_of group_of gs) || contains g (keys m))
  unfolding orig_loop
  orig-keys g [] m = refl
  orig-keys g (ge ∷ gs) m =
      ground
        (arith, orig-keys g gs (try_emplace ge.group ge m), contains-try_emplace g ge.group ge m)

  -- The updates convert without an error, to what they hold.
  record Converted : Type 0 where
    rslt : Map GroupConfig
    runs : convert_updates us ≡ ok rslt
    held : AllEntries Held rslt
    members : (g : IPv4Address) → contains g (keys rslt) ≡ contains g (groups_of all)

  converts : Converted
  unfolding convert_updates
  converts =
      let m = add_updates 1 us [] in
      let open_ = updates-IsOpen us all-IsOnce (pack-IsBuilt cfg us packed) in
      let (rslt, e, held, member) =
        convert_loop_lem Held m []
          (All-map (λ x. IsGood all [] x.0 x.1)
            (λ x. (x.1.base.failed ≡ false) × Held x.0 (converted x.1)) m (λ x. good-Held x.0 x.1)
            open_.good)
          tt in
      record {
        rslt = rslt;
        runs = rw (convert_updates, e) refl;
        held = held;
        members = λ g. ground (arith, member g, open_.covered g);
      }

  verify_packed : All Joins cfg.groups → verify_updates cfg us ≡ ok tt
  unfolding verify_updates
  verify_packed joins =
      let c = converts in
      rw (verify_updates, c.runs)
        (compare_configs_same (orig_loop cfg.groups []) c.rslt
          (λ g. ground (arith, orig-keys g cfg.groups [], c.members g, groups-same joins g))
          (orig_loop-AllEntries _ cfg.groups []
            (All-map (λ ge. Held ge.group ge)
              (λ ge.
                (q : GroupConfig)
                → find ge.group c.rslt ≡ some q
                → compare_groups ge.group ge q ≡ ok tt)
              cfg.groups
              (λ ge h q f.
                compare_groups_same _ _ _ _ ge.group ge q h
                  (find-AllEntries Held ge.group q c.rslt c.held f))
              orig-IsHeld)
            tt))

  -- Conversely, a group that joins nothing is missed.
  packed-Joins : verify_updates cfg us ≡ ok tt → All Joins cfg.groups
  packed-Joins v =
      let c = converts in
      let (rslt, runs, same, _) = verify_updates_sound cfg us v in
      let both : ok rslt ≡ ok c.rslt = sym runs ∙ c.runs in
      let rslt_same : rslt ≡ c.rslt = cc in
      All-intro Joins cfg.groups (λ i ge e.
        let there = contains_get group_of cfg.groups i ge e in
        let own = total_own group_of (cfg_joins one) cfg.groups i ge proper.distinct e in
        let in_rslt : contains ge.group (keys c.rslt) ≡ true =
          rw⁻¹ rslt_same (ground (arith, same ge.group, orig-keys ge.group cfg.groups [], there)) in
        ground (arith, c.members ge.group, groups-total ge.group, own, cfg_joins-one ge, in_rslt))

-- For a configuration in which no source stands twice in a group and no two groups have the same
-- address, and of which no group has more than 180 RPT-pruned sources, packing returns updates; and
-- `verifyUpdates` finds no error in them just where each group joins something.
pub verify_updates-pack :
    (cfg : JpConfig)
    → All (λ ge. PrunesFit ge.rpt) cfg.groups
    → IsProper cfg
    → (us : List Update) × (pack cfg ≡ done us)
      × ((verify_updates cfg us ≡ ok tt) ↔ All Joins cfg.groups)
verify_updates-pack cfg fit proper =
    let (us, packed, _) = pack_total cfg fit in
    (us, packed, (packed-Joins cfg us fit proper packed, verify_packed cfg us fit proper packed))
