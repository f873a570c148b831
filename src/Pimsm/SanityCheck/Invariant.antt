-- ===== src/Pimsm/SanityCheck/Invariant.antt =====
-- The invariant of the loops of `convertUpdatesToJPConfig`: what the converters have taken, and what
-- is still to come, make up all the entries.
use pimc_toolkit.Common.{ℕ, ◌+◌, ◌≤◌, ◌≡◌, refl, List, [], ◌∷◌, ◌++◌, false, ◌==◌, ◌||◌, All, arith}
use pimc_toolkit.Net.Address.{IPv4Address}
use pimc_toolkit.Pimsm.Update.{Source, GroupEntry, Update}
use pimc_toolkit.Pimsm.Pack.Built.{is_wild, IsBuilt, UpdateBuilt}
use pimc_toolkit.Pimsm.SanityCheck.Sets.{count, contains}
use pimc_toolkit.Pimsm.SanityCheck.Maps.{
  Map, keys, try_emplace, DistinctKeys, AllEntries, contains-try_emplace, keys-modify,
  try_emplace-DistinctKeys, modify-DistinctKeys, try_emplace-AllEntries, modify-AllEntries,
}
use pimc_toolkit.Pimsm.SanityCheck.Convert.{
  GroupEntryConverter, make_converter, add, add_entry, add_entries, add_updates,
}
use pimc_toolkit.Pimsm.SanityCheck.Totals.{total, keys_of, joins_of, prunes_of, entries}
use pimc_toolkit.Pimsm.SanityCheck.Adding.{spt_at, rp_at, pruned_at, rp_is, rp_num, add_lem}

abbrev pub joined : (Source → ℕ) → IPv4Address → List GroupEntry → ℕ
joined f = total (λ e. e.group) (joins_of f)

abbrev pub pruned : (Source → ℕ) → IPv4Address → List GroupEntry → ℕ
pruned f = total (λ e. e.group) (prunes_of f)

abbrev pub groups_of : List GroupEntry → List IPv4Address
groups_of = keys_of (λ e. e.group)

-- No source comes twice for a group, and no second RP.
pub record IsOnce (all : List GroupEntry) : Type 0 where
  pub once : (g a : IPv4Address) → joined (spt_at a) g all + pruned (pruned_at a) g all ≤ 1
  pub one_rp : (g : IPv4Address) → joined is_wild g all ≤ 1

module _ (all : List GroupEntry) where
  -- The converter `c` of group `g`, with `es` still to come, is without errors.
  pub record IsGood (es : List GroupEntry) (g : IPv4Address) (c : GroupEntryConverter)
      : Type 0 where
    pub clean : c.base.failed ≡ false
    pub joins :
        (a : IPv4Address) → count a c.joins + joined (spt_at a) g es ≡ joined (spt_at a) g all
    pub prunes :
        (a : IPv4Address)
        → count a c.prunes + pruned (pruned_at a) g es ≡ pruned (pruned_at a) g all
    pub rp : (a : IPv4Address) → rp_is a c.rp + joined (rp_at a) g es ≡ joined (rp_at a) g all
    pub rps : rp_num c.rp + joined is_wild g es ≡ joined is_wild g all

  pub record IsOpen (es : List GroupEntry) (m : Map GroupEntryConverter) : Type 0 where
    pub good : AllEntries (IsGood es) m
    pub absent : (g : IPv4Address) → contains g (keys m) ≡ false → IsGood es g (make_converter g)
    pub distinct : DistinctKeys m
    pub covered :
        (g : IPv4Address)
        → (contains g (keys m) || contains g (groups_of es)) ≡ contains g (groups_of all)

  other-IsGood :
      (e : GroupEntry) (es : List GroupEntry) (g : IPv4Address) (c : GroupEntryConverter)
      → (g == e.group) ≡ false
      → IsGood (e ∷ es) g c
      → IsGood es g c
  other-IsGood e es g c h k = record {
    clean = k.clean;
    joins = λ a. ground (arith, k.joins a);
    prunes = λ a. ground (arith, k.prunes a);
    rp = λ a. ground (arith, k.rp a);
    rps = ground (arith, k.rps);
  }

  this-IsGood :
      (n : ℕ) (e : GroupEntry) (es : List GroupEntry) (c : GroupEntryConverter)
      → IsOnce all
      → IsBuilt e
      → IsGood (e ∷ es) e.group c
      → IsGood es e.group (add n e c)
  this-IsGood n e es c o b k =
      let t =
        add_lem n e c b k.clean (λ a. ground (arith, k.joins a, k.prunes a, o.once e.group a))
          (ground (arith, k.rps, o.one_rp e.group)) in
      record {
        clean = t.clean;
        joins = λ a. ground (arith, k.joins a, t.joins a);
        prunes = λ a. ground (arith, k.prunes a, t.prunes a);
        rp = λ a. ground (arith, k.rp a, t.rp a);
        rps = ground (arith, k.rps, t.rps);
      }

  add_entry_lem :
      (n : ℕ) (e : GroupEntry) (es : List GroupEntry) (m : Map GroupEntryConverter)
      → IsOnce all
      → IsBuilt e
      → IsOpen (e ∷ es) m
      → IsOpen es (add_entry n e m)
  add_entry_lem n e es m o b i =
      let m1 = try_emplace e.group (make_converter e.group) m in
      let good1 =
        try_emplace-AllEntries (IsGood (e ∷ es)) e.group (make_converter e.group) m i.good
          (i.absent e.group) in
      let distinct1 = try_emplace-DistinctKeys e.group (make_converter e.group) m i.distinct in
      let same_keys = keys-modify e.group (add n e) m1 in
      let member = λ (g : IPv4Address). contains-try_emplace g e.group (make_converter e.group) m in
      record {
        good =
            modify-AllEntries (IsGood (e ∷ es)) (IsGood es) e.group (add n e) m1 distinct1 good1
              (λ g c h. other-IsGood e es g c (ground arith)) (λ c. this-IsGood n e es c o b);
        absent = λ g h.
            let gone : contains g (keys m1) ≡ false = rw same_keys at h in
            other-IsGood e es g (make_converter g) (ground (arith, member g, gone))
              (i.absent g (ground (arith, member g, gone)));
        distinct = modify-DistinctKeys e.group (add n e) m1 distinct1;
        covered = λ g. rw same_keys (ground (arith, member g, i.covered g));
      }

  add_entries_lem :
      (n : ℕ) (es : List GroupEntry) (more : List GroupEntry) (m : Map GroupEntryConverter)
      → IsOnce all
      → All IsBuilt es
      → IsOpen (es ++ more) m
      → IsOpen more (add_entries n es m).1
  unfolding add_entries
  add_entries_lem n [] more m o b i = i
  add_entries_lem n (e ∷ es) more m o b i =
      add_entries_lem (n + 1) es more (add_entry n e m) o b.1
        (add_entry_lem n e (es ++ more) m o b.0 i)

  add_updates_lem :
      (n : ℕ) (us : List Update) (m : Map GroupEntryConverter)
      → IsOnce all
      → All UpdateBuilt us
      → IsOpen (entries us) m
      → IsOpen [] (add_updates n us m)
  unfolding add_updates
  add_updates_lem n [] m o b i = i
  add_updates_lem n (u ∷ us) m o b i =
      let r = add_entries n u.groups m in
      add_updates_lem r.0 us r.1 o b.1 (add_entries_lem n u.groups (entries us) m o b.0 i)

  initial-IsOpen : IsOpen all []
  initial-IsOpen = record {
    good = tt;
    absent = λ g h. record {
      clean = refl;
      joins = λ a. omega arith;
      prunes = λ a. omega arith;
      rp = λ a. omega arith;
      rps = omega arith;
    };
    distinct = tt;
    covered = λ g. refl;
  }

-- All updates added: the converters hold just what their entries hold.
pub updates-IsOpen :
    (us : List Update)
    → IsOnce (entries us)
    → All UpdateBuilt us
    → IsOpen (entries us) [] (add_updates 1 us [])
updates-IsOpen us o b = add_updates_lem (entries us) 1 us [] o b (initial-IsOpen (entries us))
