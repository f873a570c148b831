-- ===== src/Loader/Multicast/Proper.antt =====
-- What every configuration has that `loadJPConfig` returns, whatever the document.
use pimc_toolkit.Common.{
  ℕ, ◌+◌, ◌≤◌, ◌<◌, ◌≡◌, refl, List, [], ◌∷◌, ◌++◌, Bool, true, false, ◌||◌, Option, none, some,
  ltb, ◌==◌, if◌then◌else◌, Option-cases, inl, inr, All, All-append, Run, done, raised, fault,
  stuck, ◌>>=◌, Holds, Holds->>=, arith,
}
use pimc_toolkit.Core.Result.{Result, ok, err}
use pimc_toolkit.Net.Address.{IPv4Address, is_mcast}
use pimc_toolkit.Pimsm.Config.{GroupConfig, JpConfig}
use pimc_toolkit.Pimsm.Pack.Search.{PrunesFit}
use pimc_toolkit.Pimsm.SanityCheck.Sets.{count, contains}
use pimc_toolkit.Pimsm.SanityCheck.Maps.{
  Map, find, keys, AllEntries, contains-try_emplace, try_emplace-AllEntries, find-AllEntries,
  find-none,
}
use pimc_toolkit.Pimsm.SanityCheck.Totals.{Distinct, keys_of}
use pimc_toolkit.Pimsm.SanityCheck.Adding.{rp_is}
use pimc_toolkit.Pimsm.SanityCheck.Verdict.{rp_of, prunes_in}
use pimc_toolkit.Loader.Errors.{ErrorContext, untitled, multicast_config, Message, no_groups}
use pimc_toolkit.Loader.Yaml.{
  YamlLib, ValueContext, ScalarContext, MappingContext, get_scalar, get_mapping, items, error,
  node_line,
}
use pimc_toolkit.Loader.Addresses.{grp_addr, grp_addr-is_mcast, IsUnicast}
use pimc_toolkit.Loader.GroupConfig.{GroupBuilder, Loading, load_group_config}
use pimc_toolkit.Loader.GroupConfig
use pimc_toolkit.Loader.GroupConfig.Invariant.{
  IsSound, accepted, make-IsSound, load_group_config-IsSound,
}
use pimc_toolkit.Loader.Multicast.{
  MulticastBuilder, no_builders, report, load_new_group, load_group, load_item, load_items,
  load_multicast_config, build_groups, build, no_errors, load_jp_config,
}

-- A group as the loader makes it: a multicast address; at most 180 RPT-pruned sources; no source twice,
-- be it joined or pruned; and unicast addresses for the sources and the RP.
pub record IsLoadedGroup (ge : GroupConfig) : Type 0 where
  pub multicast : is_mcast ge.group ≡ true
  pub prunes_fit : PrunesFit ge.rpt
  pub apart : (a : IPv4Address) → count a ge.spt + count a (prunes_in ge.rpt) ≤ 1
  pub unicast :
      (a : IPv4Address)
      → 0 < rp_is a (rp_of ge.rpt) + count a ge.spt + count a (prunes_in ge.rpt)
      → IsUnicast a

pub record IsLoaded (cfg : JpConfig) : Type 0 where
  pub distinct : Distinct (λ ge. ge.group) cfg.groups
  pub groups : All IsLoadedGroup cfg.groups

build-IsLoadedGroup :
    (g : IPv4Address) (b : GroupBuilder)
    → is_mcast g ≡ true
    → IsSound g b
    → IsLoadedGroup (GroupConfig.build b)
build-IsLoadedGroup g b m i = by_rp b.rp refl
  where
    tracked_at : (a : IPv4Address) → 0 < accepted a b → IsUnicast a
    tracked_at a h = i.unicast a (ground (arith, i.tracked a))

    at_most : (a : IPv4Address) → accepted a b ≤ 1
    at_most a = ground (arith, i.tracked a)

    by_rp : (o : Option IPv4Address) → b.rp ≡ o → IsLoadedGroup (GroupConfig.build b)
    by_rp none e = record {
      multicast = rw i.named m;
      prunes_fit = rw e tt;
      apart = λ a. rw e (omega (arith, at_most a));
      unicast = λ a h. tracked_at a (ground (arith, h));
    }
    by_rp (some r) e = record {
      multicast = rw i.named m;
      prunes_fit = rw e (omega (arith, i.counted, i.within));
      apart = λ a. rw e (omega (arith, at_most a));
      unicast = λ a h. tracked_at a (ground (arith, h));
    }

-- No element stands twice.
abbrev NoTwice : List IPv4Address → Type 0
NoTwice [] = Unit {0}
NoTwice (g ∷ gs) = (contains g gs ≡ false) × NoTwice gs

contains-append_one :
    (a g : IPv4Address) (gs : List IPv4Address)
    → contains a (gs ++ (g ∷ [])) ≡ (contains a gs || a == g)
contains-append_one a g [] = ground arith
contains-append_one a g (h ∷ gs) = ground (arith, contains-append_one a g gs)

append_one-NoTwice :
    (g : IPv4Address) (gs : List IPv4Address)
    → NoTwice gs
    → contains g gs ≡ false
    → NoTwice (gs ++ (g ∷ []))
append_one-NoTwice g [] n h = (refl, tt)
append_one-NoTwice g (a ∷ gs) n h =
    (ground (arith, contains-append_one a g gs, n.0, h), append_one-NoTwice g gs n.1 (ground arith))

NoTwice-Distinct :
    (gs : List GroupConfig) → NoTwice (keys_of (λ ge. ge.group) gs) → Distinct (λ ge. ge.group) gs
NoTwice-Distinct [] n = tt
NoTwice-Distinct (ge ∷ gs) n = (n.0, NoTwice-Distinct gs n.1)

-- The invariant of the loop over the groups.
pub record IsLoading (b : MulticastBuilder) : Type 0 where
  pub sound : AllEntries IsSound b.builders
  pub listed : (g : IPv4Address) → contains g b.groups ≡ contains g (keys b.builders)
  pub once : NoTwice b.groups
  pub multicast : All (λ g. is_mcast g ≡ true) b.groups

-- What follows a step that may throw, and leaves the builder.
behind :
    {A : Type 0} (r : Run A) (f : A → Run MulticastBuilder)
    → ((a : A) → Holds IsLoading (f a))
    → Holds IsLoading (r >>= f)
behind (done a) f k = k a
behind (raised e) f k = tt
behind fault f k = tt
behind stuck f k = tt

report-IsLoading : (e : ErrorContext) (b : MulticastBuilder) → IsLoading b → IsLoading (report e b)
report-IsLoading e b i = record {
  sound = i.sound;
  listed = i.listed;
  once = i.once;
  multicast = i.multicast;
}

module _ {Node : Type 0} (y : YamlLib Node) where
  load_new_group-IsLoading :
      (ga : IPv4Address) (line : Option ℕ) (v : ValueContext Node) (b : MulticastBuilder)
      → is_mcast ga ≡ true
      → find ga b.builders ≡ none
      → IsLoading b
      → Holds IsLoading (load_new_group y ga line v b)
  unfolding load_new_group
  load_new_group-IsLoading ga line v b m new i =
      Holds->>= (λ l. IsSound ga l.builder) IsLoading
        (load_group_config y v (record { errors = b.errors; builder = GroupConfig.make ga line })) _
        (load_group_config-IsSound y ga v _ (make-IsSound ga line))
        (λ l s.
          let unseen : contains ga (keys b.builders) ≡ false = find-none ga b.builders new in
          record {
            sound = try_emplace-AllEntries IsSound ga l.builder b.builders i.sound (λ _. s);
            listed = λ g. ground (
              arith,
              i.listed g,
              contains-append_one g ga b.groups,
              contains-try_emplace g ga l.builder b.builders,
            );
            once = append_one-NoTwice ga b.groups i.once (ground (arith, i.listed ga));
            multicast = All-append (λ g. is_mcast g ≡ true) b.groups (ga ∷ []) i.multicast (m, tt);
          })

  load_group-IsLoading :
      (s : ScalarContext Node) (ga : IPv4Address) (v : ValueContext Node) (b : MulticastBuilder)
      → is_mcast ga ≡ true
      → IsLoading b
      → Holds IsLoading (load_group y s ga v b)
  unfolding load_group
  load_group-IsLoading s ga v b m i = elim (Option-cases (find ga b.builders)) [
    | inl new ↦ rw (load_group, new) (load_new_group-IsLoading ga (node_line y s.node) v b m new i)
    | inr (e, there) ↦ rw (load_group, there) (report-IsLoading _ b i)
  ]

  load_item-IsLoading :
      (s : ScalarContext Node) (v : ValueContext Node) (b : MulticastBuilder)
      → IsLoading b
      → Holds IsLoading (load_item y s v b)
  unfolding load_item
  load_item-IsLoading s v b i = by_address (grp_addr (y.text s.node)) refl
    where
      by_address :
          (r : Result IPv4Address Message)
          → grp_addr (y.text s.node) ≡ r
          → Holds IsLoading (load_item y s v b)
      by_address (ok ga) e =
          rw (load_item, e)
            (load_group-IsLoading s ga v b (grp_addr-is_mcast (y.text s.node) ga e) i)
      by_address (err m) e = rw (load_item, e) (report-IsLoading _ b i)

  load_items-IsLoading :
      (is : List (ValueContext Node × ValueContext Node)) (b : MulticastBuilder)
      → IsLoading b
      → Holds IsLoading (load_items y is b)
  unfolding load_items
  load_items-IsLoading [] b i = i
  load_items-IsLoading (x ∷ is) b i =
      behind (get_scalar y untitled x.0) _ (λ r.
        Holds->>= IsLoading IsLoading _ (load_items y is) (by_key r) (load_items-IsLoading is))
    where
      by_key :
          (r : Result (ScalarContext Node) ErrorContext)
          → Holds IsLoading (elim r [ ok s ↦ load_item y s x.1 b | err e ↦ done (report e b) ])
      by_key (ok s) = load_item-IsLoading s x.1 b i
      by_key (err e) = report-IsLoading e b i

  load_multicast_config-IsLoading :
      (v : ValueContext Node) (b : MulticastBuilder)
      → IsLoading b
      → Holds IsLoading (load_multicast_config y v b)
  unfolding load_multicast_config
  load_multicast_config-IsLoading v b i = behind (get_mapping y multicast_config v) _ by_mapping
    where
      some_items :
          (c : Bool) (m : MappingContext Node) (e : ErrorContext)
          → Holds IsLoading (if c then load_items y (items y m) b else done (report e b))
      some_items true m e = load_items-IsLoading (items y m) b i
      some_items false m e = report-IsLoading e b i

      by_mapping :
          (r : Result (MappingContext Node) ErrorContext)
          → Holds IsLoading (elim r [
            | err e ↦ done (report e b)
            | ok m ↦
                if ltb 0 (y.size m.node)
                then load_items y (items y m) b
                else done (report (error y v.node v.names no_groups) b)
          ])
      by_mapping (ok m) = some_items (ltb 0 (y.size m.node)) m _
      by_mapping (err e) = report-IsLoading e b i

-- Each group in the list has its builder, and none is missing.
build_groups_lem :
    (gs : List IPv4Address) (m : Map GroupBuilder)
    → AllEntries IsSound m
    → All (λ g. is_mcast g ≡ true) gs
    → ((g : IPv4Address) → contains g gs ≡ true → contains g (keys m) ≡ true)
    → (out : List GroupConfig) × (build_groups gs m ≡ done out)
      × (keys_of (λ ge. ge.group) out ≡ gs)
      × All IsLoadedGroup out
unfolding build_groups
build_groups_lem [] m s c h = ([], refl, refl, tt)
build_groups_lem (g ∷ gs) m s c h = elim (Option-cases (find g m)) [
  | inl e ↦
      let absent = find-none g m e in
      let there : contains g (keys m) ≡ true = h g (ground arith) in cc
  | inr (b, e) ↦
      let sound = find-AllEntries IsSound g b m s e in
      let (out, r, k, all) = build_groups_lem gs m s c.1 (λ a p. h a (ground arith)) in
      (
        GroupConfig.build b ∷ out,
        rw (build_groups, e, r) refl,
        rw (sound.named, k) refl,
        (build-IsLoadedGroup g b c.0 sound, all),
      )
]

-- `build` finds every builder, and the configuration that it makes is that of the loader.
pub build_lem :
    (b : MulticastBuilder) → IsLoading b → (cfg : JpConfig) × (build b ≡ done cfg) × IsLoaded cfg
unfolding build
build_lem b i =
    let (out, r, k, all) =
      build_groups_lem b.groups b.builders i.sound i.multicast
        (λ g h. ground (arith, i.listed g, h)) in
    (
      record { groups = out },
      rw (build, r) refl,
      record { distinct = NoTwice-Distinct out (rw k i.once); groups = all },
    )

-- Whatever the document, a configuration that `loadJPConfig` returns has groups with different multicast
-- addresses, of which each has at most 180 RPT-pruned sources, joins or prunes no source twice, and has
-- unicast addresses for its sources and its RP.
pub load_jp_config-IsLoaded :
    {Node : Type 0} (y : YamlLib Node) (v : ValueContext Node) (cfg : JpConfig)
    → load_jp_config y v ≡ done (ok cfg)
    → IsLoaded cfg
unfolding load_jp_config
load_jp_config-IsLoaded y v cfg e =
    let all =
      Holds->>= IsLoading Loaded (load_multicast_config y v no_builders)
        (λ b. if no_errors b.errors then (build b >>= λ c. done (ok c)) else done (err b.errors))
        (load_multicast_config-IsLoading y v no_builders initial)
        (λ b i. let (c, r, l) = build_lem b i in loaded (no_errors b.errors) b c r l) in
    rw e at all
  where
    Loaded : Result JpConfig (List ErrorContext) → Type 0
    Loaded (ok c) = IsLoaded c
    Loaded (err es) = Unit {0}

    initial : IsLoading no_builders
    initial = record { sound = tt; listed = λ g. refl; once = tt; multicast = tt }

    loaded :
        (none_ : Bool) (b : MulticastBuilder) (c : JpConfig)
        → build b ≡ done c
        → IsLoaded c
        → Holds Loaded (if none_ then (build b >>= λ c'. done (ok c')) else done (err b.errors))
    loaded true b c r l = rw r l
    loaded false b c r l = tt
