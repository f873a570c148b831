-- ===== src/Loader/GroupConfig/Invariant.antt =====
-- What holds of the builder of a group, whatever the document: no address is accepted twice, in
-- whichever part of the group, and the pruned sources keep to their limit.
use pimc_toolkit.Common.{
  ℕ, ◌+◌, ◌≤◌, ◌≡◌, refl, List, [], ◌∷◌, Bool, true, false, not, ◌&&◌, Option, none, some, leb,
  ◌==◌, if◌then◌else◌, Bool-cases, Option-cases, inl, inr, length, Run, done, raised, fault, stuck,
  ◌>>=◌, Holds, Holds->>=, arith,
}
use pimc_toolkit.Core.Result.{Result, ok, err}
use pimc_toolkit.Net.Address.{IPv4Address}
use pimc_toolkit.Pimsm.Params.{max_prune_sgrpt_len}
use pimc_toolkit.Pimsm.SanityCheck.Sets.{count, contains, count-emplace, length-emplace}
use pimc_toolkit.Pimsm.SanityCheck.Maps.{find, keys, contains-try_emplace, find-none}
use pimc_toolkit.Pimsm.SanityCheck.Adding.{rp_is}
use pimc_toolkit.Loader.Errors.{
  ErrorContext, JpSourceType, UcAddrType, source_address, pruned_sources, rpt_config, spt_config,
  rp_address, group_config, empty_group, Message,
}
use pimc_toolkit.Loader.Yaml.{
  node_line, error, YamlLib, ValueContext, ScalarContext, get_scalar, get_mapping, get_sequence,
  required, optional, list, flat_map,
}
use pimc_toolkit.Loader.Addresses.{uc_addr, IsUnicast, uc_addr-IsUnicast}
use pimc_toolkit.Loader.GroupConfig.{
  JpSourceInfo, GroupBuilder, Loading, make, accept_rp, accept_join_sg, store_rp, store_join,
  with_addr, if_new, if_ok, if_given, chk_src, load_rp, prune_source, load_pruned, load_joined,
  load_each, load_prunes, f_rp, f_prune, f_join, f_join_star, load_rpt_mapping, load_rpt_config,
  load_spt_config, load_group_mapping, load_group_config, given, chk_extraneous, report,
}

-- How often the builder of a group has accepted an address, in all.
abbrev pub accepted : IPv4Address → GroupBuilder → ℕ
accepted a b = rp_is a b.rp + count a b.rpt_pruned + count a b.sg_joined

pub record IsSound (g : IPv4Address) (b : GroupBuilder) : Type 0 where
  pub named : b.group ≡ g
  pub tracked : (a : IPv4Address) → accepted a b ≤ (if contains a (keys b.sources) then 1 else 0)
  pub counted : length b.rpt_pruned ≡ b.pruned_count
  pub within : b.pruned_count ≤ max_prune_sgrpt_len
  pub unicast : (a : IPv4Address) → contains a (keys b.sources) ≡ true → IsUnicast a

pub make-IsSound : (g : IPv4Address) (line : Option ℕ) → IsSound g (make g line)
make-IsSound g line = record {
  named = refl;
  tracked = λ a. omega arith;
  counted = refl;
  within = omega arith;
  unicast = λ a h. cc;
}

abbrev Sound : IPv4Address → Loading → Type 0
Sound g l = IsSound g l.builder

-- `src` was seen just now.
abbrev IsFresh : IPv4Address → GroupBuilder → Type 0
IsFresh src b = (accepted src b ≡ 0) × (contains src (keys b.sources) ≡ true)

module _ {Node : Type 0} (y : YamlLib Node) (g : IPv4Address) where
  chk_src_lem :
      (s : ScalarContext Node) (src : IPv4Address) (jpst : JpSourceType) (l : Loading)
      → Sound g l
      → IsUnicast src
      → Sound g (chk_src y s src jpst l).0
        × ((chk_src y s src jpst l).1 ≡ true → IsFresh src (chk_src y s src jpst l).0.builder)
  unfolding chk_src
  chk_src_lem s src jpst l i u = elim (Option-cases (find src l.builder.sources)) [
    | inr (e, h) ↦ rw (chk_src, h) (i, λ k. cc)
    | inl h ↦
        let unseen = find-none src l.builder.sources h in
        let info : JpSourceInfo = record { type = jpst; line = node_line y s.node } in
        let member = λ (a : IPv4Address). contains-try_emplace a src info l.builder.sources in
        rw (chk_src, h)
          (
            record {
              named = i.named;
              tracked = λ a. ground (arith, member a, i.tracked a);
              counted = i.counted;
              within = i.within;
              unicast = λ a k. elim (Bool-cases (a == src)) [
                | inl same ↦ let here : a ≡ src = ground arith in rw here u
                | inr other ↦ i.unicast a (ground (arith, member a, k))
              ];
            },
            λ k. (ground (arith, i.tracked src, unseen), ground (arith, member src)),
          )
  ]

  accept_rp-IsSound :
      (src : IPv4Address) (b : GroupBuilder)
      → IsSound g b
      → IsFresh src b
      → IsSound g (accept_rp src b)
  accept_rp-IsSound src b i f = record {
    named = i.named;
    tracked = λ a. ground (arith, i.tracked a, f.0, f.1);
    counted = i.counted;
    within = i.within;
    unicast = i.unicast;
  }

  accept_join_sg-IsSound :
      (src : IPv4Address) (b : GroupBuilder)
      → IsSound g b
      → IsFresh src b
      → IsSound g (accept_join_sg src b)
  accept_join_sg-IsSound src b i f = record {
    named = i.named;
    tracked = λ a.
        ground (arith, i.tracked a, f.0, f.1, count-emplace a src b.sg_joined (omega (arith, f.0)));
    counted = i.counted;
    within = i.within;
    unicast = i.unicast;
  }

  prune_source-IsSound :
      (s : ScalarContext Node) (src : IPv4Address) (l : Loading)
      → Sound g l
      → IsFresh src l.builder
      → Sound g (prune_source y s src l)
  unfolding prune_source
  prune_source-IsSound s src l i f =
      elim (Bool-cases (leb max_prune_sgrpt_len l.builder.pruned_count)) [
        | inl full ↦ rw (prune_source, full) i
        | inr room ↦
            let b = l.builder in
            let none_yet : count src b.rpt_pruned ≡ 0 = omega (arith, f.0) in
            rw (prune_source, room)
              (record {
                named = i.named;
                tracked = λ a.
                    ground
                      (arith, i.tracked a, f.0, f.1, count-emplace a src b.rpt_pruned none_yet);
                counted =
                    ground (arith, i.counted, i.within, length-emplace src b.rpt_pruned none_yet);
                within = ground arith;
                unicast = i.unicast;
              })
      ]

  with_addr-IsSound :
      (t : List ℕ) (typ : UcAddrType) (r : Result IPv4Address Message) (s : ScalarContext Node)
      (f : IPv4Address → Loading → Loading) (l : Loading)
      → uc_addr t typ ≡ r
      → Sound g l
      → ((a : IPv4Address) → IsUnicast a → Sound g (f a l))
      → Sound g (with_addr y r s f l)
  with_addr-IsSound t typ (ok a) s f l e i k = k a (uc_addr-IsUnicast t typ a e)
  with_addr-IsSound t typ (err m) s f l e i k = i

  if_new-IsSound :
      (c : Loading × Bool) (f : Loading → Loading)
      → Sound g c.0
      → (c.1 ≡ true → Sound g (f c.0))
      → Sound g (if_new y c f)
  if_new-IsSound (l, true) f i k = k refl
  if_new-IsSound (l, false) f i k = i

  load_rp-IsSound : (s : ScalarContext Node) (l : Loading) → Sound g l → Sound g (load_rp y s l)
  unfolding load_rp
  load_rp-IsSound s l i = with_addr-IsSound (y.text s.node) UcAddrType.rp _ s _ l refl i (λ a u.
      let (j, fresh) = chk_src_lem s a JpSourceType.rp l i u in
      if_new-IsSound (chk_src y s a JpSourceType.rp l) (store_rp a) j
        (λ new. accept_rp-IsSound a (chk_src y s a JpSourceType.rp l).0.builder j (fresh new)))

  load_pruned-IsSound :
      (s : ScalarContext Node) (l : Loading) → Sound g l → Sound g (load_pruned y s l)
  unfolding load_pruned
  load_pruned-IsSound s l i =
      with_addr-IsSound (y.text s.node) UcAddrType.source _ s _ l refl i (λ a u.
        let (j, fresh) = chk_src_lem s a JpSourceType.rpt_pruned l i u in
        if_new-IsSound (chk_src y s a JpSourceType.rpt_pruned l) (prune_source y s a) j (λ new.
          prune_source-IsSound s a (chk_src y s a JpSourceType.rpt_pruned l).0 j (fresh new)))

  load_joined-IsSound :
      (s : ScalarContext Node) (l : Loading) → Sound g l → Sound g (load_joined y s l)
  unfolding load_joined
  load_joined-IsSound s l i =
      with_addr-IsSound (y.text s.node) UcAddrType.source _ s _ l refl i (λ a u.
        let (j, fresh) = chk_src_lem s a JpSourceType.spt_joined l i u in
        if_new-IsSound (chk_src y s a JpSourceType.spt_joined l) (store_join a) j (λ new.
          accept_join_sg-IsSound a (chk_src y s a JpSourceType.spt_joined l).0.builder j
            (fresh new)))

  if_ok-IsSound :
      {A : Type 0} (r : Result A ErrorContext) (f : A → Loading → Run Loading) (l : Loading)
      → Sound g l
      → ((a : A) → Holds (Sound g) (f a l))
      → Holds (Sound g) (if_ok r f l)
  if_ok-IsSound (ok a) f l i k = k a
  if_ok-IsSound (err e) f l i k = i

  if_given-IsSound :
      {A : Type 0} (o : Option A) (f : A → Loading → Run Loading) (l : Loading)
      → Sound g l
      → ((a : A) → Holds (Sound g) (f a l))
      → Holds (Sound g) (if_given o f l)
  if_given-IsSound none f l i k = i
  if_given-IsSound (some a) f l i k = k a

  -- What follows a step that may throw, and leaves the builder.
  after :
      {A : Type 0} (r : Run A) (f : A → Run Loading)
      → ((a : A) → Holds (Sound g) (f a))
      → Holds (Sound g) (r >>= f)
  after (done a) f k = k a
  after (raised e) f k = tt
  after fault f k = tt
  after stuck f k = tt

  load_each-IsSound :
      (f : ScalarContext Node → Loading → Loading) (vs : List (ValueContext Node)) (l : Loading)
      → ((s : ScalarContext Node) (k : Loading) → Sound g k → Sound g (f s k))
      → Sound g l
      → Holds (Sound g) (load_each y f vs l)
  unfolding load_each
  load_each-IsSound f [] l h i = i
  load_each-IsSound f (v ∷ vs) l h i = after (get_scalar y source_address v) _ (λ r.
      Holds->>= (Sound g) (Sound g) _ _ (if_ok-IsSound r (λ s k. done (f s k)) l i (λ s. h s l i))
        (λ l' i'. load_each-IsSound f vs l' h i'))

  load_prunes-IsSound :
      (v : ValueContext Node) (l : Loading) → Sound g l → Holds (Sound g) (load_prunes y v l)
  unfolding load_prunes
  load_prunes-IsSound v l i = after (get_sequence y pruned_sources v) _ (λ r.
      if_ok-IsSound r _ l i
        (λ s. load_each-IsSound (load_pruned y) (list y s) l load_pruned-IsSound i))

  load_rpt_config-IsSound :
      (v : ValueContext Node) (l : Loading) → Sound g l → Holds (Sound g) (load_rpt_config y v l)
  unfolding load_rpt_config load_rpt_mapping
  load_rpt_config-IsSound v l i = after (get_mapping y rpt_config v) _ (λ r.
      if_ok-IsSound r _ l i (λ m.
        after (flat_map (required y (f_rp y) m).1 (get_scalar y rp_address)) _ (λ q.
          Holds->>= (Sound g) (Sound g) _ _ (if_ok-IsSound q _ l i (λ s. load_rp-IsSound s l i))
            (λ l1 i1.
              Holds->>= (Sound g) (Sound g) _ _
                (if_given-IsSound (optional y (f_prune y) (required y (f_rp y) m).0).1
                  (load_prunes y) l1 i1 (λ w. load_prunes-IsSound w l1 i1))
                (λ l2 i2. i2)))))

  load_spt_config-IsSound :
      (v : ValueContext Node) (l : Loading) → Sound g l → Holds (Sound g) (load_spt_config y v l)
  unfolding load_spt_config
  load_spt_config-IsSound v l i = after (get_sequence y spt_config v) _ (λ r.
      if_ok-IsSound r _ l i
        (λ s. load_each-IsSound (load_joined y) (list y s) l load_joined-IsSound i))

  -- Loading a group keeps its builder sound, whatever the document.
  pub load_group_config-IsSound :
      (v : ValueContext Node) (l : Loading)
      → IsSound g l.builder
      → Holds (λ l'. IsSound g l'.builder) (load_group_config y v l)
  unfolding load_group_config load_group_mapping
  load_group_config-IsSound v l i = after (get_mapping y (group_config l.builder.group) v) _ (λ r.
      if_ok-IsSound r _ l i (λ m.
        let rpt = optional y (f_join_star y) m in
        let spt = optional y (f_join y) rpt.0 in
        Holds->>= (Sound g) (Sound g) _ _
          (if_given-IsSound rpt.1 (load_rpt_config y) l i (λ w. load_rpt_config-IsSound w l i))
          (λ l1 i1.
            Holds->>= (Sound g) (Sound g) _ _
              (if_given-IsSound spt.1 (load_spt_config y) l1 i1
                (λ w. load_spt_config-IsSound w l1 i1))
              (λ l2 i2.
                let l3 = chk_extraneous y spt.0 l2 in
                either (not (given y rpt.1) && not (given y spt.1))
                  (report (error y v.node v.names (empty_group l.builder.group)) l3) l3 i2 i2))))
    where
      either :
          (b : Bool) (l1 l2 : Loading) → Sound g l1 → Sound g l2 → Sound g (if b then l1 else l2)
      either true l1 l2 h k = h
      either false l1 l2 h k = k
