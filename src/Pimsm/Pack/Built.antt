-- ===== src/Pimsm/Pack/Built.antt =====
-- The form of the entries that the packer makes: the invariant of the queue, whatever the loops do.
use pimc_toolkit.Common.{
  ℕ, zero, suc, ◌+◌, ◌-◌, ◌*◌, sub64, length-take, ◌<◌, ◌≤◌, ◌≡◌, refl, List, [], ◌∷◌, map, true,
  false, min, ltb, if◌then◌else◌, length, length-append, take, All, All-set, All-append, All-take,
  done, stuck, Holds, Holds->>=, ◌>>=◌, sum_of, sum_of-append, arith, Bool-cases, inl, inr, ap,
  Option-cases,
}
use pimc_toolkit.Net.Address.{IPv4Address}
use pimc_toolkit.Pimsm.Params.{src_a_size}
use pimc_toolkit.Pimsm.Config.{Rpt, GroupConfig, JpConfig}
use pimc_toolkit.Pimsm.Update.{Source, GroupEntry, Update}
use pimc_toolkit.Pimsm.GroupEntryBuilder.{GroupEntryBuilder, spt_source, rp_source, sgrpt_source}
use pimc_toolkit.Pimsm.GroupEntryBuilder
use pimc_toolkit.Pimsm.UpdateBuilder.{UpdateBuilder, remaining}
use pimc_toolkit.Pimsm.UpdateBuilder
use pimc_toolkit.Pimsm.Cursor.{UpdatePacker, next, at, next-All, at-All, add-All}
use pimc_toolkit.Pimsm.Pack.{
  FitState, is_at, max_sources, rpt_size, spt_entry, rpt_entry, find_loop, find_rpt_ub, fit_spt,
  fit_rpt, fit_step, advance, fit_loop, fit_finish, fit_group, fit_groups, init, build, pack,
}
use pimc_toolkit.Pimsm.Pack.Weight.{spt_entry_lem, rpt_entry_lem}

-- 1 for the RP of a shared tree.
abbrev pub is_wild : Source → ℕ
is_wild s = if s.wildcard then 1 else 0

-- A joined source has both bits or none.
abbrev pub IsJoin : Source → Type 0
IsJoin s = s.rpt ≡ s.wildcard

-- A pruned source is cut off the shared tree.
abbrev pub IsPrune : Source → Type 0
IsPrune s = (s.wildcard ≡ false) × (s.rpt ≡ true)

-- An entry joins at least one source, and it prunes sources only beside the RP.
pub record IsBuilt (ge : GroupEntry) : Type 0 where
  pub joins : All IsJoin ge.joins
  pub prunes : All IsPrune ge.prunes
  pub some_join : 0 < length ge.joins
  pub beside_rp : min 1 (length ge.prunes) ≤ sum_of is_wild ge.joins

abbrev AllBuilt : List UpdateBuilder → Type 0
AllBuilt ubq = All (λ ub. All IsBuilt ub.groups) ubq

spt-IsJoin : (srcs : List IPv4Address) → All IsJoin (map spt_source srcs)
spt-IsJoin [] = tt
spt-IsJoin (a ∷ srcs) = (refl, spt-IsJoin srcs)

sgrpt-IsPrune : (srcs : List IPv4Address) → All IsPrune (map (sgrpt_source true) srcs)
sgrpt-IsPrune [] = tt
sgrpt-IsPrune (a ∷ srcs) = ((refl, refl), sgrpt-IsPrune srcs)

length-map_spt : (srcs : List IPv4Address) → length (map spt_source srcs) ≡ length srcs
length-map_spt [] = refl
length-map_spt (a ∷ srcs) = ap suc (length-map_spt srcs)

spt_entry-IsBuilt :
    (g : IPv4Address) (srcs : List IPv4Address)
    → 0 < length srcs
    → IsBuilt (GroupEntryBuilder.build (spt_entry g srcs))
spt_entry-IsBuilt g srcs h = rw (spt_entry_lem g srcs) (record {
  joins = spt-IsJoin srcs;
  prunes = tt;
  some_join = omega (arith, length-map_spt srcs);
  beside_rp = omega arith;
})

rpt_entry-IsBuilt :
    (g : IPv4Address) (srcs : List IPv4Address) (rpt : Rpt)
    → IsBuilt (GroupEntryBuilder.build (rpt_entry g srcs rpt))
rpt_entry-IsBuilt g srcs rpt =
    let rp = rp_source rpt.rp ∷ [] in
    rw (rpt_entry_lem g srcs rpt) (record {
      joins = All-append IsJoin (map spt_source srcs) rp (spt-IsJoin srcs) (refl, tt);
      prunes = sgrpt-IsPrune rpt.prunes;
      some_join = omega (arith, length-append (map spt_source srcs) rp);
      beside_rp = omega (arith, sum_of-append is_wild (map spt_source srcs) rp);
    })

-- `add` of a builder takes the entry or throws.
add-Built :
    (ub : UpdateBuilder) (geb : GroupEntryBuilder)
    → IsBuilt (GroupEntryBuilder.build geb)
    → All IsBuilt ub.groups
    → Holds
        (λ ub'. All IsBuilt ub'.groups)
        (UpdateBuilder.add ub (GroupEntryBuilder.build geb) (GroupEntryBuilder.size geb))
add-Built ub geb b h =
    elim (UpdateBuilder.add_cases ub (GroupEntryBuilder.build geb) (GroupEntryBuilder.size geb)) [
      | inl (ub', e, q) ↦ rw e (rw q (All-append IsBuilt ub.groups _ h (b, tt)))
      | inr e ↦ rw e tt
    ]

abbrev UbBuilt : UpdateBuilder → Type 0
UbBuilt ub = All IsBuilt ub.groups

abbrev QueueBuilt : UpdatePacker → Type 0
QueueBuilt p = AllBuilt p.ubq

abbrev FoundBuilt {ℓ} : {B : Type ℓ} → UpdatePacker × B → Type 0
FoundBuilt r = AllBuilt r.0.ubq

find_loop-Built :
    (fuel sz : ℕ) (p : UpdatePacker) (i : ℕ)
    → AllBuilt p.ubq
    → Holds FoundBuilt (find_loop fuel sz p i)
unfolding find_loop
find_loop-Built zero sz p i h = tt
find_loop-Built (suc fuel) sz p i h =
    let rest = find_loop fuel sz (next p i).0 (next p i).1 in
    Holds->>= UbBuilt FoundBuilt (at p i)
      (λ ub. if ltb (UpdateBuilder.remaining ub) sz then rest else done (p, i))
      (at-All UbBuilt tt p i h)
      (λ ub u. elim (Bool-cases (ltb (UpdateBuilder.remaining ub) sz)) [
        | inl e ↦
            rw e (find_loop-Built fuel sz (next p i).0 (next p i).1 (next-All UbBuilt tt p i h))
        | inr e ↦ rw e h
      ])

find_rpt_ub-Built :
    (ge : GroupConfig) (p : UpdatePacker) → AllBuilt p.ubq → Holds FoundBuilt (find_rpt_ub ge p)
unfolding find_rpt_ub
find_rpt_ub-Built ge p h = elim (Option-cases ge.rpt) [
  | inl e ↦ rw e h
  | inr (rpt, e) ↦ rw e (
      Holds->>= FoundBuilt FoundBuilt _ _
        (find_loop-Built (length p.ubq + 2) (rpt_size rpt) p p.start h) (λ r u. u))
]

abbrev StBuilt : FitState → Type 0
StBuilt st = AllBuilt st.packer.ubq

fit_spt-Built :
    (ge : GroupConfig) (st : FitState) (ub : UpdateBuilder)
    → StBuilt st
    → 0 < length st.rest
    → Holds StBuilt (fit_spt ge st ub)
unfolding fit_spt
fit_spt-Built ge st ub h more =
    let cnt = min (max_sources (remaining ub)) (length st.rest) in
    let entry = spt_entry ge.group (take cnt st.rest) in
    elim (Bool-cases (ltb 0 cnt)) [
      | inl e ↦
          let b =
            spt_entry-IsBuilt ge.group (take cnt st.rest)
              (omega (arith, length-take cnt st.rest, pos_of cnt e)) in
          rw e (
            Holds->>= QueueBuilt StBuilt _ _
              (add-All UbBuilt tt st.packer st.cursor entry h (λ ub'. add-Built ub' entry b))
              (λ p u. u))
      | inr e ↦ rw e h
    ]
  where
    pos_of : (cnt : ℕ) → ltb 0 cnt ≡ true → 0 < cnt
    pos_of cnt e = ground arith

fit_rpt-Built :
    (ge : GroupConfig) (st : FitState) (ub : UpdateBuilder)
    → StBuilt st
    → Holds StBuilt (fit_rpt ge st ub)
unfolding fit_rpt
fit_rpt-Built ge st ub h = elim (Option-cases ge.rpt) [
  | inl e ↦ rw e tt
  | inr (rpt, e) ↦
      let cnt =
        min (max_sources (sub64 (remaining ub) (src_a_size * (length rpt.prunes + 1))))
          (length st.rest) in
      let entry = rpt_entry ge.group (take cnt st.rest) rpt in
      let b = rpt_entry-IsBuilt ge.group (take cnt st.rest) rpt in
      rw e (
        Holds->>= QueueBuilt StBuilt _ _
          (add-All UbBuilt tt st.packer st.cursor entry h (λ ub'. add-Built ub' entry b))
          (λ p u. u))
]

fit_step-Built :
    (ge : GroupConfig) (st : FitState)
    → StBuilt st
    → 0 < length st.rest
    → Holds StBuilt (fit_step ge st)
unfolding fit_step advance
fit_step-Built ge st h more =
    Holds->>= UbBuilt StBuilt (at st.packer st.cursor) _ (at-All UbBuilt tt st.packer st.cursor h)
      (λ ub u.
        Holds->>= StBuilt StBuilt
          (if is_at st.rpt_ub st.cursor then fit_rpt ge st ub else fit_spt ge st ub) _
          (elim (Bool-cases (is_at st.rpt_ub st.cursor)) [
            | inl e ↦ rw e (fit_rpt-Built ge st ub h)
            | inr e ↦ rw e (fit_spt-Built ge st ub h more)
          ])
          (λ st' v. next-All UbBuilt tt st'.packer st'.cursor v))

fit_loop_cons :
    (fuel : ℕ) (ge : GroupConfig) (st : FitState) (a : IPv4Address) (rest : List IPv4Address)
    → st.rest ≡ a ∷ rest
    → fit_loop (suc fuel) ge st ≡ (fit_step ge st >>= fit_loop fuel ge)
unfolding fit_loop
fit_loop_cons fuel ge st a rest e = ground arith

fit_loop_nil :
    (fuel : ℕ) (ge : GroupConfig) (st : FitState) → st.rest ≡ [] → fit_loop fuel ge st ≡ done st
unfolding fit_loop
fit_loop_nil zero ge st e = ground arith
fit_loop_nil (suc fuel) ge st e = ground arith

fit_loop-Built :
    (fuel : ℕ) (ge : GroupConfig) (st : FitState) (rest : List IPv4Address)
    → st.rest ≡ rest
    → StBuilt st
    → Holds StBuilt (fit_loop fuel ge st)
unfolding fit_loop
fit_loop-Built zero ge st [] e h = rw (fit_loop_nil zero ge st e) h
fit_loop-Built zero ge st (a ∷ rest) e h =
    let out : fit_loop zero ge st ≡ stuck = ground arith in rw out tt
fit_loop-Built (suc fuel) ge st [] e h = rw (fit_loop_nil (suc fuel) ge st e) h
fit_loop-Built (suc fuel) ge st (a ∷ rest) e h = rw (fit_loop_cons fuel ge st a rest e) (
    Holds->>= StBuilt StBuilt (fit_step ge st) (fit_loop fuel ge)
      (fit_step-Built ge st h (omega (arith, ap length e)))
      (λ st' v. fit_loop-Built fuel ge st' st'.rest refl v))

fit_finish-Built :
    (ge : GroupConfig) (st : FitState) → StBuilt st → Holds QueueBuilt (fit_finish ge st)
unfolding fit_finish
fit_finish-Built ge st h = elim (Option-cases st.rpt_ub) [
  | inl e ↦ rw e h
  | inr (k, e) ↦ rw e (elim (Option-cases ge.rpt) [
    | inl f ↦ rw f tt
    | inr (rpt, f) ↦
        let entry = rpt_entry ge.group [] rpt in
        let b = rpt_entry-IsBuilt ge.group [] rpt in
        rw f (
          Holds->>= UbBuilt QueueBuilt (at st.packer k) _ (at-All UbBuilt tt st.packer k h) (λ ub u.
            Holds->>= UbBuilt QueueBuilt _ _ (add-Built ub entry b u)
              (λ ub' u'. All-set UbBuilt st.packer.ubq k ub' h u')))
  ])
]

fit_groups-Built :
    (gs : List GroupConfig) (p : UpdatePacker) → AllBuilt p.ubq → Holds QueueBuilt (fit_groups gs p)
unfolding fit_groups fit_group
fit_groups-Built [] p h = h
fit_groups-Built (ge ∷ gs) p h =
    Holds->>= QueueBuilt QueueBuilt (fit_group ge p) (fit_groups gs)
      (Holds->>= FoundBuilt QueueBuilt (find_rpt_ub ge p) _ (find_rpt_ub-Built ge p h) (λ r u.
        Holds->>= StBuilt QueueBuilt _ _
          (fit_loop-Built (length r.0.ubq + length ge.spt + 2) ge
            (record { packer = r.0; cursor = r.0.start; rpt_ub = r.1; rest = ge.spt }) ge.spt refl
            u)
          (fit_finish-Built ge)))
      (fit_groups-Built gs)

abbrev pub UpdateBuilt : Update → Type 0
UpdateBuilt u = All IsBuilt u.groups

build-Built :
    (ubs : List UpdateBuilder)
    → AllBuilt ubs
    → All UpdateBuilt (map (λ b. UpdateBuilder.build b) ubs)
build-Built [] h = tt
build-Built (ub ∷ ubs) h = (h.0, build-Built ubs h.1)

-- Each entry of the updates that packing returns joins at least one source, joins sources with both
-- bits or none and prunes sources with the RPT bit alone, and this only beside an RP; here every
-- configuration counts, within the limits of the loader or not.
pub pack-IsBuilt : (cfg : JpConfig) (us : List Update) → pack cfg ≡ done us → All UpdateBuilt us
unfolding pack init build
pack-IsBuilt cfg us e =
    let all : Holds (All UpdateBuilt) (pack cfg) =
      Holds->>= QueueBuilt (All UpdateBuilt) (fit_groups cfg.groups init) build
        (fit_groups-Built cfg.groups init (tt, tt))
        (λ p h.
          Holds->>= UbBuilt (All UpdateBuilt) (at p (length p.ubq - 1)) _
            (at-All UbBuilt tt p (length p.ubq - 1) h)
            (λ ub u. build-Built _ (All-take UbBuilt _ p.ubq h))) in
    rw e at all
