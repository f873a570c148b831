-- ===== src/Pimsm/SanityCheck/Sound.antt =====
-- A comparison that finds no error has compared equals.
use pimc_toolkit.Common.{
  ◌≡◌, refl, sym, ◌∙◌, List, [], ◌∷◌, Bool, true, false, not, Option, none, some, ◌==◌, ==_iff,
  Bool-cases, Option-cases, inl, inr, ◌⊎◌, arith,
}
use pimc_toolkit.Net.Address.{IPv4Address}
use pimc_toolkit.Core.Result.{Result, ok, err}
use pimc_toolkit.Pimsm.Config.{Rpt, GroupConfig, JpConfig}
use pimc_toolkit.Pimsm.Update.{Update}
use pimc_toolkit.Pimsm.SanityCheck.Sets.{
  contains, emplace, contains-emplace, vec_set, contains-vec_set, not_in_loop, compare_addr_sets,
}
use pimc_toolkit.Pimsm.SanityCheck.Maps.{Map, find, keys, AllEntries, find-AllEntries}
use pimc_toolkit.Pimsm.SanityCheck.Errors.{
  Message, GroupBase, make_base, error_if, ErrorTracker, no_errors, append, missing_joins,
  extraneous_joins, missing_prunes, extraneous_prunes, missing_groups, extraneous_groups, other_rp,
}
use pimc_toolkit.Pimsm.SanityCheck.Convert.{convert_updates}
use pimc_toolkit.Pimsm.SanityCheck.Compare.{
  is_empty, report_sets, compare_rpt, compare_groups, compare_loop, track_if, compare_configs,
  orig_loop, all_messages, verify_updates,
}

-- The same addresses, in whatever order and however often.
abbrev pub SameSet : List IPv4Address → List IPv4Address → Type 0
SameSet x y = (a : IPv4Address) → contains a x ≡ contains a y

abbrev pub SameRpt : Option Rpt → Option Rpt → Type 0
SameRpt none none = Unit {0}
SameRpt none (some r) = ⊥
SameRpt (some o) none = ⊥
SameRpt (some o) (some r) = (o.rp ≡ r.rp) × SameSet o.prunes r.prunes

pub record SameGroup (o q : GroupConfig) : Type 0 where
  pub rpt : SameRpt o.rpt q.rpt
  pub spt : SameSet o.spt q.spt

kept-not_in_loop :
    (found b a : List IPv4Address) (x : IPv4Address)
    → contains x found ≡ true
    → contains x (not_in_loop found b a) ≡ true
unfolding not_in_loop
kept-not_in_loop found b [] x h = h
kept-not_in_loop found b (y ∷ a) x h = elim (Bool-cases (contains y b)) [
  | inl e ↦ rw e (kept-not_in_loop found b a x h)
  | inr e ↦
      rw e (kept-not_in_loop (emplace y found).0 b a x (ground (arith, contains-emplace x y found)))
]

not_in_loop_none :
    (found b a : List IPv4Address) (x : IPv4Address)
    → not_in_loop found b a ≡ []
    → contains x a ≡ true
    → contains x b ≡ true
unfolding not_in_loop
not_in_loop_none found b [] x h k = absurd (ground arith)
not_in_loop_none found b (y ∷ a) x h k = elim (Bool-cases (contains y b)) [
  | inl e ↦ elim (Bool-cases (x == y)) [
    | inl same ↦ let here : x ≡ y = (==_iff x y).0 same in rw here e
    | inr other ↦ not_in_loop_none found b a x (rw e at h) (ground arith)
  ]
  | inr e ↦
      let kept =
        kept-not_in_loop (emplace y found).0 b a y (ground (arith, contains-emplace y y found)) in
      let h' : not_in_loop (emplace y found).0 b a ≡ [] = rw e at h in
      let wrong : contains y [] ≡ true = rw h' at kept in cc
]

-- Nothing missing and nothing extraneous: the sets are the same.
pub compare_addr_sets_sound :
    (x y : List IPv4Address)
    → not_in_loop [] (vec_set y) (vec_set x) ≡ []
    → not_in_loop [] (vec_set x) (vec_set y) ≡ []
    → SameSet x y
compare_addr_sets_sound x y h k a = ground (
  arith,
  contains-vec_set a x,
  contains-vec_set a y,
  not_in_loop_none [] (vec_set y) (vec_set x) a h,
  not_in_loop_none [] (vec_set x) (vec_set y) a k,
)

is_empty_lem : (x : List IPv4Address) → is_empty x ≡ true → x ≡ []
is_empty_lem [] h = refl
is_empty_lem (a ∷ x) h = cc

pub report_sets_sound :
    (m e : List IPv4Address → Message) (x y : List IPv4Address) (b : GroupBase)
    → (report_sets m e (compare_addr_sets (vec_set x) (vec_set y)) b).failed ≡ false
    → SameSet x y × (b.failed ≡ false)
report_sets_sound m e x y b h =
    let missing = not_in_loop [] (vec_set y) (vec_set x) in
    let extraneous = not_in_loop [] (vec_set x) (vec_set y) in
    elim (Bool-cases (is_empty extraneous)) [
      | inl q ↦ elim (Bool-cases (is_empty missing)) [
        | inl p ↦ (
          compare_addr_sets_sound x y (is_empty_lem missing p) (is_empty_lem extraneous q),
          rw (q, p) at h,
        )
        | inr p ↦ let wrong : true ≡ false = rw (q, p) at h in cc
      ]
      | inr q ↦ let wrong : true ≡ false = rw q at h in cc
    ]

compare_rpt_sound :
    (o q : Option Rpt) (b : GroupBase)
    → (compare_rpt o q b).failed ≡ false
    → SameRpt o q × (b.failed ≡ false)
unfolding compare_rpt
compare_rpt_sound none none b h = (tt, h)
compare_rpt_sound none (some r) b h = cc
compare_rpt_sound (some o) none b h = cc
compare_rpt_sound (some o) (some r) b h =
    let (prunes, h') =
      report_sets_sound missing_prunes extraneous_prunes o.prunes r.prunes
        (error_if (not (o.rp == r.rp)) (other_rp o.rp r.rp) b) h in
    elim (Bool-cases (o.rp == r.rp)) [
      | inl same ↦ (((==_iff o.rp r.rp).0 same, prunes), rw same at h')
      | inr other ↦ let wrong : true ≡ false = rw other at h' in cc
    ]

compare_groups_sound :
    (g : IPv4Address) (o q : GroupConfig) → compare_groups g o q ≡ ok tt → SameGroup o q
unfolding compare_groups
compare_groups_sound g o q h =
    let spt =
      report_sets missing_joins extraneous_joins (compare_addr_sets (vec_set o.spt) (vec_set q.spt))
        (make_base g) in
    elim (Bool-cases (compare_rpt o.rpt q.rpt spt).failed) [
      | inl bad ↦ absurd (cc)
      | inr good ↦
          let (rpt, h') = compare_rpt_sound o.rpt q.rpt spt good in
          let (joins, _) =
            report_sets_sound missing_joins extraneous_joins o.spt q.spt (make_base g) h' in
          record { rpt = rpt; spt = joins }
    ]

compare_cases :
    (g : IPv4Address) (o q : GroupConfig)
    → (compare_groups g o q ≡ ok tt) ⊎ ((ms : List Message) × (compare_groups g o q ≡ err ms))
compare_cases g o q = split (compare_groups g o q) refl
  where
    split :
        (r : Result (Unit {0}) (List Message))
        → compare_groups g o q ≡ r
        → (compare_groups g o q ≡ ok tt) ⊎ ((ms : List Message) × (compare_groups g o q ≡ err ms))
    split (ok tt) e = inl e
    split (err ms) e = inr (ms, e)

compare_loop-failed :
    (orig rslt : Map GroupConfig) (et : ErrorTracker)
    → et.failed ≡ true
    → (compare_loop orig rslt et).failed ≡ true
unfolding compare_loop
compare_loop-failed [] rslt et h = h
compare_loop-failed ((g, o) ∷ orig) rslt et h = elim (Option-cases (find g rslt)) [
  | inl e ↦ rw (compare_loop, e) (compare_loop-failed orig rslt et h)
  | inr (q, e) ↦ elim (compare_cases g o q) [
    | inl r ↦ rw (compare_loop, e, r) (compare_loop-failed orig rslt et h)
    | inr (ms, r) ↦ rw (compare_loop, e, r) (compare_loop-failed orig rslt (append ms et) refl)
  ]
]

-- The groups of `orig` that `rslt` has too compare as the same.
abbrev Compared : Map GroupConfig → IPv4Address → GroupConfig → Type 0
Compared rslt g o = (q : GroupConfig) → find g rslt ≡ some q → SameGroup o q

compare_loop_sound :
    (orig rslt : Map GroupConfig) (et : ErrorTracker)
    → (compare_loop orig rslt et).failed ≡ false
    → AllEntries (Compared rslt) orig × (et.failed ≡ false)
unfolding compare_loop
compare_loop_sound [] rslt et h = (tt, h)
compare_loop_sound ((g, o) ∷ orig) rslt et h = elim (Option-cases (find g rslt)) [
  | inl e ↦
      let (rest, f) = compare_loop_sound orig rslt et (rw (compare_loop, e) at h) in
      ((λ q k. cc, rest), f)
  | inr (q, e) ↦ elim (compare_cases g o q) [
    | inl r ↦
        let (rest, f) = compare_loop_sound orig rslt et (rw (compare_loop, e, r) at h) in
        ((λ q' k. let same : q ≡ q' = cc in rw⁻¹ same (compare_groups_sound g o q r), rest), f)
    | inr (ms, r) ↦
        let h' : (compare_loop orig rslt (append ms et)).failed ≡ false =
          rw (compare_loop, e, r) at h in
        let bad = compare_loop-failed orig rslt (append ms et) refl in
        let wrong : true ≡ false = sym bad ∙ h' in cc
  ]
]

pub track_if_lem :
    (c : Bool) (m : Message) (et : ErrorTracker)
    → (track_if c m et).failed ≡ false
    → (c ≡ false) × (et.failed ≡ false)
track_if_lem true m et h = cc
track_if_lem false m et h = (refl, h)

pub not-is_empty : (x : List IPv4Address) → not (is_empty x) ≡ false → x ≡ []
not-is_empty [] h = refl
not-is_empty (a ∷ x) h = cc

compare_configs_sound :
    (orig rslt : Map GroupConfig)
    → compare_configs orig rslt ≡ ok tt
    → SameSet (keys orig) (keys rslt) × AllEntries (Compared rslt) orig
unfolding compare_configs
compare_configs_sound orig rslt h =
    let d = compare_addr_sets (vec_set (keys orig)) (vec_set (keys rslt)) in
    let et1 = track_if (not (is_empty d.0)) (missing_groups d.0) no_errors in
    let et2 = track_if (not (is_empty d.1)) (extraneous_groups d.1) et1 in
    elim (Bool-cases (compare_loop orig rslt et2).failed) [
      | inl bad ↦ cc
      | inr good ↦
          let (groups, f2) = compare_loop_sound orig rslt et2 good in
          let (extraneous, f1) = track_if_lem _ (extraneous_groups d.1) et1 f2 in
          let (missing, _) = track_if_lem _ (missing_groups d.0) no_errors f1 in
          (
            compare_addr_sets_sound (keys orig) (keys rslt) (not-is_empty d.0 missing)
                (not-is_empty d.1 extraneous),
            groups,
          )
    ]

-- Where `verifyUpdates` finds no error, the updates convert to a configuration with the groups of the
-- original, and a group that both have has the same RP, the same RPT-pruned sources and the same
-- SPT-joined sources in both.
pub verify_updates_sound :
    (cfg : JpConfig) (us : List Update)
    → verify_updates cfg us ≡ ok tt
    → (rslt : Map GroupConfig) × (convert_updates us ≡ ok rslt)
      × SameSet (keys (orig_loop cfg.groups [])) (keys rslt)
      × ((g : IPv4Address) (o q : GroupConfig)
          → find g (orig_loop cfg.groups []) ≡ some o
          → find g rslt ≡ some q
          → SameGroup o q)
unfolding verify_updates
verify_updates_sound cfg us h = verified (convert_updates us) refl
  where
    verified :
        (r : Result (Map GroupConfig) (List (List Message)))
        → convert_updates us ≡ r
        → (rslt : Map GroupConfig) × (convert_updates us ≡ ok rslt)
          × SameSet (keys (orig_loop cfg.groups [])) (keys rslt)
          × ((g : IPv4Address) (o q : GroupConfig)
              → find g (orig_loop cfg.groups []) ≡ some o
              → find g rslt ≡ some q
              → SameGroup o q)
    verified (err e) r =
        let wrong : err (all_messages e) ≡ ok tt = rw (verify_updates, r) at h in cc
    verified (ok rslt) r =
        let (same, all) =
          compare_configs_sound (orig_loop cfg.groups []) rslt (rw (verify_updates, r) at h) in
        (
          rslt,
          r,
          same,
          λ g o q there found.
              find-AllEntries (Compared rslt) g o (orig_loop cfg.groups []) all there q found,
        )
