-- ===== src/Pimsm/SanityCheck/Inverse/Sound.antt =====
-- A comparison of inverse updates that finds no error has compared equals.
use pimc_toolkit.Common.{
  ◌≡◌, refl, sym, ◌∙◌, List, [], ◌∷◌, true, false, not, Option, none, some, ◌==◌, ==_iff,
  Bool-cases, Option-cases, inl, inr, ◌⊎◌,
}
use pimc_toolkit.Net.Address.{IPv4Address}
use pimc_toolkit.Core.Result.{Result, ok, err}
use pimc_toolkit.Pimsm.Config.{Rpt, GroupConfig, JpConfig}
use pimc_toolkit.Pimsm.Update.{Update}
use pimc_toolkit.Pimsm.SanityCheck.Sets.{vec_set, compare_addr_sets}
use pimc_toolkit.Pimsm.SanityCheck.Maps.{Map, find, keys, AllEntries, find-AllEntries}
use pimc_toolkit.Pimsm.SanityCheck.Errors.{
  Message, GroupBase, make_base, ErrorTracker, no_errors, append, missing_joins, extraneous_joins,
  missing_groups, extraneous_groups,
}
use pimc_toolkit.Pimsm.SanityCheck.Compare.{
  is_empty, report_sets, track_if, orig_loop, all_messages,
}
use pimc_toolkit.Pimsm.SanityCheck.Sound.{
  SameSet, report_sets_sound, compare_addr_sets_sound, track_if_lem, not-is_empty,
}
use pimc_toolkit.Pimsm.SanityCheck.Verdict.{rp_of}
use pimc_toolkit.Pimsm.SanityCheck.Inverse.{
  compare_inverse_rpt, compare_inverse_groups, compare_inverse_loop, compare_inverse_configs,
  convert_inverse_updates, verify_inverse_updates,
}

pub record SameInverse (o q : GroupConfig) : Type 0 where
  pub rpt : rp_of o.rpt ≡ rp_of q.rpt
  pub spt : SameSet o.spt q.spt

compare_inverse_rpt_sound :
    (o q : Option Rpt) (b : GroupBase)
    → (compare_inverse_rpt o q b).failed ≡ false
    → (rp_of o ≡ rp_of q) × (b.failed ≡ false)
unfolding compare_inverse_rpt
compare_inverse_rpt_sound none none b h = (refl, h)
compare_inverse_rpt_sound none (some r) b h = cc
compare_inverse_rpt_sound (some o) none b h = cc
compare_inverse_rpt_sound (some o) (some r) b h = elim (Bool-cases (o.rp == r.rp)) [
  | inl same ↦ let e : o.rp ≡ r.rp = (==_iff o.rp r.rp).0 same in (cc, rw same at h)
  | inr other ↦ let wrong : true ≡ false = rw other at h in cc
]

compare_inverse_groups_sound :
    (g : IPv4Address) (o q : GroupConfig) → compare_inverse_groups g o q ≡ ok tt → SameInverse o q
unfolding compare_inverse_groups
compare_inverse_groups_sound g o q h =
    let spt =
      report_sets missing_joins extraneous_joins (compare_addr_sets (vec_set o.spt) (vec_set q.spt))
        (make_base g) in
    elim (Bool-cases (compare_inverse_rpt o.rpt q.rpt spt).failed) [
      | inl bad ↦ absurd (cc)
      | inr good ↦
          let (rpt, h') = compare_inverse_rpt_sound o.rpt q.rpt spt good in
          let (joins, _) =
            report_sets_sound missing_joins extraneous_joins o.spt q.spt (make_base g) h' in
          record { rpt = rpt; spt = joins }
    ]

compare_inverse_cases :
    (g : IPv4Address) (o q : GroupConfig)
    → (compare_inverse_groups g o q ≡ ok tt)
      ⊎ ((ms : List Message) × (compare_inverse_groups g o q ≡ err ms))
compare_inverse_cases g o q = split (compare_inverse_groups g o q) refl
  where
    split :
        (r : Result (Unit {0}) (List Message))
        → compare_inverse_groups g o q ≡ r
        → (compare_inverse_groups g o q ≡ ok tt)
          ⊎ ((ms : List Message) × (compare_inverse_groups g o q ≡ err ms))
    split (ok tt) e = inl e
    split (err ms) e = inr (ms, e)

compare_inverse_loop-failed :
    (orig rslt : Map GroupConfig) (et : ErrorTracker)
    → et.failed ≡ true
    → (compare_inverse_loop orig rslt et).failed ≡ true
unfolding compare_inverse_loop
compare_inverse_loop-failed [] rslt et h = h
compare_inverse_loop-failed ((g, o) ∷ orig) rslt et h = elim (Option-cases (find g rslt)) [
  | inl e ↦ rw (compare_inverse_loop, e) (compare_inverse_loop-failed orig rslt et h)
  | inr (q, e) ↦ elim (compare_inverse_cases g o q) [
    | inl r ↦ rw (compare_inverse_loop, e, r) (compare_inverse_loop-failed orig rslt et h)
    | inr (ms, r) ↦
        rw (compare_inverse_loop, e, r) (compare_inverse_loop-failed orig rslt (append ms et) refl)
  ]
]

-- The groups of `orig` that `rslt` has too compare as the same.
abbrev Compared : Map GroupConfig → IPv4Address → GroupConfig → Type 0
Compared rslt g o = (q : GroupConfig) → find g rslt ≡ some q → SameInverse o q

compare_inverse_loop_sound :
    (orig rslt : Map GroupConfig) (et : ErrorTracker)
    → (compare_inverse_loop orig rslt et).failed ≡ false
    → AllEntries (Compared rslt) orig × (et.failed ≡ false)
unfolding compare_inverse_loop
compare_inverse_loop_sound [] rslt et h = (tt, h)
compare_inverse_loop_sound ((g, o) ∷ orig) rslt et h = elim (Option-cases (find g rslt)) [
  | inl e ↦
      let (rest, f) = compare_inverse_loop_sound orig rslt et (rw (compare_inverse_loop, e) at h) in
      ((λ q k. cc, rest), f)
  | inr (q, e) ↦ elim (compare_inverse_cases g o q) [
    | inl r ↦
        let (rest, f) =
          compare_inverse_loop_sound orig rslt et (rw (compare_inverse_loop, e, r) at h) in
        (
          (
            λ q' k. let same : q ≡ q' = cc in rw⁻¹ same (compare_inverse_groups_sound g o q r),
            rest,
          ),
          f,
        )
    | inr (ms, r) ↦
        let h' : (compare_inverse_loop orig rslt (append ms et)).failed ≡ false =
          rw (compare_inverse_loop, e, r) at h in
        let bad = compare_inverse_loop-failed orig rslt (append ms et) refl in
        let wrong : true ≡ false = sym bad ∙ h' in cc
  ]
]

compare_inverse_configs_sound :
    (orig rslt : Map GroupConfig)
    → compare_inverse_configs orig rslt ≡ ok tt
    → SameSet (keys orig) (keys rslt) × AllEntries (Compared rslt) orig
unfolding compare_inverse_configs
compare_inverse_configs_sound orig rslt h =
    let d = compare_addr_sets (vec_set (keys orig)) (vec_set (keys rslt)) in
    let et1 = track_if (not (is_empty d.0)) (missing_groups d.0) no_errors in
    let et2 = track_if (not (is_empty d.1)) (extraneous_groups d.1) et1 in
    elim (Bool-cases (compare_inverse_loop orig rslt et2).failed) [
      | inl bad ↦ cc
      | inr good ↦
          let (groups, f2) = compare_inverse_loop_sound orig rslt et2 good in
          let (extraneous, f1) = track_if_lem _ (extraneous_groups d.1) et1 f2 in
          let (missing, _) = track_if_lem _ (missing_groups d.0) no_errors f1 in
          (
            compare_addr_sets_sound (keys orig) (keys rslt) (not-is_empty d.0 missing)
                (not-is_empty d.1 extraneous),
            groups,
          )
    ]

-- Where `verifyInverseUpdates` finds no error, the updates convert to a configuration with the groups of
-- the original, and a group that both have has the same RP and the same SPT-joined sources in both.
pub verify_inverse_updates_sound :
    (cfg : JpConfig) (us : List Update)
    → verify_inverse_updates cfg us ≡ ok tt
    → (rslt : Map GroupConfig) × (convert_inverse_updates us ≡ ok rslt)
      × SameSet (keys (orig_loop cfg.groups [])) (keys rslt)
      × ((g : IPv4Address) (o q : GroupConfig)
          → find g (orig_loop cfg.groups []) ≡ some o
          → find g rslt ≡ some q
          → SameInverse o q)
unfolding verify_inverse_updates
verify_inverse_updates_sound cfg us h = verified (convert_inverse_updates us) refl
  where
    verified :
        (r : Result (Map GroupConfig) (List (List Message)))
        → convert_inverse_updates us ≡ r
        → (rslt : Map GroupConfig) × (convert_inverse_updates us ≡ ok rslt)
          × SameSet (keys (orig_loop cfg.groups [])) (keys rslt)
          × ((g : IPv4Address) (o q : GroupConfig)
              → find g (orig_loop cfg.groups []) ≡ some o
              → find g rslt ≡ some q
              → SameInverse o q)
    verified (err e) r =
        let wrong : err (all_messages e) ≡ ok tt = rw (verify_inverse_updates, r) at h in cc
    verified (ok rslt) r =
        let (same, all) =
          compare_inverse_configs_sound (orig_loop cfg.groups []) rslt
            (rw (verify_inverse_updates, r) at h) in
        (
          rslt,
          r,
          same,
          λ g o q there found.
              find-AllEntries (Compared rslt) g o (orig_loop cfg.groups []) all there q found,
        )
