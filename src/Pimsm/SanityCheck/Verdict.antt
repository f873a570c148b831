-- ===== src/Pimsm/SanityCheck/Verdict.antt =====
-- The comparison of a configuration with what the converters hold: no difference is found where both
-- hold the same.
use pimc_toolkit.Common.{
  ℕ, ◌<◌, ◌≡◌, refl, sym, ◌∙◌, List, [], ◌∷◌, true, false, Option, none, some, ◌==◌, ◌||◌,
  Option-cases, inl, inr, All, arith,
}
use pimc_toolkit.Net.Address.{IPv4Address}
use pimc_toolkit.Core.Result.{ok}
use pimc_toolkit.Pimsm.Config.{Rpt, GroupConfig}
use pimc_toolkit.Pimsm.SanityCheck.Sets.{
  count, contains, contains-count, vec_set, contains-vec_set, compare_addr_sets,
  compare_addr_sets_same,
}
use pimc_toolkit.Pimsm.SanityCheck.Maps.{
  Map, find, keys, try_emplace, AllEntries, contains-try_emplace, try_emplace-AllEntries,
}
use pimc_toolkit.Pimsm.SanityCheck.Errors.{
  Message, missing_joins, extraneous_joins, missing_prunes, extraneous_prunes, GroupBase, make_base,
  ErrorTracker, no_errors,
}
use pimc_toolkit.Pimsm.SanityCheck.Convert.{GroupEntryConverter, convert, convert_loop}
use pimc_toolkit.Pimsm.SanityCheck.Compare.{
  report_sets, compare_rpt, compare_groups, compare_loop, compare_configs, orig_loop,
}
use pimc_toolkit.Pimsm.SanityCheck.Adding.{rp_is, rp_num}

abbrev pub rp_of : Option Rpt → Option IPv4Address
rp_of none = none
rp_of (some r) = some r.rp

abbrev pub prunes_in : Option Rpt → List IPv4Address
prunes_in none = []
prunes_in (some r) = r.prunes

-- What a configuration of a group is expected to hold: how often an address is joined, pruned, and
-- the RP, and the number of RPs.
pub record IsHeld (j p r : IPv4Address → ℕ) (n : ℕ) (gc : GroupConfig) : Type 0 where
  pub joins : (a : IPv4Address) → count a gc.spt ≡ j a
  pub prunes : 0 < n → (a : IPv4Address) → count a (prunes_in gc.rpt) ≡ p a
  pub rp : (a : IPv4Address) → rp_is a (rp_of gc.rpt) ≡ r a
  pub rps : rp_num (rp_of gc.rpt) ≡ n

report_sets_none :
    (m e : List IPv4Address → Message) (x y : List IPv4Address) (b : GroupBase)
    → ((a : IPv4Address) → count a x ≡ count a y)
    → report_sets m e (compare_addr_sets (vec_set x) (vec_set y)) b ≡ b
report_sets_none m e x y b h =
    let (missing, extraneous) = compare_addr_sets_same (vec_set x) (vec_set y) (λ a. ground (
      arith,
      contains-vec_set a x,
      contains-vec_set a y,
      contains-count a x,
      contains-count a y,
      h a,
    )) in
    rw (missing, extraneous) refl

compare_rpt_none :
    (o q : Option Rpt) (b : GroupBase)
    → rp_num (rp_of o) ≡ rp_num (rp_of q)
    → ((a : IPv4Address) → rp_is a (rp_of o) ≡ rp_is a (rp_of q))
    → (0 < rp_num (rp_of o) → (a : IPv4Address) → count a (prunes_in o) ≡ count a (prunes_in q))
    → compare_rpt o q b ≡ b
unfolding compare_rpt
compare_rpt_none none none b n r p = refl
compare_rpt_none none (some q) b n r p = absurd (omega arith)
compare_rpt_none (some o) none b n r p = absurd (omega arith)
compare_rpt_none (some o) (some q) b n r p =
    let same : (o.rp == q.rp) ≡ true = ground (arith, r o.rp) in
    rw same
      (report_sets_none missing_prunes extraneous_prunes o.prunes q.prunes b (p (omega arith)))

-- Configurations that hold the same compare as equal.
pub compare_groups_same :
    (j p r : IPv4Address → ℕ) (n : ℕ) (g : IPv4Address) (o q : GroupConfig)
    → IsHeld j p r n o
    → IsHeld j p r n q
    → compare_groups g o q ≡ ok tt
unfolding compare_groups
compare_groups_same j p r n g o q h k =
    rw
      (
        report_sets_none missing_joins extraneous_joins o.spt q.spt (make_base g)
            (λ a. h.joins a ∙ sym (k.joins a)),
        compare_rpt_none o.rpt q.rpt (make_base g) (omega (arith, h.rps, k.rps))
            (λ a. h.rp a ∙ sym (k.rp a))
            (λ c a. h.prunes (omega (arith, h.rps)) a ∙ sym (k.prunes (omega (arith, h.rps)) a)),
      )
      refl

pub compare_loop_none :
    (orig rslt : Map GroupConfig) (et : ErrorTracker)
    → AllEntries
        (λ g o. (q : GroupConfig) → find g rslt ≡ some q → compare_groups g o q ≡ ok tt)
        orig
    → compare_loop orig rslt et ≡ et
unfolding compare_loop
compare_loop_none [] rslt et h = refl
compare_loop_none ((g, o) ∷ orig) rslt et h = elim (Option-cases (find g rslt)) [
  | inl e ↦ rw (compare_loop, e) (compare_loop_none orig rslt et h.1)
  | inr (q, e) ↦ rw (compare_loop, e, h.0 q e) (compare_loop_none orig rslt et h.1)
]

pub compare_configs_same :
    (orig rslt : Map GroupConfig)
    → ((g : IPv4Address) → contains g (keys orig) ≡ contains g (keys rslt))
    → AllEntries
        (λ g o. (q : GroupConfig) → find g rslt ≡ some q → compare_groups g o q ≡ ok tt)
        orig
    → compare_configs orig rslt ≡ ok tt
unfolding compare_configs
compare_configs_same orig rslt same h =
    let (missing, extraneous) =
      compare_addr_sets_same (vec_set (keys orig)) (vec_set (keys rslt)) (λ a.
        ground (arith, contains-vec_set a (keys orig), contains-vec_set a (keys rslt), same a)) in
    rw (missing, extraneous, compare_loop_none orig rslt no_errors h) refl

module _ {κ} (P : IPv4Address → GroupConfig → Type κ) where
  pub orig_loop-AllEntries :
      (gs : List GroupConfig) (m : Map GroupConfig)
      → All (λ ge. P ge.group ge) gs
      → AllEntries P m
      → AllEntries P (orig_loop gs m)
  unfolding orig_loop
  orig_loop-AllEntries [] m h k = k
  orig_loop-AllEntries (ge ∷ gs) m h k =
      orig_loop-AllEntries gs (try_emplace ge.group ge m) h.1
        (try_emplace-AllEntries P ge.group ge m k (λ _. h.0))

abbrev pub converted : GroupEntryConverter → GroupConfig
converted c = record {
  group = c.group;
  rpt = (elim c.rp as (λ _. Option Rpt) [
    | none ↦ none
    | some r ↦ some (record { rp = r; prunes = c.prunes })
  ]);
  spt = c.joins;
}

-- What holds of each converter, without errors, holds of the groups of the result.
module _ {κ} (P : IPv4Address → GroupConfig → Type κ) where
  pub convert_loop_lem :
      (m : Map GroupEntryConverter) (acc : Map GroupConfig)
      → AllEntries (λ g c. (c.base.failed ≡ false) × P g (converted c)) m
      → AllEntries P acc
      → (rslt : Map GroupConfig) × (convert_loop m [] acc ≡ ([], rslt))
        × AllEntries P rslt
        × ((a : IPv4Address)
            → contains a (keys rslt) ≡ (contains a (keys m) || contains a (keys acc)))
  unfolding convert_loop convert
  convert_loop_lem [] acc h k = (acc, refl, k, λ a. refl)
  convert_loop_lem ((g, c) ∷ m) acc h k =
      let (rslt, e, all, member) =
        convert_loop_lem m (try_emplace g (converted c) acc) h.1
          (try_emplace-AllEntries P g (converted c) acc k (λ _. h.0.1)) in
      (
        rslt,
        rw h.0.0 e,
        all,
        λ a. ground (arith, member a, contains-try_emplace a g (converted c) acc),
      )
