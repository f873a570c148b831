-- ===== src/Pimsm/SanityCheck/Measures.antt =====
-- The weights under which the entries of the updates and the configuration are compared.
use pimc_toolkit.Common.{
  ℕ, ◌+◌, ◌<◌, ◌≡◌, refl, List, [], ◌∷◌, Option, none, some, ltb, sum_of, All, length, arith,
}
use pimc_toolkit.Net.Address.{IPv4Address}
use pimc_toolkit.Pimsm.Config.{Rpt, GroupConfig}
use pimc_toolkit.Pimsm.Update.{Source}
use pimc_toolkit.Pimsm.GroupEntryBuilder.{spt_source}
use pimc_toolkit.Pimsm.Pack.Built.{is_wild}
use pimc_toolkit.Pimsm.SanityCheck.Sets.{is_at, count, contains}
use pimc_toolkit.Pimsm.SanityCheck.Totals.{
  total, keys_of, cfg_joins, cfg_prunes, rp_part, prune_part,
}
use pimc_toolkit.Pimsm.SanityCheck.Adding.{spt_at, rp_at, pruned_at, rp_is, rp_num}
use pimc_toolkit.Pimsm.SanityCheck.Verdict.{rp_of, prunes_in}

module _ (a : IPv4Address) where
  pub cfg_joins-spt_at : (ge : GroupConfig) → cfg_joins (spt_at a) ge ≡ count a ge.spt
  cfg_joins-spt_at ge =
      elim ge.rpt as (λ o. sum_of (λ b. is_at a b) ge.spt + rp_part (spt_at a) o ≡ count a ge.spt) [
        | none ↦ omega arith
        | some r ↦ omega arith
      ]

  pub cfg_joins-rp_at : (ge : GroupConfig) → cfg_joins (rp_at a) ge ≡ rp_is a (rp_of ge.rpt)
  cfg_joins-rp_at ge = ground (arith, zeros ge.spt, part ge.rpt)
    where
      zeros : (spt : List IPv4Address) → sum_of (λ b. rp_at a (spt_source b)) spt ≡ 0
      zeros [] = refl
      zeros (b ∷ spt) = omega (arith, zeros spt)

      part : (o : Option Rpt) → rp_part (rp_at a) o ≡ rp_is a (rp_of o)
      part none = refl
      part (some r) = refl

  pub cfg_prunes-pruned_at :
      (ge : GroupConfig) → cfg_prunes (pruned_at a) ge ≡ count a (prunes_in ge.rpt)
  cfg_prunes-pruned_at ge = part ge.rpt
    where
      part : (o : Option Rpt) → prune_part (pruned_at a) o ≡ count a (prunes_in o)
      part none = refl
      part (some r) = refl

pub cfg_joins-is_wild : (ge : GroupConfig) → cfg_joins is_wild ge ≡ rp_num (rp_of ge.rpt)
cfg_joins-is_wild ge = omega (arith, zeros ge.spt, part ge.rpt)
  where
    zeros : (spt : List IPv4Address) → sum_of (λ b. is_wild (spt_source b)) spt ≡ 0
    zeros [] = refl
    zeros (b ∷ spt) = omega (arith, zeros spt)

    part : (o : Option Rpt) → rp_part is_wild o ≡ rp_num (rp_of o)
    part none = refl
    part (some r) = refl

abbrev pub one : Source → ℕ
one s = 1

pub sum_of-one : (ss : List Source) → sum_of one ss ≡ length ss
sum_of-one [] = refl
sum_of-one (s ∷ ss) = omega (arith, sum_of-one ss)

pub cfg_joins-one : (ge : GroupConfig) → cfg_joins one ge ≡ length ge.spt + rp_num (rp_of ge.rpt)
cfg_joins-one ge = omega (arith, ones ge.spt, part ge.rpt)
  where
    ones : (spt : List IPv4Address) → sum_of (λ b. one (spt_source b)) spt ≡ length spt
    ones [] = refl
    ones (b ∷ spt) = omega (arith, ones spt)

    part : (o : Option Rpt) → rp_part one o ≡ rp_num (rp_of o)
    part none = refl
    part (some r) = refl

module _ {ℓ} {A : Type ℓ} (key : A → IPv4Address) (w v : A → ℕ) where
  pub total_add :
      (g : IPv4Address) (xs : List A)
      → total key w g xs + total key v g xs ≡ total key (λ x. w x + v x) g xs
  total_add g [] = refl
  total_add g (x ∷ xs) = ground (arith, total_add g xs)

module _ {ℓ} {A : Type ℓ} (key : A → IPv4Address) (w : A → ℕ) where
  -- The keys are those with a total, where no element weighs nothing.
  pub contains-total :
      (g : IPv4Address) (xs : List A)
      → All (λ x. 0 < w x) xs
      → contains g (keys_of key xs) ≡ ltb 0 (total key w g xs)
  contains-total g [] h = refl
  contains-total g (x ∷ xs) h = ground (arith, contains-total g xs h.1, h.0)
