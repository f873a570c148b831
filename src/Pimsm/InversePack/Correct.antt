-- ===== src/Pimsm/InversePack/Correct.antt =====
-- `inversePack` as a whole: it returns, every update fits a packet, no SPT source is lost, and
-- nothing but the RPs is added.
use pimc_toolkit.Common.{ℕ, ◌+◌, ◌≤◌, ◌≡◌, refl, sym, ◌∙◌, List, [], ◌∷◌, done, arith, All, sum_of}
use pimc_toolkit.Net.Address.{IPv4Address}
use pimc_toolkit.Pimsm.Config.{GroupConfig, JpConfig}
use pimc_toolkit.Pimsm.Update.{Source, Update}
use pimc_toolkit.Pimsm.Cursor.{UpdatePacker, IsValid}
use pimc_toolkit.Pimsm.Pack.{init}
use pimc_toolkit.Pimsm.Pack.Correct.{Fits, build_lem, init-IsValid, init_weight}
use pimc_toolkit.Pimsm.Pack.Weight.{queue_weight, updates_weight, spt_weight}
use pimc_toolkit.Pimsm.InversePack.{has_value, fit_inverse_groups, inverse_pack}
use pimc_toolkit.Pimsm.InversePack.Step.{rp_part}
use pimc_toolkit.Pimsm.InversePack.Group.{fit_inverse_group_lem}

module _ (w v : IPv4Address → Source → ℕ) where
  -- The SPT sources of a configuration as pruned sources, and its RPs.
  abbrev pub spt_pruned : List GroupConfig → ℕ
  spt_pruned gs = sum_of (λ ge. spt_weight v w ge.group ge.spt) gs

  abbrev pub rps_pruned : List GroupConfig → ℕ
  rps_pruned gs = sum_of (λ ge. rp_part w v ge (has_value ge.rpt)) gs

  fit_inverse_groups_lem :
      (gs : List GroupConfig) (p : UpdatePacker)
      → IsValid p
      → (p' : UpdatePacker) × (fit_inverse_groups gs p ≡ done p')
        × IsValid p'
        × (queue_weight w v p.ubq + spt_pruned gs ≤ queue_weight w v p'.ubq)
        × (queue_weight w v p'.ubq ≤ queue_weight w v p.ubq + spt_pruned gs + rps_pruned gs)
  unfolding fit_inverse_groups
  fit_inverse_groups_lem [] p val = (p, refl, val, omega arith, omega arith)
  fit_inverse_groups_lem (ge ∷ gs) p val =
      let (p1, r1, val1, lo1, hi1) = fit_inverse_group_lem w v ge p val in
      let (p2, r2, val2, lo2, hi2) = fit_inverse_groups_lem gs p1 val1 in
      (p2, rw r1 r2, val2, omega (arith, lo1, lo2), omega (arith, hi1, hi2))

  inverse_pack_lem :
      (cfg : JpConfig)
      → (us : List Update) × (inverse_pack cfg ≡ done us)
        × All Fits us
        × (spt_pruned cfg.groups ≤ updates_weight w v us)
        × (updates_weight w v us ≤ spt_pruned cfg.groups + rps_pruned cfg.groups)
  unfolding inverse_pack
  inverse_pack_lem cfg =
      let (p, r, val, lo, hi) = fit_inverse_groups_lem cfg.groups init init-IsValid in
      let (us, r', fits, c) = build_lem w v p val in
      (
        us,
        rw r r',
        fits,
        omega (arith, c, lo, init_weight w v),
        omega (arith, c, hi, init_weight w v),
      )

-- Inverse packing returns for every configuration, throws nothing and touches no builder outside
-- its queue, and each update that it returns fits into one message.
pub inverse_pack_total :
    (cfg : JpConfig) → (us : List Update) × (inverse_pack cfg ≡ done us) × All Fits us
inverse_pack_total cfg =
    let (us, r, fits, _, _) = inverse_pack_lem (λ _ _. 0) (λ _ _. 0) cfg in (us, r, fits)

-- However joined and pruned sources are weighed, the updates weigh at least as much as the SPT
-- sources of the configuration, taken as pruned, and at most as much as these and the RPs: no SPT
-- source is lost or doubled, nothing is joined, and an RP is pruned once or not at all.
pub inverse_pack_bounds :
    (w v : IPv4Address → Source → ℕ) (cfg : JpConfig) (us : List Update)
    → inverse_pack cfg ≡ done us
    → (spt_pruned w v cfg.groups ≤ updates_weight w v us)
      × (updates_weight w v us ≤ spt_pruned w v cfg.groups + rps_pruned w v cfg.groups)
inverse_pack_bounds w v cfg us e =
    let (us', r, _, lo, hi) = inverse_pack_lem w v cfg in
    let same : done us ≡ done us' = sym e ∙ r in let same_us : us ≡ us' = cc in rw same_us (lo, hi)
