-- ===== src/Pimsm/Pack/Correct.antt =====
-- `pack` as a whole: it returns, every update fits a packet, and nothing is lost or added.
use pimc_toolkit.Common.{
  ℕ, ◌-◌, ◌≤◌, ◌≡◌, refl, sym, ◌∙◌, inl, inr, List, [], ◌∷◌, map, length, get_elem?_below, take,
  All, All-take, take-length, done, ap, sum_of, sum_of-take_last, Bool-cases, arith,
}
use pimc_toolkit.Net.Address.{IPv4Address}
use pimc_toolkit.Pimsm.Params.{jp_capacity}
use pimc_toolkit.Pimsm.Config.{JpConfig}
use pimc_toolkit.Pimsm.Update.{Source, Update, byte_size}
use pimc_toolkit.Pimsm.UpdateBuilder.{UpdateBuilder, IsSound, make-IsSound, empty, empty_lem}
use pimc_toolkit.Pimsm.UpdateBuilder
use pimc_toolkit.Pimsm.Cursor.{UpdatePacker, IsValid}
use pimc_toolkit.Pimsm.Pack.{init, build, pack}
use pimc_toolkit.Pimsm.Pack.Search.{PrunesFit}
use pimc_toolkit.Pimsm.Pack.Group.{fit_groups_lem}
use pimc_toolkit.Pimsm.Pack.Weight.{queue_weight, groups_weight, updates_weight, config_weight}

-- The entries of an update fit into one Join/Prune message.
abbrev pub Fits : Update → Type 0
Fits u = sum_of byte_size u.groups ≤ jp_capacity

build-All :
    (ubs : List UpdateBuilder) → All IsSound ubs → All Fits (map (λ b. UpdateBuilder.build b) ubs)
build-All [] h = tt
build-All (ub ∷ ubs) h = (omega (arith, h.0.exact, h.0.within), build-All ubs h.1)

pub init-IsValid : IsValid init
unfolding init
init-IsValid = record { sound = (make-IsSound, tt); in_range = omega arith }

module _ (w v : IPv4Address → Source → ℕ) where
  updates_weight-build :
      (ubs : List UpdateBuilder)
      → updates_weight w v (map (λ b. UpdateBuilder.build b) ubs) ≡ queue_weight w v ubs
  updates_weight-build [] = refl
  updates_weight-build (ub ∷ ubs) = omega (arith, updates_weight-build ubs)

  pub build_lem :
      (p : UpdatePacker)
      → IsValid p
      → (us : List Update) × (build p ≡ done us)
        × All Fits us
        × (updates_weight w v us ≡ queue_weight w v p.ubq)
  unfolding build
  build_lem p val =
      let (ub, e) = get_elem?_below p.ubq (length p.ubq - 1) (omega (arith, val.in_range)) in
      elim (Bool-cases (empty ub)) [
        | inl gone ↦
            let ubs = take (length p.ubq - 1) p.ubq in
            (
              map (λ b. UpdateBuilder.build b) ubs,
              rw (e, gone) refl,
              build-All ubs (All-take IsSound (length p.ubq - 1) p.ubq val.sound),
              omega (
                arith,
                updates_weight-build ubs,
                ap (groups_weight w v) (empty_lem ub gone),
                sum_of-take_last (λ (b : UpdateBuilder). groups_weight w v b.groups)
                    (length p.ubq - 1) p.ubq ub (omega (arith, val.in_range)) e,
              ),
            )
        | inr kept ↦ (
          map (λ b. UpdateBuilder.build b) p.ubq,
          rw (e, kept, take-length p.ubq) refl,
          build-All p.ubq val.sound,
          updates_weight-build p.ubq,
        )
      ]

  pub init_weight : queue_weight w v init.ubq ≡ 0
  unfolding init
  init_weight = refl

  pub pack_lem :
      (cfg : JpConfig)
      → All (λ ge. PrunesFit ge.rpt) cfg.groups
      → (us : List Update) × (pack cfg ≡ done us)
        × All Fits us
        × (updates_weight w v us ≡ config_weight w v cfg.groups)
  unfolding pack
  pack_lem cfg fit =
      let (p, r, val, c) = fit_groups_lem w v cfg.groups init init-IsValid fit in
      let (us, r', fits, c') = build_lem p val in
      (us, rw r r', fits, omega (arith, c, c', init_weight))

-- Where no group has an RPT with more than 180 pruned sources, packing returns: no loop runs for
-- ever, no builder outside the queue is touched, and no exception is thrown; and each update that
-- it returns fits into one message.
pub pack_total :
    (cfg : JpConfig)
    → All (λ ge. PrunesFit ge.rpt) cfg.groups
    → (us : List Update) × (pack cfg ≡ done us) × All Fits us
pack_total cfg fit = let (us, r, fits, _) = pack_lem (λ _ _. 0) (λ _ _. 0) cfg fit in (us, r, fits)

-- Where no group has an RPT with more than 180 pruned sources, the updates that packing returns
-- weigh as much as the configuration, however joined sources and pruned sources are weighed by
-- group: as multisets they are the same.
pub pack_exact :
    (w v : IPv4Address → Source → ℕ) (cfg : JpConfig) (us : List Update)
    → All (λ ge. PrunesFit ge.rpt) cfg.groups
    → pack cfg ≡ done us
    → updates_weight w v us ≡ config_weight w v cfg.groups
pack_exact w v cfg us fit e =
    let (us', r, _, c) = pack_lem w v cfg fit in
    let same : done us ≡ done us' = sym e ∙ r in
    let same_us : us ≡ us' = cc in ap (updates_weight w v) same_us ∙ c
