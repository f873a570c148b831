-- ===== src/Pimsm/InversePack/Group.antt =====
-- The inverse `fitGroup` as a whole.
use pimc_toolkit.Common.{
  ℕ, zero, suc, ◌+◌, ◌≤◌, ◌<◌, ◌≡◌, refl, ◌∙◌, inl, inr, List, [], ◌∷◌, Option, none, some, true,
  false, min, Bool, Bool-cases, Option-cases, ltb, ◌==◌, length, get_elem?, done, ap, arith,
}
use pimc_toolkit.Net.Address.{IPv4Address}
use pimc_toolkit.Pimsm.Config.{Rpt, GroupConfig}
use pimc_toolkit.Pimsm.Update.{Source}
use pimc_toolkit.Pimsm.GroupEntryBuilder.{GroupEntryBuilder, rp_source, prune}
use pimc_toolkit.Pimsm.GroupEntryBuilder
use pimc_toolkit.Pimsm.UpdateBuilder.{remaining}
use pimc_toolkit.Pimsm.Cursor.{UpdatePacker, IsValid, next, add_lem}
use pimc_toolkit.Pimsm.Pack.{max_sources, find_loop}
use pimc_toolkit.Pimsm.Pack.Search.{find_loop_lem}
use pimc_toolkit.Pimsm.Pack.Slack.{slack-le-one}
use pimc_toolkit.Pimsm.Pack.Weight.{queue_weight, spt_weight, weight-set-grown}
use pimc_toolkit.Pimsm.InversePack.{
  InverseState, has_value, inverse_loop, rp_loop, inverse_finish, fit_inverse_group,
}
use pimc_toolkit.Pimsm.InversePack.Step.{
  InverseInv, inverse_measure, inverse_weight, rp_part, inverse_step_lem,
}

-- `min(maxSources(rem), 1)` is 0 just where an entry with one source does not fit.
no_place : (r : ℕ) → (min (max_sources r) 1 == 0) ≡ ltb r 20
unfolding max_sources
no_place r = ground arith

rp_loop-find_loop : (fuel : ℕ) (p : UpdatePacker) (i : ℕ) → rp_loop fuel p i ≡ find_loop fuel 20 p i
unfolding rp_loop find_loop
rp_loop-find_loop zero p i = refl
rp_loop-find_loop (suc fuel) p i = elim (Option-cases (get_elem? p.ubq i)) [
  | inl e ↦ rw e refl
  | inr (ub, e) ↦
      rw (e, no_place (remaining ub), rp_loop-find_loop fuel (next p i).0 (next p i).1) refl
]

module _ (w v : IPv4Address → Source → ℕ) (ge : GroupConfig) where
  pub inverse_loop_lem :
      (fuel : ℕ) (st : InverseState) (rest : List IPv4Address)
      → st.rest ≡ rest
      → InverseInv ge st
      → inverse_measure st < fuel
      → (st' : InverseState) × (inverse_loop fuel ge st ≡ done st')
        × InverseInv ge st'
        × (st'.rest ≡ [])
        × (st.prune_rp ≡ false → st'.prune_rp ≡ false)
        × (inverse_weight w v ge st ≤ inverse_weight w v ge st')
        × (inverse_weight w v ge st' + rp_part w v ge st'.prune_rp
            ≤ inverse_weight w v ge st + rp_part w v ge st.prune_rp)
  unfolding inverse_loop
  inverse_loop_lem zero st rest e inv m = absurd (omega arith)
  inverse_loop_lem (suc fuel) st [] e inv m =
      (st, ground arith, inv, e, λ h. h, omega arith, omega arith)
  inverse_loop_lem (suc fuel) st (a ∷ rest) e inv m =
      let (st1, r, k) = inverse_step_lem w v ge st inv (rw e (omega arith)) in
      let (st', r', i', e', s', lo, hi) =
        inverse_loop_lem fuel st1 st1.rest refl k.inv (omega (arith, k.nearer)) in
      (
        st',
        ground (arith, r, r'),
        i',
        e',
        λ h. s' (k.stays h),
        omega (arith, lo, k.at_least),
        omega (arith, hi, k.at_most),
      )

  inverse_finish_lem :
      (st : InverseState)
      → InverseInv ge st
      → (p : UpdatePacker) × (inverse_finish ge st ≡ done p)
        × IsValid p
        × (queue_weight w v p.ubq ≡ queue_weight w v st.packer.ubq + rp_part w v ge st.prune_rp)
  unfolding inverse_finish
  inverse_finish_lem st inv = elim (Bool-cases st.prune_rp) [
    | inr off ↦ (st.packer, ground arith, inv.valid, rw off (omega arith))
    | inl on ↦
        let (rpt, r) = inv.has_rpt on in
        let geb = prune (GroupEntryBuilder.make ge.group) rpt.rp true true in
        let (p1, k, s, f) =
          find_loop_lem w v (length st.packer.ubq + 2) 20 st.packer st.cursor inv.valid inv.in_range
            (omega arith) (omega arith) in
        let (p', a, q, val) =
          add_lem p1 k geb f.has_room.ub f.valid f.has_room.there
            (omega (arith, f.has_room.room)) in
        let run : rp_loop (length st.packer.ubq + 2) st.packer st.cursor ≡ done (p1, k) =
          rp_loop-find_loop _ st.packer st.cursor ∙ s in
        (
          p',
          ground (arith, on, r, run, a),
          val,
          omega (
            arith,
            ap (queue_weight w v) q,
            weight-set-grown w v p1.ubq k f.has_room.ub (GroupEntryBuilder.build geb)
                f.has_room.there,
            f.same_weight,
            rp_part_on st.prune_rp rpt on r,
          ),
        )
  ]
    where
      rp_part_on :
          (b : Bool) (rpt : Rpt)
          → b ≡ true
          → ge.rpt ≡ some rpt
          → rp_part w v ge b ≡ v ge.group (rp_source rpt.rp)
      rp_part_on b rpt on r = rw (on, r) refl

  has_value_lem : (o : Option Rpt) → has_value o ≡ true → (rpt : Rpt) × (o ≡ some rpt)
  has_value_lem none h = cc
  has_value_lem (some rpt) h = (rpt, refl)

  pub fit_inverse_group_lem :
      (p : UpdatePacker)
      → IsValid p
      → (p' : UpdatePacker) × (fit_inverse_group ge p ≡ done p')
        × IsValid p'
        × (queue_weight w v p.ubq + spt_weight v w ge.group ge.spt ≤ queue_weight w v p'.ubq)
        × (queue_weight w v p'.ubq
            ≤ queue_weight w v p.ubq
              + spt_weight v w ge.group ge.spt
              + rp_part w v ge (has_value ge.rpt))
  unfolding fit_inverse_group
  fit_inverse_group_lem p val =
      let st : InverseState = record {
        packer = p;
        cursor = p.start;
        prune_rp = has_value ge.rpt;
        rest = ge.spt;
      } in
      let inv : InverseInv ge st = record {
        valid = val;
        in_range = val.in_range;
        has_rpt = has_value_lem ge.rpt;
      } in
      let (st', r, i, e, _, lo, hi) =
        inverse_loop_lem (length p.ubq + length ge.spt + 3) st ge.spt refl inv
          (ground (arith, slack-le-one none p.start (get_elem? p.ubq p.start))) in
      let (p', r', val', c) = inverse_finish_lem st' i in
      (
        p',
        rw r r',
        val',
        omega (arith, c, lo, ap (spt_weight v w ge.group) e),
        omega (arith, c, hi, ap (spt_weight v w ge.group) e),
      )
