-- ===== src/Pimsm/Pack/Group.antt =====
-- `fitGroup` as a whole: it always ends, throws nothing, and adds what the group is configured for.
use pimc_toolkit.Common.{
  ℕ, zero, suc, ◌+◌, ◌≤◌, ◌<◌, ◌≡◌, refl, ◌∙◌, List, [], ◌∷◌, Option, none, some, length, get_elem?,
  set, All, All-get, All-set, length-set, done, ap, arith,
}
use pimc_toolkit.Net.Address.{IPv4Address}
use pimc_toolkit.Pimsm.Config.{GroupConfig}
use pimc_toolkit.Pimsm.Update.{Source, byte_size}
use pimc_toolkit.Pimsm.GroupEntryBuilder
use pimc_toolkit.Pimsm.UpdateBuilder.{
  UpdateBuilder, IsSound, remaining, remaining_lem, grown, grown-IsSound,
}
use pimc_toolkit.Pimsm.UpdateBuilder
use pimc_toolkit.Pimsm.Cursor.{UpdatePacker, IsValid}
use pimc_toolkit.Pimsm.Pack.{FitState, rpt_entry, fit_loop, fit_finish, fit_group, fit_groups}
use pimc_toolkit.Pimsm.Pack.Search.{Pending, PrunesFit, find_rpt_ub_lem}
use pimc_toolkit.Pimsm.Pack.Slack.{measure, slack-le-one}
use pimc_toolkit.Pimsm.Pack.Step.{FitInv, state_weight, fit_step_lem}
use pimc_toolkit.Pimsm.Pack.Weight.{
  queue_weight, config_weight, spt_weight, rpt_part, owed, weight-set-grown, weight-rpt_entry,
  byte_size-rpt_entry,
}

module _ (w v : IPv4Address → Source → ℕ) where
  fit_loop_lem :
      (ge : GroupConfig) (fuel : ℕ) (st : FitState) (rest : List IPv4Address)
      → st.rest ≡ rest
      → FitInv w v ge st
      → measure st < fuel
      → (st' : FitState) × (fit_loop fuel ge st ≡ done st')
        × FitInv w v ge st'
        × (st'.rest ≡ [])
        × (state_weight w v ge st' ≡ state_weight w v ge st)
  unfolding fit_loop
  fit_loop_lem ge zero st rest e inv m = absurd (omega arith)
  fit_loop_lem ge (suc fuel) st [] e inv m = (st, ground arith, inv, e, refl)
  fit_loop_lem ge (suc fuel) st (a ∷ rest) e inv m =
      let (st1, r, i, m1, c) = fit_step_lem w v ge st inv (rw e (omega arith)) in
      let (st', r', i', e', c') = fit_loop_lem ge fuel st1 st1.rest refl i (omega arith) in
      (st', ground (arith, r, r'), i', e', c' ∙ c)

  fit_finish_lem :
      (ge : GroupConfig) (st : FitState) (rpt_ub : Option ℕ)
      → st.rpt_ub ≡ rpt_ub
      → IsValid st.packer
      → Pending ge st.packer.ubq st.cursor rpt_ub
      → (p : UpdatePacker) × (fit_finish ge st ≡ done p)
        × IsValid p
        × (queue_weight w v p.ubq ≡ queue_weight w v st.packer.ubq + owed w v ge rpt_ub)
  unfolding fit_finish
  fit_finish_lem ge st none e val h = (st.packer, ground arith, val, omega arith)
  fit_finish_lem ge st (some k) e val (rpt, r, le, room) =
      let entry = GroupEntryBuilder.build (rpt_entry ge.group [] rpt) in
      let size = byte_size-rpt_entry ge.group [] rpt in
      let sound = All-get IsSound st.packer.ubq k room.ub val.sound room.there in
      let fits : byte_size entry ≤ remaining room.ub = omega (arith, size, room.room) in
      (
        record st.packer { ubq = set st.packer.ubq k (grown room.ub entry) },
        rw
            (
              e,
              fit_finish,
              r,
              room.there,
              GroupEntryBuilder.size_lem (rpt_entry ge.group [] rpt)
                  (omega (arith, fits, remaining_lem room.ub sound)),
              UpdateBuilder.add_lem room.ub entry sound fits,
            )
            refl,
        record {
          sound =
              All-set IsSound st.packer.ubq k _ val.sound (grown-IsSound room.ub entry sound fits);
          in_range = omega (arith, length-set st.packer.ubq k (grown room.ub entry), val.in_range);
        },
        omega (
          arith,
          weight-set-grown w v st.packer.ubq k room.ub entry room.there,
          weight-rpt_entry w v ge.group [] rpt,
          ap (rpt_part w v ge.group) r,
        ),
      )

  pub fit_group_lem :
      (ge : GroupConfig) (p : UpdatePacker)
      → IsValid p
      → PrunesFit ge.rpt
      → (p' : UpdatePacker) × (fit_group ge p ≡ done p')
        × IsValid p'
        × (queue_weight w v p'.ubq ≡ queue_weight w v p.ubq + config_weight w v (ge ∷ []))
  unfolding fit_group
  fit_group_lem ge p val fit =
      let (p1, rpt_ub, r1, f) = find_rpt_ub_lem w v ge p val fit in
      let st : FitState = record {
        packer = p1;
        cursor = p1.start;
        rpt_ub = rpt_ub;
        rest = ge.spt;
      } in
      let inv : FitInv w v ge st = record {
        valid = f.valid;
        in_range = f.valid.in_range;
        pending = f.pending;
      } in
      let (st', r2, i, e, c) =
        fit_loop_lem ge (length p1.ubq + length ge.spt + 2) st ge.spt refl inv
          (omega (arith, slack-le-one rpt_ub p1.start (get_elem? p1.ubq p1.start))) in
      let (p', r3, val', c') = fit_finish_lem ge st' st'.rpt_ub refl i.valid i.pending in
      (
        p',
        rw r1 (rw r2 r3),
        val',
        omega (arith, c, c', f.same_weight, f.owes, ap (spt_weight w v ge.group) e),
      )

  pub fit_groups_lem :
      (gs : List GroupConfig) (p : UpdatePacker)
      → IsValid p
      → All (λ ge. PrunesFit ge.rpt) gs
      → (p' : UpdatePacker) × (fit_groups gs p ≡ done p')
        × IsValid p'
        × (queue_weight w v p'.ubq ≡ queue_weight w v p.ubq + config_weight w v gs)
  unfolding fit_groups
  fit_groups_lem [] p val fit = (p, refl, val, omega arith)
  fit_groups_lem (ge ∷ gs) p val fit =
      let (p1, r1, val1, c1) = fit_group_lem ge p val fit.0 in
      let (p2, r2, val2, c2) = fit_groups_lem gs p1 val1 fit.1 in
      (p2, rw r1 r2, val2, omega (arith, c1, c2))
