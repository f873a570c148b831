-- ===== src/Pimsm/InversePack/LostRp.antt =====
-- Where the RP of a group goes missing: `--cnt == 0` takes the `continue` before the entry with the
-- RP is added, and `pruneRP` is 0 by then.
use pimc_toolkit.Common.{
  ℕ, zero, suc, ◌+◌, ◌-◌, ◌≤◌, ◌<◌, ◌≡◌, refl, List, ◌∷◌, some, none, true, false, length,
  get_elem?, done, ap, arith,
}
use pimc_toolkit.Net.Address.{IPv4Address}
use pimc_toolkit.Pimsm.Config.{Rpt, GroupConfig}
use pimc_toolkit.Pimsm.Update.{Source}
use pimc_toolkit.Pimsm.UpdateBuilder.{UpdateBuilder, remaining}
use pimc_toolkit.Pimsm.Cursor.{UpdatePacker, IsValid}
use pimc_toolkit.Pimsm.Pack.{max_sources}
use pimc_toolkit.Pimsm.Pack.Slack.{slack-le-one}
use pimc_toolkit.Pimsm.Pack.Weight.{queue_weight, spt_weight}
use pimc_toolkit.Pimsm.InversePack.{
  InverseState, has_value, place_rp, inverse_step, inverse_loop, inverse_finish, fit_inverse_group,
}
use pimc_toolkit.Pimsm.InversePack.Step.{InverseInv}
use pimc_toolkit.Pimsm.InversePack.Group.{inverse_loop_lem}

one_source : (r : ℕ) → 20 ≤ r → r < 28 → max_sources r ≡ 1
unfolding max_sources
one_source r lo hi = ground arith

-- The first round only clears `pruneRP`.
first_round :
    (ge : GroupConfig) (st : InverseState) (ub : UpdateBuilder) (rpt : Rpt)
    → get_elem? st.packer.ubq st.cursor ≡ some ub
    → max_sources (remaining ub) ≡ 1
    → ge.rpt ≡ some rpt
    → st.prune_rp ≡ true
    → inverse_step ge st ≡ done (record st { prune_rp = false })
unfolding inverse_step place_rp
first_round ge st ub rpt e one r on = rw e (ground (arith, one, r, on))

loop_first :
    (ge : GroupConfig) (fuel : ℕ) (st st1 : InverseState) (a : IPv4Address)
    (rest : List IPv4Address)
    → st.rest ≡ a ∷ rest
    → inverse_step ge st ≡ done st1
    → 0 < fuel
    → inverse_loop fuel ge st ≡ inverse_loop (fuel - 1) ge st1
unfolding inverse_loop
loop_first ge zero st st1 a rest e r h = absurd (omega arith)
loop_first ge (suc fuel) st st1 a rest e r h =
    let back : suc fuel - 1 ≡ fuel = omega arith in rw back (ground (arith, e, r))

finish_off :
    (ge : GroupConfig) (st : InverseState)
    → st.prune_rp ≡ false
    → inverse_finish ge st ≡ done st.packer
unfolding inverse_finish
finish_off ge st off = ground arith

-- In a valid queue whose first builder that may have room has 20 to 27 bytes left, a group with an
-- RP and at least one SPT source is packed without its RP: under all weights the queue grows by the
-- SPT sources alone.
pub lost_rp :
    (w v : IPv4Address → Source → ℕ) (ge : GroupConfig) (p : UpdatePacker) (ub : UpdateBuilder)
    (rpt : Rpt) (a : IPv4Address) (rest : List IPv4Address)
    → IsValid p
    → get_elem? p.ubq p.start ≡ some ub
    → 20 ≤ remaining ub
    → remaining ub < 28
    → ge.rpt ≡ some rpt
    → ge.spt ≡ a ∷ rest
    → (p' : UpdatePacker) × (fit_inverse_group ge p ≡ done p')
      × (queue_weight w v p'.ubq ≡ queue_weight w v p.ubq + spt_weight v w ge.group ge.spt)
unfolding fit_inverse_group
lost_rp w v ge p ub rpt a rest val e lo hi r s =
    let fuel = length p.ubq + length ge.spt + 3 in
    let st : InverseState = record {
      packer = p;
      cursor = p.start;
      prune_rp = has_value ge.rpt;
      rest = ge.spt;
    } in
    let st1 : InverseState = record st { prune_rp = false } in
    let on : has_value ge.rpt ≡ true = rw r refl in
    let first = first_round ge st ub rpt e (one_source (remaining ub) lo hi) r on in
    let inv : InverseInv ge st1 = record {
      valid = val;
      in_range = val.in_range;
      has_rpt = λ h. cc;
    } in
    let (st', q, i, done_, off, lo', hi') =
      inverse_loop_lem w v ge (fuel - 1) st1 ge.spt refl inv
        (omega (arith, slack-le-one none p.start (get_elem? p.ubq p.start))) in
    (
      st'.packer,
      rw (loop_first ge fuel st st1 a rest s first (omega arith))
          (rw q (finish_off ge st' (off refl))),
      omega (arith, lo', hi', ap (spt_weight v w ge.group) done_),
    )
