-- ===== src/Pimsm/Pack/Step.antt =====
-- One round of the loop of `fitGroup`: it neither loses nor makes up a source, and it comes nearer
-- to the end.
use pimc_toolkit.Common.{
  ℕ, suc, ◌+◌, ◌*◌, ◌≤◌, ◌<◌, ◌≡◌, refl, inl, inr, [], ◌∷◌, none, some, true, false, min,
  Bool-cases, ltb, length, get_elem?, take, drop, get_elem?_below, get_elem?-append_right,
  length-append, length-set, length-take, length-drop, sum_of-take-drop, All-get, done, ap, arith,
  sub64,
}
use native.Mathlib.Decide.{dec_lt}
use pimc_toolkit.Net.Address.{IPv4Address}
use pimc_toolkit.Pimsm.Config.{Rpt, GroupConfig}
use pimc_toolkit.Pimsm.Update.{Source}
use pimc_toolkit.Pimsm.GroupEntryBuilder.{spt_source}
use pimc_toolkit.Pimsm.GroupEntryBuilder
use pimc_toolkit.Pimsm.UpdateBuilder.{
  UpdateBuilder, IsSound, remaining, remaining_lem, make-IsSound, grown,
}
use pimc_toolkit.Pimsm.UpdateBuilder
use pimc_toolkit.Pimsm.Cursor.{
  UpdatePacker, IsValid, next_within, next_end, next-IsValid, add, add_lem,
}
use pimc_toolkit.Pimsm.Pack.{
  FitState, max_sources, is_at, spt_entry, rpt_entry, fit_spt, fit_rpt, fit_step, advance,
}
use pimc_toolkit.Pimsm.Pack.Search.{Pending}
use pimc_toolkit.Pimsm.Pack.Weight.{
  queue_weight, spt_weight, owed, weight-append_make, weight-set-grown, weight-spt_entry,
  weight-rpt_entry, byte_size-spt_entry, byte_size-rpt_entry,
}
use pimc_toolkit.Pimsm.Pack.Slack.{
  measure, slack_of, slack_one, slack_at, slack_fresh, slack-le-one, max_sources_fits,
  max_sources_fits_at, used,
}
use pimc_toolkit.Pimsm.Pack.Reserved.{
  Pending-set, Pending-later, Pending-here, Pending-append, Pending-far,
}

module _ (w v : IPv4Address → Source → ℕ) (ge : GroupConfig) where
  abbrev pub state_weight : FitState → ℕ
  state_weight st =
      queue_weight w v st.packer.ubq + spt_weight w v ge.group st.rest + owed w v ge st.rpt_ub

  pub record FitInv (st : FitState) : Type 0 where
    pub valid : IsValid st.packer
    pub in_range : st.cursor < length st.packer.ubq
    pub pending : Pending ge st.packer.ubq st.cursor st.rpt_ub

  -- A state in which the builder at the cursor has been served.
  record Served (st st' : FitState) : Type 0 where
    valid : IsValid st'.packer
    same_length : length st'.packer.ubq ≡ length st.packer.ubq
    same_cursor : st'.cursor ≡ st.cursor
    pending : Pending ge st'.packer.ubq (suc st.cursor) st'.rpt_ub
    same_weight : state_weight st' ≡ state_weight st
    progress :
        length st'.rest + 1
        ≤ length st.rest + slack_of st.rpt_ub st.cursor (get_elem? st.packer.ubq st.cursor)

  fit_spt_lem :
      (st : FitState) (ub : UpdateBuilder)
      → FitInv st
      → get_elem? st.packer.ubq st.cursor ≡ some ub
      → is_at st.rpt_ub st.cursor ≡ false
      → 0 < length st.rest
      → (st' : FitState) × (fit_spt ge st ub ≡ done st') × Served st st'
  unfolding fit_spt
  fit_spt_lem st ub inv e off more =
      let cnt = min (max_sources (remaining ub)) (length st.rest) in
      let entry = spt_entry ge.group (take cnt st.rest) in
      let sound = All-get IsSound st.packer.ubq st.cursor ub inv.valid.sound e in
      elim (Bool-cases (ltb 0 cnt)) [
        | inl some_ ↦
            let pos : 0 < cnt = ground arith in
            let size = byte_size-spt_entry ge.group (take cnt st.rest) in
            let (p', r, q, val) = add_lem st.packer st.cursor entry ub inv.valid e (
              omega (
                arith,
                size,
                length-take cnt st.rest,
                max_sources_fits (remaining ub) (omega arith),
              )) in
            (
              record st { packer = p'; rest = drop cnt st.rest },
              rw (some_, r) refl,
              record {
                valid = val;
                same_length = rw q (length-set st.packer.ubq st.cursor _);
                same_cursor = refl;
                pending = rw q (Pending-set ge st.packer.ubq st.cursor _ st.rpt_ub off inv.pending);
                same_weight = omega (
                  arith,
                  ap (queue_weight w v) q,
                  weight-set-grown w v st.packer.ubq st.cursor ub (GroupEntryBuilder.build entry) e,
                  weight-spt_entry w v ge.group (take cnt st.rest),
                  sum_of-take-drop (λ (a : IPv4Address). w ge.group (spt_source a)) cnt st.rest,
                );
                progress = omega (arith, length-drop cnt st.rest);
              },
            )
        | inr none_ ↦
            let no_room : max_sources (remaining ub) ≡ 0 = ground arith in
            (
              st,
              rw none_ refl,
              record {
                valid = inv.valid;
                same_length = refl;
                same_cursor = refl;
                pending = Pending-later ge st.packer.ubq st.cursor st.rpt_ub off inv.pending;
                same_weight = refl;
                progress =
                    omega (arith, slack_one st.rpt_ub st.cursor _ ub e off (used ub sound no_room));
              },
            )
      ]

  fit_rpt_runs :
      (st : FitState) (ub : UpdateBuilder) (rpt : Rpt) (p' : UpdatePacker)
      → let cnt =
          min (max_sources (sub64 (remaining ub) (8 * (length rpt.prunes + 1)))) (length st.rest) in
        ge.rpt ≡ some rpt
        → add st.packer st.cursor (rpt_entry ge.group (take cnt st.rest) rpt) ≡ done p'
        → fit_rpt ge st ub
          ≡ done
              (record { packer = p'; cursor = st.cursor; rpt_ub = none; rest = drop cnt st.rest })
  unfolding fit_rpt
  fit_rpt_runs st ub rpt p' r a = rw (r, a) refl

  fit_rpt_lem :
      (st : FitState) (ub : UpdateBuilder)
      → FitInv st
      → get_elem? st.packer.ubq st.cursor ≡ some ub
      → is_at st.rpt_ub st.cursor ≡ true
      → (st' : FitState) × (fit_rpt ge st ub ≡ done st') × Served st st'
  fit_rpt_lem st ub inv e on =
      let (rpt, r, fits, owes) =
        Pending-here w v ge st.packer.ubq st.cursor st.rpt_ub ub on e inv.pending in
      let sound = All-get IsSound st.packer.ubq st.cursor ub inv.valid.sound e in
      let room : ℕ = sub64 (remaining ub) (8 * (length rpt.prunes + 1)) in
      let exact : room + 8 * (length rpt.prunes + 1) ≡ remaining ub =
        omega (arith, remaining_lem ub sound) in
      let cnt = min (max_sources room) (length st.rest) in
      let entry = rpt_entry ge.group (take cnt st.rest) rpt in
      let (p', a, q, val) = add_lem st.packer st.cursor entry ub inv.valid e (
        omega (
          arith,
          byte_size-rpt_entry ge.group (take cnt st.rest) rpt,
          length-take cnt st.rest,
          max_sources_fits_at room (omega arith),
          exact,
        )) in
      (
        record { packer = p'; cursor = st.cursor; rpt_ub = none; rest = drop cnt st.rest },
        fit_rpt_runs st ub rpt p' r a,
        record {
          valid = val;
          same_length = rw q (length-set st.packer.ubq st.cursor _);
          same_cursor = refl;
          pending = tt;
          same_weight = omega (
            arith,
            owes,
            ap (queue_weight w v) q,
            weight-set-grown w v st.packer.ubq st.cursor ub (GroupEntryBuilder.build entry) e,
            weight-rpt_entry w v ge.group (take cnt st.rest) rpt,
            sum_of-take-drop (λ (b : IPv4Address). w ge.group (spt_source b)) cnt st.rest,
          );
          progress = omega (arith, length-drop cnt st.rest, slack_at st.rpt_ub st.cursor _ on);
        },
      )

  -- Moving the cursor on from a served builder: the reservation and the weight stay.
  advance_lem :
      (st st' : FitState)
      → FitInv st
      → Served st st'
      → FitInv (advance st')
        × (measure (advance st') < measure st)
        × (state_weight (advance st') ≡ state_weight st)
  unfolding advance
  advance_lem st st' inv s = elim (dec_lt (suc st'.cursor) (length st'.packer.ubq)) [
    | yes inside ↦ rw (next_within st'.packer st'.cursor inside) (
      record { valid = s.valid; in_range = inside; pending = rw s.same_cursor s.pending },
      omega (
        arith,
        s.progress,
        s.same_length,
        s.same_cursor,
        slack-le-one st'.rpt_ub (suc st'.cursor) (get_elem? st'.packer.ubq (suc st'.cursor)),
      ),
      s.same_weight,
    )
    | no last ↦
        let end : suc st'.cursor ≡ length st'.packer.ubq =
          omega (arith, s.same_length, s.same_cursor, inv.in_range) in
        let longer = length-append st'.packer.ubq (UpdateBuilder.make ∷ []) in
        rw (next_end st'.packer st'.cursor end) (
          record {
            valid =
                rw (next_end st'.packer st'.cursor end) at
                  (next-IsValid st'.packer st'.cursor s.valid);
            in_range = omega (arith, longer);
            pending =
                Pending-append ge st'.packer.ubq (suc st'.cursor) UpdateBuilder.make st'.rpt_ub
                  (rw s.same_cursor s.pending);
          },
          omega (
            arith,
            longer,
            s.progress,
            s.same_length,
            s.same_cursor,
            slack_fresh st'.rpt_ub (suc st'.cursor) _
                (get_elem?-append_right st'.packer.ubq UpdateBuilder.make (suc st'.cursor) end)
                (Pending-far ge st'.packer.ubq (suc st.cursor) (suc st'.cursor) st'.rpt_ub
                  (omega arith) s.pending),
          ),
          omega (arith, weight-append_make w v st'.packer.ubq, s.same_weight),
        )
  ]

  -- Each round of `fitGroup` runs through, keeps the invariant and the weight, and lowers the measure.
  pub fit_step_lem :
      (st : FitState)
      → FitInv st
      → 0 < length st.rest
      → (st' : FitState) × (fit_step ge st ≡ done st')
        × FitInv st'
        × (measure st' < measure st)
        × (state_weight st' ≡ state_weight st)
  unfolding fit_step
  fit_step_lem st inv more =
      let (ub, e) = get_elem?_below st.packer.ubq st.cursor inv.in_range in
      elim (Bool-cases (is_at st.rpt_ub st.cursor)) [
        | inl on ↦
            let (st', r, s) = fit_rpt_lem st ub inv e on in
            let (i, m, c) = advance_lem st st' inv s in (advance st', rw (e, on, r) refl, i, m, c)
        | inr off ↦
            let (st', r, s) = fit_spt_lem st ub inv e off more in
            let (i, m, c) = advance_lem st st' inv s in (advance st', rw (e, off, r) refl, i, m, c)
      ]
