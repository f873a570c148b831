-- ===== src/Pimsm/InversePack/Step.antt =====
-- One round of the loop of the inverse `fitGroup`.
use pimc_toolkit.Common.{
  ℕ, suc, ◌+◌, ◌-◌, ◌*◌, ◌≤◌, ◌<◌, ◌≡◌, refl, inl, inr, List, [], ◌∷◌, none, some, true, false, min,
  Bool, Bool-cases, ltb, ◌==◌, length, get_elem?, take, drop, map, get_elem?_below,
  get_elem?-append_right, length-append, length-set, length-take, length-drop, sum_of,
  sum_of-append, sum_of-take-drop, All-get, done, ap, arith,
}
use native.Mathlib.Decide.{dec_lt}
use pimc_toolkit.Net.Address.{IPv4Address}
use pimc_toolkit.Pimsm.Config.{Rpt, GroupConfig}
use pimc_toolkit.Pimsm.Update.{Source, byte_size}
use pimc_toolkit.Pimsm.GroupEntryBuilder.{
  GroupEntryBuilder, spt_source, rp_source, sgrpt_source, prune, prune_all, prune_all_lem,
}
use pimc_toolkit.Pimsm.GroupEntryBuilder
use pimc_toolkit.Pimsm.UpdateBuilder.{UpdateBuilder, IsSound, remaining, remaining_lem, grown}
use pimc_toolkit.Pimsm.UpdateBuilder
use pimc_toolkit.Pimsm.Cursor.{IsValid, next_within, next_end, next-IsValid, add_lem}
use pimc_toolkit.Pimsm.Pack.{max_sources}
use pimc_toolkit.Pimsm.Pack.Slack.{
  slack_of, slack_one, slack_fresh, slack-le-one, used, max_sources_fits,
}
use pimc_toolkit.Pimsm.Pack.Weight.{
  entry_weight, queue_weight, spt_weight, length-map_source, sum_of-map, weight-append_make,
  weight-set-grown,
}
use pimc_toolkit.Pimsm.InversePack.{InverseState, moved, place, place_rp, rp_count, inverse_step}

abbrev pub inverse_measure : InverseState → ℕ
inverse_measure st =
    (length st.packer.ubq - st.cursor)
    + length st.rest
    + slack_of none st.cursor (get_elem? st.packer.ubq st.cursor)
    + rp_count st.prune_rp

pub record InverseInv (ge : GroupConfig) (st : InverseState) : Type 0 where
  pub valid : IsValid st.packer
  pub in_range : st.cursor < length st.packer.ubq
  pub has_rpt : st.prune_rp ≡ true → (rpt : Rpt) × (ge.rpt ≡ some rpt)

byte_size-prune_all :
    (geb : GroupEntryBuilder) (srcs : List IPv4Address)
    → geb.joins ≡ []
    → byte_size (GroupEntryBuilder.build (prune_all false geb srcs))
      ≡ 12 + 8 * (length geb.prunes + length srcs)
byte_size-prune_all geb srcs e = omega (
  arith,
  ap (λ (b : GroupEntryBuilder). byte_size (GroupEntryBuilder.build b))
      (prune_all_lem false geb srcs),
  ap (length {A = Source}) e,
  length-append geb.prunes (map (sgrpt_source false) srcs),
  length-map_source (sgrpt_source false) srcs,
)

module _ (w v : IPv4Address → Source → ℕ) where
  weight-prune_all :
      (geb : GroupEntryBuilder) (srcs : List IPv4Address)
      → geb.joins ≡ []
      → entry_weight w v (GroupEntryBuilder.build (prune_all false geb srcs))
        ≡ sum_of (v geb.group) geb.prunes + spt_weight v w geb.group srcs
  weight-prune_all geb srcs e = omega (
    arith,
    ap (λ (b : GroupEntryBuilder). entry_weight w v (GroupEntryBuilder.build b))
        (prune_all_lem false geb srcs),
    ap (sum_of (w geb.group)) e,
    sum_of-append (v geb.group) geb.prunes (map (sgrpt_source false) srcs),
    sum_of-map w v (v geb.group) (sgrpt_source false) srcs,
  )

  -- The queue with the SPT sources that are still to be placed.
  abbrev pub inverse_weight : GroupConfig → InverseState → ℕ
  inverse_weight ge st = queue_weight w v st.packer.ubq + spt_weight v w ge.group st.rest

  abbrev pub rp_part : GroupConfig → Bool → ℕ
  rp_part ge false = 0
  rp_part ge true = elim ge.rpt [ none ↦ 0 | some rpt ↦ v ge.group (rp_source rpt.rp) ]

  -- From `st` to `st'` no SPT source is lost, and nothing but one RP can be added.
  pub record Keeps (ge : GroupConfig) (st st' : InverseState) : Type 0 where
    pub inv : InverseInv ge st'
    pub stays : st.prune_rp ≡ false → st'.prune_rp ≡ false
    pub nearer : inverse_measure st' < inverse_measure st
    pub at_least : inverse_weight ge st ≤ inverse_weight ge st'
    pub at_most :
        inverse_weight ge st' + rp_part ge st'.prune_rp
        ≤ inverse_weight ge st + rp_part ge st.prune_rp

  -- Moving on from a builder that is not fresh, or after a source was placed.
  moved_lem :
      (st : InverseState) (before : ℕ)
      → IsValid st.packer
      → st.cursor < length st.packer.ubq
      → (length st.packer.ubq - st.cursor) + length st.rest + 1 + rp_count st.prune_rp ≤ before
      → IsValid (moved st).packer
        × ((moved st).cursor < length (moved st).packer.ubq)
        × (inverse_measure (moved st) < before)
        × (queue_weight w v (moved st).packer.ubq ≡ queue_weight w v st.packer.ubq)
  moved_lem st before val lt h = elim (dec_lt (suc st.cursor) (length st.packer.ubq)) [
    | yes inside ↦ rw (next_within st.packer st.cursor inside) (
      val,
      inside,
      omega (arith, slack-le-one none (suc st.cursor) (get_elem? st.packer.ubq (suc st.cursor))),
      refl,
    )
    | no last ↦
        let end : suc st.cursor ≡ length st.packer.ubq = omega arith in
        let longer = length-append st.packer.ubq (UpdateBuilder.make ∷ []) in
        rw (next_end st.packer st.cursor end) (
          rw (next_end st.packer st.cursor end) at (next-IsValid st.packer st.cursor val),
          omega (arith, longer),
          omega (
            arith,
            longer,
            slack_fresh none (suc st.cursor) _
                (get_elem?-append_right st.packer.ubq UpdateBuilder.make (suc st.cursor) end) refl,
          ),
          weight-append_make w v st.packer.ubq,
        )
  ]

  place_lem :
      (ge : GroupConfig) (st : InverseState) (geb : GroupEntryBuilder) (cnt : ℕ)
      (ub : UpdateBuilder)
      → InverseInv ge st
      → get_elem? st.packer.ubq st.cursor ≡ some ub
      → geb.joins ≡ []
      → geb.group ≡ ge.group
      → 12 + 8 * (length geb.prunes + cnt) ≤ remaining ub
      → 0 < cnt
      → cnt ≤ length st.rest
      → (st' : InverseState) × (place st geb cnt ≡ done st')
        × InverseInv ge st'
        × (inverse_measure st' < inverse_measure st)
        × (st'.prune_rp ≡ false)
        × (inverse_weight ge st' ≡ inverse_weight ge st + sum_of (v ge.group) geb.prunes)
  unfolding place
  place_lem ge st geb cnt ub inv e j g fits pos le =
      let entry = prune_all false geb (take cnt st.rest) in
      let (p', r, q, val) =
        add_lem st.packer st.cursor entry ub inv.valid e
          (omega (arith, byte_size-prune_all geb (take cnt st.rest) j, length-take cnt st.rest)) in
      let st1 : InverseState = record {
        packer = p';
        cursor = st.cursor;
        prune_rp = false;
        rest = drop cnt st.rest;
      } in
      let same : length p'.ubq ≡ length st.packer.ubq =
        rw q (length-set st.packer.ubq st.cursor _) in
      let (val', lt', m, c) =
        moved_lem st1 (inverse_measure st) val (omega (arith, same, inv.in_range))
          (omega (arith, same, length-drop cnt st.rest)) in
      (
        moved st1,
        rw r refl,
        record { valid = val'; in_range = lt'; has_rpt = λ h. cc },
        m,
        refl,
        omega (
          arith,
          c,
          ap (queue_weight w v) q,
          weight-set-grown w v st.packer.ubq st.cursor ub (GroupEntryBuilder.build entry) e,
          weight-prune_all geb (take cnt st.rest) j,
          ap (λ (x : IPv4Address). sum_of (v x) geb.prunes) g,
          ap (λ (x : IPv4Address). spt_weight v w x (take cnt st.rest)) g,
          sum_of-take-drop (λ (a : IPv4Address). v ge.group (spt_source a)) cnt st.rest,
        ),
      )

  place_rp_lem :
      (ge : GroupConfig) (st : InverseState) (ub : UpdateBuilder) (cnt : ℕ)
      → InverseInv ge st
      → get_elem? st.packer.ubq st.cursor ≡ some ub
      → st.prune_rp ≡ true
      → 0 < cnt
      → 12 + 8 * cnt ≤ remaining ub
      → cnt ≤ 1 + length st.rest
      → (st' : InverseState) × (place_rp ge st cnt ≡ done st') × Keeps ge st st'
  unfolding place_rp
  place_rp_lem ge st ub cnt inv e on pos fits le =
      let (rpt, r) = inv.has_rpt on in
      let geb = prune (GroupEntryBuilder.make ge.group) rpt.rp true true in
      elim (Bool-cases (cnt - 1 == 0)) [
        | inl one ↦ (
          record st { prune_rp = false },
          rw (r, one) refl,
          record {
            inv = record { valid = inv.valid; in_range = inv.in_range; has_rpt = λ h. cc };
            stays = λ h. refl;
            nearer = rw on (omega arith);
            at_least = omega arith;
            at_most = omega arith;
          },
        )
        | inr several ↦
            let (st', p, i, m, off, c) =
              place_lem ge st geb (cnt - 1) ub inv e refl refl (omega arith) (ground arith)
                (omega arith) in
            (
              st',
              rw (r, several) p,
              record {
                inv = i;
                stays = λ h. off;
                nearer = m;
                at_least = omega (arith, c);
                at_most = rw (off, on) (omega (arith, c, rp_part_some ge rpt r));
              },
            )
      ]
    where
      rp_part_some :
          (ge : GroupConfig) (rpt : Rpt)
          → ge.rpt ≡ some rpt
          → rp_part ge true ≡ v ge.group (rp_source rpt.rp)
      rp_part_some ge rpt r = rw r refl

  -- Each round runs through, loses no SPT source, adds at most the RP, and lowers the measure.
  pub inverse_step_lem :
      (ge : GroupConfig) (st : InverseState)
      → InverseInv ge st
      → 0 < length st.rest
      → (st' : InverseState) × (inverse_step ge st ≡ done st') × Keeps ge st st'
  unfolding inverse_step
  inverse_step_lem ge st inv more =
      let (ub, e) = get_elem?_below st.packer.ubq st.cursor inv.in_range in
      let cnt = min (max_sources (remaining ub)) (rp_count st.prune_rp + length st.rest) in
      let sound = All-get IsSound st.packer.ubq st.cursor ub inv.valid.sound e in
      let sources = max_sources_fits (remaining ub) in
      elim (Bool-cases (ltb 0 cnt)) [
        | inr none_ ↦
            let no_room : max_sources (remaining ub) ≡ 0 = ground arith in
            let (val, lt, m, c) =
              moved_lem st (inverse_measure st) inv.valid inv.in_range
                (omega (arith, slack_one none st.cursor _ ub e refl (used ub sound no_room))) in
            (
              moved st,
              rw (e, none_) refl,
              record {
                inv = record { valid = val; in_range = lt; has_rpt = inv.has_rpt };
                stays = λ h. h;
                nearer = m;
                at_least = omega (arith, c);
                at_most = omega (arith, c);
              },
            )
        | inl some_ ↦ elim (Bool-cases st.prune_rp) [
          | inl on ↦
              let few : rp_count st.prune_rp ≡ 1 = rw on refl in
              let pos : 0 < cnt = ground arith in
              let (st', r, k) =
                place_rp_lem ge st ub cnt inv e on pos (omega (arith, sources (omega arith)))
                  (omega arith) in
              (st', rw (e, some_) (ground (arith, on, r)), k)
          | inr off ↦
              let pos : 0 < cnt = ground arith in
              let zero_rp : rp_count st.prune_rp ≡ 0 = rw off refl in
              let (st', r, i, m, off', c) =
                place_lem ge st (GroupEntryBuilder.make ge.group) cnt ub inv e refl refl
                  (omega (arith, sources (omega arith))) pos (omega arith) in
              (
                st',
                rw (e, some_) (ground (arith, off, r)),
                record {
                  inv = i;
                  stays = λ h. off';
                  nearer = m;
                  at_least = omega (arith, c);
                  at_most = rw off' (omega (arith, c));
                },
              )
        ]
      ]
