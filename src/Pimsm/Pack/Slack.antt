-- ===== src/Pimsm/Pack/Slack.antt =====
-- How much room a builder has for sources, and the measure that each round of `fitGroup` lowers.
use pimc_toolkit.Common.{
  ℕ, ◌+◌, ◌-◌, ◌*◌, ◌≤◌, ◌<◌, ◌≡◌, ◌≢◌, refl, Option, none, some, true, false, ◌==◌, if◌then◌else◌,
  length, get_elem?, arith,
}
use pimc_toolkit.Pimsm.UpdateBuilder.{
  UpdateBuilder, IsSound, remaining, remaining_lem, make-IsSound, grown,
}
use pimc_toolkit.Pimsm.UpdateBuilder
use pimc_toolkit.Pimsm.Pack.{FitState, max_sources, is_at}

-- 0 if the builder at the cursor is fresh and not reserved: then this round places a source.
abbrev pub slack_of : Option ℕ → ℕ → Option UpdateBuilder → ℕ
slack_of rpt_ub i none = 1
slack_of rpt_ub i (some ub) = if is_at rpt_ub i then 1 else if ub.sz == 0 then 0 else 1

abbrev pub measure : FitState → ℕ
measure st =
    (length st.packer.ubq - st.cursor)
    + length st.rest
    + slack_of st.rpt_ub st.cursor (get_elem? st.packer.ubq st.cursor)

pub max_sources_fits : (n : ℕ) → 0 < max_sources n → 12 + 8 * max_sources n ≤ n
unfolding max_sources
max_sources_fits n h = ground arith

pub max_sources_fits_at : (n : ℕ) → 12 ≤ n → 12 + 8 * max_sources n ≤ n
unfolding max_sources
max_sources_fits_at n h = ground arith

max_sources_empty : 0 < max_sources 1466
unfolding max_sources
max_sources_empty = omega arith

pub slack_one :
    (rpt_ub : Option ℕ) (i : ℕ) (o : Option UpdateBuilder) (ub : UpdateBuilder)
    → o ≡ some ub
    → is_at rpt_ub i ≡ false
    → ub.sz ≢ 0
    → slack_of rpt_ub i o ≡ 1
slack_one rpt_ub i o ub e off h = rw (e, off) (ground arith)

pub slack_at :
    (rpt_ub : Option ℕ) (i : ℕ) (o : Option UpdateBuilder)
    → is_at rpt_ub i ≡ true
    → slack_of rpt_ub i o ≡ 1
slack_at rpt_ub i none on = refl
slack_at rpt_ub i (some ub) on = rw on refl

pub slack_fresh :
    (rpt_ub : Option ℕ) (i : ℕ) (o : Option UpdateBuilder)
    → o ≡ some UpdateBuilder.make
    → is_at rpt_ub i ≡ false
    → slack_of rpt_ub i o ≡ 0
slack_fresh rpt_ub i o e off = rw (e, off) refl

pub slack-le-one : (rpt_ub : Option ℕ) (i : ℕ) (o : Option UpdateBuilder) → slack_of rpt_ub i o ≤ 1
slack-le-one rpt_ub i none = omega arith
slack-le-one rpt_ub i (some ub) = ground arith

-- A builder with no room for a source is not fresh.
pub used : (ub : UpdateBuilder) → IsSound ub → max_sources (remaining ub) ≡ 0 → ub.sz ≢ 0
used ub sound no_room fresh =
    let all_room : remaining ub ≡ 1466 = omega (arith, remaining_lem ub sound) in
    let some_room : 0 < max_sources (remaining ub) = rw all_room max_sources_empty in omega arith
