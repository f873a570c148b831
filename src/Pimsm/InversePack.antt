-- ===== src/Pimsm/InversePack.antt =====
-- `InverseUpdatePacker` of apps/pimc/pimsm/InversePack.hpp: the updates that undo a configuration.
-- Its builder classes and `maxSources` are those of Pack.hpp, read again; see `UpdateBuilder`,
-- `GroupEntryBuilder` and `Pack`.
pub mod Step
pub mod Group
pub mod Correct
pub mod LostRp
mod Examples
use pimc_toolkit.Common.{
  ℕ, zero, suc, ◌+◌, ◌-◌, List, [], ◌∷◌, Bool, true, false, Option, none, some, min, ltb, ◌==◌,
  if◌then◌else◌, length, take, drop, map, Run, done, stuck, ◌>>=◌, value,
}
use pimc_toolkit.Net.Address.{IPv4Address}
use pimc_toolkit.Pimsm.Config.{GroupConfig, JpConfig}
use pimc_toolkit.Pimsm.Update.{Update}
use pimc_toolkit.Pimsm.GroupEntryBuilder.{GroupEntryBuilder, prune, prune_all}
use pimc_toolkit.Pimsm.GroupEntryBuilder
use pimc_toolkit.Pimsm.UpdateBuilder.{UpdateBuilder, remaining}
use pimc_toolkit.Pimsm.Cursor.{UpdatePacker, next, at}
use pimc_toolkit.Pimsm.Cursor
use pimc_toolkit.Pimsm.Pack.{max_sources, init, build}

-- The variables of the loop of `fitGroup`; `rest` is `spt` from `srci` on.
pub record InverseState : Type 0 where
  pub packer : UpdatePacker
  pub cursor : ℕ
  pub prune_rp : Bool
  pub rest : List IPv4Address

abbrev pub moved : InverseState → InverseState
moved st = record st {
  packer = (next st.packer st.cursor).0;
  cursor = (next st.packer st.cursor).1;
}

-- The entry with `cnt` more sources goes to the builder at the cursor, and the cursor moves on.
pub place : InverseState → GroupEntryBuilder → ℕ → Run InverseState
place st geb cnt = do
  p ← Cursor.add st.packer st.cursor (prune_all false geb (take cnt st.rest))
  done
      (moved (record { packer = p; cursor = st.cursor; prune_rp = false; rest = drop cnt st.rest }))

-- The branch `if (pruneRP == 1)`, with `continue` where `--cnt` is 0.
pub place_rp : GroupConfig → InverseState → ℕ → Run InverseState
unfolding place
place_rp ge st cnt = do
  rpt ← value ge.rpt
  let geb = prune (GroupEntryBuilder.make ge.group) rpt.rp true true
  if cnt - 1 == 0 then done (record st { prune_rp = false }) else place st geb (cnt - 1)

abbrev pub rp_count : Bool → ℕ
rp_count prune_rp = if prune_rp then 1 else 0

pub inverse_step : GroupConfig → InverseState → Run InverseState
unfolding place_rp
inverse_step ge st = do
  ub ← at st.packer st.cursor
  let cnt = min (max_sources (remaining ub)) (rp_count st.prune_rp + length st.rest)
  if ltb 0 cnt
      then (if st.prune_rp
          then place_rp ge st cnt
          else place st (GroupEntryBuilder.make ge.group) cnt)
      else done (moved st)

pub inverse_loop : ℕ → GroupConfig → InverseState → Run InverseState
unfolding inverse_step
inverse_loop zero ge st = elim st.rest [ [] ↦ done st | _ ∷ _ ↦ stuck ]
inverse_loop (suc fuel) ge st = elim st.rest [
  | [] ↦ done st
  | _ ∷ _ ↦ inverse_step ge st >>= inverse_loop fuel ge
]

-- `while (cnt == 0) { ++c; cnt = std::min(maxSources(c->remaining()), 1ul); }`
pub rp_loop : ℕ → UpdatePacker → ℕ → Run (UpdatePacker × ℕ)
rp_loop zero p i = stuck
rp_loop (suc fuel) p i = do
  ub ← at p i
  let rest = rp_loop fuel (next p i).0 (next p i).1
  if min (max_sources (remaining ub)) 1 == 0 then rest else done (p, i)

pub inverse_finish : GroupConfig → InverseState → Run UpdatePacker
unfolding rp_loop
inverse_finish ge st = elim st.prune_rp [
  | false ↦ done st.packer
  | true ↦ do
    rpt ← value ge.rpt
    let geb = prune (GroupEntryBuilder.make ge.group) rpt.rp true true
    (p, i) ← rp_loop (length st.packer.ubq + 2) st.packer st.cursor
    Cursor.add p i geb
]

abbrev pub has_value {ℓ} : {A : Type ℓ} → Option A → Bool
has_value none = false
has_value (some a) = true

pub fit_inverse_group : GroupConfig → UpdatePacker → Run UpdatePacker
unfolding inverse_loop inverse_finish
fit_inverse_group ge p = do
  st ←
      inverse_loop (length p.ubq + length ge.spt + 3) ge
        (record { packer = p; cursor = p.start; prune_rp = has_value ge.rpt; rest = ge.spt })
  inverse_finish ge st

pub fit_inverse_groups : List GroupConfig → UpdatePacker → Run UpdatePacker
unfolding fit_inverse_group
fit_inverse_groups [] p = done p
fit_inverse_groups (ge ∷ rest) p = fit_inverse_group ge p >>= fit_inverse_groups rest

-- `build()` is that of `UpdatePacker`.
unfoldable pub inverse_pack : JpConfig → Run (List Update)
unfolding fit_inverse_groups init build
inverse_pack cfg = fit_inverse_groups cfg.groups init >>= build
