-- ===== src/Pimsm/Pack.antt =====
-- `UpdatePacker` of apps/pimc/pimsm/Pack.hpp: the configuration is packed into as many updates as it
-- takes, and each group goes into the first ones that have room. The loops run on fuel; a run that
-- is `stuck` has used it up.
pub mod Weight
pub mod Built
pub mod Search
pub mod Slack
pub mod Reserved
pub mod Step
pub mod Group
pub mod Correct
mod Examples
use pimc_toolkit.Common.{
  ℕ, zero, suc, ◌+◌, ◌-◌, ◌*◌, ◌/◌, ◌%◌, ◌^◌, List, [], ◌∷◌, Bool, true, false, Option, none, some,
  min, ltb, leb, ◌==◌, if◌then◌else◌, length, take, drop, map, set, sub64, Run, done, stuck, ◌>>=◌,
  deref, value,
}
use pimc_toolkit.Net.Address.{IPv4Address}
use pimc_toolkit.Pimsm.Params.{grp_hdr_size, src_a_size}
use pimc_toolkit.Pimsm.Config.{Rpt, GroupConfig, JpConfig}
use pimc_toolkit.Pimsm.Update.{Update}
use pimc_toolkit.Pimsm.GroupEntryBuilder.{GroupEntryBuilder, join, join_all, prune_all}
use pimc_toolkit.Pimsm.GroupEntryBuilder
use pimc_toolkit.Pimsm.UpdateBuilder.{UpdateBuilder, remaining, empty}
use pimc_toolkit.Pimsm.UpdateBuilder
use pimc_toolkit.Pimsm.Cursor.{UpdatePacker, next, at}
use pimc_toolkit.Pimsm.Cursor

unfoldable pub init : UpdatePacker
init = record { ubq = UpdateBuilder.make ∷ []; start = 0 }

-- Behind the first test the subtraction is exact.
unfoldable pub max_sources : ℕ → ℕ
max_sources rem = if leb rem grp_hdr_size then 0 else (rem - grp_hdr_size) / src_a_size

abbrev pub rpt_size : Rpt → ℕ
rpt_size rpt = (grp_hdr_size + src_a_size * (length rpt.prunes + 1)) % 2 ^ 64

-- `while (c->remaining() < rptSz) ++c;`
unfoldable pub find_loop : ℕ → ℕ → UpdatePacker → ℕ → Run (UpdatePacker × ℕ)
find_loop zero sz p i = stuck
find_loop (suc fuel) sz p i = do
  ub ← at p i
  let rest = find_loop fuel sz (next p i).0 (next p i).1
  if ltb (remaining ub) sz then rest else done (p, i)

-- The builder for the RPT part of the group, or no builder where the group has no such part.
pub find_rpt_ub : GroupConfig → UpdatePacker → Run (UpdatePacker × Option ℕ)
unfolding find_loop
find_rpt_ub ge p = elim ge.rpt [
  | none ↦ done (p, none)
  | some rpt ↦ do (p', k) ← find_loop (length p.ubq + 2) (rpt_size rpt) p p.start; done (p', some k)
]

-- The variables of the loop of `fitGroup`; `rest` is `spt` from `srci` on.
pub record FitState : Type 0 where
  pub packer : UpdatePacker
  pub cursor : ℕ
  pub rpt_ub : Option ℕ
  pub rest : List IPv4Address

-- `c.addr() == rptUb`
abbrev pub is_at : Option ℕ → ℕ → Bool
is_at none i = false
is_at (some k) i = k == i

-- The sources of the group that go beside the RP and the RPT-pruned sources.
abbrev pub rpt_entry : IPv4Address → List IPv4Address → Rpt → GroupEntryBuilder
rpt_entry group srcs rpt =
    prune_all true (join (join_all (GroupEntryBuilder.make group) srcs) rpt.rp true true) rpt.prunes

abbrev pub spt_entry : IPv4Address → List IPv4Address → GroupEntryBuilder
spt_entry group srcs = join_all (GroupEntryBuilder.make group) srcs

pub fit_spt : GroupConfig → FitState → UpdateBuilder → Run FitState
fit_spt ge st ub =
    let cnt = min (max_sources (remaining ub)) (length st.rest) in
    let placed = Cursor.add st.packer st.cursor (spt_entry ge.group (take cnt st.rest)) >>= λ p.
    done (record st { packer = p; rest = drop cnt st.rest }) in
    if ltb 0 cnt then placed else done st

pub fit_rpt : GroupConfig → FitState → UpdateBuilder → Run FitState
fit_rpt ge st ub = do
  rpt ← value ge.rpt
  let room = sub64 (remaining ub) (src_a_size * (length rpt.prunes + 1))
  let cnt = min (max_sources room) (length st.rest)
  p ← Cursor.add st.packer st.cursor (rpt_entry ge.group (take cnt st.rest) rpt)
  done (record { packer = p; cursor = st.cursor; rpt_ub = none; rest = drop cnt st.rest })

-- `++c`
pub advance : FitState → FitState
advance st = record st {
  packer = (next st.packer st.cursor).0;
  cursor = (next st.packer st.cursor).1;
}

pub fit_step : GroupConfig → FitState → Run FitState
unfolding fit_spt fit_rpt advance
fit_step ge st = do
  ub ← at st.packer st.cursor
  st' ← if is_at st.rpt_ub st.cursor then fit_rpt ge st ub else fit_spt ge st ub
  done (advance st')

pub fit_loop : ℕ → GroupConfig → FitState → Run FitState
unfolding fit_step
fit_loop zero ge st = elim st.rest [ [] ↦ done st | _ ∷ _ ↦ stuck ]
fit_loop (suc fuel) ge st = elim st.rest [
  | [] ↦ done st
  | _ ∷ _ ↦ fit_step ge st >>= fit_loop fuel ge
]

-- What is left after the loop: the RPT part, if the cursor has not passed its builder.
pub fit_finish : GroupConfig → FitState → Run UpdatePacker
fit_finish ge st = elim st.rpt_ub [
  | none ↦ done st.packer
  | some k ↦ do
    rpt ← value ge.rpt
    let geb = rpt_entry ge.group [] rpt
    ub ← at st.packer k
    ub' ← UpdateBuilder.add ub (GroupEntryBuilder.build geb) (GroupEntryBuilder.size geb)
    done (record st.packer { ubq = set st.packer.ubq k ub' })
]

pub fit_group : GroupConfig → UpdatePacker → Run UpdatePacker
unfolding find_rpt_ub fit_loop fit_finish
fit_group ge p = do
  (p', rpt_ub) ← find_rpt_ub ge p
  st ←
      fit_loop (length p'.ubq + length ge.spt + 2) ge
        (record { packer = p'; cursor = p'.start; rpt_ub = rpt_ub; rest = ge.spt })
  fit_finish ge st

pub fit_groups : List GroupConfig → UpdatePacker → Run UpdatePacker
unfolding fit_group
fit_groups [] p = done p
fit_groups (ge ∷ rest) p = fit_group ge p >>= fit_groups rest

-- `build()`: the last builder is left out if it is empty.
unfoldable pub build : UpdatePacker → Run (List Update)
build p = do
  ub ← at p (length p.ubq - 1)
  let res_sz = if empty ub then length p.ubq - 1 else length p.ubq
  done (map (λ b. UpdateBuilder.build b) (take res_sz p.ubq))

unfoldable pub pack : JpConfig → Run (List Update)
unfolding init fit_groups build
pack cfg = fit_groups cfg.groups init >>= build
