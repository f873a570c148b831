-- ===== src/Pimsm/InversePack/Examples.antt =====
-- Inverse packing of small configurations, the lost RP, and the theorems at these inputs.
use pimc_toolkit.Common.{
  ℕ, zero, suc, ◌≤◌, ◌≡◌, refl, List, [], ◌∷◌, All, some, map, done, arith, if◌then◌else◌, ◌==◌,
}
use pimc_toolkit.Net.Address.{IPv4Address}
use pimc_toolkit.Pimsm.Config.{GroupConfig, JpConfig}
use pimc_toolkit.Pimsm.Update.{Source, Update}
use pimc_toolkit.Pimsm.GroupEntryBuilder
use pimc_toolkit.Pimsm.GroupEntryBuilder.{spt_source, rp_source, sgrpt_source}
use pimc_toolkit.Pimsm.UpdateBuilder.{UpdateBuilder}
use pimc_toolkit.Pimsm.UpdateBuilder
use pimc_toolkit.Pimsm.Cursor.{UpdatePacker, IsValid}
use pimc_toolkit.Pimsm.Cursor
use pimc_toolkit.Pimsm.Pack.{max_sources}
use pimc_toolkit.Pimsm.Pack.Weight.{queue_weight, updates_weight}
use pimc_toolkit.Pimsm.InversePack.{inverse_pack, fit_inverse_group}
use pimc_toolkit.Pimsm.InversePack.Correct.{inverse_pack_bounds}
use pimc_toolkit.Pimsm.InversePack.LostRp.{lost_rp}
use pimc_toolkit.Pimsm.Pack.Correct.{Fits}
use pimc_toolkit.Pimsm.InversePack.Correct.{inverse_pack_total}

abbrev one_group : JpConfig
one_group = record {
  groups =
      record { group = 1; rpt = some (record { rp = 10; prunes = 11 ∷ [] }); spt = 20 ∷ 21 ∷ [] }
      ∷ [];
}

abbrev undone : List Update
undone =
    record {
      groups =
          record {
            group = 1;
            joins = [];
            prunes = rp_source 10 ∷ spt_source 20 ∷ spt_source 21 ∷ [];
          }
          ∷ [];
    }
    ∷ []

inverse_pack-one_group : inverse_pack one_group ≡ done undone
unfolding inverse_pack max_sources GroupEntryBuilder.size GroupEntryBuilder.prune_all
    UpdateBuilder.add UpdateBuilder.remaining UpdateBuilder.full UpdateBuilder.empty Cursor.add
    Cursor.next
inverse_pack-one_group = refl

-- How often the RP of group 1 is pruned.
abbrev pruned_rp : IPv4Address → Source → ℕ
pruned_rp g s = if g == 1 then (if s.wildcard then 1 else 0) else 0

inverse_pack_total_example : (us : List Update) × (inverse_pack one_group ≡ done us) × All Fits us
inverse_pack_total_example = inverse_pack_total one_group

inverse_pack_bounds_example :
    (0 ≤ updates_weight (λ _ _. 0) pruned_rp undone)
    × (updates_weight (λ _ _. 0) pruned_rp undone ≤ 1)
inverse_pack_bounds_example =
    inverse_pack_bounds (λ _ _. 0) pruned_rp one_group undone inverse_pack-one_group

abbrev addresses : ℕ → List IPv4Address
addresses zero = []
addresses (suc n) = suc n ∷ addresses n

-- A queue whose first builder holds a group with 179 sources: 22 bytes are left.
abbrev nearly_full : UpdateBuilder
nearly_full = record {
  groups = record { group = 9; joins = []; prunes = map spt_source (addresses 179) } ∷ [];
  sz = 1444;
}

abbrev nearly_full_queue : UpdatePacker
nearly_full_queue = record { ubq = nearly_full ∷ []; start = 0 }

abbrev with_rp : GroupConfig
with_rp = record { group = 1; rpt = some (record { rp = 10; prunes = [] }); spt = 20 ∷ [] }

nearly_full_queue-IsValid : IsValid nearly_full_queue
nearly_full_queue-IsValid = record {
  sound = (record { exact = refl; within = omega arith }, tt);
  in_range = omega arith;
}

-- No RP is pruned at all.
lost_rp_example :
    (p' : UpdatePacker) × (fit_inverse_group with_rp nearly_full_queue ≡ done p')
    × (queue_weight (λ _ _. 0) pruned_rp p'.ubq ≡ 0)
unfolding UpdateBuilder.remaining
lost_rp_example =
    lost_rp (λ _ _. 0) pruned_rp with_rp nearly_full_queue nearly_full
      (record { rp = 10; prunes = [] }) 20 [] nearly_full_queue-IsValid refl (omega arith)
      (omega arith) refl refl
