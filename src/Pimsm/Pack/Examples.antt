-- ===== src/Pimsm/Pack/Examples.antt =====
-- A small configuration, packed; and the theorems about `pack` at it.
use pimc_toolkit.Common.{
  zero, suc, stuck, ℕ, ◌≡◌, refl, List, [], ◌∷◌, All, true, some, none, done, arith, if◌then◌else◌,
  ◌==◌,
}
use pimc_toolkit.Net.Address.{IPv4Address}
use pimc_toolkit.Pimsm.Config.{JpConfig, Rpt}
use pimc_toolkit.Pimsm.Update.{Source, Update}
use pimc_toolkit.Pimsm.GroupEntryBuilder
use pimc_toolkit.Pimsm.GroupEntryBuilder.{spt_source, rp_source, sgrpt_source}
use pimc_toolkit.Pimsm.UpdateBuilder
use pimc_toolkit.Pimsm.Cursor
use pimc_toolkit.Pimsm.Pack.{pack, max_sources, find_loop, rpt_size, init}
use pimc_toolkit.Pimsm.Pack.Search.{find_rpt_ub_limit}
use pimc_toolkit.Pimsm.Pack.Weight.{updates_weight}
use pimc_toolkit.Pimsm.Pack.Correct.{Fits, pack_total, pack_exact, init-IsValid}

abbrev two_groups : JpConfig
two_groups = record {
  groups =
      record {
        group = 1;
        rpt = some (record { rp = 10; prunes = 11 ∷ 12 ∷ [] });
        spt = 20 ∷ 21 ∷ [];
      }
      ∷ record { group = 2; rpt = none; spt = 30 ∷ [] }
      ∷ [];
}

abbrev packed : List Update
packed =
    record {
      groups =
          record {
            group = 1;
            joins = spt_source 20 ∷ spt_source 21 ∷ rp_source 10 ∷ [];
            prunes = sgrpt_source true 11 ∷ sgrpt_source true 12 ∷ [];
          }
          ∷ record { group = 2; joins = spt_source 30 ∷ []; prunes = [] }
          ∷ [];
    }
    ∷ []

pack-two_groups : pack two_groups ≡ done packed
unfolding pack max_sources GroupEntryBuilder.size GroupEntryBuilder.join_all
    GroupEntryBuilder.prune_all UpdateBuilder.add UpdateBuilder.remaining UpdateBuilder.full
    UpdateBuilder.empty Cursor.add Cursor.next
pack-two_groups = refl

pack_total_example : (us : List Update) × (pack two_groups ≡ done us) × All Fits us
pack_total_example = pack_total two_groups (omega arith)

-- How often source 20 is joined for group 1.
abbrev joined_20 : IPv4Address → Source → ℕ
joined_20 g s = if g == 1 then (if s.addr == 20 then 1 else 0) else 0

pack_exact_example : updates_weight joined_20 (λ _ _. 0) packed ≡ 1
pack_exact_example = pack_exact joined_20 (λ _ _. 0) two_groups packed (omega arith) pack-two_groups

-- `n` addresses, from `n - 1` down.
addresses : ℕ → List IPv4Address
addresses zero = []
addresses (suc n) = n ∷ addresses n

abbrev too_many : Rpt
unfolding addresses
too_many = record { rp = 10; prunes = addresses 181 }

find_rpt_ub_limit_example : find_loop 1000 (rpt_size too_many) init 0 ≡ stuck
unfolding addresses init
find_rpt_ub_limit_example =
    find_rpt_ub_limit too_many init 1000 init-IsValid (omega arith) (omega arith)
