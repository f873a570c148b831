-- ===== src/Pimsm/Pack/Reserved.antt =====
-- The builder that is reserved for the RPT part of a group, while other builders change.
use pimc_toolkit.Common.{
  ℕ, suc, ◌+◌, ◌*◌, ◌≤◌, ◌≡◌, refl, ◌∙◌, List, [], ◌∷◌, ◌++◌, Option, none, some, true, false,
  length, get_elem?, set, get_elem?-append_left, get_elem?-set_ne, lt_of_get_elem?, arith,
}
use pimc_toolkit.Net.Address.{IPv4Address}
use pimc_toolkit.Pimsm.Config.{Rpt, GroupConfig}
use pimc_toolkit.Pimsm.Update.{Source}
use pimc_toolkit.Pimsm.UpdateBuilder.{UpdateBuilder, remaining}
use pimc_toolkit.Pimsm.Pack.{is_at}
use pimc_toolkit.Pimsm.Pack.Search.{Pending}
use pimc_toolkit.Pimsm.Pack.Weight.{rpt_weight, owed}

module _ (ge : GroupConfig) where
  -- A reservation at another builder outlives a write at the cursor.
  pub Pending-set :
      (ubq : List UpdateBuilder) (i : ℕ) (b : UpdateBuilder) (rpt_ub : Option ℕ)
      → is_at rpt_ub i ≡ false
      → Pending ge ubq i rpt_ub
      → Pending ge (set ubq i b) (suc i) rpt_ub
  Pending-set ubq i b none off h = tt
  Pending-set ubq i b (some k) off (rpt, e, le, room) = (
    rpt,
    e,
    ground arith,
    record {
      ub = room.ub;
      there = get_elem?-set_ne ubq i k b (ground arith) ∙ room.there;
      room = room.room;
    },
  )

  pub Pending-later :
      (ubq : List UpdateBuilder) (i : ℕ) (rpt_ub : Option ℕ)
      → is_at rpt_ub i ≡ false
      → Pending ge ubq i rpt_ub
      → Pending ge ubq (suc i) rpt_ub
  Pending-later ubq i none off h = tt
  Pending-later ubq i (some k) off (rpt, e, le, room) = (rpt, e, ground arith, room)

  pub Pending-append :
      (ubq : List UpdateBuilder) (i : ℕ) (b : UpdateBuilder) (rpt_ub : Option ℕ)
      → Pending ge ubq i rpt_ub
      → Pending ge (ubq ++ (b ∷ [])) i rpt_ub
  Pending-append ubq i b none h = tt
  Pending-append ubq i b (some k) (rpt, e, le, room) = (
    rpt,
    e,
    le,
    record {
      ub = room.ub;
      there = get_elem?-append_left ubq _ k (lt_of_get_elem? ubq k room.ub room.there) ∙ room.there;
      room = room.room;
    },
  )

  pub Pending-far :
      (ubq : List UpdateBuilder) (i j : ℕ) (rpt_ub : Option ℕ)
      → length ubq ≤ j
      → Pending ge ubq i rpt_ub
      → is_at rpt_ub j ≡ false
  Pending-far ubq i j none far h = refl
  Pending-far ubq i j (some k) far (rpt, e, le, room) =
      ground (arith, lt_of_get_elem? ubq k room.ub room.there)

module _ (w v : IPv4Address → Source → ℕ) (ge : GroupConfig) where
  -- A reservation at the cursor names the RPT part and leaves room for it.
  pub Pending-here :
      (ubq : List UpdateBuilder) (i : ℕ) (rpt_ub : Option ℕ) (ub : UpdateBuilder)
      → is_at rpt_ub i ≡ true
      → get_elem? ubq i ≡ some ub
      → Pending ge ubq i rpt_ub
      → (rpt : Rpt) × (ge.rpt ≡ some rpt)
        × (12 + 8 * (length rpt.prunes + 1) ≤ remaining ub)
        × (owed w v ge rpt_ub ≡ rpt_weight w v ge.group rpt)
  Pending-here ubq i none ub on e h = cc
  Pending-here ubq i (some k) ub on e (rpt, r, le, room) =
      let there : some ub ≡ some room.ub = ground (arith, room.there) in
      (rpt, r, ground (arith, room.room, there), rw r refl)
