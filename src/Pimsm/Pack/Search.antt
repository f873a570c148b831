-- ===== src/Pimsm/Pack/Search.antt =====
-- The search for the builder that takes the RPT part of a group.
use pimc_toolkit.Common.{
  ℕ, zero, suc, ◌+◌, ◌*◌, ◌^◌, ◌≤◌, ◌<◌, ◌≡◌, refl, inl, inr, List, [], ◌∷◌, ◌++◌, Option, none,
  some, true, Bool-cases, Option-cases, ltb, length, get_elem?, get_elem?_below,
  get_elem?-append_right, length-append, All-get, done, stuck, arith,
}
use native.Mathlib.Decide.{dec_lt}
use pimc_toolkit.Net.Address.{IPv4Address}
use pimc_toolkit.Pimsm.Params.{jp_capacity, max_prune_sgrpt_len}
use pimc_toolkit.Pimsm.Config.{Rpt, GroupConfig}
use pimc_toolkit.Pimsm.Update.{Source}
use pimc_toolkit.Pimsm.UpdateBuilder.{
  UpdateBuilder, IsSound, remaining, remaining_lem, make-IsSound,
}
use pimc_toolkit.Pimsm.UpdateBuilder
use pimc_toolkit.Pimsm.Cursor.{UpdatePacker, IsValid, next_within, next_end, next-IsValid}
use pimc_toolkit.Pimsm.Pack.{find_loop, find_rpt_ub, rpt_size}
use pimc_toolkit.Pimsm.Pack.Weight.{queue_weight, owed, rpt_part, weight-append_make}

-- The builder at `k` has `sz` bytes left.
pub record HasRoom (ubq : List UpdateBuilder) (k sz : ℕ) : Type 0 where
  pub ub : UpdateBuilder
  pub there : get_elem? ubq k ≡ some ub
  pub room : sz ≤ remaining ub

-- The number of RPT-pruned sources of a group is within the limit that the configuration loader sets.
abbrev pub PrunesFit : Option Rpt → Type 0
PrunesFit none = Unit {0}
PrunesFit (some rpt) = length rpt.prunes ≤ max_prune_sgrpt_len

-- Where the RPT part is still to be placed, its builder lies at or behind `i` and has room for it;
-- else nothing is owed.
abbrev pub Pending : GroupConfig → List UpdateBuilder → ℕ → Option ℕ → Type 0
Pending ge ubq i none = Unit {0}
Pending ge ubq i (some k) =
    (rpt : Rpt) × (ge.rpt ≡ some rpt) × (i ≤ k) × HasRoom ubq k (12 + 8 * (length rpt.prunes + 1))

module _ (w v : IPv4Address → Source → ℕ) where
  -- What a search from `i` that started on `p` has found.
  pub record Found (p : UpdatePacker) (i sz : ℕ) (p' : UpdatePacker) (k : ℕ) : Type 0 where
    pub valid : IsValid p'
    pub same_start : p'.start ≡ p.start
    pub same_weight : queue_weight w v p'.ubq ≡ queue_weight w v p.ubq
    pub after : i ≤ k
    pub has_room : HasRoom p'.ubq k sz

  -- A fresh builder at the end of the queue is taken at once.
  find_fresh :
      (fuel sz : ℕ) (p : UpdatePacker) (i : ℕ)
      → IsValid p
      → get_elem? p.ubq i ≡ some UpdateBuilder.make
      → sz ≤ jp_capacity
      → 0 < fuel
      → (find_loop fuel sz p i ≡ done (p, i)) × Found p i sz p i
  unfolding find_loop
  find_fresh zero sz p i val e h pos = absurd (omega arith)
  find_fresh (suc fuel) sz p i val e h pos =
      let r : remaining UpdateBuilder.make ≡ jp_capacity =
        omega (arith, remaining_lem UpdateBuilder.make make-IsSound) in
      (
        rw e (ground arith),
        record {
          valid = val;
          same_start = refl;
          same_weight = refl;
          after = omega arith;
          has_room = record { ub = UpdateBuilder.make; there = e; room = omega arith };
        },
      )

  pub find_loop_lem :
      (fuel sz : ℕ) (p : UpdatePacker) (i : ℕ)
      → IsValid p
      → i < length p.ubq
      → sz ≤ jp_capacity
      → length p.ubq + 1 < fuel + i
      → (p' : UpdatePacker) × (k : ℕ) × (find_loop fuel sz p i ≡ done (p', k)) × Found p i sz p' k
  unfolding find_loop
  find_loop_lem zero sz p i val lt h hf = absurd (omega arith)
  find_loop_lem (suc fuel) sz p i val lt h hf =
      let (ub, e) = get_elem?_below p.ubq i lt in
      elim (Bool-cases (ltb (remaining ub) sz)) [
        | inl small ↦ elim (dec_lt (suc i) (length p.ubq)) [
          | yes inside ↦
              let (p', k, r, f) = find_loop_lem fuel sz p (suc i) val inside h (omega arith) in
              (
                p',
                k,
                rw (e, small, next_within p i inside) r,
                record {
                  valid = f.valid;
                  same_start = f.same_start;
                  same_weight = f.same_weight;
                  after = omega (arith, f.after);
                  has_room = f.has_room;
                },
              )
          | no last ↦
              let end : suc i ≡ length p.ubq = omega arith in
              let q = record p { ubq = p.ubq ++ (UpdateBuilder.make ∷ []) } in
              let (r, f) =
                find_fresh fuel sz q (suc i) (rw (next_end p i end) at (next-IsValid p i val))
                  (get_elem?-append_right p.ubq UpdateBuilder.make (suc i) end) h (omega arith) in
              (
                q,
                suc i,
                rw (e, small, next_end p i end) r,
                record {
                  valid = f.valid;
                  same_start = refl;
                  same_weight = weight-append_make w v p.ubq;
                  after = omega arith;
                  has_room = f.has_room;
                },
              )
        ]
        | inr big ↦ (
          p,
          i,
          rw (e, big) refl,
          record {
            valid = val;
            same_start = refl;
            same_weight = refl;
            after = omega arith;
            has_room = record { ub = ub; there = e; room = ground arith };
          },
        )
      ]

  -- The builder that a group's RPT part goes into, where it has one.
  pub record FoundRpt (ge : GroupConfig) (p : UpdatePacker) (p' : UpdatePacker) (rpt_ub : Option ℕ)
      : Type 0 where
    pub valid : IsValid p'
    pub same_weight : queue_weight w v p'.ubq ≡ queue_weight w v p.ubq
    pub pending : Pending ge p'.ubq p'.start rpt_ub
    pub owes : owed w v ge rpt_ub ≡ rpt_part w v ge.group ge.rpt

  pub find_rpt_ub_lem :
      (ge : GroupConfig) (p : UpdatePacker)
      → IsValid p
      → PrunesFit ge.rpt
      → (p' : UpdatePacker) × (rpt_ub : Option ℕ) × (find_rpt_ub ge p ≡ done (p', rpt_ub))
        × FoundRpt ge p p' rpt_ub
  unfolding find_rpt_ub
  find_rpt_ub_lem ge p val fit = elim (Option-cases ge.rpt) [
    | inl none_ ↦ (
      p,
      none,
      rw none_ refl,
      record { valid = val; same_weight = refl; pending = tt; owes = rw none_ refl },
    )
    | inr (rpt, e) ↦
        let few : length rpt.prunes ≤ max_prune_sgrpt_len = rw e at fit in
        let (p', k, r, f) =
          find_loop_lem (length p.ubq + 2) (rpt_size rpt) p p.start val val.in_range (omega arith)
            (omega arith) in
        (
          p',
          some k,
          rw (e, r) refl,
          record {
            valid = f.valid;
            same_weight = f.same_weight;
            pending = (
              rpt,
              e,
              omega (arith, f.after, f.same_start),
              record {
                ub = f.has_room.ub;
                there = f.has_room.there;
                room = omega (arith, f.has_room.room);
              },
            );
            owes = refl;
          },
        )
  ]

remaining-le : (ub : UpdateBuilder) → IsSound ub → remaining ub ≤ jp_capacity
remaining-le ub s = omega (arith, remaining_lem ub s)

-- Without the limit the search does not end: a group whose RPT part is larger than a whole message
-- makes it append one builder after the other, whatever the fuel.
pub find_loop_diverges :
    (fuel sz : ℕ) (p : UpdatePacker) (i : ℕ)
    → IsValid p
    → i < length p.ubq
    → jp_capacity < sz
    → find_loop fuel sz p i ≡ stuck
unfolding find_loop
find_loop_diverges zero sz p i val lt h = refl
find_loop_diverges (suc fuel) sz p i val lt h =
    let (ub, e) = get_elem?_below p.ubq i lt in
    let small : ltb (remaining ub) sz ≡ true =
      ground (arith, remaining-le ub (All-get IsSound p.ubq i ub val.sound e)) in
    elim (dec_lt (suc i) (length p.ubq)) [
      | yes inside ↦
          rw (e, small, next_within p i inside) (find_loop_diverges fuel sz p (suc i) val inside h)
      | no last ↦
          let end : suc i ≡ length p.ubq = omega arith in
          let q = record p { ubq = p.ubq ++ (UpdateBuilder.make ∷ []) } in
          rw (e, small, next_end p i end)
            (find_loop_diverges fuel sz q (suc i) (rw (next_end p i end) at (next-IsValid p i val))
              (omega (arith, length-append p.ubq (UpdateBuilder.make ∷ []))) h)
    ]

-- In a valid queue no builder is found for the RPT part of a group with more than 180 and fewer
-- than 2 ^ 60 pruned sources: whatever fuel it is given, the search uses it up.
pub find_rpt_ub_limit :
    (rpt : Rpt) (p : UpdatePacker) (fuel : ℕ)
    → IsValid p
    → max_prune_sgrpt_len < length rpt.prunes
    → length rpt.prunes < 2 ^ 60
    → find_loop fuel (rpt_size rpt) p p.start ≡ stuck
find_rpt_ub_limit rpt p fuel val many few =
    find_loop_diverges fuel (rpt_size rpt) p p.start val val.in_range (omega arith)
