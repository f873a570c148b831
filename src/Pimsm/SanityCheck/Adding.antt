-- ===== src/Pimsm/SanityCheck/Adding.antt =====
-- One entry added to the converter of its group: no error, where no source comes twice.
use pimc_toolkit.Common.{
  ℕ, ◌+◌, ◌≤◌, ◌≡◌, refl, List, [], ◌∷◌, true, false, Option, none, some, not, min, ◌==◌, ◌&&◌,
  if◌then◌else◌, Bool-cases, Option-cases, inl, inr, sum_of, All, length, arith,
}
use pimc_toolkit.Net.Address.{IPv4Address}
use pimc_toolkit.Pimsm.Update.{Source, GroupEntry}
use pimc_toolkit.Pimsm.Pack.Built.{is_wild, IsJoin, IsPrune, IsBuilt}
use pimc_toolkit.Pimsm.SanityCheck.Sets.{
  is_at, count, contains, contains-count, emplace, emplace_new, count-emplace,
}
use pimc_toolkit.Pimsm.SanityCheck.Convert.{
  GroupEntryConverter, has_rp, add_rp, add_spt, add_joins, add_prune, add_prunes, add_all_prunes,
  add,
}

-- Weights of the sources of an entry: a source by its address, joined on the SPT, joined as the RP, and
-- pruned.
abbrev pub spt_at : IPv4Address → Source → ℕ
spt_at a s = if s.wildcard then 0 else is_at a s.addr

abbrev pub rp_at : IPv4Address → Source → ℕ
rp_at a s = if s.wildcard then is_at a s.addr else 0

abbrev pub pruned_at : IPv4Address → Source → ℕ
pruned_at a s = is_at a s.addr

abbrev pub rp_is : IPv4Address → Option IPv4Address → ℕ
rp_is a none = 0
rp_is a (some r) = is_at a r

abbrev pub rp_num : Option IPv4Address → ℕ
rp_num none = 0
rp_num (some r) = 1

-- The converter has taken sources that weigh as `js` and `ps` say.
pub record Took (js ps : List Source) (c c' : GroupEntryConverter) : Type 0 where
  pub clean : c'.base.failed ≡ false
  pub joins : (a : IPv4Address) → count a c'.joins ≡ count a c.joins + sum_of (spt_at a) js
  pub prunes : (a : IPv4Address) → count a c'.prunes ≡ count a c.prunes + sum_of (pruned_at a) ps
  pub rp : (a : IPv4Address) → rp_is a c'.rp ≡ rp_is a c.rp + sum_of (rp_at a) js
  pub rps : rp_num c'.rp ≡ rp_num c.rp + sum_of is_wild js

add_rp_lem :
    (n : ℕ) (se : Source) (c : GroupEntryConverter)
    → se.rpt ≡ true
    → rp_num c.rp ≡ 0
    → add_rp n se c ≡ record c { rp = some se.addr }
unfolding add_rp
add_rp_lem n se c h k = elim (Option-cases c.rp) [
  | inl e ↦ rw (h, e) refl
  | inr (r, e) ↦ absurd (ground arith)
]

add_spt_lem :
    (n : ℕ) (se : Source) (c : GroupEntryConverter)
    → se.rpt ≡ false
    → count se.addr c.joins ≡ 0
    → count se.addr c.prunes ≡ 0
    → add_spt n se c ≡ record c { joins = (emplace se.addr c.joins).0 }
unfolding add_spt
add_spt_lem n se c h k l =
    let absent : contains se.addr c.prunes ≡ false =
      ground (arith, contains-count se.addr c.prunes) in
    rw (h, emplace_new se.addr c.joins k, absent) refl

add_prune_lem :
    (n : ℕ) (se : Source) (c : GroupEntryConverter)
    → IsPrune se
    → count se.addr c.joins ≡ 0
    → count se.addr c.prunes ≡ 0
    → add_prune n se c ≡ record c { prunes = (emplace se.addr c.prunes).0 }
unfolding add_prune
add_prune_lem n se c h k l =
    let absent : contains se.addr c.joins ≡ false =
      ground (arith, contains-count se.addr c.joins) in
    rw (h.0, h.1, emplace_new se.addr c.prunes l, absent) refl

add_joins_lem :
    (n : ℕ) (js : List Source) (c : GroupEntryConverter)
    → All IsJoin js
    → c.base.failed ≡ false
    → ((a : IPv4Address) → count a c.joins + count a c.prunes + sum_of (spt_at a) js ≤ 1)
    → rp_num c.rp + sum_of is_wild js ≤ 1
    → Took js [] c (add_joins n js c)
unfolding add_joins
add_joins_lem n [] c h f once one = record {
  clean = f;
  joins = λ a. omega arith;
  prunes = λ a. omega arith;
  rp = λ a. omega arith;
  rps = omega arith;
}
add_joins_lem n (se ∷ js) c h f once one = elim (Bool-cases se.wildcard) [
  | inl e ↦
      let first : rp_num c.rp ≡ 0 = ground arith in
      let rpt : se.rpt ≡ true = ground (arith, h.0) in
      let t =
        add_joins_lem n js (record c { rp = some se.addr }) h.1 f (λ a. ground (arith, once a))
          (ground arith) in
      rw (e, add_rp_lem n se c rpt first)
        (record {
          clean = t.clean;
          joins = λ a. ground (arith, t.joins a);
          prunes = λ a. ground (arith, t.prunes a);
          rp = λ a. ground (arith, t.rp a, first, no_rp a c.rp first);
          rps = ground (arith, t.rps);
        })
  | inr e ↦
      let new : count se.addr c.joins + count se.addr c.prunes ≡ 0 = ground (arith, once se.addr) in
      let rpt : se.rpt ≡ false = ground (arith, h.0) in
      let t =
        add_joins_lem n js (record c { joins = (emplace se.addr c.joins).0 }) h.1 f
          (λ a. ground (arith, once a, count-emplace a se.addr c.joins)) (ground arith) in
      rw (e, add_spt_lem n se c rpt (omega (arith, new)) (omega (arith, new)))
        (record {
          clean = t.clean;
          joins = λ a. ground (arith, t.joins a, count-emplace a se.addr c.joins);
          prunes = λ a. ground (arith, t.prunes a);
          rp = λ a. ground (arith, t.rp a);
          rps = ground (arith, t.rps);
        })
]
  where
    no_rp : (a : IPv4Address) (o : Option IPv4Address) → rp_num o ≡ 0 → rp_is a o ≡ 0
    no_rp a none k = refl
    no_rp a (some r) k = absurd (omega arith)

add_prunes_lem :
    (n : ℕ) (ps : List Source) (c : GroupEntryConverter)
    → All IsPrune ps
    → c.base.failed ≡ false
    → ((a : IPv4Address) → count a c.joins + count a c.prunes + sum_of (pruned_at a) ps ≤ 1)
    → Took [] ps c (add_prunes n ps c)
unfolding add_prunes
add_prunes_lem n [] c h f once = record {
  clean = f;
  joins = λ a. omega arith;
  prunes = λ a. omega arith;
  rp = λ a. omega arith;
  rps = omega arith;
}
add_prunes_lem n (se ∷ ps) c h f once =
    let new : count se.addr c.joins + count se.addr c.prunes ≡ 0 = ground (arith, once se.addr) in
    let t =
      add_prunes_lem n ps (record c { prunes = (emplace se.addr c.prunes).0 }) h.1 f
        (λ a. omega (arith, once a, count-emplace a se.addr c.prunes (omega (arith, new)))) in
    rw (add_prune_lem n se c h.0 (omega (arith, new)) (omega (arith, new))) (record {
      clean = t.clean;
      joins = λ a. omega (arith, t.joins a);
      prunes =
          λ a. omega (arith, t.prunes a, count-emplace a se.addr c.prunes (omega (arith, new)));
      rp = λ a. omega (arith, t.rp a);
      rps = omega (arith, t.rps);
    })

-- The test before the pruned sources lets them pass: they stand beside the RP.
add_all_prunes_lem :
    (n : ℕ) (ps : List Source) (c : GroupEntryConverter)
    → min 1 (length ps) ≤ rp_num c.rp
    → add_all_prunes n ps c ≡ add_prunes n ps c
unfolding add_all_prunes
add_all_prunes_lem n ps c h = rw (passed c.rp ps h) refl
  where
    passed :
        (o : Option IPv4Address) (ps : List Source)
        → min 1 (length ps) ≤ rp_num o
        → (not (has_rp o) && not (length ps == 0)) ≡ false
    passed (some r) ps h = refl
    passed none [] h = refl
    passed none (p ∷ ps) h = absurd (omega arith)

-- An entry in the packer's form is taken without an error, where the converter has neither its
-- sources nor, with an RP in the entry, an RP.
pub add_lem :
    (n : ℕ) (ge : GroupEntry) (c : GroupEntryConverter)
    → IsBuilt ge
    → c.base.failed ≡ false
    → ((a : IPv4Address)
        → count a c.joins
            + count a c.prunes
            + sum_of (spt_at a) ge.joins
            + sum_of (pruned_at a) ge.prunes
          ≤ 1)
    → rp_num c.rp + sum_of is_wild ge.joins ≤ 1
    → Took ge.joins ge.prunes c (add n ge c)
unfolding add
add_lem n ge c b f once one =
    let c1 = add_joins n ge.joins c in
    let t = add_joins_lem n ge.joins c b.joins f (λ a. omega (arith, once a)) one in
    let u =
      add_prunes_lem n ge.prunes c1 b.prunes t.clean
        (λ a. omega (arith, once a, t.joins a, t.prunes a)) in
    rw (add_all_prunes_lem n ge.prunes c1 (omega (arith, t.rps, b.beside_rp))) (record {
      clean = u.clean;
      joins = λ a. omega (arith, t.joins a, u.joins a);
      prunes = λ a. omega (arith, t.prunes a, u.prunes a);
      rp = λ a. omega (arith, t.rp a, u.rp a);
      rps = omega (arith, t.rps, u.rps);
    })
