-- ===== src/Pimsm/Cursor.antt =====
-- apps/pimc/pimsm/UBCursor.hpp, over the two members that a packer shares with its cursors: the
-- queue of update builders and the index of the first one that may have room. A cursor is its
-- index; a pointer into the queue is the index that it points at.
use pimc_toolkit.Common.{
  ℕ, zero, suc, ◌+◌, ◌-◌, ◌≤◌, ◌<◌, ◌≡◌, refl, inl, inr, List, [], ◌∷◌, ◌++◌, Bool, true, false,
  some, Bool-cases, leb, ◌==◌, if◌then◌else◌, length, get_elem?, set, length-set, get_elem?_below,
  lt_of_get_elem?, All, All-get, All-set, All-append, Run, done, raised, fault, stuck, ◌>>=◌, deref,
  length-append, arith, Holds, Holds->>=, Option-cases,
}
use pimc_toolkit.Pimsm.Update.{byte_size}
use pimc_toolkit.Pimsm.GroupEntryBuilder.{GroupEntryBuilder}
use pimc_toolkit.Pimsm.GroupEntryBuilder
use pimc_toolkit.Pimsm.UpdateBuilder.{
  UpdateBuilder, IsSound, grown, grown-IsSound, make-IsSound, remaining_lem, full, remaining,
}
use pimc_toolkit.Pimsm.UpdateBuilder

pub record UpdatePacker : Type 0 where
  pub ubq : List UpdateBuilder
  pub start : ℕ

-- `operator ++`: past the end, a new builder is appended.
unfoldable pub next : UpdatePacker → ℕ → UpdatePacker × ℕ
next p i = (
  if leb (length p.ubq) (suc i) then record p { ubq = p.ubq ++ (UpdateBuilder.make ∷ []) } else p,
  suc i,
)

-- `operator ->`
abbrev pub at : UpdatePacker → ℕ → Run UpdateBuilder
at p i = deref (get_elem? p.ubq i)

-- The loop of `updateStart` over `n` builders from `j` on, with whether it ran to its end.
start_loop : ℕ → List UpdateBuilder → ℕ → ℕ → Run (ℕ × Bool)
start_loop zero ubq j start = done (start, true)
start_loop (suc n) ubq j start = do
  ub ← deref (get_elem? ubq j)
  let rest = start_loop n ubq (j + 1) j
  if full ub then rest else done (start, false)

grow_at_end : UpdatePacker → UpdatePacker
grow_at_end p =
    if p.start == length p.ubq then record p { ubq = p.ubq ++ (UpdateBuilder.make ∷ []) } else p

unfoldable pub update_start : UpdatePacker → ℕ → Run UpdatePacker
unfolding start_loop grow_at_end
update_start p i = do
  (start, ended) ← start_loop (suc i - p.start) p.ubq p.start p.start
  let p' = record p { start = start }
  done (if ended then grow_at_end p' else p')

unfoldable pub add : UpdatePacker → ℕ → GroupEntryBuilder → Run UpdatePacker
unfolding update_start
add p i geb = do
  ub ← at p i
  ub' ← UpdateBuilder.add ub (GroupEntryBuilder.build geb) (GroupEntryBuilder.size geb)
  update_start (record p { ubq = set p.ubq i ub' }) i

-- Every builder is sound, and `start` points at one.
pub record IsValid (p : UpdatePacker) : Type 0 where
  pub sound : All IsSound p.ubq
  pub in_range : p.start < length p.ubq

pub next_within : (p : UpdatePacker) (i : ℕ) → suc i < length p.ubq → next p i ≡ (p, suc i)
unfolding next
next_within p i h = ground arith

-- At the last builder, a cursor that moves on appends a fresh one.
pub next_end :
    (p : UpdatePacker) (i : ℕ)
    → suc i ≡ length p.ubq
    → next p i ≡ (record p { ubq = p.ubq ++ (UpdateBuilder.make ∷ []) }, suc i)
unfolding next
next_end p i h = ground arith

pub next-IsValid : (p : UpdatePacker) (i : ℕ) → IsValid p → IsValid (next p i).0
unfolding next
next-IsValid p i v = elim (Bool-cases (leb (length p.ubq) (suc i))) [
  | inl e ↦ rw e (record {
    sound = All-append IsSound p.ubq _ v.sound (make-IsSound, tt);
    in_range = omega (arith, length-append p.ubq (UpdateBuilder.make ∷ []), v.in_range);
  })
  | inr e ↦ rw e v
]

start_loop_lem :
    (n : ℕ) (ubq : List UpdateBuilder) (j start : ℕ)
    → j + n ≤ length ubq
    → start < length ubq
    → (s : ℕ) × (b : Bool) × (start_loop n ubq j start ≡ done (s, b)) × (s < length ubq)
unfolding start_loop
start_loop_lem zero ubq j start h k = (start, true, refl, k)
start_loop_lem (suc n) ubq j start h k =
    let (ub, e) = get_elem?_below ubq j (omega arith) in
    elim (Bool-cases (full ub)) [
      | inl f ↦
          let (s, b, r, l) = start_loop_lem n ubq (j + 1) j (omega arith) (omega arith) in
          (s, b, rw (e, f) r, l)
      | inr f ↦ (start, false, rw (e, f) refl, k)
    ]

-- `updateStart` reads no builder outside the queue and only moves `start`, within the queue.
pub update_start_lem :
    (p : UpdatePacker) (i : ℕ)
    → i < length p.ubq
    → p.start < length p.ubq
    → (s : ℕ) × (update_start p i ≡ done (record p { start = s })) × (s < length p.ubq)
unfolding update_start
update_start_lem p i h k =
    let (s, b, r, l) =
      start_loop_lem (suc i - p.start) p.ubq p.start p.start (omega arith) (omega arith) in
    (s, rw r (elim (Bool-cases b) [ inl e ↦ rw e (no_growth s l) | inr e ↦ rw e refl ]), l)
  where
    no_growth :
        (s : ℕ)
        → s < length p.ubq
        → done (grow_at_end (record p { start = s })) ≡ done (record p { start = s })
    no_growth s l = unfold grow_at_end in ground arith

-- An entry that fits the builder at the cursor is added to it, and only to it; `add` throws nothing.
pub add_lem :
    (p : UpdatePacker) (i : ℕ) (geb : GroupEntryBuilder) (ub : UpdateBuilder)
    → IsValid p
    → get_elem? p.ubq i ≡ some ub
    → byte_size (GroupEntryBuilder.build geb) ≤ remaining ub
    → (p' : UpdatePacker) × (add p i geb ≡ done p')
      × (p'.ubq ≡ set p.ubq i (grown ub (GroupEntryBuilder.build geb)))
      × IsValid p'
unfolding add
add_lem p i geb ub v e h =
    let ge = GroupEntryBuilder.build geb in
    let sound = All-get IsSound p.ubq i ub v.sound e in
    let q = record p { ubq = set p.ubq i (grown ub ge) } in
    let below = lt_of_get_elem? p.ubq i ub e in
    let (s, r, l) =
      update_start_lem q i (omega (arith, length-set p.ubq i (grown ub ge)))
        (omega (arith, length-set p.ubq i (grown ub ge), v.in_range)) in
    (
      record q { start = s },
      rw
          (
            e,
            GroupEntryBuilder.size_lem geb (omega (arith, remaining_lem ub sound)),
            UpdateBuilder.add_lem ub ge sound h,
          )
          r,
      refl,
      record {
        sound = All-set IsSound p.ubq i _ v.sound (grown-IsSound ub ge sound h);
        in_range = l;
      },
    )

-- What holds of the builders of the queue and of a fresh one holds after `updateStart`.
module _ {ℓ} (P : UpdateBuilder → Type ℓ) (fresh : P UpdateBuilder.make) where
  grow_at_end-All : (p : UpdatePacker) → All P p.ubq → All P (grow_at_end p).ubq
  unfolding grow_at_end
  grow_at_end-All p h = elim (Bool-cases (p.start == length p.ubq)) [
    | inl e ↦ rw e (All-append P p.ubq (UpdateBuilder.make ∷ []) h (fresh, tt))
    | inr e ↦ rw e h
  ]

  pub next-All : (p : UpdatePacker) (i : ℕ) → All P p.ubq → All P (next p i).0.ubq
  unfolding next
  next-All p i h = elim (Bool-cases (leb (length p.ubq) (suc i))) [
    | inl e ↦ rw e (All-append P p.ubq (UpdateBuilder.make ∷ []) h (fresh, tt))
    | inr e ↦ rw e h
  ]

  pub at-All : (p : UpdatePacker) (i : ℕ) → All P p.ubq → Holds P (at p i)
  at-All p i h = elim (Option-cases (get_elem? p.ubq i)) [
    | inl e ↦ rw e tt
    | inr (ub, e) ↦ rw e (All-get P p.ubq i ub h e)
  ]

  pub update_start-All :
      (p : UpdatePacker) (i : ℕ) → All P p.ubq → Holds (λ p'. All P p'.ubq) (update_start p i)
  unfolding update_start
  update_start-All p i h =
      Holds->>= (λ (r : ℕ × Bool). Unit {0}) (λ p'. All P p'.ubq)
        (start_loop (suc i - p.start) p.ubq p.start p.start) _
        (any (start_loop (suc i - p.start) p.ubq p.start p.start)) (λ r _. chosen r)
    where
      any : (r : Run (ℕ × Bool)) → Holds (λ (r : ℕ × Bool). Unit {0}) r
      any (done a) = tt
      any (raised e) = tt
      any fault = tt
      any stuck = tt

      chosen :
          (r : ℕ × Bool)
          → All P
              (if r.1 then grow_at_end (record p { start = r.0 }) else record p { start = r.0 }).ubq
      chosen (s, true) = grow_at_end-All (record p { start = s }) h
      chosen (s, false) = h

  -- The same for `add`, where it holds of the builder that has grown.
  pub add-All :
      (p : UpdatePacker) (i : ℕ) (geb : GroupEntryBuilder)
      → All P p.ubq
      → ((ub : UpdateBuilder)
          → P ub
          → Holds P
              (UpdateBuilder.add ub (GroupEntryBuilder.build geb) (GroupEntryBuilder.size geb)))
      → Holds (λ p'. All P p'.ubq) (add p i geb)
  unfolding add
  add-All p i geb h k =
      Holds->>= P (λ p'. All P p'.ubq) (at p i) _ (at-All p i h)
        (λ ub u.
          Holds->>= P (λ p'. All P p'.ubq) _ _ (k ub u)
            (λ ub' u'.
              update_start-All (record p { ubq = set p.ubq i ub' }) i (All-set P p.ubq i ub' h u')))
