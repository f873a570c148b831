-- ===== src/Pimsm/UpdateBuilder.antt =====
-- `UpdateBuilderImpl` of apps/pimc/pimsm/Pack.hpp, and `InverseUpdateBuilderImpl` of
-- apps/pimc/pimsm/InversePack.hpp, which has the same members.
use pimc_toolkit.Common.{
  ℕ, ◌+◌, ◌%◌, ◌^◌, ◌≤◌, ◌<◌, ◌≡◌, List, [], ◌∷◌, ◌++◌, Bool, true, false, ltb, if◌then◌else◌,
  sub64, sum_of, sum_of-append, Run, done, raised, logic_error, ◌>>=◌, arith, Bool-cases, inl, inr,
  ◌⊎◌, refl,
}
use pimc_toolkit.Pimsm.Params.{jp_capacity, min_entry_size}
use pimc_toolkit.Pimsm.Update.{GroupEntry, Update, byte_size}

pub record UpdateBuilder : Type 0 where
  pub groups : List GroupEntry
  pub sz : ℕ

abbrev pub make : UpdateBuilder
make = record { groups = []; sz = 0 }

unfoldable pub remaining : UpdateBuilder → ℕ
remaining ub = sub64 jp_capacity ub.sz

unfoldable pub chk_sz : UpdateBuilder → ℕ → Run (Unit {0})
chk_sz ub sz = if ltb jp_capacity ((ub.sz + sz) % 2 ^ 64) then raised logic_error else done tt

unfoldable pub add : UpdateBuilder → GroupEntry → ℕ → Run UpdateBuilder
unfolding chk_sz
add ub group sz = do
  _ ← chk_sz ub sz
  done (record { groups = ub.groups ++ (group ∷ []); sz = (ub.sz + sz) % 2 ^ 64 })

abbrev pub build : UpdateBuilder → Update
build ub = record { groups = ub.groups }

unfoldable pub empty : UpdateBuilder → Bool
empty ub = elim ub.groups [ [] ↦ true | _ ∷ _ ↦ false ]

unfoldable pub full : UpdateBuilder → Bool
unfolding remaining
full ub = ltb (remaining ub) min_entry_size

pub empty_lem : (ub : UpdateBuilder) → empty ub ≡ true → ub.groups ≡ []
unfolding empty
empty_lem ub h = ground arith

-- The recorded size is that of the entries, and within the capacity.
pub record IsSound (ub : UpdateBuilder) : Type 0 where
  pub exact : ub.sz ≡ sum_of byte_size ub.groups
  pub within : ub.sz ≤ jp_capacity

pub make-IsSound : IsSound make
make-IsSound = omega arith

pub remaining_lem : (ub : UpdateBuilder) → IsSound ub → remaining ub + ub.sz ≡ jp_capacity
unfolding remaining
remaining_lem ub v = omega arith

-- The builder after an entry was added.
abbrev pub grown : UpdateBuilder → GroupEntry → UpdateBuilder
grown ub ge = record { groups = ub.groups ++ (ge ∷ []); sz = ub.sz + byte_size ge }

pub grown-IsSound :
    (ub : UpdateBuilder) (ge : GroupEntry)
    → IsSound ub
    → byte_size ge ≤ remaining ub
    → IsSound (grown ub ge)
grown-IsSound ub ge v h = record {
  exact = omega (arith, sum_of-append byte_size ub.groups (ge ∷ []), v.exact);
  within = omega (arith, remaining_lem ub v);
}

-- An entry that fits is added, and nothing is thrown.
pub add_lem :
    (ub : UpdateBuilder) (ge : GroupEntry)
    → IsSound ub
    → byte_size ge ≤ remaining ub
    → add ub ge (byte_size ge) ≡ done (grown ub ge)
unfolding add
add_lem ub ge v h = ground (arith, remaining_lem ub v)

-- An entry that does not fit is refused with an exception.
pub add_refused :
    (ub : UpdateBuilder) (ge : GroupEntry) (sz : ℕ)
    → IsSound ub
    → sz ≤ jp_capacity
    → jp_capacity < ub.sz + sz
    → add ub ge sz ≡ raised logic_error
unfolding add
add_refused ub ge sz v h k = ground arith

-- Whatever the size, an entry is added or refused.
pub add_cases :
    (ub : UpdateBuilder) (ge : GroupEntry) (sz : ℕ)
    → ((ub' : UpdateBuilder) × (add ub ge sz ≡ done ub') × (ub'.groups ≡ ub.groups ++ (ge ∷ [])))
      ⊎ (add ub ge sz ≡ raised logic_error)
unfolding add
add_cases ub ge sz = elim (Bool-cases (ltb jp_capacity ((ub.sz + sz) % 2 ^ 64))) [
  | inl e ↦ inr (rw e refl)
  | inr e ↦
      inl (record { groups = ub.groups ++ (ge ∷ []); sz = (ub.sz + sz) % 2 ^ 64 }, rw e refl, refl)
]
