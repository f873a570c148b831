-- ===== src/Pimsm/SanityCheck/Maps.antt =====
-- The maps by group of the verifiers. A map is the list of its entries, one for each key; the order of
-- an unordered map, which is left open, is taken to be that of the insertions.
use pimc_toolkit.Common.{
  ◌≡◌, refl, List, [], ◌∷◌, false, Option, none, some, ◌==◌, ==_iff, Bool-cases, inl, inr, ◌||◌,
  if◌then◌else◌, All, arith,
}
use pimc_toolkit.Net.Address.{IPv4Address}
use pimc_toolkit.Pimsm.SanityCheck.Sets.{contains}

abbrev pub Map {ℓ} : Type ℓ → Type ℓ
Map V = List (IPv4Address × V)

module _ {ℓ} {V : Type ℓ} where
  abbrev pub find : IPv4Address → Map V → Option V
  find g [] = none
  find g (e ∷ m) = if g == e.0 then some e.1 else find g m

  -- `try_emplace` keeps what is there.
  abbrev pub try_emplace : IPv4Address → V → Map V → Map V
  try_emplace g v [] = (g, v) ∷ []
  try_emplace g v (e ∷ m) = if g == e.0 then e ∷ m else e ∷ try_emplace g v m

  -- The value of a key is changed in place.
  abbrev pub modify : IPv4Address → (V → V) → Map V → Map V
  modify g f [] = []
  modify g f (e ∷ m) = if g == e.0 then (e.0, f e.1) ∷ m else e ∷ modify g f m

  abbrev pub keys : Map V → List IPv4Address
  keys [] = []
  keys (e ∷ m) = e.0 ∷ keys m

  -- No key stands twice.
  abbrev pub DistinctKeys : Map V → Type 0
  DistinctKeys [] = Unit {0}
  DistinctKeys (e ∷ m) = (contains e.0 (keys m) ≡ false) × DistinctKeys m

  pub contains-try_emplace :
      (a g : IPv4Address) (v : V) (m : Map V)
      → contains a (keys (try_emplace g v m)) ≡ (a == g || contains a (keys m))
  contains-try_emplace a g v [] = refl
  contains-try_emplace a g v (e ∷ m) = ground (arith, contains-try_emplace a g v m)

  pub keys-modify : (g : IPv4Address) (f : V → V) (m : Map V) → keys (modify g f m) ≡ keys m
  keys-modify g f [] = refl
  keys-modify g f (e ∷ m) = ground (arith, keys-modify g f m)

  pub try_emplace-DistinctKeys :
      (g : IPv4Address) (v : V) (m : Map V) → DistinctKeys m → DistinctKeys (try_emplace g v m)
  try_emplace-DistinctKeys g v [] d = (refl, tt)
  try_emplace-DistinctKeys g v (e ∷ m) d = elim (Bool-cases (g == e.0)) [
    | inl h ↦ rw h d
    | inr h ↦
        rw h
          (ground (arith, contains-try_emplace e.0 g v m, d.0), try_emplace-DistinctKeys g v m d.1)
  ]

  pub modify-DistinctKeys :
      (g : IPv4Address) (f : V → V) (m : Map V) → DistinctKeys m → DistinctKeys (modify g f m)
  modify-DistinctKeys g f [] d = tt
  modify-DistinctKeys g f (e ∷ m) d = elim (Bool-cases (g == e.0)) [
    | inl h ↦ rw h d
    | inr h ↦ rw h (rw (keys-modify g f m) d.0, modify-DistinctKeys g f m d.1)
  ]

  -- A predicate on the entries of a map.
  abbrev pub AllEntries {κ} : (IPv4Address → V → Type κ) → Map V → Type κ
  AllEntries P m = All (λ e. P e.0 e.1) m

  module _ {κ} (P : IPv4Address → V → Type κ) where
    pub try_emplace-AllEntries :
        (g : IPv4Address) (v : V) (m : Map V)
        → AllEntries P m
        → (contains g (keys m) ≡ false → P g v)
        → AllEntries P (try_emplace g v m)
    try_emplace-AllEntries g v [] h k = (k refl, tt)
    try_emplace-AllEntries g v (e ∷ m) h k = elim (Bool-cases (g == e.0)) [
      | inl x ↦ rw x h
      | inr x ↦ rw x (h.0, try_emplace-AllEntries g v m h.1 (λ y. k (ground arith)))
    ]

    pub find-AllEntries :
        (g : IPv4Address) (v : V) (m : Map V) → AllEntries P m → find g m ≡ some v → P g v
    find-AllEntries g v [] h e = cc
    find-AllEntries g v (x ∷ m) h e = elim (Bool-cases (g == x.0)) [
      | inl y ↦
          let there : some x.1 ≡ some v = rw y at e in
          let same_key : g ≡ x.0 = (==_iff g x.0).0 y in
          let same : x.1 ≡ v = cc in rw same_key (rw⁻¹ same h.0)
      | inr y ↦ find-AllEntries g v m h.1 (rw y at e)
    ]

  module _ {κ} (P Q : IPv4Address → V → Type κ) where
    -- One entry is changed, and the others stay.
    pub modify-AllEntries :
        (g : IPv4Address) (f : V → V) (m : Map V)
        → DistinctKeys m
        → AllEntries P m
        → ((h : IPv4Address) (v : V) → (g == h) ≡ false → P h v → Q h v)
        → ((v : V) → P g v → Q g (f v))
        → AllEntries Q (modify g f m)
    modify-AllEntries g f [] d h other this = tt
    modify-AllEntries g f (e ∷ m) d h other this = elim (Bool-cases (g == e.0)) [
      | inl x ↦
          let same : g ≡ e.0 = (==_iff g e.0).0 x in
          rw x (rw⁻¹ same (this e.1 (rw same h.0)), all_others m (rw same d.0) h.1)
      | inr x ↦ rw x (other e.0 e.1 x h.0, modify-AllEntries g f m d.1 h.1 other this)
    ]
      where
        all_others : (m : Map V) → contains g (keys m) ≡ false → AllEntries P m → AllEntries Q m
        all_others [] k h = tt
        all_others (e ∷ m) k h = (other e.0 e.1 (ground arith) h.0, all_others m (ground arith) h.1)

  -- A key that is not found is not there.
  pub find-none : (g : IPv4Address) (m : Map V) → find g m ≡ none → contains g (keys m) ≡ false
  find-none g [] h = refl
  find-none g (e ∷ m) h = elim (Bool-cases (g == e.0)) [
    | inl x ↦ let wrong : some e.1 ≡ none = rw x at h in cc
    | inr x ↦ rw x (find-none g m (rw x at h))
  ]
