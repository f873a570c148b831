-- ===== src/Net/IntfTable/Consistent.antt =====
-- The two maps of an interface table belong together: the invariant of the loop of `newTable`.
use pimc_toolkit.Common.{
  ℕ, ◌≡◌, refl, ap, sym, ◌∙◌, List, [], ◌∷◌, ◌++◌, true, false, Option, none, some, ◌==◌, ==_iff,
  done, Holds, Holds->>=, Text, text_eq, text_eq_lem, text_eq_refl, Bool-cases, Option-cases, inl,
  inr, arith,
}
use pimc_toolkit.Core.Result.{Result, ok, err}
use pimc_toolkit.Net.IntfTable.{
  IntfInfo, IntfTable, at_index, at_name, update, by_index, by_name, IfAddr, TableError, ipv4_of,
  or_old, has_address, add_entry, table_loop, finish, new_table,
}

module _ {ℓ} {V : Type ℓ} where
  at_index-append :
      (i : ℕ) (m n : List (ℕ × V)) (v : V) → at_index i m ≡ some v → at_index i (m ++ n) ≡ some v
  at_index-append i [] n v h = cc
  at_index-append i (e ∷ m) n v h = ground (arith, at_index-append i m n v)

  at_index_last :
      (i : ℕ) (m : List (ℕ × V)) (v : V)
      → at_index i m ≡ none
      → at_index i (m ++ ((i, v) ∷ [])) ≡ some v
  at_index_last i [] v h = ground arith
  at_index_last i (e ∷ m) v h = ground (arith, at_index_last i m v)

  at_index-append_ne :
      (i j : ℕ) (m : List (ℕ × V)) (v : V)
      → (j == i) ≡ false
      → at_index j (m ++ ((i, v) ∷ [])) ≡ at_index j m
  at_index-append_ne i j [] v h = ground arith
  at_index-append_ne i j (e ∷ m) v h = ground (arith, at_index-append_ne i j m v)

  at_index-update :
      (i : ℕ) (v w : V) (m : List (ℕ × V))
      → at_index i m ≡ some w
      → at_index i (update i v m) ≡ some v
  at_index-update i v w [] h = cc
  at_index-update i v w (e ∷ m) h = ground (arith, at_index-update i v w m)

  at_index-update_ne :
      (i j : ℕ) (v : V) (m : List (ℕ × V))
      → (j == i) ≡ false
      → at_index j (update i v m) ≡ at_index j m
  at_index-update_ne i j v [] h = refl
  at_index-update_ne i j v (e ∷ m) h = ground (arith, at_index-update_ne i j v m)

  at_name-append_ne :
      (n k : Text) (v : V) (m : List (Text × V))
      → text_eq k n ≡ false
      → at_name k (m ++ ((n, v) ∷ [])) ≡ at_name k m
  at_name-append_ne n k v [] h = ground arith
  at_name-append_ne n k v (e ∷ m) h = ground (arith, at_name-append_ne n k v m)

  at_name_last :
      (n k : Text) (v w : V) (m : List (Text × V))
      → text_eq k n ≡ true
      → at_name n m ≡ none
      → at_name k (m ++ ((n, v) ∷ [])) ≡ some w
      → v ≡ w
  at_name_last n k v w m h o e = let same : k ≡ n = text_eq_lem k n h in found m o (rw same at e)
    where
      found :
          (m : List (Text × V))
          → at_name n m ≡ none
          → at_name n (m ++ ((n, v) ∷ [])) ≡ some w
          → v ≡ w
      found [] o e = let same = text_eq_refl n in ground arith
      found (x ∷ m) o e = ground (arith, found m)

-- Under each index stands an interface with this index, and each name leads to an interface with this
-- name.
pub record IsConsistent (t : IntfTable) : Type 0 where
  pub keyed : (i : ℕ) (info : IntfInfo) → at_index i t.index_map ≡ some info → info.ifindex ≡ i
  pub named :
      (n : Text) (i : ℕ)
      → at_name n t.name_map ≡ some i
      → (info : IntfInfo) × (at_index i t.index_map ≡ some info) × (info.name ≡ n)

-- A new interface is appended under its index, and under its name if the name is new.
new_entry-IsConsistent :
    (t : IntfTable) (i : ℕ) (info : IntfInfo)
    → at_index i t.index_map ≡ none
    → info.ifindex ≡ i
    → IsConsistent t
    → IsConsistent (record {
      index_map = t.index_map ++ ((i, info) ∷ []);
      name_map = (elim (at_name info.name t.name_map) [
        | none ↦ t.name_map ++ ((info.name, i) ∷ [])
        | some j ↦ t.name_map
      ]);
    })
new_entry-IsConsistent t i info new same c = record { keyed = keyed; named = named }
  where
    indexes : List (ℕ × IntfInfo)
    indexes = t.index_map ++ ((i, info) ∷ [])

    keyed : (j : ℕ) (x : IntfInfo) → at_index j indexes ≡ some x → x.ifindex ≡ j
    keyed j x h = elim (Bool-cases (j == i)) [
      | inl e ↦
          let here : j ≡ i = (==_iff j i).0 e in
          let last = at_index_last i t.index_map info new in
          let both : some info ≡ some x = sym last ∙ (rw here at h) in
          let eq : info ≡ x = cc in rw here (rw⁻¹ eq same)
      | inr e ↦ c.keyed j x (sym (at_index-append_ne i j t.index_map info e) ∙ h)
    ]

    old :
        (n : Text) (j : ℕ)
        → at_name n t.name_map ≡ some j
        → (x : IntfInfo) × (at_index j indexes ≡ some x) × (x.name ≡ n)
    old n j h = let (x, there, k) = c.named n j h in (x, at_index-append j t.index_map _ x there, k)

    named :
        (n : Text) (j : ℕ)
        → at_name n (elim (at_name info.name t.name_map) [
          | none ↦ t.name_map ++ ((info.name, i) ∷ [])
          | some j ↦ t.name_map
        ])
          ≡ some j
        → (x : IntfInfo) × (at_index j indexes ≡ some x) × (x.name ≡ n)
    named n j h = elim (Option-cases (at_name info.name t.name_map)) [
      | inr (k, e) ↦ old n j (rw e at h)
      | inl e ↦
          let h' : at_name n (t.name_map ++ ((info.name, i) ∷ [])) ≡ some j = rw e at h in
          elim (Bool-cases (text_eq n info.name)) [
            | inl same_name ↦
                let here : i ≡ j = at_name_last info.name n i j t.name_map same_name e h' in
                (
                  info,
                  rw⁻¹ here (at_index_last i t.index_map info new),
                  sym (text_eq_lem n info.name same_name),
                )
            | inr other ↦ old n j (sym (at_name-append_ne info.name n i t.name_map other) ∙ h')
          ]
    ]

-- An interface that is there already keeps its index and its name.
old_entry-IsConsistent :
    (t : IntfTable) (i : ℕ) (info new : IntfInfo)
    → at_index i t.index_map ≡ some info
    → new.ifindex ≡ info.ifindex
    → new.name ≡ info.name
    → IsConsistent t
    → IsConsistent (record t { index_map = update i new t.index_map })
old_entry-IsConsistent t i info new there same_index same_name c = record {
  keyed = keyed;
  named = named;
}
  where
    here : at_index i (update i new t.index_map) ≡ some new
    here = at_index-update i new info t.index_map there

    keyed : (j : ℕ) (x : IntfInfo) → at_index j (update i new t.index_map) ≡ some x → x.ifindex ≡ j
    keyed j x h = elim (Bool-cases (j == i)) [
      | inl e ↦
          let at_i : j ≡ i = (==_iff j i).0 e in
          let both : some new ≡ some x = sym here ∙ (rw at_i at h) in
          let eq : new ≡ x = cc in rw at_i (rw⁻¹ eq (same_index ∙ c.keyed i info there))
      | inr e ↦ c.keyed j x (sym (at_index-update_ne i j new t.index_map e) ∙ h)
    ]

    named :
        (n : Text) (j : ℕ)
        → at_name n t.name_map ≡ some j
        → (x : IntfInfo) × (at_index j (update i new t.index_map) ≡ some x) × (x.name ≡ n)
    named n j h =
        let (x, at_j, k) = c.named n j h in
        elim (Bool-cases (j == i)) [
          | inl e ↦
              let at_i : j ≡ i = (==_iff j i).0 e in
              let both : some info ≡ some x = sym there ∙ (rw at_i at at_j) in
              let eq : info ≡ x = cc in (new, rw at_i here, same_name ∙ rw eq k)
          | inr e ↦ (x, at_index-update_ne i j new t.index_map e ∙ at_j, k)
        ]

add_entry-IsConsistent :
    (p : IfAddr) (i : ℕ) (t : IntfTable) → IsConsistent t → Holds IsConsistent (add_entry p i t)
unfolding add_entry
add_entry-IsConsistent p i t c = elim (Option-cases (at_index i t.index_map)) [
  | inl new ↦
      rw (add_entry, new)
        (new_entry-IsConsistent t i
          (record { name = p.ifa_name; ifindex = i; ipv4addr = ipv4_of p.ifa_addr }) new refl c)
  | inr (info, there) ↦ elim (Bool-cases (text_eq info.name p.ifa_name)) [
    | inl same ↦
        rw (add_entry, there, same)
          (old_entry-IsConsistent t i info
            (record info { ipv4addr = or_old (ipv4_of p.ifa_addr) info.ipv4addr }) there refl refl
            c)
    | inr other ↦ rw (add_entry, there, other) tt
  ]
]

abbrev OkConsistent : Result IntfTable TableError → Type 0
OkConsistent (ok t) = IsConsistent t
OkConsistent (err e) = Unit {0}

table_loop-IsConsistent :
    (name_to_index : Text → ℕ) (ps : List IfAddr) (t : IntfTable)
    → IsConsistent t
    → Holds OkConsistent (table_loop name_to_index ps t)
unfolding table_loop
table_loop-IsConsistent f [] t c = c
table_loop-IsConsistent f (p ∷ ps) t c =
    let i = f p.ifa_name in
    elim (Bool-cases (has_address p.ifa_addr)) [
      | inr no_address ↦ rw (table_loop, no_address) (table_loop-IsConsistent f ps t c)
      | inl address ↦ elim (Bool-cases (i == 0)) [
        | inl unknown ↦ rw (table_loop, address, unknown) tt
        | inr known ↦
            rw (table_loop, address, known)
              (Holds->>= IsConsistent OkConsistent (add_entry p i t) (table_loop f ps)
                (add_entry-IsConsistent p i t c) (table_loop-IsConsistent f ps))
      ]
    ]

finished : (r : Result IntfTable TableError) → OkConsistent r → OkConsistent (finish r)
finished (err e) c = tt
finished (ok t) c = by_map t.index_map refl
  where
    by_map : (m : List (ℕ × IntfInfo)) → t.index_map ≡ m → OkConsistent (finish (ok t))
    by_map [] e = rw e tt
    by_map (x ∷ m) e = let same : finish (ok t) ≡ ok t = ground arith in rw same c

-- In the table that `newTable` makes, whatever the system answers, the interface found by a name has
-- this name, and it is the one found by its index.
pub by_name-by_index :
    (name_to_index : Text → ℕ) (answer : Option (List IfAddr)) (t : IntfTable) (n : Text)
    (info : IntfInfo)
    → new_table name_to_index answer ≡ done (ok t)
    → by_name n t ≡ some info
    → (info.name ≡ n) × (by_index info.ifindex t ≡ some info)
unfolding new_table by_name by_index
by_name-by_index f none t n info e h = cc
by_name-by_index f (some ps) t n info e h =
    let all =
      Holds->>= OkConsistent OkConsistent
        (table_loop f ps (record { index_map = []; name_map = [] })) (λ r. done (finish r))
        (table_loop-IsConsistent f ps (record { index_map = []; name_map = [] })
          (record { keyed = λ i x k. cc; named = λ m i k. cc }))
        finished in
    let c : IsConsistent t = rw e at all in
    elim (Option-cases (at_name n t.name_map)) [
      | inl no_name ↦ let wrong : none ≡ some info = rw (by_name, no_name) at h in cc
      | inr (i, name) ↦
          let found : at_index i t.index_map ≡ some info = rw (by_name, name) at h in
          let (x, there, k) = c.named n i name in
          let both : some info ≡ some x = sym found ∙ there in
          let eq : info ≡ x = cc in
          (rw eq k, ap (λ j. at_index j t.index_map) (c.keyed i info found) ∙ found)
    ]
