-- ===== src/Pimsm/SanityCheck/Sets.antt =====
-- The sets of addresses of apps/pimc/pimsm/SanityCheckUtils.hpp. A set is the list of its elements in
-- increasing order; the order of an unordered set, which is left open, is taken to be the same.
use pimc_toolkit.Common.{
  ℕ, ◌+◌, ◌≡◌, refl, List, [], ◌∷◌, Bool, true, false, ◌||◌, ltb, ◌==◌, if◌then◌else◌, sum_of,
  arith, length,
}
use pimc_toolkit.Net.Address.{IPv4Address}

abbrev pub contains : IPv4Address → List IPv4Address → Bool
contains a [] = false
contains a (b ∷ s) = a == b || contains a s

-- `emplace`, with whether the address was inserted.
unfoldable pub emplace : IPv4Address → List IPv4Address → List IPv4Address × Bool
emplace a [] = (a ∷ [], true)
emplace a (b ∷ s) =
    if a == b
    then (b ∷ s, false)
    else if ltb a b
    then (a ∷ b ∷ s, true)
    else (b ∷ (emplace a s).0, (emplace a s).1)

-- The loop of `vecSet` over the vector, and that of `keySet` over the keys.
unfoldable pub vec_set_loop : List IPv4Address → List IPv4Address → List IPv4Address
unfolding emplace
vec_set_loop items [] = items
vec_set_loop items (a ∷ v) = vec_set_loop (emplace a items).0 v

abbrev pub vec_set : List IPv4Address → List IPv4Address
vec_set v = vec_set_loop [] v

-- `for (auto const &addr: a) if (not b.contains(addr)) found.emplace(addr);`
unfoldable pub not_in_loop :
    List IPv4Address → List IPv4Address → List IPv4Address → List IPv4Address
unfolding emplace
not_in_loop found b [] = found
not_in_loop found b (x ∷ a) =
    if contains x b then not_in_loop found b a else not_in_loop (emplace x found).0 b a

-- The addresses of `a` that are missing in `b`, and the extraneous ones of `b`.
abbrev pub compare_addr_sets :
    List IPv4Address → List IPv4Address → List IPv4Address × List IPv4Address
compare_addr_sets a b = (not_in_loop [] b a, not_in_loop [] a b)

abbrev pub is_at : IPv4Address → IPv4Address → ℕ
is_at a x = if x == a then 1 else 0

-- How often an address occurs in a list.
abbrev pub count : IPv4Address → List IPv4Address → ℕ
count a s = sum_of (is_at a) s

pub contains-count : (a : IPv4Address) (s : List IPv4Address) → contains a s ≡ ltb 0 (count a s)
contains-count a [] = refl
contains-count a (b ∷ s) = ground (arith, contains-count a s)

-- An address that a set does not hold is inserted.
pub emplace_new : (b : IPv4Address) (s : List IPv4Address) → count b s ≡ 0 → (emplace b s).1 ≡ true
unfolding emplace
emplace_new b [] h = refl
emplace_new b (c ∷ s) h = ground (arith, emplace_new b s)

pub count-emplace :
    (a b : IPv4Address) (s : List IPv4Address)
    → count b s ≡ 0
    → count a (emplace b s).0 ≡ is_at a b + count a s
unfolding emplace
count-emplace a b [] h = refl
count-emplace a b (c ∷ s) h = ground (arith, count-emplace a b s)

pub contains-emplace :
    (a b : IPv4Address) (s : List IPv4Address)
    → contains a (emplace b s).0 ≡ (a == b || contains a s)
unfolding emplace
contains-emplace a b [] = refl
contains-emplace a b (c ∷ s) = ground (arith, contains-emplace a b s)

contains-vec_set_loop :
    (a : IPv4Address) (items v : List IPv4Address)
    → contains a (vec_set_loop items v) ≡ (contains a v || contains a items)
unfolding vec_set_loop
contains-vec_set_loop a items [] = refl
contains-vec_set_loop a items (b ∷ v) =
    ground (arith, contains-vec_set_loop a (emplace b items).0 v, contains-emplace a b items)

pub contains-vec_set :
    (a : IPv4Address) (v : List IPv4Address) → contains a (vec_set v) ≡ contains a v
contains-vec_set a v = ground (arith, contains-vec_set_loop a [] v)

not_in_loop_lem :
    (b a : List IPv4Address)
    → ((x : IPv4Address) → contains x a ≡ true → contains x b ≡ true)
    → not_in_loop [] b a ≡ []
unfolding not_in_loop
not_in_loop_lem b [] h = refl
not_in_loop_lem b (x ∷ a) h =
    let here : contains x b ≡ true = h x (ground arith) in
    rw here (not_in_loop_lem b a (λ y k. h y (ground arith)))

-- Sets with the same elements compare as equal: nothing is missing and nothing extraneous.
pub compare_addr_sets_same :
    (a b : List IPv4Address)
    → ((x : IPv4Address) → contains x a ≡ contains x b)
    → (not_in_loop [] b a ≡ []) × (not_in_loop [] a b ≡ [])
compare_addr_sets_same a b h = (
  not_in_loop_lem b a (λ x k. ground (arith, h x)),
  not_in_loop_lem a b (λ x k. ground (arith, h x)),
)

pub length-emplace :
    (b : IPv4Address) (s : List IPv4Address) → count b s ≡ 0 → length (emplace b s).0 ≡ length s + 1
unfolding emplace
length-emplace b [] h = refl
length-emplace b (c ∷ s) h = ground (arith, length-emplace b s)
