-- ===== src/Net/IntfTable.antt =====
-- lib/pimc/net/IntfTable.hpp and IntfTable.cpp. What getifaddrs and if_nametoindex answer is a
-- parameter; the map of names holds the index of the entry that its pointer points at.
pub mod Consistent
use pimc_toolkit.Common.{
  ℕ, ◌≡◌, refl, List, [], ◌∷◌, ◌++◌, Bool, true, false, not, Option, none, some, ◌==◌, ==_iff,
  if◌then◌else◌, Run, done, raised, logic_error, ◌>>=◌, Text, text_eq, text_eq_lem, Bool-cases,
  Option-cases, inl, inr, arith,
}
use pimc_toolkit.Core.Result.{Result, ok, err}
use pimc_toolkit.Net.Address.{IPv4Address, from_nl}

pub record IntfInfo : Type 0 where
  pub name : Text
  pub ifindex : ℕ
  pub ipv4addr : Option IPv4Address

pub record IntfTable : Type 0 where
  pub index_map : List (ℕ × IntfInfo)
  pub name_map : List (Text × ℕ)

module _ {ℓ} {V : Type ℓ} where
  abbrev pub at_index : ℕ → List (ℕ × V) → Option V
  at_index i [] = none
  at_index i (e ∷ m) = if i == e.0 then some e.1 else at_index i m

  abbrev pub at_name : Text → List (Text × V) → Option V
  at_name n [] = none
  at_name n (e ∷ m) = if text_eq n e.0 then some e.1 else at_name n m

  -- The value of an index is changed in place.
  abbrev pub update : ℕ → V → List (ℕ × V) → List (ℕ × V)
  update i v [] = []
  update i v (e ∷ m) = if i == e.0 then (e.0, v) ∷ m else e ∷ update i v m

unfoldable pub by_index : ℕ → IntfTable → Option IntfInfo
by_index i t = at_index i t.index_map

unfoldable pub by_name : Text → IntfTable → Option IntfInfo
by_name n t = elim (at_name n t.name_map) [ none ↦ none | some i ↦ at_index i t.index_map ]

-- The address of an entry of getifaddrs: none, an IPv4 address in network byte order, or another.
pub data SockAddr : Type 0 where
  no_address other_family : SockAddr
  inet : ℕ → SockAddr

pub record IfAddr : Type 0 where
  pub ifa_name : Text
  pub ifa_addr : SockAddr

pub data TableError : Type 0 where
  getifaddrs_failed empty_table : TableError
  unresolved : Text → TableError

abbrev pub ipv4_of : SockAddr → Option IPv4Address
ipv4_of no_address = none
ipv4_of other_family = none
ipv4_of (inet s) = some (from_nl s)

abbrev pub or_old : Option IPv4Address → Option IPv4Address → Option IPv4Address
or_old none old = old
or_old (some a) old = some a

-- An entry whose interface has the index `i`.
unfoldable pub add_entry : IfAddr → ℕ → IntfTable → Run IntfTable
add_entry p i t = elim (at_index i t.index_map) [
  | none ↦ done (record {
    index_map =
        t.index_map
        ++ ((i, record { name = p.ifa_name; ifindex = i; ipv4addr = ipv4_of p.ifa_addr }) ∷ []);
    name_map = (elim (at_name p.ifa_name t.name_map) [
      | none ↦ t.name_map ++ ((p.ifa_name, i) ∷ [])
      | some j ↦ t.name_map
    ]);
  })
  | some info ↦
      if not (text_eq info.name p.ifa_name)
      then raised logic_error
      else done (record t {
        index_map =
            update i (record info { ipv4addr = or_old (ipv4_of p.ifa_addr) info.ipv4addr })
              t.index_map;
      })
]

abbrev pub has_address : SockAddr → Bool
has_address no_address = false
has_address other_family = true
has_address (inet s) = true

-- The loop of `newTable`.
unfoldable pub table_loop : (Text → ℕ) → List IfAddr → IntfTable → Run (Result IntfTable TableError)
unfolding add_entry
table_loop name_to_index [] t = done (ok t)
table_loop name_to_index (p ∷ ps) t =
    let i = name_to_index p.ifa_name in
    let skipped = table_loop name_to_index ps t in
    let added = add_entry p i t >>= table_loop name_to_index ps in
    if not (has_address p.ifa_addr)
    then skipped
    else if i == 0
    then done (err (unresolved p.ifa_name))
    else added

abbrev pub finish : Result IntfTable TableError → Result IntfTable TableError
finish (err e) = err e
finish (ok t) = elim t.index_map [ [] ↦ err empty_table | _ ∷ _ ↦ ok t ]

-- `newTable`, with what getifaddrs answers.
unfoldable pub new_table : (Text → ℕ) → Option (List IfAddr) → Run (Result IntfTable TableError)
unfolding table_loop
new_table name_to_index none = done (err getifaddrs_failed)
new_table name_to_index (some ps) = do
  r ← table_loop name_to_index ps (record { index_map = []; name_map = [] })
  done (finish r)
