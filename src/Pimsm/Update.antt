-- ===== src/Pimsm/Update.antt =====
-- apps/pimc/pimsm/Update.hpp: the entries of a Join/Prune update, and their summary.
use pimc_toolkit.Common.{
  ℕ, ◌+◌, ◌*◌, ◌%◌, ◌^◌, ◌≤◌, ◌≡◌, List, [], ◌∷◌, map, Bool, length, sum_of, sub64, arith,
}
use pimc_toolkit.Net.Address.{IPv4Address}
use pimc_toolkit.Pimsm.Params.{grp_hdr_size, src_a_size, jp_capacity}

pub record Source : Type 0 where
  pub addr : IPv4Address
  pub wildcard : Bool
  pub rpt : Bool

pub record GroupEntry : Type 0 where
  pub group : IPv4Address
  pub joins : List Source
  pub prunes : List Source

pub record Update : Type 0 where
  pub groups : List GroupEntry

pub record GroupSummary : Type 0 where
  pub group : IPv4Address
  pub joins : ℕ
  pub prunes : ℕ
  pub size : ℕ

pub group_summary : GroupEntry → GroupSummary
group_summary ge = record {
  group = ge.group;
  joins = length ge.joins;
  prunes = length ge.prunes;
  size = (grp_hdr_size + (length ge.joins + length ge.prunes) * src_a_size) % 2 ^ 64;
}

pub record UpdateSummary : Type 0 where
  pub n : ℕ
  pub groups : List GroupSummary
  pub size : ℕ
  pub remaining : ℕ

-- `for (auto const& gs: groups_) size_ += gs.size();`
add_sizes : ℕ → List GroupSummary → ℕ
add_sizes size [] = size
add_sizes size (gs ∷ rest) = add_sizes ((size + gs.size) % 2 ^ 64) rest

pub update_summary : ℕ → Update → UpdateSummary
unfolding add_sizes group_summary
update_summary n update =
    let groups = map group_summary update.groups in
    let size = add_sizes 0 groups in
    record { n = n; groups = groups; size = size; remaining = sub64 jp_capacity size }

-- The bytes that an entry takes in a message.
abbrev pub byte_size : GroupEntry → ℕ
byte_size ge = grp_hdr_size + (length ge.joins + length ge.prunes) * src_a_size

add_sizes-sum_of :
    (acc : ℕ) (gs : List GroupEntry)
    → acc + sum_of byte_size gs ≤ jp_capacity
    → add_sizes acc (map group_summary gs) ≡ acc + sum_of byte_size gs
unfolding add_sizes group_summary
add_sizes-sum_of acc [] h = omega arith
add_sizes-sum_of acc (ge ∷ gs) h =
    omega (arith, add_sizes-sum_of ((acc + byte_size ge % 2 ^ 64) % 2 ^ 64) gs (omega arith))

-- The summary of an update whose entries take no more than the capacity of a message has the sum of
-- their sizes as its size, and this and what remains make up the capacity.
pub update_summary_exact :
    (n : ℕ) (u : Update)
    → sum_of byte_size u.groups ≤ jp_capacity
    → ((update_summary n u).size ≡ sum_of byte_size u.groups)
      × ((update_summary n u).remaining + sum_of byte_size u.groups ≡ jp_capacity)
unfolding update_summary
update_summary_exact n u h = (
  omega (arith, add_sizes-sum_of 0 u.groups (omega arith)),
  omega (arith, add_sizes-sum_of 0 u.groups (omega arith)),
)
