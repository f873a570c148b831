-- ===== src/Mclst/RxStats.antt =====
-- apps/mclst/RxStats.hpp: the statistics of the flows received. The map by flow is the list of its
-- entries, and the set of the flow ids is the list of them in increasing order.
use pimc_toolkit.Common.{
  ℕ, ◌+◌, ◌*◌, ◌/◌, ◌%◌, ◌^◌, if◌then◌else◌, List, [], ◌∷◌, none, some, length, Run, done, ◌>>=◌,
  deref,
}
use pimc_toolkit.Net.Address.{IPv4Address}
use pimc_toolkit.Pimsm.SanityCheck.Sets.{emplace}
use pimc_toolkit.Pimsm.SanityCheck.Maps.{Map, find, try_emplace, modify}
pub mod Flows
pub mod Report

abbrev pub flow_id : IPv4Address → ℕ → ℕ → ℕ
flow_id src sport dport = (dport * 2 ^ 48 % 2 ^ 64 + src * 2 ^ 16 % 2 ^ 64 + sport) % 2 ^ 64

abbrev pub flow_source : ℕ → IPv4Address
flow_source flow_id = flow_id / 2 ^ 16 % 2 ^ 32

abbrev pub flow_sport : ℕ → ℕ
flow_sport flow_id = flow_id % 2 ^ 16

abbrev pub flow_dport : ℕ → ℕ
flow_dport flow_id = flow_id / 2 ^ 48 % 2 ^ 16

abbrev pub with_headers : ℕ → ℕ
with_headers udp_bytes = (12 + 20 + 8 + udp_bytes + 4) % 2 ^ 64

pub record FlowStats : Type 0 where
  pub pkts : ℕ
  pub bytes : ℕ

-- `FlowStats(udpBytes)`
abbrev pub flow_stats : ℕ → FlowStats
flow_stats udp_bytes = record { pkts = 1; bytes = with_headers udp_bytes }

abbrev pub add : ℕ → FlowStats → FlowStats
add udp_bytes fs = record {
  pkts = (fs.pkts + 1) % 2 ^ 64;
  bytes = (fs.bytes + with_headers udp_bytes) % 2 ^ 64;
}

pub record RxStats : Type 0 where
  pub fs_map : Map FlowStats
  pub fids : List ℕ

abbrev pub no_stats : RxStats
no_stats = record { fs_map = []; fids = [] }

unfoldable pub update : IPv4Address → ℕ → ℕ → ℕ → RxStats → RxStats
unfolding emplace
update source sport dport udp_bytes rx =
    let fid = flow_id source sport dport in
    elim (find fid rx.fs_map) [
      | some fs ↦ record rx { fs_map = modify fid (add udp_bytes) rx.fs_map }
      | none ↦ record {
        fs_map = try_emplace fid (flow_stats udp_bytes) rx.fs_map;
        fids = (emplace fid rx.fids).0;
      }
    ]

-- A call of the function of `forEach`.
pub record Row : Type 0 where
  pub source : IPv4Address
  pub sport : ℕ
  pub dport : ℕ
  pub stats : FlowStats

-- `forEach`: the calls, in order.
unfoldable pub for_each : List ℕ → Map FlowStats → Run (List Row)
for_each [] m = done []
for_each (fid ∷ fids) m = do
  fs ← deref (find fid m)
  rows ← for_each fids m
  done (
      record {
        source = flow_source fid;
        sport = flow_sport fid;
        dport = flow_dport fid;
        stats = fs;
      }
      ∷ rows)

abbrev pub size : RxStats → ℕ
size rx = length rx.fs_map
