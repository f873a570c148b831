-- ===== src/Mclst/Sender.antt =====
-- apps/mclst/Sender.cpp and apps/mclst/Sender.hpp. A turn of the loop takes the flag `stopped_`, the time of
-- the host and whether `sendto()` succeeds from the environment; a loop that has used up its turns is
-- still running.
pub mod Sent
use pimc_toolkit.Common.{
  ℕ, ◌+◌, ◌/◌, ◌%◌, ◌^◌, Bool, not, ◌&&◌, leb, ◌==◌, if◌then◌else◌, List, [], ◌∷◌, ◌++◌, length,
  Run, done, raised, runtime_error, stuck, ◌>>=◌,
}
use pimc_toolkit.Packets.Writer.{bytes16, htons}
use pimc_toolkit.Mclst.Beacon.{mclst_magic}

-- The bytes of `htobe64(x)` in memory.
abbrev pub be_bytes64 : ℕ → List ℕ
be_bytes64 x =
    x / 2 ^ 56 % 2 ^ 8
    ∷ x / 2 ^ 48 % 2 ^ 8
    ∷ x / 2 ^ 40 % 2 ^ 8
    ∷ x / 2 ^ 32 % 2 ^ 8
    ∷ x / 2 ^ 24 % 2 ^ 8
    ∷ x / 2 ^ 16 % 2 ^ 8
    ∷ x / 2 ^ 8 % 2 ^ 8
    ∷ x % 2 ^ 8
    ∷ []

-- The bytes that are sent: the header, and the host name up to the zero that ends it.
abbrev pub beacon_packet : List ℕ → ℕ → ℕ → List ℕ
beacon_packet host_name seq time_ns =
    be_bytes64 mclst_magic
    ++ (be_bytes64 seq
        ++ (be_bytes64 time_ns ++ (bytes16 (htons (length host_name % 2 ^ 16)) ++ host_name)))

pub record Turn : Type 0 where
  pub stopped : Bool
  pub time_ns : ℕ
  pub is_sent : Bool

-- The sequence number behind the loop, and the packets sent.
unfoldable pub send_loop : List ℕ → ℕ → List Turn → ℕ → Run (ℕ × List (List ℕ))
send_loop host_name count [] seq = stuck
send_loop host_name count (t ∷ turns) seq =
    let next_seq = (seq + 1) % 2 ^ 64 in
    let packet = beacon_packet host_name seq t.time_ns in
    let rest = send_loop host_name count turns next_seq in
    if t.stopped
    then done (seq, [])
    else if not t.is_sent
    then raised runtime_error
    else if not (count == 0) && leb count next_seq
    then done (next_seq, packet ∷ [])
    else rest >>= λ r. done (r.0, packet ∷ r.1)

-- `run`: the number of packets that is shown, and the packets sent.
unfoldable pub run_sender : List ℕ → ℕ → List Turn → Run (ℕ × List (List ℕ))
unfolding send_loop
run_sender host_name count turns =
    send_loop host_name count turns 0 >>= λ r. done ((r.0 + 1) % 2 ^ 64, r.1)
