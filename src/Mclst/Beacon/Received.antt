-- ===== src/Mclst/Beacon/Received.antt =====
-- A beacon of apps/mclst/Sender.cpp, taken apart by `dissectMclstBeaconPayload` of
-- apps/mclst/ReceiverBase.hpp, and by the raw receiver where a datagram carries it.
use pimc_toolkit.Common.{
  ℕ, ◌+◌, ◌<◌, ◌^◌, ◌%◌, ◌≡◌, ap, ◌∙◌, true, leb, List, [], ◌++◌, length, done, arith,
}
use pimc_toolkit.Packets.Writer.{htons}
use pimc_toolkit.Packets.Views.{take_bytes, read16, read_be}
use pimc_toolkit.Packets.Views.Reads.{read16_behind, read_be_behind}
use pimc_toolkit.Mclst.PacketInfo.{PacketInfo}
use pimc_toolkit.Mclst.Beacon.{mclst_magic, view_header, take_message, dissect_mclst_beacon_payload}
use pimc_toolkit.Mclst.Sender.{be_bytes64, beacon_packet}

read_be_bytes64 : (x : ℕ) (m : List ℕ) → x < 2 ^ 64 → read_be 8 0 0 (be_bytes64 x ++ m) ≡ done x
unfolding read_be
read_be_bytes64 x m h = ap done (omega arith)

abbrev pub with_beacon : List ℕ → ℕ → ℕ → PacketInfo → PacketInfo
with_beacon host_name seq time_ns info = record info {
  mclst_beacon = true;
  remote_seq = seq;
  remote_timestamp = time_ns;
  remote_msg_len = length host_name;
}

module _ (pre host_name rest : List ℕ) (seq time_ns : ℕ) where
  abbrev m : List ℕ
  m = pre ++ (beacon_packet host_name seq time_ns ++ rest)

  read_magic : (p : ℕ) → p ≡ length pre → read_be 8 0 p m ≡ done mclst_magic
  unfolding read_be
  read_magic p h =
      read_be_behind 8 0 pre (beacon_packet host_name seq time_ns ++ rest) 0 p (omega arith)

  read_seq : (p : ℕ) → p ≡ length pre → seq < 2 ^ 64 → read_be 8 0 (p + 8) m ≡ done seq
  unfolding read_be
  read_seq p h s =
      read_be_behind 8 0 pre (beacon_packet host_name seq time_ns ++ rest) 8 (p + 8) (omega arith)
      ∙ read_be_bytes64 seq [] s

  read_time : (p : ℕ) → p ≡ length pre → time_ns < 2 ^ 64 → read_be 8 0 (p + 16) m ≡ done time_ns
  unfolding read_be
  read_time p h s =
      read_be_behind 8 0 pre (beacon_packet host_name seq time_ns ++ rest) 16 (p + 16) (omega arith)
      ∙ read_be_bytes64 time_ns [] s

  read_data_len :
      (p : ℕ)
      → p ≡ length pre
      → length host_name < 2 ^ 16
      → read16 (p + 24) m ≡ done (htons (length host_name))
  unfolding read16
  read_data_len p h s =
      read16_behind pre (beacon_packet host_name seq time_ns ++ rest) 24 (p + 24) (omega arith)
      ∙ ap done (omega arith)

-- A payload that the sender sends is recognised, with its sequence number, its time and the place of
-- the message.
pub dissect-beacon_packet :
    (pre host_name rest : List ℕ) (seq time_ns : ℕ) (info : PacketInfo)
    → info.received_data ≡ pre ++ (beacon_packet host_name seq time_ns ++ rest)
    → info.payload ≡ length pre
    → info.payload_size ≡ 26 + length host_name
    → length host_name < 2 ^ 16
    → seq < 2 ^ 64
    → time_ns < 2 ^ 64
    → dissect_mclst_beacon_payload info
      ≡ done
          (record (with_beacon host_name seq time_ns info) { remote_msg = info.payload + 26 }, [])
unfolding dissect_mclst_beacon_payload view_header take_message take_bytes
dissect-beacon_packet pre host_name rest seq time_ns info received at size l s t =
    let p = info.payload + 0 in
    let start : p ≡ length pre = omega arith in
    let magic = ap (read_be 8 0 p) received ∙ read_magic pre host_name rest seq time_ns p start in
    let seq_is =
      ap (read_be 8 0 (p + 8)) received ∙ read_seq pre host_name rest seq time_ns p start s in
    let time_is =
      ap (read_be 8 0 (p + 16)) received ∙ read_time pre host_name rest seq time_ns p start t in
    let len_is =
      ap (read16 (p + 24)) received ∙ read_data_len pre host_name rest seq time_ns p start l in
    let same : htons (htons (length host_name)) ≡ length host_name = omega arith in
    let fits : leb 26 info.payload_size ≡ true = ground arith in
    let wrap : (26 + length host_name) % 2 ^ 64 ≡ 26 + length host_name = omega arith in
    let there : leb (26 + length host_name) info.payload_size ≡ true = ground arith in
    rw
      (
        dissect_mclst_beacon_payload, take_bytes, fits, view_header, magic, seq_is, time_is, len_is,
        same, take_message, wrap, there,
      )
      (ap
        (λ n. done (
          record (with_beacon host_name seq time_ns info) {
            remote_msg_len = n;
            remote_msg = info.payload + 26;
          },
          [],
        ))
        same)
