-- ===== src/Mclst/Beacon.antt =====
-- apps/mclst/MclstBeacon.hpp, and `dissectMclstBeaconPayload` of apps/mclst/ReceiverBase.hpp.
pub mod Received
use pimc_toolkit.Common.{
  ℕ, ◌+◌, Bool, true, false, not, ◌==◌, if◌then◌else◌, List, [], ◌∷◌, none, some, Run, done, ◌>>=◌,
}
use pimc_toolkit.Packets.Writer.{htons}
use pimc_toolkit.Packets.Views.{PacketView, view_of, take_bytes, remaining, read16, read_be}
use pimc_toolkit.Mclst.PacketInfo.{PacketInfo, Warning, short_message}

abbrev pub mclst_magic : ℕ
mclst_magic = 11899030981529723792

-- The header is packed: magic, sequence number, time and length of the message.
abbrev pub hdr_size : ℕ
hdr_size = 26

-- The viewer of the header.
unfoldable pub view_header : ℕ → PacketInfo → Run PacketInfo
unfolding read16 read_be
view_header p info = do
  magic ← read_be 8 0 p info.received_data
  if magic == mclst_magic
      then (do
        seq ← read_be 8 0 (p + 8) info.received_data
        time_ns ← read_be 8 0 (p + 16) info.received_data
        data_len ← read16 (p + 24) info.received_data
        done (record info {
          mclst_beacon = true;
          remote_seq = seq;
          remote_timestamp = time_ns;
          remote_msg_len = htons data_len;
        }))
      else done info

unfoldable pub take_message : PacketView → PacketInfo → PacketInfo × List Warning
unfolding take_bytes
take_message pv info = elim (take_bytes info.remote_msg_len pv) [
  | none ↦ (
    record info { mclst_beacon = false },
    short_message info.remote_seq info.remote_msg_len (remaining pv) ∷ [],
  )
  | some r ↦ (record info { remote_msg = r.0 }, [])
]

unfoldable pub dissect_mclst_beacon_payload : PacketInfo → Run (PacketInfo × List Warning)
unfolding take_bytes view_header take_message
dissect_mclst_beacon_payload info =
    elim (take_bytes hdr_size (view_of info.payload info.payload_size)) [
      | none ↦ done (info, [])
      | some r ↦ view_header r.0 info >>= λ viewed.
          if not viewed.mclst_beacon then done (viewed, []) else done (take_message r.1 viewed)
    ]
