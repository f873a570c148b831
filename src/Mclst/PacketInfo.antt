-- ===== src/Mclst/PacketInfo.antt =====
-- apps/mclst/PacketInfo.hpp, the status of a packet of apps/mclst/ReceiverBase.hpp, and the warnings
-- that the receivers write, with the numbers that their texts show.
use pimc_toolkit.Common.{ℕ, Bool, true, false, List}
use pimc_toolkit.Common.Int.{ℤ, negsuc}
use pimc_toolkit.Net.Address.{IPv4Address}

abbrev pub buffer_size : ℕ
buffer_size = 67584

-- The pointers to the payload and to the message are offsets of the received data.
pub record PacketInfo : Type 0 where
  pub timestamp : ℕ
  pub source : IPv4Address
  pub sport : ℕ
  pub group : IPv4Address
  pub dport : ℕ
  pub if_index : ℕ
  pub ttl : ℤ
  pub received_data : List ℕ
  pub received_size : ℕ
  pub payload : ℕ
  pub payload_size : ℕ
  pub mclst_beacon : Bool
  pub remote_seq : ℕ
  pub remote_timestamp : ℕ
  pub remote_msg_len : ℕ
  pub remote_msg : ℕ

abbrev pub reset : PacketInfo → PacketInfo
reset info = record info { timestamp = 0; if_index = 0; ttl = negsuc 0; mclst_beacon = false }

pub data PacketStatus : Type 0 where
  filtered accepted_no_show accepted_show : PacketStatus

-- `ps & Accepted`
abbrev pub is_accepted : PacketStatus → Bool
is_accepted filtered = false
is_accepted accepted_no_show = true
is_accepted accepted_show = true

-- `ps & Show`
abbrev pub is_shown : PacketStatus → Bool
is_shown filtered = false
is_shown accepted_no_show = false
is_shown accepted_show = true

pub data Warning : Type 0 where
  -- The size of the data is smaller than that of an IPv4 header without options.
  short_ip_header : ℕ → Warning
  -- The IPv4 header is smaller than the smallest, by its own account.
  corrupted_ip_header : ℕ → Warning
  -- The text shows the size of the data and that of the smallest IPv4 header.
  short_ip_options : ℕ → ℕ → Warning
  -- The size of the data, that of the IPv4 header, and that of both headers.
  short_headers : ℕ → ℕ → ℕ → Warning
  -- The TTL of the control message, and that of the IPv4 header.
  other_ttl : ℤ → ℕ → Warning
  short_udp_size : ℕ → Warning
  -- The size of the UDP payload, and that of the data behind the headers.
  large_udp_size small_udp_size : ℕ → ℕ → Warning
  -- The sequence number, the length of the message, and what is left of the payload.
  short_message : ℕ → ℕ → ℕ → Warning
