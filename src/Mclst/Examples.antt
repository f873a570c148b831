-- ===== src/Mclst/Examples.antt =====
-- Small packets for the receivers of apps/mclst, and a short run of its sender.
use pimc_toolkit.Common.{
  ◌+◌, ◌≡◌, refl, true, false, List, [], ◌∷◌, some, length, take, drop, done, Returns, Holds, arith,
}
use pimc_toolkit.Common.Int.{negsuc}
use pimc_toolkit.Net.Address.{of_octets}
use pimc_toolkit.Mclst.PacketInfo.{PacketInfo}
use pimc_toolkit.Mclst.RxStats.{no_stats, update, for_each}
use pimc_toolkit.Mclst.RxStats.Flows.{Packet, update_all}
use pimc_toolkit.Mclst.RxStats.Report.{IsReportOf, rx_stats_report}
use pimc_toolkit.Mclst.Receiver.{process_raw}
use pimc_toolkit.Mclst.Receiver.Within.{IsWithin, process_raw-IsWithin}
use pimc_toolkit.Mclst.Receiver.Datagram.{Datagram, datagram}
use pimc_toolkit.Mclst.Sender
use pimc_toolkit.Mclst.Sender.Sent.{numbered, run_sender_count}
use pimc_toolkit.Mclst.Transfer.{received_beacon, beacon_transfer}
use pimc_toolkit.Mclst.ReceiveLoop.{
  Receiver, Turn, limited, readable, interrupted, Message, timer_of, ip_ttl, receive_loop,
}
use pimc_toolkit.Mclst.ReceiveLoop.Stats.{IsCounted, shown_of, receive_loop-IsCounted}
use pimc_toolkit.Mclst.ReceiveLoop.Limited.{process, receive_loop_limit}

-- The host name "ab", in beacon number 7.
abbrev beacon_datagram : Datagram
beacon_datagram = record {
  tos = 0;
  total_len = 60;
  id = 1;
  flags = 0;
  ttl = 5;
  hdr_checksum = 0;
  source = of_octets 10 1 1 1;
  group = of_octets 239 1 2 3;
  options = 1 ∷ 1 ∷ 1 ∷ 0 ∷ [];
  sport = 40000;
  dport = 12345;
  sum = 0;
  payload = Sender.beacon_packet (97 ∷ 98 ∷ []) 7 1000000;
}

abbrev received : PacketInfo
received = record {
  timestamp = 5;
  source = 0;
  sport = 0;
  group = of_octets 239 1 2 3;
  dport = 0;
  if_index = 2;
  ttl = negsuc 0;
  received_data = datagram beacon_datagram (0 ∷ 0 ∷ []);
  received_size = 60;
  payload = 0;
  payload_size = 0;
  mclst_beacon = false;
  remote_seq = 0;
  remote_timestamp = 0;
  remote_msg_len = 0;
  remote_msg = 0;
}

process_raw-IsWithin_example : Returns (IsWithin 60) (process_raw (of_octets 239 1 2 3) received)
process_raw-IsWithin_example =
    process_raw-IsWithin (of_octets 239 1 2 3) received refl (omega arith) (omega arith)

beacon_transfer_example :
    (process_raw (of_octets 239 1 2 3) received
      ≡ done (received_beacon beacon_datagram (97 ∷ 98 ∷ []) 7 1000000 received))
    × (take 2 (drop 58 received.received_data) ≡ 97 ∷ 98 ∷ [])
beacon_transfer_example =
    beacon_transfer beacon_datagram (0 ∷ 0 ∷ []) (97 ∷ 98 ∷ []) 7 1000000 received
      (record {
        source_bits = omega arith;
        group_bits = omega arith;
        option_words = refl;
        option_limit = omega arith;
        sport_bits = omega arith;
        dport_bits = omega arith;
        payload_limit = omega arith;
      })
      refl refl refl (omega arith) (omega arith)

abbrev shown_packets : List Packet
shown_packets =
    record { source = of_octets 10 1 1 1; sport = 40000; dport = 12345; udp_bytes = 28 }
    ∷ record { source = of_octets 10 1 1 2; sport = 40001; dport = 80; udp_bytes = 100 }
    ∷ record { source = of_octets 10 1 1 1; sport = 40000; dport = 12345; udp_bytes = 30 }
    ∷ []

rx_stats_report_example :
    Returns
      (IsReportOf shown_packets)
      (for_each (update_all no_stats shown_packets).fids (update_all no_stats shown_packets).fs_map)
rx_stats_report_example = rx_stats_report shown_packets (
  record { source_bits = omega arith; sport_bits = omega arith; dport_bits = omega arith },
  (
    record { source_bits = omega arith; sport_bits = omega arith; dport_bits = omega arith },
    (record { source_bits = omega arith; sport_bits = omega arith; dport_bits = omega arith }, tt),
  ),
)

abbrev message : Message
message = record {
  sender_addr = 16843018;
  sender_port = 16540;
  bytes = Sender.beacon_packet (97 ∷ 98 ∷ []) 7 1000000;
  control = ip_ttl 5 ∷ [];
}

abbrev readable_turn : Turn
readable_turn = record { stopped = false; now = 10; poll = readable (some message) }

abbrev stopped_turn : Turn
stopped_turn = record { stopped = true; now = 11; poll = interrupted }

abbrev receiver : Receiver
receiver = record {
  pkt_info = received;
  limit = limited 2 0;
  rx_stats = no_stats;
  timer = timer_of 5 1;
  output = [];
}

receive_loop_limit_example :
    Returns
      (λ r. length (shown_of r.output) ≡ 0 + 2)
      (receive_loop (process 12345) (readable_turn ∷ readable_turn ∷ stopped_turn ∷ []) receiver)
receive_loop_limit_example =
    receive_loop_limit 12345 readable_turn (readable_turn ∷ []) (stopped_turn ∷ []) receiver 2 0
      (
        record { running = refl; message = message; poll_is = refl },
        (record { running = refl; message = message; poll_is = refl }, tt),
      )
      refl refl (omega arith)

receive_loop-IsCounted_example :
    Holds IsCounted (receive_loop (process 12345) (readable_turn ∷ stopped_turn ∷ []) receiver)
unfolding update
receive_loop-IsCounted_example =
    receive_loop-IsCounted (process 12345) (readable_turn ∷ stopped_turn ∷ []) receiver refl

abbrev sending_turn : Sender.Turn
sending_turn = record { stopped = false; time_ns = 1000000; is_sent = true }

run_sender_count_example :
    Sender.run_sender (97 ∷ []) 1 (sending_turn ∷ [])
    ≡ done (2, numbered (97 ∷ []) 0 (sending_turn ∷ []))
run_sender_count_example =
    run_sender_count (97 ∷ []) sending_turn [] [] ((refl, refl), tt) (omega arith)
