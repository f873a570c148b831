-- ===== src/Mclst/ReceiveLoop.antt =====
-- The loop of apps/mclst/ReceiverBase.hpp with its limits and the timer of apps/mclst/Timer.hpp. A turn of the
-- loop takes what the system answers from the environment: the flag `stopped_`, the time of the host
-- and the outcome of `select()`. A loop that has used up its turns is still running.
pub mod Stats
pub mod Limited
use pimc_toolkit.Common.{
  ℕ, ◌+◌, ◌*◌, ◌%◌, ◌^◌, leb, sub64, Bool, true, false, if◌then◌else◌, List, [], ◌∷◌, ◌++◌, Option,
  none, some, length, drop, Run, done, raised, runtime_error, stuck, ◌>>=◌,
}
use pimc_toolkit.Common.Int.{pos}
use pimc_toolkit.Mclst.PacketInfo.{PacketInfo, reset, PacketStatus, is_accepted, is_shown, Warning}
use pimc_toolkit.Mclst.RxStats.{RxStats, update}
use pimc_toolkit.Mclst.Receiver.{Processed}

pub data Limit : Type 0 where
  unlimited : Limit
  -- The limit, and the count.
  limited : ℕ → ℕ → Limit

-- `reached`, with the limiter that is left.
abbrev pub reached : Limit → Bool × Limit
reached unlimited = (false, unlimited)
reached (limited limit count) =
    let next_count = (count + 1) % 2 ^ 64 in (leb limit next_count, limited limit next_count)

pub record Timer : Type 0 where
  pub start_ns : ℕ
  pub timestamp_ns : ℕ
  pub timeout_ns : ℕ

-- `Timer(cfg)`, for the timeout of the configuration in seconds and the time of the host.
abbrev pub timer_of : ℕ → ℕ → Timer
timer_of timeout_sec now = record {
  start_ns = now;
  timestamp_ns = now;
  timeout_ns = timeout_sec * 1_000_000_000 % 2 ^ 64;
}

abbrev pub save : ℕ → Timer → Timer
save now timer = record timer { timestamp_ns = now }

abbrev pub restart : Timer → Timer
restart timer = record timer { start_ns = timer.timestamp_ns }

abbrev pub is_timeout : Timer → Bool
is_timeout timer = leb timer.timeout_ns (sub64 timer.timestamp_ns timer.start_ns)

-- A control message of a packet: its TTL, the index of the interface, or anything else.
pub data ControlMessage : Type 0 where
  ip_ttl ip_pktinfo : ℕ → ControlMessage
  other : ControlMessage

-- What `recvmsg()` gives.
pub record Message : Type 0 where
  pub sender_addr : ℕ
  pub sender_port : ℕ
  pub bytes : List ℕ
  pub control : List ControlMessage

pub data Poll : Type 0 where
  interrupted failed idle not_set : Poll
  readable : Option Message → Poll

pub record Turn : Type 0 where
  pub stopped : Bool
  pub now : ℕ
  pub poll : Poll

pub data Output : Type 0 where
  timeout_shown : ℕ → Output
  packet_shown : PacketInfo → Output
  warned : List Warning → Output
  no_data_warned : Output

pub record Receiver : Type 0 where
  pub pkt_info : PacketInfo
  pub limit : Limit
  pub rx_stats : RxStats
  pub timer : Timer
  pub output : List Output

-- The loop over the control messages.
unfoldable pub read_control : List ControlMessage → PacketInfo → PacketInfo
read_control [] info = info
read_control (ip_ttl ttl ∷ control) info = read_control control (record info { ttl = pos ttl })
read_control (ip_pktinfo index ∷ control) info =
    read_control control (record info { if_index = index })
read_control (other ∷ control) info = read_control control info

-- `receive`, up to the call of `processPacket`; the bytes overwrite those at the start of the buffer.
unfoldable pub receive : ℕ → Message → PacketInfo → PacketInfo
unfolding read_control
receive recv_time msg info = read_control msg.control (record (reset info) {
  timestamp = recv_time;
  received_size = length msg.bytes % 2 ^ 32;
  received_data = msg.bytes ++ drop (length msg.bytes) info.received_data;
})

abbrev pub print : Output → Receiver → Receiver
print o r = record r { output = r.output ++ (o ∷ []) }

-- What the loop does with a packet that is processed, and whether it ends there.
unfoldable pub handle : Processed → Receiver → Bool × Receiver
unfolding update
handle p r =
    let warned_r = print (warned p.warnings) (record r { pkt_info = p.info }) in
    let restarted = record warned_r { timer = restart warned_r.timer } in
    let shown = record (print (packet_shown p.info) restarted) {
      rx_stats =
          update p.info.source p.info.sport p.info.dport p.info.payload_size restarted.rx_stats;
    } in
    let counted = if is_shown p.status then shown else restarted in
    let limit = reached counted.limit in
    if is_accepted p.status
    then (limit.0, record counted { limit = limit.1 })
    else (false, warned_r)

-- The provider's `processPacket`, for the sender's address and port.
module _ (process_packet : ℕ → ℕ → PacketInfo → Run Processed) where
  -- A turn behind `timer.save()`, and whether the loop ends there.
  unfoldable pub turn : Poll → Receiver → Run (Bool × Receiver)
  unfolding receive handle
  turn interrupted r = done (false, r)
  turn failed r = raised runtime_error
  turn idle r = done (
    false,
    if is_timeout r.timer
        then record (print (timeout_shown r.timer.timestamp_ns) r) { timer = restart r.timer }
        else r,
  )
  turn not_set r = done (false, print no_data_warned r)
  turn (readable none) r = raised runtime_error
  turn (readable (some msg)) r = do
    p ← process_packet msg.sender_addr msg.sender_port (receive r.timer.timestamp_ns msg r.pkt_info)
    done (handle p r)

  unfoldable pub receive_loop : List Turn → Receiver → Run Receiver
  unfolding turn
  receive_loop [] r = stuck
  receive_loop (t ∷ turns) r =
      let next : Bool × Receiver → Run Receiver =
        λ v. let rest = receive_loop turns v.1 in if v.0 then done v.1 else rest in
      if t.stopped then done r else turn t.poll (record r { timer = save t.now r.timer }) >>= next
