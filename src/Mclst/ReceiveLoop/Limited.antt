-- ===== src/Mclst/ReceiveLoop/Limited.antt =====
-- The loop of apps/mclst/ReceiverBase.hpp on a UDP socket, where the number of packets is limited.
use pimc_toolkit.Common.{
  ℕ, ◌+◌, ◌%◌, ◌^◌, ◌≤◌, ◌<◌, ◌≡◌, refl, ap, ◌∙◌, Bool, true, false, leb, List, [], ◌∷◌, ◌++◌, some,
  length, length-append, drop, All, Run, done, Returns, arith,
}
use pimc_toolkit.Mclst.PacketInfo.{PacketInfo, accepted_show}
use pimc_toolkit.Mclst.Receiver.{Processed, process_udp}
use pimc_toolkit.Mclst.Receiver.Within.{process_udp-IsWithin}
use pimc_toolkit.Mclst.ReceiveLoop.{
  limited, ControlMessage, ip_ttl, ip_pktinfo, other, Message, readable, Turn, packet_shown, warned,
  Receiver, save, read_control, receive, handle, turn, receive_loop,
}
use pimc_toolkit.Mclst.ReceiveLoop.Stats.{shown_of, shown_of-append}

-- The control messages leave the data alone.
read_control_lem :
    (control : List ControlMessage) (info : PacketInfo)
    → ((read_control control info).received_data ≡ info.received_data)
      × ((read_control control info).received_size ≡ info.received_size)
      × ((read_control control info).mclst_beacon ≡ info.mclst_beacon)
unfolding read_control
read_control_lem [] info = (refl, refl, refl)
read_control_lem (ip_ttl ttl ∷ control) info = read_control_lem control _
read_control_lem (ip_pktinfo index ∷ control) info = read_control_lem control _
read_control_lem (other ∷ control) info = read_control_lem control info

-- What is received can be processed: it is within the buffer.
receive_lem :
    (now : ℕ) (msg : Message) (info : PacketInfo)
    → ((receive now msg info).mclst_beacon ≡ false)
      × ((receive now msg info).received_size ≤ length (receive now msg info).received_data)
      × ((receive now msg info).received_size < 2 ^ 32)
unfolding receive
receive_lem now msg info =
    let (bytes, size, beacon) = read_control_lem msg.control _ in
    let much = length-append msg.bytes (drop (length msg.bytes) info.received_data) in
    (beacon, omega (arith, ap length bytes), omega arith)

-- Nothing stops the loop, and a packet can be read.
pub record IsReadable (t : Turn) : Type 0 where
  pub running : t.stopped ≡ false
  pub message : Message
  pub poll_is : t.poll ≡ readable (some message)

-- The loop ends or goes on with one more packet shown, and one more counted.
abbrev IsOneMore : ℕ → ℕ → Receiver → Bool × Receiver → Type 0
IsOneMore limit count r v =
    (v.0 ≡ leb limit (count + 1))
    × (v.1.limit ≡ limited limit (count + 1))
    × (length (shown_of v.1.output) ≡ length (shown_of r.output) + 1)

handle_lem :
    (p : Processed) (r : Receiver) (limit count : ℕ)
    → p.status ≡ accepted_show
    → r.limit ≡ limited limit count
    → count + 1 < 2 ^ 64
    → IsOneMore limit count r (handle p r)
unfolding handle
handle_lem p r limit count status is_limited small =
    let next : (count + 1) % 2 ^ 64 ≡ count + 1 = omega arith in
    let more = shown_of-append (r.output ++ (warned p.warnings ∷ [])) (packet_shown p.info ∷ []) in
    let same = shown_of-append r.output (warned p.warnings ∷ []) in
    rw (handle, status, is_limited, next)
      (
        refl,
        refl,
        omega (
          arith,
          ap length more,
          ap length same,
          length-append (shown_of (r.output ++ (warned p.warnings ∷ [])))
              (shown_of (packet_shown p.info ∷ [])),
          length-append (shown_of r.output) (shown_of (warned p.warnings ∷ [])),
        ),
      )

-- A turn behind which the loop goes on.
receive_step :
    (process : ℕ → ℕ → PacketInfo → Run Processed) (t : Turn) (turns : List Turn) (r : Receiver)
    (v : Bool × Receiver) (r' : Receiver)
    → t.stopped ≡ false
    → turn process t.poll (record r { timer = save t.now r.timer }) ≡ done v
    → v.0 ≡ false
    → receive_loop process turns v.1 ≡ done r'
    → receive_loop process (t ∷ turns) r ≡ done r'
unfolding receive_loop
receive_step process t turns r v r' running e goes_on rest =
    rw (receive_loop, running, e, goes_on, rest) refl

module _ (dport : ℕ) where
  abbrev pub process : ℕ → ℕ → PacketInfo → Run Processed
  process sender_addr sender_port info = process_udp dport sender_addr sender_port info

  turn_lem :
      (t : Turn) (r : Receiver) (limit count : ℕ)
      → IsReadable t
      → r.limit ≡ limited limit count
      → count + 1 < 2 ^ 64
      → Returns
          (IsOneMore limit count r)
          (turn process t.poll (record r { timer = save t.now r.timer }))
  unfolding turn
  turn_lem t r limit count h is_limited small =
      let info = receive t.now h.message r.pkt_info in
      let (beacon, within, size) = receive_lem t.now h.message r.pkt_info in
      let (p, e, (status, _)) =
        process_udp-IsWithin dport h.message.sender_addr h.message.sender_port info beacon within
          size in
      rw (h.poll_is, turn, e)
        (
          _,
          refl,
          handle_lem p (record r { timer = save t.now r.timer }) limit count status is_limited
              small,
        )

  -- On a UDP socket, a receiver with a limit ends as soon as it has received that many packets, and it
  -- has shown each of them: no packet, whatever its bytes are, is dropped or stops the loop.
  pub receive_loop_limit :
      (t : Turn) (turns more : List Turn) (r : Receiver) (limit count : ℕ)
      → All IsReadable (t ∷ turns)
      → r.limit ≡ limited limit count
      → count + length (t ∷ turns) ≡ limit
      → limit < 2 ^ 32
      → Returns
          (λ r'. length (shown_of r'.output) ≡ length (shown_of r.output) + length (t ∷ turns))
          (receive_loop process (t ∷ (turns ++ more)) r)
  unfolding receive_loop
  receive_loop_limit t [] more r limit count (h, _) is_limited l small =
      let (v, e, (ends, left, shown)) = turn_lem t r limit count h is_limited (omega arith) in
      let reached : leb limit (count + 1) ≡ true = ground arith in
      rw (receive_loop, h.running, e, ends, reached) (_, refl, shown)
  receive_loop_limit t (t' ∷ turns) more r limit count (h, hs) is_limited l small =
      let (v, e, (ends, left, shown)) = turn_lem t r limit count h is_limited (omega arith) in
      let open_limit : leb limit (count + 1) ≡ false = ground arith in
      let (r', e', more_shown) =
        receive_loop_limit t' turns more v.1 limit (count + 1) hs left (omega arith) small in
      (
        r',
        receive_step process t (t' ∷ (turns ++ more)) r v r' h.running e (ends ∙ open_limit) e',
        omega (arith, shown, more_shown),
      )
