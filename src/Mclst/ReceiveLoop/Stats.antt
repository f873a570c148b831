-- ===== src/Mclst/ReceiveLoop/Stats.antt =====
-- The loop of apps/mclst/ReceiverBase.hpp counts the packets that it shows.
use pimc_toolkit.Common.{
  ℕ, ◌≡◌, refl, sym, ap, ◌∙◌, Bool-cases, inl, inr, List, [], ◌∷◌, ◌++◌, append-nil, none, some,
  Run, done, raised, fault, stuck, Holds, Holds->>=,
}
use pimc_toolkit.Mclst.PacketInfo.{PacketInfo, is_accepted, is_shown}
use pimc_toolkit.Mclst.RxStats.{RxStats, no_stats, update}
use pimc_toolkit.Mclst.RxStats.Flows.{Packet, update_all}
use pimc_toolkit.Mclst.Receiver.{Processed}
use pimc_toolkit.Mclst.ReceiveLoop.{
  Poll, interrupted, failed, idle, not_set, readable, Turn, Output, timeout_shown, packet_shown,
  warned, no_data_warned, Receiver, is_timeout, save, receive, handle, turn, receive_loop,
}

abbrev pub packet_of : PacketInfo → Packet
packet_of info = record {
  source = info.source;
  sport = info.sport;
  dport = info.dport;
  udp_bytes = info.payload_size;
}

-- The packets that are shown.
abbrev pub shown_of : List Output → List Packet
shown_of [] = []
shown_of (packet_shown info ∷ output) = packet_of info ∷ shown_of output
shown_of (timeout_shown now ∷ output) = shown_of output
shown_of (warned warnings ∷ output) = shown_of output
shown_of (no_data_warned ∷ output) = shown_of output

pub shown_of-append :
    (output more : List Output) → shown_of (output ++ more) ≡ shown_of output ++ shown_of more
shown_of-append [] more = refl
shown_of-append (packet_shown info ∷ output) more =
    ap (◌∷◌ (packet_of info)) (shown_of-append output more)
shown_of-append (timeout_shown now ∷ output) more = shown_of-append output more
shown_of-append (warned warnings ∷ output) more = shown_of-append output more
shown_of-append (no_data_warned ∷ output) more = shown_of-append output more

update_all-append :
    (rx : RxStats) (ps : List Packet) (p : Packet)
    → update_all rx (ps ++ (p ∷ []))
      ≡ update p.source p.sport p.dport p.udp_bytes (update_all rx ps)
unfolding update
update_all-append rx [] p = refl
update_all-append rx (q ∷ ps) p =
    update_all-append (update q.source q.sport q.dport q.udp_bytes rx) ps p

-- The statistics are those of the packets shown.
abbrev pub IsCounted : Receiver → Type 0
IsCounted r = r.rx_stats ≡ update_all no_stats (shown_of r.output)

-- Output that shows no packet.
still_counted :
    (rx : RxStats) (output : List Output) (o : Output)
    → shown_of (o ∷ []) ≡ []
    → rx ≡ update_all no_stats (shown_of output)
    → rx ≡ update_all no_stats (shown_of (output ++ (o ∷ [])))
unfolding update
still_counted rx output o h e =
    e
    ∙ ap (update_all no_stats) (
        sym (
          shown_of-append output (o ∷ [])
          ∙ ap (λ s. shown_of output ++ s) h
          ∙ append-nil (shown_of output)))

handle-IsCounted : (p : Processed) (r : Receiver) → IsCounted r → IsCounted (handle p r).1
unfolding handle update
handle-IsCounted p r h =
    let warned_too = still_counted r.rx_stats r.output (warned p.warnings) refl h in
    elim (Bool-cases (is_accepted p.status)) [
      | inr ignored ↦ rw (handle, ignored) warned_too
      | inl accepted ↦ elim (Bool-cases (is_shown p.status)) [
        | inr hidden ↦ rw (handle, accepted, hidden) warned_too
        | inl shown ↦
            rw (handle, accepted, shown)
              (ap (update p.info.source p.info.sport p.info.dport p.info.payload_size) warned_too
                ∙ sym (
                    ap (update_all no_stats) (
                      shown_of-append (r.output ++ (warned p.warnings ∷ []))
                        (packet_shown p.info ∷ []))
                    ∙ update_all-append no_stats (shown_of (r.output ++ (warned p.warnings ∷ [])))
                        (packet_of p.info)))
      ]
    ]

Holds_any : (r : Run Processed) → Holds (λ p. Unit {0}) r
Holds_any (done p) = tt
Holds_any (raised e) = tt
Holds_any fault = tt
Holds_any stuck = tt

module _ (process_packet : ℕ → ℕ → PacketInfo → Run Processed) where
  turn-IsCounted :
      (poll : Poll) (r : Receiver)
      → IsCounted r
      → Holds (λ v. IsCounted v.1) (turn process_packet poll r)
  unfolding turn
  turn-IsCounted interrupted r h = h
  turn-IsCounted failed r h = tt
  turn-IsCounted idle r h = elim (Bool-cases (is_timeout r.timer)) [
    | inl late ↦
        rw late (still_counted r.rx_stats r.output (timeout_shown r.timer.timestamp_ns) refl h)
    | inr early ↦ rw early h
  ]
  turn-IsCounted not_set r h = still_counted r.rx_stats r.output no_data_warned refl h
  turn-IsCounted (readable none) r h = tt
  turn-IsCounted (readable (some msg)) r h =
      let info = receive r.timer.timestamp_ns msg r.pkt_info in
      Holds->>= (λ p. Unit {0}) (λ v. IsCounted v.1)
        (process_packet msg.sender_addr msg.sender_port info) (λ p. done (handle p r))
        (Holds_any (process_packet msg.sender_addr msg.sender_port info))
        (λ p k. handle-IsCounted p r h)

  -- Whatever packets come in, and whatever the provider makes of them: when the loop ends, its
  -- statistics are those of exactly the packets that it has shown.
  pub receive_loop-IsCounted :
      (turns : List Turn) (r : Receiver)
      → IsCounted r
      → Holds IsCounted (receive_loop process_packet turns r)
  unfolding receive_loop
  receive_loop-IsCounted [] r h = tt
  receive_loop-IsCounted (t ∷ turns) r h = elim (Bool-cases t.stopped) [
    | inl stopped ↦ rw (receive_loop, stopped) h
    | inr running ↦
        rw (receive_loop, running)
          (Holds->>= (λ v. IsCounted v.1) IsCounted
            (turn process_packet t.poll (record r { timer = save t.now r.timer })) _
            (turn-IsCounted t.poll (record r { timer = save t.now r.timer }) h)
            (λ v k. elim (Bool-cases v.0) [
              | inl ends ↦ rw ends k
              | inr goes_on ↦ rw goes_on (receive_loop-IsCounted turns v.1 k)
            ]))
  ]
