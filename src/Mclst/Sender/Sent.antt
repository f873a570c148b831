-- ===== src/Mclst/Sender/Sent.antt =====
-- The packets that apps/mclst/Sender.cpp sends, and the number that it shows.
use pimc_toolkit.Common.{
  ℕ, suc, ◌+◌, ◌%◌, ◌<◌, ◌^◌, ◌≡◌, refl, ap, true, false, ◌==◌, leb, List, [], ◌∷◌, ◌++◌, length,
  All, done, arith,
}
use pimc_toolkit.Mclst.Sender.{beacon_packet, Turn, send_loop, run_sender}

-- Nothing stops the loop, and the packet is sent.
abbrev pub IsUndisturbed : Turn → Type 0
IsUndisturbed t = (t.stopped ≡ false) × (t.is_sent ≡ true)

-- One packet for each turn, with consecutive sequence numbers.
abbrev pub numbered : List ℕ → ℕ → List Turn → List (List ℕ)
numbered host_name seq [] = []
numbered host_name seq (t ∷ turns) =
    beacon_packet host_name seq t.time_ns ∷ numbered host_name (seq + 1) turns

-- A turn that is not the last one.
send_step :
    (host_name : List ℕ) (count seq : ℕ) (t : Turn) (turns : List Turn) (r : ℕ × List (List ℕ))
    → IsUndisturbed t
    → seq + 1 < count
    → count < 2 ^ 64
    → send_loop host_name count turns (seq + 1) ≡ done r
    → send_loop host_name count (t ∷ turns) seq
      ≡ done (r.0, beacon_packet host_name seq t.time_ns ∷ r.1)
unfolding send_loop
send_step host_name count seq t turns r h l c rest =
    let next : (seq + 1) % 2 ^ 64 ≡ seq + 1 = omega arith in
    let some_count : (count == 0) ≡ false = ground arith in
    let open_count : leb count (seq + 1) ≡ false = ground arith in
    rw (send_loop, h.0, h.1, next, some_count, open_count, rest) refl

send_loop_lem :
    (host_name : List ℕ) (count seq : ℕ) (t : Turn) (turns more : List Turn)
    → All IsUndisturbed (t ∷ turns)
    → seq + length (t ∷ turns) ≡ count
    → count < 2 ^ 64
    → send_loop host_name count (t ∷ (turns ++ more)) seq
      ≡ done (count, numbered host_name seq (t ∷ turns))
unfolding send_loop
send_loop_lem host_name count seq t [] more (h, _) l c =
    let next : (seq + 1) % 2 ^ 64 ≡ count = omega arith in
    let some_count : (count == 0) ≡ false = ground arith in
    let reached : leb count count ≡ true = ground arith in
    rw (send_loop, h.0, h.1, next, some_count, reached) refl
send_loop_lem host_name count seq t (t' ∷ turns) more (h, hs) l c =
    send_step host_name count seq t (t' ∷ (turns ++ more)) _ h (omega arith) c
      (send_loop_lem host_name count (seq + 1) t' turns more hs (omega arith) c)

length-numbered :
    (host_name : List ℕ) (seq : ℕ) (turns : List Turn)
    → length (numbered host_name seq turns) ≡ length turns
length-numbered host_name seq [] = refl
length-numbered host_name seq (t ∷ turns) = ap suc (length-numbered host_name (seq + 1) turns)

-- Where a count is given, and as long as nothing stops the loop, the sender sends exactly that many
-- beacons, numbered from 0 on, and ends; the number of packets that it shows is one too large.
pub run_sender_count :
    (host_name : List ℕ) (t : Turn) (turns more : List Turn)
    → All IsUndisturbed (t ∷ turns)
    → length (t ∷ turns) < 2 ^ 32
    → run_sender host_name (length (t ∷ turns)) (t ∷ (turns ++ more))
      ≡ done (length (numbered host_name 0 (t ∷ turns)) + 1, numbered host_name 0 (t ∷ turns))
unfolding run_sender
run_sender_count host_name t turns more h l =
    let many = length-numbered host_name 0 (t ∷ turns) in
    let shown : (length (t ∷ turns) + 1) % 2 ^ 64 ≡ length (numbered host_name 0 (t ∷ turns)) + 1 =
      omega arith in
    rw
      (
        run_sender,
        send_loop_lem host_name (length (t ∷ turns)) 0 t turns more h (omega arith) (omega arith),
      )
      (ap (λ n. done (n, numbered host_name 0 (t ∷ turns))) shown)
