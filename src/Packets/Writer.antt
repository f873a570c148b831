-- ===== src/Packets/Writer.antt =====
-- lib/pimc/packets/PacketWriter.hpp. The memory region of a packet is the list of its bytes, and a
-- pointer into it is an offset; a store outside the region is undefined behaviour.
use pimc_toolkit.Common.{
  ℕ, zero, suc, ◌+◌, ◌-◌, ◌*◌, ◌/◌, ◌%◌, ◌^◌, ◌≡◌, refl, sym, ◌∙◌, ap, List, [], ◌∷◌, ◌++◌,
  append_assoc, append-nil, length, length-append, Run, done, fault, ◌>>=◌, arith,
}

pub record PacketWriter : Type 0 where
  pub memory : List ℕ
  pub start : ℕ
  pub stop : ℕ

-- `PacketWriter{m}`, at an offset of the region.
abbrev pub writer_at : List ℕ → ℕ → PacketWriter
writer_at memory m = record { memory = memory; start = m; stop = m }

abbrev pub size : PacketWriter → ℕ
size pw = pw.stop - pw.start

abbrev pub mark : PacketWriter → PacketWriter
mark pw = record pw { start = pw.stop }

-- `next<T>` for an object of `n` bytes: the offset of the object, and the writer behind it.
abbrev pub next : PacketWriter → ℕ → ℕ × PacketWriter
next pw n = (pw.stop, record pw { stop = pw.stop + n })

-- The bytes are stored from the offset on.
unfoldable pub store : ℕ → List ℕ → List ℕ → Run (List ℕ)
store i [] memory = done memory
store i (b ∷ bs) [] = fault
store zero (b ∷ bs) (m ∷ memory) = store zero bs memory >>= λ r. done (b ∷ r)
store (suc i) (b ∷ bs) (m ∷ memory) = store i (b ∷ bs) memory >>= λ r. done (m ∷ r)

abbrev pub put : PacketWriter → ℕ → List ℕ → Run PacketWriter
put pw p bs = store p bs pw.memory >>= λ m. done (record pw { memory = m })

-- An object of `n` bytes is allocated, and its first fields are assigned: `bs` are their bytes.
unfoldable pub emit : PacketWriter → ℕ → List ℕ → Run PacketWriter
unfolding store
emit pw n bs = put (next pw n).1 (next pw n).0 bs

-- The bytes of a number in memory, the least significant byte first.
abbrev pub bytes16 : ℕ → List ℕ
bytes16 x = x % 2 ^ 8 ∷ x / 2 ^ 8 % 2 ^ 8 ∷ []

abbrev pub bytes32 : ℕ → List ℕ
bytes32 x = x % 2 ^ 8 ∷ x / 2 ^ 8 % 2 ^ 8 ∷ x / 2 ^ 16 % 2 ^ 8 ∷ x / 2 ^ 24 % 2 ^ 8 ∷ []

-- `htons`, which is also `ntohs`.
abbrev pub htons : ℕ → ℕ
htons x = x % 2 ^ 8 * 2 ^ 8 + x / 2 ^ 8 % 2 ^ 8

-- A vector of `n` bytes that `resize` has filled with zeros.
unfoldable pub zeros : ℕ → List ℕ
zeros zero = []
zeros (suc n) = 0 ∷ zeros n

-- The writer that has written `pre`, with `k` bytes of the region left.
abbrev pub written : ℕ → List ℕ → ℕ → PacketWriter
written start pre k = record { memory = pre ++ zeros k; start = start; stop = length pre }

pub length-zeros : (k : ℕ) → length (zeros k) ≡ k
unfolding zeros
length-zeros zero = refl
length-zeros (suc k) = ap suc (length-zeros k)

pub zeros_split : (j k n : ℕ) → n ≡ j + k → zeros n ≡ zeros j ++ zeros k
unfolding zeros
zeros_split zero k n h = ap zeros (omega arith)
zeros_split (suc j) k zero h = ground arith
zeros_split (suc j) k (suc n) h = ap (λ z. 0 ∷ z) (zeros_split j k n (omega arith))

store-zeros :
    (bs : List ℕ) (j n : ℕ) → n ≡ length bs + j → store zero bs (zeros n) ≡ done (bs ++ zeros j)
unfolding store zeros
store-zeros [] j n h = ap (λ m. done (zeros m)) (omega arith)
store-zeros (b ∷ bs) j zero h = ground arith
store-zeros (b ∷ bs) j (suc n) h = rw (store-zeros bs j n (omega arith)) refl

store_behind :
    (pre bs rest new : List ℕ)
    → store zero bs rest ≡ done new
    → store (length pre) bs (pre ++ rest) ≡ done (pre ++ new)
unfolding store
store_behind [] bs rest new h = h
store_behind (x ∷ pre) [] rest new h =
    let same : rest ≡ new = cc in ap (λ r. done (x ∷ (pre ++ r))) same
store_behind (x ∷ pre) (b ∷ bs) rest new h = rw (store_behind pre (b ∷ bs) rest new h) refl

-- An object whose first fields are assigned is written behind what is there; its other bytes keep the
-- zeros of the region.
pub emit_lem :
    (start : ℕ) (pre bs : List ℕ) (n j k r : ℕ)
    → length bs + j ≡ n
    → r ≡ n + k
    → emit (written start pre r) n bs ≡ done (written start (pre ++ (bs ++ zeros j)) k)
unfolding emit
emit_lem start pre bs n j k r hn hr =
    let stored : store (length pre) bs (pre ++ zeros r) ≡ done (pre ++ (bs ++ zeros (j + k))) =
      store_behind pre bs (zeros r) (bs ++ zeros (j + k))
        (store-zeros bs (j + k) r (omega arith)) in
    let joined : pre ++ (bs ++ zeros (j + k)) ≡ (pre ++ (bs ++ zeros j)) ++ zeros k =
      ap (λ z. pre ++ (bs ++ z)) (zeros_split j k (j + k) refl)
      ∙ ap (λ z. pre ++ z) (sym (append_assoc bs (zeros j) (zeros k)))
      ∙ sym (append_assoc pre (bs ++ zeros j) (zeros k)) in
    let stop : length pre + n ≡ length (pre ++ (bs ++ zeros j)) =
      omega
        (arith, length-append pre (bs ++ zeros j), length-append bs (zeros j), length-zeros j) in
    rw stored (
      ap (λ m. done (record { memory = m; start = start; stop = length pre + n })) joined
      ∙ ap
          (λ e.
            done (record { memory = (pre ++ (bs ++ zeros j)) ++ zeros k; start = start; stop = e }))
          stop)

-- An object whose fields are all assigned.
pub emit_all :
    (start : ℕ) (pre bs : List ℕ) (n k r : ℕ)
    → length bs ≡ n
    → r ≡ n + k
    → emit (written start pre r) n bs ≡ done (written start (pre ++ bs) k)
unfolding zeros
emit_all start pre bs n k r hn hr =
    emit_lem start pre bs n 0 k r (omega arith) hr
    ∙ ap (λ b. done (written start (pre ++ b) k)) (append-nil bs)
