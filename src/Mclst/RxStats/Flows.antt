-- ===== src/Mclst/RxStats/Flows.antt =====
-- The map and the ids of apps/mclst/RxStats.hpp, where packets are added one after the other.
use pimc_toolkit.Common.{
  ℕ, ◌+◌, ◌%◌, ◌^◌, ◌<◌, ◌≡◌, refl, sym, ap, ◌∙◌, inl, inr, Bool, false, ◌&&◌, ◌==◌, ==_iff,
  Bool-cases, Option-cases, if◌then◌else◌, List, [], ◌∷◌, ◌++◌, Option, none, some, length,
  length-append, sum_of, sum_of-append, append-nil, append_assoc, All, All-map, ltb, arith,
}
use pimc_toolkit.Net.Address.{IPv4Address}
use pimc_toolkit.Pimsm.SanityCheck.Sets.{contains, emplace, contains-emplace}
use pimc_toolkit.Pimsm.SanityCheck.Maps.{
  Map, find, try_emplace, modify, keys, contains-try_emplace, keys-modify,
}
use pimc_toolkit.Mclst.RxStats.{
  flow_id, flow_source, flow_sport, flow_dport, with_headers, FlowStats, flow_stats, add, RxStats,
  no_stats, update, Row,
}

-- A packet that is shown.
pub record Packet : Type 0 where
  pub source : IPv4Address
  pub sport : ℕ
  pub dport : ℕ
  pub udp_bytes : ℕ

pub record HasWidths (p : Packet) : Type 0 where
  pub source_bits : p.source < 2 ^ 32
  pub sport_bits : p.sport < 2 ^ 16
  pub dport_bits : p.dport < 2 ^ 16

abbrev pub update_all : RxStats → List Packet → RxStats
unfolding update
update_all rx [] = rx
update_all rx (p ∷ ps) = update_all (update p.source p.sport p.dport p.udp_bytes rx) ps

abbrev pub is_of : IPv4Address → ℕ → ℕ → Packet → Bool
is_of source sport dport p = p.source == source && p.sport == sport && p.dport == dport

-- The sizes of the payloads of the flow's packets.
abbrev pub sizes_of : IPv4Address → ℕ → ℕ → List Packet → List ℕ
sizes_of source sport dport [] = []
sizes_of source sport dport (p ∷ ps) =
    if is_of source sport dport p
    then p.udp_bytes ∷ sizes_of source sport dport ps
    else sizes_of source sport dport ps

-- The number of the packets and that of their bytes with 44 bytes of headers each, as far as 64 bits go.
abbrev pub totals : List ℕ → FlowStats
totals sizes = record { pkts = length sizes % 2 ^ 64; bytes = sum_of (λ n. 44 + n) sizes % 2 ^ 64 }

-- A row has the totals of its flow, which has packets.
abbrev pub IsTotal : List Packet → Row → Type 0
IsTotal ps r =
    (r.stats ≡ totals (sizes_of r.source r.sport r.dport ps))
    × (0 < length (sizes_of r.source r.sport r.dport ps))

flow_id-fields :
    (k source sport dport : ℕ)
    → source < 2 ^ 32
    → sport < 2 ^ 16
    → dport < 2 ^ 16
    → k < 2 ^ 64
    → (k == flow_id source sport dport)
      ≡ (source == flow_source k && sport == flow_sport k && dport == flow_dport k)
flow_id-fields k source sport dport h1 h2 h3 h4 = ground arith

abbrev pub IsIncreasing : List ℕ → Type 0
IsIncreasing [] = Unit
IsIncreasing (x ∷ xs) = All (λ y. x < y) xs × IsIncreasing xs

emplace-All : (P : ℕ → Type 0) (x : ℕ) (xs : List ℕ) → P x → All P xs → All P (emplace x xs).0
unfolding emplace
emplace-All P x [] p h = (p, tt)
emplace-All P x (y ∷ xs) p h = elim (Bool-cases (x == y)) [
  | inl a ↦ rw a h
  | inr a ↦ rw a (elim (Bool-cases (ltb x y)) [
    | inl b ↦ rw b (p, h)
    | inr b ↦ rw b (h.0, emplace-All P x xs p h.1)
  ])
]

emplace-IsIncreasing : (x : ℕ) (xs : List ℕ) → IsIncreasing xs → IsIncreasing (emplace x xs).0
unfolding emplace
emplace-IsIncreasing x [] h = (tt, tt)
emplace-IsIncreasing x (y ∷ xs) h = elim (Bool-cases (x == y)) [
  | inl a ↦ rw a h
  | inr a ↦ rw a (elim (Bool-cases (ltb x y)) [
    | inl b ↦
        let below : x < y = ground arith in
        rw b ((below, All-map (λ z. y < z) (λ z. x < z) xs (λ z k. omega arith) h.0), h)
    | inr b ↦
        let above : y < x = ground arith in
        rw b (emplace-All (λ z. y < z) x xs above h.0, emplace-IsIncreasing x xs h.1)
  ])
]

find-modify :
    (k g : ℕ) (f : FlowStats → FlowStats) (m : Map FlowStats) (v : FlowStats)
    → find g m ≡ some v
    → find k (modify g f m) ≡ (if k == g then some (f v) else find k m)
find-modify k g f [] v h = cc
find-modify k g f (e ∷ m) v h = elim (Bool-cases (g == e.0)) [
  | inl x ↦
      let this : some e.1 ≡ some v = rw x at h in
      let value : e.1 ≡ v = cc in
      let key : e.0 ≡ g = sym ((==_iff g e.0).0 x) in rw (x, key, value) (ground arith)
  | inr x ↦
      rw (x, find-modify k g f m v (rw x at h))
        (elim (Bool-cases (k == e.0)) [
          | inl y ↦ let other : (k == g) ≡ false = ground arith in rw (y, other) refl
          | inr y ↦ rw y refl
        ])
]

find-try_emplace :
    (k g : ℕ) (v : FlowStats) (m : Map FlowStats)
    → find g m ≡ none
    → find k (try_emplace g v m) ≡ (if k == g then some v else find k m)
find-try_emplace k g v [] h = refl
find-try_emplace k g v (e ∷ m) h = elim (Bool-cases (g == e.0)) [
  | inl x ↦ let wrong : some e.1 ≡ none = rw x at h in cc
  | inr x ↦
      rw (x, find-try_emplace k g v m (rw x at h))
        (elim (Bool-cases (k == e.0)) [
          | inl y ↦ let other : (k == g) ≡ false = ground arith in rw (y, other) refl
          | inr y ↦ rw y refl
        ])
]

abbrev pub id_of : Packet → ℕ
id_of p = flow_id p.source p.sport p.dport

-- The sizes of the packets with a flow id.
unfoldable pub sizes_at : ℕ → List Packet → List ℕ
sizes_at k [] = []
sizes_at k (p ∷ ps) = if k == id_of p then p.udp_bytes ∷ sizes_at k ps else sizes_at k ps

sizes_at-append :
    (k : ℕ) (seen : List Packet) (p : Packet)
    → sizes_at k (seen ++ (p ∷ []))
      ≡ sizes_at k seen ++ (if k == id_of p then p.udp_bytes ∷ [] else [])
unfolding sizes_at
sizes_at-append k [] p = elim (Bool-cases (k == id_of p)) [ inl x ↦ rw x refl | inr x ↦ rw x refl ]
sizes_at-append k (q ∷ seen) p = elim (Bool-cases (k == id_of q)) [
  | inl x ↦ rw x (ap (◌∷◌ q.udp_bytes) (sizes_at-append k seen p))
  | inr x ↦ rw x (sizes_at-append k seen p)
]

-- What the map holds for a flow whose packets have these sizes.
abbrev pub expected : List ℕ → Option FlowStats
expected [] = none
expected (b ∷ sizes) = some (totals (b ∷ sizes))

abbrev bumped : ℕ → Option FlowStats → FlowStats
bumped n none = flow_stats n
bumped n (some fs) = add n fs

totals-append : (sizes : List ℕ) (n : ℕ) → totals (sizes ++ (n ∷ [])) ≡ add n (totals sizes)
totals-append sizes n =
    let many : length (sizes ++ (n ∷ [])) ≡ length sizes + 1 = length-append sizes (n ∷ []) in
    let sum : sum_of (λ b. 44 + b) (sizes ++ (n ∷ [])) ≡ sum_of (λ b. 44 + b) sizes + (44 + n) =
      omega (arith, sum_of-append (λ b. 44 + b) sizes (n ∷ [])) in
    let p : length (sizes ++ (n ∷ [])) % 2 ^ 64 ≡ (length sizes % 2 ^ 64 + 1) % 2 ^ 64 =
      omega arith in
    let b : sum_of (λ b. 44 + b) (sizes ++ (n ∷ [])) % 2 ^ 64
        ≡ (sum_of (λ b. 44 + b) sizes % 2 ^ 64 + with_headers n) % 2 ^ 64 =
      omega arith in
    rw (p, b) refl

expected-append :
    (sizes : List ℕ) (n : ℕ) → expected (sizes ++ (n ∷ [])) ≡ some (bumped n (expected sizes))
expected-append [] n = ap (λ b. some (record { pkts = 1; bytes = b })) (omega arith)
expected-append (b ∷ sizes) n = ap some (totals-append (b ∷ sizes) n)

abbrev pub IsId : ℕ → Type 0
IsId k = k < 2 ^ 64

-- The map has the totals of all flows, and the ids are those of the map in increasing order.
pub record IsReport (seen : List Packet) (rx : RxStats) : Type 0 where
  pub found : (k : ℕ) → find k rx.fs_map ≡ expected (sizes_at k seen)
  pub known : (k : ℕ) → contains k rx.fids ≡ contains k (keys rx.fs_map)
  pub increasing : IsIncreasing rx.fids
  pub bounded : All IsId rx.fids

-- The sizes of a flow, where a packet is added.
expected_step :
    (k : ℕ) (seen : List Packet) (p : Packet)
    → (if k == id_of p
        then some (bumped p.udp_bytes (expected (sizes_at k seen)))
        else expected (sizes_at k seen))
      ≡ expected (sizes_at k (seen ++ (p ∷ [])))
expected_step k seen p = elim (Bool-cases (k == id_of p)) [
  | inl x ↦
      let sizes = rw x at (sizes_at-append k seen p) in
      rw (x, sizes) (sym (expected-append (sizes_at k seen) p.udp_bytes))
  | inr x ↦
      let sizes = rw x at (sizes_at-append k seen p) in
      rw (x, sizes) (ap expected (sym (append-nil (sizes_at k seen))))
]

found_step :
    (k : ℕ) (seen : List Packet) (p : Packet) (m : Map FlowStats) (v : FlowStats)
    → find k m ≡ expected (sizes_at k seen)
    → v ≡ bumped p.udp_bytes (find (id_of p) m)
    → (if k == id_of p then some v else find k m) ≡ expected (sizes_at k (seen ++ (p ∷ [])))
found_step k seen p m v found now = elim (Bool-cases (k == id_of p)) [
  | inl x ↦
      let same : id_of p ≡ k = sym ((==_iff k (id_of p)).0 x) in
      rw x (
        ap some (now ∙ ap (bumped p.udp_bytes) (ap (λ g. find g m) same ∙ found))
        ∙ (rw x at (expected_step k seen p)))
  | inr x ↦ rw x (found ∙ (rw x at (expected_step k seen p)))
]

update-IsReport :
    (seen : List Packet) (p : Packet) (rx : RxStats)
    → IsReport seen rx
    → IsReport (seen ++ (p ∷ [])) (update p.source p.sport p.dport p.udp_bytes rx)
unfolding update
update-IsReport seen p rx h = elim (Option-cases (find (id_of p) rx.fs_map)) [
  | inl new ↦
      rw (update, new)
        (record {
          found = λ k.
              find-try_emplace k (id_of p) (flow_stats p.udp_bytes) rx.fs_map new
              ∙ found_step k seen p rx.fs_map (flow_stats p.udp_bytes) (h.found k)
                  (ap (bumped p.udp_bytes) (sym new));
          known = λ k. ground (
            arith,
            contains-emplace k (id_of p) rx.fids,
            contains-try_emplace k (id_of p) (flow_stats p.udp_bytes) rx.fs_map,
            h.known k,
          );
          increasing = emplace-IsIncreasing (id_of p) rx.fids h.increasing;
          bounded = emplace-All IsId (id_of p) rx.fids (omega arith) h.bounded;
        })
  | inr (fs, old) ↦
      rw (update, old)
        (record {
          found = λ k.
              find-modify k (id_of p) (add p.udp_bytes) rx.fs_map fs old
              ∙ found_step k seen p rx.fs_map (add p.udp_bytes fs) (h.found k)
                  (ap (bumped p.udp_bytes) (sym old));
          known = λ k.
              h.known k ∙ ap (contains k) (sym (keys-modify (id_of p) (add p.udp_bytes) rx.fs_map));
          increasing = h.increasing;
          bounded = h.bounded;
        })
]

pub update_all-IsReport :
    (ps seen : List Packet) (rx : RxStats)
    → IsReport seen rx
    → IsReport (seen ++ ps) (update_all rx ps)
unfolding update
update_all-IsReport [] seen rx h = rw (append-nil seen) h
update_all-IsReport (p ∷ ps) seen rx h = rw⁻¹ (append_assoc seen (p ∷ []) ps) (
    update_all-IsReport ps (seen ++ (p ∷ [])) (update p.source p.sport p.dport p.udp_bytes rx)
      (update-IsReport seen p rx h))

pub no_stats-IsReport : IsReport [] no_stats
unfolding sizes_at
no_stats-IsReport = record { found = λ k. refl; known = λ k. refl; increasing = tt; bounded = tt }

pub sizes_at-fields :
    (k : ℕ) (ps : List Packet)
    → All HasWidths ps
    → k < 2 ^ 64
    → sizes_at k ps ≡ sizes_of (flow_source k) (flow_sport k) (flow_dport k) ps
unfolding sizes_at
sizes_at-fields k [] h b = refl
sizes_at-fields k (p ∷ ps) h b =
    rw
      (
        flow_id-fields k p.source p.sport p.dport h.0.source_bits h.0.sport_bits h.0.dport_bits b,
        sizes_at-fields k ps h.1 b,
      )
      refl
