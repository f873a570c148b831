-- ===== src/Mclst/RxStats/Report.antt =====
-- What apps/mclst/RxStats.hpp reports of the packets that it was told of.
use pimc_toolkit.Common.{
  ℕ, ◌<◌, ◌≡◌, refl, sym, ◌∙◌, inl, inr, true, ◌==◌, Bool-cases, Option-cases, List, [], ◌∷◌, some,
  length, map, All, All-map, Returns, arith,
}
use pimc_toolkit.Pimsm.SanityCheck.Sets.{contains}
use pimc_toolkit.Pimsm.SanityCheck.Maps.{Map, find, keys, find-none}
use pimc_toolkit.Mclst.RxStats.{
  flow_id, flow_source, flow_sport, flow_dport, FlowStats, no_stats, update, Row, for_each,
}
use pimc_toolkit.Mclst.RxStats.Flows.{
  HasWidths, IsId, IsIncreasing, IsTotal, Packet, expected, id_of, no_stats-IsReport, sizes_at,
  sizes_at-fields, totals, update_all, update_all-IsReport,
}

expected-some :
    (sizes : List ℕ) (fs : FlowStats)
    → expected sizes ≡ some fs
    → (fs ≡ totals sizes) × (0 < length sizes)
expected-some [] fs h = cc
expected-some (b ∷ sizes) fs h = (cc, omega arith)

abbrev pub row_id : Row → ℕ
row_id r = flow_id r.source r.sport r.dport

module _ (ps : List Packet) (widths : All HasWidths ps) (m : Map FlowStats)
    (found : (k : ℕ) → find k m ≡ expected (sizes_at k ps)) where
  for_each_lem :
      (fids : List ℕ)
      → All IsId fids
      → ((k : ℕ) → contains k fids ≡ true → contains k (keys m) ≡ true)
      → Returns (λ rows. All (IsTotal ps) rows × (map row_id rows ≡ fids)) (for_each fids m)
  unfolding for_each
  for_each_lem [] bounded known = ([], refl, (tt, refl))
  for_each_lem (k ∷ fids) bounded known = elim (Option-cases (find k m)) [
    | inl missing ↦
        let there = known k (ground arith) in let not_there = find-none k m missing in cc
    | inr (fs, here) ↦
        let (rows, e, (totals_are, ids)) =
          for_each_lem fids bounded.1 (λ j y. known j (ground arith)) in
        let sizes = sizes_at-fields k ps widths bounded.0 in
        let total = expected-some (sizes_at k ps) fs (sym (found k) ∙ here) in
        let id_is : flow_id (flow_source k) (flow_sport k) (flow_dport k) ≡ k =
          omega (arith, bounded.0) in
        rw (here, e) (_, refl, ((rw sizes at total, totals_are), rw (id_is, ids) refl))
  ]

sizes_at_more :
    (k : ℕ) (q : Packet) (ps : List Packet)
    → 0 < length (sizes_at k ps)
    → 0 < length (sizes_at k (q ∷ ps))
unfolding sizes_at
sizes_at_more k q ps h = elim (Bool-cases (k == id_of q)) [
  | inl x ↦ rw x (omega arith)
  | inr x ↦ rw x h
]

-- Each packet counts for its flow.
sizes_at_own : (ps : List Packet) → All (λ p. 0 < length (sizes_at (id_of p) ps)) ps
unfolding sizes_at
sizes_at_own [] = tt
sizes_at_own (p ∷ ps) =
    let same : (id_of p == id_of p) ≡ true = ground arith in
    (
      rw same (omega arith),
      All-map (λ q. 0 < length (sizes_at (id_of q) ps))
          (λ q. 0 < length (sizes_at (id_of q) (p ∷ ps))) ps (λ q. sizes_at_more (id_of q) p ps)
          (sizes_at_own ps),
    )

contains-keys :
    (k : ℕ) (m : Map FlowStats) (sizes : List ℕ)
    → find k m ≡ expected sizes
    → 0 < length sizes
    → contains k (keys m) ≡ true
contains-keys k [] [] h l = absurd (omega arith)
contains-keys k [] (b ∷ sizes) h l = cc
contains-keys k (e ∷ m) sizes h l = elim (Bool-cases (k == e.0)) [
  | inl x ↦ rw x refl
  | inr x ↦ rw x (contains-keys k m sizes (rw x at h) l)
]

-- The report on a list of packets: each row has the totals of its flow, the rows come in increasing
-- order of their flow ids, and there is a row for the flow of each packet.
pub record IsReportOf (ps : List Packet) (rows : List Row) : Type 0 where
  pub totals_are : All (IsTotal ps) rows
  pub increasing : IsIncreasing (map row_id rows)
  pub complete : All (λ p. contains (id_of p) (map row_id rows) ≡ true) ps

-- The statistics that are updated with packets one after the other are reported without an access out
-- of the map, and the report is right: the number of the packets and of their bytes of each flow, with
-- the headers and as far as 64 bits go, one row for a flow, in increasing order of the flow ids.
pub rx_stats_report :
    (ps : List Packet)
    → All HasWidths ps
    → Returns
        (IsReportOf ps)
        (for_each (update_all no_stats ps).fids (update_all no_stats ps).fs_map)
unfolding update for_each
rx_stats_report ps widths =
    let report = update_all-IsReport ps [] no_stats no_stats-IsReport in
    let rx = update_all no_stats ps in
    let (rows, e, (totals_are, ids)) =
      for_each_lem ps widths rx.fs_map report.found rx.fids report.bounded
        (λ k h. sym (report.known k) ∙ h) in
    (
      rows,
      e,
      record {
        totals_are = totals_are;
        increasing = rw ids report.increasing;
        complete = rw ids (
            All-map (λ p. 0 < length (sizes_at (id_of p) ps))
              (λ p. contains (id_of p) rx.fids ≡ true) ps
              (λ p h.
                report.known (id_of p)
                ∙ contains-keys (id_of p) rx.fs_map _ (report.found (id_of p)) h)
              (sizes_at_own ps));
      },
    )
