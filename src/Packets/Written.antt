-- ===== src/Packets/Written.antt =====
-- What the constructor of the Join/Prune packet writes: the encoding of the update, to the last byte
-- of the region.
use pimc_toolkit.Common.{
  ℕ, ◌+◌, ◌*◌, ◌%◌, ◌^◌, ◌≤◌, ◌<◌, ◌≡◌, refl, ◌∙◌, ap, List, [], ◌∷◌, ◌++◌, append_assoc,
  append-nil, length, sum_of, done, arith,
}
use pimc_toolkit.Net.Address.{IPv4Address}
use pimc_toolkit.Pimsm.Params.{jp_capacity}
use pimc_toolkit.Pimsm.Update.{Source, GroupEntry, byte_size}
use pimc_toolkit.Packets.Writer.{written, emit_all}
use pimc_toolkit.Packets.Pim.{write_ipv4_jp_hdr}
use pimc_toolkit.Packets.Encoding.{
  octets, number16, encoded_source, encoded_sources, encoded_group, encoded_group_header,
  encoded_groups, encoded_jp_header, bytes16-htons, write_ipv4_addr_lem, write_ipv4_grp_lem,
  write_ipv4_src_lem,
}
use pimc_toolkit.Packets.UpdatePacket.{write_sources, write_group_entry, write_group_entries}

write_sources_lem :
    (start : ℕ) (pre : List ℕ) (ss : List Source) (k r : ℕ)
    → r ≡ 8 * length ss + k
    → write_sources ss (written start pre r) ≡ done (written start (pre ++ encoded_sources ss) k)
unfolding write_sources encoded_sources
write_sources_lem start pre [] k r h =
    let left : r ≡ k = omega arith in rw (append-nil pre, left) refl
write_sources_lem start pre (s ∷ ss) k r h =
    rw (write_ipv4_src_lem start pre s (8 * length ss + k) r (omega arith)) (
      write_sources_lem start (pre ++ encoded_source s) ss k (8 * length ss + k) refl
      ∙ ap (λ z. done (written start z k))
          (append_assoc pre (encoded_source s) (encoded_sources ss)))

write_group_entry_lem :
    (start : ℕ) (pre : List ℕ) (ge : GroupEntry) (k r : ℕ)
    → length ge.joins < 2 ^ 16
    → length ge.prunes < 2 ^ 16
    → r ≡ byte_size ge + k
    → write_group_entry ge (written start pre r) ≡ done (written start (pre ++ encoded_group ge) k)
unfolding write_group_entry encoded_group
write_group_entry_lem start pre ge k r hj hp h =
    let nj = length ge.joins in
    let np = length ge.prunes in
    let js = encoded_sources ge.joins in
    let ps = encoded_sources ge.prunes in
    let g = 1 ∷ 0 ∷ 0 ∷ 32 ∷ octets ge.group in
    let exact_j : nj % 2 ^ 16 ≡ nj = omega arith in
    let exact_p : np % 2 ^ 16 ≡ np = omega arith in
    let joined : (((((pre ++ g) ++ number16 nj) ++ number16 np) ++ js) ++ ps)
        ≡ pre ++ (encoded_group_header ge ++ (js ++ ps)) =
      simp (append_assoc) in
    rw
      (
        write_ipv4_grp_lem start pre ge.group (4 + (8 * nj + (8 * np + k))) r (omega arith),
        exact_j,
        bytes16-htons nj,
        emit_all start (pre ++ g) (number16 nj) 2 (2 + (8 * nj + (8 * np + k)))
            (4 + (8 * nj + (8 * np + k))) refl (omega arith),
        exact_p,
        bytes16-htons np,
        emit_all start ((pre ++ g) ++ number16 nj) (number16 np) 2 (8 * nj + (8 * np + k))
            (2 + (8 * nj + (8 * np + k))) refl refl,
        write_sources_lem start (((pre ++ g) ++ number16 nj) ++ number16 np) ge.joins (8 * np + k)
            (8 * nj + (8 * np + k)) refl,
      )
      (write_sources_lem start ((((pre ++ g) ++ number16 nj) ++ number16 np) ++ js) ge.prunes k
          (8 * np + k) refl
        ∙ ap (λ z. done (written start z k)) joined)

pub write_group_entries_lem :
    (start : ℕ) (pre : List ℕ) (gs : List GroupEntry) (k r : ℕ)
    → sum_of byte_size gs ≤ jp_capacity
    → r ≡ sum_of byte_size gs + k
    → write_group_entries gs (written start pre r)
      ≡ done (written start (pre ++ encoded_groups gs) k)
unfolding write_group_entries encoded_groups
write_group_entries_lem start pre [] k r small h =
    let left : r ≡ k = omega arith in rw (append-nil pre, left) refl
write_group_entries_lem start pre (ge ∷ gs) k r small h =
    rw
      (write_group_entry_lem start pre ge (sum_of byte_size gs + k) r (omega arith) (omega arith)
        (omega arith))
      (write_group_entries_lem start (pre ++ encoded_group ge) gs k (sum_of byte_size gs + k)
          (omega arith) refl
        ∙ ap (λ z. done (written start z k))
            (append_assoc pre (encoded_group ge) (encoded_groups gs)))

pub write_ipv4_jp_hdr_lem :
    (start : ℕ) (pre : List ℕ) (neighbor : IPv4Address) (groups holdtime k r : ℕ)
    → r ≡ 10 + k
    → write_ipv4_jp_hdr (written start pre r) neighbor (groups % 2 ^ 8) holdtime
      ≡ done (written start (pre ++ encoded_jp_header neighbor groups holdtime) k)
unfolding write_ipv4_jp_hdr
write_ipv4_jp_hdr_lem start pre neighbor groups holdtime k r h =
    let a = 1 ∷ 0 ∷ octets neighbor in
    let joined : ((((pre ++ a) ++ (0 ∷ [])) ++ ((groups % 2 ^ 8) ∷ [])) ++ number16 holdtime)
        ≡ pre ++ encoded_jp_header neighbor groups holdtime =
      simp (append_assoc) in
    rw
      (
        write_ipv4_addr_lem start pre neighbor (4 + k) r (omega arith),
        emit_all start (pre ++ a) (0 ∷ []) 1 (3 + k) (4 + k) refl (omega arith),
        emit_all start ((pre ++ a) ++ (0 ∷ [])) ((groups % 2 ^ 8) ∷ []) 1 (2 + k) (3 + k) refl
            (omega arith),
        bytes16-htons holdtime,
      )
      (emit_all start (((pre ++ a) ++ (0 ∷ [])) ++ ((groups % 2 ^ 8) ∷ [])) (number16 holdtime) 2 k
          (2 + k) refl refl
        ∙ ap (λ z. done (written start z k)) joined)
