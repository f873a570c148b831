-- ===== src/Pimsm/SanityCheck/Totals.antt =====
-- What a list of entries, or a configuration, holds for one group.
use pimc_toolkit.Common.{
  ℕ, zero, suc, ◌+◌, ◌≤◌, ◌≡◌, refl, sym, ◌∙◌, done, List, [], ◌∷◌, ◌++◌, true, false, Option, none,
  some, ◌==◌, ==_iff, if◌then◌else◌, Bool-cases, inl, inr, sum_of, sum_of-append, All, get_elem?,
  arith,
}
use pimc_toolkit.Net.Address.{IPv4Address}
use pimc_toolkit.Pimsm.Config.{Rpt, GroupConfig, JpConfig}
use pimc_toolkit.Pimsm.Update.{Source, GroupEntry, Update}
use pimc_toolkit.Pimsm.GroupEntryBuilder.{spt_source, rp_source, sgrpt_source}
use pimc_toolkit.Pimsm.Pack.Weight.{
  groups_weight, updates_weight, config_weight, spt_weight, rpt_part, entry_weight,
}
use pimc_toolkit.Pimsm.Pack.{pack}
use pimc_toolkit.Pimsm.Pack.Search.{PrunesFit}
use pimc_toolkit.Pimsm.Pack.Correct.{pack_exact}
use pimc_toolkit.Pimsm.SanityCheck.Sets.{contains}

-- No two elements have the same key.
module _ {ℓ} {A : Type ℓ} (key : A → IPv4Address) where
  abbrev pub keys_of : List A → List IPv4Address
  keys_of [] = []
  keys_of (x ∷ xs) = key x ∷ keys_of xs

  abbrev pub Distinct : List A → Type 0
  Distinct [] = Unit {0}
  Distinct (x ∷ xs) = (contains (key x) (keys_of xs) ≡ false) × Distinct xs

  -- The elements with key `g`, weighed.
  abbrev pub total : (A → ℕ) → IPv4Address → List A → ℕ
  total w g xs = sum_of (λ x. if g == key x then w x else 0) xs

  pub contains_get :
      (xs : List A) (i : ℕ) (x : A) → get_elem? xs i ≡ some x → contains (key x) (keys_of xs) ≡ true
  contains_get [] i x e = cc
  contains_get (y ∷ xs) zero x e = let same : y ≡ x = cc in rw same (ground arith)
  contains_get (y ∷ xs) (suc i) x e = ground (arith, contains_get xs i x e)

  module _ (w : A → ℕ) where
    pub total_absent :
        (g : IPv4Address) (xs : List A) → contains g (keys_of xs) ≡ false → total w g xs ≡ 0
    total_absent g [] h = refl
    total_absent g (x ∷ xs) h = ground (arith, total_absent g xs)

    -- An element is all that there is with its key.
    pub total_own :
        (xs : List A) (i : ℕ) (x : A)
        → Distinct xs
        → get_elem? xs i ≡ some x
        → total w (key x) xs ≡ w x
    total_own [] i x d e = cc
    total_own (y ∷ xs) zero x d e =
        let same : y ≡ x = cc in
        let none_left : contains (key x) (keys_of xs) ≡ false = rw same at d.0 in
        rw same (ground (arith, total_absent (key x) xs none_left))
    total_own (y ∷ xs) (suc i) x d e =
        ground (arith, total_own xs i x d.1 e, contains_get xs i x e, d.0)

    pub total-le :
        (n : ℕ) (g : IPv4Address) (xs : List A)
        → Distinct xs
        → All (λ x. w x ≤ n) xs
        → total w g xs ≤ n
    total-le n g [] d h = omega arith
    total-le n g (x ∷ xs) d h = elim (Bool-cases (g == key x)) [
      | inl e ↦
          let same : g ≡ key x = (==_iff g (key x)).0 e in
          let gone : total w g xs ≡ 0 = total_absent g xs (rw same d.0) in
          rw e (omega (arith, gone, h.0))
      | inr e ↦ rw e (omega (arith, total-le n g xs d.1 h.1))
    ]

-- A weight of the sources of one group.
abbrev pub on : IPv4Address → (Source → ℕ) → IPv4Address → Source → ℕ
on g f h s = if g == h then f s else 0

abbrev pub nothing : IPv4Address → Source → ℕ
nothing g s = 0

abbrev pub joins_of : (Source → ℕ) → GroupEntry → ℕ
joins_of f e = sum_of f e.joins

abbrev pub prunes_of : (Source → ℕ) → GroupEntry → ℕ
prunes_of f e = sum_of f e.prunes

abbrev pub rp_part : (Source → ℕ) → Option Rpt → ℕ
rp_part f none = 0
rp_part f (some r) = f (rp_source r.rp)

abbrev pub prune_part : (Source → ℕ) → Option Rpt → ℕ
prune_part f none = 0
prune_part f (some r) = sum_of (λ a. f (sgrpt_source true a)) r.prunes

abbrev pub cfg_joins : (Source → ℕ) → GroupConfig → ℕ
cfg_joins f ge = sum_of (λ a. f (spt_source a)) ge.spt + rp_part f ge.rpt

abbrev pub cfg_prunes : (Source → ℕ) → GroupConfig → ℕ
cfg_prunes f ge = prune_part f ge.rpt

sum_of-nothing : (g : IPv4Address) (ss : List Source) → sum_of (nothing g) ss ≡ 0
sum_of-nothing g [] = refl
sum_of-nothing g (s ∷ ss) = omega (arith, sum_of-nothing g ss)

module _ (g : IPv4Address) (f : Source → ℕ) where
  sum_of-on :
      (h : IPv4Address) (ss : List Source)
      → sum_of (on g f h) ss ≡ (if g == h then sum_of f ss else 0)
  sum_of-on h [] = ground arith
  sum_of-on h (s ∷ ss) = ground (arith, sum_of-on h ss)

  entries-joins :
      (es : List GroupEntry)
      → groups_weight (on g f) nothing es ≡ total (λ e. e.group) (joins_of f) g es
  entries-joins [] = refl
  entries-joins (e ∷ es) =
      omega (arith, entries-joins es, sum_of-nothing e.group e.prunes, sum_of-on e.group e.joins)

  entries-prunes :
      (es : List GroupEntry)
      → groups_weight nothing (on g f) es ≡ total (λ e. e.group) (prunes_of f) g es
  entries-prunes [] = refl
  entries-prunes (e ∷ es) =
      omega (arith, entries-prunes es, sum_of-nothing e.group e.joins, sum_of-on e.group e.prunes)

  own_spt :
      (h : IPv4Address) (spt : List IPv4Address)
      → spt_weight (on g f) nothing h spt
        ≡ (if g == h then sum_of (λ a. f (spt_source a)) spt else 0)
  own_spt h [] = ground arith
  own_spt h (a ∷ spt) = ground (arith, own_spt h spt)

  own_prunes :
      (h : IPv4Address) (prunes : List IPv4Address)
      → sum_of (λ a. on g f h (sgrpt_source true a)) prunes
        ≡ (if g == h then sum_of (λ a. f (sgrpt_source true a)) prunes else 0)
  own_prunes h [] = ground arith
  own_prunes h (a ∷ prunes) = ground (arith, own_prunes h prunes)

  own_none :
      (h : IPv4Address) (o : Option Rpt)
      → rpt_part (on g f) nothing h o ≡ (if g == h then rp_part f o else 0)
  own_none h none = ground arith
  own_none h (some r) = ground (arith, unpruned r.prunes)
    where
      unpruned :
          (prunes : List IPv4Address) → sum_of (λ a. nothing h (sgrpt_source true a)) prunes ≡ 0
      unpruned [] = refl
      unpruned (a ∷ prunes) = omega (arith, unpruned prunes)

  own_rpt :
      (h : IPv4Address) (o : Option Rpt)
      → rpt_part nothing (on g f) h o ≡ (if g == h then prune_part f o else 0)
  own_rpt h none = ground arith
  own_rpt h (some r) = omega (arith, own_prunes h r.prunes)

  unjoined : (h : IPv4Address) (spt : List IPv4Address) → spt_weight nothing (on g f) h spt ≡ 0
  unjoined h [] = refl
  unjoined h (a ∷ spt) = omega (arith, unjoined h spt)

  config-joins :
      (gs : List GroupConfig)
      → config_weight (on g f) nothing gs ≡ total (λ ge. ge.group) (cfg_joins f) g gs
  config-joins [] = refl
  config-joins (ge ∷ gs) =
      ground (arith, config-joins gs, own_spt ge.group ge.spt, own_none ge.group ge.rpt)

  config-prunes :
      (gs : List GroupConfig)
      → config_weight nothing (on g f) gs ≡ total (λ ge. ge.group) (cfg_prunes f) g gs
  config-prunes [] = refl
  config-prunes (ge ∷ gs) =
      ground (arith, config-prunes gs, unjoined ge.group ge.spt, own_rpt ge.group ge.rpt)

-- The entries of all updates, in their order.
abbrev pub entries : List Update → List GroupEntry
entries [] = []
entries (u ∷ us) = u.groups ++ entries us

entries-weight :
    (w v : IPv4Address → Source → ℕ) (us : List Update)
    → updates_weight w v us ≡ groups_weight w v (entries us)
entries-weight w v [] = refl
entries-weight w v (u ∷ us) =
    omega (arith, entries-weight w v us, sum_of-append (entry_weight w v) u.groups (entries us))

-- What the updates join for a group, and what they prune, is what the configuration does.
module _ (cfg : JpConfig) (us : List Update) (fit : All (λ ge. PrunesFit ge.rpt) cfg.groups)
    (packed : pack cfg ≡ done us) where
  pub packed_joins :
      (f : Source → ℕ) (g : IPv4Address)
      → total (λ e. e.group) (joins_of f) g (entries us)
        ≡ total (λ ge. ge.group) (cfg_joins f) g cfg.groups
  packed_joins f g =
      sym (entries-joins g f (entries us))
      ∙ sym (entries-weight (on g f) nothing us)
      ∙ pack_exact (on g f) nothing cfg us fit packed
      ∙ config-joins g f cfg.groups

  pub packed_prunes :
      (f : Source → ℕ) (g : IPv4Address)
      → total (λ e. e.group) (prunes_of f) g (entries us)
        ≡ total (λ ge. ge.group) (cfg_prunes f) g cfg.groups
  packed_prunes f g =
      sym (entries-prunes g f (entries us))
      ∙ sym (entries-weight nothing (on g f) us)
      ∙ pack_exact nothing (on g f) cfg us fit packed
      ∙ config-prunes g f cfg.groups
