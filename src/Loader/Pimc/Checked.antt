-- ===== src/Loader/Pimc/Checked.antt =====
-- What the whole loader gives: a configuration whose updates have passed both checks.
use pimc_toolkit.Common.{
  ℕ, ◌≡◌, ◌⊎◌, ◌↔◌, refl, sym, ◌∙◌, List, [], ◌∷◌, ◌++◌, Bool, true, false, not, ◌||◌, some,
  Option-cases, Bool-cases, inl, inr, if◌then◌else◌, Run, done, raised, fault, stuck, logic_error,
  value, ◌>>=◌, Holds, Holds->>=, All, All-map,
}
use pimc_toolkit.Core.Result.{Result, ok, err}
use pimc_toolkit.Net.IntfTable.{IntfTable}
use pimc_toolkit.Pimsm.Config.{JpConfig}
use pimc_toolkit.Pimsm.Update.{Update}
use pimc_toolkit.Pimsm.Pack.{pack}
use pimc_toolkit.Pimsm.Pack.Search.{PrunesFit}
use pimc_toolkit.Pimsm.InversePack.{inverse_pack}
use pimc_toolkit.Pimsm.SanityCheck.Errors.{Message}
use pimc_toolkit.Pimsm.SanityCheck.Compare.{verify_updates}
use pimc_toolkit.Pimsm.SanityCheck.Inverse.{verify_inverse_updates}
use pimc_toolkit.Pimsm.SanityCheck.Verify.{IsProper, IsApart, Joins, verify_updates-pack}
use pimc_toolkit.Loader.Errors.{ErrorContext, untitled}
use pimc_toolkit.Loader.Yaml.{
  YamlLib, ValueContext, MappingContext, get_mapping, required, optional,
}
use pimc_toolkit.Loader.Multicast.{load_jp_config}
use pimc_toolkit.Loader.Multicast.Proper.{IsLoaded, IsLoadedGroup, load_jp_config-IsLoaded}
use pimc_toolkit.Loader.Logging.{Files, load_logging_config}
use pimc_toolkit.Loader.Pimsm.{load_pimsm_config}
use pimc_toolkit.Loader.Pimc.{
  PimcConfig, PimcLoader, make_pimc, has_config, chk_errors, keep, f_logging, f_pim, f_multicast,
  load_pim_part, load_jp_part, load_pimc_mapping, load_pimc, or_throw, packed_updates,
  packed_inverse_updates, assemble, build, no_errors, load_pimc_config,
}

pub loaded-IsProper : (cfg : JpConfig) → IsLoaded cfg → IsProper cfg
loaded-IsProper cfg l = record {
  distinct = l.distinct;
  apart = All-map IsLoadedGroup IsApart cfg.groups (λ ge g. g.apart) l.groups;
}

pub loaded-PrunesFit : (cfg : JpConfig) → IsLoaded cfg → All (λ ge. PrunesFit ge.rpt) cfg.groups
loaded-PrunesFit cfg l =
    All-map IsLoadedGroup (λ ge. PrunesFit ge.rpt) cfg.groups (λ ge g. g.prunes_fit) l.groups

-- The updates of a configuration as the multicast loader returns it: where each group joins something,
-- they are packed and pass the check; where one does not, which the loader lets pass, `build` throws a
-- std::logic_error.
pub packed_updates_cases :
    (cfg : JpConfig)
    → IsLoaded cfg
    → ((us : List Update) × (packed_updates cfg ≡ done us)
        × (pack cfg ≡ done us)
        × All Joins cfg.groups)
      ⊎ ((packed_updates cfg ≡ raised logic_error) × (All Joins cfg.groups → ⊥))
unfolding packed_updates
packed_updates_cases cfg l =
    let (us, packed, iff) =
      verify_updates-pack cfg (loaded-PrunesFit cfg l) (loaded-IsProper cfg l) in
    by_check us packed iff (verify_updates cfg us) refl
  where
    by_check :
        (us : List Update)
        → pack cfg ≡ done us
        → (verify_updates cfg us ≡ ok tt) ↔ All Joins cfg.groups
        → (r : Result (Unit {0}) (List Message)) → verify_updates cfg us ≡ r
        → ((us : List Update) × (packed_updates cfg ≡ done us)
            × (pack cfg ≡ done us)
            × All Joins cfg.groups)
          ⊎ ((packed_updates cfg ≡ raised logic_error) × (All Joins cfg.groups → ⊥))
    by_check us packed iff (ok tt) e =
        inl (us, rw (packed_updates, packed, e) refl, packed, iff.0 e)
    by_check us packed iff (err ms) e = inr (
      rw (packed_updates, packed, e) refl,
      λ joins. let passed : err ms ≡ ok tt = sym e ∙ iff.1 joins in cc,
    )

-- What `build` promises of a configuration that it returns.
pub record IsChecked (c : PimcConfig) : Type 0 where
  pub packed : pack c.jp_config ≡ done c.updates
  pub verified : verify_updates c.jp_config c.updates ≡ ok tt
  pub inverse_packed : inverse_pack c.jp_config ≡ done c.inverse_updates
  pub inverse_verified : verify_inverse_updates c.jp_config c.inverse_updates ≡ ok tt
  pub loaded : IsLoaded c.jp_config

-- A value with the equation that gives it.
with_equation : {A : Type 0} (r : Run A) → Holds (λ a. r ≡ done a) r
with_equation (done a) = refl
with_equation (raised e) = tt
with_equation fault = tt
with_equation stuck = tt

abbrev Passes : JpConfig → List Update → Type 0
Passes jp us = (pack jp ≡ done us) × (verify_updates jp us ≡ ok tt)

abbrev PassesInverse : JpConfig → List Update → Type 0
PassesInverse jp us = (inverse_pack jp ≡ done us) × (verify_inverse_updates jp us ≡ ok tt)

packed_updates_lem : (jp : JpConfig) → Holds (Passes jp) (packed_updates jp)
unfolding packed_updates
packed_updates_lem jp =
    Holds->>= (λ us. pack jp ≡ done us) (Passes jp) (pack jp) _ (with_equation (pack jp))
      (λ us e. by_check us e (verify_updates jp us) refl)
  where
    by_check :
        (us : List Update)
        → pack jp ≡ done us
        → (r : Result (Unit {0}) (List Message)) → verify_updates jp us ≡ r
        → Holds (Passes jp) (or_throw (verify_updates jp us) >>= λ _. done us)
    by_check us e (ok tt) r = rw r (e, r)
    by_check us e (err ms) r = rw r tt

packed_inverse_updates_lem : (jp : JpConfig) → Holds (PassesInverse jp) (packed_inverse_updates jp)
unfolding packed_inverse_updates
packed_inverse_updates_lem jp =
    Holds->>= (λ us. inverse_pack jp ≡ done us) (PassesInverse jp) (inverse_pack jp) _
      (with_equation (inverse_pack jp)) (λ us e. by_check us e (verify_inverse_updates jp us) refl)
  where
    by_check :
        (us : List Update)
        → inverse_pack jp ≡ done us
        → (r : Result (Unit {0}) (List Message)) → verify_inverse_updates jp us ≡ r
        → Holds (PassesInverse jp) (or_throw (verify_inverse_updates jp us) >>= λ _. done us)
    by_check us e (ok tt) r = rw r (e, r)
    by_check us e (err ms) r = rw r tt

-- The Join/Prune configuration of the loader, once there is one.
abbrev HasLoaded : PimcLoader → Type 0
HasLoaded l = (cfg : JpConfig) → l.jp_config ≡ some cfg → IsLoaded cfg

assemble-IsChecked : (l : PimcLoader) → HasLoaded l → Holds IsChecked (assemble l)
unfolding assemble
assemble-IsChecked l h = elim (Option-cases l.jp_config) [
  | inl e ↦ rw e tt
  | inr (jp, e) ↦ rw e (
      Holds->>= (Passes jp) IsChecked (packed_updates jp) _ (packed_updates_lem jp) (λ us p.
        Holds->>= (PassesInverse jp) IsChecked (packed_inverse_updates jp) _
          (packed_inverse_updates_lem jp)
          (λ vs q.
            Holds->>= (λ a. Unit {0}) IsChecked (value l.logging_config) _
              (any (value l.logging_config))
              (λ a _.
                Holds->>= (λ a. Unit {0}) IsChecked (value l.pimsm_config) _
                  (any (value l.pimsm_config))
                  (λ b _. record {
                    packed = p.0;
                    verified = p.1;
                    inverse_packed = q.0;
                    inverse_verified = q.1;
                    loaded = h jp e;
                  })))))
]
  where
    any : {A : Type 0} (r : Run A) → Holds (λ a. Unit {0}) r
    any (done a) = tt
    any (raised e) = tt
    any fault = tt
    any stuck = tt

build-IsChecked : (l : PimcLoader) → HasLoaded l → Holds IsChecked (build l)
unfolding build
build-IsChecked l h =
    elim (Bool-cases (not (has_config l.pimsm_config) || not (has_config l.jp_config))) [
      | inl missing ↦ rw (build, missing) tt
      | inr there ↦ rw (build, there) (assemble-IsChecked l h)
    ]

-- What follows a step that may throw, and leaves the loader.
any :
    {A : Type 0} (r : Run A) (f : A → Run PimcLoader)
    → ((a : A) → Holds HasLoaded (f a))
    → Holds HasLoaded (r >>= f)
any (done a) f k = k a
any (raised e) f k = tt
any fault f k = tt
any stuck f k = tt

module _ {Node : Type 0} (y : YamlLib Node) (files : Files) (table : IntfTable) (gid : ℕ) where
  load_jp_part-HasLoaded :
      (r : Result (ValueContext Node) ErrorContext) (l : PimcLoader)
      → HasLoaded l
      → Holds HasLoaded (load_jp_part y files table gid r l)
  load_jp_part-HasLoaded (err e) l h = h
  load_jp_part-HasLoaded (ok v) l h =
      Holds->>= (λ r. load_jp_config y v ≡ done r) HasLoaded (load_jp_config y v) _
        (with_equation (load_jp_config y v)) kept
    where
      kept :
          (r : Result JpConfig (List ErrorContext))
          → load_jp_config y v ≡ done r
          → (cfg : JpConfig) → keep r l.jp_config ≡ some cfg
          → IsLoaded cfg
      kept (ok c) e cfg k = let same : c ≡ cfg = cc in rw⁻¹ same (load_jp_config-IsLoaded y v c e)
      kept (err es) e cfg k = h cfg k

  load_pim_part-HasLoaded :
      (r : Result (ValueContext Node) ErrorContext) (l : PimcLoader)
      → HasLoaded l
      → Holds HasLoaded (load_pim_part y files table gid r l)
  load_pim_part-HasLoaded (err e) l h = h
  load_pim_part-HasLoaded (ok v) l h = any (load_pimsm_config y table gid v) _ (λ r. h)

  load_pimc_mapping-HasLoaded :
      (m : MappingContext Node) (l : PimcLoader)
      → HasLoaded l
      → Holds HasLoaded (load_pimc_mapping y files table gid m l)
  unfolding load_pimc_mapping
  load_pimc_mapping-HasLoaded m l h =
      let logging = optional y (f_logging y files table gid) m in
      let pim = required y (f_pim y files table gid) logging.0 in
      let multicast = required y (f_multicast y files table gid) pim.0 in
      any (load_logging_config y files logging.1) _ (λ r.
        let l1 : PimcLoader = record l {
          errors = chk_errors l.errors r;
          logging_config = keep r l.logging_config;
        } in
        Holds->>= HasLoaded HasLoaded (load_pim_part y files table gid pim.1 l1) _
          (load_pim_part-HasLoaded pim.1 l1 h)
          (λ l2 h2.
            Holds->>= HasLoaded HasLoaded (load_jp_part y files table gid multicast.1 l2) _
              (load_jp_part-HasLoaded multicast.1 l2 h2) (λ l3 h3. h3)))

  load_pimc-HasLoaded :
      (v : ValueContext Node) (l : PimcLoader)
      → HasLoaded l
      → Holds HasLoaded (load_pimc y files table gid v l)
  unfolding load_pimc
  load_pimc-HasLoaded v l h = any (get_mapping y untitled v) _ by_mapping
    where
      by_mapping :
          (r : Result (MappingContext Node) ErrorContext)
          → Holds HasLoaded (elim r [
            | err e ↦ done (record l { errors = l.errors ++ (e ∷ []) })
            | ok m ↦ load_pimc_mapping y files table gid m l
          ])
      by_mapping (err e) = h
      by_mapping (ok m) = load_pimc_mapping-HasLoaded m l h

-- Whatever the document, the file system and the interfaces: in a configuration that `loadPIMCConfig`
-- returns the updates are those that pack and inversePack make of its Join/Prune part, both have passed
-- their verifier, and that part is as the multicast loader makes it.
pub load_pimc_config-IsChecked :
    {Node : Type 0} (y : YamlLib Node) (files : Files) (table : IntfTable) (gid : ℕ)
    (v : ValueContext Node) (c : PimcConfig)
    → load_pimc_config y files table gid v ≡ done (ok c)
    → IsChecked c
unfolding load_pimc_config
load_pimc_config-IsChecked y files table gid v c e =
    let all =
      Holds->>= HasLoaded Checked (load_pimc y files table gid v make_pimc)
        (λ l. if no_errors l.errors then (build l >>= λ c. done (ok c)) else done (err l.errors))
        (load_pimc-HasLoaded y files table gid v make_pimc (λ cfg k. cc))
        (λ l h. by_errors (no_errors l.errors) l h) in
    rw e at all
  where
    Checked : Result PimcConfig (List ErrorContext) → Type 0
    Checked (ok c) = IsChecked c
    Checked (err es) = Unit {0}

    by_errors :
        (none_ : Bool) (l : PimcLoader)
        → HasLoaded l
        → Holds Checked (if none_ then (build l >>= λ c. done (ok c)) else done (err l.errors))
    by_errors true l h =
        Holds->>= IsChecked Checked (build l) (λ c. done (ok c)) (build-IsChecked l h) (λ c k. k)
    by_errors false l h = tt
