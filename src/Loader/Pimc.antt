-- ===== src/Loader/Pimc.antt =====
-- apps/pimc/config/PIMCConfig.hpp and PIMCConfigLoader.hpp: the whole configuration, with the packed
-- updates and the checks of them.
pub mod Checked
mod Examples
use pimc_toolkit.Common.{
  ℕ, List, [], ◌∷◌, ◌++◌, Bool, true, false, not, ◌||◌, Option, none, some, if◌then◌else◌, Run,
  done, raised, logic_error, value, ◌>>=◌, Text,
}
use pimc_toolkit.Core.Result.{Result, ok, err}
use pimc_toolkit.Net.IntfTable.{IntfTable}
use pimc_toolkit.Pimsm.Config.{JpConfig}
use pimc_toolkit.Pimsm.Update.{Update}
use pimc_toolkit.Pimsm.Pack.{pack}
use pimc_toolkit.Pimsm.InversePack.{inverse_pack}
use pimc_toolkit.Pimsm.SanityCheck.Compare.{verify_updates}
use pimc_toolkit.Pimsm.SanityCheck.Inverse.{verify_inverse_updates}
use pimc_toolkit.Loader.Errors.{ErrorContext, untitled}
use pimc_toolkit.Loader.Yaml.{
  YamlLib, ValueContext, MappingContext, get_mapping, required, optional, extraneous,
}
use pimc_toolkit.Loader.GroupConfig.{given}
use pimc_toolkit.Loader.Multicast.{load_jp_config}
use pimc_toolkit.Loader.Logging.{LoggingConfig, Files, load_logging_config}
use pimc_toolkit.Loader.Pimsm.{PimsmConfig, load_pimsm_config}

pub record PimcConfig : Type 0 where
  pub logging_config : LoggingConfig
  pub pimsm_config : PimsmConfig
  pub jp_config : JpConfig
  pub updates : List Update
  pub inverse_updates : List Update

pub record PimcLoader : Type 0 where
  pub errors : List ErrorContext
  pub logging_config : Option LoggingConfig
  pub pimsm_config : Option PimsmConfig
  pub jp_config : Option JpConfig

abbrev pub make_pimc : PimcLoader
make_pimc = record { errors = []; logging_config = none; pimsm_config = none; jp_config = none }

-- `chkErrors`: the errors of a part go to the list.
abbrev pub chk_errors {ℓ} :
    {A : Type ℓ} → List ErrorContext → Result A (List ErrorContext) → List ErrorContext
chk_errors errors (ok a) = errors
chk_errors errors (err es) = errors ++ es

-- A part is kept where it has no errors.
abbrev pub keep {ℓ κ} : {A : Type ℓ} {E : Type κ} → Result A E → Option A → Option A
keep (ok a) old = some a
keep (err es) old = old

abbrev pub has_config {ℓ} : {A : Type ℓ} → Option A → Bool
has_config none = false
has_config (some a) = true

module _ {Node : Type 0} (y : YamlLib Node) (files : Files) (table : IntfTable) (gid : ℕ) where
  abbrev pub f_logging : Text
  f_logging = b'l' ∷ b'o' ∷ b'g' ∷ b'g' ∷ b'i' ∷ b'n' ∷ b'g' ∷ []

  abbrev pub f_pim : Text
  f_pim = b'p' ∷ b'i' ∷ b'm' ∷ []

  abbrev pub f_multicast : Text
  f_multicast = b'm' ∷ b'u' ∷ b'l' ∷ b't' ∷ b'i' ∷ b'c' ∷ b'a' ∷ b's' ∷ b't' ∷ []

  abbrev pub load_pim_part : Result (ValueContext Node) ErrorContext → PimcLoader → Run PimcLoader
  load_pim_part (err e) l = done (record l { errors = l.errors ++ (e ∷ []) })
  load_pim_part (ok v) l = do
    r ← load_pimsm_config y table gid v
    done (record l { errors = chk_errors l.errors r; pimsm_config = keep r l.pimsm_config })

  abbrev pub load_jp_part : Result (ValueContext Node) ErrorContext → PimcLoader → Run PimcLoader
  load_jp_part (err e) l = done (record l { errors = l.errors ++ (e ∷ []) })
  load_jp_part (ok v) l = do
    r ← load_jp_config y v
    done (record l { errors = chk_errors l.errors r; jp_config = keep r l.jp_config })

  unfoldable pub load_pimc_mapping : MappingContext Node → PimcLoader → Run PimcLoader
  unfolding load_logging_config load_pimsm_config load_jp_config
  load_pimc_mapping m l = do
    let logging = optional y f_logging m
    r ← load_logging_config y files logging.1
    let l1 = record l { errors = chk_errors l.errors r; logging_config = keep r l.logging_config }
    let pim = required y f_pim logging.0
    l2 ← load_pim_part pim.1 l1
    let multicast = required y f_multicast pim.0
    l3 ← load_jp_part multicast.1 l2
    done (record l3 { errors = l3.errors ++ extraneous y multicast.0 })

  unfoldable pub load_pimc : ValueContext Node → PimcLoader → Run PimcLoader
  unfolding load_pimc_mapping
  load_pimc v l = do
    r ← get_mapping y untitled v
    elim r [
      | err e ↦ done (record l { errors = l.errors ++ (e ∷ []) })
      | ok m ↦ load_pimc_mapping m l
    ]

-- `if (not r) throw std::logic_error{r.error()};`
abbrev pub or_throw {ℓ κ} : {A : Type ℓ} {E : Type κ} → Result A E → Run A
or_throw (ok a) = done a
or_throw (err e) = raised logic_error

-- The updates of a configuration, checked.
unfoldable pub packed_updates : JpConfig → Run (List Update)
unfolding pack verify_updates
packed_updates jp = do updates ← pack jp; _ ← or_throw (verify_updates jp updates); done updates

unfoldable pub packed_inverse_updates : JpConfig → Run (List Update)
unfolding inverse_pack verify_inverse_updates
packed_inverse_updates jp = do
  updates ← inverse_pack jp
  _ ← or_throw (verify_inverse_updates jp updates)
  done updates

-- `build` behind its first test.
unfoldable pub assemble : PimcLoader → Run PimcConfig
unfolding packed_updates packed_inverse_updates
assemble l = do
  jp ← value l.jp_config
  updates ← packed_updates jp
  inverse_updates ← packed_inverse_updates jp
  logging ← value l.logging_config
  pimsm ← value l.pimsm_config
  done (record {
    logging_config = logging;
    pimsm_config = pimsm;
    jp_config = jp;
    updates = updates;
    inverse_updates = inverse_updates;
  })

unfoldable pub build : PimcLoader → Run PimcConfig
unfolding assemble
build l =
    if not (has_config l.pimsm_config) || not (has_config l.jp_config)
    then raised logic_error
    else assemble l

abbrev pub no_errors : List ErrorContext → Bool
no_errors [] = true
no_errors (e ∷ es) = false

unfoldable pub load_pimc_config :
    {Node : Type 0}
    → YamlLib Node
    → Files
    → IntfTable
    → ℕ
    → ValueContext Node
    → Run (Result PimcConfig (List ErrorContext))
unfolding load_pimc build
load_pimc_config y files table gid v = do
  l ← load_pimc y files table gid v make_pimc
  let built = build l >>= λ c. done (ok c)
  if no_errors l.errors then built else done (err l.errors)
