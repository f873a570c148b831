-- ===== src/Loader/Logging.antt =====
-- apps/pimc/config/LoggingConfig.hpp and LoggingConfigLoader.hpp, with `ciAsciiStrEq` of
-- lib/pimc/text/StringUtils.hpp. The file system, and the name of the log file with the time in it, are
-- parameters.
use pimc_toolkit.Common.{
  ℕ, ◌+◌, List, [], ◌∷◌, ◌++◌, Bool, true, false, not, ◌&&◌, Option, none, some, leb, ◌==◌,
  if◌then◌else◌, Run, done, ◌>>=◌, Text,
}
use pimc_toolkit.Core.Result.{Result, ok, err}
use pimc_toolkit.Loader.Errors.{
  ErrorContext, logging_config, level_name, logging_directory, invalid_level, no_directory,
  not_a_directory,
}
use pimc_toolkit.Loader.Yaml.{
  YamlLib, ValueContext, ScalarContext, MappingContext, get_scalar, get_mapping, optional,
  extraneous, error,
}

pub data Level : Type 0 where
  silent critical failures warning info debug : Level

pub record LoggingConfig : Type 0 where
  pub level : Level
  pub log_file_name : Option Text

-- `std::tolower` on an ASCII character.
abbrev pub to_lower : ℕ → ℕ
to_lower c = if leb b'A' c && leb c b'Z' then c + 32 else c

unfoldable pub ci_ascii_str_eq : Text → Text → Bool
ci_ascii_str_eq [] [] = true
ci_ascii_str_eq [] (d ∷ t) = false
ci_ascii_str_eq (c ∷ s) [] = false
ci_ascii_str_eq (c ∷ s) (d ∷ t) = to_lower c == to_lower d && ci_ascii_str_eq s t

abbrev pub level_none : Text
level_none = b'N' ∷ b'o' ∷ b'n' ∷ b'e' ∷ []

abbrev pub level_critical : Text
level_critical = b'C' ∷ b'r' ∷ b'i' ∷ b't' ∷ b'i' ∷ b'c' ∷ b'a' ∷ b'l' ∷ []

abbrev pub level_error : Text
level_error = b'E' ∷ b'r' ∷ b'r' ∷ b'o' ∷ b'r' ∷ []

abbrev pub level_warning : Text
level_warning = b'W' ∷ b'a' ∷ b'r' ∷ b'n' ∷ b'i' ∷ b'n' ∷ b'g' ∷ []

abbrev pub level_info : Text
level_info = b'I' ∷ b'n' ∷ b'f' ∷ b'o' ∷ []

abbrev pub level_debug : Text
level_debug = b'D' ∷ b'e' ∷ b'b' ∷ b'u' ∷ b'g' ∷ []

-- The comparisons of `getLevel`.
unfoldable pub level_of : Text → Option Level
unfolding ci_ascii_str_eq
level_of ln =
    if ci_ascii_str_eq ln level_none
    then some Level.silent
    else if ci_ascii_str_eq ln level_critical
    then some Level.critical
    else if ci_ascii_str_eq ln level_error
    then some Level.failures
    else if ci_ascii_str_eq ln level_warning
    then some Level.warning
    else if ci_ascii_str_eq ln level_info
    then some Level.info
    else if ci_ascii_str_eq ln level_debug
    then some Level.debug
    else none

-- What the loader asks the file system, and the name that it gives the log file of a directory.
pub record Files : Type 0 where
  pub exists : Text → Bool
  pub is_directory : Text → Bool
  pub log_file : Text → Text

pub record LoggingLoader : Type 0 where
  pub errors : List ErrorContext
  pub level : Level
  pub dir : Option Text

abbrev pub make_logging : LoggingLoader
make_logging = record { errors = []; level = Level.info; dir = none }

abbrev pub report : ErrorContext → LoggingLoader → LoggingLoader
report e l = record l { errors = l.errors ++ (e ∷ []) }

module _ {Node : Type 0} (y : YamlLib Node) (files : Files) where
  abbrev pub f_level : Text
  f_level = b'l' ∷ b'e' ∷ b'v' ∷ b'e' ∷ b'l' ∷ []

  abbrev pub f_dir : Text
  f_dir = b'd' ∷ b'i' ∷ b'r' ∷ []

  abbrev pub set_level : Result (ScalarContext Node) ErrorContext → LoggingLoader → LoggingLoader
  unfolding level_of
  set_level (err e) l = report e l
  set_level (ok s) l = elim (level_of (y.text s.node)) [
    | some lvl ↦ record l { level = lvl }
    | none ↦ report (error y s.node s.names (invalid_level (y.text s.node))) l
  ]

  abbrev pub set_dir : Result (ScalarContext Node) ErrorContext → LoggingLoader → LoggingLoader
  set_dir (err e) l = report e l
  set_dir (ok s) l =
      let dn = y.text s.node in
      if not (files.exists dn)
      then report (error y s.node s.names (no_directory dn)) l
      else if not (files.is_directory dn)
      then report (error y s.node s.names (not_a_directory dn)) l
      else record l { dir = some dn }

  -- `getLevel`
  unfoldable pub get_level :
      MappingContext Node → LoggingLoader → Run (MappingContext Node × LoggingLoader)
  unfolding level_of
  get_level m l =
      let field = optional y f_level m in
      elim field.1 [
        | none ↦ done (field.0, l)
        | some v ↦ get_scalar y level_name v >>= λ r. done (field.0, set_level r l)
      ]

  -- `getDir`
  unfoldable pub get_dir :
      MappingContext Node → LoggingLoader → Run (MappingContext Node × LoggingLoader)
  get_dir m l =
      let field = optional y f_dir m in
      elim field.1 [
        | none ↦ done (field.0, l)
        | some v ↦ get_scalar y logging_directory v >>= λ r. done (field.0, set_dir r l)
      ]

  unfoldable pub load_logging_mapping : MappingContext Node → LoggingLoader → Run LoggingLoader
  unfolding get_level get_dir
  load_logging_mapping m l = do
    (m1, l1) ← get_level m l
    (m2, l2) ← get_dir m1 l1
    done (record l2 { errors = l2.errors ++ extraneous y m2 })

  unfoldable pub load_logging : Option (ValueContext Node) → LoggingLoader → Run LoggingLoader
  unfolding load_logging_mapping
  load_logging none l = done l
  load_logging (some v) l = do
    r ← get_mapping y logging_config v
    elim r [ err e ↦ done (report e l) | ok m ↦ load_logging_mapping m l ]

  abbrev pub build_logging : LoggingLoader → LoggingConfig
  build_logging l = record {
    level = l.level;
    log_file_name = (elim l.dir as (λ _. Option Text) [
      | none ↦ none
      | some d ↦ some (files.log_file d)
    ]);
  }

  abbrev pub logging_result : LoggingLoader → Result LoggingConfig (List ErrorContext)
  logging_result l = elim l.errors [ [] ↦ ok (build_logging l) | _ ∷ _ ↦ err l.errors ]

  unfoldable pub load_logging_config :
      Option (ValueContext Node) → Run (Result LoggingConfig (List ErrorContext))
  unfolding load_logging
  load_logging_config v = do l ← load_logging v make_logging; done (logging_result l)
