-- ===== src/Loader/Document.antt =====
-- A document as a tree: nodes for the examples of the loaders.
use pimc_toolkit.Common.{
  ℕ, zero, suc, List, [], ◌∷◌, Bool, true, false, none, if◌then◌else◌, Text, text_eq,
}
use pimc_toolkit.Loader.Errors.{NodeType, undefined, scalar, sequence, map}
use pimc_toolkit.Loader.Yaml.{YamlLib}

pub data Doc : Type 0 where
  missing empty_seq empty_map : Doc
  leaf : Text → Doc
  item : Doc → Doc → Doc
  entry : Text → Doc → Doc → Doc

abbrev kind : Doc → NodeType
kind missing = undefined
kind empty_seq = sequence
kind empty_map = map
kind (leaf t) = scalar
kind (item d rest) = sequence
kind (entry k d rest) = map

abbrev defined : Doc → Bool
defined missing = false
defined empty_seq = true
defined empty_map = true
defined (leaf t) = true
defined (item d rest) = true
defined (entry k d rest) = true

abbrev leaf_text : Doc → Text
leaf_text missing = []
leaf_text empty_seq = []
leaf_text empty_map = []
leaf_text (leaf t) = t
leaf_text (item d rest) = []
leaf_text (entry k d rest) = []

abbrev lookup : Doc → Text → Doc
lookup missing f = missing
lookup empty_seq f = missing
lookup empty_map f = missing
lookup (leaf t) f = missing
lookup (item d rest) f = missing
lookup (entry k d rest) f = if text_eq k f then d else lookup rest f

abbrev count : Doc → ℕ
count missing = 0
count empty_seq = 0
count empty_map = 0
count (leaf t) = 0
count (item d rest) = suc (count rest)
count (entry k d rest) = suc (count rest)

abbrev nth : Doc → ℕ → Doc
nth missing i = missing
nth empty_seq i = missing
nth empty_map i = missing
nth (leaf t) i = missing
nth (item d rest) zero = d
nth (item d rest) (suc i) = nth rest i
nth (entry k d rest) i = missing

abbrev entries : Doc → List (Doc × Doc)
entries missing = []
entries empty_seq = []
entries empty_map = []
entries (leaf t) = []
entries (item d rest) = []
entries (entry k d rest) = (leaf k, d) ∷ entries rest

abbrev pub doc_lib : YamlLib Doc
doc_lib = record {
  type_of = kind;
  is_defined = defined;
  mark_line = λ d. none;
  text = leaf_text;
  field = lookup;
  size = count;
  element = nth;
  pairs = entries;
}
