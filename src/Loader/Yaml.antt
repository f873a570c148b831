-- ===== src/Loader/Yaml.antt =====
-- lib/pimc/yaml/Structured.hpp, Structured.cpp and BuilderBase.hpp, over the nodes of yaml-cpp, which are
-- a parameter.
use pimc_toolkit.Common.{
  ℕ, zero, suc, ◌+◌, List, [], ◌∷◌, ◌++◌, Bool, false, not, ◌||◌, Option, none, some, ltb, ◌==◌,
  if◌then◌else◌, Run, done, raised, runtime_error, Text, text_eq,
}
use pimc_toolkit.Core.Result.{Result, ok, err}
use pimc_toolkit.Loader.Errors.{
  Title, Name, field_name, element_name, NodeType, undefined, null, scalar, sequence, map, other,
  Message, not_a_scalar, not_a_mapping, not_a_sequence, required_field, no_element, key_undefined,
  key_null, key_sequence, key_mapping, key_unrecognized, unrecognized_field, duplicate_field,
  ErrorContext,
}

-- What the code uses of `YAML::Node`: its type and definedness, the line of its mark (`none` for -1),
-- its text, the node at a field, its size, the node at an index, and its pairs.
pub record YamlLib (Node : Type 0) : Type 0 where
  pub type_of : Node → NodeType
  pub is_defined : Node → Bool
  pub mark_line : Node → Option ℕ
  pub text : Node → Text
  pub field : Node → Text → Node
  pub size : Node → ℕ
  pub element : Node → ℕ → Node
  pub pairs : Node → List (Node × Node)

pub record ValueContext (Node : Type 0) : Type 0 where
  pub node : Node
  pub names : List Name

pub record ScalarContext (Node : Type 0) : Type 0 where
  pub node : Node
  pub names : List Name

-- `known` are the fields asked for so far.
pub record MappingContext (Node : Type 0) : Type 0 where
  pub title : Title
  pub node : Node
  pub names : List Name
  pub known : List Text

pub record SequenceContext (Node : Type 0) : Type 0 where
  pub title : Title
  pub node : Node
  pub names : List Name

abbrev pub has_text : Text → List Text → Bool
has_text t [] = false
has_text t (u ∷ ts) = text_eq t u || has_text t ts

module _ {Node : Type 0} where
  abbrev pub root : Node → ValueContext Node
  root node = record { node = node; names = [] }

module _ {Node : Type 0} (y : YamlLib Node) where
  abbrev pub node_line : Node → Option ℕ
  node_line n = elim (y.mark_line n) [ none ↦ none | some l ↦ some (l + 1) ]

  -- `NodeContext::error` and `errorAt`, of a node with its names.
  abbrev pub error_at : Option ℕ → List Name → Message → ErrorContext
  error_at line names m = record { line = line; context = names; message = m }

  abbrev pub error : Node → List Name → Message → ErrorContext
  error n names m = error_at (node_line n) names m

  unfoldable pub get_scalar :
      Title → ValueContext Node → Run (Result (ScalarContext Node) ErrorContext)
  get_scalar name v =
      let t = y.type_of v.node in
      let refused = done (err (error v.node v.names (not_a_scalar name t))) in
      elim t [
        | map ↦ refused
        | undefined ↦ refused
        | null ↦ refused
        | scalar ↦ done (ok (record { node = v.node; names = v.names }))
        | sequence ↦ refused
        | other n ↦ raised runtime_error
      ]

  unfoldable pub get_mapping :
      Title → ValueContext Node → Run (Result (MappingContext Node) ErrorContext)
  get_mapping name v =
      let t = y.type_of v.node in
      let refused = done (err (error v.node v.names (not_a_mapping name t))) in
      elim t [
        | map ↦ done (ok (record { title = name; node = v.node; names = v.names; known = [] }))
        | undefined ↦ refused
        | null ↦ refused
        | scalar ↦ refused
        | sequence ↦ refused
        | other n ↦ raised runtime_error
      ]

  unfoldable pub get_sequence :
      Title → ValueContext Node → Run (Result (SequenceContext Node) ErrorContext)
  get_sequence name v =
      let t = y.type_of v.node in
      let refused = done (err (error v.node v.names (not_a_sequence name t))) in
      elim t [
        | map ↦ refused
        | undefined ↦ refused
        | null ↦ refused
        | scalar ↦ refused
        | sequence ↦ done (ok (record { title = name; node = v.node; names = v.names }))
        | other n ↦ raised runtime_error
      ]

  -- `knownFields_.emplace(field)`
  abbrev pub asked : Text → MappingContext Node → MappingContext Node
  asked f m = record m { known = f ∷ m.known }

  -- The value at a field, under the name of the field.
  abbrev pub at_field : Text → MappingContext Node → ValueContext Node
  at_field f m = record { node = y.field m.node f; names = m.names ++ (field_name f m.title ∷ []) }

  unfoldable pub required :
      Text → MappingContext Node → MappingContext Node × Result (ValueContext Node) ErrorContext
  required f m = (
    asked f m,
    if not (y.is_defined (y.field m.node f))
        then err (error m.node m.names (required_field f m.title))
        else ok (at_field f m),
  )

  unfoldable pub optional :
      Text → MappingContext Node → MappingContext Node × Option (ValueContext Node)
  optional f m =
      (asked f m, if not (y.is_defined (y.field m.node f)) then none else some (at_field f m))

  -- The loop of `items`.
  abbrev pub items_loop :
      List Name → List (Node × Node) → List (ValueContext Node × ValueContext Node)
  items_loop names [] = []
  items_loop names (p ∷ ps) =
      (record { node = p.0; names = names }, record { node = p.1; names = names })
      ∷ items_loop names ps

  unfoldable pub items : MappingContext Node → List (ValueContext Node × ValueContext Node)
  items m = if y.size m.node == 0 then [] else items_loop m.names (y.pairs m.node)

  -- The line at which a key was observed.
  abbrev pub observed_at : Text → List (Text × Option ℕ) → Option (Option ℕ)
  observed_at t [] = none
  observed_at t (o ∷ os) = if text_eq t o.0 then some o.1 else observed_at t os

  -- The errors of one scalar key, unknown or seen before.
  unfoldable pub check_key :
      MappingContext Node → List (Text × Option ℕ) → Text → Option ℕ → List ErrorContext
  check_key m observed t line =
      let unknown = error_at line m.names (unrecognized_field t m.title) ∷ [] in
      (if not (has_text t m.known) then unknown else []) ++ (elim (observed_at t observed) [
        | none ↦ []
        | some l ↦ error_at line m.names (duplicate_field t m.title l) ∷ []
      ])

  abbrev pub observe : Text → Option ℕ → List (Text × Option ℕ) → List (Text × Option ℕ)
  observe t line observed = elim (observed_at t observed) [
    | none ↦ observed ++ ((t, line) ∷ [])
    | some l ↦ observed
  ]

  unfoldable pub extraneous_loop :
      MappingContext Node → List (Text × Option ℕ) → List (Node × Node) → List ErrorContext
  unfolding check_key
  extraneous_loop m observed [] = []
  extraneous_loop m observed (p ∷ ps) =
      let line = node_line p.0 in
      let rest = extraneous_loop m observed ps in
      let next = extraneous_loop m (observe (y.text p.0) line observed) ps in
      elim (y.type_of p.0) [
        | undefined ↦ error_at line m.names key_undefined ∷ rest
        | null ↦ error_at line m.names key_null ∷ rest
        | scalar ↦ check_key m observed (y.text p.0) line ++ next
        | sequence ↦ error_at line m.names key_sequence ∷ rest
        | map ↦ error_at line m.names key_mapping ∷ rest
        | other n ↦ error_at line m.names key_unrecognized ∷ rest
      ]

  unfoldable pub extraneous : MappingContext Node → List ErrorContext
  unfolding extraneous_loop
  extraneous m = extraneous_loop m [] (y.pairs m.node)

  abbrev pub at_index : ℕ → SequenceContext Node → ValueContext Node
  at_index i s = record {
    node = y.element s.node i;
    names = s.names ++ (element_name i s.title ∷ []);
  }

  -- `operator []`
  unfoldable pub element_at : ℕ → SequenceContext Node → Result (ValueContext Node) ErrorContext
  element_at i s =
      if ltb i (y.size s.node)
      then ok (at_index i s)
      else err (error s.node s.names (no_element i s.title (y.size s.node)))

  -- The loop of `list` over `n` elements from `i` on.
  abbrev pub list_loop : ℕ → ℕ → SequenceContext Node → List (ValueContext Node)
  list_loop zero i s = []
  list_loop (suc n) i s = at_index i s ∷ list_loop n (i + 1) s

  unfoldable pub list : SequenceContext Node → List (ValueContext Node)
  list s = list_loop (y.size s.node) 0 s

-- `flatMap` on a result, with a continuation that may throw.
abbrev pub flat_map {ℓ κ ι} :
    {A : Type ℓ} {B : Type κ} {E : Type ι} → Result A E → (A → Run (Result B E)) → Run (Result B E)
flat_map (ok a) f = f a
flat_map (err e) f = done (err e)
