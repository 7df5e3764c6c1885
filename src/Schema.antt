-- ===== src/Schema.antt =====
-- pkg/machine/mach_utils.go and schema.go: state definitions and the schema, a map from state
-- names to definitions. A relation may be nil, which the code tells apart from an empty list, so
-- a relation is an `Option`; `items` reads it as Go's range and slices.Contains do.
pub mod Parse
pub mod Edit
pub mod Parsed
use asyncmachine_go.Base.{
  Bool, false, List, [], ◌∷◌, ◌++◌, String, Option, none, some, contains, if◌then◌else◌, lookup,
  lookup_or, keys, string_eq,
}

-- S
abbrev pub States : Type 0
States = List String

-- A slice that may be nil.
abbrev pub Slice : Type 0
Slice = Option States

abbrev pub items : Slice → States
items none = []
items (some xs) = xs

pub record State : Type 0 where
  pub auto : Bool
  pub multi : Bool
  pub require : Slice
  pub add : Slice
  pub remove : Slice
  pub after : Slice
  pub tags : Slice

-- Schema
abbrev pub Schema : Type 0
Schema = List (String × State)

-- State{}
abbrev pub zero_state : State
zero_state = record {
  auto = false;
  multi = false;
  require = none;
  add = none;
  remove = none;
  after = none;
  tags = none;
}

-- schema[name]: the zero value for a missing name. Schema.Get spells the same test out.
abbrev pub state_of : Schema → String → State
state_of schema name = lookup_or zero_state name schema

-- slices.Clone keeps nil.
abbrev clone_slice : Slice → Slice
clone_slice none = none
clone_slice (some xs) = some xs

-- State.Clone: every field is copied, and nil stays nil.
unfoldable pub clone_state : State → State
clone_state s = record {
  auto = s.auto;
  multi = s.multi;
  require = clone_slice s.require;
  add = clone_slice s.add;
  remove = clone_slice s.remove;
  after = clone_slice s.after;
  tags = clone_slice s.tags;
}

-- State.HasTag
unfoldable pub has_tag : State → String → Bool
has_tag s tag = contains (items s.tags) tag

-- Schema.Clone: the copy, entry by entry.
unfoldable pub clone_schema : Schema → Schema
clone_schema [] = []
clone_schema ((name, state) ∷ s) = (name, clone_state state) ∷ clone_schema s

-- Schema.Names, in the order of one iteration
unfoldable pub schema_names : Schema → States
schema_names s = keys s

-- Schema.FilterByTag
unfoldable pub filter_by_tag : Schema → String → Schema
filter_by_tag [] tag = []
filter_by_tag ((name, state) ∷ s) tag =
    let rest = filter_by_tag s tag in
    if contains (items state.tags) tag then (name, state) ∷ rest else rest

-- Schema.AdjacentStates: nil for an unknown state
unfoldable pub adjacent_states : Schema → String → Slice
adjacent_states s state = elim (lookup state s) [
  | none ↦ none
  | some st ↦ some (items st.add ++ (items st.after ++ (items st.require ++ items st.remove)))
]
