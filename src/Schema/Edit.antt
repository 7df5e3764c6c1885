-- ===== src/Schema/Edit.antt =====
-- pkg/machine/schema.go and mach_utils.go: Merge, Prefix, Nest, SchemaMerge, StatesByTag,
-- FilterByTagKey, and Extend, Set and SetRels of a state.
use text.Mathlib.Text.{starts_with}
use asyncmachine_go.Base.{
  Bool, true, false, not, ◌&&◌, ◌||◌, List, [], ◌∷◌, String, none, some, contains, if◌then◌else◌,
  string_eq, put, remove_key, is_empty,
}
use asyncmachine_go.Text.{join_text}
use asyncmachine_go.Schema.{
  States, Slice, State, Schema, items, clone_state, clone_schema, state_of,
}
use asyncmachine_go.StateList.{s_add}

-- maps.Copy
unfoldable pub copy_into : Schema → Schema → Schema
copy_into dst [] = dst
copy_into dst ((name, state) ∷ src) = copy_into (put name state dst) src

unfoldable pub copy_all : Schema → List Schema → Schema
copy_all dst [] = dst
copy_all dst (src ∷ schemas) = copy_all (copy_into dst src) schemas

-- Schema.Merge
unfoldable pub merge : Schema → List Schema → Schema
merge s [] = s
merge s (first ∷ schemas) =
    clone_schema (remove_key "" (copy_all (clone_schema s) (first ∷ schemas)))

-- SchemaMerge
unfoldable pub schema_merge : List Schema → Schema
schema_merge [] = []
schema_merge (s ∷ []) = s
schema_merge (s ∷ t ∷ schemas) = clone_schema (copy_all [] (s ∷ t ∷ schemas))

-- The relations in prefixRels: nil stays nil.
unfoldable pub prefix_names : String → States → States → States
prefix_names prefix states [] = []
prefix_names prefix states (rel ∷ rels) =
    (if not (contains states rel) then rel else join_text prefix rel)
    ∷ prefix_names prefix states rels

-- prefixRels
unfoldable pub prefix_rels : String → States → Slice → Slice
prefix_rels prefix states none = none
prefix_rels prefix states (some rels) = some (prefix_names prefix states rels)

unfoldable pub nest_state : String → States → State → State
nest_state prefix states s = record s {
  require = prefix_rels prefix states s.require;
  add = prefix_rels prefix states s.add;
  remove = prefix_rels prefix states s.remove;
  after = prefix_rels prefix states s.after;
}

-- The loop of Schema.Nest
unfoldable pub nest_from : String → States → Schema → States → Schema → Schema
nest_from prefix states s [] ret = ret
nest_from prefix states s (state ∷ rest) ret =
    nest_from prefix states s rest
      (put (join_text prefix state) (nest_state prefix states (state_of s state)) ret)

-- Schema.Nest
unfoldable pub nest : Schema → String → States → Schema
nest s prefix states = nest_from prefix states s states []

-- The test of a relation in StateAdd
abbrev pub extend_slice : Slice → Slice → Slice
extend_slice source none = source
extend_slice source (some rels) = some (s_add (items source ∷ rels ∷ []))

-- StateAdd, State.Extend
unfoldable pub state_add : State → State → State
state_add source overlay =
    let s = clone_state source in
    let o = clone_state overlay in
    record s {
      auto = o.auto || s.auto;
      multi = o.multi || s.multi;
      add = extend_slice s.add o.add;
      remove = extend_slice s.remove o.remove;
      require = extend_slice s.require o.require;
      after = extend_slice s.after o.after;
    }

-- The test of a relation in StateSet
abbrev pub replace_slice : Slice → Slice → Slice
replace_slice source none = source
replace_slice source (some rels) = some rels

-- StateSet, State.Set
unfoldable pub state_set : State → Bool → Bool → State → State
state_set source auto multi overlay =
    let s = clone_state source in
    let o = clone_state overlay in
    record s {
      auto = auto;
      multi = multi;
      add = replace_slice s.add o.add;
      remove = replace_slice s.remove o.remove;
      require = replace_slice s.require o.require;
      after = replace_slice s.after o.after;
    }

-- State.SetRels
unfoldable pub set_rels : State → State → State
set_rels s overlay = state_set s s.auto s.multi overlay

-- The new name of a relation, and of the state itself, in Schema.Prefix. Both look at the name of the
-- state.
abbrev pub prefixed : String → Bool → String → String → String
prefixed prefix skip name r =
    if not skip || not (starts_with name prefix) then join_text prefix r else r

unfoldable pub prefix_all : String → Bool → String → States → States
prefix_all prefix skip name [] = []
prefix_all prefix skip name (r ∷ rels) =
    prefixed prefix skip name r ∷ prefix_all prefix skip name rels

abbrev pub prefix_slice : String → Bool → String → Slice → Slice
prefix_slice prefix skip name none = none
prefix_slice prefix skip name (some rels) = some (prefix_all prefix skip name rels)

unfoldable pub prefix_state : String → Bool → String → State → State
prefix_state prefix skip name state =
    let s = clone_state state in
    record s {
      after = prefix_slice prefix skip name s.after;
      add = prefix_slice prefix skip name s.add;
      remove = prefix_slice prefix skip name s.remove;
      require = prefix_slice prefix skip name s.require;
    }

-- The lists that Schema.Prefix takes: only the first, or without the second.
abbrev pub is_left_out : States → States → String → Bool
is_left_out allowlist skiplist name =
    if not (is_empty allowlist) && not (contains allowlist name)
    then true
    else not (is_empty skiplist) && contains skiplist name

unfoldable pub prefix_from : String → Bool → States → States → Schema → Schema → Schema
prefix_from prefix skip allowlist skiplist [] ret = ret
prefix_from prefix skip allowlist skiplist ((name, state) ∷ schema) ret =
    prefix_from prefix skip allowlist skiplist schema (
      if is_left_out allowlist skiplist name
      then ret
      else put (prefixed prefix skip name name) (prefix_state prefix skip name state) ret)

-- Schema.Prefix
unfoldable pub prefix_schema : Schema → String → Bool → States → States → Schema
prefix_schema s prefix skip allowlist skiplist = prefix_from prefix skip allowlist skiplist s []

-- The tags of FilterByTagKey and StatesByTag: a tag with a value starts with its key.
unfoldable pub has_value_tag : String → States → Bool
has_value_tag key [] = false
has_value_tag key (t ∷ tags) =
    let rest = has_value_tag key tags in if starts_with t (join_text key ":") then true else rest

-- Schema.FilterByTagKey
unfoldable pub filter_by_tag_key : Schema → String → Schema
filter_by_tag_key [] key = []
filter_by_tag_key ((name, state) ∷ s) key =
    let rest = filter_by_tag_key s key in
    if has_value_tag key (items state.tags) then (name, state) ∷ rest else rest

-- StatesByTag
unfoldable pub states_by_tag : Schema → String → States
states_by_tag [] tag = []
states_by_tag ((name, state) ∷ s) tag =
    let rest = states_by_tag s tag in
    if contains (items state.tags) tag || has_value_tag tag (items state.tags)
    then name ∷ rest
    else rest
