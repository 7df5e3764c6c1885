-- ===== src/Verify.antt =====
-- pkg/machine/machine.go: verifyStates and SetSchema.
pub mod Names
use asyncmachine_go.Base.{
  Bool, true, false, not, ◌||◌, List, [], ◌∷◌, String, Option, none, some, contains, if◌then◌else◌,
  string_eq, length, ltb, leb, nat_beq, is_empty,
}
use asyncmachine_go.Slices.{slices_uniq}
use asyncmachine_go.Schema.{States, Schema}
use asyncmachine_go.Schema.Parse.{parse}
use asyncmachine_go.Names.{all_defined}
use asyncmachine_go.Machine.{Machine}
use asyncmachine_go.Graph.{Graph, new_schema}

-- verifyStates. Its error is none.
unfoldable pub verify_states : Machine → States → Option Machine
verify_states m states =
    if contains states "" || not (all_defined m.schema states)
    then none
    else if ltb (length states) (length m.state_names)
    then none
    else some (record m { state_names = slices_uniq states })

-- VerifyStates
unfoldable pub verify_states_of : Machine → States → Option Machine
verify_states_of m states = if m.disposing then some m else verify_states m states

-- How SetSchema ends. `broken` is an error behind the replacement of the schema.
pub data SchemaSet : Type 0 where
  refused : SchemaSet
  broken replaced : Machine → SchemaSet

abbrev pub replace_schema : (Graph → States) → Schema → States → Machine → SchemaSet
replace_schema order parsed names m = elim (verify_states (record m { schema = parsed }) names) [
  | none ↦ SchemaSet.broken (record m { schema = parsed })
  | some m' ↦ SchemaSet.replaced (new_schema order m'.state_names m')
]

-- SetSchema, with whether a transition runs.
unfoldable pub set_schema : (Graph → States) → Bool → Schema → States → Machine → SchemaSet
set_schema order in_transition schema names m =
    let (parsed, errors) = parse schema in
    if in_transition
    then SchemaSet.refused
    else if leb (length schema) (length m.schema)
    then SchemaSet.refused
    else if not (nat_beq (length schema) (length names))
    then SchemaSet.refused
    else if not (is_empty errors)
    then SchemaSet.refused
    else replace_schema order parsed names m
