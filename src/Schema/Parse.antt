-- ===== src/Schema/Parse.antt =====
-- pkg/machine/schema.go: Schema.Parse, which cleans the relations of a schema.
use asyncmachine_go.Base.{
  Bool, not, List, [], ◌∷◌, ◌++◌, String, some, contains, if◌then◌else◌, string_eq, keys,
}
use asyncmachine_go.Slices.{slices_without}
use asyncmachine_go.Schema.{States, Slice, State, Schema, items}

-- slicesWithout of a relation.
unfoldable pub without : Slice → String → Slice
without slice name = some (slices_without (items slice) name)

unfoldable pub without_if : Bool → Slice → String → Slice
without_if on slice name = if on then without slice name else slice

-- The loop over Add: a state that is also in Remove leaves Remove, and an unknown one leaves Add.
unfoldable pub parse_added : States → States → State → State
parse_added states [] s = s
parse_added states (a ∷ added) s =
    if contains (items s.remove) a
    then parse_added states added (record s { remove = without s.remove a })
    else parse_added states added (record s { add = without_if (not (contains states a)) s.add a })

-- The loops that drop the references to unknown states.
unfoldable pub drop_unknown : States → States → Slice → Slice
drop_unknown states [] slice = slice
drop_unknown states (n ∷ names) slice =
    drop_unknown states names (without_if (not (contains states n)) slice n)

-- The conflicts of Require and Remove. Parse joins them to its error.
unfoldable pub conflicts : String → State → States → List (String × String)
conflicts name s [] = []
conflicts name s (required ∷ requires) =
    let rest = conflicts name s requires in
    if contains (items s.remove) required then (name, required) ∷ rest else rest

-- The steps of one turn of the loop, before the conflicts are looked for.
unfoldable pub parse_relations : States → String → State → State
parse_relations states name s =
    let s1 = record s { remove = without_if (contains (items s.remove) name) s.remove name } in
    let s2 = parse_added states (items s1.add) s1 in
    record s2 { after = without_if (contains (items s2.after) name) s2.after name }

-- The steps behind them. The loop over Remove stands there twice.
unfoldable pub parse_references : States → State → State
parse_references states s =
    let s1 = record s { remove = drop_unknown states (items s.remove) s.remove } in
    let s2 = record s1 { after = drop_unknown states (items s1.after) s1.after } in
    record s2 { remove = drop_unknown states (items s2.remove) s2.remove }

abbrev pub parse_state : States → String → State → State
parse_state states name s = parse_references states (parse_relations states name s)

unfoldable pub parse_from : States → Schema → Schema × List (String × String)
parse_from states [] = ([], [])
parse_from states ((name, s) ∷ schema) =
    let (parsed, errors) = parse_from states schema in
    let s' = parse_relations states name s in
    ((name, parse_references states s') ∷ parsed, conflicts name s' (items s'.require) ++ errors)

-- Schema.Parse: the parsed schema and the errors.
unfoldable pub parse : Schema → Schema × List (String × String)
parse schema = parse_from (keys schema) schema
