-- ===== src/Tests/Schemas.antt =====
-- The theorems on schemas and on exported machines, at small ones.
use asyncmachine_go.Base.{
  ◌+◌, ◌%◌, ◌^◌, ◌≡◌, refl, true, false, not, ◌&&◌, ◌||◌, [], ◌∷◌, String, some, contains,
  string_eq, ◌==◌, inl, lookup, keys, put, remove_key,
}
use asyncmachine_go.Schema.{States, State, items, zero_state, clone_schema, clone_state}
use asyncmachine_go.Schema.Parse.{
  parse, parse_from, parse_state, parse_relations, parse_references, parse_added, without,
  without_if, drop_unknown, conflicts,
}
use asyncmachine_go.Schema.Edit.{merge, copy_all, copy_into}
use asyncmachine_go.Schema.Parsed.{contains-parse_state}
use asyncmachine_go.Slices.{slices_without, slices_uniq, uniq_from}
use asyncmachine_go.Names.{all_defined}
use asyncmachine_go.Machine.{time_all}
use asyncmachine_go.Verify.{verify_states}
use asyncmachine_go.Snapshot.{Instance, Serialized, Imported, export, import_from}
use asyncmachine_go.Snapshot.Restored.{import_from-export}
use asyncmachine_go.Tests.Fixtures.{machine, machine-IsWellFormed}

-- A removes itself, the unknown X and B, which it adds.
abbrev messy : State
messy = record zero_state {
  add = some ("B" ∷ []);
  remove = some ("A" ∷ "B" ∷ "X" ∷ "C" ∷ []);
  after = some ("A" ∷ "C" ∷ []);
}

abbrev names : States
names = "A" ∷ "B" ∷ "C" ∷ []

abbrev self : String
self = "A"

contains-parse_state_example :
    let p = parse_state names self messy in
    (contains (items p.remove) "C" ≡ (
      contains (items messy.remove) "C"
      && not (self == "C")
      && not (contains (items messy.add) "C")
      && contains names "C"))
    × (contains (items p.after) "C"
        ≡ (contains (items messy.after) "C" && not (self == "C") && contains names "C"))
    × (contains (items p.add) "C" ≡ (
        contains (items messy.add) "C"
        && (contains names "C" || (contains (items messy.remove) "C" && not (self == "C")))))
unfolding contains
contains-parse_state_example =
    contains-parse_state names self messy "C" (refl, (refl, (refl, (refl, tt)))) (refl, tt)
      (refl, (refl, tt))

-- A Require relation to the unknown X stays.
parse_test :
    parse (("A", record zero_state { require = some ("X" ∷ []); remove = some ("X" ∷ []) }) ∷ [])
    ≡ (
      ("A", record zero_state { require = some ("X" ∷ []); remove = some [] }) ∷ [],
      ("A", "X") ∷ [],
    )
unfolding parse parse_from parse_relations parse_references parse_added without without_if
    drop_unknown conflicts slices_without contains keys
parse_test = refl

merge_test :
    merge (("A", zero_state) ∷ []) ((("A", messy) ∷ ("", zero_state) ∷ []) ∷ []) ≡ ("A", messy) ∷ []
unfolding merge copy_all copy_into put remove_key clone_schema clone_state
merge_test = refl

-- VerifyStates of a list with a duplicate loses a name.
duplicate_test :
    verify_states machine ("A" ∷ "A" ∷ "B" ∷ "C" ∷ [])
    ≡ some (record machine { state_names = "A" ∷ "B" ∷ "C" ∷ [] })
unfolding verify_states all_defined slices_uniq uniq_from contains lookup
duplicate_test = refl

abbrev reordered : States
reordered = "D" ∷ "C" ∷ "B" ∷ "A" ∷ []

abbrev source : Instance
source = record {
  machine = machine;
  id = "m";
  machine_tick = 1;
  states_verified = true;
  queue_tick = 1;
}

abbrev saved : Serialized
saved = record {
  id = "m";
  state_names = machine.state_names;
  time = time_all machine;
  queue_tick = 1;
  machine_tick = 1;
}

export_test : export source ≡ some (saved, clone_schema machine.schema)
unfolding export
export_test = refl

-- A machine with other clocks and other active states.
abbrev target : Instance
target = record source {
  machine = record machine { active_states = "A" ∷ []; clock = ("A", 7) ∷ [] };
}

import_from-export_example :
    (c : Instance) × (import_from false saved target ≡ Imported.done c)
    × (c.machine.state_names ≡ machine.state_names)
    × (time_all c.machine ≡ time_all machine)
    × ((s : String) → contains c.machine.active_states s ≡ contains machine.active_states s)
    × (c.machine_tick ≡ (1 + 1) % 2 ^ 32)
unfolding contains
import_from-export_example =
    import_from-export false source target saved (clone_schema machine.schema) machine-IsWellFormed
      export_test refl refl (λ s h. h) (inl refl)
