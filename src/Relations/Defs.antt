-- ===== src/Relations/Defs.antt =====
-- relations.go: the resolver's passes over a list of states.
use asyncmachine_go.Base.{
  ℕ, zero, suc, Bool, true, false, not, ◌&&◌, List, [], ◌∷◌, ◌++◌, String, contains, index,
  if◌then◌else◌, ℤ, length, nat_beq, is_empty, string_eq, int_eq,
}
use asyncmachine_go.Slices.{slices_filter, slices_reverse, slices_uniq}
use asyncmachine_go.Schema.{States, Schema, items, state_of}

-- mutation.go and types.go: MutationType
pub data MutationType : Type 0 where
  add remove set eval : MutationType

abbrev pub is_remove : MutationType → Bool
is_remove MutationType.remove = true
is_remove _ = false

-- What a call of the resolver reads: rr.Machine.schema, rr.Index, rr.topology, rr.statesBefore,
-- and the type and called indexes of the transition's mutation.
pub record Context : Type 0 where
  pub schema : Schema
  pub names : States
  pub topology : States
  pub before : States
  pub mut_type : MutationType
  pub called : List ℤ

-- The inner filter of parseAdd: the Add relation without the states called for removal.
unfoldable pub add_states : Context → String → States
add_states c name =
    slices_filter (items (state_of c.schema name).add)
      λ target. not (is_remove c.mut_type && contains c.called (index c.names target))

-- The variables of the loop of parseAdd.
pub record AddLoop : Type 0 where
  pub ret : States
  pub visited : States
  pub changed : Bool

-- The test of parseAdd that skips a state: active already and not Multi, or visited.
unfoldable pub add_skips : Context → States → String → Bool
add_skips c visited name =
    if contains c.before name && not (state_of c.schema name).multi
    then true
    else contains visited name

abbrev add_visit : States → String → AddLoop → AddLoop
add_visit [] name l = l
add_visit (x ∷ xs) name l = record {
  ret = l.ret ++ (x ∷ xs);
  visited = l.visited ++ name ∷ [];
  changed = true;
}

-- One round of parseAdd over the argument states.
unfoldable pub add_pass : Context → States → AddLoop → AddLoop
unfolding add_skips
add_pass c [] l = l
add_pass c (name ∷ states) l =
    add_pass c states
      (if add_skips c l.visited name then l else add_visit (add_states c name) name l)

-- `for changed`, on fuel.
unfoldable pub add_loop : ℕ → Context → States → AddLoop → AddLoop
add_loop zero c states l = l
add_loop (suc fuel) c states l = elim l.changed [
  | true ↦ add_loop fuel c states (add_pass c states (record l { changed = false }))
  | false ↦ l
]

abbrev pub add_start : States → AddLoop
add_start states = record { ret = states; visited = []; changed = true }

-- parseAdd. Two rounds are enough: Add.add_loop_ends.
unfoldable pub parse_add : Context → States → States
parse_add c states = (add_loop 2 c states (add_start states)).ret

-- stateBlockedBy
unfoldable pub state_blocked_by : Context → States → String → States
state_blocked_by c blocking blocked =
    slices_filter blocking λ name. contains (items (state_of c.schema name).remove) blocked

-- getMissingRequires
unfoldable pub get_missing_requires : Context → String → States → States
get_missing_requires c name targets =
    slices_filter (items (state_of c.schema name).require) λ req. not (contains targets req)

-- One round of parseRequire.
unfoldable pub require_pass : Context → States → States
unfolding get_missing_requires
require_pass c targets =
    slices_filter targets λ name. is_empty (get_missing_requires c name targets)

-- `for lengthBefore != len(targetStates)`, on fuel.
unfoldable pub require_loop : ℕ → Context → ℕ → States → States
require_loop zero c before targets = targets
require_loop (suc fuel) c before targets = elim (nat_beq before (length targets)) [
  | true ↦ targets
  | false ↦ require_loop fuel c (length targets) (require_pass c targets)
]

-- parseRequire. A round that is not the last drops a state: Require.require_loop_ends.
unfoldable pub parse_require : Context → States → States
parse_require c targets = require_loop (suc (suc (length targets))) c 0 targets

-- The filter of TargetStates over the reversed list, with the map `alreadyBlocked`.
unfoldable pub block_pass : Context → States → States → States → States
unfolding state_blocked_by
block_pass c setting blocked [] = []
block_pass c setting blocked (name ∷ states) =
    let free =
      is_empty (slices_filter (state_blocked_by c setting name) λ by. not (contains blocked by)) in
    let rest = block_pass c setting (if free then blocked else name ∷ blocked) states in
    if free then name ∷ rest else rest

-- The Remove relations of the states that are about to be set.
unfoldable pub removed_by : Context → States → States
removed_by c [] = []
removed_by c (name ∷ states) = items (state_of c.schema name).remove ++ removed_by c states

-- TargetStates up to the blocking filter: the states that survive it.
unfoldable pub survivors : Context → States → States
survivors c states_to_set =
    let setting = parse_require c (slices_uniq (parse_add c states_to_set)) in
    block_pass c setting [] (slices_reverse setting)

-- TargetStates from there to its last parseRequire.
unfoldable pub resolve : Context → States → States
resolve c states_to_set =
    let resolved = survivors c states_to_set in
    let kept =
      slices_uniq (
        slices_filter (parse_add c resolved) λ name. not (contains (removed_by c resolved) name)) in
    parse_require c (slices_reverse kept)
