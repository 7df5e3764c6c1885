-- ===== src/Transition/Defs.antt =====
-- transition.go: a transition and how newTransition sets it up.
use asyncmachine_go.Base.{
  Bool, true, false, not, ◌&&◌, ◌||◌, List, [], ◌∷◌, ◌++◌, Option, none, some, contains,
  if◌then◌else◌, ℤ, string_eq, length, ltb, is_empty,
}
use asyncmachine_go.Slices.{slices_filter}
use asyncmachine_go.StateList.{states_to_index}
use asyncmachine_go.Schema.{States, Schema, state_of}
use asyncmachine_go.Relations.{MutationType, Context}
use asyncmachine_go.Relations.Sorting.{StableSort, sort_states}
use asyncmachine_go.Relations.Target.{target_states}
use asyncmachine_go.Machine.{Machine, Time, states_diff, time_all, predict_time}
use asyncmachine_go.Machine.Checks.{is}

-- What a transition reads of its mutation. `called` is the cached list of the called states, and
-- `called_indexes` their indexes.
pub record Mutation : Type 0 where
  pub mut_type : MutationType
  pub called : States
  pub called_indexes : List ℤ
  pub is_auto : Bool
  pub is_check : Bool

-- Transition, with the caches of the called states, the states before and the target states.
pub record Tx : Type 0 where
  pub mutation : Mutation
  pub open mutation use *
  pub states_before : States
  pub time_before : Time
  pub time_after : Time
  pub targets : States
  pub target_indexes : List ℤ
  pub enters : States
  pub exits : States
  pub is_accepted : Bool

-- Transition.statesToSet
unfoldable pub states_to_set : Machine → MutationType → States → States
states_to_set m MutationType.remove states =
    slices_filter m.active_states λ state. not (contains states state)
states_to_set m MutationType.add states = states ++ m.active_states
states_to_set m MutationType.set states = states
states_to_set m MutationType.eval states = []

-- What the resolver reads when it is called for a mutation.
abbrev pub context_of : Machine → Mutation → States → Context
context_of m mut before = record {
  schema = m.schema;
  names = m.state_names;
  topology = m.topology;
  before = before;
  mut_type = mut.mut_type;
  called = mut.called_indexes;
}

-- The indexes of the target states, each in the list of names.
unfoldable pub indexes_of : Machine → States → List ℤ
indexes_of m states = if m.disposing then [] else states_to_index m.state_names states

-- The loop of setupAccepted that looks for a Multi state.
unfoldable pub any_multi : Schema → States → Bool
any_multi schema [] = false
any_multi schema (s ∷ called) =
    let rest = any_multi schema called in if (state_of schema s).multi then true else rest

-- The end of setupAccepted, behind the test on auto mutations.
abbrev pub accept_called : Machine → Mutation → States → Bool → Bool
accept_called m mut not_accepted accepted =
    if is_empty not_accepted
    then accepted
    else if mut.is_check && any_multi m.schema mut.called
    then accepted
    else false

abbrev pub accept_targets : Machine → Mutation → States → Bool
accept_targets m mut targets =
    let not_accepted = states_diff mut.called targets in
    if mut.is_auto
    then if ltb (length not_accepted) (length mut.called)
      then true
      else accept_called m mut not_accepted false
    else accept_called m mut not_accepted true

-- Transition.setupAccepted, on a transition that is accepted so far.
unfoldable pub setup_accepted : Machine → Mutation → States → Bool
setup_accepted m mut targets = elim mut.mut_type [
  | MutationType.remove ↦ true
  | _ ↦ accept_targets m mut targets
]

-- The states of Transition.setupExitEnter whose enter handlers run.
unfoldable pub enters_of : Machine → States → States → States
enters_of m called targets =
    slices_filter targets
      λ s. not (is m (s ∷ [])) || ((state_of m.schema s).multi && contains called s)

module _ ⦃sorter : StableSort⦄ where
  -- Transition.setupExitEnter
  unfoldable pub setup_exit_enter : Machine → Tx → Tx
  setup_exit_enter m t = record t {
    exits =
        sort_states (context_of m t.mutation t.states_before)
          (states_diff m.active_states t.targets);
    enters = enters_of m t.called t.targets;
  }

  abbrev pub start_tx : Machine → Mutation → States → Time → Tx
  start_tx m mut targets after = record {
    mutation = mut;
    states_before = m.active_states;
    time_before = time_all m;
    time_after = after;
    targets = targets;
    target_indexes = indexes_of m targets;
    enters = [];
    exits = [];
    is_accepted = setup_accepted m mut targets;
  }

  abbrev pub settle : Machine → Tx → Tx
  settle m t = if t.is_accepted then setup_exit_enter m t else t

  -- newTransition, without its logs and tracers. `none` is a panic.
  unfoldable pub new_transition : Machine → Mutation → Option Tx
  new_transition m mut =
      elim (target_states m.disposing (context_of m mut m.active_states)
        (states_to_set m mut.mut_type mut.called)) [
          | none ↦ none
          | some targets ↦ elim (predict_time m mut.is_check mut.called targets) [
            | none ↦ none
            | some after ↦ some (settle m (start_tx m mut targets after))
          ]
        ]
