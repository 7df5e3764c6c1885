-- ===== src/Tests/Transitions.antt =====
-- A transition of the small machine, from its start to its result.
use asyncmachine_go.Base.{
  ◌≡◌, refl, Bool, true, false, not, ◌==◌, if◌then◌else◌, [], ◌∷◌, String, none, some, contains,
  position, index, lookup, put, keys, pos, string_eq, int_eq,
}
use asyncmachine_go.Text.{trim_space, trim_left, trim_right, is_space, join_text}
use asyncmachine_go.Slices.{
  slices_filter, slices_reverse, slices_without, slices_none, uniq_from, slices_uniq,
}
use asyncmachine_go.Schema.{States, schema_names}
use asyncmachine_go.StateList.{states_to_index}
use asyncmachine_go.Names.{all_defined, has_dups, must_parse_states}
use asyncmachine_go.Relations.{
  MutationType, add_states, add_skips, add_pass, add_loop, parse_add, state_blocked_by,
  get_missing_requires, require_pass, require_loop, parse_require, block_pass, removed_by,
  survivors, resolve,
}
use asyncmachine_go.Relations.Sorting.{require_less, after_less, sort_require, sort_states}
use asyncmachine_go.Relations.Target.{target_states}
use asyncmachine_go.Machine.{
  Machine, states_diff, time_of, time_all, tick_targets, tick_removed, sum_all, put_all,
  set_active_states, predict_targets, predict_removed, predict_time,
}
use asyncmachine_go.Machine.Checks.{all_active, is, is_not, is_time, compare_ticks}
use asyncmachine_go.Transition.{
  Mutation, Tx, states_to_set, indexes_of, any_multi, setup_accepted, enters_of, setup_exit_enter,
  new_transition,
}
use asyncmachine_go.Transition.Emit.{
  Run, unless_canceled, handle, is_partial, negotiate, emit_exit, emit_enter, emit_exit_events,
  emit_enter_events, emit_self, self_from, emit_self_events, emit_pair, pairs_from, pairs_with,
  all_pairs, emit_state_state_events, emit_final, finals_from, emit_final_events,
}
use asyncmachine_go.Transition.Run.{
  Outcome, start_run, is_blocked, auto_states, new_auto_mutation, is_health, cancel_empty_auto,
  negotiation, final_phase, recheck_auto, result_of, finish, execute, emit_events, recover_from,
  recover_final_phase,
}
use asyncmachine_go.Tests.Fixtures.{machine, add_a, sorter}

abbrev pub started : Tx
started = record {
  mutation = add_a;
  states_before = "C" ∷ [];
  time_before = 2 ∷ 0 ∷ 3 ∷ 0 ∷ [];
  time_after = 3 ∷ 1 ∷ 4 ∷ 0 ∷ [];
  targets = "A" ∷ "B" ∷ [];
  target_indexes = pos 0 ∷ pos 1 ∷ [];
  enters = "A" ∷ "B" ∷ [];
  exits = "C" ∷ [];
  is_accepted = true;
}

-- Adding A starts A and B and ends C.
pub started_eq : new_transition ⦃sorter = sorter⦄ machine add_a ≡ some started
unfolding contains position index lookup trim_space trim_left trim_right is_space slices_filter
    slices_reverse uniq_from slices_uniq states_to_index all_defined has_dups must_parse_states
    add_states add_skips add_pass add_loop parse_add state_blocked_by get_missing_requires
    require_pass require_loop parse_require block_pass removed_by survivors resolve require_less
    after_less sort_require sort_states target_states states_diff time_of time_all predict_targets
    predict_removed predict_time all_active is states_to_set indexes_of any_multi setup_accepted
    enters_of setup_exit_enter new_transition
started_eq = refl

-- Handlers that agree to everything.
abbrev pub agree : States → String → Bool
agree events name = true

-- The machine after it.
abbrev pub after_a : Machine
after_a = record machine {
  active_states = "A" ∷ "B" ∷ [];
  clock = ("A", 3) ∷ ("B", 1) ∷ ("C", 4) ∷ ("D", 0) ∷ [];
  activated_at = ("A", 8) ∷ ("B", 8) ∷ [];
}

abbrev pub run_a : Run
run_a = record {
  targets = "A" ∷ "B" ∷ [];
  target_indexes = pos 0 ∷ pos 1 ∷ [];
  events =
      "AnyState" ∷ "BState" ∷ "AState" ∷ "CEnd" ∷ "AnyEnter" ∷ "CB" ∷ "CA" ∷ "BEnter" ∷ "AEnter"
      ∷ "CExit" ∷ [];
  to_state = "Any";
  is_enter = true;
  is_canceled = false;
}

-- It is executed, every handler is called, and D is due next.
abbrev pub outcome_a : Outcome
outcome_a = record {
  machine = after_a;
  tx = started;
  run = run_a;
  result = true;
  auto_mutation = some record {
    mut_type = MutationType.add;
    called = "D" ∷ [];
    called_indexes = pos 3 ∷ [];
    is_auto = true;
    is_check = false;
  };
}

pub outcome_eq : emit_events agree ⦃sorter = sorter⦄ true false machine started ≡ some outcome_a
unfolding contains position index lookup trim_space trim_left trim_right is_space slices_filter
    slices_reverse uniq_from slices_uniq states_to_index all_defined has_dups must_parse_states
    add_states add_skips add_pass add_loop parse_add state_blocked_by get_missing_requires
    require_pass require_loop parse_require block_pass removed_by survivors resolve require_less
    after_less sort_require sort_states target_states states_diff time_of time_all predict_targets
    predict_removed predict_time all_active is states_to_set indexes_of any_multi setup_accepted
    enters_of setup_exit_enter new_transition unless_canceled handle is_partial negotiate emit_exit
    emit_enter emit_exit_events emit_enter_events emit_self self_from emit_self_events emit_pair
    pairs_from pairs_with all_pairs emit_state_state_events emit_final finals_from emit_final_events
    is_blocked auto_states new_auto_mutation is_health cancel_empty_auto negotiation final_phase
    recheck_auto result_of finish execute emit_events compare_ticks is_time set_active_states
    tick_targets tick_removed put_all sum_all schema_names keys is_not slices_none slices_without
    recover_from recover_final_phase put join_text
outcome_eq = refl

-- Handlers of which AEnter says no.
abbrev pub veto : States → String → Bool
veto events name = not (name == "AEnter")

abbrev pub run_veto : Run
run_veto = record {
  targets = "A" ∷ "B" ∷ [];
  target_indexes = pos 0 ∷ pos 1 ∷ [];
  events = "AEnter" ∷ "CExit" ∷ [];
  to_state = "A";
  is_enter = true;
  is_canceled = true;
}

pub negotiation_eq : negotiation veto machine started (start_run started) ≡ some run_veto
unfolding contains position index lookup trim_space trim_left trim_right is_space slices_filter
    slices_reverse uniq_from slices_uniq states_to_index all_defined has_dups must_parse_states
    add_states add_skips add_pass add_loop parse_add state_blocked_by get_missing_requires
    require_pass require_loop parse_require block_pass removed_by survivors resolve require_less
    after_less sort_require sort_states target_states states_diff time_of time_all predict_targets
    predict_removed predict_time all_active is states_to_set indexes_of any_multi setup_accepted
    enters_of setup_exit_enter new_transition unless_canceled handle is_partial negotiate emit_exit
    emit_enter emit_exit_events emit_enter_events emit_self self_from emit_self_events emit_pair
    pairs_from pairs_with all_pairs emit_state_state_events emit_final finals_from emit_final_events
    is_blocked auto_states new_auto_mutation is_health cancel_empty_auto negotiation final_phase
    recheck_auto result_of finish execute emit_events compare_ticks is_time set_active_states
    tick_targets tick_removed put_all sum_all schema_names keys is_not slices_none slices_without
    recover_from recover_final_phase put join_text
negotiation_eq = refl

-- What a transition that is stopped leaves.
abbrev pub stopped : Tx → Run → Outcome
stopped t r = record {
  machine = machine;
  tx = record t {
    time_after = if t.is_check then t.time_after else time_all machine;
    is_accepted = false;
  };
  run = r;
  result = false;
  auto_mutation = none;
}

pub vetoed_eq :
    emit_events veto ⦃sorter = sorter⦄ true false machine started ≡ some (stopped started run_veto)
unfolding contains position index lookup trim_space trim_left trim_right is_space slices_filter
    slices_reverse uniq_from slices_uniq states_to_index all_defined has_dups must_parse_states
    add_states add_skips add_pass add_loop parse_add state_blocked_by get_missing_requires
    require_pass require_loop parse_require block_pass removed_by survivors resolve require_less
    after_less sort_require sort_states target_states states_diff time_of time_all predict_targets
    predict_removed predict_time all_active is states_to_set indexes_of any_multi setup_accepted
    enters_of setup_exit_enter new_transition unless_canceled handle is_partial negotiate emit_exit
    emit_enter emit_exit_events emit_enter_events emit_self self_from emit_self_events emit_pair
    pairs_from pairs_with all_pairs emit_state_state_events emit_final finals_from emit_final_events
    is_blocked auto_states new_auto_mutation is_health cancel_empty_auto negotiation final_phase
    recheck_auto result_of finish execute emit_events compare_ticks is_time set_active_states
    tick_targets tick_removed put_all sum_all schema_names keys is_not slices_none slices_without
    recover_from recover_final_phase put join_text
vetoed_eq = refl

-- A rejected transition.
abbrev pub rejected : Tx
rejected = record started { is_accepted = false }

pub rejected_eq :
    emit_events veto ⦃sorter = sorter⦄ false false machine rejected
    ≡ some (stopped rejected (start_run rejected))
unfolding contains position index lookup trim_space trim_left trim_right is_space slices_filter
    slices_reverse uniq_from slices_uniq states_to_index all_defined has_dups must_parse_states
    add_states add_skips add_pass add_loop parse_add state_blocked_by get_missing_requires
    require_pass require_loop parse_require block_pass removed_by survivors resolve require_less
    after_less sort_require sort_states target_states states_diff time_of time_all predict_targets
    predict_removed predict_time all_active is states_to_set indexes_of any_multi setup_accepted
    enters_of setup_exit_enter new_transition unless_canceled handle is_partial negotiate emit_exit
    emit_enter emit_exit_events emit_enter_events emit_self self_from emit_self_events emit_pair
    pairs_from pairs_with all_pairs emit_state_state_events emit_final finals_from emit_final_events
    is_blocked auto_states new_auto_mutation is_health cancel_empty_auto negotiation final_phase
    recheck_auto result_of finish execute emit_events compare_ticks is_time set_active_states
    tick_targets tick_removed put_all sum_all schema_names keys is_not slices_none slices_without
    recover_from recover_final_phase put join_text
rejected_eq = refl

-- A check of the same mutation.
abbrev pub check_a : Mutation
check_a = record add_a { is_check = true }

abbrev pub checked : Tx
checked = record started { mutation = check_a }

pub checked_eq :
    emit_events veto ⦃sorter = sorter⦄ true false machine checked ≡ some (stopped checked run_veto)
unfolding contains position index lookup trim_space trim_left trim_right is_space slices_filter
    slices_reverse uniq_from slices_uniq states_to_index all_defined has_dups must_parse_states
    add_states add_skips add_pass add_loop parse_add state_blocked_by get_missing_requires
    require_pass require_loop parse_require block_pass removed_by survivors resolve require_less
    after_less sort_require sort_states target_states states_diff time_of time_all predict_targets
    predict_removed predict_time all_active is states_to_set indexes_of any_multi setup_accepted
    enters_of setup_exit_enter new_transition unless_canceled handle is_partial negotiate emit_exit
    emit_enter emit_exit_events emit_enter_events emit_self self_from emit_self_events emit_pair
    pairs_from pairs_with all_pairs emit_state_state_events emit_final finals_from emit_final_events
    is_blocked auto_states new_auto_mutation is_health cancel_empty_auto negotiation final_phase
    recheck_auto result_of finish execute emit_events compare_ticks is_time set_active_states
    tick_targets tick_removed put_all sum_all schema_names keys is_not slices_none slices_without
    recover_from recover_final_phase put join_text
checked_eq = refl
