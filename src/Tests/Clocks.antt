-- ===== src/Tests/Clocks.antt =====
-- The theorems on clocks, times and lists, at small inputs.
use asyncmachine_go.Base.{
  ℕ, ◌+◌, ◌^◌, ◌<◌, ◌≡◌, ◌↔◌, ◌≤◌, refl, true, false, List, [], ◌∷◌, String, none, some, contains,
  string_eq, IsDistinct, IsSubset, lookup, arith,
}
use asyncmachine_go.Text.{trim_space, trim_left, trim_right, is_space}
use asyncmachine_go.Schema.{States}
use asyncmachine_go.StateList.{index_to_states, states_to_index}
use asyncmachine_go.StateList.Indexes.{index_to_states-states_to_index}
use asyncmachine_go.Machine.{Time, set_active_states, time_all, tick_of, u64, is_active_tick}
use asyncmachine_go.Machine.Checks
use asyncmachine_go.Machine.Ticks.{tick_delta, tick_of-set_active_states}
use asyncmachine_go.Machine.Invariant.{
  IsWellFormed, set_active_states-IsWellFormed, set_active_states-monotone,
}
use asyncmachine_go.Machine.Past.{was_time-set_active_states}
use asyncmachine_go.Time
use asyncmachine_go.Time.Laws.{add-diff_since, next_active_lem, is-time_all}
use asyncmachine_go.Tests.Fixtures.{machine, machine-IsWellFormed}

abbrev called : States
called = "A" ∷ []

abbrev targets : States
targets = "A" ∷ "B" ∷ []

targets-IsDistinct : IsDistinct targets
unfolding contains
targets-IsDistinct = (refl, (refl, tt))

targets-IsSubset : IsSubset targets machine.state_names
unfolding contains
targets-IsSubset a h = ground (arith)

machine-room : (name : String) → tick_of machine.clock name + 2 < 2 ^ 64
unfolding lookup
machine-room name = ground (arith)

set_active_states-IsWellFormed_example : IsWellFormed (set_active_states machine called targets)
set_active_states-IsWellFormed_example =
    set_active_states-IsWellFormed machine called targets machine-IsWellFormed targets-IsDistinct
      targets-IsSubset

set_active_states-monotone_example :
    (tick_of machine.clock "A" ≤ tick_of (set_active_states machine called targets).clock "A")
    × ((tick_of (set_active_states machine called targets).clock "A" ≡ tick_of machine.clock "A")
        ↔ (tick_delta machine called targets "A" ≡ 0))
set_active_states-monotone_example =
    set_active_states-monotone machine called targets "A" refl machine-IsWellFormed
      targets-IsDistinct (machine-room "A")

tick_of-set_active_states_example :
    tick_of (set_active_states machine called targets).clock "C"
    ≡ u64 (tick_of machine.clock "C" + tick_delta machine called targets "C")
tick_of-set_active_states_example =
    tick_of-set_active_states machine called targets "C" refl machine-IsWellFormed.active_once
      targets-IsDistinct machine-IsWellFormed.small

was_time-set_active_states_example :
    Checks.was_time (set_active_states machine called targets) (time_all machine) none ≡ some true
was_time-set_active_states_example =
    was_time-set_active_states machine called targets refl machine-IsWellFormed targets-IsDistinct
      machine-room

abbrev later : Time
later = 3 ∷ 1 ∷ []

abbrev earlier : Time
earlier = 2 ∷ 4 ∷ []

add-diff_since_example : Time.add earlier (Time.diff_since later earlier) ≡ later
add-diff_since_example =
    add-diff_since later earlier refl (omega arith, (omega arith, tt))
      (omega arith, (omega arith, tt))

next_active_lem_example :
    (is_active_tick (Time.next_active 3) ≡ true)
    × (3 < Time.next_active 3)
    × ((u : ℕ) → 3 < u → u < Time.next_active 3 → is_active_tick u ≡ false)
next_active_lem_example = next_active_lem 3 (omega arith)

is-time_all_example :
    Time.is (time_all machine) (states_to_index machine.state_names ("A" ∷ "B" ∷ []))
    ≡ some (Checks.is machine ("A" ∷ "B" ∷ []))
unfolding trim_space trim_left trim_right is_space
is-time_all_example =
    is-time_all machine "A" ("B" ∷ []) refl machine-IsWellFormed targets-IsSubset (refl, (refl, tt))

abbrev groups : List States
groups = targets ∷ called ∷ []

index_to_states-states_to_index_example :
    index_to_states machine.state_names (states_to_index machine.state_names targets) ≡ some targets
unfolding trim_space trim_left trim_right is_space
index_to_states-states_to_index_example =
    index_to_states-states_to_index machine.state_names targets targets-IsSubset (refl, (refl, tt))
