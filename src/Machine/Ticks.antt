-- ===== src/Machine/Ticks.antt =====
-- machine.go: setActiveStates moves each clock once, and by how much.
use asyncmachine_go.Base.{
  ℕ, ◌+◌, ◌^◌, ◌<◌, ◌≡◌, refl, true, false, not, ◌&&◌, ◌||◌, [], ◌∷◌, String, Option, none, some,
  contains, if◌then◌else◌, put, lookup-put, string_eq, arith, IsDistinct, Bool-cases, inl, inr,
  ◌==◌,
}
use asyncmachine_go.Slices.Laws.{contains-slices_filter, slices_filter-IsDistinct}
use asyncmachine_go.Schema.{States, Schema, state_of}
use asyncmachine_go.Machine.Defs.{
  Clock, tick_of, Machine, u64, states_diff, target_step, bump_clock, tick_targets, tick_removed,
  set_active_states,
}

abbrev pub amount : Option ℕ → ℕ
amount none = 0
amount (some n) = n

-- What a clock moves by: 1 for a state that starts or stops being active, 2 for a Multi state that is
-- called while it is active and stays so, 0 for any other.
abbrev pub tick_delta : Machine → States → States → String → ℕ
tick_delta m called targets name =
    let before = contains m.active_states name in
    let after = contains targets name in
    if before && after
    then if contains called name && (state_of m.schema name).multi then 2 else 0
    else if before || after
    then 1
    else 0

-- No clock is past the end of uint64.
abbrev pub IsSmall : Clock → Type 0
IsSmall clock = (name : String) → tick_of clock name < 2 ^ 64

pub contains-states_diff :
    (states1 states2 : States) (a : String)
    → contains (states_diff states1 states2) a ≡ (contains states1 a && not (contains states2 a))
unfolding states_diff
contains-states_diff states1 states2 a =
    contains-slices_filter states1 (λ name. not (contains states2 name)) a

tick_of-put :
    (k j : String) (v : ℕ) (clock : Clock)
    → tick_of (put k v clock) j ≡ (if k == j then v else tick_of clock j)
tick_of-put k j v clock = ground (arith, lookup-put k j v clock)

pub tick_of-bump_clock :
    (k j : String) (n : Option ℕ) (clock : Clock)
    → IsSmall clock
    → tick_of (bump_clock k n clock) j
      ≡ (if k == j then u64 (tick_of clock j + amount n) else tick_of clock j)
tick_of-bump_clock k j none clock small = elim (Bool-cases (k == j)) [
  | inl same ↦ rw same (omega (arith, small j))
  | inr other ↦ rw other
]
tick_of-bump_clock k j (some n) clock small =
    ground (arith, tick_of-put k j (u64 (tick_of clock k + n)) clock, string_eq.beq_iff k j)

pub bump_clock-IsSmall :
    (k : String) (n : Option ℕ) (clock : Clock) → IsSmall clock → IsSmall (bump_clock k n clock)
bump_clock-IsSmall k none clock small j = small j
bump_clock-IsSmall k (some n) clock small j =
    ground (arith, tick_of-put k j (u64 (tick_of clock k + n)) clock, small j)

pub tick_targets-IsSmall :
    (schema : Schema) (previous called targets : States) (clock : Clock)
    → IsSmall clock
    → IsSmall (tick_targets schema previous called targets clock)
unfolding tick_targets
tick_targets-IsSmall schema previous called [] clock small = small
tick_targets-IsSmall schema previous called (name ∷ targets) clock small =
    tick_targets-IsSmall schema previous called targets _
      (bump_clock-IsSmall name (target_step schema previous called name) clock small)

pub tick_removed-IsSmall :
    (removed : States) (clock : Clock) → IsSmall clock → IsSmall (tick_removed removed clock)
unfolding tick_removed
tick_removed-IsSmall [] clock small = small
tick_removed-IsSmall (name ∷ removed) clock small =
    tick_removed-IsSmall removed _ (bump_clock-IsSmall name (some 1) clock small)

tick_of-tick_targets :
    (schema : Schema) (previous called targets : States) (clock : Clock) (j : String)
    → IsDistinct targets
    → IsSmall clock
    → tick_of (tick_targets schema previous called targets clock) j ≡ (
        if contains targets j
        then u64 (tick_of clock j + amount (target_step schema previous called j))
        else tick_of clock j)
unfolding tick_targets contains
tick_of-tick_targets schema previous called [] clock j d small = refl
tick_of-tick_targets schema previous called (name ∷ targets) clock j d small =
    let step = target_step schema previous called name in
    ground (
      arith,
      tick_of-tick_targets schema previous called targets (bump_clock name step clock) j d.1
          (bump_clock-IsSmall name step clock small),
      tick_of-bump_clock name j step clock small,
      string_eq.beq_iff name j,
    )

tick_of-tick_removed :
    (removed : States) (clock : Clock) (j : String)
    → IsDistinct removed
    → IsSmall clock
    → tick_of (tick_removed removed clock) j
      ≡ (if contains removed j then u64 (tick_of clock j + 1) else tick_of clock j)
unfolding tick_removed contains
tick_of-tick_removed [] clock j d small = refl
tick_of-tick_removed (name ∷ removed) clock j d small = ground (
  arith,
  tick_of-tick_removed removed (bump_clock name (some 1) clock) j d.1
      (bump_clock-IsSmall name (some 1) clock small),
  tick_of-bump_clock name j (some 1) clock small,
  string_eq.beq_iff name j,
)

abbrev pub ticked_clock : Machine → States → States → Clock
ticked_clock m called targets =
    tick_removed (states_diff m.active_states targets)
      (tick_targets m.schema m.active_states called targets m.clock)

tick_of-ticked_clock :
    (m : Machine) (called targets : States) (j : String)
    → IsDistinct m.active_states
    → IsDistinct targets
    → IsSmall m.clock
    → tick_of (ticked_clock m called targets) j
      ≡ u64 (tick_of m.clock j + tick_delta m called targets j)
unfolding states_diff
tick_of-ticked_clock m called targets j da dt small =
    let mid = tick_targets m.schema m.active_states called targets m.clock in
    let kept = λ (name : String). not (contains targets name) in
    let removed = states_diff m.active_states targets in
    ground (
      arith,
      tick_of-tick_removed removed mid j (slices_filter-IsDistinct m.active_states kept da)
          (tick_targets-IsSmall m.schema m.active_states called targets m.clock small),
      tick_of-tick_targets m.schema m.active_states called targets m.clock j dt small,
      contains-slices_filter m.active_states kept j,
      small j,
    )

-- If the machine is live, the active and the target states are distinct and no clock is past 2^64,
-- then the clock of every state moves, modulo 2^64, by 1 if the state starts or stops being active,
-- by 2 if it stays active, is Multi and is called, and by 0 otherwise.
pub tick_of-set_active_states :
    (m : Machine) (called targets : States) (j : String)
    → m.disposing ≡ false
    → IsDistinct m.active_states
    → IsDistinct targets
    → IsSmall m.clock
    → tick_of (set_active_states m called targets).clock j
      ≡ u64 (tick_of m.clock j + tick_delta m called targets j)
unfolding set_active_states
tick_of-set_active_states m called targets j live da dt small =
    rw live (tick_of-ticked_clock m called targets j da dt small)

pub active_states-set_active_states :
    (m : Machine) (called targets : States)
    → m.disposing ≡ false
    → (set_active_states m called targets).active_states ≡ targets
unfolding set_active_states
active_states-set_active_states m called targets live = rw live

pub set_active_states_disposing :
    (m : Machine) (called targets : States)
    → m.disposing ≡ true
    → set_active_states m called targets ≡ m
unfolding set_active_states
set_active_states_disposing m called targets gone = rw gone

-- Nothing but the active states, the clocks and the times of activation changes.
pub set_active_states_keeps :
    (m : Machine) (called targets : States)
    → let m' = set_active_states m called targets in
      (m'.schema ≡ m.schema)
      × (m'.state_names ≡ m.state_names)
      × (m'.topology ≡ m.topology)
      × (m'.disposing ≡ m.disposing)
unfolding set_active_states
set_active_states_keeps m called targets = elim (Bool-cases m.disposing) [
  | inl gone ↦ ground (arith, gone)
  | inr live ↦ ground (arith, live)
]
