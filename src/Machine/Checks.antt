-- ===== src/Machine/Checks.antt =====
-- machine.go: questions about the active states and the clocks. A panic is `none`.
use asyncmachine_go.Base.{
  ℕ, Bool, true, false, not, List, [], ◌∷◌, String, Option, none, some, contains, if◌then◌else◌,
  string_eq, ltb, nat_beq, index, ℤ, minus_one,
}
use asyncmachine_go.Slices.{slices_every, slices_none}
use asyncmachine_go.Schema.{States, Slice}
use asyncmachine_go.Names.{must_parse_states}
use asyncmachine_go.Machine.Defs.{Clock, Time, Machine, tick_of}

-- The loop of Machine.is: every state is registered and active.
unfoldable pub all_active : States → States → States → Bool
all_active names active [] = true
all_active names active (s ∷ states) =
    let rest = all_active names active states in
    if not (contains names s) then false else if not (contains active s) then false else rest

-- Is, and is without its lock
unfoldable pub is : Machine → States → Bool
is m states = if m.disposing then false else all_active m.state_names m.active_states states

-- Not: false while disposing. A name that is not in the schema panics.
unfoldable pub is_not : Machine → States → Option Bool
is_not m states =
    if m.disposing then some false else elim (must_parse_states m.disposing m.schema states) [
      | none ↦ none
      | some parsed ↦ some (slices_none parsed m.active_states)
    ]

-- Any
unfoldable pub any : Machine → List States → Bool
any m [] = false
any m (s ∷ states) = let rest = any m states in if is m s then true else rest

-- Any1
unfoldable pub any1 : Machine → States → Bool
any1 m [] = false
any1 m (s ∷ states) = let rest = any1 m states in if is m (s ∷ []) then true else rest

-- Has
unfoldable pub has : Machine → States → Bool
has m states = if m.disposing then false else slices_every m.state_names states

-- Tick
unfoldable pub tick : Machine → String → ℕ
tick m state = if m.disposing then 0 else tick_of m.clock state

-- Index1
unfoldable pub index1 : Machine → String → ℤ
index1 m state = if m.disposing then minus_one else index m.state_names state

-- The filter of ActiveStates with an argument.
unfoldable pub only_active : States → States → States
only_active active [] = []
only_active active (state ∷ states) =
    let rest = only_active active states in if contains active state then state ∷ rest else rest

-- ActiveStates
unfoldable pub active_states_of : Machine → Slice → States
active_states_of m none = if m.disposing then [] else m.active_states
active_states_of m (some states) = if m.disposing then [] else only_active m.active_states states

-- One group of Switch.
unfoldable pub switch_group : States → States → Option String
switch_group active [] = none
switch_group active (state ∷ states) =
    let rest = switch_group active states in if contains active state then some state else rest

-- Switch: the first active state of the groups, or the empty name.
unfoldable pub switch : Machine → List States → String
switch m [] = ""
switch m (states ∷ groups) =
    let rest = switch m groups in
    elim (switch_group (active_states_of m none) states) [ none ↦ rest | some state ↦ state ]

-- The loop of IsTime and WasTime: the ticks of a time against the clocks of the states at their
-- positions. A time that is longer than the list of states panics unless a tick fails before.
unfoldable pub compare_ticks : (ℕ → ℕ → Bool) → Clock → States → Time → Option Bool
compare_ticks holds clock states [] = some true
compare_ticks holds clock [] (tick ∷ t) = none
compare_ticks holds clock (s ∷ states) (tick ∷ t) =
    let rest = compare_ticks holds clock states t in
    if not (holds (tick_of clock s) tick) then some false else rest

abbrev pub states_or_all : Machine → Slice → States
states_or_all m none = m.state_names
states_or_all m (some states) = states

-- IsTime
unfoldable pub is_time : Machine → Time → Slice → Option Bool
is_time m t states =
    if m.disposing then some false else compare_ticks nat_beq m.clock (states_or_all m states) t

-- WasTime
unfoldable pub was_time : Machine → Time → Slice → Option Bool
was_time m t states =
    if m.disposing
    then some false
    else compare_ticks (λ now tick. not (ltb now tick)) m.clock (states_or_all m states) t

-- The loop of IsClock and WasClock over the entries of the argument.
unfoldable pub compare_clock : (ℕ → ℕ → Bool) → Clock → Clock → Bool
compare_clock holds clock [] = true
compare_clock holds clock ((state, tick) ∷ c) =
    let rest = compare_clock holds clock c in
    if not (holds (tick_of clock state) tick) then false else rest

-- IsClock
unfoldable pub is_clock : Machine → Clock → Bool
is_clock m c = if m.disposing then false else compare_clock nat_beq m.clock c

-- WasClock
unfoldable pub was_clock : Machine → Clock → Bool
was_clock m c =
    if m.disposing then false else compare_clock (λ now tick. not (ltb now tick)) m.clock c
