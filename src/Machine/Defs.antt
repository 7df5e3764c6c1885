-- ===== src/Machine/Defs.antt =====
-- machine.go, transition.go: the machine's clocks and how a transition moves them.
use asyncmachine_go.Base.{
  ℕ, ◌+◌, ◌^◌, ◌%◌, Bool, not, ◌&&◌, List, [], ◌∷◌, String, Option, none, some, contains, index,
  if◌then◌else◌, lookup_or, put, ℤ, pos, negsuc, get_or, set, string_eq, nat_beq, ltb, length,
}
use asyncmachine_go.Slices.{slices_filter}
use asyncmachine_go.Schema.{States, Schema, state_of}

-- uint64 arithmetic wraps.
abbrev pub u64 : ℕ → ℕ
u64 n = n % 2 ^ 64

-- Clock: a map from state names to ticks.
abbrev pub Clock : Type 0
Clock = List (String × ℕ)

-- clock[name]
abbrev pub tick_of : Clock → String → ℕ
tick_of clock name = lookup_or 0 name clock

-- Time: ticks by position.
abbrev pub Time : Type 0
Time = List ℕ

-- IsActiveTick
abbrev pub is_active_tick : ℕ → Bool
is_active_tick tick = nat_beq (tick % 2) 1

pub record Machine : Type 0 where
  pub schema : Schema
  pub state_names : States
  pub topology : States
  pub active_states : States
  pub clock : Clock
  pub activated_at : Clock
  pub disposing : Bool

-- StatesDiff
unfoldable pub states_diff : States → States → States
states_diff states1 states2 = slices_filter states1 λ name. not (contains states2 name)

-- The loop of Machine.time over a list of names.
unfoldable pub time_of : States → Clock → Time
time_of [] clock = []
time_of (s ∷ states) clock = tick_of clock s ∷ time_of states clock

-- Machine.time(nil)
unfoldable pub time_all : Machine → Time
time_all m = time_of m.state_names m.clock

-- Time.Sum(nil)
unfoldable pub sum_all : Time → ℕ
sum_all [] = 0
sum_all (tick ∷ t) = u64 (tick + sum_all t)

-- What a target state's clock moves by: 1 if it was inactive, 2 if it is Multi and called.
abbrev pub target_step : Schema → States → States → String → Option ℕ
target_step schema previous called name =
    if not (contains previous name)
    then some 1
    else if contains called name && (state_of schema name).multi
    then some 2
    else none

-- `m.clock[name] += n`
abbrev pub bump_clock : String → Option ℕ → Clock → Clock
bump_clock name none clock = clock
bump_clock name (some n) clock = put name (u64 (tick_of clock name + n)) clock

-- The first loop of setActiveStates.
unfoldable pub tick_targets : Schema → States → States → States → Clock → Clock
tick_targets schema previous called [] clock = clock
tick_targets schema previous called (name ∷ targets) clock =
    tick_targets schema previous called targets
      (bump_clock name (target_step schema previous called name) clock)

-- Its second loop, over the states that are no longer active.
unfoldable pub tick_removed : States → Clock → Clock
tick_removed [] clock = clock
tick_removed (name ∷ removed) clock = tick_removed removed (bump_clock name (some 1) clock)

-- Its last loop.
unfoldable pub put_all : States → ℕ → Clock → Clock
put_all [] v clock = clock
put_all (name ∷ names) v clock = put_all names v (put name v clock)

-- setActiveStates. A disposing machine stays as it is.
unfoldable pub set_active_states : Machine → States → States → Machine
set_active_states m called targets =
    let previous = m.active_states in
    let clock =
      tick_removed (states_diff previous targets)
        (tick_targets m.schema previous called targets m.clock) in
    let sum = sum_all (time_of m.state_names clock) in
    if m.disposing then m else record m {
      active_states = targets;
      clock = clock;
      activated_at = put_all (states_diff targets previous) sum m.activated_at;
    }

-- `tAfter[idx] += n`; a negative index or one past the end panics.
abbrev pub bump_time : ℤ → Option ℕ → Time → Option Time
bump_time i none t = some t
bump_time (negsuc i) (some n) t = none
bump_time (pos i) (some n) t =
    if ltb i (length t) then some (set t i (u64 (get_or t i 0 + n))) else none

-- The two loops of newTransition that compute TimeAfter.
unfoldable pub predict_targets :
    Schema → States → States → States → States → Option Time → Option Time
predict_targets schema names previous called [] t = t
predict_targets schema names previous called (name ∷ targets) none = none
predict_targets schema names previous called (name ∷ targets) (some t) =
    predict_targets schema names previous called targets
      (bump_time (index names name) (target_step schema previous called name) t)

unfoldable pub predict_removed : States → States → Option Time → Option Time
predict_removed names [] t = t
predict_removed names (name ∷ removed) none = none
predict_removed names (name ∷ removed) (some t) =
    predict_removed names removed (bump_time (index names name) (some 1) t)

-- TimeAfter as newTransition sets it. `none` is a panic.
unfoldable pub predict_time : Machine → Bool → States → States → Option Time
predict_time m is_check called targets =
    if is_check
    then some (time_all m)
    else predict_removed m.state_names (states_diff m.active_states targets)
        (predict_targets m.schema m.state_names m.active_states called targets (some (time_all m)))
