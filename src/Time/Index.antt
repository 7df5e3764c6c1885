-- ===== src/Time/Index.antt =====
-- pkg/machine/mach_misc.go: TimeIndex, a time with the names of its positions. Its methods call those
-- of Time on the indexes of the names.
use asyncmachine_go.Base.{
  ℕ, suc, Bool, true, not, List, [], ◌∷◌, String, Option, none, some, contains, if◌then◌else◌, pos,
  negsuc, ℤ, string_eq, length, get_elem?,
}
use asyncmachine_go.Text.{itoa, join_text}
use asyncmachine_go.Schema.{States, Slice}
use asyncmachine_go.StateList.{states_to_index, index_to_states}
use asyncmachine_go.Machine.{Time, is_active_tick}
use asyncmachine_go.Time

pub record TimeIndex : Type 0 where
  pub time : Time
  pub names : States

-- NewTimeIndex
unfoldable pub new_time_index : States → List ℤ → Option TimeIndex
new_time_index names active = elim (Time.new_time (length names) active) [
  | none ↦ none
  | some t ↦ some record { time = t; names = names }
]

-- TimeIndex.StateName. A negative index panics.
unfoldable pub state_name : TimeIndex → ℤ → Option String
state_name t (negsuc i) = none
state_name t (pos i) = elim (get_elem? t.names i) [ none ↦ some "" | some name ↦ some name ]

-- TimeIndex.Sum
unfoldable pub sum : TimeIndex → States → Option ℕ
sum t states = Time.sum_of t.time (states_to_index t.names states)

-- TimeIndex.Filter
unfoldable pub filter : TimeIndex → States → Option TimeIndex
filter t states = elim (Time.filter t.time (states_to_index t.names states)) [
  | none ↦ none
  | some ticks ↦ some record { time = ticks; names = states }
]

-- TimeIndex.NonZeroStates
unfoldable pub non_zero_states : TimeIndex → Option States
non_zero_states t = index_to_states t.names (Time.non_zero_states t.time)

-- TimeIndex.Is, TimeIndex.Is1
unfoldable pub is : TimeIndex → States → Option Bool
is t states = Time.is t.time (states_to_index t.names states)

unfoldable pub is1 : TimeIndex → String → Option Bool
is1 t state = Time.is t.time (states_to_index t.names (state ∷ []))

-- TimeIndex.Not, TimeIndex.Not1
unfoldable pub is_not : TimeIndex → States → Option Bool
is_not t states = Time.is_not t.time (states_to_index t.names states)

unfoldable pub not1 : TimeIndex → String → Option Bool
not1 t state = Time.is_not t.time (states_to_index t.names (state ∷ []))

-- TimeIndex.Any
unfoldable index_groups : States → States → List (List ℤ)
index_groups names [] = []
index_groups names (state ∷ states) = states_to_index names (state ∷ []) ∷ index_groups names states

unfoldable pub any : TimeIndex → States → Option Bool
unfolding index_groups
any t states = Time.any t.time (index_groups t.names states)

-- TimeIndex.Any1
unfoldable pub any1 : TimeIndex → States → Option Bool
any1 t states = Time.any1 t.time (states_to_index t.names states)

-- The name of a position in TimeIndex.ActiveStates.
abbrev pub name_at : States → ℕ → String
name_at names i = elim (get_elem? names i) [
  | none ↦ join_text "unknown" (itoa (pos i))
  | some name ↦ name
]

-- The last guard of TimeIndex.ActiveStates: nil lets every name in.
abbrev pub wants : Slice → String → Bool
wants none name = true
wants (some states) name = contains states name

-- TimeIndex.ActiveStates, from a position.
unfoldable pub active_from : States → Slice → ℕ → Time → States
active_from names states i [] = []
active_from names states i (tick ∷ t) =
    let rest = active_from names states (suc i) t in
    if not (is_active_tick tick)
    then rest
    else if not (wants states (name_at names i))
    then rest
    else name_at names i ∷ rest

unfoldable pub active_states : TimeIndex → Slice → States
active_states t states = active_from t.names states 0 t.time
