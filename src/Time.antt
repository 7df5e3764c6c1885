-- ===== src/Time.antt =====
-- pkg/machine/mach_misc.go: machine time by position (Time) and with its names (TimeIndex).
-- pkg/machine/mach_utils.go: the next active and inactive ticks. An index out of range panics: `none`.
pub mod Index
pub mod Laws
use asyncmachine_go.Base.{
  ℕ, zero, suc, ◌+◌, ◌^◌, ◌-◌, Bool, true, false, not, ◌&&◌, ◌||◌, List, [], ◌∷◌, String, Option,
  none, some, if◌then◌else◌, ℤ, pos, negsuc, minus_one, int_beq, string_eq, ◌==◌, length, ltb,
  nat_beq, get_elem?, set, get_or, replicate, is_empty,
}
use asyncmachine_go.Text.{itoa, join_text}
use asyncmachine_go.Machine.{Time, u64, is_active_tick, sum_all}

-- NextActive, NextInactive, NextActiveIn, NextInactiveIn
unfoldable pub next_active : ℕ → ℕ
next_active tick = if is_active_tick tick then u64 (tick + 2) else u64 (tick + 1)

unfoldable pub next_inactive : ℕ → ℕ
next_inactive tick = if not (is_active_tick tick) then u64 (tick + 2) else u64 (tick + 1)

unfoldable pub next_active_in : ℕ → ℕ
next_active_in tick = if is_active_tick tick then 2 else 1

unfoldable pub next_inactive_in : ℕ → ℕ
next_inactive_in tick = if not (is_active_tick tick) then 2 else 1

-- `ret[idx] = 1`
abbrev mark : Time → ℤ → Option Time
mark t (negsuc i) = none
mark t (pos i) = if ltb i (length t) then some (set t i 1) else none

unfoldable mark_all : Option Time → List ℤ → Option Time
mark_all t [] = t
mark_all none (idx ∷ active_states) = none
mark_all (some t) (idx ∷ active_states) = mark_all (mark t idx) active_states

-- NewTime, and NewTimeIndex with the length of its index.
unfoldable pub new_time : ℕ → List ℤ → Option Time
unfolding mark_all
new_time n active_states = mark_all (some (replicate n 0)) active_states

-- Time.Increment
unfoldable pub increment : Time → ℤ → Option Time
increment t (negsuc i) = none
increment t (pos i) = if ltb i (length t) then some (set t i (u64 (get_or t i 0 + 1))) else some t

-- `int(tick)`
abbrev to_int : ℕ → ℤ
to_int tick = if ltb tick (2 ^ 63) then pos tick else negsuc (2 ^ 64 - tick - 1)

-- Time.String
unfoldable time_text : String → Time → String
time_text ret [] = ret
time_text ret (tick ∷ t) =
    time_text (join_text (if ret == "" then ret else join_text ret " ") (itoa (to_int tick))) t

unfoldable pub time_string : Time → String
unfolding time_text
time_string t = time_text "" t

-- The loop of Time.Add.
unfoldable pub add_ticks : Time → Time → Time
add_ticks [] t2 = []
add_ticks (x ∷ t) [] = []
add_ticks (x ∷ t) (y ∷ t2) = u64 (x + y) ∷ add_ticks t t2

-- Time.Add
unfoldable pub add : Time → Time → Time
add t t2 = if not (nat_beq (length t) (length t2)) then t else add_ticks t t2

-- `t[i] - before[i]` on uint64
abbrev pub sub_u64 : ℕ → ℕ → ℕ
sub_u64 x y = u64 (x + 2 ^ 64 - y)

-- The loop of Time.DiffSince.
unfoldable pub sub_ticks : Time → Time → Time
sub_ticks [] before = []
sub_ticks (x ∷ t) [] = []
sub_ticks (x ∷ t) (y ∷ before) = sub_u64 x y ∷ sub_ticks t before

-- Time.DiffSince
unfoldable pub diff_since : Time → Time → Time
diff_since t before =
    if not (nat_beq (length t) (length before)) then replicate (length t) 0 else sub_ticks t before

-- One index of Time.Filter and Time.Sum: past the end it counts as 0.
abbrev tick_or_zero : Time → ℤ → Option ℕ
tick_or_zero t (negsuc i) = none
tick_or_zero t (pos i) = some (get_or t i 0)

-- Time.Filter
unfoldable pub filter : Time → List ℤ → Option Time
filter t [] = some []
filter t (idx ∷ idxs) = elim (tick_or_zero t idx) [
  | none ↦ none
  | some tick ↦ elim (filter t idxs) [ none ↦ none | some rest ↦ some (tick ∷ rest) ]
]

-- Time.Sum of indexes
unfoldable pub sum_of : Time → List ℤ → Option ℕ
sum_of t [] = some 0
sum_of t (idx ∷ idxs) = elim (tick_or_zero t idx) [
  | none ↦ none
  | some tick ↦ elim (sum_of t idxs) [ none ↦ none | some rest ↦ some (u64 (tick + rest)) ]
]

-- Time.Sum
unfoldable pub sum : Time → Option (List ℤ) → Option ℕ
unfolding sum_of
sum t none = some (sum_all t)
sum t (some idxs) = sum_of t idxs

-- Time.NonZeroStates, from a position.
unfoldable non_zero_from : ℕ → Time → List ℤ
non_zero_from i [] = []
non_zero_from i (tick ∷ t) =
    let rest = non_zero_from (suc i) t in if not (nat_beq tick 0) then pos i ∷ rest else rest

unfoldable pub non_zero_states : Time → List ℤ
unfolding non_zero_from
non_zero_states t = non_zero_from 0 t

-- Time.After
unfoldable pub after : Bool → Time → Time → Bool
after or_equal [] time2 = true
after or_equal (t1 ∷ t) [] = true
after or_equal (t1 ∷ t) (t2 ∷ time2) =
    let rest = after or_equal t time2 in
    if ltb t1 t2 || (nat_beq t1 t2 && not or_equal) then false else rest

-- Time.Before
unfoldable pub before : Bool → Time → Time → Bool
before or_equal [] time2 = true
before or_equal (t1 ∷ t) [] = true
before or_equal (t1 ∷ t) (t2 ∷ time2) =
    let rest = before or_equal t time2 in
    if ltb t2 t1 || (nat_beq t1 t2 && not or_equal) then false else rest

-- The loop of Time.Equal. It panics past the end of the second time.
unfoldable pub equal_ticks : Time → Time → Option Bool
equal_ticks [] time2 = some true
equal_ticks (t1 ∷ t) [] = none
equal_ticks (t1 ∷ t) (t2 ∷ time2) =
    let rest = equal_ticks t time2 in if not (nat_beq t1 t2) then some false else rest

-- Time.Equal
unfoldable pub equal : Bool → Time → Time → Option Bool
equal strict t time2 =
    if strict && not (nat_beq (length t) (length time2)) then some false else equal_ticks t time2

-- Time.Tick
unfoldable pub tick : Time → ℤ → Option ℕ
tick t (negsuc i) = none
tick t (pos i) = some (get_or t i 0)

-- `IsActiveTick(t[idx])`
abbrev pub active_at : Time → ℤ → Option Bool
active_at t (negsuc i) = none
active_at t (pos i) = elim (get_elem? t i) [ none ↦ none | some n ↦ some (is_active_tick n) ]

-- The index is -1, or past the end.
abbrev is_outside : Time → ℤ → Bool
is_outside t (negsuc i) = int_beq (negsuc i) minus_one
is_outside t (pos i) = not (ltb i (length t))

abbrev not_option : Option Bool → Option Bool
not_option none = none
not_option (some b) = some (not b)

-- Time.Is1
unfoldable pub is1 : Time → ℤ → Option Bool
is1 t idx = if is_outside t idx then some false else active_at t idx

-- Time.Not1
unfoldable pub not1 : Time → ℤ → Option Bool
not1 t idx = if is_outside t idx then some false else not_option (active_at t idx)

-- The loop of Time.Is.
unfoldable pub all_active_at : Time → List ℤ → Option Bool
all_active_at t [] = some true
all_active_at t (idx ∷ idxs) =
    let rest = all_active_at t idxs in
    if int_beq idx minus_one
    then some false
    else elim (active_at t idx) [ none ↦ none | some on ↦ if not on then some false else rest ]

-- Time.Is
unfoldable pub is : Time → List ℤ → Option Bool
is t idxs = if is_empty idxs then some false else all_active_at t idxs

-- Time.Not
unfoldable pub is_not : Time → List ℤ → Option Bool
is_not t [] = some true
is_not t (idx ∷ idxs) =
    let rest = is_not t idxs in
    if int_beq idx minus_one
    then rest
    else elim (active_at t idx) [ none ↦ none | some on ↦ if on then some false else rest ]

-- Time.Any
unfoldable pub any : Time → List (List ℤ) → Option Bool
any t [] = some false
any t (list ∷ idxs) =
    let rest = any t idxs in
    elim (is t list) [ none ↦ none | some on ↦ if on then some true else rest ]

-- Time.Any1
unfoldable pub any1 : Time → List ℤ → Option Bool
any1 t [] = some false
any1 t (idx ∷ idxs) =
    let rest = any1 t idxs in
    elim (is1 t idx) [ none ↦ none | some on ↦ if on then some true else rest ]

-- Time.ActiveStates, from a position. Its argument is not read.
unfoldable active_from : ℕ → Time → List ℤ
active_from i [] = []
active_from i (tick ∷ t) =
    let rest = active_from (suc i) t in if not (is_active_tick tick) then rest else pos i ∷ rest

unfoldable pub active_states : Time → Option (List ℤ) → List ℤ
unfolding active_from
active_states t idxs = active_from 0 t
