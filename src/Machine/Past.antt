-- ===== src/Machine/Past.antt =====
-- machine.go, WasTime: a time that the machine has had stays in its past.
use asyncmachine_go.Base.{
  ◌+◌, ◌^◌, ◌≤◌, ◌<◌, ◌≡◌, refl, true, false, not, [], ◌∷◌, String, none, some, string_eq, arith,
  ltb, IsDistinct,
}
use asyncmachine_go.Schema.{States}
use asyncmachine_go.Machine.Defs.{Clock, tick_of, Machine, time_of, time_all, set_active_states}
use asyncmachine_go.Machine.Checks.{compare_ticks, was_time}
use asyncmachine_go.Machine.Ticks.{set_active_states_keeps}
use asyncmachine_go.Machine.Invariant.{IsWellFormed, set_active_states-monotone}

compare_ticks-later :
    (names : States) (now before : Clock)
    → ((name : String) → tick_of before name ≤ tick_of now name)
    → compare_ticks (λ n tick. not (ltb n tick)) now names (time_of names before) ≡ some true
unfolding compare_ticks time_of
compare_ticks-later [] now before later = refl
compare_ticks-later (s ∷ names) now before later =
    ground (arith, later s, compare_ticks-later names now before later)

-- Away from the end of uint64, after setActiveStates on a live and well formed machine the time
-- before it is one that the machine has had: WasTime is true of it.
pub was_time-set_active_states :
    (m : Machine) (called targets : States)
    → m.disposing ≡ false
    → IsWellFormed m
    → IsDistinct targets
    → ((name : String) → tick_of m.clock name + 2 < 2 ^ 64)
    → was_time (set_active_states m called targets) (time_all m) none ≡ some true
unfolding was_time time_all
was_time-set_active_states m called targets live w dt room =
    let m' = set_active_states m called targets in
    let keeps = set_active_states_keeps m called targets in
    let later =
      compare_ticks-later m.state_names m'.clock m.clock
        (λ name. (set_active_states-monotone m called targets name live w dt (room name)).0) in
    ground (arith, keeps, later)
