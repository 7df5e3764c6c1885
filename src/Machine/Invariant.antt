-- ===== src/Machine/Invariant.antt =====
-- machine.go: an odd clock is an active state, before and after every setActiveStates.
use asyncmachine_go.Base.{
  ℕ, ◌+◌, ◌^◌, ◌<◌, ◌≤◌, ◌≡◌, sym, ap, subst, Bool, true, false, ◌&&◌, ◌||◌, String, contains, ◌↔◌,
  if◌then◌else◌, string_eq, arith, IsDistinct, IsSubset, Bool-cases, inl, inr,
}
use asyncmachine_go.Schema.{States, state_of}
use asyncmachine_go.Machine.Defs.{tick_of, Machine, u64, is_active_tick, set_active_states}
use asyncmachine_go.Machine.Ticks.{
  IsSmall, tick_delta, tick_of-set_active_states, active_states-set_active_states,
  set_active_states_disposing, set_active_states_keeps,
}

pub record IsWellFormed (m : Machine) : Type 0 where
  pub names_once : IsDistinct m.state_names
  pub active_once : IsDistinct m.active_states
  pub known : IsSubset m.active_states m.state_names
  pub small : IsSmall m.clock
  pub active_odd :
      (name : String) → is_active_tick (tick_of m.clock name) ≡ contains m.active_states name

-- One clock, whose parity tells `before`, moved for a state that is active `after`.
odd_step :
    (t : ℕ) (before after again : Bool)
    → t < 2 ^ 64
    → is_active_tick t ≡ before
    → is_active_tick (
        u64 (
          t
          + (if before && after then if again then 2 else 0 else if before || after then 1 else 0)))
      ≡ after
odd_step t true true true small odd = ground arith
odd_step t true true false small odd = ground arith
odd_step t true false _ small odd = ground arith
odd_step t false true _ small odd = ground arith
odd_step t false false _ small odd = ground arith

odd_after :
    (m : Machine) (called targets : States) (name : String)
    → tick_of m.clock name < 2 ^ 64
    → is_active_tick (tick_of m.clock name) ≡ contains m.active_states name
    → is_active_tick (u64 (tick_of m.clock name + tick_delta m called targets name))
      ≡ contains targets name
odd_after m called targets name =
    odd_step (tick_of m.clock name) (contains m.active_states name) (contains targets name)
      (contains called name && (state_of m.schema name).multi)

u64-small : (n : ℕ) → u64 n < 2 ^ 64
u64-small n = omega arith

-- setActiveStates keeps the machine well formed, for any distinct list of known target states.
pub set_active_states-IsWellFormed :
    (m : Machine) (called targets : States)
    → IsWellFormed m
    → IsDistinct targets
    → IsSubset targets m.state_names
    → IsWellFormed (set_active_states m called targets)
set_active_states-IsWellFormed m called targets w dt known = elim (Bool-cases m.disposing) [
  | inl gone ↦ subst IsWellFormed (sym (set_active_states_disposing m called targets gone)) w
  | inr live ↦
      let active = active_states-set_active_states m called targets live in
      let names = (set_active_states_keeps m called targets).1 in
      let tick = λ (name : String).
        tick_of-set_active_states m called targets name live w.active_once dt w.small in
      record {
        names_once = subst IsDistinct (sym names) w.names_once;
        active_once = subst IsDistinct (sym active) dt;
        known = λ a h.
            ground
              (arith, known a, ap (λ xs. contains xs a) names, ap (λ xs. contains xs a) active);
        small = λ a. rw (tick a) (u64-small (tick_of m.clock a + tick_delta m called targets a));
        active_odd =
            λ a. rw (tick a, active) (odd_after m called targets a (w.small a) (w.active_odd a));
      }
]

delta_grows :
    (m : Machine) (called targets : States) (name : String) → tick_delta m called targets name ≤ 2
delta_grows m called targets name = ground arith

-- Away from the end of uint64 a clock never goes back, and it stays where it was exactly if the
-- transition moves it by zero ticks.
pub set_active_states-monotone :
    (m : Machine) (called targets : States) (name : String)
    → m.disposing ≡ false
    → IsWellFormed m
    → IsDistinct targets
    → tick_of m.clock name + 2 < 2 ^ 64
    → (tick_of m.clock name ≤ tick_of (set_active_states m called targets).clock name)
      × ((tick_of (set_active_states m called targets).clock name ≡ tick_of m.clock name)
          ↔ (tick_delta m called targets name ≡ 0))
set_active_states-monotone m called targets name live w dt room =
    let step = tick_of-set_active_states m called targets name live w.active_once dt w.small in
    let few = delta_grows m called targets name in
    rw step (grows (tick_of m.clock name) (tick_delta m called targets name) room few)
  where
    grows : (t d : ℕ) → t + 2 < 2 ^ 64 → d ≤ 2 → (t ≤ u64 (t + d)) × ((u64 (t + d) ≡ t) ↔ (d ≡ 0))
    grows t d h k = (omega arith, (λ e. omega arith, λ e. omega arith))
