-- ===== src/Machine/Predict.antt =====
-- transition.go, newTransition: the TimeAfter that is computed ahead of the handlers is the time
-- that setActiveStates then makes ("keep in sync with setActiveStates").
use asyncmachine_go.Base.{
  ℕ, zero, suc, ◌+◌, ◌≡◌, refl, ap, true, false, [], ◌∷◌, String, Option, none, some, contains,
  string_eq, arith, IsDistinct, IsSubset, position, index, get_or, set, put, lookup-put,
  position_of_contains, contains_self, contains-tail, eq_of_beq, ◌==◌, length,
}
use asyncmachine_go.Schema.{States, Schema}
use asyncmachine_go.Machine.Defs.{
  Clock, tick_of, Machine, u64, states_diff, target_step, bump_clock, bump_time, time_of, time_all,
  tick_targets, tick_removed, predict_targets, predict_removed, predict_time, set_active_states,
}
use asyncmachine_go.Machine.Ticks.{contains-states_diff}
use asyncmachine_go.Machine.Invariant.{IsWellFormed}

time_of-put_absent :
    (names : States) (k : String) (v : ℕ) (clock : Clock)
    → contains names k ≡ false
    → time_of names (put k v clock) ≡ time_of names clock
unfolding time_of contains
time_of-put_absent [] k v clock h = refl
time_of-put_absent (n ∷ names) k v clock h = ground (
  arith,
  lookup-put k n v clock,
  time_of-put_absent names k v clock,
  string_eq.beq_iff k n,
  string_eq.beq_iff n k,
)

position-suc :
    (n k : String) (names : States) (i : ℕ)
    → position (n ∷ names) k ≡ some (suc i)
    → ((n == k) ≡ false) × (position names k ≡ some i)
unfolding position
position-suc n k names i h = ground arith

position_zero : (n k : String) (names : States) → position (n ∷ names) k ≡ some 0 → (n == k) ≡ true
unfolding position
position_zero n k names h = ground arith

time_of-put :
    (names : States) (k : String) (v i : ℕ) (clock : Clock)
    → IsDistinct names
    → position names k ≡ some i
    → set (time_of names clock) i v ≡ time_of names (put k v clock)
unfolding time_of
time_of-put [] k v i clock d h = unfold position in cc
time_of-put (n ∷ names) k v zero clock d h =
    let same = position_zero n k names h in
    ground (
      arith,
      lookup-put k n v clock,
      same,
      time_of-put_absent names n v clock d.0,
      eq_of_beq n k same,
      string_eq.beq_iff k n,
    )
time_of-put (n ∷ names) k v (suc i) clock d h =
    let (other, rest) = position-suc n k names i h in
    ground (
      arith,
      lookup-put k n v clock,
      other,
      time_of-put names k v i clock d.1 rest,
      string_eq.beq_iff k n,
      string_eq.beq_iff n k,
    )

get_or-time_of :
    (names : States) (k : String) (i : ℕ) (clock : Clock)
    → position names k ≡ some i
    → get_or (time_of names clock) i 0 ≡ tick_of clock k
unfolding time_of
get_or-time_of [] k i clock h = unfold position in cc
get_or-time_of (n ∷ names) k zero clock h =
    ap (tick_of clock) (eq_of_beq n k (position_zero n k names h))
get_or-time_of (n ∷ names) k (suc i) clock h =
    get_or-time_of names k i clock (position-suc n k names i h).1

length-time_of : (names : States) (clock : Clock) → length (time_of names clock) ≡ length names
unfolding time_of
length-time_of [] clock = refl
length-time_of (n ∷ names) clock = ap suc (length-time_of names clock)

-- One step on the time is one step on the clock.
bump_time-time_of :
    (names : States) (k : String) (n : Option ℕ) (clock : Clock)
    → IsDistinct names
    → contains names k ≡ true
    → bump_time (index names k) n (time_of names clock)
      ≡ some (time_of names (bump_clock k n clock))
unfolding index
bump_time-time_of names k none clock d h = refl
bump_time-time_of names k (some n) clock d h =
    let (i, found, below, _) = position_of_contains names k h in
    ground (
      arith,
      found,
      below,
      length-time_of names clock,
      get_or-time_of names k i clock found,
      time_of-put names k (u64 (tick_of clock k + n)) i clock d found,
    )

predict_targets-time_of :
    (schema : Schema) (names previous called targets : States) (clock : Clock)
    → IsDistinct names
    → IsSubset targets names
    → predict_targets schema names previous called targets (some (time_of names clock))
      ≡ some (time_of names (tick_targets schema previous called targets clock))
unfolding predict_targets tick_targets
predict_targets-time_of schema names previous called [] clock d sub = refl
predict_targets-time_of schema names previous called (k ∷ targets) clock d sub =
    rw
      (bump_time-time_of names k (target_step schema previous called k) clock d
        (sub k (contains_self k targets)))
      (predict_targets-time_of schema names previous called targets _ d
        λ a h. sub a (contains-tail k a targets h))

predict_removed-time_of :
    (names removed : States) (clock : Clock)
    → IsDistinct names
    → IsSubset removed names
    → predict_removed names removed (some (time_of names clock))
      ≡ some (time_of names (tick_removed removed clock))
unfolding predict_removed tick_removed
predict_removed-time_of names [] clock d sub = refl
predict_removed-time_of names (k ∷ removed) clock d sub =
    rw (bump_time-time_of names k (some 1) clock d (sub k (contains_self k removed)))
      (predict_removed-time_of names removed _ d λ a h. sub a (contains-tail k a removed h))

pub predict_time-set_active_states :
    (m : Machine) (called targets : States)
    → m.disposing ≡ false
    → IsWellFormed m
    → IsSubset targets m.state_names
    → predict_time m false called targets ≡ some (time_all (set_active_states m called targets))
unfolding predict_time set_active_states time_all
predict_time-set_active_states m called targets live w sub =
    rw
      (
        live,
        predict_targets-time_of m.schema m.state_names m.active_states called targets m.clock
            w.names_once sub,
      )
      (predict_removed-time_of m.state_names (states_diff m.active_states targets) _ w.names_once
        λ a h. w.known a (ground (arith, contains-states_diff m.active_states targets a, h)))
