-- ===== src/Transition/NoHandlers.antt =====
-- transition.go: a transition without handlers runs to its end.
use asyncmachine_go.Base.{
  ℕ, ◌≡◌, ◌∙◌, refl, ap, subst, Bool, true, false, not, [], ◌∷◌, String, none, some, string_eq,
  arith, Bool-cases, Option-cases, inl, inr, nat_beq,
}
use asyncmachine_go.Schema.{States}
use asyncmachine_go.Relations.{is_remove}
use asyncmachine_go.Relations.Sorting.{StableSort}
use asyncmachine_go.Machine.{
  Machine, Clock, set_active_states, time_of, time_all, tick_of, predict_time,
}
use asyncmachine_go.Machine.Checks.{is, is_time, compare_ticks}
use asyncmachine_go.Machine.Ticks.{set_active_states_keeps, active_states-set_active_states}
use asyncmachine_go.Machine.Invariant.{IsWellFormed, set_active_states-IsWellFormed}
use asyncmachine_go.Machine.Predict.{predict_time-set_active_states}
use asyncmachine_go.Transition.{Mutation, Tx, new_transition}
use asyncmachine_go.Transition.Emit.{Run}
use asyncmachine_go.Transition.Run.{
  Outcome, start_run, execute, emit_events, final_phase, finish, result_of, recheck_auto, timed,
}
use asyncmachine_go.Transition.Start.{IsKnownSchema, new_transition-IsStarted}
use asyncmachine_go.Transition.Called.{all_active_of_members}
use asyncmachine_go.Transition.Listing.{IsListing}
use asyncmachine_go.Transition.WellFormed.{new_transition-IsReady}

-- IsTime of a time with a tick for each name does not panic.
compare_ticks-time_of :
    (holds : ℕ → ℕ → Bool) (clock before : Clock) (names : States)
    → (b : Bool) × (compare_ticks holds clock names (time_of names before) ≡ some b)
unfolding compare_ticks time_of
compare_ticks-time_of holds clock before [] = (true, refl)
compare_ticks-time_of holds clock before (s ∷ names) =
    elim (Bool-cases (holds (tick_of clock s) (tick_of before s))) [
      | inr off ↦ (false, rw off refl)
      | inl on ↦ rw on (compare_ticks-time_of holds clock before names)
    ]

pub is_time-time_all :
    (m m' : Machine)
    → m'.state_names ≡ m.state_names
    → (b : Bool) × (is_time m' (time_all m) none ≡ some b)
unfolding is_time time_all
is_time-time_all m m' names =
    let (b, e) = compare_ticks-time_of nat_beq m'.clock m.clock m.state_names in
    elim (Bool-cases m'.disposing) [
      | inl gone ↦ (false, rw gone refl)
      | inr live ↦ (b, rw (live, names) e)
    ]

is_of_targets : (m : Machine) → m.disposing ≡ false → IsWellFormed m → is m m.active_states ≡ true
unfolding is
is_of_targets m live w =
    rw live
      (all_active_of_members m.state_names m.active_states m.active_states λ s c. (w.known s c, c))

finish_of_no_handlers :
    (accepts : States → String → Bool) (before m : Machine) (t : Tx) (r : Run) (same : Bool)
    → r.is_canceled ≡ false
    → is_remove t.mut_type ≡ false
    → t.is_auto ≡ false
    → is m r.targets ≡ true
    → is_time m t.time_before none ≡ some same
    → (o : Outcome) × (finish accepts false before m t r ≡ some o)
      × (o.result ≡ true)
      × (o.machine ≡ m)
unfolding finish result_of
finish_of_no_handlers accepts before m t r same c kind manual on time =
    elim (Option-cases (finish accepts false before m t r)) [
      | inl bad ↦ absurd (ground (arith))
      | inr (o, e) ↦ (o, e, ground (arith), ground (arith))
    ]

module _ (accepts : States → String → Bool) ⦃sorter : StableSort⦄ where
  -- Without handlers an accepted transition that adds or sets states, neither automatic nor a
  -- check, does not panic and is executed: the active states are its target states, and the time
  -- that newTransition had predicted is the machine's time.
  pub emit_events_of_no_handlers :
      (m : Machine) (mut : Mutation) (t : Tx)
      → m.disposing ≡ false
      → IsWellFormed m
      → IsKnownSchema m
      → new_transition m mut ≡ some t
      → t.is_accepted ≡ true
      → is_remove mut.mut_type ≡ false
      → mut.is_auto ≡ false
      → mut.is_check ≡ false
      → (o : Outcome) × (emit_events accepts false false m t ≡ some o)
        × (o.result ≡ true)
        × (o.machine.active_states ≡ t.targets)
        × (time_all o.machine ≡ t.time_after)
  unfolding emit_events recheck_auto execute final_phase IsListing
  emit_events_of_no_handlers m mut t live w known n go kind manual real =
      let start = new_transition-IsStarted m mut t n in
      let (listing, _) = new_transition-IsReady accepts m mut t live known n in
      let moved = set_active_states m t.called t.targets in
      let keeps = set_active_states_keeps m t.called t.targets in
      let on : is moved t.targets ≡ true =
        subst (λ xs. is moved xs ≡ true) (active_states-set_active_states m t.called t.targets live)
          (is_of_targets moved (keeps.3 ∙ live)
            (set_active_states-IsWellFormed m t.called t.targets w listing.0 listing.1)) in
      let (same, time) = is_time-time_all m moved keeps.1 in
      let before : is_time moved t.time_before none ≡ some same = rw start.time time in
      let real' : t.is_check ≡ false = rw start.same_mutation real in
      let manual' : t.is_auto ≡ false = rw start.same_mutation manual in
      let kind' : is_remove t.mut_type ≡ false = rw start.same_mutation kind in
      let predicted : predict_time m false t.called t.targets ≡ some t.time_after =
        ground (arith, start.predicted, start.same_mutation) in
      let (o, e, ok, last) =
        finish_of_no_handlers accepts m moved (timed moved t) (start_run t) same (ap not go) kind'
          manual' on before in
      (
        o,
        ground (arith),
        ok,
        ap (λ q. q.active_states) last ∙ active_states-set_active_states m t.called t.targets live,
        ground (
          arith,
          last,
          predicted,
          predict_time-set_active_states m t.called t.targets live w listing.1,
        ),
      )
