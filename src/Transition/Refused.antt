-- ===== src/Transition/Refused.antt =====
-- transition.go: a handler of the negotiation that refuses stops the transition.
mod Steps
use asyncmachine_go.Base.{
  ℕ, zero, suc, ◌+◌, ◌≤◌, ◌<◌, ◌≡◌, ◌≢◌, refl, ap, ◌∙◌, Bool, true, false, ◌&&◌, ◌||◌, List, [],
  ◌∷◌, ◌++◌, String, Option, none, some, contains, length, get_or, if◌then◌else◌, string_eq, arith,
  ◌==◌, Bool-cases, inl, inr, ◌⊎◌, contains-cons_cases,
}
use asyncmachine_go.Text.{join_text}
use asyncmachine_go.Schema.{States}
use asyncmachine_go.Relations.{is_remove}
use asyncmachine_go.Relations.Sorting.{StableSort}
use asyncmachine_go.Machine.{Machine}
use asyncmachine_go.Machine.Checks.{is}
use asyncmachine_go.Transition.{Mutation, Tx}
use asyncmachine_go.Transition.Emit.{
  Run, unless_canceled, handle, negotiate, emit_exit, emit_enter, emit_self, emit_pair, self_from,
  pairs_from, pairs_with, all_pairs, emit_exit_events, emit_enter_events, emit_self_events,
  emit_state_state_events,
}
use asyncmachine_go.Transition.Run.{
  Outcome, start_run, negotiation, cancel_empty_auto, on_run, emit_events,
}
use asyncmachine_go.Transition.Kept.{
  handle-targets, not_partial, IsKept, unless_canceled-IsKept, exit-Keeps, enter-Keeps, self-Keeps,
  some-IsKept, if-IsKept,
}
use asyncmachine_go.Transition.Called.{run_exists}
use asyncmachine_go.Transition.Vetoes.{emit_events-vetoed}
use asyncmachine_go.Transition.Refused.Steps.{
  Cancels, unless_canceled-Cancels, always-Cancels, cancel_empty_auto-Cancels, if-Cancels,
  stepped-Cancels, handle-refused, exit-Cancels, enter-Cancels, self-Cancels, pair-Cancels,
}

-- The events of the negotiation: FooExit of a state that ends, FooEnter of one that starts, FooFoo of
-- an active target state unless the mutation removes, FooBar of a state before and another one
-- behind, and AnyEnter.
abbrev pub IsAsked : Machine → Tx → String → Type 0
IsAsked m t event =
    ((s : String) × (contains t.exits s ≡ true) × (event ≡ join_text s "Exit"))
    ⊎ ((s : String) × (contains t.enters s ≡ true) × (event ≡ join_text s "Enter"))
    ⊎ ((s : String) × (contains t.targets s ≡ true)
        × (is m (s ∷ []) ≡ true)
        × (is_remove t.mut_type ≡ false)
        × (event ≡ join_text s s))
    ⊎ ((before after : String) × (contains t.states_before before ≡ true)
        × (contains t.targets after ≡ true)
        × ((before == after) ≡ false)
        × (event ≡ join_text before after))
    ⊎ (event ≡ "AnyEnter")

module _ (accepts : States → String → Bool) where
  any-Cancels :
      (m : Machine) (mut : Mutation) (r : Run)
      → ((events : States) → accepts events "AnyEnter" ≡ false)
      → Cancels (some (handle accepts m mut "Any" "AnyEnter" true r))
  unfolding Cancels
  any-Cancels m mut r no_way q h =
      ground (arith, handle-refused accepts m mut "Any" "AnyEnter" true r no_way)

  negotiation-Cancels :
      (m : Machine) (t : Tx) (r : Run) (event : String)
      → r.targets ≡ t.targets
      → t.is_auto ≡ false
      → IsAsked m t event
      → ((events : States) → accepts events event ≡ false)
      → Cancels (negotiation accepts m t r)
  unfolding negotiation
  negotiation-Cancels m t r event same manual asked no_way =
      let mut = t.mutation in
      let exits = emit_exit_events accepts m mut t.exits in
      let enters = emit_enter_events accepts m mut t.enters in
      let selfs = emit_self_events accepts m mut in
      let pairs = emit_state_state_events accepts m mut t.states_before in
      let any = λ (s : Run). some (handle accepts m mut "Any" "AnyEnter" true s) in
      let exited = unless_canceled exits (some r) in
      let entered = unless_canceled enters exited in
      let selves = if is_remove mut.mut_type then entered else unless_canceled selfs entered in
      let exited-IsKept =
        unless_canceled-IsKept accepts m mut exits (some r) r
          (exit-Keeps accepts m mut t.exits manual) (some-IsKept accepts m mut r) in
      let entered-IsKept =
        unless_canceled-IsKept accepts m mut enters exited r
          (enter-Keeps accepts m mut t.enters manual) exited-IsKept in
      let selves-IsKept =
        if-IsKept accepts m mut (is_remove mut.mut_type) entered (unless_canceled selfs entered) r
          entered-IsKept
          (unless_canceled-IsKept accepts m mut selfs entered r (self-Keeps accepts m mut manual)
            entered-IsKept) in
      let behind_pairs = λ (c : Cancels (unless_canceled pairs selves)).
        unless_canceled-Cancels any _ (cancel_empty_auto-Cancels mut _ c) in
      let behind_selves =
        λ (c : Cancels selves). behind_pairs (unless_canceled-Cancels pairs selves c) in
      let behind_enters = λ (c : Cancels entered). behind_selves (
        if-Cancels (is_remove mut.mut_type) entered (unless_canceled selfs entered) c
          (unless_canceled-Cancels selfs entered c)) in
      elim asked [
        | inl (s, here, named) ↦ behind_enters (
            unless_canceled-Cancels enters exited (
              stepped-Cancels accepts m mut exits (some r) r (some-IsKept accepts m mut r)
                λ q e. exit-Cancels accepts m mut t.exits s q manual here (rw⁻¹ named no_way)))
        | inr (inl (s, here, named)) ↦ behind_enters (
            stepped-Cancels accepts m mut enters exited r exited-IsKept
              λ q e. enter-Cancels accepts m mut t.enters s q manual here (rw⁻¹ named no_way))
        | inr (inr (inl (s, here, on, kind, named))) ↦ behind_selves (
            rw kind (
              stepped-Cancels accepts m mut selfs entered r entered-IsKept λ q e.
                self-Cancels accepts m mut s q manual (rw (e ∙ same) here) on (rw⁻¹ named no_way)))
        | inr (inr (inr (inl (before, after, here, there, apart, named)))) ↦ behind_pairs (
            stepped-Cancels accepts m mut pairs selves r selves-IsKept λ q e.
              pair-Cancels accepts m mut t.states_before before after q manual here
                (rw (e ∙ same) there) apart (rw⁻¹ named no_way))
        | inr (inr (inr (inr named))) ↦
            always-Cancels any _ λ q. any-Cancels m mut q (rw⁻¹ named no_way)
      ]

  -- If the handler of an event of the negotiation refuses, whatever was sent before, then a
  -- transition with handlers whose mutation is not automatic changes nothing and is canceled: be it
  -- FooExit of a state that ends, FooEnter of one that starts, FooFoo of an active target state
  -- unless the mutation removes, FooBar of a state before and another target state, or AnyEnter.
  pub emit_events-refused :
      ⦃sorter : StableSort⦄ (has_when_args : Bool) (m : Machine) (t : Tx) (o : Outcome)
      → (event : String) → IsAsked m t event
      → ((events : States) → accepts events event ≡ false)
      → t.is_auto ≡ false
      → emit_events accepts true has_when_args m t ≡ some o
      → (o.machine ≡ m) × (o.result ≡ false)
  unfolding Cancels
  emit_events-refused has_when_args m t o event asked no_way manual h =
      let (r, e) = run_exists accepts true has_when_args m t o h in
      emit_events-vetoed accepts has_when_args m t r o e
        (negotiation-Cancels m t (start_run t) event refl manual asked no_way r e) h
