-- ===== src/Transition/Total.antt =====
-- transition.go: which transitions do not panic.
use asyncmachine_go.Base.{
  ◌≡◌, ◌∙◌, refl, Bool, true, false, not, ◌&&◌, ◌||◌, String, none, some, if◌then◌else◌, string_eq,
  arith, Bool-cases, Option-cases, inl, inr, ◌⊎◌,
}
use asyncmachine_go.Slices.{slices_none}
use asyncmachine_go.Schema.{States}
use asyncmachine_go.Relations.{MutationType}
use asyncmachine_go.Relations.Sorting.{StableSort}
use asyncmachine_go.Machine.{Machine, states_diff, set_active_states, time_all}
use asyncmachine_go.Machine.Checks.{is_not, is_time}
use asyncmachine_go.Machine.Ticks.{contains-states_diff}
use asyncmachine_go.Transition.{
  Mutation, Tx, new_transition, setup_exit_enter, indexes_of, states_to_set,
}
use asyncmachine_go.Transition.Emit.{Run, handle}
use asyncmachine_go.Transition.Run.{
  Outcome, timed, start_run, negotiation, recheck_auto, execute, final_phase, finish, result_of,
  emit_events,
}
use asyncmachine_go.Transition.Start.{new_transition-IsStarted}
use asyncmachine_go.Transition.Setup.{
  SameSetup, SameSetup-refl, set_active_states-SameSetup, final_phase-SameSetup,
}
use asyncmachine_go.Transition.Runs.{Runs, negotiation-Runs}
use asyncmachine_go.Transition.NoHandlers.{is_time-time_all}
use asyncmachine_go.Transition.Sound.{
  IsDefined, IsSound, must_parse_states-some, states_to_set-IsDefined, target_states-some,
  new_transition-some,
}

is_not-some :
    (m : Machine) (states : States)
    → IsDefined m.schema states
    → (b : Bool) × (is_not m states ≡ some b)
unfolding is_not
is_not-some m states defined = elim (Bool-cases m.disposing) [
  | inl gone ↦ (false, ground (arith))
  | inr live ↦
      let (parsed, p) = must_parse_states-some m.disposing m.schema states defined in
      (slices_none parsed m.active_states, ground (arith, p))
]

result_of-some :
    (accepts : States → String → Bool) (m : Machine) (t : Tx) (r : Run)
    → IsDefined m.schema t.called
    → (b : Bool) × (result_of accepts m t r ≡ some b)
unfolding result_of
result_of-some accepts m t r defined =
    let (b, e) = is_not-some m t.called defined in
    elim (Option-cases (result_of accepts m t r)) [
      | inl bad ↦ absurd (ground (arith, e))
      | inr found ↦ found
    ]

module _ (accepts : States → String → Bool) where
  finish-some :
      (has_handlers : Bool) (m m' : Machine) (t : Tx) (r : Run)
      → SameSetup m m'
      → t.time_before ≡ time_all m
      → IsDefined m.schema t.called
      → (o : Outcome) × (finish accepts has_handlers m m' t r ≡ some o)
  unfolding finish SameSetup
  finish-some has_handlers m m' t r same time defined =
      let s =
        if not r.is_canceled && has_handlers
        then handle accepts m' t.mutation "Any" "AnyState" true r
        else r in
      let (b, e) = is_time-time_all m m' same.1 in
      let e' : is_time m' t.time_before none ≡ some b = rw time e in
      let defined' : IsDefined m'.schema t.called = rw (same.0) defined in
      let (executed, f) = result_of-some accepts m' t s defined' in
      elim (Option-cases (finish accepts has_handlers m m' t r)) [
        | inl bad ↦ absurd (ground (arith, e', f))
        | inr found ↦ found
      ]

  execute-some :
      (has_handlers has_when_args : Bool) (m : Machine) (t : Tx) (r : Run)
      → t.time_before ≡ time_all m
      → IsDefined m.schema t.called
      → (o : Outcome) × (execute accepts has_handlers has_when_args m t r ≡ some o)
  unfolding execute
  execute-some has_handlers has_when_args m t r time defined =
      let moved = set_active_states m t.called r.targets in
      let same : SameSetup m moved =
        set_active_states-SameSetup m m t.called r.targets (SameSetup-refl m) in
      let last = final_phase accepts (has_handlers || has_when_args) moved t r in
      finish-some has_handlers m last.0 (timed moved t) last.1
        (final_phase-SameSetup accepts (has_handlers || has_when_args) m moved t r same) time
        defined

  -- What the handlers can do to a transition does not make it panic.
  abbrev pub IsSafe : Bool → Mutation → Type 0
  IsSafe has_handlers mut = (mut.is_auto ≡ false) ⊎ (has_handlers ≡ false)

  started-Runs :
      (has_handlers : Bool) (m : Machine) (t : Tx)
      → IsSafe has_handlers t.mutation
      → Runs (if has_handlers then negotiation accepts m t (start_run t) else some (start_run t))
  started-Runs has_handlers m t safe = elim (Bool-cases has_handlers) [
    | inr off ↦ (start_run t, rw off refl)
    | inl on ↦ elim safe [
      | inr off ↦ absurd (ground (arith))
      | inl manual ↦ let (r, e) = negotiation-Runs accepts m t (start_run t) manual in (r, rw on e)
    ]
  ]

  recheck_auto-some :
      ⦃sorter : StableSort⦄ (m : Machine) (t : Tx) (r : Run)
      → IsSound m
      → IsDefined m.schema t.called
      → (u : Tx) × (s : Run) × (recheck_auto accepts m t r ≡ some (u, s))
        × (u.time_before ≡ t.time_before)
        × (u.called ≡ t.called)
  unfolding recheck_auto IsDefined setup_exit_enter
  recheck_auto-some m t r sound defined = elim (Bool-cases t.is_auto) [
    | inr manual ↦ (t, r, rw manual refl, refl, refl)
    | inl auto ↦
        let clean = states_diff t.called (states_diff t.called r.targets) in
        let (targets, p) =
          target_states-some m t.mutation t.states_before (states_to_set m MutationType.add clean) (
            states_to_set-IsDefined m MutationType.add clean sound λ s h.
              defined s (
                ground
                  (arith, contains-states_diff t.called (states_diff t.called r.targets) s))) in
        (
          setup_exit_enter m (record t { targets = targets }),
          record r { targets = targets; target_indexes = indexes_of m targets },
          ground (arith, p),
          refl,
          refl,
        )
  ]

  pub emit_events-some :
      ⦃sorter : StableSort⦄ (has_handlers has_when_args : Bool) (m : Machine) (t : Tx)
      → IsSound m
      → IsSafe has_handlers t.mutation
      → t.time_before ≡ time_all m
      → IsDefined m.schema t.called
      → (o : Outcome) × (emit_events accepts has_handlers has_when_args m t ≡ some o)
  unfolding emit_events
  emit_events-some has_handlers has_when_args m t sound safe time defined =
      let (r, e) = started-Runs has_handlers m t safe in
      let (u, s, f, same_time, same_called) = recheck_auto-some m t r sound defined in
      let (o, g) =
        execute-some has_handlers has_when_args m u s (same_time ∙ time) (rw same_called defined) in
      elim (Option-cases (emit_events accepts has_handlers has_when_args m t)) [
        | inl bad ↦ absurd (ground (arith, e, f, g))
        | inr found ↦ found
      ]

  -- On a live and sound machine a mutation of states that are all in the schema never panics, if it
  -- is not automatic or there are no handlers: its transition starts, and whatever the handlers
  -- answer, it ends.
  pub emit_events_total :
      ⦃sorter : StableSort⦄ (has_handlers has_when_args : Bool) (m : Machine) (mut : Mutation)
      → m.disposing ≡ false
      → IsSound m
      → IsDefined m.schema mut.called
      → (mut.is_auto ≡ false) ⊎ (has_handlers ≡ false)
      → (t : Tx) × (o : Outcome) × (new_transition m mut ≡ some t)
        × (emit_events accepts has_handlers has_when_args m t ≡ some o)
  emit_events_total has_handlers has_when_args m mut live sound defined safe =
      let (t, n) = new_transition-some m mut live sound defined in
      let start = new_transition-IsStarted m mut t n in
      let (o, e) =
        emit_events-some has_handlers has_when_args m t sound (rw start.same_mutation safe)
          start.time (rw start.same_mutation defined) in
      (t, o, n, e)
