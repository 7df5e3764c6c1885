-- ===== src/Transition/Setup.antt =====
-- transition.go: a transition keeps the schema, the names and the disposal of its machine.
use asyncmachine_go.Base.{
  ◌≡◌, ◌∙◌, refl, sym, subst, Bool, false, ◌||◌, ◌++◌, String, some, if◌then◌else◌, string_eq,
  arith, Bool-cases, Option-cases, inl, inr,
}
use asyncmachine_go.Schema.{States}
use asyncmachine_go.Relations.Sorting.{StableSort}
use asyncmachine_go.Machine.{Machine, set_active_states}
use asyncmachine_go.Machine.Ticks.{set_active_states_keeps}
use asyncmachine_go.Transition.{Tx}
use asyncmachine_go.Transition.Emit.{Run, emit_final_events}
use asyncmachine_go.Transition.Run.{
  Outcome, timed, recheck_auto, execute, final_phase, recover_from, finish, emit_events,
  recover_final_phase,
}
use asyncmachine_go.Transition.Called.{run_exists}

-- The parts of a machine that no transition changes.
unfoldable pub SameSetup : Machine → Machine → Type 0
SameSetup m m' =
    (m'.schema ≡ m.schema)
    × (m'.state_names ≡ m.state_names)
    × (m'.topology ≡ m.topology)
    × (m'.disposing ≡ m.disposing)

pub SameSetup-refl : (m : Machine) → SameSetup m m
unfolding SameSetup
SameSetup-refl m = (refl, refl, refl, refl)

pub set_active_states-SameSetup :
    (m m' : Machine) (called targets : States)
    → SameSetup m m'
    → SameSetup m (set_active_states m' called targets)
unfolding SameSetup
set_active_states-SameSetup m m' called targets same =
    let keeps = set_active_states_keeps m' called targets in
    (keeps.0 ∙ same.0, keeps.1 ∙ same.1, keeps.2 ∙ same.2, keeps.3 ∙ same.3)

module _ (accepts : States → String → Bool) where
  pub final_phase-SameSetup :
      (has_handlers : Bool) (m m' : Machine) (t : Tx) (r : Run)
      → SameSetup m m'
      → SameSetup m (final_phase accepts has_handlers m' t r).0
  unfolding final_phase recover_final_phase
  final_phase-SameSetup has_handlers m m' t r same =
      let done = if has_handlers then emit_final_events accepts m' t.mutation t r else r in
      elim (Bool-cases done.is_canceled) [
        | inr fine ↦ subst (SameSetup m) (ground (arith)) same
        | inl bad ↦ subst (SameSetup m) (ground (arith)) (
            set_active_states-SameSetup m m' t.called
              (recover_from done false (t.exits ++ t.enters) m'.active_states) same)
      ]

  finish-machine :
      (has_handlers : Bool) (m m' : Machine) (t : Tx) (r : Run) (o : Outcome)
      → finish accepts has_handlers m m' t r ≡ some o
      → o.machine ≡ m'
  unfolding finish
  finish-machine has_handlers m m' t r o h = ground arith

  execute-SameSetup :
      (has_handlers has_when_args : Bool) (m : Machine) (t : Tx) (r : Run) (o : Outcome)
      → execute accepts has_handlers has_when_args m t r ≡ some o
      → SameSetup m o.machine
  unfolding execute
  execute-SameSetup has_handlers has_when_args m t r o h =
      let moved = set_active_states m t.called r.targets in
      let same = set_active_states-SameSetup m m t.called r.targets (SameSetup-refl m) in
      let last = final_phase accepts (has_handlers || has_when_args) moved t r in
      subst (SameSetup m) (sym (finish-machine has_handlers m last.0 (timed moved t) last.1 o h))
        (final_phase-SameSetup (has_handlers || has_when_args) m moved t r same)

  pub emit_events-SameSetup :
      ⦃sorter : StableSort⦄ (has_handlers has_when_args : Bool) (m : Machine) (t : Tx) (o : Outcome)
      → emit_events accepts has_handlers has_when_args m t ≡ some o
      → SameSetup m o.machine
  unfolding emit_events
  emit_events-SameSetup has_handlers has_when_args m t o h =
      let (r, e) = run_exists accepts has_handlers has_when_args m t o h in
      elim (Bool-cases t.is_check) [
        | inl check ↦ subst (SameSetup m) (ground (arith)) (SameSetup-refl m)
        | inr real ↦ elim (Option-cases (recheck_auto accepts m t r)) [
          | inl bad ↦ absurd (ground (arith))
          | inr ((u, s), ok) ↦ elim (Bool-cases s.is_canceled) [
            | inl c ↦ subst (SameSetup m) (ground (arith)) (SameSetup-refl m)
            | inr c ↦ execute-SameSetup has_handlers has_when_args m u s o (ground (arith))
          ]
        ]
      ]
