-- ===== src/Tests/Emission.antt =====
-- The theorems on transitions, at the small machine.
use asyncmachine_go.Base.{◌≡◌, refl, true, false, [], ◌∷◌, some, contains, string_eq, inl, inr}
use asyncmachine_go.Machine.{time_all}
use asyncmachine_go.Machine.Checks.{is}
use asyncmachine_go.Machine.Invariant.{IsWellFormed}
use asyncmachine_go.Transition.Run.{Outcome, start_run, emit_events}
use asyncmachine_go.Transition.Called.{executed-is}
use asyncmachine_go.Transition.WellFormed.{emit_events-IsWellFormed}
use asyncmachine_go.Transition.NoHandlers.{emit_events_of_no_handlers}
use asyncmachine_go.Transition.Vetoes.{emit_events-rejected}
use asyncmachine_go.Transition.Refused.{emit_events-refused}
use asyncmachine_go.Text.{join_text}
use asyncmachine_go.Tests.Fixtures.{
  machine, add_a, sorter, machine-IsWellFormed, machine-IsKnownSchema,
}
use asyncmachine_go.Tests.Transitions.{
  started, started_eq, agree, after_a, outcome_a, outcome_eq, veto, run_veto, stopped, vetoed_eq,
  rejected, rejected_eq,
}

executed-is_example : (is after_a ("A" ∷ "B" ∷ []) ≡ true) × (is after_a ("A" ∷ []) ≡ true)
executed-is_example =
    executed-is agree ⦃sorter = sorter⦄ true false machine add_a started outcome_a started_eq
      outcome_eq refl refl refl refl

emit_events-IsWellFormed_example : IsWellFormed after_a
unfolding contains
emit_events-IsWellFormed_example =
    emit_events-IsWellFormed agree ⦃sorter = sorter⦄ true false machine add_a started outcome_a refl
      machine-IsWellFormed machine-IsKnownSchema refl started_eq outcome_eq

emit_events_of_no_handlers_example :
    (o : Outcome) × (emit_events agree ⦃sorter = sorter⦄ false false machine started ≡ some o)
    × (o.result ≡ true)
    × (o.machine.active_states ≡ started.targets)
    × (time_all o.machine ≡ started.time_after)
emit_events_of_no_handlers_example =
    emit_events_of_no_handlers agree ⦃sorter = sorter⦄ machine add_a started refl
      machine-IsWellFormed machine-IsKnownSchema started_eq refl refl refl refl

emit_events-refused_example :
    ((stopped started run_veto).machine ≡ machine) × ((stopped started run_veto).result ≡ false)
unfolding contains join_text
emit_events-refused_example =
    emit_events-refused veto ⦃sorter = sorter⦄ false machine started (stopped started run_veto)
      "AEnter" (inr (inl ("A", refl, refl))) (λ events. refl) refl vetoed_eq

emit_events-rejected_example :
    ((stopped rejected (start_run rejected)).machine ≡ machine)
    × ((stopped rejected (start_run rejected)).result ≡ false)
emit_events-rejected_example =
    emit_events-rejected veto ⦃sorter = sorter⦄ false false machine rejected
      (stopped rejected (start_run rejected)) refl rejected_eq
