-- ===== src/Transition/Vetoes.antt =====
-- transition.go, emitEvents: transitions that change nothing, because they are rejected, vetoed by a
-- handler, or only checks.
use asyncmachine_go.Base.{
  ◌≡◌, ◌∙◌, refl, ap, Bool, true, false, not, ◌&&◌, String, Option, none, some, is_empty,
  if◌then◌else◌, string_eq, arith, Bool-cases, Option-cases, inl, inr,
}
use asyncmachine_go.Schema.{States}
use asyncmachine_go.Relations.Sorting.{StableSort}
use asyncmachine_go.Machine.{Machine}
use asyncmachine_go.Transition.{Mutation, Tx}
use asyncmachine_go.Transition.Emit.{Run, unless_canceled}
use asyncmachine_go.Transition.Run.{
  Outcome, start_run, negotiation, recheck_auto, emit_events, cancel_empty_auto,
}

-- A canceled run stays canceled through a step of the negotiation.
unless_canceled-some :
    (step : Run → Option Run) (r : Run)
    → r.is_canceled ≡ true
    → unless_canceled step (some r) ≡ some r
unfolding unless_canceled
unless_canceled-some step r c = rw c refl

cancel_empty_auto-is_canceled :
    (mut : Mutation) (r : Run)
    → r.is_canceled ≡ true
    → (s : Run) × (cancel_empty_auto mut r ≡ some s) × (s.is_canceled ≡ true)
unfolding cancel_empty_auto
cancel_empty_auto-is_canceled mut r c =
    elim (Bool-cases (mut.is_auto && is_empty r.target_indexes)) [
      | inl e ↦ (record r { is_canceled = true }, rw e refl, refl)
      | inr e ↦ (r, rw e refl, c)
    ]

module _ (accepts : States → String → Bool) where
  negotiation-is_canceled :
      (m : Machine) (t : Tx) (r : Run)
      → r.is_canceled ≡ true
      → (s : Run) × (negotiation accepts m t r ≡ some s) × (s.is_canceled ≡ true)
  unfolding negotiation unless_canceled
  negotiation-is_canceled m t r c =
      let (s, e, d) = cancel_empty_auto-is_canceled t.mutation r c in (s, ground (arith, e, d), d)

  recheck_auto-is_canceled :
      ⦃sorter : StableSort⦄
      → (m : Machine) (t u : Tx) (r s : Run) → recheck_auto accepts m t r ≡ some (u, s)
      → s.is_canceled ≡ r.is_canceled
  unfolding recheck_auto
  recheck_auto-is_canceled m t u r s h = ground (arith)

  module _ ⦃sorter : StableSort⦄ where
    emit_cases :
        (has_handlers has_when_args : Bool) (m : Machine) (t : Tx) (r : Run) (o : Outcome)
        → (if has_handlers then negotiation accepts m t (start_run t) else some (start_run t))
          ≡ some r
        → r.is_canceled ≡ true
        → emit_events accepts has_handlers has_when_args m t ≡ some o
        → (o.machine ≡ m) × (o.result ≡ false)
    unfolding emit_events
    emit_cases has_handlers has_when_args m t r o e c h = elim (Bool-cases t.is_check) [
      | inl check ↦ (ground (arith), ground (arith))
      | inr real ↦ elim (Option-cases (recheck_auto accepts m t r)) [
        | inl bad ↦ absurd (ground (arith))
        | inr ((u, s), ok) ↦
            let d = recheck_auto-is_canceled m t u r s ok ∙ c in (ground (arith), ground (arith))
      ]
    ]

    -- A transition that is rejected at its start changes nothing and is canceled, whatever the
    -- handlers are.
    pub emit_events-rejected :
        (has_handlers has_when_args : Bool) (m : Machine) (t : Tx) (o : Outcome)
        → t.is_accepted ≡ false
        → emit_events accepts has_handlers has_when_args m t ≡ some o
        → (o.machine ≡ m) × (o.result ≡ false)
    emit_events-rejected has_handlers has_when_args m t o off h =
        let canceled = ap not off in
        let (s, e, d) = negotiation-is_canceled m t (start_run t) canceled in
        elim (Bool-cases has_handlers) [
          | inl on ↦ emit_cases has_handlers has_when_args m t s o (ground (arith, e)) d h
          | inr none_bound ↦
              emit_cases has_handlers has_when_args m t (start_run t) o (ground arith) canceled h
        ]

    -- A transition whose negotiation a handler cancels changes nothing and is canceled.
    pub emit_events-vetoed :
        (has_when_args : Bool) (m : Machine) (t : Tx) (r : Run) (o : Outcome)
        → negotiation accepts m t (start_run t) ≡ some r
        → r.is_canceled ≡ true
        → emit_events accepts true has_when_args m t ≡ some o
        → (o.machine ≡ m) × (o.result ≡ false)
    emit_events-vetoed has_when_args m t r o e c h = emit_cases true has_when_args m t r o e c h

    -- A check never changes the machine, and no auto mutation follows it.
    pub emit_events-is_check :
        (has_handlers has_when_args : Bool) (m : Machine) (t : Tx) (o : Outcome)
        → t.is_check ≡ true
        → emit_events accepts has_handlers has_when_args m t ≡ some o
        → (o.machine ≡ m) × (o.auto_mutation ≡ none)
    unfolding emit_events
    emit_events-is_check has_handlers has_when_args m t o check h = (ground (arith), ground (arith))
