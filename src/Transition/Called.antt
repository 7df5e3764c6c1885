-- ===== src/Transition/Called.antt =====
-- transition.go: what an executed transition has done with the states that were called.
use asyncmachine_go.Base.{
  ◌≡◌, ◌∙◌, refl, sym, Bool, true, false, ◌||◌, [], ◌∷◌, ◌++◌, String, some, contains,
  if◌then◌else◌, string_eq, arith, Bool-cases, Option-cases, inl, inr, IsSubset, contains_self,
  contains-tail, contains-cons_cases,
}
use asyncmachine_go.Schema.{States}
use asyncmachine_go.Relations.{is_remove}
use asyncmachine_go.Relations.Sorting.{StableSort}
use asyncmachine_go.Machine.{Machine, set_active_states}
use asyncmachine_go.Machine.Checks.{is, all_active}
use asyncmachine_go.Transition.{Mutation, Tx, new_transition}
use asyncmachine_go.Transition.Emit.{Run, emit_final_events}
use asyncmachine_go.Transition.Run.{
  Outcome, start_run, execute, negotiation, recheck_auto, emit_events, final_phase,
  recover_final_phase, finish, result_of, timed,
}
use asyncmachine_go.Transition.Start.{new_transition-IsStarted, accepted_called}
use asyncmachine_go.Transition.Vetoes.{emit_events-rejected}
use asyncmachine_go.Transition.Kept.{
  IsKept, handle-targets, finals_from-targets, negotiation-IsKept,
}

-- The states of a list that are all active are active one by one, and the other way round.
all_active-member :
    (names active states : States) (s : String)
    → all_active names active states ≡ true
    → contains states s ≡ true
    → (contains names s ≡ true) × (contains active s ≡ true)
unfolding all_active
all_active-member names active [] s h m = unfold contains in absurd (ground (arith))
all_active-member names active (x ∷ states) s h m = elim (contains-cons_cases x states s m) [
  | inl e ↦ (ground (arith), ground (arith))
  | inr rest ↦ all_active-member names active states s (ground (arith)) rest.1
]

pub all_active_of_members :
    (names active states : States)
    → ((s : String)
        → contains states s ≡ true
        → (contains names s ≡ true) × (contains active s ≡ true))
    → all_active names active states ≡ true
unfolding all_active
all_active_of_members names active [] h = refl
all_active_of_members names active (x ∷ states) h =
    let (known, on) = h x (contains_self x states) in
    let rest =
      all_active_of_members names active states (λ s m. h s (contains-tail x s states m)) in
    ground (arith, known, on, rest)

-- The end of emitEvents: a result that is not Canceled, of a mutation other than a removal, says
-- that the target states are active.
finish-is :
    (accepts : States → String → Bool) (has_handlers : Bool) (before m : Machine) (t : Tx) (r : Run)
    → (o : Outcome) → is_remove t.mut_type ≡ false
    → t.is_auto ≡ false
    → finish accepts has_handlers before m t r ≡ some o
    → o.result ≡ true
    → is o.machine r.targets ≡ true
unfolding finish result_of
finish-is accepts has_handlers before m t r o kind manual h ok =
    ground (arith, handle-targets accepts m t.mutation "Any" "AnyState" true r)

execute-is :
    (accepts : States → String → Bool) (has_handlers has_when_args : Bool) (m : Machine) (t : Tx)
    → (r : Run) (o : Outcome) → is_remove t.mut_type ≡ false
    → t.is_auto ≡ false
    → execute accepts has_handlers has_when_args m t r ≡ some o
    → o.result ≡ true
    → is o.machine r.targets ≡ true
unfolding execute final_phase emit_final_events
execute-is accepts has_handlers has_when_args m t r o kind manual h ok =
    let moved = set_active_states m t.called r.targets in
    let done = emit_final_events accepts moved t.mutation t r in
    let keep = finals_from-targets accepts moved t.mutation t.enters (t.exits ++ t.enters) r in
    elim (Bool-cases (has_handlers || has_when_args)) [
      | inl on ↦ rw⁻¹ keep (
          finish-is accepts has_handlers m
            (if done.is_canceled then recover_final_phase moved t done else moved) (timed moved t)
            done o kind manual (ground (arith)) ok)
      | inr off ↦
          finish-is accepts has_handlers m
            (if r.is_canceled then recover_final_phase moved t r else moved) (timed moved t) r o
            kind manual (ground (arith)) ok
    ]

is-IsSubset :
    (m : Machine) (targets called : States)
    → is m targets ≡ true
    → IsSubset called targets
    → is m called ≡ true
unfolding is
is-IsSubset m targets called on within =
    let all = all_active_of_members m.state_names m.active_states called (λ s c.
      all_active-member m.state_names m.active_states targets s (ground (arith)) (within s c)) in
    ground (arith, all)

module _ (accepts : States → String → Bool) ⦃sorter : StableSort⦄ where
  emit_events-is :
      (has_handlers has_when_args : Bool) (m : Machine) (t : Tx) (r : Run) (o : Outcome)
      → (if has_handlers then negotiation accepts m t (start_run t) else some (start_run t))
        ≡ some r
      → r.targets ≡ t.targets
      → t.is_check ≡ false
      → is_remove t.mut_type ≡ false
      → t.is_auto ≡ false
      → emit_events accepts has_handlers has_when_args m t ≡ some o
      → o.result ≡ true
      → is o.machine t.targets ≡ true
  unfolding emit_events recheck_auto
  emit_events-is has_handlers has_when_args m t r o e keep real kind manual h ok =
      elim (Bool-cases r.is_canceled) [
        | inl c ↦ absurd (ground (arith))
        | inr c ↦
            rw⁻¹ keep (
              execute-is accepts has_handlers has_when_args m t r o kind manual (ground (arith)) ok)
      ]

  started_run :
      (has_handlers : Bool) (m : Machine) (t : Tx) (r : Run)
      → t.is_auto ≡ false
      → (if has_handlers then negotiation accepts m t (start_run t) else some (start_run t))
        ≡ some r
      → r.targets ≡ t.targets
  unfolding IsKept
  started_run true m t r manual e =
      negotiation-IsKept accepts m t.mutation t (start_run t) refl manual r e
  started_run false m t r manual e = ground (arith)

  pub run_exists :
      (has_handlers has_when_args : Bool) (m : Machine) (t : Tx) (o : Outcome)
      → emit_events accepts has_handlers has_when_args m t ≡ some o
      → (r : Run) × ((if has_handlers
            then negotiation accepts m t (start_run t)
            else some (start_run t))
          ≡ some r)
  unfolding emit_events
  run_exists has_handlers has_when_args m t o h =
      elim (Option-cases
        (if has_handlers then negotiation accepts m t (start_run t) else some (start_run t))) [
          | inl bad ↦ absurd (ground (arith))
          | inr found ↦ found
        ]

  -- If a mutation that adds or sets states, neither automatic nor a check, is executed, whatever its
  -- handlers answer, then afterwards all its called states and all its target states are active.
  pub executed-is :
      (has_handlers has_when_args : Bool) (m : Machine) (mut : Mutation) (t : Tx) (o : Outcome)
      → new_transition m mut ≡ some t
      → emit_events accepts has_handlers has_when_args m t ≡ some o
      → o.result ≡ true
      → is_remove mut.mut_type ≡ false
      → mut.is_auto ≡ false
      → mut.is_check ≡ false
      → (is o.machine t.targets ≡ true) × (is o.machine mut.called ≡ true)
  executed-is has_handlers has_when_args m mut t o n h ok kind manual real =
      let start = new_transition-IsStarted m mut t n in
      let (r, e) = run_exists has_handlers has_when_args m t o h in
      let manual' : t.is_auto ≡ false = rw start.same_mutation manual in
      let on =
        emit_events-is has_handlers has_when_args m t r o e
          (started_run has_handlers m t r manual' e) (rw start.same_mutation real)
          (rw start.same_mutation kind) manual' h ok in
      elim (Bool-cases t.is_accepted) [
        | inr off ↦ absurd (
            ground (arith, (emit_events-rejected accepts has_handlers has_when_args m t o off h).1))
        | inl go ↦ (
          on,
          is-IsSubset o.machine t.targets mut.called on
              λ s c. accepted_called m mut t.targets s (sym start.accepted ∙ go) manual real kind c,
        )
      ]
