-- ===== src/Transition/Auto.antt =====
-- relations.go, NewAutoMutation; transition.go: the auto mutation behind a transition.
use asyncmachine_go.Base.{
  ◌≡◌, refl, subst, Bool, true, false, ◌||◌, [], ◌∷◌, String, none, some, contains, string_eq,
  arith, Bool-cases, Option-cases, inl, inr, ◌⊎◌, has_key, lookup, keys,
}
use asyncmachine_go.Schema.{States, Schema, schema_names}
use asyncmachine_go.Relations.Sorting.{StableSort}
use asyncmachine_go.Machine.{Machine, set_active_states}
use asyncmachine_go.Transition.{Mutation, Tx, indexes_of, setup_exit_enter}
use asyncmachine_go.Transition.Emit.{Run}
use asyncmachine_go.Transition.Run.{
  Outcome, timed, auto_states, new_auto_mutation, finish, execute, recheck_auto, emit_events,
  final_phase,
}
use asyncmachine_go.Transition.Called.{run_exists}
use asyncmachine_go.Transition.Sound.{IsDefined}

contains-auto_states :
    (m : Machine) (names : States) (s : String)
    → contains (auto_states m names) s ≡ true
    → contains names s ≡ true
unfolding auto_states contains
contains-auto_states m [] s h = h
contains-auto_states m (x ∷ names) s h = ground (arith, contains-auto_states m names s)

contains-schema_names :
    (schema : Schema) (s : String) → contains (schema_names schema) s ≡ has_key s schema
unfolding schema_names contains lookup keys
contains-schema_names [] s = refl
contains-schema_names ((k, v) ∷ schema) s = ground (arith, contains-schema_names schema s)

-- The auto mutation adds states of the schema, under their indexes.
pub record IsAutoAdd (m : Machine) (mut : Mutation) : Type 0 where
  pub auto : mut.is_auto ≡ true
  pub defined : IsDefined m.schema mut.called
  pub indexes : mut.called_indexes ≡ indexes_of m mut.called

pub new_auto_mutation-IsAutoAdd :
    (m : Machine) (mut : Mutation) → new_auto_mutation m ≡ some mut → IsAutoAdd m mut
unfolding new_auto_mutation IsDefined
new_auto_mutation-IsAutoAdd m mut h =
    let to_add = auto_states m (schema_names m.schema) in
    let called : to_add ≡ mut.called = ground (arith) in
    record {
      auto = ground (arith);
      defined = λ s c. ground (
        arith,
        called,
        contains-auto_states m (schema_names m.schema) s,
        contains-schema_names m.schema s,
      );
      indexes = ground (arith, called);
    }

-- What is put at the head of the queue behind a transition that is not automatic.
abbrev pub IsFollowUp : Mutation → Outcome → Type 0
IsFollowUp mut o =
    (o.auto_mutation ≡ none)
    ⊎ ((mut.is_auto ≡ false)
        × (next : Mutation) × (o.auto_mutation ≡ some next)
        × IsAutoAdd o.machine next)

finish-IsFollowUp :
    (accepts : States → String → Bool) (has_handlers : Bool) (before m : Machine) (t : Tx) (r : Run)
    (o : Outcome)
    → finish accepts has_handlers before m t r ≡ some o
    → IsFollowUp t.mutation o
unfolding finish
finish-IsFollowUp accepts has_handlers before m t r o h = elim (Option-cases o.auto_mutation) [
  | inl off ↦ inl off
  | inr (mut, on) ↦
      let made : new_auto_mutation o.machine ≡ some mut = ground (arith) in
      inr (ground (arith), mut, on, new_auto_mutation-IsAutoAdd o.machine mut made)
]

module _ (accepts : States → String → Bool) ⦃sorter : StableSort⦄ where
  recheck_auto-mutation :
      (m : Machine) (t u : Tx) (r s : Run)
      → recheck_auto accepts m t r ≡ some (u, s)
      → u.mutation ≡ t.mutation
  unfolding recheck_auto setup_exit_enter
  recheck_auto-mutation m t u r s h = ground arith

  pub emit_events-IsFollowUp :
      (has_handlers has_when_args : Bool) (m : Machine) (t : Tx) (o : Outcome)
      → emit_events accepts has_handlers has_when_args m t ≡ some o
      → IsFollowUp t.mutation o
  unfolding emit_events execute
  emit_events-IsFollowUp has_handlers has_when_args m t o h =
      let (r, e) = run_exists accepts has_handlers has_when_args m t o h in
      elim (Bool-cases t.is_check) [
        | inl check ↦ inl (ground (arith))
        | inr real ↦ elim (Option-cases (recheck_auto accepts m t r)) [
          | inl bad ↦ absurd (ground (arith))
          | inr ((u, s), ok) ↦ elim (Bool-cases s.is_canceled) [
            | inl c ↦ inl (ground (arith))
            | inr c ↦
                let moved = set_active_states m u.called s.targets in
                let last = final_phase accepts (has_handlers || has_when_args) moved u s in
                let same = recheck_auto-mutation m t u r s ok in
                subst (λ mut. IsFollowUp mut o) same
                  (finish-IsFollowUp accepts has_handlers m last.0 (timed moved u) last.1 o
                    (ground (arith)))
          ]
        ]
      ]
