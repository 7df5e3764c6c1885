-- ===== src/Transition/WellFormed.antt =====
-- transition.go, emitEvents; machine.go, recoverFinalPhase: a whole transition, whatever its handlers
-- answer, leaves the machine's clocks and active states in agreement.
use asyncmachine_go.Base.{
  ◌≡◌, ◌∙◌, refl, subst, Bool, true, false, ◌&&◌, ◌||◌, ◌++◌, String, some, contains, if◌then◌else◌,
  string_eq, arith, Bool-cases, Option-cases, inl, inr, ◌⊎◌, IsSubset, contains-append,
}
use asyncmachine_go.Schema.{States}
use asyncmachine_go.Relations.{MutationType}
use asyncmachine_go.Relations.Sorting.{StableSort}
use asyncmachine_go.Relations.Target.{target_states}
use asyncmachine_go.Relations.Resolved.{target_states-IsRequireClosed}
use asyncmachine_go.Machine.{Machine, set_active_states, states_diff}
use asyncmachine_go.Machine.Ticks.{set_active_states_keeps}
use asyncmachine_go.Machine.Invariant.{IsWellFormed, set_active_states-IsWellFormed}
use asyncmachine_go.Transition.{
  Mutation, Tx, new_transition, context_of, states_to_set, setup_exit_enter,
}
use asyncmachine_go.Transition.Emit.{Run, emit_final_events}
use asyncmachine_go.Transition.Run.{
  Outcome, start_run, execute, negotiation, recheck_auto, emit_events, final_phase, finish,
  recover_from, recover_final_phase,
}
use asyncmachine_go.Transition.Start.{
  IsKnownSchema, new_transition-IsStarted, target_states-IsSubset_names, setup_exit_enter-IsSubset,
}
use asyncmachine_go.Transition.Called.{run_exists}
use asyncmachine_go.Transition.Partial.{negotiation-HasTargets}
use asyncmachine_go.Transition.Listing.{
  IsListing, delete_at-IsListing, recover_from-IsListing, finals_from-last,
}

-- The exits and enters of a transition that may be executed, on a machine where it starts.
pub record IsReady (m : Machine) (t : Tx) : Type 0 where
  exits_active : IsSubset t.exits m.active_states
  enters_known : IsSubset t.enters m.state_names

final_out :
    (m : Machine) (t : Tx)
    → IsWellFormed m
    → IsReady m t
    → contains m.state_names "" ≡ false
    → contains (t.exits ++ t.enters) "" ≡ false
final_out m t w ready named = ground (
  arith,
  contains-append t.exits t.enters "",
  ready.exits_active "",
  w.known "",
  ready.enters_known "",
)

module _ (accepts : States → String → Bool) where
  recover-IsWellFormed :
      (m moved : Machine) (t : Tx) (r : Run)
      → IsWellFormed m
      → IsWellFormed moved
      → moved.state_names ≡ m.state_names
      → IsReady m t
      → contains m.state_names "" ≡ false
      → (r.is_enter ≡ true) ⊎ (r.to_state ≡ "")
      → IsWellFormed (recover_final_phase moved t r)
  unfolding recover_final_phase IsListing
  recover-IsWellFormed m moved t r w w' names ready named last =
      let finals = t.exits ++ t.enters in
      let why : (r.is_enter ≡ true) ⊎ ((false ≡ false) × (contains finals r.to_state ≡ false)) =
        elim last [ inl e ↦ inl e | inr e ↦ inr (refl, rw e (final_out m t w ready named)) ] in
      let (d, k) =
        recover_from-IsListing moved.state_names r false finals moved.active_states why
          (w'.active_once, w'.known) in
      set_active_states-IsWellFormed moved t.called
        (recover_from r false finals moved.active_states) w' d k

  execute-IsWellFormed :
      (has_handlers has_when_args : Bool) (m : Machine) (t : Tx) (r : Run) (o : Outcome)
      → m.disposing ≡ false
      → IsWellFormed m
      → IsReady m t
      → contains m.state_names "" ≡ false
      → IsListing m.state_names r.targets
      → r.is_canceled ≡ false
      → execute accepts has_handlers has_when_args m t r ≡ some o
      → IsWellFormed o.machine
  unfolding execute final_phase finish IsListing emit_final_events
  execute-IsWellFormed has_handlers has_when_args m t r o live w ready named g c h =
      let moved = set_active_states m t.called r.targets in
      let keeps = set_active_states_keeps m t.called r.targets in
      let done = emit_final_events accepts moved t.mutation t r in
      let w' = set_active_states-IsWellFormed m t.called r.targets w g.0 g.1 in
      elim (Bool-cases ((has_handlers || has_when_args) && done.is_canceled)) [
        | inr fine ↦ subst IsWellFormed (ground (arith)) w'
        | inl bad ↦ subst IsWellFormed (ground (arith)) (
            recover-IsWellFormed m moved t done w w' keeps.1 ready named (
              finals_from-last accepts moved t.mutation (keeps.3 ∙ live) t.enters
                (t.exits ++ t.enters) r (ground (arith))))
      ]

  run-IsListing :
      (has_handlers : Bool) (m : Machine) (t : Tx) (r : Run)
      → IsListing m.state_names t.targets
      → (if has_handlers then negotiation accepts m t (start_run t) else some (start_run t))
        ≡ some r
      → IsListing m.state_names r.targets
  run-IsListing true m t r g e =
      negotiation-HasTargets (delete_at-IsListing m.state_names) accepts m t (start_run t) r g e
  run-IsListing false m t r g e = subst (IsListing m.state_names) (ground (arith)) g

  module _ ⦃sorter : StableSort⦄ where
    target_states-IsListing :
        (m : Machine) (mut : Mutation) (before set targets : States)
        → m.disposing ≡ false
        → IsKnownSchema m
        → target_states m.disposing (context_of m mut before) set ≡ some targets
        → IsListing m.state_names targets
    unfolding IsListing
    target_states-IsListing m mut before set targets live known h =
        let h' : target_states false (context_of m mut before) set ≡ some targets =
          subst (λ d. target_states d (context_of m mut before) set ≡ some targets) live h in
        (
          (target_states-IsRequireClosed (context_of m mut before) set targets h').0,
          target_states-IsSubset_names m mut before set targets known h',
        )

    pub new_transition-IsReady :
        (m : Machine) (mut : Mutation) (t : Tx)
        → m.disposing ≡ false
        → IsKnownSchema m
        → new_transition m mut ≡ some t
        → IsListing m.state_names t.targets × IsReady m t
    unfolding IsListing
    new_transition-IsReady m mut t live known n =
        let start = new_transition-IsStarted m mut t n in
        let listing =
          target_states-IsListing m mut m.active_states (states_to_set m mut.mut_type mut.called)
            t.targets live known start.target_states in
        (
          listing,
          record {
            exits_active = start.exits_active;
            enters_known = λ s h. listing.1 s (start.enters_targets s h);
          },
        )

    recheck_auto-IsReady :
        (m : Machine) (t u : Tx) (r s : Run)
        → m.disposing ≡ false
        → IsKnownSchema m
        → IsListing m.state_names r.targets
        → IsReady m t
        → recheck_auto accepts m t r ≡ some (u, s)
        → IsListing m.state_names s.targets × IsReady m u
    unfolding recheck_auto IsListing
    recheck_auto-IsReady m t u r s live known g ready h = elim (Bool-cases t.is_auto) [
      | inr manual ↦ (
        subst (IsListing m.state_names) (ground (arith)) g,
        subst (IsReady m) (ground (arith)) ready,
      )
      | inl auto ↦
          let to_set =
            states_to_set m MutationType.add
              (states_diff t.called (states_diff t.called r.targets)) in
          elim (Option-cases
            (target_states m.disposing (context_of m t.mutation t.states_before) to_set)) [
              | inl bad ↦ absurd (ground (arith))
              | inr (targets, ok) ↦
                  let t' = record t { targets = targets } in
                  let listing =
                    target_states-IsListing m t.mutation t.states_before to_set targets live known
                      ok in
                  let subsets = setup_exit_enter-IsSubset m t' in
                  (
                    subst (IsListing m.state_names) (ground (arith)) listing,
                    subst (IsReady m) {x = setup_exit_enter m t'} (ground (arith)) record {
                      exits_active = subsets.0;
                      enters_known = λ x e. listing.1 x (subsets.1 x e);
                    },
                  )
            ]
    ]

    -- A transition, executed, canceled or recovered after a canceled final handler, automatic or
    -- not, keeps the machine well formed, whatever its handlers answer. The machine is live, no
    -- state has the empty name and the relations name known states.
    pub emit_events-IsWellFormed :
        (has_handlers has_when_args : Bool) (m : Machine) (mut : Mutation) (t : Tx) (o : Outcome)
        → m.disposing ≡ false
        → IsWellFormed m
        → IsKnownSchema m
        → contains m.state_names "" ≡ false
        → new_transition m mut ≡ some t
        → emit_events accepts has_handlers has_when_args m t ≡ some o
        → IsWellFormed o.machine
    unfolding emit_events
    emit_events-IsWellFormed has_handlers has_when_args m mut t o live w known named n h =
        let (r, e) = run_exists accepts has_handlers has_when_args m t o h in
        let (listing, ready) = new_transition-IsReady m mut t live known n in
        let g = run-IsListing has_handlers m t r listing e in
        elim (Bool-cases t.is_check) [
          | inl check ↦ subst IsWellFormed (ground (arith)) w
          | inr real ↦ elim (Option-cases (recheck_auto accepts m t r)) [
            | inl bad ↦ absurd (ground (arith))
            | inr ((u, s), ok) ↦ elim (Bool-cases s.is_canceled) [
              | inl c ↦ subst IsWellFormed (ground (arith)) w
              | inr c ↦
                  let (g', ready') = recheck_auto-IsReady m t u r s live known g ready ok in
                  execute-IsWellFormed has_handlers has_when_args m u s o live w ready' named g' c
                    (ground (arith))
            ]
          ]
        ]
