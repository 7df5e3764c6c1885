-- ===== src/Transition/Start.antt =====
-- transition.go, newTransition: what its target states and its acceptance promise.
use asyncmachine_go.Base.{
  ◌≡◌, ◌∙◌, refl, sym, subst, true, false, not, ◌&&◌, ◌||◌, [], ◌∷◌, String, some, contains, index,
  string_eq, int_eq, arith, Bool-cases, Option-cases, inl, inr, IsSubset, has_key,
  contains_of_is_empty,
}
use asyncmachine_go.Slices.Laws.{contains-slices_filter}
use asyncmachine_go.Schema.{States, items, state_of}
use asyncmachine_go.Names.Laws.{must_parse_states-has_key}
use asyncmachine_go.Relations.{Context, is_remove, add_states}
use asyncmachine_go.Relations.Sorting.{StableSort, contains-sort_states}
use asyncmachine_go.Relations.Target.{target_states, resolve_origin}
use asyncmachine_go.Relations.Resolved.{target_cases, contains-targets}
use asyncmachine_go.Machine.{Machine, Time, states_diff, predict_time, time_all}
use asyncmachine_go.Machine.Checks.{is}
use asyncmachine_go.Machine.Ticks.{contains-states_diff}
use asyncmachine_go.Transition.{
  Mutation, Tx, states_to_set, context_of, start_tx, settle, setup_accepted, setup_exit_enter,
  new_transition, enters_of,
}

-- The schema and the list of names agree, and no Add relation leaves them.
pub record IsKnownSchema (m : Machine) : Type 0 where
  pub keys_known : (s : String) → has_key s m.schema ≡ true → contains m.state_names s ≡ true
  pub add_known :
      (by s : String)
      → contains (items (state_of m.schema by).add) s ≡ true
      → contains m.state_names s ≡ true

contains-add_states :
    (c : Context) (by s : String)
    → contains (add_states c by) s ≡ true
    → contains (items (state_of c.schema by).add) s ≡ true
unfolding add_states
contains-add_states c by s h = ground (
  arith,
  contains-slices_filter (items (state_of c.schema by).add)
      (λ target. not (is_remove c.mut_type && contains c.called (index c.names target))) s,
)

-- What a transition has when newTransition returns it.
pub record IsStarted ⦃sorter : StableSort⦄ (m : Machine) (mut : Mutation) (t : Tx) : Type 0 where
  pub same_mutation : t.mutation ≡ mut
  pub before : t.states_before ≡ m.active_states
  pub target_states :
      target_states m.disposing
        (context_of m mut m.active_states)
        (states_to_set m mut.mut_type mut.called)
      ≡ some t.targets
  pub predicted : predict_time m mut.is_check mut.called t.targets ≡ some t.time_after
  pub time : t.time_before ≡ time_all m
  pub accepted : t.is_accepted ≡ setup_accepted m mut t.targets
  pub exits_active : IsSubset t.exits m.active_states
  pub enters_targets : IsSubset t.enters t.targets

module _ ⦃sorter : StableSort⦄ where
  pub target_states-IsSubset_names :
      (m : Machine) (mut : Mutation) (before set targets : States)
      → IsKnownSchema m
      → target_states false (context_of m mut before) set ≡ some targets
      → IsSubset targets m.state_names
  target_states-IsSubset_names m mut before set targets k h a within =
      let c = context_of m mut before in
      let (parsed, p, e) = target_cases c set targets h in
      elim (resolve_origin c parsed a (sym (contains-targets c parsed targets a e) ∙ within)) [
        | inl given ↦ k.keys_known a (must_parse_states-has_key c.schema set parsed a p given)
        | inr (name, implied) ↦ k.add_known name a (contains-add_states c name a implied)
      ]

  -- The exits are active states, and the enters target states.
  pub setup_exit_enter-IsSubset :
      (m : Machine) (t : Tx)
      → IsSubset (setup_exit_enter m t).exits m.active_states
        × IsSubset (setup_exit_enter m t).enters t.targets
  unfolding setup_exit_enter enters_of
  setup_exit_enter-IsSubset m t = (
    λ s h. ground (
      arith,
      contains-sort_states (context_of m t.mutation t.states_before)
          (states_diff m.active_states t.targets) s,
      contains-states_diff m.active_states t.targets s,
    ),
    λ s h. ground (
      arith,
      contains-slices_filter t.targets
          (λ x. not (is m (x ∷ [])) || ((state_of m.schema x).multi && contains t.called x)) s,
    ),
  )

  settle_cases :
      (m : Machine) (mut : Mutation) (t : Tx) → IsStarted m mut t → IsStarted m mut (settle m t)
  unfolding setup_exit_enter
  settle_cases m mut t start = elim (Bool-cases t.is_accepted) [
    | inl on ↦ rw on record {
      same_mutation = start.same_mutation;
      before = start.before;
      target_states = start.target_states;
      predicted = start.predicted;
      time = start.time;
      accepted = sym on ∙ start.accepted;
      exits_active = (setup_exit_enter-IsSubset m t).0;
      enters_targets = (setup_exit_enter-IsSubset m t).1;
    }
    | inr off ↦ rw off record {
      same_mutation = start.same_mutation;
      before = start.before;
      target_states = start.target_states;
      predicted = start.predicted;
      time = start.time;
      accepted = sym off ∙ start.accepted;
      exits_active = start.exits_active;
      enters_targets = start.enters_targets;
    }
  ]

  settled-IsStarted :
      (m : Machine) (mut : Mutation) (targets : States) (after : Time)
      → target_states m.disposing
          (context_of m mut m.active_states)
          (states_to_set m mut.mut_type mut.called)
        ≡ some targets
      → predict_time m mut.is_check mut.called targets ≡ some after
      → IsStarted m mut (settle m (start_tx m mut targets after))
  settled-IsStarted m mut targets after h p =
      settle_cases m mut (start_tx m mut targets after) record {
        same_mutation = refl;
        before = refl;
        target_states = h;
        predicted = p;
        time = refl;
        accepted = refl;
        exits_active = λ s h. absurd (unfold contains in ground (arith));
        enters_targets = λ s h. absurd (unfold contains in ground (arith));
      }

  pub new_transition-IsStarted :
      (m : Machine) (mut : Mutation) (t : Tx) → new_transition m mut ≡ some t → IsStarted m mut t
  unfolding new_transition
  new_transition-IsStarted m mut t h =
      elim (Option-cases (
        target_states m.disposing (context_of m mut m.active_states)
          (states_to_set m mut.mut_type mut.called))) [
            | inl bad ↦ absurd (ground (arith, bad))
            | inr (targets, ok) ↦
                elim (Option-cases (predict_time m mut.is_check mut.called targets)) [
                  | inl bad ↦ absurd (ground (arith, ok, bad))
                  | inr (after, fine) ↦
                      subst (IsStarted m mut) (ground (arith, ok, fine))
                        (settled-IsStarted m mut targets after ok fine)
                ]
          ]

-- A transition that is accepted and not automatic has all its called states among its targets.
pub accepted_called :
    (m : Machine) (mut : Mutation) (targets : States) (s : String)
    → setup_accepted m mut targets ≡ true
    → mut.is_auto ≡ false
    → mut.is_check ≡ false
    → is_remove mut.mut_type ≡ false
    → contains mut.called s ≡ true
    → contains targets s ≡ true
unfolding setup_accepted
accepted_called m mut targets s ok manual real kind called = ground (
  arith,
  contains-states_diff mut.called targets s,
  contains_of_is_empty (states_diff mut.called targets) s,
)
