-- ===== src/Transition/Sound.antt =====
-- transition.go: newTransition does not panic on a sound machine.
use asyncmachine_go.Base.{
  ◌≡◌, refl, subst, Bool, true, false, not, [], ◌∷◌, String, some, contains, string_eq, arith,
  Option-cases, inl, inr, ◌⊎◌, IsSubset, has_key, contains-append, contains_self, contains-tail,
}
use asyncmachine_go.Slices.Laws.{contains-slices_filter}
use asyncmachine_go.Schema.{States, Schema}
use asyncmachine_go.Names.{must_parse_states, all_defined}
use asyncmachine_go.Relations.{MutationType}
use asyncmachine_go.Relations.Sorting.{StableSort, sort_states}
use asyncmachine_go.Relations.{resolve}
use asyncmachine_go.Relations.Target.{target_states}
use asyncmachine_go.Machine.{Machine, Time, set_active_states, time_all, predict_time}
use asyncmachine_go.Machine.Invariant.{IsWellFormed}
use asyncmachine_go.Machine.Predict.{predict_time-set_active_states}
use asyncmachine_go.Transition.{
  Mutation, Tx, new_transition, context_of, states_to_set, settle, start_tx,
}
use asyncmachine_go.Transition.Start.{IsKnownSchema, target_states-IsSubset_names}

-- Every name of a list is a key of the schema.
unfoldable pub IsDefined : Schema → States → Type 0
IsDefined schema states = (s : String) → contains states s ≡ true → has_key s schema ≡ true

all_defined_of_IsDefined :
    (schema : Schema) (states : States) → IsDefined schema states → all_defined schema states ≡ true
unfolding all_defined IsDefined
all_defined_of_IsDefined schema [] h = refl
all_defined_of_IsDefined schema (s ∷ states) h = ground (
  arith,
  h s (contains_self s states),
  all_defined_of_IsDefined schema states (λ a m. h a (contains-tail s a states m)),
)

pub must_parse_states-some :
    (disposing : Bool) (schema : Schema) (states : States)
    → IsDefined schema states
    → (parsed : States) × (must_parse_states disposing schema states ≡ some parsed)
unfolding must_parse_states
must_parse_states-some disposing schema states h =
    elim (Option-cases (must_parse_states disposing schema states)) [
      | inl bad ↦ absurd (ground (arith, all_defined_of_IsDefined schema states h))
      | inr found ↦ found
    ]

states_to_set-origin :
    (m : Machine) (kind : MutationType) (called : States) (s : String)
    → contains (states_to_set m kind called) s ≡ true
    → (contains called s ≡ true) ⊎ (contains m.active_states s ≡ true)
unfolding states_to_set
states_to_set-origin m MutationType.remove called s h =
    ground (arith, contains-slices_filter m.active_states (λ state. not (contains called state)) s)
states_to_set-origin m MutationType.add called s h =
    ground (arith, contains-append called m.active_states s)
states_to_set-origin m MutationType.set called s h = inl h
states_to_set-origin m MutationType.eval called s h = unfold contains in absurd (ground (arith))

-- A machine on which no list of known names panics.
pub record IsSound (m : Machine) : Type 0 where
  pub well_formed : IsWellFormed m
  pub known_schema : IsKnownSchema m
  pub names_defined : IsDefined m.schema m.state_names
  pub named : contains m.state_names "" ≡ false

pub states_to_set-IsDefined :
    (m : Machine) (kind : MutationType) (called : States)
    → IsSound m
    → IsDefined m.schema called
    → IsDefined m.schema (states_to_set m kind called)
unfolding IsDefined
states_to_set-IsDefined m kind called sound defined s h =
    elim (states_to_set-origin m kind called s h) [
      | inl by_call ↦ defined s by_call
      | inr active ↦ sound.names_defined s (sound.well_formed.known s active)
    ]

module _ ⦃sorter : StableSort⦄ where
  pub target_states-some :
      (m : Machine) (mut : Mutation) (before set : States)
      → IsDefined m.schema set
      → (targets : States) × (target_states m.disposing (context_of m mut before) set
          ≡ some targets)
  unfolding target_states
  target_states-some m mut before set defined =
      let c = context_of m mut before in
      let (parsed, p) = must_parse_states-some m.disposing m.schema set defined in
      (sort_states c (resolve c parsed), ground (arith, p))

  predict_time-some :
      (m : Machine) (is_check : Bool) (called targets : States)
      → m.disposing ≡ false
      → IsSound m
      → IsSubset targets m.state_names
      → (after : Time) × (predict_time m is_check called targets ≡ some after)
  predict_time-some m true called targets live sound known =
      (time_all m, unfold predict_time in refl)
  predict_time-some m false called targets live sound known = (
    time_all (set_active_states m called targets),
    predict_time-set_active_states m called targets live sound.well_formed known,
  )

  pub new_transition-some :
      (m : Machine) (mut : Mutation)
      → m.disposing ≡ false
      → IsSound m
      → IsDefined m.schema mut.called
      → (t : Tx) × (new_transition m mut ≡ some t)
  unfolding new_transition
  new_transition-some m mut live sound defined =
      let set = states_to_set m mut.mut_type mut.called in
      let (targets, p) =
        target_states-some m mut m.active_states set
          (states_to_set-IsDefined m mut.mut_type mut.called sound defined) in
      let p' : target_states false (context_of m mut m.active_states) set ≡ some targets =
        subst (λ d. target_states d (context_of m mut m.active_states) set ≡ some targets) live p in
      let (after, e) =
        predict_time-some m mut.is_check mut.called targets live sound
          (target_states-IsSubset_names m mut m.active_states set targets sound.known_schema p') in
      (settle m (start_tx m mut targets after), ground (arith, p, e))
