-- ===== src/Relations/Resolved.antt =====
-- relations.go: the promises of TargetStates.
use asyncmachine_go.Base.{
  ◌≡◌, ◌∙◌, sym, subst, true, false, not, ◌&&◌, String, some, contains, index, string_eq, int_eq,
  arith, Bool-cases, Option-cases, inl, inr, ◌⊎◌, IsDistinct, IsSubset,
}
use asyncmachine_go.Schema.{States, items, state_of}
use asyncmachine_go.Slices.Laws.{contains-slices_filter}
use asyncmachine_go.Names.{must_parse_states}
use asyncmachine_go.Names.Laws.{must_parse_states-same}
use asyncmachine_go.Relations.Defs.{
  Context, MutationType, is_remove, add_states, parse_add, survivors, resolve,
}
use asyncmachine_go.Relations.Sorting.{
  StableSort, sort_states, contains-sort_states, sort_states-IsDistinct,
}
use asyncmachine_go.Relations.Require.{IsRequireClosed, parse_require-IsRequireClosed}
use asyncmachine_go.Relations.Block.{removes}
use asyncmachine_go.Relations.Target.{
  target_states, resolve-IsDistinct, resolve-NoConflict, resolve_origin, resolve_of_IsAddClosed,
}
use asyncmachine_go.Relations.Add.{parse_add-grows}
use asyncmachine_go.Relations.Implied.{
  IsImplied, IsAddClosed, parse_add_of_IsImplied, parse_add_of_IsAddClosed,
}
use asyncmachine_go.Relations.Complete.{HasNoConflict, resolve_complete}

resolve-IsRequireClosed : (c : Context) (parsed : States) → IsRequireClosed c (resolve c parsed)
unfolding resolve
resolve-IsRequireClosed c parsed = parse_require-IsRequireClosed c _

not_added :
    (c : Context) (by name : String)
    → c.mut_type ≡ MutationType.remove
    → contains c.called (index c.names name) ≡ true
    → ¬ (contains (add_states c by) name ≡ true)
unfolding add_states
not_added c by name r called h = ground (
  arith,
  contains-slices_filter (items (state_of c.schema by).add)
      (λ target. not (is_remove c.mut_type && contains c.called (index c.names target))) name,
)

module _ ⦃sorter : StableSort⦄ where
  -- A result comes from a parsed argument, sorted.
  pub target_cases :
      (c : Context) (states_to_set targets : States)
      → target_states false c states_to_set ≡ some targets
      → (parsed : States) × (must_parse_states false c.schema states_to_set ≡ some parsed)
        × (targets ≡ sort_states c (resolve c parsed))
  unfolding target_states
  target_cases c states_to_set targets h =
      elim (Option-cases (must_parse_states false c.schema states_to_set)) [
        | inl bad ↦ absurd (ground (arith, bad))
        | inr (parsed, ok) ↦ (parsed, ok, ground (arith, ok))
      ]

  pub contains-targets :
      (c : Context) (parsed targets : States) (a : String)
      → targets ≡ sort_states c (resolve c parsed)
      → contains targets a ≡ contains (resolve c parsed) a
  contains-targets c parsed targets a e = rw e (contains-sort_states c (resolve c parsed) a)

  -- The states that TargetStates returns are distinct, and with each of them its Require states are
  -- among them.
  pub target_states-IsRequireClosed :
      (c : Context) (states_to_set targets : States)
      → target_states false c states_to_set ≡ some targets
      → IsDistinct targets × IsRequireClosed c targets
  target_states-IsRequireClosed c states_to_set targets h =
      let (parsed, _, e) = target_cases c states_to_set targets h in
      (
        subst IsDistinct (sym e)
            (sort_states-IsDistinct c (resolve c parsed) (resolve-IsDistinct c parsed)),
        λ name req m r. ground (
          arith,
          contains-targets c parsed targets name e,
          contains-targets c parsed targets req e,
          resolve-IsRequireClosed c parsed name req,
        ),
      )

  -- No target state is in the Remove relation of a state that survives the blocking filter.
  pub target_states-NoConflict :
      (c : Context) (states_to_set parsed targets : States) (name by : String)
      → target_states false c states_to_set ≡ some targets
      → must_parse_states false c.schema states_to_set ≡ some parsed
      → contains targets name ≡ true
      → contains (survivors c parsed) by ≡ true
      → removes c by name ≡ false
  target_states-NoConflict c states_to_set parsed targets name by h p m s =
      let (parsed', p', e) = target_cases c states_to_set targets h in
      resolve-NoConflict c parsed name by
        (ground (arith, contains-targets c parsed' targets name e, p, p')) s

  -- A state that is called for removal, and not in the states to set, is not a target state, whatever
  -- the Add relations of other states are.
  pub target_states_of_remove :
      (c : Context) (states_to_set targets : States) (name : String)
      → target_states false c states_to_set ≡ some targets
      → c.mut_type ≡ MutationType.remove
      → contains c.called (index c.names name) ≡ true
      → contains states_to_set name ≡ false
      → contains targets name ≡ false
  target_states_of_remove c states_to_set targets name h r called off =
      let (parsed, p, e) = target_cases c states_to_set targets h in
      elim (Bool-cases (contains targets name)) [
        | inr out ↦ out
        | inl within ↦
            elim (resolve_origin c parsed name
              (sym (contains-targets c parsed targets name e) ∙ within)) [
                | inl given ↦ absurd (
                    ground (
                      arith,
                      (must_parse_states-same c.schema states_to_set parsed p).0 name,
                      given,
                    ))
                | inr (by, implied) ↦ absurd (not_added c by name r called implied)
              ]
      ]

  -- If a list holds the parsed states, is closed under Add (of states that were inactive or are Multi,
  -- less the states called for removal) and under Require, has no state in the Remove relation of
  -- another, and each of its states is a parsed one or directly implied by one, then TargetStates
  -- does not panic and returns exactly the states of the list.
  pub target_states_complete :
      (c : Context) (states_to_set parsed us : States)
      → must_parse_states false c.schema states_to_set ≡ some parsed
      → IsSubset parsed us
      → IsAddClosed c us
      → ((a : String) → contains us a ≡ true → (contains parsed a ≡ true) ⊎ IsImplied c parsed a)
      → IsRequireClosed c us
      → HasNoConflict c us
      → (targets : States) × (target_states false c states_to_set ≡ some targets)
        × IsSubset us targets
        × IsSubset targets us
  unfolding target_states
  target_states_complete c states_to_set parsed us p sub added direct closed safe =
      let targets = sort_states c (resolve c parsed) in
      let whole : IsSubset us (parse_add c parsed) = λ a m. elim (direct a m) [
        | inl given ↦ parse_add-grows c parsed a given
        | inr implied ↦ parse_add_of_IsImplied c parsed a implied
      ] in
      let within = parse_add_of_IsAddClosed c parsed us sub added in
      (
        targets,
        ground (arith, p),
        λ a m.
            contains-sort_states c (resolve c parsed) a
            ∙ resolve_complete c parsed us within whole closed safe a m,
        λ a m.
            resolve_of_IsAddClosed c parsed us sub added a
              (sym (contains-sort_states c (resolve c parsed) a) ∙ m),
      )
