-- ===== src/Transition/Partial.antt =====
-- transition.go: partial acceptance. Whatever the handlers answer, a negotiation only deletes target
-- states: a property that deletions keep is kept by it.
use asyncmachine_go.Base.{
  ℕ, zero, suc, ◌≡◌, refl, sym, subst, Bool, true, false, List, [], ◌∷◌, String, Option, none, some,
  length, ltb, get_or, if◌then◌else◌, string_eq, arith, Bool-cases, inl, inr, index, delete_at, ℤ,
  pos, negsuc,
}
use asyncmachine_go.Text.{join_text}
use asyncmachine_go.Schema.{States}
use asyncmachine_go.Relations.{is_remove}
use asyncmachine_go.Machine.{Machine}
use asyncmachine_go.Machine.Checks.{is}
use asyncmachine_go.Transition.{Mutation, Tx}
use asyncmachine_go.Transition.Emit.{
  Run, unless_canceled, handle, negotiate, is_partial, emit_exit, emit_enter, emit_self, emit_pair,
  self_from, pairs_from, all_pairs, emit_exit_events, emit_enter_events, emit_self_events,
  emit_state_state_events, delete_target, delete_target_at, delete_found,
}
use asyncmachine_go.Transition.Run.{negotiation, cancel_empty_auto, on_run}
use asyncmachine_go.Transition.Kept.{handle-targets}

module _ {Q : States → Type 0} (deleted : (xs : States) (i : ℕ) → Q xs → Q (delete_at xs i)) where
  -- What a computation gives still satisfies the property.
  HasTargets : Option Run → Type 0
  HasTargets o = (q : Run) → o ≡ some q → Q q.targets

  delete_target_at-HasTargets : (i : ℤ) (r : Run) → Q r.targets → HasTargets (delete_target_at i r)
  unfolding HasTargets
  delete_target_at-HasTargets (negsuc i) r g q h = absurd (ground (arith))
  delete_target_at-HasTargets (pos i) r g q h =
      elim (Bool-cases (ltb i (length r.target_indexes))) [
        | inl fits ↦ subst Q (ground (arith)) (deleted r.targets i g)
        | inr out ↦ absurd (ground (arith))
      ]

  delete_found-HasTargets : (i : ℤ) (r : Run) → Q r.targets → HasTargets (delete_found i r)
  unfolding HasTargets
  delete_found-HasTargets (negsuc i) r g q h = subst Q (ground (arith)) g
  delete_found-HasTargets (pos i) r g q h = delete_target_at-HasTargets (pos i) r g q h

  -- A loop goes on with what a deletion leaves.
  after_deletion :
      (o o' : Option Run) (f : Run → Option Run)
      → HasTargets o
      → ((r : Run) → Q r.targets → HasTargets (f r))
      → o' ≡ elim o [ none ↦ none | some left ↦ f left ]
      → HasTargets o'
  unfolding HasTargets
  after_deletion none o' f g step e q h = absurd (ground (arith))
  after_deletion (some r) o' f g step e q h = step r (g r refl) q (ground (arith))

  module _ (accepts : States → String → Bool) (m : Machine) (mut : Mutation) where
    handle-Q :
        (to name : String) (is_enter : Bool) (r : Run)
        → Q r.targets
        → Q (handle accepts m mut to name is_enter r).targets
    handle-Q to name is_enter r = subst Q (sym (handle-targets accepts m mut to name is_enter r))

    negotiate-HasTargets :
        (emit : String → Run → Run) (states : States) (r : Run)
        → ((x : String) (q : Run) → Q q.targets → Q (emit x q).targets)
        → Q r.targets
        → HasTargets (negotiate accepts m mut emit states r)
    unfolding negotiate HasTargets
    negotiate-HasTargets emit [] r keep g q h = subst Q (ground (arith)) g
    negotiate-HasTargets emit (x ∷ states) r keep g q h = elim (Bool-cases (emit x r).is_canceled) [
      | inr c ↦ negotiate-HasTargets emit states (emit x r) keep (keep x r g) q (ground (arith))
      | inl c ↦ elim (Bool-cases (is_partial accepts m mut x)) [
        | inr whole ↦ subst Q (ground (arith)) (keep x r g)
        | inl partial ↦
            after_deletion (delete_target x (emit x r)) _ (negotiate accepts m mut emit states)
              (delete_target_at-HasTargets (index (emit x r).targets x) (emit x r) (keep x r g))
              (λ left fine. negotiate-HasTargets emit states left keep fine) refl q (ground (arith))
      ]
    ]

    pairs_from-HasTargets :
        (pairs : List (String × String)) (r : Run)
        → Q r.targets
        → HasTargets (pairs_from accepts m mut pairs r)
    unfolding pairs_from HasTargets emit_pair
    pairs_from-HasTargets [] r g q h = subst Q (ground (arith)) g
    pairs_from-HasTargets ((before, after) ∷ pairs) r g q h =
        let next = handle accepts m mut "" (join_text before after) false r in
        let g' = handle-Q "" (join_text before after) false r g in
        elim (Bool-cases next.is_canceled) [
          | inr c ↦ pairs_from-HasTargets pairs next g' q (ground (arith))
          | inl c ↦ elim (Bool-cases (is_partial accepts m mut after)) [
            | inr whole ↦ subst Q (ground (arith)) g'
            | inl partial ↦
                after_deletion (delete_found (index next.targets after) next) _
                  (pairs_from accepts m mut pairs)
                  (delete_found-HasTargets (index next.targets after) next g')
                  (λ left fine. pairs_from-HasTargets pairs left fine) refl q (ground (arith))
          ]
        ]

    self_from-HasTargets :
        (n i : ℕ) (r : Run) → Q r.targets → HasTargets (self_from accepts m mut n i r)
    unfolding self_from HasTargets emit_self
    self_from-HasTargets zero i r g q h = subst Q (ground (arith)) g
    self_from-HasTargets (suc n) i r g q h =
        let x = get_or r.targets i "" in
        let next = handle accepts m mut x (join_text x x) false r in
        let g' = handle-Q x (join_text x x) false r g in
        elim (Bool-cases (is m (x ∷ []))) [
          | inr off ↦ self_from-HasTargets n (suc i) r g q (ground (arith))
          | inl on ↦ elim (Bool-cases next.is_canceled) [
            | inr c ↦ self_from-HasTargets n (suc i) next g' q (ground (arith))
            | inl c ↦ elim (Bool-cases (is_partial accepts m mut x)) [
              | inr whole ↦ subst Q (ground (arith)) g'
              | inl partial ↦
                  after_deletion (delete_target x next) _ (self_from accepts m mut n (suc i))
                    (delete_target_at-HasTargets (index next.targets x) next g')
                    (λ left fine. self_from-HasTargets n (suc i) left fine) refl q (ground (arith))
            ]
          ]
        ]

    unless_canceled-HasTargets :
        (step : Run → Option Run) (o : Option Run)
        → ((r : Run) → Q r.targets → HasTargets (step r))
        → HasTargets o
        → HasTargets (unless_canceled step o)
    unfolding unless_canceled HasTargets
    unless_canceled-HasTargets step none keep before s h = absurd (ground (arith))
    unless_canceled-HasTargets step (some q) keep before s h = elim (Bool-cases q.is_canceled) [
      | inl c ↦ subst Q (ground (arith)) (before q refl)
      | inr c ↦ keep q (before q refl) s (ground (arith))
    ]

    cancel_empty_auto-HasTargets :
        (o : Option Run) → HasTargets o → HasTargets (on_run (cancel_empty_auto mut) o)
    unfolding HasTargets cancel_empty_auto
    cancel_empty_auto-HasTargets none before s h = absurd (ground (arith))
    cancel_empty_auto-HasTargets (some q) before s h = subst Q (ground (arith)) (before q refl)

    if-HasTargets :
        (b : Bool) (o o' : Option Run)
        → HasTargets o
        → HasTargets o'
        → HasTargets (if b then o else o')
    if-HasTargets true o o' h h' = h
    if-HasTargets false o o' h h' = h'

  -- The negotiation of a transition only deletes target states.
  pub negotiation-HasTargets :
      (accepts : States → String → Bool) (m : Machine) (t : Tx) (r s : Run)
      → Q r.targets
      → negotiation accepts m t r ≡ some s
      → Q s.targets
  unfolding negotiation HasTargets emit_exit_events emit_enter_events emit_self_events
      emit_state_state_events emit_exit emit_enter
  negotiation-HasTargets accepts m t r s g h =
      let mut = t.mutation in
      let step = unless_canceled-HasTargets accepts m mut in
      let entered : HasTargets _ =
        step (emit_enter_events accepts m mut t.enters) _
          (λ q.
            negotiate-HasTargets accepts m mut (emit_enter accepts m mut) t.enters q
              (λ x p. handle-Q accepts m mut x (join_text x "Enter") true p))
          (step (emit_exit_events accepts m mut t.exits) (some r)
            (λ q.
              negotiate-HasTargets accepts m mut (emit_exit accepts m mut) t.exits q
                (λ x p. handle-Q accepts m mut "" (join_text x "Exit") false p))
            (λ q e. subst Q (ground (arith)) g)) in
      let selves : HasTargets _ = if-HasTargets accepts m mut (is_remove mut.mut_type) _ _ entered (
        step (emit_self_events accepts m mut) _
          (λ q.
            self_from-HasTargets accepts m mut (length q.targets) 0
              (record q { is_canceled = false }))
          entered) in
      step (λ q. some (handle accepts m mut "Any" "AnyEnter" true q)) _
        (λ q fine p e.
          subst Q (ground (arith)) (handle-Q accepts m mut "Any" "AnyEnter" true q fine))
        (cancel_empty_auto-HasTargets accepts m mut _ (
          step (emit_state_state_events accepts m mut t.states_before) _
            (λ q.
              pairs_from-HasTargets accepts m mut
                (all_pairs accepts m mut t.states_before q.targets) q)
            selves))
        s h
