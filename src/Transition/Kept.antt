-- ===== src/Transition/Kept.antt =====
-- transition.go: the handlers of a transition that is not automatic cannot change its target states.
use asyncmachine_go.Base.{
  ℕ, zero, suc, ◌≡◌, ◌∙◌, refl, Bool, true, false, List, [], ◌∷◌, String, Option, none, some,
  length, get_or, if◌then◌else◌, string_eq, arith, Bool-cases, inl, inr,
}
use asyncmachine_go.Text.{join_text}
use asyncmachine_go.Schema.{States}
use asyncmachine_go.Relations.{is_remove}
use asyncmachine_go.Machine.{Machine}
use asyncmachine_go.Machine.Checks.{is}
use asyncmachine_go.Transition.{Mutation, Tx}
use asyncmachine_go.Transition.Emit.{
  Run, unless_canceled, handle, negotiate, is_partial, emit_exit, emit_enter, emit_self, emit_pair,
  emit_final, finals_from, self_from, pairs_from, all_pairs, emit_exit_events, emit_enter_events,
  emit_self_events, emit_state_state_events,
}
use asyncmachine_go.Transition.Run.{negotiation, cancel_empty_auto, on_run}

module _ (accepts : States → String → Bool) (m : Machine) (mut : Mutation) where
  -- An event does not change the target states.
  pub handle-targets :
      (to name : String) (is_enter : Bool) (r : Run)
      → (handle accepts m mut to name is_enter r).targets ≡ r.targets
  unfolding handle
  handle-targets to name is_enter r = ground arith

  pub not_partial : (s : String) → mut.is_auto ≡ false → is_partial accepts m mut s ≡ false
  unfolding is_partial
  not_partial s manual = ground arith

  -- Only a partial acceptance changes them, so they stay as they are unless the mutation is
  -- automatic.
  negotiate-targets :
      (emit : String → Run → Run) (states : States) (r s : Run)
      → ((x : String) (q : Run) → (emit x q).targets ≡ q.targets)
      → mut.is_auto ≡ false
      → negotiate accepts m mut emit states r ≡ some s
      → s.targets ≡ r.targets
  unfolding negotiate
  negotiate-targets emit [] r s keep manual h = ground arith
  negotiate-targets emit (x ∷ states) r s keep manual h = elim (Bool-cases (emit x r).is_canceled) [
    | inl c ↦ ground (arith, keep x r, not_partial x manual)
    | inr c ↦ negotiate-targets emit states (emit x r) s keep manual (ground (arith)) ∙ keep x r
  ]

  pairs_from-targets :
      (pairs : List (String × String)) (r s : Run)
      → mut.is_auto ≡ false
      → pairs_from accepts m mut pairs r ≡ some s
      → s.targets ≡ r.targets
  unfolding pairs_from emit_pair
  pairs_from-targets [] r s manual h = ground arith
  pairs_from-targets ((before, after) ∷ pairs) r s manual h =
      let keep = handle-targets "" (join_text before after) false r in
      elim (Bool-cases (handle accepts m mut "" (join_text before after) false r).is_canceled) [
        | inl c ↦ ground (arith, keep, not_partial after manual)
        | inr c ↦
            pairs_from-targets pairs (handle accepts m mut "" (join_text before after) false r) s
              manual (ground (arith))
            ∙ keep
      ]

  self_from-targets :
      (n i : ℕ) (r s : Run)
      → mut.is_auto ≡ false
      → self_from accepts m mut n i r ≡ some s
      → s.targets ≡ r.targets
  unfolding self_from emit_self
  self_from-targets zero i r s manual h = ground arith
  self_from-targets (suc n) i r s manual h =
      let x = get_or r.targets i "" in
      let keep = handle-targets x (join_text x x) false r in
      elim (Bool-cases (is m (x ∷ []))) [
        | inr off ↦ self_from-targets n (suc i) r s manual (ground (arith))
        | inl on ↦ elim (Bool-cases (handle accepts m mut x (join_text x x) false r).is_canceled) [
          | inl c ↦ ground (arith, keep, not_partial x manual)
          | inr c ↦
              self_from-targets n (suc i) (handle accepts m mut x (join_text x x) false r) s manual
                (ground (arith))
              ∙ keep
        ]
      ]

  pub finals_from-targets :
      (enters finals : States) (r : Run)
      → (finals_from accepts m mut enters finals r).targets ≡ r.targets
  unfolding finals_from emit_final
  finals_from-targets enters [] r = refl
  finals_from-targets enters (s ∷ finals) r =
      let keep = handle-targets s (join_text s "State") true r in
      let keep' = handle-targets "" (join_text s "End") false r in
      let rest = finals_from-targets enters finals (emit_final accepts m mut enters s r) in
      ground (arith, keep, keep', rest)

  -- A step of the negotiation that keeps the target states.
  unfoldable pub Keeps : (Run → Option Run) → Type 0
  Keeps step = (r s : Run) → step r ≡ some s → s.targets ≡ r.targets

  -- Whatever a computation gives has the target states of `r`.
  unfoldable pub IsKept : Run → Option Run → Type 0
  IsKept r o = (q : Run) → o ≡ some q → q.targets ≡ r.targets

  pub unless_canceled-IsKept :
      (step : Run → Option Run) (o : Option Run) (r : Run)
      → Keeps step
      → IsKept r o
      → IsKept r (unless_canceled step o)
  unfolding unless_canceled Keeps IsKept
  unless_canceled-IsKept step none r keep before s h = absurd (ground (arith))
  unless_canceled-IsKept step (some q) r keep before s h = elim (Bool-cases q.is_canceled) [
    | inl c ↦ ground (arith, before q refl)
    | inr c ↦ keep q s (ground (arith)) ∙ before q refl
  ]

  cancel_empty_auto-IsKept :
      (o : Option Run) (r : Run) → IsKept r o → IsKept r (on_run (cancel_empty_auto mut) o)
  unfolding IsKept cancel_empty_auto
  cancel_empty_auto-IsKept none r before s h = absurd (ground (arith))
  cancel_empty_auto-IsKept (some q) r before s h = ground (arith, before q refl)

  pub exit-Keeps :
      (exits : States) → mut.is_auto ≡ false → Keeps (emit_exit_events accepts m mut exits)
  unfolding Keeps emit_exit_events emit_exit
  exit-Keeps exits manual r s h =
      negotiate-targets (emit_exit accepts m mut) exits r s
        (λ x q. handle-targets "" (join_text x "Exit") false q) manual h

  pub enter-Keeps :
      (enters : States) → mut.is_auto ≡ false → Keeps (emit_enter_events accepts m mut enters)
  unfolding Keeps emit_enter_events emit_enter
  enter-Keeps enters manual r s h =
      negotiate-targets (emit_enter accepts m mut) enters r s
        (λ x q. handle-targets x (join_text x "Enter") true q) manual h

  pub self-Keeps : mut.is_auto ≡ false → Keeps (emit_self_events accepts m mut)
  unfolding Keeps emit_self_events
  self-Keeps manual r s h =
      self_from-targets (length r.targets) 0 (record r { is_canceled = false }) s manual h

  pairs-Keeps :
      (before : States) → mut.is_auto ≡ false → Keeps (emit_state_state_events accepts m mut before)
  unfolding Keeps emit_state_state_events
  pairs-Keeps before manual r s h =
      pairs_from-targets (all_pairs accepts m mut before r.targets) r s manual h

  any-Keeps : Keeps (λ s. some (handle accepts m mut "Any" "AnyEnter" true s))
  unfolding Keeps
  any-Keeps r s h = ground (arith, handle-targets "Any" "AnyEnter" true r)

  pub some-IsKept : (r : Run) → IsKept r (some r)
  unfolding IsKept
  some-IsKept r q h = ground (arith)

  pub if-IsKept :
      (b : Bool) (o o' : Option Run) (r : Run)
      → IsKept r o
      → IsKept r o'
      → IsKept r (if b then o else o')
  if-IsKept true o o' r h h' = h
  if-IsKept false o o' r h h' = h'

  -- The handlers of a transition that is not automatic cannot change its target states.
  pub negotiation-IsKept :
      (t : Tx) (r : Run)
      → t.mutation ≡ mut
      → mut.is_auto ≡ false
      → IsKept r (negotiation accepts m t r)
  unfolding negotiation
  negotiation-IsKept t r same manual =
      rw same
        let entered =
            unless_canceled-IsKept (emit_enter_events accepts m mut t.enters) _ r
              (enter-Keeps t.enters manual)
              (unless_canceled-IsKept (emit_exit_events accepts m mut t.exits) (some r) r
                (exit-Keeps t.exits manual) (some-IsKept r)) in
          let selves = if-IsKept (is_remove mut.mut_type) _ _ r entered (
            unless_canceled-IsKept (emit_self_events accepts m mut) _ r (self-Keeps manual)
              entered) in
          unless_canceled-IsKept (λ s. some (handle accepts m mut "Any" "AnyEnter" true s)) _ r
            any-Keeps
            (cancel_empty_auto-IsKept _ r (
              unless_canceled-IsKept (emit_state_state_events accepts m mut t.states_before) _ r
                (pairs-Keeps t.states_before manual) selves))
