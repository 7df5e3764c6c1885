-- ===== src/Transition/Runs.antt =====
-- transition.go: the negotiation of a transition that is not automatic does not panic.
use asyncmachine_go.Base.{
  ℕ, zero, suc, ◌≡◌, refl, Bool, true, false, ◌&&◌, List, [], ◌∷◌, String, Option, some, length,
  get_or, if◌then◌else◌, string_eq, arith, Bool-cases, is_empty, inl, inr,
}
use asyncmachine_go.Text.{join_text}
use asyncmachine_go.Schema.{States}
use asyncmachine_go.Relations.{is_remove}
use asyncmachine_go.Machine.{Machine}
use asyncmachine_go.Machine.Checks.{is}
use asyncmachine_go.Transition.{Mutation, Tx}
use asyncmachine_go.Transition.Emit.{
  Run, unless_canceled, handle, negotiate, emit_exit, emit_enter, emit_self, emit_pair, self_from,
  pairs_from, all_pairs, emit_exit_events, emit_enter_events, emit_self_events,
  emit_state_state_events,
}
use asyncmachine_go.Transition.Run.{negotiation, cancel_empty_auto, on_run}
use asyncmachine_go.Transition.Kept.{not_partial}

-- A computation that does not panic.
abbrev pub Runs : Option Run → Type 0
Runs o = (q : Run) × (o ≡ some q)

module _ (accepts : States → String → Bool) (m : Machine) (mut : Mutation) where
  negotiate-Runs :
      (emit : String → Run → Run) (states : States) (r : Run)
      → mut.is_auto ≡ false
      → Runs (negotiate accepts m mut emit states r)
  unfolding negotiate
  negotiate-Runs emit [] r manual = (record r { is_canceled = false }, refl)
  negotiate-Runs emit (x ∷ states) r manual = elim (Bool-cases (emit x r).is_canceled) [
    | inl c ↦ (emit x r, ground (arith, not_partial accepts m mut x manual))
    | inr c ↦ let (q, e) = negotiate-Runs emit states (emit x r) manual in (q, ground (arith))
  ]

  self_from-Runs : (n i : ℕ) (r : Run) → mut.is_auto ≡ false → Runs (self_from accepts m mut n i r)
  unfolding self_from emit_self
  self_from-Runs zero i r manual = (r, refl)
  self_from-Runs (suc n) i r manual =
      let x = get_or r.targets i "" in
      let next = handle accepts m mut x (join_text x x) false r in
      elim (Bool-cases (is m (x ∷ []))) [
        | inr off ↦ let (q, e) = self_from-Runs n (suc i) r manual in (q, ground (arith))
        | inl on ↦ elim (Bool-cases next.is_canceled) [
          | inl c ↦ (next, ground (arith, not_partial accepts m mut x manual))
          | inr c ↦ let (q, e) = self_from-Runs n (suc i) next manual in (q, ground (arith))
        ]
      ]

  pairs_from-Runs :
      (pairs : List (String × String)) (r : Run)
      → mut.is_auto ≡ false
      → Runs (pairs_from accepts m mut pairs r)
  unfolding pairs_from emit_pair
  pairs_from-Runs [] r manual = (record r { is_canceled = false }, refl)
  pairs_from-Runs ((before, after) ∷ pairs) r manual =
      let next = handle accepts m mut "" (join_text before after) false r in
      elim (Bool-cases next.is_canceled) [
        | inl c ↦ (next, ground (arith, not_partial accepts m mut after manual))
        | inr c ↦ let (q, e) = pairs_from-Runs pairs next manual in (q, ground (arith))
      ]

  unless_canceled-Runs :
      (step : Run → Option Run) (o : Option Run)
      → ((r : Run) → Runs (step r))
      → Runs o
      → Runs (unless_canceled step o)
  unfolding unless_canceled
  unless_canceled-Runs step o total (q, e) = elim (Bool-cases q.is_canceled) [
    | inl c ↦ (q, rw (e, c) refl)
    | inr c ↦ let (s, f) = total q in (s, ground (arith, e))
  ]

  if_Runs : (b : Bool) (o o' : Option Run) → Runs o → Runs o' → Runs (if b then o else o')
  if_Runs true o o' runs runs' = runs
  if_Runs false o o' runs runs' = runs'

  cancel_empty_auto-Runs : (o : Option Run) → Runs o → Runs (on_run (cancel_empty_auto mut) o)
  unfolding cancel_empty_auto
  cancel_empty_auto-Runs o (q, e) = elim (Bool-cases (mut.is_auto && is_empty q.target_indexes)) [
    | inl c ↦ (record q { is_canceled = true }, rw (e, c) refl)
    | inr c ↦ (q, rw (e, c) refl)
  ]

pub negotiation-Runs :
    (accepts : States → String → Bool) (m : Machine) (t : Tx) (r : Run)
    → t.is_auto ≡ false
    → Runs (negotiation accepts m t r)
unfolding negotiation emit_exit_events emit_enter_events emit_self_events emit_state_state_events
negotiation-Runs accepts m t r manual =
    let mut = t.mutation in
    let exit = emit_exit_events accepts m mut t.exits in
    let enter = emit_enter_events accepts m mut t.enters in
    let self = emit_self_events accepts m mut in
    let pairs = emit_state_state_events accepts m mut t.states_before in
    let exited = unless_canceled exit (some r) in
    let entered = unless_canceled enter exited in
    let selves = if is_remove mut.mut_type then entered else unless_canceled self entered in
    let runs : Runs entered =
      unless_canceled-Runs accepts m mut enter exited
        (λ s. negotiate-Runs accepts m mut (emit_enter accepts m mut) t.enters s manual)
        (unless_canceled-Runs accepts m mut exit (some r)
          (λ s. negotiate-Runs accepts m mut (emit_exit accepts m mut) t.exits s manual)
          (r, refl)) in
    let runs' : Runs selves =
      if_Runs accepts m mut (is_remove mut.mut_type) entered (unless_canceled self entered) runs (
        unless_canceled-Runs accepts m mut self entered
          (λ s.
            self_from-Runs accepts m mut (length s.targets) 0 (record s { is_canceled = false })
              manual)
          runs) in
    let paired : Runs (unless_canceled pairs selves) =
      unless_canceled-Runs accepts m mut pairs selves
        (λ s.
          pairs_from-Runs accepts m mut (all_pairs accepts m mut t.states_before s.targets) s
            manual)
        runs' in
    unless_canceled-Runs accepts m mut (λ s. some (handle accepts m mut "Any" "AnyEnter" true s))
      (on_run (cancel_empty_auto mut) (unless_canceled pairs selves))
      (λ s. (handle accepts m mut "Any" "AnyEnter" true s, refl))
      (cancel_empty_auto-Runs accepts m mut (unless_canceled pairs selves) paired)
