-- ===== src/Transition/Emit.antt =====
-- transition.go: the handlers of a transition. The bound handlers are the parameter `accepts`: what
-- they answer to an event, given the events of the transition before it, latest first.
use asyncmachine_go.Base.{
  ℕ, zero, suc, Bool, true, false, not, ◌&&◌, List, [], ◌∷◌, ◌++◌, String, Option, none, some,
  contains, index, if◌then◌else◌, ℤ, pos, negsuc, string_eq, ◌==◌, length, ltb, delete_at, get_or,
}
use asyncmachine_go.Text.{join_text}
use asyncmachine_go.Schema.{States, state_of}
use asyncmachine_go.Machine.{Machine}
use asyncmachine_go.Machine.Checks.{is}
use asyncmachine_go.Transition.Defs.{Mutation, Tx}

-- What the handlers of a transition change: the target states, the events sent so far, the last
-- step (for the recovery) and the result.
pub record Run : Type 0 where
  pub targets : States
  pub target_indexes : List ℤ
  pub events : States
  pub to_state : String
  pub is_enter : Bool
  pub is_canceled : Bool

-- `slices.Delete` at the index of a target state, on the states and on their indexes. An index out
-- of range panics.
abbrev pub delete_target_at : ℤ → Run → Option Run
delete_target_at (negsuc i) r = none
delete_target_at (pos i) r =
    if ltb i (length r.target_indexes)
    then some (record r {
      targets = delete_at r.targets i;
      target_indexes = delete_at r.target_indexes i;
    })
    else none

abbrev pub delete_target : String → Run → Option Run
delete_target s r = delete_target_at (index r.targets s) r

-- A deletion of emitStateStateEvents: a state that is gone stays gone.
abbrev pub delete_found : ℤ → Run → Option Run
delete_found (negsuc i) r = some r
delete_found (pos i) r = delete_target_at (pos i) r

-- A step is skipped when the result so far is canceled.
unfoldable pub unless_canceled : (Run → Option Run) → Option Run → Option Run
unless_canceled step none = none
unless_canceled step (some r) = if r.is_canceled then some r else step r

module _ (accepts : States → String → Bool) (m : Machine) (mut : Mutation) where
  -- Machine.handle, of an event with `to` as the state of the last step.
  unfoldable pub handle : String → String → Bool → Run → Run
  handle to name is_enter r =
      if m.disposing then record r { to_state = to; is_canceled = true } else record r {
        to_state = to;
        is_enter = is_enter;
        events = name ∷ r.events;
        is_canceled = not (accepts r.events name);
      }

  -- Auto states can be accepted partially.
  unfoldable pub is_partial : String → Bool
  is_partial s = mut.is_auto && (state_of m.schema s).auto

  -- The loop that emitExitEvents and emitEnterEvents share: `emit` sends one event.
  unfoldable pub negotiate : (String → Run → Run) → States → Run → Option Run
  negotiate emit [] r = some (record r { is_canceled = false })
  negotiate emit (s ∷ states) r =
      let next = emit s r in
      elim next.is_canceled [
        | false ↦ negotiate emit states next
        | true ↦ elim (is_partial s) [
          | false ↦ some next
          | true ↦ elim (delete_target s next) [
            | none ↦ none
            | some left ↦ negotiate emit states left
          ]
        ]
      ]

  unfoldable pub emit_exit : String → Run → Run
  emit_exit s r = handle "" (join_text s "Exit") false r

  unfoldable pub emit_enter : String → Run → Run
  emit_enter s r = handle s (join_text s "Enter") true r

  -- emitExitEvents
  unfoldable pub emit_exit_events : States → Run → Option Run
  emit_exit_events exits r = negotiate emit_exit exits r

  -- emitEnterEvents
  unfoldable pub emit_enter_events : States → Run → Option Run
  emit_enter_events enters r = negotiate emit_enter enters r

  unfoldable pub emit_self : String → Run → Run
  emit_self s r = handle s (join_text s s) false r

  -- The loop of emitSelfEvents: a deletion moves the states behind it to the left in the array the
  -- loop is on, and clears its end, so the loop reads position `i` of what is left.
  unfoldable pub self_from : ℕ → ℕ → Run → Option Run
  self_from zero i r = some r
  self_from (suc n) i r =
      let s = get_or r.targets i "" in
      let next = emit_self s r in
      elim (is m (s ∷ [])) [
        | false ↦ self_from n (suc i) r
        | true ↦ elim next.is_canceled [
          | false ↦ self_from n (suc i) next
          | true ↦ elim (is_partial s) [
            | false ↦ some next
            | true ↦ elim (delete_target s next) [
              | none ↦ none
              | some left ↦ self_from n (suc i) left
            ]
          ]
        ]
      ]

  -- emitSelfEvents
  unfoldable pub emit_self_events : Run → Option Run
  emit_self_events r = self_from (length r.targets) 0 (record r { is_canceled = false })

  unfoldable pub emit_pair : String → String → Run → Run
  emit_pair before after r = handle "" (join_text before after) false r

  -- The loops of emitStateStateEvents, on the pairs of a state before and a state after that differ.
  unfoldable pub pairs_from : List (String × String) → Run → Option Run
  pairs_from [] r = some (record r { is_canceled = false })
  pairs_from ((before, after) ∷ pairs) r =
      let next = emit_pair before after r in
      elim next.is_canceled [
        | false ↦ pairs_from pairs next
        | true ↦ elim (is_partial after) [
          | false ↦ some next
          | true ↦ elim (delete_found (index next.targets after) next) [
            | none ↦ none
            | some left ↦ pairs_from pairs left
          ]
        ]
      ]

  unfoldable pub pairs_with : String → States → List (String × String)
  pairs_with before [] = []
  pairs_with before (after ∷ states) =
      let rest = pairs_with before states in
      if before == after then rest else (before, after) ∷ rest

  unfoldable pub all_pairs : States → States → List (String × String)
  all_pairs [] after = []
  all_pairs (s ∷ before) after = pairs_with s after ++ all_pairs before after

  -- emitStateStateEvents
  unfoldable pub emit_state_state_events : States → Run → Option Run
  emit_state_state_events before r = pairs_from (all_pairs before r.targets) r

  -- emitFinalEvents, over the exits and the enters.
  unfoldable pub emit_final : States → String → Run → Run
  emit_final enters s r =
      if contains enters s
      then handle s (join_text s "State") true r
      else handle "" (join_text s "End") false r

  unfoldable pub finals_from : States → States → Run → Run
  finals_from enters [] r = record r { is_canceled = false }
  finals_from enters (s ∷ finals) r =
      let next = emit_final enters s r in
      elim next.is_canceled [ true ↦ next | false ↦ finals_from enters finals next ]

  unfoldable pub emit_final_events : Tx → Run → Run
  emit_final_events t r = finals_from t.enters (t.exits ++ t.enters) r
