-- ===== src/Transition/Run.antt =====
-- transition.go, emitEvents: a transition from its setup to its result. machine.go,
-- recoverFinalPhase. relations.go, NewAutoMutation.
use asyncmachine_go.Base.{
  Bool, true, false, not, ◌&&◌, ◌||◌, [], ◌∷◌, ◌++◌, String, Option, none, some, contains,
  if◌then◌else◌, string_eq, ◌==◌, length, ltb, is_empty,
}
use asyncmachine_go.Slices.{slices_without}
use asyncmachine_go.Schema.{States, Schema, state_of, items, schema_names}
use asyncmachine_go.Relations.{MutationType, is_remove}
use asyncmachine_go.Relations.Sorting.{StableSort}
use asyncmachine_go.Relations.Target.{target_states}
use asyncmachine_go.Machine.{Machine, states_diff, time_all, set_active_states}
use asyncmachine_go.Machine.Checks.{is, is_not, is_time}
use asyncmachine_go.Transition.Defs.{
  Mutation, Tx, states_to_set, context_of, indexes_of, setup_exit_enter,
}
use asyncmachine_go.Transition.Emit.{
  Run, unless_canceled, handle, emit_exit_events, emit_enter_events, emit_self_events,
  emit_state_state_events, emit_final_events,
}

-- What emitEvents leaves: the machine, its transition, the result (true is Executed) and the auto
-- mutation that is put at the head of the queue.
pub record Outcome : Type 0 where
  pub machine : Machine
  pub tx : Tx
  pub run : Run
  pub result : Bool
  pub auto_mutation : Option Mutation

-- The loop of recoverFinalPhase, with its flag `found`.
unfoldable pub recover_from : Run → Bool → States → States → States
recover_from r found [] active = active
recover_from r found (s ∷ finals) active =
    let now = found || (r.to_state == s) in
    recover_from r now finals (
      if not now
      then active
      else if r.is_enter
      then slices_without active s
      else active ++ (s ∷ []))

-- recoverFinalPhase
unfoldable pub recover_final_phase : Machine → Tx → Run → Machine
recover_final_phase m t r =
    set_active_states m t.called (recover_from r false (t.exits ++ t.enters) m.active_states)

-- isBlocked of NewAutoMutation.
unfoldable pub is_blocked : Schema → States → String → Bool
is_blocked schema [] s = false
is_blocked schema (active ∷ states) s =
    let rest = is_blocked schema states s in
    if contains (items (state_of schema active).remove) s then true else rest

-- The loop of NewAutoMutation, in the order in which the map gives its keys.
unfoldable pub auto_states : Machine → States → States
auto_states m [] = []
auto_states m (s ∷ names) =
    let rest = auto_states m names in
    if not (state_of m.schema s).auto
    then rest
    else if not (is m (s ∷ [])) && not (is_blocked m.schema m.active_states s)
    then s ∷ rest
    else rest

-- NewAutoMutation
unfoldable pub new_auto_mutation : Machine → Option Mutation
new_auto_mutation m =
    let to_add = auto_states m (schema_names m.schema) in
    if is_empty to_add
    then none
    else some record {
      mut_type = MutationType.add;
      called = to_add;
      called_indexes = indexes_of m to_add;
      is_auto = true;
      is_check = false;
    }

-- Transition.IsHealth
unfoldable pub is_health : Mutation → Bool
is_health mut = elim mut.mut_type [
  | MutationType.add ↦ elim mut.called [
    | [] ↦ false
    | s ∷ states ↦ elim states [ [] ↦ s == "Healthcheck" || s == "Heartbeat" | _ ∷ _ ↦ false ]
  ]
  | _ ↦ false
]

-- A transition before its first event.
abbrev pub start_run : Tx → Run
start_run t = record {
  targets = t.targets;
  target_indexes = t.target_indexes;
  events = [];
  to_state = "";
  is_enter = false;
  is_canceled = not t.is_accepted;
}

-- An auto transition without target states is canceled.
unfoldable pub cancel_empty_auto : Mutation → Run → Option Run
cancel_empty_auto mut r =
    if mut.is_auto && is_empty r.target_indexes
    then some (record r { is_canceled = true })
    else some r

abbrev pub on_run : (Run → Option Run) → Option Run → Option Run
on_run f none = none
on_run f (some r) = f r

-- TimeAfter, as soon as the clocks have moved.
abbrev pub timed : Machine → Tx → Tx
timed moved t = record t { time_after = time_all moved }

module _ (accepts : States → String → Bool) where
  -- The negotiation of emitEvents.
  unfoldable pub negotiation : Machine → Tx → Run → Option Run
  negotiation m t r =
      let mut = t.mutation in
      let exited = unless_canceled (emit_exit_events accepts m mut t.exits) (some r) in
      let entered = unless_canceled (emit_enter_events accepts m mut t.enters) exited in
      let selves =
        if is_remove mut.mut_type
        then entered
        else unless_canceled (emit_self_events accepts m mut) entered in
      let paired = unless_canceled (emit_state_state_events accepts m mut t.states_before) selves in
      unless_canceled (λ s. some (handle accepts m mut "Any" "AnyEnter" true s))
        (on_run (cancel_empty_auto mut) paired)

  -- The final handlers of emitEvents, with the recovery when one of them is canceled.
  unfoldable pub final_phase : Bool → Machine → Tx → Run → Machine × Run
  final_phase has_handlers m t r =
      let done = if has_handlers then emit_final_events accepts m t.mutation t r else r in
      (if done.is_canceled then recover_final_phase m t done else m, done)

  -- The recheck of an auto transition, when its handlers may have turned states down.
  unfoldable pub recheck_auto : ⦃sorter : StableSort⦄ → Machine → Tx → Run → Option (Tx × Run)
  recheck_auto m t r =
      let clean = states_diff t.called (states_diff t.called r.targets) in
      if not t.is_auto
      then some (t, r)
      else elim (target_states m.disposing (context_of m t.mutation t.states_before)
          (states_to_set m MutationType.add clean)) [
            | none ↦ none
            | some targets ↦ some (
              setup_exit_enter m (record t { targets = targets }),
              record r { targets = targets; target_indexes = indexes_of m targets },
            )
          ]

  -- The result of a transition.
  unfoldable pub result_of : Machine → Tx → Run → Option Bool
  result_of m t r =
      if r.is_canceled
      then some false
      else if is_remove t.mut_type
      then is_not m t.called
      else if t.is_auto && ltb (length t.states_before) (length r.targets)
      then some true
      else some (not t.is_auto && is m r.targets)

  -- The end of emitEvents, behind the final handlers.
  unfoldable pub finish : Bool → Machine → Machine → Tx → Run → Option Outcome
  finish has_handlers before m t r =
      let s =
        if not r.is_canceled && has_handlers
        then handle accepts m t.mutation "Any" "AnyState" true r
        else r in
      elim (is_time m t.time_before none) [
        | none ↦ none
        | some same ↦ elim (result_of m t s) [
          | none ↦ none
          | some executed ↦ some record {
            machine = m;
            tx = record t {
              targets = s.targets;
              target_indexes = s.target_indexes;
              is_accepted = not s.is_canceled && t.is_accepted;
            };
            run = s;
            result = executed;
            auto_mutation =
                if not s.is_canceled
                  && not m.disposing
                  && not same
                  && not t.is_auto
                  && not (is_health t.mutation)
                then new_auto_mutation m
                else none;
          }
        ]
      ]

  -- A transition that is canceled before its final handlers, or only checked.
  abbrev pub stop : Machine → Tx → Run → Outcome
  stop m t r = record {
    machine = m;
    tx = record t {
      time_after = if t.is_check then t.time_after else time_all m;
      targets = r.targets;
      target_indexes = r.target_indexes;
      is_accepted = not r.is_canceled && t.is_accepted;
    };
    run = r;
    result = not r.is_canceled;
    auto_mutation = none;
  }

  -- The clocks move, then the final handlers run.
  unfoldable pub execute : Bool → Bool → Machine → Tx → Run → Option Outcome
  execute has_handlers has_when_args m t r =
      let moved = set_active_states m t.called r.targets in
      let (last, s) = final_phase (has_handlers || has_when_args) moved t r in
      finish has_handlers m last (timed moved t) s

  -- emitEvents
  unfoldable pub emit_events : ⦃sorter : StableSort⦄ → Bool → Bool → Machine → Tx → Option Outcome
  emit_events has_handlers has_when_args m t =
      elim (if has_handlers then negotiation m t (start_run t) else some (start_run t)) [
        | none ↦ none
        | some r ↦ if t.is_check then some (stop m t r) else elim (recheck_auto m t r) [
          | none ↦ none
          | some (t', r') ↦
              if r'.is_canceled
              then some (stop m t' r')
              else execute has_handlers has_when_args m t' r'
        ]
      ]
