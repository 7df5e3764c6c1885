-- ===== src/System/Total.antt =====
-- machine.go: without handlers the mutation methods of an idle machine do not panic, and end.
use asyncmachine_go.Base.{
  ℕ, zero, suc, ◌≡◌, ◌≢◌, refl, Bool, true, false, List, [], none, some, string_eq, arith,
  Option-cases, inl, inr, All-member, All-of_members, IsSubset,
}
use asyncmachine_go.Text.{trim_space}
use asyncmachine_go.StateList.{index_to_states}
use asyncmachine_go.StateList.Indexes.{index_to_states-states_to_index}
use asyncmachine_go.Relations.{MutationType}
use asyncmachine_go.Relations.Sorting.{StableSort}
use asyncmachine_go.Transition.{Mutation, indexes_of}
use asyncmachine_go.Transition.Auto.{IsAutoAdd, emit_events-IsFollowUp}
use asyncmachine_go.Transition.Total.{emit_events_total}
use asyncmachine_go.Transition.Sound.{IsDefined, must_parse_states-some}
use asyncmachine_go.Queue.{Entry, shift}
use asyncmachine_go.System.Defs.{
  System, Env, Answer, Result, enqueue_first, enqueue_auto, fresh, after_transition, run_mutation,
  process_entry, process_from, process_queue,
}
use asyncmachine_go.System.Sound.{IsSoundSystem, shift-IsSoundSystem}
use asyncmachine_go.System.Kept.{KeepsSound, process_entry-IsSoundSystem, transition-IsSoundSystem}

-- An auto mutation of a sound system is found again under its indexes.
enqueue_first_of_auto :
    (mut : Mutation) (args : ℕ) (s : System)
    → IsSoundSystem s
    → IsAutoAdd s.machine mut
    → (s' : System) × (enqueue_first (fresh mut args) s ≡ some s')
unfolding enqueue_first IsDefined indexes_of
enqueue_first_of_auto mut args s w auto =
    let known : IsSubset mut.called s.machine.state_names =
      λ x h. w.sound.known_schema.keys_known x (auto.defined x h) in
    let found = index_to_states-states_to_index s.machine.state_names mut.called known (
      All-of_members (λ name. trim_space name ≡ name) mut.called
        λ x h.
          All-member (λ name. trim_space name ≡ name) s.machine.state_names x w.trimmed
            (known x h)) in
    let found' : index_to_states s.machine.state_names mut.called_indexes ≡ some mut.called =
      ground (arith, found, auto.indexes, w.live) in
    let (parsed, p) =
      must_parse_states-some s.machine.disposing s.machine.schema mut.called auto.defined in
    elim (Option-cases (enqueue_first (fresh mut args) s)) [
      | inl bad ↦ absurd (ground (arith, found', p))
      | inr done ↦ done
    ]

module _ (env : Env) ⦃sorter : StableSort⦄ (plain : env.has_handlers ≡ false)
    (keeps : (e : Entry) (s : System) → IsSoundSystem s → IsSoundSystem (env.evaluate e s)) where
  -- Without handlers it is enough that the functions of Eval mutations keep a system sound.
  pub keeps_of_plain : KeepsSound env
  keeps_of_plain = record {
    by_eval = keeps;
    by_handlers = λ on mut s o w. absurd (ground (arith, on, plain));
  }

  run_mutation-some :
      (mut : Mutation) (s : System)
      → IsSoundSystem s
      → IsDefined s.machine.schema mut.called
      → (s' : System) × (ok : Bool) × (run_mutation env mut s ≡ some (s', ok))
  unfolding run_mutation enqueue_auto
  run_mutation-some mut s w defined =
      let answer = env.answer s.machine mut in
      let (t, o, n, e) =
        emit_events_total answer env.has_handlers env.has_when_args s.machine mut w.live w.sound
          defined (inr plain) in
      let after = transition-IsSoundSystem env mut s t o keeps_of_plain w n e in
      elim (emit_events-IsFollowUp answer env.has_handlers env.has_when_args s.machine t o e) [
        | inl off ↦ (after_transition env mut s o, o.result, ground (arith, n, e, off))
        | inr (manual, next, on, auto) ↦
            let (s', made) =
              enqueue_first_of_auto next 0 (after_transition env mut s o) after auto in
            (s', o.result, ground (arith, n, e, on, made, after.live))
      ]

  process_entry-some :
      (kind : MutationType) (e : Entry) (s : System) (results : List Result)
      → e.mutation.mut_type ≡ kind
      → IsSoundSystem s
      → IsDefined s.machine.schema e.mutation.called
      → process_entry env e s results ≢ none
  unfolding process_entry
  process_entry-some MutationType.eval e s results same w defined h = ground arith
  process_entry-some MutationType.add e s results same w defined h =
      let (s', ok, ran) = run_mutation-some e.mutation s w defined in ground (arith, ran)
  process_entry-some MutationType.remove e s results same w defined h =
      let (s', ok, ran) = run_mutation-some e.mutation s w defined in ground (arith, ran)
  process_entry-some MutationType.set e s results same w defined h =
      let (s', ok, ran) = run_mutation-some e.mutation s w defined in ground (arith, ran)

  pub process_from_never_panics :
      (n : ℕ) (s : System) (results : List Result)
      → IsSoundSystem s
      → process_from env n s results ≢ Answer.panicked
  unfolding process_from
  process_from_never_panics zero s results w h = elim (Option-cases (shift s.queue)) [
    | inl none_left ↦ ground (arith)
    | inr (rest, left) ↦ ground (arith)
  ]
  process_from_never_panics (suc n) s results w h = elim (Option-cases (shift s.queue)) [
    | inl none_left ↦ ground (arith)
    | inr ((e, q), left) ↦
        let s0 = record s { queue = q } in
        elim (Option-cases (process_entry env e s0 results)) [
          | inl bad ↦
              let (w0, defined) = shift-IsSoundSystem s e q w left in
              process_entry-some e.mutation.mut_type e s0 results refl w0 defined bad
          | inr ((s', results'), done) ↦
              process_from_never_panics n s' results'
                (process_entry-IsSoundSystem env e q s s' results results' keeps_of_plain w left
                  done)
                (ground (arith, w.live))
        ]
  ]

  pub process_queue_never_panics :
      (fuel : ℕ) (s : System) → IsSoundSystem s → process_queue env fuel s ≢ Answer.panicked
  unfolding process_queue
  process_queue_never_panics fuel s w h =
      process_from_never_panics fuel (record s { is_processing = true }) []
        record {
          sound = w.sound;
          live = w.live;
          trimmed = w.trimmed;
          ordered = w.ordered;
          defined = w.defined;
        }
        (ground (arith))
