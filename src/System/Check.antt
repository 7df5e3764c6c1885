-- ===== src/System/Check.antt =====
-- machine.go: CanAdd and CanRemove, on a machine whose queue nobody processes.
use asyncmachine_go.Base.{
  ◌∷◌, All-member, All-of_members, IsSubset, string_eq, ℕ, zero, suc, ◌≡◌, ◌∙◌, refl, sym, ap,
  subst, Bool, true, false, ◌||◌, List, [], some, if◌then◌else◌, arith, is_empty, Bool-cases, inl,
  inr,
}
use asyncmachine_go.Schema.{States}
use asyncmachine_go.StateList.{index_to_states}
use asyncmachine_go.Relations.{MutationType}
use asyncmachine_go.Relations.Sorting.{StableSort}
use asyncmachine_go.Transition.{Mutation, indexes_of}
use asyncmachine_go.Transition.Run.{Outcome}
use asyncmachine_go.Transition.Start.{new_transition-IsStarted}
use asyncmachine_go.Transition.Vetoes.{emit_events-is_check}
use asyncmachine_go.Queue.{Entry, Queue, prepend, shift}
use asyncmachine_go.System.Defs.{
  System, Env, Answer, Result, canceled, fresh, prepended, enqueue_first, after_transition,
  run_mutation, append_result, result_of_bool, enqueue_auto, process_entry, process_from,
  process_queue, release, first_result,
}
use asyncmachine_go.System.Methods.{prepend_mut, check_of, can_add, can_remove}
use asyncmachine_go.System.Turns.{run_mutation_cases, enqueue_auto-none}
use asyncmachine_go.System.Drain.{IsDrained}
use asyncmachine_go.System.Sound.{IsSoundSystem, parsed-IsDefined}
use asyncmachine_go.Text.{trim_space}
use asyncmachine_go.StateList.Indexes.{index_to_states-states_to_index}
use asyncmachine_go.Transition.Sound.{IsDefined, must_parse_states-some}
use asyncmachine_go.Transition.Total.{emit_events_total}

-- The call returns with the machine and its queue as they were, and nobody processes the queue.
abbrev pub IsHarmless : System → Answer → Type 0
IsHarmless s a =
    (s' : System) × (r : Result) × (a ≡ Answer.returned s' r)
    × (s'.machine ≡ s.machine)
    × (s'.queue ≡ s.queue)
    × IsDrained s'

-- The states of a sound system are found again under their indexes.
index_to_states_of_defined :
    (s : System) (states : States)
    → IsSoundSystem s
    → IsDefined s.machine.schema states
    → index_to_states s.machine.state_names (indexes_of s.machine states) ≡ some states
unfolding IsDefined indexes_of
index_to_states_of_defined s states w defined =
    let known : IsSubset states s.machine.state_names =
      λ x h. w.sound.known_schema.keys_known x (defined x h) in
    let found = index_to_states-states_to_index s.machine.state_names states known (
      All-of_members (λ name. trim_space name ≡ name) states
        λ x h.
          All-member (λ name. trim_space name ≡ name) s.machine.state_names x w.trimmed
            (known x h)) in
    ground (arith, found, w.live)

module _ (env : Env) ⦃sorter : StableSort⦄
    (quiet : (mut : Mutation) (s : System) (o : Outcome) → env.handled mut s o ≡ s.queue) where
  check_keeps :
      (mut : Mutation) (s s' : System) (ok : Bool)
      → mut.is_check ≡ true
      → run_mutation env mut s ≡ some (s', ok)
      → (s'.machine ≡ s.machine) × (s'.queue ≡ s.queue)
  check_keeps mut s s' ok check h =
      let (t, o, n, e, q) = run_mutation_cases env mut s s' ok h in
      let start = new_transition-IsStarted s.machine mut t n in
      let (same, last) =
        emit_events-is_check (env.answer s.machine mut) env.has_handlers env.has_when_args s.machine
          t o (rw start.same_mutation check) e in
      let after = enqueue_auto-none env o.auto_mutation (after_transition env mut s o) s' last q in
      (
        ap (λ x. x.machine) (sym after) ∙ same,
        ap (λ x. x.queue) (sym after) ∙ elim (Bool-cases env.has_handlers) [
          | inl on ↦ rw on (quiet mut s o)
          | inr off ↦ rw off refl
        ],
      )

  -- A check of states of the schema runs to its end.
  check_runs :
      (mut : Mutation) (s : System)
      → IsSoundSystem s
      → IsDefined s.machine.schema mut.called
      → mut.is_auto ≡ false
      → mut.is_check ≡ true
      → (s' : System) × (ok : Bool) × (run_mutation env mut s ≡ some (s', ok))
  unfolding run_mutation enqueue_auto
  check_runs mut s w defined manual check =
      let answer = env.answer s.machine mut in
      let (t, o, n, e) =
        emit_events_total answer env.has_handlers env.has_when_args s.machine mut w.live w.sound
          defined (inl manual) in
      let start = new_transition-IsStarted s.machine mut t n in
      let (same, last) =
        emit_events-is_check answer env.has_handlers env.has_when_args s.machine t o
          (rw start.same_mutation check) e in
      (after_transition env mut s o, o.result, ground (arith, n, e, last))

  process_from_of_empty :
      (n : ℕ) (s : System) (results : List Result)
      → s.queue.entries ≡ []
      → process_from env n s results ≡ release s results
  unfolding process_from shift
  process_from_of_empty zero s results empty = ground (arith)
  process_from_of_empty (suc n) s results empty = ground (arith)

  shift-prepend : (e : Entry) (q : Queue) → e.queue_tick ≡ 0 → shift (prepend e q) ≡ some (e, q)
  unfolding shift prepend
  shift-prepend e q untimed = rw untimed refl

  release-IsHarmless :
      (s s' : System) (results : List Result)
      → s'.machine ≡ s.machine
      → s'.queue ≡ s.queue
      → s.queue.entries ≡ []
      → IsHarmless s (release s' results)
  unfolding IsDrained
  release-IsHarmless s s' results same kept empty = (
    record s' { is_processing = false; in_transition = false },
    first_result results,
    refl,
    same,
    kept,
    (ap (λ q. q.entries) kept ∙ empty, refl, refl),
  )

  -- A check at the head of a queue that was empty, and that nobody processes.
  queued-IsHarmless :
      (n : ℕ) (e : Entry) (s : System)
      → IsSoundSystem s
      → IsDefined s.machine.schema e.mutation.called
      → IsDrained s
      → e.queue_tick ≡ 0
      → e.mutation.is_auto ≡ false
      → e.mutation.is_check ≡ true
      → ((x : System) (results : List Result)
          → process_entry env e x results ≡ append_result results (run_mutation env e.mutation x))
      → IsHarmless s (process_queue env (suc n) (record s { queue = prepend e s.queue }))
  unfolding IsDrained process_queue process_from
  queued-IsHarmless n e s w defined drained untimed manual check runs =
      let s0 = record s { is_processing = true } in
      let w0 : IsSoundSystem s0 = record {
        sound = w.sound;
        live = w.live;
        trimmed = w.trimmed;
        ordered = w.ordered;
        defined = w.defined;
      } in
      let first = shift-prepend e s.queue untimed in
      let filled : is_empty (prepend e s.queue).entries ≡ false = unfold prepend in refl in
      let (s', ok, ran) = check_runs e.mutation s0 w0 defined manual check in
      let (same, kept) = check_keeps e.mutation s0 s' ok check ran in
      let results = result_of_bool ok ∷ [] in
      let done : process_entry env e s0 [] ≡ some (s', results) = runs s0 [] ∙ rw ran refl in
      let ends = process_from_of_empty n s' results (ap (λ q. q.entries) kept ∙ drained.0) in
      subst (IsHarmless s) (ground (arith, first, filled, done, ends, w.live))
        (release-IsHarmless s s' results same kept drained.0)

  prepended-IsHarmless :
      (n args : ℕ) (mut : Mutation) (states : States) (s : System)
      → IsSoundSystem s
      → IsDefined s.machine.schema states
      → IsDrained s
      → mut.called_indexes ≡ indexes_of s.machine states
      → mut.is_auto ≡ false
      → mut.is_check ≡ true
      → ((parsed : States) (x : System) (results : List Result)
          → process_entry env (prepended (fresh mut args) parsed) x results
            ≡ append_result results (run_mutation env (record mut { called = parsed }) x))
      → IsHarmless s (prepend_mut env (suc n) (fresh mut args) s)
  unfolding prepend_mut enqueue_first indexes_of
  prepended-IsHarmless n args mut states s w defined drained indexed manual check runs =
      let found = index_to_states_of_defined s states w defined in
      let (parsed, p) =
        must_parse_states-some s.machine.disposing s.machine.schema states defined in
      let known = parsed-IsDefined s.machine.disposing s.machine.schema states parsed w.live p in
      subst (IsHarmless s) (ground (arith, found, indexed, p, w.live)) (
        queued-IsHarmless n (prepended (fresh mut args) parsed) s w known drained refl manual check
          (runs parsed))

  guarded-IsHarmless :
      (b : Bool) (s : System) (a : Answer)
      → IsDrained s
      → IsHarmless s a
      → IsHarmless s (if b then Answer.returned s canceled else a)
  guarded-IsHarmless true s a drained h = (s, canceled, refl, refl, refl, drained)
  guarded-IsHarmless false s a drained h = h

  -- On a sound machine whose queue is empty and not being processed, CanAdd and CanRemove of states
  -- of the schema never panic: they return, after at most one turn of the loop, with the machine and
  -- its queue unchanged and no lock held, whatever the handlers answer, if the handlers do not mutate
  -- themselves.
  pub checks_change_nothing :
      (n : ℕ) (states : States) (args : ℕ) (s : System)
      → IsSoundSystem s
      → IsDefined s.machine.schema states
      → IsDrained s
      → IsHarmless s (can_add env (suc n) states args s)
        × IsHarmless s (can_remove env (suc n) states args s)
  unfolding can_add can_remove process_entry
  checks_change_nothing n states args s w defined drained =
      let off = s.machine.disposing || env.backoff in
      let adding = check_of s.machine MutationType.add states in
      let removing = check_of s.machine MutationType.remove states in
      (
        guarded-IsHarmless off s (prepend_mut env (suc n) (fresh adding args) s) drained (
            prepended-IsHarmless n args adding states s w defined drained refl refl refl
              λ parsed x results. refl),
        guarded-IsHarmless off s (prepend_mut env (suc n) (fresh removing args) s) drained (
            prepended-IsHarmless n args removing states s w defined drained refl refl refl
              λ parsed x results. refl),
      )
