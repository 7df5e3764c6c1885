-- ===== src/System/Turns.antt =====
-- machine.go, processQueue: how much an entry of the queue can add to it.
use asyncmachine_go.Base.{
  ℕ, suc, ◌+◌, ◌≤◌, ◌-◌, ◌≡◌, ◌∙◌, refl, sym, ap, Bool, true, List, [], ◌∷◌, Option, none, some,
  if◌then◌else◌, arith, Bool-cases, Option-cases, inl, inr, ◌⊎◌,
}
use asyncmachine_go.StateList.{index_to_states}
use asyncmachine_go.Names.{must_parse_states}
use asyncmachine_go.Relations.{MutationType}
use asyncmachine_go.Relations.Sorting.{StableSort}
use asyncmachine_go.Transition.{Mutation, Tx, new_transition}
use asyncmachine_go.Transition.Run.{Outcome, emit_events}
use asyncmachine_go.Transition.Start.{new_transition-IsStarted}
use asyncmachine_go.Transition.Setup.{SameSetup, emit_events-SameSetup}
use asyncmachine_go.Transition.Auto.{IsFollowUp, emit_events-IsFollowUp}
use asyncmachine_go.Queue.{Entry, prepend}
use asyncmachine_go.System.Defs.{
  System, Env, Result, enqueue_first, enqueue_auto, fresh, prepended, after_transition,
  run_mutation, append_result, process_entry,
}

-- How often the loop can turn: an auto mutation may follow any mutation that is not automatic itself.
unfoldable pub turns : Mutation → ℕ
turns mut = if mut.is_auto then 1 else 2

unfoldable pub weight : List Entry → ℕ
weight [] = 0
weight (e ∷ entries) = turns e.mutation + weight entries

-- The functions of Eval mutations do not mutate and do not dispose, and the handlers of a transition
-- add no turns to the queue.
pub record IsQuiet (env : Env) : Type 0 where
  pub same_queue : (e : Entry) (s : System) → (env.evaluate e s).queue ≡ s.queue
  pub same_life :
      (e : Entry) (s : System) → (env.evaluate e s).machine.disposing ≡ s.machine.disposing
  pub no_more :
      env.has_handlers ≡ true
      → (mut : Mutation) (s : System) (o : Outcome)
      → weight (env.handled mut s o).entries ≤ weight s.queue.entries

enqueue_first-weight :
    (x : Entry) (s s' : System)
    → enqueue_first x s ≡ some s'
    → (weight s'.queue.entries ≡ turns x.mutation + weight s.queue.entries)
      × (s'.machine ≡ s.machine)
unfolding enqueue_first prepend turns
enqueue_first-weight x s s' h =
    elim (Option-cases (index_to_states s.machine.state_names x.mutation.called_indexes)) [
      | inl bad ↦ absurd (ground (arith))
      | inr (names, e) ↦
          elim (Option-cases (must_parse_states s.machine.disposing s.machine.schema names)) [
            | inl bad ↦ absurd (ground (arith))
            | inr (parsed, p) ↦
                let made : record s { queue = prepend (prepended x parsed) s.queue } ≡ s' =
                  ground (arith) in
                (
                  ap (λ x. weight x.queue.entries) (sym made) ∙ unfold weight in refl,
                  ap (λ x. x.machine) (sym made),
                )
          ]
    ]

module _ (env : Env) ⦃sorter : StableSort⦄ where
  pub run_mutation_cases :
      (mut : Mutation) (s s' : System) (ok : Bool)
      → run_mutation env mut s ≡ some (s', ok)
      → (t : Tx) × (o : Outcome) × (new_transition s.machine mut ≡ some t)
        × (emit_events (env.answer s.machine mut) env.has_handlers env.has_when_args s.machine t
            ≡ some o)
        × (enqueue_auto o.auto_mutation (after_transition env mut s o) ≡ some s')
  unfolding run_mutation
  run_mutation_cases mut s s' ok h = elim (Option-cases (new_transition s.machine mut)) [
    | inl bad ↦ absurd (ground (arith))
    | inr (t, n) ↦
        elim (Option-cases
          (emit_events (env.answer s.machine mut) env.has_handlers env.has_when_args s.machine t)) [
            | inl bad ↦ absurd (ground (arith))
            | inr (o, e) ↦
                elim (Option-cases (enqueue_auto o.auto_mutation (after_transition env mut s o))) [
                  | inl bad ↦ absurd (ground (arith))
                  | inr (s'', q) ↦ (t, o, n, e, ground (arith))
                ]
          ]
  ]

  enqueue_auto-weight :
      (next : Option Mutation) (s s' : System)
      → enqueue_auto next s ≡ some s'
      → ((mut : Mutation) → next ≡ some mut → mut.is_auto ≡ true)
      → (weight s'.queue.entries ≤ suc (weight s.queue.entries)) × (s'.machine ≡ s.machine)
  unfolding enqueue_auto
  enqueue_auto-weight none s s' h auto = (ground (arith), ground (arith))
  enqueue_auto-weight (some mut) s s' h auto = elim (Bool-cases s.machine.disposing) [
    | inl gone ↦ (ground (arith), ground (arith))
    | inr live ↦
        let (more, same) = enqueue_first-weight (fresh mut 0) s s' (ground (arith)) in
        (unfold turns in ground (arith, more, auto mut refl), same)
  ]

  pub enqueue_auto-none :
      (next : Option Mutation) (s s' : System)
      → next ≡ none
      → enqueue_auto next s ≡ some s'
      → s ≡ s'
  unfolding enqueue_auto
  enqueue_auto-none none s s' off h = ground arith
  enqueue_auto-none (some mut) s s' off h = absurd (ground (arith))

  after_transition-weight :
      (mut : Mutation) (s : System) (o : Outcome)
      → IsQuiet env
      → weight (after_transition env mut s o).queue.entries ≤ weight s.queue.entries
  after_transition-weight mut s o quiet = elim (Bool-cases env.has_handlers) [
    | inl on ↦ rw on (quiet.no_more on mut s o)
    | inr off ↦ rw off (omega arith)
  ]

  -- A transition adds at most its auto mutation to the queue, and only when it is not automatic.
  run_mutation-weight :
      (mut : Mutation) (s s' : System) (ok : Bool)
      → IsQuiet env
      → run_mutation env mut s ≡ some (s', ok)
      → (suc (weight s'.queue.entries) ≤ turns mut + weight s.queue.entries)
        × (s'.machine.disposing ≡ s.machine.disposing)
  unfolding SameSetup turns
  run_mutation-weight mut s s' ok quiet h =
      let (t, o, n, e, q) = run_mutation_cases mut s s' ok h in
      let start = new_transition-IsStarted s.machine mut t n in
      let answer = env.answer s.machine mut in
      let same = emit_events-SameSetup answer env.has_handlers env.has_when_args s.machine t o e in
      let same' : o.machine.disposing ≡ s.machine.disposing = same.3 in
      let follow : IsFollowUp t.mutation o =
        emit_events-IsFollowUp answer env.has_handlers env.has_when_args s.machine t o e in
      let few = after_transition-weight mut s o quiet in
      elim (follow) [
        | inl off ↦
            let unchanged =
              enqueue_auto-none o.auto_mutation (after_transition env mut s o) s' off q in
            (
              ground (arith, few, ap (λ x. weight x.queue.entries) unchanged),
              ap (λ x. x.machine.disposing) (sym unchanged) ∙ same',
            )
        | inr (manual, next, on, auto) ↦
            let (more, kept) =
              enqueue_auto-weight o.auto_mutation (after_transition env mut s o) s' q
                λ m f. ground (arith, on, f, auto.auto) in
            (
              ground (arith, few, more, manual, start.same_mutation),
              ap (λ m. m.disposing) kept ∙ same',
            )
      ]

  ran_lem :
      (e : Entry) (s s' : System) (results results' : List Result)
      → append_result results (run_mutation env e.mutation s) ≡ some (s', results')
      → (ok : Bool) × (run_mutation env e.mutation s ≡ some (s', ok))
  ran_lem e s s' results results' h = elim (Option-cases (run_mutation env e.mutation s)) [
    | inl bad ↦ absurd (ground (arith))
    | inr ((x, ok), ran) ↦ (ok, ground (arith))
  ]

  -- An entry is expired, a function to evaluate, or a mutation.
  pub process_entry_cases :
      (kind : MutationType) (e : Entry) (s s' : System) (results results' : List Result)
      → e.mutation.mut_type ≡ kind
      → process_entry env e s results ≡ some (s', results')
      → (s ≡ s')
        ⊎ (env.evaluate e s ≡ s')
        ⊎ ((ok : Bool) × (run_mutation env e.mutation s ≡ some (s', ok)))
  unfolding process_entry
  process_entry_cases MutationType.eval e s s' results results' same h =
      elim (Bool-cases (env.expired e)) [
        | inl over ↦ inl (ground (arith))
        | inr valid ↦ inr (inl (ground (arith)))
      ]
  process_entry_cases MutationType.add e s s' results results' same h =
      inr (inr (ran_lem e s s' results results' (ground (arith))))
  process_entry_cases MutationType.remove e s s' results results' same h =
      inr (inr (ran_lem e s s' results results' (ground (arith))))
  process_entry_cases MutationType.set e s s' results results' same h =
      inr (inr (ran_lem e s s' results results' (ground (arith))))

  pub process_entry-weight :
      (e : Entry) (s s' : System) (results results' : List Result)
      → IsQuiet env
      → process_entry env e s results ≡ some (s', results')
      → (weight s'.queue.entries ≤ (turns e.mutation - 1) + weight s.queue.entries)
        × (s'.machine.disposing ≡ s.machine.disposing)
  unfolding turns
  process_entry-weight e s s' results results' quiet h =
      elim (process_entry_cases e.mutation.mut_type e s s' results results' refl h) [
        | inl same ↦ (
          ground (arith, ap (λ x. weight x.queue.entries) same),
          ap (λ x. x.machine.disposing) (sym same),
        )
        | inr (inl same) ↦ (
          ground (
            arith,
            ap (λ x. weight x.queue.entries) same,
            ap (λ x. weight x.entries) (quiet.same_queue e s),
          ),
          ap (λ x. x.machine.disposing) (sym same) ∙ quiet.same_life e s,
        )
        | inr (inr (ok, ran)) ↦
            let (less, live) = run_mutation-weight e.mutation s s' ok quiet ran in
            (ground (arith, less), live)
      ]
