-- ===== src/System/Drain.antt =====
-- machine.go, processQueue: the loop ends, and leaves an empty queue.
use asyncmachine_go.Base.{
  ℕ, zero, suc, ◌+◌, ◌≤◌, ◌≡◌, ◌∙◌, refl, subst, true, false, List, [], none, some, arith,
  Bool-cases, Option-cases, inl, inr, ◌⊎◌, is_empty,
}
use asyncmachine_go.Relations.Sorting.{StableSort}
use asyncmachine_go.Queue.{Entry, Queue, shift}
use asyncmachine_go.System.Turns.{turns, weight, IsQuiet, process_entry-weight}
use asyncmachine_go.System.Defs.{
  System, Env, Answer, Result, process_entry, process_from, process_queue, release, first_result,
  canceled,
}

shift-none : (q : Queue) → shift q ≡ none → q.entries ≡ []
unfolding shift
shift-none q h = ground arith

shift-weight :
    (q rest : Queue) (e : Entry)
    → shift q ≡ some (e, rest)
    → weight q.entries ≡ turns e.mutation + weight rest.entries
unfolding shift weight
shift-weight q rest e h = ground arith

-- Behind a loop that has ended, the queue is empty and its lock is released.
unfoldable pub IsDrained : System → Type 0
IsDrained s = (s.queue.entries ≡ []) × (s.is_processing ≡ false) × (s.in_transition ≡ false)

-- A call panics, or it ends with the queue drained.
abbrev pub Ends : Answer → Type 0
Ends a =
    (a ≡ Answer.panicked) ⊎ ((s : System) × (r : Result) × (a ≡ Answer.returned s r) × IsDrained s)

release-Ends :
    (s : System) (results : List Result) → s.queue.entries ≡ [] → Ends (release s results)
unfolding IsDrained
release-Ends s results empty = inr (
  record s { is_processing = false; in_transition = false },
  first_result results,
  refl,
  (empty, refl, refl),
)

module _ (env : Env) ⦃sorter : StableSort⦄ where
  pub process_from-Ends :
      (n : ℕ) (s : System) (results : List Result)
      → IsQuiet env
      → s.machine.disposing ≡ false
      → weight s.queue.entries ≤ n
      → Ends (process_from env n s results)
  unfolding process_from
  process_from-Ends zero s results quiet live enough = elim (Option-cases (shift s.queue)) [
    | inl none_left ↦
        subst Ends (ground (arith)) (release-Ends s results (shift-none s.queue none_left))
    | inr ((e, q), left) ↦ absurd (unfold turns in ground (arith, shift-weight s.queue q e left))
  ]
  process_from-Ends (suc n) s results quiet live enough = elim (Option-cases (shift s.queue)) [
    | inl none_left ↦
        subst Ends (ground (arith)) (release-Ends s results (shift-none s.queue none_left))
    | inr ((e, q), left) ↦
        let s0 = record s { queue = q } in
        elim (Option-cases (process_entry env e s0 results)) [
          | inl bad ↦ inl (ground (arith))
          | inr ((s', results'), done) ↦
              let (less, life) = process_entry-weight env e s0 s' results results' quiet done in
              subst Ends (ground (arith)) (
                process_from-Ends n s' results' quiet (life ∙ live)
                  (unfold turns in ground (arith, less, shift-weight s.queue q e left)))
        ]
  ]

  -- On a live machine whose queue nobody processes, processQueue panics, or it returns with the queue
  -- empty and its lock released, if the functions of Eval mutations neither mutate nor dispose and the
  -- handlers of a transition leave no more work in the queue than they found. It takes at most one
  -- turn for each automatic mutation of the queue and two for each other one.
  pub process_queue_ends :
      (fuel : ℕ) (s : System)
      → IsQuiet env
      → s.machine.disposing ≡ false
      → s.is_processing ≡ false
      → s.in_transition ≡ false
      → weight s.queue.entries ≤ fuel
      → (process_queue env fuel s ≡ Answer.panicked)
        ⊎ ((s' : System) × (r : Result) × (process_queue env fuel s ≡ Answer.returned s' r)
            × IsDrained s')
  unfolding process_queue IsDrained
  process_queue_ends fuel s quiet live idle settled enough =
      elim (Bool-cases (is_empty s.queue.entries)) [
        | inl empty ↦ inr (s, canceled, ground (arith), (ground (arith), idle, settled))
        | inr entries ↦
            subst Ends (ground (arith))
              (process_from-Ends fuel (record s { is_processing = true }) [] quiet live enough)
      ]
