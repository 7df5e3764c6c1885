-- ===== src/System/Loop.antt =====
-- machine.go: the loop of processQueue is a sequence of steps.
use asyncmachine_go.Base.{
  ℕ, zero, suc, ◌≡◌, subst, Bool, true, false, ◌||◌, List, [], string_eq, arith, Bool-cases,
  Option-cases, inl, inr, is_empty,
}
use asyncmachine_go.Relations.Sorting.{StableSort}
use asyncmachine_go.Queue.{shift}
use asyncmachine_go.System.Defs.{
  System, Env, Answer, Result, process_entry, process_from, process_queue, first_result, canceled,
  queued,
}
use asyncmachine_go.System.Steps.{Step, Reach}

module _ (env : Env) ⦃sorter : StableSort⦄ where
  -- Whatever an answer returns is reached from `s`.
  abbrev pub Reaches : System → Answer → Type 0
  Reaches s a = (s' : System) (r : Result) → a ≡ Answer.returned s' r → Reach env s s'

  pub returned-Reaches :
      (s t : System) (r : Result) → Reach env s t → Reaches s (Answer.returned t r)
  returned-Reaches s t r before s' r' h = subst (Reach env s) (ground (arith)) before

  pub panicked-Reaches : (s : System) → Reaches s Answer.panicked
  panicked-Reaches s s' r h = absurd (ground (arith))

  flagged :
      (s t : System) (p i e : Bool)
      → Reach env s t
      → Reach env s (record t { is_processing = p; in_transition = i; has_err = e })
  flagged s t p i e before = Reach.next before (Step.flag p i e)

  process_from-Reaches :
      (n : ℕ) (s t : System) (results : List Result)
      → Reach env s t
      → Reaches s (process_from env n t results)
  unfolding process_from
  process_from-Reaches zero s t results before = elim (Option-cases (shift t.queue)) [
    | inl none_left ↦ subst (Reaches s) (ground (arith)) (
        returned-Reaches s (record t { is_processing = false; in_transition = false })
          (first_result results) (flagged s t false false t.has_err before))
    | inr (rest, left) ↦ λ s' r h. absurd (ground (arith))
  ]
  process_from-Reaches (suc n) s t results before = elim (Option-cases (shift t.queue)) [
    | inl none_left ↦ subst (Reaches s) (ground (arith)) (
        returned-Reaches s (record t { is_processing = false; in_transition = false })
          (first_result results) (flagged s t false false t.has_err before))
    | inr ((e, q), left) ↦ elim (Bool-cases t.machine.disposing) [
      | inl gone ↦ subst (Reaches s) (ground (arith)) (returned-Reaches s t canceled before)
      | inr live ↦ elim (Option-cases (process_entry env e (record t { queue = q }) results)) [
        | inl bad ↦ subst (Reaches s) (ground (arith)) (panicked-Reaches s)
        | inr ((u, results'), done) ↦ subst (Reaches s) (ground (arith)) (
            process_from-Reaches n s u results'
              (Reach.next before (Step.process e q u results results' left done)))
      ]
    ]
  ]

  pub process_queue-Reaches :
      (fuel : ℕ) (s t : System) → Reach env s t → Reaches s (process_queue env fuel t)
  unfolding process_queue
  process_queue-Reaches fuel s t before =
      elim (Bool-cases (is_empty t.queue.entries || t.machine.disposing)) [
        | inl off ↦ subst (Reaches s) (ground (arith)) (returned-Reaches s t canceled before)
        | inr on ↦ elim (Bool-cases t.is_processing) [
          | inl busy ↦ subst (Reaches s) (ground (arith)) (returned-Reaches s t queued before)
          | inr idle ↦ subst (Reaches s) (ground (arith)) (
              process_from-Reaches fuel s (record t { is_processing = true }) []
                (flagged s t true t.in_transition t.has_err before))
        ]
      ]
