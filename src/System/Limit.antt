-- ===== src/System/Limit.antt =====
-- machine.go: the queue limit while a queue is processed.
use asyncmachine_go.Base.{
  ℕ, ◌+◌, ◌<◌, ◌≤◌, ◌^◌, ◌≡◌, refl, subst, Bool, true, false, not, ◌&&◌, ◌||◌, [], ◌∷◌, some,
  contains, if◌then◌else◌, string_eq, arith, Bool-cases, Option-cases, inl, inr, ◌⊎◌, nat_beq,
  is_empty, length, length-append,
}
use asyncmachine_go.Schema.{States}
use asyncmachine_go.Names.{must_parse_states}
use asyncmachine_go.Relations.{MutationType}
use asyncmachine_go.Relations.Sorting.{StableSort}
use asyncmachine_go.Machine.Checks.{any}
use asyncmachine_go.Transition.{any_multi}
use asyncmachine_go.Queue.{
  Queue, push, queued_entry, queue_mutation, mutation_of, detect_queue_duplicates,
}
use asyncmachine_go.System.Defs.{System, Env, Answer, Result, process_queue, executed, canceled}
use asyncmachine_go.System.Methods.{with_tick, mutate, add, remove, set, is_full, is_err, singles}

queue_mutation-length :
    (s : System) (mut_type : MutationType) (states : States) (args tick : ℕ) (q : Queue)
    → queue_mutation s.machine mut_type states args s.queue ≡ some (q, tick)
    → length q.entries ≤ length s.queue.entries + 1
unfolding queue_mutation
queue_mutation-length s mut_type states args tick q h =
    elim (Option-cases (must_parse_states s.machine.disposing s.machine.schema states)) [
      | inl bad ↦ absurd (ground (arith))
      | inr (parsed, p) ↦
          let mut = mutation_of s.machine mut_type parsed in
          let old =
            not (any_multi s.machine.schema parsed)
            && nat_beq args 0
            && detect_queue_duplicates s.machine mut_type parsed false s.queue in
          elim (Bool-cases old) [
            | inl duplicate ↦
                let same : s.queue ≡ q = ground (arith) in
                subst (λ x. length x.entries ≤ length s.queue.entries + 1) same (omega arith)
            | inr new ↦
                let same : (push mut args s.queue).0 ≡ q = ground (arith) in
                subst (λ x. length x.entries ≤ length s.queue.entries + 1) same
                  (unfold push in
                    ground
                      (arith, length-append s.queue.entries (queued_entry mut args s.queue ∷ [])))
          ]
    ]

module _ (env : Env) ⦃sorter : StableSort⦄ where
  -- A mutation that is queued while the queue is processed waits there.
  mutate-length :
      (fuel : ℕ) (mut_type : MutationType) (states : States) (args : ℕ) (s s' : System) (r : Result)
      → s.is_processing ≡ true
      → mutate env fuel mut_type states args s ≡ Answer.returned s' r
      → length s'.queue.entries ≤ length s.queue.entries + 1
  unfolding mutate process_queue with_tick
  mutate-length fuel mut_type states args s s' r busy h =
      elim (Option-cases (queue_mutation s.machine mut_type states args s.queue)) [
        | inl bad ↦ absurd (ground (arith))
        | inr ((q, tick), made) ↦
            let same : record s { queue = q } ≡ s' = ground (arith) in
            subst (λ x. length x.queue.entries ≤ length s.queue.entries + 1) same
              (queue_mutation-length s mut_type states args tick q made)
      ]

  -- A guarded mutation stays within the limit.
  guarded-length :
      (fuel : ℕ) (mut_type : MutationType) (states : States) (args : ℕ) (s s' : System) (r : Result)
      → s.is_processing ≡ true
      → is_full s ≡ false
      → length s.queue.entries < 2 ^ 16
      → mutate env fuel mut_type states args s ≡ Answer.returned s' r
      → length s'.queue.entries ≤ s.queue_limit
  guarded-length fuel mut_type states args s s' r busy room short h =
      ground (arith, mutate-length fuel mut_type states args s s' r busy h)

  -- A method without Exception is refused or skipped, or it mutates with room in the queue.
  abbrev IsGuarded : ℕ → MutationType → States → ℕ → System → System → Result → Type 0
  IsGuarded fuel mut_type states args s s' r =
      (s ≡ s')
      ⊎ ((is_full s ≡ false) × (mutate env fuel mut_type states args s ≡ Answer.returned s' r))

  guard_cases :
      (refuse : Bool) (x : Result) (a : Answer) (s s' : System) (r : Result)
      → (if refuse then Answer.returned s x else a) ≡ Answer.returned s' r
      → (s ≡ s') ⊎ ((refuse ≡ false) × (a ≡ Answer.returned s' r))
  guard_cases true x a s s' r h = inl (ground (arith))
  guard_cases false x a s s' r h = inr (refl, h)

  add-IsGuarded :
      (fuel : ℕ) (states : States) (args : ℕ) (s s' : System) (r : Result)
      → contains states "Exception" ≡ false
      → add env fuel states args s ≡ Answer.returned s' r
      → IsGuarded fuel MutationType.add states args s s' r
  unfolding add
  add-IsGuarded fuel states args s s' r plain h =
      let a = mutate env fuel MutationType.add states args s in
      let full = is_full s && (not (contains states "Exception") || is_err s.machine) in
      elim (guard_cases (s.machine.disposing || env.backoff) canceled
        (if full then Answer.returned s canceled else a) s s' r h) [
          | inl same ↦ inl same
          | inr (live, h') ↦ elim (guard_cases full canceled a s s' r h') [
            | inl same ↦ inl same
            | inr (room, done) ↦ inr (ground (arith), done)
          ]
        ]

  remove-IsGuarded :
      (fuel : ℕ) (states : States) (args : ℕ) (s s' : System) (r : Result)
      → contains states "Exception" ≡ false
      → remove env fuel states args s ≡ Answer.returned s' r
      → IsGuarded fuel MutationType.remove states args s s' r
  unfolding remove
  remove-IsGuarded fuel states args s s' r plain h =
      let a = mutate env fuel MutationType.remove states args s in
      let full = is_full s && (not (contains states "Exception") || not (is_err s.machine)) in
      let skip =
        is_empty s.queue.entries && s.in_transition && not (any s.machine (singles states)) in
      let b = if skip then Answer.returned s executed else a in
      elim (guard_cases (s.machine.disposing || env.backoff) canceled
        (if full then Answer.returned s canceled else b) s s' r h) [
          | inl same ↦ inl same
          | inr (live, h') ↦ elim (guard_cases full canceled b s s' r h') [
            | inl same ↦ inl same
            | inr (room, h'') ↦ elim (guard_cases skip executed a s s' r h'') [
              | inl same ↦ inl same
              | inr (on, done) ↦ inr (ground (arith), done)
            ]
          ]
        ]

  set-IsGuarded :
      (fuel : ℕ) (states : States) (args : ℕ) (s s' : System) (r : Result)
      → set env fuel states args s ≡ Answer.returned s' r
      → IsGuarded fuel MutationType.set states args s s' r
  unfolding set
  set-IsGuarded fuel states args s s' r h =
      let a = mutate env fuel MutationType.set states args s in
      elim (guard_cases (s.machine.disposing || is_full s) canceled a s s' r h) [
        | inl same ↦ inl same
        | inr (room, done) ↦ inr (ground (arith), done)
      ]

  IsGuarded-length :
      (fuel : ℕ) (mut_type : MutationType) (states : States) (args : ℕ) (s s' : System) (r : Result)
      → s.is_processing ≡ true
      → length s.queue.entries ≤ s.queue_limit
      → s.queue_limit < 2 ^ 16
      → IsGuarded fuel mut_type states args s s' r
      → length s'.queue.entries ≤ s.queue_limit
  IsGuarded-length fuel mut_type states args s s' r busy fits small (inl same) =
      subst (λ x. length x.queue.entries ≤ s.queue_limit) same fits
  IsGuarded-length fuel mut_type states args s s' r busy fits small (inr (room, h)) =
      guarded-length fuel mut_type states args s s' r busy room (omega arith) h

  -- While the queue is processed, Add, Remove and Set of states without Exception never fill it
  -- beyond the queue limit, which is below 2^16.
  pub queue_stays_limited :
      (fuel : ℕ) (states : States) (args : ℕ) (s s' : System) (r : Result)
      → s.is_processing ≡ true
      → contains states "Exception" ≡ false
      → length s.queue.entries ≤ s.queue_limit
      → s.queue_limit < 2 ^ 16
      → (add env fuel states args s ≡ Answer.returned s' r)
        ⊎ (remove env fuel states args s ≡ Answer.returned s' r)
        ⊎ (set env fuel states args s ≡ Answer.returned s' r)
      → length s'.queue.entries ≤ s.queue_limit
  queue_stays_limited fuel states args s s' r busy plain fits small (inl h) =
      IsGuarded-length fuel MutationType.add states args s s' r busy fits small
        (add-IsGuarded fuel states args s s' r plain h)
  queue_stays_limited fuel states args s s' r busy plain fits small (inr (inl h)) =
      IsGuarded-length fuel MutationType.remove states args s s' r busy fits small
        (remove-IsGuarded fuel states args s s' r plain h)
  queue_stays_limited fuel states args s s' r busy plain fits small (inr (inr h)) =
      IsGuarded-length fuel MutationType.set states args s s' r busy fits small
        (set-IsGuarded fuel states args s s' r h)
