-- ===== src/System/Calls.antt =====
-- machine.go: a call of a mutation method is a sequence of steps.
use asyncmachine_go.Base.{
  ℕ, ◌+◌, ◌<◌, ◌^◌, ◌≡◌, refl, subst, Bool, true, false, not, ◌&&◌, ◌||◌, [], ◌∷◌, String, contains,
  if◌then◌else◌, string_eq, arith, Bool-cases, Option-cases, inl, inr, nat_beq, is_empty,
}
use asyncmachine_go.Schema.{States}
use asyncmachine_go.Relations.{MutationType}
use asyncmachine_go.Relations.Sorting.{StableSort}
use asyncmachine_go.Machine.Checks.{is, any}
use asyncmachine_go.Queue.{Entry, queue_mutation}
use asyncmachine_go.System.Defs.{
  System, Env, Answer, Result, fresh, enqueue_first, process_queue, executed, canceled,
}
use asyncmachine_go.System.Methods.{
  with_tick, mutate, prepend_mut, check_of, add, remove, set, toggle, can_add, can_remove,
  add_err_state, is_full, is_err, singles,
}
use asyncmachine_go.System.Steps.{Step, Reach, Reach-trans, Reach-IsSoundSystem}
use asyncmachine_go.System.Sound.{IsSoundSystem}
use asyncmachine_go.System.Kept.{KeepsSound}
use asyncmachine_go.System.Loop.{Reaches, returned-Reaches, panicked-Reaches, process_queue-Reaches}

-- A call of a mutation method.
pub data Call : Type 0 where
  add_call remove_call set_call toggle_call can_add_call can_remove_call : States → ℕ → Call
  add_err_call : String → Bool → ℕ → Call

module _ (env : Env) ⦃sorter : StableSort⦄ where
  abbrev pub answer_of : ℕ → Call → System → Answer
  answer_of fuel (Call.add_call states args) s = add env fuel states args s
  answer_of fuel (Call.remove_call states args) s = remove env fuel states args s
  answer_of fuel (Call.set_call states args) s = set env fuel states args s
  answer_of fuel (Call.toggle_call states args) s = toggle env fuel states args s
  answer_of fuel (Call.can_add_call states args) s = can_add env fuel states args s
  answer_of fuel (Call.can_remove_call states args) s = can_remove env fuel states args s
  answer_of fuel (Call.add_err_call state real args) s = add_err_state env fuel state real args s

  with_tick-Reaches :
      (tick : ℕ) (s : System) (a : Answer) → Reaches env s a → Reaches env s (with_tick tick a)
  unfolding with_tick
  with_tick-Reaches tick s Answer.panicked all s' r h = absurd (ground (arith))
  with_tick-Reaches tick s Answer.unfinished all s' r h = absurd (ground (arith))
  with_tick-Reaches tick s (Answer.returned t x) all s' r h =
      subst (Reach env s) (ground (arith)) (all t x refl)

  mutate-Reaches :
      (fuel : ℕ) (mut_type : MutationType) (states : States) (args : ℕ) (s : System)
      → s.queue.tick + s.queue.pending + 2 < 2 ^ 64
      → Reaches env s (mutate env fuel mut_type states args s)
  unfolding mutate
  mutate-Reaches fuel mut_type states args s room =
      elim (Option-cases (queue_mutation s.machine mut_type states args s.queue)) [
        | inl bad ↦ subst (Reaches env s) (ground (arith)) (panicked-Reaches env s)
        | inr ((q, tick), made) ↦
            let t = record s { queue = q } in
            let before : Reach env s t =
              Reach.next Reach.here (Step.queue_up mut_type states args q tick room made) in
            elim (Bool-cases (nat_beq tick executed)) [
              | inl done ↦
                  subst (Reaches env s) (ground (arith)) (returned-Reaches env s t executed before)
              | inr more ↦ subst (Reaches env s) (ground (arith)) (
                  with_tick-Reaches tick s (process_queue env fuel t)
                    (process_queue-Reaches env fuel s t before))
            ]
      ]

  prepend_mut-Reaches :
      (fuel : ℕ) (x : Entry) (s : System)
      → x.queue_tick ≡ 0
      → Reaches env s (prepend_mut env fuel x s)
  unfolding prepend_mut
  prepend_mut-Reaches fuel x s untimed = elim (Bool-cases s.machine.disposing) [
    | inl gone ↦
        subst (Reaches env s) (ground (arith)) (returned-Reaches env s s canceled Reach.here)
    | inr live ↦ elim (Option-cases (enqueue_first x s)) [
      | inl bad ↦ subst (Reaches env s) (ground (arith)) (panicked-Reaches env s)
      | inr (t, made) ↦ subst (Reaches env s) (ground (arith)) (
          process_queue-Reaches env fuel s t
            (Reach.next Reach.here (Step.queue_first x t untimed made)))
    ]
  ]

  -- A guard in front of a call.
  guarded-Reaches :
      (b : Bool) (r : Result) (s : System) (a : Answer)
      → Reaches env s a
      → Reaches env s (if b then Answer.returned s r else a)
  guarded-Reaches true r s a all = returned-Reaches env s s r Reach.here
  guarded-Reaches false r s a all = all

  add-Reaches :
      (fuel : ℕ) (states : States) (args : ℕ) (s : System)
      → s.queue.tick + s.queue.pending + 2 < 2 ^ 64
      → Reaches env s (add env fuel states args s)
  unfolding add
  add-Reaches fuel states args s room =
      let go = mutate-Reaches fuel MutationType.add states args s room in
      let a = mutate env fuel MutationType.add states args s in
      let full = is_full s && (not (contains states "Exception") || is_err s.machine) in
      guarded-Reaches (s.machine.disposing || env.backoff) canceled s
        (if full then Answer.returned s canceled else a) (guarded-Reaches full canceled s a go)

  remove-Reaches :
      (fuel : ℕ) (states : States) (args : ℕ) (s : System)
      → s.queue.tick + s.queue.pending + 2 < 2 ^ 64
      → Reaches env s (remove env fuel states args s)
  unfolding remove
  remove-Reaches fuel states args s room =
      let a = mutate env fuel MutationType.remove states args s in
      let full = is_full s && (not (contains states "Exception") || not (is_err s.machine)) in
      let done =
        is_empty s.queue.entries && s.in_transition && not (any s.machine (singles states)) in
      let b = if done then Answer.returned s executed else a in
      guarded-Reaches (s.machine.disposing || env.backoff) canceled s
        (if full then Answer.returned s canceled else b)
        (guarded-Reaches full canceled s b (
          guarded-Reaches done executed s a
            (mutate-Reaches fuel MutationType.remove states args s room)))

  set-Reaches :
      (fuel : ℕ) (states : States) (args : ℕ) (s : System)
      → s.queue.tick + s.queue.pending + 2 < 2 ^ 64
      → Reaches env s (set env fuel states args s)
  unfolding set
  set-Reaches fuel states args s room =
      guarded-Reaches (s.machine.disposing || is_full s) canceled s
        (mutate env fuel MutationType.set states args s)
        (mutate-Reaches fuel MutationType.set states args s room)

  can_add-Reaches :
      (fuel : ℕ) (states : States) (args : ℕ) (s : System)
      → Reaches env s (can_add env fuel states args s)
  unfolding can_add
  can_add-Reaches fuel states args s =
      let check = fresh (check_of s.machine MutationType.add states) args in
      guarded-Reaches (s.machine.disposing || env.backoff) canceled s (prepend_mut env fuel check s)
        (prepend_mut-Reaches fuel check s refl)

  can_remove-Reaches :
      (fuel : ℕ) (states : States) (args : ℕ) (s : System)
      → Reaches env s (can_remove env fuel states args s)
  unfolding can_remove
  can_remove-Reaches fuel states args s =
      let check = fresh (check_of s.machine MutationType.remove states) args in
      guarded-Reaches (s.machine.disposing || env.backoff) canceled s (prepend_mut env fuel check s)
        (prepend_mut-Reaches fuel check s refl)

  toggle-Reaches :
      (fuel : ℕ) (states : States) (args : ℕ) (s : System)
      → s.queue.tick + s.queue.pending + 2 < 2 ^ 64
      → Reaches env s (toggle env fuel states args s)
  unfolding toggle
  toggle-Reaches fuel states args s room =
      guarded-Reaches s.machine.disposing canceled s
        (if is s.machine states then remove env fuel states args s else add env fuel states args s)
        (elim (Bool-cases (is s.machine states)) [
          | inl on ↦ subst (Reaches env s) (ground (arith)) (remove-Reaches fuel states args s room)
          | inr off ↦ subst (Reaches env s) (ground (arith)) (add-Reaches fuel states args s room)
        ])

  -- A call behind the flag of the error.
  Reaches-flag :
      (s : System) (e : Bool) (a : Answer)
      → Reaches env (record s { has_err = e }) a
      → Reaches env s a
  Reaches-flag s e a all s' r h =
      Reach-trans env (Reach.next Reach.here (Step.flag s.is_processing s.in_transition e))
        (all s' r h)

  add_err_state-Reaches :
      (fuel : ℕ) (state : String) (real : Bool) (args : ℕ) (s : System)
      → s.queue.tick + s.queue.pending + 2 < 2 ^ 64
      → Reaches env s (add_err_state env fuel state real args s)
  unfolding add_err_state
  add_err_state-Reaches fuel state real args s room =
      let t = record s { has_err = true } in
      let a = add env fuel (state ∷ "Exception" ∷ []) args t in
      guarded-Reaches (s.machine.disposing || env.backoff || is_full s || not real) canceled s a
        (Reaches-flag s true a (add-Reaches fuel (state ∷ "Exception" ∷ []) args t room))

  -- Whatever a mutation method returns, its call is a sequence of steps, so that what all steps keep
  -- the call keeps. The queue's ticks are away from the end of uint64.
  answer_of-Reach :
      (fuel : ℕ) (call : Call) (s s' : System) (r : Result)
      → s.queue.tick + s.queue.pending + 2 < 2 ^ 64
      → answer_of fuel call s ≡ Answer.returned s' r
      → Reach env s s'
  answer_of-Reach fuel (Call.add_call states args) s s' r room h =
      add-Reaches fuel states args s room s' r h
  answer_of-Reach fuel (Call.remove_call states args) s s' r room h =
      remove-Reaches fuel states args s room s' r h
  answer_of-Reach fuel (Call.toggle_call states args) s s' r room h =
      toggle-Reaches fuel states args s room s' r h
  answer_of-Reach fuel (Call.add_err_call state real args) s s' r room h =
      add_err_state-Reaches fuel state real args s room s' r h
  answer_of-Reach fuel (Call.set_call states args) s s' r room h =
      set-Reaches fuel states args s room s' r h
  answer_of-Reach fuel (Call.can_add_call states args) s s' r room h =
      can_add-Reaches fuel states args s s' r h
  answer_of-Reach fuel (Call.can_remove_call states args) s s' r room h =
      can_remove-Reaches fuel states args s s' r h

  -- From a sound system Add, Remove, Set, Toggle, CanAdd, CanRemove and AddErrState leave a sound one
  -- whenever they return, on every branch: the machine stays well formed and live, the ticks of the
  -- queue in order, and every pending mutation calls states of the schema. The queue's ticks are
  -- away from the end of uint64, and the functions of Eval mutations and the mutations of the
  -- handlers keep a system sound.
  pub methods_keep_sound :
      (fuel : ℕ) (call : Call) (s s' : System) (r : Result)
      → KeepsSound env
      → IsSoundSystem s
      → s.queue.tick + s.queue.pending + 2 < 2 ^ 64
      → answer_of fuel call s ≡ Answer.returned s' r
      → IsSoundSystem s'
  methods_keep_sound fuel call s s' r keeps w room h =
      Reach-IsSoundSystem env keeps w (answer_of-Reach fuel call s s' r room h)
