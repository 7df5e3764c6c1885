-- ===== src/System/Methods.antt =====
-- machine.go: PrependMut and the mutation methods Add, Remove, Set, Toggle, CanAdd, CanRemove and
-- AddErrState.
use asyncmachine_go.Base.{
  ℕ, ◌%◌, ◌^◌, Bool, true, false, not, ◌&&◌, ◌||◌, List, [], ◌∷◌, String, none, some, contains,
  if◌then◌else◌, string_eq, length, leb, nat_beq, is_empty,
}
use asyncmachine_go.Schema.{States}
use asyncmachine_go.Relations.{MutationType}
use asyncmachine_go.Relations.Sorting.{StableSort}
use asyncmachine_go.Machine.{Machine}
use asyncmachine_go.Machine.Checks.{is, any}
use asyncmachine_go.Transition.{Mutation, indexes_of}
use asyncmachine_go.Queue.{Entry, queue_mutation}
use asyncmachine_go.System.Defs.{
  System, Env, Answer, executed, canceled, queued, fresh, enqueue_first, process_queue,
}

-- A full queue. Its length is compared as uint16.
abbrev pub is_full : System → Bool
is_full s = leb s.queue_limit (length s.queue.entries % 2 ^ 16)

-- IsErr
abbrev pub is_err : Machine → Bool
is_err m = is m ("Exception" ∷ [])

-- A queue tick takes the place of Queued.
unfoldable pub with_tick : ℕ → Answer → Answer
with_tick tick Answer.panicked = Answer.panicked
with_tick tick Answer.unfinished = Answer.unfinished
with_tick tick (Answer.returned s r) = Answer.returned s (if nat_beq r queued then tick else r)

-- The argument of Any in Remove.
unfoldable pub singles : States → List States
singles [] = []
singles (s ∷ states) = (s ∷ []) ∷ singles states

-- The mutation of CanAdd and CanRemove.
abbrev pub check_of : Machine → MutationType → States → Mutation
check_of m mut_type states = record {
  mut_type = mut_type;
  called = [];
  called_indexes = indexes_of m states;
  is_auto = false;
  is_check = true;
}

module _ (env : Env) ⦃sorter : StableSort⦄ where
  -- PrependMut
  unfoldable pub prepend_mut : ℕ → Entry → System → Answer
  prepend_mut fuel e s =
      if s.machine.disposing
      then Answer.returned s canceled
      else elim (enqueue_first e s) [ none ↦ Answer.panicked | some s' ↦ process_queue env fuel s' ]

  -- What Add, Remove and Set share behind their guards.
  unfoldable pub mutate : ℕ → MutationType → States → ℕ → System → Answer
  mutate fuel mut_type states args s =
      elim (queue_mutation s.machine mut_type states args s.queue) [
        | none ↦ Answer.panicked
        | some (q, tick) ↦
            if nat_beq tick executed
            then Answer.returned (record s { queue = q }) executed
            else with_tick tick (process_queue env fuel (record s { queue = q }))
      ]

  -- Add
  unfoldable pub add : ℕ → States → ℕ → System → Answer
  add fuel states args s =
      if s.machine.disposing || env.backoff
      then Answer.returned s canceled
      else if is_full s && (not (contains states "Exception") || is_err s.machine)
      then Answer.returned s canceled
      else mutate fuel MutationType.add states args s

  -- Remove
  unfoldable pub remove : ℕ → States → ℕ → System → Answer
  remove fuel states args s =
      if s.machine.disposing || env.backoff
      then Answer.returned s canceled
      else if is_full s && (not (contains states "Exception") || not (is_err s.machine))
      then Answer.returned s canceled
      else if is_empty s.queue.entries && s.in_transition && not (any s.machine (singles states))
      then Answer.returned s executed
      else mutate fuel MutationType.remove states args s

  -- Set
  unfoldable pub set : ℕ → States → ℕ → System → Answer
  set fuel states args s =
      if s.machine.disposing || is_full s
      then Answer.returned s canceled
      else mutate fuel MutationType.set states args s

  -- Toggle
  unfoldable pub toggle : ℕ → States → ℕ → System → Answer
  toggle fuel states args s =
      if s.machine.disposing
      then Answer.returned s canceled
      else if is s.machine states
      then remove fuel states args s
      else add fuel states args s

  -- CanAdd
  unfoldable pub can_add : ℕ → States → ℕ → System → Answer
  can_add fuel states args s =
      if s.machine.disposing || env.backoff
      then Answer.returned s canceled
      else prepend_mut fuel (fresh (check_of s.machine MutationType.add states) args) s

  -- CanRemove
  unfoldable pub can_remove : ℕ → States → ℕ → System → Answer
  can_remove fuel states args s =
      if s.machine.disposing || env.backoff
      then Answer.returned s canceled
      else prepend_mut fuel (fresh (check_of s.machine MutationType.remove states) args) s

  -- AddErrState, whose error is `real` if it is neither nil nor context.Canceled; `args` counts the
  -- arguments with those of the error.
  unfoldable pub add_err_state : ℕ → String → Bool → ℕ → System → Answer
  add_err_state fuel state real args s =
      if s.machine.disposing || env.backoff || is_full s || not real
      then Answer.returned s canceled
      else add fuel (state ∷ "Exception" ∷ []) args (record s { has_err = true })
