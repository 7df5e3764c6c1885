-- ===== src/System/Defs.antt =====
-- machine.go: the loop of processQueue, and what PrependMut does to the queue.
use asyncmachine_go.Base.{
  ℕ, zero, suc, Bool, true, false, ◌||◌, List, [], ◌∷◌, ◌++◌, String, Option, none, some,
  if◌then◌else◌, string_eq, is_empty,
}
use asyncmachine_go.Schema.{States}
use asyncmachine_go.StateList.{index_to_states}
use asyncmachine_go.Names.{must_parse_states}
use asyncmachine_go.Relations.{MutationType}
use asyncmachine_go.Relations.Sorting.{StableSort}
use asyncmachine_go.Machine.{Machine}
use asyncmachine_go.Transition.{Mutation, new_transition}
use asyncmachine_go.Transition.Run.{Outcome, emit_events}
use asyncmachine_go.Queue.{Entry, Queue, prepend, shift}

-- A machine with its queue, queueProcessing, and whether it has a transition and an error.
pub record System : Type 0 where
  pub machine : Machine
  pub queue : Queue
  pub queue_limit : ℕ
  pub is_processing : Bool
  pub in_transition : Bool
  pub has_err : Bool

-- The code around a machine: what its handlers answer to an event in a transition, given the events
-- of the transition before it; whether there are handlers and WhenArgs subscriptions; whether
-- Backoff is on; the function of an Eval mutation, and whether its context is over; the queue that the
-- handlers of a transition leave, given the system before it and its outcome. They mutate while the
-- queue is processed, so their mutations only change the queue.
pub record Env : Type 0 where
  pub answer : Machine → Mutation → States → String → Bool
  pub has_handlers : Bool
  pub has_when_args : Bool
  pub backoff : Bool
  pub evaluate : Entry → System → System
  pub expired : Entry → Bool
  pub handled : Mutation → System → Outcome → Queue

-- Result: from 2 on it is a queue tick.
abbrev pub Result : Type 0
Result = ℕ

abbrev pub executed : Result
executed = 0

abbrev pub canceled : Result
canceled = 1

abbrev pub queued : Result
queued = 2

-- How a call ends. The loop of processQueue runs on fuel, and is unfinished without it.
pub data Answer : Type 0 where
  panicked : Answer
  unfinished : Answer
  returned : System → Result → Answer

abbrev pub result_of_bool : Bool → Result
result_of_bool true = executed
result_of_bool false = canceled

-- The mutation as PrependMut puts it at the head of the queue, with the arguments and the tick that it
-- has. A panic is none.
abbrev pub prepended : Entry → States → Entry
prepended e parsed = record e { mutation = record e.mutation { called = parsed } }

-- A mutation that was not queued before has no tick.
abbrev pub fresh : Mutation → ℕ → Entry
fresh mut args = record { mutation = mut; args = args; queue_tick = 0 }

unfoldable pub enqueue_first : Entry → System → Option System
enqueue_first e s = elim (index_to_states s.machine.state_names e.mutation.called_indexes) [
  | none ↦ none
  | some names ↦ elim (must_parse_states s.machine.disposing s.machine.schema names) [
    | none ↦ none
    | some parsed ↦ some (record s { queue = prepend (prepended e parsed) s.queue })
  ]
]

-- The auto mutation at the end of emitEvents. While the queue is processed, PrependMut does no more.
unfoldable pub enqueue_auto : Option Mutation → System → Option System
enqueue_auto none s = some s
enqueue_auto (some mut) s = if s.machine.disposing then some s else enqueue_first (fresh mut 0) s

-- The result at the head of `ret`.
abbrev pub first_result : List Result → Result
first_result [] = canceled
first_result (r ∷ results) = r

-- The end of processQueue: the locks are released.
abbrev pub release : System → List Result → Answer
release s results =
    Answer.returned (record s { is_processing = false; in_transition = false })
      (first_result results)

abbrev pub append_result : List Result → Option (System × Bool) → Option (System × List Result)
append_result results none = none
append_result results (some (s, ok)) = some (s, results ++ (result_of_bool ok ∷ []))

module _ (env : Env) where
  -- The system behind a transition, before its auto mutation is queued.
  abbrev pub after_transition : Mutation → System → Outcome → System
  after_transition mut s o = record s {
    machine = o.machine;
    queue = if env.has_handlers then env.handled mut s o else s.queue;
    in_transition = true;
  }

module _ (env : Env) ⦃sorter : StableSort⦄ where
  -- A transition in processQueue.
  unfoldable pub run_mutation : Mutation → System → Option (System × Bool)
  run_mutation mut s = elim (new_transition s.machine mut) [
    | none ↦ none
    | some t ↦
        elim (emit_events (env.answer s.machine mut) env.has_handlers env.has_when_args s.machine
          t) [
            | none ↦ none
            | some o ↦ elim (enqueue_auto o.auto_mutation (after_transition env mut s o)) [
              | none ↦ none
              | some s' ↦ some (s', o.result)
            ]
          ]
  ]

  -- One turn of the loop of processQueue, behind the shift.
  unfoldable pub process_entry : Entry → System → List Result → Option (System × List Result)
  process_entry e s results = elim e.mutation.mut_type [
    | MutationType.eval ↦
        if env.expired e
        then some (s, results ++ (executed ∷ []))
        else some (env.evaluate e s, results)
    | _ ↦ append_result results (run_mutation e.mutation s)
  ]

  -- The loop of processQueue.
  unfoldable pub process_from : ℕ → System → List Result → Answer
  process_from zero s results = elim (shift s.queue) [
    | none ↦ release s results
    | some rest ↦ Answer.unfinished
  ]
  process_from (suc n) s results = elim (shift s.queue) [
    | none ↦ release s results
    | some (e, q) ↦
        if s.machine.disposing
        then Answer.returned s canceled
        else elim (process_entry e (record s { queue = q }) results) [
          | none ↦ Answer.panicked
          | some (s', results') ↦ process_from n s' results'
        ]
  ]

  -- processQueue
  unfoldable pub process_queue : ℕ → System → Answer
  process_queue fuel s =
      if is_empty s.queue.entries || s.machine.disposing
      then Answer.returned s canceled
      else if s.is_processing
      then Answer.returned s queued
      else process_from fuel (record s { is_processing = true }) []
