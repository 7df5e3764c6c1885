-- ===== src/Queue.antt =====
-- pkg/machine/machine.go: the mutation queue and its ticks. What an operation does under the queue's
-- lock is one step.
pub mod Ticks
pub mod Duplicates
pub mod WillBe
pub mod Scheduled
use asyncmachine_go.Base.{
  ℕ, zero, suc, ◌+◌, ◌-◌, ◌%◌, ◌^◌, Bool, true, false, not, ◌&&◌, ◌||◌, List, [], ◌∷◌, ◌++◌, String,
  Option, none, some, if◌then◌else◌, ℤ, int_eq, length, ltb, leb, nat_beq,
}
use asyncmachine_go.Slices.{slices_every}
use asyncmachine_go.Schema.{States}
use asyncmachine_go.Names.{must_parse_states}
use asyncmachine_go.Relations.{MutationType}
use asyncmachine_go.Machine.{Machine, u64}
use asyncmachine_go.Transition.{Mutation, indexes_of, any_multi}

-- A queued mutation: how many arguments it has, and its QueueTick, 0 if it was never queued at
-- the end.
pub record Entry : Type 0 where
  pub mutation : Mutation
  pub args : ℕ
  pub queue_tick : ℕ

-- The queue, queueTick and queueTicksPending.
pub record Queue : Type 0 where
  pub entries : List Entry
  pub tick : ℕ
  pub pending : ℕ

-- The queue's part of queueMutation: the mutation goes to the end, and its tick is returned.
abbrev pub queued_entry : Mutation → ℕ → Queue → Entry
queued_entry mut args q = record {
  mutation = mut;
  args = args;
  queue_tick = u64 (u64 (q.pending + 1) + q.tick);
}

unfoldable pub push : Mutation → ℕ → Queue → Queue × ℕ
push mut args q = (
  record q { entries = q.entries ++ (queued_entry mut args q ∷ []); pending = u64 (q.pending + 1) },
  (queued_entry mut args q).queue_tick,
)

-- The queue's part of PrependMut.
unfoldable pub prepend : Entry → Queue → Queue
prepend entry q = record q { entries = entry ∷ q.entries }

-- The part of processQueue that shifts the queue. Only a mutation with a tick counts.
unfoldable pub shift : Queue → Option (Entry × Queue)
shift q = elim q.entries [
  | [] ↦ none
  | entry ∷ entries ↦
      if ltb 0 entry.queue_tick
      then some (
        entry,
        record {
          entries = entries;
          tick = u64 (q.tick + 1);
          pending = u64 (q.pending + 2 ^ 64 - 1);
        },
      )
      else some (entry, record q { entries = entries })
]

abbrev pub same_type : MutationType → MutationType → Bool
same_type MutationType.add MutationType.add = true
same_type MutationType.remove MutationType.remove = true
same_type MutationType.set MutationType.set = true
same_type MutationType.eval MutationType.eval = true
same_type _ _ = false

-- What IsQueued and IsQueuedAbove look for: the states by their indexes.
pub record Query : Type 0 where
  pub query_type : MutationType
  pub states : List ℤ
  pub without_args_only : Bool
  pub strict_equal : Bool
  pub min_tick : ℕ
  pub check : Bool

-- The tests of one turn of the loop.
unfoldable pub matches : Query → Entry → Bool
unfolding slices_every
matches query e =
    let called = e.mutation.called_indexes in
    not (ltb 0 query.min_tick && ltb e.queue_tick query.min_tick)
    && (if e.mutation.is_check then query.check else not query.check)
    && same_type e.mutation.mut_type query.query_type
    && ((query.without_args_only && nat_beq e.args 0) || not query.without_args_only)
    && ((query.strict_equal && nat_beq (length called) (length query.states))
        || (not query.strict_equal && leb (length query.states) (length called)))
    && slices_every called query.states

-- The loop of IsQueued, over the entries that its position leaves: the index, as uint16, and the tick found.
unfoldable pub find_queued : Query → ℕ → List Entry → Option (ℕ × ℕ)
find_queued query i [] = none
find_queued query i (e ∷ entries) =
    let rest = find_queued query (suc i) entries in
    if matches query e then some (i % 2 ^ 16, e.queue_tick) else rest

-- The loop of IsQueuedAbove, with its counter.
unfoldable pub count_queued : Query → ℕ → ℕ → List Entry → Bool
count_queued query threshold c [] = false
count_queued query threshold c (e ∷ entries) =
    let next = count_queued query threshold (c + 1) entries in
    let rest = count_queued query threshold c entries in
    if not (matches query e) then rest else if leb threshold (c + 1) then true else next

-- IsQueuedAbove. It does not find checks.
unfoldable pub is_queued_above : ℕ → Query → Queue → Bool
unfolding count_queued
is_queued_above threshold query q =
    count_queued (record query { check = false }) threshold 0 q.entries

-- Position
pub data Position : Type 0 where
  any_position first_position last_position : Position

-- The entries that IsQueued looks at. The first of an empty queue panics.
unfoldable pub iter_of : Position → List Entry → Option (List Entry)
iter_of Position.any_position entries = some entries
iter_of Position.first_position [] = none
iter_of Position.first_position (e ∷ entries) = some (e ∷ [])
iter_of Position.last_position [] = some []
iter_of Position.last_position (e ∷ []) = some (e ∷ [])
iter_of Position.last_position (e ∷ x ∷ entries) = iter_of Position.last_position (x ∷ entries)

-- IsQueued: the index in what it looks at, and the tick.
unfoldable pub is_queued : Machine → Query → Position → Queue → Option (Option (ℕ × ℕ))
is_queued m query position q =
    if m.disposing then some none else elim (iter_of position q.entries) [
      | none ↦ none
      | some entries ↦ some (find_queued query 0 entries)
    ]

-- The query of detectQueueDuplicates.
abbrev pub duplicate_query : Machine → MutationType → States → Bool → Query
duplicate_query m mut_type states is_check = record {
  query_type = mut_type;
  states = indexes_of m states;
  without_args_only = true;
  strict_equal = true;
  min_tick = 0;
  check = is_check;
}

-- detectQueueDuplicates
unfoldable pub detect_queue_duplicates : Machine → MutationType → States → Bool → Queue → Bool
detect_queue_duplicates m mut_type states is_check q =
    if m.disposing
    then false
    else elim (is_queued m (duplicate_query m mut_type states is_check) Position.any_position q) [
      | none ↦ false
      | some found ↦ elim found [ none ↦ false | some at ↦ true ]
    ]

-- The mutation that queueMutation makes.
abbrev pub mutation_of : Machine → MutationType → States → Mutation
mutation_of m mut_type parsed = record {
  mut_type = mut_type;
  called = parsed;
  called_indexes = indexes_of m parsed;
  is_auto = false;
  is_check = false;
}

-- queueMutation, of a mutation with `args` arguments: the queue and the tick, 0 for a duplicate.
unfoldable pub queue_mutation : Machine → MutationType → States → ℕ → Queue → Option (Queue × ℕ)
queue_mutation m mut_type states args q = elim (must_parse_states m.disposing m.schema states) [
  | none ↦ none
  | some parsed ↦
      if not (any_multi m.schema parsed)
        && nat_beq args 0
        && detect_queue_duplicates m mut_type parsed false q
      then some (q, 0)
      else some (push (mutation_of m mut_type parsed) args q)
]
