-- ===== src/Tests/Queues.antt =====
-- The theorems on the queue, at small queues.
use asyncmachine_go.Base.{
  ◌+◌, ◌≡◌, refl, [], ◌∷◌, some, arith, if◌then◌else◌, ltb, contains, lookup,
}
use asyncmachine_go.Schema.{States}
use asyncmachine_go.Names.{must_parse_states, all_defined, has_dups}
use asyncmachine_go.Relations.{MutationType}
use asyncmachine_go.Transition.{any_multi}
use asyncmachine_go.Queue.{
  Entry, Queue, push, shift, find_queued, iter_of, is_queued, detect_queue_duplicates,
  queue_mutation, queued_entry, mutation_of,
}
use asyncmachine_go.Queue.Ticks.{IsOrdered, ticks_of, count_up, push-IsOrdered, shift-IsOrdered}
use asyncmachine_go.Queue.Duplicates.{queue_mutation_again}
use asyncmachine_go.Tests.Fixtures.{machine, add_a}

-- The queue of a new machine.
abbrev empty : Queue
empty = record { entries = []; tick = 1; pending = 0 }

abbrev first : Entry
first = record { mutation = add_a; args = 0; queue_tick = 2 }

abbrev one : Queue
one = record empty { entries = first ∷ []; pending = 1 }

one-IsOrdered : IsOrdered one
unfolding ticks_of count_up
one-IsOrdered = record { in_order = refl; room = omega arith }

push-IsOrdered_example : IsOrdered (push add_a 0 one).0 × ((push add_a 0 one).1 ≡ 1 + 1 + 1)
push-IsOrdered_example = push-IsOrdered add_a 0 one one-IsOrdered (omega arith)

abbrev left : Queue
left = record empty { tick = 2 }

shift-IsOrdered_example :
    IsOrdered left × (left.tick ≡ (if ltb 0 first.queue_tick then first.queue_tick else one.tick))
unfolding shift
shift-IsOrdered_example = shift-IsOrdered one left first one-IsOrdered refl

abbrev only_a : States
only_a = "A" ∷ []

abbrev made : Queue
made = record one {
  entries = queued_entry (mutation_of machine MutationType.add only_a) 0 empty ∷ [];
}

queue_mutation_again_example :
    queue_mutation machine MutationType.add only_a 0 made ≡ some (made, 0)
unfolding queue_mutation push must_parse_states all_defined has_dups contains lookup any_multi
    detect_queue_duplicates is_queued iter_of find_queued
queue_mutation_again_example =
    queue_mutation_again machine MutationType.add only_a only_a empty made 2 refl refl refl refl
