-- ===== src/Queue/WillBe.antt =====
-- machine.go: WillBe and its family, which look for a queued mutation of some states.
use asyncmachine_go.Base.{Bool, true, false, [], ◌∷◌, String, Option, none, some, if◌then◌else◌}
use asyncmachine_go.Schema.{States}
use asyncmachine_go.Relations.{MutationType}
use asyncmachine_go.Machine.{Machine}
use asyncmachine_go.Transition.{indexes_of}
use asyncmachine_go.Queue.{Queue, Query, Position, is_queued}

-- The arguments of IsQueued.
abbrev pub called_query : Machine → MutationType → States → Query
called_query m mut_type states = record {
  query_type = mut_type;
  states = indexes_of m states;
  without_args_only = false;
  strict_equal = false;
  min_tick = 0;
  check = false;
}

-- All cases of the final switch but the first are true. A panic is none.
unfoldable pub is_scheduled : Machine → MutationType → States → Position → Queue → Option Bool
is_scheduled m mut_type states position q =
    elim (is_queued m (called_query m mut_type states) position q) [
      | none ↦ none
      | some found ↦ elim found [ none ↦ some false | some at ↦ some true ]
    ]

-- WillBe
unfoldable pub will_be : Machine → States → Position → Queue → Option Bool
will_be m states position q = is_scheduled m MutationType.add states position q

-- WillBe1
unfoldable pub will_be1 : Machine → String → Position → Queue → Option Bool
will_be1 m state position q = will_be m (state ∷ []) position q

-- WillBeAny
unfoldable pub will_be_any : Machine → States → Queue → Option Bool
will_be_any m [] q = some false
will_be_any m (state ∷ states) q =
    let rest = will_be_any m states q in
    elim (will_be1 m state Position.any_position q) [
      | none ↦ none
      | some found ↦ if found then some true else rest
    ]

-- WillBeRemoved
unfoldable pub will_be_removed : Machine → States → Position → Queue → Option Bool
will_be_removed m states position q = is_scheduled m MutationType.remove states position q

-- WillBeRemoved1
unfoldable pub will_be_removed1 : Machine → String → Position → Queue → Option Bool
will_be_removed1 m state position q = will_be_removed m (state ∷ []) position q
