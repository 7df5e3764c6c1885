-- ===== src/Tests/Calls.antt =====
-- The theorems on a machine with its queue, at a small one.
use asyncmachine_go.Base.{
  ◌≤◌, ◌≡◌, refl, true, false, [], ◌∷◌, some, contains, lookup, string_eq, arith, inl, ◌⊎◌, length,
}
use asyncmachine_go.Names.{must_parse_states, all_defined, has_dups}
use asyncmachine_go.Relations.{MutationType}
use asyncmachine_go.Transition.{Tx, any_multi, new_transition}
use asyncmachine_go.Transition.Run.{Outcome, emit_events}
use asyncmachine_go.Transition.Total.{emit_events_total}
use asyncmachine_go.Queue.{
  Entry, queued_entry, mutation_of, push, queue_mutation, detect_queue_duplicates, is_queued,
  iter_of, find_queued,
}
use asyncmachine_go.System.{
  System, Env, can_add, can_remove, Answer, Result, process_queue, with_tick, mutate, add, remove,
  set, toggle,
}
use asyncmachine_go.System.Turns.{weight, turns}
use asyncmachine_go.System.Drain.{IsDrained, process_queue_ends}
use asyncmachine_go.System.Sound.{IsSoundSystem}
use asyncmachine_go.System.Steps.{Step, Reach, Reach-IsSoundSystem}
use asyncmachine_go.System.Calls.{Call, methods_keep_sound}
use asyncmachine_go.System.Check.{IsHarmless, checks_change_nothing}
use asyncmachine_go.System.Limit.{queue_stays_limited}
use asyncmachine_go.System.Idle.{Settles, methods_return}
use asyncmachine_go.Tests.Fixtures.{machine, add_a, sorter}
use asyncmachine_go.Tests.Transitions.{veto}
use asyncmachine_go.Tests.Systems.{
  env, idle, env-IsQuiet, env-KeepsSound, evaluate-IsSoundSystem, machine-IsSound, a-IsDefined,
  idle-IsSoundSystem, idle-IsDrained,
}

emit_events_total_example :
    (t : Tx) × (o : Outcome) × (new_transition ⦃sorter = sorter⦄ machine add_a ≡ some t)
    × (emit_events veto ⦃sorter = sorter⦄ true false machine t ≡ some o)
emit_events_total_example =
    emit_events_total veto ⦃sorter = sorter⦄ true false machine add_a refl machine-IsSound
      a-IsDefined (inl refl)

-- The system with a pending mutation.
abbrev entry : Entry
entry = queued_entry (mutation_of machine MutationType.add ("A" ∷ [])) 0 idle.queue

abbrev waiting : System
waiting = record idle { queue = record { entries = entry ∷ []; tick = 1; pending = 1 } }

process_queue_ends_example :
    (process_queue env ⦃sorter = sorter⦄ 2 waiting ≡ Answer.panicked)
    ⊎ ((s : System) × (r : Result) × (process_queue env ⦃sorter = sorter⦄ 2 waiting
          ≡ Answer.returned s r)
        × IsDrained s)
unfolding weight turns
process_queue_ends_example =
    process_queue_ends env ⦃sorter = sorter⦄ 2 waiting env-IsQuiet refl refl refl (omega arith)

queued_a : queue_mutation machine MutationType.add ("A" ∷ []) 0 idle.queue ≡ some (waiting.queue, 2)
unfolding queue_mutation push must_parse_states all_defined has_dups contains lookup any_multi
    detect_queue_duplicates is_queued iter_of find_queued
queued_a = refl

waiting-Reach : Reach env ⦃sorter = sorter⦄ idle waiting
waiting-Reach =
    Reach.next Reach.here
      (Step.queue_up MutationType.add ("A" ∷ []) 0 waiting.queue 2 (omega arith) queued_a)

Reach-IsSoundSystem_example : IsSoundSystem waiting
Reach-IsSoundSystem_example =
    Reach-IsSoundSystem env ⦃sorter = sorter⦄ env-KeepsSound idle-IsSoundSystem waiting-Reach

-- The system while a handler runs.
abbrev busy : System
busy = record idle { is_processing = true; in_transition = true }

abbrev busy_waiting : System
busy_waiting = record waiting { is_processing = true; in_transition = true }

add_a_busy : add env ⦃sorter = sorter⦄ 0 ("A" ∷ []) 0 busy ≡ Answer.returned busy_waiting 2
unfolding add mutate process_queue with_tick queue_mutation push must_parse_states all_defined
    has_dups contains lookup any_multi detect_queue_duplicates is_queued iter_of find_queued
add_a_busy = refl

busy-IsSoundSystem : IsSoundSystem busy
busy-IsSoundSystem = record {
  sound = idle-IsSoundSystem.sound;
  live = idle-IsSoundSystem.live;
  trimmed = idle-IsSoundSystem.trimmed;
  ordered = idle-IsSoundSystem.ordered;
  defined = idle-IsSoundSystem.defined;
}

methods_keep_sound_example : IsSoundSystem busy_waiting
methods_keep_sound_example =
    methods_keep_sound env ⦃sorter = sorter⦄ 0 (Call.add_call ("A" ∷ []) 0) busy busy_waiting 2
      env-KeepsSound busy-IsSoundSystem (omega arith) add_a_busy

-- The same machine with handlers that agree.
abbrev handled_env : Env
handled_env = record env { has_handlers = true }

checks_change_nothing_example :
    IsHarmless idle (can_add handled_env ⦃sorter = sorter⦄ 1 ("A" ∷ []) 0 idle)
    × IsHarmless idle (can_remove handled_env ⦃sorter = sorter⦄ 1 ("A" ∷ []) 0 idle)
checks_change_nothing_example =
    checks_change_nothing handled_env ⦃sorter = sorter⦄ (λ mut s o. refl) 0 ("A" ∷ []) 0 idle
      idle-IsSoundSystem a-IsDefined idle-IsDrained

queue_stays_limited_example : length busy_waiting.queue.entries ≤ busy.queue_limit
unfolding contains
queue_stays_limited_example =
    queue_stays_limited env ⦃sorter = sorter⦄ 0 ("A" ∷ []) 0 busy busy_waiting 2 refl refl
      (omega arith) (omega arith) (inl add_a_busy)

abbrev SettlesHere : Answer → Type 0
SettlesHere a = Settles env ⦃sorter = sorter⦄ refl evaluate-IsSoundSystem env-IsQuiet a

methods_return_example :
    SettlesHere (add env ⦃sorter = sorter⦄ 2 ("A" ∷ []) 0 idle)
    × SettlesHere (remove env ⦃sorter = sorter⦄ 2 ("A" ∷ []) 0 idle)
    × SettlesHere (set env ⦃sorter = sorter⦄ 2 ("A" ∷ []) 0 idle)
    × SettlesHere (toggle env ⦃sorter = sorter⦄ 2 ("A" ∷ []) 0 idle)
methods_return_example =
    methods_return env ⦃sorter = sorter⦄ refl evaluate-IsSoundSystem env-IsQuiet 2 ("A" ∷ []) 0 idle
      record {
        sound = idle-IsSoundSystem;
        idle = idle-IsDrained;
        steady = refl;
        limit = omega arith;
        room = omega arith;
      }
      a-IsDefined (omega arith)
