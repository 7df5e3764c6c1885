-- ===== src/Tests/Systems.antt =====
-- A small machine with its queue, for the tests.
use asyncmachine_go.Base.{refl, true, false, [], ◌∷◌, contains, lookup, string_eq, arith}
use asyncmachine_go.Text.{trim_space}
use asyncmachine_go.Transition.Sound.{IsDefined, IsSound}
use asyncmachine_go.Queue.{Entry}
use asyncmachine_go.Queue.Ticks.{ticks_of, count_up}
use asyncmachine_go.System.{System, Env}
use asyncmachine_go.System.Turns.{IsQuiet}
use asyncmachine_go.System.Kept.{KeepsSound}
use asyncmachine_go.System.Drain.{IsDrained}
use asyncmachine_go.System.Sound.{IsSoundSystem}
use asyncmachine_go.Tests.Fixtures.{machine, machine-IsWellFormed, machine-IsKnownSchema}

-- An environment without handlers, whose Eval functions do nothing.
abbrev pub env : Env
env = record {
  answer = λ m mut events name. true;
  has_handlers = false;
  has_when_args = false;
  backoff = false;
  evaluate = λ e s. s;
  expired = λ e. false;
  handled = λ mut s o. s.queue;
}

-- The machine of the fixtures, idle.
abbrev pub idle : System
idle = record {
  machine = machine;
  queue = record { entries = []; tick = 1; pending = 0 };
  queue_limit = 1000;
  is_processing = false;
  in_transition = false;
  has_err = false;
}

pub env-IsQuiet : IsQuiet env
env-IsQuiet = record {
  same_queue = λ e s. refl;
  same_life = λ e s. refl;
  no_more = λ on mut s o. omega arith;
}

pub evaluate-IsSoundSystem :
    (e : Entry) (s : System) → IsSoundSystem s → IsSoundSystem (env.evaluate e s)
evaluate-IsSoundSystem e s w = w

pub env-KeepsSound : KeepsSound env
env-KeepsSound = record { by_eval = evaluate-IsSoundSystem; by_handlers = λ on mut s o w. w }

pub machine-IsSound : IsSound machine
unfolding contains lookup IsDefined
machine-IsSound = record {
  well_formed = machine-IsWellFormed;
  known_schema = machine-IsKnownSchema;
  names_defined = λ s h. ground (arith);
  named = refl;
}

pub a-IsDefined : IsDefined machine.schema ("A" ∷ [])
unfolding contains lookup IsDefined
a-IsDefined s h = ground arith

pub idle-IsSoundSystem : IsSoundSystem idle
unfolding ticks_of count_up trim_space
idle-IsSoundSystem = record {
  sound = machine-IsSound;
  live = refl;
  trimmed = (refl, (refl, (refl, (refl, tt))));
  ordered = record { in_order = refl; room = omega arith };
  defined = tt;
}

pub idle-IsDrained : IsDrained idle
unfolding IsDrained
idle-IsDrained = (refl, refl, refl)
