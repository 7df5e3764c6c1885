-- ===== src/System/Steps.antt =====
-- machine.go: what goroutines, handlers and the loop of processQueue do to a system, in any order.
use asyncmachine_go.Base.{ℕ, ◌+◌, ◌<◌, ◌^◌, ◌≡◌, List, some, Bool}
use asyncmachine_go.Schema.{States}
use asyncmachine_go.Relations.{MutationType}
use asyncmachine_go.Relations.Sorting.{StableSort}
use asyncmachine_go.Queue.{Entry, Queue, shift, queue_mutation}
use asyncmachine_go.System.Sound.{
  IsSoundSystem, queue_mutation-IsSoundSystem, enqueue_first-IsSoundSystem,
}
use asyncmachine_go.System.Kept.{KeepsSound, process_entry-IsSoundSystem}
use asyncmachine_go.System.Defs.{System, Env, Result, enqueue_first, process_entry}

-- A mutation is queued (away from the end of uint64), one without a tick is prepended, the loop processes the
-- first entry, or a flag changes.
pub data Step (env : Env) ⦃sorter : StableSort⦄ : System → System → Type 0 where
  queue_up :
      {s : System} (mut_type : MutationType) (states : States) (args : ℕ) (q : Queue) (tick : ℕ)
      → s.queue.tick + s.queue.pending + 2 < 2 ^ 64
      → queue_mutation s.machine mut_type states args s.queue ≡ some (q, tick)
      → Step env s (record s { queue = q })
  queue_first :
      {s : System} (x : Entry) (s' : System)
      → x.queue_tick ≡ 0
      → enqueue_first x s ≡ some s'
      → Step env s s'
  process :
      {s : System} (e : Entry) (q : Queue) (s' : System) (results results' : List Result)
      → shift s.queue ≡ some (e, q)
      → process_entry env e (record s { queue = q }) results ≡ some (s', results')
      → Step env s s'
  flag :
      {s : System} (is_processing in_transition has_err : Bool)
      → Step env s (record s {
        is_processing = is_processing;
        in_transition = in_transition;
        has_err = has_err;
      })

pub data Reach (env : Env) ⦃sorter : StableSort⦄ (s : System) : System → Type 0 where
  here : Reach env s s
  next : {t u : System} → Reach env s t → Step env t u → Reach env s u

pub Reach-trans :
    (env : Env) ⦃sorter : StableSort⦄ {s t u : System}
    → Reach env s t
    → Reach env t u
    → Reach env s u
Reach-trans env r Reach.here = r
Reach-trans env r (Reach.next q st) = Reach.next (Reach-trans env r q) st

module _ (env : Env) ⦃sorter : StableSort⦄ (keeps : KeepsSound env) where
  Step-IsSoundSystem : {s t : System} → Step env s t → IsSoundSystem s → IsSoundSystem t
  Step-IsSoundSystem {s} (queue_up mut_type states args q tick room h) w =
      queue_mutation-IsSoundSystem mut_type states args s q tick w room h
  Step-IsSoundSystem {s} (queue_first x s' untimed h) w =
      enqueue_first-IsSoundSystem x s s' w untimed h
  Step-IsSoundSystem {s} (process e q s' results results' first h) w =
      process_entry-IsSoundSystem env e q s s' results results' keeps w first h
  Step-IsSoundSystem (flag is_processing in_transition has_err) w = record {
    sound = w.sound;
    live = w.live;
    trimmed = w.trimmed;
    ordered = w.ordered;
    defined = w.defined;
  }

  -- From a sound system only sound systems are reached, however queued, prepended and processed
  -- mutations follow each other and whatever the handlers answer: the machine stays well formed and
  -- live, the ticks of the queue in order, and every pending mutation calls states of the schema.
  -- Mutations are queued away from the end of uint64, those that are prepended have no tick, and the
  -- functions of Eval mutations and the mutations of the handlers keep a system sound.
  pub Reach-IsSoundSystem : {s t : System} → IsSoundSystem s → Reach env s t → IsSoundSystem t
  Reach-IsSoundSystem w here = w
  Reach-IsSoundSystem w (next r st) = Step-IsSoundSystem st (Reach-IsSoundSystem w r)
