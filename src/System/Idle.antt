-- ===== src/System/Idle.antt =====
-- machine.go: the mutation methods of an idle machine without handlers.
use asyncmachine_go.Base.{
  ℕ, ◌+◌, ◌≤◌, ◌<◌, ◌^◌, ◌≡◌, refl, subst, Bool, false, [], some, if◌then◌else◌, string_eq, arith,
  Bool-cases, inl, inr, nat_beq, length,
}
use asyncmachine_go.Schema.{States}
use asyncmachine_go.Relations.{MutationType}
use asyncmachine_go.Relations.Sorting.{StableSort}
use asyncmachine_go.Machine.{Machine}
use asyncmachine_go.Machine.Checks.{is}
use asyncmachine_go.Transition.{Mutation}
use asyncmachine_go.Transition.Sound.{IsDefined, must_parse_states-some}
use asyncmachine_go.Queue.{
  Entry, Queue, push, queue_mutation, mutation_of, detect_queue_duplicates, is_queued, iter_of,
  find_queued,
}
use asyncmachine_go.Queue.Ticks.{push-IsOrdered}
use asyncmachine_go.System.Defs.{System, Env, Answer, Result, process_queue, queued}
use asyncmachine_go.System.Methods.{with_tick, mutate, add, remove, set, toggle, is_full}
use asyncmachine_go.System.Turns.{turns, weight, IsQuiet}
use asyncmachine_go.System.Drain.{IsDrained, process_queue_ends}
use asyncmachine_go.System.Sound.{IsSoundSystem, queue_mutation-IsSoundSystem}
use asyncmachine_go.System.Total.{process_queue_never_panics}

detect_of_empty :
    (m : Machine) (mut_type : MutationType) (states : States) (is_check : Bool) (q : Queue)
    → q.entries ≡ []
    → detect_queue_duplicates m mut_type states is_check q ≡ false
unfolding detect_queue_duplicates is_queued iter_of find_queued
detect_of_empty m mut_type states is_check q empty = elim (Bool-cases m.disposing) [
  | inl gone ↦ ground (arith)
  | inr live ↦ rw (live, empty) refl
]

-- An empty queue takes a mutation of known states.
queue_mutation_of_empty :
    (m : Machine) (mut_type : MutationType) (states : States) (args : ℕ) (q : Queue)
    → IsDefined m.schema states
    → q.entries ≡ []
    → (mut : Mutation) × (queue_mutation m mut_type states args q ≡ some (push mut args q))
      × (mut.is_auto ≡ false)
unfolding queue_mutation
queue_mutation_of_empty m mut_type states args q defined empty =
    let (parsed, p) = must_parse_states-some m.disposing m.schema states defined in
    (
      mutation_of m mut_type parsed,
      ground (arith, p, detect_of_empty m mut_type parsed false q empty),
      refl,
    )

weight_of_pushed :
    (mut : Mutation) (args : ℕ) (q : Queue)
    → q.entries ≡ []
    → mut.is_auto ≡ false
    → weight (push mut args q).0.entries ≡ 2
unfolding weight turns push
weight_of_pushed mut args q empty manual = rw (empty, manual) refl

module _ (env : Env) ⦃sorter : StableSort⦄ (plain : env.has_handlers ≡ false)
    (keeps : (e : Entry) (s : System) → IsSoundSystem s → IsSoundSystem (env.evaluate e s))
    (quiet : IsQuiet env) where
  -- The answer is the end of a call that leaves the system idle.
  abbrev pub Settles : Answer → Type 0
  Settles a = (s : System) × (r : Result) × (a ≡ Answer.returned s r) × IsDrained s

  with_tick-Settles : (tick : ℕ) (a : Answer) → Settles a → Settles (with_tick tick a)
  unfolding with_tick
  with_tick-Settles tick a (s, r, e, idle) =
      (s, if nat_beq r queued then tick else r, rw e refl, idle)

  process_queue-Settles :
      (fuel : ℕ) (s : System)
      → IsSoundSystem s
      → s.is_processing ≡ false
      → s.in_transition ≡ false
      → weight s.queue.entries ≤ fuel
      → Settles (process_queue env fuel s)
  process_queue-Settles fuel s w idle settled enough =
      elim (process_queue_ends env fuel s quiet w.live idle settled enough) [
        | inl bad ↦ absurd (process_queue_never_panics env plain keeps fuel s w bad)
        | inr done ↦ done
      ]

  mutate-Settles :
      (fuel : ℕ) (mut_type : MutationType) (states : States) (args : ℕ) (s : System)
      → IsSoundSystem s
      → IsDrained s
      → IsDefined s.machine.schema states
      → s.queue.tick + s.queue.pending + 2 < 2 ^ 64
      → 2 ≤ fuel
      → Settles (mutate env fuel mut_type states args s)
  unfolding mutate IsDrained
  mutate-Settles fuel mut_type states args s w drained defined room enough =
      let (mut, made, manual) =
        queue_mutation_of_empty s.machine mut_type states args s.queue defined drained.0 in
      let q = (push mut args s.queue).0 in
      let tick = (push mut args s.queue).1 in
      let t = record s { queue = q } in
      let w' = queue_mutation-IsSoundSystem mut_type states args s q tick w room made in
      let ticks : tick ≡ s.queue.tick + s.queue.pending + 1 =
        (push-IsOrdered mut args s.queue w.ordered room).1 in
      let settles = with_tick-Settles tick (process_queue env fuel t) (
        process_queue-Settles fuel t w' drained.1 drained.2
          (rw (weight_of_pushed mut args s.queue drained.0 manual) enough)) in
      subst Settles (ground (arith, made, ticks)) settles

  -- An idle machine whose queue has room takes a call.
  pub record IsOpen (s : System) : Type 0 where
    pub sound : IsSoundSystem s
    pub idle : IsDrained s
    pub steady : env.backoff ≡ false
    pub limit : 1 ≤ s.queue_limit
    pub room : s.queue.tick + s.queue.pending + 2 < 2 ^ 64

  not_full : (s : System) → IsOpen s → is_full s ≡ false
  unfolding IsDrained
  not_full s open_now =
      let none_queued : length s.queue.entries ≡ 0 = rw (open_now.idle.0) refl in
      ground (arith, open_now.limit)

  add-Settles :
      (fuel : ℕ) (states : States) (args : ℕ) (s : System)
      → IsOpen s
      → IsDefined s.machine.schema states
      → 2 ≤ fuel
      → Settles (add env fuel states args s)
  unfolding add
  add-Settles fuel states args s o defined enough =
      subst Settles (ground (arith, not_full s o, o.sound.live, o.steady))
        (mutate-Settles fuel MutationType.add states args s o.sound o.idle defined o.room enough)

  remove-Settles :
      (fuel : ℕ) (states : States) (args : ℕ) (s : System)
      → IsOpen s
      → IsDefined s.machine.schema states
      → 2 ≤ fuel
      → Settles (remove env fuel states args s)
  unfolding remove IsDrained
  remove-Settles fuel states args s o defined enough =
      subst Settles (ground (arith, not_full s o, o.sound.live, o.steady, o.idle.2))
        (mutate-Settles fuel MutationType.remove states args s o.sound o.idle defined o.room enough)

  set-Settles :
      (fuel : ℕ) (states : States) (args : ℕ) (s : System)
      → IsOpen s
      → IsDefined s.machine.schema states
      → 2 ≤ fuel
      → Settles (set env fuel states args s)
  unfolding set
  set-Settles fuel states args s o defined enough =
      subst Settles (ground (arith, not_full s o, o.sound.live))
        (mutate-Settles fuel MutationType.set states args s o.sound o.idle defined o.room enough)

  toggle-Settles :
      (fuel : ℕ) (states : States) (args : ℕ) (s : System)
      → IsOpen s
      → IsDefined s.machine.schema states
      → 2 ≤ fuel
      → Settles (toggle env fuel states args s)
  unfolding toggle
  toggle-Settles fuel states args s o defined enough = elim (Bool-cases (is s.machine states)) [
    | inl on ↦
        subst Settles (ground (arith, o.sound.live))
          (remove-Settles fuel states args s o defined enough)
    | inr off ↦
        subst Settles (ground (arith, o.sound.live))
          (add-Settles fuel states args s o defined enough)
  ]

  -- Without handlers Add, Remove, Set and Toggle of states of the schema never panic on a sound and
  -- idle machine, with backoff off and room in its queue: they return, and leave it idle. Two turns
  -- of the loop are enough, for the mutation and the auto mutation behind it. The functions of Eval
  -- mutations keep a system sound and do not mutate.
  pub methods_return :
      (fuel : ℕ) (states : States) (args : ℕ) (s : System)
      → IsOpen s
      → IsDefined s.machine.schema states
      → 2 ≤ fuel
      → Settles (add env fuel states args s)
        × Settles (remove env fuel states args s)
        × Settles (set env fuel states args s)
        × Settles (toggle env fuel states args s)
  methods_return fuel states args s o defined enough = (
    add-Settles fuel states args s o defined enough,
    remove-Settles fuel states args s o defined enough,
    set-Settles fuel states args s o defined enough,
    toggle-Settles fuel states args s o defined enough,
  )
