-- ===== src/System/Kept.antt =====
-- machine.go: a machine and its queue stay sound while mutations are processed.
use asyncmachine_go.Base.{
  ◌≡◌, ◌∙◌, refl, subst, Bool, true, Bool-cases, List, some, string_eq, inl, inr,
}
use asyncmachine_go.Relations.Sorting.{StableSort}
use asyncmachine_go.Transition.{Mutation, Tx, new_transition}
use asyncmachine_go.Transition.Run.{Outcome, emit_events}
use asyncmachine_go.Transition.Setup.{SameSetup, emit_events-SameSetup}
use asyncmachine_go.Transition.WellFormed.{emit_events-IsWellFormed}
use asyncmachine_go.Queue.{Entry, Queue, shift}
use asyncmachine_go.System.Turns.{run_mutation_cases, process_entry_cases}
use asyncmachine_go.System.Defs.{System, Env, Result, after_transition, run_mutation, process_entry}
use asyncmachine_go.System.Sound.{
  IsSoundSystem, enqueue_auto-IsSoundSystem, IsSound-SameSetup, shift-IsSoundSystem,
}

-- The functions of Eval mutations and the mutations of the handlers keep a system sound.
pub record KeepsSound (env : Env) : Type 0 where
  pub by_eval : (e : Entry) (s : System) → IsSoundSystem s → IsSoundSystem (env.evaluate e s)
  pub by_handlers :
      env.has_handlers ≡ true
      → (mut : Mutation) (s : System) (o : Outcome)
      → IsSoundSystem (record s { machine = o.machine; in_transition = true })
      → IsSoundSystem
          (record s { machine = o.machine; queue = env.handled mut s o; in_transition = true })

module _ (env : Env) ⦃sorter : StableSort⦄ where
  pub transition-IsSoundSystem :
      (mut : Mutation) (s : System) (t : Tx) (o : Outcome)
      → KeepsSound env
      → IsSoundSystem s
      → new_transition s.machine mut ≡ some t
      → emit_events (env.answer s.machine mut) env.has_handlers env.has_when_args s.machine t
        ≡ some o
      → IsSoundSystem (after_transition env mut s o)
  unfolding SameSetup
  transition-IsSoundSystem mut s t o keeps w n e =
      let answer = env.answer s.machine mut in
      let same = emit_events-SameSetup answer env.has_handlers env.has_when_args s.machine t o e in
      let formed =
        emit_events-IsWellFormed answer env.has_handlers env.has_when_args s.machine mut t o w.live
          w.sound.well_formed w.sound.known_schema w.sound.named n e in
      let moved : IsSoundSystem (record s { machine = o.machine; in_transition = true }) = record {
        sound = IsSound-SameSetup s.machine o.machine same formed w.sound;
        live = same.3 ∙ w.live;
        trimmed = rw (same.1) w.trimmed;
        ordered = w.ordered;
        defined = rw (same.0) w.defined;
      } in
      elim (Bool-cases env.has_handlers) [
        | inl on ↦ rw on (keeps.by_handlers on mut s o moved)
        | inr off ↦ rw off moved
      ]

  -- A transition keeps the system sound, whatever its handlers answer, if they queue soundly.
  pub run_mutation-IsSoundSystem :
      (mut : Mutation) (s s' : System) (ok : Bool)
      → KeepsSound env
      → IsSoundSystem s
      → run_mutation env mut s ≡ some (s', ok)
      → IsSoundSystem s'
  run_mutation-IsSoundSystem mut s s' ok keeps w h =
      let (t, o, n, e, q) = run_mutation_cases env mut s s' ok h in
      enqueue_auto-IsSoundSystem o.auto_mutation (after_transition env mut s o) s'
        (transition-IsSoundSystem mut s t o keeps w n e) q

  -- So does one turn of the loop of processQueue, if the functions of Eval mutations do too.
  pub process_entry-IsSoundSystem :
      (e : Entry) (q : Queue) (s s' : System) (results results' : List Result)
      → KeepsSound env
      → IsSoundSystem s
      → shift s.queue ≡ some (e, q)
      → process_entry env e (record s { queue = q }) results ≡ some (s', results')
      → IsSoundSystem s'
  process_entry-IsSoundSystem e q s s' results results' keeps w first h =
      let s0 = record s { queue = q } in
      let left = (shift-IsSoundSystem s e q w first).0 in
      elim (process_entry_cases env e.mutation.mut_type e s0 s' results results' refl h) [
        | inl same ↦ subst IsSoundSystem same left
        | inr (inl same) ↦ subst IsSoundSystem same (keeps.by_eval e s0 left)
        | inr (inr (ok, ran)) ↦ run_mutation-IsSoundSystem e.mutation s0 s' ok keeps left ran
      ]
