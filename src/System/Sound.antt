-- ===== src/System/Sound.antt =====
-- machine.go: a machine and its queue stay sound while mutations are queued.
use asyncmachine_go.Base.{
  ℕ, ◌+◌, ◌<◌, ◌^◌, ◌≡◌, refl, subst, Bool, false, List, [], ◌∷◌, ◌++◌, Option, none, some,
  string_eq, arith, Bool-cases, Option-cases, inl, inr, All, not, ◌&&◌, nat_beq,
}
use asyncmachine_go.Text.{trim_space}
use asyncmachine_go.Schema.{States, Schema}
use asyncmachine_go.StateList.{index_to_states}
use asyncmachine_go.Names.{must_parse_states}
use asyncmachine_go.Names.Laws.{must_parse_states-has_key}
use asyncmachine_go.Relations.{MutationType}
use asyncmachine_go.Machine.{Machine}
use asyncmachine_go.Machine.Invariant.{IsWellFormed}
use asyncmachine_go.Transition.{Mutation, any_multi}
use asyncmachine_go.Transition.Setup.{SameSetup}
use asyncmachine_go.Transition.Sound.{IsDefined, IsSound}
use asyncmachine_go.Queue.{
  Entry, Queue, prepend, shift, push, queue_mutation, queued_entry, mutation_of,
  detect_queue_duplicates,
}
use asyncmachine_go.Queue.Ticks.{IsOrdered, prepend-IsOrdered, shift-IsOrdered, push-IsOrdered}
use asyncmachine_go.System.Defs.{System, enqueue_first, enqueue_auto, fresh, prepended}

-- Every mutation of a queue calls states of the schema.
abbrev pub AllDefined : Schema → List Entry → Type 0
AllDefined schema entries = All (λ e. IsDefined schema e.mutation.called) entries

-- A live machine on which no list of known names panics, with an ordered queue of mutations of known
-- states.
pub record IsSoundSystem (s : System) : Type 0 where
  pub sound : IsSound s.machine
  pub live : s.machine.disposing ≡ false
  pub trimmed : All (λ name. trim_space name ≡ name) s.machine.state_names
  pub ordered : IsOrdered s.queue
  pub defined : AllDefined s.machine.schema s.queue.entries

pub parsed-IsDefined :
    (disposing : Bool) (schema : Schema) (states parsed : States)
    → disposing ≡ false
    → must_parse_states disposing schema states ≡ some parsed
    → IsDefined schema parsed
unfolding IsDefined
parsed-IsDefined disposing schema states parsed live p s h =
    must_parse_states-has_key schema states parsed s
      (subst (λ d. must_parse_states d schema states ≡ some parsed) live p) h

pub enqueue_first-IsSoundSystem :
    (x : Entry) (s s' : System)
    → IsSoundSystem s
    → x.queue_tick ≡ 0
    → enqueue_first x s ≡ some s'
    → IsSoundSystem s'
unfolding enqueue_first
enqueue_first-IsSoundSystem x s s' w untimed h =
    elim (Option-cases (index_to_states s.machine.state_names x.mutation.called_indexes)) [
      | inl bad ↦ absurd (ground (arith))
      | inr (names, e) ↦
          elim (Option-cases (must_parse_states s.machine.disposing s.machine.schema names)) [
            | inl bad ↦ absurd (ground (arith))
            | inr (parsed, p) ↦
                let new = prepended x parsed in
                subst IsSoundSystem {x = record s { queue = prepend new s.queue }} (ground (arith))
                  record {
                    sound = w.sound;
                    live = w.live;
                    trimmed = w.trimmed;
                    ordered = prepend-IsOrdered new s.queue untimed w.ordered;
                    defined =
                        unfold prepend in
                        (
                          parsed-IsDefined s.machine.disposing s.machine.schema names parsed w.live
                              p,
                          w.defined,
                        );
                  }
          ]
    ]

pub enqueue_auto-IsSoundSystem :
    (next : Option Mutation) (s s' : System)
    → IsSoundSystem s
    → enqueue_auto next s ≡ some s'
    → IsSoundSystem s'
unfolding enqueue_auto
enqueue_auto-IsSoundSystem none s s' w h = subst IsSoundSystem (ground (arith)) w
enqueue_auto-IsSoundSystem (some mut) s s' w h =
    enqueue_first-IsSoundSystem (fresh mut 0) s s' w refl (ground (arith, w.live))

pub IsSound-SameSetup : (m m' : Machine) → SameSetup m m' → IsWellFormed m' → IsSound m → IsSound m'
unfolding SameSetup IsDefined
IsSound-SameSetup m m' same w sound = record {
  well_formed = w;
  known_schema = record {
    keys_known = λ s h. ground (arith, same.0, same.1, sound.known_schema.keys_known s);
    add_known = λ by s h. ground (arith, same.0, same.1, sound.known_schema.add_known by s);
  };
  names_defined = λ s h. ground (arith, same.0, same.1, sound.names_defined s);
  named = ground (arith, same.1, sound.named);
}

push-AllDefined :
    (schema : Schema) (entries : List Entry) (e : Entry)
    → AllDefined schema entries
    → IsDefined schema e.mutation.called
    → AllDefined schema (entries ++ (e ∷ []))
push-AllDefined schema [] e all last = (last, tt)
push-AllDefined schema (x ∷ entries) e all last =
    (all.0, push-AllDefined schema entries e all.1 last)

shifted-AllDefined :
    (schema : Schema) (q rest : Queue) (e : Entry) (entries : List Entry)
    → q.entries ≡ entries
    → AllDefined schema entries
    → shift q ≡ some (e, rest)
    → IsDefined schema e.mutation.called × AllDefined schema rest.entries
unfolding shift
shifted-AllDefined schema q rest e [] same all h = absurd (ground (arith))
shifted-AllDefined schema q rest e (x ∷ entries) same all h =
    let first : x ≡ e = ground (arith) in
    let left : entries ≡ rest.entries = ground (arith) in
    (
      subst (λ y. IsDefined schema y.mutation.called) first all.0,
      subst (AllDefined schema) left all.1,
    )

shift-AllDefined :
    (schema : Schema) (q rest : Queue) (e : Entry)
    → AllDefined schema q.entries
    → shift q ≡ some (e, rest)
    → IsDefined schema e.mutation.called × AllDefined schema rest.entries
shift-AllDefined schema q rest e all h = shifted-AllDefined schema q rest e q.entries refl all h

pub shift-IsSoundSystem :
    (s : System) (e : Entry) (q : Queue)
    → IsSoundSystem s
    → shift s.queue ≡ some (e, q)
    → IsSoundSystem (record s { queue = q }) × IsDefined s.machine.schema e.mutation.called
shift-IsSoundSystem s e q w first =
    let (defined, rest) = shift-AllDefined s.machine.schema s.queue q e w.defined first in
    (
      record {
        sound = w.sound;
        live = w.live;
        trimmed = w.trimmed;
        ordered = (shift-IsOrdered s.queue q e w.ordered first).0;
        defined = rest;
      },
      defined,
    )

-- Queueing a mutation keeps the system sound, away from the end of uint64.
pub queue_mutation-IsSoundSystem :
    (mut_type : MutationType) (states : States) (args : ℕ) (s : System) (q : Queue) (tick : ℕ)
    → IsSoundSystem s
    → s.queue.tick + s.queue.pending + 2 < 2 ^ 64
    → queue_mutation s.machine mut_type states args s.queue ≡ some (q, tick)
    → IsSoundSystem (record s { queue = q })
unfolding queue_mutation
queue_mutation-IsSoundSystem mut_type states args s q tick w room h =
    elim (Option-cases (must_parse_states s.machine.disposing s.machine.schema states)) [
      | inl bad ↦ absurd (ground (arith))
      | inr (parsed, p) ↦
          let mut = mutation_of s.machine mut_type parsed in
          let old =
            not (any_multi s.machine.schema parsed)
            && nat_beq args 0
            && detect_queue_duplicates s.machine mut_type parsed false s.queue in
          elim (Bool-cases old) [
            | inl duplicate ↦ subst IsSoundSystem (ground (arith)) w
            | inr new ↦
                subst IsSoundSystem {x = record s { queue = (push mut args s.queue).0 }}
                  (ground (arith))
                  record {
                    sound = w.sound;
                    live = w.live;
                    trimmed = w.trimmed;
                    ordered = (push-IsOrdered mut args s.queue w.ordered room).0;
                    defined =
                        unfold push in
                        push-AllDefined s.machine.schema s.queue.entries
                          (queued_entry mut args s.queue) w.defined
                          (parsed-IsDefined s.machine.disposing s.machine.schema states parsed
                            w.live p);
                  }
          ]
    ]
