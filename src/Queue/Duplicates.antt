-- ===== src/Queue/Duplicates.antt =====
-- machine.go, queueMutation: a mutation that is pending is not queued twice.
use asyncmachine_go.Base.{
  ℕ, suc, ◌%◌, ◌^◌, ◌≡◌, refl, true, false, List, [], ◌∷◌, ◌++◌, some, arith, Bool-cases, inl, inr,
  int_eq,
}
use asyncmachine_go.Slices.Laws.{slices_every_iff}
use asyncmachine_go.Schema.{States}
use asyncmachine_go.Names.{must_parse_states}
use asyncmachine_go.Relations.{MutationType}
use asyncmachine_go.Machine.{Machine}
use asyncmachine_go.Transition.{indexes_of, any_multi}
use asyncmachine_go.Queue.{
  Entry, Queue, Query, queued_entry, push, matches, find_queued, iter_of, is_queued,
  duplicate_query, detect_queue_duplicates, mutation_of, queue_mutation, same_type,
}

pub find_queued-last :
    (query : Query) (i : ℕ) (entries : List Entry) (e : Entry)
    → matches query e ≡ true
    → (at : ℕ × ℕ) × (find_queued query i (entries ++ (e ∷ [])) ≡ some at)
unfolding find_queued
find_queued-last query i [] e h = ((i % 2 ^ 16, e.queue_tick), rw h refl)
find_queued-last query i (x ∷ entries) e h = elim (Bool-cases (matches query x)) [
  | inl on ↦ ((i % 2 ^ 16, x.queue_tick), rw on refl)
  | inr off ↦ rw off (find_queued-last query (suc i) entries e h)
]

pub same_type_refl : (t : MutationType) → same_type t t ≡ true
same_type_refl MutationType.add = refl
same_type_refl MutationType.remove = refl
same_type_refl MutationType.set = refl
same_type_refl MutationType.eval = refl

matches-queued_entry :
    (m : Machine) (mut_type : MutationType) (parsed : States) (q : Queue)
    → matches
        (duplicate_query m mut_type parsed false)
        (queued_entry (mutation_of m mut_type parsed) 0 q)
      ≡ true
unfolding matches
matches-queued_entry m mut_type parsed q =
    let xs = indexes_of m parsed in
    let all = (slices_every_iff xs xs).1 (λ a h. h) in ground (arith, same_type_refl mut_type, all)

-- When a mutation without arguments, of states none of which is Multi, has just been queued on a live
-- machine, or was found to be pending, queueing it again changes nothing and returns 0.
pub queue_mutation_again :
    (m : Machine) (mut_type : MutationType) (states parsed : States) (q q' : Queue) (tick : ℕ)
    → m.disposing ≡ false
    → must_parse_states m.disposing m.schema states ≡ some parsed
    → any_multi m.schema parsed ≡ false
    → queue_mutation m mut_type states 0 q ≡ some (q', tick)
    → queue_mutation m mut_type states 0 q' ≡ some (q', 0)
unfolding queue_mutation detect_queue_duplicates is_queued iter_of push
queue_mutation_again m mut_type states parsed q q' tick live p single h =
    let new = queued_entry (mutation_of m mut_type parsed) 0 q in
    let (at, found) =
      find_queued-last (duplicate_query m mut_type parsed false) 0 q.entries new
        (matches-queued_entry m mut_type parsed q) in
    elim (Bool-cases (detect_queue_duplicates m mut_type parsed false q)) [
      | inl old ↦ ground (arith, p, h, old)
      | inr fresh ↦ ground (arith, p, h, fresh, found)
    ]
