-- ===== src/Tests/Fixtures.antt =====
-- A small machine for the tests, and a stable sort.
use mathlib.Core.List.{Perm}
use mathlib.Core.List.Perm
use asyncmachine_go.Base.{
  ◌≡◌, refl, Bool, true, false, [], ◌∷◌, String, some, contains, if◌then◌else◌, string_eq, arith,
  pos, lookup, Bool-cases, inl, inr, ◌==◌, subst, eq_of_beq,
}
use asyncmachine_go.Schema.{States, Schema, zero_state}
use asyncmachine_go.Relations.{MutationType}
use asyncmachine_go.Relations.Sorting.{StableSort}
use asyncmachine_go.Machine.{Machine, tick_of, is_active_tick}
use asyncmachine_go.Machine.Invariant.{IsWellFormed}
use asyncmachine_go.Transition.{Mutation}
use asyncmachine_go.Transition.Start.{IsKnownSchema}

abbrev pub insert : (String → String → Bool) → String → States → States
insert less x [] = x ∷ []
insert less x (y ∷ ys) = let rest = insert less x ys in if less y x then y ∷ rest else x ∷ y ∷ ys

abbrev pub insertion_sort : (String → String → Bool) → States → States
insertion_sort less [] = []
insertion_sort less (x ∷ xs) = insert less x (insertion_sort less xs)

insert-perm :
    (less : String → String → Bool) (x : String) (xs : States) → Perm (insert less x xs) (x ∷ xs)
insert-perm less x [] = Perm.refl (x ∷ [])
insert-perm less x (y ∷ ys) = elim (Bool-cases (less y x)) [
  | inl on ↦ rw on (Perm.trans (Perm.cons y (insert-perm less x ys)) (Perm.swap x y ys))
  | inr off ↦ rw off (Perm.refl (x ∷ y ∷ ys))
]

pub insertion_sort-perm :
    (less : String → String → Bool) (xs : States) → Perm (insertion_sort less xs) xs
insertion_sort-perm less [] = Perm.refl []
insertion_sort-perm less (x ∷ xs) =
    Perm.trans (insert-perm less x (insertion_sort less xs))
      (Perm.cons x (insertion_sort-perm less xs))

abbrev pub sorter : StableSort
sorter = record { sort = insertion_sort; sort-perm = insertion_sort-perm }

-- A starts B, and needs C to be off; C is removed by A; D starts by itself when A is active.
abbrev pub schema : Schema
schema =
    ("A", record zero_state { add = some ("B" ∷ []); remove = some ("C" ∷ []) })
    ∷ ("B", zero_state)
    ∷ ("C", record zero_state { multi = true })
    ∷ ("D", record zero_state { auto = true; require = some ("A" ∷ []) })
    ∷ []

abbrev pub machine : Machine
machine = record {
  schema = schema;
  state_names = "A" ∷ "B" ∷ "C" ∷ "D" ∷ [];
  topology = "A" ∷ "B" ∷ "C" ∷ "D" ∷ [];
  active_states = "C" ∷ [];
  clock = ("A", 2) ∷ ("B", 0) ∷ ("C", 3) ∷ ("D", 0) ∷ [];
  activated_at = [];
  disposing = false;
}

abbrev pub add_a : Mutation
add_a = record {
  mut_type = MutationType.add;
  called = "A" ∷ [];
  called_indexes = pos 0 ∷ [];
  is_auto = false;
  is_check = false;
}

pub machine-IsWellFormed : IsWellFormed machine
unfolding contains lookup
machine-IsWellFormed = record {
  names_once = (refl, (refl, (refl, (refl, tt))));
  active_once = (refl, tt);
  known = λ a h. ground (arith);
  small = λ a. ground (arith);
  active_odd = λ a. elim (Bool-cases ("C" == a)) [
    | inl e ↦
        subst (λ x. is_active_tick (tick_of machine.clock x) ≡ contains machine.active_states x)
          (eq_of_beq "C" a e) refl
    | inr e ↦ ground (arith)
  ];
}

pub machine-IsKnownSchema : IsKnownSchema machine
unfolding contains lookup
machine-IsKnownSchema = record {
  keys_known = λ s h. ground (arith);
  add_known = λ by s h. ground (arith);
}
