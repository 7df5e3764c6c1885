-- ===== src/Schema/Parsed.antt =====
-- schema.go, Schema.Parse: what the relations of a parsed schema are.
use asyncmachine_go.Base.{
  ◌≡◌, refl, ap, subst, Bool, true, false, not, ◌&&◌, ◌||◌, [], ◌∷◌, String, contains, string_eq,
  ◌==◌, arith, Bool-cases, inl, inr, IsDistinct, eq_of_beq, beq_comm, position,
}
use asyncmachine_go.Slices.{slices_without}
use asyncmachine_go.Slices.Laws.{
  contains-slices_without_ne, contains-slices_without_self, slices_without-cons,
}
use asyncmachine_go.Schema.{States, Slice, State, items}
use asyncmachine_go.Schema.Parse.{
  without, without_if, parse_added, drop_unknown, parse_relations, parse_references, parse_state,
}

-- slicesWithout keeps the order of a list and its distinctness.
slices_without-IsDistinct :
    (xs : States) (a : String) → IsDistinct xs → IsDistinct (slices_without xs a)
unfolding slices_without position
slices_without-IsDistinct [] a d = tt
slices_without-IsDistinct (x ∷ xs) a d = elim (Bool-cases (x == a)) [
  | inl same ↦ subst IsDistinct (ground (arith, slices_without-cons x xs a)) d.1
  | inr other ↦
      let out : contains (slices_without xs a) x ≡ false =
        ground (arith, contains-slices_without_ne xs a x, beq_comm x a, d.0) in
      subst IsDistinct {x = x ∷ slices_without xs a} (ground (arith, slices_without-cons x xs a))
        (out, slices_without-IsDistinct xs a d.1)
]

-- What is left of a relation without duplicates.
contains-without_if :
    (on : Bool) (slice : Slice) (name s : String)
    → IsDistinct (items slice)
    → contains (items (without_if on slice name)) s
      ≡ (contains (items slice) s && not (on && (name == s)))
unfolding without_if without
contains-without_if false slice name s d = ground arith
contains-without_if true slice name s d = elim (Bool-cases (name == s)) [
  | inl same ↦ ground (
    arith,
    contains-slices_without_self (items slice) name d,
    ap (contains (slices_without (items slice) name)) (eq_of_beq name s same),
  )
  | inr other ↦ ground (arith, contains-slices_without_ne (items slice) name s other)
]

without_if-IsDistinct :
    (on : Bool) (slice : Slice) (name : String)
    → IsDistinct (items slice)
    → IsDistinct (items (without_if on slice name))
unfolding without_if without
without_if-IsDistinct false slice name d = d
without_if-IsDistinct true slice name d = slices_without-IsDistinct (items slice) name d

-- The loop over unknown states.
contains-drop_unknown :
    (states names : States) (slice : Slice) (s : String)
    → IsDistinct (items slice)
    → contains (items (drop_unknown states names slice)) s
      ≡ (contains (items slice) s && not (contains names s && not (contains states s)))
unfolding drop_unknown contains
contains-drop_unknown states [] slice s d = ground arith
contains-drop_unknown states (n ∷ names) slice s d =
    let on = not (contains states n) in
    let first = contains-without_if on slice n s d in
    let rest =
      contains-drop_unknown states names (without_if on slice n) s
        (without_if-IsDistinct on slice n d) in
    elim (Bool-cases (n == s)) [
      | inl same ↦ ground (arith, first, rest, ap (contains states) (eq_of_beq n s same))
      | inr other ↦ ground (arith, first, rest)
    ]

drop_unknown-IsDistinct :
    (states names : States) (slice : Slice)
    → IsDistinct (items slice)
    → IsDistinct (items (drop_unknown states names slice))
unfolding drop_unknown
drop_unknown-IsDistinct states [] slice d = d
drop_unknown-IsDistinct states (n ∷ names) slice d =
    drop_unknown-IsDistinct states names (without_if (not (contains states n)) slice n)
      (without_if-IsDistinct (not (contains states n)) slice n d)

-- Dropping the unknown states of a relation itself.
contains-drop_own :
    (states : States) (slice : Slice) (s : String)
    → IsDistinct (items slice)
    → contains (items (drop_unknown states (items slice) slice)) s
      ≡ (contains (items slice) s && contains states s)
contains-drop_own states slice s d =
    ground (arith, contains-drop_unknown states (items slice) slice s d)

-- What the loop over Add leaves.
record IsAddParsed (states added : States) (s r : State) : Type 0 where
  remove_left :
      (a : String)
      → contains (items r.remove) a ≡ (contains (items s.remove) a && not (contains added a))
  add_left :
      (a : String)
      → contains (items r.add) a ≡ (
          contains (items s.add) a
          && not (contains added a && not (contains (items s.remove) a) && not (contains states a)))
  remove_once : IsDistinct (items r.remove)
  same_after : r.after ≡ s.after

parse_added-IsAddParsed :
    (states added : States) (s : State)
    → IsDistinct added
    → IsDistinct (items s.remove)
    → IsDistinct (items s.add)
    → IsAddParsed states added s (parse_added states added s)
unfolding parse_added contains without without_if
parse_added-IsAddParsed states [] s d dr da = record {
  remove_left = λ a. ground arith;
  add_left = λ a. ground arith;
  remove_once = dr;
  same_after = refl;
}
parse_added-IsAddParsed states (x ∷ added) s d dr da =
    elim (Bool-cases (contains (items s.remove) x)) [
      | inl on ↦
          let s1 = record s { remove = without s.remove x } in
          let taken = λ (a : String). contains-without_if true s.remove x a dr in
          let rest =
            parse_added-IsAddParsed states added s1 d.1 (without_if-IsDistinct true s.remove x dr)
              da in
          subst (IsAddParsed states (x ∷ added) s) {x = parse_added states added s1}
            (ground (arith))
            record {
              remove_left = λ a. ground (arith, rest.remove_left a, taken a);
              add_left = λ a. elim (Bool-cases (x == a)) [
                | inl same ↦
                    let e = eq_of_beq x a same in
                    ground (
                      arith,
                      rest.add_left a,
                      taken a,
                      ap (contains (items s.remove)) e,
                      ap (contains added) e,
                      d.0,
                    )
                | inr other ↦ ground (arith, rest.add_left a, taken a)
              ];
              remove_once = rest.remove_once;
              same_after = rest.same_after;
            }
      | inr off ↦
          let unknown = not (contains states x) in
          let s1 = record s { add = without_if unknown s.add x } in
          let taken = λ (a : String). contains-without_if unknown s.add x a da in
          let rest =
            parse_added-IsAddParsed states added s1 d.1 dr
              (without_if-IsDistinct unknown s.add x da) in
          subst (IsAddParsed states (x ∷ added) s) {x = parse_added states added s1}
            (ground (arith))
            record {
              remove_left = λ a. elim (Bool-cases (x == a)) [
                | inl same ↦
                    ground (
                      arith,
                      rest.remove_left a,
                      ap (contains (items s.remove)) (eq_of_beq x a same),
                    )
                | inr other ↦ ground (arith, rest.remove_left a)
              ];
              add_left = λ a. elim (Bool-cases (x == a)) [
                | inl same ↦
                    let e = eq_of_beq x a same in
                    ground (
                      arith,
                      rest.add_left a,
                      taken a,
                      ap (contains (items s.remove)) e,
                      ap (contains states) e,
                      ap (contains added) e,
                      d.0,
                    )
                | inr other ↦ ground (arith, rest.add_left a, taken a)
              ];
              remove_once = rest.remove_once;
              same_after = rest.same_after;
            }
    ]

-- Of a state whose relations have no duplicates, Parse keeps exactly this. Remove keeps the known states
-- other than the state itself that are not in Add; After keeps the known states other than the state
-- itself; and Add loses its unknown states, but for those, other than the state itself, that its own
-- Remove has too.
pub contains-parse_state :
    (states : States) (name : String) (s : State) (a : String)
    → IsDistinct (items s.remove)
    → IsDistinct (items s.add)
    → IsDistinct (items s.after)
    → let p = parse_state states name s in
      (contains (items p.remove) a ≡ (
        contains (items s.remove) a
        && not (name == a)
        && not (contains (items s.add) a)
        && contains states a))
      × (contains (items p.after) a
          ≡ (contains (items s.after) a && not (name == a) && contains states a))
      × (contains (items p.add) a ≡ (
          contains (items s.add) a
          && (contains states a || (contains (items s.remove) a && not (name == a)))))
unfolding parse_relations parse_references
contains-parse_state states name s a dr da dt =
    let on = contains (items s.remove) name in
    let s1 = record s { remove = without_if on s.remove name } in
    let own = contains-without_if on s.remove name a dr in
    let parsed =
      parse_added-IsAddParsed states (items s1.add) s1 da
        (without_if-IsDistinct on s.remove name dr) da in
    let s2 = parse_added states (items s1.add) s1 in
    let self = contains (items s2.after) name in
    let once : IsDistinct (items s2.after) = rw (parsed.same_after) dt in
    let late = contains-without_if self s2.after name a once in
    let after2 = without_if self s2.after name in
    let remove2 = drop_unknown states (items s2.remove) s2.remove in
    let left = contains-drop_own states s2.remove a parsed.remove_once in
    let again =
      contains-drop_own states remove2 a
        (drop_unknown-IsDistinct states (items s2.remove) s2.remove parsed.remove_once) in
    let later = contains-drop_own states after2 a (without_if-IsDistinct self s2.after name once) in
    let here : contains (items s2.after) a ≡ contains (items s.after) a =
      ap (λ x. contains (items x) a) parsed.same_after in
    elim (Bool-cases (name == a)) [
      | inl same ↦
          let e = eq_of_beq name a same in
          let e1 = ap (contains (items s.remove)) e in
          let e2 = ap (contains (items s2.after)) e in
          (
            ground (arith, again, left, parsed.remove_left a, own, e1),
            ground (arith, later, late, here, e2),
            ground (arith, parsed.add_left a, own, e1),
          )
      | inr other ↦ (
        ground (arith, again, left, parsed.remove_left a, own),
        ground (arith, later, late, here),
        ground (arith, parsed.add_left a, own),
      )
    ]
