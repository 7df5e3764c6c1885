-- ===== src/Relations/Implied.antt =====
-- relations.go: parseAdd appends exactly what the Add relations imply.
use asyncmachine_go.Base.{
  ◌≡◌, refl, Bool, true, false, not, ◌&&◌, Bool-cases, index, String, contains, string_eq, int_eq,
  arith, IsSubset, inl, inr, ◌⊎◌,
}
use asyncmachine_go.Schema.{States, items, state_of}
use asyncmachine_go.Slices.Laws.{contains-slices_filter}
use asyncmachine_go.Relations.Defs.{
  Context, MutationType, is_remove, add_states, add_skips, parse_add,
}
use asyncmachine_go.Relations.Add.{IsAppended-origin, parse_add_of_IsAppended}

-- A state of the list implies `a`: it was inactive or it is Multi, its Add relation has `a`, and the
-- mutation does not call `a` for removal.
abbrev pub IsImplied : Context → States → String → Type 0
IsImplied c states a =
    (name : String) × (contains states name ≡ true)
    × ((contains c.before name ≡ false) ⊎ ((state_of c.schema name).multi ≡ true))
    × (contains (items (state_of c.schema name).add) a ≡ true)
    × ((c.mut_type ≡ MutationType.remove) → (contains c.called (index c.names a) ≡ false))

-- What the states of the list imply is in the list.
abbrev pub IsAddClosed : Context → States → Type 0
IsAddClosed c us = (a : String) → IsImplied c us a → contains us a ≡ true

is_removed-false :
    (kind : MutationType) (b : Bool)
    → (kind ≡ MutationType.remove → b ≡ false)
    → (is_remove kind && b) ≡ false
is_removed-false MutationType.add b h = refl
is_removed-false MutationType.remove b h = h refl
is_removed-false MutationType.set b h = refl
is_removed-false MutationType.eval b h = refl

contains-add_states :
    (c : Context) (name a : String)
    → contains (add_states c name) a ≡ (
        contains (items (state_of c.schema name).add) a
        && not (is_remove c.mut_type && contains c.called (index c.names a)))
unfolding add_states
contains-add_states c name a =
    contains-slices_filter (items (state_of c.schema name).add)
      (λ target. not (is_remove c.mut_type && contains c.called (index c.names target))) a

-- If a state of the argument was inactive before the transition or is Multi, then every state of
-- its Add relation that is not called for removal is in the result of parseAdd.
pub parse_add_of_IsImplied :
    (c : Context) (states : States) (a : String)
    → IsImplied c states a
    → contains (parse_add c states) a ≡ true
unfolding add_skips
parse_add_of_IsImplied c states a (name, here, ok, imp, free) = parse_add_of_IsAppended c states a (
  name,
  here,
  unfold contains in ground (arith),
  ground (
    arith,
    contains-add_states c name a,
    is_removed-false c.mut_type (contains c.called (index c.names a)) free,
  ),
)

-- Every state that parseAdd returns is in its argument, or in the Add relation of a state of its
-- argument that was inactive before the transition or is Multi, and is then not called for removal.
pub parse_add_origin :
    (c : Context) (states : States) (a : String)
    → contains (parse_add c states) a ≡ true
    → (contains states a ≡ true) ⊎ IsImplied c states a
unfolding add_skips
parse_add_origin c states a h = elim (IsAppended-origin c states a h) [
  | inl given ↦ inl given
  | inr (name, here, ok, imp) ↦ inr (
    name,
    here,
    elim (Bool-cases (contains c.before name)) [
      | inl on ↦ inr (ground (arith))
      | inr off ↦ inl off
    ],
    ground (arith, contains-add_states c name a),
    λ removing. ground (arith, contains-add_states c name a),
  )
]

-- A list that is closed under Add holds what parseAdd makes of a part of it.
pub parse_add_of_IsAddClosed :
    (c : Context) (states us : States)
    → IsSubset states us
    → IsAddClosed c us
    → IsSubset (parse_add c states) us
parse_add_of_IsAddClosed c states us sub closed a h = elim (parse_add_origin c states a h) [
  | inl given ↦ sub a given
  | inr (name, here, ok, imp, free) ↦ closed a (name, sub name here, ok, imp, free)
]
