-- ===== src/Relations/Target.antt =====
-- relations.go: TargetStates, and what every resolved list of states satisfies.
use asyncmachine_go.Base.{
  ◌≡◌, Bool, true, false, not, ◌&&◌, [], ◌∷◌, String, Option, none, some, contains, string_eq,
  int_eq, arith, inl, inr, ◌⊎◌, IsDistinct, IsSubset, contains-append,
}
use asyncmachine_go.Schema.{States, items, state_of}
use asyncmachine_go.Slices.{slices_filter, slices_reverse, slices_uniq}
use asyncmachine_go.Slices.Laws.{
  contains-slices_filter, contains-slices_reverse, contains-slices_uniq, slices_uniq-IsDistinct,
  slices_reverse-IsDistinct,
}
use asyncmachine_go.Names.{must_parse_states}
use asyncmachine_go.Relations.Defs.{
  Context, add_states, parse_add, parse_require, removed_by, survivors, resolve,
}
use asyncmachine_go.Relations.Sorting.{StableSort, sort_states}
use asyncmachine_go.Relations.Add.{IsAppended-origin}
use asyncmachine_go.Relations.Implied.{IsAddClosed, parse_add_of_IsAddClosed}
use asyncmachine_go.Relations.Require.{parse_require-IsDistinct, parse_require-IsSubset}
use asyncmachine_go.Relations.Block.{removes, block_pass-NoConflict, block_pass-IsSubset}

-- TargetStates. `none` is the panic of mustParseStates.
unfoldable pub target_states : ⦃sorter : StableSort⦄ → Bool → Context → States → Option States
target_states disposing c states_to_set =
    elim (must_parse_states disposing c.schema states_to_set) [
      | none ↦ none
      | some parsed ↦ some (sort_states c (resolve c parsed))
    ]

-- The states that are set before the blocking filter.
abbrev setting : Context → States → States
setting c parsed = parse_require c (slices_uniq (parse_add c parsed))

-- The states that are kept after the Remove relations of the survivors.
abbrev kept : Context → States → States
kept c parsed = slices_uniq (
    slices_filter (parse_add c (survivors c parsed))
      λ name. not (contains (removed_by c (survivors c parsed)) name))

resolve-IsSubset-kept :
    (c : Context) (parsed : States) → IsSubset (resolve c parsed) (kept c parsed)
unfolding resolve
resolve-IsSubset-kept c parsed a h = ground (
  arith,
  parse_require-IsSubset c (slices_reverse (kept c parsed)) a h,
  contains-slices_reverse (kept c parsed) a,
)

kept_lem :
    (c : Context) (parsed : States) (a : String)
    → contains (kept c parsed) a ≡ (
        contains (parse_add c (survivors c parsed)) a
        && not (contains (removed_by c (survivors c parsed)) a))
kept_lem c parsed a = ground (
  arith,
  contains-slices_uniq
      (slices_filter (parse_add c (survivors c parsed))
        λ name. not (contains (removed_by c (survivors c parsed)) name))
      a,
  contains-slices_filter (parse_add c (survivors c parsed))
      (λ name. not (contains (removed_by c (survivors c parsed)) name)) a,
)

pub resolve-IsDistinct : (c : Context) (parsed : States) → IsDistinct (resolve c parsed)
unfolding resolve
resolve-IsDistinct c parsed =
    parse_require-IsDistinct c (slices_reverse (kept c parsed))
      (slices_reverse-IsDistinct (kept c parsed) (slices_uniq-IsDistinct _))

setting-IsDistinct : (c : Context) (parsed : States) → IsDistinct (setting c parsed)
setting-IsDistinct c parsed = parse_require-IsDistinct c _ (slices_uniq-IsDistinct _)

pub survivors-IsSubset :
    (c : Context) (parsed : States) → IsSubset (survivors c parsed) (parse_add c parsed)
unfolding survivors
survivors-IsSubset c parsed a h = ground (
  arith,
  block_pass-IsSubset c (setting c parsed) [] (slices_reverse (setting c parsed)) a h,
  contains-slices_reverse (setting c parsed) a,
  parse_require-IsSubset c (slices_uniq (parse_add c parsed)) a,
  contains-slices_uniq (parse_add c parsed) a,
)

-- No surviving state has another in its Remove relation.
pub survivors-NoConflict :
    (c : Context) (parsed : States) (name by : String)
    → contains (survivors c parsed) name ≡ true
    → contains (survivors c parsed) by ≡ true
    → removes c by name ≡ false
unfolding survivors
survivors-NoConflict c parsed name by =
    block_pass-NoConflict c (setting c parsed) (slices_reverse (setting c parsed)) name by
      (slices_reverse-IsDistinct (setting c parsed) (setting-IsDistinct c parsed))
      λ a h. ground (arith, contains-slices_reverse (setting c parsed) a)

contains-removed_by :
    (c : Context) (states : States) (by name : String)
    → contains states by ≡ true
    → removes c by name ≡ true
    → contains (removed_by c states) name ≡ true
unfolding removed_by contains
contains-removed_by c [] by name h r = cc
contains-removed_by c (s ∷ states) by name h r = ground (
  arith,
  contains-append (items (state_of c.schema s).remove) (removed_by c states) name,
  contains-removed_by c states by name,
  string_eq.beq_iff s by,
)

-- No resolved state is in the Remove relation of a survivor.
pub resolve-NoConflict :
    (c : Context) (parsed : States) (name by : String)
    → contains (resolve c parsed) name ≡ true
    → contains (survivors c parsed) by ≡ true
    → removes c by name ≡ false
resolve-NoConflict c parsed name by h s = ground (
  arith,
  resolve-IsSubset-kept c parsed name h,
  kept_lem c parsed name,
  contains-removed_by c (survivors c parsed) by name s,
)

-- A resolved state was to be set, or an Add relation implies it.
pub resolve_origin :
    (c : Context) (parsed : States) (a : String)
    → contains (resolve c parsed) a ≡ true
    → (contains parsed a ≡ true) ⊎ ((name : String) × (contains (add_states c name) a ≡ true))
resolve_origin c parsed a h =
    elim (IsAppended-origin c (survivors c parsed) a
      (ground (arith, resolve-IsSubset-kept c parsed a h, kept_lem c parsed a))) [
        | inr (name, _, _, imp) ↦ inr (name, imp)
        | inl early ↦ elim (IsAppended-origin c parsed a (survivors-IsSubset c parsed a early)) [
          | inl given ↦ inl given
          | inr (name, _, _, imp) ↦ inr (name, imp)
        ]
      ]

-- A list that is closed under Add and holds the states to set holds all resolved ones.
pub resolve_of_IsAddClosed :
    (c : Context) (parsed us : States)
    → IsSubset parsed us
    → IsAddClosed c us
    → IsSubset (resolve c parsed) us
resolve_of_IsAddClosed c parsed us sub closed a h =
    parse_add_of_IsAddClosed c (survivors c parsed) us
      (λ b k. parse_add_of_IsAddClosed c parsed us sub closed b (survivors-IsSubset c parsed b k))
      closed a (ground (arith, resolve-IsSubset-kept c parsed a h, kept_lem c parsed a))
