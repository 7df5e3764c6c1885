-- ===== src/Tests/Resolver.antt =====
-- The theorems on relations, at the small machine.
use asyncmachine_go.Base.{
  ◌≡◌, refl, true, false, [], ◌∷◌, ◌⊎◌, inl, inr, String, some, contains, string_eq, IsDistinct,
  IsSubset, All-member, lookup, position, index, pos, arith,
}
use asyncmachine_go.Slices.{slices_filter, slices_reverse, uniq_from, slices_uniq}
use asyncmachine_go.Schema.{States, state_of, items}
use asyncmachine_go.Names.{must_parse_states, all_defined, has_dups}
use asyncmachine_go.Relations.{
  Context, MutationType, add_start, add_states, add_skips, add_pass, add_loop, parse_add,
  state_blocked_by, get_missing_requires, require_pass, require_loop, parse_require, block_pass,
  removed_by, survivors, resolve,
}
use asyncmachine_go.Relations.Sorting.{require_less, after_less, sort_require, sort_states}
use asyncmachine_go.Relations.Target.{target_states}
use asyncmachine_go.Relations.Add.{add_loop_ends}
use asyncmachine_go.Relations.Implied.{
  IsImplied, IsAddClosed, parse_add_of_IsImplied, parse_add_origin,
}
use asyncmachine_go.Relations.Require.{IsRequireClosed, parse_require_of_closed}
use asyncmachine_go.Relations.Block.{removes}
use asyncmachine_go.Relations.Resolved.{
  target_states-IsRequireClosed, target_states-NoConflict, target_states_of_remove,
  target_states_complete,
}
use asyncmachine_go.Tests.Fixtures.{machine, schema, sorter}

abbrev kept : States
kept = "A" ∷ "B" ∷ []

abbrev a_and_c : States
a_and_c = "A" ∷ "C" ∷ []

abbrev only_a : States
only_a = "A" ∷ []

abbrev context : Context
context = record {
  schema = schema;
  names = machine.state_names;
  topology = machine.state_names;
  before = "C" ∷ [];
  mut_type = MutationType.add;
  called = pos 0 ∷ [];
}

target_eq : target_states ⦃sorter = sorter⦄ false context a_and_c ≡ some kept
unfolding contains position index lookup slices_filter slices_reverse uniq_from slices_uniq
    must_parse_states all_defined has_dups add_states add_skips add_pass add_loop parse_add
    state_blocked_by get_missing_requires require_pass require_loop parse_require block_pass
    removed_by survivors resolve require_less after_less sort_require sort_states target_states
target_eq = refl

parsed_eq : must_parse_states false schema a_and_c ≡ some a_and_c
unfolding contains lookup must_parse_states all_defined has_dups
parsed_eq = refl

target_states-IsRequireClosed_example : IsDistinct kept × IsRequireClosed context kept
target_states-IsRequireClosed_example =
    target_states-IsRequireClosed ⦃sorter = sorter⦄ context a_and_c kept target_eq

target_states-NoConflict_example : removes context "A" "B" ≡ false
unfolding contains position index lookup slices_filter slices_reverse uniq_from slices_uniq
    add_states add_skips add_pass add_loop parse_add state_blocked_by get_missing_requires
    require_pass require_loop parse_require block_pass removed_by survivors
target_states-NoConflict_example =
    target_states-NoConflict ⦃sorter = sorter⦄ context a_and_c a_and_c kept "B" "A" target_eq
      parsed_eq refl refl

-- The removal of B, which A would add.
abbrev removal : Context
removal = record context {
  mut_type = MutationType.remove;
  called = pos 1 ∷ [];
  before = "A" ∷ "B" ∷ [];
}

removal_eq : target_states ⦃sorter = sorter⦄ false removal only_a ≡ some only_a
unfolding contains position index lookup slices_filter slices_reverse uniq_from slices_uniq
    must_parse_states all_defined has_dups add_states add_skips add_pass add_loop parse_add
    state_blocked_by get_missing_requires require_pass require_loop parse_require block_pass
    removed_by survivors resolve require_less after_less sort_require sort_states target_states
removal_eq = refl

target_states_of_remove_example : contains only_a "B" ≡ false
unfolding contains position index
target_states_of_remove_example =
    target_states_of_remove ⦃sorter = sorter⦄ removal only_a only_a "B" removal_eq refl refl refl

kept-IsRequireClosed : IsRequireClosed context kept
unfolding contains lookup
kept-IsRequireClosed name req m =
    All-member
      (λ x. contains (items (state_of schema x).require) req ≡ true → contains kept req ≡ true) kept
      name (λ h. absurd (ground (arith)), (λ h. absurd (ground (arith)), tt)) m

kept-HasNoConflict :
    (name by : String)
    → contains kept name ≡ true
    → contains kept by ≡ true
    → removes context by name ≡ false
unfolding contains lookup
kept-HasNoConflict name by m k =
    All-member (λ x. removes context by x ≡ false) kept name
      (
        All-member (λ y. removes context y "A" ≡ false) kept by (refl, (refl, tt)) k,
        (All-member (λ y. removes context y "B" ≡ false) kept by (refl, (refl, tt)) k, tt),
      )
      m

kept-IsAddClosed : IsAddClosed context kept
unfolding contains lookup
kept-IsAddClosed a (name, here, ok, imp, free) =
    All-member (λ x. contains (items (state_of schema x).add) a ≡ true → contains kept a ≡ true)
      kept name (λ h. ground (arith), (λ h. absurd (ground (arith)), tt)) here imp

only_a-IsDirect :
    (a : String) → contains kept a ≡ true → (contains only_a a ≡ true) ⊎ IsImplied context only_a a
unfolding contains lookup
only_a-IsDirect a m =
    All-member (λ x. (contains only_a x ≡ true) ⊎ IsImplied context only_a x) kept a
      (inl refl, (inr ("A", refl, inl refl, refl, λ removing. absurd (ground (arith))), tt)) m

target_states_complete_example :
    (targets : States) × (target_states ⦃sorter = sorter⦄ false context only_a ≡ some targets)
    × IsSubset kept targets
    × IsSubset targets kept
unfolding contains lookup must_parse_states all_defined has_dups
target_states_complete_example =
    target_states_complete ⦃sorter = sorter⦄ context only_a only_a kept refl (λ a m. ground (arith))
      kept-IsAddClosed only_a-IsDirect kept-IsRequireClosed kept-HasNoConflict

parse_add_of_IsImplied_example : contains (parse_add context only_a) "B" ≡ true
unfolding contains position index lookup slices_filter add_states add_skips
parse_add_of_IsImplied_example =
    parse_add_of_IsImplied context only_a "B"
      ("A", refl, inl refl, refl, λ removing. absurd (ground (arith)))

parse_add_origin_example : (contains only_a "B" ≡ true) ⊎ IsImplied context only_a "B"
unfolding contains position index lookup slices_filter add_states add_skips add_pass add_loop
    parse_add
parse_add_origin_example = parse_add_origin context only_a "B" refl

add_loop_ends_example : (add_loop 2 context only_a (add_start only_a)).changed ≡ false
add_loop_ends_example = add_loop_ends context only_a

parse_require_of_closed_example : IsSubset kept (parse_require context ("D" ∷ "B" ∷ "A" ∷ []))
unfolding contains
parse_require_of_closed_example =
    parse_require_of_closed context ("D" ∷ "B" ∷ "A" ∷ []) kept kept-IsRequireClosed
      (λ a m. ground (arith))
