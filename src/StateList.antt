-- ===== src/StateList.antt =====
-- pkg/machine/mach_utils.go: lists of state names (type S) and the deprecated functions that its
-- methods call.
pub mod Sets
pub mod Indexes
use text.Mathlib.Text.{starts_with}
use asyncmachine_go.Base.{
  ℕ, suc, ◌≡◌, refl, Bool, true, false, not, ◌&&◌, List, [], ◌∷◌, ◌++◌, String, Option, none, some,
  contains, index, if◌then◌else◌, ℤ, pos, negsuc, string_eq, int_eq, ◌==◌, length, nat_beq,
  get_elem?, ltb, minus_one, int_beq,
}
use asyncmachine_go.Text.{trim_space, itoa, join_text}
use asyncmachine_go.Slices.{slices_filter, slices_every, slices_uniq, slices_without}
use asyncmachine_go.Schema.{States}

-- slices.Concat
unfoldable pub concat : List States → States
concat [] = []
concat (s ∷ states) = s ++ concat states

-- S.Add: without arguments the list is returned as it is, duplicates included.
unfoldable pub add_lists : States → List States → States
unfolding concat
add_lists s [] = s
add_lists s (x ∷ states) = slices_uniq (concat (s ∷ x ∷ states))

-- S.Add1
unfoldable pub add_names : States → States → States
add_names s state = slices_uniq (s ++ state)

-- SAdd
unfoldable pub s_add : List States → States
unfolding concat
s_add [] = []
s_add (s ∷ states) = slices_uniq (concat (s ∷ states))

-- The inner loop of SRem.
unfoldable pub without_all : States → States → States
without_all s [] = s
without_all s (x ∷ states) = without_all (slices_without s x) states

-- The outer loop of SRem, over the groups that are left.
unfoldable pub without_groups : States → List States → States
unfolding without_all
without_groups s [] = s
without_groups s (g ∷ groups) = without_groups (without_all s g) groups

-- SRem: its loop starts at the second group.
unfoldable pub s_rem : States → List States → States
unfolding without_groups
s_rem src [] = src
s_rem src (first ∷ groups) = without_groups src groups

-- S.Delete
unfoldable pub delete_lists : States → List States → States
unfolding s_rem
delete_lists s states = s_rem s states

-- S.Delete1
unfoldable pub delete_names : States → States → States
unfolding s_rem
delete_names s states = s_rem s (states ∷ [])

-- StatesShared, S.Shared
unfoldable pub states_shared : States → States → States
states_shared states1 states2 = slices_filter states1 λ name. contains states2 name

-- StatesEqual, S.Equal
unfoldable pub states_equal : States → States → Bool
states_equal states1 states2 = slices_every states1 states2 && slices_every states2 states1

-- The loop of S.EqualOrder.
unfoldable pub same_order : States → States → Bool
same_order [] other = true
same_order (x ∷ s) [] = true
same_order (x ∷ s) (y ∷ other) =
    let rest = same_order s other in if not (x == trim_space y) then false else rest

-- S.EqualOrder
unfoldable pub equal_order : States → States → Bool
unfolding same_order
equal_order s other = if not (nat_beq (length s) (length other)) then false else same_order s other

-- StatesToIndex, S.Index
unfoldable pub states_to_index : States → States → List ℤ
states_to_index names [] = []
states_to_index names (s ∷ states) = index names (trim_space s) ∷ states_to_index names states

-- slices.Equal on indexes
unfoldable pub equal_ints : List ℤ → List ℤ → Bool
equal_ints [] [] = true
equal_ints [] (y ∷ ys) = false
equal_ints (x ∷ xs) [] = false
equal_ints (x ∷ xs) (y ∷ ys) = int_beq x y && equal_ints xs ys

-- S.EqualIndex
unfoldable pub equal_index : States → List ℤ → Bool
unfolding states_to_index equal_ints
equal_index s other = equal_ints (states_to_index s []) other

-- One name of IndexToStates. A negative index other than -1 panics.
unfoldable pub index_to_state : States → ℤ → Option String
index_to_state names (pos i) = elim (get_elem? names i) [
  | none ↦ some (join_text "unknown" (itoa (pos i)))
  | some name ↦ some name
]
index_to_state names (negsuc i) =
    if int_beq (negsuc i) minus_one then some (join_text "unknown" (itoa (negsuc i))) else none

-- IndexToStates, S.FilterIndex
unfoldable pub index_to_states : States → List ℤ → Option States
unfolding index_to_state
index_to_states names [] = some []
index_to_states names (i ∷ states) = elim (index_to_state names i) [
  | none ↦ none
  | some name ↦ elim (index_to_states names states) [ none ↦ none | some rest ↦ some (name ∷ rest) ]
]

-- StatesPrefix, S.Prefix
unfoldable pub states_prefix : String → States → States
states_prefix prefix [] = []
states_prefix prefix (name ∷ states) = join_text prefix name ∷ states_prefix prefix states

-- StatesWithPrefix
unfoldable pub states_with_prefix : String → States → States
states_with_prefix prefix states = slices_filter states λ name. starts_with name prefix

-- The loop of S.FilterPrefix.
unfoldable pub filter_prefix_from : States → States → States → States
unfolding states_with_prefix add_lists
filter_prefix_from ret s [] = ret
filter_prefix_from ret s (p ∷ prefix) =
    filter_prefix_from (add_lists ret (states_with_prefix p s ∷ [])) s prefix

-- S.FilterPrefix
unfoldable pub filter_prefix : States → States → States
unfolding filter_prefix_from
filter_prefix s prefix = filter_prefix_from [] s prefix

-- S.HasN
unfoldable pub has_n : States → States → Bool
has_n s [] = true
has_n s (state ∷ states) =
    let rest = has_n s states in if not (contains s state) then false else rest

-- S.Remove1, by slices.DeleteFunc
unfoldable pub remove_name : States → String → States
remove_name s state = slices_filter s λ name. not (name == state)

-- S.Remove
unfoldable pub remove_names : States → States → States
remove_names s states = slices_filter s λ name. not (contains states name)
