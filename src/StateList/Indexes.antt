-- ===== src/StateList/Indexes.antt =====
-- Names to indexes and back.
use asyncmachine_go.Base.{
  ℕ, ◌≡◌, refl, List, [], ◌∷◌, String, some, index, get_elem?, position, position_of_contains, ℤ,
  pos, string_eq, int_eq, IsSubset, All, contains_self, contains-tail,
}
use asyncmachine_go.Text.{trim_space}
use asyncmachine_go.Schema.{States}
use asyncmachine_go.StateList.{
  states_to_index, index_to_states, index_to_state, equal_index, equal_ints,
}

pub index_of_position :
    (names : States) (s : String) (i : ℕ) → position names s ≡ some i → index names s ≡ pos i
unfolding index
index_of_position names s i found = rw (index, found) refl

index_to_states-cons :
    (names : States) (i : ℕ) (s : String) (l : List ℤ) (states : States)
    → get_elem? names i ≡ some s
    → index_to_states names l ≡ some states
    → index_to_states names (pos i ∷ l) ≡ some (s ∷ states)
unfolding index_to_states index_to_state
index_to_states-cons names i s l states here rest =
    rw (index_to_states, index_to_state, here, rest) refl

-- A registered name without spaces at its ends is found again under its index.
pub index_to_states-states_to_index :
    (names states : States)
    → IsSubset states names
    → All (λ s. trim_space s ≡ s) states
    → index_to_states names (states_to_index names states) ≡ some states
unfolding index_to_states states_to_index
index_to_states-states_to_index names [] known plain = refl
index_to_states-states_to_index names (s ∷ states) known plain =
    let (i, found, _, here) = position_of_contains names s (known s (contains_self s states)) in
    let rest =
      index_to_states-states_to_index names states (λ a h. known a (contains-tail s a states h))
        plain.1 in
    rw (plain.0, index_of_position names s i found)
      (index_to_states-cons names i s (states_to_index names states) states here rest)

-- EqualIndex compares with the empty list, whatever the names are: it is true of no index.
pub equal_index_lem : (s : States) (other : List ℤ) → equal_index s other ≡ equal_ints [] other
unfolding equal_index states_to_index
equal_index_lem s other = refl
