-- ===== src/StateList/Sets.antt =====
-- State lists as sets of names.
use asyncmachine_go.Base.{
  ◌≡◌, ◌∙◌, ◌↔◌, refl, Bool, true, false, ◌||◌, List, [], ◌∷◌, String, contains, string_eq, arith,
  IsDistinct, bool_ext, contains-append,
}
use asyncmachine_go.Slices.Laws.{slices_every_iff, contains-slices_uniq, slices_uniq-IsDistinct}
use asyncmachine_go.Schema.{States}
use asyncmachine_go.StateList.{concat, s_add, s_rem, without_groups, delete_names, states_equal}

-- Some list of a group holds a name.
unfoldable pub any_contains : List States → String → Bool
any_contains [] a = false
any_contains (s ∷ states) a = contains s a || any_contains states a

contains-concat :
    (states : List States) (a : String) → contains (concat states) a ≡ any_contains states a
unfolding concat any_contains contains
contains-concat [] a = refl
contains-concat (s ∷ states) a =
    ground (arith, contains-append s (concat states) a, contains-concat states a)

-- SAdd joins the lists, and no name stands twice in the result.
pub s_add-union :
    (states : List States)
    → ((a : String) → contains (s_add states) a ≡ any_contains states a) × IsDistinct (s_add states)
unfolding s_add
s_add-union [] = (λ a. unfold any_contains contains in refl, tt)
s_add-union (s ∷ states) = (
  λ a. contains-slices_uniq (concat (s ∷ states)) a ∙ contains-concat (s ∷ states) a,
  slices_uniq-IsDistinct (concat (s ∷ states)),
)

-- StatesEqual compares lists as sets: order and repetition do not count.
pub states_equal_iff :
    (states1 states2 : States)
    → (states_equal states1 states2 ≡ true)
      ↔ ((a : String) → contains states1 a ≡ contains states2 a)
unfolding states_equal
states_equal_iff states1 states2 = (
  λ h a.
      let l = (slices_every_iff states1 states2).0 (ground (arith, h)) a in
      let r = (slices_every_iff states2 states1).0 (ground (arith, h)) a in
      bool_ext (contains states1 a) (contains states2 a) r l,
  λ h.
      let l = (slices_every_iff states1 states2).1 (λ a m. ground (arith, h a)) in
      let r = (slices_every_iff states2 states1).1 (λ a m. ground (arith, h a)) in
      ground (arith, l, r),
)

-- SRem never removes its first group: with one group, which is how S.Delete1 calls it, the list
-- comes back whole.
pub s_rem_first :
    (src first : States) (groups : List States)
    → (s_rem src (first ∷ groups) ≡ without_groups src groups) × (delete_names src first ≡ src)
unfolding s_rem delete_names
s_rem_first src first groups = (refl, refl)
