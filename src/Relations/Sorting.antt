-- ===== src/Relations/Sorting.antt =====
-- relations.go: SortStates. Go's sort.SliceStable is an interface: what is used of it is that the
-- sorted slice is a permutation of the argument, whatever the comparison is.
use mathlib.Core.List.{Perm, Permᴰ}
use mathlib.Core.List.Perm
use mathlib.Core.Logic.{∥∥₁_elim}
use mathlib.Core.HLevel.{×_prop}
use asyncmachine_go.Base.{
  ◌≡◌, refl, ◌∙◌, Bool, true, false, [], ◌∷◌, String, contains, index, if◌then◌else◌, ℤ, pos,
  negsuc, ltb, string_eq, IsDistinct, arith, beq_comm,
}
use asyncmachine_go.Schema.{States, Schema, items, state_of}
use asyncmachine_go.Relations.Defs.{Context}

pub record StableSort : Type 0 where
  pub sort : (String → String → Bool) → States → States
  pub sort-perm : (less : String → String → Bool) (xs : States) → Perm (sort less xs) xs

-- `<` on the positions that slices.Index returns.
abbrev pub int_lt : ℤ → ℤ → Bool
int_lt (pos a) (pos b) = ltb a b
int_lt (pos a) (negsuc b) = false
int_lt (negsuc a) (pos b) = true
int_lt (negsuc a) (negsuc b) = ltb b a

-- The comparison of sortRequire.
unfoldable pub require_less : States → String → String → Bool
require_less topology a b = int_lt (index topology a) (index topology b)

-- The comparison of SortStates by After.
unfoldable pub after_less : Schema → String → String → Bool
after_less schema a b =
    if contains (items (state_of schema a).after) b
    then false
    else if contains (items (state_of schema b).after) a
    then true
    else false

module _ ⦃sorter : StableSort⦄ where
  -- sortRequire
  unfoldable pub sort_require : Context → States → States
  unfolding require_less
  sort_require c states = sorter.sort (require_less c.topology) states

  -- SortStates
  unfoldable pub sort_states : Context → States → States
  unfolding sort_require after_less
  sort_states c states = sorter.sort (after_less c.schema) (sort_require c states)

-- Membership and distinctness read off a permutation.
contains_of_Permᴰ : {xs ys : States} → Permᴰ xs ys → (a : String) → contains xs a ≡ contains ys a
unfolding contains
contains_of_Permᴰ Permᴰ.nil a = refl
contains_of_Permᴰ (Permᴰ.cons h p) a = ground (arith, contains_of_Permᴰ p a)
contains_of_Permᴰ (Permᴰ.swap h k) a = ground arith
contains_of_Permᴰ (Permᴰ.trans p q) a = contains_of_Permᴰ p a ∙ contains_of_Permᴰ q a

IsDistinct-of_Permᴰ : {xs ys : States} → Permᴰ xs ys → IsDistinct xs → IsDistinct ys
unfolding contains
IsDistinct-of_Permᴰ Permᴰ.nil d = d
IsDistinct-of_Permᴰ (Permᴰ.cons {b = y} h p) d =
    (ground (arith, contains_of_Permᴰ p y), IsDistinct-of_Permᴰ p d.1)
IsDistinct-of_Permᴰ (Permᴰ.swap {a = x} {b = y} h k) d = ground (arith, beq_comm x y)
IsDistinct-of_Permᴰ (Permᴰ.trans p q) d = IsDistinct-of_Permᴰ q (IsDistinct-of_Permᴰ p d)

bool_set : IsSet Bool
bool_set = hlevel

IsDistinct-prop : (xs : States) → IsProp (IsDistinct xs)
IsDistinct-prop [] = hlevel
IsDistinct-prop (x ∷ xs) = ×_prop (bool_set _ _) (IsDistinct-prop xs)

pub contains_of_perm : {xs ys : States} → Perm xs ys → (a : String) → contains xs a ≡ contains ys a
contains_of_perm p a = ∥∥₁_elim p (bool_set _ _) λ q. contains_of_Permᴰ q a

pub IsDistinct-of_perm : {xs ys : States} → Perm xs ys → IsDistinct xs → IsDistinct ys
IsDistinct-of_perm {ys} p d = ∥∥₁_elim p (IsDistinct-prop ys) λ q. IsDistinct-of_Permᴰ q d

module _ ⦃sorter : StableSort⦄ where
  sort_states-perm : (c : Context) (xs : States) → Perm (sort_states c xs) xs
  unfolding sort_states
  sort_states-perm c xs =
      Perm.trans (sorter.sort-perm (after_less c.schema) (sort_require c xs))
        (sorter.sort-perm (require_less c.topology) xs)

  -- Sorting changes neither the members of the list nor their number.
  pub contains-sort_states :
      (c : Context) (xs : States) (a : String) → contains (sort_states c xs) a ≡ contains xs a
  contains-sort_states c xs a = contains_of_perm (sort_states-perm c xs) a

  pub sort_states-IsDistinct :
      (c : Context) (xs : States) → IsDistinct xs → IsDistinct (sort_states c xs)
  sort_states-IsDistinct c xs = IsDistinct-of_perm (Perm.symm (sort_states-perm c xs))
