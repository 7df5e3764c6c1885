-- ===== src/Base/Member.antt =====
-- The functions of Go's package slices that the program calls, on lists.
use Prim.Native.Nat.{ℕ, zero, suc, ◌+◌, ◌<◌}
use mathlib.Core.Path.{◌≡◌, refl, ap, subst}
use mathlib.Core.Bool.{Bool, true, false, ◌||◌}
use mathlib.Core.Option.{Option, none, some}
use mathlib.Core.Option
use mathlib.Core.List.{List, [], ◌∷◌, ◌++◌}
use native.Mathlib.Omega.{arith}
use mathlib.Core.Logic.{◌⊎◌, inl, inr}
use asyncmachine_go.Base.Tests.{if◌then◌else◌, nat_beq, Bool-cases}
use asyncmachine_go.Base.Ints.{ℤ, pos, negsuc}
use asyncmachine_go.Base.Equality.{Eq, ◌==◌, eq_of_beq, beq_refl}

module _ {ℓ} {A : Type ℓ} where
  abbrev pub length : List A → ℕ
  length [] = 0
  length (x ∷ xs) = suc (length xs)

  abbrev pub get_elem? : List A → ℕ → Option A
  get_elem? [] i = none
  get_elem? (x ∷ xs) zero = some x
  get_elem? (x ∷ xs) (suc i) = get_elem? xs i

  -- A write out of bounds changes nothing.
  abbrev pub set : List A → ℕ → A → List A
  set [] i v = []
  set (x ∷ xs) zero v = v ∷ xs
  set (x ∷ xs) (suc i) v = x ∷ set xs i v

  abbrev pub get_or : List A → ℕ → A → A
  get_or [] i d = d
  get_or (x ∷ xs) zero d = x
  get_or (x ∷ xs) (suc i) d = get_or xs i d

  abbrev pub replicate : ℕ → A → List A
  replicate zero a = []
  replicate (suc n) a = a ∷ replicate n a

  -- slices.Delete(xs, i, i+1)
  abbrev pub delete_at : List A → ℕ → List A
  delete_at [] i = []
  delete_at (x ∷ xs) zero = xs
  delete_at (x ∷ xs) (suc i) = x ∷ delete_at xs i

  abbrev pub is_empty : List A → Bool
  is_empty [] = true
  is_empty (x ∷ xs) = false

  abbrev pub All {κ} : (A → Type κ) → List A → Type κ
  All P [] = Unit
  All P (x ∷ xs) = P x × All P xs

  pub length-append : (xs ys : List A) → length (xs ++ ys) ≡ length xs + length ys
  length-append [] ys = omega arith
  length-append (x ∷ xs) ys = omega (arith, length-append xs ys)

  pub length-replicate : (n : ℕ) (a : A) → length (replicate n a) ≡ n
  length-replicate zero a = refl
  length-replicate (suc n) a = ap suc (length-replicate n a)

  pub length-set : (xs : List A) (i : ℕ) (v : A) → length (set xs i v) ≡ length xs
  length-set [] i v = refl
  length-set (x ∷ xs) zero v = refl
  length-set (x ∷ xs) (suc i) v = ap suc (length-set xs i v)

  pub get_or-set :
      (xs : List A) (i j : ℕ) (v d : A)
      → i < length xs
      → get_or (set xs i v) j d ≡ (if nat_beq i j then v else get_or xs j d)
  get_or-set [] i j v d h = elim h [ ]
  get_or-set (x ∷ xs) zero zero v d h = refl
  get_or-set (x ∷ xs) zero (suc j) v d h = ground arith
  get_or-set (x ∷ xs) (suc i) zero v d h = ground arith
  get_or-set (x ∷ xs) (suc i) (suc j) v d h = ground (arith, get_or-set xs i j v d (omega arith))

module _ {ℓ} {A : Type ℓ} ⦃e : Eq A⦄ where
  -- slices.Contains(xs, a)
  unfoldable pub contains : List A → A → Bool
  contains [] a = false
  contains (x ∷ xs) a = (x == a) || contains xs a

  -- The first position of a value, counted from zero.
  unfoldable pub position : List A → A → Option ℕ
  position [] a = none
  position (x ∷ xs) a = if x == a then some 0 else Option.map suc (position xs a)

  -- slices.Index(xs, a)
  unfoldable pub index : List A → A → ℤ
  unfolding position
  index xs a = elim (position xs a) [ none ↦ negsuc 0 | some i ↦ pos i ]

  -- No value stands twice.
  abbrev pub IsDistinct : List A → Type 0
  IsDistinct [] = Unit {0}
  IsDistinct (x ∷ xs) = (contains xs x ≡ false) × IsDistinct xs

  -- Every value of the first list is in the second.
  abbrev pub IsSubset : List A → List A → Type ℓ
  IsSubset xs ys = (a : A) → contains xs a ≡ true → contains ys a ≡ true

  pub contains-append :
      (xs ys : List A) (a : A) → contains (xs ++ ys) a ≡ (contains xs a || contains ys a)
  unfolding contains
  contains-append [] ys a = refl
  contains-append (x ∷ xs) ys a = ground (arith, contains-append xs ys a)

  pub contains_self : (x : A) (xs : List A) → contains (x ∷ xs) x ≡ true
  unfolding contains
  contains_self x xs = ground (arith, beq_refl x)

  pub contains-tail : (x a : A) (xs : List A) → contains xs a ≡ true → contains (x ∷ xs) a ≡ true
  unfolding contains
  contains-tail x a xs h = ground arith

  -- A list that holds a value has a place for it.
  pub position_of_contains :
      (xs : List A) (a : A)
      → contains xs a ≡ true
      → (i : ℕ) × (position xs a ≡ some i) × (i < length xs) × (get_elem? xs i ≡ some a)
  unfolding contains position
  position_of_contains [] a h = cc
  position_of_contains (x ∷ xs) a h = elim (Bool-cases (x == a)) [
    | inl same ↦ (0, ground (arith, same), omega arith, ground (arith, eq_of_beq x a same))
    | inr other ↦
        let (i, found, low, here) = position_of_contains xs a (ground arith) in
        (suc i, ground (arith, found, other), omega (arith, low), here)
  ]

  -- A list without a value has no place for it.
  pub position_of_not_contains :
      (xs : List A) (a : A) → contains xs a ≡ false → position xs a ≡ none
  unfolding contains position
  position_of_not_contains [] a h = refl
  position_of_not_contains (x ∷ xs) a h = elim (Bool-cases (x == a)) [
    | inl same ↦ ground arith
    | inr other ↦ rw (other, position_of_not_contains xs a (ground arith))
  ]

  -- A predicate that holds all along a list holds at each of its members, and the other way round.
  pub All-member {κ} :
      (P : A → Type κ) (xs : List A) (a : A) → All P xs → contains xs a ≡ true → P a
  unfolding contains
  All-member P [] a h m = absurd (ground (arith, m))
  All-member P (x ∷ xs) a h m = elim (Bool-cases (x == a)) [
    | inl same ↦ subst P (eq_of_beq x a same) h.0
    | inr other ↦ All-member P xs a h.1 (ground arith)
  ]

  pub All-of_members {κ} :
      (P : A → Type κ) (xs : List A) → ((a : A) → contains xs a ≡ true → P a) → All P xs
  unfolding contains
  All-of_members P [] h = tt
  All-of_members P (x ∷ xs) h =
      (h x (contains_self x xs), All-of_members P xs λ a m. h a (contains-tail x a xs m))

  pub contains_of_is_empty : (xs : List A) (a : A) → is_empty xs ≡ true → contains xs a ≡ false
  unfolding contains
  contains_of_is_empty [] a h = refl
  contains_of_is_empty (x ∷ xs) a h = cc

  pub contains-cons_mono :
      (x : A) (xs ys : List A) (a : A)
      → (contains xs a ≡ true → contains ys a ≡ true)
      → contains (x ∷ xs) a ≡ true
      → contains (x ∷ ys) a ≡ true
  unfolding contains
  contains-cons_mono x xs ys a f h = ground arith

  -- A value of a list whose head it may be.
  pub contains-cons_cases :
      (x : A) (xs : List A) (a : A)
      → contains (x ∷ xs) a ≡ true
      → (x ≡ a) ⊎ (((x == a) ≡ false) × (contains xs a ≡ true))
  unfolding contains
  contains-cons_cases x xs a h = elim (Bool-cases (x == a)) [
    | inl same ↦ inl (eq_of_beq x a same)
    | inr other ↦ inr (other, ground arith)
  ]
