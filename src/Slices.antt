-- ===== src/Slices.antt =====
-- pkg/machine/mach_utils.go: the slice helpers under the state lists. A Go slice is a list; that
-- `slices.Clone` keeps nil apart from empty matters only for relations (Schema.antt).
pub mod Laws
use asyncmachine_go.Base.{
  ℕ, ◌≡◌, refl, Bool, true, false, not, List, [], ◌∷◌, ◌++◌, arith, Eq, ◌==◌, contains, position,
  delete_at, index, if◌then◌else◌, ℤ, pos, negsuc, none, some,
}

module _ {ℓ} {A : Type ℓ} where
  -- slicesFilter, where the test does not read the position.
  unfoldable pub slices_filter : List A → (A → Bool) → List A
  slices_filter [] f = []
  slices_filter (x ∷ xs) f = let rest = slices_filter xs f in if f x then x ∷ rest else rest

  -- slicesReverse: position i of the result is position len-1-i of the argument.
  unfoldable pub slices_reverse : List A → List A
  slices_reverse [] = []
  slices_reverse (x ∷ xs) = slices_reverse xs ++ x ∷ []

module _ {ℓ} {A : Type ℓ} ⦃e : Eq A⦄ where
  -- slicesWithout: the first occurrence goes.
  unfoldable pub slices_without : List A → A → List A
  unfolding index
  slices_without coll el = elim (index coll el) [ pos i ↦ delete_at coll i | negsuc _ ↦ coll ]

  -- slicesNone: no element of the second list is in the first.
  unfoldable pub slices_none : List A → List A → Bool
  slices_none col1 [] = true
  slices_none col1 (el ∷ col2) =
      let rest = slices_none col1 col2 in if contains col1 el then false else rest

  -- slicesEvery: every element of the second list is in the first.
  unfoldable pub slices_every : List A → List A → Bool
  slices_every col1 [] = true
  slices_every col1 (el ∷ col2) =
      let rest = slices_every col1 col2 in if not (contains col1 el) then false else rest

  -- The loop of slicesUniq, with the map `seen` as a list of its keys.
  unfoldable pub uniq_from : List A → List A → List A
  uniq_from seen [] = []
  uniq_from seen (v ∷ coll) =
      let rest = uniq_from (if contains seen v then seen else v ∷ seen) coll in
      if contains seen v then rest else v ∷ rest

  -- slicesUniq
  unfoldable pub slices_uniq : List A → List A
  unfolding uniq_from
  slices_uniq coll = uniq_from [] coll
