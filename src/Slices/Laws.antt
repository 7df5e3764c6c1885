-- ===== src/Slices/Laws.antt =====
-- Membership, distinctness and length under the slice helpers.
use asyncmachine_go.Base.{
  suc, ◌≤◌, ◌≡◌, refl, ap, Bool, true, false, not, ◌&&◌, List, [], ◌∷◌, ◌++◌, arith, Eq, ◌==◌,
  contains, position, if◌then◌else◌, inl, inr, IsDistinct, IsSubset, Bool-cases, length,
  length-append, contains-append, beq_refl, beq_comm, eq_of_beq, ◌↔◌,
}
use asyncmachine_go.Slices.{
  slices_filter, slices_reverse, slices_without, slices_none, slices_every, uniq_from, slices_uniq,
}

module _ {ℓ} {A : Type ℓ} where
  pub length-slices_filter : (xs : List A) (f : A → Bool) → length (slices_filter xs f) ≤ length xs
  unfolding slices_filter
  length-slices_filter [] f = omega arith
  length-slices_filter (x ∷ xs) f = ground (arith, length-slices_filter xs f)

  pub length-slices_reverse : (xs : List A) → length (slices_reverse xs) ≡ length xs
  unfolding slices_reverse
  length-slices_reverse [] = refl
  length-slices_reverse (x ∷ xs) =
      omega (arith, length-append (slices_reverse xs) (x ∷ []), length-slices_reverse xs)

  -- A filter that keeps the length keeps the list.
  pub slices_filter-eq_of_length :
      (xs : List A) (f : A → Bool)
      → length (slices_filter xs f) ≡ length xs
      → slices_filter xs f ≡ xs
  unfolding slices_filter
  slices_filter-eq_of_length [] f h = refl
  slices_filter-eq_of_length (x ∷ xs) f h =
      ground (arith, slices_filter-eq_of_length xs f, length-slices_filter xs f)

module _ {ℓ} {A : Type ℓ} ⦃e : Eq A⦄ where
  pub contains-slices_filter :
      (xs : List A) (f : A → Bool) (a : A)
      → contains (slices_filter xs f) a ≡ (contains xs a && f a)
  unfolding slices_filter contains
  contains-slices_filter [] f a = refl
  contains-slices_filter (x ∷ xs) f a = elim (Bool-cases (x == a)) [
    | inl same ↦ ground (arith, contains-slices_filter xs f a, ap f (eq_of_beq x a same))
    | inr other ↦ ground (arith, contains-slices_filter xs f a)
  ]

  pub contains-slices_reverse :
      (xs : List A) (a : A) → contains (slices_reverse xs) a ≡ contains xs a
  unfolding slices_reverse contains
  contains-slices_reverse [] a = refl
  contains-slices_reverse (x ∷ xs) a =
      ground (arith, contains-append (slices_reverse xs) (x ∷ []) a, contains-slices_reverse xs a)

  pub slices_filter-IsDistinct :
      (xs : List A) (f : A → Bool) → IsDistinct xs → IsDistinct (slices_filter xs f)
  unfolding slices_filter
  slices_filter-IsDistinct [] f d = tt
  slices_filter-IsDistinct (x ∷ xs) f d =
      ground (arith, slices_filter-IsDistinct xs f d.1, contains-slices_filter xs f x)

  -- Two lists with nothing in common, each distinct, join to a distinct list.
  pub append-IsDistinct :
      (xs ys : List A)
      → IsDistinct xs
      → IsDistinct ys
      → ((a : A) → contains xs a ≡ true → contains ys a ≡ false)
      → IsDistinct (xs ++ ys)
  unfolding contains
  append-IsDistinct [] ys dx dy apart = dy
  append-IsDistinct (x ∷ xs) ys dx dy apart = (
    ground (arith, contains-append xs ys x, apart x, beq_refl x),
    append-IsDistinct xs ys dx.1 dy λ a h. apart a (ground arith),
  )

  pub slices_reverse-IsDistinct : (xs : List A) → IsDistinct xs → IsDistinct (slices_reverse xs)
  unfolding slices_reverse contains
  slices_reverse-IsDistinct [] d = tt
  slices_reverse-IsDistinct (x ∷ xs) d =
      append-IsDistinct (slices_reverse xs) (x ∷ []) (slices_reverse-IsDistinct xs d.1) (refl, tt)
        λ a h. ground (arith, contains-slices_reverse xs a, e.beq_iff x a, d.0, beq_comm x a)

  pub slices_every_iff : (col1 col2 : List A) → (slices_every col1 col2 ≡ true) ↔ IsSubset col2 col1
  unfolding slices_every contains
  slices_every_iff col1 [] = (λ _ a h. cc, λ _. refl)
  slices_every_iff col1 (x ∷ xs) = (
    λ h a m. elim (Bool-cases (x == a)) [
      | inl same ↦ ground (arith, ap (contains col1) (eq_of_beq x a same))
      | inr other ↦ (slices_every_iff col1 xs).0 (ground arith) a (ground arith)
    ],
    λ h.
        let rest = (slices_every_iff col1 xs).1 (λ a m. h a (ground arith)) in
        ground (arith, h x (ground (arith, beq_refl x)), rest),
  )

  pub slices_none_iff :
      (col1 col2 : List A)
      → (slices_none col1 col2 ≡ true)
        ↔ ((a : A) → contains col2 a ≡ true → contains col1 a ≡ false)
  unfolding slices_none contains
  slices_none_iff col1 [] = (λ _ a h. cc, λ _. refl)
  slices_none_iff col1 (x ∷ xs) = (
    λ h a m. elim (Bool-cases (x == a)) [
      | inl same ↦ ground (arith, ap (contains col1) (eq_of_beq x a same))
      | inr other ↦ (slices_none_iff col1 xs).0 (ground arith) a (ground arith)
    ],
    λ h.
        let rest = (slices_none_iff col1 xs).1 (λ a m. h a (ground arith)) in
        ground (arith, h x (ground (arith, beq_refl x)), rest),
  )

  contains-uniq_from :
      (seen xs : List A) (a : A)
      → contains (uniq_from seen xs) a ≡ (contains xs a && not (contains seen a))
  unfolding uniq_from contains
  contains-uniq_from seen [] a = refl
  contains-uniq_from seen (v ∷ xs) a = elim (Bool-cases (v == a)) [
    | inl same ↦ ground (
      arith,
      contains-uniq_from (if contains seen v then seen else v ∷ seen) xs a,
      ap (contains seen) (eq_of_beq v a same),
    )
    | inr other ↦
        ground (arith, contains-uniq_from (if contains seen v then seen else v ∷ seen) xs a)
  ]

  -- slicesUniq keeps the members.
  pub contains-slices_uniq : (xs : List A) (a : A) → contains (slices_uniq xs) a ≡ contains xs a
  unfolding slices_uniq contains
  contains-slices_uniq xs a = ground (arith, contains-uniq_from [] xs a)

  uniq_from-IsDistinct : (seen xs : List A) → IsDistinct (uniq_from seen xs)
  unfolding uniq_from contains
  uniq_from-IsDistinct seen [] = tt
  uniq_from-IsDistinct seen (v ∷ xs) = ground (
    arith,
    contains-uniq_from (v ∷ seen) xs v,
    beq_refl v,
    uniq_from-IsDistinct (if contains seen v then seen else v ∷ seen) xs,
  )

  pub slices_uniq-IsDistinct : (xs : List A) → IsDistinct (slices_uniq xs)
  unfolding slices_uniq
  slices_uniq-IsDistinct xs = uniq_from-IsDistinct [] xs

  -- slicesWithout by recursion on the list.
  pub slices_without-cons :
      (x : A) (xs : List A) (a : A)
      → slices_without (x ∷ xs) a ≡ (if x == a then xs else x ∷ slices_without xs a)
  unfolding slices_without position
  slices_without-cons x xs a = ground arith

  pub contains-slices_without_ne :
      (xs : List A) (a b : A) → (a == b) ≡ false → contains (slices_without xs a) b ≡ contains xs b
  unfolding contains slices_without position
  contains-slices_without_ne [] a b h = refl
  contains-slices_without_ne (x ∷ xs) a b h = ground (
    arith,
    slices_without-cons x xs a,
    contains-slices_without_ne xs a b h,
    e.beq_iff x a,
    e.beq_iff x b,
    e.beq_iff a b,
  )

  -- Of a distinct list, slicesWithout takes the value out for good.
  pub contains-slices_without_self :
      (xs : List A) (a : A) → IsDistinct xs → contains (slices_without xs a) a ≡ false
  unfolding contains slices_without position
  contains-slices_without_self [] a d = refl
  contains-slices_without_self (x ∷ xs) a d = elim (Bool-cases (x == a)) [
    | inl same ↦
        ground (arith, slices_without-cons x xs a, ap (contains xs) (eq_of_beq x a same), d.0)
    | inr other ↦ ground (arith, slices_without-cons x xs a, contains-slices_without_self xs a d.1)
  ]

  length-slices_without :
      (xs : List A) (a : A) → contains xs a ≡ true → length xs ≡ suc (length (slices_without xs a))
  unfolding contains
  length-slices_without [] a h = absurd (ground (arith))
  length-slices_without (x ∷ xs) a h =
      ground (arith, slices_without-cons x xs a, length-slices_without xs a)

  -- A list without duplicates is not longer than one that has all its members.
  pub length_of_subset : (xs ys : List A) → IsDistinct xs → IsSubset xs ys → length xs ≤ length ys
  unfolding contains
  length_of_subset [] ys d within = omega arith
  length_of_subset (x ∷ xs) ys d within =
      let here = within x (ground (arith, beq_refl x)) in
      let rest : IsSubset xs (slices_without ys x) = λ a m. elim (Bool-cases (x == a)) [
        | inl same ↦ absurd (ground (arith, ap (contains xs) (eq_of_beq x a same), d.0))
        | inr other ↦
            ground (arith, contains-slices_without_ne ys x a other, within a (ground (arith)))
      ] in
      ground
        (arith, length-slices_without ys x here, length_of_subset xs (slices_without ys x) d.1 rest)
