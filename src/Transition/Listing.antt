-- ===== src/Transition/Listing.antt =====
-- transition.go, machine.go: lists of distinct names of the machine, which deletions of target states
-- and recoverFinalPhase leave as such lists.
use asyncmachine_go.Base.{
  ℕ, zero, suc, ◌≡◌, subst, Bool, true, false, not, ◌||◌, [], ◌∷◌, ◌++◌, String, contains,
  if◌then◌else◌, string_eq, ◌==◌, arith, Bool-cases, Option-cases, inl, inr, ◌⊎◌, IsDistinct,
  IsSubset, delete_at, contains_self, contains-tail, contains-cons_cases, beq_comm, position,
}
use asyncmachine_go.Slices.{slices_without}
use asyncmachine_go.Schema.{States}
use asyncmachine_go.Machine.{Machine}
use asyncmachine_go.Transition.{Mutation}
use asyncmachine_go.Transition.Emit.{Run, handle, emit_final, finals_from}
use asyncmachine_go.Transition.Run.{recover_from}

contains-delete_at :
    (xs : States) (i : ℕ) (a : String) → contains (delete_at xs i) a ≡ true → contains xs a ≡ true
contains-delete_at [] i a h = h
contains-delete_at (x ∷ xs) zero a h = contains-tail x a xs h
contains-delete_at (x ∷ xs) (suc i) a h = elim (contains-cons_cases x (delete_at xs i) a h) [
  | inl e ↦ rw e (contains_self a xs)
  | inr rest ↦ contains-tail x a xs (contains-delete_at xs i a rest.1)
]

delete_at-IsDistinct : (xs : States) (i : ℕ) → IsDistinct xs → IsDistinct (delete_at xs i)
delete_at-IsDistinct [] i d = d
delete_at-IsDistinct (x ∷ xs) zero d = d.1
delete_at-IsDistinct (x ∷ xs) (suc i) d =
    (ground (arith, contains-delete_at xs i x, d.0), delete_at-IsDistinct xs i d.1)

-- Distinct names of the machine.
unfoldable pub IsListing : States → States → Type 0
IsListing names xs = IsDistinct xs × IsSubset xs names

pub delete_at-IsListing :
    (names xs : States) (i : ℕ) → IsListing names xs → IsListing names (delete_at xs i)
unfolding IsListing
delete_at-IsListing names xs i (d, k) =
    (delete_at-IsDistinct xs i d, λ a h. k a (contains-delete_at xs i a h))

slices_without-IsListing :
    (names xs : States) (s : String) → IsListing names xs → IsListing names (slices_without xs s)
unfolding slices_without
slices_without-IsListing names xs s g = elim (Option-cases (position xs s)) [
  | inl out ↦ subst (IsListing names) (ground (arith)) g
  | inr (i, at_i) ↦ subst (IsListing names) (ground (arith)) (delete_at-IsListing names xs i g)
]

-- The recovery drops states, and if it would append one it finds no state to start from.
pub recover_from-IsListing :
    (names : States) (r : Run) (found : Bool) (finals active : States)
    → (r.is_enter ≡ true) ⊎ ((found ≡ false) × (contains finals r.to_state ≡ false))
    → IsListing names active
    → IsListing names (recover_from r found finals active)
unfolding recover_from
recover_from-IsListing names r found [] active why g = g
recover_from-IsListing names r found (s ∷ finals) active why g =
    elim why as (λ w. IsListing names (recover_from r found (s ∷ finals) active)) [
      | inl enter ↦
          let now = found || (r.to_state == s) in
          recover_from-IsListing names r now finals
            (if not now
              then active
              else if r.is_enter
              then slices_without active s
              else active ++ (s ∷ []))
            (inl enter)
            (elim (Bool-cases now) [
              | inl on ↦ rw (on, enter) (slices_without-IsListing names active s g)
              | inr off ↦ rw off g
            ])
      | inr (off, out) ↦
          let other : ((found || (r.to_state == s)) ≡ false)
              × (contains finals r.to_state ≡ false) =
            unfold contains in ground (arith, beq_comm s r.to_state) in
          recover_from-IsListing names r (found || (r.to_state == s)) finals
            (if not (found || (r.to_state == s))
              then active
              else if r.is_enter
              then slices_without active s
              else active ++ (s ∷ []))
            (inr other) (rw other.0 g)
    ]

module _ (accepts : States → String → Bool) (m : Machine) (mut : Mutation)
    (live : m.disposing ≡ false) where
  -- The handler that cancels the final phase is an enter handler, or leaves no state to start from.
  pub finals_from-last :
      (enters finals : States) (r : Run)
      → (finals_from accepts m mut enters finals r).is_canceled ≡ true
      → ((finals_from accepts m mut enters finals r).is_enter ≡ true)
        ⊎ ((finals_from accepts m mut enters finals r).to_state ≡ "")
  unfolding finals_from emit_final handle
  finals_from-last enters [] r c = absurd (ground (arith))
  finals_from-last enters (s ∷ finals) r c =
      let next = emit_final accepts m mut enters s r in
      elim (Bool-cases next.is_canceled) [
        | inr on ↦ ground (arith, finals_from-last enters finals next)
        | inl off ↦ ground (arith)
      ]
