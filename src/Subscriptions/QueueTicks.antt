-- ===== src/Subscriptions/QueueTicks.antt =====
-- subscriptions.go, ProcessWhenQueue: exactly the due channels are closed.
use asyncmachine_go.Base.{
  ℕ, suc, ◌≡◌, refl, ap, Bool, not, List, [], ◌∷◌, ◌++◌, ltb, length, length-append, delete_at,
  arith, Bool-cases, inl, inr, map,
}
use asyncmachine_go.Slices.{slices_filter, slices_reverse}
use asyncmachine_go.Subscriptions.{
  QueueBinding, due_channels, due_indexes, delete_all, process_when_queue,
}

abbrev is_due : ℕ → QueueBinding → Bool
is_due queue_tick b = not (ltb queue_tick b.tick)

delete_all-append :
    (indexes : List ℕ) (i : ℕ) (bindings : List QueueBinding)
    → delete_all (indexes ++ (i ∷ [])) bindings ≡ delete_at (delete_all indexes bindings) i
unfolding delete_all
delete_all-append [] i bindings = refl
delete_all-append (j ∷ indexes) i bindings = delete_all-append indexes i (delete_at bindings j)

delete_at-length :
    (before : List QueueBinding) (b : QueueBinding) (rest : List QueueBinding)
    → delete_at (before ++ (b ∷ rest)) (length before) ≡ before ++ rest
delete_at-length [] b rest = refl
delete_at-length (x ∷ before) b rest = ap (x ∷◌) (delete_at-length before b rest)

append_assoc :
    (before : List QueueBinding) (b : QueueBinding) (rest : List QueueBinding)
    → (before ++ (b ∷ [])) ++ rest ≡ before ++ (b ∷ rest)
append_assoc [] b rest = refl
append_assoc (x ∷ before) b rest = ap (x ∷◌) (append_assoc before b rest)

-- The indexes are deleted from the last one on, so that the others stay right.
delete_due :
    (queue_tick : ℕ) (before bindings : List QueueBinding)
    → delete_all
        (slices_reverse (due_indexes queue_tick (length before) bindings))
        (before ++ bindings)
      ≡ before ++ slices_filter bindings (λ b. ltb queue_tick b.tick)
unfolding due_indexes slices_reverse slices_filter
delete_due queue_tick before [] = unfold delete_all in refl
delete_due queue_tick before (b ∷ bindings) =
    let here : length (before ++ (b ∷ [])) ≡ suc (length before) =
      ground (arith, length-append before (b ∷ [])) in
    let ih = delete_due queue_tick (before ++ (b ∷ [])) bindings in
    let rest = slices_reverse (due_indexes queue_tick (suc (length before)) bindings) in
    let left = slices_filter bindings (λ x. ltb queue_tick x.tick) in
    let step : delete_all rest (before ++ (b ∷ bindings)) ≡ before ++ (b ∷ left) = ground (
      arith,
      here,
      ap
          (λ n.
            delete_all (slices_reverse (due_indexes queue_tick n bindings))
              (before ++ (b ∷ bindings)))
          here,
      ap
          (delete_all
            (slices_reverse (due_indexes queue_tick (length (before ++ (b ∷ []))) bindings)))
          (append_assoc before b bindings),
      append_assoc before b left,
      ih,
    ) in
    elim (Bool-cases (ltb queue_tick b.tick)) [
      | inl later ↦ ground (arith, step, later)
      | inr due ↦ ground (
        arith,
        step,
        delete_all-append rest (length before) (before ++ (b ∷ bindings)),
        ap (λ xs. delete_at xs (length before)) step,
        delete_at-length before b left,
        due,
      )
    ]

due_channels-filter :
    (queue_tick : ℕ) (bindings : List QueueBinding)
    → due_channels queue_tick bindings
      ≡ map (λ b. b.ch) (slices_filter bindings (is_due queue_tick))
unfolding due_channels slices_filter
due_channels-filter queue_tick [] = refl
due_channels-filter queue_tick (b ∷ bindings) = elim (Bool-cases (ltb queue_tick b.tick)) [
  | inl later ↦ ground (arith, due_channels-filter queue_tick bindings)
  | inr due ↦ ground (arith, ap (b.ch ∷◌) (due_channels-filter queue_tick bindings))
]

-- ProcessWhenQueue closes the channels of exactly the bindings whose tick is not behind the queue's,
-- in the order in which they were bound, and keeps the others in theirs.
pub process_when_queue_lem :
    (queue_tick : ℕ) (bindings : List QueueBinding)
    → process_when_queue queue_tick bindings ≡ (
      map (λ b. b.ch) (slices_filter bindings (λ b. not (ltb queue_tick b.tick))),
      slices_filter bindings (λ b. ltb queue_tick b.tick),
    )
unfolding process_when_queue
process_when_queue_lem queue_tick bindings =
    let channels = due_channels-filter queue_tick bindings in
    let left = delete_due queue_tick [] bindings in ground (arith, channels, left)
