-- ===== src/Tests/Subscribed.antt =====
-- The theorems on subscriptions, at small lists.
use asyncmachine_go.Base.{
  contains, ◌||◌, nat_eq, ◌≡◌, refl, Bool, true, List, [], ◌∷◌, none, some, not, ltb, map, arith,
  lookup, nat_eq, string_eq, remove_key,
}
use asyncmachine_go.Slices.{slices_filter}
use asyncmachine_go.Subscriptions.{
  Context, QueueBinding, has_sum, Sums, process_when_queue, when_time_sum, process_when_time_sum,
  process_state_ctx,
}
use asyncmachine_go.Subscriptions.QueueTicks.{process_when_queue_lem}
use asyncmachine_go.Subscriptions.TimeSums.Order.{HasOrder}
use asyncmachine_go.Subscriptions.TimeSums.{expired_bindings, reached, process_when_time_sum_lem}

abbrev waits : List QueueBinding
waits = record { ch = 1; tick = 5 } ∷ record { ch = 2; tick = 9 } ∷ record { ch = 3; tick = 4 } ∷ []

process_when_queue_lem_example : process_when_queue 5 waits ≡ (
  map (λ b. b.ch) (slices_filter waits (λ b. not (ltb 5 b.tick))),
  slices_filter waits (λ b. ltb 5 b.tick),
)
process_when_queue_lem_example = process_when_queue_lem 5 waits

-- Two sums, the second under a context that is over.
abbrev sums : Sums
sums = record {
  bindings =
      record { ch = 1; mtime = 5; ctx = none } ∷ record { ch = 2; mtime = 9; ctx = some 7 } ∷ [];
  by_ctx = (7, record { ch = 2; mtime = 9; ctx = some 7 } ∷ []) ∷ [];
}

abbrev over : Context → Bool
over ctx = true

sums-HasOrder : HasOrder sums
unfolding HasOrder
sums-HasOrder = (omega arith, (omega arith, tt))

process_when_time_sum_lem_example :
    HasOrder (when_time_sum 6 8 none 3 sums).0
    × HasOrder (process_when_time_sum over 6 sums).1
    × (contains (process_when_time_sum over 6 sums).0 2
        ≡ (has_sum 2 (expired_bindings over sums.by_ctx) || has_sum 2 (reached 6 sums.bindings)))
process_when_time_sum_lem_example = process_when_time_sum_lem over 6 8 none 3 2 sums sums-HasOrder

process_state_ctx_test :
    process_state_ctx ("A" ∷ "B" ∷ []) (("B", 4) ∷ ("C", 5) ∷ []) ≡ (4 ∷ [], ("C", 5) ∷ [])
unfolding process_state_ctx lookup remove_key
process_state_ctx_test = refl
