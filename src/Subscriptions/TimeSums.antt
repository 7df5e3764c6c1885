-- ===== src/Subscriptions/TimeSums.antt =====
-- subscriptions.go, WhenTimeSum: the bindings stay sorted by their times, so that the loop of
-- ProcessWhenTimeSum may stop at the first later one.
pub mod Order
use asyncmachine_go.Base.{
  ℕ, ◌≤◌, ◌<◌, ◌≡◌, refl, ap, subst, Bool, true, false, List, [], ◌∷◌, ◌++◌, Option, none, some,
  if◌then◌else◌, ltb, leb, nat_beq, arith, Bool-cases, Option-cases, inl, inr, ◌||◌, contains,
  contains-append, nat_eq,
}
use asyncmachine_go.Slices.{slices_filter}
use asyncmachine_go.Subscriptions.{
  Channel, Context, SumBinding, Sums, sum_channel, insert_sum, add_ctx, when_time_sum, without_sum,
  has_sum, drop_ctx, gc_sum, gc_sums, expire_sums, due_sums, process_when_time_sum, channels_of,
}
use asyncmachine_go.Subscriptions.TimeSums.Order.{
  IsSorted, HasOrder, drop_ctx-bindings, gc_sums-IsSorted, expire_sums-IsSorted,
  when_time_sum-IsSorted,
}

-- The bindings that wait under the contexts that are over.
abbrev concat_bindings : List (Context × List SumBinding) → List SumBinding
concat_bindings [] = []
concat_bindings ((ctx, bindings) ∷ rest) = bindings ++ concat_bindings rest

abbrev pub expired_bindings : (Context → Bool) → List (Context × List SumBinding) → List SumBinding
expired_bindings over by_ctx = concat_bindings (slices_filter by_ctx λ p. over p.0)

-- The bindings whose time has come.
abbrev pub reached : ℕ → List SumBinding → List SumBinding
reached sum bindings = slices_filter bindings λ b. leb b.mtime sum

all_later :
    (sum low : ℕ) (bindings : List SumBinding)
    → sum < low
    → IsSorted low bindings
    → reached sum bindings ≡ []
unfolding slices_filter
all_later sum low [] less w = refl
all_later sum low (b ∷ bindings) less w =
    ground (arith, all_later sum b.mtime bindings (ground (arith, w.0)) w.1, w.0)

-- In sorted bindings the due ones are in front.
due_sums-reached :
    (sum low : ℕ) (bindings : List SumBinding)
    → IsSorted low bindings
    → due_sums sum bindings ≡ reached sum bindings
unfolding due_sums slices_filter
due_sums-reached sum low [] w = refl
due_sums-reached sum low (b ∷ bindings) w = elim (Bool-cases (ltb sum b.mtime)) [
  | inr due ↦ ground (arith, due_sums-reached sum b.mtime bindings w.1)
  | inl later ↦ ground (arith, all_later sum b.mtime bindings (ground (arith)) w.1)
]

channels_of-append :
    (xs ys : List SumBinding) → channels_of (xs ++ ys) ≡ channels_of xs ++ channels_of ys
unfolding channels_of
channels_of-append [] ys = refl
channels_of-append (b ∷ xs) ys = ap (◌∷◌ b.ch) (channels_of-append xs ys)

contains-channels_of :
    (bindings : List SumBinding) (ch : Channel)
    → contains (channels_of bindings) ch ≡ has_sum ch bindings
unfolding channels_of has_sum contains
contains-channels_of [] ch = refl
contains-channels_of (b ∷ bindings) ch = ground (arith, contains-channels_of bindings ch)

has_sum-append :
    (ch : Channel) (xs ys : List SumBinding)
    → has_sum ch (xs ++ ys) ≡ (has_sum ch xs || has_sum ch ys)
unfolding has_sum
has_sum-append ch [] ys = refl
has_sum-append ch (b ∷ xs) ys = ground (arith, has_sum-append ch xs ys)

expired_lem :
    (over : Context → Bool) (by_ctx : List (Context × List SumBinding)) (s : Sums)
    → (expire_sums over by_ctx s).0 ≡ channels_of (expired_bindings over by_ctx)
unfolding expire_sums slices_filter channels_of
expired_lem over [] s = refl
expired_lem over ((ctx, bindings) ∷ rest) s = elim (Bool-cases (over ctx)) [
  | inl on ↦ ground (
    arith,
    channels_of-append bindings (expired_bindings over rest),
    expired_lem over rest (gc_sums bindings false s),
  )
  | inr off ↦ ground (arith, expired_lem over rest s)
]

-- Without a binding nothing is lost but, perhaps, what waits on its channel.
without_sum-reached :
    (sum : ℕ) (ch gone : Channel) (bindings : List SumBinding)
    → (has_sum ch (reached sum (without_sum gone bindings)) || nat_beq gone ch)
      ≡ (has_sum ch (reached sum bindings) || nat_beq gone ch)
unfolding has_sum slices_filter without_sum
without_sum-reached sum ch gone [] = refl
without_sum-reached sum ch gone (b ∷ bindings) =
    ground (arith, without_sum-reached sum ch gone bindings)

gc_sum-reached :
    (sum : ℕ) (ch : Channel) (b : SumBinding) (gc_ctx : Bool) (s : Sums)
    → (has_sum ch (reached sum (gc_sum b gc_ctx s).bindings) || nat_beq b.ch ch)
      ≡ (has_sum ch (reached sum s.bindings) || nat_beq b.ch ch)
unfolding gc_sum
gc_sum-reached sum ch b gc_ctx s = elim (Bool-cases (has_sum b.ch s.bindings)) [
  | inr out ↦ ground (arith)
  | inl on ↦
      let t = if gc_ctx then drop_ctx b b.ctx s else s in
      let same : t.bindings ≡ s.bindings = ground (arith, drop_ctx-bindings b b.ctx s) in
      let left : (gc_sum b gc_ctx s).bindings ≡ without_sum b.ch s.bindings = ground (arith) in
      rw left (without_sum-reached sum ch b.ch s.bindings)
]

gc_sums-reached :
    (sum : ℕ) (ch : Channel) (bindings : List SumBinding) (gc_ctx : Bool) (s : Sums)
    → (has_sum ch (reached sum (gc_sums bindings gc_ctx s).bindings) || has_sum ch bindings)
      ≡ (has_sum ch (reached sum s.bindings) || has_sum ch bindings)
unfolding gc_sums has_sum
gc_sums-reached sum ch [] gc_ctx s = refl
gc_sums-reached sum ch (b ∷ bindings) gc_ctx s = ground (
  arith,
  gc_sums-reached sum ch bindings gc_ctx (gc_sum b gc_ctx s),
  gc_sum-reached sum ch b gc_ctx s,
)

expire_sums-reached :
    (over : Context → Bool) (sum : ℕ) (ch : Channel) (by_ctx : List (Context × List SumBinding))
    (s : Sums)
    → let expired = has_sum ch (expired_bindings over by_ctx) in
      (has_sum ch (reached sum (expire_sums over by_ctx s).1.bindings) || expired)
      ≡ (has_sum ch (reached sum s.bindings) || expired)
unfolding expire_sums slices_filter
expire_sums-reached over sum ch [] s = refl
expire_sums-reached over sum ch ((ctx, bindings) ∷ rest) s = elim (Bool-cases (over ctx)) [
  | inl on ↦ ground (
    arith,
    has_sum-append ch bindings (expired_bindings over rest),
    expire_sums-reached over sum ch rest (gc_sums bindings false s),
    gc_sums-reached sum ch bindings false s,
  )
  | inr off ↦ ground (arith, expire_sums-reached over sum ch rest s)
]

-- If the bindings are sorted by their times, WhenTimeSum and ProcessWhenTimeSum keep them so, and
-- the latter closes a channel exactly when it is the channel of a binding kept under a context that
-- is over, or of a binding whose time is not behind the sum.
pub process_when_time_sum_lem :
    (over : Context → Bool) (sum mtime : ℕ) (ctx : Option Context) (ch closed : Channel) (s : Sums)
    → HasOrder s
    → HasOrder (when_time_sum sum mtime ctx ch s).0
      × HasOrder (process_when_time_sum over sum s).1
      × (contains (process_when_time_sum over sum s).0 closed ≡ (
          has_sum closed (expired_bindings over s.by_ctx)
          || has_sum closed (reached sum s.bindings)))
unfolding process_when_time_sum HasOrder
process_when_time_sum_lem over sum mtime ctx ch closed s w =
    let left = (expire_sums over s.by_ctx s).1 in
    let w' = expire_sums-IsSorted over s.by_ctx s w in
    (
      when_time_sum-IsSorted sum mtime ctx ch s w,
      gc_sums-IsSorted (due_sums sum left.bindings) true left w',
      ground (
        arith,
        contains-append (expire_sums over s.by_ctx s).0 (channels_of (due_sums sum left.bindings))
            closed,
        ap (λ chs. contains chs closed) (expired_lem over s.by_ctx s),
        contains-channels_of (expired_bindings over s.by_ctx) closed,
        contains-channels_of (due_sums sum left.bindings) closed,
        ap (has_sum closed) (due_sums-reached sum 0 left.bindings w'),
        expire_sums-reached over sum closed s.by_ctx s,
      ),
    )
