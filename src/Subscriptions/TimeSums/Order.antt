-- ===== src/Subscriptions/TimeSums/Order.antt =====
-- subscriptions.go, WhenTimeSum: the bindings stay sorted by their times.
use asyncmachine_go.Base.{
  ℕ, ◌≤◌, ◌≡◌, refl, subst, Bool, false, List, [], ◌∷◌, Option, none, some, if◌then◌else◌, ltb, leb,
  nat_beq, arith, Bool-cases, Option-cases, inl, inr, nat_eq,
}
use asyncmachine_go.Subscriptions.{
  Channel, Context, SumBinding, Sums, sum_channel, insert_sum, add_ctx, when_time_sum, without_sum,
  has_sum, drop_ctx, gc_sum, gc_sums, expire_sums,
}

-- No binding is before `low`, and none before the one in front of it.
abbrev pub IsSorted : ℕ → List SumBinding → Type 0
IsSorted low [] = Unit {0}
IsSorted low (b ∷ bindings) = (low ≤ b.mtime) × IsSorted b.mtime bindings

IsSorted-mono :
    (low high : ℕ) (bindings : List SumBinding)
    → low ≤ high
    → IsSorted high bindings
    → IsSorted low bindings
IsSorted-mono low high [] less w = tt
IsSorted-mono low high (b ∷ bindings) less w = (ground (arith, w.0), w.1)

insert_sum-IsSorted :
    (low : ℕ) (b : SumBinding) (bindings : List SumBinding)
    → low ≤ b.mtime
    → IsSorted low bindings
    → IsSorted low (insert_sum b bindings)
unfolding insert_sum
insert_sum-IsSorted low b [] less w = (less, tt)
insert_sum-IsSorted low b (c ∷ bindings) less w = elim (Bool-cases (ltb c.mtime b.mtime)) [
  | inl before ↦
      subst (IsSorted low) {x = c ∷ insert_sum b bindings} (ground (arith))
        (w.0, insert_sum-IsSorted c.mtime b bindings (ground (arith)) w.1)
  | inr behind ↦
      subst (IsSorted low) {x = b ∷ c ∷ bindings} (ground (arith)) (less, (ground (arith), w.1))
]

without_sum-IsSorted :
    (low : ℕ) (ch : Channel) (bindings : List SumBinding)
    → IsSorted low bindings
    → IsSorted low (without_sum ch bindings)
unfolding without_sum
without_sum-IsSorted low ch [] w = tt
without_sum-IsSorted low ch (b ∷ bindings) w = elim (Bool-cases (nat_beq b.ch ch)) [
  | inl same ↦
      subst (IsSorted low) {x = bindings} (ground (arith))
        (IsSorted-mono low b.mtime bindings w.0 w.1)
  | inr other ↦
      subst (IsSorted low) {x = b ∷ without_sum ch bindings} (ground (arith))
        (w.0, without_sum-IsSorted b.mtime ch bindings w.1)
]

-- The bindings of a manager are sorted.
unfoldable pub HasOrder : Sums → Type 0
HasOrder s = IsSorted 0 s.bindings

pub drop_ctx-bindings :
    (b : SumBinding) (ctx : Option Context) (s : Sums) → (drop_ctx b ctx s).bindings ≡ s.bindings
drop_ctx-bindings b none s = refl
drop_ctx-bindings b (some ctx) s = refl

gc_sum-IsSorted :
    (b : SumBinding) (gc_ctx : Bool) (s : Sums) → HasOrder s → HasOrder (gc_sum b gc_ctx s)
unfolding gc_sum HasOrder
gc_sum-IsSorted b gc_ctx s w = elim (Bool-cases (has_sum b.ch s.bindings)) [
  | inr out ↦ subst HasOrder {x = s} {y = gc_sum b gc_ctx s} (ground (arith)) w
  | inl on ↦
      let t = if gc_ctx then drop_ctx b b.ctx s else s in
      let same : t.bindings ≡ s.bindings = ground (arith, drop_ctx-bindings b b.ctx s) in
      let left : IsSorted 0 (without_sum b.ch t.bindings) =
        rw same (without_sum-IsSorted 0 b.ch s.bindings w) in
      subst HasOrder {x = record t { bindings = without_sum b.ch t.bindings }}
        {y = gc_sum b gc_ctx s} (ground (arith)) left
]

pub gc_sums-IsSorted :
    (bindings : List SumBinding) (gc_ctx : Bool) (s : Sums)
    → HasOrder s
    → HasOrder (gc_sums bindings gc_ctx s)
unfolding gc_sums
gc_sums-IsSorted [] gc_ctx s w = w
gc_sums-IsSorted (b ∷ bindings) gc_ctx s w =
    gc_sums-IsSorted bindings gc_ctx (gc_sum b gc_ctx s) (gc_sum-IsSorted b gc_ctx s w)

pub expire_sums-IsSorted :
    (over : Context → Bool) (by_ctx : List (Context × List SumBinding)) (s : Sums)
    → HasOrder s
    → HasOrder (expire_sums over by_ctx s).1
unfolding expire_sums
expire_sums-IsSorted over [] s w = w
expire_sums-IsSorted over ((ctx, bindings) ∷ rest) s w = elim (Bool-cases (over ctx)) [
  | inl on ↦ subst HasOrder (ground (arith)) (
      expire_sums-IsSorted over rest (gc_sums bindings false s)
        (gc_sums-IsSorted bindings false s w))
  | inr off ↦ subst HasOrder (ground (arith)) (expire_sums-IsSorted over rest s w)
]

add_ctx-bindings :
    (ctx : Option Context) (b : SumBinding) (s : Sums) → (add_ctx ctx b s).bindings ≡ s.bindings
add_ctx-bindings none b s = refl
add_ctx-bindings (some ctx) b s = refl

pub when_time_sum-IsSorted :
    (sum mtime : ℕ) (ctx : Option Context) (ch : Channel) (s : Sums)
    → HasOrder s
    → HasOrder (when_time_sum sum mtime ctx ch s).0
unfolding when_time_sum HasOrder
when_time_sum-IsSorted sum mtime ctx ch s w =
    let b : SumBinding = record { ch = ch; mtime = mtime; ctx = ctx } in
    let next = record s { bindings = insert_sum b s.bindings } in
    elim (Option-cases (sum_channel mtime s.bindings)) [
      | inr (old, found) ↦
          subst HasOrder {x = s} {y = (when_time_sum sum mtime ctx ch s).0} (ground (arith)) w
      | inl fresh ↦ elim (Bool-cases (leb mtime sum)) [
        | inl over ↦
            subst HasOrder {x = s} {y = (when_time_sum sum mtime ctx ch s).0} (ground (arith)) w
        | inr coming ↦
            let sorted : HasOrder (add_ctx ctx b next) =
              rw (add_ctx-bindings ctx b next)
                (insert_sum-IsSorted 0 b s.bindings (omega arith) w) in
            subst HasOrder {x = add_ctx ctx b next} {y = (when_time_sum sum mtime ctx ch s).0}
              (ground (arith)) sorted
      ]
    ]
