-- ===== src/Subscriptions.antt =====
-- pkg/machine/subscriptions.go: the subscriptions that are kept in plain lists, which are WhenQueue,
-- WhenQueueEnds, WhenTimeSum and WhenQuery, and the contexts of states.
pub mod QueueTicks
pub mod TimeSums
use asyncmachine_go.Base.{
  ℕ, suc, Bool, true, false, not, ◌&&◌, ◌||◌, List, [], ◌∷◌, ◌++◌, String, Option, none, some,
  if◌then◌else◌, string_eq, nat_eq, ltb, leb, nat_beq, length, delete_at, lookup, lookup_or, put,
  remove_key, has_key, is_empty,
}
use asyncmachine_go.Slices.{slices_reverse}
use asyncmachine_go.Schema.{States}

-- A channel that a subscription closes. A binding is told from others by its channel.
abbrev pub Channel : Type 0
Channel = ℕ

-- whenQueueBinding
pub record QueueBinding : Type 0 where
  pub ch : Channel
  pub tick : ℕ

-- The loop of ProcessWhenQueue: the channels to close and their indexes.
unfoldable pub due_channels : ℕ → List QueueBinding → List Channel
due_channels queue_tick [] = []
due_channels queue_tick (b ∷ bindings) =
    let rest = due_channels queue_tick bindings in
    if ltb queue_tick b.tick then rest else b.ch ∷ rest

unfoldable pub due_indexes : ℕ → ℕ → List QueueBinding → List ℕ
due_indexes queue_tick i [] = []
due_indexes queue_tick i (b ∷ bindings) =
    let rest = due_indexes queue_tick (suc i) bindings in
    if ltb queue_tick b.tick then rest else i ∷ rest

-- The loop of slices.Delete.
unfoldable pub delete_all : List ℕ → List QueueBinding → List QueueBinding
delete_all [] bindings = bindings
delete_all (i ∷ indexes) bindings = delete_all indexes (delete_at bindings i)

-- ProcessWhenQueue: the channels to close and the bindings that are left.
unfoldable pub process_when_queue : ℕ → List QueueBinding → List Channel × List QueueBinding
process_when_queue queue_tick bindings = (
  due_channels queue_tick bindings,
  delete_all (slices_reverse (due_indexes queue_tick 0 bindings)) bindings,
)

-- Subscriptions.WhenQueue and Machine.WhenQueue, which returns the closed channel (none) for a tick
-- that is over, or when the machine is disposed.
unfoldable pub when_queue :
    Bool → ℕ → ℕ → Channel → List QueueBinding → List QueueBinding × Option Channel
when_queue disposed queue_tick tick ch bindings =
    if disposed
    then (bindings, none)
    else if leb tick queue_tick
    then (bindings, none)
    else (bindings ++ (record { ch = ch; tick = tick } ∷ []), some ch)

-- WhenQueueEnds
unfoldable pub when_queue_ends : Channel → List Channel → List Channel
when_queue_ends ch bindings = bindings ++ (ch ∷ [])

-- ProcessWhenQueueEnds
unfoldable pub process_when_queue_ends : List Channel → List Channel × List Channel
process_when_queue_ends bindings = (bindings, [])

-- A context, by a number, and whether ctx.Err() is set.
abbrev pub Context : Type 0
Context = ℕ

-- WhenTimeSumBinding
pub record SumBinding : Type 0 where
  pub ch : Channel
  pub mtime : ℕ
  pub ctx : Option Context

-- whenTimeSum and whenTimeSumCtx
pub record Sums : Type 0 where
  pub bindings : List SumBinding
  pub by_ctx : List (Context × List SumBinding)

-- The search for a binding of the same time.
unfoldable pub sum_channel : ℕ → List SumBinding → Option Channel
sum_channel mtime [] = none
sum_channel mtime (b ∷ bindings) =
    let rest = sum_channel mtime bindings in if nat_beq b.mtime mtime then some b.ch else rest

-- The search for the index, with slices.Insert.
unfoldable pub insert_sum : SumBinding → List SumBinding → List SumBinding
insert_sum b [] = b ∷ []
insert_sum b (c ∷ bindings) =
    let rest = insert_sum b bindings in if ltb c.mtime b.mtime then c ∷ rest else b ∷ c ∷ bindings

abbrev pub add_ctx : Option Context → SumBinding → Sums → Sums
add_ctx none b s = s
add_ctx (some ctx) b s = record s {
  by_ctx = put ctx (lookup_or [] ctx s.by_ctx ++ (b ∷ [])) s.by_ctx;
}

-- WhenTimeSum, at a sum of the clocks. The closed channel is none.
unfoldable pub when_time_sum : ℕ → ℕ → Option Context → Channel → Sums → Sums × Option Channel
when_time_sum sum mtime ctx ch s = elim (sum_channel mtime s.bindings) [
  | some old ↦ (s, some old)
  | none ↦
      let b : SumBinding = record { ch = ch; mtime = mtime; ctx = ctx } in
      if leb mtime sum
      then (s, none)
      else (add_ctx ctx b (record s { bindings = insert_sum b s.bindings }), some ch)
]

-- slicesWithout and slices.Contains of a binding.
unfoldable pub without_sum : Channel → List SumBinding → List SumBinding
without_sum ch [] = []
without_sum ch (b ∷ bindings) =
    let rest = without_sum ch bindings in if nat_beq b.ch ch then bindings else b ∷ rest

unfoldable pub has_sum : Channel → List SumBinding → Bool
has_sum ch [] = false
has_sum ch (b ∷ bindings) = nat_beq b.ch ch || has_sum ch bindings

-- The context of a binding that is collected.
abbrev pub drop_ctx : SumBinding → Option Context → Sums → Sums
drop_ctx b none s = s
drop_ctx b (some ctx) s =
    let left = without_sum b.ch (lookup_or [] ctx s.by_ctx) in
    record s { by_ctx = if is_empty left then remove_key ctx s.by_ctx else put ctx left s.by_ctx }

-- gcWhenTimeSumBinding
unfoldable pub gc_sum : SumBinding → Bool → Sums → Sums
gc_sum b gc_ctx s =
    if not (has_sum b.ch s.bindings)
    then s
    else let t = if gc_ctx then drop_ctx b b.ctx s else s in
      record t { bindings = without_sum b.ch t.bindings }

unfoldable pub gc_sums : List SumBinding → Bool → Sums → Sums
gc_sums [] gc_ctx s = s
gc_sums (b ∷ bindings) gc_ctx s = gc_sums bindings gc_ctx (gc_sum b gc_ctx s)

unfoldable pub channels_of : List SumBinding → List Channel
channels_of [] = []
channels_of (b ∷ bindings) = b.ch ∷ channels_of bindings

-- processWhenTimeSumCtx over the contexts: their bindings go, but the contexts stay, as the code deletes
-- them from the index of WhenTime.
unfoldable pub expire_sums :
    (Context → Bool) → List (Context × List SumBinding) → Sums → List Channel × Sums
expire_sums over [] s = ([], s)
expire_sums over ((ctx, bindings) ∷ rest) s =
    if not (over ctx)
    then expire_sums over rest s
    else let (channels, s') = expire_sums over rest (gc_sums bindings false s) in
      (channels_of bindings ++ channels, s')

-- The bindings that the loop of ProcessWhenTimeSum reaches before its break.
unfoldable pub due_sums : ℕ → List SumBinding → List SumBinding
due_sums sum [] = []
due_sums sum (b ∷ bindings) =
    let rest = due_sums sum bindings in if ltb sum b.mtime then [] else b ∷ rest

-- ProcessWhenTimeSum
unfoldable pub process_when_time_sum : (Context → Bool) → ℕ → Sums → List Channel × Sums
process_when_time_sum over sum s =
    let (expired, s') = expire_sums over s.by_ctx s in
    let due = due_sums sum s'.bindings in (expired ++ channels_of due, gc_sums due true s')

-- CtxBinding by state: the contexts of NewStateCtx, each with its cancel function.
abbrev pub StateContexts : Type 0
StateContexts = List (String × Context)

-- ProcessStateCtx, whose two loops have one body: of the activated and then the deactivated states, the
-- contexts to cancel, and those that are left.
unfoldable pub process_state_ctx : States → StateContexts → List Context × StateContexts
process_state_ctx [] contexts = ([], contexts)
process_state_ctx (s ∷ states) contexts = elim (lookup s contexts) [
  | none ↦ process_state_ctx states contexts
  | some ctx ↦
      let (to_cancel, left) = process_state_ctx states (remove_key s contexts) in
      (ctx ∷ to_cancel, left)
]

-- NewStateCtx: the context of the state, a new one if there is none.
unfoldable pub new_state_ctx : String → Context → StateContexts → Context × StateContexts
new_state_ctx state ctx contexts = elim (lookup state contexts) [
  | some old ↦ (old, contexts)
  | none ↦ (ctx, put state ctx contexts)
]
