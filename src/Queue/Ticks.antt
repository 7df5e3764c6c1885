-- ===== src/Queue/Ticks.antt =====
-- machine.go: the ticks of queued mutations tell when they are processed.
use asyncmachine_go.Base.{
  ℕ, zero, suc, ◌+◌, ◌-◌, ◌^◌, ◌≡◌, ◌<◌, ◌∙◌, refl, sym, ap, subst, true, List, [], ◌∷◌, ◌++◌, some,
  if◌then◌else◌, ltb, arith, Bool-cases, inl, inr,
}
use asyncmachine_go.Machine.{u64}
use asyncmachine_go.Transition.{Mutation}
use asyncmachine_go.Queue.{Entry, Queue, queued_entry, push, prepend, shift}

-- The ticks of the entries that have one.
unfoldable pub ticks_of : List Entry → List ℕ
ticks_of [] = []
ticks_of (e ∷ entries) =
    let rest = ticks_of entries in if ltb 0 e.queue_tick then e.queue_tick ∷ rest else rest

-- n numbers from a first one.
unfoldable pub count_up : ℕ → ℕ → List ℕ
count_up first zero = []
count_up first (suc n) = first ∷ count_up (suc first) n

-- The pending ticks follow the queue's tick, one by one, with nothing near the end of uint64.
pub record IsOrdered (q : Queue) : Type 0 where
  pub in_order : ticks_of q.entries ≡ count_up (suc q.tick) q.pending
  pub room : q.tick + q.pending + 1 < 2 ^ 64

ticks_of-append :
    (entries : List Entry) (e : Entry)
    → ltb 0 e.queue_tick ≡ true
    → ticks_of (entries ++ (e ∷ [])) ≡ ticks_of entries ++ (e.queue_tick ∷ [])
unfolding ticks_of
ticks_of-append [] e h = rw h refl
ticks_of-append (x ∷ entries) e h = ground (arith, ticks_of-append entries e h)

count_up-suc : (first n : ℕ) → count_up first (suc n) ≡ count_up first n ++ ((first + n) ∷ [])
unfolding count_up
count_up-suc first zero = ground (arith)
count_up-suc first (suc n) = ground (arith, count_up-suc (suc first) n)

pushed_ticks :
    (ticks : List ℕ) (first n more last : ℕ)
    → ticks ≡ count_up first n
    → more ≡ suc n
    → last ≡ first + n
    → ticks ++ (last ∷ []) ≡ count_up first more
pushed_ticks ticks first n more last e e1 e2 = rw (e, e1, e2) (sym (count_up-suc first n))

-- A queued mutation gets the tick behind all pending ones, and the queue stays ordered.
pub push-IsOrdered :
    (mut : Mutation) (args : ℕ) (q : Queue)
    → IsOrdered q
    → q.tick + q.pending + 2 < 2 ^ 64
    → IsOrdered (push mut args q).0 × ((push mut args q).1 ≡ q.tick + q.pending + 1)
unfolding push
push-IsOrdered mut args q w room =
    let more : u64 (q.pending + 1) ≡ suc q.pending = omega arith in
    let last : u64 (u64 (q.pending + 1) + q.tick) ≡ suc q.tick + q.pending = omega arith in
    let starts : ltb 0 (u64 (u64 (q.pending + 1) + q.tick)) ≡ true = ground arith in
    (
      record {
        in_order =
            ticks_of-append q.entries (queued_entry mut args q) starts
            ∙ pushed_ticks (ticks_of q.entries) (suc q.tick) q.pending (u64 (q.pending + 1))
                (u64 (u64 (q.pending + 1) + q.tick)) w.in_order more last;
        room = rw more (omega arith);
      },
      omega arith,
    )

-- Prepending a mutation without a tick keeps the queue ordered.
pub prepend-IsOrdered :
    (e : Entry) (q : Queue) → e.queue_tick ≡ 0 → IsOrdered q → IsOrdered (prepend e q)
unfolding prepend ticks_of
prepend-IsOrdered e q none_yet w = record { in_order = ground (arith, w.in_order); room = w.room }

-- The queue behind a first entry.
shifted : (q : Queue) (x : Entry) (entries : List Entry) → Queue × ℕ
shifted q x entries =
    if ltb 0 x.queue_tick
    then (
      record { entries = entries; tick = u64 (q.tick + 1); pending = u64 (q.pending + 2 ^ 64 - 1) },
      x.queue_tick,
    )
    else (record q { entries = entries }, q.tick)

shift_cases :
    (q : Queue) (x : Entry) (entries : List Entry) (n : ℕ)
    → n ≡ q.pending
    → ticks_of (x ∷ entries) ≡ count_up (suc q.tick) n
    → q.tick + q.pending + 1 < 2 ^ 64
    → IsOrdered (shifted q x entries).0
      × ((shifted q x entries).0.tick ≡ (if ltb 0 x.queue_tick then x.queue_tick else q.tick))
unfolding ticks_of count_up shifted
shift_cases q x entries zero same order room = elim (Bool-cases (ltb 0 x.queue_tick)) [
  | inl timed ↦ absurd (ground (arith))
  | inr untimed ↦ rw untimed (record { in_order = ground (arith); room = room }, refl)
]
shift_cases q x entries (suc n) same order room = elim (Bool-cases (ltb 0 x.queue_tick)) [
  | inr untimed ↦ rw untimed (record { in_order = ground (arith); room = room }, refl)
  | inl timed ↦
      let up : u64 (q.tick + 1) ≡ suc q.tick = omega arith in
      let down : u64 (q.pending + 2 ^ 64 - 1) ≡ n = omega (arith, same) in
      rw timed (
        record { in_order = ground (arith, up, down); room = rw (up, down) (omega (arith, same)) },
        ground (arith, up),
      )
]

shift_entries :
    (q rest : Queue) (e : Entry) (entries : List Entry)
    → q.entries ≡ entries
    → IsOrdered q
    → shift q ≡ some (e, rest)
    → IsOrdered rest × (rest.tick ≡ (if ltb 0 e.queue_tick then e.queue_tick else q.tick))
unfolding shift shifted
shift_entries q rest e [] same w h = absurd (ground (arith))
shift_entries q rest e (x ∷ entries) same w h =
    let (ordered, tick) =
      shift_cases q x entries q.pending refl (ap ticks_of (sym same) ∙ w.in_order) w.room in
    let first : x ≡ e = ground (arith) in
    let left : (shifted q x entries).0 ≡ rest = ground (arith) in
    (subst IsOrdered left ordered, ground (arith, tick, first, left))

-- Shifting keeps the queue ordered, and when the shifted mutation has a tick, that is now the tick
-- of the queue.
pub shift-IsOrdered :
    (q rest : Queue) (e : Entry)
    → IsOrdered q
    → shift q ≡ some (e, rest)
    → IsOrdered rest × (rest.tick ≡ (if ltb 0 e.queue_tick then e.queue_tick else q.tick))
shift-IsOrdered q rest e w h = shift_entries q rest e q.entries refl w h
