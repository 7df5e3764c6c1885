-- ===== src/Transition/Refused/Steps.antt =====
-- transition.go: the steps of the negotiation, each with a handler that refuses.
use asyncmachine_go.Base.{
  ℕ, zero, suc, ◌+◌, ◌≤◌, ◌<◌, ◌≡◌, ◌≢◌, refl, ap, ◌∙◌, Bool, true, false, ◌&&◌, ◌||◌, List, [],
  ◌∷◌, ◌++◌, String, Option, none, some, contains, length, get_or, if◌then◌else◌, string_eq, arith,
  ◌==◌, Bool-cases, inl, inr, contains-cons_cases,
}
use asyncmachine_go.Text.{join_text}
use asyncmachine_go.Schema.{States}
use asyncmachine_go.Machine.{Machine}
use asyncmachine_go.Machine.Checks.{is}
use asyncmachine_go.Transition.{Mutation}
use asyncmachine_go.Transition.Emit.{
  Run, unless_canceled, handle, negotiate, emit_exit, emit_enter, emit_self, emit_pair, self_from,
  pairs_from, pairs_with, all_pairs, emit_exit_events, emit_enter_events, emit_self_events,
  emit_state_state_events,
}
use asyncmachine_go.Transition.Run.{cancel_empty_auto, on_run}
use asyncmachine_go.Transition.Kept.{handle-targets, not_partial, IsKept}

-- Whatever a step of the negotiation gives is canceled.
unfoldable pub Cancels : Option Run → Type 0
Cancels o = (q : Run) → o ≡ some q → q.is_canceled ≡ true

pub unless_canceled-Cancels :
    (step : Run → Option Run) (o : Option Run) → Cancels o → Cancels (unless_canceled step o)
unfolding unless_canceled Cancels
unless_canceled-Cancels step none before q h = before q h
unless_canceled-Cancels step (some r) before q h = ground (arith, before r refl)

-- A step that always cancels.
pub always-Cancels :
    (step : Run → Option Run) (o : Option Run)
    → ((q : Run) → Cancels (step q))
    → Cancels (unless_canceled step o)
unfolding unless_canceled Cancels
always-Cancels step none stops q h = absurd (ground (arith))
always-Cancels step (some p) stops q h = elim (Bool-cases p.is_canceled) [
  | inl c ↦ ground (arith)
  | inr c ↦ stops p q (ground (arith))
]

pub cancel_empty_auto-Cancels :
    (mut : Mutation) (o : Option Run) → Cancels o → Cancels (on_run (cancel_empty_auto mut) o)
unfolding cancel_empty_auto Cancels
cancel_empty_auto-Cancels mut none before q h = absurd (ground (arith))
cancel_empty_auto-Cancels mut (some r) before q h = ground (arith, before r refl)

pub if-Cancels :
    (b : Bool) (o o' : Option Run) → Cancels o → Cancels o' → Cancels (if b then o else o')
if-Cancels true o o' h h' = h
if-Cancels false o o' h h' = h'

unfoldable has_pair : String → String → List (String × String) → Bool
has_pair before after [] = false
has_pair before after ((x, y) ∷ pairs) = (x == before && y == after) || has_pair before after pairs

position_of :
    (states : States) (s : String)
    → contains states s ≡ true
    → (j : ℕ) × (j < length states) × (get_or states j "" ≡ s)
position_of [] s m = unfold contains in absurd (ground (arith))
position_of (x ∷ states) s m = elim (contains-cons_cases x states s m) [
  | inl e ↦ (0, omega arith, ground (arith))
  | inr rest ↦
      let (j, below, found) = position_of states s rest.1 in (suc j, omega (arith, below), found)
]

module _ (accepts : States → String → Bool) (m : Machine) (mut : Mutation) where
  -- A step that cancels whenever the target states are still those of `r`.
  pub stepped-Cancels :
      (step : Run → Option Run) (o : Option Run) (r : Run)
      → IsKept accepts m mut r o
      → ((q : Run) → q.targets ≡ r.targets → Cancels (step q))
      → Cancels (unless_canceled step o)
  unfolding unless_canceled Cancels IsKept
  stepped-Cancels step none r kept stops q h = absurd (ground (arith))
  stepped-Cancels step (some p) r kept stops q h = elim (Bool-cases p.is_canceled) [
    | inl c ↦ ground (arith)
    | inr c ↦ stops p (kept p refl) q (ground (arith))
  ]

  -- The handler of the event refuses, whatever was sent before.
  abbrev pub Refuses : String → Type 0
  Refuses name = (events : States) → accepts events name ≡ false

  pub handle-refused :
      (to name : String) (is_enter : Bool) (r : Run)
      → Refuses name
      → (handle accepts m mut to name is_enter r).is_canceled ≡ true
  unfolding handle
  handle-refused to name is_enter r no_way = ground (arith, no_way r.events)

  negotiate-Cancels :
      (emit : String → Run → Run) (states : States) (s : String) (r : Run)
      → mut.is_auto ≡ false
      → contains states s ≡ true
      → ((q : Run) → (emit s q).is_canceled ≡ true)
      → Cancels (negotiate accepts m mut emit states r)
  unfolding negotiate Cancels
  negotiate-Cancels emit [] s r manual here stops q h = unfold contains in absurd (ground (arith))
  negotiate-Cancels emit (x ∷ states) s r manual here stops q h =
      elim (Bool-cases (emit x r).is_canceled) [
        | inl c ↦ ground (arith, not_partial accepts m mut x manual)
        | inr c ↦ elim (contains-cons_cases x states s here) [
          | inl e ↦ absurd (ground (arith, stops r))
          | inr rest ↦
              negotiate-Cancels emit states s (emit x r) manual rest.1 stops q (ground (arith))
        ]
      ]

  pairs_from-Cancels :
      (pairs : List (String × String)) (before after : String) (r : Run)
      → mut.is_auto ≡ false
      → has_pair before after pairs ≡ true
      → Refuses (join_text before after)
      → Cancels (pairs_from accepts m mut pairs r)
  unfolding pairs_from emit_pair has_pair Cancels
  pairs_from-Cancels [] before after r manual here no_way q h = absurd (ground (arith))
  pairs_from-Cancels ((x, y) ∷ pairs) before after r manual here no_way q h =
      let next = handle accepts m mut "" (join_text x y) false r in
      elim (Bool-cases next.is_canceled) [
        | inl c ↦ ground (arith, not_partial accepts m mut y manual)
        | inr c ↦ elim (Bool-cases (x == before && y == after)) [
          | inl same ↦ absurd (
              ground (
                arith,
                handle-refused "" (join_text before after) false r no_way,
                string_eq.beq_iff x before,
                string_eq.beq_iff y after,
              ))
          | inr other ↦
              pairs_from-Cancels pairs before after next manual (ground (arith)) no_way q
                (ground (arith))
        ]
      ]

  has_pair-append :
      (before after : String) (xs ys : List (String × String))
      → has_pair before after (xs ++ ys) ≡ (has_pair before after xs || has_pair before after ys)
  unfolding has_pair
  has_pair-append before after [] ys = refl
  has_pair-append before after ((x, y) ∷ xs) ys = ground (arith, has_pair-append before after xs ys)

  has_pair-pairs_with :
      (before after : String) (states : States)
      → contains states after ≡ true
      → (before == after) ≡ false
      → has_pair before after (pairs_with accepts m mut before states) ≡ true
  unfolding has_pair pairs_with contains
  has_pair-pairs_with before after [] here apart = absurd (ground (arith))
  has_pair-pairs_with before after (x ∷ states) here apart = ground (
    arith,
    has_pair-pairs_with before after states,
    string_eq.beq_iff x after,
    string_eq.beq_iff before before,
    string_eq.beq_iff before after,
    string_eq.beq_iff before x,
  )

  has_pair-all_pairs :
      (befores afters : States) (before after : String)
      → contains befores before ≡ true
      → contains afters after ≡ true
      → (before == after) ≡ false
      → has_pair before after (all_pairs accepts m mut befores afters) ≡ true
  unfolding all_pairs contains
  has_pair-all_pairs [] afters before after here there apart = absurd (ground (arith))
  has_pair-all_pairs (x ∷ befores) afters before after here there apart = ground (
    arith,
    has_pair-append before after (pairs_with accepts m mut x afters)
        (all_pairs accepts m mut befores afters),
    has_pair-pairs_with before after afters there apart,
    has_pair-all_pairs befores afters before after,
    string_eq.beq_iff x before,
  )

  self_from-Cancels :
      (n i j : ℕ) (s : String) (r : Run)
      → mut.is_auto ≡ false
      → i ≤ j
      → j < i + n
      → get_or r.targets j "" ≡ s
      → is m (s ∷ []) ≡ true
      → Refuses (join_text s s)
      → Cancels (self_from accepts m mut n i r)
  unfolding self_from emit_self Cancels
  self_from-Cancels zero i j s r manual low high here on no_way q h =
      absurd (omega (arith, low, high))
  self_from-Cancels (suc n) i j s r manual low high here on no_way q h =
      let x = get_or r.targets i "" in
      let next = handle accepts m mut x (join_text x x) false r in
      let later : x ≢ s → suc i ≤ j = λ apart. ground (arith) in
      elim (Bool-cases (is m (x ∷ []))) [
        | inr off ↦
            self_from-Cancels n (suc i) j s r manual (later λ e. ground (arith))
              (omega (arith, high)) here on no_way q (ground (arith))
        | inl active ↦ elim (Bool-cases next.is_canceled) [
          | inl c ↦ ground (arith, not_partial accepts m mut x manual)
          | inr c ↦
              self_from-Cancels n (suc i) j s next manual
                (later λ e. ground (arith, handle-refused s (join_text s s) false r no_way))
                (omega (arith, high))
                (ap (λ ts. get_or ts j "") (handle-targets accepts m mut x (join_text x x) false r)
                  ∙ here)
                on no_way q (ground (arith))
        ]
      ]

  pub exit-Cancels :
      (exits : States) (s : String) (r : Run)
      → mut.is_auto ≡ false
      → contains exits s ≡ true
      → Refuses (join_text s "Exit")
      → Cancels (emit_exit_events accepts m mut exits r)
  unfolding emit_exit_events emit_exit
  exit-Cancels exits s r manual here no_way =
      negotiate-Cancels (emit_exit accepts m mut) exits s r manual here
        λ q. handle-refused "" (join_text s "Exit") false q no_way

  pub enter-Cancels :
      (enters : States) (s : String) (r : Run)
      → mut.is_auto ≡ false
      → contains enters s ≡ true
      → Refuses (join_text s "Enter")
      → Cancels (emit_enter_events accepts m mut enters r)
  unfolding emit_enter_events emit_enter
  enter-Cancels enters s r manual here no_way =
      negotiate-Cancels (emit_enter accepts m mut) enters s r manual here
        λ q. handle-refused s (join_text s "Enter") true q no_way

  pub self-Cancels :
      (s : String) (r : Run)
      → mut.is_auto ≡ false
      → contains r.targets s ≡ true
      → is m (s ∷ []) ≡ true
      → Refuses (join_text s s)
      → Cancels (emit_self_events accepts m mut r)
  unfolding emit_self_events
  self-Cancels s r manual here on no_way =
      let (j, below, found) = position_of r.targets s here in
      self_from-Cancels (length r.targets) 0 j s (record r { is_canceled = false }) manual
        (omega arith) (omega (arith, below)) found on no_way

  pub pair-Cancels :
      (befores : States) (before after : String) (r : Run)
      → mut.is_auto ≡ false
      → contains befores before ≡ true
      → contains r.targets after ≡ true
      → (before == after) ≡ false
      → Refuses (join_text before after)
      → Cancels (emit_state_state_events accepts m mut befores r)
  unfolding emit_state_state_events
  pair-Cancels befores before after r manual here there apart no_way =
      pairs_from-Cancels (all_pairs accepts m mut befores r.targets) before after r manual
        (has_pair-all_pairs befores r.targets before after here there apart) no_way
