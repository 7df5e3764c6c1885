-- ===== src/Relations/Add.antt =====
-- relations.go: parseAdd. One round over the argument is enough, and what it appends.
use asyncmachine_go.Base.{
  ◌≡◌, refl, ap, Bool, true, false, not, [], ◌∷◌, String, contains, string_eq, int_eq, arith, All,
  All-member, inl, inr, ◌⊎◌, contains-append, contains_self, contains-tail, beq_refl,
}
use asyncmachine_go.Schema.{States}
use asyncmachine_go.Relations.Defs.{
  Context, AddLoop, add_states, add_skips, add_pass, add_loop, add_start, parse_add,
}

-- A state that a further round leaves alone.
abbrev IsSettled : Context → States → String → Type 0
IsSettled c visited name = (add_skips c visited name ≡ true) ⊎ (add_states c name ≡ [])

-- A state that the first visit does not skip.
abbrev pub is_eligible : Context → String → Bool
is_eligible c name = not (add_skips c [] name)

abbrev visit : Context → String → AddLoop → AddLoop
visit c name l = add_pass c (name ∷ []) l

visit-IsSettled :
    (c : Context) (name : String) (l : AddLoop) → IsSettled c (visit c name l).visited name
unfolding add_pass contains
visit-IsSettled c name l = ground (arith, contains-append l.visited (name ∷ []) name, beq_refl name)

visit-keeps :
    (c : Context) (name other : String) (l : AddLoop)
    → IsSettled c l.visited other
    → IsSettled c (visit c name l).visited other
unfolding add_pass contains
visit-keeps c name other l s = ground (arith, contains-append l.visited (name ∷ []) other)

add_pass-cons :
    (c : Context) (name : String) (states : States) (l : AddLoop)
    → add_pass c (name ∷ states) l ≡ add_pass c states (visit c name l)
unfolding add_pass
add_pass-cons c name states l = refl

add_pass-keeps :
    (c : Context) (states : States) (other : String) (l : AddLoop)
    → IsSettled c l.visited other
    → IsSettled c (add_pass c states l).visited other
add_pass-keeps c [] other l s = unfold add_pass in s
add_pass-keeps c (name ∷ states) other l s =
    rw add_pass-cons (add_pass-keeps c states other (visit c name l) (visit-keeps c name other l s))

add_pass-IsSettled :
    (c : Context) (states : States) (l : AddLoop)
    → All (IsSettled c (add_pass c states l).visited) states
unfolding add_pass
add_pass-IsSettled c [] l = tt
add_pass-IsSettled c (name ∷ states) l = rw add_pass-cons (
  add_pass-keeps c states name (visit c name l) (visit-IsSettled c name l),
  add_pass-IsSettled c states (visit c name l),
)

visit_of_IsSettled :
    (c : Context) (name : String) (l : AddLoop) → IsSettled c l.visited name → visit c name l ≡ l
unfolding add_pass
visit_of_IsSettled c name l s = ground arith

add_pass_of_IsSettled :
    (c : Context) (states : States) (l : AddLoop)
    → All (IsSettled c l.visited) states
    → add_pass c states l ≡ l
add_pass_of_IsSettled c [] l s = unfold add_pass in refl
add_pass_of_IsSettled c (name ∷ states) l s =
    rw (add_pass-cons, visit_of_IsSettled c name l s.0) (add_pass_of_IsSettled c states l s.1)

abbrev first_round : Context → States → AddLoop
first_round c states = add_pass c states (record (add_start states) { changed = false })

second_round :
    (c : Context) (states : States)
    → add_pass c states (record (first_round c states) { changed = false })
      ≡ record (first_round c states) { changed = false }
second_round c states =
    add_pass_of_IsSettled c states (record (first_round c states) { changed = false })
      (add_pass-IsSettled c states (record (add_start states) { changed = false }))

round_of_stable :
    (c : Context) (states : States) (l : AddLoop)
    → add_pass c states (record l { changed = false }) ≡ record l { changed = false }
    → add_loop 1 c states l ≡ record l { changed = false }
unfolding add_loop
round_of_stable c states l h = ground arith

add_loop-eq :
    (c : Context) (states : States)
    → add_loop 2 c states (add_start states) ≡ record (first_round c states) { changed = false }
unfolding add_loop
add_loop-eq c states = round_of_stable c states (first_round c states) (second_round c states)

-- The loop of parseAdd has ended by its own test after at most two rounds.
pub add_loop_ends :
    (c : Context) (states : States) → (add_loop 2 c states (add_start states)).changed ≡ false
add_loop_ends c states = ap (λ l. l.changed) (add_loop-eq c states)

parse_add-eq : (c : Context) (states : States) → parse_add c states ≡ (first_round c states).ret
unfolding parse_add
parse_add-eq c states = ap (λ l. l.ret) (add_loop-eq c states)

visit-grows :
    (c : Context) (name : String) (l : AddLoop) (a : String)
    → contains l.ret a ≡ true
    → contains (visit c name l).ret a ≡ true
unfolding add_pass
visit-grows c name l a h = ground (arith, contains-append l.ret (add_states c name) a)

add_pass-grows :
    (c : Context) (states : States) (l : AddLoop) (a : String)
    → contains l.ret a ≡ true
    → contains (add_pass c states l).ret a ≡ true
add_pass-grows c [] l a h = unfold add_pass in h
add_pass-grows c (name ∷ states) l a h =
    rw add_pass-cons (add_pass-grows c states (visit c name l) a (visit-grows c name l a h))

-- What the loop appends, by its own tests.
abbrev pub IsAppended : Context → States → String → Type 0
IsAppended c states a =
    (name : String) × (contains states name ≡ true)
    × (is_eligible c name ≡ true)
    × (contains (add_states c name) a ≡ true)

visit_origin :
    (c : Context) (name : String) (l : AddLoop) (a : String)
    → contains (visit c name l).ret a ≡ true
    → (contains l.ret a ≡ true)
      ⊎ ((is_eligible c name ≡ true) × (contains (add_states c name) a ≡ true))
unfolding add_pass contains
visit_origin c name l a h = ground (arith, contains-append l.ret (add_states c name) a)

add_pass_origin :
    (c : Context) (states : States) (l : AddLoop) (a : String)
    → contains (add_pass c states l).ret a ≡ true
    → (contains l.ret a ≡ true) ⊎ IsAppended c states a
add_pass_origin c [] l a h = inl (unfold add_pass in h)
add_pass_origin c (name ∷ states) l a h =
    elim (add_pass_origin c states (visit c name l) a (rw add_pass-cons at h)) [
      | inr (n, m, ok, imp) ↦ inr (n, contains-tail name n states m, ok, imp)
      | inl early ↦ elim (visit_origin c name l a early) [
        | inl old ↦ inl old
        | inr (ok, imp) ↦ inr (name, contains_self name states, ok, imp)
      ]
    ]

-- What the states visited so far imply is in the result.
abbrev HasVisited : Context → AddLoop → Type 0
HasVisited c l =
    (name a : String)
    → contains l.visited name ≡ true
    → contains (add_states c name) a ≡ true
    → contains l.ret a ≡ true

visit-HasVisited :
    (c : Context) (name : String) (l : AddLoop) → HasVisited c l → HasVisited c (visit c name l)
unfolding add_pass contains
visit-HasVisited c name l v other a seen h = ground (
  arith,
  contains-append l.visited (name ∷ []) other,
  contains-append l.ret (add_states c name) a,
  string_eq.beq_iff name other,
  v other a,
)

add_pass-HasVisited :
    (c : Context) (states : States) (l : AddLoop)
    → HasVisited c l
    → HasVisited c (add_pass c states l)
add_pass-HasVisited c [] l v = unfold add_pass in v
add_pass-HasVisited c (name ∷ states) l v =
    rw add_pass-cons (add_pass-HasVisited c states (visit c name l) (visit-HasVisited c name l v))

-- Every state of the argument is in the result.
pub parse_add-grows :
    (c : Context) (states : States) (a : String)
    → contains states a ≡ true
    → contains (parse_add c states) a ≡ true
parse_add-grows c states a h =
    rw parse_add-eq (add_pass-grows c states (record (add_start states) { changed = false }) a h)

-- Whatever else is in it is appended.
pub IsAppended-origin :
    (c : Context) (states : States) (a : String)
    → contains (parse_add c states) a ≡ true
    → (contains states a ≡ true) ⊎ IsAppended c states a
IsAppended-origin c states a h =
    add_pass_origin c states (record (add_start states) { changed = false }) a
      (rw parse_add-eq at h)

settled_visited :
    (c : Context) (visited : States) (name a : String)
    → IsSettled c visited name
    → is_eligible c name ≡ true
    → contains (add_states c name) a ≡ true
    → contains visited name ≡ true
unfolding contains add_skips
settled_visited c visited name a s ok h = ground arith

-- Everything that is appended is in it.
pub parse_add_of_IsAppended :
    (c : Context) (states : States) (a : String)
    → IsAppended c states a
    → contains (parse_add c states) a ≡ true
parse_add_of_IsAppended c states a (name, here, ok, imp) =
    let start : AddLoop = record (add_start states) { changed = false } in
    let settled =
      All-member (IsSettled c (add_pass c states start).visited) states name
        (add_pass-IsSettled c states start) here in
    rw parse_add-eq (
      add_pass-HasVisited c states start (λ n b seen _. absurd (unfold contains in cc seen)) name a
        (settled_visited c (add_pass c states start).visited name a settled ok imp) imp)
