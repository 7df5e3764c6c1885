-- ===== src/Relations/Block.antt =====
-- relations.go: the filter of TargetStates that drops the states blocked by a Remove relation.
use asyncmachine_go.Base.{
  ◌≡◌, subst, Bool, true, false, not, [], ◌∷◌, String, contains, string_eq, arith, Bool-cases, inl,
  inr, ◌⊎◌, IsDistinct, IsSubset, contains_self, contains-tail, is_empty, contains_of_is_empty,
  contains-cons_mono, contains-cons_cases,
}
use asyncmachine_go.Schema.{States, items, state_of}
use asyncmachine_go.Slices.{slices_filter}
use asyncmachine_go.Slices.Laws.{contains-slices_filter}
use asyncmachine_go.Relations.Defs.{Context, state_blocked_by, block_pass}

-- The blockers of a state that are not blocked themselves.
abbrev pub blockers : Context → States → States → String → States
blockers c setting blocked name =
    slices_filter (state_blocked_by c setting name) λ by. not (contains blocked by)

abbrev pub is_free : Context → States → States → String → Bool
is_free c setting blocked name = is_empty (blockers c setting blocked name)

pub block_pass_free :
    (c : Context) (setting blocked : States) (name : String) (states : States)
    → is_free c setting blocked name ≡ true
    → block_pass c setting blocked (name ∷ states) ≡ name ∷ block_pass c setting blocked states
unfolding block_pass
block_pass_free c setting blocked name states h = rw h

block_pass_blocked :
    (c : Context) (setting blocked : States) (name : String) (states : States)
    → is_free c setting blocked name ≡ false
    → block_pass c setting blocked (name ∷ states) ≡ block_pass c setting (name ∷ blocked) states
unfolding block_pass
block_pass_blocked c setting blocked name states h = rw h

pub block_pass-IsSubset :
    (c : Context) (setting blocked states : States)
    → IsSubset (block_pass c setting blocked states) states
block_pass-IsSubset c setting blocked [] a h = unfold block_pass in h
block_pass-IsSubset c setting blocked (name ∷ states) a h =
    elim (Bool-cases (is_free c setting blocked name)) [
      | inl free ↦
          contains-cons_mono name (block_pass c setting blocked states) states a
            (block_pass-IsSubset c setting blocked states a)
            (rw (block_pass_free c setting blocked name states free) at h)
      | inr held ↦ contains-tail name a states (
          block_pass-IsSubset c setting (name ∷ blocked) states a
            (rw (block_pass_blocked c setting blocked name states held) at h))
    ]

not_in :
    (c : Context) (setting blocked states : States) (a : String)
    → contains states a ≡ false
    → contains (block_pass c setting blocked states) a ≡ false
not_in c setting blocked states a h = ground (arith, block_pass-IsSubset c setting blocked states a)

pub block_pass-IsDistinct :
    (c : Context) (setting blocked states : States)
    → IsDistinct states
    → IsDistinct (block_pass c setting blocked states)
block_pass-IsDistinct c setting blocked [] d = unfold block_pass in tt
block_pass-IsDistinct c setting blocked (name ∷ states) d =
    elim (Bool-cases (is_free c setting blocked name)) [
      | inl free ↦ rw (block_pass_free c setting blocked name states free) (
        not_in c setting blocked states name d.0,
        block_pass-IsDistinct c setting blocked states d.1,
      )
      | inr held ↦
          rw (block_pass_blocked c setting blocked name states held)
            (block_pass-IsDistinct c setting (name ∷ blocked) states d.1)
    ]

-- A state has another in its Remove relation.
abbrev pub removes : Context → String → String → Bool
removes c by name = contains (items (state_of c.schema by).remove) name

free_blocked :
    (c : Context) (setting blocked : States) (name by : String)
    → is_free c setting blocked name ≡ true
    → contains setting by ≡ true
    → removes c by name ≡ true
    → contains blocked by ≡ true
unfolding state_blocked_by
free_blocked c setting blocked name by h s r = ground (
  arith,
  contains_of_is_empty (blockers c setting blocked name) by h,
  contains-slices_filter (state_blocked_by c setting name) (λ by. not (contains blocked by)) by,
  contains-slices_filter setting (λ by. removes c by name) by,
)

-- A blocker of a kept state was blocked before, or is dropped.
kept_blocker :
    (c : Context) (setting blocked states : States) (name by : String)
    → IsDistinct states
    → contains (block_pass c setting blocked states) name ≡ true
    → contains setting by ≡ true
    → removes c by name ≡ true
    → (contains blocked by ≡ true)
      ⊎ ((contains states by ≡ true) × (contains (block_pass c setting blocked states) by ≡ false))
kept_blocker c setting blocked [] name by d h s r =
    absurd (unfold block_pass contains in ground (arith, h))
kept_blocker c setting blocked (n ∷ states) name by d h s r =
    elim (Bool-cases (is_free c setting blocked n)) [
      | inl free ↦
          let same = block_pass_free c setting blocked n states free in
          elim (contains-cons_cases n (block_pass c setting blocked states) name (rw same at h)) [
            | inl here ↦ inl (
                free_blocked c setting blocked name by
                  (subst (λ m. is_free c setting blocked m ≡ true) here free) s r)
            | inr (_, later) ↦ elim (kept_blocker c setting blocked states name by d.1 later s r) [
              | inl old ↦ inl old
              | inr (m, out) ↦
                  inr (contains-tail n by states m, rw same (cons_out n states _ by d.0 m out))
            ]
          ]
      | inr held ↦
          let same = block_pass_blocked c setting blocked n states held in
          elim (kept_blocker c setting (n ∷ blocked) states name by d.1 (rw same at h) s r) [
            | inl old ↦ elim (contains-cons_cases n blocked by old) [
              | inl here ↦ inr (
                subst (λ m. contains (n ∷ states) m ≡ true) here (contains_self n states),
                rw same (
                    subst (λ m. contains (block_pass c setting (n ∷ blocked) states) m ≡ false) here
                      (not_in c setting (n ∷ blocked) states n d.0)),
              )
              | inr (_, older) ↦ inl older
            ]
            | inr (m, out) ↦ inr (contains-tail n by states m, rw same out)
          ]
    ]
  where
    cons_out :
        (x : String) (xs ys : States) (a : String)
        → contains xs x ≡ false
        → contains xs a ≡ true
        → contains ys a ≡ false
        → contains (x ∷ ys) a ≡ false
    cons_out x xs ys a apart m out = unfold contains in ground (arith, string_eq.beq_iff x a)

-- Of the states that the filter keeps, none has another in its Remove relation.
pub block_pass-NoConflict :
    (c : Context) (setting states : States) (name by : String)
    → IsDistinct states
    → IsSubset states setting
    → contains (block_pass c setting [] states) name ≡ true
    → contains (block_pass c setting [] states) by ≡ true
    → removes c by name ≡ false
block_pass-NoConflict c setting states name by d sub h k = elim (Bool-cases (removes c by name)) [
  | inr no_relation ↦ no_relation
  | inl relation ↦
      let within = sub by (block_pass-IsSubset c setting [] states by k) in
      elim (kept_blocker c setting [] states name by d h within relation) [
        | inl old ↦ absurd (unfold contains in ground (arith, old))
        | inr (_, out) ↦ absurd (ground (arith, out))
      ]
]
