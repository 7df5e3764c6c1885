-- ===== src/Relations/Require.antt =====
-- relations.go: parseRequire. Its result is the largest part of its argument in which every
-- state has all the states that it requires.
use asyncmachine_go.Base.{
  ℕ, zero, suc, ◌+◌, ◌≤◌, ◌<◌, ◌≡◌, refl, sym, ap, true, false, not, [], ◌∷◌, String, contains,
  string_eq, arith, is_empty, contains_of_is_empty, Bool-cases, inl, inr, ◌⊎◌, length, nat_beq,
  nat_beq_iff, IsDistinct, IsSubset, contains_self, contains-tail,
}
use asyncmachine_go.Schema.{States, items, state_of}
use asyncmachine_go.Slices.{slices_filter}
use asyncmachine_go.Slices.Laws.{
  contains-slices_filter, slices_filter-eq_of_length, length-slices_filter,
  slices_filter-IsDistinct,
}
use asyncmachine_go.Relations.Defs.{
  Context, get_missing_requires, require_pass, require_loop, parse_require,
}

-- Every state of the list has all the states that it requires in the list.
abbrev pub IsRequireClosed : Context → States → Type 0
IsRequireClosed c targets =
    (name req : String)
    → contains targets name ≡ true
    → contains (items (state_of c.schema name).require) req ≡ true
    → contains targets req ≡ true

length-require_pass : (c : Context) (ts : States) → length (require_pass c ts) ≤ length ts
unfolding require_pass
length-require_pass c ts = length-slices_filter ts λ name. is_empty (get_missing_requires c name ts)

require_pass_of_length :
    (c : Context) (ts : States) → length (require_pass c ts) ≡ length ts → require_pass c ts ≡ ts
unfolding require_pass
require_pass_of_length c ts =
    slices_filter-eq_of_length ts λ name. is_empty (get_missing_requires c name ts)

-- Enough fuel: one more round than there are states to drop.
IsFuelled : ℕ → ℕ → States → Type 0
IsFuelled fuel before ts = ((before ≡ length ts) × (0 < fuel)) ⊎ (length ts + 1 < fuel)

next_IsFuelled :
    (c : Context) (fuel before : ℕ) (ts : States)
    → IsFuelled (suc fuel) before ts
    → nat_beq before (length ts) ≡ false
    → IsFuelled fuel (length ts) (require_pass c ts)
unfolding IsFuelled
next_IsFuelled c fuel before ts h more = ground (arith, length-require_pass c ts)

require_loop_stop :
    (fuel : ℕ) (c : Context) (before : ℕ) (ts : States)
    → nat_beq before (length ts) ≡ true
    → require_loop (suc fuel) c before ts ≡ ts
unfolding require_loop
require_loop_stop fuel c before ts h = ground arith

require_loop_next :
    (fuel : ℕ) (c : Context) (before : ℕ) (ts : States)
    → nat_beq before (length ts) ≡ false
    → require_loop (suc fuel) c before ts ≡ require_loop fuel c (length ts) (require_pass c ts)
unfolding require_loop
require_loop_next fuel c before ts h = ground arith

require_loop-IsFixed :
    (fuel : ℕ) (c : Context) (before : ℕ) (ts : States)
    → IsFuelled fuel before ts
    → (before ≡ length ts → require_pass c ts ≡ ts)
    → require_pass c (require_loop fuel c before ts) ≡ require_loop fuel c before ts
require_loop-IsFixed zero c before ts h stable = absurd (unfold IsFuelled in omega (arith, h))
require_loop-IsFixed (suc fuel) c before ts h stable =
    elim (Bool-cases (nat_beq before (length ts))) [
      | inl same ↦
          rw (require_loop_stop fuel c before ts same)
            (stable ((nat_beq_iff before (length ts)).0 same))
      | inr other ↦ rw (require_loop_next fuel c before ts other) (
          require_loop-IsFixed fuel c (length ts) (require_pass c ts)
            (next_IsFuelled c fuel before ts h other)
            λ e. ap (require_pass c) (require_pass_of_length c ts (sym e)))
    ]

-- The loop of parseRequire has ended: a further round changes nothing.
pub require_loop_ends :
    (c : Context) (ts : States) → require_pass c (parse_require c ts) ≡ parse_require c ts
unfolding parse_require
require_loop_ends c ts =
    require_loop-IsFixed (suc (suc (length ts))) c 0 ts (unfold IsFuelled in inr (omega arith))
      (start ts)
  where
    start : (xs : States) → 0 ≡ length xs → require_pass c xs ≡ xs
    start [] e = unfold require_pass slices_filter in refl
    start (x ∷ xs) e = absurd (omega (arith, e))

require_pass-IsDistinct :
    (c : Context) (ts : States) → IsDistinct ts → IsDistinct (require_pass c ts)
unfolding require_pass
require_pass-IsDistinct c ts =
    slices_filter-IsDistinct ts λ name. is_empty (get_missing_requires c name ts)

require_loop-IsDistinct :
    (fuel : ℕ) (c : Context) (before : ℕ) (ts : States)
    → IsDistinct ts
    → IsDistinct (require_loop fuel c before ts)
require_loop-IsDistinct zero c before ts d = unfold require_loop in d
require_loop-IsDistinct (suc fuel) c before ts d = elim (Bool-cases (nat_beq before (length ts))) [
  | inl same ↦ rw (require_loop_stop fuel c before ts same) d
  | inr other ↦ rw (require_loop_next fuel c before ts other) (
      require_loop-IsDistinct fuel c (length ts) (require_pass c ts)
        (require_pass-IsDistinct c ts d))
]

pub parse_require-IsDistinct :
    (c : Context) (ts : States) → IsDistinct ts → IsDistinct (parse_require c ts)
unfolding parse_require
parse_require-IsDistinct c ts = require_loop-IsDistinct (suc (suc (length ts))) c 0 ts

require_pass-IsSubset : (c : Context) (ts : States) → IsSubset (require_pass c ts) ts
unfolding require_pass
require_pass-IsSubset c ts a h =
    ground (arith, contains-slices_filter ts (λ name. is_empty (get_missing_requires c name ts)) a)

require_loop-IsSubset :
    (fuel : ℕ) (c : Context) (before : ℕ) (ts : States)
    → IsSubset (require_loop fuel c before ts) ts
require_loop-IsSubset zero c before ts a h = unfold require_loop in h
require_loop-IsSubset (suc fuel) c before ts a h = elim (Bool-cases (nat_beq before (length ts))) [
  | inl same ↦ rw (require_loop_stop fuel c before ts same) at h
  | inr other ↦ require_pass-IsSubset c ts a (
      require_loop-IsSubset fuel c (length ts) (require_pass c ts) a
        (rw (require_loop_next fuel c before ts other) at h))
]

-- parseRequire adds nothing.
pub parse_require-IsSubset : (c : Context) (ts : States) → IsSubset (parse_require c ts) ts
unfolding parse_require
parse_require-IsSubset c ts = require_loop-IsSubset (suc (suc (length ts))) c 0 ts

missing_none :
    (c : Context) (name req : String) (ts : States)
    → is_empty (get_missing_requires c name ts) ≡ true
    → contains (items (state_of c.schema name).require) req ≡ true
    → contains ts req ≡ true
unfolding get_missing_requires contains
missing_none c name req ts h r = ground (
  arith,
  contains-slices_filter (items (state_of c.schema name).require) (λ req. not (contains ts req))
      req,
  contains_of_is_empty (get_missing_requires c name ts) req h,
)

fixed-IsRequireClosed : (c : Context) (ts : States) → require_pass c ts ≡ ts → IsRequireClosed c ts
unfolding require_pass
fixed-IsRequireClosed c ts e name req m r =
    missing_none c name req ts
      (ground (
        arith,
        ap (λ xs. contains xs name) e,
        contains-slices_filter ts (λ name. is_empty (get_missing_requires c name ts)) name,
      ))
      r

-- What parseRequire keeps is closed under Require.
pub parse_require-IsRequireClosed :
    (c : Context) (ts : States) → IsRequireClosed c (parse_require c ts)
parse_require-IsRequireClosed c ts = fixed-IsRequireClosed c _ (require_loop_ends c ts)

none_missing :
    (ts reqs : States)
    → IsSubset reqs ts
    → is_empty (slices_filter reqs λ req. not (contains ts req)) ≡ true
unfolding slices_filter
none_missing ts [] all = refl
none_missing ts (r ∷ reqs) all = ground (
  arith,
  all r (contains_self r reqs),
  none_missing ts reqs λ a m. all a (contains-tail r a reqs m),
)

require_pass_of_closed :
    (c : Context) (ts us : States)
    → IsRequireClosed c us
    → IsSubset us ts
    → IsSubset us (require_pass c ts)
unfolding require_pass get_missing_requires
require_pass_of_closed c ts us closed sub a h = ground (
  arith,
  contains-slices_filter ts (λ name. is_empty (get_missing_requires c name ts)) a,
  sub a h,
  none_missing ts (items (state_of c.schema a).require) λ req r. sub req (closed a req h r),
)

require_loop_of_closed :
    (fuel : ℕ) (c : Context) (before : ℕ) (ts us : States)
    → IsRequireClosed c us
    → IsSubset us ts
    → IsSubset us (require_loop fuel c before ts)
require_loop_of_closed zero c before ts us closed sub a h = unfold require_loop in sub a h
require_loop_of_closed (suc fuel) c before ts us closed sub a h =
    elim (Bool-cases (nat_beq before (length ts))) [
      | inl same ↦ rw (require_loop_stop fuel c before ts same) (sub a h)
      | inr other ↦ rw (require_loop_next fuel c before ts other) (
          require_loop_of_closed fuel c (length ts) (require_pass c ts) us closed
            (require_pass_of_closed c ts us closed sub) a h)
    ]

-- parseRequire drops no more than it has to: any closed part of its argument is kept.
pub parse_require_of_closed :
    (c : Context) (ts us : States)
    → IsRequireClosed c us
    → IsSubset us ts
    → IsSubset us (parse_require c ts)
unfolding parse_require
parse_require_of_closed c ts us = require_loop_of_closed (suc (suc (length ts))) c 0 ts us
