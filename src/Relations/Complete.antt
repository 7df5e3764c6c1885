-- ===== src/Relations/Complete.antt =====
-- relations.go: what TargetStates never drops. A set of states that is closed under Require and
-- without inner conflicts passes every filter whole.
use asyncmachine_go.Base.{
  ◌≡◌, refl, ap, true, false, not, [], ◌∷◌, String, contains, string_eq, arith, IsSubset, is_empty,
  contains-append, contains_self, contains-tail,
}
use asyncmachine_go.Schema.{States, items, state_of}
use asyncmachine_go.Slices.{slices_filter, slices_reverse, slices_uniq}
use asyncmachine_go.Slices.Laws.{
  contains-slices_filter, contains-slices_reverse, contains-slices_uniq,
}
use asyncmachine_go.Relations.Defs.{
  Context, parse_add, parse_require, state_blocked_by, block_pass, removed_by, survivors, resolve,
}
use asyncmachine_go.Relations.Add.{parse_add-grows}
use asyncmachine_go.Relations.Require.{
  IsRequireClosed, parse_require-IsSubset, parse_require_of_closed,
}
use asyncmachine_go.Relations.Block.{removes, is_free, block_pass_free}

-- No state of the list has another in its Remove relation.
abbrev pub HasNoConflict : Context → States → Type 0
HasNoConflict c us =
    (name by : String) → contains us name ≡ true → contains us by ≡ true → removes c by name ≡ false

free_of_NoConflict :
    (c : Context) (setting blocked us : States) (name : String)
    → HasNoConflict c us
    → IsSubset setting us
    → contains us name ≡ true
    → is_free c setting blocked name ≡ true
unfolding state_blocked_by
free_of_NoConflict c setting blocked us name safe sub h =
    empty_of_members
      (slices_filter (state_blocked_by c setting name) λ by. not (contains blocked by))
      λ by.
        let from =
          contains-slices_filter (state_blocked_by c setting name) (λ by. not (contains blocked by))
            by in
        let within = contains-slices_filter setting (λ by. removes c by name) by in
        ground (arith, from, within, sub by, safe name by h)
  where
    empty_of_members : (xs : States) → ((a : String) → contains xs a ≡ false) → is_empty xs ≡ true
    empty_of_members [] none = refl
    empty_of_members (x ∷ xs) none = ground (arith, none x, contains_self x xs)

block_pass_of_NoConflict :
    (c : Context) (setting states us : States)
    → HasNoConflict c us
    → IsSubset setting us
    → IsSubset states us
    → block_pass c setting [] states ≡ states
block_pass_of_NoConflict c setting [] us safe sub sub' = unfold block_pass in refl
block_pass_of_NoConflict c setting (name ∷ states) us safe sub sub' =
    rw
      (block_pass_free c setting [] name states
        (free_of_NoConflict c setting [] us name safe sub (sub' name (contains_self name states))))
      (ap (◌∷◌ name) (
        block_pass_of_NoConflict c setting states us safe sub
          λ a h. sub' a (contains-tail name a states h)))

removed_by_of_NoConflict :
    (c : Context) (states us : States) (name : String)
    → HasNoConflict c us
    → IsSubset states us
    → contains us name ≡ true
    → contains (removed_by c states) name ≡ false
unfolding removed_by contains
removed_by_of_NoConflict c [] us name safe sub h = refl
removed_by_of_NoConflict c (s ∷ states) us name safe sub h = ground (
  arith,
  contains-append (items (state_of c.schema s).remove) (removed_by c states) name,
  safe name s h (sub s (unfold contains in contains_self s states)),
  removed_by_of_NoConflict c states us name safe
      (λ a m. sub a (unfold contains in contains-tail s a states m)) h,
)

-- A set of states that holds all that is to be set and implied, is closed under Require, and has
-- no conflict, is resolved whole.
pub resolve_complete :
    (c : Context) (parsed us : States)
    → IsSubset (parse_add c parsed) us
    → IsSubset us (parse_add c parsed)
    → IsRequireClosed c us
    → HasNoConflict c us
    → IsSubset us (resolve c parsed)
unfolding resolve survivors
resolve_complete c parsed us within whole closed safe =
    parse_require_of_closed c (slices_reverse kept) us closed λ a h. ground (
      arith,
      contains-slices_reverse kept a,
      contains-slices_uniq
          (slices_filter (parse_add c passed) λ name. not (contains (removed_by c passed) name)) a,
      contains-slices_filter (parse_add c passed)
          (λ name. not (contains (removed_by c passed) name)) a,
      parse_add-grows c passed a (all_pass a h),
      removed_by_of_NoConflict c passed us a safe passed_sub h,
    )
  where
    unique : States
    unique = slices_uniq (parse_add c parsed)

    setting : States
    setting = parse_require c unique

    setting_sub : IsSubset setting us
    setting_sub a h = within a (
        ground
          (arith, parse_require-IsSubset c unique a h, contains-slices_uniq (parse_add c parsed) a))

    passed : States
    passed = block_pass c setting [] (slices_reverse setting)

    reversed_sub : IsSubset (slices_reverse setting) us
    reversed_sub a h = setting_sub a (ground (arith, contains-slices_reverse setting a))

    passed_eq : passed ≡ slices_reverse setting
    passed_eq =
        block_pass_of_NoConflict c setting (slices_reverse setting) us safe setting_sub reversed_sub

    passed_sub : IsSubset passed us
    passed_sub a h = reversed_sub a (rw passed_eq at h)

    all_pass : IsSubset us passed
    all_pass a h = rw passed_eq (
        ground (
          arith,
          contains-slices_reverse setting a,
          parse_require_of_closed c unique us closed
              (λ b k. ground (arith, contains-slices_uniq (parse_add c parsed) b, whole b k)) a h,
        ))

    kept : States
    kept =
        slices_uniq
          (slices_filter (parse_add c passed) λ name. not (contains (removed_by c passed) name))
