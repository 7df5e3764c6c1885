-- ===== src/Names.antt =====
-- pkg/machine/machine.go: reading lists of state names against the schema. A panic is `none`.
pub mod Laws
use asyncmachine_go.Base.{
  ◌≡◌, Bool, true, false, not, ◌||◌, List, [], ◌∷◌, ◌++◌, String, Option, none, some, contains,
  has_key, if◌then◌else◌, string_eq,
}
use asyncmachine_go.Slices.{slices_uniq}
use asyncmachine_go.Schema.{States, Schema}

-- The loop of mustParseStates: all names must be defined.
unfoldable pub all_defined : Schema → States → Bool
all_defined schema [] = true
all_defined schema (s ∷ states) =
    let rest = all_defined schema states in if has_key s schema then rest else false

-- The variable `dups` of both loops, with the map `seen` as a list.
unfoldable pub has_dups : States → States → Bool
has_dups seen [] = false
has_dups seen (s ∷ states) =
    let rest = has_dups (if contains seen s then seen else s ∷ seen) states in
    if contains seen s then true else rest

-- mustParseStates: nil while disposing; a panic for a name that is not in the schema.
unfoldable pub must_parse_states : Bool → Schema → States → Option States
must_parse_states disposing schema states =
    if disposing
    then some []
    else if not (all_defined schema states)
    then none
    else if has_dups [] states
    then some (slices_uniq states)
    else some states

-- The keys of `seen` after the loop of ParseStates, and its variable `dups`.
unfoldable pub seen_known : Schema → States → States → States
seen_known schema seen [] = seen
seen_known schema seen (s ∷ states) =
    seen_known schema
      (if not (has_key s schema) then seen else if contains seen s then seen else seen ++ s ∷ [])
      states

unfoldable pub known_dups : Schema → States → States → Bool
known_dups schema seen [] = false
known_dups schema seen (s ∷ states) =
    let known = has_key s schema in
    let old = contains seen s in
    let rest =
      known_dups schema (if not known then seen else if old then seen else seen ++ s ∷ []) states in
    if not known then rest else if old then true else rest

-- ParseStates. The keys of `seen` come in the order of their insertion here, and in a random
-- order in Go.
unfoldable pub parse_states : Bool → Schema → States → States
parse_states disposing schema states =
    if disposing
    then []
    else if known_dups schema [] states
    then slices_uniq states
    else seen_known schema [] states
