-- ===== src/Names/Laws.antt =====
-- What mustParseStates returns.
use asyncmachine_go.Base.{
  ◌≡◌, refl, true, false, [], ◌∷◌, String, some, contains, IsDistinct, Bool-cases, inl, inr,
  has_key, string_eq, arith, All, beq_refl, All-member, subst,
}
use asyncmachine_go.Slices.Laws.{contains-slices_uniq, slices_uniq-IsDistinct}
use asyncmachine_go.Schema.{States, Schema}
use asyncmachine_go.Names.{all_defined, has_dups, must_parse_states}

no_dups-apart :
    (seen states : States) (a : String)
    → has_dups seen states ≡ false
    → contains seen a ≡ true
    → contains states a ≡ false
unfolding has_dups contains
no_dups-apart seen [] a h m = refl
no_dups-apart seen (s ∷ states) a h m =
    ground (arith, no_dups-apart (s ∷ seen) states a, string_eq.beq_iff s a)

no_dups-IsDistinct : (seen states : States) → has_dups seen states ≡ false → IsDistinct states
unfolding has_dups contains
no_dups-IsDistinct seen [] h = tt
no_dups-IsDistinct seen (s ∷ states) h =
    ground
      (arith, no_dups-apart (s ∷ seen) states s, no_dups-IsDistinct (s ∷ seen) states, beq_refl s)

-- The parsed list has the same members, each once.
pub must_parse_states-same :
    (schema : Schema) (states parsed : States)
    → must_parse_states false schema states ≡ some parsed
    → ((a : String) → contains parsed a ≡ contains states a) × IsDistinct parsed
unfolding must_parse_states
must_parse_states-same schema states parsed h = elim (Bool-cases (has_dups [] states)) [
  | inl dups ↦ (
    λ a. ground (arith, contains-slices_uniq states a),
    subst IsDistinct (ground arith) (slices_uniq-IsDistinct states),
  )
  | inr plain ↦
      (λ a. ground arith, subst IsDistinct (ground arith) (no_dups-IsDistinct [] states plain))
]

pub all_defined-has_key :
    (schema : Schema) (states : States)
    → all_defined schema states ≡ true
    → All (λ a. has_key a schema ≡ true) states
unfolding all_defined
all_defined-has_key schema [] h = tt
all_defined-has_key schema (s ∷ states) h =
    (ground arith, all_defined-has_key schema states (ground arith))

-- Every name of the parsed list is in the schema.
pub must_parse_states-has_key :
    (schema : Schema) (states parsed : States) (a : String)
    → must_parse_states false schema states ≡ some parsed
    → contains parsed a ≡ true
    → has_key a schema ≡ true
must_parse_states-has_key schema states parsed a h m =
    All-member (λ a. has_key a schema ≡ true) states a
      (all_defined-has_key schema states (unfold must_parse_states in ground (arith, h)))
      (ground (arith, (must_parse_states-same schema states parsed h).0 a))
