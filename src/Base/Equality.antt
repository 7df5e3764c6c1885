-- ===== src/Base/Equality.antt =====
-- Go's `==` on the comparable types that the program uses, as an instance.
use Prim.Native.Nat.{ℕ}
use Prim.Native.String.{String}
use mathlib.Core.Path.{◌≡◌, refl}
use mathlib.Core.Logic.{◌↔◌}
use mathlib.Core.Bool.{Bool, true}
use native.Mathlib.Omega.{arith}
use text.Mathlib.Text.{◌==◌ as same_text}
use text.Mathlib.TextEquality.{eq_iff}
use asyncmachine_go.Base.Tests.{nat_beq, nat_beq_iff, bool_ext}
use asyncmachine_go.Base.Ints.{ℤ, int_beq, int_beq_iff}

pub record Eq {ℓ} (Key : Type ℓ) : Type ℓ where
  pub test : Key → Key → Bool
  pub beq_iff : (x y : Key) → (test x y ≡ true) ↔ (x ≡ y)

module _ {ℓ} {A : Type ℓ} ⦃e : Eq A⦄ where
  infix 50 ◌==◌
  abbrev pub ◌==◌ : A → A → Bool
  a == b = e.test a b

  pub beq_refl : (a : A) → (a == a) ≡ true
  beq_refl a = (e.beq_iff a a).1 refl

  pub eq_of_beq : (a b : A) → (a == b) ≡ true → a ≡ b
  eq_of_beq a b = (e.beq_iff a b).0

  pub beq_comm : (a b : A) → (a == b) ≡ (b == a)
  beq_comm a b =
      bool_ext (a == b) (b == a) (λ h. ground (arith, e.beq_iff a b, e.beq_iff b a))
        (λ h. ground (arith, e.beq_iff a b, e.beq_iff b a))

instance abbrev pub int_eq : Eq ℤ
int_eq = record { beq_iff = int_beq_iff; test = int_beq }

instance abbrev pub string_eq : Eq String
string_eq = record { beq_iff = eq_iff; test = same_text }

instance abbrev pub nat_eq : Eq ℕ
nat_eq = record { beq_iff = nat_beq_iff; test = nat_beq }
