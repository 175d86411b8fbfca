-- ===== src/Prelude/Equality.antt =====
-- `===` on numbers, texts and enumerations, by instances.
use Prim.Native.Nat.{ℕ}
use Prim.Native.String.{String}
use mathlib.Core.Path.{◌≡◌, sym, ◌∙◌}
use mathlib.Core.Logic.{◌↔◌, ◌≢◌}
use mathlib.Core.Bool.{Bool, true, false, not}
use mathlib.Core.Option.{Option, none, some}
use native.Mathlib.Omega.{arith}
use text.Mathlib.Text.{◌==◌ as str_eq}
use text.Mathlib.TextEquality.{eq_iff}
use project_baracks.Prelude.Tests.{nat_eq, nat_eq_iff}

pub true_ne_false : true ≢ false
true_ne_false e = cc

-- A test of equality with the proof that it decides equality.
pub record Eq {κ} (T : Type κ) : Type κ where
  pub equals : T → T → Bool
  pub equals_iff : (x y : T) → (equals x y ≡ true) ↔ (x ≡ y)

instance abbrev pub Eq-String : Eq String
Eq-String = record { equals = str_eq; equals_iff = eq_iff }

infix 50 ◌!=◌ ◌==◌
abbrev pub ◌!=◌ {κ} : {T : Type κ} ⦃test : Eq T⦄ → T → T → Bool
◌!=◌ ⦃test⦄ x y = not (test.equals x y)

abbrev pub ◌==◌ {κ} : {T : Type κ} ⦃test : Eq T⦄ → T → T → Bool
◌==◌ ⦃test⦄ x y = test.equals x y

instance abbrev pub Eq-ℕ : Eq ℕ
Eq-ℕ = record { equals = nat_eq; equals_iff = nat_eq_iff }

module _ {ℓ} {A : Type ℓ} ⦃e : Eq A⦄ where
  pub ne_of_beq : (a b : A) → e.equals a b ≡ false → a ≢ b
  ne_of_beq a b h q = true_ne_false (sym ((e.equals_iff a b).1 q) ∙ h)

  -- An absent value equals an absent value only.
  abbrev pub option_eq : Option A → Option A → Bool
  option_eq none none = true
  option_eq (some a) (some b) = e.equals a b
  option_eq _ _ = false

  pub option_eq_iff : (a b : Option A) → (option_eq a b ≡ true) ↔ (a ≡ b)
  option_eq_iff none none = ground arith
  option_eq_iff none (some b) = ground arith
  option_eq_iff (some a) none = ground arith
  option_eq_iff (some a) (some b) = ground (arith, e.equals_iff a b)
