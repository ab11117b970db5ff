-- ===== src/Prelude/Equality.antt =====
-- Types with a Boolean equality, as `===` on the source's strings and string unions.
use Prim.Native.String.{String}
use mathlib.Core.Path.{◌≡◌, refl}
use mathlib.Core.Logic.{◌↔◌}
use mathlib.Core.Bool.{Bool, true, false}
use text.Mathlib.Text.{◌==◌ as text_eq}
use text.Mathlib.TextEquality.{eq_iff}

pub record Eq {ℓ} (A : Type ℓ) : Type ℓ where
  pub beq : A → A → Bool
  pub beq_iff : (a b : A) → (beq a b ≡ true) ↔ (a ≡ b)

infix 50 ◌===◌
abbrev pub ◌===◌ {ℓ} : {A : Type ℓ} ⦃e : Eq A⦄ → A → A → Bool
◌===◌ ⦃e⦄ = e.beq

instance abbrev pub string_eq : Eq String
string_eq = record { beq = text_eq; beq_iff = eq_iff }

abbrev pub decided {ℓ} : {A : Type ℓ} → Dec A → Bool
decided (yes h) = true
decided (no h) = false

pub decided_iff {ℓ} : {A : Type ℓ} (d : Dec A) → (decided d ≡ true) ↔ A
decided_iff (yes h) = (λ _. h, λ _. refl)
decided_iff (no h) = (λ e. cc, λ a. absurd (h a))

-- The equality of a type whose equality is decided.
abbrev pub discrete_eq {ℓ} : {A : Type ℓ} → Discrete A → Eq A
discrete_eq d = record { beq = λ a b. decided (d a b); beq_iff = λ a b. decided_iff (d a b) }

pub ===-refl {ℓ} : {A : Type ℓ} ⦃e : Eq A⦄ (a : A) → (a === a) ≡ true
===-refl ⦃e⦄ a = (e.beq_iff a a).1 refl
