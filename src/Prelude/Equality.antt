-- ===== src/Prelude/Equality.antt =====
-- Python's `==` on the values that the program compares: texts, numbers, `None`, enumerations.
use Prim.Native.Nat.{ℕ}
use Prim.Native.String.{String}
use mathlib.Core.Path.{◌≡◌, refl, ap}
use mathlib.Core.Bool.{Bool, true, false, not}
use mathlib.Core.Logic.{◌↔◌, inl, inr}
use mathlib.Core.Option.{Option, none, some}
use mathlib.Core.List.{List}
use text.Mathlib.Text.{◌==◌ as str_beq}
use text.Mathlib.TextEquality.{eq_iff}
use astrbot_community_plugin.Prelude.Tests.{nat_beq, nat_beq_iff, Bool-cases}
use astrbot_community_plugin.Prelude.Lists.{any, In, any-intro, any-elim}

pub record Eq (A : Type 0) : Type 0 where
  pub beq : A → A → Bool
  pub beq_iff : (a b : A) → (beq a b ≡ true) ↔ (a ≡ b)

infix 50 ◌==◌ ◌=/=◌
abbrev pub ◌==◌ : {A : Type 0} ⦃e : Eq A⦄ → A → A → Bool
◌==◌ ⦃e⦄ = e.beq

abbrev pub ◌=/=◌ : {A : Type 0} ⦃e : Eq A⦄ → A → A → Bool
◌=/=◌ ⦃e⦄ a b = not (e.beq a b)

-- Texts are equal when their code points are.
instance abbrev pub string_eq : Eq String
string_eq = record { beq = str_beq; beq_iff = eq_iff }

instance abbrev pub nat_eq : Eq ℕ
nat_eq = record { beq = nat_beq; beq_iff = nat_beq_iff }

abbrev pub discrete_beq : {A : Type 0} → Discrete A → A → A → Bool
discrete_beq d a b = elim (d a b) [ yes e ↦ true | no e ↦ false ]

pub discrete_beq_iff :
    {A : Type 0} (d : Discrete A) (a b : A) → (discrete_beq d a b ≡ true) ↔ (a ≡ b)
discrete_beq_iff d a b =
    elim (d a b) as (λ r. (elim r [ yes e ↦ true | no e ↦ false ] ≡ true) ↔ (a ≡ b)) [
      | yes e ↦ (λ _. e, λ _. refl)
      | no e ↦ (λ h. cc, λ h. absurd (e h))
    ]

-- An enumeration is compared by its decision procedure.
abbrev pub discrete_eq : {A : Type 0} → Discrete A → Eq A
discrete_eq d = record { beq = discrete_beq d; beq_iff = discrete_beq_iff d }

module _ {A : Type 0} ⦃e : Eq A⦄ where
  abbrev pub option_beq : Option A → Option A → Bool
  option_beq none none = true
  option_beq none (some b) = false
  option_beq (some a) none = false
  option_beq (some a) (some b) = e.beq a b

  pub option_beq_iff : (a b : Option A) → (option_beq a b ≡ true) ↔ (a ≡ b)
  option_beq_iff none none = (λ _. refl, λ _. refl)
  option_beq_iff none (some b) = (λ h. cc, λ h. cc)
  option_beq_iff (some a) none = (λ h. cc, λ h. cc)
  option_beq_iff (some a) (some b) =
      (λ h. ap some ((e.beq_iff a b).0 h), λ h. (e.beq_iff a b).1 (cc))

  instance abbrev pub option_eq : Eq (Option A)
  option_eq = record { beq = option_beq; beq_iff = option_beq_iff }

  pub ==-refl : (a : A) → (a == a) ≡ true
  ==-refl a = (e.beq_iff a a).1 refl

  pub ==→≡ : (a b : A) → (a == b) ≡ true → a ≡ b
  ==→≡ a b h = (e.beq_iff a b).0 h

  pub ==-false : (a b : A) → ¬ (a ≡ b) → (a == b) ≡ false
  ==-false a b n = elim (Bool-cases (a == b)) [
    | inl h ↦ absurd (n ((e.beq_iff a b).0 h))
    | inr h ↦ h
  ]

  -- `a in xs`
  abbrev pub member : A → List A → Bool
  member a xs = any (λ x. a == x) xs

  pub member→In : (a : A) (xs : List A) → member a xs ≡ true → In a xs
  member→In a xs h = let (b, m, k) = any-elim (λ x. a == x) xs h in rw (==→≡ a b k) m

  pub In→member : (a : A) (xs : List A) → In a xs → member a xs ≡ true
  In→member a xs m = any-intro (λ x. a == x) xs m (==-refl a)
