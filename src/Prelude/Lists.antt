-- ===== src/Prelude/Lists.antt =====
-- Lists measured by native numbers, Boolean searches over lists, and predicates of their members.
use Prim.Native.Nat.{ℕ, zero, suc, ◌≤◌}
use mathlib.Core.Path.{◌≡◌, refl, sym, ap}
use mathlib.Core.Bool.{Bool, true, false, ◌&&◌, ◌||◌}
use mathlib.Core.Logic.{◌⊎◌, inl, inr}
use mathlib.Core.Option.{Option, none, some}
use mathlib.Core.List.{List, [], ◌∷◌, map}
use native.Mathlib.Omega.{arith}
use astrbot_community_plugin.Prelude.Tests.{if◌then◌else◌, Bool-cases, &&-true}

module _ {ℓ} {A : Type ℓ} where
  abbrev pub length : List A → ℕ
  length [] = 0
  length (x ∷ xs) = suc (length xs)

  abbrev pub take : ℕ → List A → List A
  take zero xs = []
  take (suc n) [] = []
  take (suc n) (x ∷ xs) = x ∷ take n xs

  abbrev pub any : (A → Bool) → List A → Bool
  any p [] = false
  any p (x ∷ xs) = p x || any p xs

  abbrev pub all : (A → Bool) → List A → Bool
  all p [] = true
  all p (x ∷ xs) = p x && all p xs

  -- `[x for x in xs if p(x)]`
  abbrev pub filter : (A → Bool) → List A → List A
  filter p [] = []
  filter p (x ∷ xs) = if p x then x ∷ filter p xs else filter p xs

  -- `next((x for x in xs if p(x)), None)`
  abbrev pub find : (A → Bool) → List A → Option A
  find p [] = none
  find p (x ∷ xs) = if p x then some x else find p xs

  abbrev pub is_empty : List A → Bool
  is_empty [] = true
  is_empty (x ∷ xs) = false

  pub length-take-le : (n : ℕ) (xs : List A) → length (take n xs) ≤ n
  length-take-le zero xs = omega arith
  length-take-le (suc n) [] = omega arith
  length-take-le (suc n) (x ∷ xs) = omega (arith, length-take-le n xs)

-- Membership as a type that keeps the position.
abbrev pub In : {A : Type 0} → A → List A → Type 0
In a [] = ⊥
In a (x ∷ xs) = (a ≡ x) ⊎ In a xs

module _ {A : Type 0} where
  pub In-take : (n : ℕ) (xs : List A) (a : A) → In a (take n xs) → In a xs
  In-take zero xs a h = absurd h
  In-take (suc n) [] a h = h
  In-take (suc n) (x ∷ xs) a (inl e) = inl e
  In-take (suc n) (x ∷ xs) a (inr h) = inr (In-take n xs a h)

  pub In-filter : (p : A → Bool) (xs : List A) {a : A} → In a (filter p xs) → In a xs × (p a ≡ true)
  In-filter p [] h = absurd h
  In-filter p (x ∷ xs) {a} h = elim (Bool-cases (p x)) [
    | inl e ↦ elim (rw e at h) [
      | inl q ↦ (inl q, rw q e)
      | inr t ↦ let (m, k) = In-filter p xs t in (inr m, k)
    ]
    | inr e ↦ let (m, k) = In-filter p xs (rw e at h) in (inr m, k)
  ]

  pub In-filter_intro :
      (p : A → Bool) (xs : List A) {a : A} → In a xs → p a ≡ true → In a (filter p xs)
  In-filter_intro p [] h k = absurd h
  In-filter_intro p (x ∷ xs) (inl e) k = rw (← e) (rw k (inl refl))
  In-filter_intro p (x ∷ xs) (inr h) k = elim (Bool-cases (p x)) [
    | inl e ↦ rw e (inr (In-filter_intro p xs h k))
    | inr e ↦ rw e (In-filter_intro p xs h k)
  ]

  pub any-intro : (p : A → Bool) (xs : List A) {a : A} → In a xs → p a ≡ true → any p xs ≡ true
  any-intro p [] h k = absurd h
  any-intro p (x ∷ xs) (inl e) k = rw (← e) (rw k)
  any-intro p (x ∷ xs) (inr h) k = elim (Bool-cases (p x)) [
    | inl e ↦ rw e
    | inr e ↦ rw e (any-intro p xs h k)
  ]

  pub any-elim : (p : A → Bool) (xs : List A) → any p xs ≡ true → (a : A) × In a xs × (p a ≡ true)
  any-elim p [] h = cc
  any-elim p (x ∷ xs) h = elim (Bool-cases (p x)) [
    | inl e ↦ (x, inl refl, e)
    | inr e ↦ let (a, m, k) = any-elim p xs (rw e at h) in (a, inr m, k)
  ]

  pub any-none : (p : A → Bool) (xs : List A) {a : A} → any p xs ≡ false → In a xs → p a ≡ false
  any-none p xs {a} h m = elim (Bool-cases (p a)) [ inl e ↦ cc (any-intro p xs m e) | inr e ↦ e ]

  pub all-elim : (p : A → Bool) (xs : List A) {a : A} → all p xs ≡ true → In a xs → p a ≡ true
  all-elim p [] h m = absurd m
  all-elim p (x ∷ xs) h (inl e) = rw e (&&-true _ _ h).0
  all-elim p (x ∷ xs) h (inr m) = all-elim p xs (&&-true _ _ h).1 m

  pub find-some : (p : A → Bool) (xs : List A) {a : A} → find p xs ≡ some a → In a xs × (p a ≡ true)
  find-some p [] h = cc
  find-some p (x ∷ xs) {a} h = elim (Bool-cases (p x)) [
    | inl e ↦ let q : x ≡ a = cc (rw e at h) in (inl (sym q), rw (← q) e)
    | inr e ↦ let (m, k) = find-some p xs (rw e at h) in (inr m, k)
  ]

  pub find-none : (p : A → Bool) (xs : List A) {a : A} → find p xs ≡ none → In a xs → p a ≡ false
  find-none p [] h m = absurd m
  find-none p (x ∷ xs) {a} h m = elim (Bool-cases (p x)) [
    | inl e ↦ cc (rw e at h)
    | inr e ↦ elim m [ inl q ↦ rw q e | inr t ↦ find-none p xs (rw e at h) t ]
  ]

module _ {A B : Type 0} where
  pub In-map : (f : A → B) (xs : List A) {b : B} → In b (map f xs) → (a : A) × In a xs × (b ≡ f a)
  In-map f [] h = absurd h
  In-map f (x ∷ xs) (inl e) = (x, inl refl, e)
  In-map f (x ∷ xs) (inr h) = let (a, m, e) = In-map f xs h in (a, inr m, e)

  pub In-map_intro : (f : A → B) (xs : List A) (a : A) → In a xs → In (f a) (map f xs)
  In-map_intro f [] a h = absurd h
  In-map_intro f (x ∷ xs) a (inl e) = inl (ap f e)
  In-map_intro f (x ∷ xs) a (inr h) = inr (In-map_intro f xs a h)

  pub length-map : (f : A → B) (xs : List A) → length (map f xs) ≡ length xs
  length-map f [] = refl
  length-map f (x ∷ xs) = ap suc (length-map f xs)
