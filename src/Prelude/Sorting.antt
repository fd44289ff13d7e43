-- ===== src/Prelude/Sorting.antt =====
-- `list.sort(key=...)`: the stable sort, as insertion from the right, with the order as a test.
use mathlib.Core.Path.{◌≡◌}
use mathlib.Core.Bool.{Bool, true, false}
use mathlib.Core.Logic.{◌⊎◌, inl, inr}
use mathlib.Core.List.{List, [], ◌∷◌}
use astrbot_community_plugin.Prelude.Tests.{if◌then◌else◌, Bool-cases}
use Prim.Native.Nat.{ℕ, zero, suc}
use astrbot_community_plugin.Prelude.Lists.{In, take}

module _ {A : Type 0} (le : A → A → Bool) where
  -- `x` goes before the first member that it does not exceed, so equal members keep their order.
  unfoldable pub insert : A → List A → List A
  insert x [] = x ∷ []
  insert x (y ∷ ys) = if le x y then x ∷ y ∷ ys else y ∷ insert x ys

  unfoldable pub sort : List A → List A
  unfolding insert
  sort [] = []
  sort (x ∷ xs) = insert x (sort xs)

  In-insert : (x : A) (ys : List A) (a : A) → In a (insert x ys) → (a ≡ x) ⊎ In a ys
  unfolding insert
  In-insert x [] a (inl e) = inl e
  In-insert x [] a (inr m) = absurd m
  In-insert x (y ∷ ys) a m = elim (Bool-cases (le x y)) [
    | inl e ↦ rw e at m
    | inr e ↦ elim (rw e at m) [
      | inl q ↦ inr (inl q)
      | inr t ↦ elim (In-insert x ys a t) [ inl q ↦ inl q | inr u ↦ inr (inr u) ]
    ]
  ]

  In-insert_intro : (x : A) (ys : List A) (a : A) → (a ≡ x) ⊎ In a ys → In a (insert x ys)
  unfolding insert
  In-insert_intro x [] a m = m
  In-insert_intro x (y ∷ ys) a m = elim (Bool-cases (le x y)) [
    | inl e ↦ rw e m
    | inr e ↦ rw e (elim m [
      | inl q ↦ inr (In-insert_intro x ys a (inl q))
      | inr (inl q) ↦ inl q
      | inr (inr t) ↦ inr (In-insert_intro x ys a (inr t))
    ])
  ]

  -- A sorted list has the members of the list.
  pub In-sort : (xs : List A) (a : A) → In a (sort xs) → In a xs
  unfolding sort
  In-sort [] a m = m
  In-sort (x ∷ xs) a m = elim (In-insert x (sort xs) a m) [
    | inl e ↦ inl e
    | inr t ↦ inr (In-sort xs a t)
  ]

  pub In-sort_intro : (xs : List A) (a : A) → In a xs → In a (sort xs)
  unfolding sort
  In-sort_intro [] a m = m
  In-sort_intro (x ∷ xs) a (inl e) = In-insert_intro x (sort xs) a (inl e)
  In-sort_intro (x ∷ xs) a (inr m) = In-insert_intro x (sort xs) a (inr (In-sort_intro xs a m))

-- Every member is in order with all members behind it.
abbrev pub Ordered : {A : Type 0} → (A → A → Bool) → List A → Type 0
Ordered le [] = Unit
Ordered le (x ∷ xs) = ((y : _) → In y xs → le x y ≡ true) × Ordered le xs

module _ {A : Type 0} (le : A → A → Bool) (total : (a b : A) → le a b ≡ false → le b a ≡ true)
    (trans : (a b c : A) → le a b ≡ true → le b c ≡ true → le a c ≡ true) where
  Ordered-insert : (x : A) (ys : List A) → Ordered le ys → Ordered le (insert le x ys)
  unfolding insert
  Ordered-insert x [] o = (λ y m. absurd m, tt)
  Ordered-insert x (y ∷ ys) o = elim (Bool-cases (le x y)) [
    | inl e ↦ rw e ((λ z m. elim m [ inl q ↦ rw q e | inr t ↦ trans x y z e (o.0 z t) ], o))
    | inr e ↦ rw e (
        (
          λ z m. elim (In-insert le x ys z m) [ inl q ↦ rw q (total x y e) | inr t ↦ o.0 z t ],
          Ordered-insert x ys o.1,
        ))
  ]

  pub Ordered-sort : (xs : List A) → Ordered le (sort le xs)
  unfolding sort
  Ordered-sort [] = tt
  Ordered-sort (x ∷ xs) = Ordered-insert x (sort le xs) (Ordered-sort xs)

  -- What a cut of an ordered list leaves out is behind what it keeps.
  pub Ordered-take :
      (n : ℕ) (xs : List A) (a b : A)
      → Ordered le xs
      → In a (take n xs)
      → In b xs
      → In b (take n xs) ⊎ (le a b ≡ true)
  Ordered-take zero xs a b o m k = absurd m
  Ordered-take (suc n) [] a b o m k = absurd m
  Ordered-take (suc n) (x ∷ xs) a b o m (inl q) = inl (inl q)
  Ordered-take (suc n) (x ∷ xs) a b o (inl p) (inr k) = inr (rw p (o.0 b k))
  Ordered-take (suc n) (x ∷ xs) a b o (inr m) (inr k) = elim (Ordered-take n xs a b o.1 m k) [
    | inl t ↦ inl (inr t)
    | inr e ↦ inr e
  ]
