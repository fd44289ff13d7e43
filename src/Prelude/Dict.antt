-- ===== src/Prelude/Dict.antt =====
-- Python's `dict` of records under one of their text fields, in insertion order.
use Prim.Native.String.{String}
use mathlib.Core.Path.{◌≡◌, refl, sym, ◌∙◌}
use mathlib.Core.Bool.{Bool, true, false}
use mathlib.Core.Logic.{◌⊎◌, inl, inr}
use mathlib.Core.Option.{Option, none, some}
use mathlib.Core.List.{List, [], ◌∷◌}
use astrbot_community_plugin.Prelude.Tests.{if◌then◌else◌, Bool-cases}
use astrbot_community_plugin.Prelude.Lists.{In, find}
use astrbot_community_plugin.Prelude.Equality.{◌==◌, string_eq, ==→≡, ==-refl, ==-false}

-- No two members have the same key.
abbrev pub Distinct : {A : Type 0} → (A → String) → List A → Type 0
Distinct key [] = Unit
Distinct key (x ∷ xs) = ((y : _) → In y xs → ¬ (key y ≡ key x)) × Distinct key xs

pub differ : {a b : String} → (a == b) ≡ false → ¬ (a ≡ b)
differ {a} {b} e q = cc (e, (string_eq.beq_iff a b).1 q)

module _ {A : Type 0} (key : A → String) where
  -- `d.get(k)`
  unfoldable pub get : String → List A → Option A
  get k [] = none
  get k (x ∷ xs) = if key x == k then some x else get k xs

  -- `d[key(v)] = v`: in place if the key is there, else at the end.
  unfoldable pub put : A → List A → List A
  put v [] = v ∷ []
  put v (x ∷ xs) = if key x == key v then v ∷ xs else x ∷ put v xs

  pub get-key : (k : String) (xs : List A) {a : A} → get k xs ≡ some a → key a ≡ k
  unfolding get
  get-key k [] h = cc
  get-key k (x ∷ xs) {a} h = elim (Bool-cases (key x == k)) [
    | inl e ↦ let q : x ≡ a = cc (rw e at h) in rw (← q) (==→≡ (key x) k e)
    | inr e ↦ get-key k xs (rw e at h)
  ]

  pub get-In : (k : String) (xs : List A) {a : A} → get k xs ≡ some a → In a xs
  unfolding get
  get-In k [] h = cc
  get-In k (x ∷ xs) {a} h = elim (Bool-cases (key x == k)) [
    | inl e ↦ let q : x ≡ a = cc (rw e at h) in inl (sym q)
    | inr e ↦ inr (get-In k xs (rw e at h))
  ]

  pub get_of_In : (xs : List A) (a : A) → Distinct key xs → In a xs → get (key a) xs ≡ some a
  unfolding get
  get_of_In [] a d m = absurd m
  get_of_In (x ∷ xs) a d (inl e) = rw (e, ==-refl (key x))
  get_of_In (x ∷ xs) a d (inr m) =
      rw (==-false (key x) (key a) (λ q. d.0 a m (sym q))) (get_of_In xs a d.1 m)

  pub In-put : (v : A) (xs : List A) (a : A) → In a (put v xs) → (a ≡ v) ⊎ In a xs
  unfolding put
  In-put v [] a (inl e) = inl e
  In-put v [] a (inr m) = absurd m
  In-put v (x ∷ xs) a m = elim (Bool-cases (key x == key v)) [
    | inl e ↦ elim (rw e at m) [ inl q ↦ inl q | inr t ↦ inr (inr t) ]
    | inr e ↦ elim (rw e at m) [
      | inl q ↦ inr (inl q)
      | inr t ↦ elim (In-put v xs a t) [ inl q ↦ inl q | inr u ↦ inr (inr u) ]
    ]
  ]

  pub In-put_keep : (v : A) (xs : List A) (a : A) → In a xs → ¬ (key a ≡ key v) → In a (put v xs)
  unfolding put
  In-put_keep v [] a m n = absurd m
  In-put_keep v (x ∷ xs) a m n = elim (Bool-cases (key x == key v)) [
    | inl e ↦ rw e (elim m [ inl q ↦ absurd (n (rw q (==→≡ (key x) (key v) e))) | inr t ↦ inr t ])
    | inr e ↦ rw e (elim m [ inl q ↦ inl q | inr t ↦ inr (In-put_keep v xs a t n) ])
  ]

  pub In-put_new : (v : A) (xs : List A) → In v (put v xs)
  unfolding put
  In-put_new v [] = inl refl
  In-put_new v (x ∷ xs) = elim (Bool-cases (key x == key v)) [
    | inl e ↦ rw e (inl refl)
    | inr e ↦ rw e (inr (In-put_new v xs))
  ]

  pub get-put :
      (k : String) (v : A) (xs : List A)
      → get k (put v xs) ≡ (if key v == k then some v else get k xs)
  unfolding get put
  get-put k v [] = refl
  get-put k v (x ∷ xs) = elim (Bool-cases (key x == key v)) [
    | inl e ↦
        rw (e, ==→≡ (key x) (key v) e)
          (elim (Bool-cases (key v == k)) [ inl q ↦ rw q | inr q ↦ rw q ])
    | inr e ↦ rw e (elim (Bool-cases (key x == k)) [
      | inl q ↦ rw (q, ==-false (key v) k (λ r. differ e (==→≡ (key x) k q ∙ sym r)))
      | inr q ↦ rw q (get-put k v xs)
    ])
  ]

-- The first value with a property after a write of one that has it where none had it.
pub find-put_new :
    {A : Type 0} (key : A → String) (p : A → Bool) (v : A) (xs : List A)
    → find p xs ≡ none
    → p v ≡ true
    → find p (put key v xs) ≡ some v
unfolding put
find-put_new key p v [] f t = rw t
find-put_new key p v (x ∷ xs) f t = elim (Bool-cases (p x)) [
  | inl e ↦ cc (rw e at f)
  | inr e ↦ elim (Bool-cases (key x == key v)) [
    | inl k ↦ rw (k, t)
    | inr k ↦ rw (k, e) (find-put_new key p v xs (rw e at f) t)
  ]
]
