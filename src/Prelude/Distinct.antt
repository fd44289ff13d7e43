-- ===== src/Prelude/Distinct.antt =====
-- Lists in which no two members share a key, under the writes of a dictionary.
use mathlib.Core.Path.{◌≡◌, refl, sym, ◌∙◌}
use mathlib.Core.Logic.{inl, inr}
use mathlib.Core.List.{List, [], ◌∷◌, map}
use Prim.Native.String.{String}
use astrbot_community_plugin.Prelude.Tests.{Bool-cases}
use astrbot_community_plugin.Prelude.Lists.{In, In-map}
use astrbot_community_plugin.Prelude.Equality.{◌==◌, string_eq, ==→≡}
use astrbot_community_plugin.Prelude.Dict.{Distinct, put, In-put, differ}

module _ {A : Type 0} (key : A → String) where
  -- Two members with one key are one member.
  pub eq_of_key :
      (xs : List A) (a b : A) → Distinct key xs → In a xs → In b xs → key a ≡ key b → a ≡ b
  eq_of_key [] a b d m n e = absurd m
  eq_of_key (x ∷ xs) a b d (inl p) (inl q) e = p ∙ sym q
  eq_of_key (x ∷ xs) a b d (inl p) (inr n) e = absurd (d.0 b n (rw (← p) (sym e)))
  eq_of_key (x ∷ xs) a b d (inr m) (inl q) e = absurd (d.0 a m (rw (← q) e))
  eq_of_key (x ∷ xs) a b d (inr m) (inr n) e = eq_of_key xs a b d.1 m n e

  pub Distinct-put : (v : A) (xs : List A) → Distinct key xs → Distinct key (put key v xs)
  unfolding put
  Distinct-put v [] d = (λ y m. absurd m, tt)
  Distinct-put v (x ∷ xs) d = elim (Bool-cases (key x == key v)) [
    | inl e ↦ rw e ((λ y m q. d.0 y m (q ∙ sym (==→≡ (key x) (key v) e)), d.1))
    | inr e ↦ rw e (
        (
          λ y m q. elim (In-put key v xs y m) [
            | inl p ↦ differ e (sym (rw p at q))
            | inr n ↦ d.0 y n q
          ],
          Distinct-put v xs d.1,
        ))
  ]

  -- A write under `key` of a value whose `other` is not that of a value under another key.
  pub Distinct-put_other :
      (other : A → String) (v : A) (xs : List A)
      → Distinct other xs
      → ((x : A) → In x xs → ¬ (key x ≡ key v) → ¬ (other x ≡ other v))
      → Distinct key xs
      → Distinct other (put key v xs)
  unfolding put
  Distinct-put_other other v [] d new k = (λ y m. absurd m, tt)
  Distinct-put_other other v (x ∷ xs) d new k = elim (Bool-cases (key x == key v)) [
    | inl e ↦ rw e ((λ y m. new y (inr m) (λ q. k.0 y m (q ∙ sym (==→≡ (key x) (key v) e))), d.1))
    | inr e ↦ rw e (
        (
          λ y m q. elim (In-put key v xs y m) [
            | inl p ↦ new x (inl refl) (differ e) (sym (rw p at q))
            | inr n ↦ d.0 y n q
          ],
          Distinct-put_other other v xs d.1 (λ z m. new z (inr m)) k.1,
        ))
  ]

  pub Distinct-map :
      (f : A → A) (xs : List A)
      → ((x : A) → key (f x) ≡ key x)
      → Distinct key xs
      → Distinct key (map f xs)
  Distinct-map f [] same d = tt
  Distinct-map f (x ∷ xs) same d = (
    λ y m q. let (z, n, e) = In-map f xs m in d.0 z n (sym (same z) ∙ (rw e at q) ∙ same x),
    Distinct-map f xs same d.1,
  )
