-- ===== src/Prelude/TextOrder.antt =====
-- The order of texts, and of pairs of texts: what Python's sort asks of a key.
use Prim.Native.Nat.{ℕ, Ordering, compare as compare_ℕ}
use Prim.Native.Char.{Char, code}
use Prim.Native.String
use Prim.Native.String.{String}
use Prim.Native.String.compare.{nil-nil, nil-cons, cons-nil, cons-cons}
use mathlib.Core.Path.{◌≡◌, refl, sym, ap, ◌∙◌}
use mathlib.Core.Bool.{Bool, true, false, ◌&&◌, ◌||◌}
use mathlib.Core.Logic.{inl, inr}
use native.Mathlib.Omega.{arith}
use text.Mathlib.TextEquality.{Char-path}
use astrbot_community_plugin.Prelude.Tests.{if◌then◌else◌, Bool-cases, ltb, nat_beq}
use astrbot_community_plugin.Prelude.Equality.{◌==◌, string_eq, ==→≡, ==-false}
use astrbot_community_plugin.Prelude.Text.{text_le}

abbrev not_gt : Ordering → Bool
not_gt o = elim o [ Ordering.gt ↦ false | _ ↦ true ]

not_gt-then :
    (m n : ℕ) (o : Ordering)
    → not_gt (String.then (compare_ℕ m n) o) ≡ (ltb m n || nat_beq m n && not_gt o)
not_gt-then m n o =
    elim (compare_ℕ m n)
      as (λ k. not_gt (String.then k o) ≡ (
        (elim k [ Ordering.lt ↦ true | _ ↦ false ])
        || (elim k [ Ordering.eq ↦ true | _ ↦ false ]) && not_gt o)) [
          | Ordering.lt ↦ refl
          | Ordering.eq ↦ refl
          | Ordering.gt ↦ refl
        ]

text_le-cons :
    (c d : Char) (s t : String)
    → text_le (String.◌∷◌ c s) (String.◌∷◌ d t)
      ≡ (ltb (code c) (code d) || nat_beq (code c) (code d) && text_le s t)
text_le-cons c d s t =
    ap not_gt (λ i. cons-cons c d s t i) ∙ not_gt-then (code c) (code d) (String.compare s t)

empty_le : (t : String) → text_le "" t ≡ true
empty_le String.[] = ap not_gt (λ i. nil-nil i)
empty_le (String.◌∷◌ d t) = ap not_gt (λ i. nil-cons d t i)

cons_above : (c : Char) (s : String) → text_le (String.◌∷◌ c s) "" ≡ false
cons_above c s = ap not_gt (λ i. cons-nil c s i)

total_step :
    (m n : ℕ) (p q : Bool)
    → (p ≡ false → q ≡ true)
    → (ltb m n || nat_beq m n && p) ≡ false
    → (ltb n m || nat_beq n m && q) ≡ true
total_step m n false q h e = let k : q ≡ true = h refl in ground (arith, k)
total_step m n true q h e = ground arith

pub text_le_total : (a b : String) → text_le a b ≡ false → text_le b a ≡ true
text_le_total String.[] b h = cc (h, empty_le b)
text_le_total (String.◌∷◌ c s) String.[] h = empty_le (String.◌∷◌ c s)
text_le_total (String.◌∷◌ c s) (String.◌∷◌ d t) h =
    text_le-cons d c t s
    ∙ total_step (code c) (code d) (text_le s t) (text_le t s) (text_le_total s t)
        (sym (text_le-cons c d s t) ∙ h)

trans_step :
    (l m n : ℕ) (p q r : Bool)
    → (p ≡ true → q ≡ true → r ≡ true)
    → (ltb l m || nat_beq l m && p) ≡ true
    → (ltb m n || nat_beq m n && q) ≡ true
    → (ltb l n || nat_beq l n && r) ≡ true
trans_step l m n true true r h e f = let k : r ≡ true = h refl refl in ground (arith, k)
trans_step l m n true false r h e f = ground arith
trans_step l m n false q r h e f = ground arith

pub text_le_trans : (a b c : String) → text_le a b ≡ true → text_le b c ≡ true → text_le a c ≡ true
text_le_trans String.[] b c h k = empty_le c
text_le_trans (String.◌∷◌ x a) String.[] c h k = cc (h, cons_above x a)
text_le_trans (String.◌∷◌ x a) (String.◌∷◌ y b) String.[] h k = cc (k, cons_above y b)
text_le_trans (String.◌∷◌ x a) (String.◌∷◌ y b) (String.◌∷◌ z c) h k =
    text_le-cons x z a c
    ∙ trans_step (code x) (code y) (code z) (text_le a b) (text_le b c) (text_le a c)
        (text_le_trans a b c) (sym (text_le-cons x y a b) ∙ h) (sym (text_le-cons y z b c) ∙ k)

antisym_step :
    (m n : ℕ) (p q : Bool)
    → (ltb m n || nat_beq m n && p) ≡ true
    → (ltb n m || nat_beq n m && q) ≡ true
    → (m ≡ n) × (p ≡ true) × (q ≡ true)
antisym_step m n p q e f = ground arith

pub text_le_antisym : (a b : String) → text_le a b ≡ true → text_le b a ≡ true → a ≡ b
text_le_antisym String.[] String.[] h k = refl
text_le_antisym String.[] (String.◌∷◌ d t) h k = cc (k, cons_above d t)
text_le_antisym (String.◌∷◌ c s) String.[] h k = cc (h, cons_above c s)
text_le_antisym (String.◌∷◌ c s) (String.◌∷◌ d t) h k =
    let (same, p, q) =
      antisym_step (code c) (code d) (text_le s t) (text_le t s) (sym (text_le-cons c d s t) ∙ h)
        (sym (text_le-cons d c t s) ∙ k) in
    ap (λ x. String.◌∷◌ x s) (Char-path c d same) ∙ ap (String.◌∷◌ d) (text_le_antisym s t p q)

-- `a <= b` on pairs of texts: the first that differ decide.
unfoldable pub pair_le : String × String → String × String → Bool
pair_le a b = if a.0 == b.0 then text_le a.1 b.1 else text_le a.0 b.0

same_first : (a b : String × String) → (a.0 == b.0) ≡ true → pair_le a b ≡ text_le a.1 b.1
unfolding pair_le
same_first a b t = rw t refl

other_first : (a b : String × String) → (a.0 == b.0) ≡ false → pair_le a b ≡ text_le a.0 b.0
unfolding pair_le
other_first a b f = rw f refl

equal : (a b : String) → a ≡ b → (a == b) ≡ true
equal a b e = (string_eq.beq_iff a b).1 e

unequal : (a b : String) → ¬ (a ≡ b) → (a == b) ≡ false
unequal a b n = ==-false a b n

pub pair_le_total : (a b : String × String) → pair_le a b ≡ false → pair_le b a ≡ true
pair_le_total a b h = elim (Bool-cases (a.0 == b.0)) [
  | inl t ↦
      same_first b a (equal b.0 a.0 (sym (==→≡ a.0 b.0 t)))
      ∙ text_le_total a.1 b.1 (sym (same_first a b t) ∙ h)
  | inr f ↦
      other_first b a (unequal b.0 a.0 (λ e. cc (f, equal a.0 b.0 (sym e))))
      ∙ text_le_total a.0 b.0 (sym (other_first a b f) ∙ h)
]

-- The first of a pair in order is in order.
first_le : (a b : String × String) → pair_le a b ≡ true → text_le a.0 b.0 ≡ true
first_le a b h = elim (Bool-cases (a.0 == b.0)) [
  | inl t ↦ ap (text_le a.0) (sym (==→≡ a.0 b.0 t)) ∙ text_le_self a.0
  | inr f ↦ sym (other_first a b f) ∙ h
]
  where
    text_le_self : (s : String) → text_le s s ≡ true
    text_le_self s = elim (Bool-cases (text_le s s)) [ inl t ↦ t | inr f ↦ text_le_total s s f ]

pub pair_le_trans :
    (a b c : String × String) → pair_le a b ≡ true → pair_le b c ≡ true → pair_le a c ≡ true
pair_le_trans a b c h k = elim (Bool-cases (a.0 == c.0)) [
  | inr f ↦ other_first a c f ∙ text_le_trans a.0 b.0 c.0 (first_le a b h) (first_le b c k)
  | inl t ↦
      let e : a.0 ≡ c.0 = ==→≡ a.0 c.0 t in
      let same : a.0 ≡ b.0 =
        text_le_antisym a.0 b.0 (first_le a b h) (ap (text_le b.0) e ∙ first_le b c k) in
      same_first a c t
      ∙ text_le_trans a.1 b.1 c.1 (sym (same_first a b (equal a.0 b.0 same)) ∙ h)
          (sym (same_first b c (equal b.0 c.0 (sym same ∙ e))) ∙ k)
]
