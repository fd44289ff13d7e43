-- ===== src/Prelude/Text.antt =====
-- What the program uses of Python's `str`: the order, `strip`, concatenation, and sorted sets.
use Prim.Native.Nat.{ℕ, zero, suc, Ordering}
use Prim.Native.Char.{code}
use Prim.Native.String
use Prim.Native.String.{String}
use mathlib.Core.Logic.{inl, inr}
use mathlib.Core.Bool.{Bool, true, false, ◌&&◌, ◌||◌}
use mathlib.Core.List.{List, [], ◌∷◌}
use astrbot_community_plugin.Prelude.Tests.{nat_beq, leb, if◌then◌else◌, Bool-cases}
use astrbot_community_plugin.Prelude.Lists.{In}
use astrbot_community_plugin.Prelude.Equality.{◌==◌, string_eq, member, member→In}
use astrbot_community_plugin.Prelude.Sorting.{sort, In-sort_intro}

-- `a <= b`, by code points
abbrev pub text_le : String → String → Bool
text_le a b = elim (String.compare a b) [ Ordering.gt ↦ false | _ ↦ true ]

infixr 65 ◌<>◌
abbrev pub ◌<>◌ : String → String → String
a <> b = String.◌++◌ a b

-- `str.isspace` of one character
unfoldable pub is_space : ℕ → Bool
is_space c =
    leb 9 c && leb c 13
    || leb 28 c && leb c 32
    || nat_beq c 133
    || nat_beq c 160
    || nat_beq c 5760
    || leb 8192 c && leb c 8202
    || leb 8232 c && leb c 8233
    || nat_beq c 8239
    || nat_beq c 8287
    || nat_beq c 12288

unfoldable pub lstrip : String → String
unfolding is_space
lstrip String.[] = ""
lstrip (String.◌∷◌ c s) = let rest = lstrip s in if is_space (code c) then rest else String.◌∷◌ c s

unfoldable pub rstrip : String → String
unfolding is_space
rstrip String.[] = ""
rstrip (String.◌∷◌ c s) =
    let rest = rstrip s in if rest == "" && is_space (code c) then "" else String.◌∷◌ c rest

-- `s[:n]`
unfoldable pub text_take : ℕ → String → String
text_take zero s = ""
text_take (suc n) String.[] = ""
text_take (suc n) (String.◌∷◌ c s) = String.◌∷◌ c (text_take n s)

-- `separator.join(parts)`
unfoldable pub join : String → List String → String
join separator [] = ""
join separator (part ∷ []) = part
join separator (part ∷ parts) = part <> separator <> join separator parts

-- `s.strip()`
unfoldable pub strip : String → String
unfolding lstrip rstrip
strip s = rstrip (lstrip s)

-- The members of a list, each once: a `set` of texts, in some order.
unfoldable pub distinct : List String → List String
distinct [] = []
distinct (x ∷ xs) = if member x xs then distinct xs else x ∷ distinct xs

-- `sorted(set(xs))`
unfoldable pub sorted_set : List String → List String
unfolding distinct
sorted_set xs = sort text_le (distinct xs)

In-distinct_intro : (xs : List String) (x : String) → In x xs → In x (distinct xs)
unfolding distinct
In-distinct_intro [] x m = m
In-distinct_intro (y ∷ ys) x m = elim (Bool-cases (member y ys)) [
  | inl e ↦ rw e (elim m [
    | inl q ↦ rw q (In-distinct_intro ys y (member→In y ys e))
    | inr k ↦ In-distinct_intro ys x k
  ])
  | inr e ↦ rw e (elim m [ inl q ↦ inl q | inr k ↦ inr (In-distinct_intro ys x k) ])
]

pub In-sorted_set_intro : (xs : List String) (x : String) → In x xs → In x (sorted_set xs)
unfolding sorted_set
In-sorted_set_intro xs x m = In-sort_intro text_le (distinct xs) x (In-distinct_intro xs x m)
