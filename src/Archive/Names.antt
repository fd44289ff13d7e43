-- ===== src/Archive/Names.antt =====
-- The paths that _normalize_member_path of archive.py returns, read back into their parts.
use Prim.Native.Char.{Char, code}
use Prim.Native.String.{String}
use Prim.Native.String.append.{nil, cons}
use mathlib.Core.Path.{subst}
use astrbot_community_plugin.Prelude.{
  ◌≡◌, refl, sym, ap, ◌∙◌, inl, inr, Bool, true, false, not, ◌||◌, none, List, [], ◌∷◌, In,
  In-filter, filter, is_empty, Bool-cases, ||-false, ◌==◌, string_eq, nat_eq, ==-false, any,
  any-intro, member, member→In, not-false, raise_if-then, ok, ok-injective,
}
use astrbot_community_plugin.Prelude.Text.{◌<>◌, join}
use astrbot_community_plugin.Archive.Paths.{
  is_found, starts_with, root_for, has_code, push, split_slash, behind, root_of, path_parts,
  as_posix, first_is_drive, normalize_member_path,
}

-- No part has a slash.
abbrev Whole : List String → Type 0
Whole parts = (part : String) → In part parts → has_code 47 part ≡ false

split-one : (part : String) → has_code 47 part ≡ false → split_slash part ≡ part ∷ []
unfolding split_slash has_code
split-one String.[] h = refl
split-one (String.◌∷◌ c s) h =
    let (here, there) = ||-false (code c == 47) (has_code 47 s) h in
    rw (here, split-one s there) refl

append-empty : (t : String) → ("" <> t) ≡ t
append-empty t = λ i. nil t i

append-first : (c : Char) (s t : String) → (String.◌∷◌ c s <> t) ≡ String.◌∷◌ c (s <> t)
append-first c s t = λ i. cons c s t i

split-slash : (rest : String) → split_slash ("/" <> rest) ≡ "" ∷ split_slash rest
unfolding split_slash
split-slash rest =
    ap split_slash (append-first _ "" rest) ∙ ap (λ t. "" ∷ split_slash t) (append-empty rest)

split-more :
    (part rest : String)
    → has_code 47 part ≡ false
    → split_slash (part <> "/" <> rest) ≡ part ∷ split_slash rest
unfolding split_slash has_code
split-more String.[] rest h = ap split_slash (append-empty ("/" <> rest)) ∙ split-slash rest
split-more (String.◌∷◌ c s) rest h =
    let (here, there) = ||-false (code c == 47) (has_code 47 s) h in
    ap split_slash (append-first c s ("/" <> rest)) ∙ rw (here, split-more s rest there) refl

split-join :
    (part : String) (parts : List String)
    → Whole (part ∷ parts)
    → split_slash (join "/" (part ∷ parts)) ≡ part ∷ parts
unfolding join
split-join part [] w = split-one part (w part (inl refl))
split-join part (next ∷ parts) w =
    split-more part (join "/" (next ∷ parts)) (w part (inl refl))
    ∙ ap (λ rest. part ∷ rest) (split-join next parts (λ p m. w p (inr m)))

push-Whole :
    (c : Char) (parts : List String) → (code c == 47) ≡ false → Whole parts → Whole (push c parts)
unfolding has_code
push-Whole c [] h w part (inl e) = ap (has_code 47) e ∙ rw h refl
push-Whole c [] h w part (inr m) = absurd m
push-Whole c (first ∷ parts) h w part (inl e) = ap (has_code 47) e ∙ rw h (w first (inl refl))
push-Whole c (first ∷ parts) h w part (inr m) = w part (inr m)

split-Whole : (value : String) → Whole (split_slash value)
unfolding split_slash has_code
split-Whole String.[] part (inl e) = ap (has_code 47) e
split-Whole String.[] part (inr m) = absurd m
split-Whole (String.◌∷◌ c s) part m = elim (Bool-cases (code c == 47)) [
  | inl t ↦ elim (rw t at m) [ inl e ↦ ap (has_code 47) e | inr n ↦ split-Whole s part n ]
  | inr f ↦ push-Whole c (split_slash s) f (split-Whole s) part (rw f at m)
]

filter-twice : (p : String → Bool) (xs : List String) → filter p (filter p xs) ≡ filter p xs
filter-twice p [] = refl
filter-twice p (x ∷ xs) = elim (Bool-cases (p x)) [
  | inl t ↦ rw (t, t, filter-twice p xs) refl
  | inr f ↦ rw f (filter-twice p xs)
]

-- The parts that `path_parts` keeps.
abbrev kept : String → Bool
kept part = not (part == "" || part == ".")

behind-other :
    (d c : Char) (prefix t : String)
    → (code d == code c) ≡ false
    → behind (String.◌∷◌ d prefix) (String.◌∷◌ c t) ≡ none
unfolding behind
behind-other d c prefix t h = rw h refl

no_root : (value : String) → behind "//" value ≡ none → behind "/" value ≡ none → root_of value ≡ []
unfolding root_of
no_root value e f =
    ap (λ two. root_for two (starts_with "///" value) (starts_with "/" value)) (ap is_found e)
    ∙ ap (λ one. root_for false (starts_with "///" value) one) (ap is_found f)

root-free : (c : Char) (t : String) → (code c == 47) ≡ false → root_of (String.◌∷◌ c t) ≡ []
root-free c t h =
    let f : (47 == code c) ≡ false =
      ==-false 47 (code c) (λ q. cc (h, (nat_eq.beq_iff (code c) 47).1 (sym q))) in
    no_root (String.◌∷◌ c t) (behind-other _ c "/" t f) (behind-other _ c "" t f)

join-root :
    (part : String) (parts : List String)
    → has_code 47 part ≡ false
    → kept part ≡ true
    → root_of (join "/" (part ∷ parts)) ≡ []
unfolding has_code join
join-root String.[] parts h k = cc k
join-root (String.◌∷◌ c s) [] h k = root-free c s (||-false (code c == 47) (has_code 47 s) h).0
join-root (String.◌∷◌ c s) (next ∷ parts) h k =
    ap root_of (append-first c s ("/" <> join "/" (next ∷ parts)))
    ∙ root-free c (s <> "/" <> join "/" (next ∷ parts))
        (||-false (code c == 47) (has_code 47 s) h).0

unrooted :
    (value : String)
    → is_empty (root_of value) ≡ true
    → path_parts value ≡ filter kept (split_slash value)
unfolding path_parts
unrooted value h = rw (none_left (root_of value) h) refl
  where
    none_left : (xs : List String) → is_empty xs ≡ true → xs ≡ []
    none_left [] h = refl
    none_left (x ∷ xs) h = cc h

dot-parts : path_parts "." ≡ []
unfolding path_parts root_of behind split_slash
dot-parts = refl

dot-root : root_of "." ≡ []
unfolding root_of behind
dot-root = refl

head-kept :
    (part : String) (parts : List String)
    → filter kept (part ∷ parts) ≡ part ∷ parts
    → kept part ≡ true
head-kept part parts f =
    (In-filter kept (part ∷ parts) (subst (λ xs. In part xs) (sym f) (inl refl))).1

posix-root :
    (parts : List String) → Whole parts → filter kept parts ≡ parts → root_of (as_posix parts) ≡ []
unfolding as_posix
posix-root [] w f = dot-root
posix-root (part ∷ parts) w f = join-root part parts (w part (inl refl)) (head-kept part parts f)

read-back :
    (parts : List String)
    → Whole parts
    → filter kept parts ≡ parts
    → path_parts (as_posix parts) ≡ parts
unfolding as_posix
read-back [] w f = dot-parts
read-back (part ∷ parts) w f =
    unrooted (join "/" (part ∷ parts))
      (ap is_empty (join-root part parts (w part (inl refl)) (head-kept part parts f)))
    ∙ ap (filter kept) (split-join part parts w)
    ∙ f

-- A path that _normalize_member_path returns reads back as the parts of the normal form of the name
-- it was given, and is a relative path without `..`.
pub normalize_member_path-parts :
    (nfc : String → String) (value path : String)
    → normalize_member_path nfc value ≡ ok path
    → (path_parts path ≡ path_parts (nfc value))
      × (root_of path ≡ [])
      × (member ".." (path_parts path) ≡ false)
unfolding normalize_member_path
normalize_member_path-parts nfc value path e0 =
    let parts : List String = path_parts (nfc value) in
    let (_, e1) = raise_if-then (value == "" || has_code 0 value || has_code 92 value) _ _ e0 in
    let (c, e2) =
      raise_if-then
        (not (is_empty (root_of (nfc value)))
          || any (λ part. part == "" || part == "." || part == "..") parts)
        _ _ e1 in
    let (_, e3) = raise_if-then (first_is_drive parts) _ _ e2 in
    let (rooted, dots) =
      ||-false (not (is_empty (root_of (nfc value))))
        (any (λ part. part == "" || part == "." || part == "..") parts) c in
    let same : parts ≡ filter kept (split_slash (nfc value)) =
      unrooted (nfc value) (not-false (is_empty (root_of (nfc value))) rooted) in
    let whole : Whole parts =
      subst Whole (sym same)
        (λ part m. split-Whole (nfc value) part (In-filter kept (split_slash (nfc value)) m).0) in
    let stays : filter kept parts ≡ parts =
      subst (λ xs. filter kept xs ≡ xs) (sym same) (filter-twice kept (split_slash (nfc value))) in
    let back : path_parts path ≡ parts =
      ap path_parts (sym (ok-injective e3)) ∙ read-back parts whole stays in
    (
      back,
      ap root_of (sym (ok-injective e3)) ∙ posix-root parts whole stays,
      ap (member "..") back ∙ no_dots parts dots,
    )
  where
    no_dots :
        (parts : List String)
        → any (λ part. part == "" || part == "." || part == "..") parts ≡ false
        → member ".." parts ≡ false
    no_dots parts h = elim (Bool-cases (member ".." parts)) [
      | inl t ↦ cc (
        h,
        any-intro (λ part. part == "" || part == "." || part == "..") parts (member→In ".." parts t)
            refl,
      )
      | inr f ↦ f
    ]
