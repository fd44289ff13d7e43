-- ===== src/Archive/Paths.antt =====
-- The paths of archive members: _normalize_member_path, _common_wrapper_prefix, _strip_prefix and
-- _validate_depth of apps/api/app/artifacts/archive.py, with what they use of PurePosixPath. The
-- messages of the errors, which are for display, are left out. Parameter: the normal form NFC.
use Prim.Native.Char.{Char, code}
use Prim.Native.String.{String}
use astrbot_community_plugin.Prelude.{
  ℕ, Bool, true, false, not, ◌&&◌, ◌||◌, Option, none, some, List, [], ◌∷◌, map, length, ◌==◌,
  string_eq, nat_eq, leb, ltb, any, all, filter, is_empty, if◌then◌else◌, Result, ok, raise_if,
  ◌>>◌,
}
use astrbot_community_plugin.Prelude.Text.{◌<>◌, join, distinct}

-- `PrecheckError`
pub record PrecheckError : Type 0 where
  pub error_code : String
  pub error_path : String

abbrev pub precheck_error : String → PrecheckError
precheck_error reason = record { error_code = reason; error_path = "" }

abbrev pub path_error : String → String → PrecheckError
path_error reason path = record { error_code = reason; error_path = path }

-- Whether a character with the code stands in a text.
unfoldable pub has_code : ℕ → String → Bool
has_code n String.[] = false
has_code n (String.◌∷◌ c s) = code c == n || has_code n s

abbrev pub push : Char → List String → List String
push c [] = String.◌∷◌ c "" ∷ []
push c (part ∷ parts) = String.◌∷◌ c part ∷ parts

-- `value.split("/")`
unfoldable pub split_slash : String → List String
split_slash String.[] = "" ∷ []
split_slash (String.◌∷◌ c s) =
    let rest = split_slash s in if code c == 47 then "" ∷ rest else push c rest

-- The text behind a prefix that it starts with.
unfoldable pub behind : String → String → Option String
behind String.[] text = some text
behind (String.◌∷◌ c prefix) String.[] = none
behind (String.◌∷◌ c prefix) (String.◌∷◌ d text) =
    let rest = behind prefix text in if code c == code d then rest else none

abbrev pub is_found : Option String → Bool
is_found none = false
is_found (some rest) = true

abbrev pub starts_with : String → String → Bool
starts_with prefix text = is_found (behind prefix text)

-- The root of a path that starts with two, three and one slashes.
abbrev pub root_for : Bool → Bool → Bool → List String
root_for two three one = if two && not three then "//" ∷ [] else if one then "/" ∷ [] else []

-- The root of `PurePosixPath(value)`.
unfoldable pub root_of : String → List String
unfolding behind
root_of value = root_for (starts_with "//" value) (starts_with "///" value) (starts_with "/" value)

abbrev pub put_root : List String → List String → List String
put_root [] parts = parts
put_root (root ∷ rest) parts = root ∷ parts

-- `PurePosixPath(value).parts`
unfoldable pub path_parts : String → List String
unfolding root_of split_slash
path_parts value =
    put_root (root_of value) (filter (λ part. not (part == "" || part == ".")) (split_slash value))

-- `PurePosixPath(value).as_posix()` of a relative path
unfoldable pub as_posix : List String → String
as_posix [] = "."
as_posix (part ∷ parts) = join "/" (part ∷ parts)

abbrev pub is_letter : ℕ → Bool
is_letter c = leb 65 c && leb c 90 || leb 97 c && leb c 122

-- `re.match(r"^[A-Za-z]:", part)`
unfoldable pub is_drive : String → Bool
is_drive (String.◌∷◌ c (String.◌∷◌ d s)) = is_letter (code c) && code d == 58
is_drive other = false

abbrev pub first_is_drive : List String → Bool
first_is_drive [] = false
first_is_drive (part ∷ parts) = is_drive part

unfoldable pub normalize_member_path : (String → String) → String → Result PrecheckError String
unfolding has_code path_parts root_of as_posix is_drive
normalize_member_path nfc value =
    let parts : List String = path_parts (nfc value) in
    do
      raise_if (value == "" || has_code 0 value || has_code 92 value)
          (precheck_error "path_traversal")
      raise_if
          (not (is_empty (root_of (nfc value)))
            || any (λ part. part == "" || part == "." || part == "..") parts)
          (precheck_error "path_traversal")
      raise_if (first_is_drive parts) (precheck_error "path_traversal")
      ok (as_posix parts)

abbrev pub is_root_file : String → Bool
is_root_file path = path == "metadata.yaml" || path == "metadata.yml" || path == "main.py"

abbrev pub first_part : List String → String
first_part [] = ""
first_part (part ∷ parts) = part

abbrev pub only_root : List String → String
only_root (root ∷ []) = root
only_root other = ""

unfoldable pub common_wrapper_prefix : List String → String
unfolding path_parts distinct
common_wrapper_prefix paths =
    let split_paths : List (List String) = map path_parts paths in
    if any is_root_file paths
    then ""
    else if all (λ parts. leb 2 (length parts)) split_paths
    then only_root (distinct (map first_part split_paths))
    else ""

unfoldable pub strip_prefix : String → String → String
unfolding behind
strip_prefix path prefix =
    if prefix == ""
    then path
    else elim (behind (prefix <> "/") path) [ some rest ↦ rest | none ↦ path ]

-- The test of `_validate_depth`.
unfoldable pub too_deep : ℕ → String → Bool
unfolding path_parts
too_deep maximum path = ltb maximum (length (path_parts path))

abbrev pub last_part : List String → String
last_part [] = ""
last_part (part ∷ []) = part
last_part (part ∷ parts) = last_part parts

-- The text from the last dot on.
unfoldable pub last_dot : String → Option String
last_dot String.[] = none
last_dot (String.◌∷◌ c s) = elim (last_dot s) [
  | some t ↦ some t
  | none ↦ if code c == 46 then some (String.◌∷◌ c s) else none
]

-- The suffix of a name: nothing for a dot in front or at the end.
unfoldable pub name_suffix : String → String
unfolding last_dot
name_suffix String.[] = ""
name_suffix (String.◌∷◌ c s) = elim (last_dot s) [
  | some t ↦ (if t == "." then "" else t)
  | none ↦ ""
]

-- `PurePosixPath(path).suffix`
unfoldable pub suffix : String → String
unfolding name_suffix path_parts
suffix path = name_suffix (last_part (path_parts path))
