-- ===== src/Tests/Archives.antt =====
-- A small archive with a wrapper folder.
use astrbot_community_plugin.Prelude.{
  ℕ, String, ◌≡◌, refl, true, false, Option, none, some, List, [], ◌∷◌, ok, err, Result, member,
  string_eq,
}
use astrbot_community_plugin.Prelude.Sorting.{sort}
use astrbot_community_plugin.Prelude.Text.{join}
use astrbot_community_plugin.Archive.Paths.{
  PrecheckError, path_parts, root_of, normalize_member_path,
}
use astrbot_community_plugin.Archive.Names.{normalize_member_path-parts}
use astrbot_community_plugin.Archive.{Bytes, Settings, ZipEntry, Inspection, inspect}
use astrbot_community_plugin.Archive.Inspections.{IsWithin, inspect-IsWithin}

abbrev limits : Settings
limits = record {
  max_files = 3;
  max_path_depth = 2;
  max_file_bytes = 4;
  max_unpacked_bytes = 5;
  max_compression_ratio = 10;
}

abbrev entry : String → ZipEntry
entry name = record {
  filename = name;
  is_dir = false;
  flag_bits = 0;
  external_attr = 2175008768;
  file_size = 2;
  compress_size = 2;
}

abbrev same_text : String → String
same_text t = t

abbrev content : ZipEntry → Option Bytes
content info = some (35 ∷ 10 ∷ [])

abbrev decoded : Bytes → Option String
decoded bytes = some "#\n"

abbrev one_line : String → ℕ
one_line t = 1

abbrev no_type : String → Option String
no_type t = none

abbrev bytes_digest : Bytes → String
bytes_digest bytes = "d"

abbrev entries : List ZipEntry
entries =
    entry "plugin/metadata.yaml"
    ∷ entry "plugin/./main.py"
    ∷ record (entry "plugin/") { is_dir = true }
    ∷ []

abbrev inspected : Result PrecheckError Inspection
inspected =
    inspect same_text same_text same_text content decoded one_line no_type bytes_digest same_text
      limits entries

abbrev inspection_in : Result PrecheckError Inspection → Inspection
inspection_in (ok result) = result
inspection_in (err e) = record { members = []; tree_sha256 = "" }

accepted : inspected ≡ ok (inspection_in inspected)
unfolding inspect sort join
accepted = refl

inspect-IsWithin_example :
    IsWithin same_text same_text same_text content decoded one_line no_type bytes_digest same_text
      limits
      (inspection_in inspected)
inspect-IsWithin_example =
    inspect-IsWithin same_text same_text same_text content decoded one_line no_type bytes_digest
      same_text limits entries (inspection_in inspected) accepted

normalize_member_path-parts_example :
    (path_parts "a/b" ≡ path_parts (same_text "a/./b"))
    × (root_of "a/b" ≡ [])
    × (member ".." (path_parts "a/b") ≡ false)
unfolding normalize_member_path join
normalize_member_path-parts_example = normalize_member_path-parts same_text "a/./b" "a/b" refl
