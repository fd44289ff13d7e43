-- ===== src/Archive.antt =====
-- ArchivePrechecker.inspect of apps/api/app/artifacts/archive.py up to the metadata: the limits, the
-- paths and the kinds of the files, and the files that the root must have. Bytes are numbers.
-- Parameters: the normal form NFC, `casefold` and `lower`, the reading of an entry (`none` where it
-- fails), UTF-8, the number of lines of a text, the MIME types, and SHA-256 in hexadecimal.
pub mod Paths
pub mod Limits
pub mod Inspections
pub mod Names
use Prim.Native.Char.{code}
use Prim.Native.String
use Prim.Native.String.{String}
use Prim.Native.Nat.{◌/◌, bit_and, max}
use astrbot_community_plugin.Prelude.{
  ℕ, ◌+◌, ◌*◌, Bool, true, false, not, ◌&&◌, ◌||◌, Option, none, some, List, [], ◌∷◌, ◌++◌, map,
  length, ◌==◌, string_eq, nat_eq, ltb, member, filter, is_empty, if◌then◌else◌, Result, ok, err,
  raise_if, ◌>>=◌, ◌>>◌,
}
use astrbot_community_plugin.Prelude.Sorting.{sort}
use astrbot_community_plugin.Prelude.Text.{◌<>◌, text_le}
use Paths.{
  PrecheckError, precheck_error, path_error, starts_with, normalize_member_path,
  common_wrapper_prefix, strip_prefix, too_deep, suffix,
}

abbrev pub Bytes : Type 0
Bytes = List ℕ

-- The limits of `ArtifactSettings`.
pub record Settings : Type 0 where
  pub max_files : ℕ
  pub max_path_depth : ℕ
  pub max_file_bytes : ℕ
  pub max_unpacked_bytes : ℕ
  pub max_compression_ratio : ℕ

-- The columns of a `ZipInfo` that are read.
pub record ZipEntry : Type 0 where
  pub filename : String
  pub is_dir : Bool
  pub flag_bits : ℕ
  pub external_attr : ℕ
  pub file_size : ℕ
  pub compress_size : ℕ

pub record ArchiveMember : Type 0 where
  pub path : String
  pub source_name : String
  pub language : String
  pub mime_type : String
  pub sha256 : String
  pub size_bytes : ℕ
  pub line_count : Option ℕ
  pub is_text : Bool

-- The local variables of the loop over the files.
pub record Scan : Type 0 where
  pub seen : List String
  pub seen_casefold : List String
  pub total_unpacked : ℕ
  pub members : List ArchiveMember

-- The members of a `PrecheckResult`, and its digest of the tree.
pub record Inspection : Type 0 where
  pub members : List ArchiveMember
  pub tree_sha256 : String

-- `NATIVE_SUFFIXES`
unfoldable pub native_suffixes : List String
native_suffixes =
    ".a" ∷ ".app" ∷ ".bin" ∷ ".com" ∷ ".dll" ∷ ".dylib" ∷ ".exe" ∷ ".msi" ∷ ".o" ∷ ".pyd" ∷ ".so"
    ∷ []

-- `TEXT_SUFFIXES`
unfoldable pub text_suffixes : List String
text_suffixes =
    ".cfg" ∷ ".css" ∷ ".csv" ∷ ".html" ∷ ".ini" ∷ ".js" ∷ ".json" ∷ ".md" ∷ ".py" ∷ ".rst" ∷ ".sh"
    ∷ ".toml" ∷ ".ts" ∷ ".txt" ∷ ".vue" ∷ ".yaml" ∷ ".yml" ∷ []

-- `LANGUAGE_BY_SUFFIX`
unfoldable pub language_by_suffix : List (String × String)
language_by_suffix =
    (".css", "css")
    ∷ (".html", "html")
    ∷ (".js", "javascript")
    ∷ (".json", "json")
    ∷ (".md", "markdown")
    ∷ (".py", "python")
    ∷ (".sh", "shell")
    ∷ (".toml", "toml")
    ∷ (".ts", "typescript")
    ∷ (".vue", "vue")
    ∷ (".yaml", "yaml")
    ∷ (".yml", "yaml")
    ∷ []

-- `d.get(key, default)`
abbrev pub lookup_or : String → String → List (String × String) → String
lookup_or default key [] = default
lookup_or default key ((k, v) ∷ rest) = if k == key then v else lookup_or default key rest

-- The codes of a text in ASCII.
unfoldable pub ascii : String → Bytes
ascii String.[] = []
ascii (String.◌∷◌ c s) = code c ∷ ascii s

-- `content.startswith(prefix)`
unfoldable pub bytes_start : Bytes → Bytes → Bool
bytes_start [] content = true
bytes_start (b ∷ prefix) [] = false
bytes_start (b ∷ prefix) (c ∷ content) = b == c && bytes_start prefix content

-- `stat.S_ISLNK(external_attr >> 16)`
unfoldable pub is_symlink : ZipEntry → Bool
is_symlink info = bit_and (info.external_attr / 65536) 61440 == 40960

-- `file_size / max(compress_size, 1) > max_compression_ratio`, without the rounding of the division
unfoldable pub is_bomb : Settings → ZipEntry → Bool
is_bomb settings info =
    ltb (settings.max_compression_ratio * max info.compress_size 1) info.file_size

unfoldable pub tree_lines : List ArchiveMember → String
tree_lines [] = ""
tree_lines (m ∷ members) = m.path <> "\0" <> m.sha256 <> "\n" <> tree_lines members

unfoldable pub tree_digest : (String → String) → List ArchiveMember → String
unfolding tree_lines
tree_digest sha256_text members =
    sha256_text (tree_lines (sort (λ a b. text_le a.path b.path) members))

-- The files of `archive.infolist()`.
abbrev pub regular_files : List ZipEntry → List ZipEntry
regular_files infolist = filter (λ info. not info.is_dir) infolist

module _ (nfc casefold lower : String → String) (read : ZipEntry → Option Bytes)
    (decode : Bytes → Option String) (count_lines : String → ℕ)
    (guess_type : String → Option String) (sha256 : Bytes → String)
    (sha256_text : String → String) where
  -- `_text_details`: the number of lines of a text, or `none` for another file.
  unfoldable pub text_details : String → Bytes → Option ℕ
  unfolding suffix text_suffixes
  text_details path content =
      if member 0 content
        || not (member (lower (suffix path)) text_suffixes) && not (starts_with "README" path)
      then none
      else elim (decode content) [ some t ↦ some (count_lines t) | none ↦ none ]

  -- The raises before an entry is read.
  unfoldable pub check_entry : Settings → String → ZipEntry → Scan → Result PrecheckError (Unit {0})
  unfolding too_deep is_symlink is_bomb suffix native_suffixes
  check_entry settings path info scan = do
    raise_if (path == "") (precheck_error "invalid_path")
    raise_if (too_deep settings.max_path_depth path) (path_error "path_too_deep" path)
    raise_if (member path scan.seen || member (casefold path) scan.seen_casefold)
        (path_error "duplicate_path" path)
    raise_if (bit_and info.flag_bits 1 == 1) (path_error "encrypted_entry" path)
    raise_if (is_symlink info) (path_error "symlink_not_allowed" path)
    raise_if (ltb settings.max_file_bytes info.file_size) (path_error "file_too_large" path)
    raise_if (ltb settings.max_unpacked_bytes (scan.total_unpacked + info.file_size))
        (precheck_error "archive_unpacked_too_large")
    raise_if (is_bomb settings info) (path_error "zip_bomb_suspected" path)
    raise_if (member (lower (suffix path)) native_suffixes)
        (path_error "native_binary_not_supported" path)

  -- The raises on the content.
  unfoldable pub check_content : String → ZipEntry → Bytes → Result PrecheckError (Unit {0})
  unfolding bytes_start ascii
  check_content path info content = do
    raise_if (not (length content == info.file_size)) (path_error "zip_size_mismatch" path)
    raise_if (bytes_start (ascii "version https://git-lfs.github.com/spec/v1") content)
        (path_error "git_lfs_not_supported" path)
    raise_if (path == ".gitmodules") (precheck_error "submodule_not_supported")

  abbrev pub is_some : Option ℕ → Bool
  is_some none = false
  is_some (some n) = true

  abbrev pub default_mime : Bool → String
  default_mime is_text = if is_text then "text/plain" else "application/octet-stream"

  abbrev pub mime_or : Bool → Option String → String
  mime_or is_text none = default_mime is_text
  mime_or is_text (some type) = if type == "" then default_mime is_text else type

  unfoldable pub new_member : String → ZipEntry → Bytes → ArchiveMember
  unfolding text_details suffix language_by_suffix
  new_member path info content =
      let details : Option ℕ = text_details path content in
      record {
        path = path;
        source_name = info.filename;
        language =
            lookup_or (if is_some details then "text" else "") (lower (suffix path))
              language_by_suffix;
        mime_type = mime_or (is_some details) (guess_type path);
        sha256 = sha256 content;
        size_bytes = length content;
        line_count = details;
        is_text = is_some details;
      }

  unfoldable pub scanned : String → ZipEntry → Scan → Bytes → Scan
  unfolding new_member
  scanned path info scan content = record {
    seen = path ∷ scan.seen;
    seen_casefold = casefold path ∷ scan.seen_casefold;
    total_unpacked = scan.total_unpacked + info.file_size;
    members = scan.members ++ new_member path info content ∷ [];
  }

  unfoldable pub read_entry : String → ZipEntry → Option Bytes → Result PrecheckError Bytes
  unfolding check_content
  read_entry path info none = err (path_error "zip_read_failed" path)
  read_entry path info (some content) = check_content path info content >>= λ checked. ok content

  -- The body of the loop over the files.
  unfoldable pub inspect_entry :
      Settings → String → ZipEntry → String → Scan → Result PrecheckError Scan
  unfolding check_entry read_entry scanned strip_prefix
  inspect_entry settings prefix info raw_path scan =
      let path : String = strip_prefix raw_path prefix in
      check_entry settings path info scan
      >> (read_entry path info (read info) >>= λ content. ok (scanned path info scan content))

  unfoldable pub inspect_entries :
      Settings → String → List (ZipEntry × String) → Scan → Result PrecheckError Scan
  unfolding inspect_entry
  inspect_entries settings prefix [] scan = ok scan
  inspect_entries settings prefix ((info, raw_path) ∷ entries) scan =
      inspect_entry settings prefix info raw_path scan >>= inspect_entries settings prefix entries

  unfoldable pub normalize_all : List ZipEntry → Result PrecheckError (List (ZipEntry × String))
  unfolding normalize_member_path
  normalize_all [] = ok []
  normalize_all (info ∷ entries) = do
    path ← normalize_member_path nfc info.filename
    rest ← normalize_all entries
    ok ((info, path) ∷ rest)

  -- The raises on the files of the root.
  unfoldable pub check_root : List String → Result PrecheckError (Unit {0})
  check_root seen = do
    raise_if (not (member "metadata.yaml" seen || member "metadata.yml" seen))
        (precheck_error "metadata_missing")
    raise_if (member "metadata.yaml" seen && member "metadata.yml" seen)
        (precheck_error "metadata_ambiguous")
    raise_if (not (member "main.py" seen)) (precheck_error "entrypoint_missing")

  -- `inspect`, without the metadata.
  unfoldable pub inspect : Settings → List ZipEntry → Result PrecheckError Inspection
  unfolding normalize_all common_wrapper_prefix inspect_entries check_root tree_digest
  inspect settings infolist = do
    raise_if (ltb settings.max_files (length (regular_files infolist)))
        (precheck_error "too_many_files")
    raise_if (is_empty (regular_files infolist)) (precheck_error "empty_archive")
    normalized ← normalize_all (regular_files infolist)
    scan ←
        inspect_entries settings (common_wrapper_prefix (map (λ f. f.1) normalized)) normalized
          (record { seen = []; seen_casefold = []; total_unpacked = 0; members = [] })
    check_root scan.seen
    ok (record {
      members = sort (λ a b. text_le a.path b.path) scan.members;
      tree_sha256 = tree_digest sha256_text scan.members;
    })
