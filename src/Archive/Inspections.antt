-- ===== src/Archive/Inspections.antt =====
-- What an archive that inspect of archive.py accepts is like: its limits, paths and root files.
use mathlib.Core.Path.{subst}
use astrbot_community_plugin.Prelude.{
  ℕ, String, suc, ◌+◌, ◌≤◌, ◌≡◌, refl, sym, ap, ◌∙◌, ◌⊎◌, inl, inr, Bool, true, false, not, ◌&&◌,
  ◌||◌, Option, List, [], ◌∷◌, ◌++◌, map, length, arith, In, member, is_empty, string_eq, nat_eq,
  ltb, Bool-cases, ok, raise_if, raise_if-then, >>=-eq-ok, ok-injective, ◌>>=◌, ||-true, member→In,
  not-false,
}
use astrbot_community_plugin.Prelude.Sorting.{insert, sort, In-sort, In-sort_intro}
use astrbot_community_plugin.Prelude.Text.{text_le}
use astrbot_community_plugin.Archive.Paths.{
  PrecheckError, strip_prefix, normalize_member_path, common_wrapper_prefix,
}
use astrbot_community_plugin.Archive.{
  Bytes, Settings, ZipEntry, ArchiveMember, Scan, Inspection, check_entry, new_member, scanned,
  read_entry, inspect_entry, inspect_entries, normalize_all, regular_files, check_root, inspect,
}
use astrbot_community_plugin.Archive.Limits.{
  total_size, total_size-sort, Fits, Sound, inspect_entries-Sound,
}

length-insert :
    (le : ArchiveMember → ArchiveMember → Bool) (m : ArchiveMember) (members : List ArchiveMember)
    → length (insert le m members) ≡ suc (length members)
unfolding insert
length-insert le m [] = refl
length-insert le m (n ∷ members) = elim (Bool-cases (le m n)) [
  | inl t ↦ rw t refl
  | inr f ↦ rw f (omega (arith, length-insert le m members))
]

length-sort :
    (le : ArchiveMember → ArchiveMember → Bool) (members : List ArchiveMember)
    → length (sort le members) ≡ length members
unfolding sort
length-sort le [] = refl
length-sort le (m ∷ members) =
    omega (arith, length-insert le m (sort le members), length-sort le members)

length-snoc :
    (members : List ArchiveMember) (m : ArchiveMember)
    → length (members ++ m ∷ []) ≡ suc (length members)
length-snoc [] m = refl
length-snoc (n ∷ members) m = ap suc (length-snoc members m)

not_over : (limit n : ℕ) → ltb limit n ≡ false → n ≤ limit
not_over limit n h = ground arith

few_members :
    (sorted found named files limit : ℕ)
    → files ≤ limit
    → sorted ≡ found
    → found ≡ 0 + named
    → named ≡ files
    → sorted ≤ limit
few_members sorted found named files limit f a b c = omega (arith, f, a, b, c)

module _ (nfc casefold lower : String → String) (read : ZipEntry → Option Bytes)
    (decode : Bytes → Option String) (count_lines : String → ℕ)
    (guess_type : String → Option String) (sha256 : Bytes → String)
    (sha256_text : String → String) where
  normalize_all-length :
      (entries : List ZipEntry) {out : List (ZipEntry × String)}
      → normalize_all nfc casefold lower read decode count_lines guess_type sha256 sha256_text
          entries
        ≡ ok out
      → length out ≡ length entries
  unfolding normalize_all
  normalize_all-length [] e = ap length (sym (ok-injective e))
  normalize_all-length (info ∷ entries) e =
      let (path, f, g) = >>=-eq-ok (normalize_member_path nfc info.filename) _ e in
      let (rest, h, k) =
        >>=-eq-ok
          (normalize_all nfc casefold lower read decode count_lines guess_type sha256 sha256_text
            entries)
          (λ rest. ok ((info, path) ∷ rest)) g in
      ap length (sym (ok-injective k)) ∙ ap suc (normalize_all-length entries h)

  inspect_entry-length :
      (settings : Settings) (prefix : String) (info : ZipEntry) (raw_path : String) (scan : Scan)
      {out : Scan}
      → inspect_entry nfc casefold lower read decode count_lines guess_type sha256 sha256_text
          settings prefix info raw_path scan
        ≡ ok out
      → length out.members ≡ suc (length scan.members)
  unfolding inspect_entry scanned
  inspect_entry-length settings prefix info raw_path scan e =
      let path : String = strip_prefix raw_path prefix in
      let (_, a, b) =
        >>=-eq-ok
          (check_entry nfc casefold lower read decode count_lines guess_type sha256 sha256_text
            settings path info scan)
          (λ done.
            read_entry nfc casefold lower read decode count_lines guess_type sha256 sha256_text path
              info (read info)
            >>= λ content. ok (
                scanned nfc casefold lower read decode count_lines guess_type sha256 sha256_text
                  path info scan content))
          e in
      let (content, c, d) =
        >>=-eq-ok
          (read_entry nfc casefold lower read decode count_lines guess_type sha256 sha256_text path
            info (read info))
          (λ content. ok (
            scanned nfc casefold lower read decode count_lines guess_type sha256 sha256_text path
              info scan content))
          b in
      ap (λ (x : Scan). length x.members) (sym (ok-injective d))
      ∙ length-snoc scan.members (
          new_member nfc casefold lower read decode count_lines guess_type sha256 sha256_text path
            info content)

  inspect_entries-length :
      (settings : Settings) (prefix : String) (entries : List (ZipEntry × String)) (scan : Scan)
      {out : Scan}
      → inspect_entries nfc casefold lower read decode count_lines guess_type sha256 sha256_text
          settings prefix entries scan
        ≡ ok out
      → length out.members ≡ length scan.members + length entries
  unfolding inspect_entries
  inspect_entries-length settings prefix [] scan e =
      ap (λ (x : Scan). length x.members) (sym (ok-injective e)) ∙ omega arith
  inspect_entries-length settings prefix ((info, raw_path) ∷ entries) scan e =
      let (next, f, g) =
        >>=-eq-ok
          (inspect_entry nfc casefold lower read decode count_lines guess_type sha256 sha256_text
            settings prefix info raw_path scan)
          (inspect_entries nfc casefold lower read decode count_lines guess_type sha256 sha256_text
            settings prefix entries)
          e in
      omega (
        arith,
        inspect_entries-length settings prefix entries next g,
        inspect_entry-length settings prefix info raw_path scan f,
      )

  -- An archive within the limits, with its root files.
  pub record IsWithin (settings : Settings) (result : Inspection) : Type 0 where
    pub number : length result.members ≤ settings.max_files
    pub total : total_size result.members ≤ settings.max_unpacked_bytes
    pub fits :
        (m : ArchiveMember)
        → In m result.members
        → Fits nfc casefold lower read decode count_lines guess_type sha256 sha256_text settings m
    pub apart :
        (m n : ArchiveMember)
        → In m result.members
        → In n result.members
        → casefold m.path ≡ casefold n.path
        → m ≡ n
    pub entrypoint : (m : ArchiveMember) × In m result.members × (m.path ≡ "main.py")
    pub metadata :
        (m : ArchiveMember) × In m result.members
        × ((m.path ≡ "metadata.yaml") ⊎ (m.path ≡ "metadata.yml"))

  rooted :
      (seen : List String)
      → check_root nfc casefold lower read decode count_lines guess_type sha256 sha256_text seen
        ≡ ok tt
      → In "main.py" seen × (In "metadata.yaml" seen ⊎ In "metadata.yml" seen)
  unfolding check_root
  rooted seen e =
      let (some_metadata, f) =
        raise_if-then (not (member "metadata.yaml" seen || member "metadata.yml" seen)) _ _ e in
      let (_, g) =
        raise_if-then (member "metadata.yaml" seen && member "metadata.yml" seen) _ _ f in
      (
        member→In "main.py" seen (kept (member "main.py" seen) _ g),
        elim (||-true _ _
            (not-false (member "metadata.yaml" seen || member "metadata.yml" seen) some_metadata)) [
              | inl t ↦ inl (member→In "metadata.yaml" seen t)
              | inr t ↦ inr (member→In "metadata.yml" seen t)
            ],
      )
    where
      kept : (b : Bool) (reason : PrecheckError) → raise_if (not b) reason ≡ ok tt → b ≡ true
      kept true reason e = refl
      kept false reason e = cc

  -- Every archive that inspect accepts is within the limits: it has at most `max_files` members, of at
  -- most `max_unpacked_bytes` in all and `max_file_bytes` each, no path is deeper than
  -- `max_path_depth` or ends in a native suffix, no two members have the same path up to case, and
  -- `main.py` and one of the metadata files stand in the root.
  pub inspect-IsWithin :
      (settings : Settings) (infolist : List ZipEntry) (result : Inspection)
      → inspect nfc casefold lower read decode count_lines guess_type sha256 sha256_text settings
          infolist
        ≡ ok result
      → IsWithin settings result
  unfolding inspect
  inspect-IsWithin settings infolist result e0 =
      let files : List ZipEntry = regular_files infolist in
      let le : ArchiveMember → ArchiveMember → Bool = λ a b. text_le a.path b.path in
      let start : Scan = record {
        seen = [];
        seen_casefold = [];
        total_unpacked = 0;
        members = [];
      } in
      let (few, e1) = raise_if-then (ltb settings.max_files (length files)) _ _ e0 in
      let (_, e2) = raise_if-then (is_empty files) _ _ e1 in
      let (normalized, n, e3) =
        >>=-eq-ok
          (normalize_all nfc casefold lower read decode count_lines guess_type sha256 sha256_text
            files)
          _ e2 in
      let prefix : String = common_wrapper_prefix (map (λ f. f.1) normalized) in
      let (scan, i, e4) =
        >>=-eq-ok
          (inspect_entries nfc casefold lower read decode count_lines guess_type sha256 sha256_text
            settings prefix normalized start)
          _ e3 in
      let (_, root, e5) =
        >>=-eq-ok
          (check_root nfc casefold lower read decode count_lines guess_type sha256 sha256_text
            scan.seen)
          _ e4 in
      let sound : Sound nfc casefold lower read decode count_lines guess_type sha256 sha256_text
          settings scan =
        inspect_entries-Sound nfc casefold lower read decode count_lines guess_type sha256
          sha256_text settings prefix normalized start i start-Sound in
      let (main, metadata) = rooted scan.seen root in
      subst (IsWithin settings) (ok-injective e5) (record {
        number =
            few_members (length (sort le scan.members)) (length scan.members) (length normalized)
              (length files) settings.max_files (not_over settings.max_files (length files) few)
              (length-sort le scan.members)
              (inspect_entries-length settings prefix normalized start i)
              (normalize_all-length files n);
        total = omega (arith, total_size-sort le scan.members, sound.counted, sound.bounded);
        fits = λ m k. sound.fits m (In-sort le scan.members m k);
        apart =
            λ m n k j. sound.apart m n (In-sort le scan.members m k) (In-sort le scan.members n j);
        entrypoint = member_at le scan sound "main.py" main;
        metadata = elim metadata [
          | inl y ↦ let (m, k, q) = member_at le scan sound "metadata.yaml" y in (m, k, inl q)
          | inr y ↦ let (m, k, q) = member_at le scan sound "metadata.yml" y in (m, k, inr q)
        ];
      })
    where
      start-Sound :
          {settings : Settings}
          → Sound nfc casefold lower read decode count_lines guess_type sha256 sha256_text settings
              (record { seen = []; seen_casefold = []; total_unpacked = 0; members = [] })
      start-Sound =
          unfold total_size in
          record {
            counted = refl;
            bounded = omega arith;
            fits = λ m k. absurd k;
            folded = λ m k. absurd k;
            apart = λ m n k. absurd k;
            present = λ name k. absurd k;
          }

      member_at :
          {settings : Settings} (le : ArchiveMember → ArchiveMember → Bool) (scan : Scan)
          → Sound nfc casefold lower read decode count_lines guess_type sha256 sha256_text settings
              scan
          → (name : String) → In name scan.seen
          → (m : ArchiveMember) × In m (sort le scan.members) × (m.path ≡ name)
      member_at le scan sound name k =
          let (m, j, q) = sound.present name k in (m, In-sort_intro le scan.members m j, q)
