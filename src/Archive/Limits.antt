-- ===== src/Archive/Limits.antt =====
-- The loop over the files in inspect of archive.py: what holds of its local variables.
use mathlib.Core.Path.{subst}
use Prim.Native.Nat.{bit_and}
use astrbot_community_plugin.Prelude.{
  ℕ, String, ◌+◌, ◌≤◌, ◌≡◌, refl, sym, ap, ◌∙◌, ◌⊎◌, inl, inr, Bool, true, false, not, ◌||◌, Option,
  none, some, List, [], ◌∷◌, ◌++◌, length, arith, In, member, In→member, ◌==◌, string_eq, nat_eq,
  ==→≡, ltb, Bool-cases, ok, raise_if, raise_if-then, >>=-eq-ok, ok-injective, ◌>>=◌, ||-false,
  not-false,
}
use astrbot_community_plugin.Prelude.Sorting.{insert, sort}
use astrbot_community_plugin.Archive.Paths.{PrecheckError, strip_prefix, too_deep, suffix}
use astrbot_community_plugin.Archive.{
  Bytes, Settings, ZipEntry, ArchiveMember, Scan, native_suffixes, is_bomb, is_symlink, check_entry,
  check_content, new_member, scanned, read_entry, inspect_entry, inspect_entries,
}

-- The sum of the sizes.
unfoldable pub total_size : List ArchiveMember → ℕ
total_size [] = 0
total_size (m ∷ members) = m.size_bytes + total_size members

module _ (le : ArchiveMember → ArchiveMember → Bool) where
  total_size-insert :
      (m : ArchiveMember) (members : List ArchiveMember)
      → total_size (insert le m members) ≡ m.size_bytes + total_size members
  unfolding insert total_size
  total_size-insert m [] = refl
  total_size-insert m (n ∷ members) = elim (Bool-cases (le m n)) [
    | inl t ↦ rw t refl
    | inr f ↦ rw f (omega (arith, total_size-insert m members))
  ]

  pub total_size-sort :
      (members : List ArchiveMember) → total_size (sort le members) ≡ total_size members
  unfolding sort total_size
  total_size-sort [] = refl
  total_size-sort (m ∷ members) =
      omega (arith, total_size-insert m (sort le members), total_size-sort members)

total_size-snoc :
    (members : List ArchiveMember) (m : ArchiveMember)
    → total_size (members ++ m ∷ []) ≡ total_size members + m.size_bytes
unfolding total_size
total_size-snoc [] m = omega arith
total_size-snoc (n ∷ members) m = omega (arith, total_size-snoc members m)

In-snoc :
    (members : List ArchiveMember) (m : ArchiveMember) (x : ArchiveMember)
    → In x (members ++ m ∷ [])
    → In x members ⊎ (x ≡ m)
In-snoc [] m x (inl e) = inr e
In-snoc [] m x (inr n) = absurd n
In-snoc (n ∷ members) m x (inl e) = inl (inl e)
In-snoc (n ∷ members) m x (inr k) = elim (In-snoc members m x k) [
  | inl l ↦ inl (inr l)
  | inr e ↦ inr e
]

In-snoc_old :
    (members : List ArchiveMember) (m x : ArchiveMember) → In x members → In x (members ++ m ∷ [])
In-snoc_old [] m x k = absurd k
In-snoc_old (n ∷ members) m x (inl e) = inl e
In-snoc_old (n ∷ members) m x (inr k) = inr (In-snoc_old members m x k)

In-snoc_new : (members : List ArchiveMember) (m : ArchiveMember) → In m (members ++ m ∷ [])
In-snoc_new [] m = inl refl
In-snoc_new (n ∷ members) m = inr (In-snoc_new members m)

module _ (nfc casefold lower : String → String) (read : ZipEntry → Option Bytes)
    (decode : Bytes → Option String) (count_lines : String → ℕ)
    (guess_type : String → Option String) (sha256 : Bytes → String) (sha256_text : String → String)
    (settings : Settings) where
  -- A member within the limits of a file.
  pub record Fits (m : ArchiveMember) : Type 0 where
    pub size : m.size_bytes ≤ settings.max_file_bytes
    pub shallow : too_deep settings.max_path_depth m.path ≡ false
    pub no_binary : member (lower (suffix m.path)) native_suffixes ≡ false

  -- What holds of the local variables at every step of the loop.
  pub record Sound (scan : Scan) : Type 0 where
    pub counted : total_size scan.members ≡ scan.total_unpacked
    pub bounded : scan.total_unpacked ≤ settings.max_unpacked_bytes
    pub fits : (m : ArchiveMember) → In m scan.members → Fits m
    pub folded : (m : ArchiveMember) → In m scan.members → In (casefold m.path) scan.seen_casefold
    pub apart :
        (m n : ArchiveMember)
        → In m scan.members
        → In n scan.members
        → casefold m.path ≡ casefold n.path
        → m ≡ n
    pub present :
        (name : String)
        → In name scan.seen
        → (m : ArchiveMember) × In m scan.members × (m.path ≡ name)

  checked :
      (path : String) (info : ZipEntry) (scan : Scan)
      → check_entry nfc casefold lower read decode count_lines guess_type sha256 sha256_text
          settings path info scan
        ≡ ok tt
      → (too_deep settings.max_path_depth path ≡ false)
        × (member (casefold path) scan.seen_casefold ≡ false)
        × (ltb settings.max_file_bytes info.file_size ≡ false)
        × (ltb settings.max_unpacked_bytes (scan.total_unpacked + info.file_size) ≡ false)
        × (member (lower (suffix path)) native_suffixes ≡ false)
  unfolding check_entry
  checked path info scan e0 =
      let (_, e1) = raise_if-then (path == "") _ _ e0 in
      let (deep, e2) = raise_if-then (too_deep settings.max_path_depth path) _ _ e1 in
      let (twice, e3) =
        raise_if-then (member path scan.seen || member (casefold path) scan.seen_casefold) _ _ e2 in
      let (_, e4) = raise_if-then (bit_and info.flag_bits 1 == 1) _ _ e3 in
      let (_, e5) = raise_if-then (is_symlink info) _ _ e4 in
      let (large, e6) = raise_if-then (ltb settings.max_file_bytes info.file_size) _ _ e5 in
      let (total, e7) =
        raise_if-then (ltb settings.max_unpacked_bytes (scan.total_unpacked + info.file_size)) _ _
          e6 in
      let (_, e8) = raise_if-then (is_bomb settings info) _ _ e7 in
      (
        deep,
        (||-false _ _ twice).1,
        large,
        total,
        raised (member (lower (suffix path)) native_suffixes) _ e8,
      )
    where
      raised : (b : Bool) (reason : PrecheckError) → raise_if b reason ≡ ok tt → b ≡ false
      raised true reason e = cc
      raised false reason e = refl

  read-length :
      (path : String) (info : ZipEntry) (found : Option Bytes) (content : Bytes)
      → read_entry nfc casefold lower read decode count_lines guess_type sha256 sha256_text path
          info found
        ≡ ok content
      → length content ≡ info.file_size
  unfolding read_entry check_content
  read-length path info none content e = cc
  read-length path info (some bytes) content e =
      let (done, f, g) =
        >>=-eq-ok
          (check_content nfc casefold lower read decode count_lines guess_type sha256 sha256_text
            path info bytes)
          (λ checked. ok bytes) e in
      let (size, _) = raise_if-then (not (length bytes == info.file_size)) _ _ f in
      ap length (sym (ok-injective g))
      ∙ ==→≡ (length bytes) info.file_size (not-false (length bytes == info.file_size) size)

  scanned-Sound :
      (path : String) (info : ZipEntry) (scan : Scan) (content : Bytes)
      → check_entry nfc casefold lower read decode count_lines guess_type sha256 sha256_text
          settings path info scan
        ≡ ok tt
      → length content ≡ info.file_size
      → Sound scan
      → Sound (
          scanned nfc casefold lower read decode count_lines guess_type sha256 sha256_text path info
            scan content)
  unfolding scanned new_member
  scanned-Sound path info scan content e l s =
      let (deep, new, large, total, native) = checked path info scan e in
      let made : ArchiveMember =
        new_member nfc casefold lower read decode count_lines guess_type sha256 sha256_text path
          info content in
      record {
        counted = omega (arith, total_size-snoc scan.members made, s.counted, l);
        bounded = not_over settings.max_unpacked_bytes (scan.total_unpacked + info.file_size) total;
        fits = λ m k. elim (In-snoc scan.members made m k) [
          | inl n ↦ s.fits m n
          | inr q ↦ subst Fits (sym q) (record {
            size =
                subst (λ n. n ≤ settings.max_file_bytes) (sym l)
                  (not_over settings.max_file_bytes info.file_size large);
            shallow = deep;
            no_binary = native;
          })
        ];
        present = λ name k. elim k [
          | inl q ↦ (made, In-snoc_new scan.members made, sym q)
          | inr n ↦ let (m, j, q) = s.present name n in (m, In-snoc_old scan.members made m j, q)
        ];
        folded = λ m k. elim (In-snoc scan.members made m k) [
          | inl n ↦ inr (s.folded m n)
          | inr q ↦ inl (ap (λ (x : ArchiveMember). casefold x.path) q)
        ];
        apart = λ m n k j same. elim (In-snoc scan.members made m k) [
          | inl old ↦ elim (In-snoc scan.members made n j) [
            | inl other ↦ s.apart m n old other same
            | inr q ↦ absurd (
                twice scan m (casefold path) (s.folded m old) new
                  (same ∙ ap (λ (x : ArchiveMember). casefold x.path) q))
          ]
          | inr p ↦ elim (In-snoc scan.members made n j) [
            | inl other ↦ absurd (
                twice scan n (casefold path) (s.folded n other) new
                  (sym same ∙ ap (λ (x : ArchiveMember). casefold x.path) p))
            | inr q ↦ p ∙ sym q
          ]
        ];
      }
    where
      not_over : (limit n : ℕ) → ltb limit n ≡ false → n ≤ limit
      not_over limit n h = ground arith

      twice :
          (scan : Scan) (m : ArchiveMember) (name : String)
          → In (casefold m.path) scan.seen_casefold
          → member name scan.seen_casefold ≡ false
          → casefold m.path ≡ name
          → ⊥
      twice scan m name k new same =
          cc (new, In→member name scan.seen_casefold (subst (λ x. In x scan.seen_casefold) same k))

  pub inspect_entries-Sound :
      (prefix : String) (entries : List (ZipEntry × String)) (scan : Scan) {out : Scan}
      → inspect_entries nfc casefold lower read decode count_lines guess_type sha256 sha256_text
          settings prefix entries scan
        ≡ ok out
      → Sound scan
      → Sound out
  unfolding inspect_entries inspect_entry
  inspect_entries-Sound prefix [] scan e s = subst Sound (ok-injective e) s
  inspect_entries-Sound prefix ((info, raw_path) ∷ entries) scan e s =
      let path : String = strip_prefix raw_path prefix in
      let (next, f, g) =
        >>=-eq-ok
          (inspect_entry nfc casefold lower read decode count_lines guess_type sha256 sha256_text
            settings prefix info raw_path scan)
          (inspect_entries nfc casefold lower read decode count_lines guess_type sha256 sha256_text
            settings prefix entries)
          e in
      let (_, a, b) =
        >>=-eq-ok
          (check_entry nfc casefold lower read decode count_lines guess_type sha256 sha256_text
            settings path info scan)
          (λ done.
            read_entry nfc casefold lower read decode count_lines guess_type sha256 sha256_text path
              info (read info)
            >>= λ content. ok (
                scanned nfc casefold lower read decode count_lines guess_type sha256 sha256_text
                  path info scan content))
          f in
      let (content, c, d) =
        >>=-eq-ok
          (read_entry nfc casefold lower read decode count_lines guess_type sha256 sha256_text path
            info (read info))
          (λ content. ok (
            scanned nfc casefold lower read decode count_lines guess_type sha256 sha256_text path
              info scan content))
          b in
      inspect_entries-Sound prefix entries next g (
        subst Sound (ok-injective d)
          (scanned-Sound path info scan content a (read-length path info (read info) content c) s))
