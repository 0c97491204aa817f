-- ===== src/Archive/Entries/Bounds.antt =====
-- Which archives app/ingestion/archive_safety.py accepts, and what it reports of them.
use mathlib.Core.List.{append-nil, append_assoc}
use dataforge_ai_ml_service.Prelude.{
  ℕ, ◌+◌, ◌≤◌, Bool, true, false, not, some, List, [], ◌∷◌, ◌++◌, map, ok, nat_eq, list_eq, length,
  length-map, member, keep, sum_of, All, All-map, all, ◌≡◌, ◌↔◌, sym, ap, ◌∙◌, arith, Result-cases,
  inl, inr, Bool-cases,
}
use dataforge_ai_ml_service.Prelude.Texts.{Text, Unicode, split, after_last}
use dataforge_ai_ml_service.Archive.Paths.{slash, dot, normpath, validate_entry_path}
use dataforge_ai_ml_service.Archive.Paths.Containment.{
  walk, render, is_plain, validate_entry_path-stays_inside,
}
use dataforge_ai_ml_service.Archive.Entries.{
  ArchiveSafetyPolicy, ZipInfo, ArchiveSafetyReport, is_dir, is_symlink, basename, validate_entry,
  validate_entry_attributes, validate_entry_extension, validate_entries, validate_zip_stream,
}

-- The entries that are no directories.
abbrev pub files : List ZipInfo → List ZipInfo
files infos = keep (λ i. not (is_dir i)) infos

abbrev pub file_bytes : List ZipInfo → ℕ
file_bytes infos = sum_of (λ i. i.file_size) (files infos)

module _ (u : Unicode) (policy : ArchiveSafetyPolicy) where
  -- The entry passes each check that the code makes of it.
  abbrev pub IsAccepted : ZipInfo → Type 0
  IsAccepted info = validate_entry u policy info ≡ ok (is_dir info)

  -- What the archive as a whole has to meet.
  pub record IsAcceptable (infos : List ZipInfo) : Type 0 where
    pub entries_fit : length infos ≤ policy.max_file_count
    pub bytes_fit : file_bytes infos ≤ policy.max_uncompressed_bytes
    pub entries_pass : All IsAccepted infos

  abbrev pub report_of : List ZipInfo → ℕ → ArchiveSafetyReport
  report_of infos compressed_size = record {
    file_count = length (files infos);
    compressed_bytes = compressed_size;
    uncompressed_bytes = file_bytes infos;
    safe_entries = map (λ i. normpath i.filename) (files infos);
  }

  validate_entry_answer :
      (info : ZipInfo) (d : Bool) → validate_entry u policy info ≡ ok d → d ≡ is_dir info
  unfolding validate_entry
  validate_entry_answer info d h = ground arith

  -- One round of the loop, by what the entry is.
  validate_entries-directory :
      (info : ZipInfo) (infos : List ZipInfo) (total : ℕ) (entries : List Text)
      → is_dir info ≡ true
      → IsAccepted info
      → validate_entries u policy (info ∷ infos) total entries
        ≡ validate_entries u policy infos total entries
  unfolding validate_entries
  validate_entries-directory info infos total entries d a = rw (a, d)

  validate_entries-file :
      (info : ZipInfo) (infos : List ZipInfo) (total : ℕ) (entries : List Text)
      → is_dir info ≡ false
      → IsAccepted info
      → total + info.file_size ≤ policy.max_uncompressed_bytes
      → validate_entries u policy (info ∷ infos) total entries
        ≡ validate_entries u policy infos
            (total + info.file_size)
            (entries ++ normpath info.filename ∷ [])
  unfolding validate_entries
  validate_entries-file info infos total entries d a fits = rw (a, d) (ground arith)

  -- What a round that does not raise has checked.
  validate_entries-passed :
      (info : ZipInfo) (infos : List ZipInfo) (total : ℕ) (entries : List Text) {r : ℕ × List Text}
      → validate_entries u policy (info ∷ infos) total entries ≡ ok r
      → IsAccepted info
        × ((is_dir info ≡ false) → total + info.file_size ≤ policy.max_uncompressed_bytes)
  unfolding validate_entries
  validate_entries-passed info infos total entries h =
      elim (Result-cases (validate_entry u policy info)) [
        | inr (x, refused) ↦ ground arith
        | inl (d, passed) ↦ (
          passed ∙ ap ok (validate_entry_answer info d passed),
          λ e. ground (arith, validate_entry_answer info d passed),
        )
      ]

  -- What the loop has checked and counted, from `total` and `entries` on.
  record Counted (infos : List ZipInfo) (total : ℕ) (entries : List Text) (bytes : ℕ)
      (names : List Text) : Type 0 where
    accepted : All IsAccepted infos
    counted : bytes ≡ total + file_bytes infos
    fits : bytes ≤ policy.max_uncompressed_bytes
    listed : names ≡ entries ++ map (λ i. normpath i.filename) (files infos)

  validate_entries_sound :
      (infos : List ZipInfo) (total : ℕ) (entries : List Text) {bytes : ℕ} {names : List Text}
      → total ≤ policy.max_uncompressed_bytes
      → validate_entries u policy infos total entries ≡ ok (bytes, names)
      → Counted infos total entries bytes names
  unfolding validate_entries
  validate_entries_sound [] total entries fits h = record {
    accepted = tt;
    counted = ground arith;
    fits = ground arith;
    listed = rw append-nil (ground arith);
  }
  validate_entries_sound (info ∷ infos) total entries fits h =
      let (a, bound) = validate_entries-passed info infos total entries h in
      elim (Bool-cases (is_dir info)) [
        | inl d ↦
            let c =
              validate_entries_sound infos total entries fits
                (sym (validate_entries-directory info infos total entries d a) ∙ h) in
            record {
              accepted = (a, c.accepted);
              counted = rw d c.counted;
              fits = c.fits;
              listed = rw d c.listed;
            }
        | inr d ↦
            let c =
              validate_entries_sound infos (total + info.file_size)
                (entries ++ normpath info.filename ∷ []) (bound d)
                (sym (validate_entries-file info infos total entries d a (bound d)) ∙ h) in
            record {
              accepted = (a, c.accepted);
              counted = rw d (omega (arith, c.counted));
              fits = c.fits;
              listed = rw d (c.listed ∙ append_assoc entries _ _);
            }
      ]

  validate_entries_complete :
      (infos : List ZipInfo) (total : ℕ) (entries : List Text)
      → All IsAccepted infos
      → total + file_bytes infos ≤ policy.max_uncompressed_bytes
      → validate_entries u policy infos total entries
        ≡ ok (total + file_bytes infos, entries ++ map (λ i. normpath i.filename) (files infos))
  unfolding validate_entries
  validate_entries_complete [] total entries a fits = rw append-nil (ground arith)
  validate_entries_complete (info ∷ infos) total entries a fits = elim (Bool-cases (is_dir info)) [
    | inl d ↦
        validate_entries-directory info infos total entries d a.0
        ∙ rw d (validate_entries_complete infos total entries a.1 (rw d at fits))
    | inr d ↦
        let fits' = rw d at fits in
        validate_entries-file info infos total entries d a.0 (omega arith)
        ∙ rw d (
            validate_entries_complete infos (total + info.file_size)
              (entries ++ normpath info.filename ∷ []) a.1 (omega arith)
            ∙ ground (
              arith,
              append_assoc entries (normpath info.filename ∷ [])
                  (map (λ i. normpath i.filename) (files infos)),
            ))
  ]

  validate_zip_stream_sound :
      (infos : List ZipInfo) (compressed_size : ℕ) {r : ArchiveSafetyReport}
      → validate_zip_stream u policy infos compressed_size ≡ ok r
      → IsAcceptable infos × (r ≡ report_of infos compressed_size)
  unfolding validate_zip_stream
  validate_zip_stream_sound infos compressed_size {r} h =
      elim (Result-cases (validate_entries u policy infos 0 [])) [
        | inr (x, refused) ↦ ground arith
        | inl ((total, entries), run) ↦
            let c = validate_entries_sound infos 0 [] (omega arith) run in
            (
              record {
                entries_fit = ground arith;
                bytes_fit = omega (arith, c.counted, c.fits);
                entries_pass = c.accepted;
              },
              ground
                  (arith, c.counted, c.listed, length-map (λ i. normpath i.filename) (files infos)),
            )
      ]

  validate_zip_stream_complete :
      (infos : List ZipInfo) (compressed_size : ℕ)
      → IsAcceptable infos
      → validate_zip_stream u policy infos compressed_size ≡ ok (report_of infos compressed_size)
  unfolding validate_zip_stream
  validate_zip_stream_complete infos compressed_size a = ground (
    arith,
    a.entries_fit,
    length-map (λ i. normpath i.filename) (files infos),
    validate_entries_complete infos 0 [] a.entries_pass (omega (arith, a.bytes_fit)),
  )

  -- Exactly the archives with no more files and bytes than the policy allows, each entry of which
  -- passes its checks, are accepted, and the report counts and lists the entries that are no
  -- directories: their number, the sum of their sizes, and their normalised names in order.
  pub validate_zip_stream_iff :
      (infos : List ZipInfo) (compressed_size : ℕ) (r : ArchiveSafetyReport)
      → (validate_zip_stream u policy infos compressed_size ≡ ok r)
        ↔ (IsAcceptable infos × (r ≡ report_of infos compressed_size))
  validate_zip_stream_iff infos compressed_size r = (
    validate_zip_stream_sound infos compressed_size,
    λ (a, e). validate_zip_stream_complete infos compressed_size a ∙ ap ok (sym e),
  )

  -- What holds of an entry that passed.
  pub record IsSafe (info : ZipInfo) : Type 0 where
    pub regular : is_symlink info ≡ false
    pub final : List Text
    pub inside : walk [] (split slash info.filename) ≡ some final
    pub normal : normpath info.filename ≡ render final
    pub plain : all is_plain final ≡ true
    pub listed :
        is_dir info ≡ false
        → member
            (u.lower (after_last dot (basename info.filename) (basename info.filename)))
            policy.allowed_extensions
          ≡ true

  IsAccepted-path : (info : ZipInfo) → IsAccepted info → validate_entry_path u info.filename ≡ ok tt
  unfolding validate_entry
  IsAccepted-path info a = elim (Result-cases (validate_entry_path u info.filename)) [
    | inl (x, e) ↦ e
    | inr (x, e) ↦ ground arith
  ]

  IsAccepted-IsSafe : (info : ZipInfo) → IsAccepted info → IsSafe info
  unfolding validate_entry validate_entry_attributes validate_entry_extension
  IsAccepted-IsSafe info a =
      let (out, inside, normal, plain) =
        validate_entry_path-stays_inside u info.filename (IsAccepted-path info a) in
      record {
        regular = ground arith;
        final = out;
        inside = inside;
        normal = normal;
        plain = plain;
        listed = λ d. ground arith;
      }

  -- In an archive that is accepted no entry is a symbolic link, the path of none steps above the
  -- root at any point, and each file has an extension that the policy lists.
  pub validate_zip_stream-IsSafe :
      (infos : List ZipInfo) (compressed_size : ℕ) (r : ArchiveSafetyReport)
      → validate_zip_stream u policy infos compressed_size ≡ ok r
      → All IsSafe infos
  validate_zip_stream-IsSafe infos compressed_size r h =
      let (a, _) = validate_zip_stream_sound infos compressed_size h in
      All-map IsAccepted-IsSafe infos a.entries_pass
