-- ===== src/Archive/Entries.antt =====
-- The stream checks of app/ingestion/archive_safety.py. `zipfile` is not modelled: an opened
-- archive is the list of its entries, and `none` stands for BadZipFile.
pub mod Bounds
use dataforge_ai_ml_service.Prelude.{
  ℕ, ◌+◌, ◌*◌, Bool, true, false, not, ◌&&◌, Option, none, some, List, [], ◌∷◌, ◌++◌, String,
  if◌then◌else◌, nat_eq, list_eq, ◌==◌, Result, ok, raise, raise_if, ◌>>◌, ◌>>=◌, ltb, length,
  member,
}
use Prim.Native.Nat.{◌/◌, ◌%◌, ◌^◌}
use dataforge_ai_ml_service.Prelude.Texts.{Text, codes, Unicode, split, ends_with, has, after_last}
use dataforge_ai_ml_service.ErrorCode.{invalid_archive_structure}
use dataforge_ai_ml_service.Archive.Paths.{
  ArchiveSafetyError, violation, slash, dot, normpath, validate_entry_path,
}

pub record ArchiveSafetyPolicy : Type 0 where
  pub max_compressed_bytes : ℕ
  pub max_uncompressed_bytes : ℕ
  pub max_file_count : ℕ
  pub allowed_extensions : List Text

abbrev pub default_policy : ArchiveSafetyPolicy
default_policy = record {
  max_compressed_bytes = 50 * 1024 * 1024;
  max_uncompressed_bytes = 200 * 1024 * 1024;
  max_file_count = 5000;
  allowed_extensions =
      codes "csv"
      ∷ codes "tsv"
      ∷ codes "parquet"
      ∷ codes "json"
      ∷ codes "jsonl"
      ∷ codes "ndjson"
      ∷ codes "txt"
      ∷ codes "md"
      ∷ codes "yaml"
      ∷ codes "yml"
      ∷ codes "xml"
      ∷ [];
}

-- What the code reads of a `zipfile.ZipInfo`.
pub record ZipInfo : Type 0 where
  pub filename : Text
  pub external_attr : ℕ
  pub file_size : ℕ

pub record ArchiveSafetyReport : Type 0 where
  pub file_count : ℕ
  pub compressed_bytes : ℕ
  pub uncompressed_bytes : ℕ
  pub safe_entries : List Text

-- `ZipInfo.is_dir`
unfoldable pub is_dir : ZipInfo → Bool
is_dir info = ends_with info.filename slash

-- `info.external_attr >> 16`
abbrev pub mode : ZipInfo → ℕ
mode info = info.external_attr / 65536

-- `stat.S_ISLNK(mode)`: the four type bits are those of 0o120000.
unfoldable pub is_symlink : ZipInfo → Bool
is_symlink info = not (mode info == 0) && (mode info / 4096 % 16 == 10)

-- `_validate_entry_attributes`
unfoldable pub validate_entry_attributes : ZipInfo → Result ArchiveSafetyError (Unit {0})
validate_entry_attributes info = raise_if (is_symlink info) (violation "symlink_entry")

-- `posixpath.basename`
unfoldable pub basename : Text → Text
basename path = after_last slash path path

-- `_validate_entry_extension`
unfoldable pub validate_entry_extension :
    Unicode → ArchiveSafetyPolicy → ZipInfo → Result ArchiveSafetyError (Unit {0})
validate_entry_extension u policy info = do
  let name = basename info.filename
  raise_if (not (has name (dot ∷ []))) (violation "missing_extension")
  raise_if (not (member (u.lower (after_last dot name name)) policy.allowed_extensions))
      (violation "forbidden_extension")

module _ (u : Unicode) (policy : ArchiveSafetyPolicy) where
  -- The checks on one entry, before its size is counted: `true` for a directory, which is skipped.
  unfoldable pub validate_entry : ZipInfo → Result ArchiveSafetyError Bool
  validate_entry info = do
    validate_entry_path u info.filename
    validate_entry_attributes info
    if is_dir info then ok true else (do validate_entry_extension u policy info; ok false)

  -- The loop over `infos`, with the bytes and the entries counted so far.
  unfoldable pub validate_entries :
      List ZipInfo → ℕ → List Text → Result ArchiveSafetyError (ℕ × List Text)
  validate_entries [] total entries = ok (total, entries)
  validate_entries (info ∷ infos) total entries =
      let skipped = validate_entries infos total entries in
      let counted =
        validate_entries infos (total + info.file_size) (entries ++ normpath info.filename ∷ []) in
      do
        directory ← validate_entry info
        if directory
            then skipped
            else (raise_if (ltb policy.max_uncompressed_bytes (total + info.file_size))
                  (violation "uncompressed_size_exceeded")
                >> counted)

  -- `_validate_zip_stream`
  unfoldable pub validate_zip_stream :
      List ZipInfo → ℕ → Result ArchiveSafetyError ArchiveSafetyReport
  validate_zip_stream infos compressed_size = do
    raise_if (ltb policy.max_file_count (length infos)) (violation "file_count_exceeded")
    (total, entries) ← validate_entries infos 0 []
    ok (record {
      file_count = length entries;
      compressed_bytes = compressed_size;
      uncompressed_bytes = total;
      safe_entries = entries;
    })

  -- `except zipfile.BadZipFile`
  abbrev pub opened : Option (List ZipInfo) → Result ArchiveSafetyError (List ZipInfo)
  opened none = raise (record { code = invalid_archive_structure; reason_code = "bad_zip_file" })
  opened (some infos) = ok infos

  -- `validate_archive_seekable`
  unfoldable pub validate_archive_seekable :
      Option (List ZipInfo) → ℕ → Result ArchiveSafetyError ArchiveSafetyReport
  validate_archive_seekable archive compressed_size = do
    raise_if (ltb policy.max_compressed_bytes compressed_size)
        (violation "compressed_size_exceeded")
    infos ← opened archive
    validate_zip_stream infos compressed_size

  -- `validate_archive_path`, on whether the path is a file and its size.
  unfoldable pub validate_archive_path :
      Bool → Option (List ZipInfo) → ℕ → Result ArchiveSafetyError ArchiveSafetyReport
  validate_archive_path is_file archive size = do
    raise_if (not is_file)
        (record { code = invalid_archive_structure; reason_code = "archive_missing" })
    validate_archive_seekable archive size
