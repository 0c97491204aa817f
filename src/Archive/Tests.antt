-- ===== src/Archive/Tests.antt =====
-- Runs of app/ingestion/archive_safety.py, and its theorems at concrete inputs.
use dataforge_ai_ml_service.Prelude.{
  ℕ, true, none, some, List, [], ◌∷◌, ◌≡◌, ◌↔◌, refl, ok, raise, all, All,
}
use dataforge_ai_ml_service.Prelude.Texts.{
  Text, codes, ascii, split, starts_with, has, join, ends_with, after_last, ascii_lower,
}
use dataforge_ai_ml_service.ErrorCode.{invalid_archive_structure}
use dataforge_ai_ml_service.Archive.Paths.{
  slash, violation, normpath, validate_entry_path, is_windows_drive,
}
use dataforge_ai_ml_service.Archive.Paths.Containment.{
  walk, render, is_plain, validate_entry_path-stays_inside,
}
use dataforge_ai_ml_service.Archive.Entries.{
  default_policy, ZipInfo, ArchiveSafetyReport, is_dir, is_symlink, basename, validate_entry,
  validate_entry_attributes, validate_entry_extension, validate_entries, validate_zip_stream,
  validate_archive_seekable, validate_archive_path,
}
use dataforge_ai_ml_service.Archive.Entries.Bounds.{
  IsAcceptable, report_of, IsSafe, validate_zip_stream_iff, validate_zip_stream-IsSafe,
}

abbrev entry : Text → ℕ → ZipInfo
entry name size = record { filename = name; external_attr = 0; file_size = size }

abbrev infos : List ZipInfo
infos =
    entry (codes "data/") 0 ∷ entry (codes "data/./rows.CSV") 120 ∷ entry (codes "a.json") 9 ∷ []

abbrev report : ArchiveSafetyReport
report = record {
  file_count = 2;
  compressed_bytes = 77;
  uncompressed_bytes = 129;
  safe_entries = codes "data/rows.CSV" ∷ codes "a.json" ∷ [];
}

checks : Unit {0}
unfolding normpath validate_entry_path is_windows_drive is_dir is_symlink basename validate_entry
    validate_entry_attributes validate_entry_extension validate_entries validate_zip_stream
    validate_archive_seekable validate_archive_path split starts_with has join ends_with after_last
    ascii_lower walk
checks = tt

accepted : validate_zip_stream ascii default_policy infos 77 ≡ ok report
unfolding checks
accepted = refl

validate_zip_stream_iff_example :
    (validate_zip_stream ascii default_policy infos 77 ≡ ok report)
    ↔ (IsAcceptable ascii default_policy infos × (report ≡ report_of ascii default_policy infos 77))
validate_zip_stream_iff_example = validate_zip_stream_iff ascii default_policy infos 77 report

validate_zip_stream-IsSafe_example : All (IsSafe ascii default_policy) infos
validate_zip_stream-IsSafe_example =
    validate_zip_stream-IsSafe ascii default_policy infos 77 report accepted

abbrev winding : Text
winding = codes "a/../b/c.csv"

winding_accepted : validate_entry_path ascii winding ≡ ok tt
unfolding checks
winding_accepted = refl

validate_entry_path-stays_inside_example :
    (out : List Text) × (walk [] (split slash winding) ≡ some out)
    × (normpath winding ≡ render out)
    × (all is_plain out ≡ true)
validate_entry_path-stays_inside_example =
    validate_entry_path-stays_inside ascii winding winding_accepted

refusals :
    (validate_entry_path ascii (codes "a/../../b.csv") ≡ raise (violation "path_traversal"))
    × (validate_entry_path ascii (codes "/etc/passwd") ≡ raise (violation "absolute_path"))
    × (validate_entry_path ascii (codes "C:\\x.csv") ≡ raise (violation "windows_drive_path"))
    × (validate_zip_stream ascii default_policy (entry (codes "run.exe") 1 ∷ []) 5
        ≡ raise (violation "forbidden_extension"))
    × (validate_zip_stream ascii default_policy (entry (codes "a.csv") 209715201 ∷ []) 5
        ≡ raise (violation "uncompressed_size_exceeded"))
    × (validate_archive_path ascii default_policy true none 5
        ≡ raise (record { code = invalid_archive_structure; reason_code = "bad_zip_file" }))
unfolding checks
refusals = (refl, refl, refl, refl, refl, refl)

symlink_refused :
    validate_entry_attributes
      (record { filename = codes "l.csv"; external_attr = 2716663808; file_size = 1 })
    ≡ raise (violation "symlink_entry")
unfolding checks
symlink_refused = refl
