-- ===== src/Portable/Accept.antt =====
-- `restore_bundle` of aoms/portable.py up to the first write: the manifest, the files that it names,
-- their lines and counts, and the test that the target is empty.
use cortex_mem.Prelude.{
  ℕ, suc, String, ◌||◌, not, Option, none, some, List, [], ◌∷◌, is_empty, ltb, ◌==◌, string_eq,
  nat_eq, option_eq, if◌then◌else◌,
}
use cortex_mem.Errors.{Result, ok, raise, value_error, ◌>>=◌, ◌>>◌, raise_if}
use cortex_mem.Contracts.Validate.{strip}
use cortex_mem.Portable.{
  Formats, Database, FileEntry, invalid_entry, file_entry, Manifest, ManifestFile, missing,
  malformed, not_an_object, parsed, Directory, Place, absent, other_file, directory, Counts,
  export_format, records_file, receipts_file, contests_file, write_receipts_file,
}

abbrev pub latest_schema_version : ℕ
latest_schema_version = 10

unfoldable pub get {ℓ} : {A : Type ℓ} → String → List (String × A) → Option A
get name [] = none
get name ((key, value) ∷ rest) =
    let found = get name rest in if key == name then some value else found

abbrev pub manifest_fields :
    Manifest → Option (List (String × FileEntry)) → Result (Manifest × List (String × FileEntry))
manifest_fields m none = raise (value_error "manifest files section is missing")
manifest_fields m (some files) = ok (m, files)

unfoldable pub load_manifest : ManifestFile → Result (Manifest × List (String × FileEntry))
load_manifest missing = raise (value_error "manifest is missing")
load_manifest malformed = raise (value_error "manifest is not valid JSON")
load_manifest not_an_object = raise (value_error "manifest must be a JSON object")
load_manifest (parsed m) =
    raise_if (not (m.format == some export_format))
      (value_error "manifest format is not an AOMS portable export")
    >> raise_if (not (m.format_version == some 1)) (value_error "unsupported export format version")
    >> manifest_fields m m.files

-- A file that was read and the number of records that its manifest entry gives.
abbrev pub Section : Type 0
Section = List String × Option ℕ

module _ (formats : Formats) where
  check_file : Option ℕ → Option String → Option ℕ → Option (List String) → Result Section
  check_file records sha256 byte_count none = raise (value_error "export file is missing")
  check_file records sha256 byte_count (some lines) =
      raise_if (not (some (formats.sha256 lines) == sha256)) (value_error "hash mismatch")
      >> raise_if (not (some (formats.byte_count lines) == byte_count))
          (value_error "byte count mismatch")
      >> ok (lines, records)

  -- `_validate_file`
  unfoldable pub validate_file : Option (List String) → Option FileEntry → Result Section
  unfolding check_file
  validate_file file none = raise (value_error "manifest entry is invalid")
  validate_file file (some invalid_entry) = raise (value_error "manifest entry is invalid")
  validate_file file (some (file_entry sha256 byte_count records)) =
      check_file records sha256 byte_count file

  -- `_optional_file`
  unfoldable pub optional_file : Option (List String) → Option FileEntry → Result (Option Section)
  optional_file file none = ok none
  optional_file file (some expected) =
      validate_file file (some expected) >>= λ section. ok (some section)

module _ {A : Type 0} (validate : String → Option A) where
  abbrev valid_line : Option A → Result (Unit {0})
  valid_line none = raise (value_error "invalid record")
  valid_line (some a) = ok tt

  -- `_validate_jsonl`
  unfoldable pub validate_jsonl : List String → Result ℕ
  unfolding strip
  validate_jsonl [] = ok 0
  validate_jsonl (line ∷ lines) = do
    _ ← raise_if (strip line == "") (value_error "blank line")
    _ ← valid_line (validate line)
    count ← validate_jsonl lines
    ok (suc count)

  abbrev valid_row : Option A → Result (List A) → Result (List A)
  valid_row none rest = raise (value_error "invalid record")
  valid_row (some a) rest = rest >>= λ rows. ok (a ∷ rows)

  -- `_iter_receipts`, `_iter_contests` and `_iter_write_receipts`, to their end
  unfoldable pub iter_rows : List String → Result (List A)
  iter_rows [] = ok []
  iter_rows (line ∷ lines) = valid_row (validate line) (iter_rows lines)

  unfoldable pub validate_if : Option Section → Result ℕ
  validate_if none = ok 0
  validate_if (some (lines, records)) = validate_jsonl lines

pub record Sections : Type 0 where
  pub schema_version : Option ℕ
  pub records : Section
  pub receipts : Section
  pub contests : Option Section
  pub write_receipts : Option Section

unfoldable pub same_count : ℕ → Section → Result (Unit {0})
same_count count (lines, records) =
    raise_if (not (some count == records)) (value_error "record count mismatch")

unfoldable pub same_count_if : ℕ → Option Section → Result (Unit {0})
same_count_if count none = ok tt
same_count_if count (some section) = same_count count section

unfoldable pub check_schema : Option ℕ → Result (Unit {0})
check_schema none = raise (value_error "export schema is newer than supported schema")
check_schema (some version) =
    raise_if (ltb latest_schema_version version)
      (value_error "export schema is newer than supported schema")

-- the `ValueError` for the size, and the test of the source's path
unfoldable pub open_source : ℕ → Place → Result Directory
open_source batch_size absent =
    raise_if (ltb batch_size 1) (value_error "batch_size must be at least 1")
    >> raise (value_error "export source is not a directory")
open_source batch_size other_file =
    raise_if (ltb batch_size 1) (value_error "batch_size must be at least 1")
    >> raise (value_error "export source is not a directory")
open_source batch_size (directory d) =
    raise_if (ltb batch_size 1) (value_error "batch_size must be at least 1") >> ok d

module _ (formats : Formats) where
  -- the manifest, and the files that it names
  unfoldable pub read_sections : Directory → Result Sections
  read_sections d = do
    (m, files) ← load_manifest d.manifest
    records ← validate_file formats (get records_file d.files) (get records_file files)
    receipts ← validate_file formats (get receipts_file d.files) (get receipts_file files)
    contests ← optional_file formats (get contests_file d.files) (get contests_file files)
    writes ← optional_file formats (get write_receipts_file d.files) (get write_receipts_file files)
    ok (record {
      schema_version = m.database_schema_version;
      records = records;
      receipts = receipts;
      contests = contests;
      write_receipts = writes;
    })

  -- the lines of all sections, and then the counts and the schema
  unfoldable pub check_sections : Sections → Result Counts
  check_sections s = do
    records ← validate_jsonl formats.memory.validate s.records.0
    receipts ← validate_jsonl formats.recall.validate s.receipts.0
    contests ← validate_if formats.contest.validate s.contests
    writes ← validate_if formats.write.validate s.write_receipts
    _ ← same_count_if contests s.contests
    _ ← same_count_if writes s.write_receipts
    _ ← same_count records s.records
    _ ← same_count receipts s.receipts
    _ ← check_schema s.schema_version
    ok (record {
      records = records;
      receipts = receipts;
      contests = contests;
      write_receipts = writes;
    })

  unfoldable pub check_target : Database → Result (Unit {0})
  check_target d =
      raise_if (not (is_empty d.tables.memories) || not (is_empty d.recall_receipts))
        (value_error "restore target is not empty")

  -- everything that precedes the first write
  unfoldable pub accept : ℕ → Place → Database → Result (Counts × Sections)
  accept batch_size source d = do
    opened ← open_source batch_size source
    sections ← read_sections opened
    counts ← check_sections sections
    _ ← check_target d
    ok (counts, sections)
