-- ===== src/Portable.antt =====
-- aoms/portable.py: the bundle of files that an export writes. A file is the list of its lines,
-- since JSON texts have no line break. A manifest is what `json.loads` makes of `manifest.json`,
-- where `none` is a value that is absent or of another type. `PortableExportError` is a
-- `ValueError`. What pydantic and hashlib do is given.
pub mod Accept
pub mod Restore
pub mod Insert
pub mod Batches
pub mod Bundle
pub mod RoundTrip
pub mod Checks
pub mod Intact
use cortex_mem.Prelude.{
  ℕ, zero, suc, ◌+◌, String, Bool, true, false, ◌||◌, ◌&&◌, not, Option, none, some, List, [], ◌∷◌,
  ◌++◌, map, length, is_empty, ◌==◌, string_eq, option_eq, if◌then◌else◌,
}
use cortex_mem.Prelude.Order.{Order, sorted, pair_order, str_leb, str_leb_total, str_leb_trans}
use cortex_mem.Errors.{Result, ok, raise, value_error, ◌>>=◌, ◌>>◌, raise_if}
use cortex_mem.Contracts.{MemoryRecord, ContestEntry, WriteReceipt}
use cortex_mem.Store.{entry_order}
use cortex_mem.Store.Rows.{Row}
use cortex_mem.Store.Database.{Tables}
use cortex_mem.Store.Receipts.{ReceiptRow, oldest_first}

-- `model_dump_json` and `model_validate_json` of a model; `none` is a text that does not validate
pub record Codec (A : Type 0) : Type 0 where
  pub dump : A → String
  pub validate : String → Option A

-- A recall receipt and its JSON text.
pub record RecallReceipt : Type 0 where
  pub receipt_id : String
  pub created_at : ℕ
  pub agent_id : Option String
  pub workspace_id : Option String
  pub json : String

-- the libraries: the models, `_sha256` and the size of a file
pub record Formats : Type 0 where
  pub memory : Codec MemoryRecord
  pub recall : Codec RecallReceipt
  pub contest : Codec ContestEntry
  pub write : Codec WriteReceipt
  pub sha256 : List String → String
  pub byte_count : List String → ℕ

pub record Database : Type 0 where
  pub tables : Tables
  pub recall_receipts : List ReceiptRow
  pub schema_version : ℕ

pub data FileEntry : Type 0 where
  -- not an object
  invalid_entry : FileEntry
  file_entry : (sha256 : Option String) (byte_count records : Option ℕ) → FileEntry

pub record Manifest : Type 0 where
  pub format : Option String
  pub format_version : Option ℕ
  pub database_schema_version : Option ℕ
  pub files : Option (List (String × FileEntry))

pub data ManifestFile : Type 0 where
  missing malformed not_an_object : ManifestFile
  parsed : Manifest → ManifestFile

pub record Directory : Type 0 where
  pub manifest : ManifestFile
  pub files : List (String × List String)

pub data Place : Type 0 where
  absent other_file : Place
  directory : Directory → Place

-- `ExportResult` without its path, and `RestoreResult`
pub record Counts : Type 0 where
  pub records : ℕ
  pub receipts : ℕ
  pub contests : ℕ
  pub write_receipts : ℕ

abbrev pub export_format : String
export_format = "aoms-portable-export"

abbrev pub records_file : String
records_file = "records.jsonl"

abbrev pub receipts_file : String
receipts_file = "receipts.jsonl"

abbrev pub contests_file : String
contests_file = "contests.jsonl"

abbrev pub write_receipts_file : String
write_receipts_file = "write_receipts.jsonl"

-- `ORDER BY id`
abbrev pub id_order : Order Row
id_order = record {
  leq = λ a b. str_leb a.id b.id;
  total = λ a b. str_leb_total a.id b.id;
  trans = λ a b c. str_leb_trans a.id b.id c.id;
}

-- `ORDER BY created_at, receipt_id`
abbrev pub write_order : Order WriteReceipt
write_order = pair_order (λ (w : WriteReceipt). w.created_at) (λ (w : WriteReceipt). w.receipt_id)

abbrev pub exported_records : Database → List MemoryRecord
exported_records d = map (λ (row : Row). row.stored) (sorted id_order d.tables.memories)

abbrev pub exported_receipts : Database → List ReceiptRow
exported_receipts d = sorted oldest_first d.recall_receipts

abbrev pub exported_contests : Database → List ContestEntry
exported_contests d = sorted entry_order d.tables.contest_entries

abbrev pub exported_writes : Database → List WriteReceipt
exported_writes d = sorted write_order d.tables.write_receipts

-- whether a directory has any entry
abbrev has_entries : Directory → Bool
has_entries d = not (is_empty d.files) || elim d.manifest [
  | missing ↦ false
  | malformed ↦ true
  | not_an_object ↦ true
  | parsed m ↦ true
]

unfoldable pub check_destination : Place → Result (Unit {0})
check_destination absent = ok tt
check_destination other_file = raise (value_error "export destination is not a directory")
check_destination (directory d) =
    raise_if (has_entries d) (value_error "export destination is not empty")

module _ (formats : Formats) where
  -- `_file_entry`
  unfoldable pub new_entry : String → List String → String × FileEntry
  new_entry name lines = (
    name,
    file_entry (some (formats.sha256 lines)) (some (formats.byte_count lines))
        (some (length lines)),
  )

  -- the four files, in the order in which they are written
  unfoldable pub bundle_files : Database → List (String × List String)
  bundle_files d =
      (records_file, map formats.memory.dump (exported_records d))
      ∷ (receipts_file, map (λ (r : ReceiptRow). r.receipt_json) (exported_receipts d))
      ∷ (contests_file, map formats.contest.dump (exported_contests d))
      ∷ (write_receipts_file, map formats.write.dump (exported_writes d))
      ∷ []

  unfoldable pub new_manifest : Database → List (String × List String) → Manifest
  new_manifest d files = record {
    format = some export_format;
    format_version = some 1;
    database_schema_version = some d.schema_version;
    files = some (map (λ (name, lines). new_entry name lines) files);
  }

  unfoldable pub export_bundle : Database → Place → Result (Counts × Directory)
  unfolding bundle_files new_manifest
  export_bundle d destination =
      check_destination destination
      >> ok (
        record {
          records = length d.tables.memories;
          receipts = length d.recall_receipts;
          contests = length d.tables.contest_entries;
          write_receipts = length d.tables.write_receipts;
        },
        record { manifest = parsed (new_manifest d (bundle_files d)); files = bundle_files d },
      )
