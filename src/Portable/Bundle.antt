-- ===== src/Portable/Bundle.antt =====
-- What the checks of aoms/portable.py read from a bundle that it exported.
use mathlib.Core.List.{map-id}
use cortex_mem.Prelude.{
  String, ◌≡◌, refl, ap, ◌∙◌, false, Option, some, List, [], ◌∷◌, map, In, length, ◌==◌, string_eq,
  nat_eq, option_eq, ==_refl, ltb, inl, inr,
}
use cortex_mem.Errors.{ok}
use cortex_mem.Contracts.{ContestEntry, WriteReceipt}
use cortex_mem.Contracts.Validate.{strip}
use cortex_mem.Store.Rows.{Row}
use cortex_mem.Store.Database.{clashes}
use cortex_mem.Store.Receipts.{ReceiptRow}
use cortex_mem.Portable.{
  Codec, RecallReceipt, Formats, Database, Directory, exported_records, exported_receipts,
  exported_contests, exported_writes, new_entry, bundle_files, new_manifest, parsed, records_file,
  receipts_file, contests_file, write_receipts_file,
}
use cortex_mem.Portable.Accept.{
  get, load_manifest, Section, validate_file, optional_file, validate_jsonl, iter_rows, Sections,
  same_count, read_sections, latest_schema_version,
}
use cortex_mem.Portable.Restore.{same_receipt, same_write, restored_receipt}
use cortex_mem.Portable.Insert.{Apart}
use cortex_mem.Portable.Batches.{same_id}

-- The text of a value validates as the value, and is not blank.
abbrev pub Reads : {A : Type 0} → (String → Option A) → String → A → Type 0
Reads validate line a = (validate line ≡ some a) × ((strip line == "") ≡ false)

abbrev pub Survives : {A : Type 0} → Codec A → A → Type 0
Survives codec a = Reads codec.validate (codec.dump a) a

-- what `RecallReceipt.model_validate_json` reads from a row's text
abbrev pub receipt_of : ReceiptRow → RecallReceipt
receipt_of row = record {
  receipt_id = row.receipt_id;
  created_at = row.created_at;
  agent_id = row.agent_id;
  workspace_id = row.workspace_id;
  json = row.receipt_json;
}

abbrev pub forget_bytes : ReceiptRow → ReceiptRow
forget_bytes row = record row { receipt_bytes = 0 }

-- The keys of the tables are keys, and the texts of the rows can be read.
pub record IsPortable (formats : Formats) (d : Database) : Type 0 where
  pub schema : ltb latest_schema_version d.schema_version ≡ false
  pub ids : Apart (λ (a b : Row). same_id a.stored b.stored) d.tables.memories
  pub receipt_ids : Apart same_receipt d.recall_receipts
  pub contest_ids : Apart clashes d.tables.contest_entries
  pub write_ids : Apart same_write d.tables.write_receipts
  pub memory : (row : Row) → In row d.tables.memories → Survives formats.memory row.stored
  pub recall :
      (row : ReceiptRow)
      → In row d.recall_receipts
      → Reads formats.recall.validate row.receipt_json (receipt_of row)
  pub contest : (c : ContestEntry) → In c d.tables.contest_entries → Survives formats.contest c
  pub write : (w : WriteReceipt) → In w d.tables.write_receipts → Survives formats.write w

-- No table of the target that a restore writes has a row.
pub record IsEmpty (e : Database) : Type 0 where
  pub memories : e.tables.memories ≡ []
  pub fts : e.tables.memories_fts ≡ []
  pub receipts : e.recall_receipts ≡ []
  pub contests : e.tables.contest_entries ≡ []
  pub writes : e.tables.write_receipts ≡ []

module _ {A B : Type 0} (validate : String → Option A) (line : B → String) (value : B → A) where
  pub validate_jsonl-map :
      (bs : List B)
      → ((b : B) → In b bs → Reads validate (line b) (value b))
      → validate_jsonl validate (map line bs) ≡ ok (length (map line bs))
  unfolding validate_jsonl
  validate_jsonl-map [] h = refl
  validate_jsonl-map (b ∷ bs) h =
      let (valid, full) = h b (inl refl) in
      rw (full, valid) (rw (validate_jsonl-map bs (λ x m. h x (inr m))) refl)

  pub iter_rows-map :
      (bs : List B)
      → ((b : B) → In b bs → Reads validate (line b) (value b))
      → iter_rows validate (map line bs) ≡ ok (map value bs)
  unfolding iter_rows
  iter_rows-map [] h = refl
  iter_rows-map (b ∷ bs) h =
      rw ((h b (inl refl)).0) (rw (iter_rows-map bs (λ x m. h x (inr m))) refl)

pub iter_rows-dump :
    {A : Type 0} (codec : Codec A) (xs : List A)
    → ((a : A) → In a xs → Survives codec a)
    → iter_rows codec.validate (map codec.dump xs) ≡ ok xs
iter_rows-dump codec xs h =
    iter_rows-map codec.validate codec.dump (λ a. a) xs h ∙ ap ok (map-id xs)

pub restored-receipts :
    (rows : List ReceiptRow) → map restored_receipt (map receipt_of rows) ≡ map forget_bytes rows
unfolding restored_receipt
restored-receipts [] = refl
restored-receipts (row ∷ rows) = ap (◌∷◌ (forget_bytes row)) (restored-receipts rows)

pub same_count-length :
    (lines : List String) → same_count (length lines) (lines, some (length lines)) ≡ ok tt
unfolding same_count
same_count-length lines = rw (==_refl (length lines)) refl

validate_file-new :
    (formats : Formats) (name : String) (lines : List String)
    → validate_file formats (some lines) (some (new_entry formats name lines).1)
      ≡ ok (lines, some (length lines))
unfolding validate_file new_entry
validate_file-new formats name lines =
    rw (==_refl (formats.sha256 lines), ==_refl (formats.byte_count lines)) refl

abbrev section : List String → Section
section lines = (lines, some (length lines))

module _ (formats : Formats) (d : Database) where
  abbrev pub sections : Sections
  sections = record {
    schema_version = some d.schema_version;
    records = section (map formats.memory.dump (exported_records d));
    receipts = section (map (λ (r : ReceiptRow). r.receipt_json) (exported_receipts d));
    contests = some (section (map formats.contest.dump (exported_contests d)));
    write_receipts = some (section (map formats.write.dump (exported_writes d)));
  }

  abbrev pub bundle : Directory
  bundle = record {
    manifest = parsed (new_manifest formats d (bundle_files formats d));
    files = bundle_files formats d;
  }

  pub read_sections-bundle : read_sections formats bundle ≡ ok sections
  unfolding read_sections load_manifest get bundle_files new_manifest optional_file new_entry
  read_sections-bundle =
      rw
        (
          validate_file-new formats records_file (map formats.memory.dump (exported_records d)),
          validate_file-new formats receipts_file
              (map (λ (r : ReceiptRow). r.receipt_json) (exported_receipts d)),
          validate_file-new formats contests_file (map formats.contest.dump (exported_contests d)),
          validate_file-new formats write_receipts_file
              (map formats.write.dump (exported_writes d)),
        )
        refl
