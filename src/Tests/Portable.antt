-- ===== src/Tests/Portable.antt =====
-- A store with two records, a recall receipt, a contest and a write receipt, exported and restored
-- by aoms/portable.py in batches of one record.
use cortex_mem.Prelude.{
  ◌≡◌, ◌≢◌, ◌≤◌, refl, ap, sym, ◌∙◌, String, Option, none, some, List, [], ◌∷◌, map, inl, inr,
  length, arith, any, ◌==◌, string_eq, if◌then◌else◌,
}
use cortex_mem.Prelude.Order.{sorted, str_leb, insert}
use cortex_mem.Errors.{ok, raise, Result}
use cortex_mem.Contracts.{
  MemoryRecord, ContestEntry, WriteReceipt, open_state, fact, workspace, contested, no_detail,
  slot_collision,
}
use cortex_mem.Contracts.Validate.{strip, strip_left, strip_right, is_space}
use cortex_mem.Store.{store_many, store_records, store_record, insert_row}
use cortex_mem.Store.Rows.{row_of_record, find_row, next_rowid}
use cortex_mem.Store.Database.{register_profile, enqueue_if, write_ledger_if, fts_row}
use cortex_mem.Store.Receipts.{ReceiptRow}
use cortex_mem.Portable.{
  Formats, Database, Directory, absent, directory, Counts, parsed, check_destination, new_entry,
  bundle_files, new_manifest, export_bundle, exported_records, exported_receipts, exported_contests,
  exported_writes,
}
use cortex_mem.Portable.Accept.{
  get, load_manifest, validate_file, optional_file, validate_jsonl, validate_if, iter_rows,
  same_count, same_count_if, check_schema, open_source, read_sections, check_sections, check_target,
  accept,
}
use cortex_mem.Portable.Restore.{
  store_many_new, restore_records, insert_many, restored_receipt, insert_rest, restore_sections,
  restore_bundle,
}
use cortex_mem.Portable.Bundle.{IsPortable, IsEmpty, receipt_of, forget_bytes}
use cortex_mem.Portable.Batches.{numbered, projections}
use cortex_mem.Portable.RoundTrip.{export_bundle-restore_bundle}
use cortex_mem.Portable.Intact.{IsBundle, restore_bundle-IsBundle}
use cortex_mem.Tests.Data.{memory}
use cortex_mem.Tests.Writes.{empty}

abbrev green : MemoryRecord
green = memory "b" "green"

abbrev amber : MemoryRecord
amber = memory "a" "amber"

abbrev entry : ContestEntry
entry = record {
  contest_id = "c";
  record_id = "b";
  claim_key = none;
  observation_id = none;
  scope = workspace;
  scope_agent_id = none;
  scope_workspace_id = none;
  incumbent_ids = [];
  trigger = slot_collision;
  trigger_detail = no_detail;
  occurrence_count = 1;
  opened_at = 5;
  opened_by_agent_id = "claude";
  state = open_state;
  resolution = none;
  resolved_at = none;
  resolved_by = none;
  resolution_note = none;
}

abbrev write : WriteReceipt
write = record {
  receipt_id = "w";
  created_at = 5;
  record_id = "b";
  claim_key = none;
  agent_id = "claude";
  workspace_id = "myproject";
  kind = fact;
  scope = workspace;
  content_sha256 = "digest";
  incumbent_ids = [];
  disposition = contested;
  trigger = some slot_collision;
  trigger_detail = no_detail;
  contest_id = some "c";
  asserted_at = none;
  derived_from = [];
  ruleset_digest = "rules";
  occurrence_count = 1;
}

abbrev recall_row : ReceiptRow
recall_row = record {
  receipt_id = "r";
  created_at = 5;
  agent_id = none;
  workspace_id = none;
  receipt_json = "r";
  receipt_bytes = 1;
}

abbrev source : Database
source = record {
  tables = record {
    memories = row_of_record 1 green ∷ row_of_record 2 amber ∷ [];
    memories_fts = [];
    contest_entries = entry ∷ [];
    write_receipts = write ∷ [];
    vector_profiles = [];
    embedding_pending = [];
  };
  recall_receipts = recall_row ∷ [];
  schema_version = 10;
}

abbrev target : Database
target = record { tables = empty; recall_receipts = []; schema_version = 10 }

abbrev read_memory : String → Option MemoryRecord
read_memory line = if line == "a" then some amber else if line == "b" then some green else none

abbrev read_if {ℓ} : {A : Type ℓ} → String → A → String → Option A
read_if expected a line = if line == expected then some a else none

abbrev joined : List String → String
joined [] = ""
joined (line ∷ lines) = line

abbrev formats : Formats
formats = record {
  memory = record { dump = λ r. r.id; validate = read_memory };
  recall = record { dump = λ r. r.json; validate = read_if "r" (receipt_of recall_row) };
  contest = record { dump = λ c. c.contest_id; validate = read_if "c" entry };
  write = record { dump = λ w. w.receipt_id; validate = read_if "w" write };
  sha256 = joined;
  byte_count = length;
}

steps : Unit {0}
unfolding store_many store_records store_record insert_row row_of_record find_row next_rowid
    register_profile enqueue_if write_ledger_if fts_row check_destination new_entry bundle_files
    new_manifest export_bundle get load_manifest validate_file optional_file validate_jsonl
    validate_if iter_rows same_count same_count_if check_schema open_source read_sections
    check_sections check_target accept store_many_new restore_records insert_many restored_receipt
    insert_rest restore_sections restore_bundle sorted insert str_leb any strip strip_left
    strip_right is_space
steps = tt

abbrev export_of : Result (Counts × Directory) → Counts × Directory
export_of (ok found) = found
export_of (raise e) = (
  record { records = 0; receipts = 0; contests = 0; write_receipts = 0 },
  record { manifest = parsed (new_manifest formats source []); files = [] },
)

abbrev written : Counts × Directory
written = export_of (export_bundle formats source absent)

export-returns : export_bundle formats source absent ≡ ok (written.0, written.1)
unfolding steps
export-returns = refl

source-IsPortable : IsPortable formats source
unfolding steps
source-IsPortable = record {
  schema = refl;
  ids = (
    λ y m. elim m [ inl e ↦ rw e refl | inr none_left ↦ absurd none_left ],
    (λ y m. absurd m, tt),
  );
  receipt_ids = (λ y m. absurd m, tt);
  contest_ids = (λ y m. absurd m, tt);
  write_ids = (λ y m. absurd m, tt);
  memory = λ row m. elim m [
    | inl e ↦ rw e (refl, refl)
    | inr (inl e) ↦ rw e (refl, refl)
    | inr (inr none_left) ↦ absurd none_left
  ];
  recall = λ row m. elim m [ inl e ↦ rw e (refl, refl) | inr none_left ↦ absurd none_left ];
  contest = λ c m. elim m [ inl e ↦ rw e (refl, refl) | inr none_left ↦ absurd none_left ];
  write = λ w m. elim m [ inl e ↦ rw e (refl, refl) | inr none_left ↦ absurd none_left ];
}

target-IsEmpty : IsEmpty target
target-IsEmpty = record {
  memories = refl;
  fts = refl;
  receipts = refl;
  contests = refl;
  writes = refl;
}

export_bundle-restore_bundle_example :
    (e' : Database) × (restore_bundle formats 9 1 (directory written.1) target ≡ (ok written.0, e'))
    × (e'.tables.memories ≡ numbered 1 (exported_records source))
    × (e'.tables.memories_fts ≡ projections 1 (exported_records source))
    × (e'.recall_receipts ≡ map forget_bytes (exported_receipts source))
    × (e'.tables.contest_entries ≡ exported_contests source)
    × (e'.tables.write_receipts ≡ exported_writes source)
    × (e'.tables.vector_profiles ≡ [])
    × (e'.tables.embedding_pending ≡ [])
export_bundle-restore_bundle_example =
    export_bundle-restore_bundle formats 9 1 source target absent written.0 written.1
      source-IsPortable target-IsEmpty refl export-returns

abbrev restored : Database
restored = (restore_bundle formats 9 1 (directory written.1) target).1

restored-rows : length restored.tables.memories ≡ 2
unfolding steps
restored-rows = refl

restored-ne : restored ≢ target
restored-ne same =
    let n : 2 ≡ 0 = sym restored-rows ∙ ap (λ (d : Database). length d.tables.memories) same in
    absurd (omega (arith, n))

restore_bundle-IsBundle_example :
    (1 ≤ 1)
    × (d : Directory) × (directory written.1 ≡ directory d)
    × IsBundle formats d
    × (target.tables.memories ≡ [])
    × (target.recall_receipts ≡ [])
restore_bundle-IsBundle_example =
    restore_bundle-IsBundle formats 9 1 (directory written.1) target restored-ne
