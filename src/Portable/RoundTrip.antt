-- ===== src/Portable/RoundTrip.antt =====
-- An export of a store, restored into an empty one (aoms/portable.py).
use cortex_mem.Prelude.{
  ℕ, ◌≡◌, refl, sym, ◌∙◌, subst, false, [], map, In, In-map_inv, length, length-map, string_eq,
  ==_comm, ltb,
}
use cortex_mem.Prelude.Order.{sorted, In-sorted, length-sorted}
use cortex_mem.Errors.{ok, ok-inj, bind-returns}
use cortex_mem.Contracts.{MemoryRecord, ContestEntry, WriteReceipt}
use cortex_mem.Store.{entry_order}
use cortex_mem.Store.Rows.{Row}
use cortex_mem.Store.Database.{clashes}
use cortex_mem.Store.Receipts.{ReceiptRow, oldest_first}
use cortex_mem.Portable.{
  Formats, Database, Directory, Place, directory, Counts, id_order, write_order, exported_records,
  exported_receipts, exported_contests, exported_writes, check_destination, export_bundle,
}
use cortex_mem.Portable.Accept.{
  validate_if, same_count_if, check_schema, open_source, check_sections, check_target, accept,
}
use cortex_mem.Portable.Restore.{
  same_receipt, same_write, insert_rest, restore_sections, restore_bundle,
}
use cortex_mem.Portable.Insert.{Apart, Apart-map, sorted-Apart, insert_many-ok}
use cortex_mem.Portable.Batches.{same_id, numbered, projections, restore_records-Holds}
use cortex_mem.Portable.Bundle.{
  Survives, receipt_of, forget_bytes, IsPortable, IsEmpty, validate_jsonl-map, iter_rows-map,
  iter_rows-dump, restored-receipts, same_count-length, sections, bundle, read_sections-bundle,
}

clashes_comm : (a b : ContestEntry) → clashes a b ≡ clashes b a
clashes_comm a b = rw (==_comm a.contest_id b.contest_id, ==_comm a.record_id b.record_id) refl

module _ (formats : Formats) (d : Database) (p : IsPortable formats d) where
  abbrev lengths : Counts
  lengths = record {
    records = length (sections formats d).records.0;
    receipts = length (sections formats d).receipts.0;
    contests = length (map formats.contest.dump (exported_contests d));
    write_receipts = length (map formats.write.dump (exported_writes d));
  }

  records-Survive : (r : MemoryRecord) → In r (exported_records d) → Survives formats.memory r
  records-Survive r m =
      let (row, k, e) =
        In-map_inv (λ (x : Row). x.stored) r (sorted id_order d.tables.memories) m in
      subst (Survives formats.memory) (sym e)
        (p.memory row (In-sorted id_order row d.tables.memories k))

  contests-Survive : (c : ContestEntry) → In c (exported_contests d) → Survives formats.contest c
  contests-Survive c m = p.contest c (In-sorted entry_order c d.tables.contest_entries m)

  writes-Survive : (w : WriteReceipt) → In w (exported_writes d) → Survives formats.write w
  writes-Survive w m = p.write w (In-sorted write_order w d.tables.write_receipts m)

  check_sections-bundle : check_sections formats (sections formats d) ≡ ok lengths
  unfolding check_sections validate_if same_count_if check_schema
  check_sections-bundle =
      rw
        (
          validate_jsonl-map formats.memory.validate formats.memory.dump (λ r. r)
              (exported_records d) records-Survive,
          validate_jsonl-map formats.recall.validate (λ (r : ReceiptRow). r.receipt_json) receipt_of
              (exported_receipts d)
              (λ row m. p.recall row (In-sorted oldest_first row d.recall_receipts m)),
          validate_jsonl-map formats.contest.validate formats.contest.dump (λ c. c)
              (exported_contests d) contests-Survive,
          validate_jsonl-map formats.write.validate formats.write.dump (λ w. w) (exported_writes d)
              writes-Survive,
        )
        (rw
          (
            same_count-length (map formats.contest.dump (exported_contests d)),
            same_count-length (map formats.write.dump (exported_writes d)),
            same_count-length (map formats.memory.dump (exported_records d)),
            same_count-length (map (λ (r : ReceiptRow). r.receipt_json) (exported_receipts d)),
            p.schema,
          )
          refl)

  accept-bundle :
      (size : ℕ) (e : Database)
      → ltb size 1 ≡ false
      → IsEmpty e
      → accept formats size (directory (bundle formats d)) e ≡ ok (lengths, sections formats d)
  unfolding accept open_source check_target
  accept-bundle size e positive empty =
      rw
        (
          positive,
          read_sections-bundle formats d,
          check_sections-bundle,
          empty.memories,
          empty.receipts,
        )
        refl

  -- the tables of the restored store
  abbrev rest_of : Database → Database
  rest_of e = record e {
    tables = record e.tables {
      contest_entries = exported_contests d;
      write_receipts = exported_writes d;
    };
    recall_receipts = map forget_bytes (exported_receipts d);
  }

  insert_rest-bundle :
      (now : ℕ) (e : Database)
      → e.recall_receipts ≡ []
      → e.tables.contest_entries ≡ []
      → e.tables.write_receipts ≡ []
      → insert_rest formats now (sections formats d) e ≡ ok (rest_of e)
  unfolding insert_rest
  insert_rest-bundle now e no_receipts no_contests no_writes =
      rw
        (
          iter_rows-map formats.recall.validate (λ (r : ReceiptRow). r.receipt_json) receipt_of
              (exported_receipts d)
              (λ row m. p.recall row (In-sorted oldest_first row d.recall_receipts m)),
          iter_rows-dump formats.contest (exported_contests d) contests-Survive,
          iter_rows-dump formats.write (exported_writes d) writes-Survive,
          restored-receipts (exported_receipts d),
          no_receipts,
          no_contests,
          no_writes,
        )
        (rw
          (
            insert_many-ok same_receipt "UNIQUE constraint failed: recall_receipts.receipt_id"
                (map forget_bytes (exported_receipts d)) []
                (Apart-map forget_bytes same_receipt (exported_receipts d) (
                  sorted-Apart same_receipt (λ a b. ==_comm b.receipt_id a.receipt_id) oldest_first
                    d.recall_receipts p.receipt_ids)),
            insert_many-ok clashes "UNIQUE constraint failed: contest_entries" (exported_contests d)
                []
                (sorted-Apart clashes clashes_comm entry_order d.tables.contest_entries
                  p.contest_ids),
            insert_many-ok same_write "UNIQUE constraint failed: write_receipts.receipt_id"
                (exported_writes d) []
                (sorted-Apart same_write (λ a b. ==_comm b.receipt_id a.receipt_id) write_order
                  d.tables.write_receipts p.write_ids),
          )
          refl)

  records-Apart : Apart same_id (exported_records d)
  records-Apart =
      Apart-map (λ (row : Row). row.stored) same_id (sorted id_order d.tables.memories)
        (sorted-Apart (λ (a b : Row). same_id a.stored b.stored)
          (λ a b. ==_comm b.stored.id a.stored.id) id_order d.tables.memories p.ids)

  -- what an export reports
  abbrev exported : Counts
  exported = record {
    records = length d.tables.memories;
    receipts = length d.recall_receipts;
    contests = length d.tables.contest_entries;
    write_receipts = length d.tables.write_receipts;
  }

  lengths-exported : lengths ≡ exported
  lengths-exported =
      rw
        (
          length-map formats.memory.dump (exported_records d),
          length-map (λ (row : Row). row.stored) (sorted id_order d.tables.memories),
          length-map (λ (r : ReceiptRow). r.receipt_json) (exported_receipts d),
          length-map formats.contest.dump (exported_contests d),
          length-map formats.write.dump (exported_writes d),
          length-sorted id_order d.tables.memories,
          length-sorted oldest_first d.recall_receipts,
          length-sorted entry_order d.tables.contest_entries,
          length-sorted write_order d.tables.write_receipts,
        )
        refl

  abbrev Restored : Database → Database → Type 0
  Restored e e' =
      (e'.tables.memories ≡ numbered 1 (exported_records d))
      × (e'.tables.memories_fts ≡ projections 1 (exported_records d))
      × (e'.recall_receipts ≡ map forget_bytes (exported_receipts d))
      × (e'.tables.contest_entries ≡ exported_contests d)
      × (e'.tables.write_receipts ≡ exported_writes d)
      × (e'.tables.vector_profiles ≡ e.tables.vector_profiles)
      × (e'.tables.embedding_pending ≡ e.tables.embedding_pending)

  bundle-restore :
      (now size : ℕ) (e : Database)
      → ltb size 1 ≡ false
      → IsEmpty e
      → (e' : Database) × (restore_bundle formats now size (directory (bundle formats d)) e
          ≡ (ok exported, e'))
        × Restored e e'
  unfolding restore_bundle restore_sections
  bundle-restore now size e positive empty =
      let (t, stored, held) =
        restore_records-Holds e.tables now formats size (exported_records d) [] [] e.tables
          (λ r m. (records-Survive r m).0) records-Apart
          (record {
            rows = empty.memories;
            fts = empty.fts;
            contests = refl;
            receipts = refl;
            profiles = refl;
            pending = refl;
          }) in
      let e1 : Database = record e { tables = t } in
      let inserted =
        insert_rest-bundle now e1 empty.receipts (held.contests ∙ empty.contests)
          (held.receipts ∙ empty.writes) in
      (
        rest_of e1,
        rw (accept-bundle size e positive empty)
            (rw stored (rw inserted (rw lengths-exported refl))),
        (held.rows, held.fts, refl, refl, refl, held.profiles, held.pending),
      )

-- What a bundle holds of a store comes back when it is restored, in batches of any size, into a store
-- whose tables of records, receipts and contests are empty: the restore returns, with the counts that
-- the export gave. The rows of the records and their projections are built anew from the records, in
-- the order of their ids, with rowids from 1. The contests and the write receipts are the source's,
-- and so are the recall receipts, except that their sizes are 0. The vector profiles and the embedding
-- queue, which no bundle holds, stay the target's. The keys of the source are distinct, its schema is
-- supported, and the JSON text of each row validates as that row and is not blank.
pub export_bundle-restore_bundle :
    (formats : Formats) (now size : ℕ) (d e : Database) (place : Place) (counts : Counts)
    (written : Directory)
    → IsPortable formats d
    → IsEmpty e
    → ltb size 1 ≡ false
    → export_bundle formats d place ≡ ok (counts, written)
    → (e' : Database) × (restore_bundle formats now size (directory written) e ≡ (ok counts, e'))
      × (e'.tables.memories ≡ numbered 1 (exported_records d))
      × (e'.tables.memories_fts ≡ projections 1 (exported_records d))
      × (e'.recall_receipts ≡ map forget_bytes (exported_receipts d))
      × (e'.tables.contest_entries ≡ exported_contests d)
      × (e'.tables.write_receipts ≡ exported_writes d)
      × (e'.tables.vector_profiles ≡ e.tables.vector_profiles)
      × (e'.tables.embedding_pending ≡ e.tables.embedding_pending)
unfolding export_bundle
export_bundle-restore_bundle formats now size d e place counts written p empty positive h =
    let (u, checked, made) =
      bind-returns (check_destination place) (λ u. ok (exported formats d p, bundle formats d)) h in
    let pair = ok-inj made in
    let (e', restored, tables) = bundle-restore formats d p now size e positive empty in
    (
      e',
      subst
          (λ (x : Counts × Directory).
            restore_bundle formats now size (directory x.1) e ≡ (ok x.0, e'))
          pair restored,
      tables.0,
      tables.1,
      tables.2,
      tables.3,
      tables.4,
      tables.5,
      tables.6,
    )
