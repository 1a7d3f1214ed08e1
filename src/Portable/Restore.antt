-- ===== src/Portable/Restore.antt =====
-- The writes of `restore_bundle` of aoms/portable.py: each batch of records is a transaction of its
-- own, and the three other tables are one more.
use cortex_mem.Prelude.{
  ℕ, String, Bool, true, false, Option, none, some, List, [], ◌∷◌, ◌++◌, map, any, length, ◌==◌,
  string_eq, nat_eq, option_eq, if◌then◌else◌,
}
use cortex_mem.Errors.{Result, ok, raise, value_error, integrity_error, ◌>>=◌}
use cortex_mem.Contracts.{MemoryRecord, WriteReceipt}
use cortex_mem.Store.{store_many}
use cortex_mem.Store.Database.{Tables, clashes}
use cortex_mem.Store.Receipts.{ReceiptRow}
use cortex_mem.Portable.{RecallReceipt, Formats, Database, Place, Counts}
use cortex_mem.Portable.Accept.{Section, iter_rows, Sections, accept}

-- What a transaction leaves: one that raises changes nothing.
abbrev pub committed {ℓ} : {A : Type ℓ} → Result A → A → Result (Unit {0}) × A
committed (ok t') t = (ok tt, t')
committed (raise e) t = (raise e, t)

module _ (formats : Formats) (now : ℕ) where
  -- `store_many_new`, which writes nothing for an empty batch
  unfoldable pub store_many_new : List MemoryRecord → Tables → Result (Unit {0}) × Tables
  store_many_new [] t = (ok tt, t)
  store_many_new (r ∷ rs) t = committed (store_many (r ∷ rs) none true none now t) t

  abbrev after :
      Result (Unit {0}) × Tables
      → (Tables → Result (Unit {0}) × Tables)
      → Result (Unit {0}) × Tables
  after (ok u, t) next = next t
  after (raise e, t) next = (raise e, t)

  -- one round of the loop, from the record of its line and the test of the batch's length
  abbrev restore_line :
      (List MemoryRecord → Tables → Result (Unit {0}) × Tables)
      → Bool
      → List MemoryRecord
      → Tables
      → Result (Unit {0}) × Tables
  restore_line next true batch t = after (store_many_new batch t) (next [])
  restore_line next false batch t = next batch t

  abbrev restore_next :
      (List MemoryRecord → Tables → Result (Unit {0}) × Tables)
      → ℕ
      → Option MemoryRecord
      → List MemoryRecord
      → Tables
      → Result (Unit {0}) × Tables
  restore_next next size none batch t = (raise (value_error "invalid record"), t)
  restore_next next size (some r) batch t =
      let batch' = batch ++ r ∷ [] in restore_line next (length batch' == size) batch' t

  -- the loop over `_iter_records`, and the batch that is left
  unfoldable pub restore_records :
      ℕ → List String → List MemoryRecord → Tables → Result (Unit {0}) × Tables
  unfolding store_many_new
  restore_records size [] batch t = store_many_new batch t
  restore_records size (line ∷ lines) batch t =
      restore_next (restore_records size lines) size (formats.memory.validate line) batch t

-- `executemany("INSERT INTO …")`: a row that clashes with one of the table raises
unfoldable pub insert_many {ℓ} :
    {A : Type ℓ} → (A → A → Bool) → String → List A → List A → Result (List A)
insert_many clash table [] rows = ok rows
insert_many clash table (x ∷ xs) rows =
    let rest = insert_many clash table xs (rows ++ x ∷ []) in
    if any (clash x) rows then raise (integrity_error table) else rest

abbrev pub same_receipt : ReceiptRow → ReceiptRow → Bool
same_receipt a b = b.receipt_id == a.receipt_id

abbrev pub same_write : WriteReceipt → WriteReceipt → Bool
same_write a b = b.receipt_id == a.receipt_id

-- The INSERT leaves out the column `receipt_bytes`, whose default is 0.
unfoldable pub restored_receipt : RecallReceipt → ReceiptRow
restored_receipt r = record {
  receipt_id = r.receipt_id;
  created_at = r.created_at;
  agent_id = r.agent_id;
  workspace_id = r.workspace_id;
  receipt_json = r.json;
  receipt_bytes = 0;
}

abbrev pub lines_of : Option Section → List String
lines_of none = []
lines_of (some (lines, records)) = lines

module _ (formats : Formats) (now : ℕ) where
  -- the transaction after the records
  unfoldable pub insert_rest : Sections → Database → Result Database
  insert_rest s d = do
    receipts ← iter_rows formats.recall.validate s.receipts.0
    recalls ←
        insert_many same_receipt "UNIQUE constraint failed: recall_receipts.receipt_id"
          (map restored_receipt receipts) d.recall_receipts
    entries ← iter_rows formats.contest.validate (lines_of s.contests)
    contests ←
        insert_many clashes "UNIQUE constraint failed: contest_entries" entries
          d.tables.contest_entries
    kept ← iter_rows formats.write.validate (lines_of s.write_receipts)
    writes ←
        insert_many same_write "UNIQUE constraint failed: write_receipts.receipt_id" kept
          d.tables.write_receipts
    ok (record d {
      tables = record d.tables { contest_entries = contests; write_receipts = writes };
      recall_receipts = recalls;
    })

  abbrev finish : Counts → Result (Unit {0}) × Database → Result Counts × Database
  finish counts (ok u, d) = (ok counts, d)
  finish counts (raise e, d) = (raise e, d)

  abbrev then_rest : Sections → Result (Unit {0}) × Tables → Database → Result (Unit {0}) × Database
  then_rest s (ok u, t) d = let d' = record d { tables = t } in committed (insert_rest s d') d'
  then_rest s (raise e, t) d = (raise e, record d { tables = t })

  -- the writes
  unfoldable pub restore_sections : ℕ → Sections → Database → Result (Unit {0}) × Database
  restore_sections size s d =
      then_rest s (restore_records formats now size s.records.0 [] d.tables) d

  abbrev restore_accepted : ℕ → Result (Counts × Sections) → Database → Result Counts × Database
  restore_accepted size (ok (counts, s)) d = finish counts (restore_sections size s d)
  restore_accepted size (raise e) d = (raise e, d)

  unfoldable pub restore_bundle : ℕ → Place → Database → Result Counts × Database
  restore_bundle size source d = restore_accepted size (accept formats size source d) d
