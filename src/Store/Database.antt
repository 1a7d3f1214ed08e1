-- ===== src/Store/Database.antt =====
-- The database that a write of aoms/repositories/sqlite.py changes: `memories`, its FTS projection,
-- the contest ledger, the write receipts and the embedding queue.
use cortex_mem.Prelude.{
  ℕ, ◌+◌, String, Bool, ◌&&◌, ◌||◌, not, Option, none, some, List, [], ◌∷◌, ◌++◌, map, any,
  contains, if◌then◌else◌, ◌==◌, string_eq, nat_eq,
}
use cortex_mem.Errors.{Result, ok, raise, integrity_error, ◌>>=◌}
use cortex_mem.Contracts.{
  MemoryRecord, MemoryKind, Content, ContestEntry, WriteReceipt, open_state, state_eq,
}
use cortex_mem.Store.Rows.{Row}

pub record FtsRow : Type 0 where
  pub rowid : ℕ
  pub id : String
  pub content : Content
  pub tags : List String
  pub kind : MemoryKind

pub record PendingRow : Type 0 where
  pub profile_key : String
  pub record_id : String
  pub record_updated_at : ℕ
  pub enqueued_at : ℕ
  pub attempts : ℕ
  pub last_error : Option String
  pub claim_token : Option String
  pub claimed_at : Option ℕ

pub record Tables : Type 0 where
  pub memories : List Row
  pub memories_fts : List FtsRow
  pub contest_entries : List ContestEntry
  pub write_receipts : List WriteReceipt
  pub vector_profiles : List String
  pub embedding_pending : List PendingRow

-- `LedgerWrite` of aoms/repositories/base.py
pub record LedgerWrite : Type 0 where
  pub receipt : WriteReceipt
  pub contest : Option ContestEntry
  pub coalesced_contest_id : Option String

unfoldable pub fts_row : ℕ → MemoryRecord → FtsRow
fts_row rowid r = record {
  rowid = rowid;
  id = r.id;
  content = r.content;
  tags = r.tags;
  kind = r.kind;
}

-- `_register_profile`: ON CONFLICT DO NOTHING
unfoldable pub register_profile : Option String → Tables → Tables
register_profile none t = t
register_profile (some key) t =
    if contains t.vector_profiles key
    then t
    else record t { vector_profiles = t.vector_profiles ++ key ∷ [] }

abbrev pub queue_key : String → String → PendingRow → Bool
queue_key profile record_id p = p.profile_key == profile && p.record_id == record_id

abbrev pub fresh_pending : String → MemoryRecord → ℕ → PendingRow
fresh_pending profile r now = record {
  profile_key = profile;
  record_id = r.id;
  record_updated_at = r.updated_at;
  enqueued_at = now;
  attempts = 0;
  last_error = none;
  claim_token = none;
  claimed_at = none;
}

-- ON CONFLICT DO UPDATE … WHERE record_updated_at != excluded.record_updated_at
unfoldable pub requeue : String → MemoryRecord → ℕ → PendingRow → PendingRow
requeue profile r now p =
    if queue_key profile r.id p && not (p.record_updated_at == r.updated_at)
    then fresh_pending profile r now
    else p

-- `_enqueue_record`, and whether it counts the record as new work
unfoldable pub enqueue_record : MemoryRecord → String → ℕ → List PendingRow → List PendingRow
enqueue_record r profile now queue =
    if any (queue_key profile r.id) queue
    then map (requeue profile r now) queue
    else queue ++ fresh_pending profile r now ∷ []

unfoldable pub enqueue_counts : MemoryRecord → String → List PendingRow → Bool
enqueue_counts r profile queue = not (
    any (λ (p : PendingRow). queue_key profile r.id p && p.record_updated_at == r.updated_at) queue)

unfoldable pub enqueue_if : MemoryRecord → Option String → ℕ → Tables → Tables
enqueue_if r none now t = t
enqueue_if r (some profile) now t = record t {
  embedding_pending = enqueue_record r profile now t.embedding_pending;
}

-- `_insert_write_receipt`: ON CONFLICT(receipt_id) DO NOTHING
unfoldable pub insert_write_receipt : WriteReceipt → Tables → Tables
insert_write_receipt receipt t =
    if any (λ (w : WriteReceipt). w.receipt_id == receipt.receipt_id) t.write_receipts
    then t
    else record t { write_receipts = t.write_receipts ++ receipt ∷ [] }

abbrev pub is_entry : String → ContestEntry → Bool
is_entry contest_id c = c.contest_id == contest_id

-- PRIMARY KEY(contest_id) and UNIQUE(record_id)
abbrev pub clashes : ContestEntry → ContestEntry → Bool
clashes entry c = c.contest_id == entry.contest_id || c.record_id == entry.record_id

unfoldable pub insert_contest : ContestEntry → Tables → Result Tables
insert_contest entry t =
    if any (clashes entry) t.contest_entries
    then raise (integrity_error "UNIQUE constraint failed: contest_entries")
    else ok (record t { contest_entries = t.contest_entries ++ entry ∷ [] })

-- `SET occurrence_count = occurrence_count + 1 WHERE contest_id = ? AND state = ?`
unfoldable pub count_occurrence : String → ContestEntry → ContestEntry
count_occurrence contest_id c =
    if is_entry contest_id c && c.state == open_state
    then record c { occurrence_count = c.occurrence_count + 1 }
    else c

unfoldable pub coalesce : Option String → Tables → Tables
coalesce none t = t
coalesce (some contest_id) t = record t {
  contest_entries = map (count_occurrence contest_id) t.contest_entries;
}

abbrev ledger_entry : Option ContestEntry → Option String → Tables → Result Tables
ledger_entry (some entry) coalesced t = insert_contest entry t
ledger_entry none coalesced t = ok (coalesce coalesced t)

-- `_write_ledger_rows`
unfoldable pub write_ledger_rows : LedgerWrite → Tables → Result Tables
write_ledger_rows ledger t = do
  t' ← ledger_entry ledger.contest ledger.coalesced_contest_id t
  ok (insert_write_receipt ledger.receipt t')

unfoldable pub write_ledger_if : Option LedgerWrite → Tables → Result Tables
write_ledger_if none t = ok t
write_ledger_if (some ledger) t = write_ledger_rows ledger t
