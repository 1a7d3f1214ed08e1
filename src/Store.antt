-- ===== src/Store.antt =====
-- aoms/repositories/sqlite.py: the transactions that write. One that raises leaves the database as
-- it was, so each is a function from the tables to a result with the new tables. The
-- writer lock of SQLite serialises the transactions.
pub mod Rows
pub mod Database
pub mod Laws
pub mod Map
pub mod Slots
pub mod Receipts
pub mod Lineage
pub mod Resolution
use cortex_mem.Prelude.{
  ℕ, zero, suc, ◌+◌, String, Bool, true, false, ◌&&◌, ◌||◌, not, Option, none, some, List, [], ◌∷◌,
  ◌++◌, map, filter, any, if◌then◌else◌, ◌==◌, string_eq, option_eq, nat_eq,
}
use cortex_mem.Prelude.Order.{Order, sorted, pair_order}
use cortex_mem.Errors.{
  Result, ok, raise, integrity_error, lookup_error, value_error, runtime_error, ◌>>=◌, ◌>>◌,
  raise_if,
}
use cortex_mem.Contracts.{
  MemoryRecord, Content, content_eq, admitted, contested, disposition_eq, ContestEntry,
  WriteReceipt, ContestResolution, open_state, resolved, state_eq, scope_eq, Scope,
}
use Rows.{Row, row_of_record, find_row, next_rowid, update_row, is_contested_record, Slot}
use Database.{
  Tables, FtsRow, fts_row, LedgerWrite, register_profile, enqueue_if, write_ledger_if,
  insert_write_receipt, is_entry,
}

-- The columns that the upsert sets; the rowid stays.
abbrev pub upsert_row : MemoryRecord → Row → Row
upsert_row r row = row_of_record row.rowid r

-- the INSERT of a record whose id is new, and of its projection
unfoldable pub insert_row : MemoryRecord → Tables → Tables
insert_row r t =
    let rowid = next_rowid t.memories in
    record t {
      memories = t.memories ++ row_of_record rowid r ∷ [];
      memories_fts = t.memories_fts ++ fts_row rowid r ∷ [];
    }

-- the DELETE of the old projection and the upsert
unfoldable pub replace_row : Row → MemoryRecord → Tables → Tables
replace_row row r t = record t {
  memories = update_row r.id (upsert_row r) t.memories;
  memories_fts =
      filter (λ (f : FtsRow). not (f.rowid == row.rowid)) t.memories_fts
      ++ fts_row row.rowid r ∷ [];
}

-- One round of the loop of `_store_many_sync`.
unfoldable pub store_record : MemoryRecord → Option String → Bool → ℕ → Tables → Result Tables
store_record r profile insert_only now t = elim (find_row r.id t.memories) [
  | none ↦ ok (enqueue_if r profile now (insert_row r t))
  | some row ↦
      if insert_only
      then raise (integrity_error "UNIQUE constraint failed: memories.id")
      else ok (enqueue_if r profile now (replace_row row r t))
]

unfoldable pub store_records : List MemoryRecord → Option String → Bool → ℕ → Tables → Result Tables
store_records [] profile insert_only now t = ok t
store_records (r ∷ rs) profile insert_only now t = do
  t' ← store_record r profile insert_only now t
  store_records rs profile insert_only now t'

-- `_store_many_sync`
unfoldable pub store_many :
    List MemoryRecord → Option String → Bool → Option LedgerWrite → ℕ → Tables → Result Tables
store_many rs profile insert_only ledger now t = do
  t' ← store_records rs profile insert_only now (register_profile profile t)
  write_ledger_if ledger t'

-- What `_store_if_content_unchanged_sync` finds: no row and it inserts, a row with the same
-- content, or a row with other content, for which it raises `RecordContentConflictError`.
pub data Conditional : Type 0 where
  inserted kept conflict : MemoryRecord → Conditional

unfoldable pub store_if_content_unchanged :
    MemoryRecord → Option String → Option LedgerWrite → ℕ → Tables → Result (Conditional × Tables)
store_if_content_unchanged r profile ledger now t = elim (find_row r.id t.memories) [
  | none ↦ do
    t' ← store_record r profile true now (register_profile profile t)
    t'' ← write_ledger_if ledger t'
    ok (inserted r, t'')
  | some row ↦
      if row.stored.content == r.content
      then ok (kept row.stored, register_profile profile t)
      else ok (conflict row.stored, t)
]

-- `open_contest_for_slot`: the oldest open entry of this agent against the slot
abbrev pub against_slot : Slot → ContestEntry → Bool
against_slot slot c =
    c.claim_key == some slot.key
    && c.scope == slot.scope
    && c.scope_agent_id == slot.agent
    && c.scope_workspace_id == slot.workspace
    && c.state == open_state

abbrev pub entry_order : Order ContestEntry
entry_order = pair_order (λ (c : ContestEntry). c.opened_at) (λ (c : ContestEntry). c.contest_id)

abbrev pub head? {ℓ} : {A : Type ℓ} → List A → Option A
head? [] = none
head? (x ∷ xs) = some x

unfoldable pub open_contest_for_slot : Slot → String → List ContestEntry → Option ContestEntry
open_contest_for_slot slot agent entries = head? (
    sorted entry_order
      (filter (λ (c : ContestEntry). against_slot slot c && c.opened_by_agent_id == agent) entries))

unfoldable pub find_entry : String → List ContestEntry → Option ContestEntry
find_entry contest_id [] = none
find_entry contest_id (c ∷ cs) = if is_entry contest_id c then some c else find_entry contest_id cs

abbrev pub or_else {ℓ} : {A : Type ℓ} → Option A → Option A → Option A
or_else none d = d
or_else (some a) d = some a

-- the `model_copy` of `_apply_resolution_to_record`
unfoldable pub resolved_record : Bool → Option String → MemoryRecord → MemoryRecord
resolved_record admit new_claim_key r = record r {
  disposition = if admit then admitted else r.disposition;
  claim_key = or_else new_claim_key r.claim_key;
}

-- its UPDATE, which writes three columns
unfoldable pub apply_resolution : Bool → Option String → Row → Row
apply_resolution admit new_claim_key row =
    let r = resolved_record admit new_claim_key row.stored in
    record row { stored = r; claim_key = r.claim_key; contested_bit = is_contested_record r }

-- The digest check between the copy and the UPDATE compares equal contents, since the copy does
-- not touch the content, and never raises.
unfoldable pub apply_resolution_to_record : String → Bool → Option String → Tables → Result Tables
apply_resolution_to_record record_id admit new_claim_key t = elim (find_row record_id t.memories) [
  | none ↦ raise (lookup_error "contested record disappeared")
  | some row ↦ ok (record t {
    memories = update_row record_id (apply_resolution admit new_claim_key) t.memories;
  })
]

unfoldable pub close_entry :
    ContestResolution → String → Option String → Option String → ℕ → ContestEntry → ContestEntry
close_entry resolution by note new_claim_key now c = record c {
  state = resolved;
  resolution = some resolution;
  resolved_at = some now;
  resolved_by = some by;
  resolution_note = note;
  claim_key = or_else new_claim_key c.claim_key;
}

abbrev pub is_some {ℓ} : {A : Type ℓ} → Option A → Bool
is_some none = false
is_some (some a) = true

unfoldable pub close_entries :
    String → (ContestEntry → ContestEntry) → List ContestEntry → List ContestEntry
close_entries contest_id f = map (λ (c : ContestEntry). if is_entry contest_id c then f c else c)

-- `_resolve_contest_sync`
unfoldable pub resolve_contest :
    String
    → ContestResolution
    → String
    → Option String
    → WriteReceipt
    → Bool
    → Option String
    → ℕ
    → Tables
    → Result (ContestEntry × Tables)
resolve_contest contest_id resolution by note receipt admit_record new_claim_key now t =
    elim (find_entry contest_id t.contest_entries) [
      | none ↦ raise (lookup_error "contest not found")
      | some c ↦ do
        raise_if (not (c.state == open_state)) (value_error "contest is already resolved")
        t' ←
            if admit_record || is_some new_claim_key
            then apply_resolution_to_record c.record_id admit_record new_claim_key t
            else ok t
        let close = close_entry resolution by note new_claim_key now
        let t'' = record t' { contest_entries = close_entries contest_id close t'.contest_entries }
        ok (close c, insert_write_receipt receipt t'')
    ]
