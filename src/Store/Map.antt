-- ===== src/Store/Map.antt =====
-- The table `memories` of aoms/repositories/sqlite.py as a map from ids to records, which is what
-- the callers of `get` and `store_many` see of it.
use cortex_mem.Prelude.{
  ℕ, String, ◌≡◌, refl, ap, ◌∙◌, inl, inr, Bool, true, false, Option, none, some, List, [], ◌∷◌,
  ◌++◌, arith, ◌==◌, string_eq, eq_iff, ==→eq, ==_refl, ==_comm, if◌then◌else◌, Bool-cases,
  Option-cases,
}
use cortex_mem.Errors.{ok, bind-returns}
use cortex_mem.Contracts.{MemoryRecord}
use cortex_mem.Store.Rows.{Row, row_of_record, find_row, next_rowid, update_row}
use cortex_mem.Store.Database.{Tables, LedgerWrite, register_profile, write_ledger_if}
use cortex_mem.Store.{insert_row, replace_row, upsert_row, store_record, store_records, store_many}
use cortex_mem.Store.Laws.{memories-register, memories-enqueue, memories-ledger}

abbrev pub RecordMap : Type 0
RecordMap = String → Option MemoryRecord

abbrev pub put : MemoryRecord → RecordMap → RecordMap
put r m id = if id == r.id then some r else m id

abbrev pub put_all : List MemoryRecord → RecordMap → RecordMap
put_all [] m = m
put_all (r ∷ rs) m = put_all rs (put r m)

abbrev stored_of : Option Row → Option MemoryRecord
stored_of none = none
stored_of (some row) = some row.stored

-- `get`
abbrev pub lookup : List Row → RecordMap
lookup rows id = stored_of (find_row id rows)

pub find_row-append :
    (id : String) (rows : List Row) (row : Row)
    → find_row row.id rows ≡ none
    → find_row id (rows ++ row ∷ []) ≡ (if id == row.id then some row else find_row id rows)
unfolding find_row
find_row-append id [] row h = ground (arith, eq_iff row.id id, eq_iff id row.id)
find_row-append id (r ∷ rows) row h =
    ground
      (arith, eq_iff r.id row.id, eq_iff id row.id, eq_iff r.id id, find_row-append id rows row)

-- the upsert of another id
find_row-update_other :
    (id : String) (r : MemoryRecord) (rows : List Row)
    → (r.id == id) ≡ false
    → find_row id (update_row r.id (upsert_row r) rows) ≡ find_row id rows
unfolding find_row update_row row_of_record
find_row-update_other id r [] ne = refl
find_row-update_other id r (row ∷ rows) ne = elim (Bool-cases (row.id == r.id)) [
  | inl same ↦
      rw (==→eq row.id r.id same) (rw (==_refl r.id, ne) (find_row-update_other id r rows ne))
  | inr other ↦
      rw other
        (ap (λ rest. if row.id == id then some row else rest) (find_row-update_other id r rows ne))
]

find_row-update_same :
    (r : MemoryRecord) (rows : List Row) (old : Row)
    → find_row r.id rows ≡ some old
    → find_row r.id (update_row r.id (upsert_row r) rows) ≡ some (upsert_row r old)
unfolding find_row update_row row_of_record
find_row-update_same r [] old h = absurd (ground arith)
find_row-update_same r (row ∷ rows) old h = elim (Bool-cases (row.id == r.id)) [
  | inl same ↦ let first : some row ≡ some old = rw same at h in rw (same, ==_refl r.id) cc
  | inr other ↦ rw other (rw other (find_row-update_same r rows old (rw other at h)))
]

pub find_row-update :
    (id : String) (r : MemoryRecord) (rows : List Row) (old : Row)
    → find_row r.id rows ≡ some old
    → find_row id (update_row r.id (upsert_row r) rows)
      ≡ (if id == r.id then some (upsert_row r old) else find_row id rows)
find_row-update id r rows old h = elim (Bool-cases (id == r.id)) [
  | inl same ↦ rw (==→eq id r.id same) (rw (==_refl r.id) (find_row-update_same r rows old h))
  | inr other ↦ rw other (find_row-update_other id r rows (==_comm r.id id ∙ other))
]

stored_of-if :
    (b : Bool) (row : Row) (o : Option Row)
    → stored_of (if b then some row else o) ≡ (if b then some row.stored else stored_of o)
stored_of-if true row o = refl
stored_of-if false row o = refl

-- One write of a record is one put, whether it inserts or replaces.
store_record-put :
    (r : MemoryRecord) (p : Option String) (only : Bool) (now : ℕ) (t t' : Tables) (id : String)
    → store_record r p only now t ≡ ok t'
    → lookup t'.memories id ≡ put r (lookup t.memories) id
unfolding store_record insert_row replace_row row_of_record
store_record-put r p only now t t' id h = elim (Option-cases (find_row r.id t.memories)) [
  | inl e ↦
      let row = row_of_record (next_rowid t.memories) r in
      let m : t'.memories ≡ t.memories ++ row ∷ [] =
        ground (arith, memories-enqueue r p now (insert_row r t)) in
      rw (m, find_row-append id t.memories row e)
        (stored_of-if (id == r.id) row (find_row id t.memories))
  | inr (old, e) ↦
      let m : t'.memories ≡ update_row r.id (upsert_row r) t.memories =
        ground (arith, memories-enqueue r p now (replace_row old r t)) in
      rw (m, find_row-update id r t.memories old e)
        (stored_of-if (id == r.id) (upsert_row r old) (find_row id t.memories))
]

puts-agree :
    (rs : List MemoryRecord) (m n : RecordMap)
    → ((id : String) → m id ≡ n id)
    → (id : String) → put_all rs m id ≡ put_all rs n id
puts-agree [] m n same id = same id
puts-agree (r ∷ rs) m n same id =
    puts-agree rs (put r m) (put r n) (λ id. ap (λ o. if id == r.id then some r else o) (same id))
      id

store_records-put :
    (rs : List MemoryRecord) (p : Option String) (only : Bool) (now : ℕ) (t t' : Tables)
    → store_records rs p only now t ≡ ok t'
    → (id : String) → lookup t'.memories id ≡ put_all rs (lookup t.memories) id
unfolding store_records
store_records-put [] p only now t t' h id = ground arith
store_records-put (r ∷ rs) p only now t t' h id =
    let (t1, first, rest) =
      bind-returns (store_record r p only now t) (λ t1. store_records rs p only now t1) h in
    store_records-put rs p only now t1 t' rest id
    ∙ puts-agree rs (lookup t1.memories) (put r (lookup t.memories))
        (λ id. store_record-put r p only now t t1 id first) id

-- A transaction of `store_many` that commits puts its records into the map one after another, so
-- that the last record of an id stands, and no other id changes.
pub store_many-put :
    (rs : List MemoryRecord) (p : Option String) (only : Bool) (l : Option LedgerWrite) (now : ℕ)
    (t t' : Tables)
    → store_many rs p only l now t ≡ ok t'
    → (id : String) → lookup t'.memories id ≡ put_all rs (lookup t.memories) id
unfolding store_many
store_many-put rs p only l now t t' h id =
    let (t1, stored, written) =
      bind-returns (store_records rs p only now (register_profile p t)) (write_ledger_if l) h in
    ap (λ rows. lookup rows id) (memories-ledger l t1 t' written)
    ∙ store_records-put rs p only now (register_profile p t) t1 stored id
    ∙ ap (λ rows. put_all rs (lookup rows) id) (memories-register p t)
