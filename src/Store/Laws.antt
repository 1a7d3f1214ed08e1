-- ===== src/Store/Laws.antt =====
-- What the transactions of aoms/repositories/sqlite.py do to the table `memories`.
use cortex_mem.Prelude.{
  ℕ, String, ◌≡◌, refl, ◌∙◌, ◌≢◌, inl, inr, ap, Bool, true, Option, none, some, List, [], ◌∷◌, ◌++◌,
  arith, In, Option-cases, string_eq, eq_iff,
}
use cortex_mem.Errors.{ok, raise, integrity_error, ◌>>=◌, bind-returns}
use cortex_mem.Contracts.{MemoryRecord, ContestEntry, WriteReceipt}
use cortex_mem.Store.Rows.{Row, row_of_record, find_row, next_rowid}
use cortex_mem.Store.Database.{
  Tables, LedgerWrite, register_profile, enqueue_if, insert_write_receipt, insert_contest, coalesce,
  write_ledger_rows, write_ledger_if,
}
use cortex_mem.Store.{
  insert_row, store_record, store_records, store_many, Conditional, inserted,
  store_if_content_unchanged,
}

pub find_row-none-ne :
    (key : String) (rows : List Row) (row : Row)
    → find_row key rows ≡ none
    → In row rows
    → row.id ≢ key
unfolding find_row
find_row-none-ne key [] row h m = absurd m
find_row-none-ne key (r ∷ rows) row h (inl e) =
    λ same. ground (arith, eq_iff r.id key, ap (λ (x : Row). x.id) e)
find_row-none-ne key (r ∷ rows) row h (inr m) = find_row-none-ne key rows row (ground arith) m

pub find_row-In :
    (key : String) (rows : List Row) (row : Row)
    → find_row key rows ≡ some row
    → In row rows × (row.id ≡ key)
unfolding find_row
find_row-In key [] row h = absurd (ground arith)
find_row-In key (r ∷ rows) row h = ground (arith, eq_iff r.id key, find_row-In key rows row)

pub memories-register :
    (p : Option String) (t : Tables) → (register_profile p t).memories ≡ t.memories
unfolding register_profile
memories-register none t = refl
memories-register (some key) t = ground arith

pub memories-enqueue :
    (r : MemoryRecord) (p : Option String) (now : ℕ) (t : Tables)
    → (enqueue_if r p now t).memories ≡ t.memories
unfolding enqueue_if
memories-enqueue r none now t = refl
memories-enqueue r (some key) now t = refl

memories-receipt :
    (w : WriteReceipt) (t : Tables) → (insert_write_receipt w t).memories ≡ t.memories
unfolding insert_write_receipt
memories-receipt w t = ground arith

memories-coalesce : (c : Option String) (t : Tables) → (coalesce c t).memories ≡ t.memories
unfolding coalesce
memories-coalesce none t = refl
memories-coalesce (some c) t = refl

memories-contest :
    (c : ContestEntry) (t t' : Tables) → insert_contest c t ≡ ok t' → t'.memories ≡ t.memories
unfolding insert_contest
memories-contest c t t' h = ground arith

-- The ledger rows leave the records alone.
pub memories-ledger :
    (l : Option LedgerWrite) (t t' : Tables)
    → write_ledger_if l t ≡ ok t'
    → t'.memories ≡ t.memories
unfolding write_ledger_if write_ledger_rows
memories-ledger none t t' h = ground arith
memories-ledger (some l) t t' h = elim (Option-cases l.contest) [
  | inl e ↦ ground (
    arith,
    memories-receipt l.receipt (coalesce l.coalesced_contest_id t),
    memories-coalesce l.coalesced_contest_id t,
  )
  | inr (c, e) ↦
      let (t1, inserted_c, done) =
        bind-returns (insert_contest c t) (λ t1. ok (insert_write_receipt l.receipt t1))
          (rw e at h) in
      ground (arith, memories-contest c t t1, memories-receipt l.receipt t1)
]

-- The insert-only path refuses an id that is taken.
pub store_many_known :
    (r : MemoryRecord) (p : Option String) (l : Option LedgerWrite) (now : ℕ) (t : Tables)
    (row : Row)
    → find_row r.id t.memories ≡ some row
    → store_many (r ∷ []) p true l now t
      ≡ raise (integrity_error "UNIQUE constraint failed: memories.id")
unfolding store_many store_records store_record
store_many_known r p l now t row known =
    let still : find_row r.id (register_profile p t).memories ≡ some row =
      rw (memories-register p t) known in
    rw (still, store_record)

module _ (r : MemoryRecord) (p : Option String) (l : Option LedgerWrite) (now : ℕ) (t : Tables)
    (fresh : find_row r.id t.memories ≡ none) where
  abbrev pub appended : List Row
  appended = t.memories ++ row_of_record (next_rowid t.memories) r ∷ []

  -- the tables after the record and before its ledger rows
  abbrev pub with_record : Tables
  with_record = enqueue_if r p now (insert_row r (register_profile p t))

  memories-with_record : with_record.memories ≡ appended
  unfolding insert_row
  memories-with_record =
      rw (memories-enqueue r p now (insert_row r (register_profile p t)), memories-register p t)

  pub store_record_fresh :
      (only : Bool) → store_record r p only now (register_profile p t) ≡ ok with_record
  unfolding store_record
  store_record_fresh only =
      let still : find_row r.id (register_profile p t).memories ≡ none =
        rw (memories-register p t) fresh in
      rw (still, store_record)

  -- A record whose id is new is written with its ledger rows, or not at all.
  pub store_many_fresh : store_many (r ∷ []) p true l now t ≡ write_ledger_if l with_record
  unfolding store_many store_records
  store_many_fresh = rw (store_record_fresh true)

  pub store_if_fresh :
      store_if_content_unchanged r p l now t
      ≡ (write_ledger_if l with_record >>= λ (t' : Tables). ok (inserted r, t'))
  unfolding store_if_content_unchanged
  store_if_fresh = rw (fresh, store_if_content_unchanged) (rw (store_record_fresh true))

  pub memories-store_many :
      (t' : Tables) → store_many (r ∷ []) p true l now t ≡ ok t' → t'.memories ≡ appended
  memories-store_many t' h =
      memories-ledger l with_record t' (rw store_many_fresh at h) ∙ memories-with_record

  pub memories-store_if :
      (c : Conditional) (t' : Tables)
      → store_if_content_unchanged r p l now t ≡ ok (c, t')
      → (c ≡ inserted r) × (t'.memories ≡ appended)
  memories-store_if c t' h =
      let (t1, written, done) =
        bind-returns (write_ledger_if l with_record) (λ (t2 : Tables). ok (inserted r, t2))
          (rw store_if_fresh at h) in
      ground (arith, memories-ledger l with_record t1 written, memories-with_record)
