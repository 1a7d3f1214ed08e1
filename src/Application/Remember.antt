-- ===== src/Application/Remember.antt =====
-- What `_remember` of aoms/application.py does to the table `memories`.
use cortex_mem.Prelude.{
  String, ◌≡◌, ◌⊎◌, inl, inr, Bool, true, false, Option, none, some, [], ◌∷◌, ◌++◌, arith,
  Option-cases, option_eq, string_eq,
}
use cortex_mem.Errors.{ok, bind-returns}
use cortex_mem.Contracts.{MemoryRecord, RememberRequest, RememberResult, Provenance, content_eq}
use cortex_mem.Contracts.Validate.{validate_record}
use cortex_mem.Contest.{Decision}
use cortex_mem.Store.Rows.{Row, find_row, row_of_record, next_rowid}
use cortex_mem.Store.Database.{Tables, LedgerWrite}
use cortex_mem.Store.{Conditional, inserted, kept, conflict, store_many, store_if_content_unchanged}
use cortex_mem.Store.Laws.{
  memories-store_if, memories-store_many, memories-register, store_many_known,
}
use cortex_mem.Application.{
  App, Draws, string_or, stamped, adjudicate, build_record, remember_result, conditional_result,
  create, insert_or_keep, commit, remember_across,
}

pub validate_record-id : (r r' : MemoryRecord) → validate_record r ≡ ok r' → r' ≡ r
unfolding validate_record
validate_record-id r r' h = ground arith

-- How a call left the records: as they were, or with one new record at the end.
pub record Appends (r : MemoryRecord) (t t' : Tables) : Type 0 where
  pub fresh : find_row r.id t.memories ≡ none
  pub rows : t'.memories ≡ t.memories ++ row_of_record (next_rowid t.memories) r ∷ []

module _ (app : App) where
  conditional-memories :
      (d : Decision) (l : Option LedgerWrite) (c : Conditional) (t1 t' : Tables)
      (res : RememberResult)
      → conditional_result app d l (c, t1) ≡ ok (res, t')
      → t' ≡ t1
  unfolding remember_result
  conditional-memories d l (inserted r) t1 t' res h = ground arith
  conditional-memories d l (kept r) t1 t' res h = ground arith
  conditional-memories d l (conflict r) t1 t' res h = ground arith

  store_if-known :
      (r : MemoryRecord) (l : Option LedgerWrite) (now : _) (t t1 : Tables) (row : Row)
      (c : Conditional)
      → find_row r.id t.memories ≡ some row
      → store_if_content_unchanged r app.profile l now t ≡ ok (c, t1)
      → t1.memories ≡ t.memories
  unfolding store_if_content_unchanged
  store_if-known r l now t t1 row c known h = ground (arith, memories-register app.profile t)

  -- An id that is new to the table is inserted.
  insert_or_keep-fresh :
      (r : MemoryRecord) (d : Decision) (l : Option LedgerWrite) (now : _) (t t' : Tables)
      (res : RememberResult)
      → find_row r.id t.memories ≡ none
      → insert_or_keep app r d l now t ≡ ok (res, t')
      → Appends r t t'
  insert_or_keep-fresh r d l now t t' res fresh h =
      let ((c, t1), stored, result) =
        bind-returns (store_if_content_unchanged r app.profile l now t) (conditional_result app d l)
          h in
      let same : t' ≡ t1 = conditional-memories d l c t1 t' res result in
      record {
        fresh = fresh;
        rows = rw same ((memories-store_if r app.profile l now t fresh c t1 stored).1);
      }

  insert_or_keep-memories :
      (r : MemoryRecord) (d : Decision) (l : Option LedgerWrite) (now : _) (t t' : Tables)
      (res : RememberResult)
      → insert_or_keep app r d l now t ≡ ok (res, t')
      → (t'.memories ≡ t.memories) ⊎ Appends r t t'
  insert_or_keep-memories r d l now t t' res h =
      let ((c, t1), stored, result) =
        bind-returns (store_if_content_unchanged r app.profile l now t) (conditional_result app d l)
          h in
      let same : t' ≡ t1 = conditional-memories d l c t1 t' res result in
      elim (Option-cases (find_row r.id t.memories)) [
        | inl fresh ↦ inr (record {
          fresh = fresh;
          rows = rw same ((memories-store_if r app.profile l now t fresh c t1 stored).1);
        })
        | inr (row, known) ↦ inl (rw same (store_if-known r l now t t1 row c known stored))
      ]

  -- A call that must create has appended its record where it returns.
  create-Appends :
      (r : MemoryRecord) (d : Decision) (l : Option LedgerWrite) (now : _) (t t' : Tables)
      (res : RememberResult)
      → create app r d l now t ≡ ok (res, t')
      → Appends r t t'
  create-Appends r d l now t t' res h =
      let (t1, stored, result) =
        bind-returns (store_many (r ∷ []) app.profile true l now t)
          (λ (t2 : Tables). ok (remember_result r true d l, t2)) h in
      let same : t' ≡ t1 = cc result in
      elim (Option-cases (find_row r.id t.memories)) [
        | inl fresh ↦ record {
          fresh = fresh;
          rows = rw same (memories-store_many r app.profile l now t fresh t1 stored);
        }
        | inr (row, known) ↦ absurd (cc (store_many_known r app.profile l now t row known, stored))
      ]

  module _ (draws : Draws) (request : RememberRequest) where
    abbrev pub request_id : String
    request_id = string_or request.id draws.record_id

    abbrev pub request_provenance : Provenance
    request_provenance = stamped app request.provenance

    -- the record of the call, when its verdict is made over `seen`
    abbrev pub candidate : Tables → MemoryRecord
    candidate seen =
        build_record app draws request request_id request_provenance
          (adjudicate app request request_id request_provenance seen).0.disposition

    commit_stores :
        (create_only : Bool) (seen t t' : Tables) (res : RememberResult)
        → commit app draws request create_only request_id request_provenance
            (adjudicate app request request_id request_provenance seen)
            t
          ≡ ok (res, t')
        → (r : MemoryRecord) × (validate_record (candidate seen) ≡ ok r)
          × ((t'.memories ≡ t.memories) ⊎ Appends r t t')
    unfolding commit
    commit_stores true seen t t' res h =
        let (r, valid, stored) = bind-returns (validate_record (candidate seen)) _ h in
        (r, valid, inr (create-Appends r _ _ _ t t' res stored))
    commit_stores false seen t t' res h =
        let (r, valid, stored) = bind-returns (validate_record (candidate seen)) _ h in
        (r, valid, insert_or_keep-memories r _ _ _ t t' res stored)

    pub commit-memories :
        (create_only : Bool) (seen t t' : Tables) (res : RememberResult)
        → commit app draws request create_only request_id request_provenance
            (adjudicate app request request_id request_provenance seen)
            t
          ≡ ok (res, t')
        → (t'.memories ≡ t.memories) ⊎ Appends (candidate seen) t t'
    commit-memories create_only seen t t' res h =
        let (r, valid, stored) = commit_stores create_only seen t t' res h in
        let same : r ≡ candidate seen = validate_record-id (candidate seen) r valid in
        rw (← same) stored

    -- A call that returns has left every record alone, or has appended one, whose id was new.
    pub remember_across-memories :
        (create_only : Bool) (looked_up seen t t' : Tables) (res : RememberResult)
        → remember_across app draws request create_only looked_up seen t ≡ ok (res, t')
        → (t'.memories ≡ t.memories) ⊎ Appends (candidate seen) t t'
    unfolding remember_across
    remember_across-memories create_only looked_up seen t t' res h =
        elim (Option-cases (find_row request_id looked_up.memories)) [
          | inl fresh ↦ commit-memories create_only seen t t' res (rw (fresh, remember_across) at h)
          | inr (row, known) ↦ inl (ground arith)
        ]

    commit-fresh :
        (seen t t' : Tables) (res : RememberResult)
        → find_row (candidate seen).id t.memories ≡ none
        → commit app draws request false request_id request_provenance
            (adjudicate app request request_id request_provenance seen)
            t
          ≡ ok (res, t')
        → Appends (candidate seen) t t'
    unfolding commit
    commit-fresh seen t t' res fresh h =
        let (r, valid, stored) = bind-returns (validate_record (candidate seen)) _ h in
        let same : r ≡ candidate seen = validate_record-id (candidate seen) r valid in
        rw (← same) (insert_or_keep-fresh r _ _ _ t t' res (rw same fresh) stored)

    -- A call whose id is new at its look-up and at its store appends its record.
    pub remember_across-fresh :
        (looked_up seen t t' : Tables) (res : RememberResult)
        → find_row request_id looked_up.memories ≡ none
        → find_row request_id t.memories ≡ none
        → remember_across app draws request false looked_up seen t ≡ ok (res, t')
        → Appends (candidate seen) t t'
    unfolding remember_across
    remember_across-fresh looked_up seen t t' res new fresh h =
        commit-fresh seen t t' res (unfold build_record in fresh) (rw (new, remember_across) at h)

    -- A call that must create, under an id that its look-up does not find, appends its record.
    pub remember_across-created :
        (looked_up seen t t' : Tables) (res : RememberResult)
        → find_row request_id looked_up.memories ≡ none
        → remember_across app draws request true looked_up seen t ≡ ok (res, t')
        → Appends (candidate seen) t t'
    unfolding remember_across commit
    remember_across-created looked_up seen t t' res new h =
        let (r, valid, stored) =
          bind-returns (validate_record (candidate seen)) _ (rw (new, remember_across) at h) in
        let same : r ≡ candidate seen = validate_record-id (candidate seen) r valid in
        rw (← same) (create-Appends r _ _ _ t t' res stored)
