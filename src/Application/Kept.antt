-- ===== src/Application/Kept.antt =====
-- A call of `remember` of aoms/application.py that loses its id to another writer between its look-up and its store.
use cortex_mem.Prelude.{
  ℕ, String, true, false, ◌≡◌, refl, ap, ◌∙◌, Option, none, some, arith, Option-cases, inl, inr,
}
use cortex_mem.Errors.{ok, bind-returns}
use cortex_mem.Contracts.{MemoryRecord, RememberRequest, RememberResult, ContestEntry}
use cortex_mem.Contracts.Validate.{validate_record}
use cortex_mem.Contest.{Decision, is_contested}
use cortex_mem.Store.Rows.{find_row}
use cortex_mem.Store.Database.{Tables, LedgerWrite, register_profile, write_ledger_if}
use cortex_mem.Store.{
  Conditional, inserted, kept, conflict, store_if_content_unchanged, store_record,
}
use cortex_mem.Application.{
  App, Draws, remember_across, commit, adjudicate, build_record, ledger_write, insert_or_keep,
  conditional_result, remember_result, ledger_contest_id, new_receipt,
}
use cortex_mem.Application.Remember.{candidate, request_id, request_provenance, validate_record-id}

-- the tables of the ledger are as they were
pub record SameLedger (t t' : Tables) : Type 0 where
  pub entries : t'.contest_entries ≡ t.contest_entries
  pub receipts : t'.write_receipts ≡ t.write_receipts

register_profile-SameLedger : (p : Option String) (t : Tables) → SameLedger t (register_profile p t)
unfolding register_profile
register_profile-SameLedger none t = record { entries = refl; receipts = refl }
register_profile-SameLedger (some key) t = record {
  entries = ground arith;
  receipts = ground arith;
}

module _ (app : App) where
  kept-SameLedger :
      (r : MemoryRecord) (l : Option LedgerWrite) (now : ℕ) (t t1 : Tables) (old : MemoryRecord)
      → store_if_content_unchanged r app.profile l now t ≡ ok (kept old, t1)
      → SameLedger t t1
  unfolding store_if_content_unchanged
  kept-SameLedger r l now t t1 old h = elim (Option-cases (find_row r.id t.memories)) [
    | inl fresh ↦
        let (t2, stored, more) =
          bind-returns (store_record r app.profile true now (register_profile app.profile t)) _
            (rw (fresh, store_if_content_unchanged) at h) in
        let (t3, written, end) = bind-returns (write_ledger_if l t2) _ more in absurd (ground arith)
    | inr (row, known) ↦
        let profile_only : t1 ≡ register_profile app.profile t = ground arith in
        rw profile_only (register_profile-SameLedger app.profile t)
  ]

  not_created :
      (d : Decision) (l : Option LedgerWrite) (c : Conditional) (t1 t' : Tables)
      (res : RememberResult)
      → conditional_result app d l (c, t1) ≡ ok (res, t')
      → res.created ≡ false
      → (old : MemoryRecord) × (c ≡ kept old) × (t' ≡ t1) × (res.contest_id ≡ ledger_contest_id l)
  unfolding remember_result
  not_created d l (inserted r) t1 t' res h no_row = absurd (ground arith)
  not_created d l (kept r) t1 t' res h no_row = (r, refl, ground arith, ground arith)
  not_created d l (conflict r) t1 t' res h no_row = absurd (ground arith)

  insert_or_keep-kept :
      (r : MemoryRecord) (d : Decision) (l : Option LedgerWrite) (now : ℕ) (t t' : Tables)
      (res : RememberResult)
      → insert_or_keep app r d l now t ≡ ok (res, t')
      → res.created ≡ false
      → SameLedger t t' × (res.contest_id ≡ ledger_contest_id l)
  insert_or_keep-kept r d l now t t' res h no_row =
      let ((c, t1), stored, result) =
        bind-returns (store_if_content_unchanged r app.profile l now t) (conditional_result app d l)
          h in
      let (old, is_kept, same, names) = not_created d l c t1 t' res result no_row in
      (
        rw same (
            kept-SameLedger r l now t t1 old
              (stored ∙ ap (λ (x : Conditional). ok (x, t1)) is_kept)),
        names,
      )

  opened_contest :
      (draws : Draws) (r : MemoryRecord) (d : Decision) (key : String)
      → r.claim_key ≡ some key
      → is_contested d ≡ true
      → ledger_contest_id (ledger_write app draws r d none) ≡ some draws.contest_id
  unfolding ledger_write new_receipt
  opened_contest draws r d key claims contests = ground (arith, claims, contests)

  -- Where the verdict is to open a contest, but another writer stores the id first, the result names
  -- the contest that was to be opened, while the ledger is left as it was.
  pub remember_across-kept :
      (draws : Draws) (request : RememberRequest) (looked_up seen t t' : Tables)
      (res : RememberResult) (key : String)
      → find_row (request_id app draws request) looked_up.memories ≡ none
      → request.claim_key ≡ some key
      → is_contested
          (adjudicate app request
            (request_id app draws request)
            (request_provenance app draws request)
            seen).0
        ≡ true
      → (adjudicate app request
          (request_id app draws request)
          (request_provenance app draws request)
          seen).1
        ≡ none
      → remember_across app draws request false looked_up seen t ≡ ok (res, t')
      → res.created ≡ false
      → SameLedger t t' × (res.contest_id ≡ some draws.contest_id)
  unfolding remember_across commit
  remember_across-kept draws request looked_up seen t t' res key fresh claims contests first h
        no_row =
      let verdict =
        adjudicate app request (request_id app draws request) (request_provenance app draws request)
          seen in
      let (r, valid, stored) =
        bind-returns (validate_record (candidate app draws request seen)) _
          (rw (fresh, remember_across) at h) in
      let same : r ≡ candidate app draws request seen =
        validate_record-id (candidate app draws request seen) r valid in
      let r_claims : r.claim_key ≡ some key =
        unfold build_record in ap (λ (x : MemoryRecord). x.claim_key) same ∙ claims in
      let (ledger, names) =
        insert_or_keep-kept r verdict.0 (ledger_write app draws r verdict.0 verdict.1)
          draws.enqueued_at t t' res stored no_row in
      (
        ledger,
        names
            ∙ ap
                (λ (x : Option ContestEntry).
                  ledger_contest_id (ledger_write app draws r verdict.0 x))
                first
            ∙ opened_contest draws r verdict.0 key r_claims contests,
      )
