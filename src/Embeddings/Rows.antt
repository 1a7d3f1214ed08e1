-- ===== src/Embeddings/Rows.antt =====
-- What the writes of aoms/repositories/sqlite.py do to the rows of the embedding queue.
use cortex_mem.Prelude.{
  ℕ, String, ◌≡◌, refl, ap, sym, subst, inl, inr, ◌≢◌, Bool, true, Option, none, some, List, [],
  ◌∷◌, map, arith, In, In-map, In-append_left, In-append_right, any, any-In, string_eq, nat_eq,
  eq_iff, nat_beq_iff, Bool-cases, Option-cases,
}
use cortex_mem.Errors.{ok, bind-returns, ok-inj, raise_unless-ok}
use cortex_mem.Contracts.{MemoryRecord, ContestEntry, WriteReceipt}
use cortex_mem.Store.Rows.{find_row}
use cortex_mem.Store.Database.{
  Tables, LedgerWrite, PendingRow, queue_key, fresh_pending, enqueue_record, requeue, enqueue_if,
  insert_write_receipt, insert_contest, coalesce, write_ledger_rows, write_ledger_if,
}
use cortex_mem.Store.{insert_row, replace_row, store_record}
use cortex_mem.Embeddings.Work.{HasJob}

pub enqueue-own :
    (r : MemoryRecord) (key : String) (now : ℕ) (queue : List PendingRow)
    → HasJob key (enqueue_record r key now queue) r.id r.updated_at
unfolding enqueue_record requeue
enqueue-own r key now queue = elim (Bool-cases (any (queue_key key r.id) queue)) [
  | inl found ↦
      let (p, m, own) = any-In (queue_key key r.id) queue found in
      rw found (requeue key r now p, In-map (requeue key r now) p queue m, requeued p own)
  | inr new ↦ rw new (
    fresh_pending key r now,
    In-append_right (fresh_pending key r now) queue (fresh_pending key r now ∷ []) (inl refl),
    (refl, refl, refl),
  )
]
  where
    requeued :
        (p : PendingRow)
        → queue_key key r.id p ≡ true
        → ((requeue key r now p).profile_key ≡ key)
          × ((requeue key r now p).record_id ≡ r.id)
          × ((requeue key r now p).record_updated_at ≡ r.updated_at)
    requeued p own = ground (
      arith,
      eq_iff p.profile_key key,
      eq_iff p.record_id r.id,
      nat_beq_iff p.record_updated_at r.updated_at,
    )

pub enqueue-other :
    (r : MemoryRecord) (key : String) (now : ℕ) (queue : List PendingRow) (id : String)
    (version : ℕ)
    → id ≢ r.id
    → HasJob key queue id version
    → HasJob key (enqueue_record r key now queue) id version
unfolding enqueue_record requeue
enqueue-other r key now queue id version ne (p, m, (k, i, u)) =
    elim (Bool-cases (any (queue_key key r.id) queue)) [
      | inl found ↦ rw found (
        p,
        subst (λ q. In q (map (requeue key r now) queue)) kept
            (In-map (requeue key r now) p queue m),
        (k, i, u),
      )
      | inr new ↦ rw new (p, In-append_left p queue (fresh_pending key r now ∷ []) m, (k, i, u))
    ]
  where
    kept : requeue key r now p ≡ p
    kept = ground (arith, eq_iff p.record_id r.id)

queue-receipt :
    (w : WriteReceipt) (t : Tables)
    → (insert_write_receipt w t).embedding_pending ≡ t.embedding_pending
unfolding insert_write_receipt
queue-receipt w t = ground arith

queue-coalesce :
    (c : Option String) (t : Tables) → (coalesce c t).embedding_pending ≡ t.embedding_pending
unfolding coalesce
queue-coalesce none t = refl
queue-coalesce (some c) t = refl

queue-contest :
    (c : ContestEntry) (t t' : Tables)
    → insert_contest c t ≡ ok t'
    → t'.embedding_pending ≡ t.embedding_pending
unfolding insert_contest
queue-contest c t t' h = ground arith

pub queue-ledger :
    (l : Option LedgerWrite) (t t' : Tables)
    → write_ledger_if l t ≡ ok t'
    → t'.embedding_pending ≡ t.embedding_pending
unfolding write_ledger_if write_ledger_rows
queue-ledger none t t' h = ground arith
queue-ledger (some l) t t' h = elim (Option-cases l.contest) [
  | inl e ↦ ground (
    arith,
    queue-receipt l.receipt (coalesce l.coalesced_contest_id t),
    queue-coalesce l.coalesced_contest_id t,
  )
  | inr (c, e) ↦
      let (t1, inserted_c, done) =
        bind-returns (insert_contest c t) (λ t1. ok (insert_write_receipt l.receipt t1))
          (rw e at h) in
      ground (arith, queue-contest c t t1, queue-receipt l.receipt t1)
]

pub queue-store :
    (r : MemoryRecord) (key : String) (only : Bool) (now : ℕ) (t t' : Tables)
    → store_record r (some key) only now t ≡ ok t'
    → t'.embedding_pending ≡ enqueue_record r key now t.embedding_pending
unfolding store_record insert_row replace_row enqueue_if
queue-store r key only now t t' h = elim (Option-cases (find_row r.id t.memories)) [
  | inl e ↦ sym (ap (λ (x : Tables). x.embedding_pending) (ok-inj (rw (e, store_record) at h)))
  | inr (old, e) ↦ sym (
      ap (λ (x : Tables). x.embedding_pending) (raise_unless-ok only _ (rw (e, store_record) at h)))
]
