-- ===== src/Embeddings/Leases.antt =====
-- What the lease of a job in the embedding queue of aoms/repositories/sqlite.py promises its worker.
use cortex_mem.Prelude.{
  ℕ, ◌+◌, ◌*◌, ◌≤◌, String, ◌≡◌, subst, inl, inr, ◌≢◌, Bool, not, true, none, eq_iff, ==→eq, Option,
  some, List, [], ◌∷◌, arith, In, All, ◌==◌, string_eq, option_eq, nat_eq, Bool-cases, Option-cases,
}
use cortex_mem.Errors.{ok, bind-returns, ok-inj, raise_unless-ok}
use cortex_mem.Contracts.{MemoryRecord, content_eq}
use cortex_mem.Store.Rows.{find_row}
use cortex_mem.Store.Database.{
  Tables, PendingRow, register_profile, enqueue_if, enqueue_record, LedgerWrite, write_ledger_if,
}
use cortex_mem.Store.{
  store_record, store_records, store_many, insert_row, replace_row, Conditional,
  store_if_content_unchanged,
}
use cortex_mem.Embeddings.{EmbeddingProfile, profile_key}
use cortex_mem.Embeddings.Queue.{
  PendingEmbedding, CompletedEmbedding, EmbeddingStore, claimed_jobs, job_id, is_done,
  claim_pending_embeddings, enqueue_all, enqueue_unembedded, complete_one,
  complete_pending_embeddings,
}
use cortex_mem.Embeddings.Work.{queue-register, complete_current-returns}
use cortex_mem.Embeddings.Rows.{queue-ledger}
use cortex_mem.Embeddings.Sweep.{fail_items}
use cortex_mem.Embeddings.Claims.{claim-eq}
use cortex_mem.Embeddings.Held.{
  Lease, IsHeld, IsHeld-filter, claim-skips, claim-IsHeld, claim_elsewhere-IsHeld, other_token,
  fail-IsHeld, enqueue-IsHeld,
}

module _ (F : Type 0) (is_finite : F → Bool) (sha256 : String → String) (l : Lease) where
  complete_one-IsHeld :
      (available : Bool) (item : CompletedEmbedding F) (s s' : EmbeddingStore F) (n : ℕ)
      → item.pending.claim_token ≢ l.token
      → complete_one F is_finite sha256 available item s ≡ ok (n, s')
      → IsHeld l s.tables.embedding_pending
      → IsHeld l s'.tables.embedding_pending
  unfolding complete_one
  complete_one-IsHeld available item s s' n other h held =
      elim (Option-cases (find_row item.pending.subject.id s.tables.memories)) [
        | inl e ↦ unchanged (ok-inj (rw (e, complete_one) at h))
        | inr (row, e) ↦
            let h' = rw (e, complete_one) at h in
            elim (Bool-cases (row.updated_at == item.pending.subject.updated_at)) [
              | inl current ↦
                  let (_, queue, _, _) =
                    complete_current-returns F is_finite sha256 available item s s' n
                      (rw current at h') in
                  rw queue (
                    IsHeld-filter l (λ (p : PendingRow). not (is_done item.pending p))
                      s.tables.embedding_pending
                      (λ p token. ground (arith, other_token l item.pending p other token)) held)
              | inr stale ↦ unchanged (ok-inj (rw stale at h'))
            ]
      ]
    where
      unchanged :
          ◌≡◌ {A = ℕ × EmbeddingStore F} (0, s) (n, s') → IsHeld l s'.tables.embedding_pending
      unchanged e =
          subst (λ (x : ℕ × EmbeddingStore F). IsHeld l x.1.tables.embedding_pending) e held

  complete-IsHeld :
      (available : Bool) (items : List (CompletedEmbedding F)) (s s' : EmbeddingStore F) (n : ℕ)
      → All (λ (item : CompletedEmbedding F). item.pending.claim_token ≢ l.token) items
      → complete_pending_embeddings F is_finite sha256 available items s ≡ ok (n, s')
      → IsHeld l s.tables.embedding_pending
      → IsHeld l s'.tables.embedding_pending
  unfolding complete_pending_embeddings
  complete-IsHeld available [] s s' n others h held =
      subst (λ (x : ℕ × EmbeddingStore F). IsHeld l x.1.tables.embedding_pending) (ok-inj h) held
  complete-IsHeld available (item ∷ items) s s' n others h held =
      let ((count, t), first, more) =
        bind-returns (complete_one F is_finite sha256 available item s) _ h in
      let ((count', u), rest, done) =
        bind-returns (complete_pending_embeddings F is_finite sha256 available items t) _ more in
      subst (λ (x : ℕ × EmbeddingStore F). IsHeld l x.1.tables.embedding_pending) (ok-inj done)
        (complete-IsHeld available items t u count' others.1 rest
          (complete_one-IsHeld available item s t count others.0 first held))

-- A store of another record, whatever it enqueues, leaves the leased job alone.
enqueue_if-IsHeld :
    (l : Lease) (p : Option String) (r : MemoryRecord) (now : ℕ) (t : Tables)
    → r.id ≢ l.id
    → IsHeld l t.embedding_pending
    → IsHeld l (enqueue_if r p now t).embedding_pending
unfolding enqueue_if
enqueue_if-IsHeld l none r now t other held = held
enqueue_if-IsHeld l (some key) r now t other held =
    enqueue-IsHeld l key r now t.embedding_pending other held

store_record-IsHeld :
    (l : Lease) (p : Option String) (r : MemoryRecord) (only : Bool) (now : ℕ) (t t' : Tables)
    → r.id ≢ l.id
    → store_record r p only now t ≡ ok t'
    → IsHeld l t.embedding_pending
    → IsHeld l t'.embedding_pending
unfolding store_record insert_row replace_row
store_record-IsHeld l p r only now t t' other h held =
    elim (Option-cases (find_row r.id t.memories)) [
      | inl fresh ↦
          subst (λ (x : Tables). IsHeld l x.embedding_pending)
            (ok-inj (rw (fresh, store_record) at h))
            (enqueue_if-IsHeld l p r now (insert_row r t) other held)
      | inr (old, known) ↦
          subst (λ (x : Tables). IsHeld l x.embedding_pending)
            (raise_unless-ok only _ (rw (known, store_record) at h))
            (enqueue_if-IsHeld l p r now (replace_row old r t) other held)
    ]

store_records-IsHeld :
    (l : Lease) (p : Option String) (rs : List MemoryRecord) (only : Bool) (now : ℕ) (t t' : Tables)
    → All (λ (r : MemoryRecord). r.id ≢ l.id) rs
    → store_records rs p only now t ≡ ok t'
    → IsHeld l t.embedding_pending
    → IsHeld l t'.embedding_pending
unfolding store_records
store_records-IsHeld l p [] only now t t' others h held =
    subst (λ (x : Tables). IsHeld l x.embedding_pending) (ok-inj h) held
store_records-IsHeld l p (r ∷ rs) only now t t' others h held =
    let (t1, first, rest) =
      bind-returns (store_record r p only now t) (λ t1. store_records rs p only now t1) h in
    store_records-IsHeld l p rs only now t1 t' others.1 rest
      (store_record-IsHeld l p r only now t t1 others.0 first held)

store_many-IsHeld :
    (l : Lease) (p : Option String) (rs : List MemoryRecord) (only : Bool)
    (ledger : Option LedgerWrite) (now : ℕ) (t t' : Tables)
    → All (λ (r : MemoryRecord). r.id ≢ l.id) rs
    → store_many rs p only ledger now t ≡ ok t'
    → IsHeld l t.embedding_pending
    → IsHeld l t'.embedding_pending
unfolding store_many
store_many-IsHeld l p rs only ledger now t t' others h held =
    let (t1, stored, written) =
      bind-returns (store_records rs p only now (register_profile p t)) (write_ledger_if ledger)
        h in
    rw (queue-ledger ledger t1 t' written) (
      store_records-IsHeld l p rs only now (register_profile p t) t1 others stored
        (rw (queue-register p t) held))

store_if-IsHeld :
    (l : Lease) (p : Option String) (r : MemoryRecord) (ledger : Option LedgerWrite) (now : ℕ)
    (t t' : Tables) (c : Conditional)
    → r.id ≢ l.id
    → store_if_content_unchanged r p ledger now t ≡ ok (c, t')
    → IsHeld l t.embedding_pending
    → IsHeld l t'.embedding_pending
unfolding store_if_content_unchanged
store_if-IsHeld l p r ledger now t t' c other h held =
    let registered : IsHeld l (register_profile p t).embedding_pending =
      rw (queue-register p t) held in
    elim (Option-cases (find_row r.id t.memories)) [
      | inl fresh ↦
          let (t1, stored, more) =
            bind-returns (store_record r p true now (register_profile p t)) _
              (rw (fresh, store_if_content_unchanged) at h) in
          let (t2, written, done) = bind-returns (write_ledger_if ledger t1) _ more in
          subst (λ (x : Conditional × Tables). IsHeld l x.1.embedding_pending) (ok-inj done)
            (rw (queue-ledger ledger t1 t2 written) (
              store_record-IsHeld l p r true now (register_profile p t) t1 other stored registered))
      | inr (row, known) ↦ elim (Bool-cases (row.stored.content == r.content)) [
        | inl same ↦
            subst (λ (x : Conditional × Tables). IsHeld l x.1.embedding_pending)
              (ok-inj (rw (known, store_if_content_unchanged, same) at h)) registered
        | inr differs ↦
            subst (λ (x : Conditional × Tables). IsHeld l x.1.embedding_pending)
              (ok-inj (rw (known, store_if_content_unchanged, differs) at h)) held
      ]
    ]

enqueue_all-IsHeld :
    (l : Lease) (rs : List MemoryRecord) (key : String) (now : ℕ) (queue : List PendingRow)
    → All (λ (r : MemoryRecord). r.id ≢ l.id) rs
    → IsHeld l queue
    → IsHeld l (enqueue_all rs key now queue).1
unfolding enqueue_all
enqueue_all-IsHeld l [] key now queue others held = held
enqueue_all-IsHeld l (r ∷ rs) key now queue others held =
    enqueue_all-IsHeld l rs key now (enqueue_record r key now queue) others.1
      (enqueue-IsHeld l key r now queue others.0 held)

-- A step of another worker, or of a writer of other records, for any profiles. A claim for the
-- profile of the job comes before the claimant's own lease time has passed since the job was claimed.
pub data OtherStep (F : Type 0) (is_finite : F → Bool) (sha256 : String → String) (l : Lease)
    (s : EmbeddingStore F) : EmbeddingStore F → Type 0 where
  store :
      (p : Option String) (rs : List MemoryRecord) (only : Bool) (ledger : Option LedgerWrite)
      (now : ℕ) {t' : Tables}
      → All (λ (r : MemoryRecord). r.id ≢ l.id) rs
      → store_many rs p only ledger now s.tables ≡ ok t'
      → OtherStep F is_finite sha256 l s (record s { tables = t' })
  store_if :
      (p : Option String) (r : MemoryRecord) (ledger : Option LedgerWrite) (now : ℕ)
      {c : Conditional} {t' : Tables}
      → r.id ≢ l.id
      → store_if_content_unchanged r p ledger now s.tables ≡ ok (c, t')
      → OtherStep F is_finite sha256 l s (record s { tables = t' })
  enqueue :
      (profile : EmbeddingProfile) (rs : List MemoryRecord) (now : ℕ)
      → All (λ (r : MemoryRecord). r.id ≢ l.id) rs
      → OtherStep F is_finite sha256 l s
          (record s { tables = (enqueue_unembedded rs profile now s.tables).1 })
  claim :
      (profile : EmbeddingProfile) (limit seconds : ℕ) (token : String) (now : ℕ)
      {items : List PendingEmbedding} {t' : Tables}
      → (profile_key profile ≡ l.key → now ≤ l.claimed_at + seconds * 1000000)
      → claim_pending_embeddings profile limit seconds token now s.tables ≡ ok (items, t')
      → OtherStep F is_finite sha256 l s (record s { tables = t' })
  complete :
      (available : Bool) (items : List (CompletedEmbedding F)) {n : ℕ} {s' : EmbeddingStore F}
      → All (λ (item : CompletedEmbedding F). item.pending.claim_token ≢ l.token) items
      → complete_pending_embeddings F is_finite sha256 available items s ≡ ok (n, s')
      → OtherStep F is_finite sha256 l s s'
  fail :
      (items : List PendingEmbedding) (error : String)
      → All (λ (item : PendingEmbedding). item.claim_token ≢ l.token) items
      → OtherStep F is_finite sha256 l s (fail_items items error s)

pub data OtherSteps (F : Type 0) (is_finite : F → Bool) (sha256 : String → String) (l : Lease)
    (s : EmbeddingStore F) : EmbeddingStore F → Type 0 where
  here : OtherSteps F is_finite sha256 l s s
  next :
      {t u : EmbeddingStore F}
      → OtherSteps F is_finite sha256 l s t
      → OtherStep F is_finite sha256 l t u
      → OtherSteps F is_finite sha256 l s u

module _ (F : Type 0) (is_finite : F → Bool) (sha256 : String → String) (l : Lease) where
  step-IsHeld :
      {s t : EmbeddingStore F}
      → OtherStep F is_finite sha256 l s t
      → IsHeld l s.tables.embedding_pending
      → IsHeld l t.tables.embedding_pending
  unfolding fail_items enqueue_unembedded
  step-IsHeld {s} (store p rs only ledger now {t'} others h) held =
      store_many-IsHeld l p rs only ledger now s.tables t' others h held
  step-IsHeld {s} (store_if p r ledger now {c} {t'} other h) held =
      store_if-IsHeld l p r ledger now s.tables t' c other h held
  step-IsHeld {s} (enqueue profile rs now others) held =
      enqueue_all-IsHeld l rs (profile_key profile) now _ others
        (rw (queue-register (some (profile_key profile)) s.tables) held)
  step-IsHeld {s} (claim profile limit seconds token now {items} {t'} soon h) held =
      let (_, _, _, end) = claim-eq profile limit seconds token now s.tables items t' h in
      elim (Bool-cases (profile_key profile == l.key)) [
        | inl same ↦
            let own = ==→eq (profile_key profile) l.key same in
            rw (end, own)
              (claim-IsHeld l limit (seconds * 1000000) now token s.tables (soon own) held)
        | inr other ↦ rw end (
            claim_elsewhere-IsHeld l (profile_key profile) _ token now s.tables.embedding_pending
              (λ e. ground (arith, eq_iff (profile_key profile) l.key, e)) held)
      ]
  step-IsHeld {s} (complete available items {n} {s'} others h) held =
      complete-IsHeld F is_finite sha256 l available items s s' n others h held
  step-IsHeld {s} (fail items error others) held =
      fail-IsHeld l items _ s.tables.embedding_pending others held

  steps-IsHeld :
      {s t : EmbeddingStore F}
      → OtherSteps F is_finite sha256 l s t
      → IsHeld l s.tables.embedding_pending
      → IsHeld l t.tables.embedding_pending
  steps-IsHeld here held = held
  steps-IsHeld (next before last) held = step-IsHeld last (steps-IsHeld before held)

  -- A job stays with its worker: it stands under the same lease after any steps of other workers and
  -- any stores and enqueueings of other records, and no further claim for its profile takes it. Each
  -- claim for its profile comes before the claimant's own lease time has passed since the job was
  -- claimed, and completions and failures have other tokens.
  pub lease-IsHeld :
      {s t : EmbeddingStore F}
      → OtherSteps F is_finite sha256 l s t
      → IsHeld l s.tables.embedding_pending
      → IsHeld l t.tables.embedding_pending
        × ((limit seconds now : ℕ) (job : PendingRow × MemoryRecord)
            → now ≤ l.claimed_at + seconds * 1000000
            → In job (claimed_jobs l.key limit (seconds * 1000000) now t.tables)
            → job_id job ≢ l.id)
  lease-IsHeld {s} {t} steps held =
      let after = steps-IsHeld steps held in
      (
        after,
        λ limit seconds now job soon m.
            claim-skips l limit (seconds * 1000000) now t.tables job soon after m,
      )
