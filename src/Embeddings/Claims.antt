-- ===== src/Embeddings/Claims.antt =====
-- What `claim_pending_embeddings` of aoms/repositories/sqlite.py returns and writes.
use cortex_mem.Prelude.{
  ℕ, ◌*◌, ◌≤◌, String, ◌≡◌, refl, sym, ap, subst, inl, inr, true, Option, some, List, [], ◌∷◌, map,
  filter, In, In-take, In-filter, ltb, arith, Option-cases,
}
use cortex_mem.Prelude.Order.{sorted, In-sorted}
use cortex_mem.Errors.{ok, ◌>>◌, raise_if, bind-returns, raise_if-eq-ok, ok-inj}
use cortex_mem.Contracts.{MemoryRecord}
use cortex_mem.Store.Rows.{Row, find_row}
use cortex_mem.Store.Database.{Tables, PendingRow}
use cortex_mem.Embeddings.{EmbeddingProfile, profile_key}
use cortex_mem.Embeddings.Queue.{
  PendingEmbedding, is_claimable, join_row, join_memories, claim_order, claimed_jobs, job_id,
  mark_claimed, pending_of, claim_pending_embeddings,
}

-- The limits are checked, the jobs are returned under the new token, and their rows are marked.
pub claim-eq :
    (profile : EmbeddingProfile) (limit lease : ℕ) (token : String) (now : ℕ) (t : Tables)
    (items : List PendingEmbedding) (t' : Tables)
    → claim_pending_embeddings profile limit lease token now t ≡ ok (items, t')
    → let jobs = claimed_jobs (profile_key profile) limit (lease * 1000000) now t in
      (1 ≤ limit)
      × (1 ≤ lease)
      × (items ≡ map (pending_of profile token) jobs)
      × (t' ≡ record t {
        embedding_pending =
            map
              (mark_claimed (profile_key profile) (map job_id jobs) token now)
              t.embedding_pending;
      })
unfolding claim_pending_embeddings
claim-eq profile limit lease token now t items t' h =
    let (_, checks, done) =
      bind-returns (raise_if (ltb limit 1) _ >> raise_if (ltb lease 1) _) _ h in
    let (u, first, second) = bind-returns (raise_if (ltb limit 1) _) _ checks in
    let a = raise_if-eq-ok (ltb limit 1) _ u first in
    let b = raise_if-eq-ok (ltb lease 1) _ _ second in
    (
      ground arith,
      ground arith,
      sym (ap (λ (x : List PendingEmbedding × Tables). x.0) (ok-inj done)),
      sym (ap (λ (x : List PendingEmbedding × Tables). x.1) (ok-inj done)),
    )

-- the record that stands under the id of a job
abbrev pub Joined : List Row → PendingRow × MemoryRecord → Type 0
Joined rows (p, r) = (row : Row) × (find_row p.record_id rows ≡ some row) × (r ≡ row.stored)

In-join :
    (rows : List Row) (queue : List PendingRow) (job : PendingRow × MemoryRecord)
    → In job (join_memories rows queue)
    → In job.0 queue × Joined rows job
unfolding join_memories
In-join rows [] job m = absurd m
In-join rows (p ∷ queue) job m = elim (Option-cases (find_row p.record_id rows)) [
  | inl e ↦ let (k, j) = In-join rows queue job (joined e) in (inr k, j)
  | inr (row, e) ↦ elim (joined e) [
    | inl same ↦ rw same (inl refl, (row, e, refl))
    | inr k ↦ let (l, j) = In-join rows queue job k in (inr l, j)
  ]
]
  where
    joined :
        {o : Option Row}
        → find_row p.record_id rows ≡ o
        → In job (join_row p o (join_memories rows queue))
    joined e = subst (λ o. In job (join_row p o (join_memories rows queue))) e m

-- A job that is claimed stands in the queue, was free to claim, and has its record.
pub claimed_jobs-In :
    (key : String) (limit lease now : ℕ) (t : Tables) (job : PendingRow × MemoryRecord)
    → In job (claimed_jobs key limit lease now t)
    → In job.0 t.embedding_pending
      × (is_claimable key lease now job.0 ≡ true)
      × Joined t.memories job
unfolding claimed_jobs
claimed_jobs-In key limit lease now t job m =
    let free = filter (is_claimable key lease now) t.embedding_pending in
    let rows = join_memories t.memories free in
    let (k, j) =
      In-join t.memories free job
        (In-sorted claim_order job rows (In-take limit job (sorted claim_order rows) m)) in
    let (l, claimable) = In-filter (is_claimable key lease now) job.0 t.embedding_pending k in
    (l, claimable, j)
