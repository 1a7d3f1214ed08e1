-- ===== src/Embeddings/Ends/Loop.antt =====
-- The `while` loop of `sweep_pending_embeddings`: its rounds, and its end.
use cortex_mem.Prelude.{
  ℕ, zero, suc, ◌+◌, ◌*◌, ◌≤◌, ◌<◌, String, ◌≡◌, refl, ap, ◌∙◌, ◌⊎◌, inl, inr, true, false, Option,
  some, List, [], ◌∷◌, map, arith, ltb, contains, Bool-cases, List-cases,
}
use cortex_mem.Errors.{Result, ok}
use cortex_mem.Contracts.{MemoryRecord}
use cortex_mem.Store.Database.{Tables, PendingRow}
use cortex_mem.Embeddings.{EmbeddingProfile, profile_key}
use cortex_mem.Embeddings.Queue.{
  PendingEmbedding, EmbeddingStore, claimed_jobs, job_id, mark_claimed, pending_of,
  claim_pending_embeddings,
}
use cortex_mem.Embeddings.Sweep.{
  EmbeddingSweepResult, no_work, plus, Worker, below_limit, run_batch, claim_at, after_batch,
  bad_limit, guarded, sweep_loop, sweep_pending_embeddings,
}
use cortex_mem.Embeddings.Ends.{free_jobs, claim-free, run_batch-IsBatch}

mark_none :
    (key token : String) (now : ℕ) (queue : List PendingRow)
    → map (mark_claimed key [] token now) queue ≡ queue
unfolding mark_claimed contains
mark_none key token now [] = refl
mark_none key token now (p ∷ queue) = ground (arith, mark_none key token now queue)

module _ {F : Type 0} (worker : Worker F) (profile : EmbeddingProfile) (batch_size : ℕ)
    (max_batches : Option ℕ) (lease_seconds : ℕ) where
  abbrev lease : ℕ
  lease = lease_seconds * 1000000

  abbrev key : String
  key = profile_key profile

  abbrev loop :
      ℕ
      → EmbeddingSweepResult
      → EmbeddingStore F
      → Option (Result (EmbeddingSweepResult × EmbeddingStore F))
  loop = sweep_loop worker profile batch_size max_batches lease_seconds

  abbrev jobs_at : ℕ → Tables → List (PendingRow × MemoryRecord)
  jobs_at batch t = claimed_jobs key batch_size lease (worker.clock batch) t

  abbrev tables_after : ℕ → Tables → List (PendingRow × MemoryRecord) → Tables
  tables_after batch t jobs = record t {
    embedding_pending =
        map (mark_claimed key (map job_id jobs) (worker.uuid batch) (worker.clock batch))
          t.embedding_pending;
  }

  claim-returns :
      (batch : ℕ) (t : Tables)
      → 1 ≤ batch_size
      → 1 ≤ lease_seconds
      → claim_at worker profile batch_size max_batches lease_seconds batch t
        ≡ ok (
          map (pending_of profile (worker.uuid batch)) (jobs_at batch t),
          tables_after batch t (jobs_at batch t),
        )
  unfolding claim_pending_embeddings
  claim-returns batch t b l =
      let no_limit : ltb batch_size 1 ≡ false = ground arith in
      let no_lease : ltb lease_seconds 1 ≡ false = ground arith in rw (no_limit, no_lease) refl

  nothing_claimed :
      (batch : ℕ) (t : Tables)
      → jobs_at batch t ≡ []
      → ◌≡◌ {A = Result (List PendingEmbedding × Tables)}
          (ok (
            map (pending_of profile (worker.uuid batch)) (jobs_at batch t),
            tables_after batch t (jobs_at batch t),
          ))
          (ok ([], t))
  nothing_claimed batch t e =
      ap (λ jobs. ok (map (pending_of profile (worker.uuid batch)) jobs, tables_after batch t jobs))
        e
      ∙ ap (λ queue. ok ([], record t { embedding_pending = queue }))
          (mark_none key (worker.uuid batch) (worker.clock batch) t.embedding_pending)

  -- Why the loop stopped: a batch failed for some item, the limit is reached, or no job of the
  -- profile is free to claim.
  abbrev pub Stops : EmbeddingSweepResult → EmbeddingStore F → Type 0
  Stops result s =
      (1 ≤ result.failed)
      ⊎ (below_limit max_batches result.batches ≡ false)
      ⊎ (jobs_at result.batches s.tables ≡ [])

  abbrev Ended : ℕ → EmbeddingSweepResult → EmbeddingStore F → ℕ → Type 0
  Ended fuel result s bound =
      (res : EmbeddingSweepResult) × (s' : EmbeddingStore F) × (loop fuel result s
        ≡ some (ok (res, s')))
      × (res.batches ≤ result.batches + bound)
      × Stops res s'

  loop-limit :
      (fuel : ℕ) (result : EmbeddingSweepResult) (s : EmbeddingStore F)
      → below_limit max_batches result.batches ≡ false
      → loop (suc fuel) result s ≡ some (ok (result, s))
  unfolding sweep_loop
  loop-limit fuel result s limit = rw limit refl

  loop-empty :
      (fuel : ℕ) (result : EmbeddingSweepResult) (s : EmbeddingStore F) (t : Tables)
      → below_limit max_batches result.batches ≡ true
      → claim_at worker profile batch_size max_batches lease_seconds result.batches s.tables
        ≡ ok ([], t)
      → loop (suc fuel) result s ≡ some (ok (result, record s { tables = t }))
  unfolding sweep_loop
  loop-empty fuel result s t go c = rw go (rw c refl)

  loop-batch :
      (fuel : ℕ) (result : EmbeddingSweepResult) (s : EmbeddingStore F) (t : Tables)
      (item : PendingEmbedding) (items : List PendingEmbedding)
      → below_limit max_batches result.batches ≡ true
      → claim_at worker profile batch_size max_batches lease_seconds result.batches s.tables
        ≡ ok (item ∷ items, t)
      → loop (suc fuel) result s
        ≡ after_batch worker profile batch_size max_batches lease_seconds
            (loop fuel)
            result
            (run_batch worker result.batches (item ∷ items) (record s { tables = t }))
  unfolding sweep_loop
  loop-batch fuel result s t item items go c = rw go (rw c refl)

  module _ (time : ℕ) (b : 1 ≤ batch_size) (l : 1 ≤ lease_seconds)
      (before : (batch : ℕ) → worker.clock batch ≤ time)
      (soon : (batch : ℕ) → time ≤ worker.clock batch + lease) where
    -- a round that claims a batch
    batch_ends :
        (fuel bound : ℕ) (result : EmbeddingSweepResult) (s : EmbeddingStore F)
        → ((result' : EmbeddingSweepResult) (s' : EmbeddingStore F)
            → free_jobs key lease time s'.tables < free_jobs key lease time s.tables
            → result'.batches ≡ suc result.batches
            → Ended fuel result' s' bound)
        → (job : PendingRow × MemoryRecord) (jobs : List (PendingRow × MemoryRecord))
        → jobs_at result.batches s.tables ≡ job ∷ jobs
        → below_limit max_batches result.batches ≡ true
        → claim_at worker profile batch_size max_batches lease_seconds result.batches s.tables
          ≡ ok (
            map (pending_of profile (worker.uuid result.batches)) (job ∷ jobs),
            tables_after result.batches s.tables (job ∷ jobs),
          )
        → Ended (suc fuel) result s (suc bound)
    unfolding plus
    batch_ends fuel bound result s next job jobs e go c =
        let k = result.batches in
        let item = pending_of profile (worker.uuid k) job in
        let items = map (pending_of profile (worker.uuid k)) jobs in
        let t = tables_after k s.tables (job ∷ jobs) in
        let out = run_batch worker k (item ∷ items) (record s { tables = t }) in
        let fact = run_batch-IsBatch worker key lease time item items (record s { tables = t }) k in
        let fewer =
          claim-free key batch_size lease (worker.clock k) time (worker.uuid k) s.tables job jobs
            (before k) (soon k) e in
        let round = loop-batch fuel result s t item items go c in
        elim (Bool-cases out.1) [
          | inl stop ↦ (
            plus result out.0,
            out.2,
            round ∙ rw stop refl,
            omega (arith, fact.one),
            inl (omega (arith, fact.stops stop)),
          )
          | inr more ↦
              let (res, s', eq, bounded, why) =
                next (plus result out.0) out.2 (omega (arith, fewer, fact.goes_on more))
                  (omega (arith, fact.one)) in
              (res, s', round ∙ rw more eq, omega (arith, bounded, fact.one), why)
        ]

    -- one round, when the rounds after it end
    round_ends :
        (fuel bound : ℕ) (result : EmbeddingSweepResult) (s : EmbeddingStore F)
        → ((result' : EmbeddingSweepResult) (s' : EmbeddingStore F)
            → free_jobs key lease time s'.tables < free_jobs key lease time s.tables
            → result'.batches ≡ suc result.batches
            → Ended fuel result' s' bound)
        → Ended (suc fuel) result s (suc bound)
    round_ends fuel bound result s next =
        elim (Bool-cases (below_limit max_batches result.batches)) [
          | inr limit ↦ (result, s, loop-limit fuel result s limit, omega arith, inr (inl limit))
          | inl go ↦
              let c = claim-returns result.batches s.tables b l in
              elim (List-cases (jobs_at result.batches s.tables)) [
                | inl no_job ↦ (
                  result,
                  s,
                  loop-empty fuel result s s.tables go
                      (c ∙ nothing_claimed result.batches s.tables no_job),
                  omega arith,
                  inr (inr no_job),
                )
                | inr (job, jobs, e) ↦ batch_ends fuel bound result s next job jobs e go (
                    c
                    ∙ ap
                        (λ js. ok (
                          map (pending_of profile (worker.uuid result.batches)) js,
                          tables_after result.batches s.tables js,
                        ))
                        e)
              ]
        ]

    -- From any state on, with fuel for each job that is free and one more.
    loop_ends :
        (fuel : ℕ) (result : EmbeddingSweepResult) (s : EmbeddingStore F)
        → free_jobs key lease time s.tables < fuel
        → Ended fuel result s fuel
    loop_ends zero result s enough = absurd (omega arith)
    loop_ends (suc fuel) result s enough =
        round_ends fuel fuel result s
          (λ result' s' fewer one. loop_ends fuel result' s' (omega arith))

-- With fuel above the number of jobs that are free, and readings of the clock that all lie within
-- one lease, a sweep of a profile returns. Then a batch failed for some item, or the limit of
-- batches is reached, or no job of the profile is free at the last reading.
pub sweep-returns :
    {F : Type 0} (worker : Worker F) (batch_size : ℕ) (max_batches : Option ℕ) (lease_seconds : ℕ)
    (profile : EmbeddingProfile) (time fuel : ℕ) (s : EmbeddingStore F)
    → worker.profile ≡ some profile
    → 1 ≤ batch_size
    → bad_limit max_batches ≡ false
    → 1 ≤ lease_seconds
    → ((batch : ℕ) → worker.clock batch ≤ time)
    → ((batch : ℕ) → time ≤ worker.clock batch + lease_seconds * 1000000)
    → free_jobs (profile_key profile) (lease_seconds * 1000000) time s.tables < fuel
    → (result : EmbeddingSweepResult) × (s' : EmbeddingStore F) × (sweep_pending_embeddings worker
          batch_size max_batches lease_seconds fuel s
        ≡ some (ok (result, s')))
      × Stops worker profile batch_size max_batches lease_seconds result s'
unfolding sweep_pending_embeddings
sweep-returns worker batch_size max_batches lease_seconds profile time fuel s own b limit l before
      soon enough =
    let (result, s', e, _, why) =
      loop_ends worker profile batch_size max_batches lease_seconds time b l before soon fuel
        no_work s enough in
    let size : ltb batch_size 1 ≡ false = ground arith in
    let start = guarded worker batch_size max_batches lease_seconds fuel s in
    (
      result,
      s',
      ap (λ test. start test (bad_limit max_batches) worker.profile) size
          ∙ ap (λ test. start false test worker.profile) limit
          ∙ ap (start false false) own
          ∙ e,
      why,
    )
