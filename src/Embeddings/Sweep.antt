-- ===== src/Embeddings/Sweep.antt =====
-- `sweep_pending_embeddings` of aoms/embedding_jobs.py. `embed_documents` belongs to the provider and
-- is an argument; so are the readings of the clock and of `uuid4`, each at the number of batches so
-- far, and `repr` of an exception. No other worker comes between the steps of a sweep.
use cortex_mem.Prelude.{
  ℕ, zero, suc, ◌+◌, String, Bool, true, false, not, Option, none, some, List, [], ◌∷◌, map, length,
  is_empty, ◌==◌, nat_eq, ltb,
}
use cortex_mem.Errors.{Error, Result, ok, raise, value_error, runtime_error, ◌>>=◌, raise_if}
use cortex_mem.Recall.Pack.{text_take}
use cortex_mem.Store.Database.{Tables}
use cortex_mem.Embeddings.{EmbeddingProfile, text_for_embedding}
use cortex_mem.Embeddings.Queue.{
  PendingEmbedding, CompletedEmbedding, EmbeddingStore, claim_pending_embeddings,
  fail_pending_embeddings, complete_pending_embeddings,
}

pub record EmbeddingSweepResult : Type 0 where
  pub claimed : ℕ
  pub embedded : ℕ
  pub failed : ℕ
  pub batches : ℕ

abbrev pub no_work : EmbeddingSweepResult
no_work = record { claimed = 0; embedded = 0; failed = 0; batches = 0 }

unfoldable pub plus : EmbeddingSweepResult → EmbeddingSweepResult → EmbeddingSweepResult
plus a b = record {
  claimed = a.claimed + b.claimed;
  embedded = a.embedded + b.embedded;
  failed = a.failed + b.failed;
  batches = a.batches + b.batches;
}

-- what a worker finds around it
pub record Worker (F : Type 0) : Type 0 where
  pub profile : Option EmbeddingProfile
  pub embed_documents : ℕ → List String → Result (List (Option (List F)))
  pub is_finite : F → Bool
  pub sha256 : String → String
  pub sqlite_vec_available : Bool
  pub clock : ℕ → ℕ
  pub uuid : ℕ → String
  pub repr : Error → String

abbrev pub below_limit : Option ℕ → ℕ → Bool
below_limit none batches = true
below_limit (some max_batches) batches = ltb batches max_batches

abbrev pub bad_limit : Option ℕ → Bool
bad_limit none = false
bad_limit (some n) = ltb n 1

module _ {F : Type 0} where
  -- `[CompletedEmbedding(…) for item, vector in zip(…) if vector is not None]`
  unfoldable pub completed_items :
      List PendingEmbedding → List (Option (List F)) → List (CompletedEmbedding F)
  completed_items [] vectors = []
  completed_items (item ∷ items) [] = []
  completed_items (item ∷ items) (none ∷ vectors) = completed_items items vectors
  completed_items (item ∷ items) (some v ∷ vectors) =
      record { pending = item; vector = v } ∷ completed_items items vectors

  -- `[item for item, vector in zip(…) if vector is None]`
  unfoldable pub missing_items :
      List PendingEmbedding → List (Option (List F)) → List PendingEmbedding
  missing_items [] vectors = []
  missing_items (item ∷ items) [] = []
  missing_items (item ∷ items) (none ∷ vectors) = item ∷ missing_items items vectors
  missing_items (item ∷ items) (some v ∷ vectors) = missing_items items vectors

  -- `error[:2_000]`, and no call of the database for no item
  unfoldable pub fail_items : List PendingEmbedding → String → EmbeddingStore F → EmbeddingStore F
  fail_items items error s =
      let (count, queue) =
        fail_pending_embeddings items (text_take 2000 error) s.tables.embedding_pending in
      record s { tables = record s.tables { embedding_pending = queue } }

module _ {F : Type 0} (worker : Worker F) where
  -- the call of the provider, with the test of the length of its answer
  unfoldable pub embed_batch : ℕ → List PendingEmbedding → Result (List (Option (List F)))
  embed_batch batch pending = do
    vectors ←
        worker.embed_documents batch
          (map (λ (item : PendingEmbedding). text_for_embedding 12000 item.subject) pending)
    _ ←
        raise_if (not (length vectors == length pending))
          (runtime_error "embedding provider returned the wrong batch length")
    ok vectors

  -- the batch after an exception
  unfoldable pub abandon :
      List PendingEmbedding
      → Error
      → EmbeddingStore F
      → EmbeddingSweepResult × Bool × EmbeddingStore F
  abandon pending e s =
      let n = length pending in
      (
        record { claimed = n; embedded = 0; failed = n; batches = 1 },
        true,
        fail_items pending (worker.repr e) s,
      )

  abbrev pub complete :
      List (CompletedEmbedding F) → EmbeddingStore F → Result (ℕ × EmbeddingStore F)
  complete =
      complete_pending_embeddings F worker.is_finite worker.sha256 worker.sqlite_vec_available

  -- the end of a batch, from what the completion returns
  unfoldable pub settle :
      List PendingEmbedding
      → List (Option (List F))
      → EmbeddingStore F
      → Result (ℕ × EmbeddingStore F)
      → EmbeddingSweepResult × Bool × EmbeddingStore F
  settle pending vectors s (raise e) = abandon pending e s
  settle pending vectors s (ok (embedded, s')) =
      let missing = missing_items pending vectors in
      (
        record {
          claimed = length pending;
          embedded = embedded;
          failed = length missing;
          batches = 1;
        },
        not (is_empty missing),
        fail_items missing "embedding provider returned no vector" s',
      )

  -- the batch from the provider's answer on
  unfoldable pub answered :
      List PendingEmbedding
      → EmbeddingStore F
      → Result (List (Option (List F)))
      → EmbeddingSweepResult × Bool × EmbeddingStore F
  answered pending s (raise e) = abandon pending e s
  answered pending s (ok vectors) =
      settle pending vectors s (complete (completed_items pending vectors) s)

  -- A batch that was claimed, and whether the loop stops after it.
  unfoldable pub run_batch :
      ℕ → List PendingEmbedding → EmbeddingStore F → EmbeddingSweepResult × Bool × EmbeddingStore F
  run_batch batch pending s = answered pending s (embed_batch batch pending)

module _ {F : Type 0} (worker : Worker F) (profile : EmbeddingProfile) (batch_size : ℕ)
    (max_batches : Option ℕ) (lease_seconds : ℕ) where
  abbrev pub claim_at : ℕ → Tables → Result (List PendingEmbedding × Tables)
  claim_at batch =
      claim_pending_embeddings profile batch_size lease_seconds (worker.uuid batch)
        (worker.clock batch)

  abbrev Outcome : Type 0
  Outcome = Option (Result (EmbeddingSweepResult × EmbeddingStore F))

  -- the end of the body, with the `break` after a batch that failed for an item
  abbrev pub after_batch :
      (EmbeddingSweepResult → EmbeddingStore F → Outcome)
      → EmbeddingSweepResult
      → EmbeddingSweepResult × Bool × EmbeddingStore F
      → Outcome
  after_batch next result (batch, true, s) = some (ok (plus result batch, s))
  after_batch next result (batch, false, s) = next (plus result batch) s

  -- the body from the claim on, with the `break` at no job
  abbrev pub after_claim :
      (EmbeddingSweepResult → EmbeddingStore F → Outcome)
      → EmbeddingSweepResult
      → EmbeddingStore F
      → Result (List PendingEmbedding × Tables)
      → Outcome
  after_claim next result s (raise e) = some (raise e)
  after_claim next result s (ok ([], t)) = some (ok (result, record s { tables = t }))
  after_claim next result s (ok (item ∷ items, t)) =
      after_batch next result
        (run_batch worker result.batches (item ∷ items) (record s { tables = t }))

  abbrev pub sweep_round :
      (EmbeddingSweepResult → EmbeddingStore F → Outcome)
      → EmbeddingSweepResult
      → EmbeddingStore F
      → Bool
      → Outcome
  sweep_round next result s false = some (ok (result, s))
  sweep_round next result s true = after_claim next result s (claim_at result.batches s.tables)

  -- The `while` loop, on fuel: `none` when the fuel does not reach its end.
  unfoldable pub sweep_loop : ℕ → EmbeddingSweepResult → EmbeddingStore F → Outcome
  sweep_loop zero result s = none
  sweep_loop (suc fuel) result s =
      sweep_round (sweep_loop fuel) result s (below_limit max_batches result.batches)

module _ {F : Type 0} (worker : Worker F) (batch_size : ℕ) (max_batches : Option ℕ)
    (lease_seconds : ℕ) where
  -- the guards, in their order, and the loop
  abbrev pub guarded :
      ℕ
      → EmbeddingStore F
      → Bool
      → Bool
      → Option EmbeddingProfile
      → Option (Result (EmbeddingSweepResult × EmbeddingStore F))
  guarded fuel s true no_batches profile =
      some (raise (value_error "batch_size must be at least 1"))
  guarded fuel s false true profile = some (raise (value_error "max_batches must be at least 1"))
  guarded fuel s false false none = some (ok (no_work, s))
  guarded fuel s false false (some profile) =
      sweep_loop worker profile batch_size max_batches lease_seconds fuel no_work s

  unfoldable pub sweep_pending_embeddings :
      ℕ → EmbeddingStore F → Option (Result (EmbeddingSweepResult × EmbeddingStore F))
  sweep_pending_embeddings fuel s =
      guarded fuel s (ltb batch_size 1) (bad_limit max_batches) worker.profile
