-- ===== src/Tests/Queue.antt =====
-- The embedding queue of aoms/repositories/sqlite.py with one record and two workers.
use cortex_mem.Prelude.{
  ℕ, ◌+◌, ◌*◌, ◌≤◌, ◌<◌, ◌≡◌, refl, ap, sym, ◌∙◌, ◌≢◌, inl, inr, eq_iff, true, false, Bool, none,
  some, List, [], ◌∷◌, filter, contains, any, all, map, take, In, arith,
}
use cortex_mem.Prelude.Order.{sorted, str_leb}
use cortex_mem.Errors.{ok, raise, Result}
use cortex_mem.Contracts.{MemoryRecord}
use cortex_mem.Store.Rows.{find_row, next_rowid, row_of_record, update_row}
use cortex_mem.Store.Database.{
  Tables, PendingRow, register_profile, enqueue_record, enqueue_if, write_ledger_if, fts_row,
  requeue,
}
use cortex_mem.Store.{store_many, store_records, store_record, insert_row, replace_row}
use cortex_mem.Store.Map.{lookup, put_all, store_many-put}
use cortex_mem.Embeddings.{EmbeddingProfile, profile_key, decimal, text_for_embedding, join_with}
use cortex_mem.Embeddings.Queue.{
  PendingEmbedding, CompletedEmbedding, EmbeddingStore, is_claimable, join_memories, claimed_jobs,
  job_id, mark_claimed, claim_pending_embeddings, release_failed, fail_pending_embeddings,
  vector_id, validate_vector, vector_table, ensure_vector_table, vector_row, upsert_vector,
  complete_current, complete_one, complete_pending_embeddings,
}
use cortex_mem.Embeddings.Sweep.{
  Worker, EmbeddingSweepResult, plus, completed_items, missing_items, fail_items, embed_batch,
  abandon, settle, answered, run_batch, sweep_loop, sweep_pending_embeddings,
}
use cortex_mem.Embeddings.Held.{Lease, IsHeld}
use cortex_mem.Embeddings.Leases.{OtherStep, OtherSteps, lease-IsHeld}
use cortex_mem.Embeddings.Ends.{free_jobs}
use cortex_mem.Embeddings.Ends.Loop.{Stops, sweep-returns}
use cortex_mem.Recall.Pack.{text_take}
use cortex_mem.Tests.Data.{memory}
use cortex_mem.Tests.Writes.{empty, identity}

abbrev profile : EmbeddingProfile
profile = record { provider = "local"; model = "m"; dimensions = 2 }

abbrev any_float : ℕ → Bool
any_float x = true

queue : Unit {0}
unfolding find_row next_rowid row_of_record register_profile enqueue_record enqueue_if
    write_ledger_if fts_row requeue update_row store_many store_records store_record insert_row
    replace_row profile_key decimal is_claimable join_memories claimed_jobs mark_claimed
    claim_pending_embeddings release_failed fail_pending_embeddings vector_id validate_vector
    vector_table ensure_vector_table vector_row upsert_vector complete_current complete_one
    complete_pending_embeddings plus completed_items missing_items fail_items embed_batch abandon
    settle answered run_batch sweep_loop sweep_pending_embeddings text_for_embedding join_with
    text_take sorted str_leb filter take contains any all
queue = tt

abbrev tables_of : Result Tables → Tables
tables_of (ok t) = t
tables_of (raise e) = empty

abbrev amber : MemoryRecord
amber = memory "a" "amber"

abbrev green : MemoryRecord
green = memory "b" "green"

-- two records are stored, and the later one of the same id replaces the earlier
abbrev written : Result Tables
written =
    store_many (amber ∷ green ∷ record amber { updated_at = 2 } ∷ []) (some (profile_key profile))
      false none 5 empty

abbrev two : Tables
two = tables_of written

key_text : profile_key profile ≡ "local/m@2"
unfolding queue
key_text = refl

written-ok : written ≡ ok two
unfolding queue
written-ok = refl

store_many-put_example :
    lookup two.memories "a"
    ≡ put_all (amber ∷ green ∷ record amber { updated_at = 2 } ∷ []) (lookup empty.memories) "a"
store_many-put_example =
    store_many-put (amber ∷ green ∷ record amber { updated_at = 2 } ∷ [])
      (some (profile_key profile)) false none 5 empty two written-ok "a"

abbrev stored_two : EmbeddingStore ℕ
stored_two = record { tables = two; vectors = [] }

abbrev claimed : Result (List PendingEmbedding × Tables)
claimed = claim_pending_embeddings profile 1 300 "worker" 7 two

abbrev items_of : Result (List PendingEmbedding × Tables) → List PendingEmbedding
items_of (ok (items, t)) = items
items_of (raise e) = []

abbrev claimed_tables : Result (List PendingEmbedding × Tables) → Tables
claimed_tables (ok (items, t)) = t
claimed_tables (raise e) = empty

-- The first worker gets the older job by id, at the version that replaced the first.
first_job :
    map (λ (item : PendingEmbedding). item.subject) (items_of claimed)
    ≡ record amber { updated_at = 2 } ∷ []
unfolding queue
first_job = refl

abbrev embedded : Result (ℕ × EmbeddingStore ℕ)
embedded =
    complete_pending_embeddings ℕ any_float identity true
      (completed_items (items_of claimed) (some (1 ∷ 0 ∷ []) ∷ []))
      (record { tables = claimed_tables claimed; vectors = [] })

abbrev store_of : Result (ℕ × EmbeddingStore ℕ) → EmbeddingStore ℕ
store_of (ok (n, s)) = s
store_of (raise e) = stored_two

abbrev answers : List (CompletedEmbedding ℕ)
answers = completed_items (items_of claimed) (some (1 ∷ 0 ∷ []) ∷ [])

-- the lease of the first worker, which a second one respects at the last moment
abbrev lease : Lease
lease = record {
  key = profile_key profile;
  id = "a";
  version = 2;
  token = "worker";
  claimed_at = 7;
}

abbrev leased : EmbeddingStore ℕ
leased = record { tables = claimed_tables claimed; vectors = [] }

leased-IsHeld : IsHeld lease (claimed_tables claimed).embedding_pending
unfolding queue
leased-IsHeld = record {
  stands = (_, inl refl, (refl, refl, refl));
  only = λ p m k i. elim m [
    | inl e ↦ rw e (refl, refl)
    | inr (inl e) ↦
        let b : "b" ≡ "a" = sym (ap (λ (x : PendingRow). x.record_id) e) ∙ i in
        absurd (ground (arith, eq_iff "b" "a"))
    | inr (inr no_more) ↦ absurd no_more
  ];
}

abbrev second : Result (List PendingEmbedding × Tables)
second = claim_pending_embeddings profile 5 300 "second" 300000007 (claimed_tables claimed)

second-ok : second ≡ ok (items_of second, claimed_tables second)
unfolding queue
second-ok = refl

lease-IsHeld_example :
    IsHeld lease (claimed_tables second).embedding_pending
    × ((limit seconds now : ℕ) (job : PendingRow × MemoryRecord)
        → now ≤ 7 + seconds * 1000000
        → In job (
            claimed_jobs
              (profile_key profile)
              limit
              (seconds * 1000000)
              now
              (claimed_tables second))
        → job_id job ≢ "a")
lease-IsHeld_example =
    lease-IsHeld ℕ any_float identity lease {s = leased}
      {t = record { tables = claimed_tables second; vectors = [] }}
      (OtherSteps.next OtherSteps.here
        (OtherStep.claim profile 5 300 "second" 300000007 (λ own. omega arith) second-ok))
      leased-IsHeld

abbrev worker : Worker ℕ
worker = record {
  profile = some profile;
  embed_documents = λ batch texts. ok (map (λ t. some (1 ∷ 0 ∷ [])) texts);
  is_finite = any_float;
  sha256 = identity;
  sqlite_vec_available = true;
  clock = λ batch. 7;
  uuid = λ batch. "worker";
  repr = λ e. "error";
}

two-free : free_jobs (profile_key profile) 300000000 7 two < 9
unfolding queue
two-free = omega arith

sweep-returns_example :
    (result : EmbeddingSweepResult) × (s' : EmbeddingStore ℕ) × (sweep_pending_embeddings worker 1
        none 300 9 stored_two
      ≡ some (ok (result, s')))
    × Stops worker profile 1 none 300 result s'
sweep-returns_example =
    sweep-returns worker 1 none 300 profile 7 9 stored_two refl (omega arith) refl (omega arith)
      (λ batch. omega arith) (λ batch. omega arith) two-free

-- both records are embedded, one in each batch
swept :
    (result : EmbeddingSweepResult) × (s' : EmbeddingStore ℕ) × (sweep_pending_embeddings worker 1
        none 300 9 stored_two
      ≡ some (ok (result, s')))
    × (result ≡ record { claimed = 2; embedded = 2; failed = 0; batches = 2 })
    × (s'.tables.embedding_pending ≡ [])
unfolding queue
swept = (_, _, refl, refl, refl)
