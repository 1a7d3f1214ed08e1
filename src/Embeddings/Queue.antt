-- ===== src/Embeddings/Queue.antt =====
-- aoms/repositories/sqlite.py: the vectors, and the durable queue `embedding_pending` with its
-- leases. One list holds the vector tables of all dimensions. A float is an argument with its test
-- `isfinite`, and a vector stands for its JSON text. The repository is writable.
use Prim.Native.String.{◌++◌ as text_append}
use cortex_mem.Prelude.{
  ℕ, suc, ◌+◌, ◌*◌, String, Bool, true, ◌&&◌, ◌||◌, not, Option, none, some, List, [], ◌∷◌, ◌++◌,
  map, filter, all, contains, length, take, ◌==◌, string_eq, nat_eq, option_eq, ltb, if◌then◌else◌,
}
use cortex_mem.Prelude.Order.{Order, sorted, pair_order}
use cortex_mem.Errors.{Result, ok, value_error, runtime_error, ◌>>=◌, ◌>>◌, raise_if}
use cortex_mem.Contracts.{MemoryRecord}
use cortex_mem.Store.Rows.{Row, find_row}
use cortex_mem.Store.Database.{
  Tables, PendingRow, queue_key, register_profile, enqueue_record, enqueue_counts,
}
use cortex_mem.Embeddings.{EmbeddingProfile, profile_key, kind_value, scope_value}

pub record PendingEmbedding : Type 0 where
  pub subject : MemoryRecord
  pub profile : EmbeddingProfile
  pub claim_token : String
  pub attempts : ℕ

pub record CompletedEmbedding (F : Type 0) : Type 0 where
  pub pending : PendingEmbedding
  pub vector : List F

-- a row of the table `memory_vectors_{dimensions}`
pub record VectorRow (F : Type 0) : Type 0 where
  pub dimensions : ℕ
  pub vector_id : String
  pub embedding : List F
  pub profile_key : String
  pub namespace : String
  pub memory_id : String
  pub record_updated_at : ℕ

pub record EmbeddingStore (F : Type 0) : Type 0 where
  pub tables : Tables
  pub vectors : List (VectorRow F)

-- `p.profile_key = ? AND (p.claimed_at IS NULL OR p.claimed_at < ?)`
abbrev pub lease_is_over : ℕ → ℕ → Option ℕ → Bool
lease_is_over lease now none = true
lease_is_over lease now (some claimed_at) = ltb (claimed_at + lease) now

unfoldable pub is_claimable : String → ℕ → ℕ → PendingRow → Bool
is_claimable key lease now p = p.profile_key == key && lease_is_over lease now p.claimed_at

abbrev pub join_row :
    PendingRow → Option Row → List (PendingRow × MemoryRecord) → List (PendingRow × MemoryRecord)
join_row p none rest = rest
join_row p (some row) rest = (p, row.stored) ∷ rest

-- `JOIN memories AS m ON m.id = p.record_id`
unfoldable pub join_memories : List Row → List PendingRow → List (PendingRow × MemoryRecord)
join_memories rows [] = []
join_memories rows (p ∷ queue) = join_row p (find_row p.record_id rows) (join_memories rows queue)

-- `ORDER BY p.enqueued_at, p.record_id`
abbrev pub claim_order : Order (PendingRow × MemoryRecord)
claim_order = pair_order (λ (p, r). p.enqueued_at) (λ (p, r). p.record_id)

unfoldable pub claimed_jobs : String → ℕ → ℕ → ℕ → Tables → List (PendingRow × MemoryRecord)
claimed_jobs key limit lease now t = take limit (
    sorted claim_order
      (join_memories t.memories (filter (is_claimable key lease now) t.embedding_pending)))

-- `UPDATE embedding_pending SET claim_token = ?, claimed_at = ? WHERE … record_id IN (…)`
unfoldable pub mark_claimed : String → List String → String → ℕ → PendingRow → PendingRow
mark_claimed key record_ids token now p =
    if p.profile_key == key && contains record_ids p.record_id
    then record p { claim_token = some token; claimed_at = some now }
    else p

abbrev pub job_id : PendingRow × MemoryRecord → String
job_id (p, r) = p.record_id

abbrev pub pending_of : EmbeddingProfile → String → PendingRow × MemoryRecord → PendingEmbedding
pending_of profile token (p, r) = record {
  subject = r;
  profile = profile;
  claim_token = token;
  attempts = p.attempts;
}

-- `claim_pending_embeddings`; `token` is `uuid4()`, and an empty list of ids updates no row.
unfoldable pub claim_pending_embeddings :
    EmbeddingProfile → ℕ → ℕ → String → ℕ → Tables → Result (List PendingEmbedding × Tables)
claim_pending_embeddings profile limit lease_seconds token now t =
    let key = profile_key profile in
    let jobs = claimed_jobs key limit (lease_seconds * 1000000) now t in
    raise_if (ltb limit 1) (value_error "limit must be at least 1")
    >> raise_if (ltb lease_seconds 1) (value_error "lease_seconds must be at least 1")
    >> ok (
      map (pending_of profile token) jobs,
      record t {
        embedding_pending = map (mark_claimed key (map job_id jobs) token now) t.embedding_pending;
      },
    )

-- the `WHERE` of `_fail_pending_embeddings_sync`
abbrev pub is_leased : PendingEmbedding → PendingRow → Bool
is_leased item p =
    queue_key (profile_key item.profile) item.subject.id p && p.claim_token == some item.claim_token

-- the `WHERE` of the DELETE of `_complete_pending_embeddings_sync`
abbrev pub is_done : PendingEmbedding → PendingRow → Bool
is_done item p = is_leased item p && p.record_updated_at == item.subject.updated_at

unfoldable pub release_failed : PendingEmbedding → String → PendingRow → PendingRow
release_failed item error p =
    if is_leased item p
    then record p {
      attempts = suc p.attempts;
      last_error = some error;
      claim_token = none;
      claimed_at = none;
    }
    else p

-- The loop of `_fail_pending_embeddings_sync`, and the rows that it updates.
unfoldable pub fail_pending_embeddings :
    List PendingEmbedding → String → List PendingRow → ℕ × List PendingRow
fail_pending_embeddings [] error queue = (0, queue)
fail_pending_embeddings (item ∷ items) error queue =
    let (count, rest) =
      fail_pending_embeddings items error (map (release_failed item error) queue) in
    (length (filter (is_leased item) queue) + count, rest)

-- `_enqueue_unembedded_sync`
unfoldable pub enqueue_all : List MemoryRecord → String → ℕ → List PendingRow → ℕ × List PendingRow
enqueue_all [] key now queue = (0, queue)
enqueue_all (r ∷ rs) key now queue =
    let (count, rest) = enqueue_all rs key now (enqueue_record r key now queue) in
    ((if enqueue_counts r key queue then suc count else count), rest)

unfoldable pub enqueue_unembedded : List MemoryRecord → EmbeddingProfile → ℕ → Tables → ℕ × Tables
enqueue_unembedded rs profile now t =
    let key = profile_key profile in
    let t' = register_profile (some key) t in
    let (count, queue) = enqueue_all rs key now t'.embedding_pending in
    (count, record t' { embedding_pending = queue })

unfoldable pub pending_embedding_count : EmbeddingProfile → Tables → ℕ
pending_embedding_count profile t =
    length (filter (λ (p : PendingRow). p.profile_key == profile_key profile) t.embedding_pending)

module _ (F : Type 0) (is_finite : F → Bool) (sha256 : String → String) where
  unfoldable pub vector_id : EmbeddingProfile → String → String
  vector_id profile record_id =
      sha256 (text_append (profile_key profile) (text_append "\0" record_id))

  unfoldable pub validate_vector : EmbeddingProfile → List F → Result (Unit {0})
  validate_vector profile vector =
      raise_if (not (length vector == profile.dimensions))
        (value_error "vector has the wrong number of dimensions")
      >> raise_if (not (all is_finite vector)) (value_error "vector values must be finite")

  -- `_vector_table`
  unfoldable pub vector_table : ℕ → Result ℕ
  vector_table dimensions =
      raise_if (ltb dimensions 1 || ltb 65536 dimensions)
        (value_error "embedding dimensions must be between 1 and 65536")
      >> ok dimensions

  -- `_ensure_vector_table`
  unfoldable pub ensure_vector_table : Bool → EmbeddingProfile → Result ℕ
  ensure_vector_table available profile =
      raise_if (not available)
        (runtime_error "sqlite-vec is unavailable; install sqlite-vec to persist embeddings")
      >> vector_table profile.dimensions

  abbrev has_vector_id : ℕ → String → VectorRow F → Bool
  has_vector_id table key v = v.dimensions == table && v.vector_id == key

  unfoldable pub vector_row : ℕ → EmbeddingProfile → MemoryRecord → List F → VectorRow F
  vector_row table profile r vector = record {
    dimensions = table;
    vector_id = vector_id profile r.id;
    embedding = vector;
    profile_key = profile_key profile;
    namespace = text_append (kind_value r.kind) (text_append "|" (scope_value r.scope));
    memory_id = r.id;
    record_updated_at = r.updated_at;
  }

  -- `_upsert_vector_with_connection`
  unfoldable pub upsert_vector :
      Bool
      → EmbeddingProfile
      → MemoryRecord
      → List F
      → List (VectorRow F)
      → Result (List (VectorRow F))
  upsert_vector available profile r vector vectors = do
    _ ← validate_vector profile vector
    table ← ensure_vector_table available profile
    ok (
        filter (λ (v : VectorRow F). not (has_vector_id table (vector_id profile r.id) v)) vectors
        ++ vector_row table profile r vector ∷ [])

  -- the job of a record that is still at the version that was embedded
  unfoldable pub complete_current :
      Bool → CompletedEmbedding F → EmbeddingStore F → Result (ℕ × EmbeddingStore F)
  complete_current available item s =
      let pending = item.pending in
      let t = register_profile (some (profile_key pending.profile)) s.tables in
      let kept = filter (λ (p : PendingRow). not (is_done pending p)) t.embedding_pending in
      upsert_vector available pending.profile pending.subject item.vector s.vectors >>= λ vectors.
      ok (
        length (filter (is_done pending) t.embedding_pending),
        record { tables = record t { embedding_pending = kept }; vectors = vectors },
      )

  -- One round of the loop of `_complete_pending_embeddings_sync`.
  unfoldable pub complete_one :
      Bool → CompletedEmbedding F → EmbeddingStore F → Result (ℕ × EmbeddingStore F)
  complete_one available item s =
      let r = item.pending.subject in
      elim (find_row r.id s.tables.memories) [
        | none ↦ ok (0, s)
        | some row ↦
            if row.updated_at == r.updated_at then complete_current available item s else ok (0, s)
      ]

  -- `_complete_pending_embeddings_sync`: it raises before it commits.
  unfoldable pub complete_pending_embeddings :
      Bool → List (CompletedEmbedding F) → EmbeddingStore F → Result (ℕ × EmbeddingStore F)
  complete_pending_embeddings available [] s = ok (0, s)
  complete_pending_embeddings available (item ∷ items) s = do
    (count, s') ← complete_one available item s
    (more, s'') ← complete_pending_embeddings available items s'
    ok (count + more, s'')
