-- ===== src/Embeddings/Steps.antt =====
-- The transactions that touch the embedding queue of aoms/repositories/sqlite.py, in any order and
-- by any number of workers: the two stores that enqueue, an enqueueing of records as they are stored,
-- a claim, a completion and a failure.
use cortex_mem.Prelude.{
  ℕ, String, ◌≡◌, refl, inl, inr, Bool, Option, some, List, All, In, string_eq, nat_eq,
}
use cortex_mem.Errors.{ok}
use cortex_mem.Contracts.{MemoryRecord, content_eq}
use cortex_mem.Store.Rows.{Row, find_row}
use cortex_mem.Store.Database.{Tables, LedgerWrite}
use cortex_mem.Store.{store_many, Conditional, store_if_content_unchanged}
use cortex_mem.Embeddings.{EmbeddingProfile, profile_key}
use cortex_mem.Embeddings.Queue.{
  PendingEmbedding, CompletedEmbedding, EmbeddingStore, claim_pending_embeddings,
  enqueue_unembedded, complete_pending_embeddings,
}
use cortex_mem.Embeddings.Sweep.{fail_items}
use cortex_mem.Embeddings.Claims.{claim-eq}
use cortex_mem.Embeddings.Work.{HasJob-map, HasJob-fail, mark_claimed-KeepsJob, AllCovered}

-- The record is at the version that is stored under its id, if one is.
abbrev pub IsCurrent : Tables → MemoryRecord → Type 0
IsCurrent t r = (row : Row) → find_row r.id t.memories ≡ some row → row.updated_at ≡ r.updated_at

module _ (F : Type 0) (is_finite : F → Bool) (sha256 : String → String) (profile : EmbeddingProfile)
    (names : List String) where
  abbrev Everything : EmbeddingStore F → Type 0
  Everything = AllCovered F is_finite sha256 profile names

  abbrev key : String
  key = profile_key profile

  pub claim-Covered :
      (limit lease : ℕ) (token : String) (now : ℕ) (s : EmbeddingStore F)
      (items : List PendingEmbedding) (t' : Tables)
      → claim_pending_embeddings profile limit lease token now s.tables ≡ ok (items, t')
      → Everything s
      → Everything (record s { tables = t' }) × (t'.memories ≡ s.tables.memories)
  claim-Covered limit lease token now s items t' h covered =
      let (_, _, _, end) = claim-eq profile limit lease token now s.tables items t' h in
      rw end (
        λ id found k m. elim (covered id found k m) [
          | inl job ↦ inl (
              HasJob-map _ (mark_claimed-KeepsJob key _ token now) key s.tables.embedding_pending id
                found.updated_at job)
          | inr vector ↦ inr vector
        ],
        refl,
      )

  pub fail-Covered :
      (items : List PendingEmbedding) (error : String) (s : EmbeddingStore F)
      → Everything s
      → Everything (fail_items items error s)
  unfolding fail_items
  fail-Covered items error s covered id found k m = elim (covered id found k m) [
    | inl job ↦ inl (HasJob-fail items _ key s.tables.embedding_pending id found.updated_at job)
    | inr vector ↦ inr vector
  ]

-- A step of any worker on the queue of one profile.
pub data QueueStep (F : Type 0) (is_finite : F → Bool) (sha256 : String → String)
    (profile : EmbeddingProfile) (names : List String) (s : EmbeddingStore F)
    : EmbeddingStore F → Type 0 where
  store :
      (rs : List MemoryRecord) (only : Bool) (l : Option LedgerWrite) (now : ℕ) {t' : Tables}
      → store_many rs (some (profile_key profile)) only l now s.tables ≡ ok t'
      → QueueStep F is_finite sha256 profile names s (record s { tables = t' })
  store_if :
      (r : MemoryRecord) (l : Option LedgerWrite) (now : ℕ) {c : Conditional} {t' : Tables}
      → store_if_content_unchanged r (some (profile_key profile)) l now s.tables ≡ ok (c, t')
      → QueueStep F is_finite sha256 profile names s (record s { tables = t' })
  enqueue :
      (rs : List MemoryRecord) (now : ℕ)
      → All (IsCurrent s.tables) rs
      → QueueStep F is_finite sha256 profile names s
          (record s { tables = (enqueue_unembedded rs profile now s.tables).1 })
  claim :
      (limit lease : ℕ) (token : String) (now : ℕ) {items : List PendingEmbedding} {t' : Tables}
      → claim_pending_embeddings profile limit lease token now s.tables ≡ ok (items, t')
      → QueueStep F is_finite sha256 profile names s (record s { tables = t' })
  complete :
      (available : Bool) (items : List (CompletedEmbedding F)) {n : ℕ} {s' : EmbeddingStore F}
      → All
          (λ (item : CompletedEmbedding F).
            (item.pending.profile ≡ profile) × In item.pending.subject.id names)
          items
      → complete_pending_embeddings F is_finite sha256 available items s ≡ ok (n, s')
      → QueueStep F is_finite sha256 profile names s s'
  fail :
      (items : List PendingEmbedding) (error : String)
      → QueueStep F is_finite sha256 profile names s (fail_items items error s)

pub data Reach (F : Type 0) (is_finite : F → Bool) (sha256 : String → String)
    (profile : EmbeddingProfile) (names : List String) (s : EmbeddingStore F)
    : EmbeddingStore F → Type 0 where
  here : Reach F is_finite sha256 profile names s s
  next :
      {t u : EmbeddingStore F}
      → Reach F is_finite sha256 profile names s t
      → QueueStep F is_finite sha256 profile names t u
      → Reach F is_finite sha256 profile names s u
