-- ===== src/Embeddings/Work.antt =====
-- Records with a job in the queue or a vector of their version (aoms/repositories/sqlite.py).
use cortex_mem.Prelude.{
  ℕ, String, ◌≡◌, refl, ap, sym, ◌∙◌, ◌⊎◌, Bool, not, Option, none, some, List, [], ◌∷◌, map, arith,
  length, filter, In, In-map, string_eq, nat_eq, option_eq,
}
use cortex_mem.Errors.{ok, bind-returns, ok-inj}
use cortex_mem.Store.Rows.{Row, find_row}
use cortex_mem.Store.Database.{Tables, PendingRow, register_profile}
use cortex_mem.Store.Laws.{memories-register}
use cortex_mem.Embeddings.{EmbeddingProfile, profile_key}
use cortex_mem.Embeddings.Queue.{
  PendingEmbedding, CompletedEmbedding, VectorRow, EmbeddingStore, mark_claimed, release_failed,
  fail_pending_embeddings, is_done, vector_id, upsert_vector, complete_current,
}

-- a job for a version of a record
abbrev pub HasJob : String → List PendingRow → String → ℕ → Type 0
HasJob key queue id version =
    (p : PendingRow) × In p queue
    × ((p.profile_key ≡ key) × (p.record_id ≡ id) × (p.record_updated_at ≡ version))

-- What a change of a queue row leaves as it was.
abbrev pub KeepsJob : (PendingRow → PendingRow) → Type 0
KeepsJob f =
    (p : PendingRow)
    → ((f p).profile_key ≡ p.profile_key)
      × ((f p).record_id ≡ p.record_id)
      × ((f p).record_updated_at ≡ p.record_updated_at)

pub HasJob-map :
    (f : PendingRow → PendingRow)
    → KeepsJob f
    → (key : String) (queue : List PendingRow) (id : String) (version : ℕ)
    → HasJob key queue id version
    → HasJob key (map f queue) id version
HasJob-map f keeps key queue id version (p, m, (k, i, v)) =
    let (fk, fi, fv) = keeps p in (f p, In-map f p queue m, (fk ∙ k, fi ∙ i, fv ∙ v))

pub mark_claimed-KeepsJob :
    (key : String) (ids : List String) (token : String) (now : ℕ)
    → KeepsJob (mark_claimed key ids token now)
unfolding mark_claimed
mark_claimed-KeepsJob key ids token now p = ground arith

release_failed-KeepsJob : (item : PendingEmbedding) (e : String) → KeepsJob (release_failed item e)
unfolding release_failed
release_failed-KeepsJob item e p = ground arith

pub HasJob-fail :
    (items : List PendingEmbedding) (e : String) (key : String) (queue : List PendingRow)
    (id : String) (version : ℕ)
    → HasJob key queue id version
    → HasJob key (fail_pending_embeddings items e queue).1 id version
unfolding fail_pending_embeddings
HasJob-fail [] e key queue id version h = h
HasJob-fail (item ∷ items) e key queue id version h =
    HasJob-fail items e key (map (release_failed item e) queue) id version
      (HasJob-map _ (release_failed-KeepsJob item e) key queue id version h)

pub queue-register :
    (p : Option String) (t : Tables)
    → (register_profile p t).embedding_pending ≡ t.embedding_pending
unfolding register_profile
queue-register none t = refl
queue-register (some key) t = ground arith

module _ (F : Type 0) (is_finite : F → Bool) (sha256 : String → String) where
  -- what the completion of a current job writes, and the rows that it deletes
  pub complete_current-returns :
      (available : Bool) (item : CompletedEmbedding F) (s s' : EmbeddingStore F) (n : ℕ)
      → complete_current F is_finite sha256 available item s ≡ ok (n, s')
      → (s'.tables.memories ≡ s.tables.memories)
        × (s'.tables.embedding_pending
            ≡ filter (λ (p : PendingRow). not (is_done item.pending p)) s.tables.embedding_pending)
        × (upsert_vector F is_finite sha256 available item.pending.profile item.pending.subject
              item.vector s.vectors
            ≡ ok s'.vectors)
        × (n ≡ length (filter (is_done item.pending) s.tables.embedding_pending))
  unfolding complete_current
  complete_current-returns available item s s' n h =
      let key = some (profile_key item.pending.profile) in
      let (vectors', up, done) =
        bind-returns
          (upsert_vector F is_finite sha256 available item.pending.profile item.pending.subject
            item.vector s.vectors)
          _ h in
      let kept = λ (queue : List PendingRow).
        filter (λ (p : PendingRow). not (is_done item.pending p)) queue in
      let end : _ ≡ (n, s') = ok-inj done in
      (
        sym (ap (λ (x : ℕ × EmbeddingStore F). x.1.tables.memories) end)
            ∙ memories-register key s.tables,
        sym (ap (λ (x : ℕ × EmbeddingStore F). x.1.tables.embedding_pending) end)
            ∙ ap kept (queue-register key s.tables),
        up ∙ ap (λ (x : ℕ × EmbeddingStore F). ok x.1.vectors) end,
        sym (ap (λ (x : ℕ × EmbeddingStore F). x.0) end)
            ∙ ap (λ (queue : List PendingRow). length (filter (is_done item.pending) queue))
                (queue-register key s.tables),
      )

module _ (F : Type 0) (is_finite : F → Bool) (sha256 : String → String)
    (profile : EmbeddingProfile) where
  -- No two of the ids have vector ids with the same digest.
  abbrev pub NoCollision : List String → Type 0
  NoCollision names =
      (a b : String)
      → In a names
      → In b names
      → vector_id F is_finite sha256 profile a ≡ vector_id F is_finite sha256 profile b
      → a ≡ b

  abbrev pub HasVector : List (VectorRow F) → String → ℕ → Type 0
  HasVector vectors id version =
      (w : VectorRow F) × In w vectors
      × ((w.dimensions ≡ profile.dimensions)
          × (w.vector_id ≡ vector_id F is_finite sha256 profile id)
          × (w.record_updated_at ≡ version))

  abbrev pub IsCovered : EmbeddingStore F → String → ℕ → Type 0
  IsCovered s id version =
      HasJob (profile_key profile) s.tables.embedding_pending id version
      ⊎ HasVector s.vectors id version

  -- Every stored record of some ids is accounted for at its present version.
  abbrev pub AllCovered : List String → EmbeddingStore F → Type 0
  AllCovered names s =
      (id : String) (row : Row)
      → In id names
      → find_row id s.tables.memories ≡ some row
      → IsCovered s id row.updated_at
