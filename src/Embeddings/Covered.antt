-- ===== src/Embeddings/Covered.antt =====
-- Which records the queue or the vectors of aoms/repositories/sqlite.py account for: an embedding
-- job of the record's version stands, or a vector of that version.
use cortex_mem.Prelude.{
  ℕ, String, ◌≡◌, refl, ap, sym, subst, ◌∙◌, ◌⊎◌, inl, inr, ◌≢◌, Bool, true, not, ◌&&◌, some, List,
  [], ◌∷◌, ◌++◌, arith, filter, All, In, In-filter_of, In-append_left, In-append_right, ◌==◌,
  string_eq, nat_eq, option_eq, ==→eq, eq_iff, nat_beq_iff, Bool-cases, Option-cases, some-inj,
}
use cortex_mem.Errors.{Result, ok, bind-returns, ok-inj}
use cortex_mem.Contracts.{MemoryRecord}
use cortex_mem.Store.Rows.{Row, find_row}
use cortex_mem.Store.Database.{PendingRow}
use cortex_mem.Embeddings.{EmbeddingProfile, profile_key}
use cortex_mem.Embeddings.Queue.{
  PendingEmbedding, CompletedEmbedding, VectorRow, EmbeddingStore, is_done, vector_id, vector_row,
  upsert_vector, validate_vector, ensure_vector_table, vector_table, complete_current, complete_one,
  complete_pending_embeddings,
}
use cortex_mem.Embeddings.Work.{
  HasJob, complete_current-returns, HasVector, IsCovered, AllCovered, NoCollision,
}

module _ (F : Type 0) (is_finite : F → Bool) (sha256 : String → String) (profile : EmbeddingProfile)
    (names : List String) (apart : NoCollision F is_finite sha256 profile names) where
  abbrev own_id : String → String
  own_id = vector_id F is_finite sha256 profile

  abbrev Covered : EmbeddingStore F → String → ℕ → Type 0
  Covered = IsCovered F is_finite sha256 profile

  abbrev is_other : MemoryRecord → VectorRow F → Bool
  is_other r w = not (w.dimensions == profile.dimensions && w.vector_id == own_id r.id)

  abbrev own_row : MemoryRecord → List F → VectorRow F
  own_row r v = vector_row F is_finite sha256 profile.dimensions profile r v

  upsert-ok :
      (available : Bool) (r : MemoryRecord) (v : List F) (vectors vectors' : List (VectorRow F))
      → upsert_vector F is_finite sha256 available profile r v vectors ≡ ok vectors'
      → vectors' ≡ filter (is_other r) vectors ++ own_row r v ∷ []
  unfolding upsert_vector validate_vector ensure_vector_table vector_table
  upsert-ok available r v vectors vectors' h = ground arith

  is_other-lem :
      (r : MemoryRecord) (w : VectorRow F) (id : String)
      → In id names
      → In r.id names
      → w.vector_id ≡ own_id id
      → id ≢ r.id
      → is_other r w ≡ true
  is_other-lem r w id m n own ne =
      ground (arith, eq_iff w.vector_id (own_id r.id), apart id r.id m n)

  -- The upsert gives the record a vector of its version, and takes no other record's away.
  upsert-HasVector :
      (r : MemoryRecord) (v : List F) (vectors : List (VectorRow F)) (id : String) (version : ℕ)
      → In id names
      → In r.id names
      → (id ≡ r.id) × (version ≡ r.updated_at)
        ⊎ (id ≢ r.id) × HasVector F is_finite sha256 profile vectors id version
      → HasVector F is_finite sha256 profile
          (filter (is_other r) vectors ++ own_row r v ∷ [])
          id
          version
  unfolding vector_row
  upsert-HasVector r v vectors id version _ _ (inl (i, u)) = (
    own_row r v,
    In-append_right (own_row r v) (filter (is_other r) vectors) (own_row r v ∷ []) (inl refl),
    (refl, ap own_id (sym i), sym u),
  )
  upsert-HasVector r v vectors id version k n (inr (ne, (w, m, (d, own, u)))) = (
    w,
    In-append_left w (filter (is_other r) vectors) (own_row r v ∷ [])
        (In-filter_of (is_other r) w vectors m (is_other-lem r w id k n own ne)),
    (d, own, u),
  )

  -- Completing a job leaves every other job in the queue.
  done_job :
      (item : PendingEmbedding) (queue : List PendingRow) (id : String) (version : ℕ)
      → HasJob (profile_key profile) queue id version
      → (id ≡ item.subject.id) × (version ≡ item.subject.updated_at)
        ⊎ HasJob
            (profile_key profile)
            (filter (λ (p : PendingRow). not (is_done item p)) queue)
            id
            version
  done_job item queue id version (p, m, (k, i, u)) = elim (Bool-cases (is_done item p)) [
    | inl done ↦ inl (
        ground (
          arith,
          eq_iff p.record_id item.subject.id,
          nat_beq_iff p.record_updated_at item.subject.updated_at,
        ))
    | inr open_job ↦ inr (
      p,
      In-filter_of (λ (p : PendingRow). not (is_done item p)) p queue m (ap not open_job),
      (k, i, u),
    )
  ]

  abbrev Everything : EmbeddingStore F → Type 0
  Everything = AllCovered F is_finite sha256 profile names

  -- a version of a record, after the job of another or of the same
  after_job :
      (item : CompletedEmbedding F) (s : EmbeddingStore F) (id : String) (version : ℕ)
      → In id names
      → In item.pending.subject.id names
      → (id ≡ item.pending.subject.id → version ≡ item.pending.subject.updated_at)
      → Covered s id version
      → HasJob
          (profile_key profile)
          (filter (λ (p : PendingRow). not (is_done item.pending p)) s.tables.embedding_pending)
          id
          version
        ⊎ HasVector F is_finite sha256 profile
            (filter (is_other item.pending.subject) s.vectors
              ++ own_row item.pending.subject item.vector ∷ [])
            id
            version
  after_job item s id version k n current covered =
      let r = item.pending.subject in
      elim (Bool-cases (id == r.id)) [
        | inl same ↦
            let i = ==→eq id r.id same in
            inr (upsert-HasVector r item.vector s.vectors id version k n (inl (i, current i)))
        | inr other ↦
            let ne : id ≢ r.id = λ i. ground (arith, eq_iff id r.id, i) in
            elim covered [
              | inl job ↦ elim (done_job item.pending s.tables.embedding_pending id version job) [
                | inl (i, u) ↦ absurd (ne i)
                | inr kept ↦ inl kept
              ]
              | inr vector ↦
                  inr (upsert-HasVector r item.vector s.vectors id version k n (inr (ne, vector)))
            ]
      ]

  -- the state after a completed job
  complete_current-eq :
      (available : Bool) (item : CompletedEmbedding F) (s s' : EmbeddingStore F) (n : ℕ)
      → item.pending.profile ≡ profile
      → complete_current F is_finite sha256 available item s ≡ ok (n, s')
      → (s'.tables.memories ≡ s.tables.memories)
        × (s'.tables.embedding_pending
            ≡ filter (λ (p : PendingRow). not (is_done item.pending p)) s.tables.embedding_pending)
        × (s'.vectors
            ≡ filter (is_other item.pending.subject) s.vectors
              ++ own_row item.pending.subject item.vector ∷ [])
  complete_current-eq available item s s' n own h =
      let (memories, queue, up, _) =
        complete_current-returns F is_finite sha256 available item s s' n h in
      (
        memories,
        queue,
        upsert-ok available item.pending.subject item.vector s.vectors s'.vectors (
            subst
              (λ p.
                upsert_vector F is_finite sha256 available p item.pending.subject item.vector
                  s.vectors
                ≡ ok s'.vectors)
              own up),
      )

  unchanged :
      (s s' : EmbeddingStore F) (n : ℕ)
      → ◌≡◌ {A = Result (ℕ × EmbeddingStore F)} (ok (0, s)) (ok (n, s'))
      → Everything s
      → Everything s' × (s'.tables.memories ≡ s.tables.memories)
  unchanged s s' n h covered =
      let e : s ≡ s' = ap (λ (x : ℕ × EmbeddingStore F). x.1) (ok-inj h) in
      subst (λ (x : EmbeddingStore F). Everything x × (x.tables.memories ≡ s.tables.memories)) e
        (covered, refl)

  complete_one-Covered :
      (available : Bool) (item : CompletedEmbedding F) (s s' : EmbeddingStore F) (n : ℕ)
      → item.pending.profile ≡ profile
      → In item.pending.subject.id names
      → complete_one F is_finite sha256 available item s ≡ ok (n, s')
      → Everything s
      → Everything s' × (s'.tables.memories ≡ s.tables.memories)
  unfolding complete_one
  complete_one-Covered available item s s' n own named h covered =
      let r = item.pending.subject in
      elim (Option-cases (find_row r.id s.tables.memories)) [
        | inl e ↦ unchanged s s' n (rw (e, complete_one) at h) covered
        | inr (row, e) ↦
            let h' = rw (e, complete_one) at h in
            elim (Bool-cases (row.updated_at == r.updated_at)) [
              | inl current ↦
                  let (same_memories, queue, vectors) =
                    complete_current-eq available item s s' n own (rw current at h') in
                  (
                    λ id found k m.
                        let before : find_row id s.tables.memories ≡ some found =
                          rw same_memories at m in
                        rw (queue, vectors)
                          (after_job item s id found.updated_at k named
                            (λ i.
                              version r id row found e before i
                                (==→eq row.updated_at r.updated_at current))
                            (covered id found k before)),
                    same_memories,
                  )
              | inr stale ↦ unchanged s s' n (rw stale at h') covered
            ]
      ]
    where
      version :
          (r : MemoryRecord) (id : String) (row found : Row)
          → find_row r.id s.tables.memories ≡ some row
          → find_row id s.tables.memories ≡ some found
          → id ≡ r.id
          → row.updated_at ≡ r.updated_at
          → found.updated_at ≡ r.updated_at
      version r id row found e m i u =
          let same : found ≡ row =
            some-inj (sym m ∙ ap (λ x. find_row x s.tables.memories) i ∙ e) in
          ap (λ (x : Row). x.updated_at) same ∙ u

  pub complete-Covered :
      (available : Bool) (items : List (CompletedEmbedding F)) (s s' : EmbeddingStore F) (n : ℕ)
      → All
          (λ (item : CompletedEmbedding F).
            (item.pending.profile ≡ profile) × In item.pending.subject.id names)
          items
      → complete_pending_embeddings F is_finite sha256 available items s ≡ ok (n, s')
      → Everything s
      → Everything s' × (s'.tables.memories ≡ s.tables.memories)
  unfolding complete_pending_embeddings
  complete-Covered available [] s s' n own h covered = unchanged s s' n h covered
  complete-Covered available (item ∷ items) s s' n own h covered =
      let ((count, t), first, more) =
        bind-returns (complete_one F is_finite sha256 available item s) _ h in
      let ((count', u), rest, done) =
        bind-returns (complete_pending_embeddings F is_finite sha256 available items t) _ more in
      let (c, same) = complete_one-Covered available item s t count own.0.0 own.0.1 first covered in
      let (d, same') = complete-Covered available items t u count' own.1 rest c in
      let e : u ≡ s' = ap (λ (x : ℕ × EmbeddingStore F). x.1) (ok-inj done) in
      subst (λ (x : EmbeddingStore F). Everything x × (x.tables.memories ≡ s.tables.memories)) e
        (d, same' ∙ same)
