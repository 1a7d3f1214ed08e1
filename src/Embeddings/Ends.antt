-- ===== src/Embeddings/Ends.antt =====
-- `sweep_pending_embeddings` of aoms/embedding_jobs.py returns, and why it stops.
pub mod Loop
use cortex_mem.Prelude.{
  ℕ, zero, suc, ◌+◌, ◌*◌, ◌≤◌, ◌<◌, String, ◌≡◌, refl, ap, sym, subst, ◌∙◌, ◌⊎◌, inl, inr, Bool,
  true, false, not, ◌&&◌, Option, none, some, List, [], ◌∷◌, ◌++◌, map, arith, length, filter,
  is_empty, contains, In, In-filter, ◌==◌, string_eq, nat_eq, eq_iff, ==_refl, ==→eq, ltb,
  Bool-cases, Option-cases, some-inj, if◌then◌else◌,
}
use cortex_mem.Errors.{Error, Result, ok, raise, ◌>>=◌, bind-returns, ok-inj}
use cortex_mem.Contracts.{MemoryRecord}
use cortex_mem.Store.Rows.{Row, find_row}
use cortex_mem.Store.Database.{Tables, PendingRow}
use cortex_mem.Embeddings.{EmbeddingProfile, profile_key}
use cortex_mem.Embeddings.Queue.{
  PendingEmbedding, CompletedEmbedding, EmbeddingStore, is_claimable, lease_is_over, claimed_jobs,
  job_id, mark_claimed, pending_of, is_done, claim_pending_embeddings, fail_pending_embeddings,
  complete_current, complete_one, complete_pending_embeddings,
}
use cortex_mem.Embeddings.Sweep.{
  EmbeddingSweepResult, no_work, plus, Worker, below_limit, completed_items, missing_items,
  fail_items, embed_batch, abandon, complete, settle, answered, run_batch, claim_at, sweep_loop,
}
use cortex_mem.Embeddings.Work.{complete_current-returns}
use cortex_mem.Embeddings.Claims.{claim-eq, claimed_jobs-In}

length-filter-filter :
    {A : Type 0} (p q : A → Bool) (xs : List A)
    → length (filter p (filter q xs)) ≤ length (filter p xs)
unfolding filter
length-filter-filter p q [] = omega arith
length-filter-filter p q (x ∷ xs) = ground (arith, length-filter-filter p q xs)

length-filter-map :
    {A : Type 0} (p : A → Bool) (f : A → A) (xs : List A)
    → ((x : A) → p (f x) ≡ true → p x ≡ true)
    → length (filter p (map f xs)) ≤ length (filter p xs)
unfolding filter
length-filter-map p f [] h = omega arith
length-filter-map p f (x ∷ xs) h = ground (arith, h x, length-filter-map p f xs h)

length-filter-map_lt :
    {A : Type 0} (p : A → Bool) (f : A → A) (xs : List A) (a : A)
    → ((x : A) → p (f x) ≡ true → p x ≡ true)
    → In a xs
    → p a ≡ true
    → p (f a) ≡ false
    → length (filter p (map f xs)) < length (filter p xs)
unfolding filter
length-filter-map_lt p f [] a h m now later = absurd m
length-filter-map_lt p f (x ∷ xs) a h (inl e) now later =
    let now_x : p x ≡ true = rw (sym e) now in
    let later_x : p (f x) ≡ false = rw (sym e) later in ground (arith, length-filter-map p f xs h)
length-filter-map_lt p f (x ∷ xs) a h (inr m) now later =
    ground (arith, h x, length-filter-map_lt p f xs a h m now later)

-- the jobs of a profile that are free at some time
abbrev pub free_jobs : String → ℕ → ℕ → Tables → ℕ
free_jobs key lease time t = length (filter (is_claimable key lease time) t.embedding_pending)

mark-free :
    (key : String) (ids : List String) (token : String) (lease now time : ℕ)
    → time ≤ now + lease
    → (p : PendingRow) → is_claimable key lease time (mark_claimed key ids token now p) ≡ true
    → is_claimable key lease time p ≡ true
unfolding is_claimable mark_claimed
mark-free key ids token lease now time soon p h = ground arith

claimable-later :
    (key : String) (lease now time : ℕ) (p : PendingRow)
    → now ≤ time
    → is_claimable key lease now p ≡ true
    → is_claimable key lease time p ≡ true
unfolding is_claimable
claimable-later key lease now time p before h = ground arith

marked-held :
    (key id : String) (ids : List String) (token : String) (lease now time : ℕ) (p : PendingRow)
    → time ≤ now + lease
    → p.record_id ≡ id
    → is_claimable key lease now p ≡ true
    → is_claimable key lease time (mark_claimed key (id ∷ ids) token now p) ≡ false
unfolding is_claimable mark_claimed contains
marked-held key id ids token lease now time p soon e h = ground (arith, eq_iff p.record_id id)

-- A claim that takes a job leaves fewer of them free, as long as no lease of its own runs out.
pub claim-free :
    (key : String) (limit lease now time : ℕ) (token : String) (t : Tables)
    (job : PendingRow × MemoryRecord) (jobs : List (PendingRow × MemoryRecord))
    → now ≤ time
    → time ≤ now + lease
    → claimed_jobs key limit lease now t ≡ job ∷ jobs
    → length (
        filter
          (is_claimable key lease time)
          (map (mark_claimed key (map job_id (job ∷ jobs)) token now) t.embedding_pending))
      < free_jobs key lease time t
claim-free key limit lease now time token t (p, r) jobs before soon e =
    let (m, claimable, _) =
      claimed_jobs-In key limit lease now t (p, r) (subst (In (p, r)) (sym e) (inl refl)) in
    length-filter-map_lt (is_claimable key lease time) _ t.embedding_pending p
      (mark-free key _ token lease now time soon) m
      (claimable-later key lease now time p before claimable)
      (marked-held key p.record_id (map job_id jobs) token lease now time p soon refl claimable)

module _ {F : Type 0} (is_finite : F → Bool) (sha256 : String → String) (key : String)
    (lease time : ℕ) where
  abbrev free : EmbeddingStore F → ℕ
  free s = free_jobs key lease time s.tables

  complete_one-free :
      (available : Bool) (item : CompletedEmbedding F) (s s' : EmbeddingStore F) (n : ℕ)
      → complete_one F is_finite sha256 available item s ≡ ok (n, s')
      → free s' ≤ free s
  unfolding complete_one
  complete_one-free available item s s' n h =
      elim (Option-cases (find_row item.pending.subject.id s.tables.memories)) [
        | inl e ↦ same (ok-inj (rw (e, complete_one) at h))
        | inr (row, e) ↦
            let h' = rw (e, complete_one) at h in
            elim (Bool-cases (row.updated_at == item.pending.subject.updated_at)) [
              | inl current ↦
                  let (_, queue, _, _) =
                    complete_current-returns F is_finite sha256 available item s s' n
                      (rw current at h') in
                  rw queue (
                    length-filter-filter (is_claimable key lease time) _ s.tables.embedding_pending)
              | inr stale ↦ same (ok-inj (rw stale at h'))
            ]
      ]
    where
      same : ◌≡◌ {A = ℕ × EmbeddingStore F} (0, s) (n, s') → free s' ≤ free s
      same e = let k = ap (λ (x : ℕ × EmbeddingStore F). free x.1) e in omega (arith, k)

  complete-free :
      (available : Bool) (items : List (CompletedEmbedding F)) (s s' : EmbeddingStore F) (n : ℕ)
      → complete_pending_embeddings F is_finite sha256 available items s ≡ ok (n, s')
      → free s' ≤ free s
  unfolding complete_pending_embeddings
  complete-free available [] s s' n h =
      let k = ap (λ (x : ℕ × EmbeddingStore F). free x.1) (ok-inj h) in omega (arith, k)
  complete-free available (item ∷ items) s s' n h =
      let ((count, t), first, more) =
        bind-returns (complete_one F is_finite sha256 available item s) _ h in
      let ((count', u), rest, done) =
        bind-returns (complete_pending_embeddings F is_finite sha256 available items t) _ more in
      let k = ap (λ (x : ℕ × EmbeddingStore F). free x.1) (ok-inj done) in
      omega (
        arith,
        k,
        complete_one-free available item s t count first,
        complete-free available items t u count' rest,
      )

-- A batch counts itself, and either it failed for some item or the loop goes on with no job more.
pub record IsBatch {F : Type 0} (key : String) (lease time : ℕ) (s : EmbeddingStore F)
    (outcome : EmbeddingSweepResult × Bool × EmbeddingStore F) : Type 0 where
  pub one : outcome.0.batches ≡ 1
  pub stops : outcome.1 ≡ true → 1 ≤ outcome.0.failed
  pub goes_on :
      outcome.1 ≡ false
      → free_jobs key lease time outcome.2.tables ≤ free_jobs key lease time s.tables

module _ {F : Type 0} (worker : Worker F) (key : String) (lease time : ℕ) (item : PendingEmbedding)
    (items : List PendingEmbedding) (s : EmbeddingStore F) where
  abandon-IsBatch : (e : Error) → IsBatch key lease time s (abandon worker (item ∷ items) e s)
  unfolding abandon
  abandon-IsBatch e = record { one = refl; stops = λ _. omega arith; goes_on = λ go. cc }

  nothing_missing :
      (missing : List PendingEmbedding) (error : String) (t : EmbeddingStore F)
      → not (is_empty missing) ≡ false
      → (length missing ≡ 0)
        × (free_jobs key lease time (fail_items missing error t).tables
            ≡ free_jobs key lease time t.tables)
  unfolding fail_items fail_pending_embeddings
  nothing_missing [] error t h = (refl, refl)
  nothing_missing (_ ∷ missing) error t h = cc

  some_missing :
      (missing : List PendingEmbedding) → not (is_empty missing) ≡ true → 1 ≤ length missing
  some_missing [] h = cc
  some_missing (_ ∷ missing) h = omega arith

  settle-IsBatch :
      (vectors : List (Option (List F))) (answer : Result (ℕ × EmbeddingStore F))
      → complete worker (completed_items (item ∷ items) vectors) s ≡ answer
      → IsBatch key lease time s (settle worker (item ∷ items) vectors s answer)
  unfolding settle
  settle-IsBatch vectors (raise e) h = abandon-IsBatch e
  settle-IsBatch vectors (ok (embedded, s')) h =
      let missing = missing_items (item ∷ items) vectors in
      record {
        one = refl;
        stops = some_missing missing;
        goes_on = λ go.
            let (_, same) = nothing_missing missing "embedding provider returned no vector" s' go in
            let fewer =
              complete-free worker.is_finite worker.sha256 key lease time
                worker.sqlite_vec_available (completed_items (item ∷ items) vectors) s s' embedded
                h in
            omega (arith, same, fewer);
      }

  answered-IsBatch :
      (answer : Result (List (Option (List F))))
      → IsBatch key lease time s (answered worker (item ∷ items) s answer)
  unfolding answered
  answered-IsBatch (raise e) = abandon-IsBatch e
  answered-IsBatch (ok vectors) = settle-IsBatch vectors _ refl

  pub run_batch-IsBatch :
      (batch : ℕ) → IsBatch key lease time s (run_batch worker batch (item ∷ items) s)
  unfolding run_batch
  run_batch-IsBatch batch = answered-IsBatch (embed_batch worker batch (item ∷ items))
