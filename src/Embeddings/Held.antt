-- ===== src/Embeddings/Held.antt =====
-- A job that its worker holds, and what one operation of the queue does to it
-- (aoms/repositories/sqlite.py).
use cortex_mem.Prelude.{
  ℕ, ◌+◌, ◌≤◌, String, ◌≡◌, ap, sym, subst, ◌∙◌, inl, inr, ◌≢◌, Bool, true, false, Option, none,
  some, List, [], ◌∷◌, map, filter, arith, In, All, In-map, In-map_inv, In-filter, In-filter_of,
  In-append, In-append_left, contains, contains→In, any, ◌==◌, string_eq, option_eq, nat_eq, eq_iff,
  ==→eq, Bool-cases, some-inj,
}
use cortex_mem.Contracts.{MemoryRecord}
use cortex_mem.Store.Database.{
  Tables, PendingRow, queue_key, fresh_pending, enqueue_record, requeue,
}
use cortex_mem.Embeddings.Queue.{
  PendingEmbedding, is_claimable, lease_is_over, claimed_jobs, job_id, mark_claimed, release_failed,
  is_leased, fail_pending_embeddings,
}
use cortex_mem.Embeddings.Work.{HasJob, mark_claimed-KeepsJob}
use cortex_mem.Embeddings.Claims.{claimed_jobs-In}

-- a job of the queue: its profile's key, the id and the version of its record, and its lease
pub record Lease : Type 0 where
  pub key : String
  pub id : String
  pub version : ℕ
  pub token : String
  pub claimed_at : ℕ

-- The job stands, and its row is under the lease.
pub record IsHeld (l : Lease) (queue : List PendingRow) : Type 0 where
  pub stands : HasJob l.key queue l.id l.version
  pub only :
      (p : PendingRow)
      → In p queue
      → p.profile_key ≡ l.key
      → p.record_id ≡ l.id
      → (p.claim_token ≡ some l.token) × (p.claimed_at ≡ some l.claimed_at)

-- A change of rows that moves none to another job and leaves the leased one alone.
IsHeld-map :
    (l : Lease) (f : PendingRow → PendingRow) (queue : List PendingRow)
    → ((p : PendingRow) → ((f p).profile_key ≡ p.profile_key) × ((f p).record_id ≡ p.record_id))
    → ((p : PendingRow)
        → In p queue
        → p.profile_key ≡ l.key
        → p.record_id ≡ l.id
        → (p.claim_token ≡ some l.token) × (p.claimed_at ≡ some l.claimed_at)
        → f p ≡ p)
    → IsHeld l queue
    → IsHeld l (map f queue)
IsHeld-map l f queue keeps same held = record { stands = stands; only = only }
  where
    stands : HasJob l.key (map f queue) l.id l.version
    stands =
        let (p, m, (k, i, v)) = held.stands in
        (
          p,
          subst (λ q. In q (map f queue)) (same p m k i (held.only p m k i)) (In-map f p queue m),
          (k, i, v),
        )

    only :
        (q : PendingRow)
        → In q (map f queue)
        → q.profile_key ≡ l.key
        → q.record_id ≡ l.id
        → (q.claim_token ≡ some l.token) × (q.claimed_at ≡ some l.claimed_at)
    only q m k i =
        let (p, n, e) = In-map_inv f q queue m in
        let (fk, fi) = keeps p in
        let key = sym fk ∙ ap (λ (x : PendingRow). x.profile_key) (sym e) ∙ k in
        let id = sym fi ∙ ap (λ (x : PendingRow). x.record_id) (sym e) ∙ i in
        let lease = held.only p n key id in rw (e ∙ same p n key id lease) lease

-- A selection of rows that keeps the leased one.
pub IsHeld-filter :
    (l : Lease) (test : PendingRow → Bool) (queue : List PendingRow)
    → ((p : PendingRow) → p.claim_token ≡ some l.token → test p ≡ true)
    → IsHeld l queue
    → IsHeld l (filter test queue)
IsHeld-filter l test queue keeps held =
    let (p, m, (k, i, v)) = held.stands in
    record {
      stands = (p, In-filter_of test p queue m (keeps p (held.only p m k i).0), (k, i, v));
      only = λ q n. held.only q (In-filter test q queue n).0;
    }

-- While the lease lasts, no claim takes the job.
pub claim-skips :
    (l : Lease) (limit lease now : ℕ) (t : Tables) (job : PendingRow × MemoryRecord)
    → now ≤ l.claimed_at + lease
    → IsHeld l t.embedding_pending
    → In job (claimed_jobs l.key limit lease now t)
    → job_id job ≢ l.id
unfolding is_claimable
claim-skips l limit lease now t (p, r) soon held m same =
    let (n, free, _) = claimed_jobs-In l.key limit lease now t (p, r) m in
    let key = ==→eq p.profile_key l.key (ground arith) in
    let (_, at) = held.only p n key same in absurd (taken p.claimed_at at (ground arith))
  where
    taken :
        (claimed : Option ℕ)
        → claimed ≡ some l.claimed_at
        → lease_is_over lease now claimed ≡ true
        → ⊥
    taken none e over = cc
    taken (some at) e over = let same_at = some-inj e in ground arith

pub claim-IsHeld :
    (l : Lease) (limit lease now : ℕ) (token : String) (t : Tables)
    → now ≤ l.claimed_at + lease
    → IsHeld l t.embedding_pending
    → IsHeld l (
        map
          (mark_claimed l.key (map job_id (claimed_jobs l.key limit lease now t)) token now)
          t.embedding_pending)
unfolding mark_claimed
claim-IsHeld l limit lease now token t soon held =
    let ids = map job_id (claimed_jobs l.key limit lease now t) in
    IsHeld-map l (mark_claimed l.key ids token now) t.embedding_pending
      (λ p. let (k, i, _) = mark_claimed-KeepsJob l.key ids token now p in (k, i))
      (λ p m k i _. elim (Bool-cases (contains ids p.record_id)) [
        | inl taken ↦
            let (job, n, e) =
              In-map_inv job_id p.record_id (claimed_jobs l.key limit lease now t)
                (contains→In ids p.record_id taken) in
            absurd (claim-skips l limit lease now t job soon held n (sym e ∙ i))
        | inr free ↦ ground arith
      ])
      held

-- a claim for another profile
pub claim_elsewhere-IsHeld :
    (l : Lease) (key : String) (ids : List String) (token : String) (now : ℕ)
    (queue : List PendingRow)
    → key ≢ l.key
    → IsHeld l queue
    → IsHeld l (map (mark_claimed key ids token now) queue)
unfolding mark_claimed
claim_elsewhere-IsHeld l key ids token now queue other held =
    IsHeld-map l (mark_claimed key ids token now) queue
      (λ p. let (k, i, _) = mark_claimed-KeepsJob key ids token now p in (k, i))
      (λ p m k i _. ground (arith, eq_iff p.profile_key key)) held

-- the row of a lease under another token
pub other_token :
    (l : Lease) (item : PendingEmbedding) (p : PendingRow)
    → item.claim_token ≢ l.token
    → p.claim_token ≡ some l.token
    → is_leased item p ≡ false
other_token l item p other token =
    let differs : (some l.token == some item.claim_token) ≡ false =
      ground (arith, eq_iff l.token item.claim_token) in
    ground (arith, token, differs)

pub fail-IsHeld :
    (l : Lease) (items : List PendingEmbedding) (error : String) (queue : List PendingRow)
    → All (λ (item : PendingEmbedding). item.claim_token ≢ l.token) items
    → IsHeld l queue
    → IsHeld l (fail_pending_embeddings items error queue).1
unfolding fail_pending_embeddings release_failed
fail-IsHeld l [] error queue others held = held
fail-IsHeld l (item ∷ items) error queue others held =
    fail-IsHeld l items error (map (release_failed item error) queue) others.1 (
      IsHeld-map l (release_failed item error) queue (λ p. ground arith)
        (λ p m k i (token, at). ground (arith, other_token l item p others.0 token)) held)

pub enqueue-IsHeld :
    (l : Lease) (key : String) (r : MemoryRecord) (now : ℕ) (queue : List PendingRow)
    → r.id ≢ l.id
    → IsHeld l queue
    → IsHeld l (enqueue_record r key now queue)
unfolding enqueue_record requeue
enqueue-IsHeld l key r now queue other held = elim (Bool-cases (any (queue_key key r.id) queue)) [
  | inl found ↦ rw found (
      IsHeld-map l (requeue key r now) queue
        (λ p. ground (arith, eq_iff p.profile_key key, eq_iff p.record_id r.id))
        (λ p m k i _. ground (arith, eq_iff p.record_id r.id)) held)
  | inr new ↦ rw new (record {
    stands =
        let (p, m, e) = held.stands in
        (p, In-append_left p queue (fresh_pending key r now ∷ []) m, e);
    only = λ p m k i. elim (In-append p queue (fresh_pending key r now ∷ []) m) [
      | inl old ↦ held.only p old k i
      | inr (inl e) ↦ absurd (other (ap (λ (x : PendingRow). x.record_id) (sym e) ∙ i))
      | inr (inr none_left) ↦ absurd none_left
    ];
  })
]
