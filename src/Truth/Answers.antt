-- ===== src/Truth/Answers.antt =====
-- How many answers a timeline of aoms/truth.py gives at one boundary.
use cortex_mem.Prelude.{
  ℕ, ◌≤◌, ◌<◌, ◌≡◌, ◌⊎◌, refl, ap, inl, inr, String, true, false, Option, none, some, List, [], ◌∷◌,
  arith, In, In-map, leb, Bool-cases, ltb, ltb→lt, leb→le,
}
use cortex_mem.Prelude.Order.{sorted, In-of_sorted}
use cortex_mem.Contracts.{MemoryRecord}
use cortex_mem.Truth.{TimelineVersion, record_order, timeline_version, reconstruct_timeline}
use cortex_mem.Truth.Timeline.{Succeeds, IsActive, reconstruct_timeline-IsActive}

-- Every record of the list is younger than the one that it succeeds.
abbrev pub IsForward : List MemoryRecord → Type 0
IsForward records =
    (r s : MemoryRecord) → In r records → In s records → Succeeds r s → r.created_at < s.created_at

-- The second record is reached from the first by declared successors in the list.
pub data Descends (records : List MemoryRecord) : MemoryRecord → MemoryRecord → Type 0 where
  direct : {r s : MemoryRecord} → In s records → Succeeds r s → Descends records r s
  later :
      {r s u : MemoryRecord}
      → In s records
      → Succeeds r s
      → Descends records s u
      → Descends records r u

module _ (records : List MemoryRecord) (forward : IsForward records) where
  Descends-younger :
      {r s : MemoryRecord} → In r records → Descends records r s → r.created_at < s.created_at
  Descends-younger {r} {s} m (direct k e) = forward r s m k e
  Descends-younger {r} {s = u} m (later {s = t} k e d) =
      omega (arith, forward r t m k e, Descends-younger k d)

  Descends-inactive :
      (as_of : Option ℕ) {r s : MemoryRecord}
      → IsActive records as_of r
      → IsActive records as_of s
      → Descends records r s
      → ⊥
  Descends-inactive none {r} {s} a b (direct k e) = a s k e
  Descends-inactive none a b (later {s = s} k e d) = a s k e
  Descends-inactive (some boundary) {r} {s} a b (direct k e) =
      absurd (omega (arith, a.1 s k e, b.0))
  Descends-inactive (some boundary) {r} {s = u} a b (later {s = t} k e d) =
      absurd (omega (arith, a.1 t k e, b.0, Descends-younger k d))

  -- Where successors are younger, a version that descends from an active one is not active: one
  -- line of successors has at most one answer.
  pub reconstruct_timeline-Descends :
      (anchor_id : String) (as_of : Option ℕ) (v w : TimelineVersion)
      → In v (reconstruct_timeline anchor_id records as_of).versions
      → In w (reconstruct_timeline anchor_id records as_of).versions
      → v.active_at_boundary ≡ true
      → Descends records v.subject w.subject
      → w.active_at_boundary ≡ false
  reconstruct_timeline-Descends anchor_id as_of v w m n a d =
      let active = (reconstruct_timeline-IsActive anchor_id records as_of).1 in
      elim (Bool-cases w.active_at_boundary) [
        | inl b ↦ absurd (Descends-inactive as_of ((active v m).0 a) ((active w n).0 b) d)
        | inr inactive ↦ inactive
      ]

-- The youngest of the records that exist at the boundary.
abbrev IsLatest : List MemoryRecord → ℕ → MemoryRecord → Type 0
IsLatest records boundary r =
    In r records
    × (r.created_at ≤ boundary)
    × ((s : MemoryRecord) → In s records → s.created_at ≤ boundary → s.created_at ≤ r.created_at)

IsLatest-cons :
    (boundary : ℕ) (x : MemoryRecord) (xs : List MemoryRecord)
    → ((s : MemoryRecord) → In s xs → boundary < s.created_at)
      ⊎ ((r : MemoryRecord) × IsLatest xs boundary r)
    → x.created_at ≤ boundary
    → (r : MemoryRecord) × IsLatest (x ∷ xs) boundary r
IsLatest-cons boundary x xs (inl none_yet) le = (x, (inl refl, le, most_x))
  where
    most_x :
        (s : MemoryRecord) → In s (x ∷ xs) → s.created_at ≤ boundary → s.created_at ≤ x.created_at
    most_x s (inl e) before = omega (arith, ap (λ (r : MemoryRecord). r.created_at) e)
    most_x s (inr l) before = absurd (omega (arith, none_yet s l))
IsLatest-cons boundary x xs (inr (r, (m, early, most))) le =
    elim (Bool-cases (leb x.created_at r.created_at)) [
      | inl older ↦ (r, (inr m, early, most_r (leb→le x.created_at r.created_at older)))
      | inr younger ↦ (x, (inl refl, le, most_x (ground arith)))
    ]
  where
    most_r :
        x.created_at ≤ r.created_at
        → (s : MemoryRecord) → In s (x ∷ xs)
        → s.created_at ≤ boundary
        → s.created_at ≤ r.created_at
    most_r older s (inl e) before = omega (arith, ap (λ (r : MemoryRecord). r.created_at) e)
    most_r older s (inr l) before = most s l before

    most_x :
        r.created_at ≤ x.created_at
        → (s : MemoryRecord) → In s (x ∷ xs)
        → s.created_at ≤ boundary
        → s.created_at ≤ x.created_at
    most_x younger s (inl e) before = omega (arith, ap (λ (r : MemoryRecord). r.created_at) e)
    most_x younger s (inr l) before = omega (arith, most s l before)

IsLatest-late :
    (boundary : ℕ) (x : MemoryRecord) (xs : List MemoryRecord)
    → ((s : MemoryRecord) → In s xs → boundary < s.created_at)
      ⊎ ((r : MemoryRecord) × IsLatest xs boundary r)
    → boundary < x.created_at
    → ((s : MemoryRecord) → In s (x ∷ xs) → boundary < s.created_at)
      ⊎ ((r : MemoryRecord) × IsLatest (x ∷ xs) boundary r)
IsLatest-late boundary x xs (inl none_yet) late = inl after
  where
    after : (s : MemoryRecord) → In s (x ∷ xs) → boundary < s.created_at
    after s (inl e) = rw e late
    after s (inr l) = none_yet s l
IsLatest-late boundary x xs (inr (r, (m, early, most))) late = inr (r, (inr m, early, most_r))
  where
    most_r :
        (s : MemoryRecord) → In s (x ∷ xs) → s.created_at ≤ boundary → s.created_at ≤ r.created_at
    most_r s (inl e) before = absurd (omega (arith, ap (λ (r : MemoryRecord). r.created_at) e))
    most_r s (inr l) before = most s l before

latest :
    (boundary : ℕ) (records : List MemoryRecord)
    → ((s : MemoryRecord) → In s records → boundary < s.created_at)
      ⊎ ((r : MemoryRecord) × IsLatest records boundary r)
latest boundary [] = inl (λ s m. absurd m)
latest boundary (x ∷ xs) = elim (Bool-cases (leb x.created_at boundary)) [
  | inl early ↦
      inr (IsLatest-cons boundary x xs (latest boundary xs) (leb→le x.created_at boundary early))
  | inr late ↦ IsLatest-late boundary x xs (latest boundary xs) (ground arith)
]

latest-IsActive :
    (records : List MemoryRecord) (boundary : ℕ) (r : MemoryRecord)
    → IsForward records
    → IsLatest records boundary r
    → IsActive records (some boundary) r
latest-IsActive records boundary r forward (m, le, most) = (
  le,
  λ s k e. elim (Bool-cases (ltb boundary s.created_at)) [
    | inl after ↦ ltb→lt boundary s.created_at after
    | inr before ↦ absurd (omega (arith, forward r s m k e, most s k (ground arith)))
  ],
)

-- A boundary at which some record exists has an active version, where successors are younger.
pub reconstruct_timeline-answers :
    (anchor_id : String) (records : List MemoryRecord) (boundary : ℕ) (r : MemoryRecord)
    → IsForward records
    → In r records
    → r.created_at ≤ boundary
    → (v : TimelineVersion) × In v (reconstruct_timeline anchor_id records (some boundary)).versions
      × (v.active_at_boundary ≡ true)
unfolding reconstruct_timeline timeline_version
reconstruct_timeline-answers anchor_id records boundary r forward m le =
    elim (latest boundary records) [
      | inl none_yet ↦ absurd (omega (arith, none_yet r m))
      | inr (s, l) ↦
          let materialized = sorted record_order records in
          let k : In (timeline_version (some boundary) materialized s)
              (reconstruct_timeline anchor_id records (some boundary)).versions =
            In-map (timeline_version (some boundary) materialized) s materialized
              (In-of_sorted record_order s records l.0) in
          (
            timeline_version (some boundary) materialized s,
            k,
            ((reconstruct_timeline-IsActive anchor_id records (some boundary)).1 _ k).1
                (latest-IsActive records boundary s forward l),
          )
    ]
