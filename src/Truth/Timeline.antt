-- ===== src/Truth/Timeline.antt =====
-- Which versions `reconstruct_timeline` of aoms/truth.py calls active.
use mathlib.Core.List.{Perm}
use cortex_mem.Prelude.{
  ℕ, ◌≤◌, ◌<◌, ◌≡◌, ◌↔◌, refl, ap, inl, inr, string_eq, option_eq, ==→eq, ==_refl, String, true,
  Option, none, some, List, [], ◌∷◌, arith, map, In, In-filter, In-filter_of, In-map_inv,
}
use cortex_mem.Prelude.Order.{
  Order, Below, IsSorted, sorted, sorted-IsSorted, sorted-perm, In-sorted, In-of_sorted,
}
use cortex_mem.Contracts.{MemoryRecord}
use cortex_mem.Truth.{
  TimelineVersion, record_order, successors, direct_successors, first_created, active_at, is_open,
  is_before, timeline_version, reconstruct_timeline,
}

abbrev pub Succeeds : MemoryRecord → MemoryRecord → Type 0
Succeeds r s = s.supersedes ≡ some r.id

-- At a boundary the record exists and nothing that succeeds it does; without one, nothing succeeds it.
abbrev pub IsActive : List MemoryRecord → Option ℕ → MemoryRecord → Type 0
IsActive records none r = (s : MemoryRecord) → In s records → Succeeds r s → ⊥
IsActive records (some boundary) r =
    (r.created_at ≤ boundary)
    × ((s : MemoryRecord) → In s records → Succeeds r s → boundary < s.created_at)

In-Below :
    {A : Type 0} (o : Order A) (a x : A) (xs : List A) → Below o a xs → In x xs → o.leq a x ≡ true
In-Below o a x [] b m = absurd m
In-Below o a x (y ∷ ys) b (inl e) = rw e b.0
In-Below o a x (y ∷ ys) b (inr m) = In-Below o a x ys b.1 m

In-successors :
    (records : List MemoryRecord) (r s : MemoryRecord)
    → In s (direct_successors (sorted record_order records) r) ↔ (In s records × Succeeds r s)
unfolding direct_successors successors
In-successors records r s = (
  λ m.
      let k = In-sorted record_order s _ m in
      let (l, e) = In-filter _ s (sorted record_order records) k in
      (In-sorted record_order s records l, ==→eq s.supersedes (some r.id) e),
  λ (m, e). In-of_sorted record_order s _ (
      In-filter_of _ s (sorted record_order records) (In-of_sorted record_order s records m)
        (rw e (==_refl (some r.id)))),
)

-- Every direct successor is as young as the first.
first_created-le :
    (rs : List MemoryRecord) (s : MemoryRecord) (n : ℕ)
    → IsSorted record_order rs
    → first_created rs ≡ some n
    → In s rs
    → n ≤ s.created_at
unfolding first_created
first_created-le [] s n sorted_rs e m = absurd m
first_created-le (r ∷ rs) s n sorted_rs e (inl same) =
    let n_first : r.created_at ≡ n = ground arith in rw same (omega (arith, n_first))
first_created-le (r ∷ rs) s n sorted_rs e (inr m) =
    let n_first : r.created_at ≡ n = ground arith in
    let below = In-Below record_order r s rs sorted_rs.0 m in ground arith

is_open-lem :
    (rs : List MemoryRecord)
    → (is_open (first_created rs) ≡ true) ↔ ((s : MemoryRecord) → In s rs → ⊥)
unfolding first_created
is_open-lem [] = (λ _ s m. m, λ _. refl)
is_open-lem (r ∷ rs) = (λ e s m. absurd (ground arith), λ no. absurd (no r (inl refl)))

is_before-lem :
    (boundary : ℕ) (rs : List MemoryRecord)
    → IsSorted record_order rs
    → (is_before boundary (first_created rs) ≡ true)
      ↔ ((s : MemoryRecord) → In s rs → boundary < s.created_at)
unfolding first_created is_before
is_before-lem boundary [] o = (λ _ s m. absurd m, λ _. refl)
is_before-lem boundary (r ∷ rs) o = (
  λ e s m. let le = first_created-le (r ∷ rs) s r.created_at o refl m in ground arith,
  λ all. let first = all r (inl refl) in ground arith,
)

-- What holds of each direct successor holds of each record that succeeds.
each_successor :
    (records : List MemoryRecord) (r : MemoryRecord) (P : MemoryRecord → Type 0)
    → ((s : MemoryRecord) → In s (direct_successors (sorted record_order records) r) → P s)
      ↔ ((s : MemoryRecord) → In s records → Succeeds r s → P s)
each_successor records r P = (
  λ f s m e. f s ((In-successors records r s).1 (m, e)),
  λ f s m. let (k, e) = (In-successors records r s).0 m in f s k e,
)

active_at-IsActive :
    (records : List MemoryRecord) (as_of : Option ℕ) (r : MemoryRecord)
    → (active_at as_of r.created_at
          (first_created (direct_successors (sorted record_order records) r))
        ≡ true)
      ↔ IsActive records as_of r
unfolding active_at direct_successors
active_at-IsActive records none r =
    let (f, g) = is_open-lem (direct_successors (sorted record_order records) r) in
    let (h, k) = each_successor records r (λ s. ⊥) in (λ e. h (f e), λ a. g (k a))
active_at-IsActive records (some boundary) r =
    let (f, g) =
      is_before-lem boundary (direct_successors (sorted record_order records) r)
        (sorted-IsSorted record_order _) in
    let (h, k) = each_successor records r (λ s. boundary < s.created_at) in
    (λ e. (ground arith, h (f (ground arith))), λ (le, a). let before = g (k a) in ground arith)

subjects :
    (as_of : Option ℕ) (materialized records : List MemoryRecord)
    → map (λ (v : TimelineVersion). v.subject) (map (timeline_version as_of materialized) records)
      ≡ records
unfolding timeline_version
subjects as_of materialized [] = refl
subjects as_of materialized (r ∷ rs) = ap (◌∷◌ r) (subjects as_of materialized rs)

-- The versions are the records, each once, by age; and a version is active exactly if its record
-- exists at the boundary and nothing that declares it as predecessor does.
pub reconstruct_timeline-IsActive :
    (anchor_id : String) (records : List MemoryRecord) (as_of : Option ℕ)
    → Perm
        (map
          (λ (v : TimelineVersion). v.subject)
          (reconstruct_timeline anchor_id records as_of).versions)
        records
      × ((v : TimelineVersion)
          → In v (reconstruct_timeline anchor_id records as_of).versions
          → (v.active_at_boundary ≡ true) ↔ IsActive records as_of v.subject)
unfolding reconstruct_timeline timeline_version
reconstruct_timeline-IsActive anchor_id records as_of = (
  rw (subjects as_of (sorted record_order records) (sorted record_order records))
      (sorted-perm record_order records),
  λ v m.
      let (r, k, e) = In-map_inv _ v (sorted record_order records) m in
      rw e (active_at-IsActive records as_of r),
)
