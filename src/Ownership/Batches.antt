-- ===== src/Ownership/Batches.antt =====
-- The loop of `assign_ownership` of aoms/ownership.py and the batches that it makes.
use cortex_mem.Prelude.{
  ℕ, zero, suc, ◌+◌, ◌≤◌, ◌<◌, ◌==◌, nat_eq, string_eq, String, Bool, true, false, ◌≡◌, refl, sym,
  ap, ◌∙◌, ◌⊎◌, inl, inr, some, List, [], ◌∷◌, arith, map, filter, take, Bool-cases, ltb, In,
  In-map, In-map_inv, In-filter, In-filter_of, ==_refl, ==→eq,
}
use cortex_mem.Errors.{ok}
use cortex_mem.Contracts.{user_global}
use cortex_mem.Store.Rows.{Row}
use cortex_mem.Prelude.Order.{str_order, sorted, In-sorted, In-of_sorted}
use cortex_mem.Ownership.{
  is_unscoped, assigned_row, count, selects, update_selected, assign_ids, assign_batch, assign_loop,
  assign_ownership, unscoped_records, OwnershipReport, report, outcome,
}

module _ (annotation : String) where
  assigned_row-scoped : (row : Row) → is_unscoped (assigned_row annotation row) ≡ false
  unfolding is_unscoped assigned_row
  assigned_row-scoped row = refl

  -- An update scopes the rows that it selects.
  count-update_selected :
      (key : String) (rows : List Row)
      → unscoped_records (update_selected annotation key rows) + count (selects key) rows
        ≡ unscoped_records rows
  unfolding count update_selected
  count-update_selected key [] = refl
  count-update_selected key (row ∷ rows) = elim (Bool-cases (selects key row)) [
    | inl chosen ↦
        let was : is_unscoped row ≡ true = unfold selects in ground arith in
        let now = assigned_row-scoped row in ground (arith, count-update_selected key rows)
    | inr other ↦ ground (arith, count-update_selected key rows)
  ]

  count-assign_ids :
      (keys : List String) (rows : List Row)
      → unscoped_records (assign_ids annotation keys rows).1 + (assign_ids annotation keys rows).0
        ≡ unscoped_records rows
  unfolding assign_ids
  count-assign_ids [] rows = omega arith
  count-assign_ids (key ∷ keys) rows = omega (
    arith,
    count-update_selected key rows,
    count-assign_ids keys (update_selected annotation key rows),
  )

count-some :
    {A : Type 0} (p : A → Bool) (xs : List A)
    → (count p xs ≡ 0) ⊎ ((a : A) × In a xs × (p a ≡ true))
unfolding count
count-some p [] = inl refl
count-some p (x ∷ xs) = elim (Bool-cases (p x)) [
  | inl here ↦ inr (x, inl refl, here)
  | inr not_here ↦ elim (count-some p xs) [
    | inl no_more ↦ inl (rw not_here no_more)
    | inr (a, m, h) ↦ inr (a, inr m, h)
  ]
]

count-In : {A : Type 0} (p : A → Bool) (a : A) (xs : List A) → In a xs → p a ≡ true → 1 ≤ count p xs
unfolding count
count-In p a [] m h = absurd m
count-In p a (x ∷ xs) m h = ground (arith, count-In p a xs)

-- the ids of which a batch takes the first
abbrev unscoped_ids : List Row → List String
unscoped_ids rows = sorted str_order (map (λ (row : Row). row.id) (filter is_unscoped rows))

module _ (annotation : String) where
  -- A batch that starts with an id assigns a row.
  first_assigned :
      (limit : ℕ) (rows : List Row) (key : String) (keys : List String)
      → 1 ≤ limit
      → In key (unscoped_ids rows)
      → 1 ≤ (assign_ids annotation (take limit (key ∷ keys)) rows).0
  unfolding assign_ids selects take
  first_assigned zero rows key keys le m = absurd (omega arith)
  first_assigned (suc limit) rows key keys le m =
      let (row, k, e) =
        In-map_inv (λ (row : Row). row.id) key (filter is_unscoped rows)
          (In-sorted str_order key _ m) in
      let (l, h) = In-filter is_unscoped row rows k in
      let named : (row.id == key) ≡ true = rw e (==_refl row.id) in
      let one : 1 ≤ count (selects key) rows =
        count-In (selects key) row rows l (ground (arith, named, h)) in
      omega arith

  -- Only a store without unscoped records gives an empty batch.
  assign_batch-empty :
      (limit : ℕ) (rows : List Row)
      → 1 ≤ limit
      → (assign_batch annotation limit rows).0 ≡ 0
      → unscoped_records rows ≡ 0
  unfolding assign_batch
  assign_batch-empty limit rows le nothing = elim (count-some is_unscoped rows) [
    | inl none_left ↦ none_left
    | inr (row, m, h) ↦ absurd (
        go row.id (unscoped_ids rows) refl (
          In-of_sorted str_order row.id _
            (In-map (λ (x : Row). x.id) row _ (In-filter_of is_unscoped row rows m h))))
  ]
    where
      go : (key : String) (ids : List String) → unscoped_ids rows ≡ ids → In key ids → ⊥
      go key [] e m = m
      go key (k ∷ ks) e m =
          let some_row : 1 ≤ (assign_ids annotation (take limit (k ∷ ks)) rows).0 =
            first_assigned limit rows k ks le (rw e (inl refl)) in
          let empty_batch : (assign_ids annotation (take limit (k ∷ ks)) rows).0 ≡ 0 =
            ap (λ (ids : List String). (assign_ids annotation (take limit ids) rows).0) (sym e)
            ∙ nothing in
          omega arith

  count-assign_batch :
      (limit : ℕ) (rows : List Row)
      → unscoped_records (assign_batch annotation limit rows).1
          + (assign_batch annotation limit rows).0
        ≡ unscoped_records rows
  unfolding assign_batch
  count-assign_batch limit rows = count-assign_ids annotation (take limit (unscoped_ids rows)) rows

  -- With more fuel than unscoped records, the loop assigns them all.
  assign_loop-total :
      (fuel batch_size assigned : ℕ) (rows : List Row)
      → 1 ≤ batch_size
      → unscoped_records rows < fuel
      → (rows' : List Row) × (assign_loop annotation fuel batch_size assigned rows
          ≡ some (assigned + unscoped_records rows, rows'))
        × (unscoped_records rows' ≡ 0)
  unfolding assign_loop
  assign_loop-total zero batch_size assigned rows le more = absurd (omega arith)
  assign_loop-total (suc fuel) batch_size assigned rows le more =
      let batch = assign_batch annotation batch_size rows in
      let kept = count-assign_batch batch_size rows in
      elim (Bool-cases (batch.0 == 0)) [
        | inl nothing ↦
            let none_left = assign_batch-empty batch_size rows le (==→eq batch.0 0 nothing) in
            let total : assigned ≡ assigned + unscoped_records rows = omega arith in
            (batch.1, rw nothing (ap (λ (n : ℕ). some (n, batch.1)) total), omega arith)
        | inr something ↦
            let progress : 1 ≤ batch.0 = ground arith in
            let (rows', returns, left) =
              assign_loop-total fuel batch_size (assigned + batch.0) batch.1 le (omega arith) in
            let total : assigned + batch.0 + unscoped_records batch.1
                ≡ assigned + unscoped_records rows =
              omega arith in
            (rows', rw something (returns ∙ ap (λ (n : ℕ). some (n, rows')) total), left)
      ]

  -- Executing an assignment ends: it reports each unscoped record assigned and none left, and none
  -- is left in the store, if the batch size is at least one.
  pub assign_ownership-total :
      (batch_size : ℕ) (rows : List Row)
      → 1 ≤ batch_size
      → (report : OwnershipReport) × (rows' : List Row) × (assign_ownership user_global false
            batch_size annotation rows
          ≡ ok (report, rows'))
        × (report.assigned_records ≡ unscoped_records rows)
        × (report.remaining_unscoped ≡ 0)
        × ((row : Row) → In row rows' → is_unscoped row ≡ false)
  unfolding assign_ownership
  assign_ownership-total batch_size rows le =
      let (rows', returns, left) =
        assign_loop-total (suc (unscoped_records rows)) batch_size 0 rows le (omega arith) in
      let all : 0 + unscoped_records rows ≡ unscoped_records rows = omega arith in
      let big : ltb batch_size 1 ≡ false = ground arith in
      (
        report false batch_size rows (unscoped_records rows, rows'),
        rows',
        rw big (ap (outcome batch_size rows) (returns ∙ ap (λ (n : ℕ). some (n, rows')) all)),
        refl,
        left,
        λ row m. elim (Bool-cases (is_unscoped row)) [
          | inl still ↦ let one = count-In is_unscoped row rows' m still in absurd (omega arith)
          | inr scoped ↦ scoped
        ],
      )
