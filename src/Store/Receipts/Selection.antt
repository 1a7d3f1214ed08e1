-- ===== src/Store/Receipts/Selection.antt =====
-- The subquery of receipt retention of aoms/repositories/sqlite.py as a prefix of the ordered rows.
use cortex_mem.Prelude.{
  ℕ, zero, suc, ◌+◌, ◌≤◌, ◌<◌, ◌≡◌, ◌⊎◌, refl, inl, inr, string_eq, nat_eq, List, [], ◌∷◌, arith,
  leb, leb→le, Bool-cases, length, take,
}
use cortex_mem.Store.Receipts.{ReceiptRow, selected, total_bytes}

module _ (limit byte_budget : ℕ) where
  -- within both bounds, or a single row
  abbrev pub Fits : List ReceiptRow → ℕ → Type 0
  Fits ordered n = (n ≤ limit) × ((total_bytes (take n ordered) ≤ byte_budget) ⊎ (n ≤ 1))

  selected_late :
      (position running : ℕ) (rs : List ReceiptRow)
      → limit ≤ position
      → selected limit byte_budget position running rs ≡ []
  unfolding selected
  selected_late position running [] le = refl
  selected_late position running (r ∷ rs) le =
      ground (arith, selected_late (suc position) (running + r.receipt_bytes) rs)

  selected_full :
      (position running : ℕ) (rs : List ReceiptRow)
      → 0 < position
      → byte_budget < running
      → selected limit byte_budget position running rs ≡ []
  unfolding selected
  selected_full position running [] started over = refl
  selected_full position running (r ∷ rs) started over =
      ground (arith, selected_full (suc position) (running + r.receipt_bytes) rs)

  -- After the first row, what is selected is the longest prefix that fits.
  record Prefix (position running : ℕ) (rs : List ReceiptRow) : Type 0 where
    count : ℕ
    taken : selected limit byte_budget position running rs ≡ take count rs
    inside :
        (count ≡ 0)
        ⊎ ((position + count ≤ limit) × (running + total_bytes (take count rs) ≤ byte_budget))
    longest :
        (n : ℕ)
        → n ≤ length rs
        → position + n ≤ limit
        → running + total_bytes (take n rs) ≤ byte_budget
        → n ≤ count

  Prefix-cons :
      (position running : ℕ) (r : ReceiptRow) (rs : List ReceiptRow)
      → 0 < position
      → suc position ≤ limit
      → running + r.receipt_bytes ≤ byte_budget
      → Prefix (suc position) (running + r.receipt_bytes) rs
      → Prefix position running (r ∷ rs)
  unfolding selected take
  Prefix-cons position running r rs started room fit rest = record {
    count = suc rest.count;
    taken = ground (arith, rest.taken);
    inside = inr (elim rest.inside [
      | inl nothing ↦ (omega (arith, nothing, room), none_left nothing)
      | inr (le, bytes) ↦ (omega arith, omega arith)
    ]);
    longest = longest_cons;
  }
    where
      none_left :
          rest.count ≡ 0
          → running + (r.receipt_bytes + total_bytes (take rest.count rs)) ≤ byte_budget
      none_left e = rw e (omega arith)

      longest_cons :
          (n : ℕ)
          → n ≤ suc (length rs)
          → position + n ≤ limit
          → running + total_bytes (take n (r ∷ rs)) ≤ byte_budget
          → n ≤ suc rest.count
      longest_cons zero le room_n bytes = omega arith
      longest_cons (suc n) le room_n bytes =
          omega (arith, rest.longest n (omega arith) (omega arith) (omega arith))

  -- A row that does not fit ends the selection.
  Prefix-stop :
      (position running : ℕ) (r : ReceiptRow) (rs : List ReceiptRow)
      → 0 < position
      → (limit ≤ position) ⊎ (byte_budget < running + r.receipt_bytes)
      → Prefix position running (r ∷ rs)
  unfolding selected take
  Prefix-stop position running r rs started stop = record {
    count = 0;
    taken = elim stop [
      | inl late ↦ selected_late position running (r ∷ rs) late
      | inr over ↦ ground (arith, selected_full (suc position) (running + r.receipt_bytes) rs)
    ];
    inside = inl refl;
    longest = longest_stop;
  }
    where
      longest_stop :
          (n : ℕ)
          → n ≤ suc (length rs)
          → position + n ≤ limit
          → running + total_bytes (take n (r ∷ rs)) ≤ byte_budget
          → n ≤ 0
      longest_stop zero le room_n bytes = omega arith
      longest_stop (suc n) le room_n bytes =
          absurd (elim stop [ inl late ↦ omega arith | inr over ↦ omega arith ])

  selected-Prefix :
      (position running : ℕ) (rs : List ReceiptRow) → 0 < position → Prefix position running rs
  unfolding selected take
  selected-Prefix position running [] started = record {
    count = 0;
    taken = refl;
    inside = inl refl;
    longest = λ n le _ _. le;
  }
  selected-Prefix position running (r ∷ rs) started = elim (Bool-cases (leb (suc position) limit)) [
    | inl room ↦ elim (Bool-cases (leb (running + r.receipt_bytes) byte_budget)) [
      | inl fit ↦
          Prefix-cons position running r rs started (leb→le _ _ room) (leb→le _ _ fit)
            (selected-Prefix (suc position) (running + r.receipt_bytes) rs (omega arith))
      | inr over ↦ Prefix-stop position running r rs started (inr (ground arith))
    ]
    | inr late ↦ Prefix-stop position running r rs started (inl (ground arith))
  ]

  -- The longest beginning of the ordered rows that fits.
  pub record LongestFit (ordered : List ReceiptRow) : Type 0 where
    pub count : ℕ
    pub taken : selected limit byte_budget 0 0 ordered ≡ take count ordered
    pub fits : Fits ordered count
    pub longest : (n : ℕ) → n ≤ length ordered → Fits ordered n → n ≤ count

  -- The first row needs no room in the byte budget.
  first-LongestFit :
      (r : ReceiptRow) (rs : List ReceiptRow)
      → 1 ≤ limit
      → Prefix 1 (0 + r.receipt_bytes) rs
      → LongestFit (r ∷ rs)
  unfolding selected take
  first-LongestFit r rs room rest = record {
    count = suc rest.count;
    taken = ground (arith, rest.taken);
    fits = elim rest.inside [
      | inl nothing ↦ (omega (arith, nothing), inr (omega (arith, nothing)))
      | inr (le, bytes) ↦ (omega arith, inl (omega arith))
    ];
    longest = longest_first;
  }
    where
      longest_first : (n : ℕ) → n ≤ suc (length rs) → Fits (r ∷ rs) n → n ≤ suc rest.count
      longest_first zero le fits = omega arith
      longest_first (suc n) le (room_n, inl bytes) =
          omega (arith, rest.longest n (omega arith) (omega arith) (omega arith))
      longest_first (suc n) le (room_n, inr single) = omega arith

  pub selected-LongestFit : (ordered : List ReceiptRow) → LongestFit ordered
  unfolding selected take
  selected-LongestFit [] = record {
    count = 0;
    taken = refl;
    fits = (omega arith, inr (omega arith));
    longest = λ n le _. le;
  }
  selected-LongestFit (r ∷ rs) = elim (Bool-cases (leb 1 limit)) [
    | inl room ↦
        first-LongestFit r rs (leb→le _ _ room)
          (selected-Prefix 1 (0 + r.receipt_bytes) rs (omega arith))
    | inr closed ↦ record {
      count = 0;
      taken = selected_late 0 0 (r ∷ rs) (ground arith);
      fits = (omega arith, inr (omega arith));
      longest = λ n le fits. ground (arith, fits.0);
    }
  ]
