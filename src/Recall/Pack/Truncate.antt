-- ===== src/Recall/Pack/Truncate.antt =====
-- The binary search of `_truncate_first_record` of aoms/recall.py.
use cortex_mem.Prelude.{
  ℕ, zero, suc, ◌+◌, ◌-◌, ◌/◌, ◌≤◌, ◌<◌, ◌≡◌, refl, ap, ◌∙◌, ◌⊎◌, inl, inr, String, Bool, true,
  false, some, [], arith, ltb, ltb→lt, leb→le, le→leb, sym, Bool-cases, length, take,
}
use cortex_mem.Contracts.{MemoryRecord}
use cortex_mem.Recall.Pack as Fallible
use cortex_mem.Recall.Pack.Agree.{totalise, truncate-Agrees}
use cortex_mem.Recall.Pack.{Tokenizer}
use cortex_mem.Errors.{ok, raise-ne-ok, ok-inj}
use cortex_mem.Recall.Pack.Total.{TotalTokenizer, search, fits, truncate_first_record}

module _ (count : String → ℕ) (budget : ℕ) (excerpt : ℕ → String) (block : String → String) where
  abbrev prefix : ℕ → String × String
  prefix n = (block (excerpt n), excerpt n)

  abbrev Fits : ℕ → Type 0
  Fits n = fits count budget excerpt block n ≡ true

  -- The found text is a prefix that fits, or what the search began with.
  abbrev FromPrefix : String × String → String × String → Type 0
  FromPrefix initial found = (found ≡ initial) ⊎ ((n : ℕ) × (found ≡ prefix n) × Fits n)

  abbrev middle : ℕ → ℕ → ℕ
  middle low high = (low + high - 1) / 2

  -- The three ways of a round.
  search_fit :
      (fuel low high : ℕ) (best : String × String)
      → ltb low high ≡ true
      → Fits (middle low high)
      → search count budget excerpt block (suc fuel) low high best
        ≡ search count budget excerpt block fuel
            (middle low high + 1)
            high
            (prefix (middle low high))
  unfolding search
  search_fit fuel low high best more fit = rw (more, search) (rw (fit, search))

  search_long :
      (fuel low high : ℕ) (best : String × String)
      → ltb low high ≡ true
      → fits count budget excerpt block (middle low high) ≡ false
      → search count budget excerpt block (suc fuel) low high best
        ≡ search count budget excerpt block fuel low (middle low high) best
  unfolding search
  search_long fuel low high best more long = rw (more, search) (rw (long, search))

  search_done :
      (fuel low high : ℕ) (best : String × String)
      → ltb low high ≡ false
      → search count budget excerpt block (suc fuel) low high best ≡ best
  unfolding search
  search_done fuel low high best done = rw (done, search)

  search_prefix :
      (fuel low high : ℕ) (initial best : String × String)
      → FromPrefix initial best
      → FromPrefix initial (search count budget excerpt block fuel low high best)
  unfolding search
  search_prefix zero low high initial best h = unfold search in h
  search_prefix (suc fuel) low high initial best h = elim (Bool-cases (ltb low high)) [
    | inl more ↦ elim (Bool-cases (fits count budget excerpt block (middle low high))) [
      | inl ok_middle ↦ rw (search_fit fuel low high best more ok_middle) (
          search_prefix fuel (middle low high + 1) high initial (prefix (middle low high))
            (inr ((low + high - 1) / 2, refl, ok_middle)))
      | inr too_long ↦
          rw (search_long fuel low high best more too_long)
            (search_prefix fuel low (middle low high) initial best h)
    ]
    | inr done ↦ rw (search_done fuel low high best done) h
  ]

  -- `found` is the longest of the first `total` prefixes that fits.
  pub record Longest (total : ℕ) (found : String × String) : Type 0 where
    pub at : ℕ
    pub is_prefix : found ≡ prefix at
    pub fitting : Fits at
    pub longest : (n : ℕ) → n < total → Fits n → n ≤ at

  module _ (shorter : (m n : ℕ) → m ≤ n → Fits n → Fits m) (total : ℕ) where
    search-Longest :
        (fuel low high b : ℕ) (best : String × String)
        → high - low < fuel
        → low ≤ high
        → b ≤ low
        → low ≤ b + 1
        → best ≡ prefix b
        → Fits b
        → ((n : ℕ) → high ≤ n → n < total → Fits n → ⊥)
        → Longest total (search count budget excerpt block fuel low high best)
    unfolding search
    search-Longest zero low high b best f le lo hi e ok_b out = absurd (omega arith)
    search-Longest (suc fuel) low high b best f le lo hi e ok_b out =
        elim (Bool-cases (ltb low high)) [
          | inl more ↦ elim (Bool-cases (fits count budget excerpt block (middle low high))) [
            | inl ok_middle ↦
                let lt : low < high = ltb→lt low high more in
                rw (search_fit fuel low high best more ok_middle) (
                  search-Longest fuel (middle low high + 1) high (middle low high)
                    (prefix (middle low high)) (omega arith) (omega arith) (omega arith)
                    (omega arith) refl ok_middle out)
            | inr too_long ↦
                let lt : low < high = ltb→lt low high more in
                rw (search_long fuel low high best more too_long) (
                  search-Longest fuel low (middle low high) b best (omega arith) (omega arith) lo hi
                    e ok_b (λ n above _ fit. cc (shorter (middle low high) n above fit, too_long)))
          ]
          | inr done ↦ rw (search_done fuel low high best done) (record {
            at = b;
            is_prefix = e;
            fitting = ok_b;
            longest = λ n lt fit. below n lt fit (ground arith);
          })
        ]
      where
        below : (n : ℕ) → n < total → Fits n → high ≤ low → n ≤ b
        below n lt fit closed = elim (Bool-cases (ltb n high)) [
          | inl inside ↦ let h : n < high = ltb→lt n high inside in omega arith
          | inr outside ↦ absurd (out n (ground arith) lt fit)
        ]

module _ (tokenizer : TotalTokenizer) (render : MemoryRecord → String → Bool → String)
    (r : MemoryRecord) (content : String) (budget : ℕ) where
  abbrev pub prefix_text : ℕ → String
  prefix_text n = tokenizer.decode (take n (tokenizer.encode content))

  abbrev pub short_block : String → String
  short_block excerpt = render r excerpt true

  abbrev searched : String × String
  searched =
      search tokenizer.count budget prefix_text short_block
        (suc (suc (length (tokenizer.encode content)))) 0 (suc (length (tokenizer.encode content)))
        (short_block "", "")

  found-searched :
      {found : String × String}
      → truncate_first_record tokenizer render r content budget ≡ some found
      → (tokenizer.count (short_block "") ≤ budget) × (searched ≡ found)
  unfolding truncate_first_record
  found-searched h = ground arith

  searched-le : tokenizer.count (short_block "") ≤ budget → tokenizer.count searched.0 ≤ budget
  searched-le room =
      elim (search_prefix tokenizer.count budget prefix_text short_block
        (suc (suc (length (tokenizer.encode content)))) 0 (suc (length (tokenizer.encode content)))
        (short_block "", "") (short_block "", "") (inl refl)) [
          | inl initial ↦ omega (arith, ap (λ (p : String × String). tokenizer.count p.0) initial)
          | inr (n, at, fit) ↦
              omega (arith, ap (λ (p : String × String). tokenizer.count p.0) at, leb→le _ _ fit)
        ]

  -- A shortened first record fits the budget, whatever the tokenizer does: it is the empty block,
  -- whose count was tested, or a prefix of the content whose count was.
  pub truncate_first_record-le :
      {found : String × String}
      → truncate_first_record tokenizer render r content budget ≡ some found
      → tokenizer.count found.0 ≤ budget
  truncate_first_record-le {found} h =
      let (room, e) = found-searched h in rw (← e) (searched-le room)

  total-Longest :
      {found : String × String}
      → tokenizer.decode [] ≡ ""
      → ((m n : ℕ)
          → m ≤ n
          → tokenizer.count (short_block (prefix_text n)) ≤ budget
          → tokenizer.count (short_block (prefix_text m)) ≤ budget)
      → truncate_first_record tokenizer render r content budget ≡ some found
      → Longest tokenizer.count budget prefix_text short_block
          (suc (length (tokenizer.encode content)))
          found
  unfolding take
  total-Longest {found} nothing shorter h =
      let (room, e) = found-searched h in
      let whole : short_block (prefix_text 0) ≡ short_block "" = ap short_block nothing in
      rw (← e) (
        search-Longest tokenizer.count budget prefix_text short_block
          (λ m n le fit. le→leb _ _ (shorter m n le (leb→le _ _ fit)))
          (suc (length (tokenizer.encode content))) _ 0 _ 0 (short_block "", "") (omega arith)
          (omega arith) (omega arith) (omega arith) (λ i. (sym whole i, sym nothing i))
          (rw whole (le→leb _ _ room)) (λ n above below _. omega arith))

module _ (tokenizer : Tokenizer) (render : MemoryRecord → String → Bool → String) (r : MemoryRecord)
    (content : String) (budget : ℕ) where
  -- If no tokens decode to no text, and the beginnings of a prefix that fits fit too, then a
  -- shortened record is the longest prefix of the content's tokens that fits the budget. A text that
  -- the tokenizer refuses counts as one that fits.
  pub truncate_first_record-Longest :
      {found : String × String}
      → tokenizer.decode [] ≡ ""
      → ((m n : ℕ)
          → m ≤ n
          → (totalise tokenizer).count (
              short_block
                (totalise tokenizer)
                render
                r
                content
                budget
                (prefix_text (totalise tokenizer) render r content budget n))
            ≤ budget
          → (totalise tokenizer).count (
              short_block
                (totalise tokenizer)
                render
                r
                content
                budget
                (prefix_text (totalise tokenizer) render r content budget m))
            ≤ budget)
      → Fallible.truncate_first_record tokenizer render r content budget ≡ ok (some found)
      → Longest
          (totalise tokenizer).count
          budget
          (prefix_text (totalise tokenizer) render r content budget)
          (short_block (totalise tokenizer) render r content budget)
          (suc (length ((totalise tokenizer).encode content)))
          found
  truncate_first_record-Longest {found} nothing shorter h =
      total-Longest (totalise tokenizer) render r content budget nothing shorter
        (elim (truncate-Agrees tokenizer render r content budget) [
          | inl same ↦ ok-inj (sym same ∙ h)
          | inr (e, raised, _) ↦ absurd (raise-ne-ok (sym raised ∙ h))
        ])
