-- ===== src/Recall/Pack/Budget.antt =====
-- What `pack` of aoms/recall.py keeps of the budget and of its candidates.
use cortex_mem.Prelude.{
  ℕ, ◌≤◌, ◌≡◌, refl, sym, ap, subst, ◌∙◌, ◌⊎◌, inl, inr, String, Bool, true, List, [], ◌∷◌, ◌++◌,
  arith, map, leb, leb→le, is_empty, Bool-cases, Option-cases,
}
use cortex_mem.Prelude.Int.{ℤ, pos, ◌+ℤ◌, add-sub_ℕ, zero-add}
use cortex_mem.Errors.{Error, ok, raise, bind-returns, raise_unless-ok}
use cortex_mem.Contracts.{MemoryRecord}
use cortex_mem.Recall.{RankedCandidate}
use cortex_mem.Recall.Pack as Fallible
use cortex_mem.Recall.Pack.Agree.{totalise, Refuses, pack-Agrees}
use cortex_mem.Recall.Pack.{Tokenizer, Packing, join, PackedMemory, PackState, start, append_memory}
use cortex_mem.Recall.Pack.Total.{
  TotalTokenizer, truncate_first_record, accept, accept_truncated, reject, try_truncated, pack_item,
  pack_items, pack, whole_memory, short_memory, proposed,
}
use cortex_mem.Recall.Pack.Truncate.{truncate_first_record-le}

-- The costs added up from the left.
abbrev pub total_cost : {Score : Type 0} → ℤ → List (PackedMemory Score) → ℤ
total_cost acc [] = acc
total_cost acc (p ∷ ps) = total_cost (acc +ℤ p.token_cost) ps

total_cost-append :
    {Score : Type 0} (acc : ℤ) (ps : List (PackedMemory Score)) (p : PackedMemory Score)
    → total_cost acc (ps ++ p ∷ []) ≡ total_cost acc ps +ℤ p.token_cost
total_cost-append acc [] p = refl
total_cost-append acc (q ∷ ps) p = total_cost-append (acc +ℤ q.token_cost) ps p

map-append_one :
    {A B : Type 0} (f : A → B) (xs : List A) (a : A) → map f (xs ++ a ∷ []) ≡ map f xs ++ f a ∷ []
map-append_one f [] a = refl
map-append_one f (x ∷ xs) a = ap (◌∷◌ (f x)) (map-append_one f xs a)

module _ {Score : Type 0} (tokenizer : TotalTokenizer) (content_text : MemoryRecord → String)
    (render : MemoryRecord → String → Bool → String) (budget : ℕ)
    (nothing : tokenizer.count "" ≡ 0) where
  -- What a round of the loop keeps.
  record Packs (s : PackState Score) : Type 0 where
    counted : s.packed_count ≡ tokenizer.count (join s.blocks)
    within : s.packed_count ≤ budget
    blocks : map (λ (p : PackedMemory Score). p.block) s.packed ≡ s.blocks
    costs : total_cost (pos 0) s.packed ≡ pos s.packed_count

  start-Packs : Packs start
  unfolding join
  start-Packs = record { counted = sym nothing; within = omega arith; blocks = refl; costs = refl }

  append-Packs :
      (p : PackedMemory Score) (count : ℕ) (s : PackState Score)
      → count ≡ tokenizer.count (join (s.blocks ++ p.block ∷ []))
      → count ≤ budget
      → pos s.packed_count +ℤ p.token_cost ≡ pos count
      → Packs s
      → Packs (append_memory p count s)
  append-Packs p count s counted within cost h = record {
    counted = counted;
    within = within;
    blocks =
        map-append_one (λ (q : PackedMemory Score). q.block) s.packed p
        ∙ ap (λ (bs : List String). bs ++ p.block ∷ []) h.blocks;
    costs = total_cost-append (pos 0) s.packed p ∙ ap (λ (z : ℤ). z +ℤ p.token_cost) h.costs ∙ cost;
  }

  accept-Packs :
      (item : RankedCandidate Score) (s : PackState Score)
      → leb (proposed tokenizer content_text render item s) budget ≡ true
      → Packs s
      → Packs (accept tokenizer content_text render item s)
  unfolding accept
  accept-Packs item s fit h =
      append-Packs
        (whole_memory tokenizer content_text render item
          (proposed tokenizer content_text render item s) s.packed_count)
        (proposed tokenizer content_text render item s) s refl (leb→le _ _ fit)
        (add-sub_ℕ (proposed tokenizer content_text render item s) s.packed_count) h

  -- the shortened record is only tried where nothing is packed
  try_truncated-Packs :
      (item : RankedCandidate Score) (s : PackState Score)
      → is_empty s.blocks ≡ true
      → Packs s
      → Packs (try_truncated tokenizer content_text render budget item s)
  unfolding try_truncated reject accept_truncated
  try_truncated-Packs item s none_yet h =
      elim (Option-cases (
        truncate_first_record tokenizer render item.candidate.memory
          (content_text item.candidate.memory) budget)) [
            | inl no_room ↦
                rw (no_room, try_truncated)
                  (record {
                    counted = h.counted;
                    within = h.within;
                    blocks = h.blocks;
                    costs = h.costs;
                  })
            | inr (shortened, found) ↦
                rw (found, try_truncated)
                  (append-Packs (short_memory tokenizer content_text render item shortened)
                    (tokenizer.count shortened.0) s (alone shortened.0)
                    (truncate_first_record-le tokenizer render item.candidate.memory
                      (content_text item.candidate.memory) budget found)
                    (from_zero (tokenizer.count shortened.0)) h)
          ]
    where
      no_blocks : s.blocks ≡ []
      no_blocks = ground arith

      alone : (b : String) → tokenizer.count b ≡ tokenizer.count (join (s.blocks ++ b ∷ []))
      alone b = unfold join in rw no_blocks

      no_count : s.packed_count ≡ 0
      no_count =
          unfold join in
          h.counted ∙ ap (λ (bs : List String). tokenizer.count (join bs)) no_blocks ∙ nothing

      from_zero : (n : ℕ) → pos s.packed_count +ℤ pos n ≡ pos n
      from_zero n = rw no_count (zero-add n)

  pack_item-Packs :
      (item : RankedCandidate Score) (s : PackState Score)
      → Packs s
      → Packs (pack_item tokenizer content_text render budget item s)
  unfolding pack_item reject
  pack_item-Packs item s h =
      elim (Bool-cases (leb (proposed tokenizer content_text render item s) budget)) [
        | inl fit ↦ rw fit (accept-Packs item s fit h)
        | inr too_long ↦ elim (Bool-cases (is_empty s.blocks)) [
          | inl none_yet ↦ rw (too_long, none_yet) (try_truncated-Packs item s none_yet h)
          | inr some_packed ↦
              rw (too_long, some_packed)
                (record {
                  counted = h.counted;
                  within = h.within;
                  blocks = h.blocks;
                  costs = h.costs;
                })
        ]
      ]

  pack_items-Packs :
      (items : List (RankedCandidate Score)) (s : PackState Score)
      → Packs s
      → Packs (pack_items tokenizer content_text render budget items s)
  unfolding pack_items
  pack_items-Packs [] s h = h
  pack_items-Packs (item ∷ items) s h =
      pack_items-Packs items (pack_item tokenizer content_text render budget item s)
        (pack_item-Packs item s h)

  total_fits :
      (ranked : List (RankedCandidate Score))
      → (context : String) × (packed : List (PackedMemory Score)) × (rejected : List String) × (pack
            tokenizer content_text render ranked budget
          ≡ ok (context, packed, rejected))
        × (tokenizer.count context ≤ budget)
        × (context ≡ join (map (λ (p : PackedMemory Score). p.block) packed))
        × (total_cost (pos 0) packed ≡ pos (tokenizer.count context))
  unfolding pack
  total_fits ranked =
      let s = pack_items tokenizer content_text render budget ranked start in
      let h : Packs s = pack_items-Packs ranked start start-Packs in
      (
        join s.blocks,
        s.packed,
        s.rejected_for_budget,
        ground (arith, h.counted, h.within),
        omega (arith, h.counted, h.within),
        ap join (sym h.blocks),
        h.costs ∙ ap pos h.counted,
      )

module _ {Score : Type 0} (tokenizer : Tokenizer) (content_text : MemoryRecord → String)
    (render : MemoryRecord → String → Bool → String) (budget : ℕ) where
  -- The last test counts the context.
  pack-counts :
      (ranked : List (RankedCandidate Score)) (p : Packing Score)
      → Fallible.pack tokenizer content_text render ranked budget ≡ ok p
      → (counted : ℕ) × (tokenizer.count p.0 ≡ ok counted)
  unfolding Fallible.pack
  pack-counts ranked p h =
      let (s, packs, rest) =
        bind-returns (Fallible.pack_items tokenizer content_text render budget ranked start) _ h in
      let (counted, counts, within) =
        bind-returns (tokenizer.count (join s.blocks))
          (Fallible.within_budget tokenizer content_text render budget s) rest in
      let context = ap (λ (x : Packing Score). x.0) (raise_unless-ok _ _ within) in
      (counted, ap tokenizer.count (sym context) ∙ counts)

  -- Packing raises only an error that the tokenizer raises at some text, so its own assertion holds.
  -- Where it returns, the context is the packed blocks joined, its tokens fit the budget, and the
  -- token costs of the packed memories add up to its count exactly. An empty text has no token.
  pub pack_fits :
      tokenizer.count "" ≡ ok 0
      → (ranked : List (RankedCandidate Score))
      → ((context : String) × (packed : List (PackedMemory Score)) × (rejected : List String)
          × (counted : ℕ) × (Fallible.pack tokenizer content_text render ranked budget
              ≡ ok (context, packed, rejected))
          × (tokenizer.count context ≡ ok counted)
          × (counted ≤ budget)
          × (context ≡ join (map (λ (p : PackedMemory Score). p.block) packed))
          × (total_cost (pos 0) packed ≡ pos counted))
        ⊎ ((e : Error) × (Fallible.pack tokenizer content_text render ranked budget ≡ raise e)
            × Refuses tokenizer e)
  pack_fits nothing ranked = elim (pack-Agrees tokenizer content_text render budget ranked) [
    | inr refused ↦ inr refused
    | inl same ↦
        let (context, packed, rejected, returned, fits, joined, costs) =
          total_fits (totalise tokenizer) content_text render budget (totalise-count "" 0 nothing)
            ranked in
        let (counted, counts) = pack-counts ranked (context, packed, rejected) (same ∙ returned) in
        let count_is = totalise-count context counted counts in
        inl (
          context,
          packed,
          rejected,
          counted,
          same ∙ returned,
          counts,
          subst (λ n. n ≤ budget) count_is fits,
          joined,
          costs ∙ ap pos count_is,
        )
  ]
    where
      totalise-count :
          (s : String) (n : ℕ) → tokenizer.count s ≡ ok n → (totalise tokenizer).count s ≡ n
      totalise-count s n e = rw e refl
