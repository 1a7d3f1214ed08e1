-- ===== src/Recall/Pack/Agree.antt =====
-- The packer of aoms/recall.py and the one over a tokenizer that never raises: they agree, or the
-- packer raises what the tokenizer raised at some text.
use cortex_mem.Prelude.{
  ℕ, zero, suc, ◌≡◌, refl, sym, subst, ◌∙◌, ◌⊎◌, inl, inr, String, Bool, true, Option, none, some,
  List, [], ◌∷◌, ◌++◌, take, length, leb, ltb, is_empty, Bool-cases, ◌+◌, ◌-◌, ◌/◌,
}
use cortex_mem.Errors.{Error, Result, ok, raise, ◌>>=◌, raise-ne-ok}
use cortex_mem.Contracts.{MemoryRecord}
use cortex_mem.Recall.{RankedCandidate}
use cortex_mem.Recall.Pack.{
  Tokenizer, join, PackState, start, Packing, search, probe, found, search_excerpt,
  truncate_first_record, full_block, accept, reject, accept_truncated, try_truncated, place,
  pack_item, pack_items, pack,
}
use cortex_mem.Recall.Pack.Total.{TotalTokenizer}
use cortex_mem.Recall.Pack.Total

abbrev value_or : {A : Type 0} → A → Result A → A
value_or d (ok a) = a
value_or d (raise e) = d

-- the tokenizer with some value where it raises
abbrev pub totalise : Tokenizer → TotalTokenizer
totalise tokenizer = record {
  count = λ s. value_or 0 (tokenizer.count s);
  encode = λ s. value_or [] (tokenizer.encode s);
  decode = tokenizer.decode;
}

module _ (tokenizer : Tokenizer) where
  -- The tokenizer raises the error at some text.
  abbrev pub Refuses : Error → Type 0
  Refuses e = (s : String) × ((tokenizer.count s ≡ raise e) ⊎ (tokenizer.encode s ≡ raise e))

  abbrev pub Agrees : {A : Type 0} → Result A → A → Type 0
  Agrees r a = (r ≡ ok a) ⊎ ((e : Error) × (r ≡ raise e) × Refuses e)

  bind-Agrees :
      {A B : Type 0} (r : Result A) (a : A) (next : A → Result B) (b : B)
      → Agrees r a
      → Agrees (next a) b
      → Agrees (r >>= next) b
  bind-Agrees r a next b (inl e) later = subst (λ x. Agrees (x >>= next) b) (sym e) later
  bind-Agrees r a next b (inr (x, e, refuses)) later = inr (x, rw e refl, refuses)

  count-Agrees : (s : String) → Agrees (tokenizer.count s) ((totalise tokenizer).count s)
  count-Agrees s = go (tokenizer.count s) refl
    where
      go : (r : Result ℕ) → tokenizer.count s ≡ r → Agrees r (value_or 0 r)
      go (ok n) e = inl refl
      go (raise x) e = inr (x, refl, (s, inl e))

  encode-Agrees : (s : String) → Agrees (tokenizer.encode s) ((totalise tokenizer).encode s)
  encode-Agrees s = go (tokenizer.encode s) refl
    where
      go : (r : Result (List ℕ)) → tokenizer.encode s ≡ r → Agrees r (value_or [] r)
      go (ok n) e = inl refl
      go (raise x) e = inr (x, refl, (s, inr e))

  module _ (budget : ℕ) (excerpt : ℕ → String) (block : String → String) where
    search-Agrees :
        (fuel low high : ℕ) (best : String × String)
        → Agrees
            (search tokenizer.count budget excerpt block fuel low high best)
            (Total.search (totalise tokenizer).count budget excerpt block fuel low high best)
    unfolding search Total.search
    search-Agrees zero low high best = inl refl
    search-Agrees (suc fuel) low high best =
        let middle = (low + high - 1) / 2 in
        let counted = (totalise tokenizer).count (block (excerpt middle)) in
        elim (Bool-cases (ltb low high)) [
          | inr done ↦ rw (done, search, Total.search) (inl refl)
          | inl more ↦
              rw (more, search, Total.search)
                (bind-Agrees (tokenizer.count (block (excerpt middle))) counted
                  (probe tokenizer.count budget excerpt block
                    (search tokenizer.count budget excerpt block fuel) low middle high best)
                  _ (count-Agrees (block (excerpt middle)))
                  (elim (Bool-cases (leb counted budget)) [
                    | inl fit ↦
                        rw (fit, probe)
                          (search-Agrees fuel (middle + 1) high
                            (block (excerpt middle), excerpt middle))
                    | inr long ↦ rw (long, probe) (search-Agrees fuel low middle best)
                  ]))
        ]

  module _ (render : MemoryRecord → String → Bool → String) where
    pub truncate-Agrees :
        (r : MemoryRecord) (content : String) (budget : ℕ)
        → Agrees
            (truncate_first_record tokenizer render r content budget)
            (Total.truncate_first_record (totalise tokenizer) render r content budget)
    unfolding truncate_first_record Total.truncate_first_record
    truncate-Agrees r content budget =
        let encoded = (totalise tokenizer).encode content in
        let counted = (totalise tokenizer).count (render r "" true) in
        bind-Agrees (tokenizer.encode content) encoded _ _ (encode-Agrees content) (
          bind-Agrees (tokenizer.count (render r "" true)) counted
            (search_excerpt tokenizer render r budget encoded) _ (count-Agrees (render r "" true))
            (elim (Bool-cases (ltb budget counted)) [
              | inl full ↦ rw full (inl refl)
              | inr room ↦ rw room (
                  bind-Agrees _ _ (found tokenizer render) _
                    (search-Agrees budget (λ n. tokenizer.decode (take n encoded))
                      (λ excerpt. render r excerpt true) (suc (suc (length encoded))) 0
                      (suc (length encoded)) (render r "" true, ""))
                    (inl refl))
            ]))

  module _ {Score : Type 0} (content_text : MemoryRecord → String)
      (render : MemoryRecord → String → Bool → String) (budget : ℕ) where
    accept_truncated-Agrees :
        (item : RankedCandidate Score) (s : PackState Score) (o : Option (String × String))
        → Agrees (accept_truncated tokenizer content_text render item s o) (elim o [
          | none ↦ Total.reject (totalise tokenizer) content_text render item s
          | some shortened ↦
              Total.accept_truncated (totalise tokenizer) content_text render item shortened s
        ])
    unfolding accept_truncated Total.accept_truncated reject Total.reject
    accept_truncated-Agrees item s none = inl refl
    accept_truncated-Agrees item s (some shortened) =
        bind-Agrees (tokenizer.count shortened.0) ((totalise tokenizer).count shortened.0) _ _
          (count-Agrees shortened.0) (inl refl)

    pack_item-Agrees :
        (item : RankedCandidate Score) (s : PackState Score)
        → Agrees
            (pack_item tokenizer content_text render budget item s)
            (Total.pack_item (totalise tokenizer) content_text render budget item s)
    unfolding pack_item place try_truncated accept reject Total.pack_item Total.try_truncated
        Total.accept Total.reject
    pack_item-Agrees item s =
        let context = join (s.blocks ++ full_block tokenizer content_text render item ∷ []) in
        let counted = (totalise tokenizer).count context in
        bind-Agrees (tokenizer.count context) counted
          (place tokenizer content_text render budget item s) _ (count-Agrees context)
          (elim (Bool-cases (leb counted budget)) [
            | inl fit ↦ rw fit (inl refl)
            | inr long ↦ elim (Bool-cases (is_empty s.blocks)) [
              | inl none_yet ↦
                  rw (long, none_yet)
                    (bind-Agrees
                      (truncate_first_record tokenizer render item.candidate.memory
                        (content_text item.candidate.memory) budget)
                      _ (accept_truncated tokenizer content_text render item s) _
                      (truncate-Agrees render item.candidate.memory
                        (content_text item.candidate.memory) budget)
                      (accept_truncated-Agrees item s _))
              | inr packed ↦ rw (long, packed) (inl refl)
            ]
          ])

    pub pack_items-Agrees :
        (items : List (RankedCandidate Score)) (s : PackState Score)
        → Agrees
            (pack_items tokenizer content_text render budget items s)
            (Total.pack_items (totalise tokenizer) content_text render budget items s)
    unfolding pack_items Total.pack_items
    pack_items-Agrees [] s = inl refl
    pack_items-Agrees (item ∷ items) s =
        bind-Agrees (pack_item tokenizer content_text render budget item s) _ _ _
          (pack_item-Agrees item s) (pack_items-Agrees items _)

    pub pack-Agrees :
        (ranked : List (RankedCandidate Score))
        → (pack tokenizer content_text render ranked budget
            ≡ Total.pack (totalise tokenizer) content_text render ranked budget)
          ⊎ ((e : Error) × (pack tokenizer content_text render ranked budget ≡ raise e) × Refuses e)
    unfolding pack Total.pack
    pack-Agrees ranked =
        let s = Total.pack_items (totalise tokenizer) content_text render budget ranked start in
        elim (pack_items-Agrees ranked start) [
          | inr (e, raised, refuses) ↦ inr (e, rw raised refl, refuses)
          | inl packed ↦ elim (count-Agrees (join s.blocks)) [
            | inr (e, raised, refuses) ↦ inr (e, rw (packed, raised) refl, refuses)
            | inl counted ↦ inl (rw (packed, counted) refl)
          ]
        ]

    -- What the packer returns, the total packer returns.
    pub pack-total :
        (ranked : List (RankedCandidate Score)) (p : Packing Score)
        → pack tokenizer content_text render ranked budget ≡ ok p
        → Total.pack (totalise tokenizer) content_text render ranked budget ≡ ok p
    pack-total ranked p h = elim (pack-Agrees ranked) [
      | inl same ↦ sym same ∙ h
      | inr (e, raised, _) ↦ absurd (raise-ne-ok (sym raised ∙ h))
    ]
