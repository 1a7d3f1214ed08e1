-- ===== src/Recall/Pack/Partition.antt =====
-- What becomes of each candidate in `pack` of aoms/recall.py.
use mathlib.Core.List.{Perm, append_assoc, append-nil}
use mathlib.Core.List.Perm
use cortex_mem.Prelude.{
  ℕ, ◌≡◌, refl, sym, ap, ◌∙◌, subst, inl, inr, String, Bool, true, false, List, [], ◌∷◌, ◌++◌,
  arith, map, All, leb, is_empty, Bool-cases, Option-cases,
}
use cortex_mem.Errors.{ok}
use cortex_mem.Contracts.{MemoryRecord}
use cortex_mem.Recall.{RankedCandidate}
use cortex_mem.Recall.Pack as Fallible
use cortex_mem.Recall.Pack.Agree.{totalise, pack-total}
use cortex_mem.Recall.Pack.{Tokenizer, PackedMemory, PackState, start, append_memory}
use cortex_mem.Recall.Pack.Total.{
  TotalTokenizer, truncate_first_record, accept, accept_truncated, reject, try_truncated, pack_item,
  pack_items, pack, whole_memory, short_memory, proposed,
}

abbrev pub id_of : {Score : Type 0} → RankedCandidate Score → String
id_of item = item.candidate.memory.id

-- Every memory after the first is whole.
abbrev pub WholeTail : {Score : Type 0} → List (PackedMemory Score) → Type 0
WholeTail [] = Unit
WholeTail (p ∷ ps) = All (λ (q : PackedMemory _). q.truncated ≡ false) ps

Perm-middle : {A : Type 0} (a : A) (xs ys : List A) → Perm (xs ++ a ∷ ys) (a ∷ (xs ++ ys))
Perm-middle a [] ys = Perm.refl (a ∷ ys)
Perm-middle a (x ∷ xs) ys =
    Perm.trans (Perm.cons x (Perm-middle a xs ys)) (Perm.swap a x (xs ++ ys))

last-first : (a : String) (xs ys : List String) → Perm xs ys → Perm (xs ++ a ∷ []) (a ∷ ys)
last-first a xs ys h = Perm.trans (Perm-middle a xs []) (Perm.cons a (rw (append-nil xs) h))

is_empty-append : {A : Type 0} (xs : List A) (a : A) → is_empty (xs ++ a ∷ []) ≡ false
is_empty-append [] a = refl
is_empty-append (x ∷ xs) a = refl

All-append_one :
    {A : Type 0} (P : A → Type 0) (xs : List A) (a : A) → All P xs → P a → All P (xs ++ a ∷ [])
All-append_one P [] a h p = (p, tt)
All-append_one P (x ∷ xs) a h p = (h.0, All-append_one P xs a h.1 p)

empty-nil : {A : Type 0} (xs : List A) → is_empty xs ≡ true → xs ≡ []
empty-nil [] e = refl
empty-nil (x ∷ xs) e = ground arith

WholeTail-append :
    {Score : Type 0} (ps : List (PackedMemory Score)) (p : PackedMemory Score)
    → WholeTail ps
    → p.truncated ≡ false
    → WholeTail (ps ++ p ∷ [])
WholeTail-append [] p h whole = tt
WholeTail-append (q ∷ ps) p h whole = All-append_one _ ps p h whole

module _ {Score : Type 0} where
  abbrev pub ids : List (PackedMemory Score) → List String
  ids [] = []
  ids (p ∷ ps) = id_of p.ranked ∷ ids ps

  ids-append :
      (ps : List (PackedMemory Score)) (p : PackedMemory Score)
      → ids (ps ++ p ∷ []) ≡ ids ps ++ id_of p.ranked ∷ []
  ids-append [] p = refl
  ids-append (q ∷ ps) p = ap (◌∷◌ (id_of q.ranked)) (ids-append ps p)

  -- What a round of the loop keeps, after the candidates `seen`.
  record Places (seen : List String) (s : PackState Score) : Type 0 where
    split : Perm (ids s.packed ++ s.rejected_for_budget) seen
    tail : WholeTail s.packed
    blocks : is_empty s.blocks ≡ is_empty s.packed

  append-split :
      (seen : List String) (ps : List (PackedMemory Score)) (p : PackedMemory Score)
      (rejected : List String)
      → Perm (ids ps ++ rejected) seen
      → Perm (ids (ps ++ p ∷ []) ++ rejected) (id_of p.ranked ∷ seen)
  append-split seen ps p rejected h =
      subst (λ xs. Perm xs (id_of p.ranked ∷ seen))
        (sym (append_assoc (ids ps) (id_of p.ranked ∷ []) rejected)
          ∙ ap (λ (xs : List String). xs ++ rejected) (sym (ids-append ps p)))
        (Perm.trans (Perm-middle (id_of p.ranked) (ids ps) rejected) (Perm.cons (id_of p.ranked) h))

  append-Places :
      (seen : List String) (p : PackedMemory Score) (count : ℕ) (s : PackState Score)
      → WholeTail (s.packed ++ p ∷ [])
      → Places seen s
      → Places (id_of p.ranked ∷ seen) (append_memory p count s)
  append-Places seen p count s tail h = record {
    split = append-split seen s.packed p s.rejected_for_budget h.split;
    tail = tail;
    blocks = is_empty-append s.blocks p.block ∙ sym (is_empty-append s.packed p);
  }

  reject-Places :
      (seen : List String) (item : RankedCandidate Score) (s : PackState Score)
      → Places seen s
      → Places
          (id_of item ∷ seen)
          (record s { rejected_for_budget = s.rejected_for_budget ++ id_of item ∷ [] })
  reject-Places seen item s h = record {
    split =
        subst (λ xs. Perm xs (id_of item ∷ seen))
          (append_assoc (ids s.packed) s.rejected_for_budget (id_of item ∷ []))
          (last-first (id_of item) (ids s.packed ++ s.rejected_for_budget) seen h.split);
    tail = h.tail;
    blocks = h.blocks;
  }

module _ {Score : Type 0} (tokenizer : TotalTokenizer) (content_text : MemoryRecord → String)
    (render : MemoryRecord → String → Bool → String) (budget : ℕ) where
  none_packed :
      (s : PackState Score) (seen : List String)
      → Places seen s
      → is_empty s.blocks ≡ true
      → s.packed ≡ []
  none_packed s seen h e = empty-nil s.packed (sym h.blocks ∙ e)

  try_truncated-Places :
      (seen : List String) (item : RankedCandidate Score) (s : PackState Score)
      → is_empty s.blocks ≡ true
      → Places seen s
      → Places (id_of item ∷ seen) (try_truncated tokenizer content_text render budget item s)
  unfolding try_truncated reject accept_truncated
  try_truncated-Places seen item s none_yet h =
      elim (Option-cases (
        truncate_first_record tokenizer render item.candidate.memory
          (content_text item.candidate.memory) budget)) [
            | inl no_room ↦ rw (no_room, try_truncated) (reject-Places seen item s h)
            | inr (shortened, found) ↦
                rw (found, try_truncated)
                  (append-Places seen (short_memory tokenizer content_text render item shortened)
                    (tokenizer.count shortened.0) s (rw (none_packed s seen h none_yet) tt) h)
          ]

  pack_item-Places :
      (seen : List String) (item : RankedCandidate Score) (s : PackState Score)
      → Places seen s
      → Places (id_of item ∷ seen) (pack_item tokenizer content_text render budget item s)
  unfolding pack_item reject accept
  pack_item-Places seen item s h =
      elim (Bool-cases (leb (proposed tokenizer content_text render item s) budget)) [
        | inl fit ↦
            let whole =
              whole_memory tokenizer content_text render item
                (proposed tokenizer content_text render item s) s.packed_count in
            rw fit (
              append-Places seen whole (proposed tokenizer content_text render item s) s
                (WholeTail-append s.packed whole h.tail refl) h)
        | inr too_long ↦ elim (Bool-cases (is_empty s.blocks)) [
          | inl none_yet ↦ rw (too_long, none_yet) (try_truncated-Places seen item s none_yet h)
          | inr some_packed ↦ rw (too_long, some_packed) (reject-Places seen item s h)
        ]
      ]

  pack_items-Places :
      (items : List (RankedCandidate Score)) (seen : List String) (s : PackState Score)
      → Places seen s
      → (all : List String) × Perm all (map id_of items ++ seen)
        × Places all (pack_items tokenizer content_text render budget items s)
  unfolding pack_items
  pack_items-Places [] seen s h = (seen, Perm.refl seen, h)
  pack_items-Places (item ∷ items) seen s h =
      let (all, p, q) =
        pack_items-Places items (id_of item ∷ seen)
          (pack_item tokenizer content_text render budget item s)
          (pack_item-Places seen item s h) in
      (all, Perm.trans p (Perm-middle (id_of item) (map id_of items) seen), q)

  packed-state :
      (ranked : List (RankedCandidate Score)) {context : String}
      {packed : List (PackedMemory Score)} {rejected : List String}
      → pack tokenizer content_text render ranked budget ≡ ok (context, packed, rejected)
      → ((pack_items tokenizer content_text render budget ranked start).packed ≡ packed)
        × ((pack_items tokenizer content_text render budget ranked start).rejected_for_budget
            ≡ rejected)
  unfolding pack
  packed-state ranked h = ground arith

  total-partition :
      (ranked : List (RankedCandidate Score)) {context : String}
      {packed : List (PackedMemory Score)} {rejected : List String}
      → pack tokenizer content_text render ranked budget ≡ ok (context, packed, rejected)
      → Perm (ids packed ++ rejected) (map id_of ranked) × WholeTail packed
  unfolding pack
  total-partition ranked {context} {packed} {rejected} h =
      let placed = pack_items tokenizer content_text render budget ranked start in
      let (all, p, q) =
        pack_items-Places ranked [] start
          (record { split = Perm.refl []; tail = tt; blocks = refl }) in
      let (left, same) = packed-state ranked h in
      rw (← left, ← same)
        (
          subst (λ xs. Perm (ids placed.packed ++ placed.rejected_for_budget) xs)
              (append-nil (map id_of ranked)) (Perm.trans q.split p),
          q.tail,
        )

module _ {Score : Type 0} (tokenizer : Tokenizer) (content_text : MemoryRecord → String)
    (render : MemoryRecord → String → Bool → String) (budget : ℕ) where
  -- Where packing returns, each candidate is packed or rejected for the budget, and never both; only
  -- the first packed memory may be a shortened one.
  pub pack-partition :
      (ranked : List (RankedCandidate Score)) {context : String}
      {packed : List (PackedMemory Score)} {rejected : List String}
      → Fallible.pack tokenizer content_text render ranked budget ≡ ok (context, packed, rejected)
      → Perm (ids packed ++ rejected) (map id_of ranked) × WholeTail packed
  pack-partition ranked {context} {packed} {rejected} h =
      total-partition (totalise tokenizer) content_text render budget ranked
        (pack-total tokenizer content_text render budget ranked (context, packed, rejected) h)
