-- ===== src/Recall/Receipts/Reasons.antt =====
-- The reasons that the receipts of a recall of aoms/recall.py give.
use mathlib.Core.List.{Mem, Memᴰ, Perm, mem-cons_of_mem}
use mathlib.Core.List.Memᴰ
use mathlib.Core.List.Perm
use mathlib.Core.Path.{Path}
use mathlib.Core.Logic.{∥∥₁_elim}
use cortex_mem.Prelude.{
  ℕ, string_eq, ◌≡◌, sym, inl, inr, String, Bool, true, false, Option, none, some, List, [], ◌∷◌,
  ◌++◌, arith, map, contains, In, In-append, In-filter_of, In-map, In-map_inv, In→contains,
  contains→In, Bool-cases, subst,
}
use cortex_mem.Errors.{Result, ok, bind-returns}
use cortex_mem.Contracts.{MemoryRecord}
use cortex_mem.Recall.{RankedCandidate}
use cortex_mem.Recall.Pack.{Tokenizer, PackedMemory, pack}
use cortex_mem.Recall.Pack.Partition.{ids, id_of, pack-partition}
use cortex_mem.Recall.Receipts.{
  CandidateScore, rejection_reason, candidate_receipt, packable, pack_and_account,
}

In-Mem : {A : Type 0} (a : A) (xs : List A) → In a xs → Mem a xs
In-Mem a [] m = absurd m
In-Mem a (x ∷ xs) (inl e) = ∣ Memᴰ.head e ∣₁
In-Mem a (x ∷ xs) (inr m) = mem-cons_of_mem x (In-Mem a xs m)

Memᴰ-In : {A : Type 0} (a : A) (xs : List A) → Memᴰ a xs → In a xs
Memᴰ-In a [] d = absurd (Memᴰ.not-nil d)
Memᴰ-In a (x ∷ xs) d = elim (Memᴰ.cases_cons d) [ inl e ↦ inl e | inr m ↦ inr (Memᴰ-In a xs m) ]

is_true_prop : (b : Bool) → IsProp (b ≡ true)
is_true_prop b = hlevel

Perm-In : (a : String) (xs ys : List String) → Perm xs ys → In a ys → In a xs
Perm-In a xs ys p m = contains→In xs a (
    ∥∥₁_elim ((Perm.mem_iff p).1 (In-Mem a ys m)) (is_true_prop (contains xs a))
      (λ d. In→contains xs a (Memᴰ-In a xs d)))

-- Why a candidate is where it is.
pub data Accounts {Score : Type 0} (packed : List (PackedMemory Score))
    (rejected suppressed_ids : List String) (key : String) : Bool → Option String → Type 0 where
  chosen : In key (ids packed) → Accounts packed rejected suppressed_ids key true none
  superseded :
      (In key (ids packed) → ⊥)
      → In key suppressed_ids
      → Accounts packed rejected suppressed_ids key false (some "superseded")
  over_budget :
      (In key (ids packed) → ⊥)
      → In key rejected
      → Accounts packed rejected suppressed_ids key false (some "token_budget")

module _ {Score : Type 0} (packed : List (PackedMemory Score))
    (rejected suppressed_ids : List String) where
  item-Accounts :
      (item : RankedCandidate Score)
      → (contains suppressed_ids (id_of item) ≡ false → In (id_of item) (ids packed ++ rejected))
      → Accounts packed rejected suppressed_ids
          (id_of item)
          (candidate_receipt (ids packed) rejected suppressed_ids item).selected
          (candidate_receipt (ids packed) rejected suppressed_ids item).rejection_reason
  unfolding candidate_receipt rejection_reason
  item-Accounts item placed = elim (Bool-cases (contains (ids packed) (id_of item))) [
    | inl taken ↦ rw taken (chosen (contains→In (ids packed) (id_of item) taken))
    | inr left ↦
        let unpacked : In (id_of item) (ids packed) → ⊥ =
          λ m. let t = In→contains (ids packed) (id_of item) m in ground arith in
        elim (Bool-cases (contains suppressed_ids (id_of item))) [
          | inl old ↦
              rw (left, old) (superseded unpacked (contains→In suppressed_ids (id_of item) old))
          | inr current ↦ elim (In-append (id_of item) (ids packed) rejected (placed current)) [
            | inl m ↦ absurd (unpacked m)
            | inr m ↦
                let out = In→contains rejected (id_of item) m in
                rw (left, current, out) (over_budget unpacked m)
          ]
        ]
  ]

  packable-In :
      (item : RankedCandidate Score) (ranked : List (RankedCandidate Score))
      → In item ranked
      → contains suppressed_ids (id_of item) ≡ false
      → In (id_of item) (map id_of (packable suppressed_ids ranked))
  unfolding packable
  packable-In item ranked m current =
      In-map id_of item _ (In-filter_of _ item ranked m (ground (arith, current)))

returned-parts :
    {A B C : Type 0} (a : A) (b : B) (c : C) (a' : A) (b' : B) (c' : C)
    → Path (Result (A × B × C)) (ok (a, b, c)) (ok (a', b', c'))
    → (a ≡ a') × (b ≡ b') × (c ≡ c')
returned-parts a b c a' b' c' h = (ground arith, ground arith, ground arith)

module _ {Score : Type 0} (tokenizer : Tokenizer) (content_text : MemoryRecord → String)
    (render : MemoryRecord → String → Bool → String) (budget : ℕ)
    (suppressed_ids : List String) where
  -- Every receipt of a recall that packs gives the true reason: its candidate was packed, or else it
  -- was superseded, or else it did not fit the budget. No candidate is merely not selected.
  pub pack_and_account-Accounts :
      (ranked : List (RankedCandidate Score)) (packed : List (PackedMemory Score))
      (rejected : List String) (receipts : List (CandidateScore Score))
      → pack_and_account tokenizer content_text render budget suppressed_ids ranked
        ≡ ok (packed, rejected, receipts)
      → (c : CandidateScore Score) → In c receipts
      → Accounts packed rejected suppressed_ids c.memory_id c.selected c.rejection_reason
  unfolding pack_and_account candidate_receipt
  pack_and_account-Accounts ranked packed rejected receipts h c m =
      let (packing, packs, rest) =
        bind-returns (pack tokenizer content_text render (packable suppressed_ids ranked) budget) _
          h in
      let (same_packed, same_rejected, same_receipts) =
        returned-parts _ _ _ packed rejected receipts rest in
      let (item, k, e) = In-map_inv _ c ranked (subst (In c) (sym same_receipts) m) in
      rw (← same_packed, ← same_rejected, e)
        (item-Accounts packing.1 packing.2 suppressed_ids item (λ current.
          Perm-In (id_of item) _ _
            (pack-partition tokenizer content_text render budget (packable suppressed_ids ranked)
              packs).0
            (packable-In packing.1 packing.2 suppressed_ids item ranked k current)))
