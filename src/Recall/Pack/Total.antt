-- ===== src/Recall/Pack/Total.antt =====
-- `BudgetPacker` of aoms/recall.py over a tokenizer that never raises. The packer of
-- Recall/Pack.antt agrees with it up to the first text that the tokenizer refuses.
use cortex_mem.Prelude.{
  ℕ, zero, suc, ◌+◌, ◌-◌, ◌/◌, String, Bool, true, false, Option, none, some, List, [], ◌∷◌, ◌++◌,
  length, take, is_empty, ltb, leb, if◌then◌else◌,
}
use cortex_mem.Prelude.Int.{pos, sub_ℕ}
use cortex_mem.Errors.{Result, ok, raise, assertion_error}
use cortex_mem.Contracts.{MemoryRecord}
use cortex_mem.Recall.{RankedCandidate}
use cortex_mem.Recall.Pack.{join, text_take, PackedMemory, PackState, start, append_memory}

pub record TotalTokenizer : Type 0 where
  pub count : String → ℕ
  pub encode : String → List ℕ
  pub decode : List ℕ → String

-- the loop of `_truncate_first_record`
module _ (count : String → ℕ) (budget : ℕ) (excerpt : ℕ → String) (block : String → String) where
  abbrev pub fits : ℕ → Bool
  fits n = leb (count (block (excerpt n))) budget

  unfoldable pub search : ℕ → ℕ → ℕ → String × String → String × String
  search zero low high best = best
  search (suc fuel) low high best =
      let middle = (low + high - 1) / 2 in
      elim (ltb low high) [
        | true ↦ elim (fits middle) [
          | true ↦ search fuel (middle + 1) high (block (excerpt middle), excerpt middle)
          | false ↦ search fuel low middle best
        ]
        | false ↦ best
      ]

module _ (tokenizer : TotalTokenizer) (render : MemoryRecord → String → Bool → String) where
  unfoldable pub truncate_first_record : MemoryRecord → String → ℕ → Option (String × String)
  truncate_first_record r content budget =
      let encoded = tokenizer.encode content in
      let empty_block = render r "" true in
      if ltb budget (tokenizer.count empty_block)
      then none
      else some (
          search tokenizer.count budget (λ n. tokenizer.decode (take n encoded))
            (λ excerpt. render r excerpt true) (suc (suc (length encoded))) 0 (suc (length encoded))
            (empty_block, ""))

module _ {Score : Type 0} (tokenizer : TotalTokenizer) (content_text : MemoryRecord → String)
    (render : MemoryRecord → String → Bool → String) where
  abbrev pub full_block : RankedCandidate Score → String
  full_block item = render item.candidate.memory (content_text item.candidate.memory) false

  abbrev pub whole_memory : RankedCandidate Score → ℕ → ℕ → PackedMemory Score
  whole_memory item proposed_count previous_count = record {
    ranked = item;
    block = full_block item;
    token_cost = sub_ℕ proposed_count previous_count;
    content_excerpt = text_take 240 (content_text item.candidate.memory);
    truncated = false;
  }

  abbrev pub proposed : RankedCandidate Score → PackState Score → ℕ
  proposed item s = tokenizer.count (join (s.blocks ++ full_block item ∷ []))

  unfoldable pub accept : RankedCandidate Score → PackState Score → PackState Score
  accept item s =
      append_memory (whole_memory item (proposed item s) s.packed_count) (proposed item s) s

  abbrev pub short_memory : RankedCandidate Score → String × String → PackedMemory Score
  short_memory item shortened = record {
    ranked = item;
    block = shortened.0;
    token_cost = pos (tokenizer.count shortened.0);
    content_excerpt = text_take 240 shortened.1;
    truncated = true;
  }

  unfoldable pub accept_truncated :
      RankedCandidate Score → String × String → PackState Score → PackState Score
  accept_truncated item shortened s =
      append_memory (short_memory item shortened) (tokenizer.count shortened.0) s

  unfoldable pub reject : RankedCandidate Score → PackState Score → PackState Score
  reject item s = record s {
    rejected_for_budget = s.rejected_for_budget ++ item.candidate.memory.id ∷ [];
  }

  -- the `if not blocks` part of a round
  unfoldable pub try_truncated : ℕ → RankedCandidate Score → PackState Score → PackState Score
  try_truncated budget item s =
      elim (truncate_first_record tokenizer render item.candidate.memory
        (content_text item.candidate.memory) budget) [
          | none ↦ reject item s
          | some shortened ↦ accept_truncated item shortened s
        ]

  -- one round of the loop of `pack`
  unfoldable pub pack_item : ℕ → RankedCandidate Score → PackState Score → PackState Score
  pack_item budget item s =
      if leb (proposed item s) budget
      then accept item s
      else if is_empty s.blocks
      then try_truncated budget item s
      else reject item s

  unfoldable pub pack_items : ℕ → List (RankedCandidate Score) → PackState Score → PackState Score
  pack_items budget [] s = s
  pack_items budget (item ∷ items) s = pack_items budget items (pack_item budget item s)

  -- the context, the packed memories and the ids that did not fit
  unfoldable pub pack :
      List (RankedCandidate Score) → ℕ → Result (String × List (PackedMemory Score) × List String)
  pack ranked budget =
      let s = pack_items budget ranked start in
      let context = join s.blocks in
      if ltb budget (tokenizer.count context)
      then raise (assertion_error "recall packer exceeded its token budget")
      else ok (context, s.packed, s.rejected_for_budget)
