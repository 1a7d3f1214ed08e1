-- ===== src/Recall/Pack.antt =====
-- `BudgetPacker` of aoms/recall.py. The tokenizer is tiktoken's and a parameter; it raises on a text
-- that holds a special token. The texts that are packed are parameters too: `content_text` for
-- `memory_content_text`, and `render` for `render_memory_block` at one source, its predecessor and its
-- contest notice.
pub mod Total
pub mod Agree
pub mod Truncate
pub mod Budget
pub mod Partition
use Prim.Native.String.{◌++◌ as text_append}
use cortex_mem.Prelude.{
  ℕ, zero, suc, ◌+◌, ◌-◌, ◌/◌, String, Bool, true, false, not, Option, none, some, List, [], ◌∷◌,
  ◌++◌, length, take, is_empty, ltb, leb, if◌then◌else◌,
}
use cortex_mem.Prelude.Int.{ℤ, pos, sub_ℕ}
use cortex_mem.Errors.{Result, ok, raise, assertion_error, ◌>>=◌}
use cortex_mem.Contracts.{MemoryRecord}
use cortex_mem.Recall.{RankedCandidate}

pub record Tokenizer : Type 0 where
  pub count : String → Result ℕ
  pub encode : String → Result (List ℕ)
  pub decode : List ℕ → String

-- `PACK_SEPARATOR.join(blocks)`
unfoldable pub join : List String → String
join [] = ""
join (b ∷ []) = b
join (b ∷ c ∷ blocks) = text_append b (text_append "\n\n" (join (c ∷ blocks)))

-- `text[:n]`
unfoldable pub text_take : ℕ → String → String
text_take zero s = String.[]
text_take (suc n) String.[] = String.[]
text_take (suc n) (String.◌∷◌ c s) = String.◌∷◌ c (text_take n s)

-- Python's integers are signed, and so is the difference of two counts.
pub record PackedMemory (Score : Type 0) : Type 0 where
  pub ranked : RankedCandidate Score
  pub block : String
  pub token_cost : ℤ
  pub content_excerpt : String
  pub truncated : Bool

-- The loop of `_truncate_first_record`. `high` is one more than the source's, which falls to -1;
-- a round halves the distance, so fuel above it is enough.
module _ (count : String → Result ℕ) (budget : ℕ) (excerpt : ℕ → String)
    (block : String → String) where
  abbrev pub Search : Type 0
  Search = ℕ → ℕ → String × String → Result (String × String)

  -- one round, from the count of the block of its middle
  abbrev pub probe : Search → ℕ → ℕ → ℕ → String × String → ℕ → Result (String × String)
  probe next low middle high best counted = elim (leb counted budget) [
    | true ↦ next (middle + 1) high (block (excerpt middle), excerpt middle)
    | false ↦ next low middle best
  ]

  unfoldable pub search : ℕ → Search
  search zero low high best = ok best
  search (suc fuel) low high best =
      let middle = (low + high - 1) / 2 in
      elim (ltb low high) [
        | true ↦ count (block (excerpt middle)) >>= λ counted.
            probe (search fuel) low middle high best counted
        | false ↦ ok best
      ]

abbrev pub Packing : Type 0 → Type 0
Packing Score = String × List (PackedMemory Score) × List String

-- the variables of the loop of `pack`
pub record PackState (Score : Type 0) : Type 0 where
  pub blocks : List String
  pub packed : List (PackedMemory Score)
  pub rejected_for_budget : List String
  pub packed_count : ℕ

abbrev pub start : {Score : Type 0} → PackState Score
start = record { blocks = []; packed = []; rejected_for_budget = []; packed_count = 0 }

-- `blocks.append`, `packed.append` and the new count
abbrev pub append_memory :
    {Score : Type 0} → PackedMemory Score → ℕ → PackState Score → PackState Score
append_memory p count s = record {
  blocks = s.blocks ++ p.block ∷ [];
  packed = s.packed ++ p ∷ [];
  rejected_for_budget = s.rejected_for_budget;
  packed_count = count;
}

module _ (tokenizer : Tokenizer) (render : MemoryRecord → String → Bool → String) where
  abbrev pub found : String × String → Result (Option (String × String))
  found best = ok (some best)

  -- the search, from the encoded content and the count of the empty block
  abbrev pub search_excerpt : MemoryRecord → ℕ → List ℕ → ℕ → Result (Option (String × String))
  search_excerpt r budget encoded counted =
      if ltb budget counted
      then ok none
      else search tokenizer.count budget (λ n. tokenizer.decode (take n encoded))
          (λ excerpt. render r excerpt true) (suc (suc (length encoded))) 0 (suc (length encoded))
          (render r "" true, "")
        >>= found

  -- `_truncate_first_record`; the fence length that it fixes beforehand is part of `render`
  unfoldable pub truncate_first_record :
      MemoryRecord → String → ℕ → Result (Option (String × String))
  truncate_first_record r content budget = do
    encoded ← tokenizer.encode content
    counted ← tokenizer.count (render r "" true)
    search_excerpt r budget encoded counted

module _ {Score : Type 0} (tokenizer : Tokenizer) (content_text : MemoryRecord → String)
    (render : MemoryRecord → String → Bool → String) where
  abbrev pub full_block : RankedCandidate Score → String
  full_block item = render item.candidate.memory (content_text item.candidate.memory) false

  abbrev pub whole_memory : RankedCandidate Score → ℕ → ℕ → PackedMemory Score
  whole_memory item proposed_count previous_count = record {
    ranked = item;
    block = full_block item;
    token_cost = sub_ℕ proposed_count previous_count;
    content_excerpt = text_take 240 (content_text item.candidate.memory);
    truncated = false;
  }

  unfoldable pub accept : RankedCandidate Score → ℕ → PackState Score → PackState Score
  accept item proposed_count s =
      append_memory (whole_memory item proposed_count s.packed_count) proposed_count s

  abbrev pub short_memory : RankedCandidate Score → String × String → ℕ → PackedMemory Score
  short_memory item shortened counted = record {
    ranked = item;
    block = shortened.0;
    token_cost = pos counted;
    content_excerpt = text_take 240 shortened.1;
    truncated = true;
  }

  unfoldable pub reject : RankedCandidate Score → PackState Score → PackState Score
  reject item s = record s {
    rejected_for_budget = s.rejected_for_budget ++ item.candidate.memory.id ∷ [];
  }

  -- the `if truncated_block is not None` part of a round
  unfoldable pub accept_truncated :
      RankedCandidate Score → PackState Score → Option (String × String) → Result (PackState Score)
  accept_truncated item s none = ok (reject item s)
  accept_truncated item s (some shortened) = do
    counted ← tokenizer.count shortened.0
    ok (append_memory (short_memory item shortened counted) counted s)

  -- the `if not blocks` part of a round
  unfoldable pub try_truncated :
      ℕ → RankedCandidate Score → PackState Score → Result (PackState Score)
  try_truncated budget item s = do
    shortened ←
        truncate_first_record tokenizer render item.candidate.memory
          (content_text item.candidate.memory) budget
    accept_truncated item s shortened

  -- the rest of a round, from the count of the proposed context
  unfoldable pub place : ℕ → RankedCandidate Score → PackState Score → ℕ → Result (PackState Score)
  place budget item s proposed_count =
      if leb proposed_count budget
      then ok (accept item proposed_count s)
      else if is_empty s.blocks
      then try_truncated budget item s
      else ok (reject item s)

  -- one round of the loop of `pack`
  unfoldable pub pack_item : ℕ → RankedCandidate Score → PackState Score → Result (PackState Score)
  pack_item budget item s = do
    proposed_count ← tokenizer.count (join (s.blocks ++ full_block item ∷ []))
    place budget item s proposed_count

  unfoldable pub pack_items :
      ℕ → List (RankedCandidate Score) → PackState Score → Result (PackState Score)
  pack_items budget [] s = ok s
  pack_items budget (item ∷ items) s = do s' ← pack_item budget item s; pack_items budget items s'

  -- the last test, from the count of the context
  abbrev pub within_budget : ℕ → PackState Score → ℕ → Result (Packing Score)
  within_budget budget s counted =
      if ltb budget counted
      then raise (assertion_error "recall packer exceeded its token budget")
      else ok (join s.blocks, s.packed, s.rejected_for_budget)

  -- `pack`: the context, the packed memories and the ids that did not fit
  unfoldable pub pack : List (RankedCandidate Score) → ℕ → Result (Packing Score)
  pack ranked budget = do
    s ← pack_items budget ranked start
    counted ← tokenizer.count (join s.blocks)
    within_budget budget s counted
