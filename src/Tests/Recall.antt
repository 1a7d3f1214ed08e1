-- ===== src/Tests/Recall.antt =====
-- Packing of aoms/recall.py under a tokenizer of one token per character.
use mathlib.Core.List.{Perm}
use cortex_mem.Prelude.{
  ℕ, zero, suc, ◌≤◌, ◌<◌, ◌≡◌, refl, ◌⊎◌, String, Bool, true, false, none, some, List, [], ◌∷◌,
  ◌++◌, map, filter, contains, Option, inl, inr, arith, length, take, ap,
}
use cortex_mem.Prelude.Int.{pos, sub_ℕ}
use cortex_mem.Errors.{ok, raise, Error, Result}
use cortex_mem.Recall.Pack.Agree.{totalise, Refuses}
use cortex_mem.Contracts.{fact, workspace, MemoryRecord, Content, text, structured}
use cortex_mem.Tests.Data.{memory}
use cortex_mem.Recall.{RankedCandidate}
use cortex_mem.Recall.Fence.{fence_length, longest_run}
use cortex_mem.Recall.Fence.Runs.{HasRun, fence_length-shortest}
use cortex_mem.Recall.Receipts.{
  CandidateScore, pack_and_account, packable, candidate_receipt, rejection_reason,
}
use cortex_mem.Recall.Receipts.Reasons.{Accounts, pack_and_account-Accounts}
use cortex_mem.Recall.Pack.{
  Tokenizer, join, search, truncate_first_record, PackedMemory, pack, pack_items, pack_item, accept,
  accept_truncated, reject, try_truncated, text_take, short_memory, place,
}
use cortex_mem.Recall.Pack.Truncate.{
  truncate_first_record-Longest, Longest, prefix_text, short_block,
}
use cortex_mem.Recall.Pack.Partition.{ids, id_of, WholeTail, pack-partition}
use cortex_mem.Recall.Pack.Budget.{pack_fits, total_cost}

abbrev characters : String → ℕ
characters String.[] = 0
characters (String.◌∷◌ c s) = suc (characters s)

-- a token is a character, and every character reads the same
abbrev encode : String → List ℕ
encode String.[] = []
encode (String.◌∷◌ c s) = 0 ∷ encode s

abbrev decode : List ℕ → String
decode [] = ""
decode (n ∷ ns) = String.◌∷◌ "x" (decode ns)

abbrev letters : Tokenizer
letters = record { count = λ s. ok (characters s); encode = λ s. ok (encode s); decode = decode }

abbrev content_of : Content → String
content_of (text s) = s
content_of (structured s) = s

abbrev body : MemoryRecord → String
body r = content_of r.content

abbrev render : MemoryRecord → String → Bool → String
render r content truncated = content

abbrev ranked : String → String → RankedCandidate ℕ
ranked id content = record {
  candidate = record {
    memory = memory id content;
    fts_score = 0;
    retrieval_sources = [];
    vector_score = none;
  };
  total_score = 0;
  breakdown = [];
}

-- the first is shortened, the second fits after it, and the third does not
abbrev candidates : List (RankedCandidate ℕ)
candidates = ranked "a" "xxxxxxxxxxxx" ∷ ranked "b" "xyz" ∷ ranked "c" "z" ∷ []

packing : Unit {0}
unfolding join search truncate_first_record pack pack_items pack_item accept accept_truncated reject
    try_truncated text_take take sub_ℕ place
packing = tt

abbrev Fitting : Type 0
Fitting =
    ((context : String) × (packed : List (PackedMemory ℕ)) × (rejected : List String)
      × (counted : ℕ) × (pack letters body render candidates 8 ≡ ok (context, packed, rejected))
      × (letters.count context ≡ ok counted)
      × (counted ≤ 8)
      × (context ≡ join (map (λ (p : PackedMemory ℕ). p.block) packed))
      × (total_cost (pos 0) packed ≡ pos counted))
    ⊎ ((e : Error) × (pack letters body render candidates 8 ≡ raise e) × Refuses letters e)

pack_fits_example : Fitting
pack_fits_example = pack_fits letters body render 8 refl candidates

short_found :
    truncate_first_record letters render (memory "a" "xxxxxxxxxxxx") "xxxxxxxxxxxx" 8
    ≡ ok (some ("xxxxxxxx", "xxxxxxxx"))
unfolding packing
short_found = refl

count-decode : (ns : List ℕ) → characters (decode ns) ≡ length ns
count-decode [] = refl
count-decode (n ∷ ns) = ap suc (count-decode ns)

length-take_le : (m n : ℕ) (ns : List ℕ) → m ≤ n → length (take m ns) ≤ length (take n ns)
unfolding take
length-take_le zero n ns le = omega arith
length-take_le (suc m) zero ns le = absurd (omega arith)
length-take_le (suc m) (suc n) [] le = omega arith
length-take_le (suc m) (suc n) (k ∷ ns) le = omega (arith, length-take_le m n ns (omega arith))

shorter_fits :
    (m n : ℕ)
    → m ≤ n
    → characters (decode (take n (encode "xxxxxxxxxxxx"))) ≤ 8
    → characters (decode (take m (encode "xxxxxxxxxxxx"))) ≤ 8
shorter_fits m n le fit = omega (
  arith,
  length-take_le m n (encode "xxxxxxxxxxxx") le,
  count-decode (take n (encode "xxxxxxxxxxxx")),
  count-decode (take m (encode "xxxxxxxxxxxx")),
  fit,
)

truncate_first_record-Longest_example :
    Longest
      (totalise letters).count
      8
      (prefix_text (totalise letters) render (memory "a" "xxxxxxxxxxxx") "xxxxxxxxxxxx" 8)
      (short_block (totalise letters) render (memory "a" "xxxxxxxxxxxx") "xxxxxxxxxxxx" 8)
      13
      ("xxxxxxxx", "xxxxxxxx")
truncate_first_record-Longest_example =
    truncate_first_record-Longest letters render (memory "a" "xxxxxxxxxxxx") "xxxxxxxxxxxx" 8 refl
      shorter_fits short_found

abbrev shortened : PackedMemory ℕ
shortened = short_memory letters body render (ranked "a" "xxxxxxxxxxxx") ("xxxxxxxx", "xxxxxxxx") 8

packs : pack letters body render candidates 8 ≡ ok ("xxxxxxxx", shortened ∷ [], "b" ∷ "c" ∷ [])
unfolding packing
packs = refl

pack-partition_example :
    Perm (ids (shortened ∷ []) ++ "b" ∷ "c" ∷ []) (map id_of candidates)
    × WholeTail (shortened ∷ [])
pack-partition_example = pack-partition letters body render 8 candidates packs

-- a payload with a run of five has a fence of six
fence_of_six : fence_length "`````" ≡ 6
unfolding fence_length longest_run
fence_of_six = refl

fence_length-shortest_example :
    (4 ≤ fence_length "`````")
    × ((n : ℕ) → HasRun n "`````" → n < fence_length "`````")
    × ((width : ℕ)
        → 4 ≤ width
        → ((n : ℕ) → HasRun n "`````" → n < width)
        → fence_length "`````" ≤ width)
fence_length-shortest_example = fence_length-shortest "`````"

abbrev evidence : Result (List (PackedMemory ℕ) × List String × List (CandidateScore ℕ))
evidence = pack_and_account letters body render 8 ("b" ∷ []) candidates

abbrev receipt_of : String → Bool → Option String → CandidateScore ℕ
receipt_of id selected reason = record {
  memory_id = id;
  kind = fact;
  scope = workspace;
  updated_at = 1;
  retrieval_sources = [];
  total_score = 0;
  breakdown = [];
  selected = selected;
  rejection_reason = reason;
}

abbrev receipts : List (CandidateScore ℕ)
receipts =
    receipt_of "a" true none
    ∷ receipt_of "b" false (some "superseded")
    ∷ receipt_of "c" false (some "token_budget")
    ∷ []

evidence_returns : evidence ≡ ok (shortened ∷ [], "c" ∷ [], receipts)
unfolding join search truncate_first_record pack pack_items pack_item accept accept_truncated reject
    try_truncated text_take take sub_ℕ place pack_and_account packable candidate_receipt
    rejection_reason filter contains
evidence_returns = refl

pack_and_account-Accounts_example :
    Accounts (shortened ∷ []) ("c" ∷ []) ("b" ∷ []) "b" false (some "superseded")
pack_and_account-Accounts_example =
    pack_and_account-Accounts letters body render 8 ("b" ∷ []) candidates (shortened ∷ [])
      ("c" ∷ []) receipts evidence_returns (receipt_of "b" false (some "superseded"))
      (inr (inl refl))
