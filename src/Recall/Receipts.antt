-- ===== src/Recall/Receipts.antt =====
-- `_candidate_receipt` of aoms/recall.py, and what `RecallEngine.recall` packs and accounts for. The
-- ids that supersession suppresses are given.
pub mod Reasons
use cortex_mem.Prelude.{
  ℕ, ◌==◌, string_eq, String, Bool, true, false, not, Option, none, some, List, [], ◌∷◌, map,
  filter, contains, if◌then◌else◌,
}
use cortex_mem.Errors.{Result, ok, raise, ◌>>=◌}
use cortex_mem.Contracts.{MemoryRecord, MemoryKind, Scope}
use cortex_mem.Recall.{RankedCandidate, ScoreComponent}
use cortex_mem.Recall.Pack.{Tokenizer, PackedMemory, pack}
use cortex_mem.Recall.Pack.Partition.{ids, id_of}

pub record CandidateScore (Score : Type 0) : Type 0 where
  pub memory_id : String
  pub kind : MemoryKind
  pub scope : Scope
  pub updated_at : ℕ
  pub retrieval_sources : List String
  pub total_score : Score
  pub breakdown : List (String × ScoreComponent Score)
  pub selected : Bool
  pub rejection_reason : Option String

unfoldable pub rejection_reason : Bool → List String → List String → String → Option String
rejection_reason selected budget_rejections suppressed_ids record_id =
    if selected
    then none
    else if contains suppressed_ids record_id
    then some "superseded"
    else if contains budget_rejections record_id
    then some "token_budget"
    else some "not_selected"

unfoldable pub candidate_receipt :
    {Score : Type 0}
    → List String
    → List String
    → List String
    → RankedCandidate Score
    → CandidateScore Score
candidate_receipt selected_ids budget_rejections suppressed_ids item =
    let r = item.candidate.memory in
    let selected = contains selected_ids r.id in
    record {
      memory_id = r.id;
      kind = r.kind;
      scope = r.scope;
      updated_at = r.updated_at;
      retrieval_sources = item.candidate.retrieval_sources;
      total_score = item.total_score;
      breakdown = item.breakdown;
      selected = selected;
      rejection_reason = rejection_reason selected budget_rejections suppressed_ids r.id;
    }

-- `[item for item in ranked if item.candidate.record.id not in suppressed_ids]`
unfoldable pub packable :
    {Score : Type 0} → List String → List (RankedCandidate Score) → List (RankedCandidate Score)
packable suppressed_ids =
    filter (λ (item : RankedCandidate _). not (contains suppressed_ids (id_of item)))

-- the packing of `recall` and the receipts of its candidates
unfoldable pub pack_and_account :
    {Score : Type 0}
    → Tokenizer
    → (MemoryRecord → String)
    → (MemoryRecord → String → Bool → String)
    → ℕ
    → List String
    → List (RankedCandidate Score)
    → Result (List (PackedMemory Score) × List String × List (CandidateScore Score))
pack_and_account tokenizer content_text render budget suppressed_ids ranked = do
  packing ← pack tokenizer content_text render (packable suppressed_ids ranked) budget
  let packed = packing.1
  let rejected = packing.2
  ok (packed, rejected, map (candidate_receipt (ids packed) rejected suppressed_ids) ranked)
