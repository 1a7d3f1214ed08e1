-- ===== src/Recall.antt =====
-- aoms/recall.py: what recall keeps of its candidates and how it fills a token budget. A score is a
-- float in the source; the parts here never compute with one, so its type is a parameter.
pub mod Chains
pub mod Pack
pub mod Fence
pub mod Receipts
use cortex_mem.Prelude.{String, List, Option}
use cortex_mem.Contracts.{MemoryRecord}

pub record RecallCandidate (Score : Type 0) : Type 0 where
  pub memory : MemoryRecord
  pub fts_score : Score
  pub retrieval_sources : List String
  pub vector_score : Option Score

pub record ScoreComponent (Score : Type 0) : Type 0 where
  pub raw : Score
  pub weight : Score
  pub contribution : Score

pub record RankedCandidate (Score : Type 0) : Type 0 where
  pub candidate : RecallCandidate Score
  pub total_score : Score
  pub breakdown : List (String × ScoreComponent Score)
