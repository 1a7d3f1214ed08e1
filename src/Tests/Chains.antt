-- ===== src/Tests/Chains.antt =====
-- Supersession among five candidates of aoms/recall.py: a chain of three, and two on a cycle.
use cortex_mem.Prelude.{
  ℕ, String, ◌≡◌, ◌↔◌, refl, inl, Option, none, some, List, [], ◌∷◌, map, filter, contains, any, In,
}
use cortex_mem.Contracts.{MemoryRecord}
use cortex_mem.Recall.{RankedCandidate}
use cortex_mem.Recall.Chains.{
  put_record, put_records, records_by_id, record_at, next_id, is_adjacent, adjacency, since, walk,
  find_cycles, search, protect, suppressed_ids, predecessors, protected, SupersessionResolution,
  memory_of, resolution, resolve_supersession_chains,
}
use cortex_mem.Recall.Chains.Links.{Follows}
use cortex_mem.Recall.Chains.Heads.{SupersededBy}
use cortex_mem.Recall.Chains.Resolved.{
  candidates, resolve_supersession_chains-SupersededBy, resolve_supersession_chains-Follows,
}
use cortex_mem.Prelude.Order.{sorted, str_leb}
use cortex_mem.Truth.Chains.{
  ChainCategory, ChainFinding, ChainHealthReport, scope_key, visibility_domains_overlap, ids_leb,
  all_link_findings, cycle_keys, head_findings, component_findings, chain_report, diagnose_chains,
}
use cortex_mem.Truth.Chains.Cycles.{diagnose_chains-Follows}
use cortex_mem.Tests.Data.{memory}

abbrev candidate : String → Option String → RankedCandidate ℕ
candidate id target = record {
  candidate = record {
    memory = record (memory id "text") { supersedes = target };
    fts_score = 1;
    retrieval_sources = [];
    vector_score = none;
  };
  total_score = 1;
  breakdown = [];
}

abbrev ranked : List (RankedCandidate ℕ)
ranked =
    candidate "b" (some "a")
    ∷ candidate "a" none
    ∷ candidate "c" (some "b")
    ∷ candidate "d" (some "e")
    ∷ candidate "e" (some "d")
    ∷ []

chains : Unit {0}
unfolding put_record put_records records_by_id record_at next_id is_adjacent adjacency since walk
    find_cycles search protect suppressed_ids predecessors protected resolution
    resolve_supersession_chains filter contains any
chains = tt

abbrev resolved : SupersessionResolution ℕ
resolved = resolution ranked ("e" ∷ "d" ∷ [])

chains-resolved : resolve_supersession_chains ranked ≡ some resolved
unfolding chains
chains-resolved = refl

-- The head of the chain stays, and so do the two on the cycle.
chains-packable :
    map (λ (item : RankedCandidate ℕ). (memory_of item).id) resolved.packable ≡ "c" ∷ "d" ∷ "e" ∷ []
unfolding chains
chains-packable = refl

a_suppressed : In "a" resolved.suppressed
unfolding chains
a_suppressed = inl refl

resolve_supersession_chains-SupersededBy_example :
    (res : SupersessionResolution ℕ) × (resolve_supersession_chains ranked ≡ some res)
    × ((x : String)
        → In x res.suppressed
          ↔ ((r : MemoryRecord) × In r (candidates ranked) × SupersededBy (candidates ranked) x r))
resolve_supersession_chains-SupersededBy_example = resolve_supersession_chains-SupersededBy ranked

resolve_supersession_chains-Follows_example :
    (item : RankedCandidate ℕ) × In item resolved.packable
    × Follows (candidates ranked) (memory_of item).id "a"
resolve_supersession_chains-Follows_example =
    resolve_supersession_chains-Follows ranked resolved "a" chains-resolved a_suppressed

diagnosis : Unit {0}
unfolding chains scope_key visibility_domains_overlap ids_leb all_link_findings cycle_keys
    head_findings component_findings chain_report diagnose_chains sorted str_leb
diagnosis = tt

abbrev records : List MemoryRecord
records = map memory_of ranked

-- the chain's head is alone, and the cycle has no head
diagnosed :
    diagnose_chains (record (memory "x" "text") { supersedes = some "gone" } ∷ records) none
    ≡ some (record {
      records_scanned = 6;
      findings =
          record { category = ChainCategory.cycle; ids = "d" ∷ "e" ∷ [] }
          ∷ record { category = ChainCategory.dangling_target; ids = "x" ∷ "gone" ∷ [] }
          ∷ [];
    })
unfolding diagnosis
diagnosed = refl

diagnose_chains-Follows_example :
    (health : ChainHealthReport) × (diagnose_chains records none ≡ some health)
    × ((x : String)
        → ((f : ChainFinding) × In f health.findings
            × (f.category ≡ ChainCategory.cycle)
            × In x f.ids)
          ↔ Follows (records_by_id records) x x)
diagnose_chains-Follows_example = diagnose_chains-Follows records none
