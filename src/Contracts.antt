-- ===== src/Contracts.antt =====
-- aoms/contracts/models.py and aoms/receipts.py: the canonical data types. An aware datetime is
-- its instant, a number of microseconds. A `dict[str, Any]` is an association list whose values
-- are canonical JSON texts, and content that is a dict or a list is its canonical JSON text,
-- `json.dumps(content, ensure_ascii=False, sort_keys=True)`.
pub mod Enums
pub use Enums.{
  MemoryKind, episode, decision, failure, fact, entity, relation, procedure, pattern_kind, Scope,
  agent_private, workspace, user_global, WriteDisposition, admitted, contested, ContestTrigger,
  slot_collision, retrograde, derived, policy_hold, ContestResolution, admit, admit_superseding,
  set_aside, split, ContestState, open_state, resolved, scope_eq, disposition_eq, trigger_eq,
  state_eq, resolution_eq, kind_eq,
}
pub mod Values
pub mod Validate
pub use Values.{Content, text, structured, content_eq}
use cortex_mem.Prelude.{ℕ, String, Option, List, Bool}

abbrev pub Dict : Type 0
Dict = List (String × String)

pub record ScopeContext : Type 0 where
  pub agent_id : String
  pub workspace_id : String

pub record Provenance : Type 0 where
  pub source : String
  pub tier : Option String
  pub record_type : Option String
  pub details : Dict
  pub asserted_at : Option ℕ
  pub derived_from : List String

pub record MemoryRecord : Type 0 where
  pub id : String
  pub kind : MemoryKind
  pub content : Content
  pub tags : List String
  pub scope : Scope
  pub scope_agent_id : Option String
  pub scope_workspace_id : Option String
  pub created_by_agent_id : Option String
  pub provenance : Provenance
  pub created_at : ℕ
  pub updated_at : ℕ
  pub supersedes : Option String
  pub metadata : Dict
  pub claim_key : Option String
  pub disposition : WriteDisposition
  pub observation_id : Option String

pub record RememberRequest : Type 0 where
  pub id : Option String
  pub kind : MemoryKind
  pub content : Content
  pub tags : List String
  pub scope : Scope
  pub provenance : Option Provenance
  pub supersedes : Option String
  pub metadata : Dict
  pub claim_key : Option String
  pub observation_id : Option String

pub record RememberResult : Type 0 where
  pub stored : MemoryRecord
  pub created : Bool
  pub disposition : WriteDisposition
  pub contest_id : Option String
  pub incumbent_ids : List String

pub record SupersedeRequest : Type 0 where
  pub content : Content
  pub id : Option String
  pub provenance : Option Provenance
  pub claim_key : Option String

-- The `detail` dictionaries of `Decision`, and the one that a resolution writes.
pub data Detail : Type 0 where
  no_detail : Detail
  corroboration : Detail
  derived_from_count : ℕ → Detail
  retrograde_incumbents : ℕ → ℕ → Detail
  undeclared_incumbent_count : ℕ → Detail
  declared_supersession : Bool → Detail
  resolution_detail : ContestResolution → String → Option String → Detail

pub record ContestEntry : Type 0 where
  pub contest_id : String
  pub record_id : String
  pub claim_key : Option String
  pub observation_id : Option String
  pub scope : Scope
  pub scope_agent_id : Option String
  pub scope_workspace_id : Option String
  pub incumbent_ids : List String
  pub trigger : ContestTrigger
  pub trigger_detail : Detail
  pub occurrence_count : ℕ
  pub opened_at : ℕ
  pub opened_by_agent_id : String
  pub state : ContestState
  pub resolution : Option ContestResolution
  pub resolved_at : Option ℕ
  pub resolved_by : Option String
  pub resolution_note : Option String

pub record WriteReceipt : Type 0 where
  pub receipt_id : String
  pub created_at : ℕ
  pub record_id : String
  pub claim_key : Option String
  pub agent_id : String
  pub workspace_id : String
  pub kind : MemoryKind
  pub scope : Scope
  pub content_sha256 : String
  pub incumbent_ids : List String
  pub disposition : WriteDisposition
  pub trigger : Option ContestTrigger
  pub trigger_detail : Detail
  pub contest_id : Option String
  pub asserted_at : Option ℕ
  pub derived_from : List String
  pub ruleset_digest : String
  pub occurrence_count : ℕ
