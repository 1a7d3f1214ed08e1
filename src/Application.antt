-- ===== src/Application.antt =====
-- aoms/application.py: `AOMSApplication` over the tables of the repository. `sha256` is hashlib's
-- hex digest, `ruleset_digest` the value of `Ruleset.digest`, and `profile` the key of the
-- embedding profile, if there is one. Values of `uuid4` and readings of the clock are arguments.
pub mod Remember
pub mod Slots
pub mod Race
pub mod Access
pub mod Kept
pub mod Supersede
pub mod Resolve
use cortex_mem.Prelude.{
  ℕ, suc, ◌+◌, String, Bool, true, false, ◌&&◌, ◌||◌, not, Option, none, some, List, [], ◌∷◌, ◌++◌,
  map, filter, if◌then◌else◌, ◌==◌, string_eq, option_eq, nat_eq,
}
use cortex_mem.Errors.{
  Result, ok, raise, value_error, permission_error, lookup_error, ◌>>=◌, ◌>>◌, raise_if,
}
use cortex_mem.Contracts.{
  MemoryRecord, RememberRequest, RememberResult, ScopeContext, Provenance, Dict, Scope,
  agent_private, workspace, user_global, WriteDisposition, admitted, contested, ContestEntry,
  WriteReceipt, Detail, Content, content_eq, slot_collision, open_state, ContestTrigger,
}
use cortex_mem.Contracts.Validate.{normalize_tags, validate_record}
use cortex_mem.Contest.{
  Ruleset, WriteIntent, SlotOccupant, SlotState, Decision, plain_admitted, is_contested, decide,
  content_digest,
}
use cortex_mem.Store.Rows.{Row, Slot, find_row, slot_occupants}
use cortex_mem.Store.Database.{Tables, LedgerWrite}
use cortex_mem.Store.{
  Conditional, inserted, kept, conflict, store_many, store_if_content_unchanged,
  open_contest_for_slot, or_else,
}

pub record App : Type 0 where
  pub scope_context : ScopeContext
  pub rules : Ruleset
  pub ruleset_digest : String
  pub profile : Option String
  pub sha256 : String → String

-- What one call draws from `uuid4` and the clocks.
pub record Draws : Type 0 where
  pub record_id : String
  pub contest_id : String
  pub receipt_id : String
  pub now : ℕ
  pub enqueued_at : ℕ

-- `_can_access`
unfoldable pub can_access : ScopeContext → MemoryRecord → Bool
can_access ctx r = elim r.scope [
  | user_global ↦ true
  | workspace ↦ r.scope_workspace_id == some ctx.workspace_id
  | agent_private ↦ r.scope_agent_id == some ctx.agent_id
]

-- `{**details, "agent_id": …}`
unfoldable pub dict_put : String → String → Dict → Dict
dict_put k v [] = (k, v) ∷ []
dict_put k v ((j, w) ∷ m) = if j == k then (k, v) ∷ m else (j, w) ∷ dict_put k v m

abbrev pub bare_provenance : String → Dict → Provenance
bare_provenance source details = record {
  source = source;
  tier = none;
  record_type = none;
  details = details;
  asserted_at = none;
  derived_from = [];
}

abbrev pub provenance_or : Option Provenance → Provenance → Provenance
provenance_or none d = d
provenance_or (some p) d = p

abbrev pub string_or : Option String → String → String
string_or none d = d
string_or (some s) d = s

-- the scope columns that the bound identity gives a request
abbrev pub agent_of : ScopeContext → Scope → Option String
agent_of ctx agent_private = some ctx.agent_id
agent_of ctx workspace = none
agent_of ctx user_global = none

abbrev pub workspace_of : ScopeContext → Scope → Option String
workspace_of ctx agent_private = none
workspace_of ctx workspace = some ctx.workspace_id
workspace_of ctx user_global = none

abbrev pub trigger_or : Option ContestTrigger → ContestTrigger
trigger_or none = slot_collision
trigger_or (some t) = t

abbrev pub occurrences : Option ContestEntry → ℕ
occurrences none = 1
occurrences (some c) = c.occurrence_count + 1

abbrev pub ledger_contest_id : Option LedgerWrite → Option String
ledger_contest_id none = none
ledger_contest_id (some l) = l.receipt.contest_id

unfoldable pub remember_result :
    MemoryRecord → Bool → Decision → Option LedgerWrite → RememberResult
remember_result r created d ledger = record {
  stored = r;
  created = created;
  disposition = r.disposition;
  contest_id = ledger_contest_id ledger;
  incumbent_ids = d.incumbent_ids;
}

module _ (app : App) where
  abbrev pub ctx : ScopeContext
  ctx = app.scope_context

  abbrev pub slot_of : String → Scope → Slot
  slot_of key scope = record {
    key = key;
    scope = scope;
    agent = agent_of ctx scope;
    workspace = workspace_of ctx scope;
  }

  abbrev pub stamped : Option Provenance → Provenance
  stamped p =
      let q = provenance_or p (bare_provenance "application" []) in
      record q { details = dict_put "agent_id" ctx.agent_id q.details }

  unfoldable pub occupant_of : MemoryRecord → SlotOccupant
  occupant_of r = record {
    record_id = r.id;
    content_sha256 = content_digest app.sha256 r.content;
    asserted_at = r.provenance.asserted_at;
    created_at = some r.created_at;
  }

  unfoldable pub intent_of : RememberRequest → Provenance → WriteIntent
  intent_of request p = record {
    kind = request.kind;
    scope = request.scope;
    content_sha256 = content_digest app.sha256 request.content;
    claim_key = request.claim_key;
    supersedes = request.supersedes;
    asserted_at = p.asserted_at;
    derived_from = p.derived_from;
  }

  -- the slot that `_adjudicate` reads: the occupants but the record itself
  unfoldable pub slot_state : String → Slot → Tables → SlotState
  slot_state record_id slot t =
      map occupant_of
        (filter (λ (r : MemoryRecord). not (r.id == record_id)) (slot_occupants slot t.memories))

  -- `_adjudicate`
  unfoldable pub adjudicate :
      RememberRequest → String → Provenance → Tables → Decision × Option ContestEntry
  adjudicate request record_id p t = elim request.claim_key [
    | none ↦ (plain_admitted, none)
    | some key ↦
        let slot = slot_of key request.scope in
        let d = decide (intent_of request p) (slot_state record_id slot t) app.rules in
        (
          d,
          if is_contested d
              then open_contest_for_slot slot ctx.agent_id t.contest_entries
              else none,
        )
  ]

  unfoldable pub build_record :
      Draws → RememberRequest → String → Provenance → WriteDisposition → MemoryRecord
  build_record draws request record_id p disposition = record {
    id = record_id;
    kind = request.kind;
    content = request.content;
    tags = normalize_tags request.tags;
    scope = request.scope;
    scope_agent_id = agent_of ctx request.scope;
    scope_workspace_id = workspace_of ctx request.scope;
    created_by_agent_id = some ctx.agent_id;
    provenance = p;
    created_at = draws.now;
    updated_at = draws.now;
    supersedes = request.supersedes;
    metadata = request.metadata;
    claim_key = request.claim_key;
    disposition = disposition;
    observation_id = request.observation_id;
  }

  unfoldable pub new_contest : Draws → MemoryRecord → Decision → ContestEntry
  new_contest draws r d = record {
    contest_id = draws.contest_id;
    record_id = r.id;
    claim_key = r.claim_key;
    observation_id = r.observation_id;
    scope = r.scope;
    scope_agent_id = r.scope_agent_id;
    scope_workspace_id = r.scope_workspace_id;
    incumbent_ids = d.incumbent_ids;
    trigger = trigger_or d.trigger;
    trigger_detail = d.detail;
    occurrence_count = 1;
    opened_at = draws.now;
    opened_by_agent_id = ctx.agent_id;
    state = open_state;
    resolution = none;
    resolved_at = none;
    resolved_by = none;
    resolution_note = none;
  }

  unfoldable pub new_receipt : Draws → MemoryRecord → Decision → Option String → ℕ → WriteReceipt
  new_receipt draws r d contest_id count = record {
    receipt_id = draws.receipt_id;
    created_at = draws.now;
    record_id = r.id;
    claim_key = r.claim_key;
    agent_id = ctx.agent_id;
    workspace_id = ctx.workspace_id;
    kind = r.kind;
    scope = r.scope;
    content_sha256 = content_digest app.sha256 r.content;
    incumbent_ids = d.incumbent_ids;
    disposition = d.disposition;
    trigger = d.trigger;
    trigger_detail = d.detail;
    contest_id = contest_id;
    asserted_at = r.provenance.asserted_at;
    derived_from = r.provenance.derived_from;
    ruleset_digest = app.ruleset_digest;
    occurrence_count = count;
  }

  abbrev pub contest_rows : Draws → MemoryRecord → Decision → Option ContestEntry → LedgerWrite
  contest_rows draws r d none = record {
    receipt = new_receipt draws r d (some draws.contest_id) 1;
    contest = some (new_contest draws r d);
    coalesced_contest_id = none;
  }
  contest_rows draws r d (some c) = record {
    receipt = new_receipt draws r d (some c.contest_id) (c.occurrence_count + 1);
    contest = none;
    coalesced_contest_id = some c.contest_id;
  }

  -- `_ledger_write`
  unfoldable pub ledger_write :
      Draws → MemoryRecord → Decision → Option ContestEntry → Option LedgerWrite
  ledger_write draws r d context = elim r.claim_key [
    | none ↦ none
    | some key ↦ some (
        if is_contested d then contest_rows draws r d context else record {
          receipt = new_receipt draws r d none (occurrences context);
          contest = none;
          coalesced_contest_id = none;
        })
  ]

  abbrev pub conflict_error : MemoryRecord → Result (RememberResult × Tables)
  conflict_error r =
      if can_access ctx r
      then raise (value_error "in-place content change")
      else raise (permission_error "memory id belongs to an inaccessible scope")

  abbrev pub conditional_result :
      Decision → Option LedgerWrite → Conditional × Tables → Result (RememberResult × Tables)
  conditional_result d ledger (inserted r, t) = ok (remember_result r true d ledger, t)
  conditional_result d ledger (kept r, t) =
      if can_access ctx r
      then ok (remember_result r false d ledger, t)
      else raise (permission_error "memory id belongs to an inaccessible scope")
  conditional_result d ledger (conflict r, t) = conflict_error r

  abbrev pub create :
      MemoryRecord → Decision → Option LedgerWrite → ℕ → Tables → Result (RememberResult × Tables)
  create r d ledger now t = do
    t' ← store_many (r ∷ []) app.profile true ledger now t
    ok (remember_result r true d ledger, t')

  abbrev pub insert_or_keep :
      MemoryRecord → Decision → Option LedgerWrite → ℕ → Tables → Result (RememberResult × Tables)
  insert_or_keep r d ledger now t = do
    c ← store_if_content_unchanged r app.profile ledger now t
    conditional_result d ledger c

  -- The write of `_remember`, with the decision that was made before it.
  unfoldable pub commit :
      Draws
      → RememberRequest
      → Bool
      → String
      → Provenance
      → Decision × Option ContestEntry
      → Tables
      → Result (RememberResult × Tables)
  commit draws request create_only record_id p verdict t = do
    let d = verdict.0
    r ← validate_record (build_record draws request record_id p d.disposition)
    let ledger = ledger_write draws r d verdict.1
    (if create_only
        then create r d ledger draws.enqueued_at t
        else insert_or_keep r d ledger draws.enqueued_at t)

  abbrev pub retained : RememberRequest → MemoryRecord → Tables → Result (RememberResult × Tables)
  retained request existing t =
      if not (can_access ctx existing)
      then raise (permission_error "memory id belongs to an inaccessible scope")
      else if not (existing.content == request.content)
      then raise
          (value_error "in-place content change; append a successor with `supersedes` instead.")
      else ok (
        record {
          stored = existing;
          created = false;
          disposition = existing.disposition;
          contest_id = none;
          incumbent_ids = [];
        },
        t,
      )

  -- `_remember`. Its awaits let other writers in, so the three reads and the write each see the
  -- tables of their own moment: the look-up, the adjudication and the store.
  unfoldable pub remember_across :
      Draws → RememberRequest → Bool → Tables → Tables → Tables → Result (RememberResult × Tables)
  remember_across draws request create_only looked_up adjudicated written =
      let record_id = string_or request.id draws.record_id in
      let p = stamped request.provenance in
      elim (find_row record_id looked_up.memories) [
        | some row ↦
            if create_only
            then raise (value_error "memory id is already in use; no record was changed")
            else retained request row.stored written
        | none ↦
            commit draws request create_only record_id p
              (adjudicate request record_id p adjudicated) written
      ]

  -- `remember` with no other writer between
  unfoldable pub remember : Draws → RememberRequest → Tables → Result (RememberResult × Tables)
  remember draws request t = remember_across draws request false t t t
