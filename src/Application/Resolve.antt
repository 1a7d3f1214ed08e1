-- ===== src/Application/Resolve.antt =====
-- `resolve_contest` of aoms/application.py. It makes up to two transactions, so it returns the
-- tables as they are left also where it raises.
pub mod Verdicts
use cortex_mem.Prelude.{
  ℕ, String, Bool, true, false, ◌||◌, not, Option, none, some, List, [], ◌∷◌, is_empty,
  if◌then◌else◌, ◌==◌,
}
use cortex_mem.Errors.{Error, Result, ok, raise, value_error, permission_error, lookup_error}
use cortex_mem.Contracts.{
  MemoryRecord, RememberResult, SupersedeRequest, Provenance, Dict, ContestEntry, WriteReceipt,
  ContestResolution, admit, admit_superseding, set_aside, split, admitted, contested,
  resolution_detail, resolution_eq,
}
use cortex_mem.Contest.{content_digest}
use cortex_mem.Store.Rows.{Slot, find_row, slot_occupants}
use cortex_mem.Store.Database.{Tables}
use cortex_mem.Store.{find_entry, or_else}
use cortex_mem.Store as Repository
use cortex_mem.Application.{App, Draws, can_access, bare_provenance}
use cortex_mem.Application.Supersede.{supersede}

-- the `summary` texts
pub data Summary : Type 0 where
  successor_admitted : String → String → String → Summary
  slot_held : String → Option String → Summary
  record_set_aside : String → Summary
  record_refiled : String → String → Summary

pub record ContestResolutionResult : Type 0 where
  pub entry : ContestEntry
  pub successor_id : Option String
  pub summary : Summary

-- The arguments of a verdict.
pub record Verdict : Type 0 where
  pub resolution : ContestResolution
  pub resolved_by : String
  pub note : Option String
  pub supersede_incumbent_id : Option String
  pub new_claim_key : Option String

-- What the second transaction draws from `uuid4` and the clocks.
pub record ResolutionDraws : Type 0 where
  pub receipt_id : String
  pub now : ℕ
  pub resolved_at : ℕ

abbrev pub admits : ContestResolution → Bool
admits resolution = resolution == admit || resolution == split

-- the slot of a new key, in the scope of the contested record
abbrev pub refiled_slot : MemoryRecord → String → Slot
refiled_slot r key = record {
  key = key;
  scope = r.scope;
  agent = r.scope_agent_id;
  workspace = r.scope_workspace_id;
}

abbrev pub admission_request : MemoryRecord → String → String → String → SupersedeRequest
admission_request r incumbent contest_id by = record {
  content = r.content;
  id = none;
  provenance = some (
      bare_provenance "contest-resolution"
        (("predecessor_id", incumbent) ∷ ("contest_id", contest_id) ∷ ("resolved_by", by) ∷ []));
  claim_key = r.claim_key;
}

module _ (app : App) where
  abbrev pub successor_outcome :
      String
      → String
      → Tables
      → Result (RememberResult × Tables)
      → Result (Option String × Summary) × Tables
  successor_outcome incumbent contested_id t (ok (res, t')) =
      (ok (some res.stored.id, successor_admitted res.stored.id incumbent contested_id), t')
  successor_outcome incumbent contested_id t (raise e) = (raise e, t)

  unfoldable pub admit_as_successor :
      Draws → String → Verdict → MemoryRecord → Tables → Result (Option String × Summary) × Tables
  admit_as_successor draws contest_id v r t = elim v.supersede_incumbent_id [
    | none ↦ (raise (value_error "admit-superseding requires an incumbent id"), t)
    | some incumbent ↦
        successor_outcome incumbent r.id t
          (supersede app draws incumbent (admission_request r incumbent contest_id v.resolved_by) t)
  ]

  unfoldable pub check_split :
      Verdict → MemoryRecord → Tables → Result (Option String × Summary) × Tables
  check_split v r t = elim v.new_claim_key [
    | none ↦ (raise (value_error "split requires a new claim key"), t)
    | some key ↦
        if is_empty (slot_occupants (refiled_slot r key) t.memories)
        then (ok (none, record_refiled r.id key), t)
        else (raise (value_error "claim key is already held"), t)
  ]

  -- the chain of tests on the resolution
  unfoldable pub first_step :
      Draws → String → Verdict → MemoryRecord → Tables → Result (Option String × Summary) × Tables
  first_step draws contest_id v r t = elim v.resolution [
    | admit_superseding ↦ admit_as_successor draws contest_id v r t
    | admit ↦ (ok (none, slot_held r.id r.claim_key), t)
    | set_aside ↦ (ok (none, record_set_aside r.id), t)
    | split ↦ check_split v r t
  ]

  unfoldable pub resolution_receipt :
      ResolutionDraws
      → String
      → ContestEntry
      → Verdict
      → Option String
      → MemoryRecord
      → WriteReceipt
  resolution_receipt draws contest_id entry v successor_id r = record {
    receipt_id = draws.receipt_id;
    created_at = draws.now;
    record_id = r.id;
    claim_key = or_else v.new_claim_key r.claim_key;
    agent_id = v.resolved_by;
    workspace_id = app.scope_context.workspace_id;
    kind = r.kind;
    scope = r.scope;
    content_sha256 = content_digest app.sha256 r.content;
    incumbent_ids = entry.incumbent_ids;
    disposition = if admits v.resolution then admitted else contested;
    trigger = some entry.trigger;
    trigger_detail = resolution_detail v.resolution contest_id successor_id;
    contest_id = some contest_id;
    asserted_at = r.provenance.asserted_at;
    derived_from = r.provenance.derived_from;
    ruleset_digest = app.ruleset_digest;
    occurrence_count = entry.occurrence_count;
  }

  abbrev pub closing_outcome :
      Option String × Summary
      → Tables
      → Result (ContestEntry × Tables)
      → Result ContestResolutionResult × Tables
  closing_outcome step t (ok (entry, t')) =
      (ok (record { entry = entry; successor_id = step.0; summary = step.1 }), t')
  closing_outcome step t (raise e) = (raise e, t)

  -- the receipt and the call of the repository, in the tables that the first step left
  unfoldable pub second_step :
      ResolutionDraws
      → String
      → ContestEntry
      → Verdict
      → MemoryRecord
      → Result (Option String × Summary) × Tables
      → Result ContestResolutionResult × Tables
  second_step draws contest_id entry v r (raise e, t) = (raise e, t)
  second_step draws contest_id entry v r (ok step, t) = closing_outcome step t (
      Repository.resolve_contest contest_id v.resolution v.resolved_by v.note
        (resolution_receipt draws contest_id entry v step.0 r) (admits v.resolution) v.new_claim_key
        draws.resolved_at t)

  unfoldable pub resolve_contest :
      Draws → ResolutionDraws → String → Verdict → Tables → Result ContestResolutionResult × Tables
  resolve_contest draws resolution_draws contest_id v t =
      elim (find_entry contest_id t.contest_entries) [
        | none ↦ (raise (lookup_error "contest not found"), t)
        | some entry ↦ elim (find_row entry.record_id t.memories) [
          | none ↦ (raise (lookup_error "contested record not found"), t)
          | some row ↦
              if can_access app.scope_context row.stored
              then second_step resolution_draws contest_id entry v row.stored
                  (first_step draws contest_id v row.stored t)
              else (raise (permission_error "contest belongs to an inaccessible scope"), t)
        ]
      ]
