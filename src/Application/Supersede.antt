-- ===== src/Application/Supersede.antt =====
-- `supersede` of aoms/application.py, with no other writer between its reads and its store.
pub mod Heads
use cortex_mem.Prelude.{
  String, Bool, true, false, not, Option, none, some, List, [], ◌∷◌, filter, is_empty,
  if◌then◌else◌, ◌==◌, string_eq, option_eq,
}
use cortex_mem.Errors.{Result, raise, value_error, permission_error, lookup_error}
use cortex_mem.Contracts.{MemoryRecord, RememberRequest, RememberResult, SupersedeRequest}
use cortex_mem.Store.Rows.{Row, find_row}
use cortex_mem.Store.Database.{Tables}
use cortex_mem.Store.Lineage.{lineage}
use cortex_mem.Store.{or_else}
use cortex_mem.Application.{
  App, Draws, can_access, bare_provenance, provenance_or, string_or, remember_across,
}

module _ (app : App) where
  -- the visible records that declare `old_id`; the source sorts their ids for its message
  unfoldable pub direct_successors : String → Tables → List MemoryRecord
  direct_successors old_id t =
      filter (λ (r : MemoryRecord). r.supersedes == some old_id)
        (lineage app.scope_context none false t.memories old_id)

  unfoldable pub successor_request : MemoryRecord → String → SupersedeRequest → RememberRequest
  successor_request old successor_id request = record {
    id = some successor_id;
    kind = old.kind;
    content = request.content;
    tags = old.tags;
    scope = old.scope;
    provenance = some (
        provenance_or request.provenance
          (bare_provenance "application-supersede" (("predecessor_id", old.id) ∷ [])));
    supersedes = some old.id;
    metadata = old.metadata;
    claim_key = or_else request.claim_key old.claim_key;
    observation_id = none;
  }

  -- the part after the test for a head
  unfoldable pub append_successor :
      Draws → MemoryRecord → SupersedeRequest → Tables → Result (RememberResult × Tables)
  append_successor draws old request t =
      let successor_id = string_or request.id draws.record_id in
      elim (find_row successor_id t.memories) [
        | some row ↦ raise (value_error "successor id is already in use; no record was changed")
        | none ↦ remember_across app draws (successor_request old successor_id request) true t t t
      ]

  unfoldable pub supersede :
      Draws → String → SupersedeRequest → Tables → Result (RememberResult × Tables)
  supersede draws old_id request t = elim (find_row old_id t.memories) [
    | none ↦ raise (lookup_error "memory not found")
    | some row ↦
        if not (can_access app.scope_context row.stored)
        then raise (permission_error "memory id belongs to an inaccessible scope")
        else if not (is_empty (direct_successors old_id t))
        then raise (value_error "memory is not an apparent head; supersede its successor")
        else append_successor draws row.stored request t
  ]
