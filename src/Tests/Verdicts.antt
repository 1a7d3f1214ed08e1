-- ===== src/Tests/Verdicts.antt =====
-- Corrections and verdicts of aoms/application.py over the two writes of `Tests.Writes`.
use cortex_mem.Prelude.{
  ◌≡◌, refl, ◌≢◌, ◌⊎◌, inl, inr, String, true, false, Option, none, some, filter, contains, any,
  all, In, arith, Bool, sym, ◌∙◌, ℕ,
}
use cortex_mem.Prelude.Order.{sorted}
use cortex_mem.Errors.{ok, raise, Result, lookup_error, value_error}
use cortex_mem.Contracts.{
  RememberResult, SupersedeRequest, ContestEntry, MemoryRecord, WriteReceipt, ContestResolution,
  text, admitted, admit, set_aside, admit_superseding,
}
use cortex_mem.Contracts.Validate.{normalize_tags, validate_record, normalize_loop, strip}
use cortex_mem.Contest.{
  plain_admitted, decide, decide_occupied, occupied, is_contested, content_digest,
}
use cortex_mem.Store.Rows.{
  Row, find_row, next_rowid, row_of_record, slot_occupants, holders, in_slot, superseded_in,
}
use cortex_mem.Store.Database.{
  Tables, register_profile, enqueue_if, write_ledger_if, write_ledger_rows, insert_write_receipt,
  insert_contest, coalesce, fts_row,
}
use cortex_mem.Store.{
  store_if_content_unchanged, store_record, store_records, store_many, insert_row,
  open_contest_for_slot, find_entry,
}
use cortex_mem.Store.Lineage.{
  scope_access, is_member, is_linked, concat_map, linked_rows, chain_ids, select_chain, lineage,
  instr, first_path, longer_path, begins_with,
}
use cortex_mem.Store.Lineage.Visible.{HasUniqueRows, lineage-member}
use cortex_mem.Application.{
  Draws, remember, remember_across, commit, adjudicate, slot_state, occupant_of, intent_of,
  build_record, ledger_write, new_contest, new_receipt, remember_result, dict_put, can_access,
}
use cortex_mem.Application.Access.{can_access-scope_access}
use cortex_mem.Application.Supersede.{
  supersede, append_successor, direct_successors, successor_request,
}
use cortex_mem.Application.Supersede.Heads.{supersede-head}
use cortex_mem.Store as Repository
use cortex_mem.Store.{
  apply_resolution_to_record, apply_resolution, resolved_record, close_entry, close_entries,
}
use cortex_mem.Store.Rows.{update_row}
use cortex_mem.Store.Resolution.{resolve_contest-once}
use cortex_mem.Store.Resolution.Judged.{AllJudged, resolve_contest-IsJudged}
use cortex_mem.Application.Resolve as Resolve
use cortex_mem.Application.Resolve.{
  Verdict, ResolutionDraws, ContestResolutionResult, second_step, first_step, check_split,
  admit_as_successor, resolution_receipt, admission_request,
}
use cortex_mem.Application.Resolve.Verdicts.{
  resolve_contest-atomic, resolve_contest-partial, SuccessorStays,
}
use cortex_mem.Tests.Writes.{
  app, draws', one_row, one_row-IsMirrored, two_rows, after, reply, first,
}
use cortex_mem.Tests.Data.{memory}

corrections : Unit {0}
unfolding remember remember_across commit adjudicate slot_state occupant_of intent_of build_record
    ledger_write new_contest new_receipt remember_result dict_put store_if_content_unchanged
    store_record store_records store_many insert_row open_contest_for_slot register_profile
    enqueue_if write_ledger_if write_ledger_rows insert_write_receipt insert_contest coalesce
    fts_row find_row next_rowid row_of_record slot_occupants holders in_slot superseded_in decide
    decide_occupied occupied is_contested content_digest normalize_tags normalize_loop strip
    validate_record sorted filter contains any all scope_access is_member is_linked concat_map
    linked_rows chain_ids select_chain lineage instr first_path longer_path begins_with can_access
    supersede append_successor direct_successors successor_request find_entry
    Repository.resolve_contest apply_resolution_to_record apply_resolution resolved_record
    close_entry close_entries update_row Resolve.resolve_contest second_step first_step check_split
    admit_as_successor resolution_receipt
corrections = tt

one_row-HasUniqueRows : HasUniqueRows one_row.memories
unfolding corrections
one_row-HasUniqueRows a b (inl p) (inl q) e = p ∙ sym q
one_row-HasUniqueRows a b (inl p) (inr n) e = absurd n
one_row-HasUniqueRows a b (inr m) n e = absurd m

In-lineage : In (reply first).stored (lineage app.scope_context none false one_row.memories "m1")
unfolding corrections
In-lineage = inl refl

lineage-member_example :
    (row : Row) × In row one_row.memories
    × (row.stored ≡ (reply first).stored)
    × (is_member app.scope_context none false row ≡ true)
lineage-member_example =
    lineage-member app.scope_context none false one_row.memories "m1" (reply first).stored
      one_row-HasUniqueRows In-lineage

abbrev correction : SupersedeRequest
correction = record { content = text "green"; id = none; provenance = none; claim_key = none }

abbrev corrected : Result (RememberResult × Tables)
corrected = supersede app draws' "m1" correction one_row

corrected_returns : corrected ≡ ok (reply corrected, after corrected)
unfolding corrections
corrected_returns = refl

correction_admitted : (reply corrected).disposition ≡ admitted
unfolding corrections
correction_admitted = refl

-- the corrected record is a head no longer
corrected_again :
    supersede app draws' "m1" correction (after corrected)
    ≡ raise (value_error "memory is not an apparent head; supersede its successor")
unfolding corrections
corrected_again = refl

abbrev Head : Type 0
Head =
    (old : Row) × (find_row "m1" one_row.memories ≡ some old)
    × ((row : Row) → In row one_row.memories → In row (after corrected).memories)
    × (old.contested_bit ≡ false
        → (s : Row) → In s one_row.memories
        → is_member app.scope_context none false s ≡ true
        → s.id ≢ "m1"
        → s.stored.supersedes ≢ some "m1")

supersede-head_example : Head
supersede-head_example =
    supersede-head app draws' "m1" correction one_row (after corrected) (reply corrected)
      one_row-IsMirrored (refl, (refl, tt)) corrected_returns

-- A path text with an id that holds commas hides another id.
hidden_id : instr (first_path "x,a,y") (first_path "a") ≡ true
unfolding corrections
hidden_id = refl

can_access-scope_access_example :
    scope_access app.scope_context (row_of_record 1 (memory "a" "amber"))
    ≡ can_access app.scope_context (memory "a" "amber")
can_access-scope_access_example = can_access-scope_access app.scope_context 1 (memory "a" "amber")

-- the contest that the second write opened, and its record
abbrev verdict_on : ContestResolution → Option String → Verdict
verdict_on resolution incumbent = record {
  resolution = resolution;
  resolved_by = "operator";
  note = none;
  supersede_incumbent_id = incumbent;
  new_claim_key = none;
}

abbrev closing : ResolutionDraws
closing = record { receipt_id = "w3"; now = 300; resolved_at = 301 }

abbrev third : Draws
third = record draws' { record_id = "m3"; contest_id = "c3"; receipt_id = "w4"; now = 300 }

abbrev judged : ContestResolution → Result ContestResolutionResult × Tables
judged resolution =
    Resolve.resolve_contest app third closing "c2" (verdict_on resolution none) two_rows

abbrev entry_or : Option ContestEntry → ContestEntry
entry_or (some c) = c
entry_or none = new_contest app draws' (memory "m2" "green") plain_admitted

abbrev stored_or : Option Row → MemoryRecord
stored_or (some row) = row.stored
stored_or none = memory "m2" "green"

abbrev opened : ContestEntry
opened = entry_or (find_entry "c2" two_rows.contest_entries)

abbrev challenger : MemoryRecord
challenger = stored_or (find_row "m2" two_rows.memories)

abbrev verdict_receipt : ContestResolution → WriteReceipt
verdict_receipt resolution =
    resolution_receipt app closing "c2" opened (verdict_on resolution none) none challenger

abbrev closed_by : ContestResolution → Bool → Result (ContestEntry × Tables)
closed_by resolution admits =
    Repository.resolve_contest "c2" resolution "operator" none (verdict_receipt resolution) admits
      none 301 two_rows

abbrev entry_of : Result (ContestEntry × Tables) → ContestEntry
entry_of (ok (c, t)) = c
entry_of (raise e) = opened

abbrev tables_of : Result (ContestEntry × Tables) → Tables
tables_of (ok (c, t)) = t
tables_of (raise e) = two_rows

admitting_returns :
    closed_by admit true ≡ ok (entry_of (closed_by admit true), tables_of (closed_by admit true))
unfolding corrections
admitting_returns = refl

abbrev admitted_tables : Tables
admitted_tables = tables_of (closed_by admit true)

abbrev admitted_entry : ContestEntry
admitted_entry = entry_of (closed_by admit true)

resolve_contest-once_example :
    (find_entry "c2" admitted_tables.contest_entries ≡ some admitted_entry)
    × (admitted_entry.resolution ≡ some admit)
    × ((resolution' : ContestResolution) (by' : String) (note' : Option String)
          (receipt' : WriteReceipt) (admit' : Bool) (key' : Option String) (now' : ℕ)
        → Repository.resolve_contest "c2" resolution' by' note' receipt' admit' key' now'
            admitted_tables
          ≡ raise (value_error "contest is already resolved"))
resolve_contest-once_example =
    resolve_contest-once "c2" admit "operator" none (verdict_receipt admit) true none 301 two_rows
      admitted_tables admitted_entry admitting_returns

abbrev first_row : Row
first_row = row_of_record 1 (reply first).stored

first_row_stays : In first_row admitted_tables.memories
unfolding corrections
first_row_stays = inl refl

resolve_contest-IsJudged_example :
    AllJudged admitted_entry.record_id true two_rows.memories admitted_tables.memories
    × (true ≡ true
        → (row : Row) × In row admitted_tables.memories
          × (row.id ≡ admitted_entry.record_id)
          × (row.contested_bit ≡ false))
resolve_contest-IsJudged_example =
    resolve_contest-IsJudged "c2" admit "operator" none (verdict_receipt admit) true none 301
      two_rows admitted_tables admitted_entry admitting_returns

abbrev missing : Result ContestResolutionResult × Tables
missing = Resolve.resolve_contest app third closing "c9" (verdict_on admit none) two_rows

missing_raises : missing ≡ (raise (lookup_error "contest not found"), missing.1)
unfolding corrections
missing_raises = refl

admit_other : (verdict_on admit none).resolution ≢ admit_superseding
admit_other e = ground arith

resolve_contest-atomic_example : missing.1 ≡ two_rows
resolve_contest-atomic_example =
    resolve_contest-atomic app third closing "c9" (verdict_on admit none) two_rows missing.1
      (lookup_error "contest not found") admit_other missing_raises

-- an operator sets the contest aside, and then another admits its record as a successor
abbrev set_aside_tables : Tables
set_aside_tables = tables_of (closed_by set_aside false)

abbrev late : Verdict
late = verdict_on admit_superseding (some "m1")

abbrev late_successor : Result (RememberResult × Tables)
late_successor =
    supersede app third "m1" (admission_request challenger "m1" "c2" "operator") set_aside_tables

late_successor_returns : late_successor ≡ ok (reply late_successor, after late_successor)
unfolding corrections
late_successor_returns = refl

abbrev set_aside_entry : ContestEntry
set_aside_entry = entry_of (closed_by set_aside false)

abbrev challenger_row : Row
challenger_row = row_of_record 2 challenger

found_before : find_entry "c2" set_aside_tables.contest_entries ≡ some set_aside_entry
unfolding corrections
found_before = refl

-- the successor stays behind
successor_stays : find_row "m3" (after late_successor).memories ≢ none
unfolding corrections
successor_stays e = ground arith

late_raises :
    Resolve.resolve_contest app third closing "c2" late set_aside_tables
    ≡ (raise (value_error "contest is already resolved"), after late_successor)
unfolding corrections
late_raises = refl

resolve_contest-partial_example :
    (after late_successor ≡ set_aside_tables)
    ⊎ ((entry : ContestEntry) × (row : Row) × (find_entry "c2" set_aside_tables.contest_entries
          ≡ some entry)
        × (find_row entry.record_id set_aside_tables.memories ≡ some row)
        × SuccessorStays set_aside_tables (after late_successor) row.stored)
resolve_contest-partial_example =
    resolve_contest-partial app third closing "c2" late set_aside_tables (after late_successor)
      (value_error "contest is already resolved") refl late_raises
