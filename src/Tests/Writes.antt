-- ===== src/Tests/Writes.antt =====
-- Writes of aoms/application.py against an empty store.
use cortex_mem.Prelude.{
  ◌≡◌, refl, ◌≢◌, eq_iff, inl, inr, true, false, String, none, some, [], ◌∷◌, filter, contains, any,
  all,
}
use cortex_mem.Prelude.Order.{sorted}
use cortex_mem.Errors.{ok, raise, Result}
use cortex_mem.Contracts.{
  RememberRequest, RememberResult, fact, workspace, text, admitted, contested,
}
use cortex_mem.Contracts.Validate.{normalize_tags, validate_record, normalize_loop, strip}
use cortex_mem.Contest.{
  default_ruleset, plain_admitted, decide, decide_occupied, occupied, is_contested, content_digest,
}
use cortex_mem.Store.Rows.{
  Slot, find_row, next_rowid, row_of_record, slot_occupants, holders, in_slot, superseded_in,
}
use cortex_mem.Store.Database.{
  Tables, register_profile, enqueue_if, write_ledger_if, write_ledger_rows, insert_write_receipt,
  insert_contest, coalesce, fts_row,
}
use cortex_mem.Store.{store_if_content_unchanged, store_record, insert_row, open_contest_for_slot}
use cortex_mem.Application.{
  App, Draws, remember, remember_across, commit, adjudicate, slot_state, occupant_of, intent_of,
  build_record, stamped, ledger_write, new_contest, new_receipt, remember_result, dict_put,
  can_access,
}
use cortex_mem.Store.Slots.{In-holders}
use cortex_mem.Application.Remember.{request_provenance}
use cortex_mem.Application.Kept.{SameLedger, remember_across-kept}
use cortex_mem.Application.Race.{IsUnclaimed, remember_race}
use cortex_mem.Application.Slots.{IsMirrored, HasOneAnswer, remember-HasOneAnswer}

abbrev pub empty : Tables
empty = record {
  memories = [];
  memories_fts = [];
  contest_entries = [];
  write_receipts = [];
  vector_profiles = [];
  embedding_pending = [];
}

abbrev pub identity : String → String
identity s = s

abbrev pub app : App
app = record {
  scope_context = record { agent_id = "claude"; workspace_id = "myproject" };
  rules = default_ruleset;
  ruleset_digest = "d";
  profile = none;
  sha256 = identity;
}

abbrev pub draws : Draws
draws = record {
  record_id = "m1";
  contest_id = "c1";
  receipt_id = "w1";
  now = 100;
  enqueued_at = 101;
}

abbrev pub gate_request : RememberRequest
gate_request = record {
  id = none;
  kind = fact;
  content = text "amber";
  tags = "release" ∷ [];
  scope = workspace;
  provenance = none;
  supersedes = none;
  metadata = [];
  claim_key = some "release.gate";
  observation_id = none;
}

program : Unit {0}
unfolding can_access remember remember_across commit adjudicate slot_state occupant_of intent_of
    build_record ledger_write new_contest new_receipt remember_result dict_put
    store_if_content_unchanged store_record insert_row open_contest_for_slot register_profile
    enqueue_if write_ledger_if write_ledger_rows insert_write_receipt insert_contest coalesce
    fts_row find_row next_rowid row_of_record slot_occupants holders in_slot superseded_in decide
    decide_occupied occupied is_contested content_digest normalize_tags normalize_loop strip
    validate_record sorted filter contains any all
program = tt

abbrev pub after : Result (RememberResult × Tables) → Tables
after (ok (res, t)) = t
after (raise e) = empty

abbrev pub no_result : RememberResult
no_result =
    remember_result (build_record app draws gate_request "" (stamped app none) admitted) false
      plain_admitted none

abbrev pub reply : Result (RememberResult × Tables) → RememberResult
reply (ok (res, t)) = res
reply (raise e) = no_result

abbrev pub first : Result (RememberResult × Tables)
first = remember app draws gate_request empty

abbrev pub one_row : Tables
one_row = after first

first_returns : first ≡ ok (reply first, one_row)
unfolding program
first_returns = refl

empty-HasOneAnswer : (slot : Slot) → HasOneAnswer app slot empty.memories
empty-HasOneAnswer slot a b ma mb = absurd ((In-holders slot [] a).0 ma).0

empty-IsMirrored : IsMirrored empty
empty-IsMirrored row m = absurd m

first_one : (slot : Slot) → HasOneAnswer app slot one_row.memories
first_one =
    remember-HasOneAnswer app draws gate_request empty one_row (reply first) (inl refl)
      empty-IsMirrored empty-HasOneAnswer first_returns

pub one_row-IsMirrored : IsMirrored one_row
unfolding program
one_row-IsMirrored row (inl e) = rw e
one_row-IsMirrored row (inr m) = absurd m

-- a rival answer to the same claim, under other draws
abbrev pub rival_request : RememberRequest
rival_request = record gate_request { content = text "green" }

abbrev pub draws' : Draws
draws' = record {
  record_id = "m2";
  contest_id = "c2";
  receipt_id = "w2";
  now = 200;
  enqueued_at = 201;
}

abbrev pub second : Result (RememberResult × Tables)
second = remember app draws' rival_request one_row

abbrev pub two_rows : Tables
two_rows = after second

second_returns : second ≡ ok (reply second, two_rows)
unfolding program
second_returns = refl

second_contested : (reply second).disposition ≡ contested
unfolding program
second_contested = refl

abbrev gate_slot : Slot
gate_slot = record {
  key = "release.gate";
  scope = workspace;
  agent = none;
  workspace = some "myproject";
}

remember-HasOneAnswer_example : HasOneAnswer app gate_slot two_rows.memories
remember-HasOneAnswer_example =
    remember-HasOneAnswer app draws' rival_request one_row two_rows (reply second) (inl refl)
      one_row-IsMirrored first_one second_returns gate_slot

-- the rival adjudicates while the store is still empty, and stores after the first call
abbrev interleaved : Result (RememberResult × Tables)
interleaved = remember_across app draws' rival_request false empty empty one_row

interleaved_returns : interleaved ≡ ok (reply interleaved, after interleaved)
unfolding program
interleaved_returns = refl

first_new : find_row "m1" empty.memories ≡ none
unfolding program
first_new = refl

rival_new : find_row "m2" empty.memories ≡ none
unfolding program
rival_new = refl

rival_fresh : find_row "m2" one_row.memories ≡ none
unfolding program
rival_fresh = refl

unclaimed : IsUnclaimed gate_slot empty.memories
unfolding program
unclaimed = refl

contents_differ : content_digest identity (text "amber") ≢ content_digest identity (text "green")
unfolding program
contents_differ e = cc ((eq_iff "amber" "green").1 e)

remember_race_example : ¬ HasOneAnswer app gate_slot (after interleaved).memories
unfolding remember
remember_race_example =
    remember_race app "release.gate" draws draws' gate_request rival_request gate_slot empty one_row
      (after interleaved) (reply first) (reply interleaved)
      (record { claims = refl; in_scope = refl; undeclared = refl })
      (record { claims = refl; in_scope = refl; undeclared = refl }) unclaimed first_new rival_new
      rival_fresh contents_differ first_returns interleaved_returns

-- another writer stored the same record between the look-up and the store
abbrev draws'' : Draws
draws'' = record draws' { contest_id = "c9"; receipt_id = "w9" }

abbrev beaten : Result (RememberResult × Tables)
beaten = remember_across app draws'' rival_request false one_row one_row two_rows

beaten_returns : beaten ≡ ok (reply beaten, after beaten)
unfolding program
beaten_returns = refl

beaten_kept : (reply beaten).created ≡ false
unfolding program
beaten_kept = refl

beaten_contested :
    is_contested
      (adjudicate app rival_request "m2" (request_provenance app draws'' rival_request) one_row).0
    ≡ true
unfolding program
beaten_contested = refl

beaten_first :
    (adjudicate app rival_request "m2" (request_provenance app draws'' rival_request) one_row).1
    ≡ none
unfolding program
beaten_first = refl

remember_across-kept_example :
    SameLedger two_rows (after beaten) × ((reply beaten).contest_id ≡ some "c9")
remember_across-kept_example =
    remember_across-kept app draws'' rival_request one_row one_row two_rows (after beaten)
      (reply beaten) "release.gate" rival_fresh refl beaten_contested beaten_first beaten_returns
      beaten_kept
