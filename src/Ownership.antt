-- ===== src/Ownership.antt =====
-- aoms/ownership.py, and its batches in aoms/repositories/sqlite.py: every unscoped record is given
-- to the user's global scope. `annotation` is the JSON text of the dictionary of that name.
-- Of a snapshot, the number of records is here, and not its division by kind and tier.
pub mod Batches
use cortex_mem.Prelude.{
  ℕ, zero, suc, ◌+◌, ◌==◌, nat_eq, string_eq, option_eq, String, Bool, true, false, ◌&&◌, ◌||◌, not,
  Option, none, some, List, [], ◌∷◌, map, filter, take, if◌then◌else◌, ltb,
}
use cortex_mem.Prelude.Order.{str_order, sorted}
use cortex_mem.Errors.{Result, ok, raise, value_error}
use cortex_mem.Contracts.{MemoryRecord, Scope, agent_private, workspace, user_global, scope_eq}
use cortex_mem.Store.Rows.{Row}
use cortex_mem.Application.{dict_put}

abbrev is_null {ℓ} : {A : Type ℓ} → Option A → Bool
is_null none = true
is_null (some a) = false

-- `UNSCOPED_SQL`
unfoldable pub is_unscoped : Row → Bool
is_unscoped row =
    is_null row.created_by_agent_id
    || (row.scope == agent_private && is_null row.scope_agent_id)
    || (row.scope == workspace && is_null row.scope_workspace_id)

-- `created_by_agent_id or LEGACY_IMPORT_ACTOR`
abbrev pub actor_or_legacy : Option String → String
actor_or_legacy none = "legacy-import"
actor_or_legacy (some actor) = if actor == "" then "legacy-import" else actor

unfoldable pub assigned_record : String → MemoryRecord → MemoryRecord
assigned_record annotation r =
    let p = r.provenance in
    record r {
      scope = user_global;
      scope_agent_id = none;
      scope_workspace_id = none;
      created_by_agent_id = some (actor_or_legacy r.created_by_agent_id);
      provenance = record p { details = dict_put "ownership_assignment" annotation p.details };
    }

-- the columns that the UPDATE sets
unfoldable pub assigned_row : String → Row → Row
assigned_row annotation row = record row {
  scope = user_global;
  scope_agent_id = none;
  scope_workspace_id = none;
  created_by_agent_id = some (actor_or_legacy row.stored.created_by_agent_id);
  stored = assigned_record annotation row.stored;
}

unfoldable pub count : {A : Type 0} → (A → Bool) → List A → ℕ
count p [] = 0
count p (x ∷ xs) = let rest = count p xs in if p x then suc rest else rest

-- `WHERE id = ? AND (…)`
unfoldable pub selects : String → Row → Bool
selects key row = row.id == key && is_unscoped row

module _ (annotation : String) where
  unfoldable pub update_selected : String → List Row → List Row
  update_selected key =
      map (λ (row : Row). if selects key row then assigned_row annotation row else row)

  -- The loop over the rows of a batch, which adds the row counts.
  unfoldable pub assign_ids : List String → List Row → ℕ × List Row
  assign_ids [] rows = (0, rows)
  assign_ids (key ∷ keys) rows =
      let rest = assign_ids keys (update_selected key rows) in
      (count (selects key) rows + rest.0, rest.1)

  -- `_assign_unscoped_user_global_batch_sync`
  unfoldable pub assign_batch : ℕ → List Row → ℕ × List Row
  assign_batch limit rows =
      assign_ids
        (take limit (sorted str_order (map (λ (row : Row). row.id) (filter is_unscoped rows)))) rows

  -- The `while` loop. It runs out of fuel with `none`.
  unfoldable pub assign_loop : ℕ → ℕ → ℕ → List Row → Option (ℕ × List Row)
  assign_loop zero batch_size assigned rows = none
  assign_loop (suc fuel) batch_size assigned rows =
      let batch = assign_batch batch_size rows in
      let rest = assign_loop fuel batch_size (assigned + batch.0) batch.1 in
      if batch.0 == 0 then some (assigned, batch.1) else rest

pub record OwnershipReport : Type 0 where
  pub dry_run : Bool
  pub batch_size : ℕ
  pub would_assign : ℕ
  pub assigned_records : ℕ
  pub remaining_unscoped : ℕ

abbrev pub unscoped_records : List Row → ℕ
unscoped_records rows = count is_unscoped rows

abbrev pub report : Bool → ℕ → List Row → ℕ × List Row → OwnershipReport
report dry_run batch_size before after = record {
  dry_run = dry_run;
  batch_size = batch_size;
  would_assign = unscoped_records before;
  assigned_records = after.0;
  remaining_unscoped = unscoped_records after.1;
}

abbrev pub outcome : ℕ → List Row → Option (ℕ × List Row) → Result (OwnershipReport × List Row)
outcome batch_size before none = raise (value_error "out of fuel")
outcome batch_size before (some after) = ok (report false batch_size before after, after.1)

-- `assign_ownership`, with fuel for one batch per unscoped record and the empty one
unfoldable pub assign_ownership :
    Scope → Bool → ℕ → String → List Row → Result (OwnershipReport × List Row)
assign_ownership scope dry_run batch_size annotation rows =
    if not (scope == user_global)
    then raise (value_error "bulk ownership assignment only supports user-global")
    else if ltb batch_size 1
    then raise (value_error "batch_size must be at least 1")
    else if dry_run
    then ok (report true batch_size rows (0, rows), rows)
    else outcome batch_size rows
        (assign_loop annotation (suc (unscoped_records rows)) batch_size 0 rows)
