-- ===== src/Store/Rows.antt =====
-- The rows of the table `memories`, and the reads that select by claim slot: `_get_sync` and
-- `_slot_occupants_sync` of aoms/repositories/sqlite.py.
use cortex_mem.Prelude.{
  ℕ, suc, String, Bool, ◌&&◌, not, Option, none, some, List, [], ◌∷◌, map, filter, any,
  if◌then◌else◌, ◌==◌, string_eq, option_eq,
}
use Prim.Native.Nat.{max}
use cortex_mem.Prelude.Order.{Order, sorted, pair_order}
use cortex_mem.Contracts.{MemoryRecord, MemoryKind, Scope, scope_eq, contested, disposition_eq}

-- `stored` is `record_json`; the other columns that a query reads stand beside it.
pub record Row : Type 0 where
  pub rowid : ℕ
  pub id : String
  pub kind : MemoryKind
  pub scope : Scope
  pub scope_agent_id : Option String
  pub scope_workspace_id : Option String
  pub created_by_agent_id : Option String
  pub created_at : ℕ
  pub updated_at : ℕ
  pub stored : MemoryRecord
  pub claim_key : Option String
  pub contested_bit : Bool

abbrev pub is_contested_record : MemoryRecord → Bool
is_contested_record r = r.disposition == contested

-- the columns of the INSERT
unfoldable pub row_of_record : ℕ → MemoryRecord → Row
row_of_record rowid r = record {
  rowid = rowid;
  id = r.id;
  kind = r.kind;
  scope = r.scope;
  scope_agent_id = r.scope_agent_id;
  scope_workspace_id = r.scope_workspace_id;
  created_by_agent_id = r.created_by_agent_id;
  created_at = r.created_at;
  updated_at = r.updated_at;
  stored = r;
  claim_key = r.claim_key;
  contested_bit = is_contested_record r;
}

-- `SELECT … FROM memories WHERE id = ?`
unfoldable pub find_row : String → List Row → Option Row
find_row key [] = none
find_row key (row ∷ rows) = if row.id == key then some row else find_row key rows

-- A claim slot: the key and the scope predicate that a query binds.
pub record Slot : Type 0 where
  pub key : String
  pub scope : Scope
  pub agent : Option String
  pub workspace : Option String

-- `claim_key = ? AND scope = ? AND contested = 0 AND scope_agent_id IS ? AND
-- scope_workspace_id IS ?`
unfoldable pub in_slot : Slot → Row → Bool
in_slot slot row =
    row.claim_key == some slot.key
    && row.scope == slot.scope
    && not row.contested_bit
    && row.scope_agent_id == slot.agent
    && row.scope_workspace_id == slot.workspace

-- the subquery of `NOT IN`: an admitted row of the slot declares this id as its predecessor
unfoldable pub superseded_in : Slot → List Row → String → Bool
superseded_in slot rows key =
    any (λ (s : Row). in_slot slot s && s.stored.supersedes == some key) rows

-- The rows that hold the slot, before they are ordered.
unfoldable pub holders : Slot → List Row → List Row
holders slot rows =
    filter (λ (row : Row). in_slot slot row && not (superseded_in slot rows row.id)) rows

abbrev pub row_order : Order Row
row_order = pair_order (λ (row : Row). row.created_at) (λ (row : Row). row.id)

-- `_slot_occupants_sync`
unfoldable pub slot_occupants : Slot → List Row → List MemoryRecord
slot_occupants slot rows = map (λ (row : Row). row.stored) (sorted row_order (holders slot rows))

-- SQLite gives a new row one more than the largest rowid.
unfoldable pub next_rowid : List Row → ℕ
next_rowid [] = 1
next_rowid (row ∷ rows) = max (suc row.rowid) (next_rowid rows)

-- `UPDATE memories SET … WHERE id = ?`
unfoldable pub update_row : String → (Row → Row) → List Row → List Row
update_row key f = map (λ (row : Row). if row.id == key then f row else row)
