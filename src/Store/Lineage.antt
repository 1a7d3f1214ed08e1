-- ===== src/Store/Lineage.antt =====
-- `_lineage_sync` of aoms/repositories/sqlite.py: the visible records that declared links connect.
-- The store has the contest schema. An ISO text in UTC is its instant.
pub mod Paths
pub mod Visible
use Prim.Native.String.{◌++◌ as text_append}
use Prim.Native.Char.{code}
use cortex_mem.Prelude.{
  ℕ, zero, suc, ◌==◌, string_eq, nat_eq, option_eq, String, Bool, true, false, ◌&&◌, ◌||◌, not,
  Option, none, some, List, [], ◌∷◌, ◌++◌, map, filter, contains, leb, if◌then◌else◌,
}
use cortex_mem.Prelude.Order.{sorted}
use cortex_mem.Contracts.{
  MemoryRecord, ScopeContext, agent_private, workspace, user_global, scope_eq,
}
use cortex_mem.Store.Rows.{Row, find_row, row_order}

-- `_scope_access_filter`
unfoldable pub scope_access : ScopeContext → Row → Bool
scope_access ctx row =
    row.scope == user_global
    || (row.scope == workspace && row.scope_workspace_id == some ctx.workspace_id)
    || (row.scope == agent_private && row.scope_agent_id == some ctx.agent_id)

-- `created_at <= ?`, where there is a boundary
abbrev pub created_by : Option ℕ → ℕ → Bool
created_by none created = true
created_by (some boundary) created = leb created boundary

-- the conditions that the seed and each linked row have to meet
unfoldable pub is_member : ScopeContext → Option ℕ → Bool → Row → Bool
is_member ctx as_of include_contested row =
    scope_access ctx row
    && (include_contested || not row.contested_bit)
    && created_by as_of row.created_at

-- the `ON` of the join with `linked`
unfoldable pub is_linked : Row → Row → Bool
is_linked current linked =
    current.stored.supersedes == some linked.id || linked.stored.supersedes == some current.id

unfoldable pub concat_map : {A B : Type 0} → (A → List B) → List A → List B
concat_map f [] = []
concat_map f (x ∷ xs) = f x ++ concat_map f xs

-- whether a text begins with another
unfoldable pub begins_with : String → String → Bool
begins_with String.[] text = true
begins_with (String.◌∷◌ c part) String.[] = false
begins_with (String.◌∷◌ c part) (String.◌∷◌ d text) = code c == code d && begins_with part text

-- `instr(text, part) != 0`
unfoldable pub instr : String → String → Bool
instr String.[] part = begins_with part String.[]
instr (String.◌∷◌ c text) part = begins_with part (String.◌∷◌ c text) || instr text part

-- `',' || id || ','`
unfoldable pub first_path : String → String
first_path id = text_append "," (text_append id ",")

-- `chain.path || linked.id || ','`
unfoldable pub longer_path : String → String → String
longer_path path id = text_append path (text_append id ",")

module _ (ctx : ScopeContext) (as_of : Option ℕ) (include_contested : Bool) (rows : List Row) where
  -- The rows that continue a path.
  unfoldable pub linked_rows : String → Row → List Row
  linked_rows path current =
      filter
        (λ (linked : Row).
          is_linked current linked
          && not (instr path (first_path linked.id))
          && is_member ctx as_of include_contested linked)
        rows

  -- The ids of the recursive table from one of its rows on. `remaining` is 100 - depth.
  unfoldable pub chain_ids : ℕ → String → Row → List String
  chain_ids zero path current = current.id ∷ []
  chain_ids (suc remaining) path current =
      current.id
      ∷ concat_map (λ (linked : Row). chain_ids remaining (longer_path path linked.id) linked)
          (linked_rows path current)

  -- the query's result: `SELECT DISTINCT … ORDER BY m.created_at ASC, m.id ASC`
  unfoldable pub select_chain : List String → List MemoryRecord
  select_chain ids =
      map (λ (row : Row). row.stored)
        (sorted row_order (filter (λ (row : Row). contains ids row.id) rows))

  unfoldable pub lineage : String → List MemoryRecord
  lineage record_id = elim (find_row record_id rows) [
    | none ↦ []
    | some row ↦
        if is_member ctx as_of include_contested row
        then select_chain (chain_ids 100 (first_path row.id) row)
        else []
  ]
