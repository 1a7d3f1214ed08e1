-- ===== src/Application/Access.antt =====
-- The scope policy, in Python for one record (aoms/application.py), and in SQL for a query
-- (aoms/repositories/sqlite.py).
use cortex_mem.Prelude.{◌≡◌, refl, string_eq, option_eq, arith}
use cortex_mem.Contracts.{
  MemoryRecord, ScopeContext, agent_private, workspace, user_global, scope_eq, Scope,
}
use cortex_mem.Store.Rows.{row_of_record}
use cortex_mem.Store.Lineage.{scope_access}
use cortex_mem.Application.{can_access}

-- `_can_access` and the filter of the queries agree on a row that was written from its record.
pub can_access-scope_access :
    (ctx : ScopeContext) (rowid : _) (r : MemoryRecord)
    → scope_access ctx (row_of_record rowid r) ≡ can_access ctx r
unfolding can_access scope_access row_of_record
can_access-scope_access ctx rowid r = go r.scope refl
  where
    go : (s : Scope) → r.scope ≡ s → scope_access ctx (row_of_record rowid r) ≡ can_access ctx r
    go user_global e = ground (arith, e)
    go workspace e = ground (arith, e)
    go agent_private e = ground (arith, e)
