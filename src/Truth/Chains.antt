-- ===== src/Truth/Chains.antt =====
-- `diagnose_chains` of aoms/truth.py. Its walks and searches are the loops that recall.py has too,
-- and are taken from there. The records are rows of one table, so no two have the same id.
pub mod Cycles
use cortex_mem.Prelude.{
  ℕ, ◌+◌, String, Bool, true, false, ◌&&◌, ◌||◌, not, Option, none, some, List, [], ◌∷◌, ◌++◌, map,
  filter, any, contains, length, ltb, ◌≡◌, refl, arith, ◌==◌, string_eq, option_eq, if◌then◌else◌,
}
use cortex_mem.Prelude.Order.{Order, sorted, str_order, str_leb, str_leb_total, str_leb_trans}
use cortex_mem.Contracts.{MemoryRecord, Scope, agent_private, workspace, user_global, scope_eq}
use cortex_mem.Recall.Chains.{
  records_by_id, record_at, record_ids, known, walk, walk_fuel, search, search_fuel, ◌>>=?◌,
}

pub data ChainCategory : Type 0 where
  cycle dangling_target multiple_heads both_ends_retrievable scope_boundary : ChainCategory

abbrev category_text : ChainCategory → String
category_text cycle = "cycle"
category_text dangling_target = "dangling-target"
category_text multiple_heads = "multiple-heads"
category_text both_ends_retrievable = "both-ends-retrievable"
category_text scope_boundary = "scope-boundary"

-- `detail` is a text for each category, but for the two ids in that of a dangling target.
pub record ChainFinding : Type 0 where
  pub category : ChainCategory
  pub ids : List String

pub record ChainHealthReport : Type 0 where
  pub records_scanned : ℕ
  pub findings : List ChainFinding

-- `_scope_key`
unfoldable pub scope_key : MemoryRecord → Scope × Option String
scope_key r = elim r.scope [
  | user_global ↦ (user_global, none)
  | workspace ↦ (workspace, r.scope_workspace_id)
  | agent_private ↦ (agent_private, r.scope_agent_id)
]

abbrev same_key : Scope × Option String → Scope × Option String → Bool
same_key (a, b) (c, d) = a == c && b == d

-- `_visibility_domains_overlap`
unfoldable pub visibility_domains_overlap : MemoryRecord → MemoryRecord → Bool
visibility_domains_overlap left right =
    if left.scope == user_global || right.scope == user_global
    then true
    else if left.scope == workspace && right.scope == workspace
    then left.scope_workspace_id == right.scope_workspace_id
    else if left.scope == agent_private && right.scope == agent_private
    then left.scope_agent_id == right.scope_agent_id
    else true

-- `a <= b` on tuples of texts
unfoldable pub ids_leb : List String → List String → Bool
ids_leb [] ys = true
ids_leb (x ∷ xs) [] = false
ids_leb (x ∷ xs) (y ∷ ys) = not (str_leb y x) || (str_leb x y && ids_leb xs ys)

pub ids_leb_total : (xs ys : List String) → ids_leb xs ys ≡ false → ids_leb ys xs ≡ true
unfolding ids_leb
ids_leb_total [] ys h = ground arith
ids_leb_total (x ∷ xs) [] h = refl
ids_leb_total (x ∷ xs) (y ∷ ys) h = ground (arith, ids_leb_total xs ys, str_leb_total x y)

pub ids_leb_trans :
    (xs ys zs : List String) → ids_leb xs ys ≡ true → ids_leb ys zs ≡ true → ids_leb xs zs ≡ true
unfolding ids_leb
ids_leb_trans [] ys zs h k = refl
ids_leb_trans (x ∷ xs) [] zs h k = absurd (ground arith)
ids_leb_trans (x ∷ xs) (y ∷ ys) [] h k = absurd (ground arith)
ids_leb_trans (x ∷ xs) (y ∷ ys) (z ∷ zs) h k = ground (
  arith,
  ids_leb_trans xs ys zs,
  str_leb_trans x y z,
  str_leb_trans z x y,
  str_leb_trans y z x,
  str_leb_total x y,
  str_leb_total y z,
  str_leb_total x z,
)

-- `(item.category, item.record_ids, item.detail)`; the first two settle the detail.
abbrev finding_key : ChainFinding → List String
finding_key f = category_text f.category ∷ f.ids

abbrev pub finding_order : Order ChainFinding
finding_order = record {
  leq = λ f g. ids_leb (finding_key f) (finding_key g);
  total = λ f g. ids_leb_total (finding_key f) (finding_key g);
  trans = λ f g h. ids_leb_trans (finding_key f) (finding_key g) (finding_key h);
}

-- `fts_memory_ids is not None and record.id in fts_memory_ids and …`
abbrev both_retrievable : Option (List String) → MemoryRecord → MemoryRecord → Bool
both_retrievable none r target = false
both_retrievable (some fts) r target =
    contains fts r.id && contains fts target.id && visibility_domains_overlap r target

abbrev pub finding_if : Bool → ChainCategory → List String → List ChainFinding
finding_if test category ids = if test then record { category = category; ids = ids } ∷ [] else []

abbrev pub boundary_findings : MemoryRecord → MemoryRecord → List ChainFinding
boundary_findings r target =
    finding_if (not (same_key (scope_key r) (scope_key target))) scope_boundary
      (target.id ∷ r.id ∷ [])

abbrev pub retrieval_findings :
    Option (List String) → MemoryRecord → MemoryRecord → List ChainFinding
retrieval_findings fts r target =
    finding_if (both_retrievable fts r target) both_ends_retrievable (target.id ∷ r.id ∷ [])

-- what one link gives, from the target that `by_id.get` finds
abbrev pub target_findings :
    Option (List String) → MemoryRecord → String → Option MemoryRecord → List ChainFinding
target_findings fts r target_id none = finding_if true dangling_target (r.id ∷ target_id ∷ [])
target_findings fts r target_id (some target) =
    boundary_findings r target ++ retrieval_findings fts r target

abbrev pub link_findings :
    Option (List String) → List MemoryRecord → MemoryRecord → Option String → List ChainFinding
link_findings fts by_id r none = []
link_findings fts by_id r (some target_id) =
    if target_id == "" then [] else target_findings fts r target_id (record_at by_id target_id)

-- The order of the records does not show, for all findings are sorted at the end.
unfoldable pub all_link_findings :
    Option (List String) → List MemoryRecord → List MemoryRecord → List ChainFinding
all_link_findings fts by_id [] = []
all_link_findings fts by_id (r ∷ rs) =
    link_findings fts by_id r r.supersedes ++ all_link_findings fts by_id rs

-- `cycle_keys.add(tuple(sorted(cycle)))`, where the walk met a cycle
abbrev pub add_key : List String → List (List String) → List (List String)
add_key [] keys = keys
add_key (c ∷ cs) keys = sorted str_order (c ∷ cs) ∷ keys

module _ (by_id : List MemoryRecord) where
  -- the loop over the starts, with `completed` and `cycle_keys`; no cycle is met twice
  unfoldable pub cycle_keys :
      List String → List String → List (List String) → Option (List (List String))
  cycle_keys [] completed keys = some keys
  cycle_keys (start ∷ starts) completed keys =
      if contains completed start
      then cycle_keys starts completed keys
      else walk by_id completed (walk_fuel by_id) (some start) [] >>=? λ (path, met).
          cycle_keys starts (path ++ completed) (add_key met keys)

  -- `not successor_ids[node]`
  abbrev is_head : List MemoryRecord → String → Bool
  is_head materialized node =
      not (any (λ (r : MemoryRecord). r.supersedes == some node) materialized)

  abbrev heads_of : List MemoryRecord → List String → List String
  heads_of materialized component = sorted str_order (filter (is_head materialized) component)

  unfoldable pub head_findings : List MemoryRecord → List String → List ChainFinding
  head_findings materialized component =
      let heads = heads_of materialized component in
      finding_if (not (ltb (length component) 2) && ltb 1 (length heads)) multiple_heads heads

  -- the loop over the starts, with `visited`
  unfoldable pub component_findings :
      List MemoryRecord → List String → List String → Option (List ChainFinding)
  component_findings materialized [] visited = some []
  component_findings materialized (start ∷ starts) visited =
      if contains visited start
      then component_findings materialized starts visited
      else search by_id (search_fuel by_id) [] (start ∷ []) >>=? λ component.
          component_findings materialized starts (component ++ visited) >>=? λ later.
          some (head_findings materialized component ++ later)

abbrev pub cycle_finding : List String → ChainFinding
cycle_finding key = record { category = cycle; ids = key }

unfoldable pub chain_report :
    Option (List String)
    → List MemoryRecord
    → List (List String)
    → List ChainFinding
    → ChainHealthReport
chain_report fts materialized keys heads = record {
  records_scanned = length materialized;
  findings = sorted finding_order (
      all_link_findings fts (records_by_id materialized) materialized
      ++ (map cycle_finding keys ++ heads));
}

unfoldable pub diagnose_chains : List MemoryRecord → Option (List String) → Option ChainHealthReport
diagnose_chains materialized fts =
    let by_id = records_by_id materialized in
    let starts = sorted str_order (record_ids by_id) in
    cycle_keys by_id starts [] [] >>=? λ keys.
    component_findings by_id materialized starts [] >>=? λ heads.
    some (chain_report fts materialized keys heads)

-- `count`
unfoldable pub category_count : ChainHealthReport → ChainCategory → ℕ
category_count report category = length (
    filter (λ (f : ChainFinding). category_text f.category == category_text category)
      report.findings)
