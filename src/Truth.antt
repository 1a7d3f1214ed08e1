-- ===== src/Truth.antt =====
-- aoms/truth.py: the validity windows that declared lineage gives. An instant is in microseconds.
pub mod Chains
pub mod Timeline
pub mod Answers
use cortex_mem.Prelude.{
  ℕ, ◌==◌, string_eq, option_eq, String, Bool, true, false, ◌&&◌, Option, none, some, List, [], ◌∷◌,
  map, filter, ltb, leb,
}
use cortex_mem.Prelude.Order.{Order, pair_order, sorted}
use cortex_mem.Contracts.{MemoryRecord}

pub record TimelineVersion : Type 0 where
  pub subject : MemoryRecord
  pub valid_from : ℕ
  pub valid_until : Option ℕ
  pub successor_ids : List String
  pub active_at_boundary : Bool

pub record ChainTimeline : Type 0 where
  pub anchor_id : String
  pub versions : List TimelineVersion
  pub as_of : Option ℕ

-- `key=lambda item: (item.created_at, item.id)`
abbrev pub record_order : Order MemoryRecord
record_order = pair_order (λ (r : MemoryRecord). r.created_at) (λ (r : MemoryRecord). r.id)

-- `successors[record_id]`, in the order of the loop that fills it
unfoldable pub successors : List MemoryRecord → String → List MemoryRecord
successors materialized record_id =
    filter (λ (r : MemoryRecord). r.supersedes == some record_id) materialized

unfoldable pub direct_successors : List MemoryRecord → MemoryRecord → List MemoryRecord
direct_successors materialized r = sorted record_order (successors materialized r.id)

-- `direct[0].created_at if direct else None`
unfoldable pub first_created : List MemoryRecord → Option ℕ
first_created [] = none
first_created (r ∷ rs) = some r.created_at

-- `valid_until is None`
abbrev pub is_open : Option ℕ → Bool
is_open none = true
is_open (some until) = false

-- `valid_until is None or as_of < valid_until`
unfoldable pub is_before : ℕ → Option ℕ → Bool
is_before boundary none = true
is_before boundary (some until) = ltb boundary until

unfoldable pub active_at : Option ℕ → ℕ → Option ℕ → Bool
active_at none created valid_until = is_open valid_until
active_at (some boundary) created valid_until =
    leb created boundary && is_before boundary valid_until

unfoldable pub timeline_version : Option ℕ → List MemoryRecord → MemoryRecord → TimelineVersion
timeline_version as_of materialized r =
    let direct = direct_successors materialized r in
    record {
      subject = r;
      valid_from = r.created_at;
      valid_until = first_created direct;
      successor_ids = map (λ (s : MemoryRecord). s.id) direct;
      active_at_boundary = active_at as_of r.created_at (first_created direct);
    }

unfoldable pub reconstruct_timeline : String → List MemoryRecord → Option ℕ → ChainTimeline
reconstruct_timeline anchor_id records as_of =
    let materialized = sorted record_order records in
    record {
      anchor_id = anchor_id;
      versions = map (timeline_version as_of materialized) materialized;
      as_of = as_of;
    }
