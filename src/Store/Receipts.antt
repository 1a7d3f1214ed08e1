-- ===== src/Store/Receipts.antt =====
-- The recall receipts of aoms/repositories/sqlite.py. The receipt's JSON text and its size in UTF-8
-- are given. Instants are in microseconds; their ISO texts in UTC have the same order.
pub mod Selection
pub mod Retention
use cortex_mem.Prelude.{
  ℕ, zero, suc, ◌+◌, ◌-◌, ◌==◌, string_eq, nat_eq, String, Bool, true, false, ◌&&◌, ◌||◌, Option,
  none, some, List, [], ◌∷◌, ◌++◌, map, filter, any, contains, leb, if◌then◌else◌, length, ◌≡◌,
}
use cortex_mem.Prelude.Order.{Order, pair_order, sorted}
use cortex_mem.Prelude.Int.{ℤ, pos, negsuc}
use cortex_mem.Errors.{Result, ok, raise, value_error}

pub record ReceiptRow : Type 0 where
  pub receipt_id : String
  pub created_at : ℕ
  pub agent_id : Option String
  pub workspace_id : Option String
  pub receipt_json : String
  pub receipt_bytes : ℕ

pub record ReceiptPruneReport : Type 0 where
  pub retained_limit : ℕ
  pub deleted_count : ℕ
  pub remaining_count : ℕ
  pub remaining_bytes : ℕ
  pub byte_budget : ℕ

abbrev pub oldest_first : Order ReceiptRow
oldest_first = pair_order (λ (r : ReceiptRow). r.created_at) (λ (r : ReceiptRow). r.receipt_id)

-- `ORDER BY created_at DESC, receipt_id DESC`
abbrev pub newest_first : Order ReceiptRow
newest_first = record {
  leq = λ a b. oldest_first.leq b a;
  total = λ a b. oldest_first.total b a;
  trans = λ a b c h k. oldest_first.trans c b a k h;
}

-- `ON CONFLICT(receipt_id) DO UPDATE`
unfoldable pub upsert : ReceiptRow → List ReceiptRow → List ReceiptRow
upsert row [] = row ∷ []
upsert row (r ∷ rs) =
    let rest = upsert row rs in if r.receipt_id == row.receipt_id then row ∷ rs else r ∷ rest

-- The rows that the subquery selects. `position` and `running_bytes` are those of the row before.
module _ (limit byte_budget : ℕ) where
  unfoldable pub selected : ℕ → ℕ → List ReceiptRow → List ReceiptRow
  selected position running_bytes [] = []
  selected position running_bytes (r ∷ rs) =
      let rest = selected (suc position) (running_bytes + r.receipt_bytes) rs in
      if leb (suc position) limit
        && (leb (running_bytes + r.receipt_bytes) byte_budget || suc position == 1)
      then r ∷ rest
      else rest

abbrev pub receipt_ids : List ReceiptRow → List String
receipt_ids [] = []
receipt_ids (r ∷ rs) = r.receipt_id ∷ receipt_ids rs

-- `_enforce_receipt_retention`: the rows that are left and the number that was deleted
unfoldable pub enforce_receipt_retention : ℕ → ℕ → List ReceiptRow → List ReceiptRow × ℕ
enforce_receipt_retention limit byte_budget rows =
    let keep = receipt_ids (selected limit byte_budget 0 0 (sorted newest_first rows)) in
    let left = filter (λ (r : ReceiptRow). contains keep r.receipt_id) rows in
    (left, length rows - length left)

-- `_save_recall_receipt_sync`
unfoldable pub save_recall_receipt : ℕ → ℕ → ReceiptRow → List ReceiptRow → List ReceiptRow
save_recall_receipt retention byte_budget row rows =
    (enforce_receipt_retention retention byte_budget (upsert row rows)).0

abbrev pub total_bytes : List ReceiptRow → ℕ
total_bytes [] = 0
total_bytes (r ∷ rs) = r.receipt_bytes + total_bytes rs

-- `_prune_recall_receipts_sync`
unfoldable pub prune_to : ℕ → ℕ → List ReceiptRow → ReceiptPruneReport × List ReceiptRow
prune_to retain byte_budget rows =
    let after = enforce_receipt_retention retain byte_budget rows in
    (
      record {
        retained_limit = retain;
        deleted_count = after.1;
        remaining_count = length after.0;
        remaining_bytes = total_bytes after.0;
        byte_budget = byte_budget;
      },
      after.0,
    )

-- `prune_recall_receipts`, which takes a limit of its own or the configured one
unfoldable pub prune_recall_receipts :
    ℕ → ℕ → Option ℤ → List ReceiptRow → Result (ReceiptPruneReport × List ReceiptRow)
prune_recall_receipts retention byte_budget none rows = ok (prune_to retention byte_budget rows)
prune_recall_receipts retention byte_budget (some (pos keep)) rows =
    ok (prune_to keep byte_budget rows)
prune_recall_receipts retention byte_budget (some (negsuc n)) rows =
    raise (value_error "retain must not be negative")
