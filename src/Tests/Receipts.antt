-- ===== src/Tests/Receipts.antt =====
-- Receipt retention of aoms/repositories/sqlite.py over two receipts and a third.
use mathlib.Core.Path.{Path}
use cortex_mem.Prelude.{
  ℕ, ◌≡◌, refl, ap, ◌==◌, string_eq, String, Bool, true, none, List, [], ◌∷◌, inl, inr, filter,
  contains, arith,
}
use cortex_mem.Prelude.Order.{sorted}
use cortex_mem.Store.Receipts.{
  ReceiptRow, upsert, selected, enforce_receipt_retention, save_recall_receipt,
}
use cortex_mem.Store.Receipts.Retention.{
  KeepsNewest, HasUniqueIds, enforce_receipt_retention-KeepsNewest,
}

abbrev receipt : String → ℕ → ℕ → ReceiptRow
receipt id created bytes = record {
  receipt_id = id;
  created_at = created;
  agent_id = none;
  workspace_id = none;
  receipt_json = "";
  receipt_bytes = bytes;
}

abbrev log : List ReceiptRow
log = receipt "a" 1 4 ∷ receipt "b" 2 4 ∷ []

log-HasUniqueIds : HasUniqueIds log
log-HasUniqueIds = (λ m. elim m [ inl e ↦ differ e | inr x ↦ x ], (λ m. m, tt))
  where
    test : String → Bool
    test s = s == "a"

    differ : Path String "a" "b" → ⊥
    differ e = let wrong : true ≡ test "b" = ap test e in ground arith

retention : Unit {0}
unfolding save_recall_receipt enforce_receipt_retention selected upsert sorted filter contains
retention = tt

-- the oldest goes, though the count would allow it
third_saved :
    save_recall_receipt 3 10 (receipt "c" 3 4) log ≡ receipt "b" 2 4 ∷ receipt "c" 3 4 ∷ []
unfolding retention
third_saved = refl

-- an outsized receipt stands alone
outsized_saved : save_recall_receipt 3 10 (receipt "c" 3 40) log ≡ receipt "c" 3 40 ∷ []
unfolding retention
outsized_saved = refl

-- a limit of zero clears the log
cleared : (enforce_receipt_retention 0 10 log).0 ≡ []
unfolding retention
cleared = refl

enforce_receipt_retention-KeepsNewest_example :
    KeepsNewest 1 10 log (enforce_receipt_retention 1 10 log).0
enforce_receipt_retention-KeepsNewest_example =
    enforce_receipt_retention-KeepsNewest 1 10 log log-HasUniqueIds
