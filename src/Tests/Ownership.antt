-- ===== src/Tests/Ownership.antt =====
-- Ownership assignment of aoms/ownership.py over three legacy records, two in a batch.
use cortex_mem.Prelude.{◌≡◌, refl, true, false, List, [], ◌∷◌, In, arith, filter, take}
use cortex_mem.Prelude.Order.{sorted, str_leb}
use cortex_mem.Errors.{ok}
use cortex_mem.Contracts.{user_global}
use cortex_mem.Store.Rows.{Row, row_of_record}
use cortex_mem.Application.{dict_put}
use cortex_mem.Ownership.{
  is_unscoped, assigned_record, assigned_row, count, selects, update_selected, assign_ids,
  assign_batch, assign_loop, assign_ownership, unscoped_records, OwnershipReport, report,
}
use cortex_mem.Ownership.Batches.{assign_ownership-total}
use cortex_mem.Tests.Data.{memory}

abbrev legacy : List Row
legacy =
    row_of_record 1 (memory "c" "amber")
    ∷ row_of_record 2 (memory "a" "green")
    ∷ row_of_record 3 (memory "b" "red")
    ∷ []

assignment : Unit {0}
unfolding is_unscoped assigned_record assigned_row count selects update_selected assign_ids
    assign_batch assign_loop assign_ownership row_of_record dict_put sorted filter take str_leb
assignment = tt

-- the ids are taken in their order
first_batch : (assign_batch "{}" 2 legacy).0 ≡ 2
unfolding assignment
first_batch = refl

dry_run :
    assign_ownership user_global true 2 "{}" legacy ≡ ok (report true 2 legacy (0, legacy), legacy)
unfolding assignment
dry_run = refl

assign_ownership-total_example :
    (report : OwnershipReport) × (rows' : List Row) × (assign_ownership user_global false 2 "{}"
        legacy
      ≡ ok (report, rows'))
    × (report.assigned_records ≡ unscoped_records legacy)
    × (report.remaining_unscoped ≡ 0)
    × ((row : Row) → In row rows' → is_unscoped row ≡ false)
assign_ownership-total_example = assign_ownership-total "{}" 2 legacy (omega arith)
