-- ===== src/Store/Receipts/Retention.antt =====
-- What receipt retention of aoms/repositories/sqlite.py keeps.
use cortex_mem.Prelude.{
  ℕ, ◌≤◌, ◌≡◌, ◌↔◌, refl, sym, ap, inl, inr, string_eq, nat_eq, String, List, [], ◌∷◌, filter,
  contains, length, take, In, In-take, In-filter, In-filter_of, contains→In, In→contains,
  IsDistinct, subst, ◌∙◌,
}
use cortex_mem.Prelude.Order.{sorted, In-sorted}
use cortex_mem.Store.Receipts.{ReceiptRow, newest_first, receipt_ids, enforce_receipt_retention}
use cortex_mem.Store.Receipts.Selection.{Fits, selected-LongestFit}

-- Receipt ids are the table's primary key.
abbrev pub HasUniqueIds : List ReceiptRow → Type 0
HasUniqueIds rows = IsDistinct (receipt_ids rows)

In-receipt_ids :
    (a : ReceiptRow) (rs : List ReceiptRow) → In a rs → In a.receipt_id (receipt_ids rs)
In-receipt_ids a (r ∷ rs) (inl e) = inl (ap (λ (x : ReceiptRow). x.receipt_id) e)
In-receipt_ids a (r ∷ rs) (inr m) = inr (In-receipt_ids a rs m)
In-receipt_ids a [] m = absurd m

receipt_ids-In :
    (key : String) (rs : List ReceiptRow)
    → In key (receipt_ids rs)
    → (a : ReceiptRow) × In a rs × (key ≡ a.receipt_id)
receipt_ids-In key (r ∷ rs) (inl e) = (r, inl refl, e)
receipt_ids-In key (r ∷ rs) (inr m) = let (a, k, e) = receipt_ids-In key rs m in (a, inr k, e)
receipt_ids-In key [] m = absurd m

-- `after` holds the newest rows: as many as fit, and the newest one whatever its size.
pub record KeepsNewest (limit byte_budget : ℕ) (rows after : List ReceiptRow) : Type 0 where
  pub count : ℕ
  pub same : (r : ReceiptRow) → In r after ↔ In r (take count (sorted newest_first rows))
  pub fits : Fits limit byte_budget (sorted newest_first rows) count
  pub longest :
      (n : ℕ)
      → n ≤ length (sorted newest_first rows)
      → Fits limit byte_budget (sorted newest_first rows) n
      → n ≤ count

same_row :
    (rows : List ReceiptRow) (a b : ReceiptRow)
    → HasUniqueIds rows
    → In a rows
    → In b rows
    → a.receipt_id ≡ b.receipt_id
    → a ≡ b
same_row (r ∷ rs) a b u (inl p) (inl q) e = p ∙ sym q
same_row (r ∷ rs) a b u (inl p) (inr n) e = absurd (
    u.0 (
      subst (λ key. In key (receipt_ids rs)) (sym e ∙ ap (λ (x : ReceiptRow). x.receipt_id) p)
        (In-receipt_ids b rs n)))
same_row (r ∷ rs) a b u (inr m) (inl q) e = absurd (
    u.0 (
      subst (λ key. In key (receipt_ids rs)) (e ∙ ap (λ (x : ReceiptRow). x.receipt_id) q)
        (In-receipt_ids a rs m)))
same_row (r ∷ rs) a b u (inr m) (inr n) e = same_row rs a b u.1 m n e
same_row [] a b u m n e = absurd m

-- With unique ids, keeping the ids of some rows keeps these rows.
In-kept :
    (rows kept : List ReceiptRow) (r : ReceiptRow)
    → HasUniqueIds rows
    → ((a : ReceiptRow) → In a kept → In a rows)
    → In r (filter (λ (x : ReceiptRow). contains (receipt_ids kept) x.receipt_id) rows) ↔ In r kept
In-kept rows kept r unique inside = (
  λ m.
      let (l, h) = In-filter _ r rows m in
      let (a, k, e) =
        receipt_ids-In r.receipt_id kept (contains→In (receipt_ids kept) r.receipt_id h) in
      rw (same_row rows r a unique l (inside a k) e) k,
  λ m.
      In-filter_of _ r rows (inside r m)
        (In→contains (receipt_ids kept) r.receipt_id (In-receipt_ids r kept m)),
)

-- Retention leaves the longest newest-first beginning that is within the count and the byte budget
-- or is a single row, if no two rows share an id. With a limit of at least one the newest survives.
pub enforce_receipt_retention-KeepsNewest :
    (limit byte_budget : ℕ) (rows : List ReceiptRow)
    → HasUniqueIds rows
    → KeepsNewest limit byte_budget rows (enforce_receipt_retention limit byte_budget rows).0
unfolding enforce_receipt_retention
enforce_receipt_retention-KeepsNewest limit byte_budget rows unique =
    let found = selected-LongestFit limit byte_budget (sorted newest_first rows) in
    record {
      count = found.count;
      same = λ r. rw found.taken (
          In-kept rows (take found.count (sorted newest_first rows)) r unique (λ a m.
            In-sorted newest_first a rows (In-take found.count a (sorted newest_first rows) m)));
      fits = found.fits;
      longest = found.longest;
    }
