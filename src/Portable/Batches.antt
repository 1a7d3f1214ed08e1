-- ===== src/Portable/Batches.antt =====
-- The loop of `restore_bundle` over the records: whatever the size of the batches, an empty table
-- receives all of them in order.
use mathlib.Core.List.{append_assoc, append-nil}
use Prim.Native.Nat.{max}
use cortex_mem.Prelude.{
  arith, suc, ◌+◌, ◌≤◌, ℕ, ◌≡◌, refl, sym, ap, ◌∙◌, subst, inl, inr, Bool, true, false, none, some,
  List, [], ◌∷◌, ◌++◌, map, In, length, ◌==◌, string_eq, nat_eq, Bool-cases,
}
use cortex_mem.Errors.{ok}
use cortex_mem.Contracts.{MemoryRecord}
use cortex_mem.Store.{store_many, store_records, store_record, insert_row}
use cortex_mem.Store.Rows.{Row, row_of_record, find_row, next_rowid}
use cortex_mem.Store.Database.{
  Tables, FtsRow, fts_row, register_profile, enqueue_if, write_ledger_if,
}
use cortex_mem.Portable.{Formats}
use cortex_mem.Portable.Restore.{store_many_new, restore_records}
use cortex_mem.Portable.Insert.{Apart, Apart-left, Apart-middle}

abbrev pub same_id : MemoryRecord → MemoryRecord → Bool
same_id a b = b.id == a.id

-- The rows of records that are inserted one after another, with their rowids.
abbrev pub numbered : ℕ → List MemoryRecord → List Row
numbered rowid [] = []
numbered rowid (r ∷ rs) = row_of_record rowid r ∷ numbered (suc rowid) rs

-- their projections
abbrev pub projections : ℕ → List MemoryRecord → List FtsRow
projections rowid [] = []
projections rowid (r ∷ rs) = fts_row rowid r ∷ projections (suc rowid) rs

numbered-append :
    (n : ℕ) (rs : List MemoryRecord) (r : MemoryRecord)
    → numbered n (rs ++ r ∷ []) ≡ numbered n rs ++ row_of_record (n + length rs) r ∷ []
numbered-append n [] r = ap (λ k. row_of_record k r ∷ []) (omega arith)
numbered-append n (x ∷ rs) r = ap (◌∷◌ (row_of_record n x)) (
    numbered-append (suc n) rs r
    ∙ ap (λ k. numbered (suc n) rs ++ row_of_record k r ∷ []) (omega arith))

projections-append :
    (n : ℕ) (rs : List MemoryRecord) (r : MemoryRecord)
    → projections n (rs ++ r ∷ []) ≡ projections n rs ++ fts_row (n + length rs) r ∷ []
projections-append n [] r = ap (λ k. fts_row k r ∷ []) (omega arith)
projections-append n (x ∷ rs) r = ap (◌∷◌ (fts_row n x)) (
    projections-append (suc n) rs r
    ∙ ap (λ k. projections (suc n) rs ++ fts_row k r ∷ []) (omega arith))

next_rowid-bound :
    (n : ℕ) (rs : List MemoryRecord) → 1 ≤ n → max n (next_rowid (numbered n rs)) ≡ n + length rs
unfolding next_rowid row_of_record
next_rowid-bound n [] h = omega arith
next_rowid-bound n (r ∷ rs) h = omega (arith, next_rowid-bound (suc n) rs (omega arith))

next_rowid-numbered : (rs : List MemoryRecord) → next_rowid (numbered 1 rs) ≡ 1 + length rs
unfolding next_rowid row_of_record
next_rowid-numbered [] = refl
next_rowid-numbered (r ∷ rs) = omega (arith, next_rowid-bound 2 rs (omega arith))

find_row-numbered :
    (n : ℕ) (r : MemoryRecord) (rs : List MemoryRecord)
    → ((a : MemoryRecord) → In a rs → same_id r a ≡ false)
    → find_row r.id (numbered n rs) ≡ none
unfolding find_row row_of_record
find_row-numbered n r [] h = refl
find_row-numbered n r (x ∷ rs) h =
    rw (h x (inl refl)) (find_row-numbered (suc n) r rs (λ a m. h a (inr m)))

-- The store after the records, from an earlier one.
pub record Holds (start : Tables) (done : List MemoryRecord) (t : Tables) : Type 0 where
  pub rows : t.memories ≡ numbered 1 done
  pub fts : t.memories_fts ≡ projections 1 done
  pub contests : t.contest_entries ≡ start.contest_entries
  pub receipts : t.write_receipts ≡ start.write_receipts
  pub profiles : t.vector_profiles ≡ start.vector_profiles
  pub pending : t.embedding_pending ≡ start.embedding_pending

module _ (start : Tables) (now : ℕ) where
  store_record-Holds :
      (r : MemoryRecord) (done rest : List MemoryRecord) (t : Tables)
      → Apart same_id (done ++ r ∷ rest)
      → Holds start done t
      → (store_record r none true now t ≡ ok (insert_row r t))
        × Holds start (done ++ r ∷ []) (insert_row r t)
  unfolding insert_row enqueue_if store_record
  store_record-Holds r done rest t apart h =
      let fresh =
        ap (find_row r.id) h.rows
        ∙ find_row-numbered 1 r done (Apart-middle same_id done r rest apart) in
      let next : next_rowid t.memories ≡ 1 + length done =
        ap next_rowid h.rows ∙ next_rowid-numbered done in
      (
        rw (fresh, store_record) refl,
        record {
          rows =
              ap (λ k. t.memories ++ row_of_record k r ∷ []) next
              ∙ ap (λ rows. rows ++ row_of_record (1 + length done) r ∷ []) h.rows
              ∙ sym (numbered-append 1 done r);
          fts =
              ap (λ k. t.memories_fts ++ fts_row k r ∷ []) next
              ∙ ap (λ rows. rows ++ fts_row (1 + length done) r ∷ []) h.fts
              ∙ sym (projections-append 1 done r);
          contests = h.contests;
          receipts = h.receipts;
          profiles = h.profiles;
          pending = h.pending;
        },
      )

  store_records-Holds :
      (rs done : List MemoryRecord) (t : Tables)
      → Apart same_id (done ++ rs)
      → Holds start done t
      → (t' : Tables) × (store_records rs none true now t ≡ ok t') × Holds start (done ++ rs) t'
  unfolding store_records
  store_records-Holds [] done t apart h =
      (t, refl, subst (λ xs. Holds start xs t) (sym (append-nil done)) h)
  store_records-Holds (r ∷ rs) done t apart h =
      let assoc = append_assoc done (r ∷ []) rs in
      let (stored, held) = store_record-Holds r done rs t apart h in
      let (t', rest, all_held) =
        store_records-Holds rs (done ++ r ∷ []) (insert_row r t)
          (subst (Apart same_id) (sym assoc) apart) held in
      (t', rw stored rest, subst (λ xs. Holds start xs t') assoc all_held)

  store_many_new-Holds :
      (rs done : List MemoryRecord) (t : Tables) (formats : Formats)
      → Apart same_id (done ++ rs)
      → Holds start done t
      → (t' : Tables) × (store_many_new formats now rs t ≡ (ok tt, t'))
        × Holds start (done ++ rs) t'
  unfolding store_many_new store_many register_profile write_ledger_if
  store_many_new-Holds [] done t formats apart h =
      (t, refl, subst (λ xs. Holds start xs t) (sym (append-nil done)) h)
  store_many_new-Holds (r ∷ rs) done t formats apart h =
      let (t', stored, held) = store_records-Holds (r ∷ rs) done t apart h in
      (t', rw stored refl, held)

  module _ (formats : Formats) (size : ℕ) where
    pub restore_records-Holds :
        (rs batch done : List MemoryRecord) (t : Tables)
        → ((r : MemoryRecord) → In r rs → formats.memory.validate (formats.memory.dump r) ≡ some r)
        → Apart same_id (done ++ (batch ++ rs))
        → Holds start done t
        → (t' : Tables) × (restore_records formats now size (map formats.memory.dump rs) batch t
            ≡ (ok tt, t'))
          × Holds start (done ++ (batch ++ rs)) t'
    unfolding restore_records
    restore_records-Holds [] batch done t valid apart h =
        let e = ap (◌++◌ done) (append-nil batch) in
        let (t', stored, held) =
          store_many_new-Holds batch done t formats (subst (Apart same_id) e apart) h in
        (t', stored, subst (λ xs. Holds start xs t') (sym e) held)
    restore_records-Holds (r ∷ rs) batch done t valid apart h =
        let batch' = batch ++ r ∷ [] in
        let e : done ++ (batch' ++ rs) ≡ done ++ (batch ++ r ∷ rs) =
          ap (◌++◌ done) (append_assoc batch (r ∷ []) rs) in
        let apart' = subst (Apart same_id) (sym e) apart in
        let later = λ (x : MemoryRecord) (m : In x rs). valid x (inr m) in
        elim (Bool-cases (length batch' == size)) [
          | inl full ↦
              let assoc = append_assoc done batch' rs in
              let split = subst (Apart same_id) (sym assoc) apart' in
              let (t1, stored, held) =
                store_many_new-Holds batch' done t formats
                  (Apart-left same_id (done ++ batch') rs split) h in
              let (t', rest, all_held) =
                restore_records-Holds rs [] (done ++ batch') t1 later split held in
              (
                t',
                rw (valid r (inl refl)) (rw full (rw stored rest)),
                subst (λ xs. Holds start xs t') (assoc ∙ e) all_held,
              )
          | inr room ↦
              let (t', rest, all_held) = restore_records-Holds rs batch' done t later apart' h in
              (
                t',
                rw (valid r (inl refl)) (rw room rest),
                subst (λ xs. Holds start xs t') e all_held,
              )
        ]
