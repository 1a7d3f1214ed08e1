-- ===== src/Store/Resolution/Judged.antt =====
-- What a verdict of aoms/repositories/sqlite.py does to the rows of `memories`.
use cortex_mem.Prelude.{
  ℕ, ◌==◌, string_eq, String, Bool, true, false, ◌≡◌, ◌≢◌, refl, ap, sym, ◌∙◌, List, [], ◌∷◌, inl,
  inr, Option, arith, In, if◌then◌else◌, Bool-cases, ==→eq, ==_refl,
}
use cortex_mem.Errors.{ok}
use cortex_mem.Contracts.{ContestEntry, WriteReceipt, ContestResolution, state_eq}
use cortex_mem.Store.Rows.{Row, update_row}
use cortex_mem.Store.Laws.{find_row-In}
use cortex_mem.Store.Database.{Tables}
use cortex_mem.Store.{close_entry, resolved_record, apply_resolution, resolve_contest}
use cortex_mem.Store.Resolution.{resolve_contest-Closes}

-- What a verdict on a record leaves of a row.
pub record IsJudged (record_id : String) (admits : Bool) (row row' : Row) : Type 0 where
  pub same_id : row'.id ≡ row.id
  pub same_content : row'.stored.content ≡ row.stored.content
  pub same_predecessor : row'.stored.supersedes ≡ row.stored.supersedes
  pub others : row.id ≢ record_id → row' ≡ row
  pub admitted_row : admits ≡ true → row.id ≡ record_id → row'.contested_bit ≡ false
  pub held_row : admits ≡ false → row'.stored.disposition ≡ row.stored.disposition

IsJudged-apply :
    (record_id : String) (admits : Bool) (key : Option String) (row : Row)
    → IsJudged record_id admits row
        (if row.id == record_id then apply_resolution admits key row else row)
unfolding apply_resolution resolved_record
IsJudged-apply record_id admits key row = elim (Bool-cases (row.id == record_id)) [
  | inl named ↦ rw named (record {
    same_id = refl;
    same_content = refl;
    same_predecessor = refl;
    others = λ other. absurd (other (==→eq row.id record_id named));
    admitted_row = λ does _. rw does refl;
    held_row = λ not_so. rw not_so refl;
  })
  | inr other ↦ rw other (record {
    same_id = refl;
    same_content = refl;
    same_predecessor = refl;
    others = λ _. refl;
    admitted_row = λ _ e.
        let equal : (row.id == record_id) ≡ true = rw e (==_refl record_id) in
        absurd (ground arith);
    held_row = λ _. refl;
  })
]

IsJudged-same : (record_id : String) (row : Row) → IsJudged record_id false row row
IsJudged-same record_id row = record {
  same_id = refl;
  same_content = refl;
  same_predecessor = refl;
  others = λ _. refl;
  admitted_row = λ wrong _. absurd (ground arith);
  held_row = λ _. refl;
}

-- The rows after a verdict are those before it, in order, each judged.
abbrev pub AllJudged : String → Bool → List Row → List Row → Type 0
AllJudged record_id admits [] [] = Unit
AllJudged record_id admits [] (row' ∷ rows') = ⊥
AllJudged record_id admits (row ∷ rows) [] = ⊥
AllJudged record_id admits (row ∷ rows) (row' ∷ rows') =
    IsJudged record_id admits row row' × AllJudged record_id admits rows rows'

AllJudged-update :
    (record_id : String) (admits : Bool) (key : Option String) (rows : List Row)
    → AllJudged record_id admits rows (update_row record_id (apply_resolution admits key) rows)
unfolding update_row
AllJudged-update record_id admits key [] = tt
AllJudged-update record_id admits key (row ∷ rows) =
    (IsJudged-apply record_id admits key row, AllJudged-update record_id admits key rows)

AllJudged-same : (record_id : String) (rows : List Row) → AllJudged record_id false rows rows
AllJudged-same record_id [] = tt
AllJudged-same record_id (row ∷ rows) = (IsJudged-same record_id row, AllJudged-same record_id rows)

-- the judged row of a record that stands in the table
own_row :
    (record_id : String) (admits : Bool) (row : Row) (rows rows' : List Row)
    → AllJudged record_id admits rows rows'
    → In row rows
    → (row' : Row) × In row' rows' × IsJudged record_id admits row row'
own_row record_id admits row [] rows' all m = absurd m
own_row record_id admits row (x ∷ rows) [] all m = absurd all
own_row record_id admits row (x ∷ rows) (y ∷ rows') all (inl e) = (y, inl refl, rw e all.0)
own_row record_id admits row (x ∷ rows) (y ∷ rows') all (inr m) =
    let (row', k, judged) = own_row record_id admits row rows rows' all.1 m in (row', inr k, judged)

-- A verdict that returns removes no row of the table and adds none. Each row keeps its id, its content
-- and its predecessor, and each row of another record all else too. A verdict that admits finds the
-- row of its record, and that row is not contested afterwards; any other verdict leaves its
-- disposition.
pub resolve_contest-IsJudged :
    (contest_id : String) (resolution : ContestResolution) (by : String) (remark : Option String)
    (receipt : WriteReceipt) (admit_record : Bool) (new_claim_key : Option String) (now : ℕ)
    (t t' : Tables) (closed : ContestEntry)
    → resolve_contest contest_id resolution by remark receipt admit_record new_claim_key now t
      ≡ ok (closed, t')
    → AllJudged closed.record_id admit_record t.memories t'.memories
      × (admit_record ≡ true
          → (row : Row) × In row t'.memories
            × (row.id ≡ closed.record_id)
            × (row.contested_bit ≡ false))
unfolding close_entry
resolve_contest-IsJudged contest_id resolution by remark receipt admit_record new_claim_key now t t'
      closed h =
    let c =
      resolve_contest-Closes contest_id resolution by remark receipt admit_record new_claim_key now
        t t' closed h in
    let same : closed.record_id ≡ c.entry.record_id =
      ap (λ (x : ContestEntry). x.record_id) c.result in
    elim c.memories [
      | inl (idle, unchanged) ↦
          let held : admit_record ≡ false = ground arith in
          (
            rw (unchanged, held) (AllJudged-same closed.record_id t.memories),
            λ admits. absurd (ground arith),
          )
      | inr (row, known, updated) ↦
          let all = AllJudged-update c.entry.record_id admit_record new_claim_key t.memories in
          let (m, named) = find_row-In c.entry.record_id t.memories row known in
          let (row', k, judged) = own_row c.entry.record_id admit_record row t.memories _ all m in
          (
            rw (updated, same) all,
            λ admits. (
              row',
              rw updated k,
              judged.same_id ∙ named ∙ sym same,
              judged.admitted_row admits named,
            ),
          )
    ]
