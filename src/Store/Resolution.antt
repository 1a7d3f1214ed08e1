-- ===== src/Store/Resolution.antt =====
-- `_resolve_contest_sync` of aoms/repositories/sqlite.py: what one verdict changes.
pub mod Judged
use mathlib.Core.Path.{Path}
use cortex_mem.Prelude.{
  ℕ, ◌==◌, string_eq, String, Bool, true, false, not, ◌||◌, ◌≡◌, ◌≢◌, refl, sym, ap, ◌∙◌, ◌⊎◌, inl,
  inr, Option, some, List, [], ◌∷◌, arith, In, In-map_inv, if◌then◌else◌, Option-cases, Bool-cases,
  ==→eq, ==_ne, ==_refl,
}
use cortex_mem.Errors.{Result, ok, raise, value_error, raise_if, bind-returns, raise_if-eq-ok}
use cortex_mem.Contracts.{
  ContestEntry, WriteReceipt, ContestResolution, open_state, resolved, state_eq,
}
use cortex_mem.Store.Rows.{Row, find_row, update_row}
use cortex_mem.Store.Database.{Tables, insert_write_receipt}
use cortex_mem.Store.{
  is_entry, find_entry, close_entry, close_entries, resolved_record, apply_resolution,
  apply_resolution_to_record, resolve_contest, is_some,
}

find_entry-close :
    (contest_id : String) (f : ContestEntry → ContestEntry) (es : List ContestEntry)
    (c : ContestEntry)
    → ((x : ContestEntry) → (f x).contest_id ≡ x.contest_id)
    → find_entry contest_id es ≡ some c
    → find_entry contest_id (close_entries contest_id f es) ≡ some (f c)
unfolding find_entry close_entries
find_entry-close contest_id f [] c same h = absurd (ground arith)
find_entry-close contest_id f (e ∷ es) c same h = elim (Bool-cases (is_entry contest_id e)) [
  | inl here ↦
      let still : is_entry contest_id (f e) ≡ true =
        ap (λ (k : String). k == contest_id) (same e) ∙ here in
      let found : e ≡ c = ground arith in rw (here, still) (ap some (ap f found))
  | inr there ↦ rw (there) (rw there (find_entry-close contest_id f es c same (ground arith)))
]

open_of_guard :
    (entry : ContestEntry) (u : Unit {0})
    → raise_if (not (entry.state == open_state)) (value_error "contest is already resolved") ≡ ok u
    → entry.state ≡ open_state
open_of_guard entry u h =
    let guard = raise_if-eq-ok _ _ u h in ground (arith, ==→eq entry.state open_state)

applied-tables :
    (record_id : String) (admit : Bool) (key : Option String) (b : Bool) (t t1 : Tables)
    → (if b then apply_resolution_to_record record_id admit key t else ok t) ≡ ok t1
    → (t1.contest_entries ≡ t.contest_entries)
      × (((b ≡ false) × (t1.memories ≡ t.memories))
          ⊎ ((row : Row) × (find_row record_id t.memories ≡ some row)
              × (t1.memories ≡ update_row record_id (apply_resolution admit key) t.memories)))
unfolding apply_resolution_to_record
applied-tables record_id admit key false t t1 h = (ground arith, inl (refl, ground arith))
applied-tables record_id admit key true t t1 h =
    elim (Option-cases (find_row record_id t.memories)) [
      | inl missing ↦ absurd (ground arith)
      | inr (row, found) ↦ (ground arith, inr (row, found, ground arith))
    ]

closing-parts :
    (receipt : WriteReceipt) (c closed : ContestEntry) (t1 t' : Tables) (es : List ContestEntry)
    → Path
        (Result (ContestEntry × Tables))
        (ok (c, insert_write_receipt receipt (record t1 { contest_entries = es })))
        (ok (closed, t'))
    → (closed ≡ c) × (t'.contest_entries ≡ es) × (t'.memories ≡ t1.memories)
unfolding insert_write_receipt
closing-parts receipt c closed t1 t' es h = (ground arith, ground arith, ground arith)

module _ (contest_id : String) (resolution : ContestResolution) (by : String)
    (remark : Option String) (receipt : WriteReceipt) (admit_record : Bool)
    (new_claim_key : Option String) (now : ℕ) (t t' : Tables) (closed : ContestEntry) where
  -- The entry that a verdict closes, and the tables that it leaves.
  record Closes : Type 0 where
    entry : ContestEntry
    found : find_entry contest_id t.contest_entries ≡ some entry
    was_open : entry.state ≡ open_state
    result : closed ≡ close_entry resolution by remark new_claim_key now entry
    entries :
        t'.contest_entries
        ≡ close_entries contest_id
            (close_entry resolution by remark new_claim_key now)
            t.contest_entries
    memories :
        (((admit_record || is_some new_claim_key) ≡ false) × (t'.memories ≡ t.memories))
        ⊎ ((row : Row) × (find_row entry.record_id t.memories ≡ some row)
            × (t'.memories
                ≡ update_row entry.record_id
                    (apply_resolution admit_record new_claim_key)
                    t.memories))

  resolve_contest-Closes :
      resolve_contest contest_id resolution by remark receipt admit_record new_claim_key now t
        ≡ ok (closed, t')
      → Closes
  unfolding resolve_contest
  resolve_contest-Closes h = elim (Option-cases (find_entry contest_id t.contest_entries)) [
    | inl missing ↦ absurd (ground arith)
    | inr (entry, found) ↦
        let (u, guard, applying) =
          bind-returns
            (raise_if (not (entry.state == open_state)) (value_error "contest is already resolved"))
            _ (rw (found, resolve_contest) at h) in
        let (t1, applied, closing) =
          bind-returns
            (if admit_record || is_some new_claim_key
              then apply_resolution_to_record entry.record_id admit_record new_claim_key t
              else ok t)
            _ applying in
        let (same_entries, rows) =
          applied-tables entry.record_id admit_record new_claim_key
            (admit_record || is_some new_claim_key) t t1 applied in
        let (closed_as, entries, rows_kept) = closing-parts receipt _ closed t1 t' _ closing in
        record {
          entry = entry;
          found = found;
          was_open = open_of_guard entry u guard;
          result = closed_as;
          entries =
              entries
              ∙ ap (close_entries contest_id (close_entry resolution by remark new_claim_key now))
                  same_entries;
          memories = elim rows [
            | inl (idle, same) ↦ inl (idle, rows_kept ∙ same)
            | inr (row, known, updated) ↦ inr (row, known, rows_kept ∙ updated)
          ];
        }
  ]

-- A closed entry refuses every verdict.
pub resolve_contest_closed :
    (contest_id : String) (resolution : ContestResolution) (by : String) (remark : Option String)
    (receipt : WriteReceipt) (admit_record : Bool) (new_claim_key : Option String) (now : ℕ)
    (t : Tables) (entry : ContestEntry)
    → find_entry contest_id t.contest_entries ≡ some entry
    → entry.state ≢ open_state
    → resolve_contest contest_id resolution by remark receipt admit_record new_claim_key now t
      ≡ raise (value_error "contest is already resolved")
unfolding resolve_contest
resolve_contest_closed contest_id resolution by remark receipt admit_record new_claim_key now t
      entry found other =
    let closed : (entry.state == open_state) ≡ false = ==_ne entry.state open_state other in
    rw (found, resolve_contest, closed) refl

-- A contest is resolved once: after a verdict that returns, its entry is the returned one, which
-- carries the verdict, and any second verdict raises.
pub resolve_contest-once :
    (contest_id : String) (resolution : ContestResolution) (by : String) (remark : Option String)
    (receipt : WriteReceipt) (admit_record : Bool) (new_claim_key : Option String) (now : ℕ)
    (t t' : Tables) (closed : ContestEntry)
    → resolve_contest contest_id resolution by remark receipt admit_record new_claim_key now t
      ≡ ok (closed, t')
    → (find_entry contest_id t'.contest_entries ≡ some closed)
      × (closed.resolution ≡ some resolution)
      × ((resolution' : ContestResolution) (by' : String) (remark' : Option String)
            (receipt' : WriteReceipt) (admit' : Bool) (key' : Option String) (now' : ℕ)
          → resolve_contest contest_id resolution' by' remark' receipt' admit' key' now' t'
            ≡ raise (value_error "contest is already resolved"))
unfolding close_entry
resolve_contest-once contest_id resolution by remark receipt admit_record new_claim_key now t t'
      closed h =
    let c =
      resolve_contest-Closes contest_id resolution by remark receipt admit_record new_claim_key now
        t t' closed h in
    let found : find_entry contest_id t'.contest_entries ≡ some closed =
      ap (find_entry contest_id) c.entries
      ∙ find_entry-close contest_id (close_entry resolution by remark new_claim_key now)
          t.contest_entries c.entry (λ x. refl) c.found
      ∙ ap some (sym c.result) in
    (
      found,
      ap (λ (x : ContestEntry). x.resolution) c.result,
      λ r' b' n' w' a' k' m'.
          resolve_contest_closed contest_id r' b' n' w' a' k' m' t' closed found (λ e.
            let was : closed.state ≡ resolved = ap (λ (x : ContestEntry). x.state) c.result in
            ground arith),
    )
