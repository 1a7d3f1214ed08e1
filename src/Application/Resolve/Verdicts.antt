-- ===== src/Application/Resolve/Verdicts.antt =====
-- What `resolve_contest` of aoms/application.py leaves where it raises.
use cortex_mem.Prelude.{
  String, true, ◌≡◌, ◌≢◌, refl, sym, ap, ◌∙◌, ◌⊎◌, subst, inl, inr, Option, some, arith, is_empty,
  Option-cases, Bool-cases,
}
use cortex_mem.Errors.{Result-cases, Error, Result, ok, raise}
use cortex_mem.Contracts.{
  MemoryRecord, ContestEntry, ContestResolution, admit, admit_superseding, set_aside, split,
}
use cortex_mem.Store.Rows.{Row, find_row, slot_occupants}
use cortex_mem.Store.Database.{Tables}
use cortex_mem.Store.{find_entry}
use cortex_mem.Application.{App, Draws, can_access}
use cortex_mem.Application.Supersede.{supersede}
use cortex_mem.Application.Supersede.Heads.{supersede-Appends}
use cortex_mem.Application.Remember.{Appends}
use cortex_mem.Application.Resolve.{
  Summary, ContestResolutionResult, Verdict, ResolutionDraws, admission_request, refiled_slot,
  successor_outcome, admit_as_successor, check_split, first_step, closing_outcome, second_step,
  resolve_contest,
}

-- One record more, which repeats the content of the contested one.
abbrev pub SuccessorStays : Tables → Tables → MemoryRecord → Type 0
SuccessorStays t t' r = (s : MemoryRecord) × Appends s t t' × (s.content ≡ r.content)

module _ (app : App) (draws : Draws) (closing : ResolutionDraws) (contest_id : String)
    (v : Verdict) where
  check_split-tables : (r : MemoryRecord) (t : Tables) → (check_split app v r t).1 ≡ t
  unfolding check_split
  check_split-tables r t = elim (Option-cases v.new_claim_key) [
    | inl missing ↦ rw (missing, check_split) refl
    | inr (key, named) ↦
        elim (Bool-cases (is_empty (slot_occupants (refiled_slot r key) t.memories))) [
          | inl free ↦ rw (named, check_split, free) refl
          | inr held ↦ rw (named, check_split, held) refl
        ]
  ]

  first_step-tables :
      (r : MemoryRecord) (t : Tables)
      → v.resolution ≢ admit_superseding
      → (first_step app draws contest_id v r t).1 ≡ t
  unfolding first_step
  first_step-tables r t other = go v.resolution refl
    where
      go :
          (x : ContestResolution) → v.resolution ≡ x → (first_step app draws contest_id v r t).1 ≡ t
      go admit e = rw (e, first_step) refl
      go admit_superseding e = absurd (other e)
      go set_aside e = rw (e, first_step) refl
      go split e = rw (e, first_step) (check_split-tables r t)

  closing-raise :
      (step : Option String × Summary) (t : Tables) (res : Result (ContestEntry × Tables))
      (e : Error) (t' : Tables)
      → closing_outcome app step t res ≡ (raise e, t')
      → t' ≡ t
  closing-raise step t (ok x) e t' h = absurd (ground arith)
  closing-raise step t (raise x) e t' h = ground arith

  second_step-raise :
      (entry : ContestEntry) (r : MemoryRecord) (step : Result (Option String × Summary) × Tables)
      (e : Error) (t' : Tables)
      → second_step app closing contest_id entry v r step ≡ (raise e, t')
      → t' ≡ step.1
  unfolding second_step
  second_step-raise entry r (raise e, t) e' t' h = ground arith
  second_step-raise entry r (ok step, t) e' t' h = closing-raise step t _ e' t' h

  -- A verdict that raises leaves the tables as they were, unless it is `admit-superseding`.
  pub resolve_contest-atomic :
      (t t' : Tables) (e : Error)
      → v.resolution ≢ admit_superseding
      → resolve_contest app draws closing contest_id v t ≡ (raise e, t')
      → t' ≡ t
  unfolding resolve_contest
  resolve_contest-atomic t t' e other h =
      elim (Option-cases (find_entry contest_id t.contest_entries)) [
        | inl missing ↦
            ap (λ (p : Result ContestResolutionResult × Tables). p.1)
              (sym (rw (missing, resolve_contest) at h))
        | inr (entry, found) ↦ elim (Option-cases (find_row entry.record_id t.memories)) [
          | inl gone ↦ ground arith
          | inr (row, kept) ↦ elim (Bool-cases (can_access app.scope_context row.stored)) [
            | inl seen ↦
                second_step-raise entry row.stored (first_step app draws contest_id v row.stored t)
                  e t' (reached row entry found kept seen)
                ∙ first_step-tables row.stored t other
            | inr hidden ↦ ground arith
          ]
        ]
      ]
    where
      reached :
          (row : Row) (entry : ContestEntry)
          → find_entry contest_id t.contest_entries ≡ some entry
          → find_row entry.record_id t.memories ≡ some row
          → can_access app.scope_context row.stored ≡ true
          → second_step app closing contest_id entry v row.stored
              (first_step app draws contest_id v row.stored t)
            ≡ (raise e, t')
      reached row entry found kept seen = (rw (found, resolve_contest, kept, seen) at h)

  admitting :
      (r : MemoryRecord) (t : Tables)
      → v.resolution ≡ admit_superseding
      → first_step app draws contest_id v r t ≡ admit_as_successor app draws contest_id v r t
  unfolding first_step
  admitting r t kind = ground (arith, kind)

  successor_outcome-tables :
      (t : Tables) (r : MemoryRecord) (incumbent : String)
      → ((successor_outcome app incumbent r.id t (
            supersede app draws incumbent
              (admission_request r incumbent contest_id v.resolved_by)
              t)).1
          ≡ t)
        ⊎ SuccessorStays t
            (successor_outcome app incumbent r.id t (
              supersede app draws incumbent
                (admission_request r incumbent contest_id v.resolved_by)
                t)).1
            r
  successor_outcome-tables t r incumbent =
      elim (Result-cases (
        supersede app draws incumbent (admission_request r incumbent contest_id v.resolved_by) t)) [
          | inl (e, raised) ↦ inl (rw raised refl)
          | inr ((res, t1), stored) ↦ inr (
              rw stored (
                supersede-Appends app draws incumbent
                  (admission_request r incumbent contest_id v.resolved_by) t t1 res stored))
        ]

  admit_as_successor-tables :
      (t : Tables) (r : MemoryRecord)
      → ((admit_as_successor app draws contest_id v r t).1 ≡ t)
        ⊎ SuccessorStays t (admit_as_successor app draws contest_id v r t).1 r
  unfolding admit_as_successor
  admit_as_successor-tables t r = elim (Option-cases v.supersede_incumbent_id) [
    | inl missing ↦ inl (rw (missing, admit_as_successor) refl)
    | inr (incumbent, named) ↦
        rw (named, admit_as_successor) (successor_outcome-tables t r incumbent)
  ]

  -- `admit-superseding` makes two transactions. A verdict of this kind that raises leaves the tables
  -- as they were, or it leaves its successor behind: one record more, under an id that was new, with
  -- the content of the contested record.
  pub resolve_contest-partial :
      (t t' : Tables) (e : Error)
      → v.resolution ≡ admit_superseding
      → resolve_contest app draws closing contest_id v t ≡ (raise e, t')
      → (t' ≡ t)
        ⊎ ((entry : ContestEntry) × (row : Row) × (find_entry contest_id t.contest_entries
              ≡ some entry)
            × (find_row entry.record_id t.memories ≡ some row)
            × SuccessorStays t t' row.stored)
  unfolding resolve_contest
  resolve_contest-partial t t' e kind h =
      elim (Option-cases (find_entry contest_id t.contest_entries)) [
        | inl missing ↦ inl (
            ap (λ (p : Result ContestResolutionResult × Tables). p.1)
              (sym (rw (missing, resolve_contest) at h)))
        | inr (entry, found) ↦ elim (Option-cases (find_row entry.record_id t.memories)) [
          | inl gone ↦ inl (ground arith)
          | inr (row, kept) ↦ elim (Bool-cases (can_access app.scope_context row.stored)) [
            | inr hidden ↦ inl (ground arith)
            | inl seen ↦
                let left =
                  second_step-raise entry row.stored
                    (first_step app draws contest_id v row.stored t) e t'
                    (rw (found, resolve_contest, kept, seen) at h)
                  ∙ ap (λ (p : Result (Option String × Summary) × Tables). p.1)
                      (admitting row.stored t kind) in
                elim (admit_as_successor-tables t row.stored) [
                  | inl same ↦ inl (left ∙ same)
                  | inr stays ↦ inr (
                    entry,
                    row,
                    found,
                    kept,
                    subst (λ x. SuccessorStays t x row.stored) (sym left) stays,
                  )
                ]
          ]
        ]
      ]
