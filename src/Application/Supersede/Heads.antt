-- ===== src/Application/Supersede/Heads.antt =====
-- `supersede` of aoms/application.py and the successors that a record has.
use cortex_mem.Prelude.{
  ◌==◌, string_eq, option_eq, String, true, false, ◌≡◌, ◌≢◌, refl, ap, ◌∙◌, inl, inr, none, some,
  List, [], ◌∷◌, arith, is_empty, In, In-filter_of, In-append_left, ==_refl, Option-cases,
}
use cortex_mem.Errors.{ok}
use cortex_mem.Contracts.{MemoryRecord, RememberResult, SupersedeRequest}
use cortex_mem.Store.Rows.{Row, find_row, row_of_record}
use cortex_mem.Store.Database.{Tables}
use cortex_mem.Store.Laws.{find_row-In}
use cortex_mem.Store.Lineage.{is_member, scope_access}
use cortex_mem.Store.Lineage.Paths.{NoComma}
use cortex_mem.Store.Lineage.Visible.{lineage-successor}
use cortex_mem.Application.{build_record, App, Draws, can_access, string_or}
use cortex_mem.Application.Remember.{remember_across-memories, remember_across-created, Appends}
use cortex_mem.Application.Slots.{IsMirrored}
use cortex_mem.Application.Access.{can_access-scope_access}
use cortex_mem.Application.Supersede.{
  direct_successors, successor_request, append_successor, supersede,
}

is_empty-In : {A : Type 0} (a : A) (xs : List A) → is_empty xs ≡ true → In a xs → ⊥
is_empty-In a [] e m = m
is_empty-In a (x ∷ xs) e m = absurd (ground arith)

module _ (app : App) (draws : Draws) (old_id : String) (request : SupersedeRequest) (t t' : Tables)
    (res : RememberResult) where
  -- What the guards of `supersede` leave.
  supersede_guards :
      supersede app draws old_id request t ≡ ok (res, t')
      → (row : Row) × (find_row old_id t.memories ≡ some row)
        × (can_access app.scope_context row.stored ≡ true)
        × (is_empty (direct_successors app old_id t) ≡ true)
        × (append_successor app draws row.stored request t ≡ ok (res, t'))
  unfolding supersede
  supersede_guards h = elim (Option-cases (find_row old_id t.memories)) [
    | inl missing ↦ absurd (ground arith)
    | inr (row, found) ↦ (row, found, ground arith, ground arith, ground arith)
  ]

  -- A `supersede` that returns has appended a record with the content of its request.
  pub supersede-Appends :
      supersede app draws old_id request t ≡ ok (res, t')
      → (s : MemoryRecord) × Appends s t t' × (s.content ≡ request.content)
  unfolding append_successor successor_request build_record
  supersede-Appends h =
      let (old, found, access, head, appended) = supersede_guards h in
      let id = string_or request.id draws.record_id in
      elim (Option-cases (find_row id t.memories)) [
        | inr (other, taken) ↦ absurd (ground arith)
        | inl fresh ↦ (
          _,
          remember_across-created app draws (successor_request app old.stored id request) t t t t'
              res fresh (rw (fresh, append_successor) at appended),
          refl,
        )
      ]

  append_successor-keeps :
      (old : MemoryRecord)
      → append_successor app draws old request t ≡ ok (res, t')
      → (row : Row) → In row t.memories
      → In row t'.memories
  unfolding append_successor
  append_successor-keeps old h row m =
      elim (Option-cases (find_row (string_or request.id draws.record_id) t.memories)) [
        | inl fresh ↦
            elim (remember_across-memories app draws
              (successor_request app old (string_or request.id draws.record_id) request) true t t t
              t' res (rw (fresh, append_successor) at h)) [
                | inl same ↦ rw same m
                | inr appended ↦ rw appended.rows (In-append_left row t.memories _ m)
              ]
        | inr (other, taken) ↦ absurd (ground arith)
      ]

  -- A visible, admitted row that was written from its record.
  visible_member :
      (row : Row)
      → row ≡ row_of_record row.rowid row.stored
      → can_access app.scope_context row.stored ≡ true
      → row.contested_bit ≡ false
      → is_member app.scope_context none false row ≡ true
  unfolding is_member
  visible_member row mirrored access admitted_bit =
      let seen : scope_access app.scope_context row ≡ true =
        ap (scope_access app.scope_context) mirrored
        ∙ can_access-scope_access app.scope_context row.rowid row.stored
        ∙ access in
      ground arith

  no_successor :
      (anchor s : Row)
      → find_row old_id t.memories ≡ some anchor
      → is_member app.scope_context none false anchor ≡ true
      → is_empty (direct_successors app old_id t) ≡ true
      → In s t.memories
      → is_member app.scope_context none false s ≡ true
      → NoComma old_id
      → s.id ≢ old_id
      → s.stored.supersedes ≡ some old_id
      → ⊥
  unfolding direct_successors
  no_successor anchor s found visible head k shown plain other declares =
      let linked =
        lineage-successor app.scope_context none false t.memories old_id anchor s found visible k
          shown declares plain other in
      let named : (s.stored.supersedes == some old_id) ≡ true =
        rw declares (==_refl (some old_id)) in
      is_empty-In s.stored _ head (In-filter_of _ s.stored _ linked named)

  -- A `supersede` that returns leaves every row as it was, its predecessor's included; and if that
  -- row is not contested, then no other row that the context sees as admitted had declared it as
  -- predecessor, so no visible line of successors forks. The predecessor's id has no
  -- comma, and the columns mirror their records.
  pub supersede-head :
      IsMirrored t
      → NoComma old_id
      → supersede app draws old_id request t ≡ ok (res, t')
      → (old : Row) × (find_row old_id t.memories ≡ some old)
        × ((row : Row) → In row t.memories → In row t'.memories)
        × (old.contested_bit ≡ false
            → (s : Row) → In s t.memories
            → is_member app.scope_context none false s ≡ true
            → s.id ≢ old_id
            → s.stored.supersedes ≢ some old_id)
  supersede-head mirrored plain h =
      let (old, found, access, head, appended) = supersede_guards h in
      (
        old,
        found,
        append_successor-keeps old.stored appended,
        λ admitted_bit s k shown other declares.
            no_successor old s found
              (visible_member old (mirrored old (find_row-In old_id t.memories old found).0) access
                admitted_bit)
              head k shown plain other declares,
      )
