-- ===== src/Application/Race.antt =====
-- Two calls of `remember` of aoms/application.py that interleave: both adjudicate before either
-- stores. The store's transaction checks the id again, and not the slot.
use cortex_mem.Prelude.{
  ℕ, String, ◌≡◌, refl, sym, ◌∙◌, ap, ◌≢◌, inl, Bool, true, false, ◌&&◌, not, none, some, List, [],
  ◌∷◌, ◌++◌, arith, any, filter, In, In-append_left, In-append_right, ◌==◌, option_eq, string_eq,
}
use cortex_mem.Prelude.Order.{sorted}
use cortex_mem.Errors.{ok}
use cortex_mem.Contracts.{
  RememberRequest, RememberResult, admitted, contested, disposition_eq, WriteDisposition, scope_eq,
}
use cortex_mem.Contest.{WriteIntent, SlotState, Ruleset, occupied, decide, content_digest}
use cortex_mem.Store.Rows.{
  Row, row_of_record, Slot, in_slot, superseded_in, holders, slot_occupants, next_rowid, find_row,
}
use cortex_mem.Store.Database.{Tables}
use cortex_mem.Store.Slots.{In-holders, displaces, superseded_in-append, in_slot_of_columns}
use cortex_mem.Application.{
  App, Draws, slot_of, slot_state, adjudicate, build_record, remember_across,
}
use cortex_mem.Application.Remember.{
  Appends, candidate, request_id, request_provenance, remember_across-fresh,
}
use cortex_mem.Application.Slots.{HasOneAnswer, answer}

filter-none :
    {A : Type 0} (p q : A → Bool) (xs : List A)
    → any p xs ≡ false
    → filter (λ x. p x && q x) xs ≡ []
unfolding any filter
filter-none p q [] h = refl
filter-none p q (x ∷ xs) h = ground (arith, filter-none p q xs)

any-none :
    {A : Type 0} (p q : A → Bool) (xs : List A)
    → any p xs ≡ false
    → any (λ x. p x && q x) xs ≡ false
unfolding any
any-none p q [] h = refl
any-none p q (x ∷ xs) h = ground (arith, any-none p q xs)

-- No admitted record of the slot.
abbrev pub IsUnclaimed : Slot → List Row → Type 0
IsUnclaimed slot rows = any (in_slot slot) rows ≡ false

unclaimed_occupants :
    (slot : Slot) (rows : List Row) → IsUnclaimed slot rows → slot_occupants slot rows ≡ []
unfolding slot_occupants holders sorted
unclaimed_occupants slot rows h =
    rw (filter-none (in_slot slot) (λ (row : Row). not (superseded_in slot rows row.id)) rows h)

unclaimed_superseded :
    (slot : Slot) (rows : List Row) (id : String)
    → IsUnclaimed slot rows
    → superseded_in slot rows id ≡ false
unfolding superseded_in
unclaimed_superseded slot rows id h =
    any-none (in_slot slot) (λ (s : Row). s.stored.supersedes == some id) rows h

decide_unheld :
    (intent : WriteIntent) (slot : SlotState) (rules : Ruleset)
    → slot ≡ []
    → (decide intent slot rules).disposition ≡ admitted
unfolding decide occupied
decide_unheld intent slot rules e = ground (arith, e)

module _ (app : App) (key : String) where
  -- The request claims the slot and declares no predecessor.
  pub record Claims (slot : Slot) (request : RememberRequest) : Type 0 where
    pub claims : request.claim_key ≡ some key
    pub in_scope : slot ≡ slot_of app key request.scope
    pub undeclared : request.supersedes ≡ none

  module _ (draws : Draws) (request : RememberRequest) (slot : Slot) (c : Claims slot request)
      (seen : Tables) (unclaimed : IsUnclaimed slot seen.memories) (n : ℕ) where
    abbrev new_row : Row
    new_row = row_of_record n (candidate app draws request seen)

    adjudicate_unclaimed :
        (adjudicate app request
          (request_id app draws request)
          (request_provenance app draws request)
          seen).0.disposition
        ≡ admitted
    unfolding adjudicate
    adjudicate_unclaimed =
        rw (c.claims, adjudicate)
          (rw (← c.in_scope) (
            decide_unheld _ (slot_state app (request_id app draws request) slot seen) app.rules
              unheld))
      where
        unheld : slot_state app (request_id app draws request) slot seen ≡ []
        unheld = unfold slot_state filter in rw (unclaimed_occupants slot seen.memories unclaimed)

    new_row-in_slot : in_slot slot new_row ≡ true
    new_row-in_slot =
        in_slot_of_columns slot new_row
          (unfold row_of_record build_record in
            c.claims ∙ ap (λ (x : Slot). some x.key) (sym c.in_scope))
          (unfold row_of_record build_record in ap (λ (x : Slot). x.scope) (sym c.in_scope))
          (unfold row_of_record build_record in
            ap (λ (d : WriteDisposition). d == contested) adjudicate_unclaimed)
          (unfold row_of_record build_record in ap (λ (x : Slot). x.agent) (sym c.in_scope))
          (unfold row_of_record build_record in ap (λ (x : Slot). x.workspace) (sym c.in_scope))

    new_row-displaces : (id : String) → displaces slot new_row id ≡ false
    new_row-displaces id =
        let none_declared : new_row.stored.supersedes ≡ none =
          unfold row_of_record build_record in c.undeclared in
        ground (arith, none_declared)

    new_row-answer : answer app new_row ≡ content_digest app.sha256 request.content
    unfolding row_of_record build_record
    new_row-answer = refl

  superseded_by_neither :
      (slot : Slot) (rows : List Row) (r s : Row) (id : String)
      → IsUnclaimed slot rows
      → displaces slot r id ≡ false
      → displaces slot s id ≡ false
      → superseded_in slot ((rows ++ r ∷ []) ++ s ∷ []) id ≡ false
  superseded_by_neither slot rows r s id unclaimed dr ds = ground (
    arith,
    superseded_in-append slot (rows ++ r ∷ []) s id,
    superseded_in-append slot rows r id,
    unclaimed_superseded slot rows id unclaimed,
  )

  -- Two calls that claim the same slot with different contents, and that both adjudicate before
  -- either stores, are both admitted: when both have returned the slot has two current answers.
  pub remember_race :
      (draws draws' : Draws) (request request' : RememberRequest) (slot : Slot) (t t1 t2 : Tables)
      (res res' : RememberResult)
      → Claims slot request
      → Claims slot request'
      → IsUnclaimed slot t.memories
      → find_row (request_id app draws request) t.memories ≡ none
      → find_row (request_id app draws' request') t.memories ≡ none
      → find_row (request_id app draws' request') t1.memories ≡ none
      → content_digest app.sha256 request.content ≢ content_digest app.sha256 request'.content
      → remember_across app draws request false t t t ≡ ok (res, t1)
      → remember_across app draws' request' false t t t1 ≡ ok (res', t2)
      → ¬ HasOneAnswer app slot t2.memories
  remember_race draws draws' request request' slot t t1 t2 res res' c c' unclaimed new new' fresh'
        differ h h' one =
      differ (
        sym (new_row-answer draws request slot c t unclaimed n)
        ∙ one r r' holds holds'
        ∙ new_row-answer draws' request' slot c' t unclaimed n')
    where
      a : Appends (candidate app draws request t) t t1
      a = remember_across-fresh app draws request t t t t1 res new new h

      a' : Appends (candidate app draws' request' t) t1 t2
      a' = remember_across-fresh app draws' request' t t t1 t2 res' new' fresh' h'

      n : ℕ
      n = next_rowid t.memories

      n' : ℕ
      n' = next_rowid t1.memories

      r : Row
      r = row_of_record n (candidate app draws request t)

      r' : Row
      r' = row_of_record n' (candidate app draws' request' t)

      rows : t2.memories ≡ (t.memories ++ r ∷ []) ++ r' ∷ []
      rows = a'.rows ∙ ap (λ (xs : List Row). xs ++ r' ∷ []) a.rows

      free : (id : String) → superseded_in slot ((t.memories ++ r ∷ []) ++ r' ∷ []) id ≡ false
      free id =
          superseded_by_neither slot t.memories r r' id unclaimed
            (new_row-displaces draws request slot c t unclaimed n id)
            (new_row-displaces draws' request' slot c' t unclaimed n' id)

      holds : In r (holders slot t2.memories)
      holds = rw rows (
          (In-holders slot ((t.memories ++ r ∷ []) ++ r' ∷ []) r).1 (
            In-append_left r (t.memories ++ r ∷ []) (r' ∷ [])
                (In-append_right r t.memories (r ∷ []) (inl refl)),
            new_row-in_slot draws request slot c t unclaimed n,
            free r.id,
          ))

      holds' : In r' (holders slot t2.memories)
      holds' = rw rows (
          (In-holders slot ((t.memories ++ r ∷ []) ++ r' ∷ []) r').1 (
            In-append_right r' (t.memories ++ r ∷ []) (r' ∷ []) (inl refl),
            new_row-in_slot draws' request' slot c' t unclaimed n',
            free r'.id,
          ))
