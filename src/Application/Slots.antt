-- ===== src/Application/Slots.antt =====
-- `remember` of aoms/application.py and the current answers of a claim slot.
use cortex_mem.Prelude.{
  ℕ, String, ◌≡◌, refl, sym, ap, ◌∙◌, ◌≢◌, ◌⊎◌, inl, inr, Bool, true, false, not, none, some, List,
  [], ◌∷◌, ◌++◌, arith, In, In-map, In-filter_of, Bool-cases, ◌==◌, option_eq, string_eq,
  option_beq_iff, eq_iff,
}
use cortex_mem.Errors.{ok}
use cortex_mem.Contracts.{
  MemoryRecord, RememberRequest, RememberResult, slot_collision, disposition_eq,
}
use cortex_mem.Contest.{is_contested, content_digest, decide}
use cortex_mem.Contest.Spec.{MustContest, decide-MustContest}
use cortex_mem.Store.Rows.{Row, row_of_record, Slot, in_slot, holders, slot_occupants, find_row}
use cortex_mem.Store.Database.{Tables}
use cortex_mem.Store.Laws.{find_row-none-ne}
use cortex_mem.Store.Slots.{
  In-holders, holders-append, In-slot_occupants, displaces, in_slot_columns,
}
use cortex_mem.Application.{
  App, Draws, slot_of, occupant_of, intent_of, slot_state, adjudicate, build_record, remember,
}
use cortex_mem.Application.Remember.{
  candidate, request_id, request_provenance, remember_across-memories,
}

-- Every row's columns are those of its record.
abbrev pub IsMirrored : Tables → Type 0
IsMirrored t = (row : Row) → In row t.memories → row ≡ row_of_record row.rowid row.stored

module _ (app : App) where
  abbrev pub answer : Row → String
  answer row = content_digest app.sha256 row.stored.content

  -- The current holders of the slot all have the same content digest.
  abbrev pub HasOneAnswer : Slot → List Row → Type 0
  HasOneAnswer slot rows =
      (a b : Row) → In a (holders slot rows) → In b (holders slot rows) → answer a ≡ answer b

  module _ (draws : Draws) (request : RememberRequest) (t : Tables)
      (collisions : In slot_collision app.rules.enabled_triggers) where
    abbrev new_record : MemoryRecord
    new_record = candidate app draws request t

    abbrev verdict_contested : Bool
    verdict_contested =
        is_contested
          (adjudicate app request (request_id app draws request)
            (request_provenance app draws request) t).0

    -- what being in a slot says of the new record
    new_in_slot :
        (slot : Slot) (n : ℕ)
        → in_slot slot (row_of_record n new_record) ≡ true
        → (request.claim_key ≡ some slot.key)
          × (slot_of app slot.key request.scope ≡ slot)
          × (verdict_contested ≡ false)
    new_in_slot slot n h =
        let (k, s, c, a, w) = in_slot_columns slot (row_of_record n new_record) h in
        (
          unfold row_of_record build_record in k,
          unfold row_of_record build_record in slot_path s a w,
          unfold row_of_record build_record is_contested in c,
        )
      where
        slot_path :
            request.scope ≡ slot.scope
            → (slot_of app slot.key request.scope).agent ≡ slot.agent
            → (slot_of app slot.key request.scope).workspace ≡ slot.workspace
            → slot_of app slot.key request.scope ≡ slot
        slot_path s a w = λ i. record { key = slot.key; scope = s i; agent = a i; workspace = w i }

    -- The new record sees every other holder of its slot.
    seen_occupant :
        (slot : Slot) (old : Row)
        → IsMirrored t
        → find_row (request_id app draws request) t.memories ≡ none
        → In old (holders slot t.memories)
        → In (occupant_of app old.stored) (slot_state app (request_id app draws request) slot t)
    unfolding slot_state
    seen_occupant slot old mirrored fresh m = In-map (occupant_of app) old.stored _ (
        In-filter_of (λ (r : MemoryRecord). not (r.id == request_id app draws request)) old.stored
          (slot_occupants slot t.memories) (In-slot_occupants slot t.memories old m) other)
      where
        stands : In old t.memories
        stands = ((In-holders slot t.memories old).0 m).0

        same_id : old.id ≡ old.stored.id
        same_id = unfold row_of_record in ap (λ (r : Row). r.id) (mirrored old stands)

        other : not (old.stored.id == request_id app draws request) ≡ true
        other = ground (
          arith,
          eq_iff old.stored.id (request_id app draws request),
          find_row-none-ne (request_id app draws request) t.memories old fresh stands,
          same_id,
        )

    adjudicate_at :
        (key : String)
        → request.claim_key ≡ some key
        → (adjudicate app request
            (request_id app draws request)
            (request_provenance app draws request)
            t).0
          ≡ decide
              (intent_of app request (request_provenance app draws request))
              (slot_state app (request_id app draws request) (slot_of app key request.scope) t)
              app.rules
    unfolding adjudicate
    adjudicate_at key k = ground (arith, k)

    verdict_of_slot :
        (slot : Slot)
        → request.claim_key ≡ some slot.key
        → slot_of app slot.key request.scope ≡ slot
        → verdict_contested
          ≡ is_contested (
              decide
                (intent_of app request (request_provenance app draws request))
                (slot_state app (request_id app draws request) slot t)
                app.rules)
    verdict_of_slot slot k s =
        ap is_contested (adjudicate_at slot.key k)
        ∙ ap
            (λ (x : Slot). is_contested (
              decide (intent_of app request (request_provenance app draws request))
                (slot_state app (request_id app draws request) x t) app.rules))
            s

    undeclared :
        (slot : Slot) (n : ℕ) (old : Row)
        → IsMirrored t
        → In old (holders slot t.memories)
        → in_slot slot (row_of_record n new_record) ≡ true
        → displaces slot (row_of_record n new_record) old.id ≡ false
        → some old.stored.id ≢ request.supersedes
    undeclared slot n old mirrored m here stays e = cc (here, stays, clash)
      where
        same_id : old.id ≡ old.stored.id
        same_id =
            unfold row_of_record in
            ap (λ (r : Row). r.id) (mirrored old ((In-holders slot t.memories old).0 m).0)

        clash : ((row_of_record n new_record).stored.supersedes == some old.id) ≡ true
        clash =
            unfold row_of_record build_record in
            (option_beq_iff request.supersedes (some old.id)).1 (sym e ∙ ap some (sym same_id))

    -- a differing occupant that is not the declared predecessor is contested
    must_contest :
        (slot : Slot) (old : Row)
        → request.claim_key ≡ some slot.key
        → In (occupant_of app old.stored) (slot_state app (request_id app draws request) slot t)
        → answer old ≢ content_digest app.sha256 request.content
        → some old.stored.id ≢ request.supersedes
        → MustContest
            (intent_of app request (request_provenance app draws request))
            (slot_state app (request_id app draws request) slot t)
            app.rules
    unfolding intent_of occupant_of
    must_contest slot old k m differs undeclared = record {
      takes_part = (slot.key, k);
      differs = (occupant_of app old.stored, m, differs);
      because = inr (inr (collisions, (occupant_of app old.stored, m, undeclared)));
    }

    -- An old holder that the new record does not displace has the new record's content.
    agrees :
        (slot : Slot) (n : ℕ) (old : Row)
        → IsMirrored t
        → find_row (request_id app draws request) t.memories ≡ none
        → In old (holders slot t.memories)
        → in_slot slot (row_of_record n new_record) ≡ true
        → displaces slot (row_of_record n new_record) old.id ≡ false
        → answer old ≡ content_digest app.sha256 request.content
    agrees slot n old mirrored fresh m here stays =
        elim (Bool-cases (answer old == content_digest app.sha256 request.content)) [
          | inl same ↦ (eq_iff _ _).0 same
          | inr differs ↦
              let (k, s, calm) = new_in_slot slot n here in
              let must =
                must_contest slot old k (seen_occupant slot old mirrored fresh m)
                  (λ e. cc (
                    (eq_iff (answer old) (content_digest app.sha256 request.content)).1 e,
                    differs,
                  ))
                  (undeclared slot n old mirrored m here stays) in
              absurd (cc ((decide-MustContest _ _ _).1 must, verdict_of_slot slot k s, calm))
        ]

    answer_new :
        (n : ℕ) → answer (row_of_record n new_record) ≡ content_digest app.sha256 request.content
    unfolding row_of_record build_record
    answer_new n = refl

    one_answer_append :
        (slot : Slot) (n : ℕ)
        → IsMirrored t
        → find_row (request_id app draws request) t.memories ≡ none
        → HasOneAnswer slot t.memories
        → HasOneAnswer slot (t.memories ++ row_of_record n new_record ∷ [])
    one_answer_append slot n mirrored fresh one a b ma mb =
        let (pa, da) = holders-append slot t.memories (row_of_record n new_record) a ma in
        let (pb, db) = holders-append slot t.memories (row_of_record n new_record) b mb in
        joined pa da pb db
      where
        new_row : Row
        new_row = row_of_record n new_record

        new_answer : (r : Row) → r ≡ new_row → answer r ≡ content_digest app.sha256 request.content
        new_answer r e = rw e (answer_new n)

        joined :
            In a (holders slot t.memories) ⊎ ((a ≡ new_row) × (in_slot slot new_row ≡ true))
            → displaces slot new_row a.id ≡ false
            → In b (holders slot t.memories) ⊎ ((b ≡ new_row) × (in_slot slot new_row ≡ true))
            → displaces slot new_row b.id ≡ false
            → answer a ≡ answer b
        joined (inl x) da (inl y) db = one a b x y
        joined (inl x) da (inr (e, here)) db =
            agrees slot n a mirrored fresh x here da ∙ sym (new_answer b e)
        joined (inr (e, here)) da (inl y) db =
            new_answer a e ∙ sym (agrees slot n b mirrored fresh y here db)
        joined (inr (e, _)) da (inr (f, _)) db = new_answer a e ∙ sym (new_answer b f)

  -- A write that returns keeps every slot at one answer, if the rules enable slot collision and no
  -- other writer comes between its reads and its store.
  pub remember-HasOneAnswer :
      (draws : Draws) (request : RememberRequest) (t t' : Tables) (res : RememberResult)
      → In slot_collision app.rules.enabled_triggers
      → IsMirrored t
      → ((slot : Slot) → HasOneAnswer slot t.memories)
      → remember app draws request t ≡ ok (res, t')
      → (slot : Slot) → HasOneAnswer slot t'.memories
  unfolding remember
  remember-HasOneAnswer draws request t t' res collisions mirrored one h slot =
      elim (remember_across-memories app draws request false t t t t' res h) [
        | inl same ↦ rw same (one slot)
        | inr app_rows ↦ rw app_rows.rows (
            one_answer_append draws request t collisions slot _ mirrored
              (unfold build_record in app_rows.fresh) (one slot))
      ]
