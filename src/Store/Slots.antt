-- ===== src/Store/Slots.antt =====
-- The holders of a claim slot in aoms/repositories/sqlite.py when a row is appended to `memories`.
use cortex_mem.Prelude.{
  String, ◌≡◌, refl, ◌↔◌, ◌⊎◌, inl, inr, Bool, true, false, ◌&&◌, ◌||◌, not, some, List, [], ◌∷◌,
  ◌++◌, arith, In, In-append, In-filter, In-filter_of, In-map, any, filter, ◌==◌, option_eq,
  string_eq, option_beq_iff,
}
use cortex_mem.Prelude.Order.{sorted, In-of_sorted}
use cortex_mem.Contracts.Enums.{scope_beq_iff}
use cortex_mem.Store.Rows.{Row, Slot, in_slot, superseded_in, holders, slot_occupants, row_order}

any-append :
    {A : Type 0} (p : A → Bool) (xs ys : List A) → any p (xs ++ ys) ≡ (any p xs || any p ys)
unfolding any
any-append p [] ys = refl
any-append p (x ∷ xs) ys = ground (arith, any-append p xs ys)

any_one : {A : Type 0} (p : A → Bool) (x : A) → any p (x ∷ []) ≡ p x
unfolding any
any_one p x = ground arith

-- The appended row names this id as its predecessor in the slot.
abbrev pub displaces : Slot → Row → String → Bool
displaces slot new key = in_slot slot new && new.stored.supersedes == some key

pub superseded_in-append :
    (slot : Slot) (rows : List Row) (new : Row) (key : String)
    → superseded_in slot (rows ++ new ∷ []) key
      ≡ (superseded_in slot rows key || displaces slot new key)
unfolding superseded_in
superseded_in-append slot rows new key = ground (
  arith,
  any-append (λ (s : Row). in_slot slot s && s.stored.supersedes == some key) rows (new ∷ []),
  any_one (λ (s : Row). in_slot slot s && s.stored.supersedes == some key) new,
)

-- A row holds a slot when it is admitted there and no admitted row of the slot supersedes it.
pub In-holders :
    (slot : Slot) (rows : List Row) (a : Row)
    → In a (holders slot rows)
      ↔ (In a rows × (in_slot slot a ≡ true) × (superseded_in slot rows a.id ≡ false))
unfolding holders
In-holders slot rows a = (forth, back)
  where
    holds : Row → Bool
    holds row = in_slot slot row && not (superseded_in slot rows row.id)

    forth :
        In a (filter (λ (row : Row). in_slot slot row && not (superseded_in slot rows row.id)) rows)
        → In a rows × (in_slot slot a ≡ true) × (superseded_in slot rows a.id ≡ false)
    forth m =
        let (k, h) =
          In-filter (λ (row : Row). in_slot slot row && not (superseded_in slot rows row.id)) a rows
            m in
        (k, ground arith, ground arith)

    back :
        In a rows × (in_slot slot a ≡ true) × (superseded_in slot rows a.id ≡ false)
        → In a
            (filter (λ (row : Row). in_slot slot row && not (superseded_in slot rows row.id)) rows)
    back m =
        In-filter_of (λ (row : Row). in_slot slot row && not (superseded_in slot rows row.id)) a
          rows m.0 (ground arith)

-- A holder after the append held the slot before, or is the new row; the new row displaces none
-- of them.
pub holders-append :
    (slot : Slot) (rows : List Row) (new a : Row)
    → In a (holders slot (rows ++ new ∷ []))
    → (In a (holders slot rows) ⊎ ((a ≡ new) × (in_slot slot new ≡ true)))
      × (displaces slot new a.id ≡ false)
holders-append slot rows new a m =
    let (k, h, s) = (In-holders slot (rows ++ new ∷ []) a).0 m in
    let split = superseded_in-append slot rows new a.id in
    (
      elim (In-append a rows (new ∷ []) k) [
        | inl l ↦ inl ((In-holders slot rows a).1 (l, h, ground arith))
        | inr (inl e) ↦ inr (e, rw (← e) h)
        | inr (inr b) ↦ absurd b
      ],
      ground arith,
    )

pub In-slot_occupants :
    (slot : Slot) (rows : List Row) (a : Row)
    → In a (holders slot rows)
    → In a.stored (slot_occupants slot rows)
unfolding slot_occupants
In-slot_occupants slot rows a m =
    In-map (λ (row : Row). row.stored) a (sorted row_order (holders slot rows))
      (In-of_sorted row_order a (holders slot rows) m)

-- The query's five tests, as equations.
pub in_slot_columns :
    (slot : Slot) (row : Row)
    → in_slot slot row ≡ true
    → (row.claim_key ≡ some slot.key)
      × (row.scope ≡ slot.scope)
      × (row.contested_bit ≡ false)
      × (row.scope_agent_id ≡ slot.agent)
      × (row.scope_workspace_id ≡ slot.workspace)
unfolding in_slot
in_slot_columns slot row h = ground (
  arith,
  option_beq_iff row.claim_key (some slot.key),
  scope_beq_iff row.scope slot.scope,
  option_beq_iff row.scope_agent_id slot.agent,
  option_beq_iff row.scope_workspace_id slot.workspace,
)

pub in_slot_of_columns :
    (slot : Slot) (row : Row)
    → row.claim_key ≡ some slot.key
    → row.scope ≡ slot.scope
    → row.contested_bit ≡ false
    → row.scope_agent_id ≡ slot.agent
    → row.scope_workspace_id ≡ slot.workspace
    → in_slot slot row ≡ true
unfolding in_slot
in_slot_of_columns slot row k s c a w = ground (
  arith,
  option_beq_iff row.claim_key (some slot.key),
  scope_beq_iff row.scope slot.scope,
  option_beq_iff row.scope_agent_id slot.agent,
  option_beq_iff row.scope_workspace_id slot.workspace,
)
