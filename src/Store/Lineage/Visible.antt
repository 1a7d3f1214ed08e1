-- ===== src/Store/Lineage/Visible.antt =====
-- Who is in a lineage of aoms/repositories/sqlite.py.
use cortex_mem.Prelude.{
  ℕ, zero, suc, ◌==◌, string_eq, option_eq, String, Bool, true, ◌≡◌, ◌≢◌, refl, sym, ap, subst, ◌∙◌,
  inl, inr, Option, some, List, [], ◌∷◌, arith, In, In-append, In-append_left, In-append_right,
  In-filter, In-filter_of, In-map, In-map_inv, contains→In, In→contains, ==_refl, Option-cases,
  Bool-cases,
}
use cortex_mem.Prelude.Order.{In-sorted, In-of_sorted}
use cortex_mem.Contracts.{MemoryRecord, ScopeContext}
use cortex_mem.Store.Rows.{Row, find_row, row_order}
use cortex_mem.Store.Laws.{find_row-In}
use cortex_mem.Store.Lineage.{
  is_member, is_linked, concat_map, linked_rows, chain_ids, select_chain, lineage, first_path,
  longer_path,
}
use cortex_mem.Store.Lineage.Paths.{NoComma, first_path-instr}

In-concat_map :
    {A B : Type 0} (f : A → List B) (b : B) (xs : List A)
    → In b (concat_map f xs)
    → (a : A) × In a xs × In b (f a)
unfolding concat_map
In-concat_map f b [] m = absurd m
In-concat_map f b (x ∷ xs) m = elim (In-append b (f x) (concat_map f xs) m) [
  | inl here ↦ (x, inl refl, here)
  | inr there ↦ let (a, k, l) = In-concat_map f b xs there in (a, inr k, l)
]

In-concat_map_of :
    {A B : Type 0} (f : A → List B) (b : B) (a : A) (xs : List A)
    → In a xs
    → In b (f a)
    → In b (concat_map f xs)
unfolding concat_map
In-concat_map_of f b a [] m n = absurd m
In-concat_map_of f b a (x ∷ xs) (inl e) n = In-append_left b (f x) (concat_map f xs) (rw (← e) n)
In-concat_map_of f b a (x ∷ xs) (inr m) n =
    In-append_right b (f x) (concat_map f xs) (In-concat_map_of f b a xs m n)

-- Ids are the table's primary key.
abbrev pub HasUniqueRows : List Row → Type 0
HasUniqueRows rows = (a b : Row) → In a rows → In b rows → a.id ≡ b.id → a ≡ b

module _ (ctx : ScopeContext) (as_of : Option ℕ) (include_contested : Bool) (rows : List Row) where
  -- the id of a row that the query may show
  abbrev IsMemberId : String → Type 0
  IsMemberId key =
      (row : Row) × In row rows
      × (row.id ≡ key)
      × (is_member ctx as_of include_contested row ≡ true)

  linked_rows-member :
      (path : String) (current linked : Row)
      → In linked (linked_rows ctx as_of include_contested rows path current)
      → In linked rows × (is_member ctx as_of include_contested linked ≡ true)
  unfolding linked_rows
  linked_rows-member path current linked m =
      let (k, h) = In-filter _ linked rows m in (k, ground arith)

  chain_ids-IsMemberId :
      (remaining : ℕ) (path : String) (current : Row) (key : String)
      → In current rows
      → is_member ctx as_of include_contested current ≡ true
      → In key (chain_ids ctx as_of include_contested rows remaining path current)
      → IsMemberId key
  unfolding chain_ids
  chain_ids-IsMemberId zero path current key k h (inl e) = (current, k, sym e, h)
  chain_ids-IsMemberId zero path current key k h (inr x) = absurd x
  chain_ids-IsMemberId (suc remaining) path current key k h (inl e) = (current, k, sym e, h)
  chain_ids-IsMemberId (suc remaining) path current key k h (inr m) =
      let (linked, l, n) =
        In-concat_map _ key (linked_rows ctx as_of include_contested rows path current) m in
      let (in_rows, visible) = linked_rows-member path current linked l in
      chain_ids-IsMemberId remaining (longer_path path linked.id) linked key in_rows visible n

  In-select_chain :
      (ids : List String) (r : MemoryRecord)
      → In r (select_chain ctx as_of include_contested rows ids)
      → (row : Row) × In row rows × (row.stored ≡ r) × In row.id ids
  unfolding select_chain
  In-select_chain ids r m =
      let (row, k, e) = In-map_inv _ r _ m in
      let (l, h) = In-filter _ row rows (In-sorted row_order row _ k) in
      (row, l, sym e, contains→In ids row.id h)

  In-select_chain_of :
      (ids : List String) (row : Row)
      → In row rows
      → In row.id ids
      → In row.stored (select_chain ctx as_of include_contested rows ids)
  unfolding select_chain
  In-select_chain_of ids row k l =
      In-map _ row _
        (In-of_sorted row_order row _ (In-filter_of _ row rows k (In→contains ids row.id l)))

  -- A lineage shows only stored rows that the context may see, that exist at the boundary, and that
  -- are not contested unless asked for, if no two rows share an id.
  pub lineage-member :
      (record_id : String) (r : MemoryRecord)
      → HasUniqueRows rows
      → In r (lineage ctx as_of include_contested rows record_id)
      → (row : Row) × In row rows
        × (row.stored ≡ r)
        × (is_member ctx as_of include_contested row ≡ true)
  unfolding lineage
  lineage-member record_id r unique m = elim (Option-cases (find_row record_id rows)) [
    | inl missing ↦ absurd (rw (missing, lineage) at m)
    | inr (anchor, found) ↦ elim (Bool-cases (is_member ctx as_of include_contested anchor)) [
      | inl visible ↦
          let (row, k, e, l) = In-select_chain _ r (rw (found, lineage, visible) at m) in
          let (other, n, same, h) =
            chain_ids-IsMemberId 100 (first_path anchor.id) anchor row.id
              (find_row-In record_id rows anchor found).0 visible l in
          (row, k, e, rw (unique row other k n (sym same)) h)
      | inr hidden ↦ absurd (rw (found, lineage, hidden) at m)
    ]
  ]

  chain_ids-head :
      (remaining : ℕ) (path : String) (current : Row)
      → In current.id (chain_ids ctx as_of include_contested rows remaining path current)
  unfolding chain_ids
  chain_ids-head zero path current = inl refl
  chain_ids-head (suc remaining) path current = inl refl

  successor_linked :
      (anchor s : Row)
      → In s rows
      → is_member ctx as_of include_contested s ≡ true
      → s.stored.supersedes ≡ some anchor.id
      → NoComma anchor.id
      → s.id ≢ anchor.id
      → In s (linked_rows ctx as_of include_contested rows (first_path anchor.id) anchor)
  unfolding linked_rows is_linked
  successor_linked anchor s k visible declares plain other =
      let named : (s.stored.supersedes == some anchor.id) ≡ true =
        rw declares (==_refl (some anchor.id)) in
      let apart = first_path-instr anchor.id s.id plain other in
      In-filter_of _ s rows k (ground (arith, named, apart, visible))

  successor-In_chain :
      (remaining : ℕ) (anchor s : Row)
      → In s (linked_rows ctx as_of include_contested rows (first_path anchor.id) anchor)
      → In s.id
          (chain_ids ctx as_of include_contested rows (suc remaining) (first_path anchor.id) anchor)
  unfolding chain_ids
  successor-In_chain remaining anchor s linked = inr (
      In-concat_map_of _ s.id s _ linked
        (chain_ids-head remaining (longer_path (first_path anchor.id) s.id) s))

  -- A lineage holds each direct successor of its anchor that it may show, if the anchor's id has no
  -- comma.
  pub lineage-successor :
      (record_id : String) (anchor s : Row)
      → find_row record_id rows ≡ some anchor
      → is_member ctx as_of include_contested anchor ≡ true
      → In s rows
      → is_member ctx as_of include_contested s ≡ true
      → s.stored.supersedes ≡ some record_id
      → NoComma record_id
      → s.id ≢ record_id
      → In s.stored (lineage ctx as_of include_contested rows record_id)
  unfolding lineage
  lineage-successor record_id anchor s found visible k shown declares plain other =
      let same : anchor.id ≡ record_id = (find_row-In record_id rows anchor found).1 in
      rw (found, lineage, visible)
        (In-select_chain_of _ s k (
          successor-In_chain 99 anchor s (
            successor_linked anchor s k shown (declares ∙ ap some (sym same))
              (subst NoComma (sym same) plain) (λ e. other (e ∙ same)))))
