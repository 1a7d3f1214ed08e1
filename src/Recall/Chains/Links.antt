-- ===== src/Recall/Chains/Links.antt =====
-- Declared links among the candidates of `resolve_supersession_chains` (aoms/recall.py): which id
-- follows which, cycles, and what is connected.
use cortex_mem.Prelude.{
  String, ◌≡◌, ◌↔◌, sym, ◌∙◌, ◌⊎◌, inl, inr, true, Option, some, List, arith, In, In-filter,
  In-filter_of, contains→In, ◌==◌, string_eq, option_eq, ==→eq, ==_refl, some-inj,
}
use cortex_mem.Contracts.{MemoryRecord}
use cortex_mem.Recall.Chains.{known, next_id, record_ids, is_adjacent, adjacency}

module _ (records : List MemoryRecord) where
  -- one link, both of whose ends are candidates
  abbrev pub Next : String → String → Type 0
  Next a b = (known records a ≡ true) × (known records b ≡ true) × (next_id records a ≡ some b)

  pub Next-unique : (a b c : String) → Next a b → Next a c → b ≡ c
  Next-unique a b c (_, _, p) (_, _, q) = some-inj (sym p ∙ q)

-- one link or more
pub data Follows (records : List MemoryRecord) : String → String → Type 0 where
  link : {a b : String} → Next records a b → Follows records a b
  along : {a b c : String} → Next records a b → Follows records b c → Follows records a c

-- links in either direction
pub data Connected (records : List MemoryRecord) (a : String) : String → Type 0 where
  here : Connected records a a
  step :
      {b c : String}
      → Connected records a b
      → Next records b c ⊎ Next records c b
      → Connected records a c

flip : {P Q : Type 0} → P ⊎ Q → Q ⊎ P
flip (inl p) = inr p
flip (inr q) = inl q

module _ {records : List MemoryRecord} where
  pub trans : {a b c : String} → Follows records a b → Follows records b c → Follows records a c
  trans (link n) g = along n g
  trans (along n f) g = along n (trans f g)

  -- A set that links do not leave is not left by following them.
  pub Follows-stays :
      (S : String → Type 0)
      → ((a b : String) → S a → Next records a b → S b)
      → {a b : String} → S a
      → Follows records a b
      → S b
  Follows-stays S closed {a} {b} m (link n) = closed a b m n
  Follows-stays S closed {a} m (along {b = b} n f) = Follows-stays S closed (closed a b m n) f

  pub Connected-trans :
      {a b c : String} → Connected records a b → Connected records b c → Connected records a c
  Connected-trans f here = f
  Connected-trans f (step g s) = step (Connected-trans f g) s

  pub Connected-sym : {a b : String} → Connected records a b → Connected records b a
  Connected-sym here = here
  Connected-sym (step f s) = Connected-trans (step here (flip s)) (Connected-sym f)

module _ (records : List MemoryRecord) where
  some_iff : (o : Option String) (b : String) → ((o == some b) ≡ true) ↔ (o ≡ some b)
  some_iff o b = (==→eq o (some b), λ e. rw e (==_refl (some b)))

  pub In-adjacency :
      (a b : String) → In b (adjacency records a) ↔ (Next records a b ⊎ Next records b a)
  unfolding adjacency is_adjacent
  In-adjacency a b = (
    λ m.
        let (_, e) = In-filter (is_adjacent records a) b (record_ids records) m in
        ground (arith, some_iff (next_id records a) b, some_iff (next_id records b) a),
    λ n.
        let e : is_adjacent records a b ≡ true =
          ground (arith, some_iff (next_id records a) b, some_iff (next_id records b) a) in
        In-filter_of (is_adjacent records a) b (record_ids records)
          (contains→In (record_ids records) b (ground arith)) e,
  )
