-- ===== src/Contest/Rulesets.antt =====
-- How the configuration and the content bear on `decide` of aoms/contest.py.
use cortex_mem.Prelude.{
  ℕ, suc, ◌≡◌, refl, ap, inl, inr, String, true, Option, [], ◌∷◌, map, arith, length, is_empty,
  filter, all, In, ◌==◌, string_eq, eq_iff,
}
use cortex_mem.Contracts.{ContestTrigger, slot_collision, retrograde, derived, trigger_eq}
use cortex_mem.Contest.{
  Ruleset, WriteIntent, SlotOccupant, SlotState, is_contested, decide, decide_occupied, occupied,
  same_content, older_than, undeclared,
}
use cortex_mem.Contest.Spec.{Ground, decide-MustContest}

module _ (small large : Ruleset)
    (within : (t : ContestTrigger)
      → In t small.enabled_triggers
      → In t large.enabled_triggers) where
  Ground-mono :
      (intent : WriteIntent) (slot : SlotState)
      → Ground intent slot small
      → Ground intent slot large
  Ground-mono intent slot (inl (e, n)) = inl (within derived e, n)
  Ground-mono intent slot (inr (inl (e, o))) = inr (inl (within retrograde e, o))
  Ground-mono intent slot (inr (inr (e, o))) = inr (inr (within slot_collision e, o))

  -- Enabling more triggers never admits a write that was contested.
  pub decide_mono :
      (intent : WriteIntent) (slot : SlotState)
      → is_contested (decide intent slot small) ≡ true
      → is_contested (decide intent slot large) ≡ true
  decide_mono intent slot h =
      let must = (decide-MustContest intent slot small).0 h in
      (decide-MustContest intent slot large).1 (record {
        takes_part = must.takes_part;
        differs = must.differs;
        because = Ground-mono intent slot must.because;
      })

module _ (f : String → String) (injective : (a b : String) → f a ≡ f b → a ≡ b) where
  -- The write and its slot with every digest replaced.
  abbrev pub recode_intent : WriteIntent → WriteIntent
  recode_intent intent = record intent { content_sha256 = f intent.content_sha256 }

  abbrev pub recode_occupant : SlotOccupant → SlotOccupant
  recode_occupant o = record o { content_sha256 = f o.content_sha256 }

  abbrev pub recode_slot : SlotState → SlotState
  recode_slot = map recode_occupant

  recode-equals : (a b : String) → (f a == f b) ≡ (a == b)
  recode-equals a b = ground (arith, eq_iff a b, eq_iff (f a) (f b), injective a b)

  all-recode :
      (intent : WriteIntent) (slot : SlotState)
      → all (same_content (recode_intent intent)) (recode_slot slot)
        ≡ all (same_content intent) slot
  unfolding all
  all-recode intent [] = refl
  all-recode intent (o ∷ slot) =
      rw (recode-equals o.content_sha256 intent.content_sha256, all-recode intent slot)

  ids-recode :
      (slot : SlotState)
      → map (λ (o : SlotOccupant). o.record_id) (recode_slot slot)
        ≡ map (λ (o : SlotOccupant). o.record_id) slot
  ids-recode [] = refl
  ids-recode (o ∷ slot) = ap (◌∷◌ o.record_id) (ids-recode slot)

  older-recode :
      (a : Option ℕ) (slot : SlotState)
      → filter (λ (o : SlotOccupant). older_than a o.asserted_at) (recode_slot slot)
        ≡ recode_slot (filter (λ (o : SlotOccupant). older_than a o.asserted_at) slot)
  unfolding filter
  older-recode a [] = refl
  older-recode a (o ∷ slot) = ground (arith, older-recode a slot)

  undeclared-recode :
      (intent : WriteIntent) (slot : SlotState)
      → filter (undeclared (recode_intent intent)) (recode_slot slot)
        ≡ recode_slot (filter (undeclared intent) slot)
  unfolding filter
  undeclared-recode intent [] = refl
  undeclared-recode intent (o ∷ slot) = ground (arith, undeclared-recode intent slot)

  length-recode : (slot : SlotState) → length (recode_slot slot) ≡ length slot
  length-recode [] = refl
  length-recode (o ∷ slot) = ap suc (length-recode slot)

  is_empty-recode : (slot : SlotState) → is_empty (recode_slot slot) ≡ is_empty slot
  is_empty-recode [] = refl
  is_empty-recode (o ∷ slot) = refl

  occupied_recode :
      (intent : WriteIntent) (slot : SlotState) (rules : Ruleset)
      → decide_occupied (recode_intent intent) (recode_slot slot) rules
        ≡ decide_occupied intent slot rules
  unfolding decide_occupied
  occupied_recode intent slot rules = rw (
    all-recode intent slot,
    ids-recode slot,
    older-recode intent.asserted_at slot,
    undeclared-recode intent slot,
    length-recode (filter (λ (o : SlotOccupant). older_than intent.asserted_at o.asserted_at) slot),
    length-recode (filter (undeclared intent) slot),
    is_empty-recode
        (filter (λ (o : SlotOccupant). older_than intent.asserted_at o.asserted_at) slot),
    is_empty-recode (filter (undeclared intent) slot),
  )

  -- The gate sees content only as equal or not: replacing every digest by an injective recoding
  -- leaves the whole decision as it was.
  pub decide-recode :
      (intent : WriteIntent) (slot : SlotState) (rules : Ruleset)
      → decide (recode_intent intent) (recode_slot slot) rules ≡ decide intent slot rules
  unfolding decide occupied
  decide-recode intent slot rules =
      ground (arith, is_empty-recode slot, occupied_recode intent slot rules)
