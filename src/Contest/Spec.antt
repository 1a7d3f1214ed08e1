-- ===== src/Contest/Spec.antt =====
-- When `decide` of aoms/contest.py contests a write, stated without the order of its tests.
use cortex_mem.Prelude.{
  ℕ, ◌<◌, ◌≡◌, refl, ◌≢◌, ◌↔◌, ◌⊎◌, inl, inr, String, Bool, true, false, ◌&&◌, ◌||◌, not, some,
  List, [], ◌∷◌, arith, is_empty, any, all, contains, In, any-In, any_of_In, all-In, all-false-In,
  filter-any, contains→In, In→contains, Option-cases, option_beq_iff, eq_iff, string_eq, option_eq,
}
use cortex_mem.Contracts.{ContestTrigger, slot_collision, retrograde, derived, trigger_eq}
use cortex_mem.Contest.{
  Ruleset, WriteIntent, SlotOccupant, SlotState, same_content, older_than, undeclared, occupied,
  is_contested, decide_occupied, decide,
}

-- The write says that it was true before the occupant was.
abbrev pub IsOlder : WriteIntent → SlotOccupant → Type 0
IsOlder intent o =
    (a : ℕ) × (h : ℕ) × (intent.asserted_at ≡ some a) × (o.asserted_at ≡ some h) × (a < h)

abbrev pub Ground : WriteIntent → SlotState → Ruleset → Type 0
Ground intent slot rules =
    (In derived rules.enabled_triggers × (intent.derived_from ≢ []))
    ⊎ ((In retrograde rules.enabled_triggers × ((o : SlotOccupant) × In o slot × IsOlder intent o))
        ⊎ (In slot_collision rules.enabled_triggers
            × ((o : SlotOccupant) × In o slot × (some o.record_id ≢ intent.supersedes))))

-- The write takes part in the gate, an occupant of its slot differs, and a trigger has its ground.
pub record MustContest (intent : WriteIntent) (slot : SlotState) (rules : Ruleset) : Type 0 where
  pub takes_part : (key : String) × (intent.claim_key ≡ some key)
  pub differs : (o : SlotOccupant) × In o slot × (o.content_sha256 ≢ intent.content_sha256)
  pub because : Ground intent slot rules

older_than-IsOlder :
    (intent : WriteIntent) (o : SlotOccupant)
    → older_than intent.asserted_at o.asserted_at ≡ true
    → IsOlder intent o
older_than-IsOlder intent o h = ground arith

IsOlder-older_than :
    (intent : WriteIntent) (o : SlotOccupant)
    → IsOlder intent o
    → older_than intent.asserted_at o.asserted_at ≡ true
IsOlder-older_than intent o (a, k, p, q, lt) = ground arith

undeclared-ne :
    (intent : WriteIntent) (o : SlotOccupant)
    → undeclared intent o ≡ true
    → some o.record_id ≢ intent.supersedes
undeclared-ne intent o h e = ground (arith, option_beq_iff (some o.record_id) intent.supersedes)

undeclared_of_ne :
    (intent : WriteIntent) (o : SlotOccupant)
    → some o.record_id ≢ intent.supersedes
    → undeclared intent o ≡ true
undeclared_of_ne intent o h = ground (arith, option_beq_iff (some o.record_id) intent.supersedes)

nonempty_of_ne : (xs : List String) → xs ≢ [] → not (is_empty xs) ≡ true
nonempty_of_ne [] h = absurd (h refl)
nonempty_of_ne (x ∷ xs) h = refl

&&-true : (a b : Bool) → (a && b) ≡ true → (a ≡ true) × (b ≡ true)
&&-true a b h = ground arith

||-true : (a b : Bool) → (a || b) ≡ true → (a ≡ true) ⊎ (b ≡ true)
||-true a b h = ground arith

true_or : (a : Bool) → (a || true) ≡ true
true_or a = ground arith

or_true : (a b : Bool) → (a || (b || true)) ≡ true
or_true a b = ground arith

nonempty_of_In : (o : SlotOccupant) (slot : SlotState) → In o slot → not (is_empty slot) ≡ true
nonempty_of_In o [] m = absurd m
nonempty_of_In o (x ∷ slot) m = refl

module _ (intent : WriteIntent) (slot : SlotState) (rules : Ruleset) where
  abbrev enabled : ContestTrigger → Bool
  enabled t = contains rules.enabled_triggers t

  abbrev fires : Bool
  fires =
      (enabled derived && not (is_empty intent.derived_from))
      || ((enabled retrograde
            && any (λ (o : SlotOccupant). older_than intent.asserted_at o.asserted_at) slot)
          || (enabled slot_collision && any (undeclared intent) slot))

  -- The Boolean content of `decide_occupied`.
  pub contested_test :
      is_contested (decide_occupied intent slot rules)
      ≡ (not (all (same_content intent) slot) && fires)
  unfolding is_contested decide_occupied
  contested_test = ground (
    arith,
    filter-any (λ (o : SlotOccupant). older_than intent.asserted_at o.asserted_at) slot,
    filter-any (undeclared intent) slot,
  )

  differs_of_test :
      all (same_content intent) slot ≡ false
      → (o : SlotOccupant) × In o slot × (o.content_sha256 ≢ intent.content_sha256)
  differs_of_test h =
      let (o, m, e) = all-false-In (same_content intent) slot h in
      (o, m, λ same. ground (arith, eq_iff o.content_sha256 intent.content_sha256))

  test_of_differs :
      (o : SlotOccupant)
      → In o slot
      → o.content_sha256 ≢ intent.content_sha256
      → all (same_content intent) slot ≡ false
  test_of_differs o m ne =
      ground
        (arith, all-In (same_content intent) o slot, eq_iff o.content_sha256 intent.content_sha256)

  derived_ground :
      (enabled derived && not (is_empty intent.derived_from)) ≡ true
      → In derived rules.enabled_triggers × (intent.derived_from ≢ [])
  derived_ground h = (contains→In rules.enabled_triggers derived (ground arith), λ e. ground arith)

  retrograde_ground :
      (enabled retrograde
          && any (λ (o : SlotOccupant). older_than intent.asserted_at o.asserted_at) slot)
        ≡ true
      → In retrograde rules.enabled_triggers × ((o : SlotOccupant) × In o slot × IsOlder intent o)
  retrograde_ground h =
      let (on, some_older) = &&-true (enabled retrograde) _ h in
      let (o, m, e) = any-In _ slot some_older in
      (contains→In rules.enabled_triggers retrograde on, (o, m, older_than-IsOlder intent o e))

  collision_ground :
      (enabled slot_collision && any (undeclared intent) slot) ≡ true
      → In slot_collision rules.enabled_triggers
        × ((o : SlotOccupant) × In o slot × (some o.record_id ≢ intent.supersedes))
  collision_ground h =
      let (on, some_open) = &&-true (enabled slot_collision) _ h in
      let (o, m, e) = any-In _ slot some_open in
      (contains→In rules.enabled_triggers slot_collision on, (o, m, undeclared-ne intent o e))

  Ground-of_fires : fires ≡ true → Ground intent slot rules
  Ground-of_fires h = elim (||-true _ _ h) [
    | inl d ↦ inl (derived_ground d)
    | inr rest ↦ elim (||-true _ _ rest) [
      | inl r ↦ inr (inl (retrograde_ground r))
      | inr c ↦ inr (inr (collision_ground c))
    ]
  ]

  fires_of_Ground : Ground intent slot rules → fires ≡ true
  fires_of_Ground (inl (e, n)) =
      ground
        (arith, In→contains rules.enabled_triggers derived e, nonempty_of_ne intent.derived_from n)
  fires_of_Ground (inr (inl (e, (o, m, older)))) =
      rw
        (
          In→contains rules.enabled_triggers retrograde e,
          any_of_In (λ (p : SlotOccupant). older_than intent.asserted_at p.asserted_at) o slot m
              (IsOlder-older_than intent o older),
        )
        (true_or (enabled derived && not (is_empty intent.derived_from)))
  fires_of_Ground (inr (inr (e, (o, m, ne)))) =
      rw
        (
          In→contains rules.enabled_triggers slot_collision e,
          any_of_In (undeclared intent) o slot m (undeclared_of_ne intent o ne),
        )
        (or_true (enabled derived && not (is_empty intent.derived_from)) _)

  occupied_of_differs : (o : SlotOccupant) → In o slot → occupied slot ≡ true
  unfolding occupied
  occupied_of_differs o m = nonempty_of_In o slot m

  reached_of_contested :
      is_contested (decide intent slot rules) ≡ true
      → ((key : String) × (intent.claim_key ≡ some key))
        × (is_contested (decide_occupied intent slot rules) ≡ true)
  unfolding decide
  reached_of_contested h = elim (Option-cases intent.claim_key) [
    | inl e ↦ absurd (unfold is_contested in ground arith)
    | inr (key, e) ↦ ((key, e), unfold is_contested in ground arith)
  ]

  contested-MustContest :
      is_contested (decide intent slot rules) ≡ true → MustContest intent slot rules
  contested-MustContest h =
      let (key, reached) = reached_of_contested h in
      let (d, f) =
        &&-true (not (all (same_content intent) slot)) fires (rw contested_test at reached) in
      record {
        takes_part = key;
        differs = differs_of_test (ground arith);
        because = Ground-of_fires f;
      }

  MustContest-contested :
      MustContest intent slot rules → is_contested (decide intent slot rules) ≡ true
  unfolding decide
  MustContest-contested must =
      let (key, e) = must.takes_part in
      let (o, m, ne) = must.differs in
      rw (e, decide, occupied_of_differs o m, contested_test, test_of_differs o m ne)
        (fires_of_Ground must.because)

-- A write is contested exactly when it takes part in the gate, an occupant of its slot has other
-- content, and the rules enable a trigger that has its ground: something was derived, an occupant
-- is newer, or an occupant is not the declared predecessor.
pub decide-MustContest :
    (intent : WriteIntent) (slot : SlotState) (rules : Ruleset)
    → (is_contested (decide intent slot rules) ≡ true) ↔ MustContest intent slot rules
decide-MustContest intent slot rules =
    (contested-MustContest intent slot rules, MustContest-contested intent slot rules)
