-- ===== src/Contest/Admission.antt =====
-- What a decision of aoms/contest.py says beside its disposition: its trigger and its incumbents.
use mathlib.Core.List.{Perm}
use cortex_mem.Prelude.{
  ◌≡◌, refl, ◌≢◌, String, true, false, none, some, List, [], ◌∷◌, map, arith, contains, In,
  contains→In, Option-cases, inl, inr,
}
use cortex_mem.Prelude.Order.{sorted, str_order, IsSorted, sorted-perm, sorted-IsSorted}
use cortex_mem.Contracts.{ContestTrigger, policy_hold, trigger_eq}
use cortex_mem.Contest.{
  Ruleset, WriteIntent, SlotOccupant, SlotState, is_contested, occupied, decide_occupied, decide,
  plain_admitted,
}

abbrev pub record_ids : SlotState → List String
record_ids slot = map (λ (o : SlotOccupant). o.record_id) slot

occupied_of_ne : (slot : SlotState) → slot ≢ [] → occupied slot ≡ true
unfolding occupied
occupied_of_ne [] h = absurd (h refl)
occupied_of_ne (o ∷ slot) h = refl

plain_not_contested : is_contested plain_admitted ≡ false
unfolding is_contested
plain_not_contested = refl

module _ (intent : WriteIntent) (slot : SlotState) (rules : Ruleset) where
  occupied_incumbents :
      (decide_occupied intent slot rules).incumbent_ids ≡ sorted str_order (record_ids slot)
  unfolding decide_occupied
  occupied_incumbents = ground arith

  -- A write that takes part and meets an occupied slot is told every occupant, each once and in
  -- the order of the ids, whether it is contested or admitted.
  pub decide-incumbents :
      (key : String)
      → intent.claim_key ≡ some key
      → slot ≢ []
      → Perm (decide intent slot rules).incumbent_ids (record_ids slot)
        × IsSorted str_order (decide intent slot rules).incumbent_ids
  unfolding decide
  decide-incumbents key e nonempty =
      rw (e, decide, occupied_of_ne slot nonempty, occupied_incumbents)
        (sorted-perm str_order (record_ids slot), sorted-IsSorted str_order (record_ids slot))

  trigger_of_occupied :
      (t : ContestTrigger)
      → (decide_occupied intent slot rules).trigger ≡ some t
      → (contains rules.enabled_triggers t ≡ true)
        × (t ≢ policy_hold)
        × (is_contested (decide_occupied intent slot rules) ≡ true)
  unfolding decide_occupied is_contested
  trigger_of_occupied t h = ground arith

  untriggered :
      (decide_occupied intent slot rules).trigger ≡ none
      → is_contested (decide_occupied intent slot rules) ≡ false
  unfolding decide_occupied is_contested
  untriggered e = ground arith

  trigger_of_contested :
      is_contested (decide_occupied intent slot rules) ≡ true
      → (t : ContestTrigger) × ((decide_occupied intent slot rules).trigger ≡ some t)
  trigger_of_contested h = elim (Option-cases (decide_occupied intent slot rules).trigger) [
    | inl e ↦ absurd (ground (arith, untriggered e))
    | inr found ↦ found
  ]

  -- A decision names a trigger exactly when it contests, and the trigger is one that the rules
  -- enable and never `policy-hold`.
  pub decide-trigger :
      ((t : ContestTrigger)
        → (decide intent slot rules).trigger ≡ some t
        → In t rules.enabled_triggers
          × (t ≢ policy_hold)
          × (is_contested (decide intent slot rules) ≡ true))
      × (is_contested (decide intent slot rules) ≡ true
          → (t : ContestTrigger) × ((decide intent slot rules).trigger ≡ some t))
  unfolding decide
  decide-trigger = (forth, back)
    where
      forth :
          (t : ContestTrigger)
          → (decide intent slot rules).trigger ≡ some t
          → In t rules.enabled_triggers
            × (t ≢ policy_hold)
            × (is_contested (decide intent slot rules) ≡ true)
      forth t h = ground (arith, trigger_of_occupied t, contains→In rules.enabled_triggers t)

      back :
          is_contested (decide intent slot rules) ≡ true
          → (t : ContestTrigger) × ((decide intent slot rules).trigger ≡ some t)
      back h = elim (Option-cases intent.claim_key) [
        | inl e ↦ absurd (ground (arith, plain_not_contested))
        | inr (key, e) ↦ ground (arith, trigger_of_contested, plain_not_contested)
      ]
