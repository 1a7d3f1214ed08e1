-- ===== src/Tests/Gate.antt =====
-- The gate of aoms/contest.py at a slot with one occupant.
use mathlib.Core.List.{Perm}
use cortex_mem.Prelude.{
  ◌≡◌, refl, ◌≢◌, ◌↔◌, inl, inr, String, true, false, none, some, List, [], ◌∷◌, In, IsDistinct,
  contains, filter, all, any,
}
use cortex_mem.Prelude.Order.{str_order, sorted, IsSorted}
use cortex_mem.Contracts.{
  ContestTrigger, slot_collision, retrograde, derived, policy_hold, fact, workspace,
}
use cortex_mem.Contracts.Validate.{normalize_tags, normalize_loop, strip}
use cortex_mem.Contracts.Validate.Tags.{
  IsCleanOf, normalize_tags_lem, normalize_tags-normalize_tags,
}
use cortex_mem.Contest.{
  Ruleset, WriteIntent, SlotOccupant, SlotState, default_ruleset, is_contested, decide, occupied,
  decide_occupied,
}
use cortex_mem.Contest.Spec.{MustContest, decide-MustContest}
use cortex_mem.Contest.Admission.{record_ids, decide-incumbents, decide-trigger}
use cortex_mem.Contest.Rulesets.{decide_mono, decide-recode, recode_intent, recode_slot}

abbrev amber : SlotOccupant
amber = record {
  record_id = "m-amber";
  content_sha256 = "aa";
  asserted_at = some 50;
  created_at = some 60;
}

abbrev slot : SlotState
slot = amber ∷ []

abbrev rival : WriteIntent
rival = record {
  kind = fact;
  scope = workspace;
  content_sha256 = "bb";
  claim_key = some "release.gate";
  supersedes = none;
  asserted_at = some 70;
  derived_from = [];
}

abbrev strict : Ruleset
strict = record default_ruleset { enabled_triggers = slot_collision ∷ retrograde ∷ derived ∷ [] }

gate : Unit {0}
unfolding decide decide_occupied occupied is_contested sorted contains filter all any
gate = tt

rival_contested : is_contested (decide rival slot default_ruleset) ≡ true
unfolding gate
rival_contested = refl

-- a declared and newer correction of the occupant is admitted
correction_admitted :
    is_contested (decide (record rival { supersedes = some "m-amber" }) slot default_ruleset)
    ≡ false
unfolding gate
correction_admitted = refl

-- the same correction with an older date is retrograde
retrograde_trigger :
    (decide
      (record rival { supersedes = some "m-amber"; asserted_at = some 40 })
      slot
      default_ruleset).trigger
    ≡ some retrograde
unfolding gate
retrograde_trigger = refl

decide-MustContest_example :
    (is_contested (decide rival slot default_ruleset) ≡ true)
    ↔ MustContest rival slot default_ruleset
decide-MustContest_example = decide-MustContest rival slot default_ruleset

slot_ne : slot ≢ []
slot_ne e = cc e

decide-incumbents_example :
    Perm (decide rival slot default_ruleset).incumbent_ids (record_ids slot)
    × IsSorted str_order (decide rival slot default_ruleset).incumbent_ids
decide-incumbents_example = decide-incumbents rival slot default_ruleset "release.gate" refl slot_ne

decide-trigger_example :
    ((t : ContestTrigger)
      → (decide rival slot default_ruleset).trigger ≡ some t
      → In t default_ruleset.enabled_triggers
        × (t ≢ policy_hold)
        × (is_contested (decide rival slot default_ruleset) ≡ true))
    × (is_contested (decide rival slot default_ruleset) ≡ true
        → (t : ContestTrigger) × ((decide rival slot default_ruleset).trigger ≡ some t))
decide-trigger_example = decide-trigger rival slot default_ruleset

default_within_strict :
    (t : ContestTrigger) → In t default_ruleset.enabled_triggers → In t strict.enabled_triggers
default_within_strict t (inl e) = inl e
default_within_strict t (inr (inl e)) = inr (inl e)
default_within_strict t (inr (inr b)) = absurd b

decide_mono_example : is_contested (decide rival slot strict) ≡ true
decide_mono_example =
    decide_mono default_ruleset strict default_within_strict rival slot rival_contested

abbrev same_text : String → String
same_text s = s

same_text_injective : (a b : String) → same_text a ≡ same_text b → a ≡ b
same_text_injective a b e = e

decide-recode_example :
    decide
      (recode_intent same_text same_text_injective rival)
      (recode_slot same_text same_text_injective slot)
      default_ruleset
    ≡ decide rival slot default_ruleset
decide-recode_example = decide-recode same_text same_text_injective rival slot default_ruleset

abbrev tags : List String
tags = " canary " ∷ "" ∷ "canary" ∷ "release" ∷ []

tags_normal : normalize_tags tags ≡ "canary" ∷ "release" ∷ []
unfolding normalize_tags normalize_loop strip contains
tags_normal = refl

normalize_tags_lem_example :
    IsDistinct (normalize_tags tags)
    × ((t : String) → In t (normalize_tags tags) ↔ IsCleanOf tags t)
normalize_tags_lem_example = normalize_tags_lem tags

normalize_tags-normalize_tags_example : normalize_tags (normalize_tags tags) ≡ normalize_tags tags
normalize_tags-normalize_tags_example = normalize_tags-normalize_tags tags
