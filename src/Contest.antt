-- ===== src/Contest.antt =====
-- aoms/contest.py: the write-admission gate. `sha256` stands for hashlib's hex digest of the
-- UTF-8 bytes of a text.
pub mod Spec
pub mod Admission
pub mod Rulesets
use cortex_mem.Prelude.{
  ℕ, zero, ◌-◌, ◌/◌, String, Bool, true, false, ◌&&◌, not, Option, none, some, List, [], ◌∷◌, map,
  length, is_empty, filter, all, contains, ltb, leb, if◌then◌else◌, Comparable, ◌==◌, string_eq,
  option_eq,
}
use cortex_mem.Prelude.Order.{sorted, str_order}
use cortex_mem.Errors.{Result, ok, raise, value_error}
use cortex_mem.Contracts.{
  MemoryKind, Scope, WriteDisposition, admitted, contested, ContestTrigger, slot_collision,
  retrograde, derived, policy_hold, trigger_eq, disposition_eq, Content, text, structured, Detail,
  no_detail, corroboration, derived_from_count, retrograde_incumbents, undeclared_incumbent_count,
  declared_supersession,
}

abbrev pub V1_triggers : List ContestTrigger
V1_triggers = slot_collision ∷ retrograde ∷ []

unfoldable pub content_digest : (String → String) → Content → String
content_digest sha256 (text payload) = sha256 payload
content_digest sha256 (structured payload) = sha256 payload

-- A `frozenset` of triggers is a list that is only asked for membership.
pub record Ruleset : Type 0 where
  pub version : ℕ
  pub enabled_triggers : List ContestTrigger
  pub contest_sla_days : ℕ
  pub contest_expiry_days : ℕ

-- `__post_init__`
unfoldable pub post_init : Ruleset → Result Ruleset
post_init r =
    if ltb r.contest_sla_days 1
    then raise (value_error "contest_sla_days must be at least 1")
    else if ltb r.contest_expiry_days r.contest_sla_days
    then raise (value_error "contest_expiry_days must not precede the SLA")
    else if contains r.enabled_triggers policy_hold
    then raise (value_error "policy-hold is a seam; no rule ships in v1")
    else ok r

abbrev pub default_ruleset : Ruleset
default_ruleset = record {
  version = 2;
  enabled_triggers = V1_triggers;
  contest_sla_days = 14;
  contest_expiry_days = 30;
}

pub record WriteIntent : Type 0 where
  pub kind : MemoryKind
  pub scope : Scope
  pub content_sha256 : String
  pub claim_key : Option String
  pub supersedes : Option String
  pub asserted_at : Option ℕ
  pub derived_from : List String

pub record SlotOccupant : Type 0 where
  pub record_id : String
  pub content_sha256 : String
  pub asserted_at : Option ℕ
  pub created_at : Option ℕ

abbrev pub SlotState : Type 0
SlotState = List SlotOccupant

unfoldable pub occupied : SlotState → Bool
occupied occupants = not (is_empty occupants)

pub record Decision : Type 0 where
  pub disposition : WriteDisposition
  pub trigger : Option ContestTrigger
  pub incumbent_ids : List String
  pub detail : Detail

-- `Decision.contested`
unfoldable pub is_contested : Decision → Bool
is_contested d = d.disposition == contested

abbrev pub plain_admitted : Decision
plain_admitted = record {
  disposition = admitted;
  trigger = none;
  incumbent_ids = [];
  detail = no_detail;
}

abbrev pub same_content : WriteIntent → SlotOccupant → Bool
same_content intent occupant = occupant.content_sha256 == intent.content_sha256

-- the comprehension of T2 at one occupant: both timestamps are declared, and the write is older
abbrev pub older_than : Option ℕ → Option ℕ → Bool
older_than none held = false
older_than (some asserted) none = false
older_than (some asserted) (some held) = ltb asserted held

abbrev pub or_zero : Option ℕ → ℕ
or_zero none = 0
or_zero (some n) = n

-- the comprehension of T1 at one occupant
abbrev pub undeclared : WriteIntent → SlotOccupant → Bool
undeclared intent occupant = not (some occupant.record_id == intent.supersedes)

abbrev pub contest : ContestTrigger → List String → Detail → Decision
contest trigger incumbents detail = record {
  disposition = contested;
  trigger = some trigger;
  incumbent_ids = incumbents;
  detail = detail;
}

abbrev pub admit_with : List String → Detail → Decision
admit_with incumbents detail = record {
  disposition = admitted;
  trigger = none;
  incumbent_ids = incumbents;
  detail = detail;
}

-- `decide` past its two early admissions: an occupied slot
unfoldable pub decide_occupied : WriteIntent → SlotState → Ruleset → Decision
decide_occupied intent slot rules =
    let incumbents = sorted str_order (map (λ (o : SlotOccupant). o.record_id) slot) in
    let enabled = rules.enabled_triggers in
    let older = filter (λ (o : SlotOccupant). older_than intent.asserted_at o.asserted_at) slot in
    let open_to = filter (undeclared intent) slot in
    if all (same_content intent) slot
    then admit_with incumbents corroboration
    else if contains enabled derived && not (is_empty intent.derived_from)
    then contest derived incumbents (derived_from_count (length intent.derived_from))
    else if contains enabled retrograde && not (is_empty older)
    then contest retrograde incumbents
        (retrograde_incumbents (length older) (or_zero intent.asserted_at))
    else if contains enabled slot_collision && not (is_empty open_to)
    then contest slot_collision incumbents (undeclared_incumbent_count (length open_to))
    else admit_with incumbents (declared_supersession (is_empty open_to))

-- `decide` reads no clock: its argument `now` is unused in the source.
unfoldable pub decide : WriteIntent → SlotState → Ruleset → Decision
decide intent slot rules = elim intent.claim_key [
  | none ↦ plain_admitted
  | some key ↦ if not (occupied slot) then plain_admitted else decide_occupied intent slot rules
]

-- `(now - opened_at).days`, in microseconds. A negative difference has negative days, which are
-- below every threshold of a checked ruleset, as 0 is.
abbrev pub microseconds_per_day : ℕ
microseconds_per_day = 86_400_000_000

unfoldable pub is_overdue : ℕ → ℕ → Ruleset → Bool
is_overdue opened_at now rules =
    leb rules.contest_sla_days ((now - opened_at) / microseconds_per_day)

unfoldable pub is_expired_held : ℕ → ℕ → Ruleset → Bool
is_expired_held opened_at now rules =
    leb rules.contest_expiry_days ((now - opened_at) / microseconds_per_day)
