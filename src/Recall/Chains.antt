-- ===== src/Recall/Chains.antt =====
-- `resolve_supersession_chains` of aoms/recall.py. A dict by ids is the list of its records, in
-- the order in which their ids came. A set is a list of its members.
pub mod Links
pub mod Cycles
pub mod Walk
pub mod Components
pub mod Records
pub mod Heads
pub mod Resolved
use cortex_mem.Prelude.{
  ℕ, zero, suc, ◌+◌, ◌*◌, String, Bool, true, false, ◌&&◌, ◌||◌, not, Option, none, some, List, [],
  ◌∷◌, ◌++◌, map, filter, any, contains, length, ◌==◌, string_eq, option_eq, if◌then◌else◌,
}
use cortex_mem.Contracts.{MemoryRecord}
use cortex_mem.Recall.{RankedCandidate}

infixl 10 ◌>>=?◌
abbrev pub ◌>>=?◌ {ℓ κ} : {A : Type ℓ} {B : Type κ} → Option A → (A → Option B) → Option B
none >>=? next = none
some a >>=? next = next a

-- `records[record.id] = record`
unfoldable pub put_record : MemoryRecord → List MemoryRecord → List MemoryRecord
put_record r [] = r ∷ []
put_record r (x ∷ xs) = if x.id == r.id then r ∷ xs else x ∷ put_record r xs

unfoldable pub put_records : List MemoryRecord → List MemoryRecord → List MemoryRecord
put_records [] records = records
put_records (r ∷ rs) records = put_records rs (put_record r records)

-- `{item.candidate.record.id: item.candidate.record for item in ranked}`
unfoldable pub records_by_id : List MemoryRecord → List MemoryRecord
unfolding put_records
records_by_id rs = put_records rs []

-- `records.get(id)`
unfoldable pub record_at : List MemoryRecord → String → Option MemoryRecord
record_at [] id = none
record_at (r ∷ rs) id = if r.id == id then some r else record_at rs id

abbrev pub record_ids : List MemoryRecord → List String
record_ids records = map (λ (r : MemoryRecord). r.id) records

module _ (records : List MemoryRecord) where
  abbrev pub known : String → Bool
  known id = contains (record_ids records) id

  abbrev supersedes_of : Option MemoryRecord → Option String
  supersedes_of none = none
  supersedes_of (some r) = r.supersedes

  -- `records[id].supersedes`
  unfoldable pub next_id : String → Option String
  next_id id = supersedes_of (record_at records id)

  -- whether one of the loop's two `add`s puts `b` into `adjacency[a]`
  unfoldable pub is_adjacent : String → String → Bool
  is_adjacent a b = known a && known b && (next_id a == some b || next_id b == some a)

  unfoldable pub adjacency : String → List String
  adjacency id = filter (is_adjacent id) (record_ids records)

  -- `path[path_index[current]:]`, from the end of the path on
  unfoldable pub since : String → List String → List String
  since current [] = []
  since current (p ∷ path) = if p == current then p ∷ [] else p ∷ since current path

  -- The `while` loop that follows the links from one start, on fuel above the number of the records
  -- off the path. `path` has its last id first; the result is the path and its cycle.
  module _ (completed : List String) where
    abbrev pub Walk : Type 0
    Walk = Option (List String × List String)

    -- one round, from its two tests: the id is to be followed, and it stands on the path
    abbrev pub follow :
        (Option String → List String → Walk) → List String → String → Bool → Bool → Walk
    follow next path current false on_path = some (path, [])
    follow next path current true true = some (path, since current path)
    follow next path current true false = next (next_id current) (current ∷ path)

    abbrev pub is_open : String → Bool
    is_open current = known current && not (contains completed current)

    unfoldable pub walk : ℕ → Option String → List String → Walk
    walk fuel none path = some (path, [])
    walk zero (some current) path = none
    walk (suc fuel) (some current) path =
        follow (walk fuel) path current (is_open current) (contains path current)

  abbrev pub walk_fuel : ℕ
  walk_fuel = suc (suc (length records))

  -- the loop over the starts, with `completed` and `cycle_ids`
  unfoldable pub find_cycles : List String → List String → List String → Option (List String)
  find_cycles [] completed cycle_ids = some cycle_ids
  find_cycles (start ∷ starts) completed cycle_ids =
      if contains completed start
      then find_cycles starts completed cycle_ids
      else walk completed walk_fuel (some start) [] >>=? λ (path, cycle).
          find_cycles starts (path ++ completed) (cycle ++ cycle_ids)

  abbrev pub is_new : List String → String → Bool
  is_new component id = not (contains component id)

  -- one round, from whether the id is in the component already
  abbrev pub expand :
      (List String → List String → Option (List String))
      → List String
      → List String
      → String
      → Bool
      → Option (List String)
  expand next component pending current true = next component pending
  expand next component pending current false =
      let component' = current ∷ component in
      next component' (filter (is_new component') (adjacency current) ++ pending)

  -- The `while pending` loop. The end of the source's stack is the front of `pending`.
  unfoldable pub search : ℕ → List String → List String → Option (List String)
  search fuel component [] = some component
  search zero component (current ∷ pending) = none
  search (suc fuel) component (current ∷ pending) =
      expand (search fuel) component pending current (contains component current)

  -- Each record is expanded once, and expanding one pushes at most all records.
  abbrev pub search_fuel : ℕ
  search_fuel = suc (length records * suc (length records))

  -- the loop over the starts, with `visited` and `protected_ids`
  unfoldable pub protect :
      List String → List String → List String → List String → Option (List String)
  protect cycle_ids [] visited protected_ids = some protected_ids
  protect cycle_ids (start ∷ starts) visited protected_ids =
      if contains visited start
      then protect cycle_ids starts visited protected_ids
      else search search_fuel [] (start ∷ []) >>=? λ component.
          protect cycle_ids starts (component ++ visited) (
            if any (contains cycle_ids) component
            then component ++ protected_ids
            else protected_ids)

  -- what one record of `records.values()` suppresses
  abbrev pub suppressed_by : List String → MemoryRecord → Option String → List String
  suppressed_by protected_ids r none = []
  suppressed_by protected_ids r (some target) =
      if not (contains protected_ids r.id) && known target && not (contains protected_ids target)
      then target ∷ []
      else []

  unfoldable pub suppressed_ids : List String → List MemoryRecord → List String
  suppressed_ids protected_ids [] = []
  suppressed_ids protected_ids (r ∷ rs) =
      suppressed_by protected_ids r r.supersedes ++ suppressed_ids protected_ids rs

  -- `records[record.supersedes]` of a head that is not protected
  abbrev pub predecessor :
      List String → MemoryRecord → Option MemoryRecord → List (String × MemoryRecord)
  predecessor protected_ids r none = []
  predecessor protected_ids r (some p) = if contains protected_ids r.id then [] else (r.id, p) ∷ []

  abbrev target_of : Option String → Option MemoryRecord
  target_of none = none
  target_of (some id) = record_at records id

  unfoldable pub predecessors : List String → List MemoryRecord → List (String × MemoryRecord)
  predecessors protected_ids [] = []
  predecessors protected_ids (r ∷ rs) =
      predecessor protected_ids r (target_of r.supersedes) ++ predecessors protected_ids rs

  -- `protected_ids` after both loops
  unfoldable pub protected : Option (List String)
  protected = find_cycles (record_ids records) [] [] >>=? λ cycle_ids.
      protect cycle_ids (record_ids records) [] []

pub record SupersessionResolution (Score : Type 0) : Type 0 where
  pub packable : List (RankedCandidate Score)
  pub suppressed : List String
  pub predecessors_by_head : List (String × MemoryRecord)

module _ {Score : Type 0} where
  abbrev pub memory_of : RankedCandidate Score → MemoryRecord
  memory_of item = item.candidate.memory

  unfoldable pub resolution :
      List (RankedCandidate Score) → List String → SupersessionResolution Score
  resolution ranked protected_ids =
      let records = records_by_id (map memory_of ranked) in
      let hidden = suppressed_ids records protected_ids records in
      let packable = filter (λ item. not (contains hidden (memory_of item).id)) ranked in
      record {
        packable = packable;
        suppressed = hidden;
        predecessors_by_head = predecessors records protected_ids (map memory_of packable);
      }

  unfoldable pub resolve_supersession_chains :
      List (RankedCandidate Score) → Option (SupersessionResolution Score)
  resolve_supersession_chains ranked =
      protected (records_by_id (map memory_of ranked)) >>=? λ protected_ids.
      some (resolution ranked protected_ids)
