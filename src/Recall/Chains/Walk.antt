-- ===== src/Recall/Chains/Walk.antt =====
-- The walks of `resolve_supersession_chains` (aoms/recall.py) end, and find the ids on a cycle.
use cortex_mem.Prelude.{
  ℕ, zero, suc, ◌≤◌, ◌<◌, String, ◌≡◌, ◌↔◌, refl, sym, subst, ◌⊎◌, inl, inr, true, false, Option,
  none, some, List, [], ◌∷◌, ◌++◌, arith, length, filter, In, In-done, In-done_more,
  length-filter_lt, contains, contains→In, In→contains, string_eq, ==_refl, Bool-cases, some-inj,
}
use cortex_mem.Contracts.{MemoryRecord}
use cortex_mem.Recall.Chains.{
  known, next_id, record_ids, since, is_open, walk, walk_fuel, find_cycles, is_new,
}
use cortex_mem.Recall.Chains.Links.{Follows, link, along}
use cortex_mem.Recall.Chains.Cycles.{IsSettled, IsPath, settle_path, settle_cycle}

module _ (records : List MemoryRecord) where
  -- the candidates that are not in a list
  abbrev pub outside : List String → ℕ
  outside xs = length (filter (is_new records xs) (record_ids records))

  pub outside-cons :
      (xs : List String) (a : String)
      → known records a ≡ true
      → contains xs a ≡ false
      → outside (a ∷ xs) < outside xs
  unfolding contains
  outside-cons xs a k new =
      length-filter_lt (is_new records xs) (is_new records (a ∷ xs)) (record_ids records) a
        (λ x h. ground arith) (contains→In (record_ids records) a k) (ground arith)
        (ground (arith, ==_refl a))

  abbrev Walked : List String → List String → ℕ → Option String → List String → Type 0
  Walked completed cycles fuel current path =
      (path' : List String) × (cycle : List String) × (walk records completed fuel current path
        ≡ some (path', cycle))
      × IsSettled records (path' ++ completed) (cycle ++ cycles)
      × ((x : String) → In x path → In x path')

  walk_settles :
      (completed cycles : List String) (fuel : ℕ) (current : Option String) (path : List String)
      → outside path < fuel
      → IsPath records completed current path
      → IsSettled records completed cycles
      → Walked completed cycles fuel current path
  unfolding walk
  walk_settles completed cycles fuel none path enough h settled = (
    path,
    [],
    refl,
    settle_path records completed cycles none path (λ q e. cc) h settled,
    λ x m. m,
  )
  walk_settles completed cycles zero (some current) path enough h settled = absurd (omega arith)
  walk_settles completed cycles (suc fuel) (some current) path enough h settled =
      elim (Bool-cases (is_open records completed current)) [
        | inr shut ↦ (
          path,
          [],
          rw shut refl,
          settle_path records completed cycles (some current) path
              (λ q e k.
                subst (λ x. In x completed) (some-inj e)
                  (contains→In completed current
                    (done (subst (λ x. known records x ≡ true) (sym (some-inj e)) k) shut)))
              h settled,
          λ x m. m,
        )
        | inl go ↦ elim (Bool-cases (contains path current)) [
          | inl meets ↦ (
            path,
            since records current path,
            rw (go, meets) refl,
            closes path (ground arith) meets h,
            λ x m. m,
          )
          | inr new ↦
              let k : known records current ≡ true = ground arith in
              let (path', cycle, e, s, kept) =
                walk_settles completed cycles fuel (next_id records current) (current ∷ path)
                  (omega (arith, outside-cons path current k new))
                  (k, fresh go, λ m. absurd (ground (arith, In→contains path current m)), refl, h)
                  settled in
              (path', cycle, rw (go, new) e, s, λ x m. kept x (inr m))
        ]
      ]
    where
      done :
          known records current ≡ true
          → is_open records completed current ≡ false
          → contains completed current ≡ true
      done k shut = ground arith

      fresh : is_open records completed current ≡ true → In current completed → ⊥
      fresh go m = ground (arith, In→contains completed current m)

      closes :
          (whole : List String)
          → known records current ≡ true
          → contains whole current ≡ true
          → IsPath records completed (some current) whole
          → IsSettled records (whole ++ completed) (since records current whole ++ cycles)
      closes [] k meets p = absurd (contains→In [] current meets)
      closes (q ∷ rest) k meets p =
          settle_cycle records completed cycles current q rest
            (contains→In (q ∷ rest) current meets) k p settled

  pub outside-le : outside [] ≤ length records
  unfolding contains filter
  outside-le = ids-length records
    where
      ids-length :
          (rs : List MemoryRecord) → length (filter (is_new records []) (record_ids rs)) ≤ length rs
      ids-length [] = omega arith
      ids-length (r ∷ rs) = ground (arith, ids-length rs)

  -- a walk from an id that is not completed
  pub start_walk :
      (completed cycles : List String) (start : String)
      → known records start ≡ true
      → contains completed start ≡ false
      → IsSettled records completed cycles
      → (path : List String) × (cycle : List String) × (walk records completed
            (walk_fuel records)
            (some start)
            []
          ≡ some (path, cycle))
        × IsSettled records (path ++ completed) (cycle ++ cycles)
        × In start path
  unfolding walk contains
  start_walk completed cycles start k new settled =
      let (path, cycle, e, s, kept) =
        walk_settles completed cycles (suc (length records)) (next_id records start) (start ∷ [])
          (omega (arith, outside-le, outside-cons [] start k refl))
          (k, λ m. absurd (ground (arith, In→contains completed start m)), λ m. m, refl, tt)
          settled in
      let go : is_open records completed start ≡ true = ground arith in
      (path, cycle, rw go e, s, kept start (inl refl))

  abbrev pub AllKnown : List String → Type 0
  AllKnown starts = (x : String) → In x starts → known records x ≡ true

  -- The loop over the starts ends, with every start settled.
  cycles_settle :
      (starts completed cycles : List String)
      → AllKnown starts
      → IsSettled records completed cycles
      → (cycles' : List String) × (completed' : List String) × (find_cycles records starts completed
            cycles
          ≡ some cycles')
        × IsSettled records completed' cycles'
        × ((x : String) → In x starts ⊎ In x completed → In x completed')
  unfolding find_cycles
  cycles_settle [] completed cycles all settled = (
    cycles,
    completed,
    refl,
    settled,
    λ x m. elim m [ inl none_left ↦ absurd none_left | inr c ↦ c ],
  )
  cycles_settle (start ∷ starts) completed cycles all settled =
      elim (Bool-cases (contains completed start)) [
        | inl done ↦
            let (c, d, e, s, kept) =
              cycles_settle starts completed cycles (λ x m. all x (inr m)) settled in
            (
              c,
              d,
              rw done e,
              s,
              λ x m. kept x (In-done start starts completed x (contains→In completed start done) m),
            )
        | inr new ↦
            let (path, cycle, walked, s, m_start) =
              start_walk completed cycles start (all start (inl refl)) new settled in
            let (c, d, e, s', kept) =
              cycles_settle starts (path ++ completed) (cycle ++ cycles) (λ x m. all x (inr m)) s in
            (
              c,
              d,
              rw (new, walked) e,
              s',
              λ x m. kept x (In-done_more start starts path completed x m_start m),
            )
      ]

  -- `cycle_ids` are the candidates on a cycle of declared links.
  pub cycle_ids-OnCycle :
      (cycles : List String) × (find_cycles records (record_ids records) [] [] ≡ some cycles)
      × ((x : String) → In x cycles ↔ Follows records x x)
  cycle_ids-OnCycle =
      let (cycles, completed, e, settled, all) =
        cycles_settle (record_ids records) [] [] (λ x m. In→contains (record_ids records) x m)
          (record {
            closed = λ a b m n. absurd m;
            found = λ a m f. absurd m;
            sound = λ a m. absurd m;
          }) in
      (
        cycles,
        e,
        λ x. (
          settled.sound x,
          λ f. settled.found x (all x (inl (contains→In (record_ids records) x (known_start f)))) f,
        ),
      )
    where
      known_start : {a b : String} → Follows records a b → known records a ≡ true
      known_start (link (k, _, _)) = k
      known_start (along (k, _, _) f) = k
