-- ===== src/Recall/Chains/Components.antt =====
-- The components of `resolve_supersession_chains` (aoms/recall.py): what the search from an id
-- finds, and which ids are protected.
use cortex_mem.Prelude.{
  ℕ, zero, suc, ◌+◌, ◌*◌, ◌≤◌, ◌<◌, String, ◌≡◌, ◌↔◌, refl, sym, ap, subst, ◌⊎◌, inl, inr, true,
  false, not, some, List, [], ◌∷◌, ◌++◌, arith, length, length-append, filter, In, In-filter,
  In-filter_of, In-append, In-append_left, In-append_right, In-done, In-done_more, length-filter,
  length-map, contains, contains→In, In→contains, any, any-In, any_of_In, string_eq, Bool-cases,
  if◌then◌else◌,
}
use cortex_mem.Contracts.{MemoryRecord}
use cortex_mem.Recall.Chains.{
  known, record_ids, adjacency, is_adjacent, is_new, search, search_fuel, protect,
}
use cortex_mem.Recall.Chains.Links.{
  Next, Connected, here, step, Connected-trans, Connected-sym, In-adjacency,
}
use cortex_mem.Recall.Chains.Walk.{outside, outside-cons, outside-le}

suc_mul-le : (a b m : ℕ) → a < b → a * m + m ≤ b * m
suc_mul-le a b m h = grind arith

mul-le : (a b m : ℕ) → a ≤ b → a * m ≤ b * m
mul-le a b m h = grind arith

module _ (records : List MemoryRecord) where
  abbrev size : ℕ
  size = length records

  -- what is left to do: an id outside the component costs one more than it may push
  abbrev work : List String → List String → ℕ
  work component pending = outside records component * suc size + length pending

  record IsSearch (start : String) (component pending : List String) : Type 0 where
    sound : (x : String) → In x component ⊎ In x pending → Connected records start x
    valid : (x : String) → In x pending → known records x ≡ true
    closed :
        (x y : String)
        → In x component
        → Next records x y ⊎ Next records y x
        → In y component ⊎ In y pending
    source : In start component ⊎ In start pending

  pushed-le :
      (component : List String) (id : String)
      → length (filter (is_new records component) (adjacency records id)) ≤ size
  unfolding adjacency
  pushed-le component id = omega (
    arith,
    length-filter (is_new records component) (adjacency records id),
    length-filter (is_adjacent records id) (record_ids records),
    length-map (λ (r : MemoryRecord). r.id) records,
  )

  less_work :
      (component pending : List String) (id : String)
      → known records id ≡ true
      → contains component id ≡ false
      → work
          (id ∷ component)
          (filter (is_new records (id ∷ component)) (adjacency records id) ++ pending)
        < work component (id ∷ pending)
  less_work component pending id k new =
      let fewer = outside-cons records component id k new in
      let product =
        suc_mul-le (outside records (id ∷ component)) (outside records component) (suc size)
          fewer in
      omega (
        arith,
        product,
        pushed-le (id ∷ component) id,
        length-append (filter (is_new records (id ∷ component)) (adjacency records id)) pending,
      )

  skip :
      (start current : String) (component pending : List String)
      → contains component current ≡ true
      → IsSearch start component (current ∷ pending)
      → IsSearch start component pending
  skip start current component pending old s = record {
    sound = λ x m. s.sound x (elim m [ inl c ↦ inl c | inr p ↦ inr (inr p) ]);
    valid = λ x m. s.valid x (inr m);
    closed = λ x y m n. seen y (s.closed x y m n);
    source = seen start s.source;
  }
    where
      seen :
          (x : String) → In x component ⊎ In x (current ∷ pending) → In x component ⊎ In x pending
      seen x (inl c) = inl c
      seen x (inr (inl e)) =
          inl (subst (λ y. In y component) (sym e) (contains→In component current old))
      seen x (inr (inr p)) = inr p

  grow :
      (start current : String) (component pending : List String)
      → IsSearch start component (current ∷ pending)
      → IsSearch start
          (current ∷ component)
          (filter (is_new records (current ∷ component)) (adjacency records current) ++ pending)
  grow start current component pending s = record {
    sound = λ x m. elim m [
      | inl (inl e) ↦ subst (Connected records start) (sym e) reached
      | inl (inr c) ↦ s.sound x (inl c)
      | inr p ↦ elim (In-append x pushed pending p) [
        | inl q ↦ step reached (adjacent x q)
        | inr q ↦ s.sound x (inr (inr q))
      ]
    ];
    valid = λ x m. elim (In-append x pushed pending m) [
      | inl q ↦ elim (adjacent x q) [ inl (_, k, _) ↦ k | inr (k, _, _) ↦ k ]
      | inr q ↦ s.valid x (inr q)
    ];
    closed = λ x y m n. elim m [
      | inl e ↦ new y (subst (λ z. Next records z y ⊎ Next records y z) e n)
      | inr c ↦ kept y (s.closed x y c n)
    ];
    source = kept start s.source;
  }
    where
      pushed : List String
      pushed = filter (is_new records (current ∷ component)) (adjacency records current)

      reached : Connected records start current
      reached = s.sound current (inr (inl refl))

      adjacent : (x : String) → In x pushed → Next records current x ⊎ Next records x current
      adjacent x q =
          (In-adjacency records current x).0
            (In-filter (is_new records (current ∷ component)) x (adjacency records current) q).0

      kept :
          (x : String)
          → In x component ⊎ In x (current ∷ pending)
          → In x (current ∷ component) ⊎ In x (pushed ++ pending)
      kept x (inl c) = inl (inr c)
      kept x (inr (inl e)) = inl (inl e)
      kept x (inr (inr p)) = inr (In-append_right x pushed pending p)

      new :
          (y : String)
          → Next records current y ⊎ Next records y current
          → In y (current ∷ component) ⊎ In y (pushed ++ pending)
      new y n = elim (Bool-cases (contains (current ∷ component) y)) [
        | inl seen ↦ inl (contains→In (current ∷ component) y seen)
        | inr unseen ↦ inr (
            In-append_left y pushed pending (
              In-filter_of (is_new records (current ∷ component)) y (adjacency records current)
                ((In-adjacency records current y).1 n) (ap not unseen)))
      ]

  search_finds :
      (start : String) (fuel : ℕ) (component pending : List String)
      → work component pending ≤ fuel
      → IsSearch start component pending
      → (found : List String) × (search records fuel component pending ≡ some found)
        × IsSearch start found []
  unfolding search
  search_finds start fuel component [] enough s = (component, refl, s)
  search_finds start zero component (current ∷ pending) enough s = absurd (omega arith)
  search_finds start (suc fuel) component (current ∷ pending) enough s =
      elim (Bool-cases (contains component current)) [
        | inl old ↦
            let (found, e, done) =
              search_finds start fuel component pending (omega arith)
                (skip start current component pending old s) in
            (found, rw old e, done)
        | inr new ↦
            let less = less_work component pending current (s.valid current (inl refl)) new in
            let (found, e, done) =
              search_finds start fuel (current ∷ component)
                (filter (is_new records (current ∷ component)) (adjacency records current)
                  ++ pending)
                (omega (arith, less)) (grow start current component pending s) in
            (found, rw new e, done)
      ]

  -- The search from a candidate ends with the ids that links connect to it.
  pub component-Connected :
      (start : String)
      → known records start ≡ true
      → (found : List String) × (search records (search_fuel records) [] (start ∷ []) ≡ some found)
        × ((x : String) → In x found ↔ Connected records start x)
  unfolding contains
  component-Connected start k =
      let enough = mul-le (outside records []) size (suc size) (outside-le records) in
      let (found, e, s) =
        search_finds start (search_fuel records) [] (start ∷ []) (omega (arith, enough)) (record {
          sound = λ x m. elim m [
            | inl none_left ↦ absurd none_left
            | inr (inl e) ↦ subst (Connected records start) (sym e) here
            | inr (inr none_left) ↦ absurd none_left
          ];
          valid = λ x m. elim m [
            | inl e ↦ subst (λ y. known records y ≡ true) (sym e) k
            | inr none_left ↦ absurd none_left
          ];
          closed = λ x y m n. absurd m;
          source = inr (inl refl);
        }) in
      (found, e, λ x. (λ m. s.sound x (inl m), reaches found s))
    where
      left : {P : Type 0} → P ⊎ ⊥ → P
      left (inl p) = p
      left (inr none_left) = absurd none_left

      reaches :
          (found : List String)
          → IsSearch start found []
          → {x : String} → Connected records start x
          → In x found
      reaches found s here = left s.source
      reaches found s (step {b} {c} f n) = left (s.closed b c (reaches found s f) n)

  -- An id that links connect to a cycle of `cycle_ids`.
  abbrev pub Touches : List String → String → Type 0
  Touches cycle_ids x = (y : String) × Connected records x y × In y cycle_ids

  pub record IsProtecting (cycle_ids visited protected_ids : List String) : Type 0 where
    pub sound : (x : String) → In x protected_ids → Touches cycle_ids x
    pub full : (x : String) → In x visited → Touches cycle_ids x → In x protected_ids

  guard :
      (cycle_ids visited protected_ids component : List String) (start : String)
      → ((x : String) → In x component ↔ Connected records start x)
      → IsProtecting cycle_ids visited protected_ids
      → IsProtecting cycle_ids
          (component ++ visited)
          (if any (contains cycle_ids) component then component ++ protected_ids else protected_ids)
  guard cycle_ids visited protected_ids component start is h =
      elim (Bool-cases (any (contains cycle_ids) component)) [
        | inl hit ↦
            let (y, m, c) = any-In (contains cycle_ids) component hit in
            rw hit (record {
              sound = λ x n. elim (In-append x component protected_ids n) [
                | inl l ↦ (
                  y,
                  Connected-trans (Connected-sym ((is x).0 l)) ((is y).0 m),
                  contains→In cycle_ids y c,
                )
                | inr r ↦ h.sound x r
              ];
              full = λ x n touches. elim (In-append x component visited n) [
                | inl l ↦ In-append_left x component protected_ids l
                | inr r ↦ In-append_right x component protected_ids (h.full x r touches)
              ];
            })
        | inr miss ↦ rw miss (record {
          sound = h.sound;
          full = λ x n touches. elim (In-append x component visited n) [
            | inl l ↦
                let (y, c, m) = touches in
                let in_y = (is y).1 (Connected-trans ((is x).0 l) c) in
                absurd (
                  ground (
                    arith,
                    any_of_In (contains cycle_ids) y component in_y (In→contains cycle_ids y m),
                  ))
            | inr r ↦ h.full x r touches
          ];
        })
      ]

  pub protect_ends :
      (cycle_ids starts visited protected_ids : List String)
      → ((x : String) → In x starts → known records x ≡ true)
      → IsProtecting cycle_ids visited protected_ids
      → (protected_ids' : List String) × (visited' : List String) × (protect records cycle_ids
            starts visited protected_ids
          ≡ some protected_ids')
        × IsProtecting cycle_ids visited' protected_ids'
        × ((x : String) → In x starts ⊎ In x visited → In x visited')
  unfolding protect
  protect_ends cycle_ids [] visited protected_ids all h = (
    protected_ids,
    visited,
    refl,
    h,
    λ x m. elim m [ inl none_left ↦ absurd none_left | inr v ↦ v ],
  )
  protect_ends cycle_ids (start ∷ starts) visited protected_ids all h =
      elim (Bool-cases (contains visited start)) [
        | inl seen ↦
            let (p, v, e, h', kept) =
              protect_ends cycle_ids starts visited protected_ids (λ x m. all x (inr m)) h in
            (
              p,
              v,
              rw seen e,
              h',
              λ x m. kept x (In-done start starts visited x (contains→In visited start seen) m),
            )
        | inr new ↦
            let (component, found, is) = component-Connected start (all start (inl refl)) in
            let (p, v, e, h', kept) =
              protect_ends cycle_ids starts (component ++ visited) _ (λ x m. all x (inr m))
                (guard cycle_ids visited protected_ids component start is h) in
            (
              p,
              v,
              rw (new, found) e,
              h',
              λ x m. kept x (In-done_more start starts component visited x ((is start).1 here) m),
            )
      ]
