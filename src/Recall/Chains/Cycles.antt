-- ===== src/Recall/Chains/Cycles.antt =====
-- The `cycle_ids` of `resolve_supersession_chains` (aoms/recall.py) are the ids on a cycle.
use cortex_mem.Prelude.{
  String, ◌≡◌, ◌↔◌, refl, sym, ◌∙◌, ap, subst, ◌⊎◌, inl, inr, true, false, Option, some, List, [],
  ◌∷◌, ◌++◌, arith, In, In-append, In-append_left, In-append_right, In-append_iff, ◌==◌, string_eq,
  eq_iff, ==→eq, Bool-cases, some-inj, if◌then◌else◌,
}
use cortex_mem.Contracts.{MemoryRecord}
use cortex_mem.Recall.Chains.{known, next_id, since}
use cortex_mem.Recall.Chains.Links.{Next, Follows, link, along, trans, Follows-stays}

module _ (records : List MemoryRecord) where
  -- The links do not leave the completed ids, and their cycles are the ones that were found.
  pub record IsSettled (completed cycles : List String) : Type 0 where
    pub closed : (a b : String) → In a completed → Next records a b → In b completed
    pub found : (a : String) → In a completed → Follows records a a → In a cycles
    pub sound : (a : String) → In a cycles → Follows records a a

  same_members :
      (completed completed' cycles : List String)
      → ((a : String) → In a completed ↔ In a completed')
      → IsSettled completed cycles
      → IsSettled completed' cycles
  same_members completed completed' cycles same settled = record {
    closed = λ a b m n. (same b).0 (settled.closed a b ((same a).1 m) n);
    found = λ a m f. settled.found a ((same a).1 m) f;
    sound = settled.sound;
  }

  -- an id that is new, and whose link leads to what is settled
  settle_one :
      (p : String) (completed cycles : List String)
      → (In p completed → ⊥)
      → ((q : String) → Next records p q → In q completed)
      → IsSettled completed cycles
      → IsSettled (p ∷ completed) cycles
  settle_one p completed cycles new leads settled = record {
    closed = λ a b m n. elim m [
      | inl e ↦ inr (leads b (subst (λ x. Next records x b) e n))
      | inr old ↦ inr (settled.closed a b old n)
    ];
    found = λ a m f. elim m [
      | inl e ↦ absurd (leaves (subst (λ x. Follows records x x) e f))
      | inr old ↦ settled.found a old f
    ];
    sound = settled.sound;
  }
    where
      leaves : Follows records p p → ⊥
      leaves (link n) = new (leads p n)
      leaves (along {b = b} n f) =
          new (Follows-stays (λ x. In x completed) settled.closed (leads b n) f)

  -- A path, its last id first: each id leads to the one before it in the list, the first to
  -- `current`, and none is settled.
  abbrev pub IsPath : List String → Option String → List String → Type 0
  IsPath completed current [] = Unit
  IsPath completed current (p ∷ path) =
      (known records p ≡ true)
      × (In p completed → ⊥)
      × (In p path → ⊥)
      × (next_id records p ≡ current)
      × IsPath completed (some p) path

  IsPath-add :
      (p : String) (completed : List String) (current : Option String) (path : List String)
      → (In p path → ⊥)
      → IsPath completed current path
      → IsPath (p ∷ completed) current path
  IsPath-add p completed current [] new h = tt
  IsPath-add p completed current (q ∷ path) new (k, n, d, e, rest) = (
    k,
    λ m. elim m [ inl same ↦ new (inl (sym same)) | inr old ↦ n old ],
    d,
    e,
    IsPath-add p completed (some q) path (λ m. new (inr m)) rest,
  )

  -- A path that ends at what is settled, or outside the candidates, becomes settled.
  pub settle_path :
      (completed cycles : List String) (current : Option String) (path : List String)
      → ((q : String) → current ≡ some q → known records q ≡ true → In q completed)
      → IsPath completed current path
      → IsSettled completed cycles
      → IsSettled (path ++ completed) cycles
  settle_path completed cycles current [] leads h settled = settled
  settle_path completed cycles current (p ∷ path) leads (k, n, d, e, rest) settled =
      same_members (path ++ p ∷ completed) (p ∷ path ++ completed) cycles moved (
        settle_path (p ∷ completed) cycles (some p) path (λ q same _. inl (some-inj (sym same)))
          (IsPath-add p completed (some p) path d rest)
          (settle_one p completed cycles n (λ q (_, known_q, next). leads q (sym e ∙ next) known_q)
            settled))
    where
      moved : (a : String) → In a (path ++ p ∷ completed) ↔ In a (p ∷ path ++ completed)
      moved a = (
        λ m. elim (In-append a path (p ∷ completed) m) [
          | inl l ↦ inr (In-append_left a path completed l)
          | inr (inl same) ↦ inl same
          | inr (inr r) ↦ inr (In-append_right a path completed r)
        ],
        λ m. elim m [
          | inl same ↦ In-append_right a path (p ∷ completed) (inl same)
          | inr r ↦ elim (In-append a path completed r) [
            | inl l ↦ In-append_left a path (p ∷ completed) l
            | inr c ↦ In-append_right a path (p ∷ completed) (inr c)
          ]
        ],
      )

  -- the part of a path that lies before `current`
  before : String → List String → List String
  before current [] = []
  before current (p ∷ path) = if p == current then path else before current path

  In-parts :
      (a id : String) (path : List String)
      → In a path ↔ (In a (since records id path) ⊎ In a (before id path))
  unfolding since before
  In-parts a id [] = (λ m. inl m, λ m. ground arith)
  In-parts a id (p ∷ path) = ground (arith, In-parts a id path)

  since-current : (id : String) (path : List String) → In id path → In id (since records id path)
  unfolding since
  since-current id [] m = m
  since-current id (p ∷ path) m = ground (arith, eq_iff p id, since-current id path)

  not_first :
      (p id : String) (path : List String) → (p == id) ≡ false → In id (p ∷ path) → In id path
  not_first p id path other m = ground (arith, eq_iff p id)

  before-IsPath :
      (id : String) (completed : List String) (current : Option String) (path : List String)
      → In id path
      → IsPath completed current path
      → IsPath (since records id path ++ completed) (some id) (before id path)
  unfolding since before
  before-IsPath id completed current [] m h = tt
  before-IsPath id completed current (p ∷ path) m (k, n, d, e, rest) = elim (Bool-cases (p == id)) [
    | inl same ↦ rw same (
        subst (λ q. IsPath (p ∷ completed) (some q) path) (==→eq p id same)
          (IsPath-add p completed (some p) path d rest))
    | inr other ↦ rw other (
        IsPath-add p (since records id path ++ completed) (some id) (before id path)
          (λ q. d ((In-parts p id path).1 (inr q)))
          (before-IsPath id completed (some p) path (not_first p id path other m) rest))
  ]

  since-first : (id p : String) (path : List String) → In p (since records id (p ∷ path))
  unfolding since
  since-first id p path = ground arith

  after_link :
      {a b c : String} → (a ≡ b) ⊎ Follows records a b → Next records b c → Follows records a c
  after_link {c = c} (inl e) n = link (subst (λ x. Next records x c) (sym e) n)
  after_link (inr f) n = trans f (link n)

  -- Each id of the cycle leads to the end of the path, and `current` leads to each of them.
  since-Follows :
      (id : String) (completed : List String) (current : Option String) (p : String)
      (path : List String)
      → In id (p ∷ path)
      → IsPath completed current (p ∷ path)
      → (x : String) → In x (since records id (p ∷ path))
      → ((x ≡ p) ⊎ Follows records x p) × ((x ≡ id) ⊎ Follows records id x)
  unfolding since
  since-Follows id completed current p [] m h x n =
      let first : x ≡ p = ground arith in
      let own : id ≡ p = ground arith in (inl first, inl (first ∙ sym own))
  since-Follows id completed current p (q ∷ path) m (k, _, _, _, rest) x n =
      elim (Bool-cases (p == id)) [
        | inl same ↦ let first : x ≡ p = ground arith in (inl first, inl (first ∙ ==→eq p id same))
        | inr other ↦
            let next : Next records q p = (rest.0, k, rest.3) in
            let later = not_first p id (q ∷ path) other m in
            let (_, to_q) =
              since-Follows id completed (some p) q path later rest q (since-first id q path) in
            let split : (x ≡ p) ⊎ In x (since records id (q ∷ path)) = ground arith in
            elim split [
              | inl first ↦ (
                inl first,
                inr (subst (Follows records id) (sym first) (after_link (flip_eq to_q) next)),
              )
              | inr deeper ↦
                  let (from_x, to_x) =
                    since-Follows id completed (some p) q path later rest x deeper in
                  (inr (after_link from_x next), to_x)
            ]
      ]
    where
      flip_eq : {a b : String} → (a ≡ b) ⊎ Follows records b a → (b ≡ a) ⊎ Follows records b a
      flip_eq (inl e) = inl (sym e)
      flip_eq (inr f) = inr f

  -- A path whose end leads back into it gives a cycle.
  since-OnCycle :
      (id : String) (completed : List String) (p : String) (path : List String)
      → In id (p ∷ path)
      → known records id ≡ true
      → IsPath completed (some id) (p ∷ path)
      → (x : String) → In x (since records id (p ∷ path))
      → Follows records x x
  since-OnCycle id completed p path m k h x n =
      let (to_p, from_id) = since-Follows id completed (some id) p path m h x n in
      let x_id = after_link to_p (h.0, k, h.3) in
      elim from_id [ inl e ↦ subst (Follows records x) (sym e) x_id | inr f ↦ trans x_id f ]

  -- A link from the cycle leads to the cycle, or to where the path leads.
  since-Next :
      (id : String) (completed : List String) (current : Option String) (p : String)
      (path : List String)
      → IsPath completed current (p ∷ path)
      → (a b : String) → In a (since records id (p ∷ path))
      → Next records a b
      → (current ≡ some b) ⊎ In b (since records id (p ∷ path))
  unfolding since
  since-Next id completed current p [] (_, _, _, e, _) a b m (_, _, next) =
      let first : a ≡ p = ground arith in inl (sym e ∙ ap (next_id records) (sym first) ∙ next)
  since-Next id completed current p (q ∷ path) (_, _, _, e, rest) a b m n =
      let (_, _, next) = n in
      let split : (a ≡ p) ⊎ (p == id ≡ false) × In a (since records id (q ∷ path)) = ground arith in
      elim split [
        | inl first ↦ inl (sym e ∙ ap (next_id records) (sym first) ∙ next)
        | inr (other, deeper) ↦ elim (since-Next id completed (some p) q path rest a b deeper n) [
          | inl same ↦ let own : b ≡ p = some-inj (sym same) in inr (rw (other, own) (inl refl))
          | inr cycle ↦ inr (rw other (inr cycle))
        ]
      ]

  -- A path that meets itself becomes settled with its cycle.
  pub settle_cycle :
      (completed cycles : List String) (id p : String) (path : List String)
      → In id (p ∷ path)
      → known records id ≡ true
      → IsPath completed (some id) (p ∷ path)
      → IsSettled completed cycles
      → IsSettled ((p ∷ path) ++ completed) (since records id (p ∷ path) ++ cycles)
  settle_cycle completed cycles id p path m k h settled =
      let whole = p ∷ path in
      let cycle = since records id whole in
      same_members (before id whole ++ (cycle ++ completed)) (whole ++ completed) (cycle ++ cycles)
        moved
        (settle_path (cycle ++ completed) (cycle ++ cycles) (some id) (before id whole)
          (λ q e _.
            In-append_left q cycle completed
              (subst (λ x. In x cycle) (some-inj e) (since-current id whole m)))
          (before-IsPath id completed (some id) whole m h)
          (record {
            closed = λ a b l n. elim (In-append a cycle completed l) [
              | inl c ↦ elim (since-Next id completed (some id) p path h a b c n) [
                | inl e ↦
                    In-append_left b cycle completed
                      (subst (λ x. In x cycle) (some-inj e) (since-current id whole m))
                | inr d ↦ In-append_left b cycle completed d
              ]
              | inr old ↦ In-append_right b cycle completed (settled.closed a b old n)
            ];
            found = λ a l f. elim (In-append a cycle completed l) [
              | inl c ↦ In-append_left a cycle cycles c
              | inr old ↦ In-append_right a cycle cycles (settled.found a old f)
            ];
            sound = λ a l. elim (In-append a cycle cycles l) [
              | inl c ↦ since-OnCycle id completed p path m k h a c
              | inr old ↦ settled.sound a old
            ];
          }))
    where
      moved :
          (a : String)
          → In a (before id (p ∷ path) ++ (since records id (p ∷ path) ++ completed))
            ↔ In a ((p ∷ path) ++ completed)
      moved a =
          let w = In-parts a id (p ∷ path) in
          let x =
            In-append_iff a (before id (p ∷ path)) (since records id (p ∷ path) ++ completed) in
          let y = In-append_iff a (since records id (p ∷ path)) completed in
          let z = In-append_iff a (p ∷ path) completed in
          (
            λ l. z.1 (elim (x.0 l) [
              | inl b ↦ inl (w.1 (inr b))
              | inr r ↦ elim (y.0 r) [ inl c ↦ inl (w.1 (inl c)) | inr c ↦ inr c ]
            ]),
            λ l. x.1 (elim (z.0 l) [
              | inl r ↦ elim (w.0 r) [ inl c ↦ inr (y.1 (inl c)) | inr b ↦ inl b ]
              | inr c ↦ inr (y.1 (inr c))
            ]),
          )
