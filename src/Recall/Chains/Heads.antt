-- ===== src/Recall/Chains/Heads.antt =====
-- What `resolve_supersession_chains` (aoms/recall.py) suppresses, and what stays in its place.
use cortex_mem.Prelude.{
  ℕ, zero, suc, ◌<◌, String, ◌≡◌, ◌↔◌, refl, sym, ap, subst, ◌⊎◌, inl, inr, Bool, true, false, ◌&&◌,
  not, Option, none, some, List, [], ◌∷◌, arith, In, In-append, In-append_left, In-append_right,
  In-map, IsDistinct, contains, contains→In, In→contains, string_eq, Bool-cases, some-inj,
  if◌then◌else◌,
}
use cortex_mem.Contracts.{MemoryRecord}
use cortex_mem.Recall.Chains.{record_ids, known, next_id, protected, suppressed_by, suppressed_ids}
use cortex_mem.Recall.Chains.Links.{
  Next, Follows, link, along, trans, Connected, here, step, Connected-trans,
}
use cortex_mem.Recall.Chains.Records.{record_at-In}
use cortex_mem.Recall.Chains.Walk.{outside, outside-cons, cycle_ids-OnCycle}
use cortex_mem.Recall.Chains.Components.{protect_ends}

-- Links in either direction lead from the id to a cycle.
abbrev pub MeetsCycle : List MemoryRecord → String → Type 0
MeetsCycle records x = (y : String) × Connected records x y × Follows records y y

pub protected-MeetsCycle :
    (records : List MemoryRecord)
    → (protected_ids : List String) × (protected records ≡ some protected_ids)
      × ((x : String)
          → known records x ≡ true
          → (contains protected_ids x ≡ true) ↔ MeetsCycle records x)
unfolding protected
protected-MeetsCycle records =
    let (cycles, e, on_cycle) = cycle_ids-OnCycle records in
    let (p, v, e', h, all) =
      protect_ends records cycles (record_ids records) [] []
        (λ x m. In→contains (record_ids records) x m)
        (record { sound = λ x m. absurd m; full = λ x m. absurd m }) in
    (
      p,
      rw e e',
      λ x k. (
        λ c. let (y, f, m) = h.sound x (contains→In p x c) in (y, f, (on_cycle y).0 m),
        λ (y, f, m). In→contains p x (
            h.full x (all x (inl (contains→In (record_ids records) x k))) (y, f, (on_cycle y).1 m)),
      ),
    )

In-if : (b : Bool) (x t : String) → In x (if b then t ∷ [] else []) ↔ ((b ≡ true) × (x ≡ t))
In-if true x t =
    (λ m. elim m [ inl e ↦ (refl, e) | inr none_left ↦ absurd none_left ], λ (b, e). inl e)
In-if false x t = (λ m. absurd m, λ (b, e). cc)

module _ (records : List MemoryRecord) (protected_ids : List String) where
  abbrev is_free : String → Bool
  is_free id = not (contains protected_ids id)

  In-suppressed_by :
      (r : MemoryRecord) (x : String) (target : Option String)
      → In x (suppressed_by records protected_ids r target) ↔ (
          (target ≡ some x) × (is_free r.id ≡ true) × (known records x ≡ true) × (is_free x ≡ true))
  In-suppressed_by r x none = (λ m. absurd m, λ m. cc)
  In-suppressed_by r x (some t) = (
    λ m.
        let (b, e) = (In-if (is_free r.id && known records t && is_free t) x t).0 m in
        let k : (is_free r.id ≡ true) × (known records t ≡ true) × (is_free t ≡ true) =
          ground arith in
        (
          ap some (sym e),
          k.0,
          subst (λ y. known records y ≡ true) (sym e) k.1,
          subst (λ y. is_free y ≡ true) (sym e) k.2,
        ),
    λ (e, f, k, g).
        let own = sym (some-inj e) in
        let k' = subst (λ y. known records y ≡ true) own k in
        let g' = subst (λ y. is_free y ≡ true) own g in
        (In-if (is_free r.id && known records t && is_free t) x t).1 (ground arith, own),
  )

  -- one record that suppresses an id
  abbrev Suppresses : String → MemoryRecord → Type 0
  Suppresses x r =
      (r.supersedes ≡ some x)
      × (is_free r.id ≡ true)
      × (known records x ≡ true)
      × (is_free x ≡ true)

  In-suppressed :
      (rs : List MemoryRecord) (x : String)
      → In x (suppressed_ids records protected_ids rs)
        ↔ ((r : MemoryRecord) × In r rs × Suppresses x r)
  unfolding suppressed_ids
  In-suppressed [] x = (λ m. absurd m, λ (r, m, _). absurd m)
  In-suppressed (r ∷ rs) x = (
    λ m.
        elim (In-append x (suppressed_by records protected_ids r r.supersedes)
          (suppressed_ids records protected_ids rs) m) [
            | inl l ↦ (r, inl refl, (In-suppressed_by r x r.supersedes).0 l)
            | inr k ↦ let (s, n, h) = (In-suppressed rs x).0 k in (s, inr n, h)
          ],
    λ (s, m, h). elim m [
      | inl e ↦
          In-append_left x (suppressed_by records protected_ids r r.supersedes)
            (suppressed_ids records protected_ids rs)
            ((In-suppressed_by r x r.supersedes).1 (subst (Suppresses x) e h))
      | inr n ↦
          In-append_right x (suppressed_by records protected_ids r r.supersedes)
            (suppressed_ids records protected_ids rs) ((In-suppressed rs x).1 (s, n, h))
    ],
  )

-- A record supersedes the id, which is a candidate, and no cycle is connected to the record.
abbrev pub SupersededBy : List MemoryRecord → String → MemoryRecord → Type 0
SupersededBy records x r =
    (r.supersedes ≡ some x) × (known records x ≡ true) × (MeetsCycle records r.id → ⊥)

module _ (records : List MemoryRecord) (unique : IsDistinct (record_ids records))
    (protected_ids : List String)
    (protects : (x : String)
      → known records x ≡ true
      → (contains protected_ids x ≡ true) ↔ MeetsCycle records x) where
  pub link_of :
      (r : MemoryRecord) (x : String)
      → In r records
      → r.supersedes ≡ some x
      → known records x ≡ true
      → Next records r.id x
  unfolding next_id
  link_of r x m e k = (
    In→contains (record_ids records) r.id (In-map (λ (y : MemoryRecord). y.id) r records m),
    k,
    rw (record_at-In records r unique m) e,
  )

  free_iff :
      (x : String)
      → known records x ≡ true
      → (not (contains protected_ids x) ≡ true) ↔ (MeetsCycle records x → ⊥)
  free_iff x k =
      let (f, g) = protects x k in
      (
        λ e c. let b = g c in absurd (ground arith),
        λ no_cycle. elim (Bool-cases (contains protected_ids x)) [
          | inl b ↦ absurd (no_cycle (f b))
          | inr b ↦ ap not b
        ],
      )

  pub suppressed-SupersededBy :
      (x : String)
      → In x (suppressed_ids records protected_ids records)
        ↔ ((r : MemoryRecord) × In r records × SupersededBy records x r)
  suppressed-SupersededBy x = (
    λ m.
        let (r, n, (e, f, k, _)) = (In-suppressed records protected_ids records x).0 m in
        (r, n, (e, k, (free_iff r.id (link_of r x n e k).0).0 f)),
    λ (r, n, (e, k, no_cycle)).
        let next = link_of r x n e k in
        (In-suppressed records protected_ids records x).1 (
          r,
          n,
          (
            e,
            (free_iff r.id next.0).1 no_cycle,
            k,
            (free_iff x k).1
                (λ (y, c, f). no_cycle (y, Connected-trans (step here (inl next)) c, f)),
          ),
        ),
  )

  -- From a record that is not on a cycle, a way up along the links ends at one that stays.
  pub climb :
      (fuel : ℕ) (seen : List String) (x : String)
      → known records x ≡ true
      → (MeetsCycle records x → ⊥)
      → ((z : String) → In z seen → Follows records x z)
      → outside records seen < fuel
      → (h : String) × (known records h ≡ true)
        × (In h (suppressed_ids records protected_ids records) → ⊥)
        × ((h ≡ x) ⊎ Follows records h x)
  climb zero seen x k no_cycle below enough = absurd (omega arith)
  climb (suc fuel) seen x k no_cycle below enough =
      elim (Bool-cases (contains (suppressed_ids records protected_ids records) x)) [
        | inr stays ↦ (
          x,
          k,
          λ m.
              absurd
                (ground (arith, In→contains (suppressed_ids records protected_ids records) x m)),
          inl refl,
        )
        | inl hidden ↦
            let (r, m, (e, _, free)) =
              (suppressed-SupersededBy x).0
                (contains→In (suppressed_ids records protected_ids records) x hidden) in
            let next = link_of r x m e k in
            let fresh : contains seen x ≡ false = unseen in
            let (h, known_h, kept, up) =
              climb fuel (x ∷ seen) r.id next.0 free
                (λ z n. elim n [
                  | inl same ↦ link (subst (Next records r.id) (sym same) next)
                  | inr old ↦ along next (below z old)
                ])
                (omega (arith, outside-cons records seen x k fresh)) in
            (
              h,
              known_h,
              kept,
              elim up [
                | inl same ↦ inr (subst (λ y. Follows records y x) (sym same) (link next))
                | inr f ↦ inr (trans f (link next))
              ],
            )
      ]
    where
      unseen : contains seen x ≡ false
      unseen = elim (Bool-cases (contains seen x)) [
        | inl c ↦ absurd (no_cycle (x, here, below x (contains→In seen x c)))
        | inr c ↦ c
      ]
