-- ===== src/Truth/Chains/Cycles.antt =====
-- The cycle findings of `diagnose_chains` (aoms/truth.py).
use cortex_mem.Prelude.{
  String, ◌≡◌, ◌≢◌, ◌↔◌, refl, sym, ◌∙◌, ap, subst, ◌⊎◌, inl, inr, Bool, true, false, Option, none,
  some, List, [], ◌∷◌, ◌++◌, map, In, In-append, In-append_left, In-append_right, In-append_iff,
  In-done, In-done_more, In-map, In-map_inv, contains, contains→In, In→contains, string_eq, ◌==◌,
  Bool-cases,
}
use cortex_mem.Prelude.Order.{sorted, str_order, In-sorted, In-of_sorted}
use cortex_mem.Contracts.{MemoryRecord}
use cortex_mem.Recall.Chains.{records_by_id, record_at, record_ids, known}
use cortex_mem.Recall.Chains.Links.{Follows, link, along}
use cortex_mem.Recall.Chains.Cycles.{IsSettled}
use cortex_mem.Recall.Chains.Walk.{AllKnown, start_walk}
use cortex_mem.Recall.Chains.Components.{component-Connected}
use cortex_mem.Truth.Chains.{
  ChainCategory, cycle, dangling_target, multiple_heads, both_ends_retrievable, scope_boundary,
  ChainFinding, ChainHealthReport, finding_order, finding_if, boundary_findings, retrieval_findings,
  target_findings, link_findings, all_link_findings, add_key, cycle_keys, head_findings,
  component_findings, cycle_finding, chain_report, diagnose_chains,
}

-- the id stands in one of the lists
abbrev pub Listed : String → List (List String) → Type 0
Listed x keys = (key : List String) × In key keys × In x key

Listed-add :
    (x : String) (met : List String) (keys : List (List String))
    → Listed x (add_key met keys) ↔ (In x met ⊎ Listed x keys)
Listed-add x [] keys = (λ l. inr l, λ m. elim m [ inl none_left ↦ absurd none_left | inr l ↦ l ])
Listed-add x (c ∷ cs) keys = (
  λ (key, k, m). elim k [
    | inl e ↦ inl (In-sorted str_order x (c ∷ cs) (subst (In x) e m))
    | inr old ↦ inr (key, old, m)
  ],
  λ n. elim n [
    | inl m ↦ (sorted str_order (c ∷ cs), inl refl, In-of_sorted str_order x (c ∷ cs) m)
    | inr (key, k, m) ↦ (key, inr k, m)
  ],
)

-- No finding of the list is about a cycle.
abbrev IsOther : List ChainFinding → Type 0
IsOther findings = (f : ChainFinding) → In f findings → f.category ≢ cycle

finding_if-IsOther :
    (test : Bool) (category : ChainCategory) (ids : List String)
    → category ≢ cycle
    → IsOther (finding_if test category ids)
finding_if-IsOther true category ids other f (inl e) same =
    other (sym (ap (λ (g : ChainFinding). g.category) e) ∙ same)
finding_if-IsOther true category ids other f (inr none_left) same = absurd none_left
finding_if-IsOther false category ids other f m same = absurd m

append-IsOther : (fs gs : List ChainFinding) → IsOther fs → IsOther gs → IsOther (fs ++ gs)
append-IsOther fs gs a b f m = elim (In-append f fs gs m) [ inl l ↦ a f l | inr r ↦ b f r ]

target_findings-IsOther :
    (fts : Option (List String)) (r : MemoryRecord) (id : String) (target : Option MemoryRecord)
    → IsOther (target_findings fts r id target)
target_findings-IsOther fts r id none = finding_if-IsOther true dangling_target _ (λ e. cc)
target_findings-IsOther fts r id (some t) =
    append-IsOther (boundary_findings r t) (retrieval_findings fts r t)
      (finding_if-IsOther _ scope_boundary (t.id ∷ r.id ∷ []) (λ e. cc))
      (finding_if-IsOther _ both_ends_retrievable (t.id ∷ r.id ∷ []) (λ e. cc))

link_findings-IsOther :
    (fts : Option (List String)) (by_id : List MemoryRecord) (r : MemoryRecord)
    (target : Option String)
    → IsOther (link_findings fts by_id r target)
link_findings-IsOther fts by_id r none = λ f m. absurd m
link_findings-IsOther fts by_id r (some id) = elim (Bool-cases (id == "")) [
  | inl blank ↦ rw blank (λ f m. absurd m)
  | inr given ↦ rw given (target_findings-IsOther fts r id (record_at by_id id))
]

all_link_findings-IsOther :
    (fts : Option (List String)) (by_id rs : List MemoryRecord)
    → IsOther (all_link_findings fts by_id rs)
unfolding all_link_findings
all_link_findings-IsOther fts by_id [] = λ f m. absurd m
all_link_findings-IsOther fts by_id (r ∷ rs) =
    append-IsOther (link_findings fts by_id r r.supersedes) (all_link_findings fts by_id rs)
      (link_findings-IsOther fts by_id r r.supersedes) (all_link_findings-IsOther fts by_id rs)

module _ (by_id : List MemoryRecord) where
  keys_settle :
      (starts completed cycles : List String) (keys : List (List String))
      → AllKnown by_id starts
      → IsSettled by_id completed cycles
      → ((x : String) → Listed x keys ↔ In x cycles)
      → (keys' : List (List String)) × (cycles' : List String) × (completed' : List String)
        × (cycle_keys by_id starts completed keys ≡ some keys')
        × IsSettled by_id completed' cycles'
        × ((x : String) → Listed x keys' ↔ In x cycles')
        × ((x : String) → In x starts ⊎ In x completed → In x completed')
  unfolding cycle_keys
  keys_settle [] completed cycles keys all settled same = (
    keys,
    cycles,
    completed,
    refl,
    settled,
    same,
    λ x m. elim m [ inl none_left ↦ absurd none_left | inr c ↦ c ],
  )
  keys_settle (start ∷ starts) completed cycles keys all settled same =
      elim (Bool-cases (contains completed start)) [
        | inl done ↦
            let (k, c, d, e, s, l, kept) =
              keys_settle starts completed cycles keys (λ x m. all x (inr m)) settled same in
            (
              k,
              c,
              d,
              rw done e,
              s,
              l,
              λ x m. kept x (In-done start starts completed x (contains→In completed start done) m),
            )
        | inr new ↦
            let (path, met, walked, s, m_start) =
              start_walk by_id completed cycles start (all start (inl refl)) new settled in
            let (k, c, d, e, s', l, kept) =
              keys_settle starts (path ++ completed) (met ++ cycles) (add_key met keys)
                (λ x m. all x (inr m)) s
                (λ x.
                  let a = Listed-add x met keys in
                  let b = In-append_iff x met cycles in
                  let c = same x in
                  (
                    λ m. b.1 (elim (a.0 m) [ inl l ↦ inl l | inr r ↦ inr (c.0 r) ]),
                    λ m. a.1 (elim (b.0 m) [ inl l ↦ inl l | inr r ↦ inr (c.1 r) ]),
                  )) in
            (
              k,
              c,
              d,
              rw (new, walked) e,
              s',
              l,
              λ x m. kept x (In-done_more start starts path completed x m_start m),
            )
      ]

  heads_end :
      (materialized : List MemoryRecord) (starts visited : List String)
      → AllKnown by_id starts
      → (heads : List ChainFinding) × (component_findings by_id materialized starts visited
          ≡ some heads)
        × IsOther heads
  unfolding component_findings head_findings
  heads_end materialized [] visited all = ([], refl, λ f m. absurd m)
  heads_end materialized (start ∷ starts) visited all = elim (Bool-cases (contains visited start)) [
    | inl seen ↦
        let (heads, e, other) = heads_end materialized starts visited (λ x m. all x (inr m)) in
        (heads, rw seen e, other)
    | inr new ↦
        let (component, found, _) = component-Connected by_id start (all start (inl refl)) in
        let (heads, e, other) =
          heads_end materialized starts (component ++ visited) (λ x m. all x (inr m)) in
        (
          head_findings by_id materialized component ++ heads,
          rw (new, found) (rw e refl),
          append-IsOther (head_findings by_id materialized component) heads
              (finding_if-IsOther _ multiple_heads _ (λ e. cc)) other,
        )
  ]

known_start :
    (records : List MemoryRecord) {a b : String} → Follows records a b → known records a ≡ true
known_start records (link (k, _, _)) = k
known_start records (along (k, _, _) f) = k

-- Diagnosis returns, and its cycle findings list the ids on a cycle of declared links, and no others.
pub diagnose_chains-Follows :
    (materialized : List MemoryRecord) (fts : Option (List String))
    → (health : ChainHealthReport) × (diagnose_chains materialized fts ≡ some health)
      × ((x : String)
          → ((f : ChainFinding) × In f health.findings × (f.category ≡ cycle) × In x f.ids)
            ↔ Follows (records_by_id materialized) x x)
unfolding diagnose_chains chain_report
diagnose_chains-Follows materialized fts =
    let by_id = records_by_id materialized in
    let starts = sorted str_order (record_ids by_id) in
    let all = λ (x : String) (m : In x starts).
      In→contains (record_ids by_id) x (In-sorted str_order x (record_ids by_id) m) in
    let (keys, cycles, completed, e, settled, same, done) =
      keys_settle by_id starts [] [] [] all
        (record {
          closed = λ a b m n. absurd m;
          found = λ a m f. absurd m;
          sound = λ a m. absurd m;
        })
        (λ x. (λ (k, m, _). absurd m, λ m. absurd m)) in
    let (heads, e', other) = heads_end by_id materialized starts [] all in
    let links = all_link_findings fts by_id materialized in
    let findings = links ++ (map cycle_finding keys ++ heads) in
    (
      chain_report fts materialized keys heads,
      rw e (rw e' refl),
      λ x. (
        λ (f, m, c, n).
            elim (In-append f links (map cycle_finding keys ++ heads)
              (In-sorted finding_order f findings m)) [
                | inl l ↦ absurd (all_link_findings-IsOther fts by_id materialized f l c)
                | inr r ↦ elim (In-append f (map cycle_finding keys) heads r) [
                  | inl k ↦
                      let (key, n', own) = In-map_inv cycle_finding f keys k in
                      settled.sound x
                        ((same x).0 (key, n', subst (λ (g : ChainFinding). In x g.ids) own n))
                  | inr h ↦ absurd (other f h c)
                ]
              ],
        λ f.
            let here_done = done x (
              inl (
                In-of_sorted str_order x (record_ids by_id)
                  (contains→In (record_ids by_id) x (known_start by_id f)))) in
            let (key, k, m) = (same x).1 (settled.found x here_done f) in
            (
              cycle_finding key,
              In-of_sorted finding_order (cycle_finding key) findings (
                  In-append_right (cycle_finding key) links (map cycle_finding keys ++ heads) (
                    In-append_left (cycle_finding key) (map cycle_finding keys) heads
                      (In-map cycle_finding key keys k))),
              refl,
              m,
            ),
      ),
    )
