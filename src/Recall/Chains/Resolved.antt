-- ===== src/Recall/Chains/Resolved.antt =====
-- `resolve_supersession_chains` of aoms/recall.py as its caller sees it.
use cortex_mem.Prelude.{
  suc, String, ◌≡◌, ◌↔◌, refl, sym, ◌∙◌, ap, subst, inl, inr, true, not, some, List, [], map, arith,
  length, In, In-filter_of, In-map_inv, IsDistinct, contains, contains→In, string_eq, Bool-cases,
  some-inj,
}
use cortex_mem.Contracts.{MemoryRecord}
use cortex_mem.Recall.{RankedCandidate}
use cortex_mem.Recall.Chains.{
  records_by_id, record_ids, known, suppressed_ids, SupersessionResolution, memory_of, resolution,
  resolve_supersession_chains, ◌>>=?◌,
}
use cortex_mem.Recall.Chains.Links.{Next, Follows, link, trans}
use cortex_mem.Recall.Chains.Records.{put_records-IsDistinct, In-put_records}
use cortex_mem.Recall.Chains.Walk.{outside-le}
use cortex_mem.Recall.Chains.Heads.{
  SupersededBy, protected-MeetsCycle, suppressed-SupersededBy, climb, link_of,
}

module _ {Score : Type 0} where
  -- the candidates' records, by their ids
  abbrev pub candidates : List (RankedCandidate Score) → List MemoryRecord
  candidates ranked = records_by_id (map memory_of ranked)

  unique : (ranked : List (RankedCandidate Score)) → IsDistinct (record_ids (candidates ranked))
  unfolding records_by_id
  unique ranked = put_records-IsDistinct (map memory_of ranked) [] tt

  -- The loops end, and the suppressed ids are those that a candidate supersedes, where links in
  -- either direction connect that candidate to no cycle.
  pub resolve_supersession_chains-SupersededBy :
      (ranked : List (RankedCandidate Score))
      → (res : SupersessionResolution Score) × (resolve_supersession_chains ranked ≡ some res)
        × ((x : String)
            → In x res.suppressed ↔ (
                (r : MemoryRecord) × In r (candidates ranked)
                × SupersededBy (candidates ranked) x r))
  unfolding resolve_supersession_chains resolution
  resolve_supersession_chains-SupersededBy ranked =
      let (p, e, protects) = protected-MeetsCycle (candidates ranked) in
      (
        resolution ranked p,
        rw e refl,
        suppressed-SupersededBy (candidates ranked) (unique ranked) p protects,
      )

  In-candidates :
      (ranked : List (RankedCandidate Score)) (id : String)
      → known (candidates ranked) id ≡ true
      → (item : RankedCandidate Score) × In item ranked × ((memory_of item).id ≡ id)
  unfolding records_by_id
  In-candidates ranked id k =
      elim (In-put_records (map memory_of ranked) [] id
        (contains→In (record_ids (candidates ranked)) id k)) [
          | inl m ↦
              let (r, n, e) = In-map_inv (λ (y : MemoryRecord). y.id) id (map memory_of ranked) m in
              let (item, l, f) = In-map_inv memory_of r ranked n in
              (item, l, sym (e ∙ ap (λ (y : MemoryRecord). y.id) f))
          | inr none_left ↦ absurd none_left
        ]

  -- In the place of each suppressed id a candidate stays that declared links lead from to it.
  pub resolve_supersession_chains-Follows :
      (ranked : List (RankedCandidate Score)) (res : SupersessionResolution Score) (x : String)
      → resolve_supersession_chains ranked ≡ some res
      → In x res.suppressed
      → (item : RankedCandidate Score) × In item res.packable
        × Follows (candidates ranked) (memory_of item).id x
  unfolding resolve_supersession_chains resolution
  resolve_supersession_chains-Follows ranked res x h m =
      let records = candidates ranked in
      let (p, e, protects) = protected-MeetsCycle records in
      let end : resolution ranked p ≡ res =
        some-inj (ap (λ o. o >>=? λ q. some (resolution ranked q)) (sym e) ∙ h) in
      let hidden = subst (λ (y : SupersessionResolution Score). In x y.suppressed) (sym end) m in
      let (r, n, (s, k, free)) =
        (suppressed-SupersededBy records (unique ranked) p protects x).0 hidden in
      let next = link_of records (unique ranked) p protects r x n s k in
      let (head, known_head, stays, up) =
        climb records (unique ranked) p protects (suc (length records)) [] r.id next.0 free
          (λ z none_seen. absurd none_seen) (omega (arith, outside-le records)) in
      let (item, l, own) = In-candidates ranked head known_head in
      (
        item,
        subst (λ (y : SupersessionResolution Score). In item y.packable) end
            (In-filter_of _ item ranked l (kept p head (memory_of item).id own stays)),
        subst (λ y. Follows records y x) (sym own)
            (elim up [
              | inl same ↦ link (subst (λ y. Next records y x) (sym same) next)
              | inr f ↦ trans f (link next)
            ]),
      )
    where
      kept :
          (p : List String) (head id : String)
          → id ≡ head
          → (In head (suppressed_ids (candidates ranked) p (candidates ranked)) → ⊥)
          → not (contains (suppressed_ids (candidates ranked) p (candidates ranked)) id) ≡ true
      kept p head id own stays =
          elim (Bool-cases
            (contains (suppressed_ids (candidates ranked) p (candidates ranked)) id)) [
              | inl c ↦ absurd (
                  stays (
                    subst (λ y. In y (suppressed_ids (candidates ranked) p (candidates ranked))) own
                      (contains→In _ id c)))
              | inr c ↦ ap not c
            ]
