-- ===== src/Recall/Chains/Records.antt =====
-- The dict of records that `resolve_supersession_chains` (aoms/recall.py) builds.
use cortex_mem.Prelude.{
  String, ◌≡◌, ◌↔◌, refl, sym, subst, ◌⊎◌, inl, inr, false, some, List, [], ◌∷◌, arith, In, In-map,
  IsDistinct, string_eq, ◌==◌, ==_refl, ==_ne, ==→eq, eq_iff, Bool-cases,
}
use cortex_mem.Contracts.{MemoryRecord}
use cortex_mem.Recall.Chains.{put_record, put_records, record_at, record_ids}

-- a dict has one record of each id
In-put :
    (r : MemoryRecord) (id : String) (rs : List MemoryRecord)
    → In id (record_ids (put_record r rs)) ↔ ((id ≡ r.id) ⊎ In id (record_ids rs))
unfolding put_record
In-put r id [] = (λ m. m, λ m. m)
In-put r id (x ∷ xs) = ground (arith, eq_iff x.id r.id, In-put r id xs)

put-IsDistinct :
    (r : MemoryRecord) (rs : List MemoryRecord)
    → IsDistinct (record_ids rs)
    → IsDistinct (record_ids (put_record r rs))
unfolding put_record
put-IsDistinct r [] d = (λ m. m, tt)
put-IsDistinct r (x ∷ xs) d = elim (Bool-cases (x.id == r.id)) [
  | inl same ↦
      rw same (λ m. d.0 (subst (λ i. In i (record_ids xs)) (sym (==→eq x.id r.id same)) m), d.1)
  | inr other ↦ rw other (
    λ m. elim ((In-put r x.id xs).0 m) [
      | inl e ↦ absurd (ground (arith, eq_iff x.id r.id))
      | inr old ↦ d.0 old
    ],
    put-IsDistinct r xs d.1,
  )
]

pub put_records-IsDistinct :
    (rs records : List MemoryRecord)
    → IsDistinct (record_ids records)
    → IsDistinct (record_ids (put_records rs records))
unfolding put_records
put_records-IsDistinct [] records d = d
put_records-IsDistinct (r ∷ rs) records d =
    put_records-IsDistinct rs (put_record r records) (put-IsDistinct r records d)

pub In-put_records :
    (rs records : List MemoryRecord) (id : String)
    → In id (record_ids (put_records rs records))
    → In id (record_ids rs) ⊎ In id (record_ids records)
unfolding put_records
In-put_records [] records id m = inr m
In-put_records (r ∷ rs) records id m = elim (In-put_records rs (put_record r records) id m) [
  | inl l ↦ inl (inr l)
  | inr k ↦ elim ((In-put r id records).0 k) [ inl e ↦ inl (inl e) | inr old ↦ inr old ]
]

pub record_at-In :
    (records : List MemoryRecord) (r : MemoryRecord)
    → IsDistinct (record_ids records)
    → In r records
    → record_at records r.id ≡ some r
unfolding record_at
record_at-In [] r d m = absurd m
record_at-In (x ∷ xs) r d (inl e) = rw e (rw (==_refl x.id) refl)
record_at-In (x ∷ xs) r d (inr m) =
    let other : (x.id == r.id) ≡ false = ==_ne x.id r.id (λ e.
      d.0
        (subst (λ i. In i (record_ids xs)) (sym e) (In-map (λ (y : MemoryRecord). y.id) r xs m))) in
    rw other (record_at-In xs r d.1 m)
