-- ===== src/Tests/Truth.antt =====
-- Timelines of aoms/truth.py over one correction.
use mathlib.Core.List.{Perm}
use cortex_mem.Prelude.{
  ℕ, ◌≡◌, refl, sym, ◌∙◌, ◌==◌, ==_refl, string_eq, option_eq, inl, inr, true, false, none, some,
  List, [], ◌∷◌, arith, In, filter, ap, map, ◌↔◌,
}
use cortex_mem.Prelude.Order.{sorted}
use cortex_mem.Contracts.{MemoryRecord}
use cortex_mem.Truth.{
  TimelineVersion, reconstruct_timeline, timeline_version, direct_successors, successors,
  first_created, active_at, is_before,
}
use cortex_mem.Truth.Timeline.{Succeeds, IsActive, reconstruct_timeline-IsActive}
use cortex_mem.Truth.Answers.{
  IsForward, direct, reconstruct_timeline-Descends, reconstruct_timeline-answers,
}
use cortex_mem.Tests.Data.{memory}

abbrev older : MemoryRecord
older = record (memory "a" "amber") { created_at = 10 }

abbrev newer : MemoryRecord
newer = record (memory "b" "green") { created_at = 20; supersedes = some "a" }

abbrev chain : List MemoryRecord
chain = newer ∷ older ∷ []

timelines : Unit {0}
unfolding reconstruct_timeline timeline_version direct_successors successors first_created active_at
    is_before sorted filter
timelines = tt

abbrev version : ℕ → MemoryRecord → TimelineVersion
version boundary r = timeline_version (some boundary) (older ∷ newer ∷ []) r

-- at 15 the answer is the older record, and at 25 the newer
versions_at_15 :
    (reconstruct_timeline "a" chain (some 15)).versions ≡ version 15 older ∷ version 15 newer ∷ []
unfolding timelines
versions_at_15 = refl

older_active : (version 15 older).active_at_boundary ≡ true
unfolding timelines
older_active = refl

newer_inactive : (version 15 newer).active_at_boundary ≡ false
unfolding timelines
newer_inactive = refl

link :
    (r s r' s' : MemoryRecord)
    → r ≡ r'
    → s ≡ s'
    → Succeeds r s
    → (s'.supersedes == some r'.id) ≡ true
link r s r' s' p q e = rw (← p, ← q, e) (==_refl (some r.id))

forward : IsForward chain
forward r s (inl rn) (inl sn) e =
    let wrong : false ≡ true = link r s newer newer rn sn e in absurd (ground arith)
forward r s m (inr (inl so)) e =
    let wrong : some r.id ≡ none = sym e ∙ ap (λ (x : MemoryRecord). x.supersedes) so in
    absurd (ground arith)
forward r s (inr (inl ro)) (inl sn) e = rw (ro, sn) (omega arith)
forward r s (inr (inr x)) n e = absurd x
forward r s m (inr (inr x)) e = absurd x

reconstruct_timeline-Descends_example : (version 15 newer).active_at_boundary ≡ false
unfolding timeline_version
reconstruct_timeline-Descends_example =
    reconstruct_timeline-Descends chain forward "a" (some 15) (version 15 older) (version 15 newer)
      (rw versions_at_15 (inl refl)) (rw versions_at_15 (inr (inl refl))) older_active
      (direct (inl refl) refl)

reconstruct_timeline-answers_example :
    (v : TimelineVersion) × In v (reconstruct_timeline "a" chain (some 15)).versions
    × (v.active_at_boundary ≡ true)
reconstruct_timeline-answers_example =
    reconstruct_timeline-answers "a" chain 15 older forward (inr (inl refl)) (omega arith)

reconstruct_timeline-IsActive_example :
    Perm
      (map (λ (v : TimelineVersion). v.subject) (reconstruct_timeline "a" chain (some 25)).versions)
      chain
    × ((v : TimelineVersion)
        → In v (reconstruct_timeline "a" chain (some 25)).versions
        → (v.active_at_boundary ≡ true) ↔ IsActive chain (some 25) v.subject)
reconstruct_timeline-IsActive_example = reconstruct_timeline-IsActive "a" chain (some 25)
