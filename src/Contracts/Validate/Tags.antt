-- ===== src/Contracts/Validate/Tags.antt =====
-- `normalize_tags` of aoms/contracts/models.py: what it keeps of its argument.
use mathlib.Core.List.{append_assoc, append-nil}
use cortex_mem.Prelude.{
  ◌≡◌, refl, ap, ◌∙◌, ◌↔◌, ◌⊎◌, inl, inr, String, false, ◌&&◌, not, List, [], ◌∷◌, ◌++◌, arith, In,
  IsDistinct, IsDistinct-append, contains, contains→In, In→contains, In-append, In-append_left,
  In-append_right, string_eq, Bool-cases, if◌then◌else◌,
}
use cortex_mem.Contracts.Validate.{
  strip, strip_left, strip_right, is_empty_text, normalize_loop, normalize_tags,
}

-- `t` is a tag of the list with its surrounding whitespace gone, and not empty.
abbrev pub IsCleanOf : List String → String → Type 0
IsCleanOf tags t = (is_empty_text t ≡ false) × ((s : String) × In s tags × (t ≡ strip s))

IsCleanOf-later :
    (t tag : String) (tags : List String) → IsCleanOf tags t → IsCleanOf (tag ∷ tags) t
IsCleanOf-later t tag tags (ne, (s, m, e)) = (ne, (s, inr m, e))

abbrev keep : List String → String → List String
keep seen clean =
    if not (is_empty_text clean) && not (contains seen clean) then seen ++ clean ∷ [] else seen

keep-IsDistinct :
    (seen : List String) (clean : String) → IsDistinct seen → IsDistinct (keep seen clean)
keep-IsDistinct seen clean d =
    elim (Bool-cases (not (is_empty_text clean) && not (contains seen clean))) [
      | inl new ↦
          rw new (IsDistinct-append seen clean d (λ m. ground (arith, In→contains seen clean m)))
      | inr old ↦ rw old d
    ]

loop-IsDistinct :
    (tags seen : List String) → IsDistinct seen → IsDistinct (normalize_loop tags seen)
unfolding normalize_loop
loop-IsDistinct [] seen d = d
loop-IsDistinct (tag ∷ tags) seen d =
    loop-IsDistinct tags (keep seen (strip tag)) (keep-IsDistinct seen (strip tag) d)

In-keep :
    (t : String) (seen : List String) (clean : String)
    → In t (keep seen clean)
    → In t seen ⊎ ((t ≡ clean) × (is_empty_text clean ≡ false))
In-keep t seen clean m =
    elim (Bool-cases (not (is_empty_text clean) && not (contains seen clean))) [
      | inl new ↦ elim (In-append t seen (clean ∷ []) (rw new at m)) [
        | inl l ↦ inl l
        | inr (inl e) ↦ inr (e, ground arith)
        | inr (inr b) ↦ absurd b
      ]
      | inr old ↦ inl (rw old at m)
    ]

In-of_seen : (t : String) (seen : List String) (clean : String) → In t seen → In t (keep seen clean)
In-of_seen t seen clean m =
    elim (Bool-cases (not (is_empty_text clean) && not (contains seen clean))) [
      | inl new ↦ rw new (In-append_left t seen (clean ∷ []) m)
      | inr old ↦ rw old m
    ]

In-of_clean :
    (seen : List String) (clean : String) → is_empty_text clean ≡ false → In clean (keep seen clean)
In-of_clean seen clean ne = elim (Bool-cases (contains seen clean)) [
  | inl old ↦ rw (ne, old) (contains→In seen clean old)
  | inr new ↦ rw (ne, new) (In-append_right clean seen (clean ∷ []) (inl refl))
]

loop_sound :
    (t : String) (tags seen : List String)
    → In t (normalize_loop tags seen)
    → In t seen ⊎ IsCleanOf tags t
unfolding normalize_loop
loop_sound t [] seen m = inl m
loop_sound t (tag ∷ tags) seen m = elim (loop_sound t tags (keep seen (strip tag)) m) [
  | inl k ↦ elim (In-keep t seen (strip tag) k) [
    | inl l ↦ inl l
    | inr (e, ne) ↦ inr (rw e ne, (tag, inl refl, e))
  ]
  | inr c ↦ inr (IsCleanOf-later t tag tags c)
]

loop_keeps : (t : String) (tags seen : List String) → In t seen → In t (normalize_loop tags seen)
unfolding normalize_loop
loop_keeps t [] seen m = m
loop_keeps t (tag ∷ tags) seen m =
    loop_keeps t tags (keep seen (strip tag)) (In-of_seen t seen (strip tag) m)

loop_complete :
    (s : String) (tags seen : List String)
    → In s tags
    → is_empty_text (strip s) ≡ false
    → In (strip s) (normalize_loop tags seen)
unfolding normalize_loop
loop_complete s [] seen m ne = absurd m
loop_complete s (tag ∷ tags) seen (inl e) ne =
    loop_keeps (strip s) tags (keep seen (strip tag))
      (rw e (In-of_clean seen (strip tag) (rw e at ne)))
loop_complete s (tag ∷ tags) seen (inr m) ne = loop_complete s tags (keep seen (strip tag)) m ne

loop_lem :
    (tags : List String)
    → IsDistinct (normalize_loop tags [])
      × ((t : String) → In t (normalize_loop tags []) ↔ IsCleanOf tags t)
loop_lem tags = (loop-IsDistinct tags [] tt, λ t. (sound t, complete t))
  where
    sound : (t : String) → In t (normalize_loop tags []) → IsCleanOf tags t
    sound t m = elim (loop_sound t tags [] m) [ inl b ↦ absurd b | inr c ↦ c ]

    complete : (t : String) → IsCleanOf tags t → In t (normalize_loop tags [])
    complete t (ne, (s, m, e)) = rw e (loop_complete s tags [] m (rw e at ne))

-- The kept tags are distinct, and they are exactly the stripped tags that are not empty.
pub normalize_tags_lem :
    (tags : List String)
    → IsDistinct (normalize_tags tags)
      × ((t : String) → In t (normalize_tags tags) ↔ IsCleanOf tags t)
unfolding normalize_tags
normalize_tags_lem tags = loop_lem tags

strip_left-strip_left : (s : String) → strip_left (strip_left s) ≡ strip_left s
unfolding strip_left
strip_left-strip_left String.[] = refl
strip_left-strip_left (String.◌∷◌ c s) = ground (arith, strip_left-strip_left s)

strip_right-strip_right : (s : String) → strip_right (strip_right s) ≡ strip_right s
unfolding strip_right
strip_right-strip_right String.[] = refl
strip_right-strip_right (String.◌∷◌ c s) = ground (arith, strip_right-strip_right s)

-- What `strip_left` leaves starts with no space, and `strip_right` keeps that first character.
left_of_right : (s : String) → strip_left (strip_right (strip_left s)) ≡ strip_right (strip_left s)
unfolding strip_left strip_right
left_of_right String.[] = refl
left_of_right (String.◌∷◌ c s) = ground (arith, left_of_right s)

pub strip-strip : (s : String) → strip (strip s) ≡ strip s
unfolding strip
strip-strip s = ap strip_right (left_of_right s) ∙ strip_right-strip_right (strip_left s)

abbrev AreClean : List String → Type 0
AreClean [] = Unit
AreClean (t ∷ ts) = (is_empty_text t ≡ false) × (strip t ≡ t) × AreClean ts

AreClean-of :
    (ts : List String)
    → ((t : String) → In t ts → (is_empty_text t ≡ false) × (strip t ≡ t))
    → AreClean ts
AreClean-of [] h = tt
AreClean-of (t ∷ ts) h =
    let (ne, e) = h t (inl refl) in (ne, e, AreClean-of ts (λ s m. h s (inr m)))

-- no value of the second list stands in the first or twice in the second
abbrev IsNewTo : List String → List String → Type 0
IsNewTo seen [] = Unit
IsNewTo seen (t ∷ ts) = (In t seen → ⊥) × IsNewTo (seen ++ t ∷ []) ts

IsNewTo-of :
    (seen ts : List String)
    → IsDistinct ts
    → ((t : String) → In t ts → In t seen → ⊥)
    → IsNewTo seen ts
IsNewTo-of seen [] d n = tt
IsNewTo-of seen (t ∷ ts) d n = (
  n t (inl refl),
  IsNewTo-of (seen ++ t ∷ []) ts d.1 (λ s m k. elim (In-append s seen (t ∷ []) k) [
    | inl l ↦ n s (inr m) l
    | inr (inl e) ↦ d.0 (rw e at m)
    | inr (inr b) ↦ b
  ]),
)

loop_stable :
    (ts seen : List String) → AreClean ts → IsNewTo seen ts → normalize_loop ts seen ≡ seen ++ ts
unfolding normalize_loop
loop_stable [] seen c n = rw append-nil
loop_stable (t ∷ ts) seen (ne, e, c) (new, n) =
    rw (e, ne, not-contains) (loop_stable ts (seen ++ t ∷ []) c n ∙ append_assoc seen (t ∷ []) ts)
  where
    not-contains : contains seen t ≡ false
    not-contains = elim (Bool-cases (contains seen t)) [
      | inl old ↦ absurd (new (contains→In seen t old))
      | inr fresh ↦ fresh
    ]

-- Normalising twice is normalising once, so a record read back and validated again is unchanged.
pub normalize_tags-normalize_tags :
    (tags : List String) → normalize_tags (normalize_tags tags) ≡ normalize_tags tags
unfolding normalize_tags
normalize_tags-normalize_tags tags =
    let (d, m) = loop_lem tags in
    loop_stable (normalize_loop tags []) []
      (AreClean-of (normalize_loop tags [])
        (λ t k. let (ne, (s, _, e)) = (m t).0 k in (ne, rw e (strip-strip s))))
      (IsNewTo-of [] (normalize_loop tags []) d (λ t _ b. b))
