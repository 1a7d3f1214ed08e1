-- ===== src/Prelude/Lists.antt =====
-- Lists measured by native numbers, with Boolean tests, under the library's names.
use Prim.Native.Nat.{ℕ, zero, suc, ◌+◌, ◌≤◌, ◌<◌}
use mathlib.Core.Path.{◌≡◌, refl, sym, ap, subst}
use mathlib.Core.Logic.{◌⊎◌, inl, inr, ◌↔◌}
use mathlib.Core.Bool.{Bool, true, false, ◌&&◌, ◌||◌, not}
use mathlib.Core.List.{List, [], ◌∷◌, ◌++◌, map}
use native.Mathlib.Omega.{arith}
use cortex_mem.Prelude.Tests.{if◌then◌else◌, Bool-cases}
use cortex_mem.Prelude.Equality.{Comparable, ◌==◌}

module _ {ℓ} {A : Type ℓ} where
  abbrev pub length : List A → ℕ
  length [] = 0
  length (x ∷ xs) = suc (length xs)

  abbrev pub is_empty : List A → Bool
  is_empty [] = true
  is_empty (x ∷ xs) = false

  unfoldable pub take : ℕ → List A → List A
  take zero xs = []
  take (suc n) [] = []
  take (suc n) (x ∷ xs) = x ∷ take n xs

  -- `[x for x in xs if p x]`
  unfoldable pub filter : (A → Bool) → List A → List A
  filter p [] = []
  filter p (x ∷ xs) = let rest = filter p xs in if p x then x ∷ rest else rest

  unfoldable pub any : (A → Bool) → List A → Bool
  any p [] = false
  any p (x ∷ xs) = p x || any p xs

  unfoldable pub all : (A → Bool) → List A → Bool
  all p [] = true
  all p (x ∷ xs) = p x && all p xs

  abbrev pub All {κ} : (A → Type κ) → List A → Type κ
  All P [] = Unit
  All P (x ∷ xs) = P x × All P xs

pub length-append {ℓ} : {A : Type ℓ} (xs ys : List A) → length (xs ++ ys) ≡ length xs + length ys
length-append [] ys = omega arith
length-append (x ∷ xs) ys = omega (arith, length-append xs ys)

module _ {A : Type 0} where
  -- the value stands in the list
  abbrev pub In : A → List A → Type 0
  In a [] = ⊥
  In a (x ∷ xs) = (a ≡ x) ⊎ In a xs

module _ {A : Type 0} where
  pub In-append_left : (a : A) (xs ys : List A) → In a xs → In a (xs ++ ys)
  In-append_left a [] ys m = absurd m
  In-append_left a (x ∷ xs) ys (inl e) = inl e
  In-append_left a (x ∷ xs) ys (inr m) = inr (In-append_left a xs ys m)

  pub In-append_right : (a : A) (xs ys : List A) → In a ys → In a (xs ++ ys)
  In-append_right a [] ys m = m
  In-append_right a (x ∷ xs) ys m = inr (In-append_right a xs ys m)

  pub In-append : (a : A) (xs ys : List A) → In a (xs ++ ys) → In a xs ⊎ In a ys
  In-append a [] ys m = inr m
  In-append a (x ∷ xs) ys (inl e) = inl (inl e)
  In-append a (x ∷ xs) ys (inr m) = elim (In-append a xs ys m) [
    | inl l ↦ inl (inr l)
    | inr r ↦ inr r
  ]

  pub In-append_iff : (a : A) (xs ys : List A) → In a (xs ++ ys) ↔ (In a xs ⊎ In a ys)
  In-append_iff a xs ys = (
    In-append a xs ys,
    λ m. elim m [ inl l ↦ In-append_left a xs ys l | inr r ↦ In-append_right a xs ys r ],
  )

  -- A value of a list, or of those that are done, once the first of the list is done.
  pub In-done :
      (first : A) (rest done : List A) (a : A)
      → In first done
      → In a (first ∷ rest) ⊎ In a done
      → In a rest ⊎ In a done
  In-done first rest done a m (inl (inl e)) = inr (subst (λ x. In x done) (sym e) m)
  In-done first rest done a m (inl (inr n)) = inl n
  In-done first rest done a m (inr n) = inr n

  pub In-done_more :
      (first : A) (rest more done : List A) (a : A)
      → In first more
      → In a (first ∷ rest) ⊎ In a done
      → In a rest ⊎ In a (more ++ done)
  In-done_more first rest more done a m n =
      In-done first rest (more ++ done) a (In-append_left first more done m)
        (elim n [ inl l ↦ inl l | inr r ↦ inr (In-append_right a more done r) ])

  -- Every value stands once.
  abbrev pub IsDistinct : List A → Type 0
  IsDistinct [] = Unit
  IsDistinct (x ∷ xs) = (In x xs → ⊥) × IsDistinct xs

  pub IsDistinct-append :
      (xs : List A) (a : A) → IsDistinct xs → (In a xs → ⊥) → IsDistinct (xs ++ a ∷ [])
  IsDistinct-append [] a d n = (λ m. m, tt)
  IsDistinct-append (x ∷ xs) a d n = (
    λ m. elim (In-append x xs (a ∷ []) m) [
      | inl l ↦ d.0 l
      | inr (inl e) ↦ n (inl (sym e))
      | inr (inr b) ↦ b
    ],
    IsDistinct-append xs a d.1 (λ m. n (inr m)),
  )

  pub In-filter : (p : A → Bool) (a : A) (xs : List A) → In a (filter p xs) → In a xs × (p a ≡ true)
  unfolding filter
  In-filter p a [] m = absurd m
  In-filter p a (x ∷ xs) m = ground (arith, In-filter p a xs)

  pub In-filter_of :
      (p : A → Bool) (a : A) (xs : List A) → In a xs → p a ≡ true → In a (filter p xs)
  unfolding filter
  In-filter_of p a (x ∷ xs) m h = ground (arith, In-filter_of p a xs)
  In-filter_of p a [] m h = absurd m

  pub length-filter : (p : A → Bool) (xs : List A) → length (filter p xs) ≤ length xs
  unfolding filter
  length-filter p [] = omega arith
  length-filter p (x ∷ xs) = ground (arith, length-filter p xs)

  -- A test that holds less often keeps less.
  pub length-filter_le :
      (p q : A → Bool) (xs : List A)
      → ((x : A) → q x ≡ true → p x ≡ true)
      → length (filter q xs) ≤ length (filter p xs)
  unfolding filter
  length-filter_le p q [] h = omega arith
  length-filter_le p q (x ∷ xs) h = ground (arith, h x, length-filter_le p q xs h)

  pub length-filter_lt :
      (p q : A → Bool) (xs : List A) (a : A)
      → ((x : A) → q x ≡ true → p x ≡ true)
      → In a xs
      → p a ≡ true
      → q a ≡ false
      → length (filter q xs) < length (filter p xs)
  unfolding filter
  length-filter_lt p q [] a h m kept left = absurd m
  length-filter_lt p q (x ∷ xs) a h (inl e) kept left =
      let kept_x : p x ≡ true = rw (sym e) kept in
      let left_x : q x ≡ false = rw (sym e) left in ground (arith, length-filter_le p q xs h)
  length-filter_lt p q (x ∷ xs) a h (inr m) kept left =
      ground (arith, h x, length-filter_lt p q xs a h m kept left)

  pub any-In : (p : A → Bool) (xs : List A) → any p xs ≡ true → (a : A) × In a xs × (p a ≡ true)
  unfolding any
  any-In p [] h = absurd (ground arith)
  any-In p (x ∷ xs) h = elim (Bool-cases (p x)) [
    | inl yes_x ↦ (x, inl refl, yes_x)
    | inr no_x ↦ let (a, m, pa) = any-In p xs (ground arith) in (a, inr m, pa)
  ]

  pub any_of_In : (p : A → Bool) (a : A) (xs : List A) → In a xs → p a ≡ true → any p xs ≡ true
  unfolding any
  any_of_In p a [] m h = absurd m
  any_of_In p a (x ∷ xs) m h = ground (arith, any_of_In p a xs)

  pub all-In : (p : A → Bool) (a : A) (xs : List A) → all p xs ≡ true → In a xs → p a ≡ true
  unfolding all
  all-In p a [] h m = absurd m
  all-In p a (x ∷ xs) h m = ground (arith, all-In p a xs)

  pub all_of_In : (p : A → Bool) (xs : List A) → ((a : A) → In a xs → p a ≡ true) → all p xs ≡ true
  unfolding all
  all_of_In p [] h = refl
  all_of_In p (x ∷ xs) h = ground (arith, h x (inl refl), all_of_In p xs (λ a m. h a (inr m)))

  pub all-false-In :
      (p : A → Bool) (xs : List A) → all p xs ≡ false → (a : A) × In a xs × (p a ≡ false)
  unfolding all
  all-false-In p [] h = absurd (ground arith)
  all-false-In p (x ∷ xs) h = elim (Bool-cases (p x)) [
    | inl yes_x ↦ let (a, m, pa) = all-false-In p xs (ground arith) in (a, inr m, pa)
    | inr no_x ↦ (x, inl refl, no_x)
  ]

  -- `filter` keeps nothing exactly when `any` finds nothing.
  pub filter-any : (p : A → Bool) (xs : List A) → is_empty (filter p xs) ≡ not (any p xs)
  unfolding filter any
  filter-any p [] = refl
  filter-any p (x ∷ xs) = ground (arith, filter-any p xs)

pub In-take : {A : Type 0} (n : ℕ) (a : A) (xs : List A) → In a (take n xs) → In a xs
unfolding take
In-take zero a xs m = absurd m
In-take (suc n) a [] m = absurd m
In-take (suc n) a (x ∷ xs) (inl e) = inl e
In-take (suc n) a (x ∷ xs) (inr m) = inr (In-take n a xs m)

pub length-map : {A B : Type 0} (f : A → B) (xs : List A) → length (map f xs) ≡ length xs
length-map f [] = refl
length-map f (x ∷ xs) = ap suc (length-map f xs)

pub In-map : {A B : Type 0} (f : A → B) (a : A) (xs : List A) → In a xs → In (f a) (map f xs)
In-map f a [] m = absurd m
In-map f a (x ∷ xs) (inl e) = inl (ap f e)
In-map f a (x ∷ xs) (inr m) = inr (In-map f a xs m)

pub In-map_inv :
    {A B : Type 0} (f : A → B) (b : B) (xs : List A)
    → In b (map f xs)
    → (a : A) × In a xs × (b ≡ f a)
In-map_inv f b [] m = absurd m
In-map_inv f b (x ∷ xs) (inl e) = (x, inl refl, e)
In-map_inv f b (x ∷ xs) (inr m) = let (a, k, e) = In-map_inv f b xs m in (a, inr k, e)

module _ {A : Type 0} ⦃e : Comparable A⦄ where
  -- `a in xs`
  unfoldable pub contains : List A → A → Bool
  contains [] a = false
  contains (x ∷ xs) a = a == x || contains xs a

  pub contains→In : (xs : List A) (a : A) → contains xs a ≡ true → In a xs
  unfolding contains
  contains→In [] a h = absurd (ground arith)
  contains→In (x ∷ xs) a h = ground (arith, e.equals_iff a x, contains→In xs a)

  pub In→contains : (xs : List A) (a : A) → In a xs → contains xs a ≡ true
  unfolding contains
  In→contains [] a m = absurd m
  In→contains (x ∷ xs) a m = ground (arith, e.equals_iff a x, In→contains xs a)
