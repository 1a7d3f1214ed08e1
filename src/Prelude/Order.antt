-- ===== src/Prelude/Order.antt =====
-- Python's order of texts (by code points) and `sorted`, which is stable.
use Prim.Native.Nat.{ℕ, suc}
use Prim.Native.Char.{code}
use Prim.Native.String.{String}
use mathlib.Core.Path.{◌≡◌, refl, ap, ◌∙◌}
use mathlib.Core.Bool.{Bool, true, false, ◌&&◌, ◌||◌}
use mathlib.Core.Logic.{◌⊎◌, inl, inr}
use mathlib.Core.List.{List, [], ◌∷◌, Perm}
use mathlib.Core.List.Perm
use native.Mathlib.Omega.{arith}
use cortex_mem.Prelude.Tests.{ltb, nat_beq, if◌then◌else◌, Bool-cases}
use cortex_mem.Prelude.Lists.{In, length}

-- `a <= b` on str
unfoldable pub str_leb : String → String → Bool
str_leb String.[] t = true
str_leb (String.◌∷◌ c s) String.[] = false
str_leb (String.◌∷◌ c s) (String.◌∷◌ d t) =
    ltb (code c) (code d) || (nat_beq (code c) (code d) && str_leb s t)

pub str_leb_total : (s t : String) → str_leb s t ≡ false → str_leb t s ≡ true
unfolding str_leb
str_leb_total String.[] t h = ground arith
str_leb_total (String.◌∷◌ c s) String.[] h = refl
str_leb_total (String.◌∷◌ c s) (String.◌∷◌ d t) h = ground (arith, str_leb_total s t)

pub str_leb_trans : (s t u : String) → str_leb s t ≡ true → str_leb t u ≡ true → str_leb s u ≡ true
unfolding str_leb
str_leb_trans String.[] t u h k = refl
str_leb_trans (String.◌∷◌ c s) String.[] u h k = absurd (ground arith)
str_leb_trans (String.◌∷◌ c s) (String.◌∷◌ d t) String.[] h k = absurd (ground arith)
str_leb_trans (String.◌∷◌ c s) (String.◌∷◌ d t) (String.◌∷◌ e u) h k =
    ground (arith, str_leb_trans s t u)

-- A total order, given by its Boolean test.
pub record Order {ℓ} (A : Type ℓ) : Type ℓ where
  pub leq : A → A → Bool
  pub total : (a b : A) → leq a b ≡ false → leq b a ≡ true
  pub trans : (a b c : A) → leq a b ≡ true → leq b c ≡ true → leq a c ≡ true

abbrev pub str_order : Order String
str_order = record { leq = str_leb; total = str_leb_total; trans = str_leb_trans }

-- `key=lambda item: (f(item), g(item))`, a number and then a text
module _ {A : Type 0} (f : A → ℕ) (g : A → String) where
  abbrev pub pair_leb : A → A → Bool
  pair_leb a b = ltb (f a) (f b) || (nat_beq (f a) (f b) && str_leb (g a) (g b))

  pub pair_leb_total : (a b : A) → pair_leb a b ≡ false → pair_leb b a ≡ true
  pair_leb_total a b h = ground (arith, str_leb_total (g a) (g b))

  pub pair_leb_trans : (a b c : A) → pair_leb a b ≡ true → pair_leb b c ≡ true → pair_leb a c ≡ true
  pair_leb_trans a b c h k = ground (arith, str_leb_trans (g a) (g b) (g c))

  abbrev pub pair_order : Order A
  pair_order = record { leq = pair_leb; total = pair_leb_total; trans = pair_leb_trans }

module _ {A : Type 0} (o : Order A) where
  -- Places a value before the first one that is not below it.
  unfoldable pub insert : A → List A → List A
  insert a [] = a ∷ []
  insert a (x ∷ xs) = if o.leq a x then a ∷ x ∷ xs else x ∷ insert a xs

  -- `sorted(xs)`
  unfoldable pub sorted : List A → List A
  unfolding insert
  sorted [] = []
  sorted (x ∷ xs) = insert x (sorted xs)

  abbrev pub Below : A → List A → Type 0
  Below a [] = Unit
  Below a (x ∷ xs) = (o.leq a x ≡ true) × Below a xs

  abbrev pub IsSorted : List A → Type 0
  IsSorted [] = Unit
  IsSorted (x ∷ xs) = Below x xs × IsSorted xs

module _ {A : Type 0} (o : Order A) where
  Below-trans : (a b : A) (xs : List A) → o.leq a b ≡ true → Below o b xs → Below o a xs
  Below-trans a b [] h k = tt
  Below-trans a b (x ∷ xs) h k = (o.trans a b x h k.0, Below-trans a b xs h k.1)

  Below-insert :
      (a b : A) (xs : List A) → o.leq a b ≡ true → Below o a xs → Below o a (insert o b xs)
  unfolding insert
  Below-insert a b [] h k = (h, tt)
  Below-insert a b (x ∷ xs) h k = ground (arith, Below-insert a b xs)

  insert-IsSorted : (a : A) (xs : List A) → IsSorted o xs → IsSorted o (insert o a xs)
  unfolding insert
  insert-IsSorted a [] s = (tt, tt)
  insert-IsSorted a (x ∷ xs) s =
      ground (arith, o.total a x, Below-trans a x xs, Below-insert x a xs, insert-IsSorted a xs)

  pub sorted-IsSorted : (xs : List A) → IsSorted o (sorted o xs)
  unfolding sorted
  sorted-IsSorted [] = tt
  sorted-IsSorted (x ∷ xs) = insert-IsSorted x (sorted o xs) (sorted-IsSorted xs)

  insert-perm : (a : A) (xs : List A) → Perm (insert o a xs) (a ∷ xs)
  unfolding insert
  insert-perm a [] = Perm.refl (a ∷ [])
  insert-perm a (x ∷ xs) = elim (Bool-cases (o.leq a x)) [
    | inl le ↦ rw le (Perm.refl (a ∷ x ∷ xs))
    | inr gt ↦ rw gt (Perm.trans (Perm.cons x (insert-perm a xs)) (Perm.swap a x xs))
  ]

  -- Sorting loses no value and makes none.
  pub sorted-perm : (xs : List A) → Perm (sorted o xs) xs
  unfolding sorted
  sorted-perm [] = Perm.refl []
  sorted-perm (x ∷ xs) = Perm.trans (insert-perm x (sorted o xs)) (Perm.cons x (sorted-perm xs))

  pub In-insert : (b a : A) (xs : List A) → In b (insert o a xs) → (b ≡ a) ⊎ In b xs
  unfolding insert
  In-insert b a [] m = m
  In-insert b a (x ∷ xs) m = ground (arith, In-insert b a xs)

  In-of_insert : (b a : A) (xs : List A) → (b ≡ a) ⊎ In b xs → In b (insert o a xs)
  unfolding insert
  In-of_insert b a [] m = m
  In-of_insert b a (x ∷ xs) m = ground (arith, In-of_insert b a xs)

  pub In-sorted : (b : A) (xs : List A) → In b (sorted o xs) → In b xs
  unfolding sorted
  In-sorted b [] m = m
  In-sorted b (x ∷ xs) m = ground (arith, In-insert b x (sorted o xs), In-sorted b xs)

  pub In-of_sorted : (b : A) (xs : List A) → In b xs → In b (sorted o xs)
  unfolding sorted
  In-of_sorted b [] m = m
  In-of_sorted b (x ∷ xs) m = ground (arith, In-of_insert b x (sorted o xs), In-of_sorted b xs)

  length-insert : (a : A) (xs : List A) → length (insert o a xs) ≡ suc (length xs)
  unfolding insert
  length-insert a [] = refl
  length-insert a (x ∷ xs) = ground (arith, length-insert a xs)

  pub length-sorted : (xs : List A) → length (sorted o xs) ≡ length xs
  unfolding sorted
  length-sorted [] = refl
  length-sorted (x ∷ xs) = length-insert x (sorted o xs) ∙ ap suc (length-sorted xs)
