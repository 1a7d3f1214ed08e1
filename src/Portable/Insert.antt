-- ===== src/Portable/Insert.antt =====
-- Rows of which no two clash: an INSERT of them all succeeds, in any order.
use mathlib.Core.List.{append_assoc, append-nil}
use cortex_mem.Prelude.{
  String, ◌≡◌, refl, sym, ap, ◌∙◌, subst, inl, inr, Bool, false, List, [], ◌∷◌, ◌++◌, map, any, In,
  In-map_inv, In-append_left, In-append_right, Bool-cases,
}
use cortex_mem.Prelude.Order.{Order, insert, sorted, In-insert, In-sorted}
use cortex_mem.Errors.{ok}
use cortex_mem.Portable.Restore.{insert_many}

module _ {A : Type 0} (clash : A → A → Bool) where
  -- No row clashes with one before it.
  abbrev pub Apart : List A → Type 0
  Apart [] = Unit
  Apart (x ∷ xs) = ((y : A) → In y xs → clash y x ≡ false) × Apart xs

  pub Apart-middle :
      (xs : List A) (y : A) (ys : List A)
      → Apart (xs ++ y ∷ ys)
      → (a : A) → In a xs
      → clash y a ≡ false
  Apart-middle [] y ys h a m = absurd m
  Apart-middle (x ∷ xs) y ys h a (inl e) = rw e (h.0 y (In-append_right y xs (y ∷ ys) (inl refl)))
  Apart-middle (x ∷ xs) y ys h a (inr m) = Apart-middle xs y ys h.1 a m

  pub Apart-left : (xs ys : List A) → Apart (xs ++ ys) → Apart xs
  Apart-left [] ys h = tt
  Apart-left (x ∷ xs) ys h = (λ y m. h.0 y (In-append_left y xs ys m), Apart-left xs ys h.1)

  any-Apart :
      (y : A) (xs : List A) → ((a : A) → In a xs → clash y a ≡ false) → any (clash y) xs ≡ false
  unfolding any
  any-Apart y [] h = refl
  any-Apart y (x ∷ xs) h = rw (h x (inl refl)) (any-Apart y xs (λ a m. h a (inr m)))

  pub insert_many-ok :
      (table : String) (xs rows : List A)
      → Apart (rows ++ xs)
      → insert_many clash table xs rows ≡ ok (rows ++ xs)
  unfolding insert_many
  insert_many-ok table [] rows h = ap ok (sym (append-nil rows))
  insert_many-ok table (x ∷ xs) rows h =
      let assoc = append_assoc rows (x ∷ []) xs in
      rw (any-Apart x rows (Apart-middle rows x xs h))
        (insert_many-ok table xs (rows ++ x ∷ []) (subst Apart (sym assoc) h) ∙ ap ok assoc)

  module _ (clash_comm : (a b : A) → clash a b ≡ clash b a) (o : Order A) where
    Apart-insert :
        (a : A) (xs : List A)
        → ((y : A) → In y xs → clash y a ≡ false)
        → Apart xs
        → Apart (insert o a xs)
    unfolding insert
    Apart-insert a [] h apart = (h, tt)
    Apart-insert a (x ∷ xs) h apart = elim (Bool-cases (o.leq a x)) [
      | inl le ↦ rw le (h, apart)
      | inr gt ↦ rw gt (
        λ y m. elim (In-insert o y a xs m) [
          | inl e ↦ rw e (clash_comm a x ∙ h x (inl refl))
          | inr k ↦ apart.0 y k
        ],
        Apart-insert a xs (λ y m. h y (inr m)) apart.1,
      )
    ]

    pub sorted-Apart : (xs : List A) → Apart xs → Apart (sorted o xs)
    unfolding sorted
    sorted-Apart [] h = tt
    sorted-Apart (x ∷ xs) h =
        Apart-insert x (sorted o xs) (λ y m. h.0 y (In-sorted o y xs m)) (sorted-Apart xs h.1)

pub Apart-map :
    {A B : Type 0} (f : A → B) (clash : B → B → Bool) (xs : List A)
    → Apart (λ a b. clash (f a) (f b)) xs
    → Apart clash (map f xs)
Apart-map f clash [] h = tt
Apart-map f clash (x ∷ xs) h =
    (λ y m. let (a, k, e) = In-map_inv f y xs m in rw e (h.0 a k), Apart-map f clash xs h.1)
