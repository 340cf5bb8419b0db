-- ===== src/Base/Sorting.antt =====
-- `sorted` by an order that is given by its Boolean test: the result is in order, and has the same
-- items.
use Prim.Native.Nat.{suc}
use mathlib.Core.Path.{◌≡◌, refl, ap, ◌∙◌}
use mathlib.Core.Bool.{Bool, true, false, ◌&&◌}
use mathlib.Core.List.{List, [], ◌∷◌, Perm}
use mathlib.Core.List.Perm
use mathlib.Core.Logic.{inl, inr}
use native.Mathlib.Omega.{arith}
use task_mesh.Base.Tests.{if◌then◌else◌, Bool-cases}
use task_mesh.Base.Lists.{length}

module _ {A : Type 0} (leq : A → A → Bool) where
  unfoldable pub insert : A → List A → List A
  insert x [] = x ∷ []
  insert x (y ∷ ys) = if leq x y then x ∷ y ∷ ys else y ∷ insert x ys

  unfoldable pub sorted : List A → List A
  unfolding insert
  sorted [] = []
  sorted (x ∷ xs) = insert x (sorted xs)

  abbrev pub before_all : A → List A → Bool
  before_all x [] = true
  before_all x (y ∷ ys) = leq x y && before_all x ys

  abbrev pub is_sorted : List A → Bool
  is_sorted [] = true
  is_sorted (x ∷ xs) = before_all x xs && is_sorted xs

  insert-Perm : (x : A) (xs : List A) → Perm (insert x xs) (x ∷ xs)
  unfolding insert
  insert-Perm x [] = Perm.refl _
  insert-Perm x (y ∷ ys) = elim (Bool-cases (leq x y)) [
    | inl e ↦ rw e (Perm.refl _)
    | inr e ↦ rw e (Perm.trans (Perm.cons y (insert-Perm x ys)) (Perm.swap _ _ _))
  ]

  pub sorted-Perm : (xs : List A) → Perm (sorted xs) xs
  unfolding sorted
  sorted-Perm [] = Perm.refl []
  sorted-Perm (x ∷ xs) = Perm.trans (insert-Perm x (sorted xs)) (Perm.cons x (sorted-Perm xs))

  length-insert : (x : A) (xs : List A) → length (insert x xs) ≡ suc (length xs)
  unfolding insert
  length-insert x [] = refl
  length-insert x (y ∷ ys) = ground (arith, length-insert x ys)

  pub length-sorted : (xs : List A) → length (sorted xs) ≡ length xs
  unfolding sorted
  length-sorted [] = refl
  length-sorted (x ∷ xs) = length-insert x (sorted xs) ∙ ap suc (length-sorted xs)

  module _ (total : (x y : A) → leq x y ≡ false → leq y x ≡ true)
      (transitive : (x y z : A) → leq x y ≡ true → leq y z ≡ true → leq x z ≡ true) where
    before_all_trans :
        (x y : A) (ys : List A) → leq x y ≡ true → before_all y ys ≡ true → before_all x ys ≡ true
    before_all_trans x y [] h k = refl
    before_all_trans x y (z ∷ zs) h k = ground (arith, before_all_trans x y zs, transitive x y z)

    before_all-insert :
        (x y : A) (ys : List A) → before_all x (insert y ys) ≡ (leq x y && before_all x ys)
    unfolding insert
    before_all-insert x y [] = refl
    before_all-insert x y (z ∷ zs) = ground (arith, before_all-insert x y zs)

    insert_sorts : (x : A) (xs : List A) → is_sorted xs ≡ true → is_sorted (insert x xs) ≡ true
    unfolding insert
    insert_sorts x [] h = refl
    insert_sorts x (y ∷ ys) h =
        ground
          (arith, insert_sorts x ys, before_all-insert y x ys, total x y, before_all_trans x y ys)

    pub sorted_in_order : (xs : List A) → is_sorted (sorted xs) ≡ true
    unfolding sorted
    sorted_in_order [] = refl
    sorted_in_order (x ∷ xs) = insert_sorts x (sorted xs) (sorted_in_order xs)
