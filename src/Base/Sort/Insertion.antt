-- ===== src/Base/Sort/Insertion.antt =====
-- Insertion sort meets the interface.
use mathlib.Core.List.{List, [], ◌∷◌, Perm, Pairwise, Mem, Pairwise-singleton, forall_mem-cons}
use mathlib.Core.List.Perm
use mathlib.Core.Bool.{Bool, false}
use mathlib.Core.Logic.{inl, inr}
use opengpm.Base.Sort.{MayPrecede, IsWeakOrder, Sorter}
use opengpm.Base.Tests.{Bool-set, if◌then◌else◌, Bool-cases}

module _ {A : Type 0} (less : A → A → Bool) where
  insert : A → List A → List A
  insert x [] = x ∷ []
  insert x (y ∷ ys) = if less x y then x ∷ y ∷ ys else y ∷ insert x ys

  unfoldable pub insertion_sort : List A → List A
  unfolding insert
  insertion_sort [] = []
  insertion_sort (x ∷ xs) = insert x (insertion_sort xs)

  insert-perm : (x : A) (ys : List A) → Perm (insert x ys) (x ∷ ys)
  unfolding insert
  insert-perm x [] = Perm.rfl
  insert-perm x (y ∷ ys) = elim (Bool-cases (less x y)) [
    | inl e ↦ rw e Perm.rfl
    | inr e ↦ rw e (Perm.trans (Perm.cons y (insert-perm x ys)) (Perm.swap x y ys))
  ]

  pub insertion_sort-perm : (xs : List A) → Perm (insertion_sort xs) xs
  unfolding insertion_sort
  insertion_sort-perm [] = Perm.rfl
  insertion_sort-perm (x ∷ xs) =
      Perm.trans (insert-perm x (insertion_sort xs)) (Perm.cons x (insertion_sort-perm xs))

  module _ (o : IsWeakOrder less) where
    -- Whatever may precede the whole of `xs` may precede a rearrangement of it.
    below_perm :
        {a : A} {xs ys : List A}
        → Perm xs ys
        → ((b : A) → Mem b ys → MayPrecede less a b)
        → (b : A) → Mem b xs
        → MayPrecede less a b
    below_perm p h b m = h b ((Perm.mem_iff p).0 m)

    below_cons :
        {a y : A} {ys : List A}
        → MayPrecede less a y
        → ((b : A) → Mem b ys → MayPrecede less a b)
        → (b : A) → Mem b (y ∷ ys)
        → MayPrecede less a b
    below_cons {a} p h = (forall_mem-cons (λ b. Bool-set (less b a) false)).1 (p, h)

    insert_ordered :
        (x : A) {ys : List A}
        → Pairwise (MayPrecede less) ys
        → Pairwise (MayPrecede less) (insert x ys)
    unfolding insert
    insert_ordered x Pairwise.nil = Pairwise-singleton _ x
    insert_ordered x (Pairwise.cons {a = y} {l = ys} below s) = elim (Bool-cases (less x y)) [
      | inl e ↦
          let p = o.total x y e in
          rw e (
            Pairwise.cons (below_cons p (λ b m. o.trans x y b p (below b m)))
              (Pairwise.cons below s))
      | inr e ↦
          rw e (
            Pairwise.cons (below_perm (insert-perm x ys) (below_cons e below)) (insert_ordered x s))
    ]

    pub insertion_sort_ordered : (xs : List A) → Pairwise (MayPrecede less) (insertion_sort xs)
    unfolding insertion_sort
    insertion_sort_ordered [] = Pairwise.nil
    insertion_sort_ordered (x ∷ xs) = insert_ordered x (insertion_sort_ordered xs)

abbrev pub insertion_sorter : (A : Type 0) → Sorter A
insertion_sorter A = record {
  sort = insertion_sort;
  sort-perm = insertion_sort-perm;
  sort_ordered = λ less xs o. insertion_sort_ordered less o xs;
}
