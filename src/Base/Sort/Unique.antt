-- ===== src/Base/Sort/Unique.antt =====
-- A list has one ordered arrangement under an order in which two values that may precede each
-- other are equal.
use mathlib.Core.List.{
  List, [], ◌∷◌, Perm, Pairwise, Mem, mem-cons_self, mem-cons_of_mem, forall_mem-cons,
}
use mathlib.Core.List.Perm
use mathlib.Core.List.Pairwise
use mathlib.Core.Path.{◌≡◌, ap₂, subst}

module _ {A : Type 0} (R : A → A → Type 0) (prop : (a b : A) → IsProp (R a b))
    (every : (a : A) → R a a) where
  head_first : {a b : A} {xs ys : List A} → Pairwise R (a ∷ xs) → Perm (b ∷ ys) (a ∷ xs) → R a b
  head_first {a} {b} (Pairwise.cons below s) p =
      (forall_mem-cons (prop a)).1 (every a, below) b ((Perm.mem_iff p).0 mem-cons_self)

  -- It is enough that this holds of the values in the list.
  pub ordered_unique_on :
      {xs ys : List A}
      → ((a b : A) → Mem a xs → Mem b xs → R a b → R b a → a ≡ b)
      → Pairwise R xs
      → Pairwise R ys
      → Perm xs ys
      → xs ≡ ys
  ordered_unique_on {xs = []} antisymm s t p = Perm.nil-eq p
  ordered_unique_on {xs = a ∷ xs} {ys = []} antisymm s t p = Perm.eq-nil p
  ordered_unique_on {xs = a ∷ xs} {ys = b ∷ ys} antisymm s t p =
      let same =
        antisymm a b mem-cons_self ((Perm.mem_iff (Perm.symm p)).0 mem-cons_self)
          (head_first s (Perm.symm p)) (head_first t p) in
      let aligned = subst (λ c. Perm (c ∷ xs) (b ∷ ys)) same p in
      let rest =
        ordered_unique_on {xs = xs}
          (λ x y mx my. antisymm x y (mem-cons_of_mem a mx) (mem-cons_of_mem a my))
          (Pairwise.of_cons s) (Pairwise.of_cons t) (Perm.cons_inv aligned) in
      ap₂ ◌∷◌ same rest

  pub ordered_unique :
      ((a b : A) → R a b → R b a → a ≡ b)
      → {xs ys : List A} → Pairwise R xs
      → Pairwise R ys
      → Perm xs ys
      → xs ≡ ys
  ordered_unique antisymm = ordered_unique_on (λ a b _ _. antisymm a b)
