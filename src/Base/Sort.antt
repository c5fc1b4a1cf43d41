-- ===== src/Base/Sort.antt =====
-- What Go's `slices.SortFunc` and `sort.Slice` promise, as an interface: neither is stable, and a
-- client may rely on no more than this. Insertion sort is an instance, so the interface can be met.
pub mod Insertion
pub mod Unique
use mathlib.Core.Path.{◌≡◌}
use mathlib.Core.Bool.{Bool, true, false}
use mathlib.Core.List.{List, Perm, Pairwise}

module _ {A : Type 0} (less : A → A → Bool) where
  -- `b` is not less than `a`, so `a` may stand before it.
  abbrev pub MayPrecede : A → A → Type 0
  MayPrecede a b = less b a ≡ false

  -- What a sort needs of the test: a strict weak order.
  pub record IsWeakOrder : Type 0 where
    pub trans : (a b c : A) → MayPrecede a b → MayPrecede b c → MayPrecede a c
    pub total : (a b : A) → less a b ≡ true → MayPrecede a b

pub record Sorter (A : Type 0) : Type 0 where
  pub sort : (A → A → Bool) → List A → List A
  pub sort-perm : (less : A → A → Bool) (xs : List A) → Perm (sort less xs) xs
  pub sort_ordered :
      (less : A → A → Bool) (xs : List A)
      → IsWeakOrder less
      → Pairwise (MayPrecede less) (sort less xs)
