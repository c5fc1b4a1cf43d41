-- ===== src/Fs/MapFs/Children.antt =====
-- How often a name is in the list of a directory of a `MapFS`.
use mathlib.Core.Path.{subst}
use mathlib.Core.List.{Perm, Permᴰ}
use opengpm.Base.{
  ℕ, List, [], ◌∷◌, ◌++◌, any, ◌≡◌, ◌≤◌, refl, sym, ap, ◌∙◌, Bool, true, false, ◌||◌, Bool-cases,
  inl, inr, Option, none, some, if◌then◌else◌, arith, ◌+◌,
}
use opengpm.Text.{Bytes, equal, equal_iff}
use opengpm.Fs.MapFs.{
  MapFile, MapInfo, Child, here, deeper, child, with_info, direct, with_need, needed, delete,
  delete_all,
}

unfoldable pub count : {A : Type 0} → (A → Bool) → List A → ℕ
count p [] = 0
count p (x ∷ xs) = let rest = count p xs in if p x then 1 + rest else rest

abbrev pub once : Bool → ℕ
once b = if b then 1 else 0

pub count-append :
    {A : Type 0} (p : A → Bool) (xs ys : List A) → count p (xs ++ ys) ≡ count p xs + count p ys
unfolding count
count-append p [] ys = omega arith
count-append p (x ∷ xs) ys = ground (arith, count-append p xs ys)

count-Permᴰ : {A : Type 0} (p : A → Bool) {xs ys : List A} → Permᴰ xs ys → count p xs ≡ count p ys
unfolding count
count-Permᴰ p Permᴰ.nil = refl
count-Permᴰ p (Permᴰ.cons e d) = rw (e, count-Permᴰ p d) refl
count-Permᴰ p (Permᴰ.swap {a} {b} e g) = rw (e, g) (ground arith)
count-Permᴰ p (Permᴰ.trans d e) = count-Permᴰ p d ∙ count-Permᴰ p e

pub count-perm : {A : Type 0} (p : A → Bool) {xs ys : List A} → Perm xs ys → count p xs ≡ count p ys
count-perm p {xs} {ys} = ∥∥₁_rec (hlevel) (count-Permᴰ p)

-- Whether a path is that of the file `e`, or below the directory `e`, of the directory `name`.
abbrev pub is_here : Bytes → Option Child → Bool
is_here e (some (here d)) = equal d e
is_here e (some (deeper d)) = false
is_here e none = false

abbrev pub is_deeper : Bytes → Option Child → Bool
is_deeper e (some (deeper d)) = equal d e
is_deeper e (some (here d)) = false
is_deeper e none = false

abbrev pub has_name : Bytes → MapInfo → Bool
has_name e x = equal x.name_of e

pub equal_comm : (s t : Bytes) → equal s t ≡ equal t s
equal_comm s t = elim (Bool-cases (equal s t)) [
  | inl a ↦ a ∙ sym ((equal_iff t s).1 (sym ((equal_iff s t).0 a)))
  | inr a ↦ elim (Bool-cases (equal t s)) [
    | inl b ↦ absurd (cc ((equal_iff s t).1 (sym ((equal_iff t s).0 b))))
    | inr b ↦ a ∙ sym b
  ]
]

module _ (e : Bytes) where
  any-with_info :
      (f : MapFile) (c : Option Child) (list : List MapInfo)
      → any (has_name e) (with_info f c list) ≡ (is_here e c || any (has_name e) list)
  any-with_info f (some (here d)) list = refl
  any-with_info f (some (deeper d)) list = refl
  any-with_info f none list = refl

  -- Sets of names, as lists that hold a name once.
  count-any :
      (need : List Bytes)
      → (any (equal e) need ≡ false → count (λ d. equal d e) need ≡ 0)
        × (any (equal e) need ≡ true → 1 ≤ count (λ d. equal d e) need)
  unfolding count
  count-any [] = (λ _. refl, λ h. absurd (cc))
  count-any (b ∷ need) =
      let rest = count-any need in
      let same = equal_comm e b in (λ h. ground (arith), λ h. ground (arith))

  count-with_need :
      (c : Option Child) (need : List Bytes) (b : Bool)
      → count (λ d. equal d e) need ≡ once b
      → count (λ d. equal d e) (with_need c need) ≡ once (is_deeper e c || b)
  unfolding count
  count-with_need (some (deeper d)) need b h = elim (Bool-cases (equal d e)) [
    | inl same ↦
        let joined = (equal_iff d e).0 same in
        let held =
          subst
            (λ x.
              (any (equal x) need ≡ false → count (λ y. equal y e) need ≡ 0)
              × (any (equal x) need ≡ true → 1 ≤ count (λ y. equal y e) need))
            (sym joined) (count-any need) in
        ground arith
    | inr other ↦ ground arith
  ]
  count-with_need (some (here d)) need b h = h
  count-with_need none need b h = h

  count-delete :
      (d : Bytes) (need : List Bytes)
      → count (λ b. equal b e) (delete d need)
        ≡ (if equal d e then 0 else count (λ b. equal b e) need)
  unfolding count delete
  count-delete d [] = ground arith
  count-delete d (b ∷ need) =
      ground (arith, count-delete d need, equal_iff d e, equal_iff d b, equal_iff b e)

  pub count-delete_all :
      (list : List MapInfo) (need : List Bytes)
      → count (λ d. equal d e) (delete_all list need)
        ≡ (if any (has_name e) list then 0 else count (λ d. equal d e) need)
  unfolding delete_all
  count-delete_all [] need = refl
  count-delete_all (x ∷ list) need =
      ground (arith, count-delete_all list (delete x.name_of need), count-delete x.name_of need)

  module _ (name : Bytes) where
    pub any-direct :
        (m : List (Bytes × MapFile))
        → any (has_name e) (direct name m) ≡ any (λ pf. is_here e (child name pf.0)) m
    unfolding direct
    any-direct [] = refl
    any-direct ((path, f) ∷ m) =
        any-with_info f (child name path) (direct name m)
        ∙ ap (λ b. is_here e (child name path) || b) (any-direct m)

    pub count-needed :
        (m : List (Bytes × MapFile))
        → count (λ d. equal d e) (needed name m)
          ≡ once (any (λ pf. is_deeper e (child name pf.0)) m)
    unfolding needed count
    count-needed [] = refl
    count-needed ((path, f) ∷ m) =
        count-with_need (child name path) (needed name m)
          (any (λ pf. is_deeper e (child name pf.0)) m) (count-needed m)
