-- ===== src/Fs/MapFs/Paths.antt =====
-- The paths of what is in a directory of a `MapFS`.
use opengpm.Base.{
  ℕ, [], ◌∷◌, ◌++◌, ◌≡◌, refl, sym, ap, ◌∙◌, append_assoc, Bool, true, false, ◌&&◌, Bool-cases, inl,
  inr, Option, none, some, Option-cases, arith,
}
use opengpm.Text.{Bytes, Lacks, codes, equal, equal_iff}
use opengpm.Text.Search.{index_byte, index_byte-Lacks, has_prefix, cut_before}
use opengpm.Text.Space.{strip_prefix}
use opengpm.Fs.Walk.{join_path}
use opengpm.Fs.MapFs.{here, deeper, child_of, below, is_root, child}
use opengpm.Fs.MapFs.Children.{is_here, is_deeper, equal_comm}

abbrev pub in_rest : (Bytes → Bool) → Option Bytes → Bool
in_rest q none = false
in_rest q (some rest) = q rest

equal-strip_prefix :
    (p s e : Bytes) → equal s (p ++ e) ≡ in_rest (λ r. equal r e) (strip_prefix p s)
unfolding strip_prefix equal
equal-strip_prefix [] s e = refl
equal-strip_prefix (x ∷ p) [] e = refl
equal-strip_prefix (x ∷ p) (c ∷ s) e = ground (arith, equal-strip_prefix p s e)

pub has_prefix-strip_prefix :
    (p s q : Bytes) → has_prefix s (p ++ q) ≡ in_rest (λ r. has_prefix r q) (strip_prefix p s)
unfolding strip_prefix has_prefix
has_prefix-strip_prefix [] s q = refl
has_prefix-strip_prefix (x ∷ p) [] q = refl
has_prefix-strip_prefix (x ∷ p) (c ∷ s) q = ground (arith, has_prefix-strip_prefix p s q)

abbrev found : Option ℕ → Bool
found none = false
found (some i) = true

has_prefix-cut_before :
    (e rest : Bytes)
    → Lacks b'/' e
    → has_prefix rest (e ++ b'/' ∷ [])
      ≡ (found (index_byte rest b'/') && equal (cut_before b'/' rest) e)
unfolding has_prefix index_byte cut_before equal
has_prefix-cut_before [] [] single = refl
has_prefix-cut_before (x ∷ e) [] single = refl
has_prefix-cut_before [] (c ∷ rest) single = ground (arith, Option-cases (index_byte rest b'/'))
has_prefix-cut_before (x ∷ e) (c ∷ rest) (other, single) =
    let below = has_prefix-cut_before e rest single in
    ground (arith, Option-cases (index_byte rest b'/'))

child_of-here : (rest : Bytes) → index_byte rest b'/' ≡ none → child_of rest ≡ here rest
unfolding child_of
child_of-here rest h = rw (h, child_of) refl

child_of-deeper :
    (rest : Bytes) {i : ℕ}
    → index_byte rest b'/' ≡ some i
    → child_of rest ≡ deeper (cut_before b'/' rest)
unfolding child_of
child_of-deeper rest h = rw (h, child_of) refl

pub child-none : (name path : Bytes) → below name path ≡ none → child name path ≡ none
unfolding child
child-none name path h = rw (h, child) refl

pub child-some :
    (name path : Bytes) {rest : Bytes}
    → below name path ≡ some rest
    → child name path ≡ some (child_of rest)
unfolding child
child-some name path h = rw (h, child) refl

module _ (e : Bytes) (single : Lacks b'/' e) where
  is_here-child_of : (rest : Bytes) → is_here e (some (child_of rest)) ≡ equal rest e
  is_here-child_of rest = elim (Option-cases (index_byte rest b'/')) [
    | inl h ↦ ap (λ c. is_here e (some c)) (child_of-here rest h)
    | inr (i, h) ↦
        ap (λ c. is_here e (some c)) (child_of-deeper rest h)
        ∙ sym (elim (Bool-cases (equal rest e)) [
          | inl same ↦ absurd (cc (h, index_byte-Lacks e b'/' single, (equal_iff rest e).0 same))
          | inr other ↦ other
        ])
  ]

  is_deeper-child_of :
      (rest : Bytes) → is_deeper e (some (child_of rest)) ≡ has_prefix rest (e ++ b'/' ∷ [])
  is_deeper-child_of rest = elim (Option-cases (index_byte rest b'/')) [
    | inl h ↦
        ap (λ c. is_deeper e (some c)) (child_of-here rest h)
        ∙ sym (
            has_prefix-cut_before e rest single
            ∙ ap (λ o. found o && equal (cut_before b'/' rest) e) h)
    | inr (i, h) ↦
        ap (λ c. is_deeper e (some c)) (child_of-deeper rest h)
        ∙ sym (
            has_prefix-cut_before e rest single
            ∙ ap (λ o. found o && equal (cut_before b'/' rest) e) h)
  ]

  module _ (name path : Bytes) where
    is_here-below :
        (o : Option Bytes)
        → below name path ≡ o
        → is_here e (child name path) ≡ in_rest (λ r. equal r e) o
    is_here-below none h = ap (is_here e) (child-none name path h)
    is_here-below (some rest) h = ap (is_here e) (child-some name path h) ∙ is_here-child_of rest

    is_deeper-below :
        (o : Option Bytes)
        → below name path ≡ o
        → is_deeper e (child name path) ≡ in_rest (λ r. has_prefix r (e ++ b'/' ∷ [])) o
    is_deeper-below none h = ap (is_deeper e) (child-none name path h)
    is_deeper-below (some rest) h =
        ap (is_deeper e) (child-some name path h) ∙ is_deeper-child_of rest

-- What is below the root, and below another directory.
below-root_root :
    (name path : Bytes) → is_root name ≡ true → is_root path ≡ true → below name path ≡ none
unfolding below
below-root_root name path h g = rw (h, g) refl

below-root :
    (name path : Bytes) → is_root name ≡ true → is_root path ≡ false → below name path ≡ some path
unfolding below
below-root name path h g = rw (h, g) refl

pub below-other :
    (name path : Bytes)
    → is_root name ≡ false
    → below name path ≡ strip_prefix (name ++ b'/' ∷ []) path
unfolding below
below-other name path h = rw h refl

join_path-root : (name e : Bytes) → is_root name ≡ true → join_path name e ≡ e
unfolding join_path
join_path-root name e h = rw h refl

join_path-other :
    (name e : Bytes) → is_root name ≡ false → join_path name e ≡ (name ++ b'/' ∷ []) ++ e
unfolding join_path
join_path-other name e h = rw h (sym (append_assoc name (b'/' ∷ []) e))

has_prefix-dot : (e : Bytes) → has_prefix (codes ".") (e ++ b'/' ∷ []) ≡ false
unfolding has_prefix
has_prefix-dot [] = refl
has_prefix-dot (x ∷ []) = ground arith
has_prefix-dot (x ∷ y ∷ e) = ground arith

module _ (name e : Bytes) (single : Lacks b'/' e) (no_root : is_root e ≡ false) where
  -- The code's tests of a path, by what the path is.
  pub is_here-equal : (path : Bytes) → is_here e (child name path) ≡ equal path (join_path name e)
  is_here-equal path = elim (Bool-cases (is_root name)) [
    | inl at_root ↦ elim (Bool-cases (is_root path)) [
      | inl dot ↦
          is_here-below e single name path none (below-root_root name path at_root dot)
          ∙ sym (
              ap (λ s. equal s (join_path name e)) ((equal_iff path (codes ".")).0 dot)
              ∙ ap (equal (codes ".")) (join_path-root name e at_root)
              ∙ equal_comm (codes ".") e
              ∙ no_root)
      | inr below_dot ↦
          is_here-below e single name path (some path) (below-root name path at_root below_dot)
          ∙ ap (equal path) (sym (join_path-root name e at_root))
    ]
    | inr other ↦
        is_here-below e single name path (strip_prefix (name ++ b'/' ∷ []) path)
          (below-other name path other)
        ∙ sym (equal-strip_prefix (name ++ b'/' ∷ []) path e)
        ∙ ap (equal path) (sym (join_path-other name e other))
  ]

  pub is_deeper-has_prefix :
      (path : Bytes)
      → is_deeper e (child name path) ≡ has_prefix path (join_path name e ++ b'/' ∷ [])
  is_deeper-has_prefix path = elim (Bool-cases (is_root name)) [
    | inl at_root ↦ elim (Bool-cases (is_root path)) [
      | inl dot ↦
          is_deeper-below e single name path none (below-root_root name path at_root dot)
          ∙ sym (
              ap (λ s. has_prefix s (join_path name e ++ b'/' ∷ []))
                ((equal_iff path (codes ".")).0 dot)
              ∙ has_prefix-dot (join_path name e))
      | inr below_dot ↦
          is_deeper-below e single name path (some path) (below-root name path at_root below_dot)
          ∙ ap (λ s. has_prefix path (s ++ b'/' ∷ [])) (sym (join_path-root name e at_root))
    ]
    | inr other ↦
        is_deeper-below e single name path (strip_prefix (name ++ b'/' ∷ []) path)
          (below-other name path other)
        ∙ sym (has_prefix-strip_prefix (name ++ b'/' ∷ []) path (e ++ b'/' ∷ []))
        ∙ ap (has_prefix path) (
            sym (append_assoc (name ++ b'/' ∷ []) e (b'/' ∷ []))
            ∙ ap (λ s. s ++ b'/' ∷ []) (sym (join_path-other name e other)))
  ]
