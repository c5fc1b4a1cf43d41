-- ===== src/Fs/MapFs/Opening.antt =====
-- When `MapFS` has a directory that is no key of its map.
use opengpm.Base.{
  List, [], ◌∷◌, ◌++◌, any, ◌≡◌, refl, sym, ap, ◌∙◌, append-nil, Bool, true, false, not, ◌&&◌,
  Option, none, some, Option-cases, inl, inr, arith,
}
use opengpm.Text.{Bytes}
use opengpm.Text.Search.{has_prefix}
use opengpm.Text.Space.{strip_prefix}
use opengpm.Fs.MapFs.{
  MapFile, MapInfo, Child, here, deeper, is_root, child, with_info, direct, add, with_need, needed,
  is_nil,
}
use opengpm.Fs.MapFs.Paths.{in_rest, has_prefix-strip_prefix, below-other, child-none, child-some}

abbrev is_child : Option Child → Bool
is_child none = false
is_child (some c) = true

is_nil-add : (e : Bytes) (need : List Bytes) → is_nil (add e need) ≡ false
is_nil-add e [] = refl
is_nil-add e (d ∷ need) = ground arith

-- A path below the directory leaves something in the list or in the set.
none_left :
    (f : MapFile) (c : Option Child) (list : List MapInfo) (need : List Bytes)
    → (is_nil (with_info f c list) && is_nil (with_need c need))
      ≡ (not (is_child c) && (is_nil list && is_nil need))
none_left f none list need = refl
none_left f (some (here e)) list need = refl
none_left f (some (deeper e)) list need = rw (is_nil-add e need) (ground arith)

module _ (name : Bytes) (other : is_root name ≡ false) where
  is_child-has_prefix :
      (path : Bytes) → is_child (child name path) ≡ has_prefix path (name ++ b'/' ∷ [])
  unfolding has_prefix
  is_child-has_prefix path =
      is_child-strip_prefix
      ∙ sym (has_prefix-strip_prefix (name ++ b'/' ∷ []) path [])
      ∙ ap (has_prefix path) (append-nil (name ++ b'/' ∷ []))
    where
      is_child-strip_prefix :
          is_child (child name path)
          ≡ in_rest (λ r. has_prefix r []) (strip_prefix (name ++ b'/' ∷ []) path)
      is_child-strip_prefix = elim (Option-cases (strip_prefix (name ++ b'/' ∷ []) path)) [
        | inl h ↦
            ap is_child (child-none name path (below-other name path other ∙ h))
            ∙ sym (ap (in_rest (λ r. has_prefix r [])) h)
        | inr (rest, h) ↦
            ap is_child (child-some name path (below-other name path other ∙ h))
            ∙ sym (ap (in_rest (λ r. has_prefix r [])) h)
      ]

  pub is_nil-has_prefix :
      (m : List (Bytes × MapFile))
      → (is_nil (direct name m) && is_nil (needed name m))
        ≡ not (any (λ pf. has_prefix pf.0 (name ++ b'/' ∷ [])) m)
  unfolding direct needed
  is_nil-has_prefix [] = refl
  is_nil-has_prefix ((path, f) ∷ m) =
      none_left f (child name path) (direct name m) (needed name m)
      ∙ rw (is_child-has_prefix path, is_nil-has_prefix m) (ground arith)
