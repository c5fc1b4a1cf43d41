-- ===== src/Fs/MapFs/Listing.antt =====
-- What `MapFS` lists of a directory: each file in it and each directory in it, once and by name.
use mathlib.Core.Path.{subst}
use mathlib.Core.List.{Pairwise}
use opengpm.Base.{
  List, [], ◌∷◌, ◌++◌, map, any, All, ◌≡◌, ◌≢◌, refl, ◌∙◌, Bool, false, not, ◌&&◌, Bool-cases, inl,
  inr, Option, none, some, if◌then◌else◌, arith, ◌+◌,
}
use opengpm.Base.Sort.{Sorter, IsWeakOrder}
use opengpm.Text.{Bytes, Lacks, equal, equal_iff}
use opengpm.Text.Search.{has_prefix}
use opengpm.Transport.Discover.Compare.{TextLe, TextLe-trans, TextLe-total}
use opengpm.Fs.Walk.{join_path}
use opengpm.Fs.MapFs.{
  MapFile, MapInfo, Child, here, deeper, is_root, child, with_info, direct, needed, delete_all,
  implied, less_info, dir_list,
}
use opengpm.Fs.MapFs.Children.{
  count, once, count-append, count-perm, is_here, any-direct, count-needed, count-delete_all,
}
use opengpm.Fs.MapFs.Paths.{is_here-equal, is_deeper-has_prefix}

-- The name of a file, and that of a directory.
abbrev pub has_file : Bytes → MapInfo → Bool
has_file e x = equal x.name_of e && not x.file.is_dir

abbrev pub has_dir : Bytes → MapInfo → Bool
has_dir e x = equal x.name_of e && x.file.is_dir

-- No two keys are the same; no file is a directory.
abbrev pub Distinct : {A : Type 0} → List (Bytes × A) → Type 0
Distinct [] = Unit
Distinct ((path, x) ∷ m) = All (λ pf. pf.0 ≢ path) m × Distinct m

abbrev pub ArePlain : List (Bytes × MapFile) → Type 0
ArePlain = All (λ pf. pf.1.is_dir ≡ false)

any-ext : {A : Type 0} {p q : A → Bool} (xs : List A) → ((x : A) → p x ≡ q x) → any p xs ≡ any q xs
any-ext [] h = refl
any-ext (x ∷ xs) h = rw (h x, any-ext xs h) refl

any-other :
    {A : Type 0} (path : Bytes) (m : List (Bytes × A))
    → All (λ pf. pf.0 ≢ path) m
    → any (λ pf. equal pf.0 path) m ≡ false
any-other path [] h = refl
any-other path ((p, x) ∷ m) (other, h) = ground (arith, equal_iff p path, any-other path m h)

-- A file of the map has its name once in the list; a name is that of an implied directory else.
module _ (e : Bytes) where
  count-with_info :
      (f : MapFile) (c : Option Child) (list : List MapInfo)
      → f.is_dir ≡ false
      → count (has_file e) (with_info f c list)
        ≡ (if is_here e c then 1 + count (has_file e) list else count (has_file e) list)
  unfolding count
  count-with_info f (some (here d)) list file = ground (arith)
  count-with_info f (some (deeper d)) list file = refl
  count-with_info f none list file = refl

  no_dir-with_info :
      (f : MapFile) (c : Option Child) (list : List MapInfo)
      → f.is_dir ≡ false
      → count (has_dir e) (with_info f c list) ≡ count (has_dir e) list
  unfolding count
  no_dir-with_info f (some (here d)) list file = ground (arith)
  no_dir-with_info f (some (deeper d)) list file = refl
  no_dir-with_info f none list file = refl

  no_file-implied : (ns : List Bytes) → count (has_file e) (map implied ns) ≡ 0
  unfolding count
  no_file-implied [] = refl
  no_file-implied (d ∷ ns) = ground (arith, no_file-implied ns)

  count-implied : (ns : List Bytes) → count (has_dir e) (map implied ns) ≡ count (λ d. equal d e) ns
  unfolding count
  count-implied [] = refl
  count-implied (d ∷ ns) = ground (arith, count-implied ns)

  module _ (name : Bytes) where
    no_dir-direct :
        (m : List (Bytes × MapFile)) → ArePlain m → count (has_dir e) (direct name m) ≡ 0
    unfolding direct count
    no_dir-direct [] plains = refl
    no_dir-direct ((path, f) ∷ m) (file, plains) =
        no_dir-with_info f (child name path) (direct name m) file ∙ no_dir-direct m plains

    module _ (single : Lacks b'/' e) (no_root : is_root e ≡ false) where
      -- The directory has the file `e`, and a path goes on below `e`.
      abbrev pub holds_file : List (Bytes × MapFile) → Bool
      holds_file m = any (λ pf. equal pf.0 (join_path name e)) m

      abbrev pub goes_below : List (Bytes × MapFile) → Bool
      goes_below m = any (λ pf. has_prefix pf.0 (join_path name e ++ b'/' ∷ [])) m

      pub count-direct :
          (m : List (Bytes × MapFile))
          → Distinct m
          → ArePlain m
          → count (has_file e) (direct name m) ≡ once (holds_file m)
      unfolding direct count
      count-direct [] distinct plains = refl
      count-direct ((path, f) ∷ m) (others, distinct) (file, plains) =
          count-with_info f (child name path) (direct name m) file
          ∙ elim (Bool-cases (equal path (join_path name e))) [
            | inl same ↦
                let hit = is_here-equal name e single no_root path ∙ same in
                let joined = (equal_iff path (join_path name e)).0 same in
                let alone =
                  any-other (join_path name e) m
                    (subst (λ p. All (λ pf. pf.0 ≢ p) m) joined others) in
                rw (hit, count-direct m distinct plains, alone, same) refl
            | inr other ↦
                let miss = is_here-equal name e single no_root path ∙ other in
                rw (miss, count-direct m distinct plains, other) refl
          ]

      pub count-deeper :
          (m : List (Bytes × MapFile))
          → count (λ d. equal d e) (delete_all (direct name m) (needed name m))
            ≡ once (goes_below m && not (holds_file m))
      count-deeper m =
          count-delete_all e (direct name m) (needed name m)
          ∙ rw
              (
                any-direct e name m,
                count-needed e name m,
                any-ext m (λ pf. is_here-equal name e single no_root pf.0),
                any-ext m (λ pf. is_deeper-has_prefix name e single no_root pf.0),
              )
              (ground arith)

-- The files and the directories of the directory `name`, once each and by name. A name is one of
-- those that `fs.ValidPath` admits as the element of a path.
pub record IsDirListing {A : Type 0} (name : Bytes) (m : List (Bytes × A)) (es : List MapInfo)
    : Type 0 where
  pub files_once :
      (e : Bytes)
      → Lacks b'/' e
      → is_root e ≡ false
      → count (has_file e) es ≡ once (any (λ pf. equal pf.0 (join_path name e)) m)
  pub dirs_once :
      (e : Bytes)
      → Lacks b'/' e
      → is_root e ≡ false
      → count (has_dir e) es
        ≡ once (
            any (λ pf. has_prefix pf.0 (join_path name e ++ b'/' ∷ [])) m
            && not (any (λ pf. equal pf.0 (join_path name e)) m))
  pub by_name : Pairwise (λ a b. TextLe a.name_of b.name_of) es

less_info-IsWeakOrder : IsWeakOrder less_info
unfolding TextLe
less_info-IsWeakOrder = record {
  trans = λ a b c. TextLe-trans a.name_of b.name_of c.name_of;
  total = λ a b. TextLe-total a.name_of b.name_of;
}

-- `fs.ReadDir` sorts again.
pub sort-IsDirListing :
    {A : Type 0} (sorter : Sorter MapInfo) (name : Bytes) (m : List (Bytes × A)) (es : List MapInfo)
    → IsDirListing name m es
    → IsDirListing name m (sorter.sort less_info es)
unfolding TextLe
sort-IsDirListing sorter name m es l = record {
  files_once = λ e single no_root.
      count-perm (has_file e) (sorter.sort-perm less_info es) ∙ l.files_once e single no_root;
  dirs_once = λ e single no_root.
      count-perm (has_dir e) (sorter.sort-perm less_info es) ∙ l.dirs_once e single no_root;
  by_name = sorter.sort_ordered less_info es less_info-IsWeakOrder;
}

module _ (sorter : Sorter MapInfo) (name : Bytes) (m : List (Bytes × MapFile)) where
  count-dir_list :
      (p : MapInfo → Bool)
      → count p (dir_list sorter name m)
        ≡ count p (direct name m)
          + count p (map implied (delete_all (direct name m) (needed name m)))
  unfolding dir_list
  count-dir_list p =
      count-perm p (sorter.sort-perm less_info _)
      ∙ count-append p (direct name m) (map implied (delete_all (direct name m) (needed name m)))

  pub dir_list-IsDirListing : Distinct m → ArePlain m → IsDirListing name m (dir_list sorter name m)
  unfolding dir_list TextLe
  dir_list-IsDirListing distinct plains = record {
    files_once = λ e single no_root.
        count-dir_list (has_file e)
        ∙ rw
            (
              count-direct e name single no_root m distinct plains,
              no_file-implied e (delete_all (direct name m) (needed name m)),
            )
            (omega arith);
    dirs_once = λ e single no_root.
        count-dir_list (has_dir e)
        ∙ rw
            (
              no_dir-direct e name m plains,
              count-implied e (delete_all (direct name m) (needed name m)),
              count-deeper e name single no_root m,
            )
            (omega arith);
    by_name = sorter.sort_ordered less_info _ less_info-IsWeakOrder;
  }
