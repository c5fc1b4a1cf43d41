-- ===== src/Fs/Tree.antt =====
-- Trees of directories, as Go's io/fs presents them, and the order in which a walk meets them.
use Prim.Native.Nat.{max}
use mathlib.Core.List.{Perm}
use opengpm.Base.{
  ℕ, suc, List, [], ◌∷◌, ◌++◌, ◌≡◌, Bool, true, false, Option, none, some, Result, ok, err,
}
use opengpm.Base.Sort.{Sorter}
use opengpm.Text.{Bytes}
use opengpm.Fs.{FileSystem, ReadDirError, fs_read_dir}
use opengpm.Fs.Walk.{Visit, join_path}

-- A file, a directory that can be listed, and one whose listing fails.
mutual
  pub data Tree (D Y : Type 0) : Type 0 where
    leaf : D → Tree D Y
    branch : D → Forest D Y → Tree D Y
    closed : D → Y → Tree D Y

  pub data Forest (D Y : Type 0) : Type 0 where
    bare : Forest D Y
    grown : Tree D Y → Forest D Y → Forest D Y

abbrev pub entry_of : {D Y : Type 0} → Tree D Y → D
entry_of (leaf d) = d
entry_of (branch d f) = d
entry_of (closed d y) = d

unfoldable pub roots_of : {D Y : Type 0} → Forest D Y → List D
roots_of bare = []
roots_of (grown t f) = entry_of t ∷ roots_of f

unfoldable mutual
  pub depth : {D Y : Type 0} → Tree D Y → ℕ
  depth (leaf d) = 1
  depth (branch d f) = suc (depth_all f)
  depth (closed d y) = 1

  pub depth_all : {D Y : Type 0} → Forest D Y → ℕ
  depth_all bare = 0
  depth_all (grown t f) = max (depth t) (depth_all f)

abbrev pub seen : {D Y : Type 0} → Bytes → D → Visit D Y
seen path d = record { path = path; entry = some d; problem = none }

abbrev pub refused : {D Y : Type 0} → Bytes → D → Y → Visit D Y
refused path d y = record { path = path; entry = some d; problem = some y }

-- The root of a walk whose `fs.Stat` fails has no entry.
abbrev pub unreadable : {D Y : Type 0} → Bytes → Y → Visit D Y
unreadable path y = record { path = path; entry = none; problem = some y }

module _ {D Y : Type 0} (dir_name : D → Bytes) where
  -- Everything below a path, parents first; a directory that cannot be listed once more, with why.
  unfoldable mutual
    unfolding join_path

    pub preorder : Bytes → Tree D Y → List (Visit D Y)
    preorder path (leaf d) = seen path d ∷ []
    preorder path (branch d f) = seen path d ∷ preorder_all path f
    preorder path (closed d y) = seen path d ∷ refused path d y ∷ []

    pub preorder_all : Bytes → Forest D Y → List (Visit D Y)
    preorder_all path bare = []
    preorder_all path (grown t f) =
        preorder (join_path path (dir_name (entry_of t))) t ++ preorder_all path f

module _ {F D E X : Type 0} (dir_name : D → Bytes) (is_dir : D → Bool) (sorter : Sorter D)
    (read_file : F → Option (Result E (List D))) (fsys : FileSystem F D E X) where
  -- `fs.ReadDir` gives what the tree has, in any order.
  unfoldable mutual
    unfolding join_path

    pub Serves : Bytes → Tree D (ReadDirError E X) → Type 0
    Serves path (leaf d) = is_dir d ≡ false
    Serves path (branch d f) =
        (is_dir d ≡ true)
        × ((ds : List D) × (fs_read_dir dir_name sorter read_file fsys path ≡ ok ds)
            × Perm ds (roots_of f))
        × ServesAll path f
    Serves path (closed d y) =
        (is_dir d ≡ true) × (fs_read_dir dir_name sorter read_file fsys path ≡ err y)

    pub ServesAll : Bytes → Forest D (ReadDirError E X) → Type 0
    ServesAll path bare = Unit
    ServesAll path (grown t f) =
        Serves (join_path path (dir_name (entry_of t))) t × ServesAll path f
