-- ===== src/Transport/Smbx/Walks.antt =====
-- A walk of the file system that `Client.FS` of internal/transport/smbx/smbx.go returns.
pub mod Order
use mathlib.Core.List.{Perm}
use opengpm.Base.{ℕ, ◌≤◌, List, ◌≡◌, refl, Bool, true, false, Result, ok, err}
use opengpm.Base.Sort.{Sorter}
use opengpm.Text.{Bytes}
use opengpm.Fs.{ReadDirError, own_error, fs_read_dir, entries_by, own_entries}
use opengpm.Fs.Tree.{
  Tree, leaf, branch, closed, Forest, bare, grown, entry_of, roots_of, depth, preorder, Serves,
  ServesAll,
}
use opengpm.Fs.Walk.{Visit, Verdict, go_on, join_path, walk}
use opengpm.Fs.Walk.Visits.{SkipsErrors, walk-preorder}
use opengpm.Transport.Fstest.Faults.{smb_fs, no_read_dir}
use opengpm.Transport.Smbx.DirFs.{
  OpenFile, not_os_style, os_style, DirError, not_opened, cannot_enumerate, readdir_failed,
  dir_entries, dir_entries-IsListing, listed_dir, read_dir_fs,
}

module _ {I E : Type 0} (info_name : I → Bytes) (is_dir : I → Bool)
    (open_inner : Bytes → Result E (OpenFile I E)) where
  -- Why a directory cannot be listed, by what its `Open` gives.
  pub data Refuses (path : Bytes)
      : Result E (OpenFile I E) → ReadDirError E (DirError E) → Type 0 where
    unopened : (e : E) → Refuses path (err e) (own_error (not_opened e))
    no_entries : Refuses path (ok not_os_style) (own_error (cannot_enumerate path))
    broke_off : (e : E) → Refuses path (ok (os_style (err e))) (own_error (readdir_failed path e))

  -- The share holds this tree at the path: what its directories answer to `Open` and `Readdir(-1)`.
  unfoldable mutual
    unfolding join_path

    pub Holds : Bytes → Tree I (ReadDirError E (DirError E)) → Type 0
    Holds path (leaf d) = is_dir d ≡ false
    Holds path (branch d f) =
        (is_dir d ≡ true) × (open_inner path ≡ ok (os_style (ok (roots_of f)))) × HoldsAll path f
    Holds path (closed d y) = (is_dir d ≡ true) × Refuses path (open_inner path) y

    pub HoldsAll : Bytes → Forest I (ReadDirError E (DirError E)) → Type 0
    HoldsAll path bare = Unit
    HoldsAll path (grown t f) = Holds (join_path path (info_name (entry_of t))) t × HoldsAll path f

  module _ (sorter : Sorter I) where
    refuses :
        {path : Bytes} {r : Result E (OpenFile I E)} {y : ReadDirError E (DirError E)}
        → Refuses path r y
        → own_entries {E = E} info_name sorter no_read_dir
            (read_dir_fs info_name sorter path r).result
          ≡ err y
    unfolding own_entries read_dir_fs listed_dir
    refuses (unopened e) = refl
    refuses no_entries = refl
    refuses (broke_off e) = refl

    lists :
        (path : Bytes) {r : Result E (OpenFile I E)} {ds : List I}
        → r ≡ ok (os_style (ok ds))
        → own_entries {E = E} info_name sorter no_read_dir
            (read_dir_fs info_name sorter path r).result
          ≡ ok (dir_entries info_name sorter ds)
    unfolding own_entries read_dir_fs listed_dir
    lists path opens = rw opens refl

    mutual
      unfolding Holds Serves fs_read_dir entries_by

      Holds-Serves :
          (path : Bytes) (t : Tree I (ReadDirError E (DirError E)))
          → Holds path t
          → Serves info_name is_dir sorter no_read_dir (smb_fs info_name sorter open_inner) path t
      Holds-Serves path (leaf d) h = h
      Holds-Serves path (closed d y) (dir, why) = (dir, refuses why)
      Holds-Serves path (branch d f) (dir, opens, all) = (
        dir,
        (
          dir_entries info_name sorter (roots_of f),
          lists path opens,
          (dir_entries-IsListing info_name sorter (roots_of f)).same_entries,
        ),
        HoldsAll-ServesAll path f all,
      )

      HoldsAll-ServesAll :
          (path : Bytes) (f : Forest I (ReadDirError E (DirError E)))
          → HoldsAll path f
          → ServesAll info_name is_dir sorter no_read_dir
              (smb_fs info_name sorter open_inner)
              path
              f
      HoldsAll-ServesAll path bare h = h
      HoldsAll-ServesAll path (grown t f) (h, all) =
          (Holds-Serves _ t h, HoldsAll-ServesAll path f all)

    -- `fs.WalkDir` over the file system that `Client.FS` returns calls the callback, up to order, for
    -- everything that the share holds below the root, each once, and once more with the error for
    -- each directory that cannot be listed, and returns nil. This is for a callback that returns nil
    -- and `SkipDir` on an error, for a root that opens and whose `Stat` gives its entry, and for fuel
    -- that is at least the depth of the tree.
    pub walk-smb_fs :
        {A : Type 0} {fn : Visit I (ReadDirError E (DirError E)) → Verdict A}
        → SkipsErrors fn
        → (stat_file : OpenFile I E → Result E I) (fuel : ℕ) (root : Bytes)
          (t : Tree I (ReadDirError E (DirError E))) (f : OpenFile I E)
        → open_inner root ≡ ok f
        → stat_file f ≡ ok (entry_of t)
        → depth t ≤ fuel
        → Holds root t
        → Perm
            (walk info_name is_dir sorter no_read_dir fn
              (smb_fs info_name sorter open_inner)
              stat_file
              fuel
              root).calls
            (preorder info_name root t)
          × ((walk info_name is_dir sorter no_read_dir fn
                (smb_fs info_name sorter open_inner)
                stat_file
                fuel
                root).verdict
              ≡ go_on)
    walk-smb_fs skips stat_file fuel root t f opens stats deep h =
        walk-preorder info_name is_dir sorter no_read_dir skips (smb_fs info_name sorter open_inner)
          stat_file fuel root t f opens stats deep (Holds-Serves root t h)
