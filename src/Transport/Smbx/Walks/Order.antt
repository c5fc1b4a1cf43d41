-- ===== src/Transport/Smbx/Walks/Order.antt =====
-- The order in which a server lists the entries of a directory does not show in a walk of the file
-- system that `Client.FS` of internal/transport/smbx/smbx.go returns.
use mathlib.Core.List.{Perm, Mem}
use mathlib.Core.List.Perm
use opengpm.Base.{ℕ, List, ◌≡◌, refl, ap, Bool, Result, ok, err}
use opengpm.Base.Sort.{Sorter}
use opengpm.Base.Sort.Unique.{ordered_unique_on}
use opengpm.Text.{Bytes}
use opengpm.Fs.{ReadDirError, fs_read_dir, entries_by, own_entries}
use opengpm.Fs.Walk.{Visit, Verdict, fs_stat, walk}
use opengpm.Fs.Walk.Same.{walk-same}
use opengpm.Transport.Discover.Compare.{TextLe, TextLe-prop, TextLe-refl, TextLe-antisymm}
use opengpm.Transport.Fstest.Faults.{smb_fs, no_read_dir}
use opengpm.Transport.Smbx.DirFs.{
  OpenFile, not_os_style, os_style, DirError, dir_entries, dir_entries-IsListing, listed_dir,
  read_dir_fs,
}

module _ {I : Type 0} (info_name : I → Bytes) where
  -- No two entries of a directory have the same name.
  abbrev pub AreNamed : List I → Type 0
  AreNamed infos = (a b : I) → Mem a infos → Mem b infos → info_name a ≡ info_name b → a ≡ b

  dir_entries-perm :
      (sorter sorter' : Sorter I) {infos infos' : List I}
      → AreNamed infos
      → Perm infos infos'
      → dir_entries info_name sorter infos ≡ dir_entries info_name sorter' infos'
  dir_entries-perm sorter sorter' {infos} {infos'} named p =
      let l = dir_entries-IsListing info_name sorter infos in
      let l' = dir_entries-IsListing info_name sorter' infos' in
      ordered_unique_on (λ a b. TextLe (info_name a) (info_name b))
        (λ a b. TextLe-prop (info_name a) (info_name b)) (λ a. TextLe-refl (info_name a))
        (λ a b ma mb le ge.
          named a b ((Perm.mem_iff l.same_entries).0 ma) ((Perm.mem_iff l.same_entries).0 mb)
            (TextLe-antisymm (info_name a) (info_name b) le ge))
        l.by_name l'.by_name (Perm.trans l.same_entries (Perm.trans p (Perm.symm l'.same_entries)))

module _ {I E : Type 0} (info_name : I → Bytes) where
  -- The same file, but for the order in which `Readdir(-1)` gives its entries.
  pub data SameFile : OpenFile I E → OpenFile I E → Type 0 where
    no_listing : SameFile not_os_style not_os_style
    failing : (e : E) → SameFile (os_style (err e)) (os_style (err e))
    listing :
        (infos infos' : List I)
        → AreNamed info_name infos
        → Perm infos infos'
        → SameFile (os_style (ok infos)) (os_style (ok infos'))

  pub data SameOpen : Result E (OpenFile I E) → Result E (OpenFile I E) → Type 0 where
    refused : (e : E) → SameOpen (err e) (err e)
    opened : {f g : OpenFile I E} → SameFile f g → SameOpen (ok f) (ok g)

  module _ (sorter sorter' : Sorter I) where
    same_listing :
        (path : Bytes) {r r' : Result E (OpenFile I E)}
        → SameOpen r r'
        → own_entries {E = E} info_name sorter no_read_dir
            (read_dir_fs info_name sorter path r).result
          ≡ own_entries info_name sorter' no_read_dir (read_dir_fs info_name sorter' path r').result
    unfolding own_entries read_dir_fs listed_dir
    same_listing path (refused e) = refl
    same_listing path (opened no_listing) = refl
    same_listing path (opened (failing e)) = refl
    same_listing path (opened (listing infos infos' named p)) =
        ap (λ ds. ok ds) (dir_entries-perm info_name sorter sorter' named p)

    module _ {A : Type 0} (is_dir : I → Bool) (stat_file : OpenFile I E → Result E I)
        (fn : Visit I (ReadDirError E (DirError E)) → Verdict A)
        (open_inner open_inner' : Bytes → Result E (OpenFile I E)) where
      same_stat :
          ((f g : OpenFile I E) → SameFile f g → stat_file f ≡ stat_file g)
          → {r r' : Result E (OpenFile I E)} → SameOpen r r'
          → fs_stat info_name is_dir sorter no_read_dir fn
              (smb_fs info_name sorter open_inner)
              stat_file
              r
            ≡ fs_stat info_name is_dir sorter' no_read_dir fn
                (smb_fs info_name sorter' open_inner')
                stat_file
                r'
      unfolding fs_stat
      same_stat stats (refused e) = refl
      same_stat stats (opened {f} {g} same) = rw (stats f g same, fs_stat) refl

      -- Two shares that open the same files, of which only the order differs in which a directory
      -- lists its entries, look the same to any `fs.WalkDir` over the file system that `Client.FS`
      -- returns, with any two sorts behind `sort.Slice`: it makes the same calls of the callback in
      -- the same order and returns the same. This is for directories in which no two entries have
      -- the same name, and for files whose `Stat` does not depend on that order.
      pub walk-smb_fs_order :
          ((path : Bytes) → SameOpen (open_inner path) (open_inner' path))
          → ((f g : OpenFile I E) → SameFile f g → stat_file f ≡ stat_file g)
          → (fuel : ℕ) (root : Bytes)
          → walk info_name is_dir sorter no_read_dir fn
              (smb_fs info_name sorter open_inner)
              stat_file
              fuel
              root
            ≡ walk info_name is_dir sorter' no_read_dir fn
                (smb_fs info_name sorter' open_inner')
                stat_file
                fuel
                root
      unfolding fs_read_dir entries_by
      walk-smb_fs_order same stats fuel root =
          walk-same info_name is_dir sorter sorter' no_read_dir fn
            (smb_fs info_name sorter open_inner) (smb_fs info_name sorter' open_inner')
            (λ path. same_listing path (same path)) stat_file fuel root
            (same_stat stats (same root))
