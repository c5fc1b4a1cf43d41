-- ===== src/Transport/Smbx/DirFs.antt =====
-- internal/transport/smbx/smbx.go: `readDirFS` and `dirEntries`, which list a directory by name.
-- `sort.Slice` keeps no order among equals, so any sort that meets `Sorter` will do.
use mathlib.Core.List.{Perm, Pairwise}
use opengpm.Base.{ℕ, List, Bool, Result, ok, err}
use opengpm.Base.Int.{is_neg}
use opengpm.Base.Sort.{Sorter, IsWeakOrder}
use opengpm.Text.{Bytes}
use opengpm.Transport.Discover.{compare_text}
use opengpm.Transport.Discover.Compare.{TextLe, TextLe-trans, TextLe-total}

-- What `inner.Open` gives: a file that has no `Readdir`, or a directory with what `Readdir(-1)`
-- answers.
pub data OpenFile (I E : Type 0) : Type 0 where
  not_os_style : OpenFile I E
  os_style : Result E (List I) → OpenFile I E

pub data DirError (E : Type 0) : Type 0 where
  not_opened : E → DirError E
  cannot_enumerate : Bytes → DirError E
  readdir_failed : Bytes → E → DirError E

-- The result, and how many files were opened and closed.
pub record Listing (I E : Type 0) : Type 0 where
  pub result : Result (DirError E) (List I)
  pub opens : ℕ
  pub closes : ℕ

-- The entries of a directory, each once and by name.
pub record IsListing {I : Type 0} (info_name : I → Bytes) (infos es : List I) : Type 0 where
  pub same_entries : Perm es infos
  pub by_name : Pairwise (λ a b. TextLe (info_name a) (info_name b)) es

module _ {I : Type 0} (info_name : I → Bytes) (sorter : Sorter I) where
  abbrev pub less_name : I → I → Bool
  less_name a b = is_neg (compare_text (info_name a) (info_name b))

  -- `dirEntries`; `fs.FileInfoToDirEntry` keeps the info.
  unfoldable pub dir_entries : List I → List I
  dir_entries infos = sorter.sort less_name infos

  less_name-IsWeakOrder : IsWeakOrder less_name
  unfolding TextLe
  less_name-IsWeakOrder = record {
    trans = λ a b c. TextLe-trans (info_name a) (info_name b) (info_name c);
    total = λ a b. TextLe-total (info_name a) (info_name b);
  }

  pub dir_entries-IsListing : (infos : List I) → IsListing info_name infos (dir_entries infos)
  unfolding dir_entries TextLe
  dir_entries-IsListing infos = record {
    same_entries = sorter.sort-perm less_name infos;
    by_name = sorter.sort_ordered less_name infos less_name-IsWeakOrder;
  }

module _ {I E : Type 0} (info_name : I → Bytes) (sorter : Sorter I) where
  unfoldable pub listed_dir : Bytes → OpenFile I E → Result (DirError E) (List I)
  unfolding dir_entries
  listed_dir name not_os_style = err (cannot_enumerate name)
  listed_dir name (os_style (err e)) = err (readdir_failed name e)
  listed_dir name (os_style (ok infos)) = ok (dir_entries info_name sorter infos)

  -- `readDirFS.ReadDir`, on what `inner.Open(name)` gave. A file that was opened is closed.
  unfoldable pub read_dir_fs : Bytes → Result E (OpenFile I E) → Listing I E
  unfolding listed_dir
  read_dir_fs name (err e) = record { result = err (not_opened e); opens = 0; closes = 0 }
  read_dir_fs name (ok d) = record { result = listed_dir name d; opens = 1; closes = 1 }

  -- What `readDirFS.ReadDir` gives for each thing that `inner.Open` can give.
  pub data Lists (name : Bytes) : Result E (OpenFile I E) → Listing I E → Type 0 where
    not_open :
        (e : E) → Lists name (err e) (record { result = err (not_opened e); opens = 0; closes = 0 })
    no_entries :
        Lists name
          (ok not_os_style)
          (record { result = err (cannot_enumerate name); opens = 1; closes = 1 })
    broke_off :
        (e : E)
        → Lists name
            (ok (os_style (err e)))
            (record { result = err (readdir_failed name e); opens = 1; closes = 1 })
    listed_all :
        (infos es : List I)
        → IsListing info_name infos es
        → Lists name (ok (os_style (ok infos))) (record { result = ok es; opens = 1; closes = 1 })

  -- `readDirFS.ReadDir` lists a directory with all the entries that its `Readdir` answered and no
  -- others, sorted by name. What is not open, has no `Readdir` or fails in it is an error, and no
  -- part of a listing is returned. On every path a file that was opened is closed, once.
  pub read_dir_fs-Lists :
      (name : Bytes) (o : Result E (OpenFile I E)) → Lists name o (read_dir_fs name o)
  unfolding read_dir_fs listed_dir
  read_dir_fs-Lists name (err e) = not_open e
  read_dir_fs-Lists name (ok not_os_style) = no_entries
  read_dir_fs-Lists name (ok (os_style (err e))) = broke_off e
  read_dir_fs-Lists name (ok (os_style (ok infos))) =
      listed_all infos (dir_entries info_name sorter infos)
        (dir_entries-IsListing info_name sorter infos)
