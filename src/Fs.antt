-- ===== src/Fs.antt =====
-- What the repository's code and its tests use of Go's io/fs: file systems, `fs.ReadDir` and
-- `fs.WalkDir`. What `fs.ReadDir` returns beside an error is left out.
pub mod Tree
pub mod Walk
pub mod MapFs
use opengpm.Base.{List, [], ◌∷◌, Bool, Option, none, some, if◌then◌else◌, Result, ok, err}
use opengpm.Base.Int.{is_neg}
use opengpm.Base.Sort.{Sorter}
use opengpm.Text.{Bytes, equal}
use opengpm.Transport.Discover.{compare_text}

-- A value of the type `fs.FS`: `Open`, and `ReadDir` if it is an `fs.ReadDirFS` as well.
pub record FileSystem (F D E X : Type 0) : Type 0 where
  pub open_name : Bytes → Result E F
  pub own_read_dir : Option (Bytes → Result X (List D))

-- The errors of `fs.ReadDir`: the file system's own, those of `Open` and of the file, and its own.
pub data ReadDirError (E X : Type 0) : Type 0 where
  own_error : X → ReadDirError E X
  open_error read_error : E → ReadDirError E X
  not_implemented : Bytes → ReadDirError E X

-- Files are `F`, entries `D`. A file that is an `fs.ReadDirFile` has an answer to `ReadDir(-1)`.
module _ {F D E X : Type 0} (dir_name : D → Bytes) (sorter : Sorter D)
    (read_file : F → Option (Result E (List D))) where
  unfoldable pub file_entries :
      Bytes → Option (Result E (List D)) → Result (ReadDirError E X) (List D)
  file_entries name none = err (not_implemented name)
  file_entries name (some (err e)) = err (read_error e)
  file_entries name (some (ok ds)) =
      ok (sorter.sort (λ a b. is_neg (compare_text (dir_name a) (dir_name b))) ds)

  unfoldable pub opened_entries : Bytes → Result E F → Result (ReadDirError E X) (List D)
  unfolding file_entries
  opened_entries name (err e) = err (open_error e)
  opened_entries name (ok f) = file_entries name (read_file f)

  unfoldable pub own_entries : Result X (List D) → Result (ReadDirError E X) (List D)
  own_entries (err e) = err (own_error e)
  own_entries (ok ds) = ok ds

  unfoldable pub entries_by :
      Option (Bytes → Result X (List D)) → Bytes → Result E F → Result (ReadDirError E X) (List D)
  unfolding own_entries opened_entries
  entries_by (some read_dir) name opened = own_entries (read_dir name)
  entries_by none name opened = opened_entries name opened

  -- `fs.ReadDir`
  unfoldable pub fs_read_dir : FileSystem F D E X → Bytes → Result (ReadDirError E X) (List D)
  unfolding entries_by
  fs_read_dir fsys name = entries_by fsys.own_read_dir name (fsys.open_name name)
