-- ===== src/Transport/Fstest/Faults.antt =====
-- What `FaultFS` of internal/transport/fstest/fstest.go fails and what it passes on, over any file
-- system and over `readDirFS` of internal/transport/smbx/smbx.go.
use opengpm.Base.{List, ◌≡◌, refl, Option, none, some, Result, ok, err}
use opengpm.Base.Sort.{Sorter}
use opengpm.Text.{Bytes}
use opengpm.Fs.{
  FileSystem, open_error, not_implemented, opened_entries, file_entries, own_entries, fs_read_dir,
  entries_by,
}
use opengpm.Transport.Fstest.{fault_at, open_unless, fault_fs}
use opengpm.Transport.Smbx.DirFs.{
  OpenFile, os_style, DirError, dir_entries, listed_dir, read_dir_fs,
}

module _ {F D E X : Type 0} (dir_name : D → Bytes) (sorter : Sorter D)
    (read_file : F → Option (Result E (List D))) where
  -- The same file system by `Open` alone.
  abbrev pub open_only : FileSystem F D E X → FileSystem F D E X
  open_only fsys = record { open_name = fsys.open_name; own_read_dir = none }

  -- What becomes of a name, by its fault.
  pub data Faulted (inner : FileSystem F D E X) (faults : List (Bytes × E)) (name : Bytes)
      : Option E → Type 0 where
    fails :
        (e : E)
        → (fault_fs inner faults).open_name name ≡ err e
        → fs_read_dir dir_name sorter read_file (fault_fs inner faults) name ≡ err (open_error e)
        → Faulted inner faults name (some e)
    passes :
        (fault_fs inner faults).open_name name ≡ inner.open_name name
        → fs_read_dir dir_name sorter read_file (fault_fs inner faults) name
          ≡ fs_read_dir dir_name sorter read_file (open_only inner) name
        → Faulted inner faults name none

  fault_fs_by :
      (inner : FileSystem F D E X) (faults : List (Bytes × E)) (name : Bytes) (fault : Option E)
      → fault_at faults name ≡ fault
      → Faulted inner faults name fault
  unfolding fault_fs open_unless fs_read_dir entries_by opened_entries
  fault_fs_by inner faults name (some e) h = fails e (rw h refl) (rw h refl)
  fault_fs_by inner faults name none h = passes (rw h refl) (rw h refl)

  -- Below `FaultFS` a path with a fault fails with that error, on `Open` and on `fs.ReadDir`. Any
  -- other path is opened as the inner file system opens it, but listed as that one would list it if
  -- it had `Open` alone.
  pub fault_fs-Faulted :
      (inner : FileSystem F D E X) (faults : List (Bytes × E)) (name : Bytes)
      → Faulted inner faults name (fault_at faults name)
  fault_fs-Faulted inner faults name = fault_fs_by inner faults name (fault_at faults name) refl

-- The file system that `Client.FS` returns, over what the share opens.
abbrev pub smb_fs :
    {I E : Type 0}
    → (I → Bytes)
    → Sorter I
    → (Bytes → Result E (OpenFile I E))
    → FileSystem (OpenFile I E) I E (DirError E)
smb_fs info_name sorter open_inner = record {
  open_name = open_inner;
  own_read_dir = some (λ name. (read_dir_fs info_name sorter name (open_inner name)).result);
}

-- The files of go-smb2 have `Readdir` in place of the `ReadDir` of an `fs.ReadDirFile`.
abbrev pub no_read_dir : {I E : Type 0} → OpenFile I E → Option (Result E (List I))
no_read_dir f = none

module _ {I E : Type 0} (info_name : I → Bytes) (sorter : Sorter I)
    (open_inner : Bytes → Result E (OpenFile I E)) where
  -- So over the file system of `Client.FS` a directory that is listed without `FaultFS`, and whose
  -- path has no fault, is not listed below it.
  fault_fs-smb_fs :
      (faults : List (Bytes × E)) (name : Bytes) (infos : List I)
      → fault_at faults name ≡ none
      → open_inner name ≡ ok (os_style (ok infos))
      → (fs_read_dir info_name sorter no_read_dir (smb_fs info_name sorter open_inner) name
          ≡ ok (dir_entries info_name sorter infos))
        × (fs_read_dir info_name sorter no_read_dir
              (fault_fs (smb_fs info_name sorter open_inner) faults)
              name
            ≡ err (not_implemented name))
  unfolding fault_fs open_unless fs_read_dir entries_by opened_entries file_entries own_entries
      read_dir_fs listed_dir
  fault_fs-smb_fs faults name infos free opens = (rw opens refl, rw (free, opens) refl)
