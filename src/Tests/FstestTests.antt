-- ===== src/Tests/FstestTests.antt =====
-- `FaultFS` of internal/transport/fstest/fstest.go over a directory that go-smb2 opens.
use opengpm.Base.{ℕ, List, [], ◌∷◌, ◌≡◌, refl, Result, ok, err}
use opengpm.Base.Sort.Insertion.{insertion_sorter, insertion_sort}
use opengpm.Text.{Bytes, codes, equal}
use opengpm.Fs.{not_implemented, FileSystem, fs_read_dir}
use opengpm.Transport.Fstest.{fault_at, open_unless, fault_fs}
use opengpm.Transport.Fstest.Faults.{smb_fs, no_read_dir}
use opengpm.Transport.Smbx.DirFs.{OpenFile, os_style, DirError, read_dir_fs}
use opengpm.Transport.Discover.{compare_text}

abbrev named : ℕ → Bytes
named i = i ∷ []

-- Every path is a directory with two entries.
abbrev opens_all : Bytes → Result ℕ (OpenFile ℕ ℕ)
opens_all name = ok (os_style (ok (9 ∷ 2 ∷ [])))

-- Access to one subtree is denied.
abbrev denied : List (Bytes × ℕ)
denied = (codes "User/Preferences", 13) ∷ []

abbrev inner_fs : FileSystem (OpenFile ℕ ℕ) ℕ ℕ (DirError ℕ)
inner_fs = smb_fs named (insertion_sorter ℕ) opens_all

-- The program's file system lists every directory; below `FaultFS`, the one that is not denied
-- cannot be listed.
listed_without_faults :
    fs_read_dir named (insertion_sorter ℕ) no_read_dir inner_fs (codes "User") ≡ ok (2 ∷ 9 ∷ [])
unfolding fs_read_dir insertion_sort compare_text read_dir_fs
listed_without_faults = refl

listing_lost :
    fs_read_dir named (insertion_sorter ℕ) no_read_dir (fault_fs inner_fs denied) (codes "User")
    ≡ err (not_implemented (codes "User"))
unfolding fs_read_dir fault_fs fault_at open_unless equal
listing_lost = refl
