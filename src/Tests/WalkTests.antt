-- ===== src/Tests/WalkTests.antt =====
-- Walks over a share whose second directory cannot be opened, and below `FaultFS`.
use mathlib.Core.List.{Perm}
use mathlib.Core.List.Perm
use opengpm.Base.{
  ℕ, List, [], ◌∷◌, ◌≤◌, ◌≡◌, refl, Bool, true, false, Option, none, some, Result, ok, err,
  if◌then◌else◌, arith,
}
use opengpm.Base.Sort.Insertion.{insertion_sorter, insertion_sort}
use opengpm.Text.{Bytes, codes, equal}
use opengpm.Fs.{
  FileSystem, ReadDirError, own_error, open_error, fs_read_dir, entries_by, opened_entries,
  file_entries,
}
use opengpm.Fs.Tree.{
  Tree, leaf, branch, closed, bare, grown, roots_of, depth, seen, refused, preorder, Serves,
}
use opengpm.Fs.Walk.{Visit, Verdict, go_on, skip_dir, join_path, walk}
use opengpm.Fs.Walk.Visits.{SkipsErrors}
use opengpm.Transport.Discover.{compare_text}
use opengpm.Transport.Fstest.{fault_at, open_unless, fault_fs}
use opengpm.Transport.Fstest.Faults.{smb_fs, no_read_dir}
use opengpm.Transport.Fstest.Prune.{visits_under}
use opengpm.Transport.Fstest.Walks.{walk-fault_fs}
use opengpm.Transport.Smbx.DirFs.{OpenFile, os_style, DirError, not_opened, read_dir_fs}
use opengpm.Transport.Smbx.Walks.{Holds, unopened, walk-smb_fs}

abbrev Entry : Type 0
Entry = Bytes × Bool

abbrev entry_name : Entry → Bytes
entry_name e = e.0

abbrev entry_is_dir : Entry → Bool
entry_is_dir e = e.1

abbrev root_entry : Entry
root_entry = (codes ".", true)

abbrev user_entry : Entry
user_entry = (codes "User", true)

abbrev machine_entry : Entry
machine_entry = (codes "Machine", true)

abbrev pol_entry : Entry
pol_entry = (codes "Registry.pol", false)

abbrev skip_on_error : {Y : Type 0} → Visit Entry Y → Verdict ℕ
skip_on_error v = elim v.problem [ some y ↦ skip_dir | none ↦ go_on ]

skip_on_error-SkipsErrors : {Y : Type 0} → SkipsErrors {Y = Y} skip_on_error
skip_on_error-SkipsErrors = record { goes_on = λ path d. refl; skips = λ path entry y. refl }

-- What the share holds; `User` is closed to this account.
abbrev share_files : Bytes → Result ℕ (OpenFile Entry ℕ)
share_files name =
    if equal name (codes ".")
    then ok (os_style (ok (user_entry ∷ machine_entry ∷ [])))
    else if equal name (codes "Machine")
    then ok (os_style (ok (pol_entry ∷ [])))
    else err 13

abbrev share_tree : Tree Entry (ReadDirError ℕ (DirError ℕ))
share_tree = branch root_entry (
    grown (closed user_entry (own_error (not_opened 13)))
      (grown (branch machine_entry (grown (leaf pol_entry) bare)) bare))

share-Holds : Holds entry_name entry_is_dir share_files (codes ".") share_tree
unfolding Holds join_path equal roots_of
share-Holds = (refl, refl, ((refl, unopened 13), ((refl, refl, (refl, tt)), tt)))

abbrev share_root : OpenFile Entry ℕ → Result ℕ Entry
share_root f = ok root_entry

share_deep : depth share_tree ≤ 3
unfolding depth
share_deep = omega arith

walk-smb_fs_example :
    Perm
      (walk entry_name entry_is_dir
        (insertion_sorter Entry)
        no_read_dir
        skip_on_error
        (smb_fs entry_name (insertion_sorter Entry) share_files)
        share_root
        3
        (codes ".")).calls
      (preorder entry_name (codes ".") share_tree)
    × ((walk entry_name entry_is_dir
          (insertion_sorter Entry)
          no_read_dir
          skip_on_error
          (smb_fs entry_name (insertion_sorter Entry) share_files)
          share_root
          3
          (codes ".")).verdict
        ≡ go_on)
unfolding equal
walk-smb_fs_example =
    walk-smb_fs entry_name entry_is_dir share_files (insertion_sorter Entry)
      skip_on_error-SkipsErrors share_root 3 (codes ".") share_tree
      (os_style (ok (user_entry ∷ machine_entry ∷ []))) refl refl share_deep share-Holds

-- The order of the calls is that of the names.
share_walked :
    (walk entry_name entry_is_dir
      (insertion_sorter Entry)
      no_read_dir
      skip_on_error
      (smb_fs entry_name (insertion_sorter Entry) share_files)
      share_root
      3
      (codes ".")).calls
    ≡ seen (codes ".") root_entry
      ∷ seen (codes "Machine") machine_entry
      ∷ seen (codes "Machine/Registry.pol") pol_entry
      ∷ seen (codes "User") user_entry
      ∷ refused (codes "User") user_entry (own_error (not_opened 13))
      ∷ []
unfolding walk fs_read_dir equal insertion_sort compare_text read_dir_fs join_path
share_walked = refl

-- A directory in memory, whose files are `fs.ReadDirFile`s; every directory lists the same names.
abbrev memory_files : Bytes → Result ℕ (List Entry)
memory_files name =
    if equal name (codes ".") then ok (user_entry ∷ machine_entry ∷ []) else ok (pol_entry ∷ [])

abbrev memory_fs : FileSystem (List Entry) Entry ℕ ℕ
memory_fs = record { open_name = memory_files; own_read_dir = none }

abbrev list_memory : List Entry → Option (Result ℕ (List Entry))
list_memory f = some (ok f)

abbrev memory_root : List Entry → Result ℕ Entry
memory_root f = ok root_entry

abbrev memory_tree : Tree Entry (ReadDirError ℕ ℕ)
memory_tree = branch root_entry (
    grown (branch user_entry (grown (leaf pol_entry) bare))
      (grown (branch machine_entry (grown (leaf pol_entry) bare)) bare))

memory-Serves :
    Serves entry_name entry_is_dir
      (insertion_sorter Entry)
      list_memory
      memory_fs
      (codes ".")
      memory_tree
unfolding Serves fs_read_dir entries_by opened_entries file_entries join_path equal roots_of
    insertion_sort compare_text
memory-Serves = (
  refl,
  (machine_entry ∷ user_entry ∷ [], refl, Perm.swap user_entry machine_entry []),
  (
    (refl, (pol_entry ∷ [], refl, Perm.rfl), (refl, tt)),
    ((refl, (pol_entry ∷ [], refl, Perm.rfl), (refl, tt)), tt),
  ),
)

memory_deep : depth memory_tree ≤ 3
unfolding depth
memory_deep = omega arith

-- Access to one subtree is denied.
abbrev denied_user : List (Bytes × ℕ)
denied_user = (codes "User", 13) ∷ []

walk-fault_fs_example :
    Perm
      (walk entry_name entry_is_dir
        (insertion_sorter Entry)
        list_memory
        skip_on_error
        (fault_fs memory_fs denied_user)
        memory_root
        3
        (codes ".")).calls
      (visits_under entry_name denied_user (codes ".") memory_tree)
    × ((walk entry_name entry_is_dir
          (insertion_sorter Entry)
          list_memory
          skip_on_error
          (fault_fs memory_fs denied_user)
          memory_root
          3
          (codes ".")).verdict
        ≡ go_on)
unfolding equal
walk-fault_fs_example =
    walk-fault_fs entry_name entry_is_dir (insertion_sorter Entry) list_memory memory_fs denied_user
      skip_on_error-SkipsErrors memory_root 3 (codes ".") memory_tree
      (user_entry ∷ machine_entry ∷ []) refl refl memory_deep memory-Serves

faulted_walked :
    (walk entry_name entry_is_dir
      (insertion_sorter Entry)
      list_memory
      skip_on_error
      (fault_fs memory_fs denied_user)
      memory_root
      3
      (codes ".")).calls
    ≡ seen (codes ".") root_entry
      ∷ seen (codes "Machine") machine_entry
      ∷ seen (codes "Machine/Registry.pol") pol_entry
      ∷ seen (codes "User") user_entry
      ∷ refused (codes "User") user_entry (open_error 13)
      ∷ []
unfolding walk fs_read_dir fault_fs fault_at open_unless equal insertion_sort compare_text join_path
faulted_walked = refl
