-- ===== src/Tests/OrderTests.antt =====
-- Two shares that list the root in different orders, walked with a callback that stops.
use mathlib.Core.List.Perm
use opengpm.Base.{ℕ, List, [], ◌∷◌, ◌≡◌, refl, Bool, true, false, not, none, some, Result, ok, err}
use opengpm.Base.Sort.Insertion.{insertion_sorter, insertion_sort}
use opengpm.Text.{Bytes, codes, equal}
use opengpm.Fs.{ReadDirError, own_error, fs_read_dir}
use opengpm.Fs.Tree.{seen, refused}
use opengpm.Fs.Walk.{Visit, Verdict, go_on, stop, join_path, walk}
use opengpm.Transport.Discover.{compare_text}
use opengpm.Transport.Fstest.Faults.{smb_fs, no_read_dir}
use opengpm.Transport.Smbx.DirFs.{OpenFile, os_style, DirError, not_opened, read_dir_fs}
use opengpm.Transport.Smbx.Walks.Order.{SameFile, listing, SameOpen, opened, walk-smb_fs_order}
use opengpm.Transport.Smbx.Walks.Order

-- An entry is its name.
abbrev its_name : Bytes → Bytes
its_name e = e

abbrev is_folder : Bytes → Bool
is_folder e = not (equal e (codes "Registry.pol"))

abbrev pick : List Bytes → Bool → Bool → Result ℕ (OpenFile Bytes ℕ)
pick roots true machine = ok (os_style (ok roots))
pick roots false true = ok (os_style (ok (codes "Registry.pol" ∷ [])))
pick roots false false = err 13

-- `User` is closed to this account.
abbrev share_with : List Bytes → Bytes → Result ℕ (OpenFile Bytes ℕ)
share_with roots path = pick roots (equal path (codes ".")) (equal path (codes "Machine"))

abbrev user_first : List Bytes
user_first = codes "User" ∷ codes "Machine" ∷ []

abbrev machine_first : List Bytes
machine_first = codes "Machine" ∷ codes "User" ∷ []

pick-SameOpen :
    (root machine : Bool)
    → SameOpen its_name (pick user_first root machine) (pick machine_first root machine)
pick-SameOpen true machine = opened (
    listing user_first machine_first (λ a b ma mb e. e)
      (Perm.swap (codes "Machine") (codes "User") []))
pick-SameOpen false true =
    opened
      (listing (codes "Registry.pol" ∷ []) (codes "Registry.pol" ∷ []) (λ a b ma mb e. e) Perm.rfl)
pick-SameOpen false false = Order.refused 13

abbrev stat_root : OpenFile Bytes ℕ → Result ℕ Bytes
stat_root f = ok (codes ".")

abbrev stop_on_error : Visit Bytes (ReadDirError ℕ (DirError ℕ)) → Verdict ℕ
stop_on_error v = elim v.problem [ some y ↦ stop 1 | none ↦ go_on ]

walk-smb_fs_order_example :
    walk its_name is_folder
      (insertion_sorter Bytes)
      no_read_dir
      stop_on_error
      (smb_fs its_name (insertion_sorter Bytes) (share_with user_first))
      stat_root
      3
      (codes ".")
    ≡ walk its_name is_folder
        (insertion_sorter Bytes)
        no_read_dir
        stop_on_error
        (smb_fs its_name (insertion_sorter Bytes) (share_with machine_first))
        stat_root
        3
        (codes ".")
walk-smb_fs_order_example =
    walk-smb_fs_order its_name (insertion_sorter Bytes) (insertion_sorter Bytes) is_folder stat_root
      stop_on_error (share_with user_first) (share_with machine_first)
      (λ path. pick-SameOpen (equal path (codes ".")) (equal path (codes "Machine")))
      (λ f g same. refl) 3 (codes ".")

-- The walk stops at the closed directory.
order_walked :
    walk its_name is_folder
      (insertion_sorter Bytes)
      no_read_dir
      stop_on_error
      (smb_fs its_name (insertion_sorter Bytes) (share_with user_first))
      stat_root
      3
      (codes ".")
    ≡ record {
      calls =
          seen (codes ".") (codes ".")
          ∷ seen (codes "Machine") (codes "Machine")
          ∷ seen (codes "Machine/Registry.pol") (codes "Registry.pol")
          ∷ seen (codes "User") (codes "User")
          ∷ refused (codes "User") (codes "User") (own_error (not_opened 13))
          ∷ [];
      verdict = stop 1;
    }
unfolding walk fs_read_dir equal insertion_sort compare_text read_dir_fs join_path
order_walked = refl
