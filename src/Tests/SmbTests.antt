-- ===== src/Tests/SmbTests.antt =====
-- `Client` of internal/transport/smbx/smbx.go against a server that has every share.
use mathlib.Core.List.{Perm}
use mathlib.Core.List.Perm as rearrangements
use opengpm.Base.{
  ℕ, List, [], ◌∷◌, ◌++◌, map, reverse, ◌≡◌, refl, none, Result, ok, err, Bool, true, false,
  if◌then◌else◌,
}
use opengpm.Base.Sort.Insertion.{insertion_sorter, insertion_sort}
use opengpm.Text.{Bytes, codes, equal}
use opengpm.Text.Case.{to_upper, upper_byte}
use opengpm.Text.Fields.{index_func, fields_func, fields_from, flush, join}
use opengpm.Transport.Smbx.Unc.{parse_unc, cut_func, path_of}
use opengpm.Transport.Discover.{compare_text}
use opengpm.Transport.Smbx.DirFs.{OpenFile, os_style, read_dir_fs, Lists, read_dir_fs-Lists}
use opengpm.Transport.Smbx.Client.{
  CachedShare, Call, mounted, opened, listed, unmounted, logged_off, Client, Environment,
  mount_name, open_unc, read_dir_unc, fs_unc, close_client,
}
use opengpm.Transport.Smbx.Client.Caching.{
  has_ended, IsAttached, IsUnchanging, emptied, call_all-cache,
}
use opengpm.Transport.Smbx.Client.Runs.{
  Method, open_method, close_method, fresh, call_all, unmount_call, close_client-unmounts,
}

-- Shares, files, infos and errors are numbers here.
abbrev pub server : Environment ℕ ℕ ℕ ℕ
server = record {
  wide = λ s. s;
  mount_share = λ calls name. ok 5;
  open_file = λ calls s path. ok 7;
  read_dir = λ calls s path. ok [];
  umount = λ calls s. none;
  logoff = λ calls. none;
  info_name = λ i. i ∷ [];
  info_sorter = insertion_sorter ℕ;
  map_order = λ cs. cs;
}

abbrev pub dc : Bytes
dc = codes "dc1"

-- Two spellings of one share, then a close, then the share again.
abbrev pub methods : List Method
methods =
    open_method (codes "\\\\gplab\\SysVol\\a")
    ∷ open_method (codes "//gplab/SYSVOL/b")
    ∷ close_method
    ∷ open_method (codes "\\\\gplab\\SysVol\\c")
    ∷ []

mounts_again_after_close :
    (call_all server (fresh server dc) methods).calls
    ≡ opened 5 (codes "c")
      ∷ mounted (codes "\\\\dc1\\SYSVOL") (ok 5)
      ∷ logged_off
      ∷ unmounted 5
      ∷ opened 5 (codes "b")
      ∷ opened 5 (codes "a")
      ∷ mounted (codes "\\\\dc1\\SYSVOL") (ok 5)
      ∷ []
unfolding call_all fresh open_unc parse_unc cut_func path_of index_func fields_func fields_from
    flush join to_upper upper_byte mount_name equal
mounts_again_after_close = refl

-- A server that answers on a share only as long as it is mounted, and mounts none after a log-off.
abbrev in_use : List (Call ℕ ℕ) → Bool
in_use [] = false
in_use (mounted n (ok t) ∷ calls) = true
in_use (mounted n (err e) ∷ calls) = in_use calls
in_use (opened t path ∷ calls) = in_use calls
in_use (listed t path ∷ calls) = in_use calls
in_use (unmounted t ∷ calls) = false
in_use (logged_off ∷ calls) = false

abbrev session_server : Environment ℕ ℕ ℕ ℕ
session_server = record server {
  mount_share = λ calls name. if has_ended calls then err 1 else ok 5;
  open_file = λ calls s path. if in_use calls then ok 7 else err 2;
  read_dir = λ calls s path. if in_use calls then ok (9 ∷ 2 ∷ []) else err 2;
}

in_use_attached : (s : ℕ) (calls : List (Call ℕ ℕ)) → IsAttached s calls → in_use calls ≡ true
unfolding IsAttached
in_use_attached s [] h = absurd h
in_use_attached s (mounted n (ok t) ∷ calls) h = refl
in_use_attached s (mounted n (err e) ∷ calls) h = in_use_attached s calls h
in_use_attached s (opened t path ∷ calls) h = in_use_attached s calls h
in_use_attached s (listed t path ∷ calls) h = in_use_attached s calls h
in_use_attached s (unmounted t ∷ calls) h = absurd h
in_use_attached s (logged_off ∷ calls) h = absurd h

session_server-IsUnchanging : IsUnchanging session_server
session_server-IsUnchanging = record {
  same_mount = λ calls calls' name same. rw same refl;
  same_file = λ calls calls' s path held held'.
      rw (in_use_attached s calls held, in_use_attached s calls' held') refl;
  same_dir = λ calls calls' s path held held'.
      rw (in_use_attached s calls held, in_use_attached s calls' held') refl;
}

-- What the methods leave, and the same with an empty cache.
abbrev left : Client ℕ ℕ
left = call_all session_server (fresh session_server dc) methods

call_all-cache_example :
    ((open_unc session_server left (codes "//gplab/SysVol/d")).0
      ≡ (open_unc session_server (emptied left) (codes "//gplab/SysVol/d")).0)
    × ((read_dir_unc session_server left (codes "//gplab/SysVol/d")).0
        ≡ (read_dir_unc session_server (emptied left) (codes "//gplab/SysVol/d")).0)
    × ((fs_unc session_server left (codes "//gplab/SysVol/d")).0
        ≡ (fs_unc session_server (emptied left) (codes "//gplab/SysVol/d")).0)
call_all-cache_example =
    call_all-cache session_server session_server-IsUnchanging dc methods (codes "//gplab/SysVol/d")

abbrev busy : Client ℕ ℕ
busy = record {
  dc = dc;
  shares =
      record { name = codes "SYSVOL"; share = 5 }
      ∷ record { name = codes "NETLOGON"; share = 6 }
      ∷ [];
  calls = [];
}

close_client-unmounts_example :
    (cs : List (CachedShare ℕ)) × Perm cs busy.shares
    × ((close_client server busy).1.calls
        ≡ logged_off ∷ (reverse (map (unmount_call server) cs) ++ []))
    × ((close_client server busy).1.shares ≡ [])
close_client-unmounts_example = close_client-unmounts server busy (λ cs. rearrangements.rfl)

-- A directory with two entries that the server lists out of order.
abbrev two_entries : Result ℕ (OpenFile ℕ ℕ)
two_entries = ok (os_style (ok (9 ∷ 2 ∷ [])))

abbrev named : ℕ → Bytes
named i = i ∷ []

lists_by_name : (read_dir_fs named (insertion_sorter ℕ) dc two_entries).result ≡ ok (2 ∷ 9 ∷ [])
unfolding read_dir_fs insertion_sort compare_text
lists_by_name = refl

read_dir_fs-Lists_example :
    Lists named
      (insertion_sorter ℕ)
      dc
      two_entries
      (read_dir_fs named (insertion_sorter ℕ) dc two_entries)
read_dir_fs-Lists_example = read_dir_fs-Lists named (insertion_sorter ℕ) dc two_entries
