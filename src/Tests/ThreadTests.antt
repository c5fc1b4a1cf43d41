-- ===== src/Tests/ThreadTests.antt =====
-- Goroutines on one `Client` of internal/transport/smbx/smbx.go: one of them closes it while another
-- one has its share in hand.
use mathlib.Core.List.Permᴰ as rearrangements
use opengpm.Base.{ℕ, ◌≤◌, [], ◌∷◌, refl, none, ok, All}
use opengpm.Text.{Bytes, codes, equal}
use opengpm.Text.Case.{to_upper, upper_byte}
use opengpm.Text.Fields.{index_func, fields_func, fields_from, flush, join}
use opengpm.Transport.Smbx.Unc.{Unc, parse_unc, cut_func, path_of}
use opengpm.Transport.Smbx.Client.{
  CachedShare, mounted, opened, unmounted, logged_off, mount_name, mount, mount_miss, after_mount,
  cached,
}
use opengpm.Transport.Smbx.Client.Mounts.{mounts, IsPinned}
use opengpm.Transport.Smbx.Client.Runs.{fresh}
use opengpm.Transport.Smbx.Threads.{
  open_aim, fs_aim, root_used, idle, wants, holds, System, set_at, resume, use_share, rooted, start,
  locked_mount, used, close_started, close_unmounts, close_done, Reach, dialled_state, next,
}
use opengpm.Transport.Smbx.Threads.Uses.{UsesMounted}
use opengpm.Transport.Smbx.Threads.Interleavings.{Reach-mounts}
use opengpm.Tests.SmbTests.{server, dc}

abbrev file : Unc
file = record { domain = codes "gplab"; share = codes "SYSVOL"; path = codes "a" }

abbrev sysvol : CachedShare ℕ
sysvol = record { name = codes "SYSVOL"; share = 5 }

-- The goroutine 0 gets the share, and 1 a file system on it; the client is closed; then 0 opens its
-- file, and the file system opens another.
abbrev pub closed_under : System ℕ ℕ
closed_under = record {
  client = record {
    dc = dc;
    shares = [];
    calls =
        opened 5 (codes "b")
        ∷ opened 5 (codes "a")
        ∷ logged_off
        ∷ unmounted 5
        ∷ mounted (codes "\\\\dc1\\SYSVOL") (ok 5)
        ∷ [];
  };
  closing = none;
  pc =
      set_at
        (set_at
          (set_at
            (set_at
              (set_at (set_at (λ i. idle) 0 (wants open_aim file.share file.path)) 0
                (holds open_aim 5 (codes "a")))
              1 (wants fs_aim file.share file.path))
            1 (holds fs_aim 5 (codes "a")))
          1 idle)
        0 idle;
  roots = 5 ∷ [];
}

pub closed_under_reached : Reach server dc closed_under
unfolding fresh parse_unc cut_func path_of index_func fields_func fields_from flush join to_upper
    upper_byte mount mount_miss after_mount cached mount_name equal resume use_share rooted
closed_under_reached =
    let unc = codes "\\\\gplab\\SysVol\\a" in
    let both_hold =
      next
        (next
          (next
            (next (next dialled_state (start 0 open_aim unc file refl refl))
              (locked_mount 0 open_aim file.share file.path refl refl))
            (start 1 fs_aim unc file refl refl))
          (locked_mount 1 fs_aim file.share file.path refl refl))
        (used 1 fs_aim 5 (codes "a") refl) in
    let closed =
      next
        (next
          (next both_hold (close_started (sysvol ∷ []) refl (rearrangements.refl (sysvol ∷ []))))
          (close_unmounts sysvol [] refl))
        (close_done refl) in
    next (next closed (used 0 open_aim 5 (codes "a") refl)) (root_used [] [] 5 (codes "b") refl)

Reach-mounts_example :
    All (IsPinned dc) closed_under.client.calls
    × ((share : Bytes) → mounts (mount_name dc share) closed_under.client.calls ≤ 1)
    × UsesMounted closed_under.client.calls
Reach-mounts_example = Reach-mounts server dc closed_under_reached
