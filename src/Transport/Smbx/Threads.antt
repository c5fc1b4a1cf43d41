-- ===== src/Transport/Smbx/Threads.antt =====
-- `Client` of internal/transport/smbx/smbx.go under many goroutines. The mutex covers a mount, and
-- the whole of `Close`; parsing and the calls on a mounted share are outside of it. So a goroutine
-- may use a share while another one closes the client.
pub mod Interleavings
pub mod Sequential
pub mod Uses
use mathlib.Core.List.{Permᴰ}
use opengpm.Base.{
  ℕ, ◌==◌, List, [], ◌∷◌, ◌++◌, ◌≡◌, refl, Bool, true, false, Option, none, some, if◌then◌else◌,
  Result, ok, err,
}
use opengpm.Text.{Bytes}
use opengpm.Transport.Smbx.Unc.{Unc, parse_unc}
use opengpm.Transport.Smbx.Client.{
  CachedShare, Call, opened, listed, unmounted, logged_off, Client, SmbError, Environment, mount,
}
use opengpm.Transport.Smbx.Client.Runs.{fresh}

-- What a goroutine is after once it has its share: a file, a directory, or a file system.
pub data Aim : Type 0 where
  open_aim read_dir_aim fs_aim : Aim

-- Where a goroutine stands: idle, about to lock the mutex for a mount, or with a mounted share.
pub data Pc (S : Type 0) : Type 0 where
  idle : Pc S
  wants : Aim → Bytes → Bytes → Pc S
  holds : Aim → S → Bytes → Pc S

-- The client, the shares that a running `Close` has still to unmount, the goroutines, and the shares
-- behind the file systems that `FS` has returned.
pub record System (S E : Type 0) : Type 0 where
  pub client : Client S E
  pub closing : Option (List (CachedShare S))
  pub pc : ℕ → Pc S
  pub roots : List S

abbrev pub set_at : {A : Type 0} → (ℕ → A) → ℕ → A → ℕ → A
set_at f i a j = if j == i then a else f j

-- What a goroutine goes on with after `mount`.
unfoldable pub resume : {S E : Type 0} → Aim → Bytes → Result (SmbError E) S → Pc S
resume aim path (ok s) = holds aim s path
resume aim path (err e) = idle

-- The call on the share: `Open`, `ReadDir`, and none for `DirFS`, which only keeps it.
unfoldable pub use_share : {S E : Type 0} → Aim → S → Bytes → List (Call S E) → List (Call S E)
use_share open_aim s path calls = opened s path ∷ calls
use_share read_dir_aim s path calls = listed s path ∷ calls
use_share fs_aim s path calls = calls

unfoldable pub rooted : {S : Type 0} → Aim → S → List S → List S
rooted fs_aim s roots = s ∷ roots
rooted _ s roots = roots

module _ {S F I E : Type 0} (env : Environment S F I E) where
  -- Any goroutine may take the next step. A path that does not parse changes nothing.
  pub data Step (x : System S E) : System S E → Type 0 where
    start :
        (i : ℕ) (aim : Aim) (unc_path : Bytes) (u : Unc)
        → x.pc i ≡ idle
        → parse_unc env.wide unc_path ≡ ok u
        → Step x (record x { pc = set_at x.pc i (wants aim u.share u.path) })
    locked_mount :
        (i : ℕ) (aim : Aim) (share path : Bytes)
        → x.pc i ≡ wants aim share path
        → x.closing ≡ none
        → Step x (record {
          client = (mount env x.client share).1;
          closing = x.closing;
          pc = set_at x.pc i (resume aim path (mount env x.client share).0);
          roots = x.roots;
        })
    used :
        (i : ℕ) (aim : Aim) (s : S) (path : Bytes)
        → x.pc i ≡ holds aim s path
        → Step x (record {
          client = record x.client { calls = use_share aim s path x.client.calls };
          closing = x.closing;
          pc = set_at x.pc i idle;
          roots = rooted aim s x.roots;
        })
    -- `Open` and `ReadDir` of such a file system open a path on its share.
    root_used :
        (front behind : List S) (s : S) (path : Bytes)
        → x.roots ≡ front ++ s ∷ behind
        → Step x (record x { client = record x.client { calls = opened s path ∷ x.client.calls } })
    close_started :
        (cs : List (CachedShare S))
        → x.closing ≡ none
        → Permᴰ x.client.shares cs
        → Step x (record x { closing = some cs })
    close_unmounts :
        (c : CachedShare S) (cs : List (CachedShare S))
        → x.closing ≡ some (c ∷ cs)
        → Step x (record {
          client = record x.client { calls = unmounted c.share ∷ x.client.calls };
          closing = some cs;
          pc = x.pc;
          roots = x.roots;
        })
    close_done :
        x.closing ≡ some []
        → Step x (record {
          client = record x.client { shares = []; calls = logged_off ∷ x.client.calls };
          closing = none;
          pc = x.pc;
          roots = x.roots;
        })

  -- From the client that `Dial` returns, with all goroutines idle.
  pub data Reach (dc : Bytes) : System S E → Type 0 where
    dialled_state :
        Reach dc (record { client = fresh env dc; closing = none; pc = λ i. idle; roots = [] })
    next : {x y : System S E} → Reach dc x → Step x y → Reach dc y
