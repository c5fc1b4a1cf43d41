-- ===== src/Transport/Smbx/Client/Runs.antt =====
-- Any sequence of calls on a client of internal/transport/smbx/smbx.go, and its `Close`.
use mathlib.Core.List.{Perm}
use opengpm.Base.{
  ◌≤◌, List, [], ◌∷◌, ◌++◌, map, reverse, reverse-append, append_assoc, ◌≡◌, refl, sym, ap, ◌∙◌,
  All,
}
use opengpm.Text.{Bytes}
use opengpm.Transport.Smbx.Client.{
  CachedShare, Call, unmounted, logged_off, Client, Environment, cached, mount_name, resolve,
  open_unc, read_dir_unc, fs_unc, unmount_all, close_client,
}
use opengpm.Transport.Smbx.Client.Mounts.{
  mounts, IsPinned, IsConsistent-once, IsConsistent, resolve-IsConsistent, open_resolved-keeps,
  list_resolved-keeps, close_client-IsConsistent,
}

-- The methods of `Client`.
pub data Method : Type 0 where
  open_method read_dir_method fs_method : Bytes → Method
  close_method : Method

module _ {S F I E : Type 0} (env : Environment S F I E) where
  -- The client that `Dial` returns.
  unfoldable pub fresh : Bytes → Client S E
  fresh dc = record { dc = dc; shares = []; calls = [] }

  unfoldable pub call_method : Client S E → Method → Client S E
  unfolding open_unc read_dir_unc fs_unc close_client
  call_method c (open_method unc_path) = (open_unc env c unc_path).1
  call_method c (read_dir_method unc_path) = (read_dir_unc env c unc_path).1
  call_method c (fs_method unc_path) = (fs_unc env c unc_path).1
  call_method c close_method = (close_client env c).1

  unfoldable pub call_all : Client S E → List Method → Client S E
  unfolding call_method
  call_all c [] = c
  call_all c (m ∷ ms) = call_all (call_method c m) ms

  call_method-IsConsistent :
      (dc : Bytes) (c : Client S E) (m : Method)
      → IsConsistent dc c
      → IsConsistent dc (call_method c m)
  unfolding call_method open_unc read_dir_unc fs_unc
  call_method-IsConsistent dc c (open_method p) inv =
      open_resolved-keeps env dc p (resolve env c p) (resolve-IsConsistent env dc c p inv)
  call_method-IsConsistent dc c (read_dir_method p) inv =
      list_resolved-keeps env dc p (resolve env c p) (resolve-IsConsistent env dc c p inv)
  call_method-IsConsistent dc c (fs_method p) inv = resolve-IsConsistent env dc c p inv
  call_method-IsConsistent dc c close_method inv = close_client-IsConsistent env dc c inv

  call_all-IsConsistent :
      (dc : Bytes) (c : Client S E) (ms : List Method)
      → IsConsistent dc c
      → IsConsistent dc (call_all c ms)
  unfolding call_all
  call_all-IsConsistent dc c [] inv = inv
  call_all-IsConsistent dc c (m ∷ ms) inv =
      call_all-IsConsistent dc (call_method c m) ms (call_method-IsConsistent dc c m inv)

  pub fresh-IsConsistent : (dc : Bytes) → IsConsistent dc (fresh dc)
  unfolding fresh mounts cached
  fresh-IsConsistent dc = record { pinned = refl; mounts_pinned = tt; as_cached = λ name. refl }

  -- Whatever methods are called on a client from `Dial` on, in whatever order and whatever the
  -- server answers: each mount that is tried is of a share of the pinned controller, and since the
  -- last `Close` no share was mounted more than once.
  pub call_all-mounts :
      (dc : Bytes) (ms : List Method)
      → All (IsPinned dc) (call_all (fresh dc) ms).calls
        × ((share : Bytes) → mounts (mount_name dc share) (call_all (fresh dc) ms).calls ≤ 1)
  call_all-mounts dc ms =
      let inv = call_all-IsConsistent dc (fresh dc) ms (fresh-IsConsistent dc) in
      (inv.mounts_pinned, λ share. IsConsistent-once dc (call_all (fresh dc) ms) inv share)

  abbrev pub unmount_call : CachedShare S → Call S E
  unmount_call c = unmounted c.share

  unmount_all-calls :
      (cs : List (CachedShare S)) (calls : List (Call S E))
      → (unmount_all env cs calls).1 ≡ reverse (map unmount_call cs) ++ calls
  unfolding unmount_all
  unmount_all-calls [] calls = refl
  unmount_all-calls (c ∷ cs) calls =
      unmount_all-calls cs (unmounted c.share ∷ calls)
      ∙ sym (append_assoc (reverse (map unmount_call cs)) (unmount_call c ∷ []) calls)
      ∙ ap (λ l. l ++ calls) (sym (reverse-append (unmount_call c ∷ []) (map unmount_call cs)))

  -- `Close` unmounts each cached share once, whichever order the loop over the map takes, then logs
  -- off, whatever failed before, and leaves an empty cache.
  pub close_client-unmounts :
      (c : Client S E)
      → ((cs : List (CachedShare S)) → Perm (env.map_order cs) cs)
      → (cs : List (CachedShare S)) × Perm cs c.shares
        × ((close_client env c).1.calls ≡ logged_off ∷ (reverse (map unmount_call cs) ++ c.calls))
        × ((close_client env c).1.shares ≡ [])
  unfolding close_client
  close_client-unmounts c order = (
    env.map_order c.shares,
    order c.shares,
    ap (λ calls. logged_off ∷ calls) (unmount_all-calls (env.map_order c.shares) c.calls),
    refl,
  )
