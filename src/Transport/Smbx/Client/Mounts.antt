-- ===== src/Transport/Smbx/Client/Mounts.antt =====
-- The mounts of internal/transport/smbx/smbx.go: any sequence of calls on a client, from `Dial` on.
use mathlib.Core.Path.{subst}
use opengpm.Base.{
  ℕ, suc, ◌≤◌, inl, inr, Option-cases, arith, List, [], ◌∷◌, ◌++◌, ◌≡◌, refl, sym, ap, ◌∙◌, Bool,
  true, false, ==_refl, Option, none, some, if◌then◌else◌, Result, ok, err, All,
}
use opengpm.Text.{Bytes, equal, equal_iff, codes}
use opengpm.Transport.Smbx.Unc.{Unc, UncError, parse_unc}
use opengpm.Transport.Smbx.Client.{
  CachedShare, Call, mounted, opened, listed, unmounted, logged_off, Client, SmbError, Environment,
  cached, mount_name, after_mount, mount_miss, mount, with_path, resolve_parsed, resolve,
  open_resolved, list_resolved, unmount_all, close_client,
}

-- How often a name was mounted since the session was last logged off.
unfoldable pub mounts : {S E : Type 0} → Bytes → List (Call S E) → ℕ
mounts name [] = 0
mounts name (mounted n (ok s) ∷ calls) =
    let rest = mounts name calls in if equal n name then suc rest else rest
mounts name (mounted n (err e) ∷ calls) = mounts name calls
mounts name (opened s path ∷ calls) = mounts name calls
mounts name (listed s path ∷ calls) = mounts name calls
mounts name (unmounted s ∷ calls) = mounts name calls
mounts name (logged_off ∷ calls) = 0

-- A mount is of a share of the pinned controller.
unfoldable pub IsPinned : {S E : Type 0} → Bytes → Call S E → Type 0
IsPinned dc (mounted n r) = (share : Bytes) × (n ≡ mount_name dc share)
IsPinned dc _ = Unit

abbrev pub count : {S : Type 0} → Option S → ℕ
count none = 0
count (some s) = 1

-- What a client keeps to: its controller, mounts of that controller only, and as many mounts of a
-- share as the cache has.
pub record IsConsistent {S E : Type 0} (dc : Bytes) (c : Client S E) : Type 0 where
  pub pinned : c.dc ≡ dc
  pub mounts_pinned : All (IsPinned dc) c.calls
  pub as_cached :
      (share : Bytes) → mounts (mount_name dc share) c.calls ≡ count (cached share c.shares)

equal-append : (p s t : Bytes) → equal (p ++ s) (p ++ t) ≡ equal s t
unfolding equal
equal-append [] s t = refl
equal-append (c ∷ p) s t = rw (==_refl c, equal-append p s t) refl

equal-mount_name : (dc s t : Bytes) → equal (mount_name dc s) (mount_name dc t) ≡ equal s t
unfolding mount_name equal
equal-mount_name dc s t =
    equal-append dc (codes "\\" ++ s) (codes "\\" ++ t) ∙ equal-append (codes "\\") s t

-- A share that was not in the cache is counted and cached together.
count-added :
    {S : Type 0} (b : Bool) (n : ℕ) (o : Option S) (s : S)
    → n ≡ count o
    → (b ≡ true → o ≡ none)
    → (if b then suc n else n) ≡ count (if b then some s else o)
count-added true n o s same miss = ap suc (same ∙ ap count (miss refl))
count-added false n o s same miss = same

pub IsConsistent-once :
    {S E : Type 0} (dc : Bytes) (c : Client S E)
    → IsConsistent dc c
    → (share : Bytes) → mounts (mount_name dc share) c.calls ≤ 1
IsConsistent-once dc c inv share = elim (Option-cases (cached share c.shares)) [
  | inl e ↦ omega (arith, inv.as_cached share, ap count e)
  | inr (s, e) ↦ omega (arith, inv.as_cached share, ap count e)
]

module _ {S F I E : Type 0} (env : Environment S F I E) (dc : Bytes) where
  mount_name-IsPinned :
      (c : Client S E) (share : Bytes) (r : Result E S)
      → c.dc ≡ dc
      → IsPinned dc (mounted (mount_name c.dc share) r)
  unfolding IsPinned
  mount_name-IsPinned c share r pinned = (share, ap (λ d. mount_name d share) pinned)

  after_mount-IsConsistent :
      (c : Client S E) (share : Bytes) (r : Result E S)
      → cached share c.shares ≡ none
      → IsConsistent dc c
      → IsConsistent dc (after_mount env c share r).1
  unfolding after_mount mounts cached
  after_mount-IsConsistent c share (err e) miss inv = record {
    pinned = inv.pinned;
    mounts_pinned = (mount_name-IsPinned c share (err e) inv.pinned, inv.mounts_pinned);
    as_cached = inv.as_cached;
  }
  after_mount-IsConsistent c share (ok s) miss inv = record {
    pinned = inv.pinned;
    mounts_pinned = (mount_name-IsPinned c share (ok s) inv.pinned, inv.mounts_pinned);
    as_cached = λ name.
        let same_test =
          subst (λ d. equal (mount_name d share) (mount_name dc name) ≡ equal share name)
            (sym inv.pinned) (equal-mount_name dc share name) in
        let missed : equal share name ≡ true → cached name c.shares ≡ none =
          λ h. subst (λ n. cached n c.shares ≡ none) ((equal_iff share name).0 h) miss in
        rw same_test (
          count-added (equal share name) (mounts (mount_name dc name) c.calls)
            (cached name c.shares) s (inv.as_cached name) missed);
  }

  mount_miss-IsConsistent :
      (c : Client S E) (share : Bytes) (o : Option S)
      → cached share c.shares ≡ o
      → IsConsistent dc c
      → IsConsistent dc (mount_miss env c share o).1
  unfolding mount_miss
  mount_miss-IsConsistent c share (some s) found inv = inv
  mount_miss-IsConsistent c share none miss inv =
      after_mount-IsConsistent c share (env.mount_share c.calls (mount_name c.dc share)) miss inv

  pub mount-IsConsistent :
      (c : Client S E) (share : Bytes) → IsConsistent dc c → IsConsistent dc (mount env c share).1
  unfolding mount
  mount-IsConsistent c share = mount_miss-IsConsistent c share (cached share c.shares) refl

  with_path-keeps :
      (path : Bytes) (r : Result (SmbError E) S × Client S E)
      → IsConsistent dc r.1
      → IsConsistent dc (with_path env path r).1
  unfolding with_path
  with_path-keeps path (ok s, c) inv = inv
  with_path-keeps path (err e, c) inv = inv

  resolve_parsed-IsConsistent :
      (c : Client S E) (u : Result UncError Unc)
      → IsConsistent dc c
      → IsConsistent dc (resolve_parsed env c u).1
  unfolding resolve_parsed
  resolve_parsed-IsConsistent c (err e) inv = inv
  resolve_parsed-IsConsistent c (ok u) inv =
      with_path-keeps u.path (mount env c u.share) (mount-IsConsistent c u.share inv)

  pub resolve-IsConsistent :
      (c : Client S E) (unc_path : Bytes)
      → IsConsistent dc c
      → IsConsistent dc (resolve env c unc_path).1
  unfolding resolve
  resolve-IsConsistent c unc_path = resolve_parsed-IsConsistent c (parse_unc env.wide unc_path)

  pub open_resolved-keeps :
      (unc_path : Bytes) (r : Result (SmbError E) (S × Bytes) × Client S E)
      → IsConsistent dc r.1
      → IsConsistent dc (open_resolved env unc_path r).1
  unfolding open_resolved IsPinned mounts
  open_resolved-keeps unc_path (err e, c) inv = inv
  open_resolved-keeps unc_path (ok (s, path), c) inv = record {
    pinned = inv.pinned;
    mounts_pinned = (tt, inv.mounts_pinned);
    as_cached = inv.as_cached;
  }

  pub list_resolved-keeps :
      (unc_path : Bytes) (r : Result (SmbError E) (S × Bytes) × Client S E)
      → IsConsistent dc r.1
      → IsConsistent dc (list_resolved env unc_path r).1
  unfolding list_resolved IsPinned mounts
  list_resolved-keeps unc_path (err e, c) inv = inv
  list_resolved-keeps unc_path (ok (s, path), c) inv = record {
    pinned = inv.pinned;
    mounts_pinned = (tt, inv.mounts_pinned);
    as_cached = inv.as_cached;
  }

  unmount_all-IsPinned :
      (cs : List (CachedShare S)) (calls : List (Call S E))
      → All (IsPinned dc) calls
      → All (IsPinned dc) (unmount_all env cs calls).1
  unfolding unmount_all IsPinned
  unmount_all-IsPinned [] calls h = h
  unmount_all-IsPinned (c ∷ cs) calls h =
      unmount_all-IsPinned cs (unmounted c.share ∷ calls) (tt, h)

  pub close_client-IsConsistent :
      (c : Client S E) → IsConsistent dc c → IsConsistent dc (close_client env c).1
  unfolding close_client IsPinned mounts cached
  close_client-IsConsistent c inv = record {
    pinned = inv.pinned;
    mounts_pinned = (tt, unmount_all-IsPinned (env.map_order c.shares) c.calls inv.mounts_pinned);
    as_cached = λ name. refl;
  }
