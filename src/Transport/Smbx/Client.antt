-- ===== src/Transport/Smbx/Client.antt =====
-- internal/transport/smbx/smbx.go: `Client`, an SMB session against one pinned domain controller.
-- Texts are code points, as in Unc. go-smb2 is a parameter: what it answers is a function of the calls made before. A client holds
-- the list of these calls, latest first. The mutex makes each mount and each close one step.
pub mod Mounts
pub mod Runs
pub mod Caching
use opengpm.Base.{
  ℕ, zero, suc, ◌+◌, List, [], ◌∷◌, ◌++◌, map, Bool, true, false, Option, none, some, if◌then◌else◌,
  Result, ok, err,
}
use opengpm.Base.Sort.{Sorter}
use opengpm.Text.{Bytes, codes, equal}
use opengpm.Transport.Smbx.DirFs.{dir_entries}
use opengpm.Transport.Smbx.Unc.{Unc, UncError, parse_unc}

-- An entry of the map `shares`.
pub record CachedShare (S : Type 0) : Type 0 where
  pub name : Bytes
  pub share : S

-- The calls of go-smb2, with what a mount and a log-off answered.
pub data Call (S E : Type 0) : Type 0 where
  mounted : Bytes → Result E S → Call S E
  opened : S → Bytes → Call S E
  listed : S → Bytes → Call S E
  unmounted : S → Call S E
  logged_off : Call S E

pub record Client (S E : Type 0) : Type 0 where
  pub dc : Bytes
  pub shares : List (CachedShare S)
  pub calls : List (Call S E)

pub data SmbError (E : Type 0) : Type 0 where
  bad_unc : UncError → SmbError E
  mounting opening listing : Bytes → E → SmbError E
  unmounting logging_off : Bytes → E → SmbError E

-- Shares are `S`, files `F`, file infos `I` and errors `E`.
pub record Environment (S F I E : Type 0) : Type 0 where
  pub wide : Bytes → Bytes
  pub mount_share : List (Call S E) → Bytes → Result E S
  pub open_file : List (Call S E) → S → Bytes → Result E F
  pub read_dir : List (Call S E) → S → Bytes → Result E (List I)
  pub umount : List (Call S E) → S → Option E
  pub logoff : List (Call S E) → Option E
  pub info_name : I → Bytes
  pub info_sorter : Sorter I
  -- the order in which a loop meets the entries of the map
  pub map_order : List (CachedShare S) → List (CachedShare S)

unfoldable pub cached : {S : Type 0} → Bytes → List (CachedShare S) → Option S
cached name [] = none
cached name (c ∷ cs) = let rest = cached name cs in if equal c.name name then some c.share else rest

-- `\\<dc>\<share>`
unfoldable pub mount_name : Bytes → Bytes → Bytes
mount_name dc share = codes "\\\\" ++ (dc ++ (codes "\\" ++ share))

module _ {S F I E : Type 0} (env : Environment S F I E) where
  -- The cache is written if the mount succeeds.
  unfoldable pub after_mount : Client S E → Bytes → Result E S → Result (SmbError E) S × Client S E
  after_mount c share (err e) = (
    err (mounting (mount_name c.dc share) e),
    record c { calls = mounted (mount_name c.dc share) (err e) ∷ c.calls },
  )
  after_mount c share (ok s) = (
    ok s,
    record {
      dc = c.dc;
      shares = record { name = share; share = s } ∷ c.shares;
      calls = mounted (mount_name c.dc share) (ok s) ∷ c.calls;
    },
  )

  unfoldable pub mount_miss : Client S E → Bytes → Option S → Result (SmbError E) S × Client S E
  unfolding after_mount
  mount_miss c share (some s) = (ok s, c)
  mount_miss c share none = after_mount c share (env.mount_share c.calls (mount_name c.dc share))

  -- `mount`
  unfoldable pub mount : Client S E → Bytes → Result (SmbError E) S × Client S E
  unfolding mount_miss cached
  mount c share = mount_miss c share (cached share c.shares)

  unfoldable pub with_path :
      Bytes → Result (SmbError E) S × Client S E → Result (SmbError E) (S × Bytes) × Client S E
  with_path path (ok s, c) = (ok (s, path), c)
  with_path path (err e, c) = (err e, c)

  unfoldable pub resolve_parsed :
      Client S E → Result UncError Unc → Result (SmbError E) (S × Bytes) × Client S E
  unfolding with_path mount
  resolve_parsed c (err e) = (err (bad_unc e), c)
  resolve_parsed c (ok u) = with_path u.path (mount c u.share)

  -- `resolve`
  unfoldable pub resolve : Client S E → Bytes → Result (SmbError E) (S × Bytes) × Client S E
  unfolding resolve_parsed
  resolve c unc_path = resolve_parsed c (parse_unc env.wide unc_path)

  unfoldable pub answer :
      {A B : Type 0}
      → (Bytes → E → SmbError E)
      → Bytes
      → (A → B)
      → Result E A
      → Result (SmbError E) B
  answer wrap unc_path f (err e) = err (wrap unc_path e)
  answer wrap unc_path f (ok a) = ok (f a)

  unfoldable pub open_resolved :
      Bytes → Result (SmbError E) (S × Bytes) × Client S E → Result (SmbError E) F × Client S E
  unfolding answer
  open_resolved unc_path (err e, c) = (err e, c)
  open_resolved unc_path (ok (s, path), c) = (
    answer opening unc_path (λ f. f) (env.open_file c.calls s path),
    record c { calls = opened s path ∷ c.calls },
  )

  -- `Client.Open`
  unfoldable pub open_unc : Client S E → Bytes → Result (SmbError E) F × Client S E
  unfolding open_resolved resolve
  open_unc c unc_path = open_resolved unc_path (resolve c unc_path)

  unfoldable pub list_resolved :
      Bytes
      → Result (SmbError E) (S × Bytes) × Client S E
      → Result (SmbError E) (List I) × Client S E
  unfolding answer dir_entries
  list_resolved unc_path (err e, c) = (err e, c)
  list_resolved unc_path (ok (s, path), c) = (
    answer listing unc_path (dir_entries env.info_name env.info_sorter)
        (env.read_dir c.calls s path),
    record c { calls = listed s path ∷ c.calls },
  )

  -- `Client.ReadDir`
  unfoldable pub read_dir_unc : Client S E → Bytes → Result (SmbError E) (List I) × Client S E
  unfolding list_resolved resolve
  read_dir_unc c unc_path = list_resolved unc_path (resolve c unc_path)

  -- `Client.FS`: the share and the directory that the file system is rooted at.
  unfoldable pub fs_unc : Client S E → Bytes → Result (SmbError E) (S × Bytes) × Client S E
  unfolding resolve
  fs_unc c unc_path = resolve c unc_path

  unfoldable pub note : (E → SmbError E) → Option E → List (SmbError E)
  note wrap none = []
  note wrap (some e) = wrap e ∷ []

  -- The loop of `Close`: the errors in order, and the calls.
  unfoldable pub unmount_all :
      List (CachedShare S) → List (Call S E) → List (SmbError E) × List (Call S E)
  unfolding note
  unmount_all [] calls = ([], calls)
  unmount_all (c ∷ cs) calls =
      let (errs, calls') = unmount_all cs (unmounted c.share ∷ calls) in
      (note (unmounting c.name) (env.umount calls c.share) ++ errs, calls')

  -- `Client.Close`: the joined errors; none is success.
  unfoldable pub close_client : Client S E → List (SmbError E) × Client S E
  unfolding unmount_all note
  close_client c =
      let (errs, calls) = unmount_all (env.map_order c.shares) c.calls in
      (
        errs ++ note (logging_off c.dc) (env.logoff calls),
        record { dc = c.dc; shares = []; calls = logged_off ∷ calls },
      )
