-- ===== src/Transport/Smbx/Client/Caching.antt =====
-- The cache of mounts in internal/transport/smbx/smbx.go, as seen by a caller of `Client`.
use mathlib.Core.Path.{subst}
use opengpm.Base.{
  List, [], ◌∷◌, ◌≡◌, ◌⊎◌, Bool, true, false, All-imp, refl, ap, ◌∙◌, inl, inr, Bool-cases, Option,
  none, some, Result, ok, err, arith, All,
}
use opengpm.Text.{Bytes, equal, equal_iff}
use opengpm.Transport.Smbx.Unc.{Unc, UncError, parse_unc}
use opengpm.Transport.Smbx.DirFs.{dir_entries}
use opengpm.Transport.Smbx.Client.{
  CachedShare, Call, Client, SmbError, opening, listing, Environment, cached, mount_name, mounted,
  opened, listed, unmounted, logged_off, after_mount, mount_miss, mount, with_path, resolve_parsed,
  resolve, answer, open_resolved, open_unc, list_resolved, read_dir_unc, fs_unc, close_client,
}
use opengpm.Transport.Smbx.Client.Runs.{
  Method, open_method, read_dir_method, fs_method, close_method, fresh, call_method, call_all,
}

-- Whether the session was logged off.
unfoldable pub has_ended : {S E : Type 0} → List (Call S E) → Bool
has_ended [] = false
has_ended (logged_off ∷ calls) = true
has_ended (mounted n r ∷ calls) = has_ended calls
has_ended (opened s path ∷ calls) = has_ended calls
has_ended (listed s path ∷ calls) = has_ended calls
has_ended (unmounted s ∷ calls) = has_ended calls

-- The share was mounted, and since then nothing was unmounted and the session not logged off.
unfoldable pub IsAttached : {S E : Type 0} → S → List (Call S E) → Type 0
IsAttached s [] = ⊥
IsAttached s (mounted n (ok t) ∷ calls) = (t ≡ s) ⊎ IsAttached s calls
IsAttached s (mounted n (err e) ∷ calls) = IsAttached s calls
IsAttached s (opened t path ∷ calls) = IsAttached s calls
IsAttached s (listed t path ∷ calls) = IsAttached s calls
IsAttached s (unmounted t ∷ calls) = ⊥
IsAttached s (logged_off ∷ calls) = ⊥

-- A server whose shares and files stay what they are; a share is what can be reached by it. Nothing is asked of a share that was
-- unmounted or whose session was logged off, and a session may answer otherwise once it is.
pub record IsUnchanging {S F I E : Type 0} (env : Environment S F I E) : Type 0 where
  pub same_mount :
      (calls calls' : List (Call S E)) (name : Bytes)
      → has_ended calls ≡ has_ended calls'
      → env.mount_share calls name ≡ env.mount_share calls' name
  pub same_file :
      (calls calls' : List (Call S E)) (s : S) (path : Bytes)
      → IsAttached s calls
      → IsAttached s calls'
      → env.open_file calls s path ≡ env.open_file calls' s path
  pub same_dir :
      (calls calls' : List (Call S E)) (s : S) (path : Bytes)
      → IsAttached s calls
      → IsAttached s calls'
      → env.read_dir calls s path ≡ env.read_dir calls' s path

-- The same client, with the same session and nothing in its cache.
unfoldable pub emptied : {S E : Type 0} → Client S E → Client S E
emptied c = record c { shares = [] }

module _ {S F I E : Type 0} (env : Environment S F I E) (same : IsUnchanging env) where
  -- An entry is in use, and is what a mount would give.
  abbrev IsMount : Client S E → CachedShare S → Type 0
  IsMount c e =
      (env.mount_share c.calls (mount_name c.dc e.name) ≡ ok e.share) × IsAttached e.share c.calls

  abbrev Agrees : Client S E → Type 0
  Agrees c = All (IsMount c) c.shares

  -- What a call leaves in use.
  record Keeps (c d : Client S E) : Type 0 where
    same_dc : d.dc ≡ c.dc
    same_end : has_ended d.calls ≡ has_ended c.calls
    attached : (s : S) → IsAttached s c.calls → IsAttached s d.calls

  Keeps-All :
      (c d : Client S E) (cs : List (CachedShare S))
      → Keeps c d
      → All (IsMount c) cs
      → All (IsMount d) cs
  Keeps-All c d cs k h =
      All-imp (IsMount c) (IsMount d) cs
        (λ e (mounts, held). (
          ap (λ x. env.mount_share d.calls (mount_name x e.name)) k.same_dc
              ∙ same.same_mount d.calls c.calls (mount_name c.dc e.name) k.same_end
              ∙ mounts,
          k.attached e.share held,
        ))
        h

  cached-IsMount :
      (c : Client S E) (name : Bytes) (cs : List (CachedShare S)) {s : S}
      → cached name cs ≡ some s
      → All (IsMount c) cs
      → (env.mount_share c.calls (mount_name c.dc name) ≡ ok s) × IsAttached s c.calls
  unfolding cached
  cached-IsMount c name [] found h = absurd (cc)
  cached-IsMount c name (d ∷ cs) {s} found (here, rest) = elim (Bool-cases (equal d.name name)) [
    | inl e ↦
        let same_share : d.share ≡ s = ground arith in
        let same_name : d.name ≡ name = (equal_iff d.name name).0 e in
        subst (λ n. (env.mount_share c.calls (mount_name c.dc n) ≡ ok s) × IsAttached s c.calls)
          same_name (here.0 ∙ ap ok same_share, subst (λ t. IsAttached t c.calls) same_share here.1)
    | inr e ↦
        let further : cached name cs ≡ some s = ground arith in
        cached-IsMount c name cs further rest
  ]

  after_mount-Agrees :
      (c : Client S E) (share : Bytes) (r : Result E S)
      → env.mount_share c.calls (mount_name c.dc share) ≡ r
      → Agrees c
      → Agrees (after_mount env c share r).1
  unfolding after_mount has_ended IsAttached
  after_mount-Agrees c share (ok s) mounts h =
      let d = (after_mount env c share (ok s)).1 in
      let kept =
        Keeps-All c d c.shares
          (record { same_dc = refl; same_end = refl; attached = λ t held. inr held }) h in
      ((same.same_mount d.calls c.calls (mount_name c.dc share) refl ∙ mounts, inl refl), kept)
  after_mount-Agrees c share (err e) mounts h =
      Keeps-All c (after_mount env c share (err e)).1 c.shares
        (record { same_dc = refl; same_end = refl; attached = λ t held. held }) h

  mount_miss-Agrees :
      (c : Client S E) (share : Bytes) (o : Option S)
      → Agrees c
      → Agrees (mount_miss env c share o).1
  unfolding mount_miss
  mount_miss-Agrees c share (some s) h = h
  mount_miss-Agrees c share none h =
      after_mount-Agrees c share (env.mount_share c.calls (mount_name c.dc share)) refl h

  -- Two mounts that go on alike: with the same error, or with the same share in use.
  data Alike
      : Result (SmbError E) S × Client S E → Result (SmbError E) S × Client S E → Type 0 where
    both_fail : (e : SmbError E) (c d : Client S E) → Alike (err e, c) (err e, d)
    both_hold :
        (s : S) (c d : Client S E)
        → IsAttached s c.calls
        → IsAttached s d.calls
        → Alike (ok s, c) (ok s, d)

  after_mount-Alike :
      (c : Client S E) (share : Bytes) (r : Result E S)
      → Alike (after_mount env c share r) (after_mount env (emptied c) share r)
  unfolding after_mount emptied IsAttached
  after_mount-Alike c share (ok s) = both_hold s _ _ (inl refl) (inl refl)
  after_mount-Alike c share (err e) = both_fail _ _ _

  mount_miss-Alike :
      (c : Client S E) (share : Bytes) (o : Option S)
      → cached share c.shares ≡ o
      → Agrees c
      → Alike (mount_miss env c share o) (mount_miss env (emptied c) share none)
  unfolding mount_miss emptied after_mount IsAttached
  mount_miss-Alike c share none found h =
      after_mount-Alike c share (env.mount_share c.calls (mount_name c.dc share))
  mount_miss-Alike c share (some s) found h =
      let (mounts, held) = cached-IsMount c share c.shares found h in
      rw mounts (both_hold s c _ held (inl refl))

  mount-Alike :
      (c : Client S E) (share : Bytes)
      → Agrees c
      → Alike (mount env c share) (mount env (emptied c) share)
  unfolding mount emptied cached
  mount-Alike c share h = mount_miss-Alike c share (cached share c.shares) refl h

  with_path-Agrees :
      (path : Bytes) (r : Result (SmbError E) S × Client S E)
      → Agrees r.1
      → Agrees (with_path env path r).1
  unfolding with_path
  with_path-Agrees path (ok s, c) h = h
  with_path-Agrees path (err e, c) h = h

  resolve_parsed-Agrees :
      (c : Client S E) (u : Result UncError Unc) → Agrees c → Agrees (resolve_parsed env c u).1
  unfolding resolve_parsed mount
  resolve_parsed-Agrees c (err e) h = h
  resolve_parsed-Agrees c (ok u) h =
      with_path-Agrees u.path (mount env c u.share)
        (mount_miss-Agrees c u.share (cached u.share c.shares) h)

  resolve-Agrees : (c : Client S E) (p : Bytes) → Agrees c → Agrees (resolve env c p).1
  unfolding resolve
  resolve-Agrees c p = resolve_parsed-Agrees c (parse_unc env.wide p)

  open_resolved-Agrees :
      (p : Bytes) (r : Result (SmbError E) (S × Bytes) × Client S E)
      → Agrees r.1
      → Agrees (open_resolved env p r).1
  unfolding open_resolved has_ended IsAttached
  open_resolved-Agrees p (err e, c) h = h
  open_resolved-Agrees p (ok (s, path), c) h =
      Keeps-All c (open_resolved env p (ok (s, path), c)).1 c.shares
        (record { same_dc = refl; same_end = refl; attached = λ t held. held }) h

  list_resolved-Agrees :
      (p : Bytes) (r : Result (SmbError E) (S × Bytes) × Client S E)
      → Agrees r.1
      → Agrees (list_resolved env p r).1
  unfolding list_resolved has_ended IsAttached
  list_resolved-Agrees p (err e, c) h = h
  list_resolved-Agrees p (ok (s, path), c) h =
      Keeps-All c (list_resolved env p (ok (s, path), c)).1 c.shares
        (record { same_dc = refl; same_end = refl; attached = λ t held. held }) h

  call_method-Agrees : (c : Client S E) (m : Method) → Agrees c → Agrees (call_method env c m)
  unfolding call_method open_unc read_dir_unc fs_unc close_client
  call_method-Agrees c (open_method p) h =
      open_resolved-Agrees p (resolve env c p) (resolve-Agrees c p h)
  call_method-Agrees c (read_dir_method p) h =
      list_resolved-Agrees p (resolve env c p) (resolve-Agrees c p h)
  call_method-Agrees c (fs_method p) h = resolve-Agrees c p h
  call_method-Agrees c close_method h = tt

  call_all-Agrees : (c : Client S E) (ms : List Method) → Agrees c → Agrees (call_all env c ms)
  unfolding call_all
  call_all-Agrees c [] h = h
  call_all-Agrees c (m ∷ ms) h = call_all-Agrees (call_method env c m) ms (call_method-Agrees c m h)

  -- What `Open`, `ReadDir` and `FS` make of a mount.
  record SameResults (p : Bytes) (r r' : Result (SmbError E) (S × Bytes) × Client S E)
      : Type 0 where
    same_open : (open_resolved env p r).0 ≡ (open_resolved env p r').0
    same_list : (list_resolved env p r).0 ≡ (list_resolved env p r').0
    same_root : r.0 ≡ r'.0

  with_path-SameResults :
      (p path : Bytes) {r r' : Result (SmbError E) S × Client S E}
      → Alike r r'
      → SameResults p (with_path env path r) (with_path env path r')
  unfolding with_path open_resolved list_resolved
  with_path-SameResults p path (both_fail e c d) = record {
    same_open = refl;
    same_list = refl;
    same_root = refl;
  }
  with_path-SameResults p path (both_hold s c d held held') = record {
    same_open =
        ap (answer env opening p (λ f. f)) (same.same_file c.calls d.calls s path held held');
    same_list =
        ap (answer env listing p (dir_entries env.info_name env.info_sorter))
          (same.same_dir c.calls d.calls s path held held');
    same_root = refl;
  }

  resolve_parsed-SameResults :
      (p : Bytes) (c : Client S E) (u : Result UncError Unc)
      → Agrees c
      → SameResults p (resolve_parsed env c u) (resolve_parsed env (emptied c) u)
  unfolding resolve_parsed open_resolved list_resolved
  resolve_parsed-SameResults p c (err e) h = record {
    same_open = refl;
    same_list = refl;
    same_root = refl;
  }
  resolve_parsed-SameResults p c (ok u) h = with_path-SameResults p u.path (mount-Alike c u.share h)

  -- The cache shows in no result. Against a server whose shares and files stay what they are, after
  -- any calls of the client's methods, `Close` among them, `Open`, `ReadDir` and `FS` give what they
  -- would give in the same session with an empty cache. A mount may be answered otherwise after the
  -- log-off than before, and what is answered on a share that was unmounted or whose session was
  -- logged off is left open.
  pub call_all-cache :
      (dc : Bytes) (ms : List Method) (p : Bytes)
      → ((open_unc env (call_all env (fresh env dc) ms) p).0
          ≡ (open_unc env (emptied (call_all env (fresh env dc) ms)) p).0)
        × ((read_dir_unc env (call_all env (fresh env dc) ms) p).0
            ≡ (read_dir_unc env (emptied (call_all env (fresh env dc) ms)) p).0)
        × ((fs_unc env (call_all env (fresh env dc) ms) p).0
            ≡ (fs_unc env (emptied (call_all env (fresh env dc) ms)) p).0)
  unfolding open_unc read_dir_unc fs_unc resolve
  call_all-cache dc ms p =
      let c = call_all env (fresh env dc) ms in
      let agrees = call_all-Agrees (fresh env dc) ms (unfold fresh in tt) in
      let r = resolve_parsed-SameResults p c (parse_unc env.wide p) agrees in
      (r.same_open, r.same_list, r.same_root)
