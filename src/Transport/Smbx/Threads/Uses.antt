-- ===== src/Transport/Smbx/Threads/Uses.antt =====
-- What holds of a `Client` of internal/transport/smbx/smbx.go in every interleaving.
use mathlib.Core.Path.{subst}
use opengpm.Base.{
  List, [], ◌∷◌, ◌≡◌, ◌⊎◌, inl, inr, refl, Bool-cases, Option, none, some, Result, ok, err, arith,
  All, All-imp,
}
use opengpm.Text.{Bytes, equal}
use opengpm.Transport.Smbx.Client.{
  CachedShare, Call, mounted, opened, listed, unmounted, logged_off, Client, SmbError, Environment,
  cached, mount_name, after_mount, mount_miss, mount,
}

-- An earlier call mounted the share.
unfoldable pub WasMounted : {S E : Type 0} → S → List (Call S E) → Type 0
WasMounted s [] = ⊥
WasMounted s (mounted n (ok t) ∷ calls) = (t ≡ s) ⊎ WasMounted s calls
WasMounted s (mounted n (err e) ∷ calls) = WasMounted s calls
WasMounted s (opened t path ∷ calls) = WasMounted s calls
WasMounted s (listed t path ∷ calls) = WasMounted s calls
WasMounted s (unmounted t ∷ calls) = WasMounted s calls
WasMounted s (logged_off ∷ calls) = WasMounted s calls

-- Every call on a share is on one that an earlier call mounted.
unfoldable pub UsesMounted : {S E : Type 0} → List (Call S E) → Type 0
UsesMounted [] = Unit
UsesMounted (opened s path ∷ calls) = WasMounted s calls × UsesMounted calls
UsesMounted (listed s path ∷ calls) = WasMounted s calls × UsesMounted calls
UsesMounted (unmounted s ∷ calls) = WasMounted s calls × UsesMounted calls
UsesMounted (mounted n r ∷ calls) = UsesMounted calls
UsesMounted (logged_off ∷ calls) = UsesMounted calls

pub WasMounted-later :
    {S E : Type 0} (s : S) (c : Call S E) (calls : List (Call S E))
    → WasMounted s calls
    → WasMounted s (c ∷ calls)
unfolding WasMounted
WasMounted-later s (mounted n (ok t)) calls h = inr h
WasMounted-later s (mounted n (err e)) calls h = h
WasMounted-later s (opened t path) calls h = h
WasMounted-later s (listed t path) calls h = h
WasMounted-later s (unmounted t) calls h = h
WasMounted-later s logged_off calls h = h

abbrev pub IsLive : {S E : Type 0} → List (Call S E) → CachedShare S → Type 0
IsLive calls c = WasMounted c.share calls

-- The shares of the cache were mounted, and so was what has been used.
pub record IsSound {S E : Type 0} (c : Client S E) : Type 0 where
  pub uses : UsesMounted c.calls
  pub live : All (IsLive c.calls) c.shares

pub live-later :
    {S E : Type 0} (c : Call S E) (calls : List (Call S E)) (cs : List (CachedShare S))
    → All (IsLive calls) cs
    → All (IsLive (c ∷ calls)) cs
live-later c calls cs =
    All-imp (IsLive calls) (IsLive (c ∷ calls)) cs (λ d h. WasMounted-later d.share c calls h)

cached-WasMounted :
    {S E : Type 0} (name : Bytes) (cs : List (CachedShare S)) (calls : List (Call S E)) {s : S}
    → cached name cs ≡ some s
    → All (IsLive calls) cs
    → WasMounted s calls
unfolding cached
cached-WasMounted name [] calls h live = cc
cached-WasMounted name (c ∷ cs) calls {s} h (l, live) = elim (Bool-cases (equal c.name name)) [
  | inl e ↦ let same : c.share ≡ s = ground arith in subst (λ t. WasMounted t calls) same l
  | inr e ↦
      let found : cached name cs ≡ some s = ground arith in
      cached-WasMounted name cs calls found live
]

-- What a mount does to a sound client: it stays sound, what was mounted stays so, and the share it
-- returns was mounted.
pub record MountKeeps {S E : Type 0} (c : Client S E) (r : Result (SmbError E) S × Client S E)
    : Type 0 where
  pub sound : IsSound r.1
  pub later : (s : S) → WasMounted s c.calls → WasMounted s r.1.calls
  pub returned : (s : S) → r.0 ≡ ok s → WasMounted s r.1.calls

module _ {S F I E : Type 0} (env : Environment S F I E) where
  after_mount-MountKeeps :
      (c : Client S E) (share : Bytes) (r : Result E S)
      → IsSound c
      → MountKeeps c (after_mount env c share r)
  unfolding after_mount UsesMounted WasMounted
  after_mount-MountKeeps c share (err e) h = record {
    sound = record {
      uses = h.uses;
      live = live-later (mounted (mount_name c.dc share) (err e)) c.calls c.shares h.live;
    };
    later = λ s m. m;
    returned = λ s e. absurd (cc);
  }
  after_mount-MountKeeps c share (ok s) h = record {
    sound = record {
      uses = h.uses;
      live =
          (inl refl, live-later (mounted (mount_name c.dc share) (ok s)) c.calls c.shares h.live);
    };
    later = λ t m. inr m;
    returned = λ t e. inl (cc);
  }

  mount_miss-MountKeeps :
      (c : Client S E) (share : Bytes) (o : Option S)
      → cached share c.shares ≡ o
      → IsSound c
      → MountKeeps c (mount_miss env c share o)
  unfolding mount_miss
  mount_miss-MountKeeps c share (some s) found h = record {
    sound = h;
    later = λ t m. m;
    returned = λ t e.
        let same : s ≡ t = cc in
        subst (λ x. WasMounted x c.calls) same
          (cached-WasMounted share c.shares c.calls found h.live);
  }
  mount_miss-MountKeeps c share none found h =
      after_mount-MountKeeps c share (env.mount_share c.calls (mount_name c.dc share)) h

  pub mount-MountKeeps :
      (c : Client S E) (share : Bytes) → IsSound c → MountKeeps c (mount env c share)
  unfolding mount
  mount-MountKeeps c share = mount_miss-MountKeeps c share (cached share c.shares) refl
