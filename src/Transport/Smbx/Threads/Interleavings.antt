-- ===== src/Transport/Smbx/Threads/Interleavings.antt =====
-- Every interleaving of goroutines on a `Client` of internal/transport/smbx/smbx.go.
use mathlib.Core.Path.{subst}
use opengpm.Base.{
  ℕ, ◌==◌, ◌≤◌, List, ◌∷◌, ◌≡◌, ◌⊎◌, inl, inr, refl, sym, ◌∙◌, Bool-cases, Option, some, Result, ok,
  err, arith, All, All-imp, All-middle, All-perm,
}
use opengpm.Text.{Bytes}
use opengpm.Transport.Smbx.Client.{
  CachedShare, Call, opened, listed, unmounted, logged_off, SmbError, Environment, cached,
  mount_name, mount,
}
use opengpm.Transport.Smbx.Client.Mounts.{
  mounts, IsConsistent-once, IsPinned, IsConsistent, mount-IsConsistent,
}
use opengpm.Transport.Smbx.Client.Runs.{fresh, fresh-IsConsistent}
use opengpm.Transport.Smbx.Threads.{
  Aim, open_aim, read_dir_aim, fs_aim, Pc, idle, wants, holds, System, set_at, resume, use_share,
  rooted, root_used, Step, start, locked_mount, used, close_started, close_unmounts, close_done,
  Reach, dialled_state, next,
}
use opengpm.Transport.Smbx.Threads.Uses.{
  WasMounted, UsesMounted, WasMounted-later, IsLive, IsSound, live-later, mount-MountKeeps,
}

-- A goroutine's place after a step is the new one, or what it was.
set_at-cases :
    {A : Type 0} (f : ℕ → A) (i j : ℕ) (a : A) → (set_at f i a j ≡ a) ⊎ (set_at f i a j ≡ f j)
set_at-cases f i j a = elim (Bool-cases (j == i)) [
  | inl e ↦ inl (ground arith)
  | inr e ↦ inr (ground arith)
]

-- The share that a goroutine holds was mounted.
abbrev IsHeldMounted : {S E : Type 0} → List (Call S E) → Pc S → Type 0
IsHeldMounted {S} calls p =
    (aim : Aim) (s : S) (path : Bytes) → p ≡ holds aim s path → WasMounted s calls

abbrev IsKnown : {S E : Type 0} → List (Call S E) → S → Type 0
IsKnown calls s = WasMounted s calls

-- What holds between any two steps.
record IsSafe {S E : Type 0} (dc : Bytes) (x : System S E) : Type 0 where
  consistent : IsConsistent dc x.client
  sound : IsSound x.client
  held : (i : ℕ) → IsHeldMounted x.client.calls (x.pc i)
  left : (cs : List (CachedShare S)) → x.closing ≡ some cs → All (IsLive x.client.calls) cs
  behind_fs : All (IsKnown x.client.calls) x.roots

resume-IsHeldMounted :
    {S E : Type 0} (aim : Aim) (path : Bytes) (r : Result (SmbError E) S) (calls : List (Call S E))
    → ((s : S) → r ≡ ok s → WasMounted s calls)
    → IsHeldMounted calls (resume aim path r)
unfolding resume
resume-IsHeldMounted aim path (ok s) calls h = λ aim' t path' e. h t (cc)
resume-IsHeldMounted aim path (err e) calls h = λ aim' t path' e'. absurd (cc)

-- A step that moves one goroutine, to a place that holds no unmounted share, and loses no mount.
held-set_at :
    {S E : Type 0} (f : ℕ → Pc S) (i : ℕ) (p : Pc S) (calls calls' : List (Call S E))
    → ((j : ℕ) → IsHeldMounted calls (f j))
    → ((s : S) → WasMounted s calls → WasMounted s calls')
    → IsHeldMounted calls' p
    → (j : ℕ) → IsHeldMounted calls' (set_at f i p j)
held-set_at f i p calls calls' held later new j aim s path e = elim (set_at-cases f i j p) [
  | inl same ↦ new aim s path (sym same ∙ e)
  | inr same ↦ later s (held j aim s path (sym same ∙ e))
]

IsKnown-later :
    {S E : Type 0} (c : Call S E) (calls : List (Call S E)) (ss : List S)
    → All (IsKnown calls) ss
    → All (IsKnown (c ∷ calls)) ss
IsKnown-later c calls ss =
    All-imp (IsKnown calls) (IsKnown (c ∷ calls)) ss (λ s h. WasMounted-later s c calls h)

-- A call that neither mounts nor logs off, on a share that was mounted.
record IsUse {S E : Type 0} (dc : Bytes) (call : Call S E) (calls : List (Call S E)) : Type 0 where
  is_pinned : IsPinned dc call
  mounts_same : (name : Bytes) → mounts name (call ∷ calls) ≡ mounts name calls
  uses_mounted : UsesMounted calls → UsesMounted (call ∷ calls)

module _ {S F I E : Type 0} (env : Environment S F I E) (dc : Bytes) where
  call-IsSafe :
      (x : System S E) (call : Call S E) (f : ℕ → Pc S) (closing : Option (List (CachedShare S)))
      (roots : List S)
      → IsUse dc call x.client.calls
      → ((j : ℕ) → IsHeldMounted x.client.calls (f j))
      → ((cs : List (CachedShare S)) → closing ≡ some cs → All (IsLive x.client.calls) cs)
      → All (IsKnown x.client.calls) roots
      → IsSafe dc x
      → IsSafe dc (record {
        client = record x.client { calls = call ∷ x.client.calls };
        closing = closing;
        pc = f;
        roots = roots;
      })
  call-IsSafe x call f closing roots is_use held left known inv = record {
    consistent = record {
      pinned = inv.consistent.pinned;
      mounts_pinned = (is_use.is_pinned, inv.consistent.mounts_pinned);
      as_cached =
          λ share. is_use.mounts_same (mount_name dc share) ∙ inv.consistent.as_cached share;
    };
    sound = record {
      uses = is_use.uses_mounted inv.sound.uses;
      live = live-later call x.client.calls x.client.shares inv.sound.live;
    };
    held = λ j aim s path e. WasMounted-later s call x.client.calls (held j aim s path e);
    left = λ cs e. live-later call x.client.calls cs (left cs e);
    behind_fs = IsKnown-later call x.client.calls roots known;
  }

  held-idle :
      (x : System S E) (i : ℕ)
      → IsSafe dc x
      → (j : ℕ) → IsHeldMounted x.client.calls (set_at x.pc i idle j)
  held-idle x i inv =
      held-set_at x.pc i idle x.client.calls x.client.calls inv.held (λ t m. m)
        (λ aim t path e. absurd (cc))

  used-IsSafe :
      (x : System S E) (i : ℕ) (aim : Aim) (s : S) (path : Bytes)
      → x.pc i ≡ holds aim s path
      → IsSafe dc x
      → IsSafe dc (record {
        client = record x.client { calls = use_share aim s path x.client.calls };
        closing = x.closing;
        pc = set_at x.pc i idle;
        roots = rooted aim s x.roots;
      })
  unfolding use_share rooted IsPinned mounts UsesMounted
  used-IsSafe x i open_aim s path at inv =
      let was = inv.held i open_aim s path at in
      call-IsSafe x (opened s path) (set_at x.pc i idle) x.closing x.roots
        (record { is_pinned = tt; mounts_same = λ n. refl; uses_mounted = λ u. (was, u) })
        (held-idle x i inv) inv.left inv.behind_fs inv
  used-IsSafe x i read_dir_aim s path at inv =
      let was = inv.held i read_dir_aim s path at in
      call-IsSafe x (listed s path) (set_at x.pc i idle) x.closing x.roots
        (record { is_pinned = tt; mounts_same = λ n. refl; uses_mounted = λ u. (was, u) })
        (held-idle x i inv) inv.left inv.behind_fs inv
  used-IsSafe x i fs_aim s path at inv = record {
    consistent = inv.consistent;
    sound = inv.sound;
    held = held-idle x i inv;
    left = inv.left;
    behind_fs = (inv.held i fs_aim s path at, inv.behind_fs);
  }

  -- Every step keeps this.
  Step-IsSafe : {x y : System S E} → Step env x y → IsSafe dc x → IsSafe dc y
  unfolding IsPinned mounts UsesMounted cached
  Step-IsSafe {x} (start i aim unc_path u at parsed) inv = record {
    consistent = inv.consistent;
    sound = inv.sound;
    held =
        held-set_at x.pc i (wants aim u.share u.path) x.client.calls x.client.calls inv.held
          (λ t m. m) (λ aim' t path' e. absurd (cc));
    left = inv.left;
    behind_fs = inv.behind_fs;
  }
  Step-IsSafe {x} (locked_mount i aim share path at free) inv =
      let kept = mount-MountKeeps env x.client share inv.sound in
      record {
        consistent = mount-IsConsistent env dc x.client share inv.consistent;
        sound = kept.sound;
        held =
            held-set_at x.pc i (resume aim path (mount env x.client share).0) x.client.calls
              (mount env x.client share).1.calls inv.held kept.later
              (resume-IsHeldMounted aim path (mount env x.client share).0
                (mount env x.client share).1.calls kept.returned);
        left = λ cs e. absurd (cc);
        behind_fs =
            All-imp (IsKnown x.client.calls) (IsKnown (mount env x.client share).1.calls) x.roots
              kept.later inv.behind_fs;
      }
  Step-IsSafe {x} (used i aim s path at) inv = used-IsSafe x i aim s path at inv
  Step-IsSafe {x} (root_used front behind s path here) inv =
      let was : WasMounted s x.client.calls =
        All-middle (IsKnown x.client.calls) front s behind
          (subst (All (IsKnown x.client.calls)) here inv.behind_fs) in
      call-IsSafe x (opened s path) x.pc x.closing x.roots
        (record { is_pinned = tt; mounts_same = λ n. refl; uses_mounted = λ u. (was, u) }) inv.held
        inv.left inv.behind_fs inv
  Step-IsSafe {x} (close_started cs free order) inv = record {
    consistent = inv.consistent;
    sound = inv.sound;
    held = inv.held;
    left = λ ds e.
        subst (All (IsLive x.client.calls)) (cc)
          (All-perm (IsLive x.client.calls) order inv.sound.live);
    behind_fs = inv.behind_fs;
  }
  Step-IsSafe {x} (close_unmounts c cs closing) inv =
      let (was, rest) = inv.left (c ∷ cs) closing in
      call-IsSafe x (unmounted c.share) x.pc (some cs) x.roots
        (record { is_pinned = tt; mounts_same = λ n. refl; uses_mounted = λ u. (was, u) }) inv.held
        (λ ds e. subst (All (IsLive x.client.calls)) (cc) rest) inv.behind_fs inv
  Step-IsSafe {x} (close_done closing) inv = record {
    consistent = record {
      pinned = inv.consistent.pinned;
      mounts_pinned = (tt, inv.consistent.mounts_pinned);
      as_cached = λ share. refl;
    };
    sound = record { uses = inv.sound.uses; live = tt };
    held = λ j aim s path e. WasMounted-later s logged_off x.client.calls (inv.held j aim s path e);
    left = λ cs e. absurd (cc);
    behind_fs = IsKnown-later logged_off x.client.calls x.roots inv.behind_fs;
  }

  Reach-IsSafe : {x : System S E} → Reach env dc x → IsSafe dc x
  unfolding fresh UsesMounted
  Reach-IsSafe dialled_state = record {
    consistent = fresh-IsConsistent env dc;
    sound = record { uses = tt; live = tt };
    held = λ j aim s path e. absurd (cc);
    left = λ cs e. absurd (cc);
    behind_fs = tt;
  }
  Reach-IsSafe (next reach step) = Step-IsSafe step (Reach-IsSafe reach)

  -- However the goroutines of a client interleave, one that closes it among them: each mount that
  -- is tried is of a share of the pinned controller; since the last log-off no share was mounted
  -- more than once; and each share that is opened on, listed or unmounted was mounted before.
  pub Reach-mounts :
      {x : System S E}
      → Reach env dc x
      → All (IsPinned dc) x.client.calls
        × ((share : Bytes) → mounts (mount_name dc share) x.client.calls ≤ 1)
        × UsesMounted x.client.calls
  Reach-mounts {x} reach =
      let inv = Reach-IsSafe reach in
      (
        inv.consistent.mounts_pinned,
        λ share. IsConsistent-once dc x.client inv.consistent share,
        inv.sound.uses,
      )
