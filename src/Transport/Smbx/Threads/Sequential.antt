-- ===== src/Transport/Smbx/Threads/Sequential.antt =====
-- The methods of a `Client` of internal/transport/smbx/smbx.go, called one after the other, are one
-- of the interleavings.
use mathlib.Core.Path.{subst, fun_ext}
use mathlib.Core.List.{Permᴰ}
use opengpm.Base.{ℕ, List, [], ◌∷◌, ◌≡◌, refl, sym, none, some, Result, ok, err, arith}
use opengpm.Text.{Bytes}
use opengpm.Transport.Smbx.Unc.{Unc, UncError, parse_unc}
use opengpm.Transport.Smbx.Client.{
  CachedShare, Client, SmbError, Environment, mount, with_path, resolve_parsed, resolve,
  open_resolved, open_unc, list_resolved, read_dir_unc, fs_unc, unmount_all, close_client,
}
use opengpm.Transport.Smbx.Client.Runs.{
  Method, open_method, read_dir_method, fs_method, close_method, fresh, call_method, call_all,
}
use opengpm.Transport.Smbx.Threads.{
  Aim, open_aim, read_dir_aim, fs_aim, Pc, idle, wants, System, set_at, resume, use_share, rooted,
  start, locked_mount, used, close_started, close_unmounts, close_done, Reach, dialled_state, next,
}

-- A system at rest.
abbrev pub at_rest : {S E : Type 0} → Client S E → List S → System S E
at_rest c roots = record { client = c; closing = none; pc = λ i. idle; roots = roots }

-- What a goroutine with this mount leaves behind: the client, and the shares behind file systems.
ends : {S E : Type 0} → Aim → Bytes → Result (SmbError E) S × Client S E → Client S E
ends aim path (err e, c) = c
ends aim path (ok s, c) = record c { calls = use_share aim s path c.calls }

roots_of : {S E : Type 0} → Aim → Result (SmbError E) S → List S → List S
roots_of aim (err e) roots = roots
roots_of aim (ok s) roots = rooted aim s roots

module _ {S F I E : Type 0} (env : Environment S F I E) (dc : Bytes) where
  settle :
      (c : Client S E) (f : ℕ → Pc S) (roots : List S)
      → ((j : ℕ) → f j ≡ idle)
      → Reach env dc (record { client = c; closing = none; pc = f; roots = roots })
      → Reach env dc (at_rest c roots)
  settle c f roots all_idle =
      subst (λ g. Reach env dc (record { client = c; closing = none; pc = g; roots = roots }))
        (fun_ext all_idle)

  mounted-Reach :
      (aim : Aim) (path : Bytes) (p : Pc S) (r : Result (SmbError E) S × Client S E)
      (roots : List S)
      → Reach env dc (record {
        client = r.1;
        closing = none;
        pc = set_at (set_at (λ i. idle) 0 p) 0 (resume aim path r.0);
        roots = roots;
      })
      → Reach env dc (at_rest (ends aim path r) (roots_of aim r.0 roots))
  unfolding resume ends roots_of
  mounted-Reach aim path p (err e, c) roots reach = settle c _ roots (λ j. ground arith) reach
  mounted-Reach aim path p (ok s, c) roots reach =
      settle _ _ _ (λ j. ground arith) (next reach (used 0 aim s path refl))

  -- A goroutine that does all its steps at once.
  aimed-Reach :
      (aim : Aim) (unc_path : Bytes) (u : Unc) (c : Client S E) (roots : List S)
      → parse_unc env.wide unc_path ≡ ok u
      → Reach env dc (at_rest c roots)
      → Reach env dc (
          at_rest
            (ends aim u.path (mount env c u.share))
            (roots_of aim (mount env c u.share).0 roots))
  aimed-Reach aim unc_path u c roots parsed reach =
      mounted-Reach aim u.path (wants aim u.share u.path) (mount env c u.share) roots (
        next (next reach (start 0 aim unc_path u refl parsed))
          (locked_mount 0 aim u.share u.path refl refl))

  opened-ends :
      (p path : Bytes) (r : Result (SmbError E) S × Client S E)
      → (open_resolved env p (with_path env path r)).1 ≡ ends open_aim path r
  unfolding open_resolved with_path ends use_share
  opened-ends p path (err e, c) = refl
  opened-ends p path (ok s, c) = refl

  listed-ends :
      (p path : Bytes) (r : Result (SmbError E) S × Client S E)
      → (list_resolved env p (with_path env path r)).1 ≡ ends read_dir_aim path r
  unfolding list_resolved with_path ends use_share
  listed-ends p path (err e, c) = refl
  listed-ends p path (ok s, c) = refl

  fs-ends :
      (path : Bytes) (r : Result (SmbError E) S × Client S E)
      → (with_path env path r).1 ≡ ends fs_aim path r
  unfolding with_path ends use_share
  fs-ends path (err e, c) = refl
  fs-ends path (ok s, c) = refl

  -- A client at rest that the goroutines can bring about.
  Rests : Client S E → Type 0
  Rests c = (roots : List S) × Reach env dc (at_rest c roots)

  aimed-Rests :
      (aim : Aim) (unc_path : Bytes) (u : Unc) (c : Client S E) {d : Client S E}
      → d ≡ ends aim u.path (mount env c u.share)
      → parse_unc env.wide unc_path ≡ ok u
      → Rests c
      → Rests d
  unfolding Rests
  aimed-Rests aim unc_path u c same parsed (roots, reach) =
      let left = roots_of aim (mount env c u.share).0 roots in
      (
        left,
        subst (λ d. Reach env dc (at_rest d left)) (sym same)
            (aimed-Reach aim unc_path u c roots parsed reach),
      )

  open_parsed-Rests :
      (p : Bytes) (c : Client S E) (u : Result UncError Unc)
      → parse_unc env.wide p ≡ u
      → Rests c
      → Rests (open_resolved env p (resolve_parsed env c u)).1
  unfolding open_resolved resolve_parsed Rests
  open_parsed-Rests p c (err e) parsed rests = rests
  open_parsed-Rests p c (ok u) parsed rests =
      aimed-Rests open_aim p u c (opened-ends p u.path (mount env c u.share)) parsed rests

  list_parsed-Rests :
      (p : Bytes) (c : Client S E) (u : Result UncError Unc)
      → parse_unc env.wide p ≡ u
      → Rests c
      → Rests (list_resolved env p (resolve_parsed env c u)).1
  unfolding list_resolved resolve_parsed Rests
  list_parsed-Rests p c (err e) parsed rests = rests
  list_parsed-Rests p c (ok u) parsed rests =
      aimed-Rests read_dir_aim p u c (listed-ends p u.path (mount env c u.share)) parsed rests

  fs_parsed-Rests :
      (p : Bytes) (c : Client S E) (u : Result UncError Unc)
      → parse_unc env.wide p ≡ u
      → Rests c
      → Rests (resolve_parsed env c u).1
  unfolding resolve_parsed Rests
  fs_parsed-Rests p c (err e) parsed rests = rests
  fs_parsed-Rests p c (ok u) parsed rests =
      aimed-Rests fs_aim p u c (fs-ends u.path (mount env c u.share)) parsed rests

  unmounting-Reach :
      (cs : List (CachedShare S)) (c : Client S E) (roots : List S)
      → Reach env dc (record { client = c; closing = some cs; pc = λ i. idle; roots = roots })
      → Reach env dc (record {
        client = record c { calls = (unmount_all env cs c.calls).1 };
        closing = some [];
        pc = λ i. idle;
        roots = roots;
      })
  unfolding unmount_all
  unmounting-Reach [] c roots reach = reach
  unmounting-Reach (d ∷ cs) c roots reach =
      unmounting-Reach cs _ roots (next reach (close_unmounts d cs refl))

  close-Rests :
      (c : Client S E)
      → Permᴰ c.shares (env.map_order c.shares)
      → Rests c
      → Rests (close_client env c).1
  unfolding close_client Rests
  close-Rests c order (roots, reach) = (
    roots,
    next
        (unmounting-Reach (env.map_order c.shares) c roots
          (next reach (close_started (env.map_order c.shares) refl order)))
        (close_done refl),
  )

  module _ (order : (cs : List (CachedShare S)) → Permᴰ cs (env.map_order cs)) where
    call_method-Rests : (c : Client S E) (m : Method) → Rests c → Rests (call_method env c m)
    unfolding call_method open_unc read_dir_unc fs_unc resolve
    call_method-Rests c (open_method p) = open_parsed-Rests p c (parse_unc env.wide p) refl
    call_method-Rests c (read_dir_method p) = list_parsed-Rests p c (parse_unc env.wide p) refl
    call_method-Rests c (fs_method p) = fs_parsed-Rests p c (parse_unc env.wide p) refl
    call_method-Rests c close_method = close-Rests c (order c.shares)

    call_all-Rests : (c : Client S E) (ms : List Method) → Rests c → Rests (call_all env c ms)
    unfolding call_all
    call_all-Rests c [] rests = rests
    call_all-Rests c (m ∷ ms) rests =
        call_all-Rests (call_method env c m) ms (call_method-Rests c m rests)

    -- Any sequence of calls on the client that `Dial` returns is an interleaving: its goroutines
    -- can bring the client to the same state, and come to rest there.
    pub call_all-Reach :
        (ms : List Method)
        → (roots : List S) × Reach env dc (at_rest (call_all env (fresh env dc) ms) roots)
    unfolding Rests
    call_all-Reach ms = call_all-Rests (fresh env dc) ms ([], dialled_state)
