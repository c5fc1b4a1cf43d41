-- ===== src/Capture/Run/Safety.antt =====
-- What `run` of scripts/capture-gpo/main.go may do, on every path: with a complete environment only,
-- to the named controller only, and to the fixture's file only.
use mathlib.Core.Path.{subst}
use opengpm.Base.{
  ◌⊎◌, inl, inr, List, [], ◌∷◌, map, reverse, ◌≡◌, ◌≢◌, refl, inl, inr, none, Result, ok, err, All,
  All-append, All-reverse, All-map, All-imp,
}
use opengpm.Text.{Bytes, codes}
use opengpm.Capture.{Config, required, environment, read_env}
use opengpm.Capture.Settings.{read_env_ok}
use opengpm.Transport.Krb.{Attempt, KrbError, from_keytab, conf_path}
use opengpm.Transport.Krb.Attempts.{IsAttemptFor, from_keytab-IsAttemptFor}
use opengpm.Transport.Ldapx.{LdapError, Conn, dial, search_sd}
use opengpm.Transport.Ldapx.Dialling.{Permitted, dial-Permitted}
use opengpm.Transport.Ldapx.Searching.{search_sd-IsFor}
use opengpm.Capture.Run.{
  attrs, policies, containers, logged_in, on_network, searched, closed_conn, binding_to, login_for,
  not_configured, World, kerberos, stop, before, after_search, with_conn, closing, after_dial,
  ldap_config, after_login, with_config, run,
}
use opengpm.Capture.Run.Closing.{ClosesLast, run-ClosesLast}
use opengpm.Capture.Run.Allowed.{
  IsAllowed, AllAllowed, IsNamedDial, named_config, before-AllAllowed, stop-AllAllowed,
  after_search-AllAllowed,
}

conf_path-ne-nil : (s : Bytes) → s ≢ [] → conf_path s ≡ s
unfolding conf_path
conf_path-ne-nil [] h = absurd (h refl)
conf_path-ne-nil (c ∷ s) h = refl

module _ {R C P H E : Type 0} (w : World R C P H E) (e : Config) where
  searched-IsAllowed :
      (c : Conn H)
      → All
          (IsAllowed w e)
          (map searched (search_sd w.ldap_env none c (policies e) containers attrs).sent)
  unfolding IsAllowed
  searched-IsAllowed c = elim (search_sd-IsFor w.ldap_env none c (policies e) containers attrs) [
    | inl (_, (req, sent, for_these)) ↦ rw sent (for_these, tt)
    | inr (ended, _) ↦ absurd (ended refl)
  ]

  after_dial-AllAllowed :
      (k : Attempt R C) (r : Result (LdapError E) (Conn H))
      → (from_keytab (kerberos w) e.keytab e.principal e.realm).result ≡ ok k
      → (dial w.ldap_env (named_config w e k)).result ≡ r
      → AllAllowed w e (after_dial w e r)
  unfolding after_dial closing with_conn AllAllowed IsAllowed
  after_dial-AllAllowed k (err x) login bound = stop-AllAllowed w e (binding_to e.kdc x)
  after_dial-AllAllowed k (ok c) login bound =
      let s = search_sd w.ldap_env none c (policies e) containers attrs in
      let rest = after_search w e s.result in
      All-append (IsAllowed w e) (before w (map searched s.sent) rest).events
        (closed_conn c.conn ∷ [])
        (before-AllAllowed w e (map searched s.sent) rest (searched-IsAllowed c)
          (after_search-AllAllowed w e s.result))
        (record { client = k; conn = c; login = login; bound = bound; same = refl }, tt)

  after_login-AllAllowed :
      (r : Result (KrbError E) (Attempt R C))
      → (from_keytab (kerberos w) e.keytab e.principal e.realm).result ≡ r
      → AllAllowed w e (after_login w e r)
  unfolding after_login ldap_config IsAllowed
  after_login-AllAllowed (err x) login = stop-AllAllowed w e (login_for e.principal x)
  after_login-AllAllowed (ok k) login =
      let cfg = named_config w e k in
      let d = dial w.ldap_env cfg in
      let dialled : All (λ ev. IsAllowed w e (on_network ev)) d.events =
        All-imp (Permitted w.ldap_env cfg) (IsNamedDial w e) d.events
          (λ ev p. record { client = k; login = login; permitted = p })
          (dial-Permitted w.ldap_env cfg) in
      before-AllAllowed w e (map on_network d.events) (after_dial w e d.result)
        (All-map (IsAllowed w e) on_network d.events dialled)
        (after_dial-AllAllowed k d.result login refl)

  attempts-IsAllowed :
      w.getenv (codes "KRB5_CONFIG") ≢ []
      → All
          (IsAllowed w e)
          (map logged_in (reverse (from_keytab (kerberos w) e.keytab e.principal e.realm).attempts))
  unfolding IsAllowed
  attempts-IsAllowed set_config =
      let made = (from_keytab (kerberos w) e.keytab e.principal e.realm).attempts in
      let For = IsAttemptFor (kerberos w) e.principal e.realm in
      All-map (IsAllowed w e) logged_in (reverse made) (
        All-imp For (λ a. IsAllowed w e (logged_in a)) (reverse made)
          (λ a p. (p, conf_path-ne-nil (w.getenv (codes "KRB5_CONFIG")) set_config))
          (All-reverse For made
            (from_keytab-IsAttemptFor (kerberos w) e.keytab e.principal e.realm)))

module _ {R C P H E : Type 0} (w : World R C P H E) where
  with_config-AllAllowed :
      (r : Result (List Bytes) Config)
      → read_env w.wide w.getenv ≡ r
      → AllAllowed w (environment w.wide w.getenv) (with_config w r)
  unfolding with_config
  with_config-AllAllowed (err names) at_env =
      stop-AllAllowed w (environment w.wide w.getenv) (not_configured names)
  with_config-AllAllowed (ok e) at_env =
      let (same, all_set) = read_env_ok w.wide w.getenv at_env in
      let o = from_keytab (kerberos w) e.keytab e.principal e.realm in
      subst (λ x. AllAllowed w x (with_config w (ok e))) same
        (before-AllAllowed w e (map logged_in (reverse o.attempts)) (after_login w e o.result)
          (attempts-IsAllowed w e all_set.1.1.1.1.1.0) (after_login-AllAllowed w e o.result refl))

  with_config-silent :
      (r : Result (List Bytes) Config)
      → read_env w.wide w.getenv ≡ r
      → All (λ k. w.getenv k ≢ []) required ⊎ ((with_config w r).events ≡ [])
  unfolding with_config stop
  with_config-silent (err names) at_env = inr refl
  with_config-silent (ok e) at_env = inl (read_env_ok w.wide w.getenv at_env).1

  -- Whatever the world answers, all that `run` does is allowed. It logs in for the principal and the
  -- realm that the environment names, under the configuration that `KRB5_CONFIG` names and never
  -- the default one. It sends what `ldapx` permits for the named controller and a client that
  -- logged in; it searches the domain's policies, never asking for the SACL; it closes only what it
  -- bound; it makes the fixture's directory, and writes the fixture's file with mode 0600 and the
  -- encoding of a capture. Either all six variables are set, or it does nothing at all; and if a
  -- connection was bound, its close is the last event.
  pub run-IsAllowed :
      All (IsAllowed w (environment w.wide w.getenv)) (run w).events
      × (All (λ k. w.getenv k ≢ []) required ⊎ ((run w).events ≡ []))
      × ClosesLast w
  unfolding run AllAllowed
  run-IsAllowed = (
    with_config-AllAllowed (read_env w.wide w.getenv) refl,
    with_config-silent (read_env w.wide w.getenv) refl,
    run-ClosesLast w,
  )
