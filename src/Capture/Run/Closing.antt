-- ===== src/Capture/Run/Closing.antt =====
-- The deferred close of `run` in scripts/capture-gpo/main.go: it comes last, whatever failed.
use mathlib.Core.Path.{subst}
use opengpm.Base.{
  inl, inr, Result-cases, List, [], ◌∷◌, ◌++◌, map, append_assoc, reverse, ◌≡◌, refl, sym, ap, ◌∙◌,
  Result, ok, err,
}
use opengpm.Text.{Bytes}
use opengpm.Capture.{Config, read_env}
use opengpm.Transport.Krb.{Attempt, KrbError, from_keytab}
use opengpm.Transport.Ldapx.{LdapError, Conn, dial}
use opengpm.Capture.Run.{
  RunEvent, logged_in, on_network, closed_conn, World, kerberos, before, with_conn, closing,
  after_dial, ldap_config, after_login, with_config, run,
}
use opengpm.Capture.Run.Allowed.{named_config}

module _ {R C P H E : Type 0} (w : World R C P H E) where
  after_dial-closes :
      (e : Config) (r : Result (LdapError E) (Conn H)) {c : Conn H}
      → r ≡ ok c
      → (after_dial w e r).events ≡ (with_conn w e c).events ++ closed_conn c.conn ∷ []
  unfolding after_dial closing
  after_dial-closes e r bound = rw bound refl

  after_login-closes :
      (e : Config) (r : Result (KrbError E) (Attempt R C)) {k : Attempt R C} {c : Conn H}
      → r ≡ ok k
      → (dial w.ldap_env (named_config w e k)).result ≡ ok c
      → (front : List (RunEvent R C P H E)) × ((after_login w e r).events
          ≡ front ++ closed_conn c.conn ∷ [])
  unfolding after_login ldap_config before
  after_login-closes e (err x) login bound = absurd (cc)
  after_login-closes e (ok k') {k} {c} login bound =
      let same : k' ≡ k = cc in
      let d = dial w.ldap_env (named_config w e k') in
      let bound' =
        subst (λ x. (dial w.ldap_env (named_config w e x)).result ≡ ok c) (sym same) bound in
      (
        map on_network d.events ++ (with_conn w e c).events,
        ap (λ l. map on_network d.events ++ l) (after_dial-closes e d.result bound')
            ∙ sym (
                append_assoc (map on_network d.events) (with_conn w e c).events
                  (closed_conn c.conn ∷ [])),
      )

  with_config-closes :
      (r : Result (List Bytes) Config) {e : Config} {k : Attempt R C} {c : Conn H}
      → r ≡ ok e
      → (from_keytab (kerberos w) e.keytab e.principal e.realm).result ≡ ok k
      → (dial w.ldap_env (named_config w e k)).result ≡ ok c
      → (front : List (RunEvent R C P H E)) × ((with_config w r).events
          ≡ front ++ closed_conn c.conn ∷ [])
  unfolding with_config before
  with_config-closes (err names) named login bound = absurd (cc)
  with_config-closes (ok e') {e} {k} {c} named login bound =
      let same : e' ≡ e = cc in
      let o = from_keytab (kerberos w) e'.keytab e'.principal e'.realm in
      let login' =
        subst (λ x. (from_keytab (kerberos w) x.keytab x.principal x.realm).result ≡ ok k)
          (sym same) login in
      let bound' =
        subst (λ x. (dial w.ldap_env (named_config w x k)).result ≡ ok c) (sym same) bound in
      let (front, last) = after_login-closes e' o.result login' bound' in
      (
        map logged_in (reverse o.attempts) ++ front,
        ap (λ l. map logged_in (reverse o.attempts) ++ l) last
            ∙ sym
                (append_assoc (map logged_in (reverse o.attempts)) front (closed_conn c.conn ∷ [])),
      )

  -- How far `run` gets towards a connection. One that it binds is closed by the last event.
  pub data ClosesLast : Type 0 where
    was_unconfigured : (names : List Bytes) → read_env w.wide w.getenv ≡ err names → ClosesLast
    was_not_logged_in :
        (e : Config) (x : KrbError E)
        → read_env w.wide w.getenv ≡ ok e
        → (from_keytab (kerberos w) e.keytab e.principal e.realm).result ≡ err x
        → ClosesLast
    was_not_bound :
        (e : Config) (k : Attempt R C) (x : LdapError E)
        → read_env w.wide w.getenv ≡ ok e
        → (from_keytab (kerberos w) e.keytab e.principal e.realm).result ≡ ok k
        → (dial w.ldap_env (named_config w e k)).result ≡ err x
        → ClosesLast
    was_bound :
        (e : Config) (k : Attempt R C) (c : Conn H) (front : List (RunEvent R C P H E))
        → read_env w.wide w.getenv ≡ ok e
        → (from_keytab (kerberos w) e.keytab e.principal e.realm).result ≡ ok k
        → (dial w.ldap_env (named_config w e k)).result ≡ ok c
        → (run w).events ≡ front ++ closed_conn c.conn ∷ []
        → ClosesLast

  pub run-ClosesLast : ClosesLast
  unfolding run
  run-ClosesLast = elim (Result-cases (read_env w.wide w.getenv)) [
    | inr (names, unset) ↦ was_unconfigured names unset
    | inl (e, named) ↦
        elim (Result-cases (from_keytab (kerberos w) e.keytab e.principal e.realm).result) [
          | inr (x, failed) ↦ was_not_logged_in e x named failed
          | inl (k, login) ↦ elim (Result-cases (dial w.ldap_env (named_config w e k)).result) [
            | inr (x, failed) ↦ was_not_bound e k x named login failed
            | inl (c, bound) ↦
                let (front, last) =
                  with_config-closes (read_env w.wide w.getenv) named login bound in
                was_bound e k c front named login bound last
          ]
        ]
  ]
