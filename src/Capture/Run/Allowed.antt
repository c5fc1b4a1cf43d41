-- ===== src/Capture/Run/Allowed.antt =====
-- What `run` of scripts/capture-gpo/main.go may do, and that what follows its search is allowed.
use opengpm.Base.{
  ℕ, List, [], ◌∷◌, ◌++◌, ◌*◌, ◌+◌, ◌^◌, ◌≡◌, refl, inl, inr, Option, none, some, Result, ok, err,
  length, Bool-cases, All, All-append,
}
use opengpm.Text.{Bytes, codes}
use opengpm.Text.Search.{has_prefix}
use opengpm.Capture.{oracle_gplink_prefix, LdapEntry, Entry, Config, capture}
use opengpm.Transport.Krb.{Attempt, from_keytab, conf_path}
use opengpm.Transport.Krb.Attempts.{IsAttemptFor}
use opengpm.Transport.Ldapx as ldapx
use opengpm.Transport.Ldapx.{LdapError, Conn, Event, dial}
use opengpm.Transport.Ldapx.Dialling.{Permitted}
use opengpm.Transport.Ldapx.Searching.{IsFor}
use opengpm.Capture.Run.{
  out_path, out_dir, attrs, policies, containers, wrote, RunEvent, logged_in, on_network, searched,
  closed_conn, printed, made_dir, wrote_file, RunOutcome, RunError, no_objects, searching, encoding,
  World, kerberos, display_name, stop, before, after_file, after_dir, write, skipped, summaries,
  with_entries, after_search,
}

module _ {R C P H E : Type 0} (w : World R C P H E) (e : Config) where
  -- What names the controller and the channel, from the environment.
  abbrev pub named_config : Attempt R C → ldapx.Config (Attempt R C)
  named_config k = record {
    dc = e.kdc;
    krb = some k;
    bind_dn = [];
    password = [];
    ca_cert = e.ca_cert;
  }

  -- What `ldapx` permits, for a client that logged in.
  pub record IsNamedDial (ev : Event (Attempt R C) P) : Type 0 where
    pub client : Attempt R C
    pub login : (from_keytab (kerberos w) e.keytab e.principal e.realm).result ≡ ok client
    pub permitted : Permitted w.ldap_env (named_config client) ev

  -- The connection that a dial for that client returned.
  pub record IsNamedClose (h : H) : Type 0 where
    pub client : Attempt R C
    pub conn : Conn H
    pub login : (from_keytab (kerberos w) e.keytab e.principal e.realm).result ≡ ok client
    pub bound : (dial w.ldap_env (named_config client)).result ≡ ok conn
    pub same : h ≡ conn.conn

  -- A file's content is the encoding, and a newline, of what was captured.
  pub record IsFixture (path content : Bytes) (mode : ℕ) : Type 0 where
    pub found : List LdapEntry
    pub entries : List Entry
    pub bytes : Bytes
    pub at_path : path ≡ out_path
    pub private_mode : mode ≡ 6 * 8 ^ 2
    pub captured : capture w.base64 (display_name w) w.sorter found ≡ some entries
    pub encoded : w.marshal_indent entries ≡ ok bytes
    pub same : content ≡ bytes ++ 10 ∷ []

  unfoldable pub IsAllowed : RunEvent R C P H E → Type 0
  IsAllowed (logged_in a) =
      IsAttemptFor (kerberos w) e.principal e.realm a
      × (conf_path (w.getenv (codes "KRB5_CONFIG")) ≡ w.getenv (codes "KRB5_CONFIG"))
  IsAllowed (on_network ev) = IsNamedDial ev
  IsAllowed (searched req) = IsFor (policies e) containers attrs req
  IsAllowed (closed_conn h) = IsNamedClose h
  IsAllowed (printed l) = Unit
  IsAllowed (made_dir path mode) = path ≡ out_dir
  IsAllowed (wrote_file path content mode) = IsFixture path content mode

  unfoldable pub AllAllowed : RunOutcome R C P H E → Type 0
  AllAllowed o = All IsAllowed o.events

  pub before-AllAllowed :
      (es : List (RunEvent R C P H E)) (o : RunOutcome R C P H E)
      → All IsAllowed es
      → AllAllowed o
      → AllAllowed (before w es o)
  unfolding AllAllowed before
  before-AllAllowed es o h k = All-append IsAllowed es o.events h k

  pub stop-AllAllowed : (x : RunError R C P H E) → AllAllowed (stop w x)
  unfolding AllAllowed stop
  stop-AllAllowed x = tt

  after_file-AllAllowed :
      (n : ℕ) (es : List (RunEvent R C P H E)) (x : Option E)
      → All IsAllowed es
      → AllAllowed (after_file w n es x)
  unfolding AllAllowed after_file IsAllowed
  after_file-AllAllowed n es (some x) h = h
  after_file-AllAllowed n es none h = All-append IsAllowed es (printed (wrote n) ∷ []) h (tt, tt)

  after_dir-AllAllowed :
      (found : List LdapEntry) (es : List Entry) (b : Bytes) (x : Option E)
      → capture w.base64 (display_name w) w.sorter found ≡ some es
      → w.marshal_indent es ≡ ok b
      → AllAllowed (after_dir w (length es) b x)
  unfolding AllAllowed after_dir IsAllowed
  after_dir-AllAllowed found es b (some x) made encoded = (refl, tt)
  after_dir-AllAllowed found es b none made encoded =
      after_file-AllAllowed (length es)
        (made_dir out_dir (7 * 8 ^ 2 + 5 * 8) ∷ wrote_file out_path (b ++ 10 ∷ []) (6 * 8 ^ 2) ∷ [])
        (w.write_file out_path (b ++ 10 ∷ []) (6 * 8 ^ 2))
        (
          refl,
          (
            record {
              found = found;
              entries = es;
              bytes = b;
              at_path = refl;
              private_mode = refl;
              captured = made;
              encoded = encoded;
              same = refl;
            },
            tt,
          ),
        )

  write-AllAllowed :
      (found : List LdapEntry) (es : List Entry) (r : Result E Bytes)
      → capture w.base64 (display_name w) w.sorter found ≡ some es
      → w.marshal_indent es ≡ r
      → AllAllowed (write w (length es) r)
  unfolding write
  write-AllAllowed found es (err x) made encoded = stop-AllAllowed (encoding out_path x)
  write-AllAllowed found es (ok b) made encoded =
      after_dir-AllAllowed found es b (w.mkdir_all out_dir (7 * 8 ^ 2 + 5 * 8)) made encoded

  skipped-IsAllowed : (found : List LdapEntry) → All IsAllowed (skipped w found)
  unfolding skipped IsAllowed
  skipped-IsAllowed [] = tt
  skipped-IsAllowed (ent ∷ found) =
      elim (Bool-cases (has_prefix (display_name w ent) oracle_gplink_prefix)) [
        | inl e ↦ rw e (tt, skipped-IsAllowed found)
        | inr e ↦ rw e (skipped-IsAllowed found)
      ]

  summaries-IsAllowed : (es : List Entry) → All IsAllowed (summaries w es)
  unfolding summaries IsAllowed
  summaries-IsAllowed [] = tt
  summaries-IsAllowed (x ∷ es) = (tt, summaries-IsAllowed es)

  with_entries-AllAllowed :
      (found : List LdapEntry) (o : Option (List Entry))
      → capture w.base64 (display_name w) w.sorter found ≡ o
      → AllAllowed (with_entries w e found o)
  unfolding with_entries
  with_entries-AllAllowed found none made = stop-AllAllowed (no_objects (policies e) e.principal)
  with_entries-AllAllowed found (some es) made =
      before-AllAllowed (skipped w found ++ summaries w es)
        (write w (length es) (w.marshal_indent es))
        (All-append IsAllowed (skipped w found) (summaries w es) (skipped-IsAllowed found)
          (summaries-IsAllowed es))
        (write-AllAllowed found es (w.marshal_indent es) made refl)

  pub after_search-AllAllowed :
      (r : Result (LdapError E) (List LdapEntry)) → AllAllowed (after_search w e r)
  unfolding after_search
  after_search-AllAllowed (err x) = stop-AllAllowed (searching (policies e) x)
  after_search-AllAllowed (ok found) =
      with_entries-AllAllowed found (capture w.base64 (display_name w) w.sorter found) refl
