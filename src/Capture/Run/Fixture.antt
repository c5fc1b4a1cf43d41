-- ===== src/Capture/Run/Fixture.antt =====
-- What a successful `run` of scripts/capture-gpo/main.go has done.
use opengpm.Base.{List, [], ◌∷◌, ◌++◌, length, ◌*◌, ◌+◌, ◌^◌, ◌≡◌, none, some, Result, ok}
use opengpm.Text.{Bytes}
use opengpm.Capture.{LdapEntry, Entry, Config, capture}
use opengpm.Capture.Entries.{IsCapture}
use opengpm.Transport.Krb.{Attempt, from_keytab}
use opengpm.Transport.Ldapx.{LdapError, Conn, dial, search_sd}
use opengpm.Capture.Run.{
  out_path, out_dir, attrs, policies, containers, RunEvent, searched, closed_conn, RunOutcome,
  World, kerberos, display_name,
}
use opengpm.Capture.Run.Allowed.{named_config}
use opengpm.Capture.Run.Written.{fixture_tail, Wrote}

module _ {R C P H E : Type 0} (w : World R C P H E) where
  -- What a successful run has done, from the variables on.
  pub record Captured (e : Config) (o : RunOutcome R C P H E) : Type 0 where
    pub client : Attempt R C
    pub conn : Conn H
    pub found : List LdapEntry
    pub entries : List Entry
    pub bytes : Bytes
    pub front : List (RunEvent R C P H E)
    pub login : (from_keytab (kerberos w) e.keytab e.principal e.realm).result ≡ ok client
    pub bind : (dial w.ldap_env (named_config w e client)).result ≡ ok conn
    pub search : (search_sd w.ldap_env none conn (policies e) containers attrs).result ≡ ok found
    pub captured : capture w.base64 (display_name w) w.sorter found ≡ some entries
    pub is_capture : IsCapture w.base64 (display_name w) found entries
    pub encoded : w.marshal_indent entries ≡ ok bytes
    pub made_dir_there : w.mkdir_all out_dir (7 * 8 ^ 2 + 5 * 8) ≡ none
    pub taken : w.write_file out_path (bytes ++ 10 ∷ []) (6 * 8 ^ 2) ≡ none
    pub done :
        o.events ≡ front ++ (fixture_tail w bytes (length entries) ++ closed_conn conn.conn ∷ [])

  record Searched (found : List LdapEntry) (o : RunOutcome R C P H E) : Type 0 where
    entries : List Entry
    captured : capture w.base64 (display_name w) w.sorter found ≡ some entries
    is_capture : IsCapture w.base64 (display_name w) found entries
    wrote : Wrote w (length entries) (w.marshal_indent entries) o

  record Answered (e : Config) (r : Result (LdapError E) (List LdapEntry))
      (o : RunOutcome R C P H E) : Type 0 where
    found : List LdapEntry
    answered : r ≡ ok found
    searched : Searched found o
