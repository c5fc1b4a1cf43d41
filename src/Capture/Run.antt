-- ===== src/Capture/Run.antt =====
-- `run` and `main` of scripts/capture-gpo/main.go: from the environment to the written fixture.
-- It composes the models of `krb.FromKeytab` and of ldapx's `Dial` and `SearchSD`; what the
-- libraries and the file system answer is a parameter.
pub mod Allowed
pub mod Closing
pub mod Safety
pub mod Written
pub mod Fixture
use opengpm.Base.{
  ℕ, List, [], ◌∷◌, ◌++◌, map, reverse, Bool, true, false, Option, none, some, if◌then◌else◌,
  Result, ok, err, length, ◌*◌, ◌^◌, ◌+◌,
}
use opengpm.Base.Sort.{Sorter}
use opengpm.Text.{Bytes, codes}
use opengpm.Text.Search.{has_prefix}
use opengpm.Capture.{
  LdapEntry, Entry, Recorded, one, oracle_gplink_prefix, Config, read_env, find, str, cn, keep,
  capture,
}
use opengpm.Transport.Krb as krb
use opengpm.Transport.Krb.{Attempt, KrbError, from_keytab}
use opengpm.Transport.Ldapx as ldapx
use opengpm.Transport.Ldapx.{
  LdapError, Event, SearchRequest, Conn, Dialled, dial, Searched, search_sd,
}

-- `outPath`, and its directory.
abbrev pub out_path : Bytes
out_path = codes "testdata/ldap/gpo_entries.json"

abbrev pub out_dir : Bytes
out_dir = codes "testdata/ldap"

-- `attrs`
abbrev pub attrs : List Bytes
attrs =
    codes "cn"
    ∷ codes "displayName"
    ∷ codes "gPCFileSysPath"
    ∷ codes "versionNumber"
    ∷ codes "flags"
    ∷ codes "gPCFunctionalityVersion"
    ∷ codes "gPCMachineExtensionNames"
    ∷ codes "gPCUserExtensionNames"
    ∷ codes "gPCWQLFilter"
    ∷ codes "nTSecurityDescriptor"
    ∷ codes "objectGUID"
    ∷ codes "whenCreated"
    ∷ codes "whenChanged"
    ∷ []

abbrev pub policies : Config → Bytes
policies e = codes "CN=Policies,CN=System," ++ e.base_dn

abbrev pub containers : Bytes
containers = codes "(objectClass=groupPolicyContainer)"

-- A line on standard output.
pub data Line : Type 0 where
  skipping : Bytes → Bytes → Line
  summary : Bytes → Bytes → Bytes → Line
  wrote : ℕ → Line

-- `present`
unfoldable pub present_value : Option Recorded → Bytes
present_value (some (one [])) = codes "ABSENT"
present_value (some (one (c ∷ s))) = codes "present"
present_value _ = codes "ABSENT"

unfoldable pub present : Entry → Bytes → Bytes
unfolding present_value find
present e name = present_value (find name e.attributes)

module _ (R C P H E : Type 0) where
  -- What `run` does, in order. A Kerberos client is the attempt that logged in.
  pub data RunEvent : Type 0 where
    logged_in : Attempt R C → RunEvent
    on_network : Event (Attempt R C) P → RunEvent
    searched : SearchRequest → RunEvent
    closed_conn : H → RunEvent
    printed : Line → RunEvent
    made_dir : Bytes → ℕ → RunEvent
    wrote_file : Bytes → Bytes → ℕ → RunEvent

  pub data RunError : Type 0 where
    not_configured : List Bytes → RunError
    login_for : Bytes → KrbError E → RunError
    binding_to : Bytes → LdapError E → RunError
    searching : Bytes → LdapError E → RunError
    no_objects : Bytes → Bytes → RunError
    encoding creating writing : Bytes → E → RunError

  pub record RunOutcome : Type 0 where
    pub failed : Option RunError
    pub events : List RunEvent

  -- Everything outside of the program.
  pub record World : Type 0 where
    pub getenv : Bytes → Bytes
    pub wide : Bytes → Bytes
    pub base64 : Bytes → Bytes
    pub sorter : Sorter Entry
    pub krb_env : krb.Environment R C E
    pub ldap_env : ldapx.Environment (Attempt R C) P H LdapEntry E
    pub get_attribute_value : LdapEntry → Bytes → Bytes
    pub marshal_indent : List Entry → Result E Bytes
    pub mkdir_all : Bytes → ℕ → Option E
    pub write_file : Bytes → Bytes → ℕ → Option E

module _ {R C P H E : Type 0} (w : World R C P H E) where
  -- `krb` reads the same environment.
  abbrev pub kerberos : krb.Environment R C E
  kerberos = record w.krb_env { krb5_config = w.getenv (codes "KRB5_CONFIG") }

  abbrev pub display_name : LdapEntry → Bytes
  display_name ent = w.get_attribute_value ent (codes "displayName")

  unfoldable pub stop : RunError R C P H E → RunOutcome R C P H E
  stop x = record { failed = some x; events = [] }

  unfoldable pub before : List (RunEvent R C P H E) → RunOutcome R C P H E → RunOutcome R C P H E
  before es o = record { failed = o.failed; events = es ++ o.events }

  unfoldable pub after_file : ℕ → List (RunEvent R C P H E) → Option E → RunOutcome R C P H E
  after_file n es (some x) = record { failed = some (writing out_path x); events = es }
  after_file n es none = record { failed = none; events = es ++ printed (wrote n) ∷ [] }

  unfoldable pub after_dir : ℕ → Bytes → Option E → RunOutcome R C P H E
  unfolding after_file
  after_dir n b (some x) = record {
    failed = some (creating out_dir x);
    events = made_dir out_dir (7 * 8 ^ 2 + 5 * 8) ∷ [];
  }
  after_dir n b none =
      after_file n
        (made_dir out_dir (7 * 8 ^ 2 + 5 * 8) ∷ wrote_file out_path (b ++ 10 ∷ []) (6 * 8 ^ 2) ∷ [])
        (w.write_file out_path (b ++ 10 ∷ []) (6 * 8 ^ 2))

  -- `write`, and the line behind it.
  unfoldable pub write : ℕ → Result E Bytes → RunOutcome R C P H E
  unfolding after_dir stop
  write n (err x) = stop (encoding out_path x)
  write n (ok b) = after_dir n b (w.mkdir_all out_dir (7 * 8 ^ 2 + 5 * 8))

  -- The lines of the loop over what was found.
  unfoldable pub skipped : List LdapEntry → List (RunEvent R C P H E)
  unfolding has_prefix
  skipped [] = []
  skipped (ent ∷ found) =
      let rest = skipped found in
      if has_prefix (display_name ent) oracle_gplink_prefix
      then printed (skipping (w.get_attribute_value ent (codes "cn")) (display_name ent)) ∷ rest
      else rest

  unfoldable pub summaries : List Entry → List (RunEvent R C P H E)
  unfolding cn str present
  summaries [] = []
  summaries (e ∷ es) =
      printed
        (summary (cn e) (str e (codes "displayName")) (present e (codes "nTSecurityDescriptor")))
      ∷ summaries es

  unfoldable pub with_entries : Config → List LdapEntry → Option (List Entry) → RunOutcome R C P H E
  unfolding before skipped summaries write stop
  with_entries e found none = stop (no_objects (policies e) e.principal)
  with_entries e found (some es) =
      before (skipped found ++ summaries es) (write (length es) (w.marshal_indent es))

  unfoldable pub after_search :
      Config → Result (LdapError E) (List LdapEntry) → RunOutcome R C P H E
  unfolding with_entries stop
  after_search e (err x) = stop (searching (policies e) x)
  after_search e (ok found) = with_entries e found (capture w.base64 display_name w.sorter found)

  unfoldable pub with_conn : Config → Conn H → RunOutcome R C P H E
  unfolding after_search before
  with_conn e c =
      let s = search_sd w.ldap_env none c (policies e) containers attrs in
      before (map searched s.sent) (after_search e s.result)

  -- The deferred close comes last.
  unfoldable pub closing : H → RunOutcome R C P H E → RunOutcome R C P H E
  closing h o = record { failed = o.failed; events = o.events ++ closed_conn h ∷ [] }

  unfoldable pub after_dial : Config → Result (LdapError E) (Conn H) → RunOutcome R C P H E
  unfolding with_conn closing stop
  after_dial e (err x) = stop (binding_to e.kdc x)
  after_dial e (ok c) = closing c.conn (with_conn e c)

  unfoldable pub ldap_config : Config → Attempt R C → ldapx.Config (Attempt R C)
  ldap_config e k = record {
    dc = e.kdc;
    krb = some k;
    bind_dn = [];
    password = [];
    ca_cert = e.ca_cert;
  }

  unfoldable pub after_login : Config → Result (KrbError E) (Attempt R C) → RunOutcome R C P H E
  unfolding after_dial ldap_config before stop
  after_login e (err x) = stop (login_for e.principal x)
  after_login e (ok k) =
      let d = dial w.ldap_env (ldap_config e k) in
      before (map on_network d.events) (after_dial e d.result)

  unfoldable pub with_config : Result (List Bytes) Config → RunOutcome R C P H E
  unfolding after_login before stop
  with_config (err names) = stop (not_configured names)
  with_config (ok e) =
      let o = from_keytab kerberos e.keytab e.principal e.realm in
      before (map logged_in (reverse o.attempts)) (after_login e o.result)

  -- `run`
  unfoldable pub run : RunOutcome R C P H E
  unfolding with_config
  run = with_config (read_env w.wide w.getenv)

-- `main`: the exit status.
unfoldable pub exit_status : {R C P H E : Type 0} → RunOutcome R C P H E → ℕ
exit_status o = elim o.failed [ none ↦ 0 | some x ↦ 1 ]
