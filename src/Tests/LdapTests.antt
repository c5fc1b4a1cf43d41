-- ===== src/Tests/LdapTests.antt =====
-- internal/transport/ldapx/conn.go against a domain controller that takes one password.
use opengpm.Base.{
  ℕ, [], ◌∷◌, ◌≡◌, ◌≢◌, ◌⊎◌, refl, false, if◌then◌else◌, Option, none, some, ok, err, All,
}
use opengpm.Text.{Bytes, codes, equal}
use opengpm.Text.Search.{index_byte}
use opengpm.Text.Fields.{join_host_port}
use opengpm.Transport.Ldapx.{
  Config, TlsConfig, version_tls12, SearchRequest, Conn, dialled, simple_bound, closed, bind_failed,
  no_dc, Environment, dial, search_sd,
}
use opengpm.Transport.Ldapx.Dialling.{Permitted, dial-Permitted}
use opengpm.Transport.Ldapx.Refusing
use opengpm.Transport.Ldapx.Refusing.{dial_refused}
use opengpm.Transport.Ldapx.Searching.{Ends, IsFor, dial-Ends, search_sd-IsFor}

abbrev accepts : Bytes → Option ℕ
accepts password = if equal password (codes "right") then none else some 49

-- A Kerberos client, a pool and a handle are units here; an error and an entry are numbers.
abbrev pub server : Environment Unit Unit Unit ℕ ℕ
server = record {
  read_file = λ path. ok (codes "PEM");
  append_certs_from_pem = λ bundle. some tt;
  dial_url_with = λ url tc. ok tt;
  gssapi_bind = λ h k spn options. none;
  simple_bind = λ h dn password. accepts password;
  close_handle = λ h. some none;
  search = λ h req. ok (1 ∷ 2 ∷ []);
  ap_option_mutual_required = 2;
  scope_whole_subtree = 2;
  never_deref_aliases = 0;
}

abbrev with_password : Bytes → Config Unit
with_password password = record {
  dc = codes "dc1.gplab.local";
  krb = none;
  bind_dn = codes "CN=svc";
  password = password;
  ca_cert = codes "/ca.pem";
}

abbrev unnamed : Config Unit
unnamed = record {
  dc = [];
  krb = none;
  bind_dn = codes "CN=svc";
  password = codes "right";
  ca_cert = codes "/ca.pem";
}

abbrev channel : TlsConfig Unit
channel = record {
  root_cas = tt;
  server_name = codes "dc1.gplab.local";
  min_version = version_tls12;
  insecure_skip_verify = false;
}

wrong_password : dial server (with_password (codes "wrong")) ≡ record {
  result = err (bind_failed (codes "dc1.gplab.local") 49);
  events =
      dialled (codes "ldaps://dc1.gplab.local:636") channel
      ∷ simple_bound (codes "CN=svc") (codes "wrong")
      ∷ closed
      ∷ [];
}
unfolding dial join_host_port equal index_byte
wrong_password = refl

dial-Permitted_example :
    All
      (Permitted server (with_password (codes "wrong")))
      (dial server (with_password (codes "wrong"))).events
dial-Permitted_example = dial-Permitted server (with_password (codes "wrong"))

dial-Ends_example :
    Ends server (with_password (codes "wrong")) (dial server (with_password (codes "wrong")))
dial-Ends_example = dial-Ends server (with_password (codes "wrong"))

dial_refused_example : dial server unnamed ≡ record { result = err no_dc; events = [] }
dial_refused_example = dial_refused server unnamed (Refusing.unnamed refl)

abbrev conn : Conn Unit
conn = record { dc = codes "dc1.gplab.local"; conn = tt }

-- A context that has not ended.
abbrev live : Option ℕ
live = none

abbrev base : Bytes
base = codes "DC=gplab,DC=local"

search_sd-IsFor_example :
    ((live ≡ none)
      × ((req : SearchRequest) × ((search_sd server live conn base (codes "(cn=*)") []).sent
            ≡ req ∷ [])
          × IsFor base (codes "(cn=*)") [] req))
    ⊎ ((live ≢ none) × ((search_sd server live conn base (codes "(cn=*)") []).sent ≡ []))
search_sd-IsFor_example = search_sd-IsFor server live conn base (codes "(cn=*)") []
