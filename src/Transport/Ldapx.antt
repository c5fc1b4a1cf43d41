-- ===== src/Transport/Ldapx.antt =====
-- internal/transport/ldapx/conn.go: a bound LDAPS connection to one domain controller.
-- go-ldap, the file system and `x509` are parameters: each answer is a function of the call's
-- arguments, and a call of `Dial` makes each call at most once. What goes over the network is kept
-- as a list of events, earliest first.
pub mod Dialling
pub mod Searching
pub mod Refusing
use opengpm.Base.{
  ℕ, ◌+◌, ◌*◌, List, [], ◌∷◌, ◌++◌, Bool, true, false, ◌||◌, if◌then◌else◌, Option, none, some,
  Result, ok, err,
}
use opengpm.Text.{Bytes, codes}
use opengpm.Text.Fields.{join_host_port}

-- `Config`. A Kerberos client is one of `K`.
pub record Config (K : Type 0) : Type 0 where
  pub dc : Bytes
  pub krb : Option K
  pub bind_dn : Bytes
  pub password : Bytes
  pub ca_cert : Bytes

-- The refusals, and the wrapped errors of the calls.
pub data LdapError (E : Type 0) : Type 0 where
  no_dc : LdapError E
  no_credentials : LdapError E
  plaintext : LdapError E
  read_ca_bundle : E → LdapError E
  no_certificate : Bytes → LdapError E
  dial_failed : Bytes → E → LdapError E
  bind_failed : Bytes → E → LdapError E
  cancelled : E → LdapError E
  search_failed : Bytes → E → LdapError E

-- `tls.Config`, the fields that this package sets and the one that it must not.
pub record TlsConfig (P : Type 0) : Type 0 where
  pub root_cas : P
  pub server_name : Bytes
  pub min_version : ℕ
  pub insecure_skip_verify : Bool

-- `tls.VersionTLS12`
abbrev pub version_tls12 : ℕ
version_tls12 = 3 * 256 + 3

-- `OWNER|GROUP|DACL`, three bits that do not meet.
abbrev pub sd_flags_dacl_owner_group : ℕ
sd_flags_dacl_owner_group = 1 + 2 + 4

-- `ldap.ControlMicrosoftSDFlags`, with its `ControlValue`.
pub data Control : Type 0 where
  sd_flags : ℕ → Control

pub record SearchRequest : Type 0 where
  pub base : Bytes
  pub scope : ℕ
  pub deref_aliases : ℕ
  pub size_limit : ℕ
  pub time_limit : ℕ
  pub types_only : Bool
  pub filter : Bytes
  pub attributes : List Bytes
  pub controls : List Control

-- `Conn`, over a handle of go-ldap's.
pub record Conn (H : Type 0) : Type 0 where
  pub dc : Bytes
  pub conn : H

-- `Conn.DC`
unfoldable pub conn_dc : {H : Type 0} → Conn H → Bytes
conn_dc c = c.dc

pub data Event (K P : Type 0) : Type 0 where
  dialled : Bytes → TlsConfig P → Event K P
  gssapi_bound : K → Bytes → List ℕ → Event K P
  simple_bound : Bytes → Bytes → Event K P
  closed : Event K P

-- The calls out of the package, and the constants of go-ldap and gokrb5 that it names.
pub record Environment (K P H A E : Type 0) : Type 0 where
  pub read_file : Bytes → Result E Bytes
  pub append_certs_from_pem : Bytes → Option P
  pub dial_url_with : Bytes → TlsConfig P → Result E H
  pub gssapi_bind : H → K → Bytes → List ℕ → Option E
  pub simple_bind : H → Bytes → Bytes → Option E
  -- `none` where the handle is no `io.Closer`
  pub close_handle : H → Option (Option E)
  pub search : H → SearchRequest → Result E (List A)
  pub ap_option_mutual_required : ℕ
  pub scope_whole_subtree : ℕ
  pub never_deref_aliases : ℕ

pub record Dialled (K P H E : Type 0) : Type 0 where
  pub result : Result (LdapError E) (Conn H)
  pub events : List (Event K P)

pub record Searched (A E : Type 0) : Type 0 where
  pub result : Result (LdapError E) (List A)
  pub sent : List SearchRequest

unfoldable pub is_empty : Bytes → Bool
is_empty [] = true
is_empty (c ∷ s) = false

-- `cfg.Krb == nil && (cfg.BindDN == "" || cfg.Password == "")`
unfoldable pub lacks_credentials : {K : Type 0} → Config K → Bool
unfolding is_empty
lacks_credentials cfg = elim cfg.krb [
  | some k ↦ false
  | none ↦ is_empty cfg.bind_dn || is_empty cfg.password
]

module _ {K P H A E : Type 0} (env : Environment K P H A E) where
  -- `dialURL`
  unfoldable pub dial_url : Config K → Result (LdapError E) Bytes
  unfolding is_empty join_host_port
  dial_url cfg =
      if is_empty cfg.dc
      then err no_dc
      else ok (codes "ldaps://" ++ join_host_port cfg.dc (codes "636"))

  unfoldable pub with_pool : Config K → Option P → Result (LdapError E) (TlsConfig P)
  with_pool cfg none = err (no_certificate cfg.ca_cert)
  with_pool cfg (some roots) = ok (record {
    root_cas = roots;
    server_name = cfg.dc;
    min_version = version_tls12;
    insecure_skip_verify = false;
  })

  unfoldable pub with_bundle : Config K → Result E Bytes → Result (LdapError E) (TlsConfig P)
  unfolding with_pool
  with_bundle cfg (err e) = err (read_ca_bundle e)
  with_bundle cfg (ok bundle) = with_pool cfg (env.append_certs_from_pem bundle)

  -- `tlsConfig`
  unfoldable pub tls_config : Config K → Result (LdapError E) (TlsConfig P)
  unfolding is_empty with_bundle
  tls_config cfg =
      if is_empty cfg.ca_cert then err plaintext else with_bundle cfg (env.read_file cfg.ca_cert)

  -- The bind: its event, and its error.
  unfoldable pub bind_event : Config K → Event K P
  bind_event cfg = elim cfg.krb [
    | some k ↦ gssapi_bound k (codes "ldap/" ++ cfg.dc) (env.ap_option_mutual_required ∷ [])
    | none ↦ simple_bound cfg.bind_dn cfg.password
  ]

  unfoldable pub bind : Config K → H → Option E
  bind cfg h = elim cfg.krb [
    | some k ↦ env.gssapi_bind h k (codes "ldap/" ++ cfg.dc) (env.ap_option_mutual_required ∷ [])
    | none ↦ env.simple_bind h cfg.bind_dn cfg.password
  ]

  unfoldable pub refused : LdapError E → Dialled K P H E
  refused e = record { result = err e; events = [] }

  unfoldable pub after_bind : Config K → Event K P → H → Option E → Dialled K P H E
  unfolding bind_event
  after_bind cfg first h none = record {
    result = ok (record { dc = cfg.dc; conn = h });
    events = first ∷ bind_event cfg ∷ [];
  }
  after_bind cfg first h (some e) = record {
    result = err (bind_failed cfg.dc e);
    events = first ∷ bind_event cfg ∷ closed ∷ [];
  }

  unfoldable pub after_dial : Config K → Bytes → TlsConfig P → Result E H → Dialled K P H E
  unfolding after_bind bind
  after_dial cfg url tc (err e) = record {
    result = err (dial_failed url e);
    events = dialled url tc ∷ [];
  }
  after_dial cfg url tc (ok h) = after_bind cfg (dialled url tc) h (bind cfg h)

  unfoldable pub after_tls : Config K → Bytes → Result (LdapError E) (TlsConfig P) → Dialled K P H E
  unfolding after_dial refused
  after_tls cfg url (err e) = refused e
  after_tls cfg url (ok tc) = after_dial cfg url tc (env.dial_url_with url tc)

  unfoldable pub after_url : Config K → Result (LdapError E) Bytes → Dialled K P H E
  unfolding after_tls tls_config lacks_credentials refused
  after_url cfg (err e) = refused e
  after_url cfg (ok url) =
      if lacks_credentials cfg then refused no_credentials else after_tls cfg url (tls_config cfg)

  -- `Dial`
  unfoldable pub dial : Config K → Dialled K P H E
  unfolding after_url dial_url
  dial cfg = after_url cfg (dial_url cfg)

  -- `Conn.Close`
  unfoldable pub close : Conn H → Option E
  close c = elim (env.close_handle c.conn) [ some r ↦ r | none ↦ none ]

  unfoldable pub search_request : Bytes → Bytes → List Bytes → SearchRequest
  search_request base filter attrs = record {
    base = base;
    scope = env.scope_whole_subtree;
    deref_aliases = env.never_deref_aliases;
    size_limit = 0;
    time_limit = 0;
    types_only = false;
    filter = filter;
    attributes = attrs;
    controls = sd_flags sd_flags_dacl_owner_group ∷ [];
  }

  unfoldable pub answered : Bytes → Result E (List A) → Result (LdapError E) (List A)
  answered base (ok entries) = ok entries
  answered base (err e) = err (search_failed base e)

  -- `SearchSD`, under a context whose error is the first argument.
  unfoldable pub search_sd : Option E → Conn H → Bytes → Bytes → List Bytes → Searched A E
  unfolding search_request answered
  search_sd (some e) c base filter attrs = record { result = err (cancelled e); sent = [] }
  search_sd none c base filter attrs =
      let req = search_request base filter attrs in
      record { result = answered base (env.search c.conn req); sent = req ∷ [] }
