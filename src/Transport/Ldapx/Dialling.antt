-- ===== src/Transport/Ldapx/Dialling.antt =====
-- `Dial` of internal/transport/ldapx/conn.go: what goes over the network, and when.
use mathlib.Core.Path.{subst}
use opengpm.Base.{
  ok-injective, or_false, [], ◌∷◌, ◌++◌, ◌≡◌, ◌≢◌, inl, inr, refl, sym, ◌∙◌, Bool, true, false,
  ◌||◌, if◌then◌else◌, Option, none, some, Option-cases, Bool-cases, Result, ok, err, All,
}
use opengpm.Text.{Bytes, codes}
use opengpm.Text.Fields.{join_host_port}
use opengpm.Transport.Ldapx.{
  Config, LdapError, no_dc, plaintext, TlsConfig, version_tls12, Event, dialled, gssapi_bound,
  simple_bound, closed, Environment, is_empty, lacks_credentials, dial_url, with_pool, with_bundle,
  tls_config, bind_event, bind, refused, after_bind, after_dial, after_tls, after_url, dial,
}

-- The URL of the pinned domain controller.
abbrev pub pinned_url : {K : Type 0} → Config K → Bytes
pinned_url cfg = codes "ldaps://" ++ join_host_port cfg.dc (codes "636")

module _ {K P H A E : Type 0} (env : Environment K P H A E) (cfg : Config K) where
  -- The configuration of a channel that is verified: the roots are those of the bundle that the
  -- configuration names, the name is the pinned host's, and nothing is skipped.
  pub record IsVerified (tc : TlsConfig P) : Type 0 where
    pub bundle : Bytes
    pub named : cfg.ca_cert ≢ []
    pub read : env.read_file cfg.ca_cert ≡ ok bundle
    pub roots : env.append_certs_from_pem bundle ≡ some tc.root_cas
    pub server : tc.server_name ≡ cfg.dc
    pub version : tc.min_version ≡ version_tls12
    pub checked : tc.insecure_skip_verify ≡ false

  -- A simple bind is only for a configuration without Kerberos, and never an anonymous one.
  pub record IsSimple (dn password : Bytes) : Type 0 where
    pub without_krb : cfg.krb ≡ none
    pub same_dn : dn ≡ cfg.bind_dn
    pub same_password : password ≡ cfg.password
    pub dn_set : dn ≢ []
    pub password_set : password ≢ []

  -- What may go over the network.
  unfoldable pub Permitted : Event K P → Type 0
  Permitted (dialled url tc) = (cfg.dc ≢ []) × (url ≡ pinned_url cfg) × IsVerified tc
  Permitted (gssapi_bound k spn options) =
      (cfg.krb ≡ some k)
      × (spn ≡ codes "ldap/" ++ cfg.dc)
      × (options ≡ env.ap_option_mutual_required ∷ [])
  Permitted (simple_bound dn password) = IsSimple dn password
  Permitted closed = Unit

  is_empty-false : (s : Bytes) → is_empty s ≡ false → s ≢ []
  unfolding is_empty
  is_empty-false [] h = cc
  is_empty-false (c ∷ s) h = λ e. cc

  -- A result behind a refusal.
  unless-ok :
      {F B : Type 0} (b : Bool) (x : F) (r : Result F B) {y : B}
      → (if b then err x else r) ≡ ok y
      → (b ≡ false) × (r ≡ ok y)
  unless-ok true x r h = cc
  unless-ok false x r h = (refl, h)

  dial_url_sound :
      (url : Bytes) → dial_url env cfg ≡ ok url → (cfg.dc ≢ []) × (url ≡ pinned_url cfg)
  unfolding dial_url
  dial_url_sound url h =
      let (named, same) = unless-ok (is_empty cfg.dc) no_dc (ok (pinned_url cfg)) h in
      (is_empty-false cfg.dc named, sym (ok-injective same))

  with_pool_sound :
      (bundle : Bytes) (o : Option P) (tc : TlsConfig P)
      → cfg.ca_cert ≢ []
      → env.read_file cfg.ca_cert ≡ ok bundle
      → env.append_certs_from_pem bundle ≡ o
      → with_pool env cfg o ≡ ok tc
      → IsVerified tc
  unfolding with_pool
  with_pool_sound bundle none tc named read parsed h = cc
  with_pool_sound bundle (some roots) tc named read parsed h =
      subst IsVerified (ok-injective h) (record {
        bundle = bundle;
        named = named;
        read = read;
        roots = parsed;
        server = refl;
        version = refl;
        checked = refl;
      })

  with_bundle_sound :
      (r : Result E Bytes) (tc : TlsConfig P)
      → cfg.ca_cert ≢ []
      → env.read_file cfg.ca_cert ≡ r
      → with_bundle env cfg r ≡ ok tc
      → IsVerified tc
  unfolding with_bundle
  with_bundle_sound (err e) tc named read h = cc
  with_bundle_sound (ok bundle) tc named read h =
      with_pool_sound bundle (env.append_certs_from_pem bundle) tc named read refl h

  tls_config_sound : (tc : TlsConfig P) → tls_config env cfg ≡ ok tc → IsVerified tc
  unfolding tls_config
  tls_config_sound tc h =
      let bundled = with_bundle env cfg (env.read_file cfg.ca_cert) in
      let (named, made) = unless-ok (is_empty cfg.ca_cert) plaintext bundled h in
      with_bundle_sound (env.read_file cfg.ca_cert) tc (is_empty-false cfg.ca_cert named) refl made

  bind_event-Permitted : lacks_credentials cfg ≡ false → Permitted (bind_event env cfg)
  unfolding Permitted bind_event lacks_credentials
  bind_event-Permitted h = elim (Option-cases cfg.krb) [
    | inl e ↦
        let opened : lacks_credentials cfg ≡ (is_empty cfg.bind_dn || is_empty cfg.password) =
          rw (e, lacks_credentials) refl in
        let both = sym opened ∙ h in
        let (dn, password) = or_false (is_empty cfg.bind_dn) (is_empty cfg.password) both in
        let event : bind_event env cfg ≡ simple_bound cfg.bind_dn cfg.password =
          rw (e, bind_event) refl in
        subst Permitted (sym event) (record {
          without_krb = e;
          same_dn = refl;
          same_password = refl;
          dn_set = is_empty-false cfg.bind_dn dn;
          password_set = is_empty-false cfg.password password;
        })
    | inr (k, e) ↦
        let spn = codes "ldap/" ++ cfg.dc in
        let event : bind_event env cfg ≡ gssapi_bound k spn (env.ap_option_mutual_required ∷ []) =
          rw (e, bind_event) refl in
        subst Permitted (sym event) (e, refl, refl)
  ]

  after_bind-Permitted :
      (url : Bytes) (tc : TlsConfig P) (h : H) (o : Option E)
      → Permitted (dialled url tc)
      → Permitted (bind_event env cfg)
      → All Permitted (after_bind env cfg (dialled url tc) h o).events
  unfolding after_bind Permitted
  after_bind-Permitted url tc h none first second = (first, (second, tt))
  after_bind-Permitted url tc h (some e) first second = (first, (second, (tt, tt)))

  after_dial-Permitted :
      (url : Bytes) (tc : TlsConfig P) (r : Result E H)
      → Permitted (dialled url tc)
      → Permitted (bind_event env cfg)
      → All Permitted (after_dial env cfg url tc r).events
  unfolding after_dial
  after_dial-Permitted url tc (err e) first second = (first, tt)
  after_dial-Permitted url tc (ok h) first second =
      after_bind-Permitted url tc h (bind env cfg h) first second

  after_tls-Permitted :
      (url : Bytes) (r : Result (LdapError E) (TlsConfig P))
      → dial_url env cfg ≡ ok url
      → lacks_credentials cfg ≡ false
      → tls_config env cfg ≡ r
      → All Permitted (after_tls env cfg url r).events
  unfolding after_tls refused Permitted
  after_tls-Permitted url (err e) at_url bound made = tt
  after_tls-Permitted url (ok tc) at_url bound made =
      let (named, same) = dial_url_sound url at_url in
      after_dial-Permitted url tc (env.dial_url_with url tc) (named, same, tls_config_sound tc made)
        (bind_event-Permitted bound)

  after_url-Permitted :
      (r : Result (LdapError E) Bytes)
      → dial_url env cfg ≡ r
      → All Permitted (after_url env cfg r).events
  unfolding after_url refused
  after_url-Permitted (err e) at_url = tt
  after_url-Permitted (ok url) at_url = elim (Bool-cases (lacks_credentials cfg)) [
    | inl e ↦ rw e tt
    | inr e ↦ rw e (after_tls-Permitted url (tls_config env cfg) at_url e refl)
  ]

  -- All that `Dial` sends over the network is permitted: it dials the LDAPS URL of the pinned
  -- domain controller alone, over a channel verified against the bundle that the configuration
  -- names; and it binds by Kerberos to that host's principal, or with a DN and a password that are
  -- not empty if there is no Kerberos client.
  pub dial-Permitted : All Permitted (dial env cfg).events
  unfolding dial
  dial-Permitted = after_url-Permitted (dial_url env cfg) refl
