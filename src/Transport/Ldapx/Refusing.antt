-- ===== src/Transport/Ldapx/Refusing.antt =====
-- What `Dial` of internal/transport/ldapx/conn.go refuses before it dials.
use opengpm.Base.{
  [], ◌∷◌, ◌++◌, ◌≡◌, ◌≢◌, ◌⊎◌, inl, inr, refl, true, false, none, Option-cases, ok, err, arith,
}
use opengpm.Text.{Bytes, codes}
use opengpm.Text.Fields.{join_host_port}
use opengpm.Transport.Ldapx.{
  Config, LdapError, no_dc, no_credentials, plaintext, Environment, is_empty, lacks_credentials,
  dial_url, tls_config, refused, after_tls, after_url, dial,
}

module _ {K P H A E : Type 0} (env : Environment K P H A E) (cfg : Config K) where
  -- What `Dial` refuses, with the error for it: no host; with a host, neither a Kerberos client nor
  -- both of a bind DN and a password; with these, no CA bundle.
  pub data Refusal : LdapError E → Type 0 where
    unnamed : cfg.dc ≡ [] → Refusal no_dc
    anonymous :
        cfg.dc ≢ []
        → cfg.krb ≡ none
        → (cfg.bind_dn ≡ []) ⊎ (cfg.password ≡ [])
        → Refusal no_credentials
    in_the_clear :
        cfg.dc ≢ []
        → (cfg.krb ≢ none) ⊎ ((cfg.bind_dn ≢ []) × (cfg.password ≢ []))
        → cfg.ca_cert ≡ []
        → Refusal plaintext

  is_empty-ne : (s : Bytes) → s ≢ [] → is_empty s ≡ false
  unfolding is_empty
  is_empty-ne [] h = absurd (h refl)
  is_empty-ne (c ∷ s) h = refl

  -- The URL of a configuration that names a host.
  abbrev ldaps_url : Bytes
  ldaps_url = codes "ldaps://" ++ join_host_port cfg.dc (codes "636")

  named-dial_url : cfg.dc ≢ [] → dial_url env cfg ≡ ok ldaps_url
  unfolding dial_url
  named-dial_url h = rw (is_empty-ne cfg.dc h) refl

  lacks_none :
      cfg.krb ≡ none → (cfg.bind_dn ≡ []) ⊎ (cfg.password ≡ []) → lacks_credentials cfg ≡ true
  unfolding lacks_credentials is_empty
  lacks_none absent (inl e) = rw (absent, lacks_credentials, e) refl
  lacks_none absent (inr e) = rw (absent, lacks_credentials, e) (ground arith)

  lacks_some :
      (cfg.krb ≢ none) ⊎ ((cfg.bind_dn ≢ []) × (cfg.password ≢ [])) → lacks_credentials cfg ≡ false
  unfolding lacks_credentials
  lacks_some h = elim (Option-cases cfg.krb) [
    | inr (k, e) ↦ rw (e, lacks_credentials) refl
    | inl absent ↦ elim h [
      | inl present ↦ absurd (present absent)
      | inr (named, secret) ↦
          rw
            (
              absent,
              lacks_credentials,
              is_empty-ne cfg.bind_dn named,
              is_empty-ne cfg.password secret,
            )
            refl
    ]
  ]

  -- `Dial` refuses a configuration without a host, without credentials or without a CA bundle with
  -- the error for the first of these that is missing, before anything goes over the network.
  pub dial_refused :
      {e : LdapError E} → Refusal e → dial env cfg ≡ record { result = err e; events = [] }
  unfolding dial after_url after_tls refused
  dial_refused (unnamed h) =
      let made : dial_url env cfg ≡ err no_dc = rw (h, dial_url) refl in rw (made, after_url) refl
  dial_refused (anonymous host absent missing) =
      let made = named-dial_url host in rw (made, after_url, lacks_none absent missing) refl
  dial_refused (in_the_clear host credentials bare) =
      let made = named-dial_url host in
      let no_tls : tls_config env cfg ≡ err plaintext = rw (bare, tls_config) refl in
      rw (made, after_url, lacks_some credentials, no_tls, after_tls) refl
