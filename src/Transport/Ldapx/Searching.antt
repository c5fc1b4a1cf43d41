-- ===== src/Transport/Ldapx/Searching.antt =====
-- `SearchSD` and the ways `Dial` ends, of internal/transport/ldapx/conn.go.
use opengpm.Base.{
  ℕ, ◌/◌, ◌%◌, List, [], ◌∷◌, ◌≡◌, ◌≢◌, ◌⊎◌, inl, inr, refl, Bool, true, false, ◌==◌, Option, none,
  some, Bool-cases, Result, ok, err,
}
use opengpm.Text.{Bytes}
use opengpm.Transport.Ldapx.{
  Config, LdapError, no_credentials, dial_failed, bind_failed, TlsConfig, sd_flags, SearchRequest,
  Conn, dialled, closed, Environment, Dialled, lacks_credentials, dial_url, tls_config, bind_event,
  bind, refused, after_bind, after_dial, after_tls, after_url, dial, search_sd, search_request,
}

module _ {K P H A E : Type 0} (env : Environment K P H A E) (cfg : Config K) where
  -- The ways in which a call of `Dial` ends.
  pub data Ends : Dialled K P H E → Type 0 where
    not_dialled : (e : LdapError E) → Ends (record { result = err e; events = [] })
    not_reached :
        (url : Bytes) (tc : TlsConfig P) (e : E)
        → env.dial_url_with url tc ≡ err e
        → Ends (record { result = err (dial_failed url e); events = dialled url tc ∷ [] })
    bind_accepted :
        (url : Bytes) (tc : TlsConfig P) (h : H)
        → env.dial_url_with url tc ≡ ok h
        → bind env cfg h ≡ none
        → Ends (record {
          result = ok (record { dc = cfg.dc; conn = h });
          events = dialled url tc ∷ bind_event env cfg ∷ [];
        })
    bind_rejected :
        (url : Bytes) (tc : TlsConfig P) (h : H) (e : E)
        → env.dial_url_with url tc ≡ ok h
        → bind env cfg h ≡ some e
        → Ends (record {
          result = err (bind_failed cfg.dc e);
          events = dialled url tc ∷ bind_event env cfg ∷ closed ∷ [];
        })

  after_bind-Ends :
      (url : Bytes) (tc : TlsConfig P) (h : H) (o : Option E)
      → env.dial_url_with url tc ≡ ok h
      → bind env cfg h ≡ o
      → Ends (after_bind env cfg (dialled url tc) h o)
  unfolding after_bind
  after_bind-Ends url tc h none reached bound = bind_accepted url tc h reached bound
  after_bind-Ends url tc h (some e) reached bound = bind_rejected url tc h e reached bound

  after_dial-Ends :
      (url : Bytes) (tc : TlsConfig P) (r : Result E H)
      → env.dial_url_with url tc ≡ r
      → Ends (after_dial env cfg url tc r)
  unfolding after_dial
  after_dial-Ends url tc (err e) reached = not_reached url tc e reached
  after_dial-Ends url tc (ok h) reached = after_bind-Ends url tc h (bind env cfg h) reached refl

  after_tls-Ends :
      (url : Bytes) (r : Result (LdapError E) (TlsConfig P)) → Ends (after_tls env cfg url r)
  unfolding after_tls refused
  after_tls-Ends url (err e) = not_dialled e
  after_tls-Ends url (ok tc) = after_dial-Ends url tc (env.dial_url_with url tc) refl

  after_url-Ends : (r : Result (LdapError E) Bytes) → Ends (after_url env cfg r)
  unfolding after_url refused
  after_url-Ends (err e) = not_dialled e
  after_url-Ends (ok url) = elim (Bool-cases (lacks_credentials cfg)) [
    | inl e ↦ rw e (not_dialled no_credentials)
    | inr e ↦ rw e (after_tls-Ends url (tls_config env cfg))
  ]

  -- `Dial` dials at most once, and binds at most once. It returns a connection exactly if the bind
  -- succeeds, for the pinned host and still open; a connection whose bind fails is closed before
  -- the error is returned, and the error names what failed.
  pub dial-Ends : Ends (dial env cfg)
  unfolding dial
  dial-Ends = after_url-Ends (dial_url env cfg)

-- The bit of weight `w` of the flags.
abbrev has_flag : ℕ → ℕ → Bool
has_flag w v = v / w % 2 == 1

-- A control that asks for the owner, the group and the DACL, and not for the SACL.
pub record AsksForSd (req : SearchRequest) : Type 0 where
  pub flags : ℕ
  pub attached : req.controls ≡ sd_flags flags ∷ []
  pub owner : has_flag 1 flags ≡ true
  pub group : has_flag 2 flags ≡ true
  pub dacl : has_flag 4 flags ≡ true
  pub no_sacl : has_flag 8 flags ≡ false

-- A search for this, under this base and filter.
pub record IsFor (base filter : Bytes) (attrs : List Bytes) (req : SearchRequest) : Type 0 where
  pub same_base : req.base ≡ base
  pub same_filter : req.filter ≡ filter
  pub same_attributes : req.attributes ≡ attrs
  pub asks : AsksForSd req

module _ {K P H A E : Type 0} (env : Environment K P H A E) where
  -- Whatever attributes are asked for, each request that `SearchSD` sends asks for the owner, the
  -- group and the DACL of security descriptors and not for the SACL; it sends one request unless
  -- the context has ended, and then none.
  pub search_sd-IsFor :
      (ctx : Option E) (c : Conn H) (base filter : Bytes) (attrs : List Bytes)
      → ((ctx ≡ none)
          × ((req : SearchRequest) × ((search_sd env ctx c base filter attrs).sent ≡ req ∷ [])
              × IsFor base filter attrs req))
        ⊎ ((ctx ≢ none) × ((search_sd env ctx c base filter attrs).sent ≡ []))
  unfolding search_sd search_request
  search_sd-IsFor none c base filter attrs = inl (
    refl,
    (
      search_request env base filter attrs,
      refl,
      record {
        same_base = refl;
        same_filter = refl;
        same_attributes = refl;
        asks = record {
          flags = 7;
          attached = refl;
          owner = refl;
          group = refl;
          dacl = refl;
          no_sacl = refl;
        };
      },
    ),
  )
  search_sd-IsFor (some e) c base filter attrs = inr ((λ h. cc), refl)
