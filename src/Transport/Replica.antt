-- ===== src/Transport/Replica.antt =====
-- internal/transport/ldapx/conn.go and internal/transport/smbx/smbx.go together: the SMB session is
-- given the host that `Conn.DC` reports, so that SYSVOL is read from the replica that LDAP is.
use mathlib.Core.Path.{subst}
use opengpm.Base.{
  [], ◌∷◌, ◌≡◌, sym, ap, ◌∙◌, Option, none, some, Result, ok, err, All, ok-injective,
}
use opengpm.Text.{Bytes}
use opengpm.Transport.Ldapx as ldapx
use opengpm.Transport.Ldapx.{Conn, Dialled, conn_dc, dial}
use opengpm.Transport.Ldapx.Searching.{
  Ends, not_dialled, not_reached, bind_accepted, bind_rejected, dial-Ends,
}
use opengpm.Transport.Smbx.Session.{
  SmbDial, started, start_for, start_session, IsPinnedDial, start_session-IsPinnedDial,
}
use opengpm.Transport.Smbx.Client as smbx
use opengpm.Transport.Smbx.Client.Mounts.{IsPinned}
use opengpm.Transport.Smbx.Threads.{System, Reach}
use opengpm.Transport.Smbx.Threads.Interleavings.{Reach-mounts}

module _ {K P H A E : Type 0} (env : ldapx.Environment K P H A E) (cfg : ldapx.Config K) where
  Ends-conn_dc :
      {d : Dialled K P H E} {c : Conn H} → Ends env cfg d → d.result ≡ ok c → conn_dc c ≡ cfg.dc
  unfolding conn_dc
  Ends-conn_dc (not_dialled e) h = absurd (cc)
  Ends-conn_dc (not_reached url tc e _) h = absurd (cc)
  Ends-conn_dc (bind_accepted url tc x _ _) h = sym (ap (λ y. y.dc) (ok-injective h))
  Ends-conn_dc (bind_rejected url tc x e _ _) h = absurd (cc)

  -- The connection is to the host that was configured.
  dial-conn_dc : {c : Conn H} → (dial env cfg).result ≡ ok c → conn_dc c ≡ cfg.dc
  dial-conn_dc = Ends-conn_dc (dial-Ends env cfg)

module _ {K S E : Type 0} (dial_smb2 : SmbDial K → Result E S) where
  started-dc :
      (dc : Bytes) (d : SmbDial K) (r : Result E S) {at : Bytes} {s : S}
      → (started dial_smb2 dc d r).result ≡ ok (at, s)
      → at ≡ dc
  unfolding started
  started-dc dc d (ok s) h = ap (λ p. p.0) (sym (ok-injective h))
  started-dc dc d (err e) h = absurd (cc)

  start_for-dc :
      (dc : Bytes) (krb : Option K) {at : Bytes} {s : S}
      → (start_for dial_smb2 dc krb).result ≡ ok (at, s)
      → at ≡ dc
  unfolding start_for
  start_for-dc [] krb h = absurd (cc)
  start_for-dc (c ∷ dc) none h = absurd (cc)
  start_for-dc (c ∷ dc) (some k) h = started-dc (c ∷ dc) _ _ h

module _ {K P H A L S F I E X : Type 0} (ldap_env : ldapx.Environment K P H A L)
    (smb_env : smbx.Environment S F I E) (dial_smb2 : SmbDial K → Result E X) where
  -- One replica. Where the LDAP dial for a controller succeeds, and a session is started for the
  -- host that its connection reports: the session dials port 445 of that controller only; and
  -- whatever the goroutines of the client that it gives do, each mount that they try is of a share
  -- of that controller.
  pub one_replica :
      (cfg : ldapx.Config K) (krb : Option K) {c : Conn H} {at : Bytes} {s : X} {x : System S E}
      → (dial ldap_env cfg).result ≡ ok c
      → (start_session dial_smb2 (record { dc = conn_dc c; krb = krb })).result ≡ ok (at, s)
      → Reach smb_env at x
      → All
          (IsPinnedDial cfg.dc krb)
          (start_session dial_smb2 (record { dc = conn_dc c; krb = krb })).dials
        × All (IsPinned cfg.dc) x.client.calls
  unfolding start_session
  one_replica cfg krb {c} {at} {s} {x} bound session reach =
      let same = dial-conn_dc ldap_env cfg bound in
      let at_dc : at ≡ cfg.dc = start_for-dc dial_smb2 (conn_dc c) krb session ∙ same in
      (
        subst
            (λ dc.
              All (IsPinnedDial dc krb)
                (start_session dial_smb2 (record { dc = conn_dc c; krb = krb })).dials)
            same (start_session-IsPinnedDial dial_smb2 (record { dc = conn_dc c; krb = krb })),
        subst (λ dc. All (IsPinned dc) x.client.calls) at_dc (Reach-mounts smb_env at reach).0,
      )
