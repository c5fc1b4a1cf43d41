-- ===== src/Transport/Smbx/Session.antt =====
-- internal/transport/smbx/smbx.go: `Dial`, which starts a session with the pinned controller.
use opengpm.Base.{
  ℕ, List, [], ◌∷◌, ◌++◌, ◌≡◌, ◌≢◌, refl, Bool, true, Option, none, some, Result, ok, err, All,
}
use opengpm.Text.{Bytes, codes}
use opengpm.Text.Fields.{join_host_port}
use opengpm.Transport.Smbx.Unc.{Unc, dial_target}

-- `Config`. A Kerberos client is one of `K`.
pub record Config (K : Type 0) : Type 0 where
  pub dc : Bytes
  pub krb : Option K

-- What go-smb2 is asked to dial.
pub record SmbDial (K : Type 0) : Type 0 where
  pub addr : Bytes
  pub target_spn : Bytes
  pub krb : K
  pub require_message_signing : Bool

pub data SessionError (E : Type 0) : Type 0 where
  empty_dc no_krb : SessionError E
  dialing : Bytes → Bytes → E → SessionError E

-- A session `S` with its controller, and what was dialled.
pub record SessionOutcome (K S E : Type 0) : Type 0 where
  pub result : Result (SessionError E) (Bytes × S)
  pub dials : List (SmbDial K)

module _ {K S E : Type 0} (dial_smb2 : SmbDial K → Result E S) where
  unfoldable pub started : Bytes → SmbDial K → Result E S → SessionOutcome K S E
  started dc d (ok s) = record { result = ok (dc, s); dials = d ∷ [] }
  started dc d (err e) = record { result = err (dialing d.addr d.target_spn e); dials = d ∷ [] }

  abbrev pub no_unc : Unc
  no_unc = record { domain = []; share = []; path = [] }

  unfoldable pub session_dial : Bytes → K → SmbDial K
  unfolding dial_target
  session_dial dc k =
      let (addr, spn) = dial_target dc no_unc in
      record { addr = addr; target_spn = spn; krb = k; require_message_signing = true }

  unfoldable pub start_for : Bytes → Option K → SessionOutcome K S E
  unfolding started session_dial
  start_for [] krb = record { result = err empty_dc; dials = [] }
  start_for (c ∷ dc) none = record { result = err no_krb; dials = [] }
  start_for (c ∷ dc) (some k) = let d = session_dial (c ∷ dc) k in started (c ∷ dc) d (dial_smb2 d)

  -- `Dial`
  unfoldable pub start_session : Config K → SessionOutcome K S E
  unfolding start_for
  start_session cfg = start_for cfg.dc cfg.krb

-- A dial of the controller `dc`, with the Kerberos client of the configuration, signed.
pub record IsPinnedDial {K : Type 0} (dc : Bytes) (krb : Option K) (d : SmbDial K) : Type 0 where
  pub at_dc : d.addr ≡ join_host_port dc (codes "445")
  pub for_dc : d.target_spn ≡ codes "cifs/" ++ dc
  pub with_krb : krb ≡ some d.krb
  pub signed : d.require_message_signing ≡ true
  pub named : dc ≢ []

module _ {K S E : Type 0} (dial_smb2 : SmbDial K → Result E S) where
  session_dial-IsPinnedDial :
      (c : ℕ) (dc : Bytes) (k : K)
      → IsPinnedDial (c ∷ dc) (some k) (session_dial dial_smb2 (c ∷ dc) k)
  unfolding session_dial dial_target
  session_dial-IsPinnedDial c dc k = record {
    at_dc = refl;
    for_dc = refl;
    with_krb = refl;
    signed = refl;
    named = λ e. cc;
  }

  started-dials :
      (dc : Bytes) (d : SmbDial K) (r : Result E S) → (started dial_smb2 dc d r).dials ≡ d ∷ []
  unfolding started
  started-dials dc d (ok s) = refl
  started-dials dc d (err e) = refl

  start_for-IsPinnedDial :
      (dc : Bytes) (krb : Option K) → All (IsPinnedDial dc krb) (start_for dial_smb2 dc krb).dials
  unfolding start_for
  start_for-IsPinnedDial [] krb = tt
  start_for-IsPinnedDial (c ∷ dc) none = tt
  start_for-IsPinnedDial (c ∷ dc) (some k) =
      let d = session_dial dial_smb2 (c ∷ dc) k in
      rw (started-dials (c ∷ dc) d (dial_smb2 d)) (session_dial-IsPinnedDial c dc k, tt)

  -- All that `Dial` dials is port 445 of the pinned controller, for its `cifs` principal, with the
  -- Kerberos client of the configuration and message signing required. A configuration that lacks
  -- the controller or the client dials nothing.
  pub start_session-IsPinnedDial :
      (cfg : Config K) → All (IsPinnedDial cfg.dc cfg.krb) (start_session dial_smb2 cfg).dials
  unfolding start_session
  start_session-IsPinnedDial cfg = start_for-IsPinnedDial cfg.dc cfg.krb
